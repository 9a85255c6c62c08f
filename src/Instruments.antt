-- ===== src/Instruments.antt =====
-- application/services/instruments.py: an instrument with its corporate actions and its market
-- snapshots. The exchange's client (`MoexRefreshClient`, a protocol in the source) is a function
-- from an ISIN to its answer; a failed answer is the text of the exception.
pub mod Refreshed
pub mod Rows
pub mod Stored
pub mod Failed
pub mod Concrete
mod Samples
use bond_trading.Prelude.{
  ℕ, ◌+◌, Bool, true, false, not, ◌&&◌, ◌||◌, List, [], ◌∷◌, ◌++◌, Option, none, some, any, find,
  keep, head_of, sort, take, update_where, leb, ◌==◌, if◌then◌else◌,
}
use bond_trading.Prelude.Texts.{Text, codes, text_eq}
use bond_trading.Prelude.Results.{Result, ok, err, ◌>>=◌}
use bond_trading.Errors.{DomainError}
use bond_trading.Database.{
  Uuid, Time, BondInstrumentModel, CorporateActionModel, MarketSnapshotModel, Numerics,
  money_column, percent_column, nullable,
}
use bond_trading.Calculations.Models.{same_action}
use bond_trading.Isin.{normalize_isin}
use bond_trading.Lots.{Portfolio, new_instrument}
use bond_trading.Moex.{
  MoexInstrumentData, MoexCorporateActionData, MoexMarketData, MoexRefreshResult,
}

abbrev pub MoexRefreshClient : Type 0
MoexRefreshClient = Text → Result Text MoexRefreshResult

-- What `refresh` raises: for the ISIN, the client's exception, or the database's `IntegrityError`.
pub data RefreshError : Type 0 where
  isin_error : DomainError → RefreshError
  client_error : Text → RefreshError
  integrity_error : RefreshError

-- The text of `compare` on strings, by code points.
unfoldable pub text_leb : Text → Text → Bool
text_leb [] b = true
text_leb (x ∷ a) [] = false
text_leb (x ∷ a) (y ∷ b) = if x == y then text_leb a b else leb x y

-- `list_all`
unfoldable pub list_instruments : Portfolio → List BondInstrumentModel
unfolding text_leb
list_instruments db = sort (λ (a b : BondInstrumentModel). text_leb a.isin b.isin) db.instruments

unfoldable pub instrument_of : Text → Portfolio → Option BondInstrumentModel
instrument_of isin db = find (λ (i : BondInstrumentModel). text_eq i.isin isin) db.instruments

-- `get_by_isin`
unfoldable pub get_by_isin : Text → Portfolio → Result DomainError (Option BondInstrumentModel)
unfolding instrument_of
get_by_isin isin db = normalize_isin isin >>= λ (n : Text). ok (instrument_of n db)

-- `get_by_id`
unfoldable pub get_by_id : Uuid → Portfolio → Option BondInstrumentModel
get_by_id id db = find (λ (i : BondInstrumentModel). i.id == id) db.instruments

-- The loop of `setattr`, with the numbers as their columns keep them: the row is refreshed in the end.
abbrev pub apply_data : Numerics → MoexInstrumentData → BondInstrumentModel → BondInstrumentModel
apply_data numerics d i = record i {
  secid = d.secid;
  short_name = d.short_name;
  full_name = d.full_name;
  primary_board_id = d.primary_board_id;
  currency = d.currency;
  initial_face_value = nullable (money_column numerics) d.initial_face_value;
  current_face_value = nullable (money_column numerics) d.current_face_value;
  maturity_date = d.maturity_date;
  offer_date = d.offer_date;
  coupon_period_days = d.coupon_period_days;
  is_amortizing = d.is_amortizing;
  is_floating_coupon = d.is_floating_coupon;
  is_active = d.is_active;
  source_updated_at = some d.source_updated_at;
}

-- The instrument with the new data, and the tables with it.
unfoldable pub store_instrument :
    Option BondInstrumentModel
    → MoexInstrumentData
    → Time
    → Portfolio
    → BondInstrumentModel × Portfolio
store_instrument (some i) d now db = (
  apply_data db.numerics d i,
  record db {
    instruments =
        update_where (λ (j : BondInstrumentModel). j.id == i.id) (apply_data db.numerics d)
          db.instruments;
  },
)
store_instrument none d now db =
    let i = apply_data db.numerics d (new_instrument db.next_id d.isin (some d.short_name) now) in
    (i, record db { instruments = db.instruments ++ i ∷ []; next_id = db.next_id + 1 })

abbrev pub new_action :
    Numerics → Uuid → Uuid → Time → MoexCorporateActionData → CorporateActionModel
new_action numerics id instrument now a = record {
  id = id;
  created_at = now;
  instrument_id = instrument;
  action_type = a.action_type;
  event_date = a.event_date;
  record_date = a.record_date;
  amount_rub_per_bond = nullable (money_column numerics) a.amount_rub_per_bond;
  percent = nullable (percent_column numerics) a.percent;
  source = codes "MOEX ISS";
  source_payload_hash = a.source_payload_hash;
  source_updated_at = now;
}

-- `existing_hashes` as the rows that have them.
abbrev pub has_hash : Uuid → Text → CorporateActionModel → Bool
has_hash instrument hash a = a.instrument_id == instrument && text_eq a.source_payload_hash hash

-- One round of the loop over the actions: `known` are the rows from before it.
unfoldable pub add_action :
    List CorporateActionModel → Uuid → Time → MoexCorporateActionData → Portfolio → Portfolio
add_action known instrument now a db =
    if any (has_hash instrument a.source_payload_hash) known then db else record db {
      actions = db.actions ++ new_action db.numerics db.next_id instrument now a ∷ [];
      next_id = db.next_id + 1;
    }

unfoldable pub add_actions :
    List CorporateActionModel → Uuid → Time → List MoexCorporateActionData → Portfolio → Portfolio
unfolding add_action
add_actions known instrument now [] db = db
add_actions known instrument now (a ∷ actions) db =
    add_actions known instrument now actions (add_action known instrument now a db)

abbrev pub new_market : Numerics → Uuid → Uuid → MoexMarketData → MarketSnapshotModel
new_market numerics id instrument m = record {
  id = id;
  instrument_id = instrument;
  board_id = m.board_id;
  received_at = m.received_at;
  market_timestamp = m.market_timestamp;
  bid_percent = nullable (percent_column numerics) m.bid_percent;
  bid_rub_per_bond = nullable (money_column numerics) m.bid_rub_per_bond;
  bid_depth_lots = nullable (money_column numerics) m.bid_depth_lots;
  offer_percent = nullable (percent_column numerics) m.offer_percent;
  offer_rub_per_bond = nullable (money_column numerics) m.offer_rub_per_bond;
  offer_depth_lots = nullable (money_column numerics) m.offer_depth_lots;
  lot_size = money_column numerics m.lot_size;
  current_face_value = nullable (money_column numerics) m.current_face_value;
  accrued_interest_rub_per_bond = nullable (money_column numerics) m.accrued_interest_rub_per_bond;
  last_price_percent = nullable (percent_column numerics) m.last_price_percent;
  status = m.status;
  delayed_status = m.delayed_status;
  error_message = none;
  raw_payload = m.raw_payload;
}

unfoldable pub add_market : Uuid → MoexMarketData → Portfolio → MarketSnapshotModel × Portfolio
add_market instrument m db =
    let snapshot = new_market db.numerics db.next_id instrument m in
    (snapshot, record db { markets = db.markets ++ snapshot ∷ []; next_id = db.next_id + 1 })

-- `UniqueConstraint("instrument_id", "action_type", "event_date", "source_payload_hash")`: an action
-- that is new clashes with one that the same answer repeats, since the rows from before have other
-- hashes.
abbrev pub same_row : MoexCorporateActionData → MoexCorporateActionData → Bool
same_row a b =
    same_action a.action_type b.action_type
    && (a.event_date == b.event_date && text_eq a.source_payload_hash b.source_payload_hash)

unfoldable pub actions_clash :
    List CorporateActionModel → Uuid → List MoexCorporateActionData → Bool
actions_clash known instrument [] = false
actions_clash known instrument (a ∷ actions) =
    not (any (has_hash instrument a.source_payload_hash) known) && any (same_row a) actions
    || actions_clash known instrument actions

-- A new instrument needs an ISIN that no row has.
unfoldable pub isin_clashes : Option BondInstrumentModel → Text → Portfolio → Bool
isin_clashes (some i) isin db = false
isin_clashes none isin db = any (λ (i : BondInstrumentModel). text_eq i.isin isin) db.instruments

-- What `refresh` does with an answer.
unfoldable pub store_result :
    Option BondInstrumentModel
    → MoexRefreshResult
    → Time
    → Portfolio
    → (BondInstrumentModel × MarketSnapshotModel) × Portfolio
unfolding store_instrument add_actions add_market
store_result found r now db =
    let stored = store_instrument found r.instrument now db in
    let acted = add_actions stored.1.actions stored.0.id now r.actions stored.1 in
    let priced = add_market stored.0.id r.market acted in ((stored.0, priced.0), priced.1)

-- `ORDER BY received_at DESC LIMIT 1`
unfoldable pub latest_snapshot : Uuid → List MarketSnapshotModel → Option MarketSnapshotModel
latest_snapshot instrument markets = head_of (
    sort (λ (a b : MarketSnapshotModel). leb b.received_at a.received_at)
      (keep (λ (m : MarketSnapshotModel). m.instrument_id == instrument) markets))

abbrev pub refresh_failed : Text → MarketSnapshotModel → MarketSnapshotModel
refresh_failed error m = record m {
  status = codes "refresh_error";
  error_message = some (take 2000 error);
}

-- `_record_refresh_error`
unfoldable pub record_refresh_error : Option BondInstrumentModel → Text → Portfolio → Portfolio
unfolding latest_snapshot
record_refresh_error none error db = db
record_refresh_error (some i) error db = elim (latest_snapshot i.id db.markets) [
  | none ↦ db
  | some latest ↦ record db {
    markets =
        update_where (λ (m : MarketSnapshotModel). m.id == latest.id) (refresh_failed error)
          db.markets;
  }
]

abbrev pub Refresh : Type 0
Refresh = Result RefreshError (BondInstrumentModel × MarketSnapshotModel) × Portfolio

unfoldable pub refresh_normalized : Text → MoexRefreshClient → Time → Portfolio → Refresh
unfolding instrument_of store_result record_refresh_error isin_clashes actions_clash
refresh_normalized isin client now db =
    let found = instrument_of isin db in
    elim (client isin) [
      | err error ↦ (err (client_error error), record_refresh_error found error db)
      | ok result ↦
          let stored = store_result found result now db in
          if isin_clashes found result.instrument.isin db
            || actions_clash db.actions stored.0.0.id result.actions
          then (err integrity_error, db)
          else (ok stored.0, stored.1)
    ]

-- `refresh`; the ISIN that is looked up is normalized a second time, which changes nothing
unfoldable pub refresh : Text → MoexRefreshClient → Time → Portfolio → Refresh
unfolding refresh_normalized
refresh isin client now db = elim (normalize_isin isin) [
  | err e ↦ (err (isin_error e), db)
  | ok normalized ↦ refresh_normalized normalized client now db
]

-- Names what a refresh computes with, for the tests' `unfolding` lines.
unfoldable pub refresh_runs : Unit {0}
unfolding refresh refresh_normalized instrument_of store_result store_instrument add_actions
    add_action add_market isin_clashes actions_clash record_refresh_error latest_snapshot
refresh_runs = tt
