-- ===== src/Instruments/Stored.antt =====
-- What a refresh of an instrument stores.
use bond_trading.Prelude.{
  true, false, ◌≡◌, refl, sym, subst, ◌∙◌, ap, inl, inr, List, [], ◌∷◌, ◌++◌, Option, none, some,
  any, Bool-cases, Option-cases, All, arith,
}
use bond_trading.Prelude.Rows.{In, find-In, find-none-any}
use bond_trading.Prelude.Texts.{Text, text_eq, text_eq_sound}
use bond_trading.Prelude.Results.{ok}
use bond_trading.Calculations.Models.{same_action}
use bond_trading.Database.{
  Uuid, Time, BondInstrumentModel, CorporateActionModel, MarketSnapshotModel, Numerics,
}
use bond_trading.Isin.{normalize_isin}
use bond_trading.Lots.{Portfolio, new_instrument}
use bond_trading.Moex.{
  MoexInstrumentData, MoexCorporateActionData, MoexMarketData, MoexRefreshResult,
}
use bond_trading.Instruments.{
  MoexRefreshClient, apply_data, instrument_of, store_instrument, same_row, actions_clash,
  isin_clashes, add_actions, new_market, add_market, store_result, refresh,
}
use bond_trading.Instruments.Refreshed.{
  breaks, refreshed, store_result-IsApplied, store_instrument-markets, store_instrument-found,
  add_actions-SameOthers,
}
use bond_trading.Instruments.Rows.{HasData, HasMarket, HasRow, In-add_actions, add_actions-HasRow}

-- No action of the answer has the kind, the date and the hash of a later one.
abbrev pub Unrepeated : List MoexCorporateActionData → Type 0
Unrepeated [] = Unit {0}
Unrepeated (a ∷ actions) =
    All
      (λ (b : MoexCorporateActionData).
        same_action a.action_type b.action_type ≡ true
        → a.event_date ≡ b.event_date
        → a.source_payload_hash ≡ b.source_payload_hash
        → ⊥)
      actions
    × Unrepeated actions

differs :
    (a : MoexCorporateActionData) (actions : List MoexCorporateActionData)
    → All
        (λ (b : MoexCorporateActionData).
          same_action a.action_type b.action_type ≡ true
          → a.event_date ≡ b.event_date
          → a.source_payload_hash ≡ b.source_payload_hash
          → ⊥)
        actions
    → any (same_row a) actions ≡ false
differs a [] h = refl
differs a (b ∷ actions) (here, rest) = elim (Bool-cases (same_row a b)) [
  | inr other ↦ rw other (differs a actions rest)
  | inl same ↦
      let kind : same_action a.action_type b.action_type ≡ true = ground arith in
      let date : a.event_date ≡ b.event_date = ground arith in
      let hash : text_eq a.source_payload_hash b.source_payload_hash ≡ true = ground arith in
      absurd (here kind date (text_eq_sound _ _ hash))
]

Unrepeated-clash :
    (known : List CorporateActionModel) (id : Uuid) (actions : List MoexCorporateActionData)
    → Unrepeated actions
    → actions_clash known id actions ≡ false
unfolding actions_clash
Unrepeated-clash known id [] u = refl
Unrepeated-clash known id (a ∷ actions) (here, rest) =
    let fresh = differs a actions here in
    let later = Unrepeated-clash known id actions rest in ground arith

isin_free :
    (isin other : Text) (db : Portfolio)
    → other ≡ isin
    → isin_clashes (instrument_of isin db) other db ≡ false
unfolding isin_clashes instrument_of
isin_free isin other db e = elim (Option-cases (instrument_of isin db)) [
  | inl new ↦ rw new (rw e (find-none-any _ db.instruments new))
  | inr (i, found) ↦ rw found refl
]

found_listed :
    (isin : Text) (db : Portfolio) (i : BondInstrumentModel)
    → instrument_of isin db ≡ some i
    → In i db.instruments × (i.isin ≡ isin)
unfolding instrument_of
found_listed isin db i h =
    let (m, same) =
      find-In (λ (j : BondInstrumentModel). text_eq j.isin isin) db.instruments {a = i} h in
    (m, text_eq_sound i.isin isin same)

-- What an answer leaves behind: the instrument is found by its ISIN and has the data of the answer,
-- every action of the answer has a row, one snapshot of the instrument with the market's data is
-- added, and the lots are as they were.
pub record IsStored (isin : Text) (r : MoexRefreshResult) (now : Time) (db after : Portfolio)
    (i : BondInstrumentModel) (m : MarketSnapshotModel) : Type 0 where
  pub found : instrument_of isin after ≡ some i
  pub listed : In i after.instruments × (i.isin ≡ isin)
  pub has_data : HasData db.numerics r.instrument i
  pub rows : All (HasRow i.id now db.numerics db.actions after.actions) r.actions
  pub kept : (x : CorporateActionModel) → In x db.actions → In x after.actions
  pub added : after.markets ≡ db.markets ++ m ∷ []
  pub of_instrument : m.instrument_id ≡ i.id
  pub market : HasMarket db.numerics r.market m
  pub lots : after.lots ≡ db.lots

apply_data-HasData :
    (q : Numerics) (d : MoexInstrumentData) (i : BondInstrumentModel)
    → HasData q d (apply_data q d i)
apply_data-HasData q d i = record {
  secid = refl;
  short_name = refl;
  full_name = refl;
  primary_board_id = refl;
  currency = refl;
  maturity_date = refl;
  offer_date = refl;
  coupon_period_days = refl;
  is_amortizing = refl;
  is_floating_coupon = refl;
  is_active = refl;
  initial_face_value = refl;
  current_face_value = refl;
  source_updated_at = refl;
}

store_instrument-HasData :
    (found : Option BondInstrumentModel) (d : MoexInstrumentData) (now : Time) (db : Portfolio)
    → HasData db.numerics d (store_instrument found d now db).0
unfolding store_instrument
store_instrument-HasData none d now db =
    apply_data-HasData db.numerics d (new_instrument db.next_id d.isin (some d.short_name) now)
store_instrument-HasData (some i) d now db = apply_data-HasData db.numerics d i

new_market-HasMarket :
    (q : Numerics) (id instrument : Uuid) (d : MoexMarketData)
    → HasMarket q d (new_market q id instrument d)
new_market-HasMarket q id instrument d = record {
  board_id = refl;
  received_at = refl;
  market_timestamp = refl;
  status = refl;
  delayed_status = refl;
  raw_payload = refl;
  bid_rub_per_bond = refl;
  bid_depth_lots = refl;
  offer_rub_per_bond = refl;
  offer_depth_lots = refl;
  current_face_value = refl;
  accrued_interest_rub_per_bond = refl;
  bid_percent = refl;
  offer_percent = refl;
  last_price_percent = refl;
  lot_size = refl;
  error_message = refl;
}

store_result-IsStored :
    (isin : Text) (r : MoexRefreshResult) (now : Time) (db : Portfolio)
    → r.instrument.isin ≡ isin
    → let s = store_result (instrument_of isin db) r now db in
      IsStored isin r now db s.1 s.0.0 s.0.1
unfolding store_result add_market
store_result-IsStored isin r now db e =
    let stored = store_instrument (instrument_of isin db) r.instrument now db in
    let acted = add_actions stored.1.actions stored.0.id now r.actions stored.1 in
    let others = add_actions-SameOthers stored.1.actions stored.0.id now r.actions stored.1 in
    let kept = store_instrument-markets (instrument_of isin db) r.instrument now db in
    let same = (store_instrument-found isin r.instrument now db e).1 in
    record {
      found = (store_result-IsApplied isin r now db e).found;
      listed = found_listed isin _ _ (store_result-IsApplied isin r now db e).found;
      has_data = store_instrument-HasData (instrument_of isin db) r.instrument now db;
      rows =
          subst (λ before. All (HasRow stored.0.id now db.numerics before acted.actions) r.actions)
            same
            (add_actions-HasRow db.numerics stored.1.actions stored.0.id now r.actions stored.1
              kept.3 (λ x m. m));
      kept = λ x m.
          In-add_actions x stored.1.actions stored.0.id now r.actions stored.1
            (subst (In x) (sym same) m);
      added =
          ap (λ ms. ms ++ (store_result (instrument_of isin db) r now db).0.1 ∷ [])
            (others.1 ∙ kept.0);
      of_instrument = refl;
      market =
          subst (λ n. HasMarket n r.market (store_result (instrument_of isin db) r now db).0.1)
            (others.4 ∙ kept.3)
            (new_market-HasMarket acted.numerics acted.next_id stored.0.id r.market);
      lots = others.2 ∙ kept.1;
    }

-- Where the exchange answers for the ISIN that was asked for and repeats no action, a refresh stores
-- the answer: the instrument is found by its ISIN with the data of the answer, every corporate action
-- of the answer has a row, which was there before or has the action's fields, one snapshot with the
-- market's data is added, and the lots are as they were.
pub refresh-IsStored :
    (isin n : Text) (client : MoexRefreshClient) (r : MoexRefreshResult) (now : Time)
    (db : Portfolio)
    → normalize_isin isin ≡ ok n
    → client n ≡ ok r
    → r.instrument.isin ≡ n
    → Unrepeated r.actions
    → (i : BondInstrumentModel) × (m : MarketSnapshotModel) × ((refresh isin client now db).0
        ≡ ok (i, m))
      × IsStored n r now db (refresh isin client now db).1 i m
refresh-IsStored isin n client r now db h k e u =
    let s = store_result (instrument_of n db) r now db in
    let free = isin_free n r.instrument.isin db e in
    let unbroken : breaks n r now db ≡ false =
      rw free (Unrepeated-clash db.actions s.0.0.id r.actions u) in
    rw (refreshed isin n client r now db h k unbroken)
      (s.0.0, s.0.1, refl, store_result-IsStored n r now db e)
