-- ===== src/Lots/Valuation.antt =====
-- `LotService.calculate` of application/services/lots.py, with `SettingsService.get` of
-- application/services/settings.py. Parameters are the zone's date of a time (zoneinfo) and the
-- encoder of the JSON column that keeps the two results as text.
use bond_trading.Prelude.{
  ◌+◌, Bool, false, ◌&&◌, List, [], ◌∷◌, ◌++◌, Option, none, some, find, keep, sort, leb, ◌==◌,
  if◌then◌else◌,
}
use bond_trading.Prelude.Int.{pos}
use bond_trading.Prelude.Texts.{Text, codes, text_eq}
use bond_trading.Prelude.Results.{ok, err, ◌>>=◌}
use bond_trading.Errors.{domain_error}
use bond_trading.Decimal.{Decimal, zero_decimal, sub}
use bond_trading.Calculations.Models.{
  Date, ActionType, maturity, offer, no_tax, TaxMode, CorporateCashFlow, PurchaseInput, YieldResult,
  same_action,
}
use bond_trading.Calculations.Engine.{calculate_planned_yield, calculate_current_yield}
use bond_trading.Database.{
  Uuid, Time, BondInstrumentModel, BondLotModel, CorporateActionModel, MarketSnapshotModel,
  YieldSnapshotModel, AppSettingModel, stored_snapshot,
}
use bond_trading.Lots.{Portfolio, refused, Outcome, from_domain, required}

-- What `calculate` returns.
pub record CalculationBundle : Type 0 where
  pub snapshot : YieldSnapshotModel
  pub planned : YieldResult
  pub current : Option YieldResult

-- The library's parts: `astimezone(...).date()`, and the JSON column's text.
pub record ValuationLibrary : Type 0 where
  pub local_date : Time → Date
  pub encode_details : TaxMode → Decimal → YieldResult → Option YieldResult → Text

-- A row with the columns' defaults, which their columns hold exactly.
abbrev pub default_settings : Uuid → Uuid → Time → AppSettingModel
default_settings id owner now = record {
  id = id;
  created_at = now;
  owner_id = owner;
  singleton_key = codes "default";
  market_data_ttl_seconds = 900;
  tax_mode = no_tax;
  tax_rate = record { coef = pos 13; scale = 2 };
  legacy_tax_compatibility = false;
  default_sale_commission_rub_per_bond = zero_decimal;
  timezone = codes "Europe/Moscow";
  formula_version = codes "1.0.0";
}

-- `SettingsService.get`
unfoldable pub get_settings : Uuid → Time → Portfolio → AppSettingModel × Portfolio
get_settings owner now db =
    elim (find
      (λ (s : AppSettingModel). text_eq s.singleton_key (codes "default") && s.owner_id == owner)
      db.settings) [
        | some s ↦ (s, db)
        | none ↦ (
          default_settings db.next_id owner now,
          record db {
            settings = db.settings ++ default_settings db.next_id owner now ∷ [];
            next_id = db.next_id + 1;
          },
        )
      ]

-- The instrument's actions in the order of their dates.
unfoldable pub lot_actions : BondLotModel → Portfolio → List CorporateActionModel
lot_actions lot db =
    sort (λ a b. leb a.event_date b.event_date)
      (keep (λ a. a.instrument_id == lot.instrument_id) db.actions)

-- The actions that have an amount, as cash flows.
unfoldable pub cashflows_of : List CorporateActionModel → List CorporateCashFlow
cashflows_of [] = []
cashflows_of (a ∷ rest) = elim a.amount_rub_per_bond [
  | none ↦ cashflows_of rest
  | some amount ↦
      record {
        action_type = a.action_type;
        event_date = a.event_date;
        amount_rub_per_bond = amount;
      }
      ∷ cashflows_of rest
]

unfoldable pub purchase_of : BondLotModel → PurchaseInput
purchase_of lot = record {
  purchase_date = lot.purchase_date;
  quantity = lot.quantity;
  clean_price_rub_per_bond = lot.purchase_clean_price_rub_per_bond;
  accrued_interest_rub_per_bond = lot.purchase_accrued_interest_rub_per_bond;
  commission_rub_per_bond = lot.purchase_commission_rub_per_bond;
}

abbrev pub is_maturity_lot : BondLotModel → Bool
is_maturity_lot lot = text_eq lot.target_event_type (codes "maturity")

abbrev pub wanted_type : BondLotModel → ActionType
wanted_type lot = if is_maturity_lot lot then maturity else offer

-- The loop of `_target_redemption`.
unfoldable pub announced_redemption : ActionType → Date → List CorporateActionModel → Option Decimal
announced_redemption wanted day [] = none
announced_redemption wanted day (a ∷ rest) =
    let later = announced_redemption wanted day rest in
    if same_action a.action_type wanted && a.event_date == day
    then elim a.amount_rub_per_bond [ none ↦ later | some amount ↦ some amount ]
    else later

-- The face value of the lot's instrument.
unfoldable pub lot_face_value : BondLotModel → Portfolio → Option Decimal
lot_face_value lot db =
    elim (find (λ (i : BondInstrumentModel). i.id == lot.instrument_id) db.instruments) [
      | none ↦ none
      | some i ↦ i.current_face_value
    ]

unfoldable pub or_else : Option Decimal → Option Decimal → Option Decimal
or_else (some a) other = some a
or_else none other = other

-- `_target_redemption`
unfoldable pub target_redemption :
    BondLotModel → List CorporateActionModel → Portfolio → Outcome Decimal
target_redemption lot actions db =
    elim (or_else lot.target_redemption_price_rub_per_bond (
      or_else (announced_redemption (wanted_type lot) lot.target_event_date actions)
        (if is_maturity_lot lot then lot_face_value lot db else none))) [
          | some price ↦ ok price
          | none ↦ err (refused domain_error)
        ]

-- The instrument's snapshot that was received last.
unfoldable pub latest_market : BondLotModel → Portfolio → Option MarketSnapshotModel
latest_market lot db =
    elim (sort (λ a b. leb b.received_at a.received_at)
      (keep (λ m. m.instrument_id == lot.instrument_id) db.markets)) [ [] ↦ none | m ∷ _ ↦ some m ]

abbrev pub map_option : {A B : Type 0} → (A → B) → Option A → Option B
map_option f none = none
map_option f (some a) = some (f a)

module _ (lib : ValuationLibrary) (owner : Uuid) where
  open lib use {local_date, encode_details}

  -- `_valuation_date`
  unfoldable pub valuation_date : Time → Option MarketSnapshotModel → Date
  valuation_date now none = local_date now
  valuation_date now (some m) = elim m.market_timestamp [
    | none ↦ local_date now
    | some t ↦ local_date t
  ]

  unfoldable pub current_yield :
      BondLotModel
      → List CorporateCashFlow
      → AppSettingModel
      → Date
      → Decimal
      → Decimal
      → Outcome (Option YieldResult)
  current_yield lot flows settings day bid accrued =
      from_domain (
        calculate_current_yield (record {
          purchase = purchase_of lot;
          valuation_date = day;
          bid_rub_per_bond = bid;
          current_accrued_interest_rub_per_bond = accrued;
          cashflows = flows;
          sale_commission_rub_per_bond = lot.sale_commission_rub_per_bond;
          tax_policy = record { mode = settings.tax_mode; rate = settings.tax_rate };
        }))
      >>= λ r. ok (some r)

  -- The current yield where the market has a bid and an accrued interest.
  unfoldable pub market_yield :
      BondLotModel
      → List CorporateCashFlow
      → AppSettingModel
      → Date
      → Option MarketSnapshotModel
      → Outcome (Option YieldResult)
  market_yield lot flows settings day none = ok none
  market_yield lot flows settings day (some m) = elim m.bid_rub_per_bond [
    | none ↦ ok none
    | some bid ↦ elim m.accrued_interest_rub_per_bond [
      | none ↦ ok none
      | some accrued ↦ current_yield lot flows settings day bid accrued
    ]
  ]

  unfoldable pub planned_yield :
      BondLotModel → List CorporateCashFlow → AppSettingModel → Decimal → Outcome YieldResult
  planned_yield lot flows settings redemption = from_domain (
      calculate_planned_yield (record {
        purchase = purchase_of lot;
        target_date = lot.target_event_date;
        final_redemption_rub_per_bond = redemption;
        cashflows = flows;
        sale_commission_rub_per_bond = lot.sale_commission_rub_per_bond;
        tax_policy = record { mode = settings.tax_mode; rate = settings.tax_rate };
      }))

  unfoldable pub new_snapshot :
      Uuid
      → Uuid
      → Date
      → Option MarketSnapshotModel
      → AppSettingModel
      → YieldResult
      → Option YieldResult
      → Time
      → YieldSnapshotModel
  new_snapshot id lot_id day market settings planned current now = record {
    id = id;
    lot_id = lot_id;
    valuation_date = day;
    market_snapshot_id = map_option (λ m. m.id) market;
    purchase_total = planned.purchase.purchase_total;
    planned_exit_total = planned.exit_total;
    planned_profit_before_tax = planned.profit_before_tax;
    planned_profit_after_tax = planned.profit_after_tax;
    planned_annual_yield_before_tax = planned.annual_yield_before_tax;
    planned_annual_yield_after_tax = planned.annual_yield_after_tax;
    current_exit_total = map_option (λ c. c.exit_total) current;
    current_profit_before_tax = map_option (λ c. c.profit_before_tax) current;
    current_profit_after_tax = map_option (λ c. c.profit_after_tax) current;
    current_annual_yield_before_tax = map_option (λ c. c.annual_yield_before_tax) current;
    current_annual_yield_after_tax = map_option (λ c. c.annual_yield_after_tax) current;
    yield_delta_pp =
        map_option (λ c. sub c.annual_yield_after_tax planned.annual_yield_after_tax) current;
    calculation_version = settings.formula_version;
    calculation_details = encode_details settings.tax_mode settings.tax_rate planned current;
    created_at = now;
  }

  -- `calculate`; the snapshot is refreshed from its row
  unfoldable pub calculate :
      Uuid → Option Date → Time → Portfolio → Outcome (CalculationBundle × Portfolio)
  calculate lot_id day now db = do
    lot ← required owner lot_id db
    let actions = lot_actions lot db
    let flows = cashflows_of actions
    let read = get_settings owner now db
    redemption ← target_redemption lot actions db
    planned ← planned_yield lot flows read.0 redemption
    let market = latest_market lot db
    let date : Date = elim day [ none ↦ valuation_date now market | some d ↦ d ]
    current ← market_yield lot flows read.0 date market
    let made = new_snapshot read.1.next_id lot.id date market read.0 planned current now
    let snapshot = stored_snapshot db.numerics made
    ok (
      record { snapshot = snapshot; planned = planned; current = current },
      record read.1 { snapshots = read.1.snapshots ++ snapshot ∷ []; next_id = read.1.next_id + 1 },
    )
