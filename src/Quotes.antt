-- ===== src/Quotes.antt =====
-- What a row of a sheet is computed from: application/services/sheet_calculations.py, and the
-- helpers below `record_sheet_sync_failure` in application/services/sheets.py. A cell that has been
-- parsed is none where `parse_date` or `parse_decimal` gives None.
pub mod Parsed
pub mod Flows
mod Samples
use bond_trading.Prelude.{
  ℕ, ◌+◌, Bool, true, false, ◌&&◌, ◌||◌, List, [], ◌∷◌, ◌++◌, Option, none, some, any, keep, sort,
  leb, ltb, ◌==◌, if◌then◌else◌,
}
use bond_trading.Prelude.Int.{pos}
use bond_trading.Prelude.Texts.{Text, codes}
use bond_trading.Prelude.Results.{Result, ok, err, ◌>>=◌, ◌>>◌, raise_if}
use bond_trading.Errors.{DomainError}
use bond_trading.Decimal.{
  Decimal, add, sub, mul, div, zero_decimal, lt_zero, le_zero, quantize_cents,
}
use bond_trading.Calculations.Models.{
  Date, ActionType, coupon, amortization, offer, maturity, legacy_divide_1_13, TaxPolicy,
  CorporateCashFlow, CurrentYieldInput, YieldResult, same_action,
}
use bond_trading.Calculations.Engine.{calculate_current_yield}
use bond_trading.Database.{
  Uuid, CorporateActionModel, MarketSnapshotModel, SheetPriceMode, best_bid_percent,
  best_bid_clean_rub, best_bid_full_rub, best_offer_percent, best_offer_clean_rub,
  best_offer_full_rub,
}

pub record SheetPurchaseInput : Type 0 where
  pub purchase_date : Date
  pub quantity : Decimal
  pub purchase_price_rub_per_bond : Decimal
  pub purchase_accrued_rub_per_bond : Decimal
  pub purchase_commission_total_rub : Decimal
  pub planned_annual_yield_percent : Option Decimal

pub record SheetCurrentCalculation : Type 0 where
  pub paid_coupon_count : ℕ
  pub paid_coupons_total_rub : Decimal
  pub current_exit_total_rub : Decimal
  pub profit_before_tax_rub : Decimal
  pub profit_after_tax_rub : Decimal
  pub annual_yield_after_tax_percent : Decimal
  pub plan_delta_pp : Option Decimal

-- The reason that `parse_sheet_purchase` gives: the missing columns, or what is wrong.
pub data SheetRefusal : Type 0 where
  missing : List Text → SheetRefusal
  accrued_not_found : SheetRefusal
  quantity_not_positive : SheetRefusal
  negative_amount : SheetRefusal

-- The cells E, H, I and V, parsed.
pub record SheetCells : Type 0 where
  pub purchase_date : Option Date
  pub quantity : Option Decimal
  pub purchase_price : Option Decimal
  pub planned_annual_yield : Option Decimal

unfoldable pub missing_column : {A : Type 0} → Text → Option A → List Text
missing_column column none = column ∷ []
missing_column column (some value) = []

unfoldable pub missing_columns : SheetCells → List Text
missing_columns cells =
    missing_column (codes "E") cells.purchase_date
    ++ missing_column (codes "H") cells.quantity
    ++ missing_column (codes "I") cells.purchase_price

-- The checks once all cells are there.
unfoldable pub check_purchase : SheetPurchaseInput → Result SheetRefusal SheetPurchaseInput
check_purchase p =
    raise_if (le_zero p.quantity) quantity_not_positive
    >> (raise_if
          (lt_zero p.purchase_price_rub_per_bond
            || lt_zero p.purchase_accrued_rub_per_bond
            || lt_zero p.purchase_commission_total_rub)
          negative_amount
        >> ok p)

-- `parse_sheet_purchase`
unfoldable pub parse_sheet_purchase :
    SheetCells → Option Decimal → Decimal → Result SheetRefusal SheetPurchaseInput
parse_sheet_purchase cells purchase_accrued commission_total = elim cells.purchase_date [
  | none ↦ err (missing (missing_columns cells))
  | some day ↦ elim cells.quantity [
    | none ↦ err (missing (missing_columns cells))
    | some quantity ↦ elim cells.purchase_price [
      | none ↦ err (missing (missing_columns cells))
      | some price ↦ elim purchase_accrued [
        | none ↦ err accrued_not_found
        | some accrued ↦ check_purchase (record {
          purchase_date = day;
          quantity = quantity;
          purchase_price_rub_per_bond = price;
          purchase_accrued_rub_per_bond = accrued;
          purchase_commission_total_rub = commission_total;
          planned_annual_yield_percent = cells.planned_annual_yield;
        })
      ]
    ]
  ]
]

-- The size of a set of dates.
unfoldable pub count_distinct : List ℕ → ℕ
count_distinct [] = 0
count_distinct (d ∷ ds) = (if any (λ e. e == d) ds then 0 else 1) + count_distinct ds

unfoldable pub is_paid_coupon : Date → Date → CorporateCashFlow → Bool
is_paid_coupon purchase_date valuation_date c =
    same_action c.action_type coupon
    && ltb purchase_date c.event_date
    && leb c.event_date valuation_date

unfoldable pub event_dates : List CorporateCashFlow → List ℕ
event_dates [] = []
event_dates (c ∷ cs) = c.event_date ∷ event_dates cs

unfoldable pub sum_amounts : Decimal → Decimal → List CorporateCashFlow → Decimal
sum_amounts quantity total [] = total
sum_amounts quantity total (c ∷ cs) =
    sum_amounts quantity (add total (mul c.amount_rub_per_bond quantity)) cs

-- `summarize_paid_coupons`
unfoldable pub summarize_paid_coupons : Date → Date → Decimal → List CorporateCashFlow → ℕ × Decimal
summarize_paid_coupons purchase_date valuation_date quantity cashflows =
    let paid = keep (is_paid_coupon purchase_date valuation_date) cashflows in
    (count_distinct (event_dates paid), sum_amounts quantity zero_decimal paid)

abbrev pub customer_tax_policy : TaxPolicy
customer_tax_policy = record {
  mode = legacy_divide_1_13;
  rate = record { coef = pos 13; scale = 2 };
}

-- The commission of the row is a total; the engine takes it for one bond.
unfoldable pub sheet_yield_input :
    SheetPurchaseInput → Date → Decimal → Decimal → List CorporateCashFlow → CurrentYieldInput
sheet_yield_input p valuation_date offer_rub accrued cashflows = record {
  purchase = record {
    purchase_date = p.purchase_date;
    quantity = p.quantity;
    clean_price_rub_per_bond = p.purchase_price_rub_per_bond;
    accrued_interest_rub_per_bond = p.purchase_accrued_rub_per_bond;
    commission_rub_per_bond = div p.purchase_commission_total_rub p.quantity;
  };
  valuation_date = valuation_date;
  bid_rub_per_bond = offer_rub;
  current_accrued_interest_rub_per_bond = accrued;
  cashflows = cashflows;
  sale_commission_rub_per_bond = zero_decimal;
  tax_policy = customer_tax_policy;
}

unfoldable pub plan_delta : Decimal → Option Decimal → Option Decimal
plan_delta annual none = none
plan_delta annual (some planned) = some (sub annual planned)

-- `calculate_sheet_current`
unfoldable pub calculate_sheet_current :
    SheetPurchaseInput
    → Date
    → Decimal
    → Decimal
    → List CorporateCashFlow
    → Result DomainError SheetCurrentCalculation
calculate_sheet_current p valuation_date offer_rub accrued cashflows =
    calculate_current_yield (sheet_yield_input p valuation_date offer_rub accrued cashflows)
    >>= λ (r : YieldResult). ok (record {
      paid_coupon_count =
          (summarize_paid_coupons p.purchase_date valuation_date p.quantity cashflows).0;
      paid_coupons_total_rub = r.coupons_total;
      current_exit_total_rub = r.exit_total;
      profit_before_tax_rub = r.profit_before_tax;
      profit_after_tax_rub = r.profit_after_tax;
      annual_yield_after_tax_percent = r.annual_yield_after_tax;
      plan_delta_pp = plan_delta r.annual_yield_after_tax p.planned_annual_yield_percent;
    })

unfoldable pub add_accrued : Option Decimal → Option Decimal → Option Decimal
add_accrued (some price) (some accrued) = some (add price accrued)
add_accrued (some price) none = none
add_accrued none accrued = none

-- `_market_price`
unfoldable pub market_price : MarketSnapshotModel → SheetPriceMode → Option Decimal
market_price m best_bid_percent = m.bid_percent
market_price m best_bid_full_rub = add_accrued m.bid_rub_per_bond m.accrued_interest_rub_per_bond
market_price m best_bid_clean_rub = m.bid_rub_per_bond
market_price m best_offer_percent = m.offer_percent
market_price m best_offer_full_rub =
    add_accrued m.offer_rub_per_bond m.accrued_interest_rub_per_bond
market_price m best_offer_clean_rub = m.offer_rub_per_bond

unfoldable pub is_offer_mode : SheetPriceMode → Bool
is_offer_mode best_offer_percent = true
is_offer_mode best_offer_clean_rub = true
is_offer_mode best_offer_full_rub = true
is_offer_mode best_bid_percent = false
is_offer_mode best_bid_clean_rub = false
is_offer_mode best_bid_full_rub = false

-- `_market_rub_price`
unfoldable pub market_rub_price : MarketSnapshotModel → SheetPriceMode → Option Decimal
market_rub_price m mode = if is_offer_mode mode then m.offer_rub_per_bond else m.bid_rub_per_bond

-- `_missing_quote_status`
unfoldable pub missing_quote_status : SheetPriceMode → Text
missing_quote_status mode = if is_offer_mode mode then codes "NO OFFER" else codes "NO BID"

-- The loop of `_instrument_cashflows`: a cash flow has the action's kind and date as its identity.
abbrev pub same_event : ActionType → Date → CorporateCashFlow → Bool
same_event kind day c = same_action c.action_type kind && c.event_date == day

unfoldable pub collect_cashflows :
    List CorporateCashFlow → List CorporateActionModel → List CorporateCashFlow
collect_cashflows found [] = found
collect_cashflows found (a ∷ rest) = elim a.amount_rub_per_bond [
  | none ↦ collect_cashflows found rest
  | some amount ↦
      collect_cashflows
        (if any (same_event a.action_type a.event_date) found
          then found
          else found
            ++ record {
              action_type = a.action_type;
              event_date = a.event_date;
              amount_rub_per_bond = amount;
            }
              ∷ [])
        rest
]

-- An action type's place in the order of the enumeration's strings.
unfoldable pub action_rank : ActionType → ℕ
action_rank amortization = 0
action_rank coupon = 1
action_rank maturity = 2
action_rank offer = 3

abbrev pub not_after : CorporateCashFlow → CorporateCashFlow → Bool
not_after a b =
    ltb a.event_date b.event_date
    || a.event_date == b.event_date && leb (action_rank a.action_type) (action_rank b.action_type)

-- `_instrument_cashflows`: the action that MOEX updated last counts, then sorted by date and kind
unfoldable pub instrument_cashflows : Uuid → List CorporateActionModel → List CorporateCashFlow
instrument_cashflows instrument_id actions = sort not_after (
    collect_cashflows [] (
      sort (λ a b. leb b.source_updated_at a.source_updated_at)
        (keep (λ a. a.instrument_id == instrument_id) actions)))

-- `_money` and `_percent`; none where `quantize` raises
unfoldable pub money : Option Decimal → Option (Option Decimal)
money none = some none
money (some value) = elim (quantize_cents value) [ none ↦ none | some cents ↦ some (some cents) ]

-- Names what a row of a sheet is computed with, for the tests' `unfolding` lines.
unfoldable pub quotes_runs : Unit {0}
unfolding missing_column missing_columns check_purchase parse_sheet_purchase count_distinct
    is_paid_coupon event_dates sum_amounts summarize_paid_coupons sheet_yield_input plan_delta
    calculate_sheet_current add_accrued market_price is_offer_mode market_rub_price
    missing_quote_status collect_cashflows action_rank instrument_cashflows money
quotes_runs = tt
