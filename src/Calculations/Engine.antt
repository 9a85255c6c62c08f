-- ===== src/Calculations/Engine.antt =====
-- domain/calculations: engine.py, tax.py, market.py, liquidity.py. An exception is the error of a
-- result; the checks run in the source's order. An unknown member of an enumeration, which the
-- last lines of tax.py and market.py reject, has no counterpart here.
use bond_trading.Prelude.{
  ℕ, ◌-◌, Bool, not, ◌&&◌, ◌||◌, List, [], ◌∷◌, Option, none, some, any, leb, ltb, ◌==◌,
  if◌then◌else◌,
}
use bond_trading.Prelude.Int.{pos}
use bond_trading.Prelude.Results.{Result, ok, ◌>>=◌, ◌>>◌, raise_if}
use bond_trading.Errors.{DomainError, invalid_amount, invalid_holding_period}
use bond_trading.Decimal.{
  Decimal, of_int, zero_decimal, add, sub, mul, div, lt_zero, le_zero, leb_decimal, eq_decimal,
}
use bond_trading.Calculations.Models.{
  Date, ActionType, coupon, amortization, TaxMode, no_tax, flat_rate, legacy_divide_1_13,
  QuoteBasis, percent_of_face, rubles, sufficient, partial, no_bids, unknown, TaxPolicy,
  CorporateCashFlow, PurchaseInput, PlannedYieldInput, CurrentYieldInput, PurchaseResult,
  YieldResult, LiquidityResult, same_action,
}

abbrev pub Outcome : Type 0 → Type 0
Outcome A = Result DomainError A

abbrev pub hundred : Decimal
hundred = of_int (pos 100)

-- Decimal("1.13")
abbrev pub legacy_divisor : Decimal
legacy_divisor = record { coef = pos 113; scale = 2 }

-- The dispatch on the mode, for a profit above zero.
unfoldable pub tax_gain : Decimal → TaxMode → Decimal → Outcome Decimal
tax_gain profit no_tax rate = ok profit
tax_gain profit flat_rate rate =
    raise_if (not (leb_decimal zero_decimal rate && leb_decimal rate (of_int (pos 1))))
      invalid_amount
    >> ok (mul profit (sub (of_int (pos 1)) rate))
tax_gain profit legacy_divide_1_13 rate = ok (div profit legacy_divisor)

-- `apply_tax`
unfoldable pub apply_tax : Decimal → TaxPolicy → Outcome Decimal
apply_tax profit policy =
    if le_zero profit then ok profit else tax_gain profit policy.mode policy.rate

unfoldable pub quote_rubles : Decimal → Decimal → QuoteBasis → Decimal
quote_rubles bid face_value percent_of_face = mul (div bid hundred) face_value
quote_rubles bid face_value rubles = bid

-- `bid_to_rubles`
unfoldable pub bid_to_rubles : Decimal → Decimal → QuoteBasis → Outcome Decimal
bid_to_rubles bid face_value basis =
    raise_if (lt_zero bid || lt_zero face_value) invalid_amount
    >> ok (quote_rubles bid face_value basis)

unfoldable pub liquidity_at_depth : Decimal → Decimal → Option Decimal → LiquidityResult
liquidity_at_depth quantity lot_size none = record {
  status = unknown;
  available_bonds_at_best_bid = none;
}
liquidity_at_depth quantity lot_size (some depth) =
    let available = mul depth lot_size in
    record {
      status =
          if le_zero available
          then no_bids
          else if leb_decimal quantity available
          then sufficient
          else partial;
      available_bonds_at_best_bid = some available;
    }

-- `evaluate_liquidity`
unfoldable pub evaluate_liquidity :
    Decimal → Bool → Option Decimal → Decimal → Outcome LiquidityResult
evaluate_liquidity quantity bid_present bid_depth_lots lot_size =
    raise_if (le_zero quantity || le_zero lot_size) invalid_amount
    >> ok (
        if bid_present
        then liquidity_at_depth quantity lot_size bid_depth_lots
        else record { status = no_bids; available_bonds_at_best_bid = some zero_decimal })

-- `_validate_purchase`
unfoldable pub validate_purchase : PurchaseInput → Outcome (Unit {0})
validate_purchase v =
    raise_if (le_zero v.quantity) invalid_amount
    >> raise_if
        (any lt_zero (
          v.clean_price_rub_per_bond ∷ v.accrued_interest_rub_per_bond ∷ v.commission_rub_per_bond
          ∷ []))
        invalid_amount

-- The amounts of `calculate_purchase`, once validated.
unfoldable pub purchase_totals : PurchaseInput → PurchaseResult
purchase_totals v =
    let clean_total = mul v.clean_price_rub_per_bond v.quantity in
    let accrued_total = mul v.accrued_interest_rub_per_bond v.quantity in
    let commission_total = mul v.commission_rub_per_bond v.quantity in
    record {
      clean_price_total = clean_total;
      accrued_interest_total = accrued_total;
      commission_total = commission_total;
      purchase_total = add (add clean_total accrued_total) commission_total;
    }

-- `calculate_purchase`
unfoldable pub calculate_purchase : PurchaseInput → Outcome PurchaseResult
calculate_purchase v = validate_purchase v >> ok (purchase_totals v)

-- `annualize_profit`. The days held are above zero where they are returned.
unfoldable pub annualize_profit : Decimal → Decimal → Date → Date → Outcome (Decimal × ℕ)
annualize_profit profit purchase_total purchase_date exit_date =
    let days = exit_date - purchase_date in
    raise_if (leb exit_date purchase_date) invalid_holding_period
    >> (raise_if (le_zero purchase_total) invalid_amount
        >> ok (
          mul (div (mul (div profit purchase_total) (of_int (pos 365))) (of_int (pos days)))
              hundred,
          days,
        ))

-- The loop of `_cashflow_totals`: its two sums and its set of identities.
pub record Totals : Type 0 where
  pub coupons : Decimal
  pub amortizations : Decimal
  pub seen : List CorporateCashFlow

-- `(action_type, event_date, amount)` as a member of the set
abbrev pub same_identity : CorporateCashFlow → CorporateCashFlow → Bool
same_identity a b =
    same_action a.action_type b.action_type
    && a.event_date == b.event_date
    && eq_decimal a.amount_rub_per_bond b.amount_rub_per_bond

abbrev pub is_due : Date → Date → CorporateCashFlow → Bool
is_due purchase_date exit_date c = ltb purchase_date c.event_date && leb c.event_date exit_date

unfoldable pub count_cashflow : ActionType → Decimal → Totals → Totals
count_cashflow coupon amount t = record t { coupons = add t.coupons amount }
count_cashflow amortization amount t = record t { amortizations = add t.amortizations amount }
count_cashflow _ amount t = t

-- One round of the loop.
unfoldable pub cashflow_step : Date → Date → Decimal → CorporateCashFlow → Totals → Outcome Totals
cashflow_step purchase_date exit_date quantity c t =
    raise_if (lt_zero c.amount_rub_per_bond) invalid_amount
    >> ok (
        if is_due purchase_date exit_date c && not (any (same_identity c) t.seen)
        then count_cashflow c.action_type (mul c.amount_rub_per_bond quantity)
            (record t { seen = c ∷ t.seen })
        else t)

unfoldable pub cashflow_loop :
    Date → Date → Decimal → List CorporateCashFlow → Totals → Outcome Totals
cashflow_loop purchase_date exit_date quantity [] t = ok t
cashflow_loop purchase_date exit_date quantity (c ∷ cs) t =
    cashflow_step purchase_date exit_date quantity c t
    >>= cashflow_loop purchase_date exit_date quantity cs

-- `_cashflow_totals`
unfoldable pub cashflow_totals :
    List CorporateCashFlow → Date → Date → Decimal → Outcome (Decimal × Decimal)
cashflow_totals cashflows purchase_date exit_date quantity =
    cashflow_loop purchase_date exit_date quantity cashflows
      (record { coupons = zero_decimal; amortizations = zero_decimal; seen = [] })
    >>= λ t. ok (t.coupons, t.amortizations)

-- What `_yield_result` is given.
pub record Exit : Type 0 where
  pub purchase : PurchaseResult
  pub coupons : Decimal
  pub amortizations : Decimal
  pub redemption_or_market : Decimal
  pub accrued_interest : Decimal
  pub sale_commission : Decimal
  pub exit_total : Decimal
  pub purchase_date : Date
  pub exit_date : Date
  pub tax_policy : TaxPolicy

-- The `YieldResult` that `_yield_result` builds.
unfoldable pub yield_of : Exit → Decimal → Decimal × ℕ → Decimal × ℕ → YieldResult
yield_of e profit_after_tax before after = record {
  purchase = e.purchase;
  coupons_total = e.coupons;
  amortizations_total = e.amortizations;
  redemption_or_market_total = e.redemption_or_market;
  accrued_interest_total = e.accrued_interest;
  sale_commission_total = e.sale_commission;
  exit_total = e.exit_total;
  profit_before_tax = sub e.exit_total e.purchase.purchase_total;
  profit_after_tax = profit_after_tax;
  annual_yield_before_tax = before.0;
  annual_yield_after_tax = after.0;
  holding_days = before.1;
}

-- `_yield_result`
unfoldable pub yield_result : Exit → Outcome YieldResult
yield_result e = do
  let profit_before_tax = sub e.exit_total e.purchase.purchase_total
  profit_after_tax ← apply_tax profit_before_tax e.tax_policy
  before ← annualize_profit profit_before_tax e.purchase.purchase_total e.purchase_date e.exit_date
  after ← annualize_profit profit_after_tax e.purchase.purchase_total e.purchase_date e.exit_date
  ok (yield_of e profit_after_tax before after)

-- `calculate_planned_yield`, up to the call of `_yield_result`
unfoldable pub planned_exit : PlannedYieldInput → PurchaseResult → Decimal × Decimal → Exit
planned_exit v purchase flows =
    let redemption_total = mul v.final_redemption_rub_per_bond v.purchase.quantity in
    let sale_commission = mul v.sale_commission_rub_per_bond v.purchase.quantity in
    record {
      purchase = purchase;
      coupons = flows.0;
      amortizations = flows.1;
      redemption_or_market = redemption_total;
      accrued_interest = zero_decimal;
      sale_commission = sale_commission;
      exit_total = sub (add (add flows.0 flows.1) redemption_total) sale_commission;
      purchase_date = v.purchase.purchase_date;
      exit_date = v.target_date;
      tax_policy = v.tax_policy;
    }

-- `calculate_planned_yield`
unfoldable pub calculate_planned_yield : PlannedYieldInput → Outcome YieldResult
calculate_planned_yield v = do
  raise_if (lt_zero v.final_redemption_rub_per_bond || lt_zero v.sale_commission_rub_per_bond)
      invalid_amount
  purchase ← calculate_purchase v.purchase
  flows ← cashflow_totals v.cashflows v.purchase.purchase_date v.target_date v.purchase.quantity
  yield_result (planned_exit v purchase flows)

-- `calculate_current_yield`, up to the call of `_yield_result`
unfoldable pub current_exit : CurrentYieldInput → PurchaseResult → Decimal × Decimal → Exit
current_exit v purchase flows =
    let market_total = mul v.bid_rub_per_bond v.purchase.quantity in
    let accrued_total = mul v.current_accrued_interest_rub_per_bond v.purchase.quantity in
    let sale_commission = mul v.sale_commission_rub_per_bond v.purchase.quantity in
    record {
      purchase = purchase;
      coupons = flows.0;
      amortizations = flows.1;
      redemption_or_market = market_total;
      accrued_interest = accrued_total;
      sale_commission = sale_commission;
      exit_total = sub (add (add (add market_total accrued_total) flows.0) flows.1) sale_commission;
      purchase_date = v.purchase.purchase_date;
      exit_date = v.valuation_date;
      tax_policy = v.tax_policy;
    }

-- `calculate_current_yield`
unfoldable pub calculate_current_yield : CurrentYieldInput → Outcome YieldResult
calculate_current_yield v = do
  raise_if
      (any lt_zero (
        v.bid_rub_per_bond ∷ v.current_accrued_interest_rub_per_bond
        ∷ v.sale_commission_rub_per_bond ∷ []))
      invalid_amount
  purchase ← calculate_purchase v.purchase
  flows ← cashflow_totals v.cashflows v.purchase.purchase_date v.valuation_date v.purchase.quantity
  yield_result (current_exit v purchase flows)

-- Names what a run of the calculations computes with, for the tests' `unfolding` lines.
unfoldable pub engine_runs : Unit {0}
unfolding tax_gain apply_tax quote_rubles bid_to_rubles liquidity_at_depth evaluate_liquidity
    validate_purchase purchase_totals calculate_purchase annualize_profit count_cashflow
    cashflow_step cashflow_loop cashflow_totals yield_of yield_result planned_exit
    calculate_planned_yield current_exit calculate_current_yield
engine_runs = tt
