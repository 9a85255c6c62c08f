-- ===== src/Calculations/Samples.antt =====
-- A lot of ten bonds bought at 950 with an accrued interest of 5 and a commission of 0.4 each.
use bond_trading.Prelude.{ℕ, ◌≡◌, refl, List, [], ◌∷◌, arith}
use bond_trading.Prelude.Int.{pos}
use bond_trading.Prelude.Results.{ok}
use bond_trading.Decimal.{Decimal, of_int, zero_decimal, runs}
use bond_trading.Decimal.Signs.{IsPositive}
use bond_trading.Calculations.Models.{
  coupon, amortization, maturity, flat_rate, PurchaseInput, PlannedYieldInput, CurrentYieldInput,
  CorporateCashFlow, TaxPolicy, YieldResult,
}
use bond_trading.Calculations.Engine.{
  calculate_planned_yield, calculate_current_yield, cashflow_totals, purchase_totals, engine_runs,
}
use bond_trading.Calculations.Cashflows.{sum_of, payments, cashflow_totals_lem}
use bond_trading.Calculations.Purchase.{IsValidPurchase, IsValidPolicy}
use bond_trading.Calculations.Yields.{
  IsValidPlan, IsValidQuote, IsConsistent, cost_of, planned_total, current_total,
  calculate_planned_yield_total, calculate_planned_yield-IsConsistent,
  calculate_current_yield-IsConsistent,
}

abbrev rubles_of : ℕ → Decimal
rubles_of n = of_int (pos n)

abbrev tenths : ℕ → Decimal
tenths n = record { coef = pos n; scale = 1 }

abbrev bought : PurchaseInput
bought = record {
  purchase_date = 1000;
  quantity = rubles_of 10;
  clean_price_rub_per_bond = rubles_of 950;
  accrued_interest_rub_per_bond = rubles_of 5;
  commission_rub_per_bond = tenths 4;
}

abbrev flow : ℕ → CorporateCashFlow
flow day = record { action_type = coupon; event_date = day; amount_rub_per_bond = rubles_of 40 }

-- The second coupon is there twice; the first one falls on the day of the purchase.
abbrev flows : List CorporateCashFlow
flows =
    flow 1000
    ∷ flow 1182
    ∷ flow 1182
    ∷ record { action_type = maturity; event_date = 1365; amount_rub_per_bond = rubles_of 1000 }
    ∷ []

abbrev thirteen : TaxPolicy
thirteen = record { mode = flat_rate; rate = record { coef = pos 13; scale = 2 } }

abbrev plan : PlannedYieldInput
plan = record {
  purchase = bought;
  target_date = 1365;
  final_redemption_rub_per_bond = rubles_of 1000;
  cashflows = flows;
  sale_commission_rub_per_bond = rubles_of 0;
  tax_policy = thirteen;
}

abbrev quote : CurrentYieldInput
quote = record {
  purchase = bought;
  valuation_date = 1200;
  bid_rub_per_bond = rubles_of 900;
  current_accrued_interest_rub_per_bond = rubles_of 3;
  cashflows = flows;
  sale_commission_rub_per_bond = tenths 4;
  tax_policy = thirteen;
}

bought-valid : IsValidPurchase bought
bought-valid = record { quantity = omega arith; clean = refl; accrued = refl; commission = refl }

plan-valid : IsValidPlan plan
plan-valid = record {
  redemption = refl;
  sale_commission = refl;
  purchase = bought-valid;
  cashflows = refl;
}

quote-valid : IsValidQuote quote
quote-valid = record {
  bid = refl;
  accrued = refl;
  sale_commission = refl;
  purchase = bought-valid;
  cashflows = refl;
}

bought-costs : IsPositive (purchase_totals bought).purchase_total
unfolding runs engine_runs
bought-costs = omega arith

thirteen-valid : IsValidPolicy thirteen
unfolding runs
thirteen-valid _ = (refl, refl)

-- One coupon of 40 on ten bonds.
paid_once : cashflow_totals flows 1000 1365 (rubles_of 10) ≡ ok (rubles_of 400, rubles_of 0)
unfolding runs engine_runs
paid_once = refl

cashflow_totals_lem_example :
    cashflow_totals flows 1000 1365 (rubles_of 10)
    ≡ ok (
      sum_of coupon (rubles_of 10) zero_decimal (payments 1000 1365 flows),
      sum_of amortization (rubles_of 10) zero_decimal (payments 1000 1365 flows),
    )
cashflow_totals_lem_example = cashflow_totals_lem 1000 1365 (rubles_of 10) flows

calculate_planned_yield_total_example : (r : YieldResult) × (calculate_planned_yield plan ≡ ok r)
calculate_planned_yield_total_example =
    calculate_planned_yield_total plan plan-valid (omega arith) bought-costs thirteen-valid

planned_result : (r : YieldResult) × (calculate_planned_yield plan ≡ ok r)
unfolding runs engine_runs
planned_result = (_, refl)

current_result : (r : YieldResult) × (calculate_current_yield quote ≡ ok r)
unfolding runs engine_runs
current_result = (_, refl)

calculate_planned_yield-IsConsistent_example :
    IsValidPlan plan
    × IsConsistent 1000 1365 (cost_of bought) (planned_total plan) thirteen planned_result.0
calculate_planned_yield-IsConsistent_example =
    calculate_planned_yield-IsConsistent plan _ planned_result.1

calculate_current_yield-IsConsistent_example :
    IsValidQuote quote
    × IsConsistent 1000 1200 (cost_of bought) (current_total quote) thirteen current_result.0
calculate_current_yield-IsConsistent_example =
    calculate_current_yield-IsConsistent quote _ current_result.1
