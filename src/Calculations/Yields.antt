-- ===== src/Calculations/Yields.antt =====
-- What a planned or current yield says when it is returned, and when it is returned.
use bond_trading.Prelude.{
  ℕ, ◌-◌, ◌<◌, ◌≡◌, refl, inl, inr, ◌∙◌, sym, subst, false, ◌||◌, any, List, [], ◌∷◌, arith,
  Bool-cases,
}
use mathlib.Core.Path.{subst₂}
use bond_trading.Prelude.Results.{
  Result, ok, raise_if, >>=-eq-ok, >>-eq-ok, raise_if-eq-ok, ok_injective,
}
use bond_trading.Errors.{DomainError, invalid_amount}
use bond_trading.Decimal.{Decimal, zero_decimal, add, sub, mul, lt_zero}
use bond_trading.Decimal.Signs.{IsNonneg, IsPositive}
use bond_trading.Decimal.Division.{SameSign}
use bond_trading.Calculations.Models.{
  Date, coupon, amortization, TaxPolicy, PurchaseInput, PlannedYieldInput, CurrentYieldInput,
  YieldResult, CorporateCashFlow,
}
use bond_trading.Calculations.Engine.{
  Exit, calculate_purchase, purchase_totals, cashflow_totals, annualize_profit, apply_tax, yield_of,
  yield_result, planned_exit, current_exit, calculate_planned_yield, calculate_current_yield,
}
use bond_trading.Calculations.Cashflows.{is_negative, payments, sum_of, cashflow_totals_lem}
use bond_trading.Calculations.Purchase.{
  IsValidPurchase, IsValidPolicy, annual, annualize_profit_ok, annualize_profit-sign,
  apply_tax_total, calculate_purchase_ok, calculate_purchase-valid,
}

-- How the fields of a result hang together, for what the purchase cost and what the exit brings.
pub record IsConsistent (bought left : Date) (cost total : Decimal) (policy : TaxPolicy)
    (r : YieldResult) : Type 0 where
  pub exit_after_purchase : bought < left
  pub days : r.holding_days ≡ left - bought
  pub invested : IsPositive cost
  pub purchase_total : r.purchase.purchase_total ≡ cost
  pub exit_total : r.exit_total ≡ total
  pub profit : r.profit_before_tax ≡ sub total cost
  pub taxed : apply_tax r.profit_before_tax policy ≡ ok r.profit_after_tax
  pub sign_before : SameSign r.annual_yield_before_tax r.profit_before_tax
  pub sign_after : SameSign r.annual_yield_after_tax r.profit_after_tax

abbrev FitsExit : Exit → YieldResult → Type 0
FitsExit e r =
    IsConsistent e.purchase_date e.exit_date e.purchase.purchase_total e.exit_total e.tax_policy r

-- What a purchase costs.
abbrev pub cost_of : PurchaseInput → Decimal
cost_of p =
    add
      (add (mul p.clean_price_rub_per_bond p.quantity)
        (mul p.accrued_interest_rub_per_bond p.quantity))
      (mul p.commission_rub_per_bond p.quantity)

abbrev profit_of : Exit → Decimal
profit_of e = sub e.exit_total e.purchase.purchase_total

abbrev annualized : Exit → Decimal → Result DomainError (Decimal × ℕ)
annualized e profit = annualize_profit profit e.purchase.purchase_total e.purchase_date e.exit_date

yield_of-IsConsistent :
    (e : Exit) (t : Decimal) (before after : Decimal × ℕ)
    → apply_tax (profit_of e) e.tax_policy ≡ ok t
    → annualized e (profit_of e) ≡ ok before
    → annualized e t ≡ ok after
    → FitsExit e (yield_of e t before after)
unfolding yield_of
yield_of-IsConsistent e t before after p b a =
    let s = annualize_profit-sign _ _ _ _ before.0 before.1 b in
    let s' = annualize_profit-sign _ _ _ _ after.0 after.1 a in
    record {
      exit_after_purchase = s.0;
      days = s.2;
      invested = s.1;
      purchase_total = refl;
      exit_total = refl;
      profit = refl;
      taxed = p;
      sign_before = s.3;
      sign_after = s'.3;
    }

pub yield_result-IsConsistent : (e : Exit) (r : YieldResult) → yield_result e ≡ ok r → FitsExit e r
unfolding yield_result
yield_result-IsConsistent e r h =
    let (t, p, h₁) = >>=-eq-ok (apply_tax (profit_of e) e.tax_policy) _ h in
    let (before, b, h₂) = >>=-eq-ok (annualized e (profit_of e)) _ h₁ in
    let (after, a, h₃) = >>=-eq-ok (annualized e t) _ h₂ in
    subst (FitsExit e) (ok_injective h₃) (yield_of-IsConsistent e t before after p b a)

pub yield_result_total :
    (e : Exit)
    → e.purchase_date < e.exit_date
    → IsPositive e.purchase.purchase_total
    → IsValidPolicy e.tax_policy
    → (r : YieldResult) × (yield_result e ≡ ok r)
unfolding yield_result
yield_result_total e d p v =
    let t = apply_tax_total (profit_of e) e.tax_policy v in
    let b = annualize_profit_ok (profit_of e) e.purchase.purchase_total _ _ d p in
    let a = annualize_profit_ok t.0 e.purchase.purchase_total _ _ d p in
    let days = e.exit_date - e.purchase_date in
    let total = e.purchase.purchase_total in
    (
      yield_of e t.0 (annual (profit_of e) total days, days) (annual t.0 total days, days),
      rw (t.1, b, a),
    )

-- What the planned calculation asks for, the dates and the purchase total aside.
pub record IsValidPlan (v : PlannedYieldInput) : Type 0 where
  pub redemption : IsNonneg v.final_redemption_rub_per_bond
  pub sale_commission : IsNonneg v.sale_commission_rub_per_bond
  pub purchase : IsValidPurchase v.purchase
  pub cashflows : any is_negative v.cashflows ≡ false

-- The same of the current calculation.
pub record IsValidQuote (v : CurrentYieldInput) : Type 0 where
  pub bid : IsNonneg v.bid_rub_per_bond
  pub accrued : IsNonneg v.current_accrued_interest_rub_per_bond
  pub sale_commission : IsNonneg v.sale_commission_rub_per_bond
  pub purchase : IsValidPurchase v.purchase
  pub cashflows : any is_negative v.cashflows ≡ false

module _ (bought left : Date) (quantity : Decimal) where
  abbrev pub sums : List CorporateCashFlow → Decimal × Decimal
  sums cs = (
    sum_of coupon quantity zero_decimal (payments bought left cs),
    sum_of amortization quantity zero_decimal (payments bought left cs),
  )

  cashflow_totals_ok :
      (cs : List CorporateCashFlow)
      → any is_negative cs ≡ false
      → cashflow_totals cs bought left quantity ≡ ok (sums cs)
  cashflow_totals_ok cs h = cashflow_totals_lem bought left quantity cs ∙ rw h refl

  cashflow_totals-valid :
      (cs : List CorporateCashFlow) (flows : Decimal × Decimal)
      → cashflow_totals cs bought left quantity ≡ ok flows
      → (any is_negative cs ≡ false) × (flows ≡ sums cs)
  cashflow_totals-valid cs flows h =
      let e = cashflow_totals_lem bought left quantity cs in
      elim (Bool-cases (any is_negative cs)) [
        | inl bad ↦ absurd (ground arith)
        | inr good ↦ (good, ok_injective (sym h ∙ cashflow_totals_ok cs good))
      ]

-- What a planned exit brings: coupons, amortizations and redemption less the commission.
abbrev pub planned_total : PlannedYieldInput → Decimal
planned_total v =
    let flows = sums v.purchase.purchase_date v.target_date v.purchase.quantity v.cashflows in
    sub (add (add flows.0 flows.1) (mul v.final_redemption_rub_per_bond v.purchase.quantity))
      (mul v.sale_commission_rub_per_bond v.purchase.quantity)

-- What a sale brings: market value, accrued interest, coupons and amortizations less the commission.
abbrev pub current_total : CurrentYieldInput → Decimal
current_total v =
    let flows = sums v.purchase.purchase_date v.valuation_date v.purchase.quantity v.cashflows in
    sub
      (add
        (add
          (add (mul v.bid_rub_per_bond v.purchase.quantity)
            (mul v.current_accrued_interest_rub_per_bond v.purchase.quantity))
          flows.0)
        flows.1)
      (mul v.sale_commission_rub_per_bond v.purchase.quantity)

-- Valid input, a target date after the purchase, a purchase total above zero and a valid tax
-- policy always give a planned yield.
pub calculate_planned_yield_total :
    (v : PlannedYieldInput)
    → IsValidPlan v
    → v.purchase.purchase_date < v.target_date
    → IsPositive (purchase_totals v.purchase).purchase_total
    → IsValidPolicy v.tax_policy
    → (r : YieldResult) × (calculate_planned_yield v ≡ ok r)
unfolding calculate_planned_yield planned_exit
calculate_planned_yield_total v h d p t =
    let flows = sums v.purchase.purchase_date v.target_date v.purchase.quantity v.cashflows in
    let y = yield_result_total (planned_exit v (purchase_totals v.purchase) flows) d p t in
    (
      y.0,
      ground (
        arith,
        y.1,
        calculate_purchase_ok v.purchase h.purchase,
        cashflow_totals_ok v.purchase.purchase_date v.target_date v.purchase.quantity v.cashflows
            h.cashflows,
      ),
    )

either-IsNonneg : (a b : Decimal) → (lt_zero a || lt_zero b) ≡ false → IsNonneg a × IsNonneg b
either-IsNonneg a b h = ground arith

all-IsNonneg :
    (a b c : Decimal) → any lt_zero (a ∷ b ∷ c ∷ []) ≡ false → IsNonneg a × IsNonneg b × IsNonneg c
all-IsNonneg a b c h = ground arith

-- A planned yield is returned only for valid input, and then for an exit after the purchase and a
-- purchase total above zero. Its exit total is coupons, amortizations and redemption less the
-- commission, its profit the exit total less the purchase total, the profit after tax is the tax
-- rule's, and both annual yields lie on the same side of zero as their profits.
pub calculate_planned_yield-IsConsistent :
    (v : PlannedYieldInput) (r : YieldResult)
    → calculate_planned_yield v ≡ ok r
    → IsValidPlan v
      × IsConsistent v.purchase.purchase_date v.target_date
          (cost_of v.purchase)
          (planned_total v)
          v.tax_policy
          r
unfolding calculate_planned_yield planned_exit purchase_totals
calculate_planned_yield-IsConsistent v r h =
    let (g, h₁) = >>-eq-ok (raise_if _ invalid_amount) _ h in
    let (purchase, p, h₂) = >>=-eq-ok (calculate_purchase v.purchase) _ h₁ in
    let (flows, f, h₃) =
      >>=-eq-ok
        (cashflow_totals v.cashflows v.purchase.purchase_date v.target_date v.purchase.quantity) _
        h₂ in
    let signs =
      either-IsNonneg v.final_redemption_rub_per_bond v.sale_commission_rub_per_bond
        (raise_if-eq-ok _ _ g) in
    let (valid, pe) = calculate_purchase-valid v.purchase purchase p in
    let (good, fe) =
      cashflow_totals-valid v.purchase.purchase_date v.target_date v.purchase.quantity v.cashflows
        flows f in
    (
      record {
        redemption = signs.0;
        sale_commission = signs.1;
        purchase = valid;
        cashflows = good;
      },
      subst₂ (λ a b. FitsExit (planned_exit v a b) r) pe fe (yield_result-IsConsistent _ r h₃),
    )

-- Valid input, a valuation date after the purchase, a purchase total above zero and a valid tax
-- policy always give a current yield.
pub calculate_current_yield_total :
    (v : CurrentYieldInput)
    → IsValidQuote v
    → v.purchase.purchase_date < v.valuation_date
    → IsPositive (purchase_totals v.purchase).purchase_total
    → IsValidPolicy v.tax_policy
    → (r : YieldResult) × (calculate_current_yield v ≡ ok r)
unfolding calculate_current_yield current_exit
calculate_current_yield_total v h d p t =
    let flows = sums v.purchase.purchase_date v.valuation_date v.purchase.quantity v.cashflows in
    let y = yield_result_total (current_exit v (purchase_totals v.purchase) flows) d p t in
    (
      y.0,
      ground (
        arith,
        y.1,
        calculate_purchase_ok v.purchase h.purchase,
        cashflow_totals_ok v.purchase.purchase_date v.valuation_date v.purchase.quantity v.cashflows
            h.cashflows,
      ),
    )

-- A current yield is returned only for valid input, and then for a valuation after the purchase
-- and a purchase total above zero. Its exit total is market value, accrued interest, coupons and
-- amortizations less the commission, its profit the exit total less the purchase total, the profit
-- after tax is the tax rule's, and both annual yields lie on the same side of zero as their
-- profits.
pub calculate_current_yield-IsConsistent :
    (v : CurrentYieldInput) (r : YieldResult)
    → calculate_current_yield v ≡ ok r
    → IsValidQuote v
      × IsConsistent v.purchase.purchase_date v.valuation_date
          (cost_of v.purchase)
          (current_total v)
          v.tax_policy
          r
unfolding calculate_current_yield current_exit purchase_totals
calculate_current_yield-IsConsistent v r h =
    let (g, h₁) = >>-eq-ok (raise_if _ invalid_amount) _ h in
    let (purchase, p, h₂) = >>=-eq-ok (calculate_purchase v.purchase) _ h₁ in
    let (flows, f, h₃) =
      >>=-eq-ok
        (cashflow_totals v.cashflows v.purchase.purchase_date v.valuation_date v.purchase.quantity)
        _ h₂ in
    let signs =
      all-IsNonneg v.bid_rub_per_bond v.current_accrued_interest_rub_per_bond
        v.sale_commission_rub_per_bond (raise_if-eq-ok _ _ g) in
    let (valid, pe) = calculate_purchase-valid v.purchase purchase p in
    let (good, fe) =
      cashflow_totals-valid v.purchase.purchase_date v.valuation_date v.purchase.quantity
        v.cashflows flows f in
    (
      record {
        bid = signs.0;
        accrued = signs.1;
        sale_commission = signs.2;
        purchase = valid;
        cashflows = good;
      },
      subst₂ (λ a b. FitsExit (current_exit v a b) r) pe fe (yield_result-IsConsistent _ r h₃),
    )
