-- ===== src/Calculations/Purchase.antt =====
-- The guards and amounts of a purchase, of the tax and of the annual yield.
use bond_trading.Prelude.{
  ℕ, ◌-◌, ◌^◌, max, ◌≤◌, ◌<◌, ◌≡◌, refl, ◌∙◌, inl, inr, true, false, Bool-cases, arith,
}
use bond_trading.Prelude.Int.{pos, negsuc, neg_part, ℤ, neg, ◌+ℤ◌, ◌*ℤ◌}
use bond_trading.Prelude.Results.{ok}
use bond_trading.Decimal.{
  Decimal, of_int, zero_decimal, add, sub, negate, mul, div, le_zero, leb_decimal,
}
use bond_trading.Decimal.Signs.{
  IsNonneg, IsPositive, IsPositive-IsNonneg, mul-IsNonneg, mul-IsPositive, add-IsNonneg,
  add-IsPositive, lt_zero-false, IsNonneg-lt_zero, le_zero-false, fix-IsNonneg,
}
use bond_trading.Decimal.Division.{SameSign, mul-SameSign, div-SameSign}
use bond_trading.Calculations.Models.{
  Date, PurchaseInput, PurchaseResult, TaxPolicy, TaxMode, no_tax, flat_rate, legacy_divide_1_13,
}
use bond_trading.Calculations.Engine.{
  validate_purchase, purchase_totals, calculate_purchase, annualize_profit, apply_tax, tax_gain,
  hundred, legacy_divisor,
}

-- What `_validate_purchase` asks for.
pub record IsValidPurchase (v : PurchaseInput) : Type 0 where
  pub quantity : IsPositive v.quantity
  pub clean : IsNonneg v.clean_price_rub_per_bond
  pub accrued : IsNonneg v.accrued_interest_rub_per_bond
  pub commission : IsNonneg v.commission_rub_per_bond

pub calculate_purchase_ok :
    (v : PurchaseInput) → IsValidPurchase v → calculate_purchase v ≡ ok (purchase_totals v)
unfolding calculate_purchase validate_purchase
calculate_purchase_ok v h = ground arith

pub calculate_purchase-valid :
    (v : PurchaseInput) (r : PurchaseResult)
    → calculate_purchase v ≡ ok r
    → IsValidPurchase v × (r ≡ purchase_totals v)
unfolding calculate_purchase validate_purchase
calculate_purchase-valid v r h = ground arith

pub record IsNonnegPurchase (r : PurchaseResult) : Type 0 where
  pub clean : IsNonneg r.clean_price_total
  pub accrued : IsNonneg r.accrued_interest_total
  pub commission : IsNonneg r.commission_total
  pub total : IsNonneg r.purchase_total

pub purchase_totals-IsNonneg :
    (v : PurchaseInput) → IsValidPurchase v → IsNonnegPurchase (purchase_totals v)
unfolding purchase_totals
purchase_totals-IsNonneg v h =
    let q = IsPositive-IsNonneg v.quantity h.quantity in
    let c = mul-IsNonneg v.clean_price_rub_per_bond v.quantity h.clean q in
    let a = mul-IsNonneg v.accrued_interest_rub_per_bond v.quantity h.accrued q in
    let m = mul-IsNonneg v.commission_rub_per_bond v.quantity h.commission q in
    record {
      clean = c;
      accrued = a;
      commission = m;
      total = add-IsNonneg _ _ (add-IsNonneg _ _ c a) m;
    }

-- A bond that costs something makes the total positive.
pub purchase_totals-IsPositive :
    (v : PurchaseInput)
    → IsValidPurchase v
    → IsPositive v.clean_price_rub_per_bond
    → IsPositive (purchase_totals v).purchase_total
unfolding purchase_totals
purchase_totals-IsPositive v h p =
    let q = IsPositive-IsNonneg v.quantity h.quantity in
    let a = mul-IsNonneg v.accrued_interest_rub_per_bond v.quantity h.accrued q in
    let m = mul-IsNonneg v.commission_rub_per_bond v.quantity h.commission q in
    add-IsPositive _ _
      (add-IsPositive _ _ (mul-IsPositive v.clean_price_rub_per_bond v.quantity p h.quantity) a) m

abbrev pub annual : Decimal → Decimal → ℕ → Decimal
annual profit total days =
    mul (div (mul (div profit total) (of_int (pos 365))) (of_int (pos days))) hundred

-- A yield has the sign of its profit.
annual-SameSign :
    (profit total : Decimal) (days : ℕ)
    → IsPositive total
    → 0 < days
    → SameSign (annual profit total days) profit
annual-SameSign profit total days t d =
    let s = div-SameSign profit total t in
    let u = mul-SameSign (div profit total) (of_int (pos 365)) (omega arith) in
    let v = div-SameSign (mul (div profit total) (of_int (pos 365))) (of_int (pos days)) d in
    let w =
      mul-SameSign (div (mul (div profit total) (of_int (pos 365))) (of_int (pos days))) hundred
        (omega arith) in
    (w.0 ∙ v.0 ∙ u.0 ∙ s.0, w.1 ∙ v.1 ∙ u.1 ∙ s.1)

pub annualize_profit_ok :
    (profit total : Decimal) (bought left : Date)
    → bought < left
    → IsPositive total
    → annualize_profit profit total bought left
      ≡ ok (annual profit total (left - bought), left - bought)
unfolding annualize_profit
annualize_profit_ok profit total bought left h p = ground arith

-- `annualize_profit` succeeds only for an exit after the purchase and a positive purchase total;
-- then the days are those between the dates, and the yield lies on the same side of zero as the
-- profit.
pub annualize_profit-sign :
    (profit total : Decimal) (bought left : Date) (y : Decimal) (days : ℕ)
    → annualize_profit profit total bought left ≡ ok (y, days)
    → (bought < left) × IsPositive total × (days ≡ left - bought) × SameSign y profit
unfolding annualize_profit
annualize_profit-sign profit total bought left y days h =
    let guards : (bought < left) × IsPositive total = ground arith in
    let e : (y ≡ annual profit total (left - bought)) × (days ≡ left - bought) = ground arith in
    (
      guards.0,
      guards.1,
      e.1,
      rw (e.0) (annual-SameSign profit total (left - bought) guards.1 (omega arith)),
    )

-- A tax policy whose rate is a share, where the rate is used.
abbrev pub IsShare : Decimal → Type 0
IsShare rate = (leb_decimal zero_decimal rate ≡ true) × (leb_decimal rate (of_int (pos 1)) ≡ true)

remaining_coef :
    (r s : ℕ)
    → r ≤ 10 ^ s
    → neg_part (pos 1 *ℤ pos (10 ^ (max 0 s - 0)) +ℤ neg (pos r) *ℤ pos (10 ^ (max 0 s - s))) ≡ 0
unfolding ◌+ℤ◌ ◌*ℤ◌ neg
remaining_coef r s h =
    let e : max 0 s - 0 ≡ s = omega arith in
    let e' : max 0 s - s ≡ 0 = omega arith in rw (e, e') (grind arith)

remaining_share : (rate : Decimal) → IsShare rate → IsNonneg (sub (of_int (pos 1)) rate)
unfolding sub add negate leb_decimal
remaining_share rate h = share rate.coef rate.scale h.0 h.1
  where
    share :
        (c : ℤ) (s : ℕ)
        → leb_decimal zero_decimal (record { coef = c; scale = s }) ≡ true
        → leb_decimal (record { coef = c; scale = s }) (of_int (pos 1)) ≡ true
        → IsNonneg (sub (of_int (pos 1)) (record { coef = c; scale = s }))
    share (pos r) s l u = fix-IsNonneg _ (remaining_coef r s (ground arith))
    share (negsuc r) s l u = absurd (ground arith)

-- A policy that `apply_tax` accepts for every profit.
abbrev pub IsValidPolicy : TaxPolicy → Type 0
IsValidPolicy p = p.mode ≡ flat_rate → IsShare p.rate

tax_gain-IsNonneg :
    (profit : Decimal) (mode : TaxMode) (rate : Decimal)
    → IsPositive profit
    → (mode ≡ flat_rate → IsShare rate)
    → (t : Decimal) × (tax_gain profit mode rate ≡ ok t) × IsNonneg t
unfolding tax_gain
tax_gain-IsNonneg profit no_tax rate p h = (profit, refl, IsPositive-IsNonneg profit p)
tax_gain-IsNonneg profit flat_rate rate p h =
    let s = h refl in
    (
      mul profit (sub (of_int (pos 1)) rate),
      rw (s.0, s.1),
      mul-IsNonneg profit _ (IsPositive-IsNonneg profit p) (remaining_share rate s),
    )
tax_gain-IsNonneg profit legacy_divide_1_13 rate p h =
    let s = div-SameSign profit legacy_divisor (omega arith) in
    (
      div profit legacy_divisor,
      refl,
      lt_zero-false (div profit legacy_divisor)
          (s.0 ∙ IsNonneg-lt_zero profit (IsPositive-IsNonneg profit p)),
    )

-- Under a valid policy the tax is always computed: a profit of zero or less is returned as it is,
-- and what is left of a gain is not below zero.
pub apply_tax_total :
    (profit : Decimal) (policy : TaxPolicy)
    → IsValidPolicy policy
    → (t : Decimal) × (apply_tax profit policy ≡ ok t)
      × (le_zero profit ≡ true → t ≡ profit)
      × (le_zero profit ≡ false → IsNonneg t)
unfolding apply_tax
apply_tax_total profit policy h = elim (Bool-cases (le_zero profit)) [
  | inl loss ↦ (profit, rw loss, λ _. refl, λ gain. absurd (cc))
  | inr gain ↦
      let r = tax_gain-IsNonneg profit policy.mode policy.rate (le_zero-false profit gain) h in
      (r.0, rw gain (r.1), λ loss. absurd (ground arith), λ _. r.2)
]
