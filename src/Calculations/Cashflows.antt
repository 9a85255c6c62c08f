-- ===== src/Calculations/Cashflows.antt =====
-- `_cashflow_totals` against a description without a loop: the payments that fall due while the
-- bond is held, each identity once, summed by kind.
use bond_trading.Prelude.{
  ◌≡◌, refl, ap, subst, ◌∙◌, inl, inr, Bool, false, List, [], ◌∷◌, any, keep, if◌then◌else◌,
  Bool-cases, arith,
}
use bond_trading.Prelude.Results.{ok, err, ok_injective}
use bond_trading.Errors.{invalid_amount}
use bond_trading.Decimal.{Decimal, zero_decimal, add, mul, lt_zero}
use bond_trading.Decimal.Signs.{
  IsNonneg, IsPositive, IsPositive-IsNonneg, mul-IsNonneg, add-IsNonneg,
}
use bond_trading.Calculations.Models.{
  Date, ActionType, coupon, amortization, CorporateCashFlow, same_action,
}
use bond_trading.Calculations.Engine.{
  Totals, same_identity, is_due, count_cashflow, cashflow_step, cashflow_loop, cashflow_totals,
}

abbrev pub is_negative : CorporateCashFlow → Bool
is_negative c = lt_zero c.amount_rub_per_bond

-- The first occurrence of each identity that is not among those seen.
unfoldable pub first_occurrences :
    List CorporateCashFlow → List CorporateCashFlow → List CorporateCashFlow
first_occurrences seen [] = []
first_occurrences seen (c ∷ cs) =
    if any (same_identity c) seen
    then first_occurrences seen cs
    else c ∷ first_occurrences (c ∷ seen) cs

-- The payments of one kind added up, from the left as the loop does.
unfoldable pub sum_of : ActionType → Decimal → Decimal → List CorporateCashFlow → Decimal
sum_of kind quantity total [] = total
sum_of kind quantity total (c ∷ cs) =
    sum_of kind quantity
      (if same_action kind c.action_type
        then add total (mul c.amount_rub_per_bond quantity)
        else total)
      cs

abbrev pub payments : Date → Date → List CorporateCashFlow → List CorporateCashFlow
payments purchase_date exit_date cs =
    first_occurrences [] (keep (is_due purchase_date exit_date) cs)

module _ (purchase_date exit_date : Date) (quantity : Decimal) where
  abbrev pay : CorporateCashFlow → Totals → Totals
  pay c t =
      count_cashflow c.action_type (mul c.amount_rub_per_bond quantity)
        (record t { seen = c ∷ t.seen })

  abbrev pay_all : List CorporateCashFlow → Totals → Totals
  pay_all [] t = t
  pay_all (c ∷ cs) t = pay_all cs (pay c t)

  seen-pay : (c : CorporateCashFlow) (t : Totals) → (pay c t).seen ≡ c ∷ t.seen
  unfolding count_cashflow
  seen-pay c t = ground arith

  cashflow_loop-pay_all :
      (cs : List CorporateCashFlow) (t : Totals)
      → cashflow_loop purchase_date exit_date quantity cs t ≡ (
          if any is_negative cs
          then err invalid_amount
          else ok (pay_all (first_occurrences t.seen (keep (is_due purchase_date exit_date) cs)) t))
  unfolding cashflow_loop cashflow_step first_occurrences
  cashflow_loop-pay_all [] t = refl
  cashflow_loop-pay_all (c ∷ cs) t =
      ground (arith, seen-pay c t, cashflow_loop-pay_all cs t, cashflow_loop-pay_all cs (pay c t))

  coupons-pay :
      (c : CorporateCashFlow) (t : Totals)
      → (pay c t).coupons ≡ (
          if same_action coupon c.action_type
          then add t.coupons (mul c.amount_rub_per_bond quantity)
          else t.coupons)
  unfolding count_cashflow
  coupons-pay c t = ground arith

  amortizations-pay :
      (c : CorporateCashFlow) (t : Totals)
      → (pay c t).amortizations ≡ (
          if same_action amortization c.action_type
          then add t.amortizations (mul c.amount_rub_per_bond quantity)
          else t.amortizations)
  unfolding count_cashflow
  amortizations-pay c t = ground arith

  coupons-pay_all :
      (cs : List CorporateCashFlow) (t : Totals)
      → (pay_all cs t).coupons ≡ sum_of coupon quantity t.coupons cs
  unfolding sum_of
  coupons-pay_all [] t = refl
  coupons-pay_all (c ∷ cs) t =
      coupons-pay_all cs (pay c t)
      ∙ ap (λ (a : Decimal). sum_of coupon quantity a cs) (coupons-pay c t)

  amortizations-pay_all :
      (cs : List CorporateCashFlow) (t : Totals)
      → (pay_all cs t).amortizations ≡ sum_of amortization quantity t.amortizations cs
  unfolding sum_of
  amortizations-pay_all [] t = refl
  amortizations-pay_all (c ∷ cs) t =
      amortizations-pay_all cs (pay c t)
      ∙ ap (λ (a : Decimal). sum_of amortization quantity a cs) (amortizations-pay c t)

  -- The loop rejects any negative amount, also one that does not fall due, and otherwise returns
  -- the sums of the coupons and of the amortizations among the payments due after the purchase
  -- and up to the exit, each identity (kind, date, amount) counted once.
  pub cashflow_totals_lem :
      (cs : List CorporateCashFlow)
      → cashflow_totals cs purchase_date exit_date quantity ≡ (
          if any is_negative cs
          then err invalid_amount
          else ok (
            sum_of coupon quantity zero_decimal (payments purchase_date exit_date cs),
            sum_of amortization quantity zero_decimal (payments purchase_date exit_date cs),
          ))
  unfolding cashflow_totals
  cashflow_totals_lem cs =
      let start : Totals = record {
        coupons = zero_decimal;
        amortizations = zero_decimal;
        seen = [];
      } in
      let paid = payments purchase_date exit_date cs in
      rw (cashflow_loop-pay_all cs start)
        (ground (arith, coupons-pay_all paid start, amortizations-pay_all paid start))

sum_of-IsNonneg :
    (kind : ActionType) (quantity total : Decimal) (cs : List CorporateCashFlow)
    → IsNonneg quantity
    → IsNonneg total
    → any is_negative cs ≡ false
    → IsNonneg (sum_of kind quantity total cs)
unfolding sum_of
sum_of-IsNonneg kind quantity total [] q t h = t
sum_of-IsNonneg kind quantity total (c ∷ cs) q t h =
    let paid =
      add-IsNonneg total (mul c.amount_rub_per_bond quantity) t
        (mul-IsNonneg c.amount_rub_per_bond quantity (ground arith) q) in
    elim (Bool-cases (same_action kind c.action_type)) [
      | inl counted ↦
          rw (counted, sum_of)
            (sum_of-IsNonneg kind quantity (add total (mul c.amount_rub_per_bond quantity)) cs q
              paid (ground arith))
      | inr skipped ↦
          rw (skipped, sum_of) (sum_of-IsNonneg kind quantity total cs q t (ground arith))
    ]

keep-nonneg :
    (p : CorporateCashFlow → Bool) (cs : List CorporateCashFlow)
    → any is_negative cs ≡ false
    → any is_negative (keep p cs) ≡ false
keep-nonneg p [] h = refl
keep-nonneg p (c ∷ cs) h = ground (arith, keep-nonneg p cs)

first_occurrences-nonneg :
    (seen cs : List CorporateCashFlow)
    → any is_negative cs ≡ false
    → any is_negative (first_occurrences seen cs) ≡ false
unfolding first_occurrences
first_occurrences-nonneg seen [] h = refl
first_occurrences-nonneg seen (c ∷ cs) h =
    ground (arith, first_occurrences-nonneg seen cs, first_occurrences-nonneg (c ∷ seen) cs)

pub paid-IsNonneg :
    (kind : ActionType) (purchase_date exit_date : Date) (quantity : Decimal)
    (cs : List CorporateCashFlow)
    → IsPositive quantity
    → any is_negative cs ≡ false
    → IsNonneg (sum_of kind quantity zero_decimal (payments purchase_date exit_date cs))
paid-IsNonneg kind purchase_date exit_date quantity cs q h =
    sum_of-IsNonneg kind quantity zero_decimal _ (IsPositive-IsNonneg quantity q) refl
      (first_occurrences-nonneg [] _ (keep-nonneg _ cs h))

-- For a positive quantity, neither sum that `cashflow_totals` returns is negative.
pub cashflow_totals-IsNonneg :
    (cs : List CorporateCashFlow) (purchase_date exit_date : Date)
    (quantity coupons amortizations : Decimal)
    → IsPositive quantity
    → cashflow_totals cs purchase_date exit_date quantity ≡ ok (coupons, amortizations)
    → IsNonneg coupons × IsNonneg amortizations
cashflow_totals-IsNonneg cs purchase_date exit_date quantity coupons amortizations q h =
    elim (Bool-cases (any is_negative cs)) [
      | inl bad ↦
          absurd
            (cc (rw bad at (rw (cashflow_totals_lem purchase_date exit_date quantity cs) at h)))
      | inr good ↦
          let p =
            ok_injective
              (rw good at (rw (cashflow_totals_lem purchase_date exit_date quantity cs) at h)) in
          subst (λ r. IsNonneg r.0 × IsNonneg r.1) p
            (
              paid-IsNonneg coupon purchase_date exit_date quantity cs q good,
              paid-IsNonneg amortization purchase_date exit_date quantity cs q good,
            )
    ]
