-- ===== src/Quotes/Parsed.antt =====
-- The purchase that a row's cells give, and its current yield.
use bond_trading.Prelude.{
  ◌<◌, ◌≡◌, refl, inl, inr, false, List, Option, some, any, ◌||◌, Option-cases, arith, subst, ◌∙◌,
}
use bond_trading.Prelude.Results.{ok, raise_if, ok_injective, >>-eq-ok, >>=-ok, raise_if-eq-ok}
use bond_trading.Decimal.{Decimal, div, lt_zero, le_zero}
use bond_trading.Decimal.Signs.{
  IsNonneg, IsPositive, lt_zero-false, le_zero-false, IsNonneg-lt_zero,
}
use bond_trading.Decimal.Division.{div-SameSign}
use bond_trading.Calculations.Models.{Date, CorporateCashFlow}
use bond_trading.Calculations.Engine.{purchase_totals}
use bond_trading.Calculations.Cashflows.{is_negative}
use bond_trading.Calculations.Purchase.{IsValidPolicy}
use bond_trading.Calculations.Yields.{calculate_current_yield_total}
use bond_trading.Quotes.{
  SheetPurchaseInput, SheetCells, SheetCurrentCalculation, check_purchase, parse_sheet_purchase,
  sheet_yield_input, calculate_sheet_current, customer_tax_policy,
}

-- The cells that are there, and amounts that the checks let through.
pub record IsParsed (cells : SheetCells) (found : Option Decimal) (total : Decimal)
    (p : SheetPurchaseInput) : Type 0 where
  pub purchase_date : cells.purchase_date ≡ some p.purchase_date
  pub quantity : cells.quantity ≡ some p.quantity
  pub price : cells.purchase_price ≡ some p.purchase_price_rub_per_bond
  pub accrued : found ≡ some p.purchase_accrued_rub_per_bond
  pub commission : p.purchase_commission_total_rub ≡ total
  pub positive : IsPositive p.quantity
  pub nonneg_price : IsNonneg p.purchase_price_rub_per_bond
  pub nonneg_accrued : IsNonneg p.purchase_accrued_rub_per_bond
  pub nonneg_commission : IsNonneg p.purchase_commission_total_rub

check_purchase-checked :
    (p q : SheetPurchaseInput)
    → check_purchase p ≡ ok q
    → (p ≡ q)
      × IsPositive p.quantity
      × IsNonneg p.purchase_price_rub_per_bond
      × IsNonneg p.purchase_accrued_rub_per_bond
      × IsNonneg p.purchase_commission_total_rub
unfolding check_purchase
check_purchase-checked p q h =
    let (a, h₁) = >>-eq-ok (raise_if (le_zero p.quantity) _) _ h in
    let (b, h₂) =
      >>-eq-ok
        (raise_if
          (lt_zero p.purchase_price_rub_per_bond
            || lt_zero p.purchase_accrued_rub_per_bond
            || lt_zero p.purchase_commission_total_rub)
          _)
        _ h₁ in
    let c = raise_if-eq-ok _ _ b in
    (
      ok_injective h₂,
      le_zero-false p.quantity (raise_if-eq-ok _ _ a),
      lt_zero-false p.purchase_price_rub_per_bond (ground (arith, c)),
      lt_zero-false p.purchase_accrued_rub_per_bond (ground (arith, c)),
      lt_zero-false p.purchase_commission_total_rub (ground (arith, c)),
    )

-- A purchase is accepted only where the cells of date, quantity and price and the accrued interest
-- are there; it has their values, a positive quantity and no negative amount.
pub parse_sheet_purchase-IsParsed :
    (cells : SheetCells) (accrued : Option Decimal) (commission : Decimal) (p : SheetPurchaseInput)
    → parse_sheet_purchase cells accrued commission ≡ ok p
    → IsParsed cells accrued commission p
unfolding parse_sheet_purchase
parse_sheet_purchase-IsParsed cells accrued commission p h =
    elim (Option-cases cells.purchase_date) [
      | inl e ↦ absurd (cc (rw (e, parse_sheet_purchase) at h))
      | inr (day, e) ↦ elim (Option-cases cells.quantity) [
        | inl f ↦ absurd (cc (rw (e, f, parse_sheet_purchase) at h))
        | inr (quantity, f) ↦ elim (Option-cases cells.purchase_price) [
          | inl g ↦ absurd (cc (rw (e, f, g, parse_sheet_purchase) at h))
          | inr (price, g) ↦ elim (Option-cases accrued) [
            | inl k ↦ absurd (cc (rw (e, f, g, k, parse_sheet_purchase) at h))
            | inr (interest, k) ↦
                let (same, q, a, b, c) =
                  check_purchase-checked _ p (rw (e, f, g, k, parse_sheet_purchase) at h) in
                subst (IsParsed cells accrued commission) same (record {
                  purchase_date = e;
                  quantity = f;
                  price = g;
                  accrued = k;
                  commission = refl;
                  positive = q;
                  nonneg_price = a;
                  nonneg_accrued = b;
                  nonneg_commission = c;
                })
          ]
        ]
      ]
    ]

legacy-valid : IsValidPolicy customer_tax_policy
legacy-valid e = absurd (cc (e))

div-IsNonneg : (a b : Decimal) → IsNonneg a → IsPositive b → IsNonneg (div a b)
div-IsNonneg a b h k = lt_zero-false (div a b) ((div-SameSign a b k).0 ∙ IsNonneg-lt_zero a h)

-- For a parsed purchase before the valuation date with a purchase total above zero, an offer, an
-- accrued interest and cash flows that are not negative, the row's calculation succeeds.
pub calculate_sheet_current_total :
    (cells : SheetCells) (found : Option Decimal) (total : Decimal) (p : SheetPurchaseInput)
    (valuation_date : Date) (offer_rub accrued : Decimal) (cashflows : List CorporateCashFlow)
    → parse_sheet_purchase cells found total ≡ ok p
    → IsNonneg offer_rub
    → IsNonneg accrued
    → any is_negative cashflows ≡ false
    → p.purchase_date < valuation_date
    → IsPositive
        (purchase_totals
          (sheet_yield_input p valuation_date offer_rub accrued cashflows).purchase).purchase_total
    → (r : SheetCurrentCalculation) × (calculate_sheet_current p valuation_date offer_rub accrued
          cashflows
        ≡ ok r)
unfolding calculate_sheet_current sheet_yield_input
calculate_sheet_current_total cells found total p valuation_date offer_rub accrued cashflows h o a c
      d t =
    let v = parse_sheet_purchase-IsParsed cells found total p h in
    let r =
      calculate_current_yield_total (sheet_yield_input p valuation_date offer_rub accrued cashflows)
        (record {
          bid = o;
          accrued = a;
          sale_commission = refl;
          purchase = record {
            quantity = v.positive;
            clean = v.nonneg_price;
            accrued = v.nonneg_accrued;
            commission =
                div-IsNonneg p.purchase_commission_total_rub p.quantity v.nonneg_commission
                  v.positive;
          };
          cashflows = c;
        })
        d t legacy-valid in
    >>=-ok _ _ r.0 r.1
