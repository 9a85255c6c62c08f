-- ===== src/Sync/Written.antt =====
-- Which cells a synchronisation writes.
use bond_trading.Prelude.{
  ℕ, ◌≡◌, refl, subst, inl, inr, true, List, [], ◌∷◌, Option, none, some, All, Bool-cases,
  Option-cases,
}
use bond_trading.Prelude.Texts.{Text, codes, text_eq, nonempty}
use bond_trading.Prelude.Results.{ok, >>=-eq-ok, ok_injective, Result-cases}
use bond_trading.Decimal.{Decimal}
use bond_trading.Database.{SheetConnectionModel}
use bond_trading.Connections.{holds}
use bond_trading.Quotes.{
  SheetPurchaseInput, SheetCurrentCalculation, calculate_sheet_current, market_rub_price,
  summarize_paid_coupons,
}
use bond_trading.Values.{PythonLibrary, is_blank}
use bond_trading.Sync.{
  CellContent, SheetDataRow, SyncLibrary, Cells, assign_cell, assign_cells, assign_optional,
  blank_calculation_values, market_time, money_cell,
}
use bond_trading.Sync.Rows.{
  RefreshedInstrument, SheetMoexClient, Notes, coupon_cells, calculated_cells, priced_cells,
}

-- AD to AL.
abbrev pub calculation_columns : List Text
calculation_columns =
    codes "AD"
    ∷ codes "AE"
    ∷ codes "AF"
    ∷ codes "AG"
    ∷ codes "AH"
    ∷ codes "AI"
    ∷ codes "AJ"
    ∷ codes "AK"
    ∷ codes "AL"
    ∷ []

-- The columns of a row that may be written: the connection's own three for results, the columns of
-- the calculation, and J and L where the sheet has nothing there.
pub data MayWrite (c : SheetConnectionModel) (row : SheetDataRow) : Text → Type 0 where
  price_cell : MayWrite c row c.price_column
  updated_at_cell : (t : Text) → c.updated_at_column ≡ some t → MayWrite c row t
  status_cell : (t : Text) → c.status_column ≡ some t → MayWrite c row t
  calculation_cell : (t : Text) → holds calculation_columns t ≡ true → MayWrite c row t
  accrued_cell : is_blank (row.values (codes "J")) ≡ true → MayWrite c row (codes "J")
  commission_cell : is_blank (row.values (codes "L")) ≡ true → MayWrite c row (codes "L")

-- A predicate on the columns of a dictionary is kept by an assignment.
module _ (P : Text → Type 0) where
  abbrev pub Columns : Cells → Type 0
  Columns cells = All (λ (e : Text × CellContent). P e.0) cells

  pub assign_cell-Columns :
      (column : Text) (content : CellContent) (cells : Cells)
      → P column
      → Columns cells
      → Columns (assign_cell column content cells)
  unfolding assign_cell
  assign_cell-Columns column content [] p h = (p, tt)
  assign_cell-Columns column content ((c, old) ∷ cells) p h = elim (Bool-cases (text_eq c column)) [
    | inl same ↦ rw (same, assign_cell) (h.0, h.1)
    | inr other ↦ rw (other, assign_cell) (h.0, assign_cell-Columns column content cells p h.1)
  ]

  assign_cells-Columns :
      (others cells : Cells) → Columns others → Columns cells → Columns (assign_cells others cells)
  unfolding assign_cells
  assign_cells-Columns [] cells h k = k
  assign_cells-Columns ((column, content) ∷ others) cells h k =
      assign_cells-Columns others _ h.1 (assign_cell-Columns column content cells h.0 k)

  assign_optional-Columns :
      (column : Option Text) (content : CellContent) (cells : Cells)
      → ((t : Text) → column ≡ some t → P t)
      → Columns cells
      → Columns (assign_optional column content cells)
  unfolding assign_optional
  assign_optional-Columns none content cells p h = h
  assign_optional-Columns (some t) content cells p h = elim (Bool-cases (nonempty t)) [
    | inl used ↦ rw (used, assign_optional) (assign_cell-Columns t content cells (p t refl) h)
    | inr empty ↦ rw (empty, assign_optional) h
  ]

module _ (c : SheetConnectionModel) (row : SheetDataRow) where
  abbrev pub Writable : Cells → Type 0
  Writable cells = Columns (MayWrite c row) cells

  pub put_cell :
      (column : Text) (content : CellContent) (cells : Cells)
      → holds calculation_columns column ≡ true
      → Writable cells
      → Writable (assign_cell column content cells)
  put_cell column content cells p h =
      assign_cell-Columns (MayWrite c row) column content cells (calculation_cell column p) h

  pub cleared :
      (cells : Cells) → Writable cells → Writable (assign_cells blank_calculation_values cells)
  cleared cells h =
      assign_cells-Columns (MayWrite c row) blank_calculation_values cells
        (
          calculation_cell _ refl,
          (
            calculation_cell _ refl,
            (
              calculation_cell _ refl,
              (
                calculation_cell _ refl,
                (calculation_cell _ refl, (calculation_cell _ refl, (calculation_cell _ refl, tt))),
              ),
            ),
          ),
        )
        h

  -- The cells of the connection's own columns around those of the calculation.
  pub own_cells :
      (stamp status : CellContent) (cells : Cells)
      → Writable cells
      → Writable
          (assign_optional c.status_column status (assign_optional c.updated_at_column stamp cells))
  own_cells stamp status cells h =
      assign_optional-Columns (MayWrite c row) c.status_column status _ (λ t e. status_cell t e)
        (assign_optional-Columns (MayWrite c row) c.updated_at_column stamp cells
          (λ t e. updated_at_cell t e) h)

  module _ (lib : PythonLibrary) (sync : SyncLibrary) (moex : SheetMoexClient) where
    coupon_cells-Writable :
        (n : ℕ) (total : Decimal) (cells after : Cells)
        → coupon_cells lib sync moex n total cells ≡ ok after
        → Writable cells
        → Writable after
    unfolding coupon_cells
    coupon_cells-Writable n total cells after h w =
        let (paid, p, h₁) = >>=-eq-ok (money_cell sync (some total)) _ h in
        subst Writable (ok_injective h₁) (put_cell _ _ _ refl (put_cell _ _ cells refl w))

    calculated_cells-Writable :
        (r : SheetCurrentCalculation) (cells after : Cells)
        → calculated_cells lib sync moex r cells ≡ ok after
        → Writable cells
        → Writable after
    unfolding calculated_cells
    calculated_cells-Writable r cells after h w =
        let (counted, p, h1) =
          >>=-eq-ok (coupon_cells lib sync moex r.paid_coupon_count r.paid_coupons_total_rub cells)
            _ h in
        let (a, p1, h2) = >>=-eq-ok (money_cell sync (some r.current_exit_total_rub)) _ h1 in
        let (b, p2, h3) = >>=-eq-ok (money_cell sync (some r.profit_before_tax_rub)) _ h2 in
        let (d, p3, h4) = >>=-eq-ok (money_cell sync (some r.profit_after_tax_rub)) _ h3 in
        let (e, p4, h5) =
          >>=-eq-ok (money_cell sync (some r.annual_yield_after_tax_percent)) _ h4 in
        let (f, p5, h6) = >>=-eq-ok (money_cell sync r.plan_delta_pp) _ h5 in
        subst Writable (ok_injective h6) (
          put_cell _ _ _ refl (
            put_cell _ _ _ refl (
              put_cell _ _ _ refl (
                put_cell _ _ _ refl (
                  put_cell _ _ _ refl
                    (put_cell _ _ counted refl (coupon_cells-Writable _ _ cells counted p w)))))))

    pub priced_cells-Writable :
        (isin : Text) (v : RefreshedInstrument) (purchase : SheetPurchaseInput) (cells : Cells)
        (notes : Notes) (after : Cells × Notes)
        → priced_cells lib sync moex c row.row_number isin v purchase cells notes ≡ ok after
        → Writable cells
        → Writable after.0
    unfolding priced_cells
    priced_cells-Writable isin v purchase cells notes after h w =
        let day = sync.local_date (market_time v.market) in
        let paid =
          summarize_paid_coupons purchase.purchase_date day purchase.quantity v.cashflows in
        let (counted, p, h₁) = >>=-eq-ok (coupon_cells lib sync moex paid.0 paid.1 cells) _ h in
        let k = coupon_cells-Writable _ _ cells counted p w in
        let done : (x : Cells × Notes) → x ≡ after → Writable x.0 → Writable after.0 =
          λ x e y. subst (λ z. Writable z.0) e y in
        elim (Option-cases (market_rub_price v.market c.price_mode)) [
          | inl e ↦ done _ (ok_injective (rw e at h₁)) (put_cell _ _ counted refl k)
          | inr (price, e) ↦ elim (Option-cases v.market.accrued_interest_rub_per_bond) [
            | inl f ↦ done _ (ok_injective (rw (e, f) at h₁)) (put_cell _ _ counted refl k)
            | inr (accrued, f) ↦
                elim (Result-cases
                  (calculate_sheet_current purchase day price accrued v.cashflows)) [
                    | inl (error, g) ↦
                        done _ (ok_injective (rw (e, f, g) at h₁)) (put_cell _ _ counted refl k)
                    | inr (r, g) ↦
                        let (made, q, h₂) =
                          >>=-eq-ok (calculated_cells lib sync moex r counted) _
                            (rw (e, f, g) at h₁) in
                        done _ (ok_injective h₂) (calculated_cells-Writable r counted made q k)
                  ]
          ]
        ]
