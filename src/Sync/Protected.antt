-- ===== src/Sync/Protected.antt =====
-- A synchronisation writes no cell that a user fills in.
use bond_trading.Prelude.{
  ◌≡◌, refl, subst, inl, inr, List, [], ◌∷◌, Option, none, some, All, Bool-cases, Option-cases,
}
use bond_trading.Prelude.Texts.{Text, codes}
use bond_trading.Prelude.Results.{ok, >>=-eq-ok, ok_injective, Result-cases}
use bond_trading.Decimal.{Decimal}
use bond_trading.Database.{SheetConnectionModel}
use bond_trading.Quotes.{parse_sheet_purchase}
use bond_trading.Values.{PythonLibrary, is_blank}
use bond_trading.Sync.{
  amount_or_blank, CellContent, blank, SheetDataRow, CellUpdate, SyncLibrary, Cells, assign_cell,
  cell_updates, failed_row_updates, parse_decimal, parse_date, money_cell,
}
use bond_trading.Sync.Rows.{
  RefreshedInstrument, SheetMoexClient, Notes, default_purchase_commission, look_up_accrued,
  purchase_accrued, purchase_cells, cells_of_row, market_cells, row_cells, row_updates,
}
use bond_trading.Sync.Written.{
  MayWrite, price_cell, accrued_cell, commission_cell, Writable, assign_cell-Columns, put_cell,
  cleared, own_cells, priced_cells-Writable,
}

module _ (c : SheetConnectionModel) (row : SheetDataRow) where
  -- What every round begins with.
  first_cells :
      (price accrued : CellContent)
      → Writable c row (assign_cell (codes "AD") accrued ((c.price_column, price) ∷ []))
  first_cells price accrued =
      put_cell c row (codes "AD") accrued ((c.price_column, price) ∷ []) refl (price_cell, tt)

  module _ (lib : PythonLibrary) (sync : SyncLibrary) (moex : SheetMoexClient) where
    purchase_accrued-Writable :
        (isin : Text) (v : RefreshedInstrument) (cells : Cells) (notes : Notes)
        (after : (Option Decimal × Cells) × Notes)
        → purchase_accrued lib sync moex row isin v cells notes ≡ ok after
        → Writable c row cells
        → Writable c row after.0.1
    unfolding purchase_accrued
    purchase_accrued-Writable isin v cells notes after h w =
        let done : (x : (Option Decimal × Cells) × Notes)
            → x ≡ after
            → Writable c row x.0.1
            → Writable c row after.0.1 =
          λ x e y. subst (λ z. Writable c row z.0.1) e y in
        elim (Option-cases (parse_date lib (row.values (codes "E")))) [
          | inl e ↦ done _ (ok_injective (rw (e, purchase_accrued) at h)) w
          | inr (day, e) ↦ elim (Bool-cases (is_blank (row.values (codes "J")))) [
            | inr given ↦ done _ (ok_injective (rw (e, given, purchase_accrued) at h)) w
            | inl empty ↦
                let found = look_up_accrued lib sync moex row.row_number isin v day notes in
                elim (Option-cases found.0) [
                  | inl f ↦ done _ (ok_injective (rw (e, empty, f, purchase_accrued) at h)) w
                  | inr (accrued, f) ↦
                      let (cell, p, h₁) =
                        >>=-eq-ok (money_cell sync (some accrued)) _
                          (rw (e, empty, f, purchase_accrued) at h) in
                      done _ (ok_injective h₁) (
                        assign_cell-Columns (MayWrite c row) (codes "J") cell cells
                          (accrued_cell empty) w)
                ]
          ]
        ]

    purchase_cells-Writable :
        (isin : Text) (v : RefreshedInstrument) (commission : Decimal) (cells : Cells)
        (notes : Notes) (after : Cells × Notes)
        → purchase_cells lib sync moex c row isin v commission cells notes ≡ ok after
        → Writable c row cells
        → Writable c row after.0
    unfolding purchase_cells
    purchase_cells-Writable isin v commission cells notes after h w =
        let (found, p, h₁) =
          >>=-eq-ok (purchase_accrued lib sync moex row isin v cells notes) _ h in
        let k = cleared c row found.0.1 (purchase_accrued-Writable isin v cells notes found p w) in
        elim (Result-cases
          (parse_sheet_purchase (cells_of_row lib sync moex row) found.0.0 commission)) [
            | inl (e, f) ↦
                subst (λ (z : Cells × Notes). Writable c row z.0) (ok_injective (rw f at h₁))
                  (put_cell c row _ _ _ refl k)
            | inr (purchase, f) ↦
                priced_cells-Writable c row lib sync moex isin v purchase _ found.1 after
                  (rw f at h₁) k
          ]

    row_cells-Writable :
        (isin : Text) (v : RefreshedInstrument) (notes : Notes) (after : Cells × Notes)
        → row_cells lib sync moex c row isin v notes ≡ ok after
        → Writable c row after.0
    unfolding row_cells market_cells
    row_cells-Writable isin v notes after h =
        let (cells, p, h₁) = >>=-eq-ok (market_cells lib sync moex c v) _ h in
        let (accrued, q, h₂) =
          >>=-eq-ok (money_cell sync v.market.accrued_interest_rub_per_bond) _ p in
        let w : Writable c row cells =
          subst (Writable c row) (ok_injective h₂)
            (own_cells c row _ _ _ (first_cells (amount_or_blank v.price) accrued)) in
        elim (Bool-cases (is_blank (row.values (codes "L")))) [
          | inl empty ↦
              purchase_cells-Writable isin v default_purchase_commission _ notes after
                (rw empty at h₁)
                (assign_cell-Columns (MayWrite c row) (codes "L") _ cells (commission_cell empty) w)
          | inr given ↦ elim (Option-cases (parse_decimal lib (row.values (codes "L")))) [
            | inl e ↦
                subst (λ (z : Cells × Notes). Writable c row z.0)
                  (ok_injective (rw (given, e) at h₁))
                  (put_cell c row _ _ _ refl (cleared c row cells w))
            | inr (commission, e) ↦
                purchase_cells-Writable isin v commission cells notes after (rw (given, e) at h₁) w
          ]
        ]

-- Updates of one row, all in columns that may be written.
abbrev pub IsRowUpdate : SheetConnectionModel → SheetDataRow → CellUpdate → Type 0
IsRowUpdate c row u = (u.row_number ≡ row.row_number) × MayWrite c row u.column

cell_updates-IsRowUpdate :
    (c : SheetConnectionModel) (row : SheetDataRow) (cells : Cells)
    → Writable c row cells
    → All (IsRowUpdate c row) (cell_updates row.row_number cells)
unfolding cell_updates
cell_updates-IsRowUpdate c row [] w = tt
cell_updates-IsRowUpdate c row ((column, content) ∷ cells) w =
    ((refl, w.0), cell_updates-IsRowUpdate c row cells w.1)

pub row_updates-IsRowUpdate :
    (c : SheetConnectionModel) (row : SheetDataRow) (lib : PythonLibrary) (sync : SyncLibrary)
    (moex : SheetMoexClient) (isin : Text) (v : Option RefreshedInstrument) (notes : Notes)
    (after : List CellUpdate × Notes)
    → row_updates lib sync moex c row isin v notes ≡ ok after
    → All (IsRowUpdate c row) after.0
unfolding row_updates failed_row_updates
row_updates-IsRowUpdate c row lib sync moex isin none notes after h =
    subst (λ (z : List CellUpdate × Notes). All (IsRowUpdate c row) z.0) (ok_injective h)
      (cell_updates-IsRowUpdate c row _ (
        own_cells c row _ _ _
          (put_cell c row (codes "AL") _ _ refl (cleared c row _ (first_cells c row blank blank)))))
row_updates-IsRowUpdate c row lib sync moex isin (some v) notes after h =
    let (r, p, h₁) = >>=-eq-ok (row_cells lib sync moex c row isin v notes) _ h in
    subst (λ (z : List CellUpdate × Notes). All (IsRowUpdate c row) z.0) (ok_injective h₁)
      (cell_updates-IsRowUpdate c row r.0 (row_cells-Writable c row lib sync moex isin v notes r p))
