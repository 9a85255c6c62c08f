-- ===== src/Sync/Harmless.antt =====
-- A run of `execute` overwrites nothing that a user filled in.
use bond_trading.Prelude.{
  ℕ, ◌≡◌, refl, subst, inl, inr, true, not, ◌||◌, List, [], ◌∷◌, ◌++◌, Option, none, some, any, map,
  All, ◌==◌, All-append, Bool-cases, Option-cases,
}
use bond_trading.Prelude.Rows.{In}
use bond_trading.Prelude.Texts.{Text, codes, nonempty}
use bond_trading.Prelude.Results.{ok, >>=-eq-ok, ok_injective, Result-cases}
use bond_trading.Database.{Time, SheetConnectionModel, RowError}
use bond_trading.Isin.{normalize_isin}
use bond_trading.Connections.{holds}
use bond_trading.Connections.Columns.{IsUsable}
use bond_trading.Jobs.{SyncReport}
use bond_trading.Lots.{Portfolio}
use bond_trading.Values.{PythonLibrary, shown_or_empty}
use bond_trading.Sync.{CellContent, words, SheetDataRow, CellUpdate, SyncLibrary}
use bond_trading.Sync.Rows.{SheetMoexClient, Notes, row_updates}
use bond_trading.Sync.Written.{
  MayWrite, price_cell, updated_at_cell, status_cell, calculation_cell, accrued_cell,
  commission_cell, calculation_columns,
}
use bond_trading.Sync.Protected.{IsRowUpdate, row_updates-IsRowUpdate}
use bond_trading.Sync.Execute.{
  GoogleSheetsGateway, Refreshed, Sent, header_updates, normalized_rows, refreshed_for,
  invalid_updates, all_updates, sheet_updates, read_sheet, refresh_all, each_once, synchronise,
  execute,
}
use bond_trading.Sync.Guarded.{
  IsHarmless, calculation-IsHarmless, own-IsHarmless, updated_In, status_In, reserved-free,
  isin-free,
}

abbrev update_of : ℕ → Text → CellContent → CellUpdate
update_of n column v = record { row_number = n; column = column; value = v }

module _ (c : SheetConnectionModel) (usable : IsUsable c) (rows : List SheetDataRow) where
  abbrev Harmless : List CellUpdate → Type 0
  Harmless updates = All (IsHarmless c rows) updates

  write-IsHarmless :
      (row : SheetDataRow) (column : Text) (n : ℕ) (v : CellContent)
      → In row rows
      → n ≡ row.row_number
      → MayWrite c row column
      → IsHarmless c rows (update_of n column v)
  write-IsHarmless row _ n v m e price_cell =
      own-IsHarmless c rows (update_of n c.price_column v) usable (inl refl)
  write-IsHarmless row _ n v m e (updated_at_cell t k) =
      own-IsHarmless c rows (update_of n t v) usable (updated_In c t k)
  write-IsHarmless row _ n v m e (status_cell t k) =
      own-IsHarmless c rows (update_of n t v) usable (status_In c t k)
  write-IsHarmless row _ n v m e (calculation_cell t k) =
      calculation-IsHarmless c rows (update_of n t v) usable k
  write-IsHarmless row _ n v m e (accrued_cell empty) = (
    reserved-free c (codes "J" ∷ []) (codes "J") usable (rw (isin-free c usable).1 refl) refl refl
        refl refl refl,
    inr (row, m, e, empty),
    inl refl,
  )
  write-IsHarmless row _ n v m e (commission_cell empty) = (
    reserved-free c (codes "L" ∷ []) (codes "L") usable (rw (isin-free c usable).2 refl) refl refl
        refl refl refl,
    inl refl,
    inr (row, m, e, empty),
  )

  row-Harmless :
      (row : SheetDataRow) (updates : List CellUpdate)
      → In row rows
      → All (IsRowUpdate c row) updates
      → Harmless updates
  row-Harmless row [] m h = tt
  row-Harmless row (u ∷ updates) m h = (
    write-IsHarmless row u.column u.row_number u.value m h.0.0 h.0.1,
    row-Harmless row updates m h.1,
  )

  -- The two cells of a row without a valid ISIN.
  mark-Harmless :
      (n : ℕ) (column : Text) (a b : CellContent)
      → c.status_column ≡ some column
      → Harmless (update_of n column a ∷ update_of n (codes "AL") b ∷ [])
  mark-Harmless n column a b e = (
    own-IsHarmless c rows (update_of n column a) usable (status_In c column e),
    (calculation-IsHarmless c rows (update_of n (codes "AL") b) usable refl, tt),
  )

  invalid_updates-Harmless :
      (status : Option Text) (normalized : List (SheetDataRow × Text)) (errors : List RowError)
      → c.status_column ≡ status
      → Harmless (invalid_updates status normalized errors)
  unfolding invalid_updates
  invalid_updates-Harmless status normalized [] e = tt
  invalid_updates-Harmless none normalized (x ∷ errors) e =
      let rest = invalid_updates-Harmless none normalized errors e in
      elim (Option-cases x.row_number) [
        | inl f ↦ rw (f, invalid_updates) rest
        | inr (n, f) ↦ rw (f, invalid_updates) rest
      ]
  invalid_updates-Harmless (some column) normalized (x ∷ errors) e =
      let rest = invalid_updates-Harmless (some column) normalized errors e in
      elim (Option-cases x.row_number) [
        | inl f ↦ rw (f, invalid_updates) rest
        | inr (n, f) ↦
            elim (Bool-cases (not (nonempty column) || any (λ r. r.0.row_number == n) normalized)) [
              | inl skipped ↦ rw (f, skipped, invalid_updates) rest
              | inr marked ↦
                  let m =
                    mark-Harmless n column (words (codes "INVALID ISIN"))
                      (words (codes "НЕВЕРНЫЙ ISIN")) e in
                  rw (f, marked, invalid_updates) (m.0, (m.1.0, rest))
            ]
      ]

  calculation-Harmless :
      (updates : List CellUpdate)
      → All (λ (u : CellUpdate). holds calculation_columns u.column ≡ true) updates
      → Harmless updates
  calculation-Harmless [] h = tt
  calculation-Harmless (u ∷ updates) h =
      (calculation-IsHarmless c rows u usable h.0, calculation-Harmless updates h.1)

  header-Harmless : Harmless (header_updates c.header_row)
  header-Harmless =
      calculation-Harmless (header_updates c.header_row)
        (refl, (refl, (refl, (refl, (refl, (refl, (refl, (refl, (refl, tt)))))))))

  module _ (lib : PythonLibrary) (sync : SyncLibrary) where
    -- Each row that has an ISIN is one of those read.
    abbrev AreRead : List (SheetDataRow × Text) → Type 0
    AreRead normalized = All (λ (r : SheetDataRow × Text). In r.0 rows) normalized

    all_updates-Harmless :
        (moex : SheetMoexClient) (found : Refreshed) (normalized : List (SheetDataRow × Text))
        (notes : Notes) (after : List CellUpdate × Notes)
        → AreRead normalized
        → all_updates lib sync c moex found normalized notes ≡ ok after
        → Harmless after.0
    unfolding all_updates
    all_updates-Harmless moex found [] notes after m h =
        subst (λ (z : List CellUpdate × Notes). Harmless z.0) (ok_injective h) tt
    all_updates-Harmless moex found ((row, isin) ∷ normalized) notes after m h =
        let v = refreshed_for isin found in
        let (first, p, h₁) = >>=-eq-ok (row_updates lib sync moex c row isin v notes) _ h in
        let (rest, q, h₂) = >>=-eq-ok (all_updates lib sync c moex found normalized first.1) _ h₁ in
        subst (λ (z : List CellUpdate × Notes). Harmless z.0) (ok_injective h₂)
          (All-append (IsHarmless c rows) first.0 rest.0
            (row-Harmless row first.0 m.0
              (row_updates-IsRowUpdate c row lib sync moex isin v notes first p))
            (all_updates-Harmless moex found normalized first.1 rest m.1 q))

    normalized_rows-AreRead :
        (isin_column : Text) (some_rows : List SheetDataRow)
        → ((row : SheetDataRow) → In row some_rows → In row rows)
        → AreRead (normalized_rows lib sync isin_column some_rows).0
    unfolding normalized_rows
    normalized_rows-AreRead isin_column [] m = tt
    normalized_rows-AreRead isin_column (row ∷ some_rows) m =
        let rest = normalized_rows-AreRead isin_column some_rows (λ r k. m r (inr k)) in
        elim (Result-cases (normalize_isin (shown_or_empty lib (row.values isin_column)))) [
          | inl (e, f) ↦ rw (f, normalized_rows) rest
          | inr (isin, f) ↦ rw (f, normalized_rows) (m row (inl refl), rest)
        ]

    synchronise-Harmless :
        (gateway : GoogleSheetsGateway) (moex : SheetMoexClient) (now : Time) (db : Portfolio)
        (report : SyncReport) (sent : List CellUpdate)
        → (synchronise lib sync c gateway moex now rows db).0 ≡ ok (report, sent)
        → Harmless sent
    unfolding synchronise sheet_updates
    synchronise-Harmless gateway moex now db report sent h =
        let normalized = normalized_rows lib sync c.isin_column rows in
        let refreshed =
          refresh_all lib sync c.price_mode moex now
            (each_once [] (map (λ (r : SheetDataRow × Text). r.1) normalized.0)) db in
        let start : Notes = record {
          historical_accrued = [];
          row_errors = normalized.1 ++ refreshed.0.1;
        } in
        let (s, p, h₁) =
          >>=-eq-ok (sheet_updates lib sync c moex normalized refreshed.0.0 refreshed.0.1) _ h in
        let (n, q, h₂) =
          >>=-eq-ok (gateway.update_cells c.spreadsheet_id c.worksheet_name s.0) _ h₁ in
        let (r, t, h₃) =
          >>=-eq-ok (all_updates lib sync c moex refreshed.0.0 normalized.0 start) _ p in
        subst (λ (z : SyncReport × List CellUpdate). Harmless z.1) (ok_injective h₂)
          (subst (λ (z : Sent lib sync). Harmless z.0) (ok_injective h₃)
            (All-append (IsHarmless c rows) (header_updates c.header_row) _ header-Harmless (
              All-append (IsHarmless c rows) r.0 _
                (all_updates-Harmless moex refreshed.0.0 normalized.0 start r
                  (normalized_rows-AreRead c.isin_column rows (λ row k. k)) t)
                (invalid_updates-Harmless c.status_column normalized.0 r.1.row_errors refl))))

-- Where the connection's columns are usable, as `configure` leaves them, a run that succeeds sends
-- to the sheet only updates that overwrite nothing that a user filled in: none is in the column of
-- the ISINs or in E, H, I or V, and one in J or L is for a row that was read with nothing there.
pub execute-IsHarmless :
    (c : SheetConnectionModel) (lib : PythonLibrary) (sync : SyncLibrary)
    (gateway : GoogleSheetsGateway) (moex : SheetMoexClient) (now : Time) (db : Portfolio)
    (report : SyncReport) (sent : List CellUpdate)
    → IsUsable c
    → (execute lib sync (some c) gateway moex now db).0 ≡ ok (report, sent)
    → (rows : List SheetDataRow) × (read_sheet lib sync c gateway ≡ ok rows)
      × All (IsHarmless c rows) sent
unfolding execute
execute-IsHarmless c lib sync gateway moex now db report sent usable h =
    elim (Result-cases (read_sheet lib sync c gateway)) [
      | inl (e, f) ↦ absurd (cc (rw (f, execute) at h))
      | inr (rows, f) ↦ (
        rows,
        f,
        synchronise-Harmless c usable rows lib sync gateway moex now db report sent
            (rw (f, execute) at h),
      )
    ]
