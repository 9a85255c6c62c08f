-- ===== src/Spreadsheets/Preview.antt =====
-- What a preview holds: the rows that `preview` accepts are fit to become lots, and every row that
-- it read is accepted or reported.
use bond_trading.Prelude.{
  ℕ, suc, ◌+◌, Bool, true, false, ◌≡◌, refl, sym, subst, if◌then◌else◌, ◌⊎◌, inl, inr, List, [],
  ◌∷◌, none, count, drop, ◌&&◌, ◌==◌, ltb, leb, All, Bool-cases, arith,
}
use bond_trading.Prelude.Texts.{Text, codes}
use bond_trading.Prelude.Results.{
  ok, err, >>=-eq-ok, Result-cases, >>-eq-ok, raise_if, raise_if-eq-ok, ok_injective,
}
use bond_trading.Decimal.{Decimal, le_zero, lt_zero}
use bond_trading.Isin.{normalize_isin}
use bond_trading.Isin.Laws.{is_isin, normalize_isin-valid}
use bond_trading.Values.{PythonLibrary}
use bond_trading.Spreadsheets.{
  SpreadsheetCell, SpreadsheetSheet, cell, find_header, select_sheet, is_empty_row,
}
use bond_trading.Spreadsheets.Fields.{
  reject_formula, RowValidationError, manual_text, manual_date, manual_decimal, optional_decimal,
  event_type, decimal_value,
}
use bond_trading.Spreadsheets.Reader.{
  ImportRow, ImportRowError, RowsRead, checked_isin, parse_row, add_row, read_from,
}
use bond_trading.Spreadsheets.Uploads.{
  Bytes, SpreadsheetPackages, ImportPreview, preview, validate_spreadsheet_upload, load_sheets,
}

-- A row that may become a lot.
pub record IsAccepted (row : ImportRow) : Type 0 where
  pub isin : is_isin row.normalized_isin ≡ true
  pub event : (row.target_event_type ≡ codes "maturity") ⊎ (row.target_event_type ≡ codes "offer")
  pub quantity : le_zero row.quantity ≡ false
  pub clean_price : lt_zero row.purchase_clean_price_rub_per_bond ≡ false
  pub accrued : lt_zero row.purchase_accrued_interest_rub_per_bond ≡ false
  pub commission : lt_zero row.purchase_commission_rub_per_bond ≡ false

checked_isin-valid : (source isin : Text) → checked_isin source ≡ ok isin → is_isin isin ≡ true
unfolding checked_isin
checked_isin-valid source isin h = elim (Result-cases (normalize_isin source)) [
  | inl (e, f) ↦ absurd (cc (rw (f, checked_isin) at h))
  | inr (found, f) ↦
      let same : found ≡ isin = ok_injective (rw (f, checked_isin) at h) in
      subst (λ t. is_isin t ≡ true) same (normalize_isin-valid source found f).1
]

-- How often a row's number is among those accepted and reported.
abbrev pub times_reported : ℕ → RowsRead → ℕ
times_reported n read =
    count (λ (r : ImportRow). r.row_number == n) read.rows
    + count (λ (e : ImportRowError). e.row_number == n) read.errors

-- The rows from `first` on are accepted or reported, each of them once, and no other.
abbrev pub IsReported : ℕ → RowsRead → Type 0
IsReported first read =
    (n : ℕ)
    → times_reported n read ≡ (if leb first n && ltb n (first + read.rows_read) then 1 else 0)

module _ (lib : PythonLibrary) where
  event_type-known :
      (value event : Text)
      → event_type lib value ≡ ok event
      → (event ≡ codes "maturity") ⊎ (event ≡ codes "offer")
  unfolding event_type
  event_type-known value event h = chosen _ _ _ h
    where
      chosen :
          (a b : Bool) (e : RowValidationError)
          → (if a then ok (codes "maturity") else if b then ok (codes "offer") else err e)
            ≡ ok event
          → (event ≡ codes "maturity") ⊎ (event ≡ codes "offer")
      chosen true b e k = inl (sym (ok_injective k))
      chosen false true e k = inr (sym (ok_injective k))
      chosen false false e k = absurd (cc)

  manual_decimal-positive :
      (c : SpreadsheetCell) (field : Text) (d : Decimal)
      → manual_decimal lib c field true false ≡ ok d
      → le_zero d ≡ false
  unfolding manual_decimal
  manual_decimal-positive c field d h =
      let (f, h₁) = >>-eq-ok (reject_formula lib c field) _ h in
      let (v, p, h₂) = >>=-eq-ok (decimal_value lib field c.value) _ h₁ in
      let (q, h₃) = >>-eq-ok (raise_if (le_zero v) _) _ h₂ in
      subst (λ x. le_zero x ≡ false) (ok_injective h₃) (raise_if-eq-ok _ _ q)

  manual_decimal-nonnegative :
      (c : SpreadsheetCell) (field : Text) (d : Decimal)
      → manual_decimal lib c field false true ≡ ok d
      → lt_zero d ≡ false
  unfolding manual_decimal
  manual_decimal-nonnegative c field d h =
      let (f, h₁) = >>-eq-ok (reject_formula lib c field) _ h in
      let (v, p, h₂) = >>=-eq-ok (decimal_value lib field c.value) _ h₁ in
      let (q, h₃) = >>-eq-ok (raise_if (lt_zero v) _) _ h₂ in
      subst (λ x. lt_zero x ≡ false) (ok_injective h₃) (raise_if-eq-ok _ _ q)

  module _ (sheet : SpreadsheetSheet) where
    parse_row-IsAccepted :
        (row isin_column : ℕ) (r : ImportRow)
        → parse_row lib sheet row isin_column ≡ ok r
        → IsAccepted r × (r.row_number ≡ row)
    unfolding parse_row
    parse_row-IsAccepted row isin_column r h =
        let at = cell sheet row in
        let (source, p1, h1) = >>=-eq-ok (manual_text lib (at isin_column) (codes "isin")) _ h in
        let (isin, p2, h2) = >>=-eq-ok (checked_isin source) _ h1 in
        let (event, p3, h3) = >>=-eq-ok (manual_text lib (at 4) (codes "target_event_type")) _ h2 in
        let (target, p4, h4) = >>=-eq-ok (event_type lib event) _ h3 in
        let (bought, p5, h5) = >>=-eq-ok (manual_date lib (at 5) (codes "purchase_date")) _ h4 in
        let (left, p6, h6) = >>=-eq-ok (manual_date lib (at 7) (codes "target_event_date")) _ h5 in
        let (n, p7, h7) =
          >>=-eq-ok (manual_decimal lib (at 8) (codes "quantity") true false) _ h6 in
        let (clean, p8, h8) =
          >>=-eq-ok
            (manual_decimal lib (at 9) (codes "purchase_clean_price_rub_per_bond") false true) _
            h7 in
        let (accrued, p9, h9) =
          >>=-eq-ok
            (manual_decimal lib (at 10) (codes "purchase_accrued_interest_rub_per_bond") false true)
            _ h8 in
        let (fee, p10, h10) =
          >>=-eq-ok
            (manual_decimal lib (at 12) (codes "purchase_commission_rub_per_bond") false true) _
            h9 in
        let (redemption, p11, h11) = >>=-eq-ok (optional_decimal lib (at 14)) _ h10 in
        let (sale, p12, h12) = >>=-eq-ok (optional_decimal lib (at 18)) _ h11 in
        let (planned, p13, h13) = >>=-eq-ok (optional_decimal lib (at 22)) _ h12 in
        subst (λ x. IsAccepted x × (x.row_number ≡ row)) (ok_injective h13)
          (
            record {
              isin = checked_isin-valid source isin p2;
              event = event_type-known event target p4;
              quantity = manual_decimal-positive (at 8) _ n p7;
              clean_price = manual_decimal-nonnegative (at 9) _ clean p8;
              accrued = manual_decimal-nonnegative (at 10) _ accrued p9;
              commission = manual_decimal-nonnegative (at 12) _ fee p10;
            },
            refl,
          )

    add_row-IsAccepted :
        (row isin_column : ℕ) (rest : RowsRead)
        → All IsAccepted rest.rows
        → IsReported (suc row) rest
        → All IsAccepted (add_row row (parse_row lib sheet row isin_column) rest).rows
          × IsReported row (add_row row (parse_row lib sheet row isin_column) rest)
    unfolding add_row
    add_row-IsAccepted row isin_column rest accepted reported =
        elim (Result-cases (parse_row lib sheet row isin_column)) [
          | inl (e, f) ↦ rw f (accepted, λ n. ground (arith, reported n))
          | inr (r, f) ↦
              let (fit, same) = parse_row-IsAccepted row isin_column r f in
              rw f ((fit, accepted), λ n. rw same (ground (arith, reported n)))
        ]

    read_from-IsAccepted :
        (isin_column row : ℕ) (rows : List (List SpreadsheetCell))
        → All IsAccepted (read_from lib sheet isin_column row rows).rows
          × IsReported row (read_from lib sheet isin_column row rows)
    unfolding read_from
    read_from-IsAccepted isin_column row [] = (tt, λ n. ground arith)
    read_from-IsAccepted isin_column row (cells ∷ rest) =
        let (accepted, reported) = read_from-IsAccepted isin_column (suc row) rest in
        elim (Bool-cases (is_empty_row lib cells)) [
          | inl empty ↦ rw (empty, read_from) (tt, λ n. ground arith)
          | inr more ↦ rw (more, read_from) (add_row-IsAccepted row isin_column _ accepted reported)
        ]

module _ (lib : PythonLibrary) (packages : SpreadsheetPackages) where
  -- Every row that a preview accepts has a valid ISIN, a positive quantity, a clean price, an accrued
  -- interest and a purchase commission that are not negative, and one of the two event types. Each of the rows below the header that were read is
  -- either accepted or reported as an error, once, and no other row is.
  pub preview-IsAccepted :
      (content : Bytes) (file_name sheet_name : Text) (p : ImportPreview)
      → preview lib packages content file_name sheet_name ≡ ok p
      → All IsAccepted p.rows
        × IsReported
            (suc p.header_row_number)
            (record { rows_read = p.rows_read; rows = p.rows; errors = p.errors })
  unfolding preview
  preview-IsAccepted content file_name sheet_name p h =
      let (v, h₁) = >>-eq-ok (validate_spreadsheet_upload lib packages file_name none) _ h in
      let (sheets, l, h₂) = >>=-eq-ok (load_sheets lib packages content file_name) _ h₁ in
      let (sheet, s, h₃) = >>=-eq-ok (select_sheet lib sheets sheet_name) _ h₂ in
      let (found, f, h₄) = >>=-eq-ok (find_header lib sheet) _ h₃ in
      subst
        (λ (q : ImportPreview).
          All IsAccepted q.rows
          × IsReported (suc q.header_row_number)
              (record { rows_read = q.rows_read; rows = q.rows; errors = q.errors }))
        (ok_injective h₄)
        (read_from-IsAccepted lib sheet found.1 (suc found.0) (drop found.0 sheet.rows))
