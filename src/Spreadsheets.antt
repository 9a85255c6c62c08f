-- ===== src/Spreadsheets.antt =====
-- infrastructure/imports/xlsx_reader.py: sheets as rows of cells, and where a sheet's table
-- starts. The children read a row (Fields, Reader) and check an upload (Uploads). What opens a file
-- (openpyxl, calamine, numbers-parser) is a parameter.
pub mod Fields
pub mod Reader
pub mod Uploads
pub mod Preview
mod Samples
use bond_trading.Prelude.{
  ℕ, suc, ◌+◌, ◌-◌, Bool, true, false, ◌&&◌, ◌||◌, List, [], ◌∷◌, ◌++◌, Option, none, some, length,
  get_elem?, all, keep, ltb, ◌==◌, if◌then◌else◌,
}
use bond_trading.Prelude.Texts.{Text, codes, text_eq, nonempty, strip, upper}
use bond_trading.Prelude.Results.{Result, ok, err}
use bond_trading.Values.{Value, absent, text, PythonLibrary, starts_with, shown, shown_or_empty}

pub record SpreadsheetCell : Type 0 where
  pub value : Value
  pub is_formula : Bool

pub record SpreadsheetSheet : Type 0 where
  pub title : Text
  pub rows : List (List SpreadsheetCell)

-- Why a file is refused: SpreadsheetImportError, by its message.
pub data SpreadsheetImportError : Type 0 where
  unsupported_extension unreadable_file sheet_not_found header_not_found : SpreadsheetImportError
  invalid_media_type : Text → SpreadsheetImportError

abbrev pub no_cell : SpreadsheetCell
no_cell = record { value = absent; is_formula = false }

-- `max_row`
abbrev pub max_row : SpreadsheetSheet → ℕ
max_row sheet = length sheet.rows

abbrev pub cell_of : Option SpreadsheetCell → SpreadsheetCell
cell_of none = no_cell
cell_of (some c) = c

-- `SpreadsheetSheet.cell`
unfoldable pub cell : SpreadsheetSheet → ℕ → ℕ → SpreadsheetCell
cell sheet row column =
    if row == 0 || column == 0 || ltb (length sheet.rows) row
    then no_cell
    else elim (get_elem? sheet.rows (row - 1)) [
      | none ↦ no_cell
      | some values ↦
          if ltb (length values) column then no_cell else cell_of (get_elem? values (column - 1))
    ]

-- The places of a sheet that `_find_header` goes through, row by row, numbered from one.
module _ (lib : PythonLibrary) where
  abbrev pub is_header : SpreadsheetCell → Bool
  is_header c = text_eq (upper (strip (shown_or_empty lib c.value))) (codes "ISIN")

  unfoldable pub header_column : ℕ → List SpreadsheetCell → Option ℕ
  header_column column [] = none
  header_column column (c ∷ cs) = if is_header c then some column else header_column (suc column) cs

  unfoldable pub header_from : ℕ → List (List SpreadsheetCell) → Option (ℕ × ℕ)
  unfolding header_column
  header_from row [] = none
  header_from row (cells ∷ rest) = elim (header_column 1 cells) [
    | some column ↦ some (row, column)
    | none ↦ header_from (suc row) rest
  ]

  -- `_find_header`
  unfoldable pub find_header : SpreadsheetSheet → Result SpreadsheetImportError (ℕ × ℕ)
  unfolding header_from
  find_header sheet = elim (header_from 1 sheet.rows) [
    | some found ↦ ok found
    | none ↦ err header_not_found
  ]

  -- A title that the requested name fits: the sheet's own table, or a further one.
  unfoldable pub is_requested : Text → SpreadsheetSheet → Bool
  is_requested requested sheet =
      text_eq (strip sheet.title) requested
      || starts_with (requested ++ codes " — ") (strip sheet.title)

  unfoldable pub first_with_header : List SpreadsheetSheet → Option SpreadsheetSheet
  unfolding find_header
  first_with_header [] = none
  first_with_header (sheet ∷ sheets) = elim (find_header sheet) [
    | ok found ↦ some sheet
    | err e ↦ first_with_header sheets
  ]

  -- `_select_sheet`
  unfoldable pub select_sheet :
      List SpreadsheetSheet → Text → Result SpreadsheetImportError SpreadsheetSheet
  unfolding first_with_header
  select_sheet worksheets requested =
      elim (first_with_header (keep (is_requested requested) worksheets ++ worksheets)) [
        | some sheet ↦ ok sheet
        | none ↦ err sheet_not_found
      ]

  -- `cell.value is None or str(cell.value).strip() == ""`
  unfoldable pub is_empty_value : Value → Bool
  unfolding shown
  is_empty_value absent = true
  is_empty_value v = text_eq (strip (shown lib v)) []

  -- `_is_empty_row`
  unfoldable pub is_empty_row : List SpreadsheetCell → Bool
  unfolding is_empty_value
  is_empty_row cells = all (λ (c : SpreadsheetCell). is_empty_value c.value) cells
