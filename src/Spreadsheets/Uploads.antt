-- ===== src/Spreadsheets/Uploads.antt =====
-- `validate_spreadsheet_upload`, the loaders and `SpreadsheetPortfolioReader.preview` of
-- infrastructure/imports/xlsx_reader.py. Parameters are the three packages that open a file (none
-- where they raise), `Path(…).suffix`, `Path(…).name` and SHA-256 as a hexadecimal text.
use bond_trading.Prelude.{
  ℕ, suc, Bool, false, not, ◌&&◌, ◌||◌, List, [], ◌∷◌, ◌++◌, Option, none, some, map, drop, ◌==◌,
  if◌then◌else◌,
}
use bond_trading.Prelude.Texts.{Text, codes, text_eq, nonempty, strip}
use bond_trading.Prelude.Results.{Result, ok, err, ◌>>=◌, ◌>>◌, raise_if}
use bond_trading.Database.{Uuid}
use bond_trading.Values.{Value, PythonLibrary, before, one_of}
use bond_trading.Spreadsheets.{
  SpreadsheetCell, SpreadsheetSheet, SpreadsheetImportError, unsupported_extension, unreadable_file,
  invalid_media_type, cell, header_column, header_from, find_header, is_requested,
  first_with_header, select_sheet, is_empty_value, is_empty_row,
}
use bond_trading.Spreadsheets.Fields.{
  is_formula_text, reject_formula, text_of, present_text, manual_text, iso_date, date_value,
  manual_date, number_text, decimal_value, manual_decimal, optional_decimal, event_type,
}
use bond_trading.Spreadsheets.Reader.{
  ImportRow, ImportRowError, RowsRead, or_zero, checked_isin, parse_row, add_row, read_from,
}

abbrev pub Bytes : Type 0
Bytes = List ℕ

-- A sheet as a package gives it: its title, and of each cell the value and a mark, which is
-- openpyxl's `data_type` or the `is_formula` of numbers-parser.
pub record RawSheet (Mark : Type 0) : Type 0 where
  pub title : Text
  pub rows : List (List (Value × Mark))

-- A sheet of a .numbers document, with its tables.
pub record NumbersSheet : Type 0 where
  pub name : Text
  pub tables : List (RawSheet Bool)

pub record SpreadsheetPackages : Type 0 where
  -- the content, and whether macros are kept
  pub open_ooxml : Bytes → Bool → Option (List (RawSheet Text))
  pub open_calamine : Bytes → Option (List (RawSheet (Unit {0})))
  pub open_numbers : Bytes → Option (List NumbersSheet)
  pub suffix : Text → Text
  pub name : Text → Text
  pub sha256 : Bytes → Text

pub record ImportPreview : Type 0 where
  pub file_name : Text
  pub sheet_name : Text
  pub checksum : Text
  pub header_row_number : ℕ
  pub rows_read : ℕ
  pub rows : List ImportRow
  pub errors : List ImportRowError
  pub upload_id : Option Uuid

abbrev pub ooxml_extensions : List Text
ooxml_extensions = codes ".xlsx" ∷ codes ".xlsm" ∷ codes ".xltx" ∷ codes ".xltm" ∷ []

abbrev pub calamine_extensions : List Text
calamine_extensions = codes ".xls" ∷ codes ".xlsb" ∷ []

abbrev pub numbers_extensions : List Text
numbers_extensions = codes ".numbers" ∷ []

abbrev pub supported_extensions : List Text
supported_extensions = ooxml_extensions ++ (calamine_extensions ++ numbers_extensions)

abbrev pub allowed_media_types : List Text
allowed_media_types =
    codes "application/octet-stream"
    ∷ codes "application/vnd.apple.numbers"
    ∷ codes "application/vnd.ms-excel"
    ∷ codes "application/vnd.ms-excel.sheet.binary.macroenabled.12"
    ∷ codes "application/vnd.ms-excel.sheet.macroenabled.12"
    ∷ codes "application/vnd.openxmlformats-officedocument.spreadsheetml.sheet"
    ∷ codes "application/x-iwork-numbers-sffnumbers"
    ∷ codes "application/x-ole-storage"
    ∷ codes "application/x-zip-compressed"
    ∷ codes "application/zip"
    ∷ []

abbrev pub text_or_empty : Option Text → Text
text_or_empty none = []
text_or_empty (some s) = s

unfoldable pub ooxml_cell : Value × Text → SpreadsheetCell
ooxml_cell c = record { value = c.0; is_formula = text_eq c.1 (codes "f") || is_formula_text c.0 }

unfoldable pub calamine_cell : Value × Unit {0} → SpreadsheetCell
calamine_cell c = record { value = c.0; is_formula = false }

unfoldable pub numbers_cell : Value × Bool → SpreadsheetCell
numbers_cell c = record { value = c.0; is_formula = c.1 }

unfoldable pub sheet_of :
    {Mark : Type 0} → (Value × Mark → SpreadsheetCell) → RawSheet Mark → SpreadsheetSheet
sheet_of to_cell raw = record { title = raw.title; rows = map (map to_cell) raw.rows }

-- The tables of a document's sheet, from the one at `table_index` on.
unfoldable pub numbers_tables : Text → ℕ → List (RawSheet Bool) → List SpreadsheetSheet
unfolding sheet_of numbers_cell
numbers_tables name table_index [] = []
numbers_tables name table_index (table ∷ tables) =
    record (sheet_of numbers_cell table) {
      title = if table_index == 0 then name else name ++ codes " — " ++ table.title;
    }
    ∷ numbers_tables name (suc table_index) tables

unfoldable pub numbers_sheets : List NumbersSheet → List SpreadsheetSheet
unfolding numbers_tables
numbers_sheets [] = []
numbers_sheets (sheet ∷ sheets) = numbers_tables sheet.name 0 sheet.tables ++ numbers_sheets sheets

unfoldable pub readable :
    {A : Type 0}
    → Option A
    → (A → List SpreadsheetSheet)
    → Result SpreadsheetImportError (List SpreadsheetSheet)
readable none sheets_of = err unreadable_file
readable (some found) sheets_of = ok (sheets_of found)

module _ (lib : PythonLibrary) (packages : SpreadsheetPackages) where
  -- `Path(file_name).suffix.lower()`
  abbrev pub suffix_of : Text → Text
  suffix_of file_name = lib.lower (packages.suffix file_name)

  -- `(content_type or "").partition(";")[0].strip().lower()`
  unfoldable pub normalized_content_type : Option Text → Text
  unfolding before
  normalized_content_type content_type =
      lib.lower (strip (before b';' (text_or_empty content_type)))

  -- `validate_spreadsheet_upload`
  unfoldable pub validate_spreadsheet_upload :
      Text → Option Text → Result SpreadsheetImportError (Unit {0})
  validate_spreadsheet_upload file_name content_type =
      let normalized = normalized_content_type content_type in
      raise_if (not (one_of supported_extensions (suffix_of file_name))) unsupported_extension
      >> raise_if (nonempty normalized && not (one_of allowed_media_types normalized))
          (invalid_media_type normalized)

  -- `_load_sheets`, with `_load_ooxml`, `_load_calamine` and `_load_numbers`
  unfoldable pub load_sheets : Bytes → Text → Result SpreadsheetImportError (List SpreadsheetSheet)
  unfolding readable
  load_sheets content file_name =
      let suffix = suffix_of file_name in
      if one_of ooxml_extensions suffix
      then readable
          (packages.open_ooxml content (one_of (codes ".xlsm" ∷ codes ".xltm" ∷ []) suffix))
          (map (sheet_of ooxml_cell))
      else if one_of calamine_extensions suffix
      then readable (packages.open_calamine content) (map (sheet_of calamine_cell))
      else if one_of numbers_extensions suffix
      then readable (packages.open_numbers content) numbers_sheets
      else err unsupported_extension

  abbrev pub preview_of : Bytes → Text → SpreadsheetSheet → ℕ → RowsRead → ImportPreview
  preview_of content file_name sheet header_row read = record {
    file_name = packages.name file_name;
    sheet_name = sheet.title;
    checksum = packages.sha256 content;
    header_row_number = header_row;
    rows_read = read.rows_read;
    rows = read.rows;
    errors = read.errors;
    upload_id = none;
  }

  -- `preview`
  unfoldable pub preview : Bytes → Text → Text → Result SpreadsheetImportError ImportPreview
  preview content file_name sheet_name =
      validate_spreadsheet_upload file_name none
      >> (load_sheets content file_name >>= λ (sheets : List SpreadsheetSheet).
          select_sheet lib sheets sheet_name >>= λ (sheet : SpreadsheetSheet).
          find_header lib sheet >>= λ (found : ℕ × ℕ). ok (
            preview_of content file_name sheet found.0
              (read_from lib sheet found.1 (suc found.0) (drop found.0 sheet.rows))))

-- Names what a preview computes with, for the tests' `unfolding` lines.
unfoldable pub preview_runs : Unit {0}
unfolding preview load_sheets validate_spreadsheet_upload normalized_content_type readable sheet_of
    ooxml_cell is_formula_text select_sheet first_with_header find_header header_from header_column
    is_requested is_empty_row is_empty_value cell read_from add_row parse_row checked_isin or_zero
    manual_text reject_formula text_of present_text manual_date date_value iso_date manual_decimal
    decimal_value number_text optional_decimal event_type
preview_runs = tt
