-- ===== src/Google/Memory.antt =====
-- `MemoryGoogleSheetsGateway` and `UnavailableGoogleSheetsGateway` of
-- infrastructure/google_sheets/client.py. The set of worksheets is a list, each name once; `str` of
-- a number is a parameter.
pub mod Cells
use bond_trading.Prelude.{
  ℕ, ◌+◌, Bool, true, false, not, ◌&&◌, List, [], ◌∷◌, ◌++◌, Option, none, some, any, find, sort,
  map, is_some, length, leb, ◌==◌, if◌then◌else◌,
}
use bond_trading.Prelude.Texts.{Text, codes, text_eq, nonempty, strip}
use bond_trading.Prelude.Results.{Result, ok, err, ◌>>=◌, ◌>>◌, raise_if}
use bond_trading.Decimal.{Decimal}
use bond_trading.Instruments.{text_leb}
use bond_trading.Values.{Value, absent, text, number, PythonLibrary, shown}
use bond_trading.Sync.{
  CellContent, blank, amount, words, SheetDataRow, CellUpdate, SheetConnectionCheck,
}
use bond_trading.Sync.Execute.{holds_text, each_once}
use bond_trading.Google.Reads.{SheetIsinRow, holds_column}

-- The key of a cell: spreadsheet, worksheet, row and column.
pub record CellKey : Type 0 where
  pub book : Text
  pub sheet : Text
  pub row : ℕ
  pub column : Text

pub record MemorySheets : Type 0 where
  pub spreadsheets : List (Text × (Text × List Text))
  pub cells : List (CellKey × Value)
  pub update_batches : List (List CellUpdate)

abbrev pub same_key : CellKey → CellKey → Bool
same_key a b =
    text_eq a.book b.book && text_eq a.sheet b.sheet && a.row == b.row && text_eq a.column b.column

-- `add_spreadsheet`
unfoldable pub add_spreadsheet : Text → Text → List Text → MemorySheets → MemorySheets
add_spreadsheet id title worksheets m = record m { spreadsheets = replace m.spreadsheets }
  where
    replace : List (Text × (Text × List Text)) → List (Text × (Text × List Text))
    replace [] = (id, (title, each_once [] worksheets)) ∷ []
    replace ((i, s) ∷ rest) =
        if text_eq i id
        then (id, (title, each_once [] worksheets)) ∷ rest
        else (i, s) ∷ replace rest

-- `cells[key] = value`
unfoldable pub store_cell : CellKey → Value → List (CellKey × Value) → List (CellKey × Value)
store_cell key value [] = (key, value) ∷ []
store_cell key value ((k, old) ∷ cells) = elim (same_key k key) [
  | true ↦ (k, value) ∷ cells
  | false ↦ (k, old) ∷ store_cell key value cells
]

-- `cells.get(key)`
unfoldable pub cell_at : CellKey → List (CellKey × Value) → Option Value
cell_at key [] = none
cell_at key ((k, value) ∷ cells) = elim (same_key k key) [
  | true ↦ some value
  | false ↦ cell_at key cells
]

-- `set_cell`
unfoldable pub set_cell : CellKey → Value → MemorySheets → MemorySheets
unfolding store_cell
set_cell key value m = record m { cells = store_cell key value m.cells }

unfoldable pub spreadsheet_of : Text → List (Text × (Text × List Text)) → Option (Text × List Text)
spreadsheet_of id [] = none
spreadsheet_of id ((i, s) ∷ rest) =
    let later = spreadsheet_of id rest in if text_eq i id then some s else later

-- `check_connection`
unfoldable pub check_memory : Text → MemorySheets → Result Text SheetConnectionCheck
unfolding spreadsheet_of text_leb
check_memory id m = elim (spreadsheet_of id m.spreadsheets) [
  | none ↦ err (codes "Тестовая Google Таблица не найдена")
  | some s ↦ ok (record { spreadsheet_title = s.0; worksheet_names = sort text_leb s.1 })
]

-- `_require_worksheet`
unfoldable pub require_worksheet : Text → Text → MemorySheets → Result Text (Unit {0})
unfolding check_memory
require_worksheet id name m = check_memory id m >>= λ (check : SheetConnectionCheck).
    raise_if (not (holds_text name check.worksheet_names))
      (codes "Тестовая вкладка «" ++ (name ++ codes "» не найдена"))

-- The rows of a worksheet that have a cell in one of the columns, each once.
unfoldable pub row_numbers : Text → Text → List Text → ℕ → List (CellKey × Value) → List ℕ
row_numbers id name columns first_row [] = []
row_numbers id name columns first_row ((k, value) ∷ cells) =
    let rest = row_numbers id name columns first_row cells in
    if text_eq k.book id
      && text_eq k.sheet name
      && holds_column columns k.column
      && leb first_row k.row
      && not (any (λ n. n == k.row) rest)
    then k.row ∷ rest
    else rest

unfoldable pub memory_row : Text → Text → List Text → List (CellKey × Value) → ℕ → SheetDataRow
unfolding cell_at
memory_row id name columns cells n = record {
  row_number = n;
  values = λ column.
      if holds_column columns column
      then elim (cell_at (record { book = id; sheet = name; row = n; column = column }) cells) [
        | some v ↦ v
        | none ↦ absent
      ]
      else absent;
}

-- `read_rows`
unfoldable pub read_memory :
    Text → Text → List Text → ℕ → MemorySheets → Result Text (List SheetDataRow)
unfolding require_worksheet row_numbers memory_row
read_memory id name columns first_row m =
    require_worksheet id name m
    >> ok (
        map (memory_row id name columns m.cells)
          (sort leb (row_numbers id name columns first_row m.cells)))

module _ (number_text : Decimal → Text) where
  -- `"" if update.value is None else update.value`
  unfoldable pub memory_value : CellContent → Value
  memory_value blank = text []
  memory_value (amount d) = number d (number_text d)
  memory_value (words s) = text s

  -- The loop of `update_cells`.
  unfoldable pub store_updates :
      Text → Text → List CellUpdate → List (CellKey × Value) → List (CellKey × Value)
  unfolding store_cell memory_value
  store_updates id name [] cells = cells
  store_updates id name (u ∷ updates) cells = store_updates id name updates (
      store_cell (record { book = id; sheet = name; row = u.row_number; column = u.column })
        (memory_value u.value) cells)

  -- `update_cells`: the count and the gateway
  unfoldable pub update_memory :
      Text → Text → List CellUpdate → MemorySheets → Result Text (ℕ × MemorySheets)
  unfolding require_worksheet store_updates
  update_memory id name updates m =
      require_worksheet id name m
      >> ok (
        length updates,
        record m {
          cells = store_updates id name updates m.cells;
          update_batches = m.update_batches ++ updates ∷ [];
        },
      )

-- `UnavailableGoogleSheetsGateway`: each of its operations raises.
unfoldable pub unavailable : {A : Type 0} → Text → Result Text A
unavailable message = err message
