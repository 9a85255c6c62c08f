-- ===== src/Google/Samples.antt =====
-- A request that is answered at the third attempt, one that is denied, a range with two rows, and
-- two updates in memory.
use bond_trading.Prelude.{ℕ, ◌≡◌, refl, List, [], ◌∷◌, length, arith, if◌then◌else◌, ◌==◌}
use bond_trading.Prelude.Texts.{Text, codes, strip, upper, upper_char}
use bond_trading.Prelude.Results.{Result, ok, err}
use bond_trading.Ranges.{RangeError, ranges_runs}
use bond_trading.Moex.{cells}
use bond_trading.Values.{absent, text, values_runs}
use bond_trading.Values.Concrete.{concrete_python}
use bond_trading.Sync.{SheetDataRow, CellUpdate, blank, words}
use bond_trading.Google.{Attempt, interrupted, answered, ending_of, finished, retryable, request}
use bond_trading.Google.Retries.{pauses, request-finishes, request-exhausted}
use bond_trading.Google.Reads.{
  RangeBody, values, read_rows, read_asked, data_rows, has_value, row_value, rows_of_range,
  normalized_columns, least_column, greatest_column, from_ranges,
}
use bond_trading.Google.Located.{IsRead, read_rows-IsRead}
use bond_trading.Google.Memory.{
  CellKey, MemorySheets, cell_at, update_memory, require_worksheet, check_memory, spreadsheet_of,
  store_updates, store_cell, memory_value,
}
use bond_trading.Google.Memory.Cells.{updated, update_memory-updated}
use bond_trading.Instruments.{text_leb}

abbrev status_text : ℕ → Text
status_text status = codes "a status"

abbrev third : ℕ → Attempt Text
third attempt =
    if attempt == 0
    then interrupted (codes "timeout")
    else if attempt == 1
    then answered 503 []
    else answered 200 (codes "{}")

interrupted_once : ending_of status_text (third 0) ≡ retryable (codes "timeout")
unfolding ending_of
interrupted_once = refl

temporary_once : (message : Text) × (ending_of status_text (third 1) ≡ retryable message)
unfolding ending_of
temporary_once = (_, refl)

answered_third : ending_of status_text (third 2) ≡ finished (codes "{}")
unfolding ending_of
answered_third = refl

request-finishes_example :
    request status_text third 3 ≡ (ok (codes "{}"), pauses status_text third 2 0)
request-finishes_example =
    request-finishes status_text third 2 3 (codes "{}") (omega arith)
      ((codes "timeout", interrupted_once), (temporary_once, tt)) answered_third

request-exhausted_example :
    request status_text third 2 ≡ (err temporary_once.0, pauses status_text third 1 0)
request-exhausted_example =
    request-exhausted status_text third 1 temporary_once.0
      ((codes "timeout", interrupted_once), (temporary_once, tt)) temporary_once.1

-- Columns B to D of a sheet, from its second row on.
abbrev fetch : Text → Result Text RangeBody
fetch range = ok (
    values (
      cells (text (codes "x") ∷ absent ∷ text (codes "y") ∷ [])
      ∷ cells (absent ∷ [])
      ∷ cells (text (codes "z") ∷ [])
      ∷ []))

abbrev digits : ℕ → Text
digits n = codes "2"

abbrev range_text : RangeError → Text
range_text e = codes "a range"

read_two :
    (found : List SheetDataRow) × (read_rows concrete_python digits range_text fetch
        (codes "Bonds")
        (codes "D" ∷ codes "b" ∷ [])
        2
      ≡ ok found)
unfolding read_rows read_asked data_rows has_value row_value rows_of_range normalized_columns
    least_column greatest_column from_ranges ranges_runs values_runs strip upper upper_char
read_two = (_, refl)

two_rows : length read_two.0 ≡ 2
unfolding read_two
two_rows = refl

read_rows-IsRead_example :
    IsRead digits fetch (codes "Bonds") (codes "D" ∷ codes "b" ∷ []) 2 read_two.0
read_rows-IsRead_example =
    read_rows-IsRead concrete_python digits range_text fetch (codes "Bonds")
      (codes "D" ∷ codes "b" ∷ []) 2 read_two.0 read_two.1

abbrev memory : MemorySheets
memory = record {
  spreadsheets = (codes "book", (codes "T", codes "Bonds" ∷ [])) ∷ [];
  cells =
      (
        record { book = codes "book"; sheet = codes "Bonds"; row = 2; column = codes "C" },
        text (codes "old"),
      )
      ∷ [];
  update_batches = [];
}

abbrev updates : List CellUpdate
updates =
    record { row_number = 2; column = codes "C"; value = words (codes "new") }
    ∷ record { row_number = 2; column = codes "D"; value = blank }
    ∷ []

stored :
    (r : ℕ × MemorySheets) × (update_memory
        (λ d. codes "1")
        (codes "book")
        (codes "Bonds")
        updates
        memory
      ≡ ok r)
unfolding update_memory require_worksheet check_memory spreadsheet_of store_updates store_cell
    memory_value text_leb
stored = (_, refl)

update_memory-updated_example :
    (stored.0.0 ≡ 2)
    × ((k : CellKey)
        → cell_at k stored.0.1.cells
          ≡ updated
              (λ d. codes "1")
              (codes "book")
              (codes "Bonds")
              updates
              (λ j. cell_at j memory.cells)
              k)
update_memory-updated_example =
    update_memory-updated (λ d. codes "1") (codes "book") (codes "Bonds") updates memory stored.0.1
      stored.0.0 stored.1
