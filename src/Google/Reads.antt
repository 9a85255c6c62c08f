-- ===== src/Google/Reads.antt =====
-- What the gateway of infrastructure/google_sheets/client.py asks for and makes of the answers. A
-- body is the parts of the JSON object that the gateway looks at; no_object is any other JSON.
use bond_trading.Prelude.{
  ℕ, suc, ◌-◌, Bool, true, not, List, [], ◌∷◌, ◌++◌, Option, none, some, any, get_elem?, length,
  ltb, if◌then◌else◌,
}
use bond_trading.Prelude.Texts.{Text, codes, text_eq, nonempty, strip}
use bond_trading.Prelude.Results.{Result, ok, err, ◌>>=◌}
use bond_trading.Ranges.{RangeError, column_name, column_number, normalize_column, quote_worksheet}
use bond_trading.Moex.{RawRow, cells, not_an_array}
use bond_trading.Values.{Value, absent, PythonLibrary, is_blank, shown}
use bond_trading.Sync.{CellContent, SheetDataRow, CellUpdate, SheetConnectionCheck}

-- The body of an answer with a range: `values`, where absent an empty array.
pub data RangeBody : Type 0 where
  no_object values_not_an_array : RangeBody
  values : List RawRow → RangeBody

-- The body of an answer with the titles: the spreadsheet's, where it is a text, and those of the
-- sheets that are objects, where they are texts.
pub data TitlesBody : Type 0 where
  no_titles_object : TitlesBody
  titles : Option Text → List (Option Text) → TitlesBody

pub record SheetIsinRow : Type 0 where
  pub row_number : ℕ
  pub raw_isin : Text

-- An entry of `data` in the body of a batch update.
pub record RangeUpdate : Type 0 where
  pub cell_range : Text
  pub content : CellContent

unfoldable pub given_titles : List (Option Text) → List Text
given_titles [] = []
given_titles (none ∷ rest) = given_titles rest
given_titles (some title ∷ rest) = title ∷ given_titles rest

-- `check_connection`, from the answer on
unfoldable pub check_of : TitlesBody → Result Text SheetConnectionCheck
unfolding given_titles
check_of no_titles_object = err (codes "Google API вернул некорректный JSON")
check_of (titles none sheets) = err (codes "Google API не вернул название таблицы")
check_of (titles (some title) sheets) =
    ok (record { spreadsheet_title = title; worksheet_names = given_titles sheets })

unfoldable pub rows_of_range : Text → RangeBody → Result Text (List RawRow)
rows_of_range message no_object = err (codes "Google API вернул некорректный JSON")
rows_of_range message values_not_an_array = err message
rows_of_range message (values rows) = ok rows

-- The number of a column behind the first one that was asked for.
abbrev pub offset_of : ℕ → Text → ℕ
offset_of first_column column = column_number column - first_column

abbrev pub holds_column : List Text → Text → Bool
holds_column columns column = any (λ c. text_eq c column) columns

abbrev pub value_or_absent : Option Value → Value
value_or_absent none = absent
value_or_absent (some v) = v

-- The dictionary of a row, as `row.values.get(column)` reads it: a column that was not asked for,
-- or that the row is too short for, is absent.
unfoldable pub row_value : List Text → ℕ → List Value → Text → Value
row_value columns first_column raw column =
    if holds_column columns column
    then value_or_absent (get_elem? raw (offset_of first_column column))
    else absent

unfoldable pub has_value : List Text → ℕ → List Value → Bool
unfolding row_value
has_value columns first_column raw =
    any (λ column. not (is_blank (row_value columns first_column raw column))) columns

-- The loop of `read_rows`, at the row with the number.
unfoldable pub data_rows : List Text → ℕ → ℕ → List RawRow → List SheetDataRow
unfolding has_value row_value
data_rows columns first_column row [] = []
data_rows columns first_column row (not_an_array ∷ rest) =
    data_rows columns first_column (suc row) rest
data_rows columns first_column row (cells raw ∷ rest) =
    let later = data_rows columns first_column (suc row) rest in
    if has_value columns first_column raw
    then record { row_number = row; values = row_value columns first_column raw } ∷ later
    else later

-- `str(normalize_column(column))` of each; the error is a `ValueError`.
unfoldable pub normalized_columns : List Text → Result RangeError (List Text)
normalized_columns [] = ok []
normalized_columns (column ∷ columns) =
    normalize_column true (some column) >>= λ (found : Option Text).
    (normalized_columns columns >>= λ (rest : List Text).
    ok (elim found [ some c ↦ c ∷ rest | none ↦ codes "None" ∷ rest ]))

-- The least and the greatest number of columns, of which there is one at least.
unfoldable pub least_column : ℕ → List Text → ℕ
least_column n [] = n
least_column n (column ∷ columns) =
    least_column (if ltb (column_number column) n then column_number column else n) columns

unfoldable pub greatest_column : ℕ → List Text → ℕ
greatest_column n [] = n
greatest_column n (column ∷ columns) =
    greatest_column (if ltb n (column_number column) then column_number column else n) columns

-- A `ValueError` of ranges.py, as its text.
unfoldable pub from_ranges :
    {A : Type 0} → (RangeError → Text) → Result RangeError A → Result Text A
from_ranges range_text (ok a) = ok a
from_ranges range_text (err e) = err (range_text e)

module _ (lib : PythonLibrary) (digits : ℕ → Text) where
  -- The loop of `read_isins`.
  unfoldable pub isin_rows : ℕ → List RawRow → List SheetIsinRow
  isin_rows row [] = []
  isin_rows row (not_an_array ∷ rest) = isin_rows (suc row) rest
  isin_rows row (cells [] ∷ rest) = isin_rows (suc row) rest
  isin_rows row (cells (v ∷ raw) ∷ rest) =
      let later = isin_rows (suc row) rest in
      if nonempty (strip (shown lib v))
      then record { row_number = row; raw_isin = strip (shown lib v) } ∷ later
      else later

  -- The range of `read_isins`, before it is percent encoded.
  abbrev pub isin_range : Text → Text → ℕ → Text
  isin_range worksheet column first_row =
      quote_worksheet worksheet
      ++ (codes "!" ++ (column ++ (digits first_row ++ (codes ":" ++ column))))

  -- `read_isins`, where `fetch` is the request of a range
  unfoldable pub read_isins :
      (Text → Result Text RangeBody) → Text → Text → ℕ → Result Text (List SheetIsinRow)
  unfolding isin_rows rows_of_range
  read_isins fetch worksheet column first_row =
      fetch (isin_range worksheet column first_row) >>= λ (body : RangeBody).
      (rows_of_range (codes "Google API вернул некорректный диапазон ISIN") body
        >>= λ (rows : List RawRow). ok (isin_rows first_row rows))

  -- The entries of a batch update.
  unfoldable pub range_updates : Text → List CellUpdate → List RangeUpdate
  range_updates worksheet [] = []
  range_updates worksheet (u ∷ updates) =
      record {
        cell_range = quote_worksheet worksheet ++ (codes "!" ++ (u.column ++ digits u.row_number));
        content = u.value;
      }
      ∷ range_updates worksheet updates

  -- `update_cells`, where `send` is the request and gives `totalUpdatedCells`, if it is a number
  unfoldable pub update_cells :
      (List RangeUpdate → Result Text (Option ℕ)) → Text → List CellUpdate → Result Text ℕ
  unfolding range_updates
  update_cells send worksheet [] = ok 0
  update_cells send worksheet (u ∷ updates) =
      send (range_updates worksheet (u ∷ updates)) >>= λ (total : Option ℕ).
      ok (elim total [ some n ↦ n | none ↦ length (u ∷ updates) ])

  -- The range of `read_rows`, before it is percent encoded.
  abbrev pub rows_range : Text → Text → Text → ℕ → Text
  rows_range worksheet first_name last_name first_row =
      quote_worksheet worksheet
      ++ (codes "!" ++ (first_name ++ (digits first_row ++ (codes ":" ++ last_name))))

  -- `read_rows`, from the least and the greatest column on
  unfoldable pub read_asked :
      (RangeError → Text)
      → (Text → Result Text RangeBody)
      → Text
      → List Text
      → ℕ
      → ℕ
      → ℕ
      → Result Text (List SheetDataRow)
  unfolding data_rows rows_of_range from_ranges
  read_asked range_text fetch worksheet columns first_column last_column first_row = do
    first_name ← from_ranges range_text (column_name first_column)
    last_name ← from_ranges range_text (column_name last_column)
    body ← fetch (rows_range worksheet first_name last_name first_row)
    rows ← rows_of_range (codes "Google API вернул некорректный диапазон строк") body
    ok (data_rows columns first_column first_row rows)

  -- `read_rows`; `min` of no columns raises
  unfoldable pub read_rows :
      (RangeError → Text)
      → (Text → Result Text RangeBody)
      → Text
      → List Text
      → ℕ
      → Result Text (List SheetDataRow)
  unfolding normalized_columns least_column greatest_column read_asked from_ranges
  read_rows range_text fetch worksheet columns first_row =
      from_ranges range_text (normalized_columns columns) >>= λ (normalized : List Text).
      elim normalized [
        | [] ↦ err (codes "min() arg is an empty sequence")
        | column ∷ others ↦
            read_asked range_text fetch worksheet (column ∷ others)
              (least_column (column_number column) others)
              (greatest_column (column_number column) others) first_row
      ]
