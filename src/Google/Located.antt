-- ===== src/Google/Located.antt =====
-- Where the values of the rows that the gateway reads stand in the range that it asked for.
use bond_trading.Prelude.{
  ℕ, zero, suc, ◌+◌, ◌-◌, Bool, not, any, none, some_injective, ◌≤◌, ◌≡◌, refl, subst, inl, inr,
  true, false, List, [], ◌∷◌, ◌++◌, some, get_elem?, ltb, if◌then◌else◌, Bool-cases, All, arith,
}
use bond_trading.Prelude.Texts.{Text, codes, text_eq, text_eq_refl}
use bond_trading.Prelude.Results.{Result, ok, err, ◌>>=◌, >>=-eq-ok, ok_injective}
use bond_trading.Prelude.Rows.{In, any-In-false}
use bond_trading.Ranges.{RangeError, column_name, column_number, quote_worksheet}
use bond_trading.Moex.{RawRow, cells, not_an_array}
use bond_trading.Values.{Value, absent, is_blank, PythonLibrary}
use bond_trading.Sync.{SheetDataRow}
use bond_trading.Google.Reads.{
  RangeBody, row_value, has_value, data_rows, normalized_columns, least_column, greatest_column,
  rows_of_range, from_ranges, rows_range, read_asked, read_rows,
}

-- A row that was read: it is the array at its place behind the first row, its values are the
-- array's by the columns' places, and one of them is given.
abbrev pub IsLocated : List Text → ℕ → ℕ → List RawRow → SheetDataRow → Type 0
IsLocated columns first_column first_row rows r =
    (first_row ≤ r.row_number)
    × ((raw : List Value) × (get_elem? rows (r.row_number - first_row) ≡ some (cells raw))
        × (r.values ≡ (λ column.
            if any (λ c. text_eq c column) columns
            then elim (get_elem? raw (column_number column - first_column)) [
              | none ↦ absent
              | some v ↦ v
            ]
            else absent))
        × (any (λ column. not (is_blank (r.values column))) columns ≡ true))

later-IsLocated :
    (columns : List Text) (first_column first_row : ℕ) (raw : RawRow) (rows : List RawRow)
    (found : List SheetDataRow)
    → All (IsLocated columns first_column (suc first_row) rows) found
    → All (IsLocated columns first_column first_row (raw ∷ rows)) found
later-IsLocated columns first_column first_row raw rows [] h = tt
later-IsLocated columns first_column first_row raw rows (r ∷ found) (h, rest) =
    let (le, (values, place, same, given)) = h in
    let at : r.row_number - first_row ≡ suc (r.row_number - suc first_row) = omega arith in
    (
      (omega arith, (values, rw at place, same, given)),
      later-IsLocated columns first_column first_row raw rows found rest,
    )

data_rows-IsLocated :
    (columns : List Text) (first_column first_row : ℕ) (rows : List RawRow)
    → All
        (IsLocated columns first_column first_row rows)
        (data_rows columns first_column first_row rows)
unfolding data_rows has_value row_value
data_rows-IsLocated columns first_column first_row [] = tt
data_rows-IsLocated columns first_column first_row (not_an_array ∷ rows) =
    later-IsLocated columns first_column first_row not_an_array rows _
      (data_rows-IsLocated columns first_column (suc first_row) rows)
data_rows-IsLocated columns first_column first_row (cells raw ∷ rows) =
    let rest =
      later-IsLocated columns first_column first_row (cells raw) rows _
        (data_rows-IsLocated columns first_column (suc first_row) rows) in
    elim (Bool-cases (has_value columns first_column raw)) [
      | inl given ↦
          let here : first_row - first_row ≡ 0 = omega arith in
          rw (given, data_rows) ((omega arith, (raw, rw here refl, refl, given)), rest)
      | inr empty ↦ rw (empty, data_rows) rest
    ]

-- A row of the rest is a row of the whole.
In-data_rows :
    (columns : List Text) (first_column first_row : ℕ) (x : RawRow) (rows : List RawRow)
    (r : SheetDataRow)
    → In r (data_rows columns first_column (suc first_row) rows)
    → In r (data_rows columns first_column first_row (x ∷ rows))
unfolding data_rows
In-data_rows columns first_column first_row not_an_array rows r m = m
In-data_rows columns first_column first_row (cells raw) rows r m =
    elim (Bool-cases (has_value columns first_column raw)) [
      | inl given ↦ rw (given, data_rows) (inr m)
      | inr empty ↦ rw (empty, data_rows) m
    ]

In-true : {A : Type 0} (p : A → Bool) (a : A) (xs : List A) → In a xs → p a ≡ true → any p xs ≡ true
In-true p a xs m h = elim (Bool-cases (any p xs)) [
  | inl holds ↦ holds
  | inr fails ↦ absurd (cc (h, any-In-false p a xs fails m))
]

given_value :
    (columns : List Text) (first_column : ℕ) (raw : List Value) (column : Text) (v : Value)
    → In column columns
    → get_elem? raw (column_number column - first_column) ≡ some v
    → is_blank v ≡ false
    → has_value columns first_column raw ≡ true
unfolding has_value row_value
given_value columns first_column raw column v m h filled =
    let asked = In-true (λ c. text_eq c column) column columns m (text_eq_refl column) in
    In-true (λ c. not (is_blank (row_value columns first_column raw c))) column columns m
      (rw asked (rw h (rw filled refl)))

-- An array of the answer with a value is a row that is found.
data_rows_complete :
    (columns : List Text) (first_column first_row n : ℕ) (rows : List RawRow) (raw : List Value)
    → get_elem? rows n ≡ some (cells raw)
    → has_value columns first_column raw ≡ true
    → (r : SheetDataRow) × In r (data_rows columns first_column first_row rows)
      × (r.row_number ≡ first_row + n)
unfolding data_rows
data_rows_complete columns first_column first_row n [] raw h given = absurd (cc)
data_rows_complete columns first_column first_row zero (x ∷ rows) raw h given =
    let here : x ≡ cells raw = some_injective h in
    rw here (rw (given, data_rows) (_, inl refl, omega arith))
data_rows_complete columns first_column first_row (suc n) (x ∷ rows) raw h given =
    let (r, m, e) = data_rows_complete columns first_column (suc first_row) n rows raw h given in
    (r, In-data_rows columns first_column first_row x rows r m, omega (arith, e))

least_column-le :
    (n : ℕ) (columns : List Text)
    → (least_column n columns ≤ n) × All (λ c. least_column n columns ≤ column_number c) columns
unfolding least_column
least_column-le n [] = (omega arith, tt)
least_column-le n (c ∷ columns) =
    let m = if ltb (column_number c) n then column_number c else n in
    let (le, all) = least_column-le m columns in
    let smaller : (m ≤ n) × (m ≤ column_number c) = ground arith in
    (omega (arith, le, smaller.0), (omega (arith, le, smaller.1), all))

-- The number of one of the columns, which none is below, or above.
abbrev pub IsLeast : ℕ → List Text → Type 0
IsLeast n columns =
    ((c : Text) × In c columns × (column_number c ≡ n)) × All (λ c. n ≤ column_number c) columns

abbrev pub IsGreatest : ℕ → List Text → Type 0
IsGreatest n columns =
    ((c : Text) × In c columns × (column_number c ≡ n)) × All (λ c. column_number c ≤ n) columns

greatest_column-le :
    (n : ℕ) (columns : List Text)
    → (n ≤ greatest_column n columns)
      × All (λ c. column_number c ≤ greatest_column n columns) columns
unfolding greatest_column
greatest_column-le n [] = (omega arith, tt)
greatest_column-le n (c ∷ columns) =
    let m = if ltb n (column_number c) then column_number c else n in
    let (le, all) = greatest_column-le m columns in
    let larger : (n ≤ m) × (column_number c ≤ m) = ground arith in
    (omega (arith, le, larger.0), (omega (arith, le, larger.1), all))

least_column-In :
    (column : Text) (columns : List Text)
    → (c : Text) × In c (column ∷ columns)
      × (column_number c ≡ least_column (column_number column) columns)
unfolding least_column
least_column-In column [] = (column, inl refl, refl)
least_column-In column (c ∷ columns) =
    elim (Bool-cases (ltb (column_number c) (column_number column))) [
      | inl less ↦
          let (d, m, e) = least_column-In c columns in (d, inr m, rw (less, least_column) e)
      | inr other ↦
          let (d, m, e) = least_column-In column columns in
          (
            d,
            elim m [ inl same ↦ inl same | inr later ↦ inr (inr later) ],
            rw (other, least_column) e,
          )
    ]

greatest_column-In :
    (column : Text) (columns : List Text)
    → (c : Text) × In c (column ∷ columns)
      × (column_number c ≡ greatest_column (column_number column) columns)
unfolding greatest_column
greatest_column-In column [] = (column, inl refl, refl)
greatest_column-In column (c ∷ columns) =
    elim (Bool-cases (ltb (column_number column) (column_number c))) [
      | inl more ↦
          let (d, m, e) = greatest_column-In c columns in (d, inr m, rw (more, greatest_column) e)
      | inr other ↦
          let (d, m, e) = greatest_column-In column columns in
          (
            d,
            elim m [ inl same ↦ inl same | inr later ↦ inr (inr later) ],
            rw (other, greatest_column) e,
          )
    ]

-- What the rows of an answer were read from: the columns that were asked for, the least and the
-- greatest of their numbers, and the arrays of the answer for the range from the first row of the
-- one to the other.
pub record IsRead (digits : ℕ → Text) (fetch : Text → Result Text RangeBody) (worksheet : Text)
    (columns : List Text) (first_row : ℕ) (found : List SheetDataRow) : Type 0 where
  pub asked : List Text
  pub normalized : normalized_columns columns ≡ ok asked
  pub first_column : ℕ
  pub least : IsLeast first_column asked
  pub last_column : ℕ
  pub greatest : IsGreatest last_column asked
  pub first_name : Text
  pub first_named : column_name first_column ≡ ok first_name
  pub last_name : Text
  pub last_named : column_name last_column ≡ ok last_name
  pub body : RangeBody
  pub fetched :
      fetch (
        quote_worksheet worksheet
        ++ (codes "!" ++ (first_name ++ (digits first_row ++ (codes ":" ++ last_name)))))
      ≡ ok body
  pub rows : List RawRow
  pub arrays : rows_of_range (codes "Google API вернул некорректный диапазон строк") body ≡ ok rows
  pub located : All (IsLocated asked first_column first_row rows) found
  pub complete :
      (n : ℕ) (raw : List Value) (column : Text) (v : Value)
      → get_elem? rows n ≡ some (cells raw)
      → In column asked
      → get_elem? raw (column_number column - first_column) ≡ some v
      → is_blank v ≡ false
      → (r : SheetDataRow) × In r found × (r.row_number ≡ first_row + n)

from_ranges-eq-ok :
    {A : Type 0} (range_text : RangeError → Text) (r : Result RangeError A) (a : A)
    → from_ranges range_text r ≡ ok a
    → r ≡ ok a
unfolding from_ranges
from_ranges-eq-ok range_text (ok b) a h = cc
from_ranges-eq-ok range_text (err e) a h = absurd (cc)

module _ (lib : PythonLibrary) (digits : ℕ → Text) (range_text : RangeError → Text) where
  read_asked-IsRead :
      (fetch : Text → Result Text RangeBody) (worksheet : Text) (columns asked : List Text)
      (least last first_row : ℕ) (found : List SheetDataRow)
      → normalized_columns columns ≡ ok asked
      → IsLeast least asked
      → IsGreatest last asked
      → read_asked lib digits range_text fetch worksheet asked least last first_row ≡ ok found
      → IsRead digits fetch worksheet columns first_row found
  unfolding read_asked
  read_asked-IsRead fetch worksheet columns asked least last first_row found n le ge h =
      let (a, p, h1) = >>=-eq-ok (from_ranges range_text (column_name least)) _ h in
      let (b, q, h2) = >>=-eq-ok (from_ranges range_text (column_name last)) _ h1 in
      let (body, f, h3) = >>=-eq-ok (fetch (rows_range lib digits worksheet a b first_row)) _ h2 in
      let (rows, r, h4) = >>=-eq-ok (rows_of_range _ body) _ h3 in
      record {
        asked = asked;
        normalized = n;
        first_column = least;
        least = le;
        last_column = last;
        greatest = ge;
        first_name = a;
        first_named = from_ranges-eq-ok range_text _ a p;
        last_name = b;
        last_named = from_ranges-eq-ok range_text _ b q;
        body = body;
        fetched = f;
        rows = rows;
        arrays = r;
        complete = λ k raw column v at m place filled.
            subst (λ xs. (r : SheetDataRow) × In r xs × (r.row_number ≡ first_row + k))
              (ok_injective h4)
              (data_rows_complete asked least first_row k rows raw at
                (given_value asked least raw column v m place filled));
        located =
            subst (All (IsLocated asked least first_row rows)) (ok_injective h4)
              (data_rows-IsLocated asked least first_row rows);
      }

  -- `read_rows` asks for the range from the least column at the first row to the greatest column of
  -- those that it is given, and the rows that it returns are arrays of the answer: the row with a
  -- number is the array at its place behind the first row, and its value in a column is the array's
  -- at the column's place behind the least column that was asked for, or absent where the array is
  -- too short. An array with a value in a column that was asked for is returned, and no other.
  pub read_rows-IsRead :
      (fetch : Text → Result Text RangeBody) (worksheet : Text) (columns : List Text)
      (first_row : ℕ) (found : List SheetDataRow)
      → read_rows lib digits range_text fetch worksheet columns first_row ≡ ok found
      → IsRead digits fetch worksheet columns first_row found
  unfolding read_rows from_ranges
  read_rows-IsRead fetch worksheet columns first_row found h =
      answered (normalized_columns columns) refl h
    where
      answered :
          (n : Result RangeError (List Text))
          → normalized_columns columns ≡ n
          → (from_ranges range_text n >>= λ (normalized : List Text). elim normalized [
            | [] ↦ err (codes "min() arg is an empty sequence")
            | column ∷ others ↦
                read_asked lib digits range_text fetch worksheet
                  (column ∷ others)
                  (least_column (column_number column) others)
                  (greatest_column (column_number column) others)
                  first_row
          ])
            ≡ ok found
          → IsRead digits fetch worksheet columns first_row found
      answered (err e) f k = absurd (cc)
      answered (ok []) f k = absurd (cc)
      answered (ok (column ∷ others)) f k =
          let (le, all) = least_column-le (column_number column) others in
          let (ge, all_ge) = greatest_column-le (column_number column) others in
          read_asked-IsRead fetch worksheet columns (column ∷ others) _ _ first_row found f
            (least_column-In column others, (le, all))
            (greatest_column-In column others, (ge, all_ge)) k
