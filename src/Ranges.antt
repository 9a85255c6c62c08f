-- ===== src/Ranges.antt =====
-- infrastructure/google_sheets/ranges.py. The regular expressions are tests on code points.
pub mod RoundTrip
mod Samples
use bond_trading.Prelude.{
  ℕ, zero, suc, ◌+◌, ◌-◌, ◌*◌, ◌/◌, ◌%◌, Bool, true, false, not, ◌&&◌, ◌||◌, List, [], ◌∷◌, ◌++◌,
  Option, none, some, ◌==◌, leb, if◌then◌else◌, all, length,
}
use bond_trading.Prelude.Texts.{Text, codes, strip, upper, nonempty, is_upper, is_digit}
use bond_trading.Prelude.Results.{Result, ok, err, ◌>>=◌, ◌>>◌, raise_if}

-- The `ValueError`s of the module.
pub data RangeError : Type 0 where
  no_spreadsheet_id : RangeError
  missing_column : RangeError
  invalid_column : RangeError
  invalid_column_number : RangeError

-- `[A-Za-z0-9_-]`
unfoldable pub is_id_char : ℕ → Bool
is_id_char c = is_upper c || (leb b'a' c && leb c b'z') || is_digit c || c == b'_' || c == b'-'

-- What follows `prefix` at the start of the text.
unfoldable pub after_prefix : Text → Text → Option Text
after_prefix [] cs = some cs
after_prefix (p ∷ ps) [] = none
after_prefix (p ∷ ps) (c ∷ cs) = if p == c then after_prefix ps cs else none

-- The longest run of id characters at the start.
unfoldable pub id_run : Text → Text
id_run [] = []
id_run (c ∷ cs) = if is_id_char c then c ∷ id_run cs else []

-- `_SPREADSHEET_URL_RE` matched at the start: the prefix, then one id character or more.
unfoldable pub url_id_here : Text → Option Text
url_id_here cs = elim (after_prefix (codes "/spreadsheets/d/") cs) [
  | none ↦ none
  | some rest ↦ if nonempty (id_run rest) then some (id_run rest) else none
]

-- `_SPREADSHEET_URL_RE.search`: the leftmost match.
unfoldable pub url_id : Text → Option Text
url_id [] = none
url_id (c ∷ cs) =
    let rest = url_id cs in elim (url_id_here (c ∷ cs)) [ none ↦ rest | some run ↦ some run ]

unfoldable pub candidate_id : Text → Option Text → Text
candidate_id stripped none = stripped
candidate_id stripped (some run) = run

-- `extract_spreadsheet_id`
unfoldable pub extract_spreadsheet_id : Text → Result RangeError Text
extract_spreadsheet_id value =
    let candidate = candidate_id (strip value) (url_id (strip value)) in
    raise_if
      (not (all is_id_char candidate && leb 10 (length candidate) && leb (length candidate) 255))
      no_spreadsheet_id
    >> ok candidate

unfoldable pub column_number_from : ℕ → Text → ℕ
column_number_from result [] = result
column_number_from result (c ∷ cs) = column_number_from (result * 26 + c - b'A' + 1) cs

-- `column_number`. On upper case letters, where it is called, no difference is below zero.
unfoldable pub column_number : Text → ℕ
column_number value = column_number_from 0 value

-- `_COLUMN_RE` and the bound of `normalize_column`, on the stripped upper case.
unfoldable pub is_column : Text → Bool
is_column c = all is_upper c && leb 1 (length c) && leb (length c) 3 && leb (column_number c) 16384

abbrev pub required_column : Bool → Result RangeError (Option Text)
required_column required = raise_if required missing_column >> ok none

-- `normalize_column`
unfoldable pub normalize_column : Bool → Option Text → Result RangeError (Option Text)
normalize_column required none = required_column required
normalize_column required (some value) =
    if nonempty (strip value)
    then raise_if (not (is_column (upper (strip value)))) invalid_column
      >> ok (some (upper (strip value)))
    else required_column required

-- `quote_worksheet`
unfoldable pub escape_quotes : Text → Text
escape_quotes [] = []
escape_quotes (c ∷ cs) = (if c == 39 then 39 ∷ 39 ∷ [] else c ∷ []) ++ escape_quotes cs

unfoldable pub quote_worksheet : Text → Text
quote_worksheet value = (39 ∷ escape_quotes value) ++ 39 ∷ []

-- The `while` loop of `column_name`: each round divides by 26, so `current` rounds suffice.
unfoldable pub column_name_loop : ℕ → ℕ → Text → Text
column_name_loop zero current result = result
column_name_loop (suc fuel) current result = elim (current == 0) [
  | true ↦ result
  | false ↦ column_name_loop fuel ((current - 1) / 26) ((b'A' + (current - 1) % 26) ∷ result)
]

-- `column_name`
unfoldable pub column_name : ℕ → Result RangeError Text
column_name value =
    raise_if (not (leb 1 value && leb value 16384)) invalid_column_number
    >> ok (column_name_loop value value [])

-- Names what a run of the module computes with, for the tests' `unfolding` lines.
unfoldable pub ranges_runs : Unit {0}
unfolding is_id_char after_prefix id_run url_id_here url_id candidate_id extract_spreadsheet_id
    column_number_from column_number is_column normalize_column escape_quotes quote_worksheet
    column_name_loop column_name strip upper
ranges_runs = tt
