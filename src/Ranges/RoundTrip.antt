-- ===== src/Ranges/RoundTrip.antt =====
-- Column letters and column numbers, there and back; quoted names can be read back.
use bond_trading.Prelude.{
  ℕ, zero, suc, ◌+◌, ◌-◌, ◌*◌, ◌/◌, ◌%◌, ◌≤◌, ◌<◌, ◌≡◌, refl, ap, ◌∙◌, inl, inr, Bool, true, false,
  [], ◌∷◌, ◌++◌, ◌==◌, all, length, arith, Bool-cases, Option, none, some, if◌then◌else◌,
}
use mathlib.Core.List.{append_assoc, append-nil}
use bond_trading.Prelude.Texts.{Text, is_upper}
use bond_trading.Prelude.Results.{ok}
use bond_trading.Ranges.{
  column_number_from, column_number, column_name_loop, column_name, normalize_column, is_column,
  escape_quotes, quote_worksheet,
}

number-digit :
    (n : ℕ) (cs : Text)
    → 0 < n
    → column_number_from ((n - 1) / 26) ((b'A' + (n - 1) % 26) ∷ cs) ≡ column_number_from n cs
unfolding column_number_from
number-digit n cs p =
    let e : (n - 1) / 26 * 26 + (b'A' + (n - 1) % 26) - b'A' + 1 ≡ n = omega arith in
    ap (λ (t : ℕ). column_number_from t cs) e

-- The loop moves digits from the number to the text.
number-name_loop :
    (fuel current : ℕ) (result : Text)
    → current ≤ fuel
    → column_number_from 0 (column_name_loop fuel current result)
      ≡ column_number_from current result
unfolding column_name_loop
number-name_loop zero current result h = let e : current ≡ 0 = omega arith in rw e
number-name_loop (suc fuel) current result h = elim (Bool-cases (current == 0)) [
  | inl done ↦ let e : current ≡ 0 = ground arith in rw (done, column_name_loop) (rw e)
  | inr more ↦
      rw (more, column_name_loop)
        (number-name_loop fuel ((current - 1) / 26) _ (ground arith)
          ∙ number-digit current result (ground arith))
]

column_number_from-nil : (n : ℕ) → column_number_from n [] ≡ n
unfolding column_number_from
column_number_from-nil n = refl

letters-name_loop :
    (fuel current : ℕ) (result : Text)
    → all is_upper result ≡ true
    → all is_upper (column_name_loop fuel current result) ≡ true
unfolding column_name_loop
letters-name_loop zero current result h = h
letters-name_loop (suc fuel) current result h = elim (Bool-cases (current == 0)) [
  | inl done ↦ rw (done, column_name_loop) h
  | inr more ↦ rw (more, column_name_loop) (letters-name_loop fuel _ _ (ground arith))
]

name_loop-empty : (cs : Text) → column_name_loop 0 0 (cs ++ []) ≡ cs
unfolding column_name_loop
name_loop-empty cs = append-nil cs

-- Any fuel that is not below the number serves.
name_loop-fuel :
    (f g n : ℕ) (result : Text)
    → n ≤ f
    → n ≤ g
    → column_name_loop f n result ≡ column_name_loop g n result
unfolding column_name_loop
name_loop-fuel zero zero n result h k = refl
name_loop-fuel zero (suc g) n result h k = ground arith
name_loop-fuel (suc f) zero n result h k = ground arith
name_loop-fuel (suc f) (suc g) n result h k = elim (Bool-cases (n == 0)) [
  | inl done ↦ rw (done, column_name_loop)
  | inr more ↦ rw (more, column_name_loop) (name_loop-fuel f g _ _ (ground arith) (ground arith))
]

name_loop-digit :
    (g n c : ℕ) (result : Text)
    → is_upper c ≡ true
    → n ≤ g
    → column_name_loop (n * 26 + c - b'A' + 1) (n * 26 + c - b'A' + 1) result
      ≡ column_name_loop g n (c ∷ result)
unfolding column_name_loop
name_loop-digit g n c result u h =
    let range : (b'A' ≤ c) × (c ≤ b'Z') = ground arith in
    let m = n * 26 + c - b'A' in
    let e : m + 1 ≡ suc m = omega arith in
    let q : (suc m - 1) / 26 ≡ n = omega arith in
    let r : b'A' + (suc m - 1) % 26 ≡ c = omega arith in
    let z : (suc m == 0) ≡ false = ground arith in
    rw e (rw (z, column_name_loop) (rw (q, r) (name_loop-fuel m g n (c ∷ result) (omega arith) h)))

name_loop-number :
    (cs : Text) (g n : ℕ) (result : Text)
    → all is_upper cs ≡ true
    → n ≤ g
    → column_name_loop (column_number_from n cs) (column_number_from n cs) result
      ≡ column_name_loop g n (cs ++ result)
unfolding column_number_from
name_loop-number [] g n result u h = name_loop-fuel n g n result (omega arith) h
name_loop-number (c ∷ cs) g n result u h =
    let n' = n * 26 + c - b'A' + 1 in
    name_loop-number cs n' n' result (ground arith) (omega arith)
    ∙ name_loop-digit g n c (cs ++ result) (ground arith) h

number_from-ge : (cs : Text) (n : ℕ) → all is_upper cs ≡ true → n ≤ column_number_from n cs
unfolding column_number_from
number_from-ge [] n u = omega arith
number_from-ge (c ∷ cs) n u =
    let range : b'A' ≤ c = ground arith in
    omega (arith, number_from-ge cs (n * 26 + c - b'A' + 1) (ground arith))

number-pos : (cs : Text) → all is_upper cs ≡ true → 1 ≤ length cs → 1 ≤ column_number_from 0 cs
unfolding column_number_from
number-pos [] u h = absurd (omega arith)
number-pos (c ∷ cs) u h = omega (arith, number_from-ge cs (0 * 26 + c - b'A' + 1) (ground arith))

-- A column number between 1 and 16384 is named in upper case letters, and the name is read back
-- as the number.
pub column_number-column_name :
    (n : ℕ)
    → 1 ≤ n
    → n ≤ 16384
    → (name : Text) × (column_name n ≡ ok name)
      × (all is_upper name ≡ true)
      × (column_number name ≡ n)
unfolding column_name column_number
column_number-column_name n l u = (
  column_name_loop n n [],
  ground arith,
  letters-name_loop n n [] refl,
  number-name_loop n n [] (omega arith) ∙ column_number_from-nil n,
)

-- The name of the number of a column is the column.
pub column_name-column_number :
    (name : Text) → is_column name ≡ true → column_name (column_number name) ≡ ok name
unfolding column_name column_number is_column
column_name-column_number name h =
    let letters : all is_upper name ≡ true = ground arith in
    let bound : column_number name ≤ 16384 = ground arith in
    let positive = number-pos name letters (ground arith) in
    ground
      (arith, positive, name_loop-number name 0 0 [] letters (omega arith), name_loop-empty name)

-- A reader behind the opening quote: two quotes in a row are one, and a single quote ends the name.
-- It gives the name and the text behind the closing quote; without that quote there is no name.
pub read_quoted : Text → Option (Text × Text)
read_quoted [] = none
read_quoted (c ∷ []) = if c == 39 then some ([], []) else none
read_quoted (c ∷ d ∷ cs) =
    let rest = read_quoted cs in
    let next = read_quoted (d ∷ cs) in
    if c == 39 then (if d == 39 then with_char 39 rest else some ([], d ∷ cs)) else with_char c next
  where
    with_char : ℕ → Option (Text × Text) → Option (Text × Text)
    with_char c none = none
    with_char c (some (name, behind)) = some (c ∷ name, behind)

read_quoted-plain :
    (c : ℕ) (cs name behind : Text)
    → (c == 39) ≡ false
    → read_quoted cs ≡ some (name, behind)
    → read_quoted (c ∷ cs) ≡ some (c ∷ name, behind)
unfolding read_quoted
read_quoted-plain c [] name behind h k = absurd (cc)
read_quoted-plain c (d ∷ cs) name behind h k = rw (h, k) refl

read_quoted-escape :
    (cs behind : Text) (d : ℕ)
    → (d == 39) ≡ false
    → read_quoted (escape_quotes cs ++ 39 ∷ d ∷ behind) ≡ some (cs, d ∷ behind)
unfolding read_quoted escape_quotes
read_quoted-escape [] behind d h = rw h refl
read_quoted-escape (c ∷ cs) behind d h = elim (Bool-cases (c == 39)) [
  | inl quoted ↦
      let e : c ≡ 39 = ground arith in rw quoted (rw (read_quoted-escape cs behind d h) (rw e refl))
  | inr plain ↦ rw plain (
      read_quoted-plain c (escape_quotes cs ++ 39 ∷ d ∷ behind) cs (d ∷ behind) plain
        (read_quoted-escape cs behind d h))
]

-- A worksheet name that is quoted in front of a cell range, or of any text that does not begin with
-- a quote, reads back as the name and that text, whatever quotes the name holds: behind an opening
-- quote, two quotes stand for one, and the first single one closes the name.
pub quote_worksheet-readable :
    (value behind : Text) (d : ℕ)
    → (d == 39) ≡ false
    → (rest : Text) × (quote_worksheet value ++ d ∷ behind ≡ 39 ∷ rest)
      × (read_quoted rest ≡ some (value, d ∷ behind))
unfolding quote_worksheet
quote_worksheet-readable value behind d h = (
  escape_quotes value ++ 39 ∷ d ∷ behind,
  ap (λ t. 39 ∷ t) (append_assoc (escape_quotes value) (39 ∷ []) (d ∷ behind)),
  read_quoted-escape value behind d h,
)

-- What is normalized is a column of at most three upper case letters up to 16384, or, where none
-- is required, no column; the column is one that can be named by its number.
pub normalize_column-valid :
    (required : Bool) (value : Option Text) (column : Text)
    → normalize_column required value ≡ ok (some column)
    → (is_column column ≡ true) × (column_name (column_number column) ≡ ok column)
unfolding normalize_column
normalize_column-valid true none column h = absurd (cc)
normalize_column-valid false none column h = absurd (ground arith)
normalize_column-valid required (some value) column h =
    let c : is_column column ≡ true = normalized_column required value column h in
    (c, column_name-column_number column c)
  where
    normalized_column :
        (required : Bool) (value column : Text)
        → normalize_column required (some value) ≡ ok (some column)
        → is_column column ≡ true
    normalized_column required value column h = ground arith
