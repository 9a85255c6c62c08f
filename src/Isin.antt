-- ===== src/Isin.antt =====
-- domain/value_objects/isin.py. A text is the list of its code points.
pub mod Luhn
pub mod Laws
mod Samples
use bond_trading.Prelude.{
  ℕ, ◌+◌, ◌-◌, ◌*◌, ◌/◌, ◌%◌, Bool, true, false, not, ◌&&◌, List, [], ◌∷◌, ◌++◌, ◌==◌,
  if◌then◌else◌,
}
use mathlib.Core.List.{reverse}
use bond_trading.Prelude.Texts.{Text, strip, upper, is_upper, is_digit, is_upper_or_digit}
use bond_trading.Prelude.Results.{Result, ok, ◌>>=◌, ◌>>◌, raise_if}
use bond_trading.Errors.{DomainError, invalid_isin}

-- A sequence of character classes, matched to the end of the text.
unfoldable pub full_match : List (ℕ → Bool) → Text → Bool
full_match [] [] = true
full_match [] (c ∷ cs) = false
full_match (p ∷ ps) [] = false
full_match (p ∷ ps) (c ∷ cs) = p c && full_match ps cs

-- ISIN_PATTERN: two letters, nine letters or digits, a digit.
abbrev pub isin_pattern : List (ℕ → Bool)
isin_pattern =
    is_upper ∷ is_upper ∷ is_upper_or_digit ∷ is_upper_or_digit ∷ is_upper_or_digit
    ∷ is_upper_or_digit ∷ is_upper_or_digit ∷ is_upper_or_digit ∷ is_upper_or_digit
    ∷ is_upper_or_digit ∷ is_upper_or_digit ∷ is_digit ∷ []

-- The digits of `str(ord(char) - 55)` for a letter, a digit's own value otherwise.
unfoldable pub expand_char : ℕ → List ℕ
expand_char c = if is_upper c then (c - 55) / 10 ∷ (c - 55) % 10 ∷ [] else (c - 48) ∷ []

unfoldable pub expand : Text → List ℕ
expand [] = []
expand (c ∷ cs) = expand_char c ++ expand cs

-- `digit *= 2; digit = digit // 10 + digit % 10`
unfoldable pub doubled : ℕ → ℕ
doubled digit = digit * 2 / 10 + digit * 2 % 10

-- The loop over the digits from the right.
unfoldable pub luhn_total : Bool → ℕ → List ℕ → ℕ
luhn_total should_double total [] = total
luhn_total should_double total (digit ∷ digits) =
    luhn_total (not should_double) (total + (if should_double then doubled digit else digit)) digits

-- `_valid_check_digit`
unfoldable pub valid_check_digit : Text → Bool
valid_check_digit value = luhn_total false 0 (reverse (expand value)) % 10 == 0

-- `validate_isin`
unfoldable pub validate_isin : Bool → Text → Result DomainError (Unit {0})
validate_isin check_digit value =
    raise_if (not (full_match isin_pattern value)) invalid_isin
    >> raise_if (check_digit && not (valid_check_digit value)) invalid_isin

-- `normalize_isin`
unfoldable pub normalize_isin : Text → Result DomainError Text
normalize_isin value = validate_isin true (upper (strip value)) >> ok (upper (strip value))

-- Names what a run of the checks computes with, for the tests' `unfolding` lines.
unfoldable pub isin_runs : Unit {0}
unfolding full_match expand_char expand doubled luhn_total valid_check_digit validate_isin
    normalize_isin
isin_runs = tt
