-- ===== src/Values.antt =====
-- Values of any type, as cells and parsed messages hold them, and what the program asks of them:
-- Python's truth value, `str`, `isinstance` and the readers of numbers and dates. Parameters are
-- the parts of Python's library: `Decimal(text)` (none where it raises InvalidOperation; the texts
-- of NaN and infinity count as unreadable), `date.fromisoformat` and `strptime` (none where they
-- raise ValueError), `str` of a date and of a time, and `str.lower`.
pub mod Concrete
use bond_trading.Prelude.{
  ℕ, Bool, true, false, not, ◌&&◌, ◌||◌, List, [], ◌∷◌, ◌++◌, Option, none, some, ◌==◌,
  if◌then◌else◌, keep, any,
}
use bond_trading.Prelude.Texts.{Text, codes, text_eq, nonempty, strip}
use bond_trading.Decimal.{Decimal, le_zero, lt_zero}
use bond_trading.Calculations.Models.{Date}
use bond_trading.Database.{Time}

pub data Value : Type 0 where
  absent : Value
  truth : Bool → Value
  text : Text → Value
  -- an int, a float or a Decimal, with its `str`
  number : Decimal → Text → Value
  day : Date → Value
  -- a datetime, its own date before its time
  moment : Date → Time → Value
  -- any other object: its truth value and its `str`
  other : Bool → Text → Value

pub record PythonLibrary : Type 0 where
  pub decimal_of : Text → Option Decimal
  pub day_of_text : Text → Option Date
  -- `datetime.strptime(candidate, pattern).date()`, the pattern first
  pub day_by_pattern : Text → Text → Option Date
  pub shown_day : Date → Text
  pub shown_moment : Date → Time → Text
  pub lower : Text → Text

-- `text.startswith(prefix)`
unfoldable pub starts_with : Text → Text → Bool
starts_with [] s = true
starts_with (p ∷ ps) [] = false
starts_with (p ∷ ps) (c ∷ cs) = p == c && starts_with ps cs

-- `text.replace(a, "")` and `text.replace(a, b)` for single characters
abbrev pub without : ℕ → Text → Text
without a s = keep (λ c. not (c == a)) s

unfoldable pub replaced : ℕ → ℕ → Text → Text
replaced a b [] = []
replaced a b (c ∷ cs) = (if c == a then b else c) ∷ replaced a b cs

-- `text.partition(a)[0]`
unfoldable pub before : ℕ → Text → Text
before a [] = []
before a (c ∷ cs) = elim (c == a) [ true ↦ [] | false ↦ c ∷ before a cs ]

-- `value in (…)` for texts
abbrev pub one_of : List Text → Text → Bool
one_of texts s = any (λ t. text_eq t s) texts

-- `text or None`
unfoldable pub text_or_none : Text → Option Text
text_or_none s = if nonempty s then some s else none

unfoldable pub is_zero : Decimal → Bool
is_zero d = le_zero d && not (lt_zero d)

-- `bool(value)`
unfoldable pub truthy : Value → Bool
unfolding is_zero
truthy absent = false
truthy (truth b) = b
truthy (text s) = nonempty s
truthy (number d shown) = not (is_zero d)
truthy (day d) = true
truthy (moment d t) = true
truthy (other b shown) = b

-- `value in (None, "")`
unfoldable pub is_blank : Value → Bool
is_blank absent = true
is_blank (text s) = not (nonempty s)
is_blank (truth b) = false
is_blank (number d shown) = false
is_blank (day d) = false
is_blank (moment d t) = false
is_blank (other b shown) = false

module _ (lib : PythonLibrary) where
  -- `str(value)`
  unfoldable pub shown : Value → Text
  shown absent = codes "None"
  shown (truth true) = codes "True"
  shown (truth false) = codes "False"
  shown (text s) = s
  shown (number d s) = s
  shown (day d) = lib.shown_day d
  shown (moment d t) = lib.shown_moment d t
  shown (other b s) = s

  -- `str(value or "")`
  unfoldable pub shown_or_empty : Value → Text
  unfolding shown truthy
  shown_or_empty v = if truthy v then shown v else []

-- Names what a run of these computes with, for the tests' `unfolding` lines.
unfoldable pub values_runs : Unit {0}
unfolding starts_with replaced before text_or_none is_zero truthy is_blank shown shown_or_empty
values_runs = tt
