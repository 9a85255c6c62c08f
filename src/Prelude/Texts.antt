-- ===== src/Prelude/Texts.antt =====
-- Python's `str` as the list of its code points, with the methods that the program calls.
pub mod Stripped
use Prim.Native.Char.{code}
use Prim.Native.String.{String}
use Prim.Native.Nat.{ℕ, ◌-◌}
use mathlib.Core.Path.{◌≡◌, refl}
use mathlib.Core.Logic.{◌↔◌}
use mathlib.Core.Bool.{Bool, true, false, ◌&&◌, ◌||◌}
use mathlib.Core.List.{List, [], ◌∷◌, ◌++◌, reverse}
use native.Mathlib.Omega.{arith}
use bond_trading.Prelude.Tests.{leb, ◌==◌, if◌then◌else◌}

abbrev pub Text : Type 0
Text = List ℕ

-- A literal of the source.
abbrev pub codes : String → Text
codes String.[] = []
codes (String.◌∷◌ c s) = code c ∷ codes s

-- `a == b` on `str`
abbrev pub text_eq : Text → Text → Bool
text_eq [] [] = true
text_eq [] (y ∷ ys) = false
text_eq (x ∷ xs) [] = false
text_eq (x ∷ xs) (y ∷ ys) = x == y && text_eq xs ys

pub text_eq_sound : (a b : Text) → text_eq a b ≡ true → a ≡ b
text_eq_sound [] [] h = refl
text_eq_sound [] (y ∷ ys) h = ground arith
text_eq_sound (x ∷ xs) [] h = ground arith
text_eq_sound (x ∷ xs) (y ∷ ys) h = ground (arith, text_eq_sound xs ys)

pub text_eq_refl : (a : Text) → text_eq a a ≡ true
text_eq_refl [] = refl
text_eq_refl (x ∷ xs) = ground (arith, text_eq_refl xs)

pub text_eq_iff : (a b : Text) → (text_eq a b ≡ true) ↔ (a ≡ b)
text_eq_iff a b = (text_eq_sound a b, λ e. rw e (text_eq_refl b))

-- The truth value of a `str`.
abbrev pub nonempty : Text → Bool
nonempty [] = false
nonempty (x ∷ xs) = true

-- `str.isspace` on one code point, the whole of Unicode.
unfoldable pub is_space : ℕ → Bool
is_space c =
    (leb 9 c && leb c 13)
    || (leb 28 c && leb c 32)
    || c == 0x85
    || c == 0xa0
    || c == 0x1680
    || (leb 0x2000 c && leb c 0x200a)
    || c == 0x2028
    || c == 0x2029
    || c == 0x202f
    || c == 0x205f
    || c == 0x3000

unfoldable pub lstrip : Text → Text
unfolding is_space
lstrip [] = []
lstrip (c ∷ cs) = if is_space c then lstrip cs else c ∷ cs

-- `str.strip`
unfoldable pub strip : Text → Text
unfolding lstrip
strip s = reverse (lstrip (reverse (lstrip s)))

-- `str.upper` on one code point: ASCII, and the characters outside ASCII whose upper case is all
-- ASCII. Any other character stays as it is; its upper case has a character outside ASCII, as it
-- has itself, so a test for ASCII patterns answers the same.
unfoldable pub upper_char : ℕ → Text
upper_char c =
    if leb b'a' c && leb c b'z'
    then (c - 32) ∷ []
    else if c == 0xdf
    then codes "SS"
    else if c == 0x131
    then codes "I"
    else if c == 0x17f
    then codes "S"
    else if c == 0xfb00
    then codes "FF"
    else if c == 0xfb01
    then codes "FI"
    else if c == 0xfb02
    then codes "FL"
    else if c == 0xfb03
    then codes "FFI"
    else if c == 0xfb04
    then codes "FFL"
    else if c == 0xfb05 || c == 0xfb06
    then codes "ST"
    else c ∷ []

-- `str.upper`
unfoldable pub upper : Text → Text
upper [] = []
upper (c ∷ cs) = upper_char c ++ upper cs

-- Classes of a regular expression.
abbrev pub is_upper : ℕ → Bool
is_upper c = leb b'A' c && leb c b'Z'

abbrev pub is_digit : ℕ → Bool
is_digit c = leb b'0' c && leb c b'9'

abbrev pub is_upper_or_digit : ℕ → Bool
is_upper_or_digit c = is_upper c || is_digit c
