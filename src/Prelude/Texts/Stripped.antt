-- ===== src/Prelude/Texts/Stripped.antt =====
-- Texts that `strip` and `upper` leave alone.
use mathlib.Core.List.{[], ◌∷◌, ◌++◌, reverse, reverse-reverse, reverse-cons}
use mathlib.Core.Path.{◌≡◌, refl}
use mathlib.Core.Bool.{Bool, true}
use Prim.Native.Nat.{ℕ}
use native.Mathlib.Omega.{arith}
use bond_trading.Prelude.Lists.{all}
use bond_trading.Prelude.Texts.{Text, is_space, lstrip, strip, upper, upper_char, is_upper_or_digit}

all-append :
    (p : ℕ → Bool) (xs ys : Text) → all p xs ≡ true → all p ys ≡ true → all p (xs ++ ys) ≡ true
all-append p [] ys h k = k
all-append p (x ∷ xs) ys h k = ground (arith, all-append p xs ys)

pub all-reverse : (p : ℕ → Bool) (xs : Text) → all p xs ≡ true → all p (reverse xs) ≡ true
all-reverse p [] h = refl
all-reverse p (x ∷ xs) h =
    rw (reverse-cons x xs)
      (all-append p (reverse xs) (x ∷ []) (all-reverse p xs (ground arith)) (ground arith))

lstrip_same : (xs : Text) → all is_upper_or_digit xs ≡ true → lstrip xs ≡ xs
unfolding lstrip is_space
lstrip_same [] h = refl
lstrip_same (x ∷ xs) h = ground arith

pub strip_same : (xs : Text) → all is_upper_or_digit xs ≡ true → strip xs ≡ xs
unfolding strip
strip_same xs h =
    rw (lstrip_same xs h) (rw (lstrip_same (reverse xs) (all-reverse _ xs h)) (reverse-reverse xs))

pub upper_same : (xs : Text) → all is_upper_or_digit xs ≡ true → upper xs ≡ xs
unfolding upper upper_char
upper_same [] h = refl
upper_same (x ∷ xs) h = ground (arith, upper_same xs)
