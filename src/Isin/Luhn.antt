-- ===== src/Isin/Luhn.antt =====
-- The check sum of an ISIN: what errors it detects.
use bond_trading.Prelude.{
  ℕ, ◌+◌, ◌%◌, ◌<◌, ◌≡◌, ◌≢◌, ◌∙◌, Bool, true, false, not, List, [], ◌∷◌, ◌++◌, if◌then◌else◌,
  arith,
}
use bond_trading.Isin.{doubled, luhn_total}

abbrev weight : Bool → ℕ → ℕ
weight b d = if b then doubled d else d

-- The check sum without an accumulator.
check_sum : Bool → List ℕ → ℕ
check_sum b [] = 0
check_sum b (d ∷ ds) = weight b d + check_sum (not b) ds

luhn_total-check_sum :
    (b : Bool) (total : ℕ) (ds : List ℕ) → luhn_total b total ds ≡ total + check_sum b ds
unfolding luhn_total check_sum
luhn_total-check_sum b total [] = omega arith
luhn_total-check_sum b total (d ∷ ds) =
    luhn_total-check_sum (not b) (total + weight b d) ds ∙ omega arith

-- Doubling and adding the digits is a permutation of the digits.
doubled_injective : (d e : ℕ) → d < 10 → e < 10 → doubled d ≡ doubled e → d ≡ e
unfolding doubled
doubled_injective d e h k p = omega arith

doubled_digit : (d : ℕ) → d < 10 → doubled d < 10
unfolding doubled
doubled_digit d h = omega arith

check_sum-replace :
    (b : Bool) (xs ys : List ℕ) (d e r : ℕ)
    → d < 10
    → e < 10
    → (check_sum b (xs ++ d ∷ ys) + r) % 10 ≡ 0
    → (check_sum b (xs ++ e ∷ ys) + r) % 10 ≡ 0
    → d ≡ e
unfolding check_sum
check_sum-replace true [] ys d e r h k p q =
    doubled_injective d e h k (omega (arith, doubled_digit d h, doubled_digit e k))
check_sum-replace false [] ys d e r h k p q = omega arith
check_sum-replace b (x ∷ xs) ys d e r h k p q =
    check_sum-replace (not b) xs ys d e (weight b x + r) h k (omega arith) (omega arith)

-- A wrong digit at any place, whether that place is doubled or not, turns a total that is a
-- multiple of ten into one that is not: every single wrong digit is detected.
pub luhn_detects_digit :
    (xs ys : List ℕ) (d e : ℕ)
    → d < 10
    → e < 10
    → d ≢ e
    → luhn_total false 0 (xs ++ d ∷ ys) % 10 ≡ 0
    → luhn_total false 0 (xs ++ e ∷ ys) % 10 ≢ 0
luhn_detects_digit xs ys d e h k n p q = n (
    check_sum-replace false xs ys d e 0 h k
      (omega (arith, luhn_total-check_sum false 0 (xs ++ d ∷ ys)))
      (omega (arith, luhn_total-check_sum false 0 (xs ++ e ∷ ys))))
