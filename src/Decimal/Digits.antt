-- ===== src/Decimal/Digits.antt =====
-- The number of digits of a coefficient, and what rounding to 28 digits does to its size.
use bond_trading.Prelude.{
  ℕ, zero, suc, ◌+◌, ◌-◌, ◌*◌, ◌/◌, ◌%◌, ◌^◌, ◌≤◌, ◌<◌, ◌≡◌, refl, ap, inl, inr, false, arith, ltb,
  ◌==◌, Bool-cases, ltb→lt, ==_iff,
}
use native.Mathlib.Nat.{
  pow-suc, mul-le-mul, le-div_iff_mul-le, pow-le-pow_right, le_trans, div-add-mod, mod-lt,
}
use bond_trading.Decimal.{digits_from, num_digits, round_half_even, excess, fix_coef}

pub pow10_pos : (k : ℕ) → 0 < 10 ^ k
pow10_pos zero = omega arith
pow10_pos (suc k) = omega (arith, pow-suc 10 k, pow10_pos k)

pub mul_pos : {a b : ℕ} → 0 < a → 0 < b → 0 < a * b
mul_pos {a} {b} h k = mul-le-mul {n₁ = 1} {m₁ = 1} {n₂ = a} {m₂ = b} h k

pub pow10-add : (a b : ℕ) → 10 ^ (a + b) ≡ 10 ^ a * 10 ^ b
pow10-add zero b = let e : 0 + b ≡ b = omega arith in rw e (omega arith)
pow10-add (suc a) b =
    let e : suc a + b ≡ suc (a + b) = omega arith in
    rw (e, pow-suc 10 (a + b), pow-suc 10 a) (omega (arith, ap (λ (t : ℕ). t * 10) (pow10-add a b)))

digits_from_lower_step : (n d : ℕ) → 10 ≤ n → 10 ^ (d - 1) ≤ n / 10 → 10 ^ (suc d - 1) ≤ n
digits_from_lower_step n zero h p = omega arith
digits_from_lower_step n (suc d) h p =
    let e : suc (suc d) - 1 ≡ suc d = omega arith in
    let e' : suc d - 1 ≡ d = omega arith in rw e (omega (arith, pow-suc 10 d, rw e' at p))

digits_from_lower : (f n : ℕ) → n ≤ f → 0 < n → 10 ^ (digits_from f n - 1) ≤ n
unfolding digits_from
digits_from_lower zero n h p = omega arith
digits_from_lower (suc f) n h p = elim (Bool-cases (ltb n 10)) [
  | inl small ↦ rw (small, digits_from) (omega arith)
  | inr large ↦
      rw (large, digits_from)
        (digits_from_lower_step n _ (ground arith)
          (digits_from_lower f (n / 10) (ground arith) (ground arith)))
]

digits_from_upper : (f n : ℕ) → n ≤ f → n < 10 ^ digits_from f n
unfolding digits_from
digits_from_upper zero n h = omega arith
digits_from_upper (suc f) n h = elim (Bool-cases (ltb n 10)) [
  | inl small ↦ rw (small, digits_from) (ground arith)
  | inr large ↦
      rw (large, digits_from)
        (omega
          (arith, pow-suc 10 (digits_from f (n / 10)), digits_from_upper f (n / 10) (ground arith)))
]

-- A positive number of d digits lies between 10 ^ (d - 1) and 10 ^ d.
pub num_digits_lower : (n : ℕ) → 0 < n → 10 ^ (num_digits n - 1) ≤ n
unfolding num_digits
num_digits_lower n h = digits_from_lower n n (omega arith) h

pub num_digits_upper : (n : ℕ) → n < 10 ^ num_digits n
unfolding num_digits
num_digits_upper n = digits_from_upper n n (omega arith)

not_ltb : (a b : ℕ) → ltb a b ≡ false → b ≤ a
not_ltb a b h = ground arith

near_step :
    (n p q r : ℕ)
    → p * q + r ≡ n
    → 2 * r ≤ p
    → (2 * (q * p) ≤ 2 * n + p) × (2 * n ≤ 2 * (q * p) + p)
near_step n p q r e h = omega arith

even_step :
    (n p q r b : ℕ)
    → p * q + r ≡ n
    → 2 * r ≡ p
    → b < 2
    → (2 * ((q + b) * p) ≤ 2 * n + p) × (2 * n ≤ 2 * ((q + b) * p) + p)
even_step n p q r zero e t h = omega arith
even_step n p q r (suc zero) e t h = omega arith
even_step n p q r (suc (suc b)) e t h = absurd (omega arith)

-- Rounding moves a number by half a unit at most.
pub round_half_even_error :
    (n p : ℕ)
    → 0 < p
    → (2 * (round_half_even n p * p) ≤ 2 * n + p) × (2 * n ≤ 2 * (round_half_even n p * p) + p)
unfolding round_half_even
round_half_even_error n p h = elim (Bool-cases (ltb p (2 * (n % p)))) [
  | inl above ↦
      rw (above, round_half_even)
        (omega (arith, div-add-mod n p, mod-lt n {m = p} h, ltb→lt p (2 * (n % p)) above))
  | inr below ↦ elim (Bool-cases (2 * (n % p) == p)) [
    | inl tie ↦
        rw (below, round_half_even)
          (rw tie (
            even_step n p (n / p) (n % p) (n / p % 2) (div-add-mod n p) ((==_iff _ _).0 tie)
              (omega arith)))
    | inr off ↦
        rw (below, round_half_even)
          (rw off (near_step n p (n / p) (n % p) (div-add-mod n p) (not_ltb p (2 * (n % p)) below)))
  ]
]

pub round_half_even_pos : (n p : ℕ) → 0 < p → p ≤ n → 0 < round_half_even n p
unfolding round_half_even
round_half_even_pos n p h k =
    ground (arith, (le-div_iff_mul-le {k = p} {x = 1} {y = n} h).1 (omega arith))

excess-le : (n : ℕ) → 0 < n → 10 ^ excess n ≤ n
unfolding excess
excess-le n h = le_trans (pow-le-pow_right (omega arith) (omega arith)) (num_digits_lower n h)

-- Rounding to 28 digits neither makes a number zero nor a zero a number.
pub fix_coef_pos : (n s : ℕ) → 0 < n → 0 < fix_coef n s
unfolding fix_coef
fix_coef_pos n s h = elim (Bool-cases (excess n == 0)) [
  | inl small ↦ rw (small, fix_coef) h
  | inr large ↦
      rw (large, fix_coef)
        (mul_pos (round_half_even_pos n (10 ^ excess n) (pow10_pos _) (excess-le n h))
          (pow10_pos (excess n - s)))
]

pub fix_coef-zero : (s : ℕ) → fix_coef 0 s ≡ 0
unfolding fix_coef excess num_digits
fix_coef-zero s = refl
