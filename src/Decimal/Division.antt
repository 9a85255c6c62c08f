-- ===== src/Decimal/Division.antt =====
-- A quotient by a positive number, and a product with one, keep the sign of the other number.
use bond_trading.Prelude.{
  ℕ, zero, suc, ◌+◌, ◌-◌, ◌*◌, ◌^◌, ◌≤◌, ◌<◌, ◌≡◌, refl, arith, ltb, ◌==◌, ◌∙◌,
}
use native.Mathlib.Nat.{mul-le-mul, le-div_iff_mul-le, pow-le-pow_right, le_refl}
use bond_trading.Prelude.Int.{ℤ, pos, negsuc, pos_part, neg_part, sub_ℕ, ◌*ℤ◌}
use bond_trading.Decimal.Digits.{
  pow10_pos, pow10-add, mul_pos, fix_coef_pos, fix_coef-zero, num_digits_lower, num_digits_upper,
}
use bond_trading.Decimal.Signs.{IsPositive}
use bond_trading.Decimal.{
  Decimal, fix, fix_coef, mul, div, div_coef, sticky, magnitude, num_digits, shift_up, shift_down,
  signed_quotient, lt_zero, le_zero,
}

-- Two numbers lie on the same side of zero.
abbrev pub SameSign : Decimal → Decimal → Type 0
SameSign a b = (lt_zero a ≡ lt_zero b) × (le_zero a ≡ le_zero b)

fix_coef-SameSign :
    (c : ℤ) (s : ℕ)
    → let r = sub_ℕ (fix_coef (pos_part c) s) (fix_coef (neg_part c) s) in
      (ltb 0 (neg_part r) ≡ ltb 0 (neg_part c)) × ((pos_part r == 0) ≡ (pos_part c == 0))
fix_coef-SameSign (pos zero) s = rw (fix_coef-zero s) (refl, refl)
fix_coef-SameSign (pos (suc n)) s =
    let p = fix_coef_pos (suc n) s (omega arith) in
    rw (fix_coef-zero s) (ground arith, ground arith)
fix_coef-SameSign (negsuc n) s =
    let p = fix_coef_pos (suc n) s (omega arith) in
    rw (fix_coef-zero s) (ground arith, ground arith)

pub fix-SameSign : (d : Decimal) → SameSign (fix d) d
unfolding fix
fix-SameSign d = fix_coef-SameSign d.coef d.scale

mul_coef-SameSign :
    (a b : ℤ)
    → 0 < pos_part b
    → (ltb 0 (neg_part (a *ℤ b)) ≡ ltb 0 (neg_part a))
      × ((pos_part (a *ℤ b) == 0) ≡ (pos_part a == 0))
unfolding ◌*ℤ◌
mul_coef-SameSign a (negsuc b) h = absurd (omega arith)
mul_coef-SameSign (pos zero) (pos b) h = (ground arith, ground arith)
mul_coef-SameSign (pos (suc a)) (pos b) h =
    let p = mul_pos {a = suc a} (omega arith) h in (ground arith, ground arith)
mul_coef-SameSign (negsuc a) (pos b) h =
    let p = mul_pos {a = suc a} (omega arith) h in (ground arith, ground arith)

pub mul-SameSign : (a b : Decimal) → IsPositive b → SameSign (mul a b) a
unfolding mul
mul-SameSign a b h =
    let f = fix-SameSign (record { coef = a.coef *ℤ b.coef; scale = a.scale + b.scale }) in
    let g = mul_coef-SameSign a.coef b.coef h in (f.0 ∙ g.0, f.1 ∙ g.1)

exponent_bound : (a b : ℕ) → b + (a - (b + 28 + 1)) ≤ a - 1 + (b + 28 + 1 - a)
exponent_bound a b = omega arith

divisor_le : (m n : ℕ) → 0 < m → n * 10 ^ shift_down m n ≤ m * 10 ^ shift_up m n
unfolding shift_down shift_up
divisor_le m n h =
    let u = num_digits n + 28 + 1 - num_digits m in
    let d = num_digits m - (num_digits n + 28 + 1) in
    let upper : n * 10 ^ d ≤ 10 ^ num_digits n * 10 ^ d =
      mul-le-mul (omega (arith, num_digits_upper n)) (le_refl _) in
    let middle : 10 ^ (num_digits n + d) ≤ 10 ^ (num_digits m - 1 + u) =
      pow-le-pow_right (omega arith) (exponent_bound (num_digits m) (num_digits n)) in
    let lower : 10 ^ (num_digits m - 1) * 10 ^ u ≤ m * 10 ^ u =
      mul-le-mul (num_digits_lower m h) (le_refl _) in
    omega (arith, upper, middle, lower, pow10-add (num_digits n) d, pow10-add (num_digits m - 1) u)

sticky_pos : (n d : ℕ) → 0 < d → d ≤ n → 0 < sticky n d
unfolding sticky
sticky_pos n d h k = ground (arith, (le-div_iff_mul-le {k = d} {x = 1} {y = n} h).1 (omega arith))

sticky-zero : (d : ℕ) → sticky 0 d ≡ 0
unfolding sticky
sticky-zero d = ground arith

pub div_coef_pos : (m n : ℕ) → 0 < m → 0 < n → 0 < div_coef m n
unfolding div_coef
div_coef_pos m n h k = sticky_pos _ _ (mul_pos k (pow10_pos _)) (divisor_le m n h)

div_coef-zero : (n : ℕ) → div_coef 0 n ≡ 0
unfolding div_coef
div_coef-zero n =
    let e : 0 * 10 ^ shift_up 0 n ≡ 0 = omega arith in rw e (sticky-zero (n * 10 ^ shift_down 0 n))

signed_quotient-SameSign :
    (a b : ℤ) (q : ℕ)
    → 0 < pos_part b
    → (magnitude a ≡ 0 → q ≡ 0)
    → (0 < magnitude a → 0 < q)
    → (ltb 0 (neg_part (signed_quotient a b q)) ≡ ltb 0 (neg_part a))
      × ((pos_part (signed_quotient a b q) == 0) ≡ (pos_part a == 0))
unfolding signed_quotient
signed_quotient-SameSign a (negsuc b) q h z p = absurd (omega arith)
signed_quotient-SameSign (pos zero) (pos b) q h z p =
    let e = z (omega arith) in (ground arith, ground arith)
signed_quotient-SameSign (pos (suc a)) (pos b) q h z p =
    let e = p (omega arith) in (ground arith, ground arith)
signed_quotient-SameSign (negsuc a) (pos b) q h z p =
    let e = p (omega arith) in
    let m = mul_pos {a = suc a} (omega arith) h in (ground arith, ground arith)

scaled_quotient-zero : (m n e : ℕ) → m ≡ 0 → div_coef m n * 10 ^ e ≡ 0
scaled_quotient-zero m n e h = rw h (rw (div_coef-zero n) (omega arith))

magnitude_pos : (c : ℤ) → 0 < pos_part c → 0 < magnitude c
magnitude_pos c h = omega arith

pub div-SameSign : (a b : Decimal) → IsPositive b → SameSign (div a b) a
unfolding div
div-SameSign a b h =
    let m = magnitude a.coef in
    let n = magnitude b.coef in
    let up = a.scale + shift_up m n in
    let down = b.scale + shift_down m n in
    let q = div_coef m n * 10 ^ (down - up) in
    let f = fix-SameSign (record { coef = signed_quotient a.coef b.coef q; scale = up - down }) in
    let g =
      signed_quotient-SameSign a.coef b.coef q h (scaled_quotient-zero m n (down - up))
        (λ p. mul_pos (div_coef_pos m n p (magnitude_pos b.coef h)) (pow10_pos (down - up))) in
    (f.0 ∙ g.0, f.1 ∙ g.1)
