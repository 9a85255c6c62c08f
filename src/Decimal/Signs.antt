-- ===== src/Decimal/Signs.antt =====
-- The sign of a result, which rounding never changes, and exactness within 28 digits.
use bond_trading.Prelude.{ℕ, ◌+◌, ◌-◌, ◌*◌, ◌^◌, max, ◌<◌, ◌≡◌, refl, false, arith}
use bond_trading.Prelude.Int.{ℤ, pos, negsuc, pos_part, neg_part, sub_ℕ, ◌+ℤ◌, ◌*ℤ◌}
use bond_trading.Decimal.Digits.{pow10_pos, mul_pos, fix_coef_pos, fix_coef-zero}
use bond_trading.Decimal.{Decimal, fix, fix_coef, add, mul, at_scale, lt_zero, le_zero}

-- Signs by the parts of the coefficient: at most one part of an integer is above zero.
abbrev pub IsNonneg : Decimal → Type 0
IsNonneg d = neg_part d.coef ≡ 0

abbrev pub IsPositive : Decimal → Type 0
IsPositive d = 0 < pos_part d.coef

pub IsPositive-IsNonneg : (d : Decimal) → IsPositive d → IsNonneg d
IsPositive-IsNonneg record_d h = positive-nonneg record_d.coef h
  where
    positive-nonneg : (c : ℤ) → 0 < pos_part c → neg_part c ≡ 0
    positive-nonneg (pos n) p = refl
    positive-nonneg (negsuc n) p = absurd (omega arith)

fix_nonneg_coef :
    (c : ℤ) (s : ℕ)
    → neg_part c ≡ 0
    → sub_ℕ (fix_coef (pos_part c) s) (fix_coef (neg_part c) s) ≡ pos (fix_coef (pos_part c) s)
fix_nonneg_coef (pos n) s h = rw (fix_coef-zero s) (ground arith)
fix_nonneg_coef (negsuc n) s h = absurd (omega arith)

pub fix-IsNonneg : (d : Decimal) → IsNonneg d → IsNonneg (fix d)
unfolding fix
fix-IsNonneg d h = rw (fix_nonneg_coef d.coef d.scale h)

pub fix-IsPositive : (d : Decimal) → IsPositive d → IsPositive (fix d)
unfolding fix
fix-IsPositive d h =
    rw (fix_nonneg_coef d.coef d.scale (IsPositive-IsNonneg d h))
      (fix_coef_pos (pos_part d.coef) d.scale h)

mul_coef_nonneg :
    (a b : ℤ) → neg_part a ≡ 0 → neg_part b ≡ 0 → a *ℤ b ≡ pos (pos_part a * pos_part b)
unfolding ◌*ℤ◌
mul_coef_nonneg (pos a) (pos b) h k = ground arith
mul_coef_nonneg (pos a) (negsuc b) h k = absurd (omega arith)
mul_coef_nonneg (negsuc a) b h k = absurd (omega arith)

add_coef_nonneg :
    (a b : ℤ) → neg_part a ≡ 0 → neg_part b ≡ 0 → a +ℤ b ≡ pos (pos_part a + pos_part b)
unfolding ◌+ℤ◌
add_coef_nonneg a b h k = ground arith

pub mul-IsNonneg : (a b : Decimal) → IsNonneg a → IsNonneg b → IsNonneg (mul a b)
unfolding mul
mul-IsNonneg a b h k = fix-IsNonneg _ (rw (mul_coef_nonneg a.coef b.coef h k))

pub mul-IsPositive : (a b : Decimal) → IsPositive a → IsPositive b → IsPositive (mul a b)
unfolding mul
mul-IsPositive a b h k = fix-IsPositive _ (
    rw (mul_coef_nonneg a.coef b.coef (IsPositive-IsNonneg a h) (IsPositive-IsNonneg b k))
      (mul_pos h k))

at_scale-nonneg : (s : ℕ) (d : Decimal) → IsNonneg d → neg_part (at_scale s d) ≡ 0
at_scale-nonneg s d h = rw (mul_coef_nonneg d.coef (pos (10 ^ (s - d.scale))) h refl)

pub add-IsNonneg : (a b : Decimal) → IsNonneg a → IsNonneg b → IsNonneg (add a b)
unfolding add
add-IsNonneg a b h k =
    let s = max a.scale b.scale in
    fix-IsNonneg _ (
      rw (
        add_coef_nonneg (at_scale s a) (at_scale s b) (at_scale-nonneg s a h)
          (at_scale-nonneg s b k)))

at_scale-pos : (s : ℕ) (d : Decimal) → IsPositive d → 0 < pos_part (at_scale s d)
at_scale-pos s d h =
    rw (mul_coef_nonneg d.coef (pos (10 ^ (s - d.scale))) (IsPositive-IsNonneg d h) refl)
      (mul_pos h (pow10_pos _))

pub add-IsPositive : (a b : Decimal) → IsPositive a → IsNonneg b → IsPositive (add a b)
unfolding add
add-IsPositive a b h k =
    let s = max a.scale b.scale in
    fix-IsPositive _ (
      rw
        (add_coef_nonneg (at_scale s a) (at_scale s b)
          (at_scale-nonneg s a (IsPositive-IsNonneg a h)) (at_scale-nonneg s b k))
        (let p = at_scale-pos s a h in omega arith))

-- The tests of the source in terms of the parts.
pub lt_zero-false : (d : Decimal) → lt_zero d ≡ false → IsNonneg d
lt_zero-false d h = ground arith

pub IsNonneg-lt_zero : (d : Decimal) → IsNonneg d → lt_zero d ≡ false
IsNonneg-lt_zero d h = ground arith

pub le_zero-false : (d : Decimal) → le_zero d ≡ false → IsPositive d
le_zero-false d h = ground arith

pub IsPositive-le_zero : (d : Decimal) → IsPositive d → le_zero d ≡ false
IsPositive-le_zero d h = ground arith
