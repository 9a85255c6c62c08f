-- ===== src/Decimal.antt =====
-- Python's `decimal.Decimal` as the program uses it: the default context, 28 significant digits
-- and ROUND_HALF_EVEN. A number is coef / 10 ^ scale. Exponents above zero are multiplied out and
-- the two zeros are one, so a value says what a number compares equal to, not how it is printed.
-- NaN, infinities and the exponent limits do not occur: every input is validated as finite.
pub mod Digits
pub mod Signs
pub mod Division
use bond_trading.Prelude.{
  ℕ, zero, suc, ◌+◌, ◌-◌, ◌*◌, ◌/◌, ◌%◌, ◌^◌, max, Bool, true, false, ◌&&◌, Option, none, some, ltb,
  leb, ◌==◌, if◌then◌else◌,
}
use bond_trading.Prelude.Int.{ℤ, pos, pos_part, neg_part, sub_ℕ, ◌+ℤ◌, ◌*ℤ◌, neg}

pub record Decimal : Type 0 where
  pub coef : ℤ
  pub scale : ℕ

abbrev pub precision : ℕ
precision = 28

unfoldable pub digits_from : ℕ → ℕ → ℕ
digits_from zero n = 1
digits_from (suc fuel) n = elim (ltb n 10) [ true ↦ 1 | false ↦ suc (digits_from fuel (n / 10)) ]

-- `len(str(n))`; n halves at the least, so n rounds suffice.
unfoldable pub num_digits : ℕ → ℕ
unfolding digits_from
num_digits n = digits_from n n

-- n / p to the nearest whole number, ties to the even one.
unfoldable pub round_half_even : ℕ → ℕ → ℕ
round_half_even n p =
    if ltb p (2 * (n % p)) then n / p + 1 else if 2 * (n % p) == p then n / p + n / p % 2 else n / p

-- The digits of a coefficient beyond the precision.
unfoldable pub excess : ℕ → ℕ
excess n = num_digits n - precision

unfoldable pub fix_coef : ℕ → ℕ → ℕ
fix_coef n s = if excess n == 0 then n else round_half_even n (10 ^ excess n) * 10 ^ (excess n - s)

unfoldable pub fix_scale : ℕ → ℕ → ℕ
fix_scale n s = s - excess n

-- `_fix`: to 28 significant digits.
unfoldable pub fix : Decimal → Decimal
fix d = record {
  coef = sub_ℕ (fix_coef (pos_part d.coef) d.scale) (fix_coef (neg_part d.coef) d.scale);
  scale = fix_scale (pos_part d.coef + neg_part d.coef) d.scale;
}

abbrev pub of_int : ℤ → Decimal
of_int n = record { coef = n; scale = 0 }

abbrev pub zero_decimal : Decimal
zero_decimal = of_int (pos 0)

-- The coefficient at a scale that is at least its own.
abbrev pub at_scale : ℕ → Decimal → ℤ
at_scale s d = d.coef *ℤ pos (10 ^ (s - d.scale))

unfoldable pub add : Decimal → Decimal → Decimal
add a b =
    let s = max a.scale b.scale in fix (record { coef = at_scale s a +ℤ at_scale s b; scale = s })

unfoldable pub negate : Decimal → Decimal
negate a = record a { coef = neg a.coef }

unfoldable pub sub : Decimal → Decimal → Decimal
sub a b = add a (negate b)

unfoldable pub mul : Decimal → Decimal → Decimal
mul a b = fix (record { coef = a.coef *ℤ b.coef; scale = a.scale + b.scale })

abbrev pub magnitude : ℤ → ℕ
magnitude n = pos_part n + neg_part n

-- The power of ten that brings the quotient of the coefficients to 28 digits or more, as the two
-- factors of dividend and divisor.
unfoldable pub shift_up : ℕ → ℕ → ℕ
shift_up a b = num_digits b + precision + 1 - num_digits a

unfoldable pub shift_down : ℕ → ℕ → ℕ
shift_down a b = num_digits a - (num_digits b + precision + 1)

-- A quotient that leaves a remainder must not look like a tie: its last digit 0 or 5 goes up.
unfoldable pub sticky : ℕ → ℕ → ℕ
sticky n d = if n % d == 0 then n / d else if n / d % 5 == 0 then n / d + 1 else n / d

unfoldable pub div_coef : ℕ → ℕ → ℕ
div_coef a b = sticky (a * 10 ^ shift_up a b) (b * 10 ^ shift_down a b)

-- The quotient of the magnitudes with its sign.
unfoldable pub signed_quotient : ℤ → ℤ → ℕ → ℤ
signed_quotient a b q =
    if ltb 0 (neg_part a * pos_part b + pos_part a * neg_part b) then sub_ℕ 0 q else pos q

-- a / b at the scale of the inputs and the shift; a scale below zero is multiplied out.
-- Division by zero raises; the callers exclude it.
unfoldable pub div : Decimal → Decimal → Decimal
div a b =
    let m = magnitude a.coef in
    let n = magnitude b.coef in
    let up = a.scale + shift_up m n in
    let down = b.scale + shift_down m n in
    fix (record {
      coef = signed_quotient a.coef b.coef (div_coef m n * 10 ^ (down - up));
      scale = up - down;
    })

-- `d < 0` and `d <= 0`
abbrev pub lt_zero : Decimal → Bool
lt_zero d = ltb 0 (neg_part d.coef)

abbrev pub le_zero : Decimal → Bool
le_zero d = pos_part d.coef == 0

-- `a <= b`, exact
unfoldable pub leb_decimal : Decimal → Decimal → Bool
leb_decimal a b =
    leb (pos_part a.coef * 10 ^ b.scale + neg_part b.coef * 10 ^ a.scale)
      (pos_part b.coef * 10 ^ a.scale + neg_part a.coef * 10 ^ b.scale)

-- `a == b`
unfoldable pub eq_decimal : Decimal → Decimal → Bool
eq_decimal a b = leb_decimal a b && leb_decimal b a

-- `d.quantize(Decimal("0.01"))`; none where it raises InvalidOperation.
unfoldable pub quantize_cents : Decimal → Option Decimal
quantize_cents d =
    let cents = λ (n : ℕ).
      (if leb d.scale 2 then n * 10 ^ (2 - d.scale) else round_half_even n (10 ^ (d.scale - 2))) in
    if ltb precision (num_digits (cents (magnitude d.coef)))
    then none
    else some
        (record { coef = sub_ℕ (cents (pos_part d.coef)) (cents (neg_part d.coef)); scale = 2 })

-- Names all that a run of the arithmetic computes with, for the tests' `unfolding` lines.
unfoldable pub runs : Unit {0}
unfolding num_digits round_half_even excess fix_coef fix_scale fix add negate sub mul shift_up
    shift_down sticky div_coef signed_quotient div leb_decimal eq_decimal quantize_cents ◌+ℤ◌ ◌*ℤ◌
    neg
runs = tt
