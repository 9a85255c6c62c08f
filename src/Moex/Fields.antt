-- ===== src/Moex/Fields.antt =====
-- The readers of one cell in infrastructure/moex/mapper.py. Parameters, beside those of Values, are
-- the reader of a timestamp in the program's zone (`datetime.fromisoformat` and `astimezone`), the
-- hash of a row (JSON and SHA-256) and the JSON text of the payload's part that is kept.
use bond_trading.Prelude.{
  ◌/◌, ◌^◌, Bool, false, ◌||◌, List, [], ◌∷◌, Option, none, some, if◌then◌else◌,
}
use bond_trading.Prelude.Int.{ℤ, pos, pos_part, neg_part, sub_ℕ}
use bond_trading.Prelude.Texts.{Text, codes, upper, strip}
use bond_trading.Prelude.Results.{ok, err, ◌>>=◌}
use bond_trading.Decimal.{Decimal, eq_decimal, of_int}
use bond_trading.Calculations.Models.{Date}
use bond_trading.Database.{Time}
use bond_trading.Values.{
  Value, absent, truth, text, number, day, moment, other, PythonLibrary, starts_with, one_of,
  is_zero, truthy, is_blank, shown,
}
use bond_trading.Moex.{moex_data, Answer, Payload, Row}

pub record MoexLibrary : Type 0 where
  pub moment_of : Text → Option Time
  pub row_hash : Row → Text
  pub payload_text : Payload → Text

-- `a or b` on values and on optional amounts
unfoldable pub or_value : Value → Value → Value
or_value a b = if truthy a then a else b

unfoldable pub or_amount : Option Decimal → Option Decimal → Option Decimal
or_amount none b = b
or_amount (some a) b = if is_zero a then b else some a

-- `value == 1`
unfoldable pub equals_one : Value → Bool
equals_one (truth b) = b
equals_one (number d shown) = eq_decimal d (of_int (pos 1))
equals_one absent = false
equals_one (text s) = false
equals_one (day d) = false
equals_one (moment d t) = false
equals_one (other b s) = false

-- `part in s`
unfoldable pub contains : Text → Text → Bool
contains part [] = starts_with part []
contains part (c ∷ cs) = starts_with part (c ∷ cs) || contains part cs

-- `int(d)`: the digits behind the point are dropped
unfoldable pub truncated : Decimal → ℤ
truncated d = sub_ℕ (pos_part d.coef / 10 ^ d.scale) (neg_part d.coef / 10 ^ d.scale)

module _ (lib : PythonLibrary) where
  -- `_decimal`
  unfoldable pub moex_decimal : Value → Answer (Option Decimal)
  moex_decimal v =
      if is_blank v
      then ok none
      else elim (lib.decimal_of (shown lib v)) [ some d ↦ ok (some d) | none ↦ err moex_data ]

  -- `_integer`
  unfoldable pub moex_integer : Value → Answer (Option ℤ)
  moex_integer v = moex_decimal v >>= λ (found : Option Decimal). elim found [
    | none ↦ ok none
    | some d ↦ ok (some (truncated d))
  ]

  -- `value in (None, "", "0000-00-00")`
  unfoldable pub is_no_date : Value → Bool
  is_no_date (text s) = one_of ([] ∷ codes "0000-00-00" ∷ []) s
  is_no_date v = is_blank v

  -- `_date`
  unfoldable pub moex_date : Value → Answer (Option Date)
  moex_date v =
      if is_no_date v
      then ok none
      else elim (lib.day_of_text (shown lib v)) [ some d ↦ ok (some d) | none ↦ err moex_data ]

  -- `_first_date`
  unfoldable pub first_date : List Value → Answer (Option Date)
  first_date [] = ok none
  first_date (v ∷ values) = moex_date v >>= λ (found : Option Date). elim found [
    | some d ↦ ok (some d)
    | none ↦ first_date values
  ]

  -- `_market_datetime`
  unfoldable pub market_datetime : MoexLibrary → Value → Answer (Option Time)
  market_datetime moex v =
      if is_blank v
      then ok none
      else elim (moex.moment_of (shown lib v)) [ some t ↦ ok (some t) | none ↦ err moex_data ]

  -- `_currency`
  unfoldable pub currency_of : Value → Text
  currency_of v =
      let raw = upper (shown lib (or_value v (text (codes "RUB")))) in
      if one_of (codes "RUB" ∷ codes "SUR" ∷ []) raw then codes "RUB" else raw

  -- `_optional_string`
  unfoldable pub optional_string : Value → Option Text
  optional_string v = if is_blank v then none else some (strip (shown lib v))
