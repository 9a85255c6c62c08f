-- ===== src/Spreadsheets/Fields.antt =====
-- The fields of a row: the functions below `_RowValidationError` of
-- infrastructure/imports/xlsx_reader.py.
use bond_trading.Prelude.{Bool, false, ◌&&◌, ◌||◌, [], ◌∷◌, Option, none, some, if◌then◌else◌}
use bond_trading.Prelude.Texts.{Text, codes, strip}
use bond_trading.Prelude.Results.{Result, ok, err, ◌>>=◌, ◌>>◌, raise_if}
use bond_trading.Errors.{DomainError}
use bond_trading.Decimal.{Decimal, le_zero, lt_zero}
use bond_trading.Calculations.Models.{Date}
use bond_trading.Values.{
  Value, absent, truth, text, number, day, moment, other, PythonLibrary, starts_with, without,
  replaced, one_of, text_or_none, is_blank, shown,
}
use bond_trading.Spreadsheets.{SpreadsheetCell}

-- What is wrong with a field, by the message that says so.
pub data Complaint : Type 0 where
  formula_in_source required_missing date_format date_required : Complaint
  not_positive negative number_required not_a_number unknown_event : Complaint
  isin_refused : DomainError → Complaint

-- `_RowValidationError`
pub record RowValidationError : Type 0 where
  pub field : Text
  pub message : Complaint
  pub source_value : Option Text

abbrev pub complaint : Text → Complaint → Option Text → RowValidationError
complaint field message source_value = record {
  field = field;
  message = message;
  source_value = source_value;
}

abbrev pub Checked : Type 0 → Type 0
Checked A = Result RowValidationError A

-- `isinstance(value, str) and value.startswith("=")`
unfoldable pub is_formula_text : Value → Bool
unfolding starts_with
is_formula_text (text s) = starts_with (codes "=") s
is_formula_text absent = false
is_formula_text (truth b) = false
is_formula_text (number d s) = false
is_formula_text (day d) = false
is_formula_text (moment d t) = false
is_formula_text (other b s) = false

module _ (lib : PythonLibrary) where
  -- `_reject_formula`
  unfoldable pub reject_formula : SpreadsheetCell → Text → Checked (Unit {0})
  unfolding is_formula_text
  reject_formula c field =
      raise_if (c.is_formula || is_formula_text c.value)
        (complaint field formula_in_source (some (shown lib c.value)))

  -- `_text`
  unfoldable pub text_of : Value → Option Text
  unfolding text_or_none shown
  text_of absent = none
  text_of v = text_or_none (strip (shown lib v))

  unfoldable pub present_text : Text → Option Text → Checked Text
  present_text field none = err (complaint field required_missing none)
  present_text field (some value) = ok value

  -- `_manual_text(…, required=True)`, the only way it is called
  unfoldable pub manual_text : SpreadsheetCell → Text → Checked Text
  unfolding reject_formula
  manual_text c field = reject_formula c field >> present_text field (text_of c.value)

  unfoldable pub iso_date : Text → Text → Checked Date
  iso_date field s = elim (lib.day_of_text (strip s)) [
    | some d ↦ ok d
    | none ↦ err (complaint field date_format (some s))
  ]

  unfoldable pub date_value : Text → Value → Checked Date
  unfolding iso_date
  date_value field (moment d t) = ok d
  date_value field (day d) = ok d
  date_value field (text s) = iso_date field s
  date_value field v = err (complaint field date_required (text_of v))

  -- `_manual_date`
  unfoldable pub manual_date : SpreadsheetCell → Text → Checked Date
  unfolding date_value
  manual_date c field = reject_formula c field >> date_value field c.value

  -- `str(value).replace(" ", "").replace(",", ".")`
  unfoldable pub number_text : Value → Text
  unfolding replaced shown
  number_text v = replaced b',' b'.' (without b' ' (shown lib v))

  -- `_decimal`
  unfoldable pub decimal_value : Text → Value → Checked Decimal
  unfolding is_blank
  decimal_value field v =
      raise_if (is_blank v) (complaint field number_required none)
      >> elim (lib.decimal_of (number_text v)) [
        | some d ↦ ok d
        | none ↦ err (complaint field not_a_number (some (shown lib v)))
      ]

  -- `_manual_decimal`
  unfoldable pub manual_decimal : SpreadsheetCell → Text → Bool → Bool → Checked Decimal
  manual_decimal c field positive non_negative =
      reject_formula c field
      >> (decimal_value field c.value >>= λ (d : Decimal).
          (raise_if (positive && le_zero d)
              (complaint field not_positive (some (shown lib c.value)))
            >> (raise_if (non_negative && lt_zero d)
                  (complaint field negative (some (shown lib c.value)))
                >> ok d)))

  -- `_optional_decimal`
  unfoldable pub optional_decimal : SpreadsheetCell → Checked (Option Decimal)
  optional_decimal c =
      if is_blank c.value || c.is_formula
      then ok none
      else decimal_value (codes "optional_decimal") c.value >>= λ (d : Decimal). ok (some d)

  -- `_event_type`
  unfoldable pub event_type : Text → Checked Text
  event_type value =
      let normalized = lib.lower (strip value) in
      if one_of (codes "погашение" ∷ codes "maturity" ∷ []) normalized
      then ok (codes "maturity")
      else if one_of (codes "оферта" ∷ codes "offer" ∷ []) normalized
      then ok (codes "offer")
      else err (complaint (codes "target_event_type") unknown_event (some value))
