-- ===== src/Spreadsheets/Reader.antt =====
-- `SpreadsheetPortfolioReader._parse_row` and the loop of its `preview`, in
-- infrastructure/imports/xlsx_reader.py.
use bond_trading.Prelude.{ℕ, suc, true, false, List, [], ◌∷◌, Option, none, some, if◌then◌else◌}
use bond_trading.Prelude.Texts.{Text, codes}
use bond_trading.Prelude.Results.{ok, err, ◌>>=◌}
use bond_trading.Decimal.{Decimal, zero_decimal}
use bond_trading.Calculations.Models.{Date}
use bond_trading.Isin.{normalize_isin}
use bond_trading.Values.{PythonLibrary, is_zero}
use bond_trading.Spreadsheets.{SpreadsheetCell, SpreadsheetSheet, cell, is_empty_row}
use bond_trading.Spreadsheets.Fields.{
  Complaint, isin_refused, RowValidationError, complaint, Checked, text_of, manual_text,
  manual_date, manual_decimal, optional_decimal, event_type,
}

pub record ImportRowError : Type 0 where
  pub row_number : ℕ
  pub field : Text
  pub message : Complaint
  pub source_value : Option Text

pub record ImportRow : Type 0 where
  pub row_number : ℕ
  pub source_isin : Text
  pub normalized_isin : Text
  pub source_name : Option Text
  pub target_event_type : Text
  pub purchase_date : Date
  pub target_event_date : Date
  pub quantity : Decimal
  pub purchase_clean_price_rub_per_bond : Decimal
  pub purchase_accrued_interest_rub_per_bond : Decimal
  pub purchase_commission_rub_per_bond : Decimal
  pub target_redemption_price_rub_per_bond : Option Decimal
  pub sale_commission_rub_per_bond : Decimal
  pub planned_yield_manual_reference : Option Decimal
  pub offer_submission_period : Option Text

-- The lists that the loop of `preview` fills.
pub record RowsRead : Type 0 where
  pub rows_read : ℕ
  pub rows : List ImportRow
  pub errors : List ImportRowError

-- `amount or Decimal(0)`
unfoldable pub or_zero : Option Decimal → Decimal
or_zero none = zero_decimal
or_zero (some d) = if is_zero d then zero_decimal else d

-- The domain's error as the row's.
unfoldable pub checked_isin : Text → Checked Text
checked_isin source = elim (normalize_isin source) [
  | ok normalized ↦ ok normalized
  | err e ↦ err (complaint (codes "isin") (isin_refused e) (some source))
]

abbrev pub row_error : ℕ → RowValidationError → ImportRowError
row_error row e = record {
  row_number = row;
  field = e.field;
  message = e.message;
  source_value = e.source_value;
}

unfoldable pub add_row : ℕ → Checked ImportRow → RowsRead → RowsRead
add_row row (ok r) rest = record rest { rows_read = suc rest.rows_read; rows = r ∷ rest.rows }
add_row row (err e) rest = record rest {
  rows_read = suc rest.rows_read;
  errors = row_error row e ∷ rest.errors;
}

module _ (lib : PythonLibrary) (sheet : SpreadsheetSheet) where
  -- `_parse_row`, its fields in the order in which they are read
  unfoldable pub parse_row : ℕ → ℕ → Checked ImportRow
  parse_row row isin_column =
      let at = cell sheet row in
      manual_text lib (at isin_column) (codes "isin") >>= λ (source : Text).
      checked_isin source >>= λ (normalized : Text).
      manual_text lib (at 4) (codes "target_event_type") >>= λ (event : Text).
      event_type lib event >>= λ (target : Text).
      manual_date lib (at 5) (codes "purchase_date") >>= λ (bought : Date).
      manual_date lib (at 7) (codes "target_event_date") >>= λ (left : Date).
      manual_decimal lib (at 8) (codes "quantity") true false >>= λ (quantity : Decimal).
      manual_decimal lib (at 9) (codes "purchase_clean_price_rub_per_bond") false true
      >>= λ (clean : Decimal).
          manual_decimal lib (at 10) (codes "purchase_accrued_interest_rub_per_bond") false true
          >>= λ (accrued : Decimal).
              manual_decimal lib (at 12) (codes "purchase_commission_rub_per_bond") false true
              >>= λ (commission : Decimal).
                  optional_decimal lib (at 14) >>= λ (redemption : Option Decimal).
                  optional_decimal lib (at 18) >>= λ (sale : Option Decimal).
                  optional_decimal lib (at 22) >>= λ (planned : Option Decimal). ok (record {
                    row_number = row;
                    source_isin = source;
                    normalized_isin = normalized;
                    source_name = text_of lib (at 3).value;
                    target_event_type = target;
                    purchase_date = bought;
                    target_event_date = left;
                    quantity = quantity;
                    purchase_clean_price_rub_per_bond = clean;
                    purchase_accrued_interest_rub_per_bond = accrued;
                    purchase_commission_rub_per_bond = commission;
                    target_redemption_price_rub_per_bond = redemption;
                    sale_commission_rub_per_bond = or_zero sale;
                    planned_yield_manual_reference = planned;
                    offer_submission_period = text_of lib (at 6).value;
                  })

  -- The loop of `preview` over the rows from `row` on, up to the first empty one.
  unfoldable pub read_from : ℕ → ℕ → List (List SpreadsheetCell) → RowsRead
  unfolding add_row
  read_from isin_column row [] = record { rows_read = 0; rows = []; errors = [] }
  read_from isin_column row (cells ∷ rest) = elim (is_empty_row lib cells) [
    | true ↦ record { rows_read = 0; rows = []; errors = [] }
    | false ↦ add_row row (parse_row row isin_column) (read_from isin_column (suc row) rest)
  ]
