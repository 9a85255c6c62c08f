-- ===== src/Sync.antt =====
-- What a synchronisation reads from and writes to a sheet: infrastructure/google_sheets/models.py,
-- `parse_decimal` and `parse_date` of application/services/sheet_calculations.py, and the helpers at
-- the end of application/services/sheets.py. The children compute one row (Rows), run over all rows
-- (Execute) and state which cells are written (Written). Parameters are the zone (`astimezone` with
-- `date` and with `isoformat`), SHA-256 of the updates' JSON, and the texts of exceptions.
pub mod Rows
pub mod Execute
pub mod Written
pub mod Protected
pub mod Guarded
pub mod Harmless
mod Samples
use bond_trading.Prelude.{
  ℕ, ◌+◌, ◌-◌, Bool, true, false, not, ◌&&◌, ◌||◌, List, [], ◌∷◌, ◌++◌, Option, none, some, ltb,
  leb, if◌then◌else◌,
}
use bond_trading.Prelude.Int.{ℤ, pos, pos_part, neg_part, ◌+ℤ◌}
use bond_trading.Prelude.Texts.{Text, codes, text_eq, nonempty, strip}
use bond_trading.Prelude.Results.{Result, ok, err, ◌>>=◌}
use bond_trading.Errors.{DomainError}
use bond_trading.Decimal.{Decimal, quantize_cents}
use bond_trading.Calculations.Models.{Date}
use bond_trading.Database.{Time, SheetConnectionModel, SheetPriceMode, MarketSnapshotModel}
use bond_trading.Quotes.{
  SheetRefusal, missing, accrued_not_found, quantity_not_positive, negative_amount, is_offer_mode,
  money,
}
use bond_trading.Moex.Fields.{truncated}
use bond_trading.Values.{
  Value, absent, truth, text, number, day, moment, other, PythonLibrary, without, replaced,
  is_blank, shown,
}

-- `Decimal | str | None`
pub data CellContent : Type 0 where
  blank : CellContent
  amount : Decimal → CellContent
  words : Text → CellContent

pub record SheetDataRow : Type 0 where
  pub row_number : ℕ
  pub values : Text → Value

pub record CellUpdate : Type 0 where
  pub row_number : ℕ
  pub column : Text
  pub value : CellContent

pub record SheetConnectionCheck : Type 0 where
  pub spreadsheet_title : Text
  pub worksheet_names : List Text

pub record SyncLibrary : Type 0 where
  pub local_date : Time → Date
  pub timestamp_text : Time → Text
  pub payload_hash : List CellUpdate → Text
  pub domain_text : DomainError → Text
  -- `str` of an `IntegrityError`
  pub integrity_text : Text
  -- what `quantize` raises for a number of too many digits
  pub invalid_operation : Text

-- A dictionary of cells, in the order of insertion.
abbrev pub Cells : Type 0
Cells = List (Text × CellContent)

-- `values[column] = content`
unfoldable pub assign_cell : Text → CellContent → Cells → Cells
assign_cell column content [] = (column, content) ∷ []
assign_cell column content ((c, old) ∷ cells) = elim (text_eq c column) [
  | true ↦ (c, content) ∷ cells
  | false ↦ (c, old) ∷ assign_cell column content cells
]

-- `values.update(other)`
unfoldable pub assign_cells : Cells → Cells → Cells
unfolding assign_cell
assign_cells [] cells = cells
assign_cells ((column, content) ∷ others) cells =
    assign_cells others (assign_cell column content cells)

-- `if column: values[column] = content`
unfoldable pub assign_optional : Option Text → CellContent → Cells → Cells
unfolding assign_cell
assign_optional none content cells = cells
assign_optional (some column) content cells =
    if nonempty column then assign_cell column content cells else cells

-- `_cell_updates`
unfoldable pub cell_updates : ℕ → Cells → List CellUpdate
cell_updates row_number [] = []
cell_updates row_number ((column, content) ∷ cells) =
    record { row_number = row_number; column = column; value = content }
    ∷ cell_updates row_number cells

-- `_blank_calculation_values`
abbrev pub blank_calculation_values : Cells
blank_calculation_values =
    (codes "AE", blank)
    ∷ (codes "AF", blank)
    ∷ (codes "AG", blank)
    ∷ (codes "AH", blank)
    ∷ (codes "AI", blank)
    ∷ (codes "AJ", blank)
    ∷ (codes "AK", blank)
    ∷ []

-- `_failed_row_updates`
unfoldable pub failed_row_updates : ℕ → SheetConnectionModel → List CellUpdate
unfolding assign_cells assign_optional cell_updates
failed_row_updates row_number c =
    let failed = assign_cell (codes "AL") (words (codes "ОШИБКА ОБНОВЛЕНИЯ MOEX")) (
      assign_cells blank_calculation_values
        (assign_cell (codes "AD") blank ((c.price_column, blank) ∷ []))) in
    cell_updates row_number (
      assign_optional c.status_column (words (codes "ERROR"))
        (assign_optional c.updated_at_column (words []) failed))

-- `_missing_quote_calculation_status`
unfoldable pub missing_quote_calculation_status : SheetPriceMode → Text
missing_quote_calculation_status mode =
    if is_offer_mode mode
    then codes "НЕТ ЛУЧШЕГО ПРЕДЛОЖЕНИЯ"
    else codes "НЕТ ЛУЧШЕЙ ЗАЯВКИ НА ПОКУПКУ"

-- `market.market_timestamp or market.received_at`
unfoldable pub market_time : MarketSnapshotModel → Time
market_time m = elim m.market_timestamp [ none ↦ m.received_at | some t ↦ t ]

-- `", ".join(columns)`
unfoldable pub joined : List Text → Text
joined [] = []
joined (column ∷ []) = column
joined (column ∷ next ∷ rest) = column ++ codes ", " ++ joined (next ∷ rest)

-- The texts that `parse_sheet_purchase` returns.
unfoldable pub refusal_text : SheetRefusal → Text
unfolding joined
refusal_text (missing columns) = codes "НЕТ ДАННЫХ: " ++ joined columns
refusal_text accrued_not_found = codes "НКД НА ДАТУ ПОКУПКИ НЕ НАЙДЕН"
refusal_text quantity_not_positive = codes "КОЛИЧЕСТВО ДОЛЖНО БЫТЬ БОЛЬШЕ НУЛЯ"
refusal_text negative_amount = codes "ЦЕНА, НКД И КОМИССИЯ НЕ МОГУТ БЫТЬ ОТРИЦАТЕЛЬНЫМИ"

-- `_SHEETS_EPOCH`, and the last day that a date can be.
abbrev pub sheets_epoch : Date
sheets_epoch = 693594

abbrev pub last_day : Date
last_day = 3652059

-- `_SHEETS_EPOCH + timedelta(days=n)`; none where it raises OverflowError
unfoldable pub day_after_epoch : ℤ → Option Date
day_after_epoch n =
    let d = pos sheets_epoch +ℤ n in
    if leb 1 (pos_part d) && leb (pos_part d) last_day then some (pos_part d) else none

module _ (lib : PythonLibrary) where
  -- `str(value).strip().replace("\u00a0", "").replace(" ", "").replace(",", ".")`
  unfoldable pub decimal_candidate : Value → Text
  decimal_candidate v = replaced b',' b'.' (without b' ' (without 0xa0 (strip (shown lib v))))

  abbrev pub is_truth : Value → Bool
  is_truth (truth b) = true
  is_truth _ = false

  -- `parse_decimal`; no cell of a sheet is a `Decimal` already
  unfoldable pub parse_decimal : Value → Option Decimal
  unfolding decimal_candidate
  parse_decimal v =
      if is_blank v || is_truth v || not (nonempty (decimal_candidate v))
      then none
      else lib.decimal_of (decimal_candidate v)

  abbrev pub date_patterns : List Text
  date_patterns =
      codes "%Y-%m-%d"
      ∷ codes "%d/%m/%Y"
      ∷ codes "%d/%m/%y"
      ∷ codes "%d.%m.%Y"
      ∷ codes "%d.%m.%y"
      ∷ []

  -- The loop over the patterns.
  unfoldable pub day_by_patterns : Text → List Text → Option Date
  day_by_patterns candidate [] = none
  day_by_patterns candidate (pattern_text ∷ patterns) =
      let later = day_by_patterns candidate patterns in
      elim (lib.day_by_pattern pattern_text candidate) [ some d ↦ some d | none ↦ later ]

  -- `parse_date`
  unfoldable pub parse_date : Value → Option Date
  unfolding day_after_epoch day_by_patterns
  parse_date absent = none
  parse_date (truth b) = none
  parse_date (moment d t) = some d
  parse_date (day d) = some d
  parse_date (number d s) = elim (lib.decimal_of s) [
    | none ↦ none
    | some n ↦ day_after_epoch (truncated n)
  ]
  parse_date (text s) = if nonempty s then day_by_patterns (strip s) date_patterns else none
  parse_date (other b s) = day_by_patterns (strip s) date_patterns

abbrev pub amount_or_blank : Option Decimal → CellContent
amount_or_blank none = blank
amount_or_blank (some d) = amount d

module _ (sync : SyncLibrary) where
  -- A cell of `_money` or `_percent`
  unfoldable pub money_cell : Option Decimal → Result Text CellContent
  unfolding money
  money_cell d = elim (money d) [
    | some cents ↦ ok (amount_or_blank cents)
    | none ↦ err sync.invalid_operation
  ]
