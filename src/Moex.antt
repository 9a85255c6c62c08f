-- ===== src/Moex.antt =====
-- infrastructure/moex/errors.py, schemas.py and tables.py: the answers of the exchange's service as
-- named tables. A cell of a table is a value; a row is the dictionary that `zip` makes of the
-- table's columns and the row's cells.
pub mod Fields
pub mod Mapper
pub mod Mapped
mod Samples
use bond_trading.Prelude.{
  ℕ, Bool, true, false, ◌&&◌, ◌||◌, List, [], ◌∷◌, ◌++◌, Option, none, some, head_of, if◌then◌else◌,
}
use bond_trading.Prelude.Texts.{Text, codes, text_eq}
use bond_trading.Prelude.Results.{Result, ok, err, ◌>>=◌}
use bond_trading.Prelude.Int.{ℤ}
use bond_trading.Errors.{DomainError}
use bond_trading.Decimal.{Decimal}
use bond_trading.Calculations.Models.{Date, ActionType}
use bond_trading.Database.{Time}
use bond_trading.Values.{Value, absent, text, truth, number, day, moment, other}

-- The exceptions of a refresh, by class.
pub data MoexError : Type 0 where
  moex_not_found moex_data moex_temporary : MoexError
  -- the HTTP library's: no answer, or a status that is an error
  transport_error : MoexError
  http_status_error : ℕ → MoexError
  moex_domain : DomainError → MoexError

abbrev pub Answer : Type 0 → Type 0
Answer A = Result MoexError A

pub record MoexInstrumentData : Type 0 where
  pub isin : Text
  pub secid : Text
  pub short_name : Text
  pub full_name : Option Text
  pub primary_board_id : Option Text
  pub currency : Text
  pub initial_face_value : Option Decimal
  pub current_face_value : Option Decimal
  pub maturity_date : Option Date
  pub offer_date : Option Date
  pub coupon_period_days : Option ℤ
  pub coupon_value : Option Decimal
  pub is_amortizing : Bool
  pub is_floating_coupon : Bool
  pub is_active : Bool
  pub source_updated_at : Time

pub record MoexCorporateActionData : Type 0 where
  pub action_type : ActionType
  pub event_date : Date
  pub record_date : Option Date
  pub amount_rub_per_bond : Option Decimal
  pub percent : Option Decimal
  pub source_payload_hash : Text

pub record MoexMarketData : Type 0 where
  pub board_id : Option Text
  pub received_at : Time
  pub market_timestamp : Option Time
  pub bid_percent : Option Decimal
  pub bid_rub_per_bond : Option Decimal
  pub bid_depth_lots : Option Decimal
  pub offer_percent : Option Decimal
  pub offer_rub_per_bond : Option Decimal
  pub offer_depth_lots : Option Decimal
  pub lot_size : Decimal
  pub current_face_value : Option Decimal
  pub accrued_interest_rub_per_bond : Option Decimal
  pub last_price_percent : Option Decimal
  pub status : Text
  pub delayed_status : Text
  pub raw_payload : Text

pub record MoexRefreshResult : Type 0 where
  pub instrument : MoexInstrumentData
  pub actions : List MoexCorporateActionData
  pub market : MoexMarketData

-- A row of `data`, an array or not.
pub data RawRow : Type 0 where
  cells : List Value → RawRow
  not_an_array : RawRow

-- What `payload.get(block)` is: null or absent, no object, or an object whose `columns` and `data`
-- are arrays or not (none).
pub data Block : Type 0 where
  no_block not_an_object : Block
  table : Option (List Value) → Option (List RawRow) → Block

abbrev pub Payload : Type 0
Payload = Text → Block

abbrev pub Row : Type 0
Row = List (Value × Value)

unfoldable pub zip_cells : List Value → List Value → Row
zip_cells [] values = []
zip_cells (c ∷ columns) [] = []
zip_cells (c ∷ columns) (v ∷ values) = (c, v) ∷ zip_cells columns values

abbrev pub is_named : Text → Value → Bool
is_named name (text s) = text_eq s name
is_named name _ = false

-- `row.get(name)`: of columns with one name the last counts
unfoldable pub field : Text → Row → Value
field name row = from absent row
  where
    from : Value → Row → Value
    from found [] = found
    from found ((c, v) ∷ rest) = if is_named name c then from v rest else from found rest

unfoldable pub rows_of : List Value → List RawRow → Answer (List Row)
unfolding zip_cells
rows_of columns [] = ok []
rows_of columns (not_an_array ∷ rest) = err moex_data
rows_of columns (cells values ∷ rest) =
    rows_of columns rest >>= λ (rows : List Row). ok (zip_cells columns values ∷ rows)

unfoldable pub table_of : Block → Answer (List Row)
unfolding rows_of
table_of no_block = ok []
table_of not_an_object = err moex_data
table_of (table (some columns) (some rows)) = rows_of columns rows
table_of (table (some columns) none) = err moex_data
table_of (table none rows) = err moex_data

-- `table_rows`
unfoldable pub table_rows : Payload → Text → Answer (List Row)
unfolding table_of
table_rows payload block = table_of (payload block)

-- `first_row`
unfoldable pub first_row : Payload → Text → Answer (Option Row)
unfolding table_rows
first_row payload block = table_rows payload block >>= λ (rows : List Row). ok (head_of rows)
