-- ===== src/Database.antt =====
-- The rows of infrastructure/db/models.py. A UUID is a number, a point in time the seconds since
-- the epoch in UTC, a date its ordinal, a JSON column the text it is stored as, unless the program
-- reads its parts. The lengths of texts and the 24 digits of a number in all are not limited here. `updated_at`, which nothing reads, and the ORM's relationships are left out.
pub mod Concrete
use bond_trading.Prelude.{ℕ, Bool, List, Option, none, some}
use bond_trading.Prelude.Int.{ℤ}
use bond_trading.Prelude.Texts.{Text}
use bond_trading.Decimal.{Decimal}
use bond_trading.Calculations.Models.{Date, ActionType, TaxMode}

abbrev pub Uuid : Type 0
Uuid = ℕ

abbrev pub Time : Type 0
Time = ℕ

pub data UserRole : Type 0 where
  user admin : UserRole

pub data SheetPriceMode : Type 0 where
  best_bid_percent best_bid_clean_rub best_bid_full_rub : SheetPriceMode
  best_offer_percent best_offer_clean_rub best_offer_full_rub : SheetPriceMode

pub data SheetSyncJobStatus : Type 0 where
  queued running succeeded failed : SheetSyncJobStatus

pub data SheetSyncTrigger : Type 0 where
  scheduled manual import_committed lot_created lot_updated lot_deleted : SheetSyncTrigger
  settings_changed moex_refreshed : SheetSyncTrigger

-- The members of a JSON entry in `row_errors`; an absent one is none.
pub record RowError : Type 0 where
  pub row_number : Option ℕ
  pub isin : Option Text
  pub message : Text

pub record UserModel : Type 0 where
  pub id : Uuid
  pub created_at : Time
  pub username : Text
  pub email : Text
  pub password_hash : Text
  pub role : UserRole
  pub is_active : Bool
  pub must_change_password : Bool
  pub last_login_at : Option Time

pub record AuthSessionModel : Type 0 where
  pub id : Uuid
  pub user_id : Uuid
  pub token_hash : Text
  pub csrf_token_hash : Text
  pub created_at : Time
  pub expires_at : Time
  pub last_seen_at : Time
  pub revoked_at : Option Time
  pub user_agent : Option Text

pub record BondInstrumentModel : Type 0 where
  pub id : Uuid
  pub created_at : Time
  pub isin : Text
  pub secid : Text
  pub short_name : Text
  pub full_name : Option Text
  pub primary_board_id : Option Text
  pub currency : Text
  pub initial_face_value : Option Decimal
  pub current_face_value : Option Decimal
  pub maturity_date : Option Date
  pub offer_date : Option Date
  pub coupon_period_days : Option ℤ
  pub is_amortizing : Bool
  pub is_floating_coupon : Bool
  pub is_active : Bool
  pub source_updated_at : Option Time

pub record ImportBatchModel : Type 0 where
  pub id : Uuid
  pub created_at : Time
  pub owner_id : Uuid
  pub uploaded_file_id : Option Uuid
  pub file_name : Text
  pub sheet_name : Text
  pub imported_at : Time
  pub rows_read : ℕ
  pub lots_created : ℕ
  pub instruments_updated : ℕ
  pub row_errors : Text
  pub checksum : Text

pub record UploadedFileModel : Type 0 where
  pub id : Uuid
  pub created_at : Time
  pub owner_id : Uuid
  pub original_file_name : Text
  pub object_key : Text
  pub content_type : Text
  pub file_format : Text
  pub size_bytes : ℕ
  pub checksum : Text
  pub status : Text
  pub parse_error : Option Text

pub record BondLotModel : Type 0 where
  pub id : Uuid
  pub created_at : Time
  pub owner_id : Uuid
  pub instrument_id : Uuid
  pub purchase_date : Date
  pub quantity : Decimal
  pub purchase_clean_price_rub_per_bond : Decimal
  pub purchase_accrued_interest_rub_per_bond : Decimal
  pub purchase_commission_rub_per_bond : Decimal
  pub target_event_type : Text
  pub target_event_date : Date
  pub target_redemption_price_rub_per_bond : Option Decimal
  pub target_redemption_override_reason : Option Text
  pub target_redemption_override_updated_at : Option Time
  pub sale_commission_rub_per_bond : Decimal
  pub planned_yield_manual_reference : Option Decimal
  pub source_row_number : Option ℕ
  pub source_sheet_name : Text
  pub notes : Option Text
  pub import_batch_id : Option Uuid

-- How the database keeps a number in a column with so many decimal places: rounded, by rules of its
-- own, which are a parameter.
abbrev pub Numerics : Type 0
Numerics = ℕ → Decimal → Decimal

-- `MONEY` and `Numeric(24, 8)`, and `PERCENT`
abbrev pub money_column : Numerics → Decimal → Decimal
money_column numerics d = numerics 8 d

abbrev pub percent_column : Numerics → Decimal → Decimal
percent_column numerics d = numerics 10 d

-- A column that may be null.
abbrev pub nullable : (Decimal → Decimal) → Option Decimal → Option Decimal
nullable column none = none
nullable column (some d) = some (column d)

-- The row of a lot.
unfoldable pub stored_lot : Numerics → BondLotModel → BondLotModel
stored_lot numerics l = record l {
  quantity = money_column numerics l.quantity;
  purchase_clean_price_rub_per_bond = money_column numerics l.purchase_clean_price_rub_per_bond;
  purchase_accrued_interest_rub_per_bond =
      money_column numerics l.purchase_accrued_interest_rub_per_bond;
  purchase_commission_rub_per_bond = money_column numerics l.purchase_commission_rub_per_bond;
  target_redemption_price_rub_per_bond =
      nullable (money_column numerics) l.target_redemption_price_rub_per_bond;
  sale_commission_rub_per_bond = money_column numerics l.sale_commission_rub_per_bond;
  planned_yield_manual_reference =
      nullable (percent_column numerics) l.planned_yield_manual_reference;
}

pub record CorporateActionModel : Type 0 where
  pub id : Uuid
  pub created_at : Time
  pub instrument_id : Uuid
  pub action_type : ActionType
  pub event_date : Date
  pub record_date : Option Date
  pub amount_rub_per_bond : Option Decimal
  pub percent : Option Decimal
  pub source : Text
  pub source_payload_hash : Text
  pub source_updated_at : Time

pub record MarketSnapshotModel : Type 0 where
  pub id : Uuid
  pub instrument_id : Uuid
  pub board_id : Option Text
  pub received_at : Time
  pub market_timestamp : Option Time
  pub bid_percent : Option Decimal
  pub bid_rub_per_bond : Option Decimal
  pub bid_depth_lots : Option Decimal
  pub offer_percent : Option Decimal
  pub offer_rub_per_bond : Option Decimal
  pub offer_depth_lots : Option Decimal
  pub lot_size : Decimal
  pub current_face_value : Option Decimal
  pub accrued_interest_rub_per_bond : Option Decimal
  pub last_price_percent : Option Decimal
  pub status : Text
  pub delayed_status : Text
  pub error_message : Option Text
  pub raw_payload : Text

pub record YieldSnapshotModel : Type 0 where
  pub id : Uuid
  pub lot_id : Uuid
  pub valuation_date : Date
  pub market_snapshot_id : Option Uuid
  pub purchase_total : Decimal
  pub planned_exit_total : Decimal
  pub planned_profit_before_tax : Decimal
  pub planned_profit_after_tax : Decimal
  pub planned_annual_yield_before_tax : Decimal
  pub planned_annual_yield_after_tax : Decimal
  pub current_exit_total : Option Decimal
  pub current_profit_before_tax : Option Decimal
  pub current_profit_after_tax : Option Decimal
  pub current_annual_yield_before_tax : Option Decimal
  pub current_annual_yield_after_tax : Option Decimal
  pub yield_delta_pp : Option Decimal
  pub calculation_version : Text
  pub calculation_details : Text
  pub created_at : Time

-- The row of a yield snapshot.
unfoldable pub stored_snapshot : Numerics → YieldSnapshotModel → YieldSnapshotModel
stored_snapshot numerics s = record s {
  purchase_total = money_column numerics s.purchase_total;
  planned_exit_total = money_column numerics s.planned_exit_total;
  planned_profit_before_tax = money_column numerics s.planned_profit_before_tax;
  planned_profit_after_tax = money_column numerics s.planned_profit_after_tax;
  planned_annual_yield_before_tax = percent_column numerics s.planned_annual_yield_before_tax;
  planned_annual_yield_after_tax = percent_column numerics s.planned_annual_yield_after_tax;
  current_exit_total = nullable (money_column numerics) s.current_exit_total;
  current_profit_before_tax = nullable (money_column numerics) s.current_profit_before_tax;
  current_profit_after_tax = nullable (money_column numerics) s.current_profit_after_tax;
  current_annual_yield_before_tax =
      nullable (percent_column numerics) s.current_annual_yield_before_tax;
  current_annual_yield_after_tax =
      nullable (percent_column numerics) s.current_annual_yield_after_tax;
  yield_delta_pp = nullable (percent_column numerics) s.yield_delta_pp;
}

pub record AppSettingModel : Type 0 where
  pub id : Uuid
  pub created_at : Time
  pub owner_id : Uuid
  pub singleton_key : Text
  pub market_data_ttl_seconds : ℕ
  pub tax_mode : TaxMode
  pub tax_rate : Decimal
  pub legacy_tax_compatibility : Bool
  pub default_sale_commission_rub_per_bond : Decimal
  pub timezone : Text
  pub formula_version : Text

pub record SheetConnectionModel : Type 0 where
  pub id : Uuid
  pub created_at : Time
  pub owner_id : Uuid
  pub provider : Text
  pub spreadsheet_id : Text
  pub worksheet_name : Text
  pub header_row : ℕ
  pub isin_column : Text
  pub price_column : Text
  pub updated_at_column : Option Text
  pub status_column : Option Text
  pub price_mode : SheetPriceMode
  pub enabled : Bool
  pub sync_interval_seconds : ℕ
  pub last_attempt_at : Option Time
  pub last_success_at : Option Time
  pub last_error : Option Text
  pub last_payload_hash : Option Text

pub record SheetSyncJobModel : Type 0 where
  pub id : Uuid
  pub created_at : Time
  pub connection_id : Uuid
  pub trigger : SheetSyncTrigger
  pub status : SheetSyncJobStatus
  pub attempt_count : ℕ
  pub next_attempt_at : Option Time
  pub started_at : Option Time
  pub completed_at : Option Time
  pub rows_read : ℕ
  pub rows_updated : ℕ
  pub instruments_refreshed : ℕ
  pub row_errors : List RowError
  pub error_message : Option Text
