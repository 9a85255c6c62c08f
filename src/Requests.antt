-- ===== src/Requests.antt =====
-- The requests for lots in api/schemas.py, with the constraints that pydantic checks before a
-- handler sees them.
use bond_trading.Prelude.{ℕ, Bool, true, false, not, ◌&&◌, ◌||◌, Option, none, some, length, leb}
use bond_trading.Prelude.Texts.{Text, codes, text_eq, strip, nonempty}
use bond_trading.Decimal.{Decimal, lt_zero, le_zero}
use bond_trading.Calculations.Models.{Date}

-- The body of a request for a new lot.
pub record LotCreate : Type 0 where
  pub isin : Text
  pub source_name : Option Text
  pub purchase_date : Date
  pub quantity : Decimal
  pub purchase_clean_price_rub_per_bond : Decimal
  pub purchase_accrued_interest_rub_per_bond : Decimal
  pub purchase_commission_rub_per_bond : Decimal
  pub target_event_type : Text
  pub target_event_date : Date
  pub target_redemption_price_rub_per_bond : Option Decimal
  pub target_redemption_override_reason : Option Text
  pub sale_commission_rub_per_bond : Decimal
  pub planned_yield_manual_reference : Option Decimal
  pub source_row_number : Option ℕ
  pub source_sheet_name : Text
  pub notes : Option Text

-- A field that is absent, null or has a value.
abbrev pub Given : Type 0 → Type 0
Given A = Option (Option A)

-- The body of a change, as `model_dump(exclude_unset=True)` gives it.
pub record LotPatch : Type 0 where
  pub purchase_date : Given Date
  pub quantity : Given Decimal
  pub purchase_clean_price_rub_per_bond : Given Decimal
  pub purchase_accrued_interest_rub_per_bond : Given Decimal
  pub purchase_commission_rub_per_bond : Given Decimal
  pub target_event_type : Given Text
  pub target_event_date : Given Date
  pub target_redemption_price_rub_per_bond : Given Decimal
  pub target_redemption_override_reason : Given Text
  pub sale_commission_rub_per_bond : Given Decimal
  pub planned_yield_manual_reference : Given Decimal
  pub notes : Given Text

-- The field constraints of `LotCreate`, and `require_override_reason`.
unfoldable pub is_allowed_event : Text → Bool
is_allowed_event t = text_eq t (codes "maturity") || text_eq t (codes "offer")

unfoldable pub override_has_reason : Option Decimal → Option Text → Bool
override_has_reason none reason = true
override_has_reason (some price) none = false
override_has_reason (some price) (some reason) = nonempty (strip reason)

abbrev pub when_present : {A : Type 0} → (A → Bool) → Option A → Bool
when_present p none = true
when_present p (some a) = p a

unfoldable pub create_accepted : LotCreate → Bool
create_accepted v =
    not (le_zero v.quantity)
    && not (lt_zero v.purchase_clean_price_rub_per_bond)
    && not (lt_zero v.purchase_accrued_interest_rub_per_bond)
    && not (lt_zero v.purchase_commission_rub_per_bond)
    && is_allowed_event v.target_event_type
    && when_present (λ d. not (lt_zero d)) v.target_redemption_price_rub_per_bond
    && when_present (λ t. leb (length t) 1000) v.target_redemption_override_reason
    && not (lt_zero v.sale_commission_rub_per_bond)
    && override_has_reason v.target_redemption_price_rub_per_bond
        v.target_redemption_override_reason

-- The value of a field for the model's validator: none where it is absent.
abbrev pub value_of : {A : Type 0} → Given A → Option A
value_of none = none
value_of (some value) = value

-- The same of `LotPatch`.
unfoldable pub patch_accepted : LotPatch → Bool
patch_accepted v =
    when_present (λ d. not (le_zero d)) (value_of v.quantity)
    && when_present (λ d. not (lt_zero d)) (value_of v.purchase_clean_price_rub_per_bond)
    && when_present (λ d. not (lt_zero d)) (value_of v.purchase_accrued_interest_rub_per_bond)
    && when_present (λ d. not (lt_zero d)) (value_of v.purchase_commission_rub_per_bond)
    && when_present is_allowed_event (value_of v.target_event_type)
    && when_present (λ d. not (lt_zero d)) (value_of v.target_redemption_price_rub_per_bond)
    && when_present (λ t. leb (length t) 1000) (value_of v.target_redemption_override_reason)
    && when_present (λ d. not (lt_zero d)) (value_of v.sale_commission_rub_per_bond)
    && override_has_reason (value_of v.target_redemption_price_rub_per_bond)
        (value_of v.target_redemption_override_reason)
