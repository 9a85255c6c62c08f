-- ===== src/Calculations/Models.antt =====
-- domain/calculations/models.py. A date is its proleptic Gregorian ordinal, `date.toordinal()`.
use bond_trading.Prelude.{ℕ, Bool, true, false, List, Option}
use bond_trading.Decimal.{Decimal}

abbrev pub Date : Type 0
Date = ℕ

pub data ActionType : Type 0 where
  coupon amortization offer maturity : ActionType

pub data TaxMode : Type 0 where
  no_tax flat_rate legacy_divide_1_13 : TaxMode

pub data QuoteBasis : Type 0 where
  percent_of_face rubles : QuoteBasis

pub data LiquidityStatus : Type 0 where
  sufficient partial no_bids unknown : LiquidityStatus

pub record TaxPolicy : Type 0 where
  pub mode : TaxMode
  pub rate : Decimal

pub record CorporateCashFlow : Type 0 where
  pub action_type : ActionType
  pub event_date : Date
  pub amount_rub_per_bond : Decimal

pub record PurchaseInput : Type 0 where
  pub purchase_date : Date
  pub quantity : Decimal
  pub clean_price_rub_per_bond : Decimal
  pub accrued_interest_rub_per_bond : Decimal
  pub commission_rub_per_bond : Decimal

pub record PlannedYieldInput : Type 0 where
  pub purchase : PurchaseInput
  pub target_date : Date
  pub final_redemption_rub_per_bond : Decimal
  pub cashflows : List CorporateCashFlow
  pub sale_commission_rub_per_bond : Decimal
  pub tax_policy : TaxPolicy

pub record CurrentYieldInput : Type 0 where
  pub purchase : PurchaseInput
  pub valuation_date : Date
  pub bid_rub_per_bond : Decimal
  pub current_accrued_interest_rub_per_bond : Decimal
  pub cashflows : List CorporateCashFlow
  pub sale_commission_rub_per_bond : Decimal
  pub tax_policy : TaxPolicy

pub record PurchaseResult : Type 0 where
  pub clean_price_total : Decimal
  pub accrued_interest_total : Decimal
  pub commission_total : Decimal
  pub purchase_total : Decimal

pub record YieldResult : Type 0 where
  pub purchase : PurchaseResult
  pub coupons_total : Decimal
  pub amortizations_total : Decimal
  pub redemption_or_market_total : Decimal
  pub accrued_interest_total : Decimal
  pub sale_commission_total : Decimal
  pub exit_total : Decimal
  pub profit_before_tax : Decimal
  pub profit_after_tax : Decimal
  pub annual_yield_before_tax : Decimal
  pub annual_yield_after_tax : Decimal
  pub holding_days : ℕ

pub record LiquidityResult : Type 0 where
  pub status : LiquidityStatus
  pub available_bonds_at_best_bid : Option Decimal

-- `==` on the enumeration
abbrev pub same_action : ActionType → ActionType → Bool
same_action coupon coupon = true
same_action amortization amortization = true
same_action offer offer = true
same_action maturity maturity = true
same_action _ _ = false
