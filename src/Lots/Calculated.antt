-- ===== src/Lots/Calculated.antt =====
-- What a calculation of a lot's yields is made of.
use bond_trading.Prelude.{◌≡◌, Bool, false, List, Option, none, some, ◌&&◌, is_some}
use bond_trading.Prelude.Results.{ok}
use bond_trading.Decimal.{Decimal, sub}
use bond_trading.Calculations.Models.{PlannedYieldInput, CorporateCashFlow}
use bond_trading.Calculations.Yields.{IsConsistent, cost_of, planned_total}
use bond_trading.Database.{
  Uuid, Time, BondLotModel, AppSettingModel, MarketSnapshotModel, percent_column, nullable,
}
use bond_trading.Lots.{Portfolio}
use bond_trading.Prelude.Rows.{In}
use bond_trading.Lots.Valuation.{
  ValuationLibrary, CalculationBundle, purchase_of, cashflows_of, lot_actions, get_settings,
  target_redemption, latest_market, map_option,
}

-- The input of the planned yield that a lot, its settings and its redemption give.
abbrev pub plan_of :
    BondLotModel → List CorporateCashFlow → AppSettingModel → Decimal → PlannedYieldInput
plan_of lot flows settings redemption = record {
  purchase = purchase_of lot;
  target_date = lot.target_event_date;
  final_redemption_rub_per_bond = redemption;
  cashflows = flows;
  sale_commission_rub_per_bond = lot.sale_commission_rub_per_bond;
  tax_policy = record { mode = settings.tax_mode; rate = settings.tax_rate };
}

abbrev pub has_quote : Option MarketSnapshotModel → Bool
has_quote none = false
has_quote (some m) = is_some m.bid_rub_per_bond && is_some m.accrued_interest_rub_per_bond

module _ (lib : ValuationLibrary) (owner : Uuid) where
  -- How a calculation hangs together with the lot and the tables that it was made from.
  pub record IsCalculated (lot_id : Uuid) (now : Time) (db after : Portfolio)
      (b : CalculationBundle) : Type 0 where
    pub lot : BondLotModel
    pub found : In lot db.lots × (lot.id ≡ lot_id) × (lot.owner_id ≡ owner)
    pub redemption : Decimal
    pub redeemed : target_redemption lot (lot_actions lot db) db ≡ ok redemption
    pub consistent :
        IsConsistent lot.purchase_date lot.target_event_date
          (cost_of (purchase_of lot))
          (planned_total (
            plan_of lot
              (cashflows_of (lot_actions lot db))
              (get_settings owner now db).0
              redemption))
          (record {
            mode = (get_settings owner now db).0.tax_mode;
            rate = (get_settings owner now db).0.tax_rate;
          })
          b.planned
    pub quoted : is_some b.current ≡ has_quote (latest_market lot db)
    pub delta :
        b.snapshot.yield_delta_pp
        ≡ nullable (percent_column db.numerics) (
            map_option
              (λ c. sub c.annual_yield_after_tax b.planned.annual_yield_after_tax)
              b.current)
    pub planned_after_tax :
        b.snapshot.planned_annual_yield_after_tax
        ≡ percent_column db.numerics b.planned.annual_yield_after_tax
    pub current_after_tax :
        b.snapshot.current_annual_yield_after_tax
        ≡ nullable
            (percent_column db.numerics)
            (map_option (λ c. c.annual_yield_after_tax) b.current)
    pub saved : In b.snapshot after.snapshots
    pub of_lot : b.snapshot.lot_id ≡ lot_id
