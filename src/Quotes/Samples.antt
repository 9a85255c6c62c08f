-- ===== src/Quotes/Samples.antt =====
-- A row of ten bonds, and an instrument with an action that was sent twice.
use bond_trading.Prelude.{ℕ, ◌≤◌, ◌≡◌, refl, [], ◌∷◌, none, some, arith}
use bond_trading.Prelude.Int.{pos}
use bond_trading.Prelude.Texts.{codes}
use bond_trading.Prelude.Results.{ok, err}
use bond_trading.Decimal.{Decimal, of_int, runs}
use bond_trading.Calculations.Models.{coupon, CorporateCashFlow}
use bond_trading.Calculations.Engine.{engine_runs, purchase_totals}
use bond_trading.Decimal.Signs.{IsPositive}
use bond_trading.Database.{CorporateActionModel}
use bond_trading.Quotes.{
  SheetCells, SheetPurchaseInput, SheetCurrentCalculation, missing, missing_columns, missing_column,
  check_purchase, parse_sheet_purchase, sheet_yield_input, calculate_sheet_current,
  instrument_cashflows, collect_cashflows,
}
use bond_trading.Quotes.Parsed.{
  IsParsed, parse_sheet_purchase-IsParsed, calculate_sheet_current_total,
}
use bond_trading.Quotes.Flows.{events, instrument_cashflows-once}

abbrev amount_of : ℕ → Decimal
amount_of n = of_int (pos n)

abbrev cells : SheetCells
cells = record {
  purchase_date = some 1000;
  quantity = some (amount_of 10);
  purchase_price = some (amount_of 950);
  planned_annual_yield = some (amount_of 12);
}

abbrev parsed : SheetPurchaseInput
parsed = record {
  purchase_date = 1000;
  quantity = amount_of 10;
  purchase_price_rub_per_bond = amount_of 950;
  purchase_accrued_rub_per_bond = amount_of 5;
  purchase_commission_total_rub = amount_of 4;
  planned_annual_yield_percent = some (amount_of 12);
}

abbrev paid : CorporateCashFlow
paid = record { action_type = coupon; event_date = 1100; amount_rub_per_bond = amount_of 40 }

-- The columns that are missing are named in order.
no_date_no_price :
    parse_sheet_purchase
      (record cells { purchase_date = none; purchase_price = none })
      (some (amount_of 5))
      (amount_of 4)
    ≡ err (missing (codes "E" ∷ codes "I" ∷ []))
unfolding parse_sheet_purchase missing_columns missing_column
no_date_no_price = refl

cells_parse : parse_sheet_purchase cells (some (amount_of 5)) (amount_of 4) ≡ ok parsed
unfolding parse_sheet_purchase check_purchase
cells_parse = refl

parse_sheet_purchase-IsParsed_example : IsParsed cells (some (amount_of 5)) (amount_of 4) parsed
parse_sheet_purchase-IsParsed_example =
    parse_sheet_purchase-IsParsed cells (some (amount_of 5)) (amount_of 4) parsed cells_parse

row_costs :
    IsPositive
      (purchase_totals
        (sheet_yield_input parsed 1200
          (amount_of 900)
          (amount_of 3)
          (paid ∷ [])).purchase).purchase_total
unfolding sheet_yield_input runs engine_runs
row_costs = omega arith

calculate_sheet_current_total_example :
    (r : SheetCurrentCalculation) × (calculate_sheet_current parsed 1200
        (amount_of 900)
        (amount_of 3)
        (paid ∷ [])
      ≡ ok r)
calculate_sheet_current_total_example =
    calculate_sheet_current_total cells (some (amount_of 5)) (amount_of 4) parsed 1200
      (amount_of 900) (amount_of 3) (paid ∷ []) cells_parse refl refl refl (omega arith) row_costs

abbrev sent : ℕ → CorporateActionModel
sent time = record {
  id = time;
  created_at = time;
  instrument_id = 50;
  action_type = coupon;
  event_date = 1100;
  record_date = none;
  amount_rub_per_bond = some (amount_of time);
  percent = none;
  source = codes "MOEX ISS";
  source_payload_hash = [];
  source_updated_at = time;
}

-- The newer amount counts.
newest_amount :
    instrument_cashflows 50 (sent 40 ∷ sent 41 ∷ [])
    ≡ record { action_type = coupon; event_date = 1100; amount_rub_per_bond = amount_of 41 } ∷ []
unfolding instrument_cashflows collect_cashflows
newest_amount = refl

instrument_cashflows-once_example :
    events coupon 1100 (instrument_cashflows 50 (sent 40 ∷ sent 41 ∷ [])) ≤ 1
instrument_cashflows-once_example =
    instrument_cashflows-once 50 (sent 40 ∷ sent 41 ∷ []) coupon 1100
