-- ===== src/Sync/Rows.antt =====
-- One round of the loop over the rows in `SheetSyncService.execute`, application/services/sheets.py.
use bond_trading.Prelude.{
  ℕ, Bool, true, false, ◌&&◌, List, [], ◌∷◌, ◌++◌, Option, none, some, find, take, ◌==◌,
}
use bond_trading.Prelude.Int.{pos}
use bond_trading.Prelude.Texts.{Text, codes, text_eq}
use bond_trading.Prelude.Results.{Result, ok, err, ◌>>=◌}
use bond_trading.Decimal.{Decimal, of_int}
use bond_trading.Calculations.Models.{Date, CorporateCashFlow}
use bond_trading.Database.{
  Time, BondInstrumentModel, MarketSnapshotModel, SheetConnectionModel, RowError,
}
use bond_trading.Quotes.{
  SheetPurchaseInput, SheetCurrentCalculation, SheetCells, parse_sheet_purchase,
  summarize_paid_coupons, calculate_sheet_current, market_rub_price,
}
use bond_trading.Values.{PythonLibrary, is_blank}
use bond_trading.Instruments.{MoexRefreshClient}
use bond_trading.Sync.{
  CellContent, amount, words, amount_or_blank, SheetDataRow, CellUpdate, SyncLibrary, Cells,
  assign_cell, assign_cells, assign_optional, cell_updates, blank_calculation_values,
  failed_row_updates, missing_quote_calculation_status, market_time, refusal_text, parse_decimal,
  parse_date, money_cell,
}

-- `_RefreshedInstrument`
pub record RefreshedInstrument : Type 0 where
  pub instrument : BondInstrumentModel
  pub market : MarketSnapshotModel
  pub cashflows : List CorporateCashFlow
  pub price : Option Decimal
  pub market_time : Option Time
  pub status : Text

-- The protocol `SheetMoexClient`.
pub record SheetMoexClient : Type 0 where
  pub refresh_client : MoexRefreshClient
  pub accrued_interest_on : Text → Option Text → Date → Result Text (Option Decimal)

-- An entry of `historical_accrued`: ISIN, date, and what was found.
abbrev pub Accrued : Type 0
Accrued = (Text × Date) × Option Decimal

-- What the rounds share: the entries so far and the errors of rows.
pub record Notes : Type 0 where
  pub historical_accrued : List Accrued
  pub row_errors : List RowError

abbrev pub default_purchase_commission : Decimal
default_purchase_commission = record { coef = pos 4; scale = 1 }

abbrev pub row_message : ℕ → Text → Text → RowError
row_message row_number isin message = record {
  row_number = some row_number;
  isin = some isin;
  message = message;
}

abbrev pub is_entry : Text → Date → Accrued → Bool
is_entry isin day entry = text_eq entry.0.0 isin && entry.0.1 == day

abbrev pub status_cells : Text → Cells → Cells
status_cells status cells = assign_cell (codes "AL") (words status) cells

module _ (lib : PythonLibrary) (sync : SyncLibrary) (moex : SheetMoexClient) where
  -- The entry for an ISIN and a date, asked for once.
  unfoldable pub look_up_accrued :
      ℕ → Text → RefreshedInstrument → Date → Notes → Option Decimal × Notes
  look_up_accrued row_number isin v day notes =
      elim (find (is_entry isin day) notes.historical_accrued) [
        | some entry ↦ (entry.1, notes)
        | none ↦
            elim (moex.accrued_interest_on v.instrument.secid v.instrument.primary_board_id day) [
              | ok found ↦ (
                found,
                record notes {
                  historical_accrued = ((isin, day), found) ∷ notes.historical_accrued;
                },
              )
              | err error ↦ (
                none,
                record notes {
                  historical_accrued = ((isin, day), none) ∷ notes.historical_accrued;
                  row_errors =
                      notes.row_errors
                      ++ row_message row_number isin (codes "Исторический НКД: " ++ take 900 error)
                        ∷ [];
                },
              )
            ]
      ]

  -- Column J: what stands there, or what the exchange knows of the day of the purchase.
  unfoldable pub purchase_accrued :
      SheetDataRow
      → Text
      → RefreshedInstrument
      → Cells
      → Notes
      → Result Text ((Option Decimal × Cells) × Notes)
  unfolding look_up_accrued assign_cell
  purchase_accrued row isin v cells notes =
      let raw = row.values (codes "J") in
      elim (parse_date lib (row.values (codes "E"))) [
        | none ↦ ok ((parse_decimal lib raw, cells), notes)
        | some day ↦ elim (is_blank raw) [
          | false ↦ ok ((parse_decimal lib raw, cells), notes)
          | true ↦
              let found = look_up_accrued row.row_number isin v day notes in
              elim found.0 [
                | none ↦ ok ((none, cells), found.1)
                | some accrued ↦ money_cell sync (some accrued) >>= λ (cell : CellContent).
                    ok ((some accrued, assign_cell (codes "J") cell cells), found.1)
              ]
        ]
      ]

  -- Columns AE and AF, from what was paid.
  unfoldable pub coupon_cells : ℕ → Decimal → Cells → Result Text Cells
  unfolding assign_cell
  coupon_cells paid_count total cells = money_cell sync (some total) >>= λ (paid : CellContent).
      ok (
        assign_cell (codes "AF") paid
          (assign_cell (codes "AE") (amount (of_int (pos paid_count))) cells))

  -- Columns AE to AL of a row that is computed.
  unfoldable pub calculated_cells : SheetCurrentCalculation → Cells → Result Text Cells
  unfolding coupon_cells assign_cell
  calculated_cells r cells = do
    counted ← coupon_cells r.paid_coupon_count r.paid_coupons_total_rub cells
    exit_total ← money_cell sync (some r.current_exit_total_rub)
    before_tax ← money_cell sync (some r.profit_before_tax_rub)
    after_tax ← money_cell sync (some r.profit_after_tax_rub)
    annual ← money_cell sync (some r.annual_yield_after_tax_percent)
    delta ← money_cell sync r.plan_delta_pp
    ok (
        status_cells (codes "РАССЧИТАНО") (
          assign_cell (codes "AK") delta (
            assign_cell (codes "AJ") annual (
              assign_cell (codes "AI") after_tax (
                assign_cell (codes "AH") before_tax
                  (assign_cell (codes "AG") exit_total counted))))))

  -- The round from the valuation date on.
  unfoldable pub priced_cells :
      SheetConnectionModel
      → ℕ
      → Text
      → RefreshedInstrument
      → SheetPurchaseInput
      → Cells
      → Notes
      → Result Text (Cells × Notes)
  unfolding coupon_cells calculated_cells assign_cell
  priced_cells c row_number isin v purchase cells notes =
      let valuation_date = sync.local_date (market_time v.market) in
      let paid =
        summarize_paid_coupons purchase.purchase_date valuation_date purchase.quantity
          v.cashflows in
      coupon_cells paid.0 paid.1 cells >>= λ (counted : Cells).
      elim (market_rub_price v.market c.price_mode) [
        | none ↦ ok (status_cells (missing_quote_calculation_status c.price_mode) counted, notes)
        | some price ↦ elim v.market.accrued_interest_rub_per_bond [
          | none ↦ ok (status_cells (codes "MOEX НЕ ВЕРНУЛ ТЕКУЩИЙ НКД") counted, notes)
          | some accrued ↦
              elim (calculate_sheet_current purchase valuation_date price accrued v.cashflows) [
                | err e ↦ ok (
                  status_cells (codes "ОШИБКА РАСЧЁТА: " ++ take 160 (sync.domain_text e)) counted,
                  record notes {
                    row_errors =
                        notes.row_errors
                        ++ row_message row_number isin (take 1000 (sync.domain_text e)) ∷ [];
                  },
                )
                | ok r ↦ calculated_cells r counted >>= λ (cells' : Cells). ok (cells', notes)
              ]
        ]
      ]

  abbrev pub cells_of_row : SheetDataRow → SheetCells
  cells_of_row row = record {
    purchase_date = parse_date lib (row.values (codes "E"));
    quantity = parse_decimal lib (row.values (codes "H"));
    purchase_price = parse_decimal lib (row.values (codes "I"));
    planned_annual_yield = parse_decimal lib (row.values (codes "V"));
  }

  -- The round from the date of the purchase on, with the commission known.
  unfoldable pub purchase_cells :
      SheetConnectionModel
      → SheetDataRow
      → Text
      → RefreshedInstrument
      → Decimal
      → Cells
      → Notes
      → Result Text (Cells × Notes)
  unfolding purchase_accrued priced_cells assign_cells assign_cell
  purchase_cells c row isin v commission cells notes =
      purchase_accrued row isin v cells notes >>= λ (found : (Option Decimal × Cells) × Notes).
      let cleared = assign_cells blank_calculation_values found.0.1 in
      elim (parse_sheet_purchase (cells_of_row row) found.0.0 commission) [
        | err e ↦ ok (status_cells (refusal_text e) cleared, found.1)
        | ok purchase ↦ priced_cells c row.row_number isin v purchase cleared found.1
      ]

  -- The cells that each round of a refreshed instrument begins with.
  unfoldable pub market_cells : SheetConnectionModel → RefreshedInstrument → Result Text Cells
  unfolding assign_cell assign_optional
  market_cells c v =
      money_cell sync v.market.accrued_interest_rub_per_bond >>= λ (accrued : CellContent). ok (
        assign_optional c.status_column (words v.status) (
          assign_optional c.updated_at_column
            (words (elim v.market_time [ none ↦ [] | some t ↦ sync.timestamp_text t ]))
            (assign_cell (codes "AD") accrued ((c.price_column, amount_or_blank v.price) ∷ []))))

  -- `row_updates` at the end of a round.
  unfoldable pub row_cells :
      SheetConnectionModel
      → SheetDataRow
      → Text
      → RefreshedInstrument
      → Notes
      → Result Text (Cells × Notes)
  unfolding market_cells purchase_cells assign_cells assign_cell
  row_cells c row isin v notes =
      let raw = row.values (codes "L") in
      market_cells c v >>= λ (cells : Cells). elim (is_blank raw) [
        | true ↦
            purchase_cells c row isin v default_purchase_commission
              (assign_cell (codes "L") (amount default_purchase_commission) cells) notes
        | false ↦ elim (parse_decimal lib raw) [
          | none ↦ ok (
            status_cells (codes "НЕКОРРЕКТНАЯ КОМИССИЯ В L")
                (assign_cells blank_calculation_values cells),
            notes,
          )
          | some commission ↦ purchase_cells c row isin v commission cells notes
        ]
      ]

  -- One round.
  unfoldable pub row_updates :
      SheetConnectionModel
      → SheetDataRow
      → Text
      → Option RefreshedInstrument
      → Notes
      → Result Text (List CellUpdate × Notes)
  unfolding row_cells
  row_updates c row isin none notes = ok (failed_row_updates row.row_number c, notes)
  row_updates c row isin (some v) notes = row_cells c row isin v notes >>= λ (r : Cells × Notes).
      ok (cell_updates row.row_number r.0, r.1)
