-- ===== src/Sync/Execute.antt =====
-- `SheetSyncService.execute` and `check_connection`, application/services/sheets.py. The gateway of
-- Google Sheets is a protocol in the source, here a record of functions; an answer that is an error
-- is the text of the exception. What `execute` writes to the job and the connection at its end is
-- in Jobs.
use bond_trading.Prelude.{
  ℕ, ◌+◌, Bool, not, ◌||◌, List, [], ◌∷◌, ◌++◌, Option, none, some, any, keep, map, count, length,
  is_some, take, ◌==◌, if◌then◌else◌,
}
use bond_trading.Prelude.Texts.{Text, codes, text_eq, nonempty}
use bond_trading.Prelude.Results.{Result, ok, err, ◌>>=◌, ◌>>◌, raise_if}
use bond_trading.Errors.{DomainError}
use bond_trading.Database.{
  Uuid, Time, BondInstrumentModel, SheetConnectionModel, SheetPriceMode, MarketSnapshotModel,
  RowError,
}
use bond_trading.Isin.{normalize_isin}
use bond_trading.Jobs.{SyncReport, SheetTables, get_connection}
use bond_trading.Lots.{Portfolio}
use bond_trading.Quotes.{market_price, missing_quote_status, instrument_cashflows}
use bond_trading.Values.{PythonLibrary, is_blank, shown_or_empty}
use bond_trading.Instruments.{RefreshError, isin_error, client_error, integrity_error, refresh}
use bond_trading.Sync.{
  words, SheetDataRow, CellUpdate, SheetConnectionCheck, SyncLibrary, assign_cell, assign_cells,
  assign_optional, cell_updates, failed_row_updates, missing_quote_calculation_status, market_time,
  joined, refusal_text, day_after_epoch, decimal_candidate, parse_decimal, day_by_patterns,
  parse_date, money_cell,
}
use bond_trading.Sync.Rows.{
  RefreshedInstrument, SheetMoexClient, Notes, look_up_accrued, purchase_accrued, coupon_cells,
  calculated_cells, priced_cells, purchase_cells, market_cells, row_cells, row_updates,
}

pub record GoogleSheetsGateway : Type 0 where
  pub check_spreadsheet : Text → Result Text SheetConnectionCheck
  pub read_rows : Text → Text → List Text → ℕ → Result Text (List SheetDataRow)
  pub update_cells : Text → Text → List CellUpdate → Result Text ℕ

abbrev pub holds_text : Text → List Text → Bool
holds_text s texts = any (λ t. text_eq t s) texts

-- `dict.fromkeys(texts)`: each text once, in the order in which it comes first
unfoldable pub each_once : List Text → List Text → List Text
each_once seen [] = []
each_once seen (t ∷ texts) =
    let rest = each_once (t ∷ seen) texts in
    let skipped = each_once seen texts in if holds_text t seen then skipped else t ∷ rest

-- The columns that are asked for: SHEET_INPUT_COLUMNS after the column of the ISINs.
abbrev pub input_columns : Text → List Text
input_columns isin_column =
    each_once []
      (isin_column ∷ codes "E" ∷ codes "H" ∷ codes "I" ∷ codes "J" ∷ codes "L" ∷ codes "V" ∷ [])

-- CALCULATION_HEADERS, as updates of the header's row
abbrev pub header_of : ℕ → Text → Text → CellUpdate
header_of row column header = record { row_number = row; column = column; value = words header }

abbrev pub header_updates : ℕ → List CellUpdate
header_updates row =
    header_of row (codes "AD") (codes "Текущий НКД MOEX, ₽/шт.")
    ∷ header_of row (codes "AE") (codes "Выплачено купонов, шт.")
    ∷ header_of row (codes "AF") (codes "Получено купонов, ₽")
    ∷ header_of row (codes "AG") (codes "Текущая стоимость с купонами, ₽")
    ∷ header_of row (codes "AH") (codes "Текущий доход до налога, ₽")
    ∷ header_of row (codes "AI") (codes "Текущий чистый доход, ₽")
    ∷ header_of row (codes "AJ") (codes "Годовой текущий %, после налога")
    ∷ header_of row (codes "AK") (codes "Отклонение от плана, п.п.")
    ∷ header_of row (codes "AL") (codes "Статус расчёта")
    ∷ []

-- Rows with their ISIN, and the errors of those that have none.
abbrev pub Normalized : Type 0
Normalized = List (SheetDataRow × Text) × List RowError

abbrev pub Refreshed : Type 0
Refreshed = List (Text × Option RefreshedInstrument)

unfoldable pub refreshed_for : Text → Refreshed → Option RefreshedInstrument
refreshed_for isin [] = none
refreshed_for isin ((i, v) ∷ rest) =
    let later = refreshed_for isin rest in if text_eq i isin then v else later

-- An error of a row that was not refreshed: two cells, where a status column is set.
unfoldable pub invalid_updates :
    Option Text → List (SheetDataRow × Text) → List RowError → List CellUpdate
invalid_updates status_column normalized [] = []
invalid_updates status_column normalized (e ∷ errors) =
    let rest = invalid_updates status_column normalized errors in
    elim e.row_number [
      | none ↦ rest
      | some n ↦ elim status_column [
        | none ↦ rest
        | some column ↦
            if not (nonempty column) || any (λ r. r.0.row_number == n) normalized
            then rest
            else record { row_number = n; column = column; value = words (codes "INVALID ISIN") }
              ∷ record {
                row_number = n;
                column = codes "AL";
                value = words (codes "НЕВЕРНЫЙ ISIN");
              }
              ∷ rest
      ]
    ]

module _ (lib : PythonLibrary) (sync : SyncLibrary) where
  abbrev pub isin_error_of : SheetDataRow → Text → DomainError → RowError
  isin_error_of row raw e = record {
    row_number = some row.row_number;
    isin = some raw;
    message = sync.domain_text e;
  }

  -- The loop that normalizes the ISINs.
  unfoldable pub normalized_rows : Text → List SheetDataRow → Normalized
  normalized_rows isin_column [] = ([], [])
  normalized_rows isin_column (row ∷ rows) =
      let rest = normalized_rows isin_column rows in
      let raw = shown_or_empty lib (row.values isin_column) in
      elim (normalize_isin raw) [
        | ok isin ↦ ((row, isin) ∷ rest.0, rest.1)
        | err e ↦ (rest.0, isin_error_of row raw e ∷ rest.1)
      ]

  unfoldable pub refresh_text : RefreshError → Text
  refresh_text (isin_error e) = sync.domain_text e
  refresh_text (client_error message) = message
  refresh_text integrity_error = sync.integrity_text

  -- What a refresh means for the rows of its ISIN.
  abbrev pub refreshed_instrument :
      SheetPriceMode → Portfolio → BondInstrumentModel → MarketSnapshotModel → RefreshedInstrument
  refreshed_instrument mode db instrument market = record {
    instrument = instrument;
    market = market;
    cashflows = instrument_cashflows instrument.id db.actions;
    price = market_price market mode;
    market_time = some (market_time market);
    status =
        if is_some (market_price market mode) then codes "FRESH" else missing_quote_status mode;
  }

  -- The loop over the ISINs.
  unfoldable pub refresh_all :
      SheetPriceMode
      → SheetMoexClient
      → Time
      → List Text
      → Portfolio
      → (Refreshed × List RowError) × Portfolio
  unfolding refresh_text
  refresh_all mode moex now [] db = (([], []), db)
  refresh_all mode moex now (isin ∷ isins) db =
      let (answer, after) = refresh isin moex.refresh_client now db in
      let rest = refresh_all mode moex now isins after in
      elim answer [
        | ok r ↦
            (((isin, some (refreshed_instrument mode after r.0 r.1)) ∷ rest.0.0, rest.0.1), rest.1)
        | err e ↦ (
          (
            (isin, none) ∷ rest.0.0,
            record { row_number = none; isin = some isin; message = take 1000 (refresh_text e) }
                ∷ rest.0.1,
          ),
          rest.1,
        )
      ]

  -- The loop over the rows.
  unfoldable pub all_updates :
      SheetConnectionModel
      → SheetMoexClient
      → Refreshed
      → List (SheetDataRow × Text)
      → Notes
      → Result Text (List CellUpdate × Notes)
  unfolding refreshed_for
  all_updates c moex found [] notes = ok ([], notes)
  all_updates c moex found ((row, isin) ∷ rows) notes =
      row_updates lib sync moex c row isin (refreshed_for isin found) notes
      >>= λ (first : List CellUpdate × Notes).
          all_updates c moex found rows first.1 >>= λ (rest : List CellUpdate × Notes).
          ok (first.0 ++ rest.0, rest.1)

  -- All that is sent to the sheet, and the errors.
  abbrev pub Sent : Type 0
  Sent = List CellUpdate × List RowError

  unfoldable pub sheet_updates :
      SheetConnectionModel
      → SheetMoexClient
      → Normalized
      → Refreshed
      → List RowError
      → Result Text Sent
  unfolding all_updates invalid_updates
  sheet_updates c moex normalized found errors =
      all_updates c moex found normalized.0
        (record { historical_accrued = []; row_errors = normalized.1 ++ errors })
      >>= λ (r : List CellUpdate × Notes). ok (
        header_updates c.header_row
            ++ (r.0 ++ invalid_updates c.status_column normalized.0 r.1.row_errors),
        r.1.row_errors,
      )

  abbrev pub sync_report : ℕ → Normalized → Refreshed → Sent → SyncReport
  sync_report read normalized found sent = record {
    rows_read = read;
    rows_updated = length normalized.0;
    instruments_refreshed = count (λ (v : Text × Option RefreshedInstrument). is_some v.1) found;
    row_errors = sent.1;
    payload_hash = sync.payload_hash sent.0;
  }

  -- The rows of the sheet that have something in the column of the ISINs.
  unfoldable pub read_sheet :
      SheetConnectionModel → GoogleSheetsGateway → Result Text (List SheetDataRow)
  read_sheet c gateway = do
    check ← gateway.check_spreadsheet c.spreadsheet_id
    raise_if (not (holds_text c.worksheet_name check.worksheet_names))
        (codes "Вкладка «" ++ c.worksheet_name ++ codes "» не найдена")
    rows ←
        gateway.read_rows c.spreadsheet_id c.worksheet_name (input_columns c.isin_column)
          (c.header_row + 1)
    ok (keep (λ (row : SheetDataRow). not (is_blank (row.values c.isin_column))) rows)

  -- From the rows to the report, with the updates as they are sent.
  unfoldable pub synchronise :
      SheetConnectionModel
      → GoogleSheetsGateway
      → SheetMoexClient
      → Time
      → List SheetDataRow
      → Portfolio
      → Result Text (SyncReport × List CellUpdate) × Portfolio
  unfolding normalized_rows refresh_all sheet_updates
  synchronise c gateway moex now rows db =
      let normalized = normalized_rows c.isin_column rows in
      let ((found, errors), after) =
        refresh_all c.price_mode moex now
          (each_once [] (map (λ (r : SheetDataRow × Text). r.1) normalized.0)) db in
      (
        sheet_updates c moex normalized found errors >>= λ (sent : Sent).
            (gateway.update_cells c.spreadsheet_id c.worksheet_name sent.0 >>= λ (written : ℕ).
            ok (sync_report (length rows) normalized found sent, sent.0)),
        after,
      )

  -- `execute`, for the job's connection
  unfoldable pub execute :
      Option SheetConnectionModel
      → GoogleSheetsGateway
      → SheetMoexClient
      → Time
      → Portfolio
      → Result Text (SyncReport × List CellUpdate) × Portfolio
  unfolding read_sheet synchronise
  execute none gateway moex now db = (err (codes "Подключение Google Таблицы удалено"), db)
  execute (some c) gateway moex now db = elim (read_sheet c gateway) [
    | err message ↦ (err message, db)
    | ok rows ↦ synchronise c gateway moex now rows db
  ]

  -- `SheetSyncService.check_connection`
  unfoldable pub check_connection :
      Uuid → GoogleSheetsGateway → SheetTables → Result Text (SheetConnectionModel × Text)
  check_connection owner gateway db = elim (get_connection owner db) [
    | none ↦ err (codes "Google Таблица ещё не подключена")
    | some c ↦ gateway.check_spreadsheet c.spreadsheet_id >>= λ (check : SheetConnectionCheck).
        (raise_if (not (holds_text c.worksheet_name check.worksheet_names))
            (codes "Вкладка «" ++ c.worksheet_name ++ codes "» не найдена в Google Таблице")
          >> ok (c, check.spreadsheet_title))
  ]

-- Names what a run computes with, for the tests' `unfolding` lines.
unfoldable pub sync_runs : Unit {0}
unfolding execute synchronise read_sheet sheet_updates all_updates invalid_updates refreshed_for
    refresh_all refresh_text normalized_rows each_once row_updates row_cells market_cells
    purchase_cells priced_cells calculated_cells coupon_cells purchase_accrued look_up_accrued
    failed_row_updates cell_updates assign_optional assign_cells assign_cell money_cell parse_date
    parse_decimal decimal_candidate day_by_patterns day_after_epoch refusal_text joined market_time
    missing_quote_calculation_status
sync_runs = tt
