-- ===== src/Sync/Samples.antt =====
-- A sheet with a row that is computed, with nothing in J and L, and a row with a wrong check digit.
use bond_trading.Prelude.{ℕ, ◌≡◌, refl, true, List, [], ◌∷◌, none, some, All, length, if◌then◌else◌}
use bond_trading.Prelude.Int.{pos}
use bond_trading.Prelude.Texts.{Text, codes, text_eq, strip, upper, upper_char}
use bond_trading.Prelude.Results.{ok}
use bond_trading.Decimal.{of_int, runs}
use bond_trading.Calculations.Engine.{engine_runs}
use bond_trading.Database.{SheetConnectionModel, best_offer_clean_rub}
use bond_trading.Isin.{isin_runs}
use bond_trading.Ranges.{ranges_runs}
use bond_trading.Connections.{has_duplicates, present}
use bond_trading.Connections.Columns.{IsUsable}
use bond_trading.Jobs.{SyncReport}
use bond_trading.Database.Concrete.{rounded_half_up}
use bond_trading.Lots.{Portfolio}
use bond_trading.Quotes.{quotes_runs}
use bond_trading.Values.{absent, text, values_runs}
use bond_trading.Values.Concrete.{concrete_python, read_whole, read_day}
use bond_trading.Instruments.{refresh_runs}
use bond_trading.Instruments.Concrete.{answer}
use bond_trading.Sync.{SheetDataRow, CellUpdate, SyncLibrary}
use bond_trading.Sync.Rows.{SheetMoexClient}
use bond_trading.Sync.Execute.{GoogleSheetsGateway, read_sheet, execute, sync_runs}
use bond_trading.Sync.Guarded.{IsHarmless}
use bond_trading.Sync.Harmless.{execute-IsHarmless}

abbrev connection : SheetConnectionModel
connection = record {
  id = 10;
  created_at = 0;
  owner_id = 1;
  provider = codes "google_sheets";
  spreadsheet_id = codes "abcdefghij_K";
  worksheet_name = codes "Bonds";
  header_row = 1;
  isin_column = codes "A";
  price_column = codes "C";
  updated_at_column = none;
  status_column = some (codes "D");
  price_mode = best_offer_clean_rub;
  enabled = true;
  sync_interval_seconds = 300;
  last_attempt_at = none;
  last_success_at = none;
  last_error = none;
  last_payload_hash = none;
}

usable : IsUsable connection
unfolding has_duplicates present ranges_runs
usable = record { columns = refl; distinct = refl; free = refl; worksheet = refl }

abbrev row_of : ℕ → Text → SheetDataRow
row_of n isin = record {
  row_number = n;
  values = λ column.
      if text_eq column (codes "A")
      then text isin
      else if text_eq column (codes "E")
      then text (codes "2026-01-15")
      else if text_eq column (codes "H")
      then text (codes "10")
      else if text_eq column (codes "I")
      then text (codes "900")
      else absent;
}

abbrev gateway : GoogleSheetsGateway
gateway = record {
  check_spreadsheet =
      λ id. ok (record { spreadsheet_title = codes "T"; worksheet_names = codes "Bonds" ∷ [] });
  read_rows = λ id name columns first.
      ok (row_of 2 (codes "RU000A0JX0J2") ∷ row_of 3 (codes "RU000A0JX0J3") ∷ []);
  update_cells = λ id name updates. ok (length updates);
}

abbrev moex : SheetMoexClient
moex = record {
  refresh_client = λ isin. ok answer;
  accrued_interest_on = λ secid board day. ok (some (of_int (pos 5)));
}

abbrev library : SyncLibrary
library = record {
  local_date = λ t. t;
  timestamp_text = λ t. codes "t";
  payload_hash = λ updates. codes "5f";
  domain_text = λ e. codes "e";
  integrity_text = codes "IntegrityError";
  invalid_operation = codes "InvalidOperation";
}

abbrev portfolio : Portfolio
portfolio = record {
  instruments = [];
  lots = [];
  actions = [];
  markets = [];
  snapshots = [];
  settings = [];
  sheets = record { connections = connection ∷ []; jobs = []; next_id = 80 };
  next_id = 100;
  numerics = rounded_half_up;
}

synchronised :
    (r : SyncReport × List CellUpdate) × ((execute concrete_python library
        (some connection)
        gateway
        moex
        9
        portfolio).0
      ≡ ok r)
unfolding sync_runs refresh_runs quotes_runs values_runs read_whole read_day isin_runs engine_runs
    runs strip upper upper_char
synchronised = (_, refl)

one_computed : (synchronised.0.0.rows_updated ≡ 1) × (length synchronised.0.0.row_errors ≡ 1)
unfolding synchronised
one_computed = (refl, refl)

execute-IsHarmless_example :
    (rows : List SheetDataRow) × (read_sheet concrete_python library connection gateway ≡ ok rows)
    × All (IsHarmless connection rows) synchronised.0.1
execute-IsHarmless_example =
    execute-IsHarmless connection concrete_python library gateway moex 9 portfolio synchronised.0.0
      synchronised.0.1 usable synchronised.1
