-- ===== src/Connections/Samples.antt =====
-- A first connection, from a link and columns in lower case, and one that names a column twice.
use bond_trading.Prelude.{◌≡◌, refl, true, [], none, some}
use bond_trading.Prelude.Texts.{codes, upper_char}
use bond_trading.Prelude.Results.{ok, err}
use bond_trading.Ranges.{ranges_runs}
use bond_trading.Database.{SheetConnectionModel, best_offer_clean_rub}
use bond_trading.Jobs.{SheetTables, get_connection}
use bond_trading.Connections.{
  SheetSettings, configure, normalize_settings, check_settings, store_settings, from_range,
  required_column_of, has_duplicates, present, used_columns, same_columns, reserved,
}
use bond_trading.Connections.Columns.{IsUsable, configure-IsUsable}

abbrev form : SheetSettings
form = record {
  spreadsheet_id = codes "https://docs.google.com/spreadsheets/d/abcdefghij_K/edit";
  worksheet_name = codes " Bonds ";
  header_row = 1;
  isin_column = codes "a";
  price_column = codes "c";
  updated_at_column = none;
  status_column = some (codes "d");
  price_mode = best_offer_clean_rub;
  enabled = true;
  sync_interval_seconds = 300;
}

abbrev no_tables : SheetTables
no_tables = record { connections = []; jobs = []; next_id = 10 }

configured : (after : SheetTables) × (configure 1 5 form no_tables ≡ ok after)
unfolding configure normalize_settings check_settings store_settings from_range required_column_of
    has_duplicates present used_columns ranges_runs upper_char
configured = (_, refl)

configure-IsUsable_example :
    (c : SheetConnectionModel) × (get_connection 1 configured.0 ≡ some c) × IsUsable c
configure-IsUsable_example = configure-IsUsable 1 5 form no_tables configured.0 configured.1

twice :
    configure 1 5 (record form { status_column = some (codes "A") }) no_tables ≡ err same_columns
unfolding configure normalize_settings check_settings from_range required_column_of has_duplicates
    present used_columns ranges_runs upper_char
twice = refl

taken : configure 1 5 (record form { status_column = some (codes "al") }) no_tables ≡ err reserved
unfolding configure normalize_settings check_settings from_range required_column_of has_duplicates
    present used_columns ranges_runs upper_char
taken = refl
