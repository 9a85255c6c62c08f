-- ===== src/Imports/Samples.antt =====
-- A preview of one row for an instrument that is known by its ISIN alone, in empty tables of lots.
use bond_trading.Prelude.{
  ◌+◌, ◌≡◌, ◌⊎◌, Bool, List, refl, true, false, not, ◌&&◌, [], ◌∷◌, none, some, length, ltb,
  if◌then◌else◌, arith,
}
use bond_trading.Prelude.Int.{pos}
use bond_trading.Prelude.Results.{ok, err}
use bond_trading.Database.{ImportBatchModel, UploadedFileModel}
use bond_trading.Prelude.Texts.{codes}
use bond_trading.Decimal.{of_int}
use bond_trading.Database.Concrete.{rounded_half_up}
use bond_trading.Lots.{new_instrument}
use bond_trading.Spreadsheets.Reader.{ImportRow}
use bond_trading.Spreadsheets.Uploads.{ImportPreview}
use bond_trading.Imports.{
  ImportPreviewCache, ImportTables, ImportLibrary, put, get_preview, discard, is_foreign, commit,
  commit_new, import_rows, place_instrument, add_imported, is_storable, rows_distinct, upload_free,
  integrity_error,
}
use bond_trading.Imports.Cached.{get_preview-put}
use bond_trading.Imports.Committed.{IsStorable, IsCommitted, commit-IsImported, commit-commit}

abbrev row : ImportRow
row = record {
  row_number = 3;
  source_isin = codes "ru000a0jx0j2";
  normalized_isin = codes "RU000A0JX0J2";
  source_name = some (codes "Bond");
  target_event_type = codes "maturity";
  purchase_date = 739631;
  target_event_date = 739996;
  quantity = of_int (pos 10);
  purchase_clean_price_rub_per_bond = of_int (pos 950);
  purchase_accrued_interest_rub_per_bond = of_int (pos 5);
  purchase_commission_rub_per_bond = of_int (pos 0);
  target_redemption_price_rub_per_bond = some (of_int (pos 1000));
  sale_commission_rub_per_bond = of_int (pos 0);
  planned_yield_manual_reference = none;
  offer_submission_period = none;
}

abbrev read_once : ImportPreview
read_once = record {
  file_name = codes "bonds.xlsx";
  sheet_name = codes "Bonds";
  checksum = codes "5f";
  header_row_number = 2;
  rows_read = 1;
  rows = row ∷ [];
  errors = [];
  upload_id = none;
}

abbrev tables : ImportTables
tables = record {
  portfolio = record {
    instruments = new_instrument 50 (codes "RU000A0JX0J2") none 0 ∷ [];
    lots = [];
    actions = [];
    markets = [];
    snapshots = [];
    settings = [];
    sheets = record { connections = []; jobs = []; next_id = 80 };
    next_id = 100;
    numerics = rounded_half_up;
  };
  batches = [];
  uploads = [];
}

abbrev library : ImportLibrary
library = record { encode_errors = λ errors. codes "[]"; shown_id = λ id. codes "id" }

abbrev cache : ImportPreviewCache
cache = record { ttl_seconds = 900; values = [] }

-- Owner 1 puts a preview at time 100 and reads it at 500.
get_preview-put_example :
    ((get_preview 7 (some 1) 500 (put 7 read_once (some 1) 100 cache)).0 ≡ (
      if not (is_foreign (some 1) (some 1)) && ltb 500 (100 + 900) then some read_once else none))
    × ((get_preview 8 (some 1) 500 (put 7 read_once (some 1) 100 cache)).0
        ≡ (get_preview 8 (some 1) 500 cache).0)
    × ((get_preview 7 (some 1) 500 (discard 7 (put 7 read_once (some 1) 100 cache))).0 ≡ none)
get_preview-put_example =
    get_preview-put 7 8 read_once (some 1) (some 1) 100 500 cache (λ e. absurd (omega arith))

commit-IsImported_example :
    (IsStorable 1 library read_once tables
      × ((b : ImportBatchModel) × (after : ImportTables) × (commit 1 library read_once 9 tables
            ≡ ok ((b, false), after))
          × IsCommitted 1 library read_once 9 tables after b))
    ⊎ ((IsStorable 1 library read_once tables → ⊥)
        × (commit 1 library read_once 9 tables ≡ err integrity_error))
commit-IsImported_example = commit-IsImported 1 library read_once 9 tables tt

-- Two rows with one number are refused.
repeated_row :
    commit 1 library (record read_once { rows = row ∷ row ∷ [] }) 9 tables ≡ err integrity_error
unfolding commit is_storable rows_distinct upload_free
repeated_row = refl

committed :
    (r : (ImportBatchModel × Bool) × ImportTables) × (commit 1 library read_once 9 tables ≡ ok r)
unfolding commit commit_new import_rows place_instrument add_imported is_storable rows_distinct
    upload_free
committed = (_, refl)

-- The instrument takes its name from the row.
named_lot : (committed.0.0.0.instruments_updated ≡ 1) × (length committed.0.1.portfolio.lots ≡ 1)
unfolding committed commit commit_new import_rows place_instrument add_imported
named_lot = (refl, refl)

abbrev another_file : ImportPreview
another_file = record read_once { file_name = codes "copy.xlsx"; upload_id = some 4 }

commit-commit_example :
    (uploads : List UploadedFileModel) × (commit 1 library another_file 20 committed.0.1
      ≡ ok ((committed.0.0.0, true), record committed.0.1 { uploads = uploads }))
commit-commit_example =
    commit-commit 1 library read_once another_file 9 20 tables committed.0.1 committed.0.0
      committed.1 refl refl
