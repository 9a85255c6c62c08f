-- ===== src/Connections.antt =====
-- The settings of a sheet connection: `configure`, `list_jobs` and `get_job` of
-- application/services/sheets.py. An error of ranges.py and one of the service are alike for the
-- caller, a `ValueError`.
pub mod Columns
mod Samples
use bond_trading.Prelude.{
  ℕ, ◌+◌, Bool, true, false, not, ◌&&◌, List, [], ◌∷◌, ◌++◌, Option, none, some, find, any, keep,
  sort, take, leb, update_where, ◌==◌, if◌then◌else◌,
}
use bond_trading.Prelude.Texts.{Text, codes, text_eq, strip, nonempty}
use bond_trading.Prelude.Results.{Result, ok, err, ◌>>=◌, ◌>>◌, raise_if}
use bond_trading.Ranges.{RangeError, extract_spreadsheet_id, normalize_column}
use bond_trading.Database.{Uuid, Time, SheetConnectionModel, SheetSyncJobModel, SheetPriceMode}
use bond_trading.Jobs.{SheetTables, get_connection}

pub data ConfigureError : Type 0 where
  bad_range : RangeError → ConfigureError
  no_worksheet : ConfigureError
  same_columns : ConfigureError
  reserved : ConfigureError

unfoldable pub from_range : {A : Type 0} → Result RangeError A → Result ConfigureError A
from_range (ok a) = ok a
from_range (err e) = err (bad_range e)

-- The values of the settings form.
pub record SheetSettings : Type 0 where
  pub spreadsheet_id : Text
  pub worksheet_name : Text
  pub header_row : ℕ
  pub isin_column : Text
  pub price_column : Text
  pub updated_at_column : Option Text
  pub status_column : Option Text
  pub price_mode : SheetPriceMode
  pub enabled : Bool
  pub sync_interval_seconds : ℕ

-- The columns that the calculation reads (E, H, I, J, L, V) and writes (AD to AL).
abbrev pub reserved_columns : List Text
reserved_columns =
    codes "E"
    ∷ codes "H"
    ∷ codes "I"
    ∷ codes "J"
    ∷ codes "L"
    ∷ codes "V"
    ∷ codes "AD"
    ∷ codes "AE"
    ∷ codes "AF"
    ∷ codes "AG"
    ∷ codes "AH"
    ∷ codes "AI"
    ∷ codes "AJ"
    ∷ codes "AK"
    ∷ codes "AL"
    ∷ []

abbrev pub holds : List Text → Text → Bool
holds columns column = any (text_eq column) columns

-- `len(columns) != len(set(columns))`
unfoldable pub has_duplicates : List Text → Bool
has_duplicates [] = false
has_duplicates (column ∷ columns) = if holds columns column then true else has_duplicates columns

unfoldable pub present : Option Text → List Text
present none = []
present (some column) = column ∷ []

-- The columns of the form, without those left empty.
unfoldable pub used_columns : SheetSettings → List Text
used_columns v =
    v.isin_column ∷ v.price_column ∷ (present v.updated_at_column ++ present v.status_column)

-- `str(...)` of a required column is a text, so that the normalized column is there.
unfoldable pub required_column_of : Text → Result RangeError Text
required_column_of value =
    normalize_column true (some value) >>= λ column. elim column [ some c ↦ ok c | none ↦ ok [] ]

-- The dictionary `normalized`.
unfoldable pub normalize_settings : SheetSettings → Result ConfigureError SheetSettings
normalize_settings v = do
  spreadsheet_id ← from_range (extract_spreadsheet_id v.spreadsheet_id)
  isin_column ← from_range (required_column_of v.isin_column)
  price_column ← from_range (required_column_of v.price_column)
  updated_at_column ← from_range (normalize_column false v.updated_at_column)
  status_column ← from_range (normalize_column false v.status_column)
  ok (record v {
    spreadsheet_id = spreadsheet_id;
    worksheet_name = strip v.worksheet_name;
    isin_column = isin_column;
    price_column = price_column;
    updated_at_column = updated_at_column;
    status_column = status_column;
  })

-- The checks that follow.
unfoldable pub check_settings : SheetSettings → Result ConfigureError SheetSettings
check_settings v =
    raise_if (not (nonempty v.worksheet_name)) no_worksheet
    >> (raise_if (has_duplicates (used_columns v)) same_columns
        >> (raise_if (any (holds reserved_columns) (used_columns v)) reserved >> ok v))

abbrev pub new_connection : Uuid → Uuid → Time → SheetSettings → SheetConnectionModel
new_connection id owner now v = record {
  id = id;
  created_at = now;
  owner_id = owner;
  provider = codes "google_sheets";
  spreadsheet_id = v.spreadsheet_id;
  worksheet_name = v.worksheet_name;
  header_row = v.header_row;
  isin_column = v.isin_column;
  price_column = v.price_column;
  updated_at_column = v.updated_at_column;
  status_column = v.status_column;
  price_mode = v.price_mode;
  enabled = v.enabled;
  sync_interval_seconds = v.sync_interval_seconds;
  last_attempt_at = none;
  last_success_at = none;
  last_error = none;
  last_payload_hash = none;
}

-- The loop of `setattr`.
abbrev pub apply_settings : SheetSettings → SheetConnectionModel → SheetConnectionModel
apply_settings v c = record c {
  spreadsheet_id = v.spreadsheet_id;
  worksheet_name = v.worksheet_name;
  header_row = v.header_row;
  isin_column = v.isin_column;
  price_column = v.price_column;
  updated_at_column = v.updated_at_column;
  status_column = v.status_column;
  price_mode = v.price_mode;
  enabled = v.enabled;
  sync_interval_seconds = v.sync_interval_seconds;
}

unfoldable pub store_settings : Uuid → Time → SheetSettings → SheetTables → SheetTables
store_settings owner now v db = elim (get_connection owner db) [
  | none ↦ record db {
    connections = db.connections ++ new_connection db.next_id owner now v ∷ [];
    next_id = db.next_id + 1;
  }
  | some c ↦ record db {
    connections = update_where (λ x. x.id == c.id) (apply_settings v) db.connections;
  }
]

-- `configure`
unfoldable pub configure :
    Uuid → Time → SheetSettings → SheetTables → Result ConfigureError SheetTables
configure owner now v db = do
  normalized ← normalize_settings v
  checked ← check_settings normalized
  ok (store_settings owner now checked db)

-- `list_jobs`, the newest first
unfoldable pub list_jobs : Uuid → ℕ → SheetTables → List SheetSyncJobModel
list_jobs owner limit db = elim (get_connection owner db) [
  | none ↦ []
  | some c ↦
      take limit
        (sort (λ a b. leb b.created_at a.created_at) (keep (λ j. j.connection_id == c.id) db.jobs))
]

-- `get_job`
unfoldable pub get_job : Uuid → Uuid → SheetTables → Option SheetSyncJobModel
get_job owner job_id db = elim (get_connection owner db) [
  | none ↦ none
  | some c ↦ find (λ j. j.id == job_id && j.connection_id == c.id) db.jobs
]
