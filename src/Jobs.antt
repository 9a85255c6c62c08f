-- ===== src/Jobs.antt =====
-- The queue of Google Sheets synchronisations: application/services/sheets.py (`enqueue`,
-- `enqueue_sheet_sync`, `enqueue_due_sheet_syncs`, `claim_next_sheet_sync_job`, the end of
-- `execute`, `record_sheet_sync_failure`) and workers/sheet_sync.py (`process_one_job`).
--
-- The two tables are lists in the order of insertion, a query is its condition run over the rows,
-- and a commit keeps the rows as they are. `now` is the clock, read once in each call. Ids are
-- drawn from a counter, as `uuid4` draws ids that no row has. One worker runs at a time; the row
-- lock of the claim is not modelled.
pub mod Invariant
pub mod Claims
pub mod Interleavings
mod Samples
use bond_trading.Prelude.{
  ℕ, ◌+◌, ◌^◌, Bool, true, false, not, ◌&&◌, ◌||◌, List, [], ◌∷◌, ◌++◌, Option, none, some, find,
  any, update_where, ltb, leb, ◌==◌, if◌then◌else◌,
}
use bond_trading.Prelude.Texts.{Text, codes, text_eq}
use bond_trading.Prelude.Results.{Result, ok, err, ◌>>=◌, ◌>>◌, raise_if}
use bond_trading.Database.{
  Uuid, Time, SheetConnectionModel, SheetSyncJobModel, queued, running, succeeded, failed,
  SheetSyncTrigger, scheduled, manual, RowError,
}

pub record SheetTables : Type 0 where
  pub connections : List SheetConnectionModel
  pub jobs : List SheetSyncJobModel
  pub next_id : Uuid

-- The `ValueError`s of the service.
pub data SheetError : Type 0 where
  not_connected : SheetError
  sync_disabled : SheetError

abbrev pub is_queued : SheetSyncJobModel → Bool
is_queued j = elim j.status [ queued ↦ true | _ ↦ false ]

abbrev pub is_running : SheetSyncJobModel → Bool
is_running j = elim j.status [ running ↦ true | _ ↦ false ]

abbrev pub is_manual : SheetSyncTrigger → Bool
is_manual manual = true
is_manual _ = false

abbrev pub connected_to : Uuid → SheetSyncJobModel → Bool
connected_to c j = j.connection_id == c

-- `get_connection`
unfoldable pub get_connection : Uuid → SheetTables → Option SheetConnectionModel
get_connection owner db =
    find (λ c. c.owner_id == owner && text_eq c.provider (codes "google_sheets")) db.connections

-- A `SheetSyncJobModel(...)` with the column defaults.
abbrev pub new_job : Uuid → Uuid → SheetSyncTrigger → Time → SheetSyncJobModel
new_job id connection trigger now = record {
  id = id;
  created_at = now;
  connection_id = connection;
  trigger = trigger;
  status = queued;
  attempt_count = 0;
  next_attempt_at = some now;
  started_at = none;
  completed_at = none;
  rows_read = 0;
  rows_updated = 0;
  instruments_refreshed = 0;
  row_errors = [];
  error_message = none;
}

-- `session.add(job)`
unfoldable pub add_job : Uuid → SheetSyncTrigger → Time → SheetTables → SheetTables
add_job connection trigger now db = record db {
  jobs = db.jobs ++ new_job db.next_id connection trigger now ∷ [];
  next_id = db.next_id + 1;
}

-- The queued job of the connection that was created first, or a new one.
unfoldable pub ensure_queued : Uuid → SheetSyncTrigger → Time → SheetTables → SheetTables
ensure_queued connection trigger now db =
    if any (λ j. connected_to connection j && is_queued j) db.jobs
    then db
    else add_job connection trigger now db

-- `SheetSyncService.enqueue`
unfoldable pub enqueue :
    Uuid → SheetSyncTrigger → Time → SheetTables → Result SheetError SheetTables
enqueue owner trigger now db = elim (get_connection owner db) [
  | none ↦ err not_connected
  | some c ↦
      raise_if (not c.enabled && not (is_manual trigger)) sync_disabled
      >> ok (ensure_queued c.id trigger now db)
]

-- `enqueue_sheet_sync`
unfoldable pub enabled_connection : Uuid → SheetTables → Option SheetConnectionModel
enabled_connection owner db =
    find (λ c. c.owner_id == owner && text_eq c.provider (codes "google_sheets") && c.enabled)
      db.connections

unfoldable pub enqueue_sheet_sync : Uuid → SheetSyncTrigger → Time → SheetTables → SheetTables
enqueue_sheet_sync owner trigger now db = elim (enabled_connection owner db) [
  | none ↦ db
  | some c ↦ ensure_queued c.id trigger now db
]

unfoldable pub is_due_at : Time → SheetConnectionModel → Bool
is_due_at now c =
    leb (elim c.last_attempt_at [ none ↦ c.created_at | some t ↦ t ] + c.sync_interval_seconds) now

-- One round of the loop of `enqueue_due_sheet_syncs`.
unfoldable pub enqueue_due_step : Time → SheetConnectionModel → SheetTables → SheetTables
enqueue_due_step now c db =
    if c.enabled
      && is_due_at now c
      && not (any (λ j. connected_to c.id j && (is_queued j || is_running j)) db.jobs)
    then add_job c.id scheduled now db
    else db

unfoldable pub enqueue_due_loop : Time → List SheetConnectionModel → SheetTables → SheetTables
enqueue_due_loop now [] db = db
enqueue_due_loop now (c ∷ cs) db = enqueue_due_loop now cs (enqueue_due_step now c db)

-- `enqueue_due_sheet_syncs`
unfoldable pub enqueue_due_sheet_syncs : Time → SheetTables → SheetTables
enqueue_due_sheet_syncs now db = enqueue_due_loop now db.connections db

-- The condition of the claim.
abbrev pub is_claimable : Time → SheetSyncJobModel → Bool
is_claimable now j = is_queued j && elim j.next_attempt_at [ none ↦ true | some t ↦ leb t now ]

-- `order_by(created_at).limit(1)`; of rows created at one time the first.
unfoldable pub earlier : SheetSyncJobModel → Option SheetSyncJobModel → Option SheetSyncJobModel
earlier j none = some j
earlier j (some k) = if leb j.created_at k.created_at then some j else some k

unfoldable pub earliest_claimable : Time → List SheetSyncJobModel → Option SheetSyncJobModel
earliest_claimable now [] = none
earliest_claimable now (j ∷ js) =
    if is_claimable now j then earlier j (earliest_claimable now js) else earliest_claimable now js

abbrev pub start_job : Time → SheetSyncJobModel → SheetSyncJobModel
start_job now j = record j {
  status = running;
  started_at = some now;
  attempt_count = j.attempt_count + 1;
}

abbrev pub update_job : Uuid → (SheetSyncJobModel → SheetSyncJobModel) → SheetTables → SheetTables
update_job id f db = record db { jobs = update_where (λ j. j.id == id) f db.jobs }

-- `claim_next_sheet_sync_job`: the job as it was found, and the tables with it running.
unfoldable pub claim_next_sheet_sync_job :
    Time → SheetTables → Option (SheetSyncJobModel × SheetTables)
claim_next_sheet_sync_job now db = elim (earliest_claimable now db.jobs) [
  | none ↦ none
  | some j ↦ some (j, update_job j.id (start_job now) db)
]

abbrev pub max_attempts : ℕ
max_attempts = 3

abbrev pub fail_job : Time → Text → SheetSyncJobModel → SheetSyncJobModel
fail_job now message j =
    if ltb j.attempt_count max_attempts
    then record j {
      status = queued;
      next_attempt_at = some (now + 2 ^ j.attempt_count);
      error_message = some message;
    }
    else record j { status = failed; completed_at = some now; error_message = some message }

abbrev pub update_connection :
    Uuid → (SheetConnectionModel → SheetConnectionModel) → SheetTables → SheetTables
update_connection id f db = record db {
  connections = update_where (λ c. c.id == id) f db.connections;
}

-- `record_sheet_sync_failure`; `message` is the error's, cut to 2000 characters. What a failed run
-- had already written to the job, its `rows_read`, is not modelled.
unfoldable pub record_sheet_sync_failure :
    Time → SheetSyncJobModel → Text → SheetTables → SheetTables
record_sheet_sync_failure now j message db = update_job j.id (fail_job now message) (
    update_connection j.connection_id
      (λ c. record c { last_attempt_at = some now; last_error = some message }) db)

-- What a run of `execute` has counted when it reaches its end.
pub record SyncReport : Type 0 where
  pub rows_read : ℕ
  pub rows_updated : ℕ
  pub instruments_refreshed : ℕ
  pub row_errors : List RowError
  pub payload_hash : Text

abbrev pub complete_job : Time → SyncReport → SheetSyncJobModel → SheetSyncJobModel
complete_job now r j = record j {
  status = succeeded;
  completed_at = some now;
  rows_read = r.rows_read;
  rows_updated = r.rows_updated;
  instruments_refreshed = r.instruments_refreshed;
  row_errors = r.row_errors;
  error_message = none;
}

-- The end of `execute`, from the call of `update_cells` on, and the `last_attempt_at` it begins with.
unfoldable pub complete_sheet_sync :
    Time → SheetSyncJobModel → SyncReport → SheetTables → SheetTables
complete_sheet_sync now j r db = update_job j.id (complete_job now r) (
    update_connection j.connection_id
      (λ c. record c {
        last_attempt_at = some now;
        last_success_at = some now;
        last_error = none;
        last_payload_hash = some r.payload_hash;
      })
      db)

unfoldable pub finish_job :
    Time → SheetSyncJobModel → Result Text SyncReport → SheetTables → SheetTables
finish_job now j (ok r) db = complete_sheet_sync now j r db
finish_job now j (err message) db = record_sheet_sync_failure now j message db

-- `process_one_job`, given how `execute` ends for the claimed job; whether there was a job.
unfoldable pub process_one_job :
    (SheetSyncJobModel → Result Text SyncReport) → Time → SheetTables → Bool × SheetTables
process_one_job execute now db =
    elim (claim_next_sheet_sync_job now (enqueue_due_sheet_syncs now db)) [
      | none ↦ (false, enqueue_due_sheet_syncs now db)
      | some (j, db') ↦ (true, finish_job now (start_job now j) (execute (start_job now j)) db')
    ]
