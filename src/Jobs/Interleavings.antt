-- ===== src/Jobs/Interleavings.antt =====
-- The worker and the web requests share the tables: while a claimed job runs, requests go on
-- enqueueing. A history is any sequence of their transactions.
use bond_trading.Prelude.{◌≡◌, List, some}
use bond_trading.Prelude.Results.{Result, ok}
use bond_trading.Prelude.Rows.{In, All-In}
use bond_trading.Prelude.Texts.{Text}
use bond_trading.Database.{
  Uuid, Time, SheetSyncTrigger, SheetSyncJobModel, SheetConnectionModel, running,
}
use bond_trading.Jobs.{
  SheetTables, SyncReport, enqueue, enqueue_sheet_sync, enqueue_due_sheet_syncs,
  claim_next_sheet_sync_job, finish_job,
}
use bond_trading.Jobs.Invariant.{
  IsValid, IsValidJob, enqueue-IsValid, enqueue_sheet_sync-IsValid, enqueue_due-IsValid,
}
use bond_trading.Jobs.Claims.{claim-IsClaimed, finish_job-IsValid}

-- A transaction of a request, of the scheduler or of the worker; the last one ends a running job.
pub data Transaction (db : SheetTables) : SheetTables → Type 0 where
  requested :
      (owner : Uuid) (trigger : SheetSyncTrigger) (now : Time) {after : SheetTables}
      → enqueue owner trigger now db ≡ ok after
      → Transaction db after
  portfolio_changed :
      (owner : Uuid) (trigger : SheetSyncTrigger) (now : Time)
      → Transaction db (enqueue_sheet_sync owner trigger now db)
  connections_changed :
      (connections : List SheetConnectionModel)
      → Transaction db (record db { connections = connections })
  scheduled_round : (now : Time) → Transaction db (enqueue_due_sheet_syncs now db)
  claimed :
      (now : Time) {job : SheetSyncJobModel} {after : SheetTables}
      → claim_next_sheet_sync_job now db ≡ some (job, after)
      → Transaction db after
  finished :
      (now : Time) (job : SheetSyncJobModel) (result : Result Text SyncReport)
      → In job db.jobs
      → job.status ≡ running
      → Transaction db (finish_job now job result db)

pub data History (db : SheetTables) : SheetTables → Type 0 where
  unchanged : History db db
  then_step : {mid after : SheetTables} → History db mid → Transaction mid after → History db after

Transaction-IsValid : {db after : SheetTables} → Transaction db after → IsValid db → IsValid after
Transaction-IsValid {db} (requested owner trigger now e) v =
    enqueue-IsValid owner trigger now db v e
Transaction-IsValid {db} (portfolio_changed owner trigger now) v =
    enqueue_sheet_sync-IsValid owner trigger now db v
Transaction-IsValid (connections_changed connections) v = record {
  valid_jobs = v.valid_jobs;
  one_untried = v.one_untried;
  below_next = v.below_next;
  distinct = v.distinct;
}
Transaction-IsValid {db} (scheduled_round now) v = enqueue_due-IsValid now db v
Transaction-IsValid {db} (claimed now e) v = (claim-IsClaimed now db _ v e).0
Transaction-IsValid {db} (finished now job result m e) v =
    finish_job-IsValid now job result db v e (All-In IsValidJob job db.jobs v.valid_jobs m) m

-- In every history of requests, changed connections, scheduler rounds, claims and ends of running
-- jobs that starts in a valid state, each state is valid: every job's fields fit its status, no
-- job is tried more than three times, no connection has two queued jobs that were never tried, and
-- no two jobs share an id.
pub History-IsValid : {db after : SheetTables} → IsValid db → History db after → IsValid after
History-IsValid v unchanged = v
History-IsValid v (then_step r s) = Transaction-IsValid s (History-IsValid v r)
