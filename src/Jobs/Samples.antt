-- ===== src/Jobs/Samples.antt =====
-- A queue with one enabled connection, and what the theorems say of it.
use bond_trading.Prelude.{ℕ, ◌≡◌, refl, true, [], ◌∷◌, Option, none, some, arith}
use bond_trading.Prelude.Results.{Result, err}
use bond_trading.Prelude.Texts.{Text, codes}
use bond_trading.Database.{
  Time, SheetConnectionModel, SheetSyncJobModel, best_offer_clean_rub, queued, manual,
  SheetSyncJobStatus,
}
use bond_trading.Jobs.{
  SheetTables, SyncReport, new_job, start_job, ensure_queued, add_job, get_connection, enqueue,
  process_one_job, claim_next_sheet_sync_job, earliest_claimable, earlier, enqueue_due_sheet_syncs,
  enqueue_due_loop, enqueue_due_step, is_due_at, finish_job, record_sheet_sync_failure,
}
use bond_trading.Jobs.Invariant.{IsValid}
use bond_trading.Jobs.Claims.{IsClaimed, claim-IsClaimed}
use bond_trading.Jobs.Interleavings.{
  History, unchanged, then_step, requested, claimed, History-IsValid,
}

abbrev connection : SheetConnectionModel
connection = record {
  id = 7;
  created_at = 0;
  owner_id = 1;
  provider = codes "google_sheets";
  spreadsheet_id = codes "sheet";
  worksheet_name = codes "Bonds";
  header_row = 1;
  isin_column = codes "A";
  price_column = codes "C";
  updated_at_column = none;
  status_column = none;
  price_mode = best_offer_clean_rub;
  enabled = true;
  sync_interval_seconds = 300;
  last_attempt_at = none;
  last_success_at = none;
  last_error = none;
  last_payload_hash = none;
}

abbrev empty_queue : SheetTables
empty_queue = record { connections = connection ∷ []; jobs = []; next_id = 10 }

abbrev one_queued : SheetTables
one_queued = record {
  connections = connection ∷ [];
  jobs = new_job 10 7 manual 100 ∷ [];
  next_id = 11;
}

empty_queue-IsValid : IsValid empty_queue
empty_queue-IsValid = record {
  valid_jobs = tt;
  one_untried = λ c. omega arith;
  below_next = tt;
  distinct = tt;
}

one_queued-IsValid : IsValid one_queued
one_queued-IsValid = record {
  valid_jobs = ((omega arith, refl), tt);
  one_untried = λ c. ground arith;
  below_next = (omega arith, tt);
  distinct = (refl, tt);
}

abbrev offline : SheetSyncJobModel → Result Text SyncReport
offline job = err (codes "offline")

abbrev first_status : SheetTables → Option (SheetSyncJobStatus × ℕ × Option Time)
first_status db = elim db.jobs [
  | [] ↦ none
  | j ∷ js ↦ some (j.status, j.attempt_count, j.next_attempt_at)
]

-- A failed run is queued again, two seconds later.
retry_after_failure :
    first_status (process_one_job offline 150 one_queued).1 ≡ some (queued, 1, some 152)
unfolding process_one_job claim_next_sheet_sync_job earliest_claimable earlier
    enqueue_due_sheet_syncs enqueue_due_loop enqueue_due_step is_due_at finish_job
    record_sheet_sync_failure
retry_after_failure = refl

claim-IsClaimed_example : IsClaimed 150 one_queued (
  new_job 10 7 manual 100,
  record one_queued { jobs = start_job 150 (new_job 10 7 manual 100) ∷ [] },
)
unfolding claim_next_sheet_sync_job earliest_claimable earlier
claim-IsClaimed_example = claim-IsClaimed 150 one_queued _ one_queued-IsValid refl

requested_and_claimed :
    History empty_queue (record one_queued { jobs = start_job 150 (new_job 10 7 manual 100) ∷ [] })
unfolding claim_next_sheet_sync_job earliest_claimable earlier enqueue get_connection ensure_queued
    add_job
requested_and_claimed =
    then_step (then_step unchanged (requested 1 manual 100 {after = one_queued} refl))
      (claimed 150 {job = new_job 10 7 manual 100} refl)

History-IsValid_example :
    IsValid (record one_queued { jobs = start_job 150 (new_job 10 7 manual 100) ∷ [] })
History-IsValid_example = History-IsValid empty_queue-IsValid requested_and_claimed
