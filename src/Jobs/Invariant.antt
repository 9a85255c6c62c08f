-- ===== src/Jobs/Invariant.antt =====
-- The invariant of the queue.
use bond_trading.Prelude.{
  ℕ, ◌+◌, ◌≤◌, ◌<◌, ◌≡◌, refl, subst, inl, inr, Bool, true, false, not, ◌&&◌, ◌||◌, List, [], ◌∷◌,
  any, count, count-append, All, All-append, update_where, ◌==◌, is_some, arith, Option-cases,
  Bool-cases,
}
use native.Mathlib.Nat.{le_trans}
use bond_trading.Prelude.Results.{ok}
use bond_trading.Prelude.Rows.{
  In, Distinct, All-update_key, Distinct-update, All-update, count-update-le, Distinct-snoc,
}
use bond_trading.Database.{
  Uuid, Time, SheetConnectionModel, SheetSyncJobModel, SheetSyncJobStatus, queued, running,
  succeeded, failed, SheetSyncTrigger, scheduled,
}
use bond_trading.Jobs.{
  SheetTables, is_queued, is_running, connected_to, get_connection, new_job, add_job, ensure_queued,
  enabled_connection, enqueue, enqueue_sheet_sync, enqueue_due_step, enqueue_due_loop,
  enqueue_due_sheet_syncs, update_job, is_due_at, max_attempts,
}

-- What the fields of a job say in each status.
abbrev pub FitsStatus : SheetSyncJobStatus → SheetSyncJobModel → Type 0
FitsStatus queued j = (j.attempt_count < max_attempts) × (is_some j.next_attempt_at ≡ true)
FitsStatus running j =
    (1 ≤ j.attempt_count) × (j.attempt_count ≤ max_attempts) × (is_some j.started_at ≡ true)
FitsStatus succeeded j =
    (1 ≤ j.attempt_count) × (j.attempt_count ≤ max_attempts) × (is_some j.completed_at ≡ true)
FitsStatus failed j = (j.attempt_count ≡ max_attempts) × (is_some j.completed_at ≡ true)

abbrev pub IsValidJob : SheetSyncJobModel → Type 0
IsValidJob j = FitsStatus j.status j

-- A queued job of the connection that has not been tried.
abbrev pub is_untried : Uuid → SheetSyncJobModel → Bool
is_untried c j = connected_to c j && (is_queued j && j.attempt_count == 0)

abbrev pub job_id : SheetSyncJobModel → ℕ
job_id j = j.id

pub record IsValid (db : SheetTables) : Type 0 where
  pub valid_jobs : All IsValidJob db.jobs
  pub one_untried : (c : Uuid) → count (is_untried c) db.jobs ≤ 1
  pub below_next : All (λ j. job_id j < db.next_id) db.jobs
  pub distinct : Distinct job_id db.jobs

All-weaken :
    (m n : ℕ) (js : List SheetSyncJobModel)
    → m ≤ n
    → All (λ j. job_id j < m) js
    → All (λ j. job_id j < n) js
All-weaken m n [] h a = tt
All-weaken m n (j ∷ js) h a = (omega arith, All-weaken m n js h a.1)

untried-queued :
    (c : Uuid) (js : List SheetSyncJobModel)
    → any (λ j. connected_to c j && is_queued j) js ≡ false
    → count (is_untried c) js ≡ 0
untried-queued c [] h = refl
untried-queued c (j ∷ js) h = ground (arith, untried-queued c js)

add_job-IsValid :
    (c : Uuid) (trigger : SheetSyncTrigger) (now : Time) (db : SheetTables)
    → any (λ j. connected_to c j && is_queued j) db.jobs ≡ false
    → IsValid db
    → IsValid (add_job c trigger now db)
unfolding add_job
add_job-IsValid c trigger now db free v =
    let j = new_job db.next_id c trigger now in
    record {
      valid_jobs = All-append IsValidJob db.jobs (j ∷ []) v.valid_jobs ((omega arith, refl), tt);
      one_untried = λ d. ground (
        arith,
        count-append (is_untried d) db.jobs (j ∷ []),
        v.one_untried d,
        untried-queued c db.jobs free,
      );
      below_next =
          All-append _ db.jobs (j ∷ [])
            (All-weaken db.next_id (db.next_id + 1) db.jobs (omega arith) v.below_next)
            (omega arith, tt);
      distinct = Distinct-snoc job_id j db.jobs v.below_next v.distinct;
    }

ensure_queued-IsValid :
    (c : Uuid) (trigger : SheetSyncTrigger) (now : Time) (db : SheetTables)
    → IsValid db
    → IsValid (ensure_queued c trigger now db)
unfolding ensure_queued
ensure_queued-IsValid c trigger now db v =
    elim (Bool-cases (any (λ j. connected_to c j && is_queued j) db.jobs)) [
      | inl waiting ↦ rw waiting v
      | inr free ↦ rw free (add_job-IsValid c trigger now db free v)
    ]

-- Enqueueing, by the owner or after a change of the portfolio, keeps the invariant.
pub enqueue-IsValid :
    (owner : Uuid) (trigger : SheetSyncTrigger) (now : Time) (db : SheetTables)
    {after : SheetTables}
    → IsValid db
    → enqueue owner trigger now db ≡ ok after
    → IsValid after
unfolding enqueue
enqueue-IsValid owner trigger now db {after} v h = elim (Option-cases (get_connection owner db)) [
  | inl gone ↦ absurd (ground arith)
  | inr (c, e) ↦
      let same : ensure_queued c.id trigger now db ≡ after = ground arith in
      subst IsValid same (ensure_queued-IsValid c.id trigger now db v)
]

pub enqueue_sheet_sync-IsValid :
    (owner : Uuid) (trigger : SheetSyncTrigger) (now : Time) (db : SheetTables)
    → IsValid db
    → IsValid (enqueue_sheet_sync owner trigger now db)
unfolding enqueue_sheet_sync
enqueue_sheet_sync-IsValid owner trigger now db v =
    elim (Option-cases (enabled_connection owner db)) [
      | inl off ↦ rw (off, enqueue_sheet_sync) v
      | inr (c, e) ↦ rw (e, enqueue_sheet_sync) (ensure_queued-IsValid c.id trigger now db v)
    ]

queued-pending :
    (c : Uuid) (js : List SheetSyncJobModel)
    → any (λ j. connected_to c j && (is_queued j || is_running j)) js ≡ false
    → any (λ j. connected_to c j && is_queued j) js ≡ false
queued-pending c [] h = refl
queued-pending c (j ∷ js) h = ground (arith, queued-pending c js)

enqueue_due_step-IsValid :
    (now : Time) (c : SheetConnectionModel) (db : SheetTables)
    → IsValid db
    → IsValid (enqueue_due_step now c db)
unfolding enqueue_due_step
enqueue_due_step-IsValid now c db v =
    elim (Bool-cases (
      c.enabled
      && is_due_at now c
      && not (any (λ j. connected_to c.id j && (is_queued j || is_running j)) db.jobs))) [
        | inl due ↦
            rw due
              (add_job-IsValid c.id scheduled now db (queued-pending c.id db.jobs (ground arith)) v)
        | inr idle ↦ rw idle v
      ]

enqueue_due_loop-IsValid :
    (now : Time) (cs : List SheetConnectionModel) (db : SheetTables)
    → IsValid db
    → IsValid (enqueue_due_loop now cs db)
unfolding enqueue_due_loop
enqueue_due_loop-IsValid now [] db v = v
enqueue_due_loop-IsValid now (c ∷ cs) db v =
    enqueue_due_loop-IsValid now cs (enqueue_due_step now c db)
      (enqueue_due_step-IsValid now c db v)

-- So does the scheduler's round over all connections.
pub enqueue_due-IsValid :
    (now : Time) (db : SheetTables) → IsValid db → IsValid (enqueue_due_sheet_syncs now db)
unfolding enqueue_due_sheet_syncs
enqueue_due-IsValid now db v = enqueue_due_loop-IsValid now db.connections db v

below-update :
    (n k : ℕ) (f : SheetSyncJobModel → SheetSyncJobModel) (js : List SheetSyncJobModel)
    → ((j : SheetSyncJobModel) → job_id (f j) ≡ job_id j)
    → All (λ j. job_id j < n) js
    → All (λ j. job_id j < n) (update_where (λ j. j.id == k) f js)
below-update n k f js same h = All-update (λ j. job_id j < n) _ f js (λ j b. rw (same j) b) h

-- An update of one job keeps the invariant where it keeps the id, makes the job valid and does not
-- make a tried job an untried one.
pub update_job-IsValid :
    (a : SheetSyncJobModel) (f : SheetSyncJobModel → SheetSyncJobModel) (db : SheetTables)
    → ((j : SheetSyncJobModel) → job_id (f j) ≡ job_id j)
    → ((c : Uuid) (j : SheetSyncJobModel)
        → IsValidJob j
        → is_untried c (f j) ≡ true
        → is_untried c j ≡ true)
    → In a db.jobs
    → IsValidJob (f a)
    → IsValid db
    → IsValid (update_job a.id f db)
update_job-IsValid a f db same untried m p v = record {
  valid_jobs = All-update_key job_id IsValidJob f a db.jobs v.distinct m v.valid_jobs p;
  one_untried = λ c.
      le_trans
        (count-update-le IsValidJob (is_untried c) (λ j. j.id == a.id) f db.jobs (untried c)
          v.valid_jobs)
        (v.one_untried c);
  below_next = below-update db.next_id a.id f db.jobs same v.below_next;
  distinct = Distinct-update job_id a.id f db.jobs same v.distinct;
}
