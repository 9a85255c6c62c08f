-- ===== src/Jobs/Claims.antt =====
-- Claiming a job, and how it ends.
use bond_trading.Prelude.{
  ◌+◌, ◌≤◌, ◌≡◌, ◌≢◌, refl, subst, inl, inr, true, List, [], ◌∷◌, Option, none, some, All, leb, ltb,
  arith, Option-cases, Bool-cases, some_injective,
}
use native.Mathlib.Nat.{le_trans, le_refl}
use bond_trading.Prelude.Results.{Result, ok, err}
use bond_trading.Prelude.Rows.{In, All-In, In-update}
use bond_trading.Prelude.Texts.{Text}
use bond_trading.Database.{
  Uuid, Time, SheetSyncJobModel, SheetSyncJobStatus, queued, running, succeeded, failed,
}
use bond_trading.Jobs.{
  SheetTables, is_claimable, earlier, earliest_claimable, start_job, update_job,
  claim_next_sheet_sync_job, max_attempts, fail_job, record_sheet_sync_failure, SyncReport,
  complete_job, complete_sheet_sync, finish_job, process_one_job, enqueue_due_sheet_syncs,
}
use bond_trading.Jobs.Invariant.{
  IsValidJob, FitsStatus, is_untried, IsValid, job_id, update_job-IsValid, enqueue_due-IsValid,
}

-- No claimable job was created before the one that is chosen.
abbrev pub NotLater : Time → SheetSyncJobModel → SheetSyncJobModel → Type 0
NotLater now j k = is_claimable now k ≡ true → j.created_at ≤ k.created_at

NotLater-weaken :
    (now : Time) (i j : SheetSyncJobModel) (js : List SheetSyncJobModel)
    → i.created_at ≤ j.created_at
    → All (NotLater now j) js
    → All (NotLater now i) js
NotLater-weaken now i j [] h a = tt
NotLater-weaken now i j (k ∷ js) h a = ((λ e. le_trans h (a.0 e)), NotLater-weaken now i j js h a.1)

some_earlier :
    (now : Time) (k : SheetSyncJobModel) (o : Option SheetSyncJobModel) → earlier k o ≢ none
unfolding earlier
some_earlier now k none = λ e. cc
some_earlier now k (some m) = λ e. ground arith

none_claimable :
    (now : Time) (i : SheetSyncJobModel) (js : List SheetSyncJobModel)
    → earliest_claimable now js ≡ none
    → All (NotLater now i) js
unfolding earliest_claimable
none_claimable now i [] h = tt
none_claimable now i (j ∷ js) h = elim (Bool-cases (is_claimable now j)) [
  | inl hit ↦
      absurd (some_earlier now j (earliest_claimable now js) (rw (hit, earliest_claimable) at h))
  | inr miss ↦ (λ e. absurd (cc), none_claimable now i js (rw (miss, earliest_claimable) at h))
]

-- The job is in the list, claimable, and none that is claimable is older.
abbrev pub IsChosen : Time → List SheetSyncJobModel → SheetSyncJobModel → Type 0
IsChosen now js j = In j js × (is_claimable now j ≡ true) × All (NotLater now j) js

IsChosen-earlier :
    (now : Time) (k m : SheetSyncJobModel) (js : List SheetSyncJobModel)
    → is_claimable now k ≡ true
    → IsChosen now js m
    → (j : SheetSyncJobModel) → earlier k (some m) ≡ some j
    → IsChosen now (k ∷ js) j
unfolding earlier
IsChosen-earlier now k m js hit c j h = elim (Bool-cases (leb k.created_at m.created_at)) [
  | inl first ↦
      let le : k.created_at ≤ m.created_at = ground arith in
      subst (IsChosen now (k ∷ js)) (some_injective (rw (first, earlier) at h))
        (inl refl, hit, (λ _. le_refl _, NotLater-weaken now k m js le c.2))
  | inr second ↦
      let le : m.created_at ≤ k.created_at = ground arith in
      subst (IsChosen now (k ∷ js)) (some_injective (rw (second, earlier) at h))
        (inr c.0, c.1, (λ _. le, c.2))
]

earliest-IsChosen :
    (now : Time) (js : List SheetSyncJobModel) (j : SheetSyncJobModel)
    → earliest_claimable now js ≡ some j
    → IsChosen now js j
unfolding earliest_claimable earlier
earliest-IsChosen now [] j h = absurd (cc)
earliest-IsChosen now (k ∷ js) j h = elim (Bool-cases (is_claimable now k)) [
  | inl hit ↦ elim (Option-cases (earliest_claimable now js)) [
    | inl alone ↦
        subst (IsChosen now (k ∷ js))
          (some_injective (rw alone at (rw (hit, earliest_claimable) at h)))
          (inl refl, hit, (λ _. le_refl _, none_claimable now k js alone))
    | inr (m, e) ↦
        IsChosen-earlier now k m js hit (earliest-IsChosen now js m e) j
          (rw e at (rw (hit, earliest_claimable) at h))
  ]
  | inr miss ↦
      let c = earliest-IsChosen now js j (rw (miss, earliest_claimable) at h) in
      (inr c.0, c.1, (λ e. absurd (cc), c.2))
]

queued_claimable :
    (now : Time) (j : SheetSyncJobModel) → is_claimable now j ≡ true → j.status ≡ queued
queued_claimable now j h = ground arith

start_job-IsValidJob :
    (now : Time) (j : SheetSyncJobModel)
    → IsValidJob j
    → j.status ≡ queued
    → IsValidJob (start_job now j)
start_job-IsValidJob now j v q =
    let w : FitsStatus queued j = subst (λ s. FitsStatus s j) q v in
    (omega arith, omega arith, refl)

fail_job-IsValidJob :
    (now : Time) (message : Text) (j : SheetSyncJobModel)
    → FitsStatus running j
    → IsValidJob (fail_job now message j)
fail_job-IsValidJob now message j v = elim (Bool-cases (ltb j.attempt_count max_attempts)) [
  | inl retry ↦ rw retry (ground arith, refl)
  | inr last ↦ rw last (ground arith, refl)
]

untried_valid :
    (c : Uuid) (s : SheetSyncJobStatus) (j : SheetSyncJobModel)
    → j.status ≡ s
    → FitsStatus s j
    → j.attempt_count ≡ 0
    → j.status ≡ queued
untried_valid c queued j e v z = e
untried_valid c running j e v z = absurd (omega arith)
untried_valid c succeeded j e v z = absurd (omega arith)
untried_valid c failed j e v z = absurd (omega arith)

fail_job-untried :
    (now : Time) (message : Text) (c : Uuid) (j : SheetSyncJobModel)
    → IsValidJob j
    → is_untried c (fail_job now message j) ≡ true
    → is_untried c j ≡ true
fail_job-untried now message c j v h = elim (Bool-cases (ltb j.attempt_count max_attempts)) [
  | inl retry ↦
      let p = rw retry at h in
      let z : j.attempt_count ≡ 0 = ground arith in
      let q = untried_valid c j.status j refl v z in ground arith
  | inr last ↦ let p = rw last at h in absurd (ground arith)
]

-- What holds of a claimed job and of the tables after the claim.
abbrev pub IsClaimed : Time → SheetTables → SheetSyncJobModel × SheetTables → Type 0
IsClaimed now db (j, after) =
    IsValid after
    × IsChosen now db.jobs j
    × In (record j { status = running; started_at = some now; attempt_count = j.attempt_count + 1 })
        after.jobs
    × (j.status ≡ queued)
    × IsValidJob (start_job now j)

start-IsClaimed :
    (now : Time) (db : SheetTables) (j : SheetSyncJobModel)
    → IsValid db
    → IsChosen now db.jobs j
    → IsClaimed now db (j, update_job j.id (start_job now) db)
start-IsClaimed now db j v c =
    let q = queued_claimable now j c.1 in
    let p = start_job-IsValidJob now j (All-In IsValidJob j db.jobs v.valid_jobs c.0) q in
    (
      update_job-IsValid j (start_job now) db (λ _. refl) (λ k x _ h. absurd (ground arith)) c.0 p
          v,
      c,
      In-update job_id (start_job now) j db.jobs c.0,
      q,
      p,
    )

fail_job-id :
    (now : Time) (message : Text) (j : SheetSyncJobModel)
    → job_id (fail_job now message j) ≡ job_id j
fail_job-id now message j = ground arith

-- A claim keeps the invariant: it takes a queued job whose time has come, none of which was created
-- earlier, and leaves it running since now, with one attempt more and its other fields as they
-- were.
pub claim-IsClaimed :
    (now : Time) (db : SheetTables) (r : SheetSyncJobModel × SheetTables)
    → IsValid db
    → claim_next_sheet_sync_job now db ≡ some r
    → IsClaimed now db r
unfolding claim_next_sheet_sync_job
claim-IsClaimed now db r v h = elim (Option-cases (earliest_claimable now db.jobs)) [
  | inl idle ↦ absurd (cc (rw (idle, claim_next_sheet_sync_job) at h))
  | inr (k, e) ↦
      subst (IsClaimed now db) (some_injective (rw (e, claim_next_sheet_sync_job) at h))
        (start-IsClaimed now db k v (earliest-IsChosen now db.jobs k e))
]

-- However the run of a claimed job ends, the invariant holds after it.
pub finish_job-IsValid :
    (now : Time) (j : SheetSyncJobModel) (result : Result Text SyncReport) (db : SheetTables)
    → IsValid db
    → j.status ≡ running
    → IsValidJob j
    → In j db.jobs
    → IsValid (finish_job now j result db)
unfolding finish_job complete_sheet_sync record_sheet_sync_failure
finish_job-IsValid now j (ok r) db v e p m =
    let w : FitsStatus running j = subst (λ s. FitsStatus s j) e p in
    update_job-IsValid j (complete_job now r) _ (λ _. refl) (λ c x _ h. absurd (ground arith)) m
      (w.0, w.1, refl)
      (record {
        valid_jobs = v.valid_jobs;
        one_untried = v.one_untried;
        below_next = v.below_next;
        distinct = v.distinct;
      })
finish_job-IsValid now j (err message) db v e p m =
    let w : FitsStatus running j = subst (λ s. FitsStatus s j) e p in
    update_job-IsValid j (fail_job now message) _ (fail_job-id now message)
      (fail_job-untried now message) m (fail_job-IsValidJob now message j w)
      (record {
        valid_jobs = v.valid_jobs;
        one_untried = v.one_untried;
        below_next = v.below_next;
        distinct = v.distinct;
      })

-- One round of the worker keeps the invariant, whatever the run of the job comes to: every job's
-- fields fit its status, no job is tried more than three times, no connection has two queued jobs
-- that were never tried, and ids stay distinct.
pub process_one_job-IsValid :
    (execute : SheetSyncJobModel → Result Text SyncReport) (now : Time) (db : SheetTables)
    → IsValid db
    → IsValid (process_one_job execute now db).1
unfolding process_one_job
process_one_job-IsValid execute now db v =
    let due = enqueue_due-IsValid now db v in
    elim (Option-cases (claim_next_sheet_sync_job now (enqueue_due_sheet_syncs now db))) [
      | inl idle ↦ rw (idle, process_one_job) due
      | inr (r, e) ↦
          let c = claim-IsClaimed now (enqueue_due_sheet_syncs now db) r due e in
          rw (e, process_one_job)
            (finish_job-IsValid now (start_job now r.0) (execute (start_job now r.0)) r.1 c.0 refl
              c.4 c.2)
    ]
