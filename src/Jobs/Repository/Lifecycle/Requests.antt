-- ===== src/Jobs/Repository/Lifecycle/Requests.antt =====
-- `create_queued` adds one queued row at most; `request_cancellation` withdraws or flags one.
use textify.Prelude.{
  ◌≤◌, ℕ, Bool, true, false, not, ◌&&◌, ◌≡◌, refl, Option, none, some, List, [], ◌∷◌, ◌++◌, ◌==◌,
  leb, and-eq-true, null_eq, count, arith,
}
use textify.Jobs.Types.{
  Uuid, is_uuid4, JobStatus, JobOutcome, queued, processing, finished, succeeded, failed, cancelled,
  is_queued, is_processing, NewQueuedTranscriptionJob,
}
use textify.Jobs.Schema.{Job}
use textify.Jobs.Rows.{accepted_job_from_row, cancelled_job_from_row, processing_job_from_row}
use textify.Jobs.Tx.{Store}
use textify.Jobs.Tx.Chains.{After, After-if, After-lift, After-value, After-select_one}
use textify.Jobs.Repository.Policy.{Policy, terminal_job_is_expired}
use textify.Jobs.Repository.Lifecycle.{
  Never, room, stays, withdraws, flags, IsNew, Evolves, done, keep, Evolves-update,
}
use textify.Jobs.Repository.Lifecycle.Commits.{
  Evolved, Evolved-refl, commit-Evolved, guarded-Evolved,
}
use textify.Jobs.Repository.Admission.{
  count_outstanding_jobs, Fresh, new_job, replay_or_admit, create_queued_tx, create_queued,
}
use textify.Jobs.Repository.Cancelling.{
  cancel_queued, flag_cancellation, cancelled_result, processing_result, finished_result,
  cancel_by_status, cancel_row, request_cancellation,
}

appended :
    {room : ℕ} (p : Policy) (js : List Job) (k : Job)
    → IsNew p k
    → 1 ≤ room
    → Evolves p room Never js (js ++ k ∷ [])
appended p [] k new one = done (k ∷ []) (new, tt) (ground (arith, one))
appended p (j ∷ js) k new one = keep j j (stays refl) (appended p js k new one)

module _ (p : Policy) (now : ℕ) (fresh : Fresh) (new : NewQueuedTranscriptionJob) where
  inserted :
      (s : Store)
      → leb p.maximum_outstanding_jobs (count_outstanding_jobs s) ≡ false
      → Evolves p (room p s) Never s.jobs (s.jobs ++ new_job p now fresh new s.next_id ∷ [])
  unfolding room
  inserted s free =
      appended p s.jobs (new_job p now fresh new s.next_id)
        (record { now = now; fresh = fresh; request = new; id = s.next_id; written = refl })
        (ground (arith, free))

  replay_or_admit-After :
      (row : Option Job) (s : Store) → After (Evolved p s) (replay_or_admit p now fresh new row s)
  unfolding replay_or_admit
  replay_or_admit-After (some j) s = ground (
    arith,
    Evolved-refl p s,
    After-value (Evolved p s) (accepted_job_from_row j) s (Evolved-refl p s),
  )
  replay_or_admit-After none s = ground (arith, inserted s)

  pub create_queued-Evolved : (s : Store) → Evolved p s (create_queued p now fresh new s).1
  unfolding create_queued create_queued_tx
  create_queued-Evolved s = guarded-Evolved p (is_uuid4 new.idempotency_key) s _ λ _.
      After-select_one (Evolved p s) (λ j. null_eq j.idempotency_key new.idempotency_key)
        (replay_or_admit p now fresh new) s λ row _. replay_or_admit-After row s

module _ (P : Store → Type 0) where
  cancelled_result-After :
      (id : ℕ) (first : Bool) (row : Option Job) (s : Store)
      → P s
      → After P (cancelled_result id first row s)
  unfolding cancelled_result
  cancelled_result-After id first none s h = tt
  cancelled_result-After id first (some j) s h =
      After-lift P (cancelled_job_from_row j) _ s (λ _ _. h)

  processing_result-After :
      (id : ℕ) (first : Bool) (row : Option Job) (s : Store)
      → P s
      → After P (processing_result id first row s)
  unfolding processing_result
  processing_result-After id first none s h = tt
  processing_result-After id first (some j) s h =
      After-lift P (processing_job_from_row j) _ s (λ _ _. h)

  finished_result-After :
      (o : Option JobOutcome) (j : Job) (s : Store) → P s → After P (finished_result o j s)
  unfolding finished_result
  finished_result-After (some cancelled) j s h = cancelled_result-After j.id false (some j) s h
  finished_result-After (some succeeded) j s h = tt
  finished_result-After (some failed) j s h = tt
  finished_result-After none j s h = tt

-- The tests of the two updates.
abbrev pub withdrawable : ℕ → Job → Bool
withdrawable i k = k.id == i && is_queued k.status

abbrev pub flaggable : ℕ → Job → Bool
flaggable i k = k.id == i && is_processing k.status && not k.cancellation_requested

flaggable-guard :
    (i : ℕ) (k : Job)
    → flaggable i k ≡ true
    → (is_processing k.status ≡ true) × (k.cancellation_requested ≡ false)
flaggable-guard i k h = ground arith

cancel_by_status-After :
    (p : Policy) (st : JobStatus) (now : ℕ) (j : Job) (s : Store)
    → After (Evolved p s) (cancel_by_status st now j s)
unfolding cancel_by_status
cancel_by_status-After p queued now j s =
    After-if (Evolved p s) (count (withdrawable j.id) s.jobs == 1) _ _ _
      (λ _.
        After-select_one (Evolved p s) (λ k. k.id == j.id) (cancelled_result j.id true) _
          λ row _. cancelled_result-After (Evolved p s) j.id true row _ (
            Evolves-update p (withdrawable j.id) (cancel_queued now) s.jobs
              (λ k e. withdraws now (and-eq-true (k.id == j.id) (is_queued k.status) e).1 refl)))
      (λ _. tt)
cancel_by_status-After p processing now j s =
    After-if (Evolved p s) (leb (count (flaggable j.id) s.jobs) 1) _ _ _
      (λ _.
        After-select_one (Evolved p s) (λ k. k.id == j.id)
          (processing_result j.id (count (flaggable j.id) s.jobs == 1)) _
          λ row _.
            processing_result-After (Evolved p s) j.id (count (flaggable j.id) s.jobs == 1) row _ (
              Evolves-update p (flaggable j.id) flag_cancellation s.jobs
                (λ k e. let (run, unset) = flaggable-guard j.id k e in flags run unset refl)))
      (λ _. tt)
cancel_by_status-After p finished now j s =
    finished_result-After (Evolved p s) j.outcome j s (Evolved-refl p s)

cancel_row-After :
    (p : Policy) (now : ℕ) (row : Option Job) (s : Store)
    → After (Evolved p s) (cancel_row p now row s)
unfolding cancel_row
cancel_row-After p now none s = Evolved-refl p s
cancel_row-After p now (some j) s =
    After-lift (Evolved p s) (terminal_job_is_expired p now j) _ s λ expired _.
      After-if (Evolved p s) expired _ _ s (λ _. Evolved-refl p s)
        (λ _. cancel_by_status-After p j.status now j s)

pub request_cancellation-Evolved :
    (p : Policy) (public_id : Uuid) (now : ℕ) (s : Store)
    → Evolved p s (request_cancellation p public_id now s).1
unfolding request_cancellation
request_cancellation-Evolved p public_id now s = commit-Evolved p s _ (
    After-select_one (Evolved p s) (λ j. j.public_id == public_id) (cancel_row p now) s
      λ row _. cancel_row-After p now row s)
