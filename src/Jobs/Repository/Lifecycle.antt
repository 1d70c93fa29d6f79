-- ===== src/Jobs/Repository/Lifecycle.antt =====
-- The lifecycle of a Transcription Job as a state machine over its row: the abstract specification
-- that the transactions of jobs/repository.py implement.
pub mod Commits
pub mod Claims
pub mod Publications
pub mod Deliveries
pub mod Requests
pub mod Recoveries
pub mod Refinement
use textify.Prelude.{
  ℕ, ◌+◌, ◌-◌, String, Bool, true, false, not, ◌≡◌, refl, Option, some, List, [], ◌∷◌, All,
  All-pure, arith, if◌then◌else◌, is_some, ◌&&◌, length, ◌≤◌,
}
use textify.Errors.{PublicErrorCode}
use textify.Jobs.Types.{Uuid, NewQueuedTranscriptionJob, is_queued, is_processing, is_finished}
use textify.Jobs.Schema.{Attempt, Job, ResultRow}
use textify.Jobs.Tx.{Store, update_rows}
use textify.Jobs.Tx.Updates.{patch}
use textify.Jobs.Repository.Policy.{
  Policy, is_overdue, is_eligible, set_attempt, time_out, fail_with, cleared,
}
use textify.Jobs.Repository.Admission.{Fresh, new_job, count_outstanding_jobs}
use textify.Jobs.Repository.Claiming.{started, owned, renewed}
use textify.Jobs.Repository.Steps.{Call, delete}
use textify.Jobs.Repository.Cancelling.{cancel_queued, flag_cancellation}
use textify.Jobs.Repository.Publishing.{cancel_claimed, succeed}

-- An update of the columns of an attempt that concern its publication only.
pub record OnPublication (f : Attempt → Attempt) : Type 0 where
  pub same_token : (a : Attempt) → (f a).execution_attempt_token ≡ a.execution_attempt_token
  pub same_owner : (a : Attempt) → (f a).worker_owner ≡ a.worker_owner
  pub same_lease : (a : Attempt) → (f a).claim_lease_expires_at ≡ a.claim_lease_expires_at

-- The edges of the machine.
pub data Move (j k : Job) : Type 0 where
  stays : k ≡ j → Move j k
  delivers : (f : Attempt → Attempt) → OnPublication f → k ≡ set_attempt f j → Move j k
  renews :
      (now expires : ℕ)
      → is_processing j.status ≡ true
      → k ≡ set_attempt (renewed now expires) j
      → Move j k
  times_out : (now : ℕ) → is_overdue now j ≡ true → k ≡ time_out now j → Move j k
  starts :
      (worker : Uuid) (now expires : ℕ)
      → is_eligible now j ≡ true
      → k ≡ set_attempt (owned worker now expires) (started now j)
      → Move j k
  withdraws : (now : ℕ) → is_queued j.status ≡ true → k ≡ cancel_queued now j → Move j k
  flags :
      is_processing j.status ≡ true
      → j.cancellation_requested ≡ false
      → k ≡ flag_cancellation j
      → Move j k
  cancels :
      (now : ℕ)
      → is_processing j.status ≡ true
      → j.cancellation_requested ≡ true
      → k ≡ set_attempt cleared (cancel_claimed now j)
      → Move j k
  fails :
      (code : PublicErrorCode) (message : String) (now : ℕ)
      → is_processing j.status ≡ true
      → j.cancellation_requested ≡ false
      → k ≡ set_attempt cleared (fail_with code message now j)
      → Move j k
  succeeds :
      (r : ResultRow) (now : ℕ)
      → is_processing j.status ≡ true
      → j.cancellation_requested ≡ false
      → k ≡ record (set_attempt cleared (succeed now j)) { result = some r }
      → Move j k

-- A new job, as admission writes it.
pub record IsNew (p : Policy) (k : Job) : Type 0 where
  pub now : ℕ
  pub fresh : Fresh
  pub request : NewQueuedTranscriptionJob
  pub id : ℕ
  pub written : k ≡ new_job p now fresh request id

-- How many jobs admission may add.
unfoldable pub room : Policy → Store → ℕ
unfolding count_outstanding_jobs
room p s = p.maximum_outstanding_jobs - count_outstanding_jobs s

-- A row that was finished a retention ago, or earlier.
pub record IsPast (p : Policy) (now : ℕ) (j : Job) : Type 0 where
  pub ended : is_finished j.status ≡ true
  pub at : ℕ
  pub ended_at : j.finished_at ≡ some at
  pub old : at + p.terminal_retention ≤ now

-- The rows that a call may remove: only a cleanup removes any, and only such as are past their
-- retention at its own clock reading.
unfoldable pub Retires : Policy → Call → Job → Type 0
Retires p (delete now) j = IsPast p now j
Retires p _ j = ⊥

-- The rows of a store after a call: each row made a move, or was one that may go and is gone; new
-- jobs, as many as there is room for, stand at the end.
pub data Evolves (p : Policy) (room : ℕ) (gone : Job → Type 0) : List Job → List Job → Type 0 where
  done : (ks : List Job) → All (IsNew p) ks → length ks ≤ room → Evolves p room gone [] ks
  keep :
      {js ks : List Job} (j k : Job)
      → Move j k
      → Evolves p room gone js ks
      → Evolves p room gone (j ∷ js) (k ∷ ks)
  drop :
      {js ks : List Job} (j : Job)
      → gone j
      → Evolves p room gone js ks
      → Evolves p room gone (j ∷ js) ks

-- No row may go.
abbrev pub Never : Job → Type 0
Never j = ⊥

pub Evolves-refl :
    {room : ℕ} {gone : Job → Type 0} (p : Policy) (js : List Job) → Evolves p room gone js js
Evolves-refl p [] = done [] tt (omega arith)
Evolves-refl p (j ∷ js) = keep j j (stays refl) (Evolves-refl p js)

-- Every row makes the move that an update makes of it.
pub Evolves-patch :
    {room : ℕ} (p : Policy) (test : Job → Bool) (f : Job → Job) (js : List Job)
    → All (λ j. Move j (patch test f j)) js
    → Evolves p room Never js (update_rows test f js)
unfolding update_rows
Evolves-patch p test f [] h = done [] tt (omega arith)
Evolves-patch p test f (j ∷ js) h = keep j (patch test f j) h.0 (Evolves-patch p test f js h.1)

Move-patch :
    (test : Job → Bool) (f : Job → Job) (j : Job)
    → (test j ≡ true → Move j (f j))
    → Move j (patch test f j)
Move-patch test f j h = go (test j) h
  where
    go : (b : Bool) → (b ≡ true → Move j (f j)) → Move j (if b then f j else j)
    go true k = k refl
    go false k = stays refl

-- An update whose every touched row makes a move.
pub Evolves-update :
    {room : ℕ} (p : Policy) (test : Job → Bool) (f : Job → Job) (js : List Job)
    → ((j : Job) → test j ≡ true → Move j (f j))
    → Evolves p room Never js (update_rows test f js)
Evolves-update p test f js h =
    Evolves-patch p test f js (All-pure _ js (λ j. Move-patch test f j (h j)))
