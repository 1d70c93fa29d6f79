-- ===== src/Jobs/Repository/Invariant/Sound.antt =====
-- Each guarded transition of one row keeps `IsSound`.
use textify.Prelude.{ℕ, String, true, ◌≡◌, some, arith}
use textify.Errors.{PublicErrorCode}
use textify.Jobs.Types.{Uuid, is_queued, is_processing, is_finished, NewQueuedTranscriptionJob}
use textify.Jobs.Schema.{Attempt, Job, ResultRow}
use textify.Jobs.Rows.{is_succeeded}
use textify.Jobs.Repository.Policy.{
  Policy, with_attempt, set_attempt, is_overdue, is_eligible, time_out, fail_with, cleared,
}
use textify.Jobs.Repository.Admission.{Fresh, new_job}
use textify.Jobs.Repository.Claiming.{started, owned}
use textify.Jobs.Repository.Cancelling.{cancel_queued, flag_cancellation}
use textify.Jobs.Repository.Publishing.{cancel_claimed, succeed}
use textify.Jobs.Repository.Invariant.{IsSound}

pub new_job-IsSound :
    (p : Policy) (now : ℕ) (fresh : Fresh) (new : NewQueuedTranscriptionJob) (id : ℕ)
    → IsSound (new_job p now fresh new id)
unfolding new_job with_attempt is_processing is_succeeded is_finished
new_job-IsSound p now fresh new id = ground arith

pub time_out-IsSound :
    (now : ℕ) (j : Job) → is_overdue now j ≡ true → IsSound j → IsSound (time_out now j)
unfolding is_overdue time_out with_attempt is_processing is_succeeded is_finished
time_out-IsSound now j h v = ground arith

-- An update of the attempt that keeps its owner.
pub set_attempt-IsSound :
    (f : Attempt → Attempt) (j : Job)
    → ((a : Attempt) → (f a).worker_owner ≡ a.worker_owner)
    → IsSound j
    → IsSound (set_attempt f j)
unfolding set_attempt with_attempt
set_attempt-IsSound f j h v = grind arith

-- A queued job that is started and owned in one transaction.
pub started-IsSound :
    (w : Uuid) (now expires : ℕ) (j : Job)
    → is_eligible now j ≡ true
    → IsSound j
    → IsSound (set_attempt (owned w now expires) (started now j))
unfolding is_eligible set_attempt with_attempt is_processing is_succeeded is_finished
started-IsSound w now expires j h v = ground arith

-- A processing job that is finished without a result and cleared in one transaction.
pub fail-IsSound :
    (code : PublicErrorCode) (message : String) (now : ℕ) (j : Job)
    → is_processing j.status ≡ true
    → IsSound j
    → IsSound (set_attempt cleared (fail_with code message now j))
unfolding fail_with set_attempt with_attempt is_processing is_succeeded is_finished
fail-IsSound code message now j h v = ground arith

pub cancel-IsSound :
    (now : ℕ) (j : Job)
    → is_processing j.status ≡ true
    → IsSound j
    → IsSound (set_attempt cleared (cancel_claimed now j))
unfolding set_attempt with_attempt is_processing is_succeeded is_finished
cancel-IsSound now j h v = ground arith

pub succeed-IsSound :
    (r : ResultRow) (now : ℕ) (j : Job)
    → is_processing j.status ≡ true
    → IsSound j
    → IsSound (record (set_attempt cleared (succeed now j)) { result = some r })
unfolding set_attempt with_attempt is_processing is_succeeded is_finished
succeed-IsSound r now j h v = ground arith

pub cancel_queued-IsSound :
    (now : ℕ) (j : Job) → is_queued j.status ≡ true → IsSound j → IsSound (cancel_queued now j)
unfolding with_attempt is_queued is_processing is_succeeded is_finished
cancel_queued-IsSound now j h v = ground arith

pub flag_cancellation-IsSound : (j : Job) → IsSound j → IsSound (flag_cancellation j)
unfolding with_attempt
flag_cancellation-IsSound j v = ground arith
