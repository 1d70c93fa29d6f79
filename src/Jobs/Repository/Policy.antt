-- ===== src/Jobs/Repository/Policy.antt =====
-- The constructor of `PostgresTranscriptionJobRepository`, and the tests that its methods share.
-- A reading of the clock in a transaction is an argument `now` of the method.
use textify.Prelude.{
  ℕ, ◌+◌, String, Bool, false, ◌&&◌, not, none, some, ltb, leb, ◌==◌, null_eq, null_gt,
  if◌then◌else◌,
}
use textify.Errors.{PublicErrorCode, queue_timeout as queue_timeout_code}
use textify.Jobs.Types.{
  is_queued, is_finished, finished, failed, JobDispatch, ExecutionClaim, Result, ok, require, ◌>>=◌,
}
use textify.Jobs.Rows.{datetime_from_row}
use textify.Jobs.Schema.{Attempt, Job}

pub record Policy : Type 0 where
  pub maximum_outstanding_jobs : ℕ
  pub queue_timeout : ℕ
  pub terminal_retention : ℕ

-- `__init__`
unfoldable pub make_policy : ℕ → ℕ → ℕ → Result Policy
unfolding require
make_policy jobs timeout retention = require (ltb 0 jobs && ltb 0 timeout && ltb 0 retention) (
    ok (record {
      maximum_outstanding_jobs = jobs;
      queue_timeout = timeout;
      terminal_retention = retention;
    }))

-- status = 'queued' AND cancellation_requested IS FALSE
unfoldable pub is_waiting : Job → Bool
unfolding is_queued
is_waiting j = is_queued j.status && not j.cancellation_requested

-- ... AND queue_deadline_at <= now
unfoldable pub is_overdue : ℕ → Job → Bool
unfolding is_waiting
is_overdue now j = is_waiting j && leb j.queue_deadline_at now

-- ... AND queue_deadline_at > now
unfoldable pub is_eligible : ℕ → Job → Bool
unfolding is_waiting
is_eligible now j = is_waiting j && ltb now j.queue_deadline_at

-- A condition on the attempt of a job: EXISTS, or a join.
unfoldable pub with_attempt : (Attempt → Bool) → Job → Bool
with_attempt p j = elim j.attempt [ none ↦ false | some a ↦ p a ]

-- The attempt updated, the other rows kept.
unfoldable pub set_attempt : (Attempt → Attempt) → Job → Job
set_attempt f j = record j { attempt = elim j.attempt [ none ↦ none | some a ↦ some (f a) ] }

-- The row and its attempt are those of the dispatch.
unfoldable pub matches_dispatch : JobDispatch → Job → Bool
unfolding with_attempt
matches_dispatch d j =
    j.id == d.internal_job_id
    && with_attempt (λ a. a.execution_attempt_token == d.execution_attempt_token) j

-- The attempt is claimed by this claim.
unfoldable pub matches_claim : ExecutionClaim → Job → Bool
unfolding with_attempt
matches_claim c j =
    j.id == c.dispatch.internal_job_id
    && with_attempt
        (λ a.
          a.execution_attempt_token == c.dispatch.execution_attempt_token
          && null_eq a.worker_owner c.worker_owner)
        j

-- The subquery `active_claim` of the publications.
unfoldable pub is_active_claim : ExecutionClaim → ℕ → Job → Bool
unfolding with_attempt
is_active_claim c now j =
    j.id == c.dispatch.internal_job_id
    && with_attempt
        (λ a.
          a.execution_attempt_token == c.dispatch.execution_attempt_token
          && null_eq a.worker_owner c.worker_owner
          && null_gt a.claim_lease_expires_at now)
        j

-- The values of a failed terminal transition.
unfoldable pub fail_with : PublicErrorCode → String → ℕ → Job → Job
fail_with code message now j = record j {
  status = finished;
  outcome = some failed;
  finished_at = some now;
  error_code = some code;
  error_message = some message;
}

-- ... with `QueueTimeoutError`
unfoldable pub time_out : ℕ → Job → Job
unfolding fail_with
time_out =
    fail_with queue_timeout_code
      "The transcription job did not begin processing before its queue deadline."

-- The values that clear an execution claim.
abbrev pub cleared : Attempt → Attempt
cleared a = record a {
  worker_owner = none;
  last_heartbeat_at = none;
  claim_lease_expires_at = none;
}

-- The values that release a publication lease.
abbrev pub released : Attempt → Attempt
released a = record a { publication_lease_owner = none; publication_lease_expires_at = none }

-- `_terminal_job_is_expired`: `finished_at <= now - terminal_retention`, the retention moved to
-- the other side since subtraction of naturals stops at 0.
unfoldable pub terminal_job_is_expired : Policy → ℕ → Job → Result Bool
unfolding is_finished datetime_from_row
terminal_job_is_expired p now j =
    if is_finished j.status
    then (do
      finished_at ← datetime_from_row j.finished_at
      ok (leb (finished_at + p.terminal_retention) now))
    else ok false
