-- ===== src/Jobs/Repository/Cancelling.antt =====
-- `request_cancellation` of jobs/repository.py.
use textify.Prelude.{ℕ, Bool, true, false, ◌&&◌, not, Option, none, some, leb, ◌==◌, if◌then◌else◌}
use textify.Jobs.Types.{
  Uuid, JobStatus, JobOutcome, is_queued, is_processing, queued, processing, finished, succeeded,
  failed, cancelled, processing_job, cancelled_job, TranscriptionJobCancellationResult,
  store_unavailable, already_finished, Result,
}
use textify.Jobs.Schema.{Job}
use textify.Jobs.Tx.{Store, Tx, ◌>>=◌, pure, raise, lift, transaction, update_where, select_one}
use textify.Jobs.Rows.{processing_job_from_row, cancelled_job_from_row}
use textify.Jobs.Repository.Policy.{Policy, terminal_job_is_expired}

abbrev pub Cancellation : Type 0
Cancellation = Option TranscriptionJobCancellationResult

abbrev pub cancel_queued : ℕ → Job → Job
cancel_queued now j = record j {
  status = finished;
  outcome = some cancelled;
  started_at = none;
  finished_at = some now;
  cancellation_requested = false;
}

abbrev pub flag_cancellation : Job → Job
flag_cancellation j = record j { cancellation_requested = true }

unfoldable pub cancelled_result : ℕ → Bool → Option Job → Tx Cancellation
unfolding cancelled_job_from_row
cancelled_result id first none = raise store_unavailable
cancelled_result id first (some j) = do
  snapshot ← lift (cancelled_job_from_row j)
  pure
      (some (record { internal_job_id = id; job = cancelled_job snapshot; first_accepted = first }))

unfoldable pub processing_result : ℕ → Bool → Option Job → Tx Cancellation
unfolding processing_job_from_row
processing_result id first none = raise store_unavailable
processing_result id first (some j) = do
  snapshot ← lift (processing_job_from_row j)
  pure (
      some (record { internal_job_id = id; job = processing_job snapshot; first_accepted = first }))

-- A finished job: cancelled before, or finished otherwise.
unfoldable pub finished_result : Option JobOutcome → Job → Tx Cancellation
unfolding cancelled_result
finished_result (some cancelled) j = cancelled_result j.id false (some j)
finished_result (some succeeded) j = raise already_finished
finished_result (some failed) j = raise already_finished
finished_result none j = raise store_unavailable

unfoldable pub cancel_by_status : JobStatus → ℕ → Job → Tx Cancellation
unfolding update_where select_one cancelled_result processing_result finished_result
cancel_by_status queued now j = do
  rowcount ← update_where (λ k. k.id == j.id && is_queued k.status) (cancel_queued now)
  if rowcount == 1
      then (do row ← select_one (λ k. k.id == j.id); cancelled_result j.id true row)
      else raise store_unavailable
cancel_by_status processing now j = do
  rowcount ←
      update_where (λ k. k.id == j.id && is_processing k.status && not k.cancellation_requested)
        flag_cancellation
  if leb rowcount 1
      then (do row ← select_one (λ k. k.id == j.id); processing_result j.id (rowcount == 1) row)
      else raise store_unavailable
cancel_by_status finished now j = finished_result j.outcome j

unfoldable pub cancel_row : Policy → ℕ → Option Job → Tx Cancellation
unfolding terminal_job_is_expired cancel_by_status
cancel_row p now none = pure none
cancel_row p now (some j) = do
  expired ← lift (terminal_job_is_expired p now j)
  if expired then pure none else cancel_by_status j.status now j

unfoldable pub request_cancellation : Policy → Uuid → ℕ → Store → Result Cancellation × Store
unfolding cancel_row select_one transaction
request_cancellation p public_id now s =
    transaction (do row ← select_one (λ j. j.public_id == public_id); cancel_row p now row) s
