-- ===== src/Jobs/Repository/Publishing.antt =====
-- `publish_cancelled`, `publish_success`, `publish_failure` and `_clear_execution_claim` of
-- jobs/repository.py.
use textify.Prelude.{
  ℕ, String, Bool, true, false, ◌&&◌, not, some, List, [], ◌∷◌, ◌==◌, is_none, if◌then◌else◌,
}
use textify.Errors.{PublicErrorCode, ErrorDetail}
use textify.Transcription.Fields.{TranscriptionResponse}
use textify.Jobs.Types.{
  is_processing, finished, succeeded, cancelled, ExecutionClaim, store_unavailable, value_error,
  Result, ok, err,
}
use textify.Jobs.Schema.{ResultRow, Job}
use textify.Jobs.Tx.{
  Store, Tx, ◌>>=◌, ◌>>◌, pure, raise, lift, transaction, update_where, update_returning,
}
use textify.Jobs.Rows.{validate_response, validate_error_detail, result_values, segment_values}
use textify.Jobs.Repository.Policy.{set_attempt, matches_claim, is_active_claim, fail_with, cleared}
use textify.Jobs.Repository.Claiming.{valid_claim}

-- The row that `_clear_execution_claim` expects.
unfoldable pub cleared_row : ExecutionClaim → List Job → Result (Unit {0})
cleared_row c [] = err store_unavailable
cleared_row c (j ∷ []) = if j.id == c.dispatch.internal_job_id then ok tt else err store_unavailable
cleared_row c (j ∷ k ∷ js) = err store_unavailable

-- `_clear_execution_claim`
unfoldable pub clear_execution_claim : ExecutionClaim → Tx (Unit {0})
unfolding update_returning matches_claim set_attempt cleared_row
clear_execution_claim c = do
  rows ← update_returning (matches_claim c) (set_attempt cleared)
  lift (cleared_row c rows)

-- The guard of a terminal transition: the job runs under a live claim, and its cancellation flag
-- is as the outcome needs it.
unfoldable pub may_finish : Bool → ExecutionClaim → ℕ → Job → Bool
unfolding is_active_claim is_processing
may_finish requested c now j =
    is_processing j.status
    && (if requested then j.cancellation_requested else not j.cancellation_requested)
    && is_active_claim c now j

-- The transition, then the claim cleared and the further inserts.
unfoldable pub finish_claim : Bool → (Job → Job) → ExecutionClaim → ℕ → Tx (Unit {0}) → Tx Bool
unfolding update_where may_finish clear_execution_claim
finish_claim requested f c now inserts = do
  rowcount ← update_where (may_finish requested c now) f
  if rowcount == 1 then (do clear_execution_claim c; inserts; pure true) else pure false

abbrev pub cancel_claimed : ℕ → Job → Job
cancel_claimed now j = record j {
  status = finished;
  outcome = some cancelled;
  finished_at = some now;
}

abbrev pub succeed : ℕ → Job → Job
succeed now j = record j { status = finished; outcome = some succeeded; finished_at = some now }

unfoldable pub publish_cancelled : ExecutionClaim → ℕ → Store → Result Bool × Store
unfolding finish_claim transaction valid_claim
publish_cancelled c now s =
    if valid_claim c
    then transaction (finish_claim true (cancel_claimed now) c now (pure tt)) s
    else (err value_error, s)

-- INSERT INTO transcription_job_result and transcription_job_segment: a second result of a job
-- would break the primary key.
unfoldable pub insert_result : ExecutionClaim → ResultRow → Tx (Unit {0})
unfolding update_where
insert_result c r = do
  rowcount ←
      update_where (λ j. j.id == c.dispatch.internal_job_id && is_none j.result)
        (λ j. record j { result = some r })
  if rowcount == 1 then pure tt else raise store_unavailable

unfoldable pub publish_valid :
    ExecutionClaim → Result TranscriptionResponse → ℕ → Store → Result Bool × Store
unfolding finish_claim transaction insert_result result_values segment_values
publish_valid c (err e) now s = (err e, s)
publish_valid c (ok r) now s =
    transaction
      (finish_claim false (succeed now) c now
        (insert_result c (result_values r (segment_values r))))
      s

unfoldable pub publish_success :
    ExecutionClaim → TranscriptionResponse → ℕ → Store → Result Bool × Store
unfolding publish_valid validate_response valid_claim
publish_success c r now s =
    if valid_claim c then publish_valid c (validate_response r) now s else (err value_error, s)

unfoldable pub publish_error : ExecutionClaim → Result ErrorDetail → ℕ → Store → Result Bool × Store
unfolding finish_claim transaction fail_with
publish_error c (err e) now s = (err e, s)
publish_error c (ok d) now s =
    transaction (finish_claim false (fail_with d.code d.message now) c now (pure tt)) s

unfoldable pub publish_failure :
    ExecutionClaim → PublicErrorCode → String → ℕ → Store → Result Bool × Store
unfolding publish_error validate_error_detail valid_claim
publish_failure c code message now s =
    if valid_claim c
    then publish_error c (validate_error_detail (some code) (some message)) now s
    else (err value_error, s)
