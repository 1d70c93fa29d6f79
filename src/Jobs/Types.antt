-- ===== src/Jobs/Types.antt =====
-- jobs/types.py and jobs/contracts.py: the values that cross the repository, and its errors.
-- A UUID is its 128-bit number, a datetime is its microsecond count in UTC, a timedelta is a
-- number of microseconds.
use textify.Prelude.{
  ℕ, ◌/◌, ◌%◌, ◌^◌, String, Bool, true, false, ◌&&◌, Option, List, ◌==◌, if◌then◌else◌,
}
use textify.Errors.{PublicErrorCode}
use textify.Transcription.Fields.{ResponseFieldPath, TranscriptionResponse}

abbrev pub Uuid : Type 0
Uuid = ℕ

-- `UUID.version == 4`: the variant bits are 10 and the version nibble is 4.
unfoldable pub is_uuid4 : Uuid → Bool
is_uuid4 u = u / 2 ^ 62 % 4 == 2 && u / 2 ^ 76 % 16 == 4

pub data JobStatus : Type 0 where
  queued processing finished : JobStatus

pub data JobOutcome : Type 0 where
  succeeded failed cancelled : JobOutcome

unfoldable pub is_queued : JobStatus → Bool
is_queued queued = true
is_queued _ = false

unfoldable pub is_processing : JobStatus → Bool
is_processing processing = true
is_processing _ = false

unfoldable pub is_finished : JobStatus → Bool
is_finished finished = true
is_finished _ = false

pub record JobDispatch : Type 0 where
  pub internal_job_id : ℕ
  pub execution_attempt_token : Uuid

pub record ExecutionClaim : Type 0 where
  pub dispatch : JobDispatch
  pub worker_owner : Uuid

pub record ClaimHeartbeat : Type 0 where
  pub claim : ExecutionClaim
  pub cancellation_requested : Bool

pub record TranscriptionJobRequestIdentity : Type 0 where
  pub submitted_url : String
  pub exclusions : List ResponseFieldPath

pub record NewQueuedTranscriptionJob : Type 0 where
  pub request_identity : TranscriptionJobRequestIdentity
  pub idempotency_key : Uuid

pub record ClaimedTranscriptionJob : Type 0 where
  pub claim : ExecutionClaim
  pub submitted_url : String
  pub exclusions : List ResponseFieldPath

-- The constant `status` and `outcome` fields of the snapshots are their types.
pub record QueuedTranscriptionJob : Type 0 where
  pub internal_id : ℕ
  pub public_id : Uuid
  pub submitted_at : ℕ
  pub queue_deadline_at : ℕ

pub record ProcessingTranscriptionJob : Type 0 where
  pub public_id : Uuid
  pub submitted_at : ℕ
  pub started_at : ℕ
  pub cancellation_requested : Bool

pub record CancelledTranscriptionJob : Type 0 where
  pub public_id : Uuid
  pub submitted_at : ℕ
  pub started_at : Option ℕ
  pub finished_at : ℕ

pub record SucceededTranscriptionJob : Type 0 where
  pub public_id : Uuid
  pub submitted_at : ℕ
  pub started_at : ℕ
  pub finished_at : ℕ
  pub result : TranscriptionResponse

pub record FailedTranscriptionJob : Type 0 where
  pub public_id : Uuid
  pub submitted_at : ℕ
  pub started_at : Option ℕ
  pub finished_at : ℕ
  pub error_code : PublicErrorCode
  pub error_message : String

pub data TranscriptionJob : Type 0 where
  queued_job : QueuedTranscriptionJob → TranscriptionJob
  processing_job : ProcessingTranscriptionJob → TranscriptionJob
  succeeded_job : SucceededTranscriptionJob → TranscriptionJob
  failed_job : FailedTranscriptionJob → TranscriptionJob
  cancelled_job : CancelledTranscriptionJob → TranscriptionJob

-- `ProcessingTranscriptionJob | CancelledTranscriptionJob` is one of the snapshots.
pub record TranscriptionJobCancellationResult : Type 0 where
  pub internal_job_id : ℕ
  pub job : TranscriptionJob
  pub first_accepted : Bool

-- The exceptions of contracts.py, `ValueError` and `RuntimeError` of the argument and state checks,
-- `JobDispatchUnavailableError` of the publisher and `ServiceReadinessUnavailableError`.
pub data Error : Type 0 where
  capacity store_unavailable already_finished idempotency_conflict value_error : Error
  runtime_error dispatch_unavailable readiness_unavailable : Error

pub data Result {ℓ} (A : Type ℓ) : Type ℓ where
  ok : A → Result A
  err : Error → Result A

infixl 5 ◌>>=◌
abbrev pub ◌>>=◌ {ℓ κ} : {A : Type ℓ} {B : Type κ} → Result A → (A → Result B) → Result B
ok a >>= f = f a
err e >>= f = err e

-- The argument checks: raise unless the test holds.
unfoldable pub require {ℓ} : {A : Type ℓ} → Bool → Result A → Result A
require b r = if b then r else err value_error
