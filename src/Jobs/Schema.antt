-- ===== src/Jobs/Schema.antt =====
-- The tables of jobs/repository.py and their CHECK, UNIQUE and PRIMARY KEY constraints.
-- Every child table has `job_id` as its key or in it, with a cascading foreign key, so a job holds
-- its child rows: at most one attempt, key and result, and lists of exclusions and segments.
pub mod Identity
pub mod Lookup
pub mod Updates
use Prim.Native.String.{count as char_count}
use textify.Prelude.{
  ℕ, zero, suc, ◌+◌, String, Bool, true, false, ◌&&◌, ◌||◌, not, ◌≡◌, Option, none, some, List, [],
  ◌∷◌, map, ◌==◌, ◌^◌, ltb, leb, is_none, is_some, all, contains, if◌then◌else◌,
}
use textify.Errors.{PublicErrorCode, nonempty, is_queue_timeout, is_stored_code}
use textify.Transcription.Fields.{
  Platform, TranscriptMethod, ResponseFieldPath, excludes, positive_duration,
}
use textify.Jobs.Types.{
  Uuid, is_uuid4, JobStatus, queued, processing, finished, JobOutcome, succeeded, failed, cancelled,
}

-- transcription_job_execution_attempt
pub record Attempt : Type 0 where
  pub execution_attempt_token : Uuid
  pub next_dispatch_at : ℕ
  pub publication_lease_owner : Option Uuid
  pub publication_lease_expires_at : Option ℕ
  pub last_dispatched_at : Option ℕ
  pub dispatch_count : ℕ
  pub worker_owner : Option Uuid
  pub last_heartbeat_at : Option ℕ
  pub claim_lease_expires_at : Option ℕ

-- transcription_job_segment
pub record SegmentRow : Type 0 where
  pub ordinal : ℕ
  pub start_seconds : ℕ
  pub end_seconds : ℕ
  pub text : String

-- transcription_job_result, with its segment rows
pub record ResultRow : Type 0 where
  pub source_platform : Option Platform
  pub source_video_id : Option String
  pub source_url : Option String
  pub source_title : Option String
  pub source_description : Option String
  pub source_channel : Option String
  pub source_duration_seconds : Option ℕ
  pub transcript_method : Option TranscriptMethod
  pub transcript_language : Option String
  pub transcript_text : Option String
  pub segments : List SegmentRow

-- transcription_job, with its child rows
pub record Job : Type 0 where
  pub id : ℕ
  pub public_id : Uuid
  pub submitted_url : String
  pub status : JobStatus
  pub outcome : Option JobOutcome
  pub submitted_at : ℕ
  pub queue_deadline_at : ℕ
  pub started_at : Option ℕ
  pub finished_at : Option ℕ
  pub cancellation_requested : Bool
  pub error_code : Option PublicErrorCode
  pub error_message : Option String
  pub attempt : Option Attempt
  pub idempotency_key : Option Uuid
  pub exclusions : List ResponseFieldPath
  pub result : Option ResultRow

-- `length(...) BETWEEN 1 AND n`
unfoldable pub length_within : ℕ → String → Bool
length_within n s = leb 1 (char_count s) && leb (char_count s) n

unfoldable pub null_or {ℓ} : {A : Type ℓ} → (A → Bool) → Option A → Bool
null_or p none = true
null_or p (some a) = p a

-- `COALESCE(started_at, submitted_at)`
unfoldable pub coalesce : Option ℕ → ℕ → ℕ
coalesce none d = d
coalesce (some a) d = a

-- transcription_job_timestamp_order_check
unfoldable pub timestamp_order_check : Job → Bool
unfolding null_or coalesce
timestamp_order_check j =
    ltb j.submitted_at j.queue_deadline_at
    && null_or (λ t. leb j.submitted_at t) j.started_at
    && null_or (λ t. leb (coalesce j.started_at j.submitted_at) t) j.finished_at

-- transcription_job_error_pair_check
unfoldable pub error_pair : Option PublicErrorCode → Option String → Bool
unfolding is_stored_code
error_pair none none = true
error_pair (some c) (some m) = is_stored_code c && nonempty m
error_pair _ _ = false

unfoldable pub no_error : Job → Bool
no_error j = is_none j.error_code && is_none j.error_message

-- the disjuncts of transcription_job_lifecycle_check for a finished job
unfoldable pub finished_check : Option JobOutcome → Job → Bool
unfolding no_error null_or is_queue_timeout
finished_check none j = false
finished_check (some succeeded) j =
    is_some j.started_at && not j.cancellation_requested && no_error j
finished_check (some failed) j =
    not j.cancellation_requested
    && is_some j.error_code
    && is_some j.error_message
    && (is_some j.started_at || null_or is_queue_timeout j.error_code)
finished_check (some cancelled) j =
    no_error j
    && ((is_none j.started_at && not j.cancellation_requested)
        || (is_some j.started_at && j.cancellation_requested))

-- transcription_job_lifecycle_check
unfoldable pub lifecycle_check : JobStatus → Job → Bool
unfolding finished_check
lifecycle_check queued j =
    is_none j.outcome
    && is_none j.started_at
    && is_none j.finished_at
    && not j.cancellation_requested
    && no_error j
lifecycle_check processing j =
    is_some j.started_at && is_none j.outcome && is_none j.finished_at && no_error j
lifecycle_check finished j = is_some j.finished_at && finished_check j.outcome j

-- The constraints on the row of `transcription_job`.
unfoldable pub row_check : Job → Bool
unfolding timestamp_order_check error_pair lifecycle_check
row_check j =
    is_uuid4 j.public_id
    && length_within 2048 j.submitted_url
    && timestamp_order_check j
    && error_pair j.error_code j.error_message
    && lifecycle_check j.status j

-- `(a IS NULL) = (b IS NULL)`
unfoldable pub null_pair {ℓ κ} : {A : Type ℓ} {B : Type κ} → Option A → Option B → Bool
null_pair none none = true
null_pair (some a) (some b) = true
null_pair _ _ = false

-- transcription_job_attempt_claim_state_check and ..._claim_lease_order_check
unfoldable pub claim_check : Option Uuid → Option ℕ → Option ℕ → Bool
claim_check none none none = true
claim_check (some w) (some h) (some e) = is_uuid4 w && leb h e
claim_check _ _ _ = false

-- transcription_job_attempt_dispatch_history_check
unfoldable pub history_check : ℕ → Option ℕ → Bool
history_check n none = n == 0
history_check n (some t) = ltb 0 n

-- The constraints on the row of `transcription_job_execution_attempt`.
unfoldable pub attempt_check : Attempt → Bool
unfolding null_pair null_or claim_check history_check
attempt_check a =
    is_uuid4 a.execution_attempt_token
    && null_pair a.publication_lease_owner a.publication_lease_expires_at
    && null_or is_uuid4 a.publication_lease_owner
    && history_check a.dispatch_count a.last_dispatched_at
    && claim_check a.worker_owner a.last_heartbeat_at a.claim_lease_expires_at

-- transcription_job_segment_values_check, and the ordinals of the primary key
unfoldable pub segment_check : SegmentRow → Bool
segment_check s = leb s.start_seconds s.end_seconds && nonempty s.text

unfoldable pub unique : List ℕ → Bool
unique [] = true
unique (x ∷ xs) = not (contains x xs) && unique xs

-- The constraints of `transcription_job_result` and `transcription_job_segment`.
-- the range of an `Integer` column, for numbers that are not negative
unfoldable pub fits_integer : ℕ → Bool
fits_integer n = ltb n (2 ^ 31)

unfoldable pub result_check : ResultRow → Bool
unfolding null_or positive_duration fits_integer
result_check r =
    positive_duration r.source_duration_seconds
    && null_or fits_integer r.source_duration_seconds
    && all (λ s. fits_integer s.ordinal) r.segments
    && null_or (length_within 255) r.source_video_id
    && null_or (length_within 2048) r.source_url
    && null_or (length_within 35) r.transcript_language
    && all segment_check r.segments
    && unique (map (λ s. s.ordinal) r.segments)

-- the primary key of `transcription_job_exclusion`
unfoldable pub distinct_paths : List ResponseFieldPath → Bool
distinct_paths [] = true
distinct_paths (p ∷ ps) = not (excludes ps p) && distinct_paths ps

-- All constraints that one job and its child rows have to meet.
unfoldable pub job_check : Job → Bool
unfolding null_or
job_check j =
    row_check j
    && null_or attempt_check j.attempt
    && null_or is_uuid4 j.idempotency_key
    && distinct_paths j.exclusions
    && null_or result_check j.result

-- The values of the unique columns, NULL left out.
unfoldable pub tokens : List Job → List Uuid
tokens [] = []
tokens (j ∷ js) =
    let rest = tokens js in
    elim j.attempt [ none ↦ rest | some a ↦ a.execution_attempt_token ∷ rest ]

unfoldable pub keys : List Job → List Uuid
keys [] = []
keys (j ∷ js) = let rest = keys js in elim j.idempotency_key [ none ↦ rest | some k ↦ k ∷ rest ]

-- All constraints of the schema.
unfoldable pub schema_check : List Job → Bool
schema_check js =
    all job_check js
    && unique (map (λ j. j.id) js)
    && unique (map (λ j. j.public_id) js)
    && unique (tokens js)
    && unique (keys js)
