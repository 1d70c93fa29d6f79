-- ===== src/Jobs/Rows.antt =====
-- The row translations of jobs/repository.py: between the tables and the snapshots.
-- The columns are typed, so the checks of a value's Python type are met; the checks of its content
-- are here.
pub mod RoundTrip
pub mod Projection
pub mod Exclusions
use textify.Prelude.{
  ℕ, suc, String, Bool, true, false, ◌&&◌, not, Option, none, some, List, [], ◌∷◌, ◌==◌, leb,
  is_none, if◌then◌else◌,
}
use textify.Errors.{PublicErrorCode, ErrorDetail, nonempty}
use textify.Transcription.Fields.{
  ResponseFieldPath, source_platform, source_video_id, source_url, source_title, source_description,
  source_channel, source_duration_seconds, transcript_method, transcript_language, transcript_text,
  transcript_segments, path_rank, excludes, SourceResponse, SegmentResponse, TranscriptResponse,
  TranscriptionResponse, valid_response,
}
use textify.Jobs.Types.{
  is_uuid4, is_queued, is_processing, is_finished, JobOutcome, succeeded, failed, cancelled,
  JobDispatch, QueuedTranscriptionJob, ProcessingTranscriptionJob, CancelledTranscriptionJob,
  SucceededTranscriptionJob, FailedTranscriptionJob, store_unavailable, Result, ok, err, ◌>>=◌,
}
use textify.Jobs.Schema.{SegmentRow, ResultRow, Job, distinct_paths}

unfoldable pub check {ℓ} : {A : Type ℓ} → Bool → Result A → Result A
check b r = if b then r else err store_unavailable

-- `_datetime_from_row`
unfoldable pub datetime_from_row : Option ℕ → Result ℕ
datetime_from_row none = err store_unavailable
datetime_from_row (some t) = ok t

-- `_public_id_from_row`
unfoldable pub public_id_from_row : Job → Result ℕ
unfolding check
public_id_from_row j = check (is_uuid4 j.public_id) (ok j.public_id)

-- `_dispatch_from_row`, of a row that joins a job and its attempt
unfoldable pub dispatch_from_row : Job → Result JobDispatch
unfolding check
dispatch_from_row j = elim j.attempt [
  | none ↦ err store_unavailable
  | some a ↦
      check (is_uuid4 a.execution_attempt_token) (
        ok (record { internal_job_id = j.id; execution_attempt_token = a.execution_attempt_token }))
]

-- `tuple(_dispatch_from_row(row) for row in rows)`
unfoldable pub dispatches_from_rows : List Job → Result (List JobDispatch)
dispatches_from_rows [] = ok []
dispatches_from_rows (j ∷ js) = do
  d ← dispatch_from_row j
  ds ← dispatches_from_rows js
  ok (d ∷ ds)

-- `_accepted_job_from_row`
unfoldable pub accepted_job_from_row : Job → Result QueuedTranscriptionJob
unfolding public_id_from_row
accepted_job_from_row j = do
  public_id ← public_id_from_row j
  ok (record {
    internal_id = j.id;
    public_id = public_id;
    submitted_at = j.submitted_at;
    queue_deadline_at = j.queue_deadline_at;
  })

-- `_queued_job_from_row`
unfoldable pub queued_job_from_row : Job → Result QueuedTranscriptionJob
unfolding accepted_job_from_row check
queued_job_from_row j = check (is_queued j.status) (accepted_job_from_row j)

-- `_processing_job_from_row`
unfoldable pub processing_job_from_row : Job → Result ProcessingTranscriptionJob
unfolding public_id_from_row datetime_from_row check
processing_job_from_row j = check (is_processing j.status) (do
  public_id ← public_id_from_row j
  started_at ← datetime_from_row j.started_at
  ok (record {
    public_id = public_id;
    submitted_at = j.submitted_at;
    started_at = started_at;
    cancellation_requested = j.cancellation_requested;
  }))

unfoldable pub is_failed : Option JobOutcome → Bool
is_failed (some failed) = true
is_failed _ = false

unfoldable pub is_cancelled : Option JobOutcome → Bool
is_cancelled (some cancelled) = true
is_cancelled _ = false

unfoldable pub is_succeeded : Option JobOutcome → Bool
is_succeeded (some succeeded) = true
is_succeeded _ = false

-- `_validate_error_detail`
unfoldable pub validate_error_detail : Option PublicErrorCode → Option String → Result ErrorDetail
unfolding check
validate_error_detail (some c) (some m) = check (nonempty m) (ok (record { code = c; message = m }))
validate_error_detail _ _ = err store_unavailable

-- `_failed_job_from_row`
unfoldable pub failed_job_from_row : Job → Result FailedTranscriptionJob
unfolding public_id_from_row datetime_from_row validate_error_detail check is_failed
failed_job_from_row j =
    check (is_finished j.status && is_failed j.outcome && not j.cancellation_requested) (do
      error ← validate_error_detail j.error_code j.error_message
      public_id ← public_id_from_row j
      finished_at ← datetime_from_row j.finished_at
      ok (record {
        public_id = public_id;
        submitted_at = j.submitted_at;
        started_at = j.started_at;
        finished_at = finished_at;
        error_code = error.code;
        error_message = error.message;
      }))

-- `_cancelled_job_from_row`
unfoldable pub cancelled_job_from_row : Job → Result CancelledTranscriptionJob
unfolding public_id_from_row datetime_from_row check is_cancelled
cancelled_job_from_row j =
    check
      (is_finished j.status
        && is_cancelled j.outcome
        && is_none j.error_code
        && is_none j.error_message)
      (check
        (if is_none j.started_at then not j.cancellation_requested else j.cancellation_requested)
        (do
          public_id ← public_id_from_row j
          finished_at ← datetime_from_row j.finished_at
          ok (record {
            public_id = public_id;
            submitted_at = j.submitted_at;
            started_at = j.started_at;
            finished_at = finished_at;
          })))

-- One column of `_response_section`: absent exactly when it is excluded.
unfoldable pub section_value {ℓ} :
    {A : Type ℓ} → List ResponseFieldPath → ResponseFieldPath → Option A → Result (Option A)
section_value excluded p none = if excludes excluded p then ok none else err store_unavailable
section_value excluded p (some v) =
    if excludes excluded p then err store_unavailable else ok (some v)

-- `_response_section` over `_SOURCE_RESULT_COLUMNS`
unfoldable pub source_section : ResultRow → List ResponseFieldPath → Result SourceResponse
unfolding section_value
source_section r ex = do
  platform ← section_value ex source_platform r.source_platform
  video_id ← section_value ex source_video_id r.source_video_id
  url ← section_value ex source_url r.source_url
  title ← section_value ex source_title r.source_title
  description ← section_value ex source_description r.source_description
  channel ← section_value ex source_channel r.source_channel
  duration ← section_value ex source_duration_seconds r.source_duration_seconds
  ok (record {
    platform = platform;
    video_id = video_id;
    url = url;
    title = title;
    description = description;
    channel = channel;
    duration_seconds = duration;
  })

-- `_segment_response_values`, from the ordinal `n` on
unfoldable pub segment_response_values : ℕ → List SegmentRow → Result (List SegmentResponse)
unfolding check
segment_response_values n [] = ok []
segment_response_values n (r ∷ rs) =
    let rest = segment_response_values (suc n) rs in
    check (r.ordinal == n) (do
      segments ← rest
      ok (record { start = r.start_seconds; end = r.end_seconds; text = r.text } ∷ segments))

unfoldable pub is_empty {ℓ} : {A : Type ℓ} → List A → Bool
is_empty [] = true
is_empty (x ∷ xs) = false

-- the `transcript.segments` part of `_response_from_result_rows`
unfoldable pub section_segments :
    List ResponseFieldPath → List SegmentRow → Result (Option (List SegmentResponse))
unfolding segment_response_values check is_empty
section_segments ex rows =
    if excludes ex transcript_segments
    then check (is_empty rows) (ok none)
    else do segments ← segment_response_values 0 rows; ok (some segments)

-- `_validate_response`
unfoldable pub validate_response : TranscriptionResponse → Result TranscriptionResponse
unfolding check
validate_response r = check (valid_response r) (ok r)

-- `_response_section` over `_TRANSCRIPT_RESULT_COLUMNS`, and the segments
unfoldable pub transcript_section :
    ResultRow → List SegmentRow → List ResponseFieldPath → Result TranscriptResponse
unfolding section_value section_segments
transcript_section r rows ex = do
  method ← section_value ex transcript_method r.transcript_method
  language ← section_value ex transcript_language r.transcript_language
  text ← section_value ex transcript_text r.transcript_text
  segments ← section_segments ex rows
  ok (record { method = method; language = language; text = text; segments = segments })

-- `_response_from_result_rows`
unfoldable pub response_from_result_rows :
    ResultRow → List SegmentRow → List ResponseFieldPath → Result TranscriptionResponse
unfolding source_section transcript_section validate_response
response_from_result_rows r rows ex = do
  source ← source_section r ex
  transcript ← transcript_section r rows ex
  validate_response (record { source = source; transcript = transcript })

-- `_succeeded_job_from_rows`
unfoldable pub succeeded_job_from_rows :
    Job → ResultRow → List SegmentRow → List ResponseFieldPath → Result SucceededTranscriptionJob
unfolding public_id_from_row datetime_from_row check is_succeeded
succeeded_job_from_rows j r rows ex =
    check (is_finished j.status && is_succeeded j.outcome && not j.cancellation_requested) (do
      public_id ← public_id_from_row j
      started_at ← datetime_from_row j.started_at
      finished_at ← datetime_from_row j.finished_at
      response ← response_from_result_rows r rows ex
      ok (record {
        public_id = public_id;
        submitted_at = j.submitted_at;
        started_at = started_at;
        finished_at = finished_at;
        result = response;
      }))

-- `_segment_values`
unfoldable pub number_segments : ℕ → List SegmentResponse → List SegmentRow
number_segments n [] = []
number_segments n (s ∷ ss) =
    record { ordinal = n; start_seconds = s.start; end_seconds = s.end; text = s.text }
    ∷ number_segments (suc n) ss

unfoldable pub segment_values : TranscriptionResponse → List SegmentRow
unfolding number_segments
segment_values r = elim r.transcript.segments [ none ↦ [] | some l ↦ number_segments 0 l ]

-- `_result_values`
unfoldable pub result_values : TranscriptionResponse → List SegmentRow → ResultRow
result_values r rows = record {
  source_platform = r.source.platform;
  source_video_id = r.source.video_id;
  source_url = r.source.url;
  source_title = r.source.title;
  source_description = r.source.description;
  source_channel = r.source.channel;
  source_duration_seconds = r.source.duration_seconds;
  transcript_method = r.transcript.method;
  transcript_language = r.transcript.language;
  transcript_text = r.transcript.text;
  segments = rows;
}

-- `_exclusions_from_rows`: the stored paths are in the vocabulary by their type.
unfoldable pub exclusions_from_rows : List ResponseFieldPath → Result (List ResponseFieldPath)
unfolding check
exclusions_from_rows ps = check (distinct_paths ps) (ok ps)

-- `ORDER BY field_path`
unfoldable pub insert_path : ResponseFieldPath → List ResponseFieldPath → List ResponseFieldPath
insert_path p [] = p ∷ []
insert_path p (q ∷ qs) =
    let rest = insert_path p qs in if leb (path_rank p) (path_rank q) then p ∷ q ∷ qs else q ∷ rest

unfoldable pub order_paths : List ResponseFieldPath → List ResponseFieldPath
unfolding insert_path
order_paths [] = []
order_paths (p ∷ ps) = insert_path p (order_paths ps)

-- `_load_exclusions`
unfoldable pub load_exclusions : Job → Result (List ResponseFieldPath)
unfolding exclusions_from_rows order_paths
load_exclusions j = exclusions_from_rows (order_paths j.exclusions)
