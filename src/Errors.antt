-- ===== src/Errors.antt =====
-- errors.py: the public error codes and the validated error pair.
use textify.Prelude.{String, Bool, true, false, not, str_eq}

pub data PublicErrorCode : Type 0 where
  invalid_url unsupported_platform invalid_request unsupported_content : PublicErrorCode
  video_too_long invalid_media_duration unsupported_media no_usable_transcript : PublicErrorCode
  metadata_retrieval_failed audio_download_failed transcription_failed : PublicErrorCode
  transcription_capacity_exceeded idempotency_conflict job_not_found : PublicErrorCode
  job_already_finished job_store_unavailable queue_timeout worker_interrupted : PublicErrorCode
  metadata_timeout audio_download_timeout transcription_timeout internal_error : PublicErrorCode

pub record ErrorDetail : Type 0 where
  pub code : PublicErrorCode
  pub message : String

-- `length(text) > 0`, and `min_length=1` of the schemas
unfoldable pub nonempty : String → Bool
nonempty s = not (str_eq s "")

unfoldable pub is_queue_timeout : PublicErrorCode → Bool
is_queue_timeout queue_timeout = true
is_queue_timeout _ = false

-- the codes in the list of `transcription_job_error_pair_check`
unfoldable pub is_stored_code : PublicErrorCode → Bool
is_stored_code idempotency_conflict = false
is_stored_code _ = true
