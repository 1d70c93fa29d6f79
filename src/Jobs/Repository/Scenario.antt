-- ===== src/Jobs/Repository/Scenario.antt =====
-- Concrete stores, for the tests and the instances of the theorems.
use textify.Prelude.{ℕ, ◌+◌, ◌*◌, ◌^◌, none, some, [], ◌∷◌}
use textify.Transcription.Fields.{
  transcript_segments, source_description, youtube, youtube_captions, TranscriptionResponse,
}
use textify.Jobs.Types.{Uuid, JobDispatch, ExecutionClaim, NewQueuedTranscriptionJob}
use textify.Jobs.Tx.{Store}
use textify.Jobs.Repository.Policy.{Policy}
use textify.Jobs.Repository.Admission.{Fresh, create_queued}
use textify.Jobs.Repository.Claiming.{claim_dispatch}
use textify.Jobs.Repository.Publishing.{publish_success}

-- A UUIDv4 with the low bits `n`.
abbrev pub uuid4 : ℕ → Uuid
uuid4 n = 4 * 2 ^ 76 + 2 * 2 ^ 62 + n

abbrev pub policy : Policy
policy = record { maximum_outstanding_jobs = 2; queue_timeout = 100; terminal_retention = 1000 }

abbrev pub empty_store : Store
empty_store = record { jobs = []; next_id = 1 }

abbrev pub request : ℕ → NewQueuedTranscriptionJob
request k = record {
  request_identity = record {
    submitted_url = "https://youtu.be/AbCdEf12345";
    exclusions = source_description ∷ transcript_segments ∷ [];
  };
  idempotency_key = uuid4 k;
}

abbrev pub fresh : ℕ → Fresh
fresh n = record { public_id = uuid4 n; execution_attempt_token = uuid4 (n + 1) }

abbrev pub dispatch : JobDispatch
dispatch = record { internal_job_id = 1; execution_attempt_token = uuid4 11 }

abbrev pub worker : Uuid
worker = uuid4 77

abbrev pub claim : ExecutionClaim
claim = record { dispatch = dispatch; worker_owner = worker }

abbrev pub response : TranscriptionResponse
response = record {
  source = record {
    platform = some youtube;
    video_id = some "AbCdEf12345";
    url = some "https://www.youtube.com/watch?v=AbCdEf12345";
    title = some "Title";
    description = none;
    channel = some "Channel";
    duration_seconds = some 42;
  };
  transcript = record {
    method = some youtube_captions;
    language = some "en";
    text = some "Text";
    segments = none;
  };
}

-- One queued job, then claimed.
unfoldable pub queued_store : Store
unfolding create_queued
queued_store = (create_queued policy 10 (fresh 10) (request 1) empty_store).1

unfoldable pub claimed_store : Store
unfolding claim_dispatch queued_store
claimed_store = (claim_dispatch dispatch worker 30 20 queued_store).1

unfoldable pub succeeded_store : Store
unfolding publish_success claimed_store
succeeded_store = (publish_success claim response 25 claimed_store).1
