-- ===== src/Jobs/Repository/Tests.antt =====
-- The concrete stores of the tests meet the invariant.
mod Histories
mod Methods
use textify.Prelude.{
  contains, if◌then◌else◌, List, arith, ◌≡◌, refl, true, false, [], ◌∷◌, count, select, all, any,
  inl, ◌≤◌, ◌⊎◌, ℕ,
}
use textify.Errors.{nonempty, transcription_failed}
use textify.Transcription.Fields.{valid_response}
use textify.Jobs.Types.{
  err, idempotency_conflict, processing_job, ok, is_finished, QueuedTranscriptionJob,
  TranscriptionJobCancellationResult,
}
use textify.Jobs.Schema.{Job}
use textify.Jobs.Tx.{Store}
use textify.Jobs.Rows.{
  response_from_result_rows, result_values, segment_values, accepted_job_from_row,
}
use textify.Jobs.Rows.RoundTrip.{is_projected, result_values-roundtrip}
use textify.Jobs.Repository.Admission.{same_request, new_job, create_queued, count_outstanding_jobs}
use textify.Jobs.Repository.Claiming.{valid_claim}
use textify.Jobs.Repository.Cancelling.{request_cancellation}
use textify.Jobs.Repository.Publishing.{publish_cancelled, publish_success, publish_failure}
use textify.Jobs.Repository.Reading.{get_job}
use textify.Jobs.Repository.Policy.{is_active_claim}
use textify.Jobs.Repository.Recovery.{is_retired}
use textify.Jobs.Repository.Steps.{create, claim, finish_success, after, here, next, Reach}
use textify.Jobs.Repository.Invariant.{Inv}
use textify.Jobs.Repository.Lifecycle.{Evolves, room}
use textify.Jobs.Repository.Lifecycle.Refinement.{after-Evolves}
use textify.Jobs.Repository.Refusals.{publish-stale}
use textify.Jobs.Repository.History.Invariance.{Reach-Inv, after-Inv, empty-Inv}
use textify.Jobs.Repository.History.Capacity.{Reach-outstanding}
use textify.Jobs.Repository.History.Following.{is_cancelling}
use textify.Jobs.Repository.History.Fates.{Fate, Reach-Fate}
use textify.Jobs.Repository.History.Answers.{get_job-final}
use textify.Jobs.Repository.History.Replays.{create_queued-idempotent, create_queued-replay}
use textify.Jobs.Repository.History.Cancellations.{
  Withdrawn, request_cancellation-final, cancellation-wins,
}
use textify.Jobs.Repository.Scenario.{
  policy, empty_store, request, fresh, dispatch, worker, response, queued_store, claimed_store,
  succeeded_store, uuid4,
}
use textify.Jobs.Repository.Scenario
use textify.Jobs.Schema.{
  schema_check, job_check, row_check, length_within, attempt_check, distinct_paths, unique, tokens,
  keys, result_check, segment_check,
}
use textify.Transcription.Fields.{excludes, path_rank}
use textify.Jobs.Types.{is_uuid4}
use textify.Jobs.Tx.{order_by, insert_sorted, update_rows}
use textify.Transcription.Fields.{source_description, transcript_segments}
use textify.Jobs.Types.{ClaimedTranscriptionJob, SucceededTranscriptionJob, succeeded_job}
use textify.Jobs.Rows.{load_exclusions}
use textify.Jobs.Repository.Policy.{terminal_job_is_expired}
use textify.Jobs.Repository.Steps.{recover}
use textify.Jobs.Repository.Grants.{Granted, claim_dispatch-Granted}
use textify.Jobs.Repository.Published.{get_job-publish_success}
use textify.Jobs.Repository.History.Ownership.{claim_dispatch-once}
use textify.Prelude.{some, none}
use textify.Jobs.Repository.Claiming.{claim_dispatch}
use textify.Jobs.Schema.{null_or}
use textify.Jobs.Repository.Publishing.{may_finish}
use textify.Jobs.Repository.Successes.{publish_success-succeeds}
use textify.Transcription.Fields.{youtube, youtube_captions}
use textify.Transcription.Response.{TranscriptionResult, build_transcription_response, valid_result}
use textify.Jobs.Rows.Projection.{build_transcription_response-roundtrip}
use textify.Prelude.{All, false, []}
use textify.Jobs.Rows.{dispatches_from_rows, dispatch_from_row}
use textify.Jobs.Repository.Claiming.{heartbeat_claims, is_renewable, heartbeats_of}
use textify.Jobs.Repository.Dispatching.{
  is_due, lease_due_dispatches, in_dispatches, distinct_dispatches, internal_ids,
}
use textify.Jobs.Repository.Heartbeats.{Reported, heartbeat_claims-Reported}
use textify.Jobs.Repository.Leases.{Batch, lease_due_dispatches-Batch}

-- The stores meet the invariant.
pub queued_store-Inv : Inv queued_store
unfolding queued_store after
queued_store-Inv = after-Inv policy (create 10 (fresh 10) (request 1)) empty_store (empty-Inv 1)

pub claimed_store-Inv : Inv claimed_store
unfolding claimed_store after
claimed_store-Inv = after-Inv policy (claim dispatch worker 30 20) queued_store queued_store-Inv

pub succeeded_store-Inv : Inv succeeded_store
unfolding succeeded_store after
succeeded_store-Inv =
    after-Inv policy (finish_success Scenario.claim response 25) claimed_store claimed_store-Inv

abbrev pub queued_row : Job
unfolding new_job
queued_row = new_job policy 10 (fresh 10) (request 1) 1

abbrev pub first_of : List Job → Job
first_of [] = queued_row
first_of (j ∷ js) = j

abbrev pub succeeded_row : Job
unfolding succeeded_store
succeeded_row = first_of succeeded_store.jobs

abbrev pub claimed : ClaimedTranscriptionJob
claimed = record {
  claim = Scenario.claim;
  submitted_url = "https://youtu.be/AbCdEf12345";
  exclusions = source_description ∷ transcript_segments ∷ [];
}
