-- ===== src/Jobs/Repository/Tests/Methods.antt =====
-- The theorems on single methods, at concrete stores.
use textify.Jobs.Repository.Expiry.{Swept, expire_queued_jobs-Swept}
use textify.Jobs.Repository.Dispatching.{expire_queued_jobs, overdue_ids}
use textify.Jobs.Repository.Policy.{is_overdue}
use textify.Jobs.Repository.Tests.{queued_row, queued_store-Inv}
use textify.Jobs.Repository.Admission.{new_job}
use textify.Jobs.Rows.{order_paths}
use textify.Jobs.Repository.Policy.{matches_dispatch, is_eligible}
use textify.Jobs.Repository.Claiming.{oldest_eligible, claim_dispatch}
use textify.Jobs.Repository.Admittance.{claim_dispatch-given}
use textify.Jobs.Rows.{dispatch_from_row}
use textify.Prelude.{contains, ◌≡◌, refl, true, false, [], ◌∷◌, count, select, all, any, inl}
use textify.Errors.{nonempty, transcription_failed}
use textify.Transcription.Fields.{valid_response}
use textify.Jobs.Types.{ok, is_finished}
use textify.Jobs.Schema.{Job}
use textify.Jobs.Rows.{response_from_result_rows, result_values, segment_values}
use textify.Jobs.Rows.RoundTrip.{is_projected, result_values-roundtrip}
use textify.Jobs.Repository.Claiming.{valid_claim}
use textify.Jobs.Repository.Publishing.{publish_cancelled, publish_success, publish_failure}
use textify.Jobs.Repository.Reading.{get_job}
use textify.Jobs.Repository.Policy.{is_active_claim}
use textify.Jobs.Repository.Refusals.{publish-stale}
use textify.Jobs.Repository.Scenario.{
  policy, empty_store, request, fresh, dispatch, worker, response, queued_store, claimed_store,
  succeeded_store, uuid4,
}
use textify.Jobs.Repository.Scenario
use textify.Jobs.Schema.{
  schema_check, job_check, row_check, length_within, attempt_check, distinct_paths, unique, tokens,
  keys, result_check, segment_check,
}
use textify.Transcription.Fields.{excludes, path_rank}
use textify.Jobs.Types.{is_uuid4}
use textify.Jobs.Tx.{order_by, insert_sorted, update_rows}
use textify.Transcription.Fields.{source_description, transcript_segments}
use textify.Jobs.Types.{SucceededTranscriptionJob, succeeded_job}
use textify.Jobs.Rows.{load_exclusions}
use textify.Jobs.Repository.Policy.{terminal_job_is_expired}
use textify.Jobs.Repository.Grants.{Granted, claim_dispatch-Granted}
use textify.Jobs.Repository.Published.{get_job-publish_success}
use textify.Prelude.{some, none}
use textify.Jobs.Repository.Claiming.{claim_dispatch}
use textify.Jobs.Schema.{null_or}
use textify.Jobs.Repository.Publishing.{may_finish}
use textify.Jobs.Repository.Successes.{publish_success-succeeds}
use textify.Transcription.Fields.{youtube, youtube_captions}
use textify.Transcription.Response.{TranscriptionResult, build_transcription_response, valid_result}
use textify.Jobs.Rows.Projection.{Shows, build_transcription_response-roundtrip}
use textify.Prelude.{All, false, []}
use textify.Jobs.Rows.{dispatches_from_rows}
use textify.Jobs.Repository.Claiming.{heartbeat_claims, is_renewable, heartbeats_of}
use textify.Jobs.Repository.Dispatching.{
  is_due, lease_due_dispatches, in_dispatches, distinct_dispatches, internal_ids,
}
use textify.Jobs.Repository.Heartbeats.{Reported, heartbeat_claims-Reported}
use textify.Jobs.Repository.Leases.{Batch, lease_due_dispatches-Batch}
use textify.Jobs.Repository.Tests.{claimed_store-Inv, first_of, succeeded_row, claimed}

result_values-roundtrip_example :
    response_from_result_rows
      (result_values response (segment_values response))
      (segment_values response)
      (request 1).request_identity.exclusions
    ≡ ok response
unfolding is_projected valid_response all excludes path_rank
result_values-roundtrip_example =
    result_values-roundtrip (request 1).request_identity.exclusions response refl refl

publish-stale_example :
    (publish_cancelled Scenario.claim 60 claimed_store ≡ (ok false, claimed_store))
    × (publish_success Scenario.claim response 60 claimed_store ≡ (ok false, claimed_store))
    × (publish_failure Scenario.claim transcription_failed "Failed." 60 claimed_store
        ≡ (ok false, claimed_store))
unfolding claimed_store valid_claim is_active_claim select count all any contains is_uuid4
    schema_check job_check row_check length_within attempt_check distinct_paths excludes path_rank
    unique tokens keys order_by insert_sorted update_rows valid_response nonempty result_check
    segment_check
publish-stale_example =
    publish-stale Scenario.claim response transcription_failed "Failed." 60 claimed_store
      claimed_store-Inv refl refl refl (refl, tt)

claim_dispatch-Granted_example :
    Granted Scenario.claim 20 queued_store.jobs claimed claimed_store.jobs
unfolding claimed_store queued_store claim_dispatch select count all any contains is_uuid4
    schema_check job_check row_check length_within attempt_check distinct_paths excludes path_rank
    unique tokens keys order_by insert_sorted update_rows valid_response nonempty result_check
    segment_check
claim_dispatch-Granted_example =
    claim_dispatch-Granted dispatch worker 30 20 queued_store claimed refl

get_job-publish_success_example :
    (x : SucceededTranscriptionJob) × (get_job policy succeeded_row.public_id 40
        (publish_success Scenario.claim response 25 claimed_store).1
      ≡ ok (some (succeeded_job x)))
    × (x.result ≡ response)
unfolding succeeded_store claimed_store publish_success is_projected is_finished
    terminal_job_is_expired load_exclusions select count all any contains is_uuid4 schema_check
    job_check row_check length_within attempt_check distinct_paths excludes path_rank unique tokens
    keys order_by insert_sorted update_rows valid_response nonempty result_check segment_check
get_job-publish_success_example =
    get_job-publish_success policy Scenario.claim response 25 40 claimed_store succeeded_row
      (source_description ∷ transcript_segments ∷ []) claimed_store-Inv refl (inl refl) refl refl
      refl refl

abbrev claimed_row : Job
unfolding claimed_store
claimed_row = first_of claimed_store.jobs

publish_success-succeeds_example :
    (publish_success Scenario.claim response 25 claimed_store).0 ≡ ok true
unfolding claimed_store valid_claim may_finish null_or result_values segment_values select count all
    any contains is_uuid4 schema_check job_check row_check length_within attempt_check
    distinct_paths excludes path_rank unique tokens keys order_by insert_sorted update_rows
    valid_response nonempty result_check segment_check
publish_success-succeeds_example =
    publish_success-succeeds Scenario.claim response 25 claimed_store claimed_row claimed_store-Inv
      (inl refl) refl refl refl refl (refl, tt)

abbrev result : TranscriptionResult
result = record {
  source = record {
    platform = youtube;
    video_id = "AbCdEf12345";
    url = "https://www.youtube.com/watch?v=AbCdEf12345";
    title = "Title";
    description = "Description";
    channel = "Channel";
    duration_seconds = 42;
  };
  transcript = record {
    method = youtube_captions;
    language = "en";
    text = "Text";
    segments = none;
  };
}

build_transcription_response-roundtrip_example :
    Shows result (request 1).request_identity.exclusions response
    × (valid_response response ≡ true)
    × (response_from_result_rows
          (result_values response (segment_values response))
          (segment_values response)
          (request 1).request_identity.exclusions
        ≡ ok response)
unfolding build_transcription_response excludes path_rank valid_result
build_transcription_response-roundtrip_example =
    build_transcription_response-roundtrip result (request 1).request_identity.exclusions response
      refl refl

heartbeat_claims-Reported_example :
    All
      (Reported 60 (heartbeat_claims (Scenario.claim ∷ []) 35 25 claimed_store).1.jobs)
      (record { claim = Scenario.claim; cancellation_requested = false } ∷ [])
unfolding claimed_store heartbeat_claims valid_claim is_renewable heartbeats_of select count all any
    contains is_uuid4 schema_check job_check row_check length_within attempt_check distinct_paths
    excludes path_rank unique tokens keys order_by insert_sorted update_rows valid_response nonempty
    result_check segment_check
heartbeat_claims-Reported_example =
    heartbeat_claims-Reported (Scenario.claim ∷ []) 35 25 claimed_store
      (record { claim = Scenario.claim; cancellation_requested = false } ∷ []) refl

lease_due_dispatches-Batch_example :
    Batch worker 30 20 queued_store.jobs 5
      (dispatch ∷ [])
      (lease_due_dispatches worker 30 5 20 queued_store).1.jobs
unfolding queued_store lease_due_dispatches is_due dispatches_from_rows in_dispatches
    distinct_dispatches internal_ids dispatch_from_row select count all any contains is_uuid4
    schema_check job_check row_check length_within attempt_check distinct_paths excludes path_rank
    unique tokens keys order_by insert_sorted update_rows valid_response nonempty result_check
    segment_check
lease_due_dispatches-Batch_example =
    lease_due_dispatches-Batch worker 30 5 20 queued_store (dispatch ∷ []) refl

claim_dispatch-given_example :
    (claim_dispatch dispatch worker 30 20 queued_store).0
    ≡ ok (
        some (record {
          claim = Scenario.claim;
          submitted_url = "https://youtu.be/AbCdEf12345";
          exclusions = order_paths (source_description ∷ transcript_segments ∷ []);
        }))
unfolding queued_store matches_dispatch oldest_eligible is_eligible new_job select count all any
    contains is_uuid4 schema_check job_check row_check length_within attempt_check distinct_paths
    excludes path_rank unique tokens keys order_by insert_sorted update_rows valid_response nonempty
    result_check segment_check
claim_dispatch-given_example =
    claim_dispatch-given dispatch worker 30 20 queued_store queued_row queued_store-Inv (inl refl)
      refl refl refl refl refl (refl, tt)

expire_queued_jobs-Swept_example :
    Swept 5 200 queued_store.jobs 1 (expire_queued_jobs 5 200 queued_store).1.jobs
unfolding queued_store expire_queued_jobs overdue_ids is_overdue new_job select count all any
    contains is_uuid4 schema_check job_check row_check length_within attempt_check distinct_paths
    excludes path_rank unique tokens keys order_by insert_sorted update_rows valid_response nonempty
    result_check segment_check
expire_queued_jobs-Swept_example = expire_queued_jobs-Swept 5 200 queued_store 1 refl
