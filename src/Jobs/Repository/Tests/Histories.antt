-- ===== src/Jobs/Repository/Tests/Histories.antt =====
-- The theorems on histories, at concrete histories.
use textify.Prelude.{
  contains, if◌then◌else◌, arith, ◌≡◌, refl, true, false, count, select, all, any, inl, ◌≤◌, ◌⊎◌,
}
use textify.Errors.{nonempty, transcription_failed}
use textify.Transcription.Fields.{valid_response}
use textify.Jobs.Types.{
  err, idempotency_conflict, processing_job, ok, is_finished, QueuedTranscriptionJob,
  TranscriptionJobCancellationResult,
}
use textify.Jobs.Tx.{Store}
use textify.Jobs.Rows.{accepted_job_from_row}
use textify.Jobs.Repository.Admission.{same_request, new_job, create_queued, count_outstanding_jobs}
use textify.Jobs.Repository.Claiming.{valid_claim}
use textify.Jobs.Repository.Cancelling.{request_cancellation}
use textify.Jobs.Repository.Publishing.{publish_success, publish_failure}
use textify.Jobs.Repository.Reading.{get_job}
use textify.Jobs.Repository.Steps.{create, claim, finish_success, after, here, next, Reach}
use textify.Jobs.Repository.Invariant.{Inv}
use textify.Jobs.Repository.Lifecycle.{Retires, Evolves, room}
use textify.Jobs.Repository.Lifecycle.Refinement.{after-Evolves}
use textify.Jobs.Repository.History.Invariance.{Reach-Inv, empty-Inv}
use textify.Jobs.Repository.History.Capacity.{Reach-outstanding}
use textify.Jobs.Repository.History.Fates.{Fate, Removal, Reach-Fate}
use textify.Jobs.Repository.History.Answers.{get_job-final}
use textify.Jobs.Repository.History.Replays.{create_queued-idempotent, create_queued-replay}
use textify.Jobs.Repository.History.Cancellations.{
  Withdrawn, IsWithdrawn, request_cancellation-final, cancellation-wins,
}
use textify.Jobs.Repository.Scenario.{
  policy, empty_store, request, fresh, dispatch, worker, response, queued_store, claimed_store,
  succeeded_store, uuid4,
}
use textify.Jobs.Repository.Scenario
use textify.Jobs.Schema.{
  schema_check, job_check, row_check, length_within, attempt_check, distinct_paths, unique, tokens,
  keys, result_check, segment_check,
}
use textify.Transcription.Fields.{excludes, path_rank}
use textify.Jobs.Types.{is_uuid4}
use textify.Jobs.Tx.{order_by, insert_sorted, update_rows}
use textify.Jobs.Repository.Steps.{recover}
use textify.Jobs.Repository.History.Ownership.{claim_dispatch-once}
use textify.Prelude.{some}
use textify.Jobs.Repository.Claiming.{claim_dispatch}
use textify.Prelude.{false}
use textify.Jobs.Repository.Tests.{
  queued_store-Inv, claimed_store-Inv, succeeded_store-Inv, queued_row, succeeded_row, claimed,
}

abbrev run : Reach policy empty_store (
    after policy (finish_success Scenario.claim response 25) (
      after policy
        (claim dispatch worker 30 20)
        (after policy (create 10 (fresh 10) (request 1)) empty_store)))
run =
    next (next (next here (create 10 (fresh 10) (request 1))) (claim dispatch worker 30 20))
      (finish_success Scenario.claim response 25)

Reach-Inv_example : Inv (
    after policy (finish_success Scenario.claim response 25) (
      after policy
        (claim dispatch worker 30 20)
        (after policy (create 10 (fresh 10) (request 1)) empty_store)))
Reach-Inv_example = Reach-Inv policy run (empty-Inv 1)

after-Evolves_example :
    Evolves policy
      (room policy queued_store)
      (Retires policy (claim dispatch worker 30 20))
      queued_store.jobs
      (after policy (claim dispatch worker 30 20) queued_store).jobs
after-Evolves_example =
    after-Evolves policy (claim dispatch worker 30 20) queued_store queued_store-Inv

Reach-outstanding_example :
    count_outstanding_jobs (after policy (claim dispatch worker 30 20) queued_store) ≤ 2
unfolding count_outstanding_jobs queued_store select count all any contains is_uuid4 schema_check
    job_check row_check length_within attempt_check distinct_paths excludes path_rank unique tokens
    keys order_by insert_sorted update_rows valid_response nonempty result_check segment_check
Reach-outstanding_example =
    Reach-outstanding policy (next here (claim dispatch worker 30 20)) queued_store-Inv
      (omega arith)

abbrev claiming :
    Reach policy queued_store (after policy (claim dispatch worker 30 20) queued_store)
claiming = next here (claim dispatch worker 30 20)

Reach-Fate_example : Fate queued_row claiming
unfolding queued_store new_job select count all any contains is_uuid4 schema_check job_check
    row_check length_within attempt_check distinct_paths excludes path_rank unique tokens keys
    order_by insert_sorted update_rows valid_response nonempty result_check segment_check
Reach-Fate_example = Reach-Fate policy queued_row claiming queued_store-Inv (inl refl)

abbrev idling :
    Reach policy succeeded_store (after policy (claim dispatch worker 30 40) succeeded_store)
idling = next here (claim dispatch worker 30 40)

get_job-final_example :
    (get_job policy succeeded_row.public_id 40
        (after policy (claim dispatch worker 30 40) succeeded_store)
      ≡ get_job policy succeeded_row.public_id 40 succeeded_store)
    ⊎ Removal (λ k. k ≡ record succeeded_row { attempt = k.attempt }) idling
unfolding succeeded_store is_finished select count all any contains is_uuid4 schema_check job_check
    row_check length_within attempt_check distinct_paths excludes path_rank unique tokens keys
    order_by insert_sorted update_rows valid_response nonempty result_check segment_check
get_job-final_example =
    get_job-final policy succeeded_row 40 idling succeeded_store-Inv (inl refl) refl

abbrev accepted : QueuedTranscriptionJob
accepted = record {
  internal_id = 1;
  public_id = uuid4 10;
  submitted_at = 10;
  queue_deadline_at = 110;
}

abbrev submitted : Store
submitted = (create_queued policy 10 (fresh 10) (request 1) empty_store).1

abbrev working : Reach policy submitted (after policy (claim dispatch worker 30 20) submitted)
working = next here (claim dispatch worker 30 20)

create_queued-idempotent_example :
    (create_queued policy 50
        (fresh 30)
        (request 1)
        (after policy (claim dispatch worker 30 20) submitted)
      ≡ (ok accepted, after policy (claim dispatch worker 30 20) submitted))
    ⊎ Removal (λ k. accepted_job_from_row k ≡ ok accepted) working
unfolding queued_store create_queued select count all any contains is_uuid4 schema_check job_check
    row_check length_within attempt_check distinct_paths excludes path_rank unique tokens keys
    order_by insert_sorted update_rows valid_response nonempty result_check segment_check
create_queued-idempotent_example =
    create_queued-idempotent policy 10 50 (fresh 10) (fresh 30) (request 1) accepted (empty-Inv 1)
      refl working

create_queued-replay_example : create_queued policy 50 (fresh 30) (request 1) queued_store ≡ (
  (if same_request (request 1) queued_row
      then accepted_job_from_row queued_row
      else err idempotency_conflict),
  queued_store,
)
unfolding queued_store new_job select count all any contains is_uuid4 schema_check job_check
    row_check length_within attempt_check distinct_paths excludes path_rank unique tokens keys
    order_by insert_sorted update_rows valid_response nonempty result_check segment_check
create_queued-replay_example =
    create_queued-replay policy 50 (fresh 30) (request 1) queued_row queued_store queued_store-Inv
      (inl refl) refl refl

abbrev withdrawal : TranscriptionJobCancellationResult
withdrawal = record {
  internal_job_id = 1;
  job = processing_job (record {
    public_id = uuid4 10;
    submitted_at = 10;
    started_at = 20;
    cancellation_requested = true;
  });
  first_accepted = true;
}

abbrev withdrawn : Store
withdrawn = (request_cancellation policy (uuid4 10) 30 claimed_store).1

abbrev later_store : Store
later_store = after policy (finish_success Scenario.claim response 35) withdrawn

abbrev finishing : Reach policy withdrawn later_store
finishing = next here (finish_success Scenario.claim response 35)

request_cancellation-final_example :
    Withdrawn 1 later_store.jobs ⊎ Removal (IsWithdrawn 1) finishing
unfolding claimed_store request_cancellation select count all any contains is_uuid4 schema_check
    job_check row_check length_within attempt_check distinct_paths excludes path_rank unique tokens
    keys order_by insert_sorted update_rows valid_response nonempty result_check segment_check
request_cancellation-final_example =
    request_cancellation-final policy (uuid4 10) 30 withdrawal claimed_store-Inv refl finishing

cancellation-wins_example :
    ((publish_success Scenario.claim response 40 later_store ≡ (ok false, later_store))
      × (publish_failure Scenario.claim transcription_failed "Failed." 40 later_store
          ≡ (ok false, later_store)))
    ⊎ Removal (IsWithdrawn 1) finishing
unfolding claimed_store request_cancellation valid_claim select count all any contains is_uuid4
    schema_check job_check row_check length_within attempt_check distinct_paths excludes path_rank
    unique tokens keys order_by insert_sorted update_rows valid_response nonempty result_check
    segment_check
cancellation-wins_example =
    cancellation-wins policy (uuid4 10) 30 40 withdrawal Scenario.claim response
      transcription_failed "Failed." claimed_store-Inv refl finishing refl refl refl refl

abbrev granted : Store
granted = (claim_dispatch dispatch worker 30 20 queued_store).1

abbrev recovering : Reach policy granted (after policy (recover 5 60) granted)
recovering = next here (recover 5 60)

claim_dispatch-once_example :
    ¬ (
      (claim_dispatch dispatch (uuid4 78) 30 70 (after policy (recover 5 60) granted)).0
      ≡ ok (some claimed))
    ⊎ Removal (λ k. k.id ≡ 1) recovering
unfolding claimed_store queued_store claim_dispatch select count all any contains is_uuid4
    schema_check job_check row_check length_within attempt_check distinct_paths excludes path_rank
    unique tokens keys order_by insert_sorted update_rows valid_response nonempty result_check
    segment_check
claim_dispatch-once_example =
    claim_dispatch-once policy dispatch worker (uuid4 78) 30 30 20 70 claimed claimed
      queued_store-Inv refl recovering
