-- ===== src/Jobs/Service/Tests.antt =====
-- A service that meets an outage, and a submission that is sent twice.
use textify.Prelude.{
  ℕ, true, false, ◌≡◌, refl, ◌⊎◌, List, [], ◌∷◌, ◌<◌, arith, count, select, all, any, contains,
}
use textify.Transcription.Fields.{
  ResponseFieldPath, source_description, transcript_segments, path_rank, excludes,
}
use textify.Transcription.Inspection.Classifying.Tests.{ascii, urls, classified}
use textify.Jobs.Types.{QueuedTranscriptionJob, ok, is_uuid4}
use textify.Jobs.Schema.{
  schema_check, job_check, row_check, length_within, attempt_check, distinct_paths, unique, tokens,
  keys,
}
use textify.Jobs.Tx.{Store, order_by, insert_sorted}
use textify.Jobs.Rows.{accepted_job_from_row}
use textify.Jobs.Repository.Admission.{create_queued}
use textify.Jobs.Repository.Steps
use textify.Jobs.Repository.Steps.{Call, Reach}
use textify.Jobs.Repository.History.Fates.{Removal}
use textify.Jobs.Repository.History.Invariance.{empty-Inv}
use textify.Jobs.Repository.Scenario.{policy, empty_store, request, fresh, uuid4}
use textify.Jobs.Service.{
  Service, Answer, returned, mark_store_unavailable, submit_locked, query, require_store_available,
  meets_failure, submit, submit_classified, finish, submit_answer, new_job, sort_paths, insert_path,
}
use textify.Jobs.Service.Steps.{
  World, new_world, enter, mark, submitted, marked, other, Run, here, next,
}
use textify.Jobs.Service.Latch.{IsValid, Refuses, World-IsValid, Run-Refuses}
use textify.Jobs.Service.Replays.{submit-idempotent}

-- After a submission during an outage.
abbrev failed_world : World
failed_world = enter (new_world empty_store) (
    submit_locked policy false 10 (fresh 10) (request 1) (new_world empty_store).service
      (new_world empty_store).store)

abbrev failed_run : Run policy (new_world empty_store) failed_world
failed_run = next here (submitted false 10 (fresh 10) (request 1))

failed_unmarked : 0 < failed_world.unmarked
unfolding enter new_world submit_locked require_store_available query meets_failure
failed_unmarked = omega arith

abbrev latched_world : World
latched_world = mark failed_world

latched : latched_world.service.store_available ≡ false
unfolding mark mark_store_unavailable enter new_world submit_locked require_store_available query
    meets_failure
latched = refl

World-IsValid_example : IsValid latched_world
World-IsValid_example =
    World-IsValid policy empty_store latched_world (next failed_run (marked failed_unmarked))

Run-Refuses_example : Refuses policy latched_world.service
Run-Refuses_example =
    Run-Refuses policy latched_world _ latched (next here (other (Steps.recover 5 20)))

abbrev excluded : List ResponseFieldPath
excluded = transcript_segments ∷ source_description ∷ []

new_job_lem : new_job "https://youtu.be/AbCdEf12345" excluded (uuid4 1) ≡ request 1
unfolding new_job sort_paths insert_path path_rank
new_job_lem = refl

abbrev service : Service
service = record { store_available = true; notifications = 0 }

abbrev accepted : QueuedTranscriptionJob
accepted = record {
  internal_id = 1;
  public_id = uuid4 10;
  submitted_at = 10;
  queue_deadline_at = 110;
}

abbrev sent : ℕ → Store → Answer QueuedTranscriptionJob × Service × Store
sent now s =
    submit ascii urls policy true now (fresh now) "https://youtu.be/AbCdEf12345" excluded (uuid4 1)
      service s

created : (create_queued policy 10 (fresh 10) (request 1) empty_store).0 ≡ ok accepted
unfolding create_queued select count all any contains is_uuid4 schema_check job_check row_check
    length_within attempt_check distinct_paths excludes path_rank unique tokens keys order_by
    insert_sorted
created = refl

sent_accepted : (sent 10 empty_store).0 ≡ returned accepted
unfolding submit submit_classified finish submit_locked require_store_available query submit_answer
sent_accepted = rw classified (rw new_job_lem (rw created refl))

abbrev recovering :
    Reach policy
      (sent 10 empty_store).2
      (Steps.after policy (Steps.recover 5 20) (sent 10 empty_store).2)
recovering = Steps.next Steps.here (Steps.recover 5 20)

submit-idempotent_example :
    (sent 50 (Steps.after policy (Steps.recover 5 20) (sent 10 empty_store).2) ≡ (
      returned accepted,
      service,
      Steps.after policy (Steps.recover 5 20) (sent 10 empty_store).2,
    ))
    ⊎ Removal (λ k. accepted_job_from_row k ≡ ok accepted) recovering
submit-idempotent_example =
    submit-idempotent ascii urls policy true 10 50 (fresh 10) (fresh 50)
      "https://youtu.be/AbCdEf12345" excluded (uuid4 1) accepted service service (empty-Inv 1)
      sent_accepted recovering refl
