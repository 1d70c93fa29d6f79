-- ===== src/Jobs/Reconciler/Tests.antt =====
-- A pass over a store with one queued job.
use textify.Prelude.{ℕ, ◌*◌, Bool, true, false, ◌≡◌, refl, arith, count, select, all, any, contains}
use textify.Jobs.Types.{is_uuid4, ok}
use textify.Jobs.Schema.{
  schema_check, job_check, row_check, length_within, attempt_check, distinct_paths, unique, tokens,
  keys,
}
use textify.Transcription.Fields.{excludes, path_rank}
use textify.Jobs.Tx.{order_by, insert_sorted, update_rows}
use textify.Jobs.Repository.Admission.{count_outstanding_jobs, is_outstanding}
use textify.Jobs.Rows.{dispatches_from_rows, dispatch_from_row}
use textify.Jobs.Repository.Recovery.{recover_expired_claims}
use textify.Jobs.Repository.Dispatching.{
  expire_queued_jobs, lease_due_dispatches, record_dispatch_published, release_dispatch_leases,
}
use textify.Jobs.Repository.Scenario.{queued_store, uuid4}
use textify.Jobs.Reconciler.{
  ReconcilerPolicy, Moment, World, check_policy, complete, broker_unavailable, recover_claims,
  expire_queue, reconcile_once,
}
use textify.Jobs.Reconciler.Draining.{Ends, loops-End}

abbrev second : ℕ
second = 1000000

abbrev timing : ReconcilerPolicy
timing = record {
  interval = second;
  publication_lease_duration = 5 * second;
  dispatch_batch_size = 100;
  retention_cleanup_interval = 3600 * second;
}

timing_checked : check_policy timing ≡ ok timing
unfolding check_policy
timing_checked = refl

abbrev at : Bool → Moment
at accepted = record { now = 20; answers = true; accepted = accepted }

abbrev world : Bool → World
world accepted = record {
  recovering = λ i. at accepted;
  expiring = λ i. at accepted;
  publishing = λ i k. at accepted;
}

loops-End_example :
    Ends (recover_claims timing (λ i. at true) 2 queued_store).0
    × Ends (expire_queue timing (λ i. at true) 2 queued_store).0
unfolding queued_store count_outstanding_jobs is_outstanding count select all any contains is_uuid4
    schema_check job_check row_check length_within attempt_check distinct_paths excludes path_rank
    unique tokens keys order_by insert_sorted
loops-End_example = loops-End timing (λ i. at true) 2 queued_store (omega arith)

pass_complete : (reconcile_once timing (uuid4 90) (world true) 2 queued_store).0 ≡ complete
unfolding reconcile_once queued_store count select all any contains is_uuid4 schema_check job_check
    row_check length_within attempt_check distinct_paths excludes path_rank unique tokens keys
    order_by insert_sorted update_rows recover_expired_claims expire_queued_jobs
    lease_due_dispatches record_dispatch_published release_dispatch_leases dispatches_from_rows
    dispatch_from_row
pass_complete = refl

pass_stopped :
    (reconcile_once timing (uuid4 90) (world false) 2 queued_store).0 ≡ broker_unavailable
unfolding reconcile_once queued_store count select all any contains is_uuid4 schema_check job_check
    row_check length_within attempt_check distinct_paths excludes path_rank unique tokens keys
    order_by insert_sorted update_rows recover_expired_claims expire_queued_jobs
    lease_due_dispatches record_dispatch_published release_dispatch_leases dispatches_from_rows
    dispatch_from_row
pass_stopped = refl
