-- ===== src/Jobs/Repository/Admission.antt =====
-- `create_queued` of jobs/repository.py.
use textify.Prelude.{
  ℕ, ◌+◌, Bool, false, ◌&&◌, ◌||◌, Option, none, some, List, [], ◌∷◌, ◌++◌, leb, null_eq, str_eq,
  count, all, if◌then◌else◌,
}
use textify.Transcription.Fields.{ResponseFieldPath, excludes}
use textify.Jobs.Types.{
  Uuid, is_uuid4, queued, is_queued, is_processing, NewQueuedTranscriptionJob,
  QueuedTranscriptionJob, capacity, idempotency_conflict, value_error, Result, ok, err,
}
use textify.Jobs.Schema.{Job}
use textify.Jobs.Tx.{Store, Tx, ◌>>=◌, lift, transaction, select_one}
use textify.Jobs.Rows.{accepted_job_from_row}
use textify.Jobs.Repository.Policy.{Policy}

-- What `uuid4()` returns for the new job.
pub record Fresh : Type 0 where
  pub public_id : Uuid
  pub execution_attempt_token : Uuid

-- status IN ('queued', 'processing')
unfoldable pub is_outstanding : Job → Bool
unfolding is_queued is_processing
is_outstanding j = is_queued j.status || is_processing j.status

-- `_count_outstanding_jobs`
unfoldable pub count_outstanding_jobs : Store → ℕ
unfolding is_outstanding
count_outstanding_jobs s = count is_outstanding s.jobs

unfoldable pub subset_paths : List ResponseFieldPath → List ResponseFieldPath → Bool
subset_paths ps qs = all (excludes qs) ps

-- `set(stored_exclusions) == set(exclusions)`
unfoldable pub same_paths : List ResponseFieldPath → List ResponseFieldPath → Bool
unfolding subset_paths
same_paths ps qs = subset_paths ps qs && subset_paths qs ps

unfoldable pub same_request : NewQueuedTranscriptionJob → Job → Bool
unfolding same_paths
same_request new j =
    str_eq j.submitted_url new.request_identity.submitted_url
    && same_paths j.exclusions new.request_identity.exclusions

-- An accepted key is answered again, or refused for another request.
unfoldable pub replay : NewQueuedTranscriptionJob → Job → Tx QueuedTranscriptionJob
unfolding same_request accepted_job_from_row
replay new j s =
    if same_request new j then lift (accepted_job_from_row j) s else err idempotency_conflict

-- The rows that the INSERT statements write.
unfoldable pub new_job : Policy → ℕ → Fresh → NewQueuedTranscriptionJob → ℕ → Job
new_job p now fresh new id = record {
  id = id;
  public_id = fresh.public_id;
  submitted_url = new.request_identity.submitted_url;
  status = queued;
  outcome = none;
  submitted_at = now;
  queue_deadline_at = now + p.queue_timeout;
  started_at = none;
  finished_at = none;
  cancellation_requested = false;
  error_code = none;
  error_message = none;
  attempt = some (record {
    execution_attempt_token = fresh.execution_attempt_token;
    next_dispatch_at = now;
    publication_lease_owner = none;
    publication_lease_expires_at = none;
    last_dispatched_at = none;
    dispatch_count = 0;
    worker_owner = none;
    last_heartbeat_at = none;
    claim_lease_expires_at = none;
  });
  idempotency_key = some new.idempotency_key;
  exclusions = new.request_identity.exclusions;
  result = none;
}

unfoldable pub insert_job :
    Policy → ℕ → Fresh → NewQueuedTranscriptionJob → Tx QueuedTranscriptionJob
unfolding new_job
insert_job p now fresh new s = ok (
  record {
    internal_id = s.next_id;
    public_id = fresh.public_id;
    submitted_at = now;
    queue_deadline_at = now + p.queue_timeout;
  },
  record { jobs = s.jobs ++ new_job p now fresh new s.next_id ∷ []; next_id = s.next_id + 1 },
)

unfoldable pub admit : Policy → ℕ → Fresh → NewQueuedTranscriptionJob → Tx QueuedTranscriptionJob
unfolding count_outstanding_jobs insert_job
admit p now fresh new s =
    if leb p.maximum_outstanding_jobs (count_outstanding_jobs s)
    then err capacity
    else insert_job p now fresh new s

unfoldable pub replay_or_admit :
    Policy → ℕ → Fresh → NewQueuedTranscriptionJob → Option Job → Tx QueuedTranscriptionJob
unfolding replay admit
replay_or_admit p now fresh new (some j) = replay new j
replay_or_admit p now fresh new none = admit p now fresh new

-- The body of the transaction.
unfoldable pub create_queued_tx :
    Policy → ℕ → Fresh → NewQueuedTranscriptionJob → Tx QueuedTranscriptionJob
unfolding replay_or_admit select_one
create_queued_tx p now fresh new = do
  existing ← select_one (λ j. null_eq j.idempotency_key new.idempotency_key)
  replay_or_admit p now fresh new existing

unfoldable pub create_queued :
    Policy → ℕ → Fresh → NewQueuedTranscriptionJob → Store → Result QueuedTranscriptionJob × Store
unfolding create_queued_tx transaction
create_queued p now fresh new s =
    if is_uuid4 new.idempotency_key
    then transaction (create_queued_tx p now fresh new) s
    else (err value_error, s)
