-- ===== src/Jobs/Repository/Steps.antt =====
-- The transactions that any process may run on the store, in any order and with any arguments.
-- A method that meets an outage of the database raises and leaves the store as it was.
use textify.Prelude.{ℕ, String, List}
use textify.Errors.{PublicErrorCode}
use textify.Transcription.Fields.{TranscriptionResponse}
use textify.Jobs.Types.{Uuid, JobDispatch, ExecutionClaim, NewQueuedTranscriptionJob}
use textify.Jobs.Tx.{Store}
use textify.Jobs.Repository.Policy.{Policy}
use textify.Jobs.Repository.Admission.{Fresh, create_queued}
use textify.Jobs.Repository.Dispatching.{
  expire_queued_jobs, lease_due_dispatches, record_dispatch_published, release_dispatch_leases,
}
use textify.Jobs.Repository.Claiming.{claim_dispatch, heartbeat_claims}
use textify.Jobs.Repository.Recovery.{recover_expired_claims, delete_expired_terminal_jobs}
use textify.Jobs.Repository.Cancelling.{request_cancellation}
use textify.Jobs.Repository.Publishing.{publish_cancelled, publish_success, publish_failure}

-- One call of a method of the repository, with the clock reading of its transaction.
pub data Call : Type 0 where
  create : ℕ → Fresh → NewQueuedTranscriptionJob → Call
  expire : ℕ → ℕ → Call
  lease : Uuid → ℕ → ℕ → ℕ → Call
  publish : JobDispatch → Uuid → ℕ → ℕ → Call
  release : List JobDispatch → Uuid → Call
  claim : JobDispatch → Uuid → ℕ → ℕ → Call
  heartbeat : List ExecutionClaim → ℕ → ℕ → Call
  recover : ℕ → ℕ → Call
  delete : ℕ → Call
  cancel : Uuid → ℕ → Call
  finish_cancelled : ExecutionClaim → ℕ → Call
  finish_success : ExecutionClaim → TranscriptionResponse → ℕ → Call
  finish_failure : ExecutionClaim → PublicErrorCode → String → ℕ → Call
  outage : Call

-- The store after a call.
unfoldable pub after : Policy → Call → Store → Store
after p (create now fresh new) s = (create_queued p now fresh new s).1
after p (expire limit now) s = (expire_queued_jobs limit now s).1
after p (lease owner duration limit now) s = (lease_due_dispatches owner duration limit now s).1
after p (publish d owner delay now) s = (record_dispatch_published d owner delay now s).1
after p (release ds owner) s = (release_dispatch_leases ds owner s).1
after p (claim d owner duration now) s = (claim_dispatch d owner duration now s).1
after p (heartbeat claims duration now) s = (heartbeat_claims claims duration now s).1
after p (recover limit now) s = (recover_expired_claims limit now s).1
after p (delete now) s = (delete_expired_terminal_jobs p now s).1
after p (cancel public_id now) s = (request_cancellation p public_id now s).1
after p (finish_cancelled c now) s = (publish_cancelled c now s).1
after p (finish_success c r now) s = (publish_success c r now s).1
after p (finish_failure c code message now) s = (publish_failure c code message now s).1
after p outage s = s

-- The stores that calls lead to.
pub data Reach (p : Policy) (s : Store) : Store → Type 0 where
  here : Reach p s s
  next : {t : Store} → Reach p s t → (c : Call) → Reach p s (after p c t)
