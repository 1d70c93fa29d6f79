-- ===== src/Jobs/Repository/History/Constraints.antt =====
-- No call leaves a store whose constraints are broken: a transaction that would is rolled back.
use textify.Prelude.{Bool, true, false, ◌≡◌, List, [], ◌∷◌, ℕ, all, some, if◌then◌else◌, arith}
use textify.Errors.{ErrorDetail}
use textify.Transcription.Fields.{TranscriptionResponse}
use textify.Jobs.Types.{value_error, ExecutionClaim, JobDispatch, Uuid, Result, ok, err}
use textify.Jobs.Rows.{validate_response, validate_error_detail}
use textify.Jobs.Schema.{schema_check}
use textify.Jobs.Tx.{Store, commit, transaction, delete_where}
use textify.Jobs.Tx.Updates.{commit-keeps}
use textify.Jobs.Repository.Policy.{Policy}
use textify.Jobs.Repository.Admission.{create_queued}
use textify.Jobs.Repository.Dispatching.{
  expire_queued_jobs, lease_tx, lease_due_dispatches, record_dispatch_published, release_leases,
  release_dispatch_leases,
}
use textify.Jobs.Repository.Claiming.{
  claim_dispatch, valid_claim, renew, heartbeat_nonempty, heartbeat_claims,
}
use textify.Jobs.Repository.Recovery.{
  recover_expired_claims, is_retired, delete_expired_terminal_jobs,
}
use textify.Jobs.Repository.Cancelling.{request_cancellation}
use textify.Jobs.Repository.Publishing.{
  publish_cancelled, publish_valid, publish_success, publish_error, publish_failure,
}
use textify.Jobs.Repository.Steps.{
  Call, create, expire, lease, publish, release, claim, heartbeat, recover, delete, cancel,
  finish_cancelled, finish_success, finish_failure, outage, after,
}
use textify.Jobs.Repository.Lifecycle.Deliveries.{leased_in_order-store}

abbrev pub Met : Store → Type 0
Met s = schema_check s.jobs ≡ true

commit-Met : {A : Type 0} (s : Store) (r : Result (A × Store)) → Met s → Met (commit s r).1
commit-Met s r h = commit-keeps Met s r h (λ a t e good. good)

guarded-Met :
    {A : Type 0} (b : Bool) (s : Store) (r : Result (A × Store))
    → Met s
    → Met (if b then commit s r else (err value_error, s)).1
guarded-Met true s r h = commit-Met s r h
guarded-Met false s r h = h

lease-Met :
    (owner : Uuid) (duration limit now : ℕ) (s : Store)
    → Met s
    → Met (lease_due_dispatches owner duration limit now s).1
unfolding lease_due_dispatches transaction
lease-Met owner duration limit now s h = ground (
  arith,
  commit-Met s (lease_tx owner duration limit now s) h,
  leased_in_order-store (transaction (lease_tx owner duration limit now) s),
)

release-Met :
    (ds : List JobDispatch) (owner : Uuid) (s : Store) → Met s → Met (release_leases ds owner s).1
unfolding release_leases
release-Met [] owner s h = h
release-Met (d ∷ ds) owner s h = commit-Met s (ok (tt {0}, _)) h

heartbeat-Met :
    (claims : List ExecutionClaim) (duration now : ℕ) (s : Store)
    → Met s
    → Met (heartbeat_nonempty claims duration now s).1
unfolding heartbeat_nonempty
heartbeat-Met [] duration now s h = h
heartbeat-Met (c ∷ cs) duration now s h =
    guarded-Met (all valid_claim (c ∷ cs)) s (renew (c ∷ cs) duration now s) h

publish_valid-Met :
    (c : ExecutionClaim) (r : Result TranscriptionResponse) (now : ℕ) (s : Store)
    → Met s
    → Met (publish_valid c r now s).1
unfolding publish_valid
publish_valid-Met c (err e) now s h = h
publish_valid-Met c (ok r) now s h = commit-Met s _ h

publish_error-Met :
    (c : ExecutionClaim) (d : Result ErrorDetail) (now : ℕ) (s : Store)
    → Met s
    → Met (publish_error c d now s).1
unfolding publish_error
publish_error-Met c (err e) now s h = h
publish_error-Met c (ok d) now s h = commit-Met s _ h

pub after-Met : (p : Policy) (c : Call) (s : Store) → Met s → Met (after p c s)
unfolding after create_queued expire_queued_jobs record_dispatch_published release_dispatch_leases
    claim_dispatch heartbeat_claims recover_expired_claims delete_expired_terminal_jobs
    request_cancellation publish_cancelled publish_success publish_failure
after-Met p (create now fresh new) s h = guarded-Met _ s _ h
after-Met p (expire limit now) s h = guarded-Met _ s _ h
after-Met p (lease owner duration limit now) s h = lease-Met owner duration limit now s h
after-Met p (publish d owner delay now) s h = guarded-Met _ s _ h
after-Met p (release ds owner) s h = ground (arith, release-Met ds owner s h)
after-Met p (claim d owner duration now) s h = guarded-Met _ s _ h
after-Met p (heartbeat claims duration now) s h =
    ground (arith, heartbeat-Met claims duration now s h)
after-Met p (recover limit now) s h = guarded-Met _ s _ h
after-Met p (delete now) s h = commit-Met s (delete_where (is_retired p now) s) h
after-Met p (cancel public_id now) s h = commit-Met s _ h
after-Met p (finish_cancelled c now) s h = guarded-Met _ s _ h
after-Met p (finish_success c r now) s h =
    ground (arith, publish_valid-Met c (validate_response r) now s h)
after-Met p (finish_failure c code message now) s h =
    ground (arith, publish_error-Met c (validate_error_detail (some code) (some message)) now s h)
after-Met p outage s h = h
