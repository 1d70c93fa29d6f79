-- ===== src/Jobs/Repository/Lifecycle/Refinement.antt =====
-- Every method of the repository implements the lifecycle.
use textify.Jobs.Tx.{Store}
use textify.Jobs.Repository.Policy.{Policy}
use textify.Jobs.Repository.Steps.{
  Call, create, expire, lease, publish, release, claim, heartbeat, recover, delete, cancel,
  finish_cancelled, finish_success, finish_failure, outage, after,
}
use textify.Jobs.Repository.Invariant.{Inv}
use textify.Jobs.Repository.Lifecycle.{Retires, Evolves, Evolves-refl, room}
use textify.Jobs.Repository.Lifecycle.Claims.{claim_dispatch-Evolved}
use textify.Jobs.Repository.Lifecycle.Requests.{create_queued-Evolved, request_cancellation-Evolved}
use textify.Jobs.Repository.Lifecycle.Deliveries.{
  expire_queued_jobs-Evolved, lease_due_dispatches-Evolved, record_dispatch_published-Evolved,
  release_dispatch_leases-Evolved, heartbeat_claims-Evolved,
}
use textify.Jobs.Repository.Lifecycle.Recoveries.{
  recover_expired_claims-Evolved, delete_expired_terminal_jobs-Evolves,
}
use textify.Jobs.Repository.Lifecycle.Publications.{
  publish_cancelled-Evolved, publish_success-Evolved, publish_failure-Evolved,
}

-- From a store that satisfies the invariant, every repository call, whatever its arguments and
-- clock reading, changes the rows by the lifecycle machine alone: each row keeps its place and
-- makes one move or stays; a row vanishes only by a cleanup at whose clock reading it was finished
-- a retention ago or earlier; and new rows are fresh queued jobs at the end, no more than the capacity left free.
pub after-Evolves :
    (p : Policy) (c : Call) (s : Store)
    → Inv s
    → Evolves p (room p s) (Retires p c) s.jobs (after p c s).jobs
unfolding after Retires
after-Evolves p (create now fresh new) s v = create_queued-Evolved p now fresh new s
after-Evolves p (expire limit now) s v = expire_queued_jobs-Evolved p limit now s
after-Evolves p (lease owner duration limit now) s v =
    lease_due_dispatches-Evolved p owner duration limit now s
after-Evolves p (publish d owner delay now) s v =
    record_dispatch_published-Evolved p d owner delay now s
after-Evolves p (release ds owner) s v = release_dispatch_leases-Evolved p ds owner s
after-Evolves p (claim d owner duration now) s v = claim_dispatch-Evolved p d owner duration now s v
after-Evolves p (heartbeat claims duration now) s v =
    heartbeat_claims-Evolved p claims duration now s
after-Evolves p (recover limit now) s v = recover_expired_claims-Evolved p limit now s v
after-Evolves p (delete now) s v = delete_expired_terminal_jobs-Evolves p now s
after-Evolves p (cancel public_id now) s v = request_cancellation-Evolved p public_id now s
after-Evolves p (finish_cancelled c now) s v = publish_cancelled-Evolved p c now s v
after-Evolves p (finish_success c r now) s v = publish_success-Evolved p c r now s v
after-Evolves p (finish_failure c code message now) s v =
    publish_failure-Evolved p c code message now s v
after-Evolves p outage s v = Evolves-refl p s.jobs
