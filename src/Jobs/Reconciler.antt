-- ===== src/Jobs/Reconciler.antt =====
-- jobs/reconciler.py, one pass of TranscriptionJobReconciler over the repository. What the world
-- does is an argument: at each call the clock reading and whether the database answers, and at each
-- publication whether the broker accepts it. Another process may use the store between two passes.
pub mod Draining
mod Tests
use textify.Prelude.{ℕ, zero, suc, ◌+◌, Bool, true, false, ◌&&◌, List, [], ◌∷◌, ltb, if◌then◌else◌}
use textify.Jobs.Types.{
  Uuid, JobDispatch, Error, store_unavailable, value_error, Result, ok, err, require,
}
use textify.Jobs.Tx.{Store}
use textify.Jobs.Repository.Policy.{Policy}
use textify.Jobs.Repository.Dispatching.{
  expire_queued_jobs, lease_due_dispatches, record_dispatch_published, release_dispatch_leases,
}
use textify.Jobs.Repository.Recovery.{recover_expired_claims, delete_expired_terminal_jobs}

pub record ReconcilerPolicy : Type 0 where
  pub interval : ℕ
  pub publication_lease_duration : ℕ
  pub dispatch_batch_size : ℕ
  pub retention_cleanup_interval : ℕ

-- `ReconcilerPolicy.__post_init__`
unfoldable pub check_policy : ReconcilerPolicy → Result ReconcilerPolicy
unfolding require
check_policy p =
    require
      (ltb 0 p.interval
        && ltb 0 p.publication_lease_duration
        && ltb 0 p.dispatch_batch_size
        && ltb 0 p.retention_cleanup_interval)
      (ok p)

pub record Moment : Type 0 where
  pub now : ℕ
  pub answers : Bool
  pub accepted : Bool

-- A call of the repository; one that the database does not answer raises and changes nothing.
unfoldable pub call {ℓ} : {A : Type ℓ} → Moment → Result A × Store → Store → Result A × Store
call m r s = if m.answers then r else (err store_unavailable, s)

-- How a loop ends; `unfinished` is a loop whose fuel is used up.
pub data Ended : Type 0 where
  complete : Ended
  broker_unavailable : Ended
  failed : Error → Ended
  unfinished : Ended

-- `while await operation(): continue`
unfoldable pub drained : Result ℕ × Store → (Store → Ended × Store) → Ended × Store
drained (err e, t) again = (failed e, t)
drained (ok zero, t) again = (complete, t)
drained (ok (suc n), t) again = again t

unfoldable pub drain :
    (Moment → Store → Result ℕ × Store) → (ℕ → Moment) → ℕ → ℕ → Store → Ended × Store
unfolding drained call
drain operation world zero i s = (unfinished, s)
drain operation world (suc fuel) i s =
    drained (call (world i) (operation (world i) s) s) (λ t. drain operation world fuel (i + 1) t)

abbrev pub recovery : ReconcilerPolicy → Moment → Store → Result ℕ × Store
recovery p m s = recover_expired_claims p.dispatch_batch_size m.now s

abbrev pub expiry : ReconcilerPolicy → Moment → Store → Result ℕ × Store
expiry p m s = expire_queued_jobs p.dispatch_batch_size m.now s

-- `_recover_expired_claims`
unfoldable pub recover_claims : ReconcilerPolicy → (ℕ → Moment) → ℕ → Store → Ended × Store
unfolding drain
recover_claims p world fuel s = drain (recovery p) world fuel 0 s

-- `_expire_queued_jobs`
unfoldable pub expire_queue : ReconcilerPolicy → (ℕ → Moment) → ℕ → Store → Ended × Store
unfolding drain
expire_queue p world fuel s = drain (expiry p) world fuel 0 s

unfoldable pub recorded : Result Bool × Store → (Store → Ended × Store) → Ended × Store
recorded (err e, t) rest = (failed e, t)
recorded (ok b, t) rest = rest t

unfoldable pub gave_up : Result (Unit {0}) × Store → Ended × Store
gave_up (err e, t) = (failed e, t)
gave_up (ok u, t) = (broker_unavailable, t)

-- The `for` loop over a batch, from the dispatch `k`.
unfoldable pub publish_batch :
    ReconcilerPolicy → Uuid → (ℕ → Moment) → ℕ → List JobDispatch → Store → Ended × Store
unfolding recorded gave_up call
publish_batch p owner world k [] s = (complete, s)
publish_batch p owner world k (d ∷ ds) s =
    let rest = λ (t : Store). publish_batch p owner world (k + 1) ds t in
    if (world k).accepted
    then recorded (call (world k) (record_dispatch_published d owner p.interval (world k).now s) s)
        rest
    else gave_up (call (world k) (release_dispatch_leases (d ∷ ds) owner s) s)

unfoldable pub after_batch : Ended × Store → (Store → Ended × Store) → Ended × Store
after_batch (complete, t) again = again t
after_batch (e, t) again = (e, t)

-- The body of the `while True` loop, by what the lease returns.
unfoldable pub publish_leased :
    ReconcilerPolicy
    → Uuid
    → (ℕ → Moment)
    → Result (List JobDispatch) × Store
    → (Store → Ended × Store)
    → Ended × Store
unfolding publish_batch after_batch
publish_leased p owner world (err e, t) again = (failed e, t)
publish_leased p owner world (ok [], t) again = (complete, t)
publish_leased p owner world (ok (d ∷ ds), t) again =
    after_batch (publish_batch p owner world 1 (d ∷ ds) t) again

unfoldable pub publish_due :
    ReconcilerPolicy → Uuid → (ℕ → ℕ → Moment) → ℕ → ℕ → Store → Ended × Store
unfolding publish_leased call
publish_due p owner world zero i s = (unfinished, s)
publish_due p owner world (suc fuel) i s =
    publish_leased p owner (world i)
      (call (world i 0)
        (lease_due_dispatches owner p.publication_lease_duration p.dispatch_batch_size
          (world i 0).now s)
        s)
      (λ t. publish_due p owner world fuel (i + 1) t)

unfoldable pub and_then : Ended × Store → (Store → Ended × Store) → Ended × Store
and_then (complete, t) next = next t
and_then (e, t) next = (e, t)

-- What the world does during a pass.
pub record World : Type 0 where
  pub recovering : ℕ → Moment
  pub expiring : ℕ → Moment
  pub publishing : ℕ → ℕ → Moment

-- True is `complete`, False `broker_unavailable`; `rounds` bounds each of the three loops.
unfoldable pub reconcile_once : ReconcilerPolicy → Uuid → World → ℕ → Store → Ended × Store
unfolding and_then recover_claims expire_queue publish_due
reconcile_once p owner world rounds s = and_then (recover_claims p world.recovering rounds s) (λ t.
    and_then (expire_queue p world.expiring rounds t)
      (λ u. publish_due p owner world.publishing rounds 0 u))

unfoldable pub cleanup_once : Policy → Moment → Store → Result (Unit {0}) × Store
unfolding call
cleanup_once p m s = call m (delete_expired_terminal_jobs p m.now s) s
