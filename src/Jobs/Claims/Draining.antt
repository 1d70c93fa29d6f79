-- ===== src/Jobs/Claims/Draining.antt =====
-- How the manager drains after it has closed.
use textify.Prelude.{
  ℕ, ◌+◌, ◌-◌, ◌≤◌, ◌<◌, true, false, not, ◌≡◌, refl, Option, none, some, List, [], ◌∷◌, select,
  length, arith,
}
use textify.Jobs.Types.{
  JobDispatch, ExecutionClaim, ClaimHeartbeat, ClaimedTranscriptionJob, Result, ok, err,
}
use textify.Jobs.Repository.Dispatching.{same_dispatch}
use textify.Jobs.Claims.{
  ClaimManager, same_claim, register, deregister, none_left, update_drained_state, start, is_closed,
  reserve, unreserve, admit, settle, release, stop_accepting, begin_shutdown, finish_shutdown,
  request_cancellation, apply_heartbeat, apply_heartbeats, receive_heartbeats, control_of,
  heartbeat_of,
}
use textify.Jobs.Claims.Steps.{
  Step, started, reserved, settled, released, closed, shut, finished, beat, Run, here, next,
}
use textify.Jobs.Claims.Invariant.{length-register, length-deregister}

-- The executions that the manager answers for.
abbrev pub load : ClaimManager → ℕ
load m = length m.claims + m.pending_claims

abbrev pub Falls : ClaimManager → ClaimManager → Type 0
Falls m t = (t.accepting ≡ false) × (load t ≤ load m)

updated :
    (m : ClaimManager)
    → ((update_drained_state m).accepting ≡ m.accepting) × (load (update_drained_state m) ≡ load m)
unfolding update_drained_state
updated m = ground arith

settle-Falls :
    (d : JobDispatch) (k : ℕ) (answer : Result (Option ClaimedTranscriptionJob)) (m : ClaimManager)
    → 0 < m.pending_claims
    → m.accepting ≡ false
    → Falls m (settle d k answer m).1
unfolding settle unreserve admit
settle-Falls d k (err e) m p h =
    ground (arith, updated (record m { pending_claims = m.pending_claims - 1 }))
settle-Falls d k (ok none) m p h =
    let u = update_drained_state (record m { pending_claims = m.pending_claims - 1 }) in
    ground (arith, updated (record m { pending_claims = m.pending_claims - 1 }), updated u)
settle-Falls d k (ok (some job)) m p h =
    let u = update_drained_state (record m { pending_claims = m.pending_claims - 1 }) in
    ground (
      arith,
      updated (record m { pending_claims = m.pending_claims - 1 }),
      updated (record u { claims = register u.claims job.claim k }),
      length-register u.claims job.claim k,
    )

apply_heartbeats-load :
    (hs : List ClaimHeartbeat) (cs : List ExecutionClaim) (m : ClaimManager)
    → ((apply_heartbeats hs cs m).accepting ≡ m.accepting)
      × (load (apply_heartbeats hs cs m) ≡ load m)
unfolding apply_heartbeats apply_heartbeat request_cancellation
apply_heartbeats-load hs [] m = (refl, refl)
apply_heartbeats-load hs (c ∷ cs) m = ground (
  arith,
  apply_heartbeats-load hs cs (apply_heartbeat c (control_of m.claims c) (heartbeat_of hs c) m),
)

receive_heartbeats-Falls :
    (cs : List ExecutionClaim) (answer : Result (List ClaimHeartbeat)) (m : ClaimManager)
    → m.accepting ≡ false
    → Falls m (receive_heartbeats cs answer m)
unfolding receive_heartbeats
receive_heartbeats-Falls cs (err e) m h = (h, omega arith)
receive_heartbeats-Falls cs (ok hs) m h = ground (arith, apply_heartbeats-load hs cs m)

Step-Falls : {m t : ClaimManager} → Step m t → m.accepting ≡ false → Falls m t
unfolding start reserve is_closed release stop_accepting begin_shutdown finish_shutdown
Step-Falls {m} {t} (started e) h = ground arith
Step-Falls {m} {t} (reserved ready e) h = ground arith
Step-Falls {m} (settled d k answer p) h = settle-Falls d k answer m p h
Step-Falls {m} (released c) h = ground (
  arith,
  updated (record m {
    claims = deregister m.claims c;
    ownership_lost = select (λ d. not (same_claim d c)) m.ownership_lost;
  }),
  length-deregister m.claims c,
)
Step-Falls {m} closed h = (refl, omega arith)
Step-Falls {m} shut h = ground arith
Step-Falls {m} (finished p) h = (h, omega arith)
Step-Falls {m} (beat cs answer) h = receive_heartbeats-Falls cs answer m h

-- Once admission is closed, it stays closed and the executions that the manager answers for, pending
-- claims and registered ones, never grow again, in any interleaving.
pub Run-Falls : {m t : ClaimManager} → m.accepting ≡ false → Run m t → Falls m t
Run-Falls h here = (h, omega arith)
Run-Falls h (next r st) =
    let (a, l) = Run-Falls h r in let (b, k) = Step-Falls st a in (b, omega (arith, l, k))

-- If a shutdown waits when the last pending claim of a manager without executions succeeds, the
-- claim is registered and the event is clear, yet the shutdown is woken, and after its next step
-- the heartbeat monitor is stopped beside the registered execution.
pub settle-wakes_early :
    (d : JobDispatch) (k : ℕ) (job : ClaimedTranscriptionJob) (m : ClaimManager)
    → m.pending_claims ≡ 1
    → m.claims ≡ []
    → 0 < m.waiting
    → same_dispatch job.claim.dispatch d ≡ true
    → job.claim.worker_owner ≡ m.worker_owner
    → let t = (settle d k (ok (some job)) m).1 in
      (t.claims ≡ record { claim = job.claim; control = k } ∷ [])
      × (t.drained ≡ false)
      × (0 < t.woken)
      × ((finish_shutdown t).claims ≡ t.claims)
      × ((finish_shutdown t).monitoring ≡ false)
unfolding settle unreserve admit update_drained_state none_left register finish_shutdown
settle-wakes_early d k job m p c w e o = (ground arith, ground arith, ground arith, refl, refl)
