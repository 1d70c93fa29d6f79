-- ===== src/Jobs/Claims.antt =====
-- `ExecutionClaimManager` of jobs/claim_manager.py. The manager is the state of one event loop: what
-- runs between two awaits is one function here, and another coroutine may run between two of them.
-- `asyncio.Event` is the flag with the coroutines that wait for it and those it has woken: `set`
-- wakes all that wait, and a woken coroutine does not look at the flag again.
-- A control is a number; its `request_cancellation` is the list of the signalled controls.
pub mod Steps
pub mod Invariant
pub mod Monitor
pub mod Draining
mod Tests
use textify.Prelude.{
  ℕ, ◌+◌, ◌-◌, String, Bool, true, false, ◌&&◌, ◌||◌, not, Option, none, some, List, [], ◌∷◌, map,
  ◌==◌, ltb, leb, length, select, any, if◌then◌else◌,
}
use textify.Jobs.Types.{
  Uuid, JobDispatch, ExecutionClaim, ClaimHeartbeat, ClaimedTranscriptionJob, Result, ok, err,
  store_unavailable, runtime_error, value_error, require,
}
use textify.Jobs.Repository.Dispatching.{same_dispatch}
use textify.Jobs.Repository.Claiming.{claim_dispatch, heartbeat_claims}
use textify.Jobs.Tx.{Store}

pub record Registration : Type 0 where
  pub claim : ExecutionClaim
  pub control : ℕ

pub record ClaimManager : Type 0 where
  pub worker_owner : Uuid
  pub max_active_claims : ℕ
  pub heartbeat_interval : ℕ
  pub claim_lease_duration : ℕ
  pub claims : List Registration
  pub ownership_lost : List ExecutionClaim
  pub pending_claims : ℕ
  pub drained : Bool
  pub waiting : ℕ
  pub woken : ℕ
  pub accepting : Bool
  pub started : Bool
  pub shutting_down : Bool
  pub monitoring : Bool
  pub signalled : List ℕ

-- `ExecutionClaimManager.__init__`, with the value of `uuid4()`
unfoldable pub new_manager : Uuid → ℕ → ℕ → ℕ → Result ClaimManager
unfolding require
new_manager owner max interval lease = require (ltb 0 max) (
    require (ltb 0 interval) (
      require (ltb 0 lease) (
        ok (record {
          worker_owner = owner;
          max_active_claims = max;
          heartbeat_interval = interval;
          claim_lease_duration = lease;
          claims = [];
          ownership_lost = [];
          pending_claims = 0;
          drained = true;
          waiting = 0;
          woken = 0;
          accepting = true;
          started = false;
          shutting_down = false;
          monitoring = false;
          signalled = [];
        }))))

-- `claim == other` of the frozen dataclass
unfoldable pub same_claim : ExecutionClaim → ExecutionClaim → Bool
unfolding same_dispatch
same_claim c d = same_dispatch c.dispatch d.dispatch && c.worker_owner == d.worker_owner

unfoldable pub is_in : List ExecutionClaim → ExecutionClaim → Bool
unfolding same_claim
is_in cs c = any (λ d. same_claim d c) cs

-- `self._claims.get(claim)`
unfoldable pub control_of : List Registration → ExecutionClaim → Option ℕ
unfolding same_claim
control_of [] c = none
control_of (r ∷ rs) c =
    let rest = control_of rs c in if same_claim r.claim c then some r.control else rest

-- `self._claims[claim] = control`: a new key stands last.
unfoldable pub register : List Registration → ExecutionClaim → ℕ → List Registration
unfolding same_claim
register [] c k = record { claim = c; control = k } ∷ []
register (r ∷ rs) c k =
    let rest = register rs c k in
    if same_claim r.claim c then record { claim = r.claim; control = k } ∷ rs else r ∷ rest

-- `self._claims.pop(claim, None)`
unfoldable pub deregister : List Registration → ExecutionClaim → List Registration
unfolding same_claim
deregister [] c = []
deregister (r ∷ rs) c = let rest = deregister rs c in if same_claim r.claim c then rs else r ∷ rest

unfoldable pub none_left : List Registration → Bool
none_left [] = true
none_left (r ∷ rs) = false

unfoldable pub update_drained_state : ClaimManager → ClaimManager
unfolding none_left
update_drained_state m =
    if m.pending_claims == 0 && none_left m.claims
    then record m { drained = true; woken = m.woken + m.waiting; waiting = 0 }
    else record m { drained = false }

unfoldable pub start : ClaimManager → Result ClaimManager
start m =
    if m.started || m.shutting_down
    then err runtime_error
    else ok (record m { started = true; monitoring = true })

-- `not self._accepting or len(self._claims) + self._pending_claims >= self._max_active_claims`
unfoldable pub is_closed : ClaimManager → Bool
is_closed m = not m.accepting || leb m.max_active_claims (length m.claims + m.pending_claims)

-- `claim` up to its first await: whether it goes on to the ownership probe.
unfoldable pub enter_claim : ClaimManager → Result Bool
unfolding is_closed
enter_claim m = if m.started then ok (not (is_closed m)) else err runtime_error

-- `claim` after the probe answered: the reservation of a place, if it is made.
unfoldable pub reserve : Bool → ClaimManager → Option ClaimManager
unfolding is_closed update_drained_state
reserve ready m =
    if not ready || is_closed m
    then none
    else some (update_drained_state (record m { pending_claims = m.pending_claims + 1 }))

-- the `finally` block
unfoldable pub unreserve : ClaimManager → ClaimManager
unfolding update_drained_state
unreserve m = update_drained_state (record m { pending_claims = m.pending_claims - 1 })

unfoldable pub admit :
    JobDispatch
    → ℕ
    → Option ClaimedTranscriptionJob
    → ClaimManager
    → Result (Option ClaimedTranscriptionJob) × ClaimManager
unfolding update_drained_state same_dispatch
admit d k none m = (ok none, update_drained_state m)
admit d k (some job) m =
    if same_dispatch job.claim.dispatch d && job.claim.worker_owner == m.worker_owner
    then (ok (some job), update_drained_state (record m { claims = register m.claims job.claim k }))
    else (err store_unavailable, m)

-- `claim` after the answer of the repository
unfoldable pub settle :
    JobDispatch
    → ℕ
    → Result (Option ClaimedTranscriptionJob)
    → ClaimManager
    → Result (Option ClaimedTranscriptionJob) × ClaimManager
unfolding admit unreserve
settle d k (err e) m = (err e, unreserve m)
settle d k (ok answer) m = admit d k answer (unreserve m)

-- The whole of `claim`, where no other coroutine runs in its awaits.
unfoldable pub claim_reserved :
    JobDispatch
    → ℕ
    → ℕ
    → Option ClaimManager
    → ClaimManager
    → Store
    → Result (Option ClaimedTranscriptionJob) × ClaimManager × Store
unfolding settle claim_dispatch
claim_reserved d k now none m s = (ok none, m, s)
claim_reserved d k now (some held) m s =
    let (answer, s') = claim_dispatch d held.worker_owner held.claim_lease_duration now s in
    let (result, m') = settle d k answer held in (result, m', s')

unfoldable pub claim_entered :
    JobDispatch
    → ℕ
    → Bool
    → ℕ
    → Result Bool
    → ClaimManager
    → Store
    → Result (Option ClaimedTranscriptionJob) × ClaimManager × Store
unfolding claim_reserved reserve
claim_entered d k ready now (err e) m s = (err e, m, s)
claim_entered d k ready now (ok false) m s = (ok none, m, s)
claim_entered d k ready now (ok true) m s = claim_reserved d k now (reserve ready m) m s

unfoldable pub claim :
    JobDispatch
    → ℕ
    → Bool
    → ℕ
    → ClaimManager
    → Store
    → Result (Option ClaimedTranscriptionJob) × ClaimManager × Store
unfolding claim_entered enter_claim
claim d k ready now m s = claim_entered d k ready now (enter_claim m) m s

unfoldable pub release : ExecutionClaim → ClaimManager → ClaimManager
unfolding deregister update_drained_state same_claim
release c m = update_drained_state (record m {
  claims = deregister m.claims c;
  ownership_lost = select (λ d. not (same_claim d c)) m.ownership_lost;
})

unfoldable pub stop_accepting : ClaimManager → ClaimManager
stop_accepting m = record m { accepting = false }

-- `shutdown` up to `await self._drained.wait()`, which returns at once if the flag is set.
unfoldable pub begin_shutdown : ClaimManager → ClaimManager
unfolding stop_accepting
begin_shutdown m =
    let closed = record (stop_accepting m) { shutting_down = true } in
    if m.drained
    then record closed { woken = m.woken + 1 }
    else record closed { waiting = m.waiting + 1 }

-- The rest of `shutdown`, in a coroutine that the event has woken.
unfoldable pub finish_shutdown : ClaimManager → ClaimManager
finish_shutdown m = record m { woken = m.woken - 1; monitoring = false }

-- The claims of one heartbeat batch.
unfoldable pub live_claims : ClaimManager → List ExecutionClaim
unfolding is_in
live_claims m = select (λ c. not (is_in m.ownership_lost c)) (map (λ r. r.claim) m.claims)

-- `heartbeat_by_claim.get(claim)`: the last heartbeat of a claim stands in the dictionary.
unfoldable pub heartbeat_of : List ClaimHeartbeat → ExecutionClaim → Option Bool
unfolding same_claim
heartbeat_of [] c = none
heartbeat_of (h ∷ hs) c =
    let rest = heartbeat_of hs c in
    elim rest [
      | some b ↦ some b
      | none ↦ if same_claim h.claim c then some h.cancellation_requested else none
    ]

-- `control.request_cancellation()`
unfoldable pub request_cancellation : ℕ → ClaimManager → ClaimManager
request_cancellation k m = record m { signalled = k ∷ m.signalled }

-- One round of the loop over the batch, by the control and the heartbeat of its claim.
unfoldable pub apply_heartbeat :
    ExecutionClaim → Option ℕ → Option Bool → ClaimManager → ClaimManager
unfolding request_cancellation
apply_heartbeat c none h m = m
apply_heartbeat c (some k) none m =
    request_cancellation k (record m { ownership_lost = c ∷ m.ownership_lost })
apply_heartbeat c (some k) (some requested) m = if requested then request_cancellation k m else m

unfoldable pub apply_heartbeats :
    List ClaimHeartbeat → List ExecutionClaim → ClaimManager → ClaimManager
unfolding apply_heartbeat control_of heartbeat_of
apply_heartbeats hs [] m = m
apply_heartbeats hs (c ∷ cs) m =
    apply_heartbeats hs cs (apply_heartbeat c (control_of m.claims c) (heartbeat_of hs c) m)

-- `_monitor` after the answer of the repository to one batch
unfoldable pub receive_heartbeats :
    List ExecutionClaim → Result (List ClaimHeartbeat) → ClaimManager → ClaimManager
unfolding apply_heartbeats
receive_heartbeats cs (err e) m = m
receive_heartbeats cs (ok hs) m = apply_heartbeats hs cs m

-- One round of `_monitor`, where no other coroutine runs in its await.
unfoldable pub monitor_batch : List ExecutionClaim → ℕ → ClaimManager → Store → ClaimManager × Store
unfolding receive_heartbeats heartbeat_claims
monitor_batch [] now m s = (m, s)
monitor_batch (c ∷ cs) now m s =
    let (answer, s') = heartbeat_claims (c ∷ cs) m.claim_lease_duration now s in
    (receive_heartbeats (c ∷ cs) answer m, s')

unfoldable pub monitor_round : ℕ → ClaimManager → Store → ClaimManager × Store
unfolding monitor_batch live_claims
monitor_round now m s = monitor_batch (live_claims m) now m s
