-- ===== src/Jobs/Claims/Invariant.antt =====
-- What holds of the claim manager under every interleaving.
use textify.Prelude.{
  ℕ, ◌+◌, ◌-◌, ◌≤◌, ◌<◌, Bool, true, false, ◌&&◌, ◌||◌, not, ◌≡◌, refl, sym, ◌∙◌, subst, Option,
  none, some, List, [], ◌∷◌, ◌==◌, ltb, length, select, any, All, All-map, All-select, select-All,
  All-zip, arith, Bool-cases, inl, inr,
}
use textify.Jobs.Types.{
  JobDispatch, ExecutionClaim, ClaimHeartbeat, ClaimedTranscriptionJob, Result, ok, err, require,
}
use textify.Jobs.Repository.Dispatching.{same_dispatch}
use textify.Jobs.Claims.{
  Registration, ClaimManager, new_manager, same_claim, control_of, register, deregister, none_left,
  update_drained_state, start, is_closed, reserve, unreserve, admit, settle, release,
  stop_accepting, begin_shutdown, finish_shutdown, heartbeat_of, request_cancellation,
  apply_heartbeat, apply_heartbeats, receive_heartbeats,
}
use textify.Jobs.Claims.Steps.{
  Step, started, reserved, settled, released, closed, shut, finished, beat, Run, here, next,
}

abbrev pub is_registered : List Registration → ExecutionClaim → Bool
is_registered rs c = any (λ r. same_claim r.claim c) rs

-- The event is set exactly when nothing is registered and nothing pending, no more executions are
-- admitted than the bound allows, a lost claim is still registered, and while the event is set no
-- coroutine waits for it.
pub record IsValid (m : ClaimManager) : Type 0 where
  pub drained_iff : m.drained ≡ (m.pending_claims == 0 && none_left m.claims)
  pub bounded : length m.claims + m.pending_claims ≤ m.max_active_claims
  pub lost : All (λ c. is_registered m.claims c ≡ true) m.ownership_lost
  pub awake : m.drained ≡ true → m.waiting ≡ 0

pub length-register :
    (rs : List Registration) (c : ExecutionClaim) (k : ℕ) → length (register rs c k) ≤ length rs + 1
unfolding register
length-register [] c k = omega arith
length-register (r ∷ rs) c k = ground (arith, length-register rs c k)

pub length-deregister :
    (rs : List Registration) (c : ExecutionClaim) → length (deregister rs c) ≤ length rs
unfolding deregister
length-deregister [] c = omega arith
length-deregister (r ∷ rs) c = ground (arith, length-deregister rs c)

registered-register :
    (rs : List Registration) (c d : ExecutionClaim) (k : ℕ)
    → is_registered rs d ≡ true
    → is_registered (register rs c k) d ≡ true
unfolding register any
registered-register [] c d k h = cc h
registered-register (r ∷ rs) c d k h = ground (arith, registered-register rs c d k)

registered-deregister :
    (rs : List Registration) (c d : ExecutionClaim)
    → is_registered rs d ≡ true
    → not (same_claim d c) ≡ true
    → is_registered (deregister rs c) d ≡ true
unfolding deregister any same_claim
registered-deregister [] c d h n = cc h
registered-deregister (r ∷ rs) c d h n = ground (arith, registered-deregister rs c d)

pub control_of-registered :
    (rs : List Registration) (c : ExecutionClaim) (k : ℕ)
    → control_of rs c ≡ some k
    → is_registered rs c ≡ true
unfolding control_of any
control_of-registered [] c k h = cc h
control_of-registered (r ∷ rs) c k h = ground (arith, control_of-registered rs c k)

abbrev Lost : ClaimManager → Type 0
Lost m = All (λ c. is_registered m.claims c ≡ true) m.ownership_lost

-- The state of the event is brought up to date by every operation that changes what it tells.
updated :
    (m : ClaimManager)
    → length m.claims + m.pending_claims ≤ m.max_active_claims
    → Lost m
    → IsValid (update_drained_state m)
unfolding update_drained_state none_left
updated m b l = elim (Bool-cases (m.pending_claims == 0 && none_left m.claims)) [
  | inl e ↦
      rw (e, update_drained_state)
        (record { drained_iff = sym e; bounded = b; lost = l; awake = λ _. refl })
  | inr e ↦
      rw (e, update_drained_state)
        (record { drained_iff = sym e; bounded = b; lost = l; awake = λ f. cc f })
]

unreserve-IsValid : (m : ClaimManager) → IsValid m → IsValid (unreserve m)
unfolding unreserve
unreserve-IsValid m v =
    updated (record m { pending_claims = m.pending_claims - 1 }) (omega (arith, v.bounded)) v.lost

reserve-IsValid :
    (ready : Bool) (m t : ClaimManager) → IsValid m → reserve ready m ≡ some t → IsValid t
unfolding reserve is_closed
reserve-IsValid ready m t v h = elim (Bool-cases (not ready || is_closed m)) [
  | inl e ↦ absurd (ground arith)
  | inr e ↦ subst IsValid (ground arith) (
      updated (record m { pending_claims = m.pending_claims + 1 }) (ground (arith, v.bounded))
        v.lost)
]

admit-IsValid :
    (d : JobDispatch) (k : ℕ) (answer : Option ClaimedTranscriptionJob) (m : ClaimManager)
    → IsValid m
    → length m.claims + m.pending_claims < m.max_active_claims
    → IsValid (admit d k answer m).1
unfolding admit
admit-IsValid d k none m v b = updated m v.bounded v.lost
admit-IsValid d k (some job) m v b =
    elim (Bool-cases
      (same_dispatch job.claim.dispatch d && job.claim.worker_owner == m.worker_owner)) [
        | inl e ↦
            rw (e, admit)
              (updated (record m { claims = register m.claims job.claim k })
                (omega (arith, length-register m.claims job.claim k))
                (All-map _ _ (λ c. registered-register m.claims job.claim c k) m.ownership_lost
                  v.lost))
        | inr e ↦ rw (e, admit) v
      ]

unreserve-load :
    (m : ClaimManager)
    → (length (unreserve m).claims + (unreserve m).pending_claims
        ≡ length m.claims + (m.pending_claims - 1))
      × ((unreserve m).max_active_claims ≡ m.max_active_claims)
unfolding unreserve update_drained_state
unreserve-load m = ground arith

settle-IsValid :
    (d : JobDispatch) (k : ℕ) (answer : Result (Option ClaimedTranscriptionJob)) (m : ClaimManager)
    → 0 < m.pending_claims
    → IsValid m
    → IsValid (settle d k answer m).1
unfolding settle
settle-IsValid d k (err e) m p v = unreserve-IsValid m v
settle-IsValid d k (ok answer) m p v =
    admit-IsValid d k answer (unreserve m) (unreserve-IsValid m v)
      (omega (arith, v.bounded, (unreserve-load m).0, (unreserve-load m).1))

release-IsValid : (c : ExecutionClaim) (m : ClaimManager) → IsValid m → IsValid (release c m)
unfolding release
release-IsValid c m v =
    updated
      (record m {
        claims = deregister m.claims c;
        ownership_lost = select (λ d. not (same_claim d c)) m.ownership_lost;
      })
      (omega (arith, v.bounded, length-deregister m.claims c))
      (All-map _ _ (λ d h. registered-deregister m.claims c d h.0 h.1)
        (select (λ d. not (same_claim d c)) m.ownership_lost)
        (All-zip _ _ _ (All-select _ (λ d. not (same_claim d c)) m.ownership_lost v.lost)
          (select-All (λ d. not (same_claim d c)) m.ownership_lost)))

apply_heartbeat-IsValid :
    (c : ExecutionClaim) (k : Option ℕ) (h : Option Bool) (m : ClaimManager)
    → control_of m.claims c ≡ k
    → IsValid m
    → IsValid (apply_heartbeat c k h m)
unfolding apply_heartbeat request_cancellation
apply_heartbeat-IsValid c none h m e v = v
apply_heartbeat-IsValid c (some k) none m e v = record {
  drained_iff = v.drained_iff;
  bounded = v.bounded;
  lost = (control_of-registered m.claims c k e, v.lost);
  awake = v.awake;
}
apply_heartbeat-IsValid c (some k) (some true) m e v = record {
  drained_iff = v.drained_iff;
  bounded = v.bounded;
  lost = v.lost;
  awake = v.awake;
}
apply_heartbeat-IsValid c (some k) (some false) m e v = v

apply_heartbeats-IsValid :
    (hs : List ClaimHeartbeat) (cs : List ExecutionClaim) (m : ClaimManager)
    → IsValid m
    → IsValid (apply_heartbeats hs cs m)
unfolding apply_heartbeats
apply_heartbeats-IsValid hs [] m v = v
apply_heartbeats-IsValid hs (c ∷ cs) m v =
    apply_heartbeats-IsValid hs cs _
      (apply_heartbeat-IsValid c (control_of m.claims c) (heartbeat_of hs c) m refl v)

receive_heartbeats-IsValid :
    (cs : List ExecutionClaim) (answer : Result (List ClaimHeartbeat)) (m : ClaimManager)
    → IsValid m
    → IsValid (receive_heartbeats cs answer m)
unfolding receive_heartbeats
receive_heartbeats-IsValid cs (err e) m v = v
receive_heartbeats-IsValid cs (ok hs) m v = apply_heartbeats-IsValid hs cs m v

start-IsValid : (m t : ClaimManager) → IsValid m → start m ≡ ok t → IsValid t
unfolding start
start-IsValid m t v e = elim (Bool-cases (m.started || m.shutting_down)) [
  | inl h ↦ absurd (ground arith)
  | inr h ↦
      let w : IsValid (record m { started = true; monitoring = true }) = record {
        drained_iff = v.drained_iff;
        bounded = v.bounded;
        lost = v.lost;
        awake = v.awake;
      } in
      subst IsValid (ground arith) w
]

begin_shutdown-IsValid : (m : ClaimManager) → IsValid m → IsValid (begin_shutdown m)
unfolding begin_shutdown stop_accepting
begin_shutdown-IsValid m v = elim (Bool-cases m.drained) [
  | inl e ↦
      rw (e, begin_shutdown)
        (record {
          drained_iff = sym e ∙ v.drained_iff;
          bounded = v.bounded;
          lost = v.lost;
          awake = λ _. v.awake e;
        })
  | inr e ↦
      rw (e, begin_shutdown)
        (record {
          drained_iff = sym e ∙ v.drained_iff;
          bounded = v.bounded;
          lost = v.lost;
          awake = λ f. cc f;
        })
]

pub Step-IsValid : {m t : ClaimManager} → Step m t → IsValid m → IsValid t
unfolding stop_accepting finish_shutdown
Step-IsValid {m} {t} (started e) v = start-IsValid m t v e
Step-IsValid {m} {t} (reserved ready e) v = reserve-IsValid ready m t v e
Step-IsValid {m} (settled d k answer p) v = settle-IsValid d k answer m p v
Step-IsValid {m} (released c) v = release-IsValid c m v
Step-IsValid {m} closed v = record {
  drained_iff = v.drained_iff;
  bounded = v.bounded;
  lost = v.lost;
  awake = v.awake;
}
Step-IsValid {m} shut v = begin_shutdown-IsValid m v
Step-IsValid {m} (finished p) v = record {
  drained_iff = v.drained_iff;
  bounded = v.bounded;
  lost = v.lost;
  awake = v.awake;
}
Step-IsValid {m} (beat cs answer) v = receive_heartbeats-IsValid cs answer m v

abbrev IsValidIf : Result ClaimManager → Type 0
IsValidIf (ok m) = IsValid m
IsValidIf (err e) = Unit

require-IsValid : (b : Bool) (r : Result ClaimManager) → IsValidIf r → IsValidIf (require b r)
unfolding require
require-IsValid true r h = h
require-IsValid false r h = tt

-- The manager of a new worker.
pub new_manager-IsValid :
    (owner max interval lease : ℕ) (m : ClaimManager)
    → new_manager owner max interval lease ≡ ok m
    → IsValid m
unfolding new_manager none_left
new_manager-IsValid owner max interval lease m e = subst IsValidIf e (
    require-IsValid (ltb 0 max) _ (
      require-IsValid (ltb 0 interval) _ (
        require-IsValid (ltb 0 lease) _
          (record { drained_iff = refl; bounded = omega arith; lost = tt; awake = λ _. refl }))))

-- From its construction, over every interleaving of starts, claims, releases, heartbeat batches and
-- shutdowns, with any answers of the store: the drain event is set exactly when nothing is
-- registered and no claim is pending, registered and pending claims together stay within the bound,
-- every claim marked as lost is still registered, and nobody waits for the event while it is set.
pub Run-IsValid :
    (owner max interval lease : ℕ) {m t : ClaimManager}
    → new_manager owner max interval lease ≡ ok m
    → Run m t
    → IsValid t
Run-IsValid owner max interval lease e here = new_manager-IsValid owner max interval lease _ e
Run-IsValid owner max interval lease e (next r st) =
    Step-IsValid st (Run-IsValid owner max interval lease e r)
