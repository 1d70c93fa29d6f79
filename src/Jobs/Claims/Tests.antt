-- ===== src/Jobs/Claims/Tests.antt =====
-- The claim manager at concrete inputs.
use textify.Prelude.{◌<◌, true, false, ◌≡◌, refl, none, some, [], ◌∷◌, arith}
use textify.Jobs.Types.{ClaimedTranscriptionJob, ok, err, store_unavailable}
use textify.Jobs.Repository.Dispatching.{same_dispatch}
use textify.Jobs.Repository.Scenario.{dispatch, worker, claim}
use textify.Jobs.Claims.{
  ClaimManager, register, new_manager, start, reserve, settle, begin_shutdown, finish_shutdown,
  apply_heartbeats, none_left,
}
use textify.Jobs.Claims.Steps.{here, next, started, reserved, settled, shut}
use textify.Jobs.Claims.Invariant.{IsValid, Run-IsValid}
use textify.Jobs.Claims.Monitor.{Outcome, apply_heartbeats-Outcome}
use textify.Jobs.Claims.Draining.{Falls, Run-Falls, settle-wakes_early}

abbrev fresh_manager : ClaimManager
fresh_manager = record {
  worker_owner = worker;
  max_active_claims = 1;
  heartbeat_interval = 10;
  claim_lease_duration = 30;
  claims = [];
  ownership_lost = [];
  pending_claims = 0;
  drained = true;
  waiting = 0;
  woken = 0;
  accepting = true;
  started = false;
  shutting_down = false;
  monitoring = false;
  signalled = [];
}

abbrev running_manager : ClaimManager
running_manager = record fresh_manager { started = true; monitoring = true }

abbrev pending_manager : ClaimManager
pending_manager = record running_manager { pending_claims = 1; drained = false }

-- A shutdown waits for the pending claim.
abbrev waiting_manager : ClaimManager
waiting_manager = record pending_manager { accepting = false; shutting_down = true; waiting = 1 }

abbrev job : ClaimedTranscriptionJob
job = record { claim = claim; submitted_url = "https://youtu.be/AbCdEf12345"; exclusions = [] }

abbrev busy_manager : ClaimManager
busy_manager = record running_manager {
  claims = record { claim = claim; control = 5 } ∷ [];
  drained = false;
}

full : reserve true pending_manager ≡ none
unfolding reserve
full = refl

admitted :
    settle dispatch 5 (ok (some job)) pending_manager
    ≡ (ok (some job), record busy_manager { woken = 0 })
unfolding settle none_left register
admitted = refl

refused :
    settle dispatch 5 (err store_unavailable) pending_manager
    ≡ (err store_unavailable, running_manager)
unfolding settle none_left
refused = refl

starting : start fresh_manager ≡ ok running_manager
unfolding start
starting = refl

reserving : reserve true running_manager ≡ some pending_manager
unfolding reserve none_left
reserving = refl

made : new_manager worker 1 10 30 ≡ ok fresh_manager
unfolding new_manager
made = refl

-- The worker starts, reserves its one place, and a shutdown waits for the answer of the store.
Run-IsValid_example : IsValid (begin_shutdown pending_manager)
Run-IsValid_example =
    Run-IsValid worker 1 10 30 made
      (next (next (next here (started starting)) (reserved true reserving)) shut)

Run-Falls_example : Falls waiting_manager (settle dispatch 5 (ok (some job)) waiting_manager).1
Run-Falls_example = Run-Falls refl (next here (settled dispatch 5 (ok (some job)) (omega arith)))

-- The store no longer knows the claim.
apply_heartbeats-Outcome_example :
    Outcome [] (claim ∷ []) busy_manager (apply_heartbeats [] (claim ∷ []) busy_manager)
apply_heartbeats-Outcome_example = apply_heartbeats-Outcome [] (claim ∷ []) busy_manager

same : same_dispatch dispatch dispatch ≡ true
unfolding same_dispatch
same = refl

settle-wakes_early_example :
    ((settle dispatch 5 (ok (some job)) waiting_manager).1.claims
      ≡ record { claim = claim; control = 5 } ∷ [])
    × ((settle dispatch 5 (ok (some job)) waiting_manager).1.drained ≡ false)
    × (0 < (settle dispatch 5 (ok (some job)) waiting_manager).1.woken)
    × ((finish_shutdown (settle dispatch 5 (ok (some job)) waiting_manager).1).claims
        ≡ (settle dispatch 5 (ok (some job)) waiting_manager).1.claims)
    × ((finish_shutdown (settle dispatch 5 (ok (some job)) waiting_manager).1).monitoring ≡ false)
settle-wakes_early_example =
    settle-wakes_early dispatch 5 job waiting_manager refl refl (omega arith) same refl
