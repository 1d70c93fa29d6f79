-- ===== src/Jobs/Claims/Steps.antt =====
-- The interleavings of the coroutines that use one claim manager.
use textify.Prelude.{ℕ, ◌<◌, Bool, ◌≡◌, Option, some, List}
use textify.Jobs.Types.{
  JobDispatch, ExecutionClaim, ClaimHeartbeat, ClaimedTranscriptionJob, Result, ok,
}
use textify.Jobs.Claims.{
  ClaimManager, start, reserve, settle, release, stop_accepting, begin_shutdown, finish_shutdown,
  receive_heartbeats,
}

-- A claim that was reserved settles once; the repository may answer it in any way, or with an error.
-- The coroutine of a heartbeat batch may find that the claims have changed in the meantime.
pub data Step (m : ClaimManager) : ClaimManager → Type 0 where
  started : {t : ClaimManager} → start m ≡ ok t → Step m t
  reserved : {t : ClaimManager} → (ready : Bool) → reserve ready m ≡ some t → Step m t
  settled :
      (d : JobDispatch) (k : ℕ) (answer : Result (Option ClaimedTranscriptionJob))
      → 0 < m.pending_claims
      → Step m (settle d k answer m).1
  released : (c : ExecutionClaim) → Step m (release c m)
  closed : Step m (stop_accepting m)
  shut : Step m (begin_shutdown m)
  finished : 0 < m.woken → Step m (finish_shutdown m)
  beat :
      (cs : List ExecutionClaim) (answer : Result (List ClaimHeartbeat))
      → Step m (receive_heartbeats cs answer m)

pub data Run (m : ClaimManager) : ClaimManager → Type 0 where
  here : Run m m
  next : {t u : ClaimManager} → Run m t → Step t u → Run m u
