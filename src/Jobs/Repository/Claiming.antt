-- ===== src/Jobs/Repository/Claiming.antt =====
-- `claim_dispatch` and `heartbeat_claims` of jobs/repository.py.
use textify.Prelude.{
  ℕ, ◌+◌, Bool, true, false, ◌&&◌, Option, none, some, List, [], ◌∷◌, ltb, ◌==◌, null_gt, is_none,
  select, all, any, if◌then◌else◌,
}
use textify.Errors.{nonempty}
use textify.Jobs.Types.{
  Uuid, is_uuid4, is_processing, processing, JobDispatch, ExecutionClaim, ClaimHeartbeat,
  ClaimedTranscriptionJob, store_unavailable, value_error, Result, ok, err,
}
use textify.Jobs.Schema.{Attempt, Job}
use textify.Jobs.Tx.{
  Store, Tx, ◌>>=◌, pure, raise, lift, transaction, update_where, update_returning, select_one,
  order_by, sorted_before,
}
use textify.Jobs.Rows.{load_exclusions}
use textify.Jobs.Repository.Policy.{
  is_overdue, is_eligible, with_attempt, set_attempt, matches_dispatch, matches_claim, time_out,
}

-- The scalar of ... ORDER BY submitted_at, id LIMIT 1
unfoldable pub first_id : List Job → Option ℕ
first_id [] = none
first_id (j ∷ js) = some j.id

unfoldable pub oldest_eligible : ℕ → List Job → Option ℕ
unfolding first_id
oldest_eligible now js =
    first_id
      (order_by (sorted_before (λ j. j.submitted_at) (λ j. j.id)) (select (is_eligible now) js))

abbrev pub started : ℕ → Job → Job
started now j = record j { status = processing; started_at = some now }

abbrev pub owned : Uuid → ℕ → ℕ → Attempt → Attempt
owned owner now expires a = record a {
  worker_owner = some owner;
  last_heartbeat_at = some now;
  claim_lease_expires_at = some expires;
}

-- `_claimed_input_from_row`, the id check, `_load_exclusions` and `_claimed_job`
unfoldable pub claimed_inputs : ExecutionClaim → Option Job → Tx (Option ClaimedTranscriptionJob)
unfolding nonempty load_exclusions
claimed_inputs claim none = raise store_unavailable
claimed_inputs claim (some j) =
    if nonempty j.submitted_url && j.id == claim.dispatch.internal_job_id
    then (do
      exclusions ← lift (load_exclusions j)
      pure (
          some
            (record { claim = claim; submitted_url = j.submitted_url; exclusions = exclusions })))
    else raise store_unavailable

-- The transition to processing, and the ownership of the attempt.
unfoldable pub take_ownership : ExecutionClaim → ℕ → ℕ → Tx (Option ClaimedTranscriptionJob)
unfolding update_where set_attempt select_one matches_claim matches_dispatch claimed_inputs
take_ownership claim duration now = do
  rowcount ←
      update_where
        (λ j. matches_dispatch claim.dispatch j && with_attempt (λ a. is_none a.worker_owner) j)
        (set_attempt (owned claim.worker_owner now (now + duration)))
  if rowcount == 1
      then (do
        row ← select_one (λ j. matches_claim claim j && is_processing j.status)
        claimed_inputs claim row)
      else raise store_unavailable

unfoldable pub start_processing : ExecutionClaim → ℕ → ℕ → Tx (Option ClaimedTranscriptionJob)
unfolding update_where is_eligible matches_dispatch take_ownership
start_processing claim duration now = do
  rowcount ←
      update_where (λ j. is_eligible now j && matches_dispatch claim.dispatch j) (started now)
  if rowcount == 0
      then pure none
      else if rowcount == 1
      then take_ownership claim duration now
      else raise store_unavailable

-- FIFO: only the oldest eligible job may be claimed.
unfoldable pub claim_oldest :
    ExecutionClaim → ℕ → ℕ → Option ℕ → Tx (Option ClaimedTranscriptionJob)
unfolding start_processing
claim_oldest claim duration now none = pure none
claim_oldest claim duration now (some oldest) =
    if oldest == claim.dispatch.internal_job_id
    then start_processing claim duration now
    else pure none

unfoldable pub claim_after_timeout : ExecutionClaim → ℕ → ℕ → Tx (Option ClaimedTranscriptionJob)
unfolding claim_oldest oldest_eligible
claim_after_timeout claim duration now s =
    claim_oldest claim duration now (oldest_eligible now s.jobs) s

unfoldable pub claim_tx : ExecutionClaim → ℕ → ℕ → Tx (Option ClaimedTranscriptionJob)
unfolding update_where is_overdue matches_dispatch time_out claim_after_timeout
claim_tx claim duration now = do
  rowcount ←
      update_where (λ j. is_overdue now j && matches_dispatch claim.dispatch j) (time_out now)
  if rowcount == 0
      then claim_after_timeout claim duration now
      else if rowcount == 1
      then pure none
      else raise store_unavailable

unfoldable pub claim_dispatch :
    JobDispatch → Uuid → ℕ → ℕ → Store → Result (Option ClaimedTranscriptionJob) × Store
unfolding claim_tx transaction
claim_dispatch d owner duration now s =
    if is_uuid4 d.execution_attempt_token && is_uuid4 owner && ltb 0 duration
    then transaction (claim_tx (record { dispatch = d; worker_owner = owner }) duration now) s
    else (err value_error, s)

-- The WHERE clause of the heartbeats.
unfoldable pub is_renewable : List ExecutionClaim → ℕ → Job → Bool
unfolding matches_claim with_attempt
is_renewable claims now j =
    is_processing j.status
    && with_attempt (λ a. null_gt a.claim_lease_expires_at now) j
    && any (λ c. matches_claim c j) claims

abbrev pub renewed : ℕ → ℕ → Attempt → Attempt
renewed now expires a = record a {
  last_heartbeat_at = some now;
  claim_lease_expires_at = some expires;
}

-- The first updated row of a claim: `renewed_cancellations[claim]`.
unfoldable pub cancellation_of : List Job → ExecutionClaim → Option Bool
cancellation_of [] c = none
cancellation_of (j ∷ js) c = elim (matches_claim c j) [
  | true ↦ some j.cancellation_requested
  | false ↦ cancellation_of js c
]

-- The heartbeats in the order of the claims.
unfoldable pub heartbeats_of : List Job → List ExecutionClaim → List ClaimHeartbeat
unfolding cancellation_of
heartbeats_of rows [] = []
heartbeats_of rows (c ∷ cs) =
    let rest = heartbeats_of rows cs in
    elim (cancellation_of rows c) [
      | none ↦ rest
      | some requested ↦ record { claim = c; cancellation_requested = requested } ∷ rest
    ]

unfoldable pub valid_claim : ExecutionClaim → Bool
valid_claim c = is_uuid4 c.dispatch.execution_attempt_token && is_uuid4 c.worker_owner

unfoldable pub renew : List ExecutionClaim → ℕ → ℕ → Tx (List ClaimHeartbeat)
unfolding update_returning is_renewable set_attempt heartbeats_of
renew claims duration now = do
  rows ← update_returning (is_renewable claims now) (set_attempt (renewed now (now + duration)))
  pure (heartbeats_of rows claims)

unfoldable pub heartbeat_nonempty :
    List ExecutionClaim → ℕ → ℕ → Store → Result (List ClaimHeartbeat) × Store
unfolding renew valid_claim transaction
heartbeat_nonempty [] duration now s = (ok [], s)
heartbeat_nonempty (c ∷ cs) duration now s =
    if all valid_claim (c ∷ cs)
    then transaction (renew (c ∷ cs) duration now) s
    else (err value_error, s)

unfoldable pub heartbeat_claims :
    List ExecutionClaim → ℕ → ℕ → Store → Result (List ClaimHeartbeat) × Store
unfolding heartbeat_nonempty
heartbeat_claims claims duration now s =
    if ltb 0 duration then heartbeat_nonempty claims duration now s else (err value_error, s)
