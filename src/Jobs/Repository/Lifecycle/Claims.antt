-- ===== src/Jobs/Repository/Lifecycle/Claims.antt =====
-- `claim_dispatch` times a row out, or starts one; other rows stay.
use textify.Prelude.{
  ℕ, ◌+◌, Bool, true, ◌&&◌, ◌≡◌, refl, sym, ◌∙◌, Option, none, some, List, ◌==◌, ==_iff, is_none,
  and-eq-true, count, All, All-map, arith,
}
use textify.Errors.{nonempty}
use textify.Jobs.Types.{Uuid, JobDispatch, ExecutionClaim, is_processing}
use textify.Jobs.Schema.{Job}
use textify.Jobs.Rows.{load_exclusions}
use textify.Jobs.Tx.{Store, transaction, update_rows}
use textify.Jobs.Tx.Chains.{
  After, After-if, After-lift, After-select_one, unchanged, update_rows-merge,
}
use textify.Jobs.Repository.Policy.{
  Policy, is_overdue, is_eligible, with_attempt, set_attempt, matches_dispatch, time_out,
}
use textify.Jobs.Repository.Invariant.{IsSound, Inv}
use textify.Jobs.Repository.Lifecycle.{Never, room, times_out, starts, Evolves, Evolves-update}
use textify.Jobs.Repository.Lifecycle.Commits.{Evolved, Evolved-refl, guarded-Evolved}
use textify.Jobs.Repository.Claiming.{
  started, owned, claimed_inputs, take_ownership, start_processing, claim_oldest, oldest_eligible,
  claim_after_timeout, claim_tx, claim_dispatch,
}

claimed_inputs-After :
    (P : Store → Type 0) (claim : ExecutionClaim) (row : Option Job) (s : Store)
    → P s
    → After P (claimed_inputs claim row s)
unfolding claimed_inputs
claimed_inputs-After P claim none s h = tt
claimed_inputs-After P claim (some j) s h =
    After-if P (nonempty j.submitted_url && j.id == claim.dispatch.internal_job_id) _ _ s
      (λ _. After-lift P (load_exclusions j) _ s (λ _ _. h)) (λ _. tt)

-- The test of the ownership update.
abbrev pub ownable : JobDispatch → Job → Bool
ownable d j = matches_dispatch d j && with_attempt (λ a. is_none a.worker_owner) j

pub started-ownable :
    (d : JobDispatch) (now : ℕ) (j : Job)
    → IsSound j
    → (is_eligible now j && matches_dispatch d j) ≡ true
    → ownable d (started now j) ≡ true
unfolding is_eligible matches_dispatch is_processing
started-ownable d now j v h = ground arith

abbrev pub startable : JobDispatch → ℕ → Job → Bool
startable d now j = is_eligible now j && matches_dispatch d j

abbrev pub start_owned : ExecutionClaim → ℕ → ℕ → Job → Job
start_owned claim duration now j =
    set_attempt (owned claim.worker_owner now (now + duration)) (started now j)

-- The two updates of a claim are one.
pub own-merge :
    (claim : ExecutionClaim) (duration now : ℕ) (js : List Job)
    → All IsSound js
    → count (startable claim.dispatch now) js ≡ 1
    → count (ownable claim.dispatch) (update_rows (startable claim.dispatch now) (started now) js)
      ≡ 1
    → update_rows
        (ownable claim.dispatch)
        (set_attempt (owned claim.worker_owner now (now + duration)))
        (update_rows (startable claim.dispatch now) (started now) js)
      ≡ update_rows (startable claim.dispatch now) (start_owned claim duration now) js
own-merge claim duration now js sound one owns =
    update_rows-merge (startable claim.dispatch now) (ownable claim.dispatch) (started now) _ js
      (All-map IsSound _ (λ j v. started-ownable claim.dispatch now j v) js sound) (one ∙ sym owns)

module _ (p : Policy) (claim : ExecutionClaim) (duration now : ℕ) (s : Store)
    (sound : All IsSound s.jobs) where
  abbrev started_jobs : List Job
  started_jobs = update_rows (startable claim.dispatch now) (started now) s.jobs

  own-Evolves :
      (count (startable claim.dispatch now) s.jobs == 1) ≡ true
      → (count (ownable claim.dispatch) started_jobs == 1) ≡ true
      → Evolves p (room p s) Never s.jobs (
          update_rows
            (ownable claim.dispatch)
            (set_attempt (owned claim.worker_owner now (now + duration)))
            started_jobs)
  own-Evolves one owns =
      rw (own-merge claim duration now s.jobs sound ((==_iff _ _).0 one) ((==_iff _ _).0 owns)) (
        Evolves-update p (startable claim.dispatch now) (start_owned claim duration now) s.jobs
          (λ j h. starts claim.worker_owner now (now + duration) (and-eq-true _ _ h).0 refl))

  start_processing-After : After (Evolved p s) (start_processing claim duration now s)
  unfolding start_processing take_ownership
  start_processing-After =
      After-if (Evolved p s) (count (startable claim.dispatch now) s.jobs == 0) _ _ _
        (λ e.
          unchanged (Evolved p s) (startable claim.dispatch now) (started now) s ((==_iff _ _).0 e)
            (Evolved-refl p s))
        (λ _.
          After-if (Evolved p s) (count (startable claim.dispatch now) s.jobs == 1) _ _ _
            (λ one.
              After-if (Evolved p s) (count (ownable claim.dispatch) started_jobs == 1) _ _ _
                (λ owns.
                  After-select_one (Evolved p s) _ _ _
                    λ row _. claimed_inputs-After (Evolved p s) claim row _ (own-Evolves one owns))
                (λ _. tt))
            (λ _. tt))

  claim_oldest-After :
      (oldest : Option ℕ) → After (Evolved p s) (claim_oldest claim duration now oldest s)
  unfolding claim_oldest
  claim_oldest-After none = Evolved-refl p s
  claim_oldest-After (some oldest) =
      After-if (Evolved p s) (oldest == claim.dispatch.internal_job_id) _ _ s
        (λ _. start_processing-After) (λ _. Evolved-refl p s)

  abbrev late : Job → Bool
  late j = is_overdue now j && matches_dispatch claim.dispatch j

  abbrev timed_out : Store
  timed_out = record s { jobs = update_rows late (time_out now) s.jobs }

module _ (p : Policy) (claim : ExecutionClaim) (duration now : ℕ) (s : Store)
    (sound : All IsSound s.jobs) where
  on_time :
      (count (late p claim duration now s sound) s.jobs == 0) ≡ true
      → After
          (Evolved p s)
          (claim_after_timeout claim duration now (timed_out p claim duration now s sound))
  unfolding claim_after_timeout
  on_time e =
      unchanged
        (λ t. After (Evolved p s) (claim_oldest claim duration now (oldest_eligible now t.jobs) t))
        (late p claim duration now s sound) (time_out now) s ((==_iff _ _).0 e)
        (claim_oldest-After p claim duration now s sound (oldest_eligible now s.jobs))

  claim_tx-After : After (Evolved p s) (claim_tx claim duration now s)
  unfolding claim_tx
  claim_tx-After = ground (
    arith,
    on_time,
    Evolves-update {room = room p s} p (late p claim duration now s sound) (time_out now) s.jobs
        (λ j e. times_out now (and-eq-true _ _ e).0 refl),
  )

pub claim_dispatch-Evolved :
    (p : Policy) (d : JobDispatch) (owner : Uuid) (duration now : ℕ) (s : Store)
    → Inv s
    → Evolved p s (claim_dispatch d owner duration now s).1
unfolding claim_dispatch transaction
claim_dispatch-Evolved p d owner duration now s v =
    guarded-Evolved p _ s _ (λ _. claim_tx-After p _ duration now s v.sound)
