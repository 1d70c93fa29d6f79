-- ===== src/Jobs/Repository/Admittance/Tables.antt =====
-- The tables through the two updates of `claim_dispatch`, from a row that may start.
use textify.Prelude.{
  ==_refl, ℕ, ◌+◌, ◌≤◌, Bool, true, false, ◌&&◌, ◌≡◌, refl, sym, ◌∙◌, subst, Option, none, some,
  List, [], ◌∷◌, map, ◌==◌, ==_iff, count, select, In, All, All-In, All-map, All-zip, All-from_In,
  arith, leb, inl, inr, Bool-cases,
}
use textify.Jobs.Types.{Uuid, JobDispatch, ExecutionClaim, is_processing, is_queued, is_uuid4}
use textify.Jobs.Schema.{
  Attempt, Job, null_or, job_check, row_check, lifecycle_check, finished_check,
  timestamp_order_check, error_pair, no_error, attempt_check, claim_check, unique, schema_check,
  coalesce,
}
use textify.Jobs.Schema.Identity.{count_of_In, schema_check-unique, schema_check-jobs, id-injective}
use textify.Jobs.Schema.Updates.{KeepsColumns, token_of, schema_check-update, In-update, count-one}
use textify.Jobs.Tx.{Store, update_rows}
use textify.Jobs.Tx.Updates.{map-update_rows}
use textify.Jobs.Repository.Policy.{
  is_eligible, is_overdue, is_waiting, matches_claim, matches_dispatch, with_attempt, set_attempt,
}
use textify.Jobs.Repository.Claiming.{started, owned}
use textify.Jobs.Repository.Invariant.{Inv, IsSound}
use textify.Jobs.Repository.Refusals.{count-none}
use textify.Jobs.Repository.Lifecycle.Claims.{ownable, startable, started-ownable}

none_selected : (test : Job → Bool) (js : List Job) → count test js ≡ 0 → select test js ≡ []
unfolding count select
none_selected test [] h = refl
none_selected test (j ∷ js) h = ground (arith, h, none_selected test js)

-- A SELECT that one row passes.
find_counted :
    (test : Job → Bool) (js : List Job) (r : Job)
    → count test js ≡ 1
    → In r js
    → test r ≡ true
    → select test js ≡ r ∷ []
unfolding count select
find_counted test [] r one i h = elim i [ ]
find_counted test (j ∷ js) r one (inl e) h =
    let hit = subst (λ x. test x ≡ true) e h in
    ground (arith, one, hit, sym e, none_selected test js)
find_counted test (j ∷ js) r one (inr i) h =
    ground (arith, one, count_of_In test r js i h, find_counted test js r)

started-KeepsColumns : (now : ℕ) → KeepsColumns (started now)
started-KeepsColumns now = record {
  same_id = λ j. refl;
  same_public_id = λ j. refl;
  same_key = λ j. refl;
  same_token = λ j. refl;
}

owned-KeepsColumns :
    (owner : Uuid) (now expires : ℕ) → KeepsColumns (set_attempt (owned owner now expires))
unfolding set_attempt
owned-KeepsColumns owner now expires = record {
  same_id = λ j. refl;
  same_public_id = λ j. refl;
  same_key = λ j. refl;
  same_token = λ j. same j.attempt;
}
  where
    same :
        (a : Option Attempt)
        → token_of (elim a [ none ↦ none | some x ↦ some (owned owner now expires x) ]) ≡ token_of a
    same none = refl
    same (some x) = refl

started-checked :
    (d : JobDispatch) (now : ℕ) (j : Job)
    → leb j.submitted_at now ≡ true
    → job_check j ≡ true
    → startable d now j ≡ true
    → job_check (started now j) ≡ true
unfolding job_check row_check lifecycle_check timestamp_order_check null_or coalesce error_pair
    no_error is_eligible is_waiting is_queued
started-checked d now j clock met h = ground (arith, clock, met, h)

owned-checked :
    (owner : Uuid) (now expires : ℕ) (j : Job)
    → is_uuid4 owner ≡ true
    → now ≤ expires
    → job_check j ≡ true
    → job_check (set_attempt (owned owner now expires) j) ≡ true
unfolding job_check row_check lifecycle_check finished_check timestamp_order_check null_or coalesce
    error_pair no_error attempt_check claim_check set_attempt
owned-checked owner now expires j valid up met = ground (arith, valid, up, met)

-- The tables through the transaction, from a row that may start.
module _ (claim : ExecutionClaim) (duration now : ℕ) (s : Store) (v : Inv s) (j : Job)
    (member : In j s.jobs) (ready : startable claim.dispatch now j ≡ true)
    (valid : is_uuid4 claim.worker_owner ≡ true)
    (clock : All (λ k. leb k.submitted_at now ≡ true) s.jobs) where
  abbrev pub begun : List Job
  begun = update_rows (startable claim.dispatch now) (started now) s.jobs

  abbrev pub mine : Attempt → Attempt
  mine = owned claim.worker_owner now (now + duration)

  abbrev pub taken : List Job
  taken = update_rows (ownable claim.dispatch) (set_attempt mine) begun

  abbrev pub runner : Job
  runner = set_attempt mine (started now j)

  unique_rows : unique (map (λ k. k.id) s.jobs) ≡ true
  unique_rows = schema_check-unique s.jobs v.schema

  begun-ids : map (λ k. k.id) begun ≡ map (λ k. k.id) s.jobs
  begun-ids =
      map-update_rows (λ k. k.id) (startable claim.dispatch now) (started now) s.jobs (λ k. refl)

  taken-ids : map (λ k. k.id) taken ≡ map (λ k. k.id) s.jobs
  taken-ids =
      map-update_rows (λ k. k.id) (ownable claim.dispatch) (set_attempt mine) begun
        (owned-KeepsColumns claim.worker_owner now (now + duration)).same_id
      ∙ begun-ids

  startable-id :
      (k : Job) → startable claim.dispatch now k ≡ true → k.id ≡ claim.dispatch.internal_job_id
  unfolding matches_dispatch
  startable-id k h = ground (arith, h)

  ownable-id : (k : Job) → ownable claim.dispatch k ≡ true → k.id ≡ claim.dispatch.internal_job_id
  unfolding matches_dispatch
  ownable-id k h = ground (arith, h)

  pub one_starts : count (startable claim.dispatch now) s.jobs ≡ 1
  one_starts =
      count-one claim.dispatch.internal_job_id (startable claim.dispatch now) s.jobs j startable-id
        unique_rows member ready

  may_own : ownable claim.dispatch (started now j) ≡ true
  may_own = started-ownable claim.dispatch now j (All-In IsSound j s.jobs v.sound member) ready

  begun-member : In (started now j) begun
  begun-member = In-update (startable claim.dispatch now) (started now) s.jobs j member ready

  pub one_owned : count (ownable claim.dispatch) begun ≡ 1
  one_owned =
      count-one claim.dispatch.internal_job_id (ownable claim.dispatch) begun (started now j)
        ownable-id (rw begun-ids unique_rows) begun-member may_own

  taken-member : In runner taken
  taken-member =
      In-update (ownable claim.dispatch) (set_attempt mine) begun (started now j) begun-member
        may_own

  runs : (matches_claim claim runner && is_processing runner.status) ≡ true
  unfolding matches_claim matches_dispatch with_attempt set_attempt is_processing
  runs = ground (arith, ready, ==_refl claim.worker_owner)

  running-id :
      (k : Job)
      → (matches_claim claim k && is_processing k.status) ≡ true
      → k.id ≡ claim.dispatch.internal_job_id
  unfolding matches_claim
  running-id k h = ground (arith, h)

  pub one_runs : select (λ k. matches_claim claim k && is_processing k.status) taken ≡ runner ∷ []
  one_runs =
      find_counted _ taken runner
        (count-one claim.dispatch.internal_job_id
          (λ k. matches_claim claim k && is_processing k.status) taken runner running-id
          (rw taken-ids unique_rows) taken-member runs)
        taken-member runs

  pub taken-schema : schema_check taken ≡ true
  taken-schema =
      schema_check-update (ownable claim.dispatch) (set_attempt mine)
        (owned-KeepsColumns claim.worker_owner now (now + duration)) begun one
        (All-map _ _
          (λ k m _. owned-checked claim.worker_owner now (now + duration) k valid (omega arith) m)
          begun (schema_check-jobs begun one))
    where
      one : schema_check begun ≡ true
      one =
          schema_check-update (startable claim.dispatch now) (started now)
            (started-KeepsColumns now) s.jobs v.schema
            (All-map _ _ (λ k h. started-checked claim.dispatch now k h.0 h.1) s.jobs
              (All-zip _ _ s.jobs clock (schema_check-jobs s.jobs v.schema)))

startable_not-late :
    (d : JobDispatch) (now : ℕ) (k : Job)
    → startable d now k ≡ true
    → (is_overdue now k && matches_dispatch d k) ≡ false
unfolding is_eligible is_overdue
startable_not-late d now k e = ground (arith, e)

pub startable-named :
    (d : JobDispatch) (now : ℕ) (k : Job) → startable d now k ≡ true → k.id ≡ d.internal_job_id
unfolding matches_dispatch
startable-named d now k e = ground (arith, e)

other_dispatch :
    (d : JobDispatch) (now : ℕ) (k : Job)
    → (k.id == d.internal_job_id) ≡ false
    → (is_overdue now k && matches_dispatch d k) ≡ false
unfolding matches_dispatch
other_dispatch d now k miss = ground (arith, miss)

-- Rows that are overdue under the dispatch: none.
pub late-none :
    (d : JobDispatch) (now : ℕ) (js : List Job) (j : Job)
    → unique (map (λ k. k.id) js) ≡ true
    → In j js
    → startable d now j ≡ true
    → count (λ k. is_overdue now k && matches_dispatch d k) js ≡ 0
late-none d now js j u m h =
    count-none (λ k. is_overdue now k && matches_dispatch d k) js (All-from_In _ js row)
  where
    row : (k : Job) → In k js → (is_overdue now k && matches_dispatch d k) ≡ false
    row k i = elim (Bool-cases (k.id == d.internal_job_id)) [
      | inl hit ↦ startable_not-late d now k (
          subst (λ x. startable d now x ≡ true)
            (id-injective js j k u m i (startable-named d now j h ∙ sym ((==_iff _ _).0 hit))) h)
      | inr miss ↦ other_dispatch d now k miss
    ]
