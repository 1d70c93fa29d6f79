-- ===== src/Jobs/Repository/Admittance.antt =====
-- The dispatch of the oldest eligible job is granted.
mod Tables
use text.Mathlib.TextEquality.{eq_iff}
use textify.Prelude.{
  str_eq, String, ==_refl, ℕ, ◌+◌, ◌≤◌, Bool, true, false, not, ◌&&◌, ◌≡◌, refl, sym, ap, ◌∙◌,
  subst, Option, none, some, List, [], ◌∷◌, map, ◌==◌, ==_iff, count, select, length, In, All,
  All-In, All-map, All-zip, All-from_In, length-select, arith, if◌then◌else◌, is_none, is_some, leb,
  ltb, inl, inr, Bool-cases, and-eq-true,
}
use textify.Errors.{nonempty}
use textify.Transcription.Fields.{ResponseFieldPath}
use textify.Jobs.Types.{
  Uuid, JobDispatch, ExecutionClaim, ClaimedTranscriptionJob, Result, ok, err, is_processing,
  is_queued, is_uuid4,
}
use textify.Jobs.Schema.{
  Attempt, Job, null_or, job_check, row_check, lifecycle_check, finished_check,
  timestamp_order_check, error_pair, no_error, attempt_check, claim_check, unique, schema_check,
  coalesce, length_within, distinct_paths,
}
use textify.Jobs.Schema.Identity.{count_of_In, schema_check-unique, schema_check-jobs, id-injective}
use textify.Jobs.Schema.Updates.{KeepsColumns, token_of, schema_check-update, In-update, count-one}
use textify.Jobs.Rows.{load_exclusions, order_paths}
use textify.Jobs.Rows.Exclusions.{load_exclusions-ok}
use textify.Jobs.Tx.{
  Store, Tx, update_rows, update_where, commit, transaction, lift, ◌>>=◌, pure, one_or_none,
  select_one,
}
use textify.Jobs.Tx.Updates.{map-update_rows, update_rows-zero}
use textify.Jobs.Repository.Policy.{
  is_eligible, is_overdue, is_waiting, matches_claim, matches_dispatch, with_attempt, set_attempt,
  time_out,
}
use textify.Jobs.Repository.Claiming.{
  oldest_eligible, started, owned, claimed_inputs, take_ownership, start_processing, claim_oldest,
  claim_after_timeout, claim_tx, claim_dispatch,
}
use textify.Jobs.Repository.Invariant.{Inv, IsSound}
use textify.Jobs.Repository.Refusals.{count-none}
use textify.Jobs.Repository.Grants.{oldest_eligible-In}
use textify.Jobs.Repository.Lifecycle.Claims.{ownable, startable, started-ownable}
use textify.Jobs.Repository.Admittance.Tables.{
  begun, taken, runner, one_starts, one_owned, one_runs, taken-schema, startable-named, late-none,
}

module _ (claim : ExecutionClaim) (duration now : ℕ) (s : Store) (v : Inv s) (j : Job)
    (member : In j s.jobs) (ready : startable claim.dispatch now j ≡ true)
    (valid : is_uuid4 claim.worker_owner ≡ true)
    (clock : All (λ k. leb k.submitted_at now ≡ true) s.jobs)
    (url : nonempty j.submitted_url ≡ true)
    (loaded : load_exclusions j ≡ ok (order_paths j.exclusions)) where
  abbrev inputs : ClaimedTranscriptionJob
  inputs = record {
    claim = claim;
    submitted_url = j.submitted_url;
    exclusions = order_paths j.exclusions;
  }

  abbrev after_claim : Store
  after_claim = record s { jobs = taken claim duration now s v j member ready valid clock }

  inputs-given :
      claimed_inputs claim
        (some (runner claim duration now s v j member ready valid clock))
        after_claim
      ≡ ok (some inputs, after_claim)
  unfolding claimed_inputs set_attempt load_exclusions
  inputs-given = ground (
    arith,
    url,
    loaded,
    (==_iff j.id claim.dispatch.internal_job_id).1 (startable-named claim.dispatch now j ready),
  )

  selected :
      (select_one (λ k. matches_claim claim k && is_processing k.status) >>= claimed_inputs claim)
        after_claim
      ≡ ok (some inputs, after_claim)
  unfolding select_one one_or_none
  selected =
      ap (λ (rows : List Job). (lift (one_or_none rows) >>= claimed_inputs claim) after_claim)
        (one_runs claim duration now s v j member ready valid clock)
      ∙ inputs-given

  take_ownership-given :
      take_ownership claim duration now
        (record s { jobs = begun claim duration now s v j member ready valid clock })
      ≡ ok (some inputs, after_claim)
  unfolding take_ownership
  take_ownership-given = rw (one_owned claim duration now s v j member ready valid clock) selected

  start_processing-given : start_processing claim duration now s ≡ ok (some inputs, after_claim)
  unfolding start_processing
  start_processing-given =
      rw (one_starts claim duration now s v j member ready valid clock) take_ownership-given

  claim_oldest-given :
      claim_oldest claim duration now (some claim.dispatch.internal_job_id) s
      ≡ ok (some inputs, after_claim)
  unfolding claim_oldest
  claim_oldest-given = rw (==_refl claim.dispatch.internal_job_id) start_processing-given

  claim_tx-given :
      oldest_eligible now s.jobs ≡ some claim.dispatch.internal_job_id
      → claim_tx claim duration now s ≡ ok (some inputs, after_claim)
  unfolding claim_tx claim_after_timeout
  claim_tx-given oldest =
      rw zero (rw (update_rows-zero late (time_out now) s.jobs zero) (rw oldest claim_oldest-given))
    where
      late : Job → Bool
      late k = is_overdue now k && matches_dispatch claim.dispatch k

      zero : count late s.jobs ≡ 0
      zero =
          late-none claim.dispatch now s.jobs j (schema_check-unique s.jobs v.schema) member ready

text-nonempty : (t : String) → length_within 2048 t ≡ true → nonempty t ≡ true
unfolding length_within nonempty
text-nonempty t h = elim (Bool-cases (str_eq t "")) [
  | inl empty ↦
      absurd (no_text (subst (λ x. length_within 2048 x ≡ true) ((eq_iff t "").0 empty) h))
  | inr some_text ↦ rw some_text refl
]
  where
    no_text : length_within 2048 "" ≡ true → ⊥
    no_text k = cc k

row_text :
    (j : Job)
    → job_check j ≡ true
    → (length_within 2048 j.submitted_url ≡ true) × (distinct_paths j.exclusions ≡ true)
unfolding job_check row_check
row_text j h = (ground (arith, h), ground (arith, h))

matches-named : (d : JobDispatch) (j : Job) → matches_dispatch d j ≡ true → j.id ≡ d.internal_job_id
unfolding matches_dispatch
matches-named d j h = ground (arith, h)

-- The oldest eligible job may start under its dispatch.
oldest-startable :
    (d : JobDispatch) (now : ℕ) (s : Store) (j : Job)
    → Inv s
    → In j s.jobs
    → matches_dispatch d j ≡ true
    → oldest_eligible now s.jobs ≡ some d.internal_job_id
    → startable d now j ≡ true
oldest-startable d now s j v m h oldest =
    let (k, (i, ready), same) = oldest_eligible-In now s.jobs d.internal_job_id oldest in
    rw
      (subst (λ x. is_eligible now x ≡ true)
        (id-injective s.jobs k j (schema_check-unique s.jobs v.schema) i m
          (same ∙ sym (matches-named d j h)))
        ready)
      h

-- A delivered dispatch of the oldest eligible job is granted: with arguments that pass their checks
-- and a clock that is not behind any submission, `claim_dispatch` answers with the claim, the
-- submitted URL and the sorted exclusions of that job.
pub claim_dispatch-given :
    (d : JobDispatch) (owner : Uuid) (duration now : ℕ) (s : Store) (j : Job)
    → Inv s
    → In j s.jobs
    → matches_dispatch d j ≡ true
    → oldest_eligible now s.jobs ≡ some d.internal_job_id
    → is_uuid4 d.execution_attempt_token ≡ true
    → is_uuid4 owner ≡ true
    → ltb 0 duration ≡ true
    → All (λ k. leb k.submitted_at now ≡ true) s.jobs
    → (claim_dispatch d owner duration now s).0
      ≡ ok (
          some (record {
            claim = record { dispatch = d; worker_owner = owner };
            submitted_url = j.submitted_url;
            exclusions = order_paths j.exclusions;
          }))
unfolding claim_dispatch transaction commit
claim_dispatch-given d owner duration now s j v m h oldest token valid positive clock = rw token (
    rw valid (
      rw positive (
        ap (λ r. (commit s r).0)
          (claim_tx-given claim duration now s v j m ready valid clock url loaded oldest)
        ∙ rw (taken-schema claim duration now s v j m ready valid clock) refl)))
  where
    claim : ExecutionClaim
    claim = record { dispatch = d; worker_owner = owner }

    ready : startable d now j ≡ true
    ready = oldest-startable d now s j v m h oldest

    met : job_check j ≡ true
    met = All-In _ j s.jobs (schema_check-jobs s.jobs v.schema) m

    url : nonempty j.submitted_url ≡ true
    url = text-nonempty j.submitted_url (row_text j met).0

    loaded : load_exclusions j ≡ ok (order_paths j.exclusions)
    loaded = load_exclusions-ok j (row_text j met).1
