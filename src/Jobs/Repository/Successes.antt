-- ===== src/Jobs/Repository/Successes.antt =====
-- A live claim is enough for its success to be stored.
use textify.Prelude.{
  ℕ, Bool, true, false, ◌≡◌, refl, ap, ◌∙◌, Option, none, some, List, [], ◌∷◌, map, ==_iff, count,
  select, length, In, All, All-In, All-map, All-zip, select-All, length-select, arith, leb,
  and-eq-true,
}
use textify.Transcription.Fields.{TranscriptionResponse, valid_response}
use textify.Jobs.Types.{ExecutionClaim, Result, ok, is_processing}
use textify.Jobs.Schema.{
  Attempt, Job, ResultRow, null_or, job_check, row_check, lifecycle_check, finished_check,
  timestamp_order_check, error_pair, no_error, attempt_check, claim_check, result_check, unique,
  schema_check, coalesce,
}
use textify.Jobs.Schema.Identity.{schema_check-unique, schema_check-jobs}
use textify.Jobs.Schema.Updates.{KeepsColumns, token_of, schema_check-update, In-update, count-one}
use textify.Jobs.Rows.{check, validate_response, result_values, segment_values}
use textify.Jobs.Tx.{Store, update_rows, commit, transaction}
use textify.Jobs.Tx.Updates.{map-update_rows}
use textify.Jobs.Repository.Policy.{matches_claim, is_active_claim, set_attempt, cleared}
use textify.Jobs.Repository.Claiming.{valid_claim}
use textify.Jobs.Repository.Publishing.{
  may_finish, finish_claim, succeed, insert_result, publish_valid, publish_success,
  clear_execution_claim, cleared_row,
}
use textify.Jobs.Repository.Invariant.{Inv, IsSound}
use textify.Jobs.Repository.Lifecycle.Publications.{
  takes_result, takes_result-succeeded, may_finish-guard,
}

-- Exactly one row was cleared, that of the claim.
cleared_row-ok :
    (c : ExecutionClaim) (rows : List Job)
    → length rows ≡ 1
    → All (λ r. r.id ≡ c.dispatch.internal_job_id) rows
    → cleared_row c (map (set_attempt cleared) rows) ≡ ok tt
unfolding cleared_row set_attempt
cleared_row-ok c [] e h = cc e
cleared_row-ok c (j ∷ []) e h = ground (arith, (==_iff j.id c.dispatch.internal_job_id).1 h.0)
cleared_row-ok c (j ∷ k ∷ js) e h = ground (arith, e)

matches-id :
    (c : ExecutionClaim) (j : Job) → matches_claim c j ≡ true → j.id ≡ c.dispatch.internal_job_id
unfolding matches_claim
matches-id c j h = (==_iff _ _).0 (and-eq-true _ _ h).0

clear-ok :
    (c : ExecutionClaim) (js : List Job)
    → count (matches_claim c) js ≡ 1
    → cleared_row c (map (set_attempt cleared) (select (matches_claim c) js)) ≡ ok tt
clear-ok c js one =
    cleared_row-ok c (select (matches_claim c) js) (length-select (matches_claim c) js ∙ one)
      (All-map _ _ (matches-id c) _ (select-All (matches_claim c) js))

succeed-KeepsColumns : (now : ℕ) → KeepsColumns (succeed now)
succeed-KeepsColumns now = record {
  same_id = λ j. refl;
  same_public_id = λ j. refl;
  same_key = λ j. refl;
  same_token = λ j. refl;
}

clear-KeepsColumns : KeepsColumns (set_attempt cleared)
unfolding set_attempt
clear-KeepsColumns = record {
  same_id = λ j. refl;
  same_public_id = λ j. refl;
  same_key = λ j. refl;
  same_token = λ j. same j.attempt;
}
  where
    same :
        (a : Option Attempt)
        → token_of (elim a [ none ↦ none | some x ↦ some (cleared x) ]) ≡ token_of a
    same none = refl
    same (some x) = refl

insert-KeepsColumns : (r : ResultRow) → KeepsColumns (λ j. record j { result = some r })
insert-KeepsColumns r = record {
  same_id = λ j. refl;
  same_public_id = λ j. refl;
  same_key = λ j. refl;
  same_token = λ j. refl;
}

-- The constraints on a row through the three updates.
succeed-checked :
    (c : ExecutionClaim) (now : ℕ) (j : Job)
    → null_or (λ t. leb t now) j.started_at ≡ true
    → job_check j ≡ true
    → may_finish false c now j ≡ true
    → job_check (succeed now j) ≡ true
unfolding job_check row_check lifecycle_check finished_check timestamp_order_check may_finish
    null_or is_processing coalesce error_pair no_error
succeed-checked c now j clock met h = ground (arith, clock, met, h)

clear-checked : (j : Job) → job_check j ≡ true → job_check (set_attempt cleared j) ≡ true
unfolding job_check row_check lifecycle_check finished_check timestamp_order_check null_or
    attempt_check claim_check set_attempt error_pair no_error
clear-checked j met = ground (arith, met)

insert-checked :
    (r : ResultRow) (j : Job)
    → result_check r ≡ true
    → job_check j ≡ true
    → job_check (record j { result = some r }) ≡ true
unfolding job_check row_check lifecycle_check finished_check timestamp_order_check null_or
    error_pair no_error
insert-checked r j good met = ground (arith, good, met)

-- The tables through the transaction.
module _ (c : ExecutionClaim) (r : ResultRow) (now : ℕ) (js : List Job) where
  abbrev won : List Job
  won = update_rows (may_finish false c now) (succeed now) js

  abbrev freed : List Job
  freed = update_rows (matches_claim c) (set_attempt cleared) won

  abbrev stored : List Job
  stored = update_rows (takes_result c) (λ j. record j { result = some r }) freed

  stored-schema :
      result_check r ≡ true
      → All (λ j. null_or (λ t. leb t now) j.started_at ≡ true) js
      → schema_check js ≡ true
      → schema_check stored ≡ true
  stored-schema good clock met =
      schema_check-update (takes_result c) _ (insert-KeepsColumns r) freed two
        (All-map _ _ (λ j m _. insert-checked r j good m) freed (schema_check-jobs freed two))
    where
      one : schema_check won ≡ true
      one =
          schema_check-update (may_finish false c now) (succeed now) (succeed-KeepsColumns now) js
            met
            (All-map _ _ (λ j k h. succeed-checked c now j k.0 k.1 h) js
              (All-zip _ _ js clock (schema_check-jobs js met)))

      two : schema_check freed ≡ true
      two =
          schema_check-update (matches_claim c) (set_attempt cleared) clear-KeepsColumns won one
            (All-map _ _ (λ j m _. clear-checked j m) won (schema_check-jobs won one))

-- The transaction stores the result.
finish_claim-succeeds :
    (c : ExecutionClaim) (r : ResultRow) (now : ℕ) (s : Store)
    → count (may_finish false c now) s.jobs ≡ 1
    → count (matches_claim c) (won c r now s.jobs) ≡ 1
    → count (takes_result c) (freed c r now s.jobs) ≡ 1
    → finish_claim false (succeed now) c now (insert_result c r) s
      ≡ ok (true, record s { jobs = stored c r now s.jobs })
unfolding finish_claim insert_result clear_execution_claim
finish_claim-succeeds c r now s one two three =
    ground (arith, one, three, clear-ok c (won c r now s.jobs) two)

succeed-matches :
    (c : ExecutionClaim) (now : ℕ) (j : Job)
    → may_finish false c now j ≡ true
    → matches_claim c (succeed now j) ≡ true
unfolding may_finish matches_claim is_active_claim
succeed-matches c now j h = ground arith

takes-id :
    (c : ExecutionClaim) (j : Job) → takes_result c j ≡ true → j.id ≡ c.dispatch.internal_job_id
takes-id c j h = (==_iff _ _).0 (and-eq-true _ _ h).0

-- Each of the three updates touches the row of the claim alone.
module _ (c : ExecutionClaim) (r : ResultRow) (now : ℕ) (s : Store) (v : Inv s) (j : Job)
    (member : In j s.jobs) (free : may_finish false c now j ≡ true) where
  unique_ids : unique (map (λ k. k.id) s.jobs) ≡ true
  unique_ids = schema_check-unique s.jobs v.schema

  won-ids : map (λ k. k.id) (won c r now s.jobs) ≡ map (λ k. k.id) s.jobs
  won-ids = map-update_rows (λ k. k.id) (may_finish false c now) (succeed now) s.jobs (λ k. refl)

  freed-ids : map (λ k. k.id) (freed c r now s.jobs) ≡ map (λ k. k.id) s.jobs
  freed-ids =
      map-update_rows (λ k. k.id) (matches_claim c) (set_attempt cleared) (won c r now s.jobs)
        clear-KeepsColumns.same_id
      ∙ won-ids

  won-member : In (succeed now j) (won c r now s.jobs)
  won-member = In-update (may_finish false c now) (succeed now) s.jobs j member free

  one_finishes : count (may_finish false c now) s.jobs ≡ 1
  one_finishes =
      count-one c.dispatch.internal_job_id (may_finish false c now) s.jobs j
        (λ k h. (may_finish-guard false c now k h).2) unique_ids member free

  one_cleared : count (matches_claim c) (won c r now s.jobs) ≡ 1
  one_cleared =
      count-one c.dispatch.internal_job_id (matches_claim c) (won c r now s.jobs) (succeed now j)
        (matches-id c) (rw won-ids unique_ids) won-member (succeed-matches c now j free)

  one_stored : count (takes_result c) (freed c r now s.jobs) ≡ 1
  one_stored =
      count-one c.dispatch.internal_job_id (takes_result c) (freed c r now s.jobs)
        (set_attempt cleared (succeed now j)) (takes-id c) (rw freed-ids unique_ids)
        (In-update (matches_claim c) (set_attempt cleared) (won c r now s.jobs) (succeed now j)
          won-member (succeed-matches c now j free))
        (takes_result-succeeded c now j (All-In IsSound j s.jobs v.sound member) free)

  pub finish_claim-commits :
      result_check r ≡ true
      → All (λ k. null_or (λ t. leb t now) k.started_at ≡ true) s.jobs
      → transaction (finish_claim false (succeed now) c now (insert_result c r)) s
        ≡ (ok true, record s { jobs = stored c r now s.jobs })
  unfolding transaction commit
  finish_claim-commits good clock =
      ap (commit s) (finish_claim-succeeds c r now s one_finishes one_cleared one_stored)
      ∙ rw (stored-schema c r now s.jobs good clock v.schema) refl

-- A worker whose claim is live, on a job without a cancellation, publishes its success: with a
-- response that is valid and within the bounds of the columns, and a clock that is not behind the
-- start of any job, `publish_success` answers true.
pub publish_success-succeeds :
    (c : ExecutionClaim) (r : TranscriptionResponse) (now : ℕ) (s : Store) (j : Job)
    → Inv s
    → In j s.jobs
    → may_finish false c now j ≡ true
    → valid_claim c ≡ true
    → valid_response r ≡ true
    → result_check (result_values r (segment_values r)) ≡ true
    → All (λ k. null_or (λ t. leb t now) k.started_at ≡ true) s.jobs
    → (publish_success c r now s).0 ≡ ok true
unfolding publish_success publish_valid validate_response check
publish_success-succeeds c r now s j v member free valid good fits clock = rw valid (
    rw good (
      ap (λ (x : Result Bool × Store). x.0)
        (finish_claim-commits c (result_values r (segment_values r)) now s v j member free fits
          clock)))
