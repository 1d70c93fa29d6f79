-- ===== src/Jobs/Repository/Lifecycle/Publications.antt =====
-- A publication finishes the row of its claim; other rows stay.
use textify.Prelude.{
  ℕ, ◌≤◌, String, Bool, true, false, ◌&&◌, ◌≡◌, refl, sym, ◌∙◌, subst, some, List, [], ◌∷◌, map,
  ◌==◌, ==_iff, is_none, count, length, select, length-select, All, All-map, All-pure, arith, inl,
  inr, Bool-cases,
}
use textify.Errors.{PublicErrorCode, ErrorDetail}
use textify.Transcription.Fields.{TranscriptionResponse}
use textify.Jobs.Types.{ExecutionClaim, is_processing, is_finished, Result, ok, err}
use textify.Jobs.Schema.{Job, ResultRow}
use textify.Jobs.Schema.Identity.{schema_check-unique, count-le-one}
use textify.Jobs.Rows.{
  validate_response, validate_error_detail, result_values, segment_values, is_succeeded,
}
use textify.Jobs.Tx.{Store, Tx, ◌>>◌, pure, update_rows}
use textify.Jobs.Tx.Chains.{After, After-if, After-lift, After-then, unchanged, update_rows-merge}
use textify.Jobs.Repository.Policy.{
  Policy, set_attempt, matches_claim, is_active_claim, fail_with, cleared,
}
use textify.Jobs.Repository.Invariant.{IsSound, Inv}
use textify.Jobs.Repository.Lifecycle.{
  Never, room, Move, cancels, fails, succeeds, Evolves, Evolves-update,
}
use textify.Jobs.Repository.Lifecycle.Commits.{
  Evolved, Evolved-refl, commit-Evolved, guarded-Evolved,
}
use textify.Jobs.Repository.Claiming.{valid_claim}
use textify.Jobs.Repository.Publishing.{
  cleared_row, clear_execution_claim, may_finish, finish_claim, cancel_claimed, succeed,
  insert_result, publish_valid, publish_cancelled, publish_success, publish_error, publish_failure,
}

-- A transition leaves the claim's columns for the update that clears them.
abbrev pub KeepsClaim : (Job → Job) → Type 0
KeepsClaim f = (j : Job) → ((f j).id ≡ j.id) × ((f j).attempt ≡ j.attempt)

may_finish-matches :
    (requested : Bool) (f : Job → Job) (c : ExecutionClaim) (now : ℕ) (j : Job)
    → KeepsClaim f
    → may_finish requested c now j ≡ true
    → matches_claim c (f j) ≡ true
unfolding may_finish matches_claim is_active_claim
may_finish-matches requested f c now j keeps h = rw ((keeps j).0, (keeps j).1) (ground arith)

pub may_finish-guard :
    (requested : Bool) (c : ExecutionClaim) (now : ℕ) (j : Job)
    → may_finish requested c now j ≡ true
    → (is_processing j.status ≡ true)
      × (j.cancellation_requested ≡ requested)
      × (j.id ≡ c.dispatch.internal_job_id)
unfolding may_finish is_active_claim
may_finish-guard requested c now j h = ground arith

-- `one_or_none` returned a row: exactly one row was cleared.
cleared_row-one :
    (c : ExecutionClaim) (g : Job → Job) (rows : List Job) (u : Unit {0})
    → cleared_row c (map g rows) ≡ ok u
    → length rows ≡ 1
unfolding cleared_row
cleared_row-one c g [] u h = cc
cleared_row-one c g (j ∷ []) u h = refl
cleared_row-one c g (j ∷ k ∷ js) u h = cc

clear-After :
    {A : Type 0} (P : Store → Type 0) (c : ExecutionClaim) (m : Tx A) (s : Store)
    → (count (matches_claim c) s.jobs ≡ 1
        → After P
            (m (record s { jobs = update_rows (matches_claim c) (set_attempt cleared) s.jobs })))
    → After P ((clear_execution_claim c >> m) s)
unfolding clear_execution_claim
clear-After P c m s h =
    After-lift P (cleared_row c (map (set_attempt cleared) (select (matches_claim c) s.jobs)))
      (λ _. m) _
      (λ u e. h (sym (length-select (matches_claim c) s.jobs) ∙ cleared_row-one c _ _ u e))

-- The rows of `s` after the guarded transition and the clearing of its claim, in one update.
abbrev pub finished_store : Bool → (Job → Job) → ExecutionClaim → ℕ → Store → Store
finished_store requested f c now s = record s {
  jobs = update_rows (may_finish requested c now) (λ j. set_attempt cleared (f j)) s.jobs;
}

module _ (requested : Bool) (f : Job → Job) (c : ExecutionClaim) (now : ℕ) (s : Store)
    (keeps : KeepsClaim f) where
  pub finishes_at_most_one : Inv s → count (may_finish requested c now) s.jobs ≤ 1
  finishes_at_most_one v =
      count-le-one c.dispatch.internal_job_id (may_finish requested c now) s.jobs
        (λ j h. (may_finish-guard requested c now j h).2) (schema_check-unique s.jobs v.schema)

  finished-merge :
      count (may_finish requested c now) s.jobs ≡ 1
      → count (matches_claim c) (update_rows (may_finish requested c now) f s.jobs) ≡ 1
      → update_rows
          (matches_claim c)
          (set_attempt cleared)
          (update_rows (may_finish requested c now) f s.jobs)
        ≡ (finished_store requested f c now s).jobs
  finished-merge one two =
      update_rows-merge (may_finish requested c now) (matches_claim c) f (set_attempt cleared)
        s.jobs (All-pure _ s.jobs (λ j. may_finish-matches requested f c now j keeps))
        (one ∙ sym two)

  -- Nothing is changed, or one row is finished and cleared and the inserts follow.
  pub finish_claim-After :
      (P : Store → Type 0) (inserts : Tx (Unit {0}))
      → Inv s
      → P s
      → (count (may_finish requested c now) s.jobs ≡ 1
          → After P (inserts (finished_store requested f c now s)))
      → After P (finish_claim requested f c now inserts s)
  unfolding finish_claim
  finish_claim-After P inserts v h k =
      elim (Bool-cases (count (may_finish requested c now) s.jobs == 1)) [
        | inl one ↦ rw one (
            clear-After P c (inserts >> pure true)
              (record s { jobs = update_rows (may_finish requested c now) f s.jobs })
              λ two. After-then P inserts true _ (
                subst (λ js. After P (inserts (record s { jobs = js })))
                  (sym (finished-merge ((==_iff _ _).0 one) two)) (k ((==_iff _ _).0 one))))
        | inr other ↦ rw other (
            unchanged P (may_finish requested c now) f s (ground (arith, finishes_at_most_one v)) h)
      ]

-- A publication that inserts nothing.
finish_claim-Evolved :
    (p : Policy) (requested : Bool) (f : Job → Job) (c : ExecutionClaim) (now : ℕ) (s : Store)
    → KeepsClaim f
    → ((j : Job)
        → is_processing j.status ≡ true
        → j.cancellation_requested ≡ requested
        → Move j (set_attempt cleared (f j)))
    → Inv s
    → After (Evolved p s) (finish_claim requested f c now (pure tt) s)
finish_claim-Evolved p requested f c now s keeps step v =
    finish_claim-After requested f c now s keeps (Evolved p s) (pure tt) v (Evolved-refl p s) λ one.
      Evolves-update p (may_finish requested c now) (λ j. set_attempt cleared (f j)) s.jobs
        (λ j h. let (run, flag, _) = may_finish-guard requested c now j h in step j run flag)

pub publish_cancelled-Evolved :
    (p : Policy) (c : ExecutionClaim) (now : ℕ) (s : Store)
    → Inv s
    → Evolved p s (publish_cancelled c now s).1
unfolding publish_cancelled
publish_cancelled-Evolved p c now s v = guarded-Evolved p (valid_claim c) s _ λ _.
    finish_claim-Evolved p true (cancel_claimed now) c now s (λ j. (refl, refl))
      (λ j run flag. cancels now run flag refl) v

publish_error-Evolved :
    (p : Policy) (c : ExecutionClaim) (d : Result ErrorDetail) (now : ℕ) (s : Store)
    → Inv s
    → Evolved p s (publish_error c d now s).1
unfolding publish_error
publish_error-Evolved p c (err e) now s v = Evolved-refl p s
publish_error-Evolved p c (ok d) now s v = commit-Evolved p s _ (
    finish_claim-Evolved p false (fail_with d.code d.message now) c now s (λ j. (refl, refl))
      (λ j run flag. fails d.code d.message now run flag refl) v)

pub publish_failure-Evolved :
    (p : Policy) (c : ExecutionClaim) (code : PublicErrorCode) (message : String) (now : ℕ)
    (s : Store)
    → Inv s
    → Evolved p s (publish_failure c code message now s).1
unfolding publish_failure
publish_failure-Evolved p c code message now s v = ground (
  arith,
  Evolved-refl p s,
  publish_error-Evolved p c (validate_error_detail (some code) (some message)) now s v,
)

abbrev pub takes_result : ExecutionClaim → Job → Bool
takes_result c j = j.id == c.dispatch.internal_job_id && is_none j.result

abbrev pub finish_succeeded : ℕ → Job → Job
finish_succeeded now j = set_attempt cleared (succeed now j)

pub takes_result-succeeded :
    (c : ExecutionClaim) (now : ℕ) (j : Job)
    → IsSound j
    → may_finish false c now j ≡ true
    → takes_result c (finish_succeeded now j) ≡ true
unfolding may_finish is_active_claim set_attempt is_processing is_finished is_succeeded
takes_result-succeeded c now j v h = ground arith

pub succeeded-merge :
    (c : ExecutionClaim) (r : ResultRow) (now : ℕ) (js : List Job)
    → All IsSound js
    → count (may_finish false c now) js ≡ 1
    → count (takes_result c) (update_rows (may_finish false c now) (finish_succeeded now) js) ≡ 1
    → update_rows
        (takes_result c)
        (λ j. record j { result = some r })
        (update_rows (may_finish false c now) (finish_succeeded now) js)
      ≡ update_rows
          (may_finish false c now)
          (λ j. record (finish_succeeded now j) { result = some r })
          js
succeeded-merge c r now js v one three =
    update_rows-merge (may_finish false c now) (takes_result c) (finish_succeeded now) _ js
      (All-map IsSound _ (λ j w. takes_result-succeeded c now j w) js v) (one ∙ sym three)

insert_result-Evolved :
    (p : Policy) (c : ExecutionClaim) (r : ResultRow) (now : ℕ) (s : Store)
    → All IsSound s.jobs
    → count (may_finish false c now) s.jobs ≡ 1
    → After (Evolved p s) (insert_result c r (finished_store false (succeed now) c now s))
unfolding insert_result
insert_result-Evolved p c r now s v one =
    After-if (Evolved p s)
      (count (takes_result c) (update_rows (may_finish false c now) (finish_succeeded now) s.jobs)
        == 1)
      _ _ _
      (λ three.
        subst (Evolves p (room p s) Never s.jobs)
          (sym (succeeded-merge c r now s.jobs v one ((==_iff _ _).0 three)))
          (Evolves-update p (may_finish false c now)
            (λ j. record (finish_succeeded now j) { result = some r }) s.jobs
            (λ j h.
              let (run, flag, _) = may_finish-guard false c now j h in
              succeeds r now run flag refl)))
      (λ _. tt)

publish_valid-Evolved :
    (p : Policy) (c : ExecutionClaim) (r : Result TranscriptionResponse) (now : ℕ) (s : Store)
    → Inv s
    → Evolved p s (publish_valid c r now s).1
unfolding publish_valid
publish_valid-Evolved p c (err e) now s v = Evolved-refl p s
publish_valid-Evolved p c (ok r) now s v = commit-Evolved p s _ (
    finish_claim-After false (succeed now) c now s (λ j. (refl, refl)) (Evolved p s)
      (insert_result c (result_values r (segment_values r))) v (Evolved-refl p s)
      (insert_result-Evolved p c (result_values r (segment_values r)) now s v.sound))

pub publish_success-Evolved :
    (p : Policy) (c : ExecutionClaim) (r : TranscriptionResponse) (now : ℕ) (s : Store)
    → Inv s
    → Evolved p s (publish_success c r now s).1
unfolding publish_success
publish_success-Evolved p c r now s v =
    ground (arith, Evolved-refl p s, publish_valid-Evolved p c (validate_response r) now s v)
