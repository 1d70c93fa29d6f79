-- ===== src/Jobs/Repository/Refusals.antt =====
-- Publications that the store refuses: the claim is stale, or the outcome is not the job's to have.
use textify.Prelude.{
  ℕ, String, Bool, true, false, ◌≡◌, refl, List, [], ◌∷◌, count, All, All-map, arith,
}
use textify.Errors.{PublicErrorCode, nonempty}
use textify.Transcription.Fields.{TranscriptionResponse, valid_response}
use textify.Jobs.Types.{ExecutionClaim, ok}
use textify.Jobs.Schema.{Job}
use textify.Jobs.Rows.{check, validate_response, validate_error_detail}
use textify.Jobs.Tx.{Store, Tx, pure, transaction, commit, update_where}
use textify.Jobs.Tx.Updates.{update_rows-zero}
use textify.Jobs.Repository.Policy.{is_active_claim, fail_with}
use textify.Jobs.Repository.Claiming.{valid_claim}
use textify.Jobs.Repository.Publishing.{
  may_finish, finish_claim, cancel_claimed, publish_cancelled, publish_success, publish_valid,
  publish_failure, publish_error,
}
use textify.Jobs.Repository.Invariant.{Inv}

finish_claim-refused :
    (requested : Bool) (f : Job → Job) (c : ExecutionClaim) (now : ℕ) (inserts : Tx (Unit {0}))
    (s : Store)
    → Inv s
    → count (may_finish requested c now) s.jobs ≡ 0
    → transaction (finish_claim requested f c now inserts) s ≡ (ok false, s)
unfolding finish_claim transaction commit update_where
finish_claim-refused requested f c now inserts s v zero =
    ground (arith, zero, v.schema, update_rows-zero (may_finish requested c now) f s.jobs zero)

-- No row that a publication may finish.
pub count-none :
    (test : Job → Bool) (js : List Job) → All (λ j. test j ≡ false) js → count test js ≡ 0
unfolding count
count-none test [] h = refl
count-none test (j ∷ js) h = ground (arith, h.0, count-none test js h.1)

module _ (c : ExecutionClaim) (now : ℕ) (s : Store) (v : Inv s) (valid : valid_claim c ≡ true) where
  pub publish_cancelled-refused :
      All (λ j. may_finish true c now j ≡ false) s.jobs → publish_cancelled c now s ≡ (ok false, s)
  unfolding publish_cancelled
  publish_cancelled-refused h = rw valid (
      finish_claim-refused true (cancel_claimed now) c now (pure tt) s v
        (count-none (may_finish true c now) s.jobs h))

  pub publish_success-refused :
      (r : TranscriptionResponse)
      → valid_response r ≡ true
      → All (λ j. may_finish false c now j ≡ false) s.jobs
      → publish_success c r now s ≡ (ok false, s)
  unfolding publish_success publish_valid validate_response check
  publish_success-refused r good h = rw valid (
      rw good
        (finish_claim-refused false _ c now _ s v (count-none (may_finish false c now) s.jobs h)))

  pub publish_failure-refused :
      (code : PublicErrorCode) (message : String)
      → nonempty message ≡ true
      → All (λ j. may_finish false c now j ≡ false) s.jobs
      → publish_failure c code message now s ≡ (ok false, s)
  unfolding publish_failure publish_error validate_error_detail check
  publish_failure-refused code message good h = rw valid (
      rw good (
        finish_claim-refused false (fail_with code message now) c now (pure tt) s v
          (count-none (may_finish false c now) s.jobs h)))

unclaimed :
    (requested : Bool) (c : ExecutionClaim) (now : ℕ) (js : List Job)
    → All (λ j. is_active_claim c now j ≡ false) js
    → All (λ j. may_finish requested c now j ≡ false) js
unfolding may_finish
unclaimed requested c now js h =
    All-map _ (λ j. may_finish requested c now j ≡ false) (λ j e. ground (arith, e)) js h

-- A worker whose claim no job holds, or whose lease has run out by its clock reading, publishes
-- nothing: each of the three terminal publications, with arguments that pass their checks, answers
-- false and leaves the store as it was.
pub publish-stale :
    (c : ExecutionClaim) (r : TranscriptionResponse) (code : PublicErrorCode) (message : String)
    (now : ℕ) (s : Store)
    → Inv s
    → valid_claim c ≡ true
    → valid_response r ≡ true
    → nonempty message ≡ true
    → All (λ j. is_active_claim c now j ≡ false) s.jobs
    → (publish_cancelled c now s ≡ (ok false, s))
      × (publish_success c r now s ≡ (ok false, s))
      × (publish_failure c code message now s ≡ (ok false, s))
publish-stale c r code message now s v valid good text h = (
  publish_cancelled-refused c now s v valid (unclaimed true c now s.jobs h),
  publish_success-refused c now s v valid r good (unclaimed false c now s.jobs h),
  publish_failure-refused c now s v valid code message text (unclaimed false c now s.jobs h),
)
