-- ===== src/Jobs/Repository/Published.antt =====
-- A published success, from the transaction that stores it to the read that shows it.
use textify.Prelude.{
  ℕ, ◌≤◌, Bool, true, false, ◌≡◌, refl, sym, ap, ◌∙◌, subst, Option, none, some, List, [], ◌∷◌,
  ◌==◌, ==_iff, count, In, All-In, arith, if◌then◌else◌, is_some, inl, inr, Bool-cases, and-eq-true,
}
use textify.Transcription.Fields.{ResponseFieldPath, TranscriptionResponse, valid_response}
use textify.Jobs.Types.{
  ExecutionClaim, SucceededTranscriptionJob, succeeded_job, Result, ok, err, value_error,
  is_finished, JobStatus, queued, processing, finished, JobOutcome, succeeded, failed, cancelled,
  is_uuid4,
}
use textify.Jobs.Schema.{Job, ResultRow, job_check, row_check, lifecycle_check, finished_check}
use textify.Jobs.Schema.Identity.{id-injective, schema_check-unique, schema_check-jobs}
use textify.Jobs.Rows.{
  check, validate_response, result_values, segment_values, load_exclusions, is_succeeded,
  succeeded_job_from_rows, public_id_from_row, datetime_from_row,
}
use textify.Jobs.Rows.RoundTrip.{is_projected, result_values-roundtrip}
use textify.Jobs.Tx.{◌>>◌, pure, Store, update_rows}
use textify.Jobs.Tx.Promises.{Gives-then, Gives-any, Gives-map, Gives, Gives-if, Gives-commit}
use textify.Jobs.Repository.Policy.{Policy, terminal_job_is_expired}
use textify.Jobs.Repository.Claiming.{valid_claim}
use textify.Jobs.Repository.Publishing.{
  may_finish, finish_claim, succeed, insert_result, publish_valid, publish_success,
  clear_execution_claim,
}
use textify.Jobs.Types.{store_unavailable}
use textify.Jobs.Repository.Reading.{
  get_job, snapshot_of_row, snapshot_by_status, finished_snapshot, succeeded_snapshot,
}
use textify.Jobs.Repository.Steps.{after, finish_success}
use textify.Jobs.Repository.Invariant.{Inv, IsSound}
use textify.Jobs.Repository.Lifecycle.Publications.{takes_result}
use textify.Jobs.Repository.History.Invariance.{after-Inv}
use textify.Jobs.Repository.History.Answers.{get_job-row}

-- The job's row, with the stored result.
pub record Stored (i : ℕ) (r : ResultRow) (ks : List Job) : Type 0 where
  pub row : Job
  pub member : In row ks
  pub identity : row.id ≡ i
  pub result : row.result ≡ some r

abbrev Stores : ℕ → ResultRow → Bool → Store → Type 0
Stores i r b t = b ≡ true → Stored i r t.jobs

-- A counted row is there after the update.
updated :
    (test : Job → Bool) (f : Job → Job) (js : List Job)
    → 1 ≤ count test js
    → (j : Job) × (In (f j) (update_rows test f js) × (test j ≡ true))
unfolding count update_rows
updated test f [] h = absurd (omega (arith, h))
updated test f (j ∷ js) h = elim (Bool-cases (test j)) [
  | inl hit ↦ (j, (inl (rw hit refl), hit))
  | inr miss ↦ let (k, (m, e)) = updated test f js (ground (arith, h, miss)) in (k, (inr m, e))
]

insert_result-Stores :
    (c : ExecutionClaim) (r : ResultRow) (s : Store)
    → Gives (λ x t. Stored c.dispatch.internal_job_id r t.jobs) (insert_result c r s)
unfolding insert_result
insert_result-Stores c r s =
    Gives-if (λ x t. Stored c.dispatch.internal_job_id r t.jobs)
      (count (takes_result c) s.jobs == 1) _ _ _
      (λ one.
        let (j, (m, h)) =
          updated (takes_result c) (λ j. record j { result = some r }) s.jobs
            (omega (arith, (==_iff _ _).0 one)) in
        record {
          row = record j { result = some r };
          member = m;
          identity = (==_iff _ _).0 (and-eq-true _ _ h).0;
          result = refl;
        })
      (λ _. tt)

finish_claim-Stores :
    (c : ExecutionClaim) (r : ResultRow) (now : ℕ) (s : Store)
    → Gives
        (Stores c.dispatch.internal_job_id r)
        (finish_claim false (succeed now) c now (insert_result c r) s)
unfolding finish_claim
finish_claim-Stores c r now s =
    Gives-if Q (count (may_finish false c now) s.jobs == 1) _ _ _
      (λ _. Gives-then Q (clear_execution_claim c) (insert_result c r >> pure true) _ (
        Gives-any _ _ λ a t. Gives-then Q (insert_result c r) (pure true) t (
          Gives-map (λ x u. Stored c.dispatch.internal_job_id r u.jobs) (λ x u. Q true u) _
            (λ x u h e. h) (insert_result-Stores c r t))))
      (λ _ e. cc e)
  where
    Q : Bool → Store → Type 0
    Q = Stores c.dispatch.internal_job_id r

-- The stored row of a success that was published.
publish_success-Stored :
    (c : ExecutionClaim) (r : TranscriptionResponse) (now : ℕ) (s : Store)
    → (publish_success c r now s).0 ≡ ok true
    → (valid_response r ≡ true)
      × Stored c.dispatch.internal_job_id
          (result_values r (segment_values r))
          (publish_success c r now s).1.jobs
unfolding publish_success publish_valid validate_response check
publish_success-Stored c r now s e = go (valid_claim c) (valid_response r) e
  where
    body : Bool → Bool → Result Bool × Store
    body b v =
        if b
        then publish_valid c (if v then ok r else err store_unavailable) now s
        else (err value_error, s)

    go :
        (b v : Bool)
        → (body b v).0 ≡ ok true
        → (v ≡ true)
          × Stored c.dispatch.internal_job_id (result_values r (segment_values r)) (body b v).1.jobs
    go true true h = (
      refl,
      Gives-commit (Stores c.dispatch.internal_job_id (result_values r (segment_values r))) s _ true
          (finish_claim-Stores c (result_values r (segment_values r)) now s) h refl,
    )
    go true false h = cc h
    go false v h = cc h

-- The snapshot of a succeeded row.
abbrev snapshot : Job → ℕ → ℕ → TranscriptionResponse → SucceededTranscriptionJob
snapshot j a b r = record {
  public_id = j.public_id;
  submitted_at = j.submitted_at;
  started_at = a;
  finished_at = b;
  result = r;
}

module _ (j : Job) (r : TranscriptionResponse) (ex : List ResponseFieldPath) (a b : ℕ)
    (uuid : is_uuid4 j.public_id ≡ true) (done : is_finished j.status ≡ true)
    (won : is_succeeded j.outcome ≡ true) (unset : j.cancellation_requested ≡ false)
    (start : j.started_at ≡ some a) (end : j.finished_at ≡ some b)
    (stored : j.result ≡ some (result_values r (segment_values r)))
    (loaded : load_exclusions j ≡ ok ex) (shown : is_projected ex r ≡ true)
    (good : valid_response r ≡ true) where
  from_rows :
      succeeded_job_from_rows j (result_values r (segment_values r)) (segment_values r) ex
      ≡ ok (snapshot j a b r)
  unfolding succeeded_job_from_rows public_id_from_row datetime_from_row check
  from_rows =
      ground (arith, uuid, done, won, unset, start, end, result_values-roundtrip ex r shown good)

  by_result : succeeded_snapshot j.result j ≡ ok (succeeded_job (snapshot j a b r))
  unfolding succeeded_snapshot result_values
  by_result = rw stored (ground (arith, loaded, from_rows))

  by_outcome : finished_snapshot j.outcome j ≡ ok (succeeded_job (snapshot j a b r))
  unfolding finished_snapshot is_succeeded
  by_outcome = go j.outcome won
    where
      go :
          (o : Option JobOutcome)
          → is_succeeded o ≡ true
          → finished_snapshot o j ≡ ok (succeeded_job (snapshot j a b r))
      go (some succeeded) h = by_result
      go (some failed) h = cc h
      go (some cancelled) h = cc h
      go none h = cc h

  by_status : snapshot_by_status j.status j ≡ ok (succeeded_job (snapshot j a b r))
  unfolding snapshot_by_status is_finished
  by_status = go j.status done
    where
      go :
          (x : JobStatus)
          → is_finished x ≡ true
          → snapshot_by_status x j ≡ ok (succeeded_job (snapshot j a b r))
      go finished h = by_outcome
      go queued h = cc h
      go processing h = cc h

  by_row :
      (p : Policy) (later : ℕ)
      → terminal_job_is_expired p later j ≡ ok false
      → snapshot_of_row p later (some j) ≡ ok (some (succeeded_job (snapshot j a b r)))
  unfolding snapshot_of_row
  by_row p later fresh = rw fresh (rw by_status refl)

-- What the constraints say of a succeeded row.
pub record Succeeded (j : Job) : Type 0 where
  pub a : ℕ
  pub b : ℕ
  pub uuid : is_uuid4 j.public_id ≡ true
  pub unset : j.cancellation_requested ≡ false
  pub start : j.started_at ≡ some a
  pub end : j.finished_at ≡ some b

succeeded_columns :
    (j : Job)
    → job_check j ≡ true
    → is_finished j.status ≡ true
    → is_succeeded j.outcome ≡ true
    → (is_uuid4 j.public_id ≡ true)
      × (j.cancellation_requested ≡ false)
      × (is_some j.started_at ≡ true)
      × (is_some j.finished_at ≡ true)
unfolding job_check row_check lifecycle_check finished_check is_finished is_succeeded
succeeded_columns j met done won = (
  ground (arith, met),
  ground (arith, met, done, won),
  ground (arith, met, done, won),
  ground (arith, met, done, won),
)

Succeeded-row :
    (j : Job)
    → job_check j ≡ true
    → is_finished j.status ≡ true
    → is_succeeded j.outcome ≡ true
    → Succeeded j
Succeeded-row j met done won =
    let (uuid, unset, start, end) = succeeded_columns j met done won in
    let (a, e) = present j.started_at start in
    let (b, f) = present j.finished_at end in
    record { a = a; b = b; uuid = uuid; unset = unset; start = e; end = f }
  where
    present : (o : Option ℕ) → is_some o ≡ true → (x : ℕ) × (o ≡ some x)
    present none h = cc h
    present (some x) h = (x, refl)

-- A success that was published is read back: once `publish_success` answered true, a read of that
-- job by its public identifier gives, until its retention is over, a succeeded snapshot with exactly
-- the response that the worker published, provided that response was projected by the exclusions
-- stored with the job.
pub get_job-publish_success :
    (p : Policy) (c : ExecutionClaim) (r : TranscriptionResponse) (now later : ℕ) (s : Store)
    (j : Job) (ex : List ResponseFieldPath)
    → Inv s
    → (publish_success c r now s).0 ≡ ok true
    → In j (publish_success c r now s).1.jobs
    → j.id ≡ c.dispatch.internal_job_id
    → load_exclusions j ≡ ok ex
    → is_projected ex r ≡ true
    → terminal_job_is_expired p later j ≡ ok false
    → (x : SucceededTranscriptionJob) × (get_job p j.public_id later (publish_success c r now s).1
        ≡ ok (some (succeeded_job x)))
      × (x.result ≡ r)
unfolding after is_succeeded
get_job-publish_success p c r now later s j ex v e m same loaded shown fresh =
    let (good, x) = publish_success-Stored c r now s e in
    let stored =
      subst (λ k. k.result ≡ some (result_values r (segment_values r)))
        (id-injective _ x.row j (schema_check-unique _ w.schema) x.member m (x.identity ∙ sym same))
        x.result in
    let won =
      sym (All-In IsSound j _ w.sound m).resulted
      ∙ ap (λ (o : Option ResultRow). is_some o) stored in
    let done = (All-In IsSound j _ w.sound m).unfinished ∙ outcome_of j.outcome won in
    let row = Succeeded-row j (All-In _ j _ (schema_check-jobs _ w.schema) m) done won in
    (
      snapshot j row.a row.b r,
      get_job-row p later j _ w m
          ∙ by_row j r ex row.a row.b row.uuid done won row.unset row.start row.end stored loaded
              shown good p later fresh,
      refl,
    )
  where
    w : Inv (publish_success c r now s).1
    w = after-Inv p (finish_success c r now) s v

    outcome_of : (o : Option JobOutcome) → is_succeeded o ≡ true → is_some o ≡ true
    outcome_of none h = cc h
    outcome_of (some x) h = refl
