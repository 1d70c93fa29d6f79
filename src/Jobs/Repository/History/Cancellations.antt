-- ===== src/Jobs/Repository/History/Cancellations.antt =====
-- What an accepted cancellation means for the job from then on.
use textify.Prelude.{
  map, Bool-cases, All-from_In, ℕ, String, Bool, true, false, ◌≡◌, refl, sym, ap, ◌∙◌, subst,
  Option, none, some, List, ◌==◌, ==_iff, leb, count, In, All, All-In, All-pure, arith, inl, inr,
  ◌⊎◌,
}
use textify.Jobs.Types.{
  Uuid, JobStatus, JobOutcome, queued, processing, finished, succeeded, failed, cancelled,
  is_processing, TranscriptionJobCancellationResult, ok, ExecutionClaim,
}
use textify.Errors.{PublicErrorCode, nonempty}
use textify.Transcription.Fields.{TranscriptionResponse, valid_response}
use textify.Jobs.Schema.{Job, unique}
use textify.Jobs.Schema.Identity.{id-injective, schema_check-unique}
use textify.Jobs.Repository.Claiming.{valid_claim}
use textify.Jobs.Repository.Publishing.{may_finish, publish_success, publish_failure}
use textify.Jobs.Repository.Refusals.{publish_success-refused, publish_failure-refused}
use textify.Jobs.Rows.{cancelled_job_from_row, processing_job_from_row, check}
use textify.Jobs.Tx.{Store, update_rows}
use textify.Jobs.Tx.Updates.{All-update_rows, patch}
use textify.Jobs.Tx.Promises.{Gives, Gives-if, Gives-lift, Gives-select_one, Gives-commit}
use textify.Jobs.Repository.Policy.{Policy, is_active_claim, terminal_job_is_expired}
use textify.Jobs.Repository.Cancelling.{
  Cancellation, flag_cancellation, cancelled_result, processing_result, finished_result,
  cancel_by_status, cancel_row, request_cancellation,
}
use textify.Jobs.Repository.Steps.{Reach, cancel, after}
use textify.Jobs.Repository.Invariant.{Inv}
use textify.Jobs.Repository.Lifecycle.Requests.{flaggable, withdrawable}
use textify.Jobs.Repository.History.Invariance.{Reach-Inv, after-Inv}
use textify.Jobs.Repository.History.Following.{Follows, is_cancelling, as_accepted}
use textify.Jobs.Repository.History.Fates.{Fate, stands, removed, Removal, Removal-map, Reach-Fate}

pub same_id : (j k : Job) → Follows j k → k.id ≡ j.id
unfolding as_accepted
same_id j k f = ap (λ (x : Job). x.id) f.accepted

-- The job of an accepted cancellation.
pub record Withdrawn (i : ℕ) (js : List Job) : Type 0 where
  pub row : Job
  pub member : In row js
  pub identity : row.id ≡ i
  pub cancelling : is_cancelling row ≡ true

abbrev pub Withdraws : Cancellation → Store → Type 0
Withdraws none t = Unit
Withdraws (some r) t = Withdrawn r.internal_job_id t.jobs

-- A row that reads as cancelled is cancelled.
cancelled-cancelling : (j : Job) {a : _} → cancelled_job_from_row j ≡ ok a → is_cancelling j ≡ true
unfolding cancelled_job_from_row check is_cancelling
cancelled-cancelling j e = ground (arith, e)

processing-running :
    (j : Job) {a : _} → processing_job_from_row j ≡ ok a → is_processing j.status ≡ true
unfolding processing_job_from_row check
processing-running j e = ground (arith, e)

running-cancelling :
    (j : Job)
    → is_processing j.status ≡ true
    → j.cancellation_requested ≡ true
    → is_cancelling j ≡ true
unfolding is_cancelling
running-cancelling j run flag = ground (arith, run, flag)

cancelled_result-Withdraws :
    (i : ℕ) (first : Bool) (j : Job) (t : Store)
    → In j t.jobs
    → j.id ≡ i
    → Gives Withdraws (cancelled_result i first (some j) t)
unfolding cancelled_result
cancelled_result-Withdraws i first j t m e =
    Gives-lift Withdraws (cancelled_job_from_row j) _ t
      λ a h. record { row = j; member = m; identity = e; cancelling = cancelled-cancelling j h }

processing_result-Withdraws :
    (i : ℕ) (first : Bool) (j : Job) (t : Store)
    → In j t.jobs
    → j.id ≡ i
    → (is_processing j.status ≡ true → j.cancellation_requested ≡ true)
    → Gives Withdraws (processing_result i first (some j) t)
unfolding processing_result
processing_result-Withdraws i first j t m e flag =
    Gives-lift Withdraws (processing_job_from_row j) _ t λ a h. record {
      row = j;
      member = m;
      identity = e;
      cancelling = let run = processing-running j h in running-cancelling j run (flag run);
    }

-- Every row of the job that still runs is flagged.
flagged :
    (i : ℕ) (js : List Job)
    → All
        (λ k. k.id ≡ i → is_processing k.status ≡ true → k.cancellation_requested ≡ true)
        (update_rows (flaggable i) flag_cancellation js)
flagged i js = All-update_rows _ (flaggable i) flag_cancellation js (All-pure _ js row)
  where
    row :
        (k : Job)
        → (patch (flaggable i) flag_cancellation k).id ≡ i
        → is_processing (patch (flaggable i) flag_cancellation k).status ≡ true
        → (patch (flaggable i) flag_cancellation k).cancellation_requested ≡ true
    row k e run = ground (arith, e, run, (==_iff k.id i).1)

finished_result-Withdraws :
    (o : Option JobOutcome) (j : Job) (s : Store)
    → In j s.jobs
    → Gives Withdraws (finished_result o j s)
unfolding finished_result
finished_result-Withdraws (some cancelled) j s i = cancelled_result-Withdraws j.id false j s i refl
finished_result-Withdraws (some succeeded) j s i = tt
finished_result-Withdraws (some failed) j s i = tt
finished_result-Withdraws none j s i = tt

cancel_by_status-Withdraws :
    (st : JobStatus) (now : ℕ) (j : Job) (s : Store)
    → In j s.jobs
    → Gives Withdraws (cancel_by_status st now j s)
unfolding cancel_by_status
cancel_by_status-Withdraws queued now j s i =
    Gives-if Withdraws (count (withdrawable j.id) s.jobs == 1) _ _ _
      (λ _.
        Gives-select_one Withdraws (λ k. k.id == j.id) (cancelled_result j.id true) _ tt
          (λ k m e. cancelled_result-Withdraws j.id true k _ m ((==_iff _ _).0 e)))
      (λ _. tt)
cancel_by_status-Withdraws processing now j s i =
    Gives-if Withdraws (leb (count (flaggable j.id) s.jobs) 1) _ _ _
      (λ _.
        Gives-select_one Withdraws (λ k. k.id == j.id)
          (processing_result j.id (count (flaggable j.id) s.jobs == 1)) _ tt
          (λ k m e.
            processing_result-Withdraws j.id (count (flaggable j.id) s.jobs == 1) k _ m
              ((==_iff _ _).0 e) (All-In _ k _ (flagged j.id s.jobs) m ((==_iff _ _).0 e))))
      (λ _. tt)
cancel_by_status-Withdraws finished now j s i = finished_result-Withdraws j.outcome j s i

cancel_row-Withdraws :
    (p : Policy) (now : ℕ) (j : Job) (s : Store)
    → In j s.jobs
    → Gives Withdraws (cancel_row p now (some j) s)
unfolding cancel_row
cancel_row-Withdraws p now j s i =
    Gives-lift Withdraws (terminal_job_is_expired p now j) _ s λ expired _.
      Gives-if Withdraws expired _ _ s (λ _. tt)
        (λ _. cancel_by_status-Withdraws j.status now j s i)

pub request_cancellation-Withdraws :
    (p : Policy) (public_id : Uuid) (now : ℕ) (s : Store) (r : TranscriptionJobCancellationResult)
    → (request_cancellation p public_id now s).0 ≡ ok (some r)
    → Withdrawn r.internal_job_id (request_cancellation p public_id now s).1.jobs
unfolding request_cancellation cancel_row
request_cancellation-Withdraws p public_id now s r e =
    Gives-commit Withdraws s _ (some r)
      (Gives-select_one Withdraws (λ j. j.public_id == public_id) (cancel_row p now) s tt
        (λ j i _. cancel_row-Withdraws p now j s i))
      e

-- A row of the job `i` that is being cancelled, or was.
pub record IsWithdrawn (i : ℕ) (j : Job) : Type 0 where
  pub identity : j.id ≡ i
  pub cancelling : is_cancelling j ≡ true

-- Once a cancellation was accepted for a job, the job stands at every later time as one that is
-- being cancelled or is cancelled, never as succeeded or failed; or a cleanup of the history between
-- ran while its cancelled row stood past its retention, by the clock reading of the cleanup.
pub request_cancellation-final :
    (p : Policy) (public_id : Uuid) (now : ℕ) (r : TranscriptionJobCancellationResult) {s t : Store}
    → Inv s
    → (request_cancellation p public_id now s).0 ≡ ok (some r)
    → (path : Reach p (request_cancellation p public_id now s).1 t)
    → Withdrawn r.internal_job_id t.jobs ⊎ Removal (IsWithdrawn r.internal_job_id) path
unfolding request_cancellation after
request_cancellation-final p public_id now r {s} {t} v e path =
    go w (Reach-Fate p w.row path (after-Inv p (cancel public_id now) s v) w.member)
  where
    w : Withdrawn r.internal_job_id (request_cancellation p public_id now s).1.jobs
    w = request_cancellation-Withdraws p public_id now s r e

    go :
        (w : Withdrawn r.internal_job_id (request_cancellation p public_id now s).1.jobs)
        → Fate w.row path
        → Withdrawn r.internal_job_id t.jobs ⊎ Removal (IsWithdrawn r.internal_job_id) path
    go w (stands k m f) = inl (record {
      row = k;
      member = m;
      identity = same_id w.row k f ∙ w.identity;
      cancelling = f.cancelling w.cancelling;
    })
    go w (removed h) = inr (
        Removal-map (Follows w.row) (IsWithdrawn r.internal_job_id) path
          (λ k f. record {
            identity = same_id w.row k f ∙ w.identity;
            cancelling = f.cancelling w.cancelling;
          })
          h)

unfinishable :
    (c : ExecutionClaim) (now : ℕ) (j : Job)
    → is_cancelling j ≡ true
    → may_finish false c now j ≡ false
unfolding is_cancelling may_finish
unfinishable c now j h = ground (arith, h)

other_job :
    (c : ExecutionClaim) (now i : ℕ) (j : Job)
    → c.dispatch.internal_job_id ≡ i
    → (j.id == i) ≡ false
    → may_finish false c now j ≡ false
unfolding may_finish is_active_claim
other_job c now i j e h =
    subst (λ x. (j.id == x) ≡ false → may_finish false c now j ≡ false) e (λ k. ground (arith, k)) h

-- No job with the id of a withdrawn one may succeed or fail.
Withdrawn-refuses :
    (c : ExecutionClaim) (now i : ℕ) (js : List Job)
    → unique (map (λ j. j.id) js) ≡ true
    → Withdrawn i js
    → c.dispatch.internal_job_id ≡ i
    → All (λ j. may_finish false c now j ≡ false) js
Withdrawn-refuses c now i js u w e = All-from_In _ js row
  where
    row : (j : Job) → In j js → may_finish false c now j ≡ false
    row j m = elim (Bool-cases (j.id == i)) [
      | inl hit ↦
          subst (λ k. may_finish false c now k ≡ false)
            (id-injective js w.row j u w.member m (w.identity ∙ sym ((==_iff _ _).0 hit)))
            (unfinishable c now w.row w.cancelling)
      | inr miss ↦ other_job c now i j e miss
    ]

-- Cancellation wins: after a cancellation was accepted for a job, no later publication of a success
-- or of a failure of that job, under any claim and with arguments that pass their checks, has an
-- effect: it answers false and leaves the store as it was; unless a cleanup of the history
-- between ran while the cancelled row of that job stood past its retention, by the clock reading of
-- the cleanup.
pub cancellation-wins :
    (p : Policy) (public_id : Uuid) (now later : ℕ) (a : TranscriptionJobCancellationResult)
    (c : ExecutionClaim) (r : TranscriptionResponse) (code : PublicErrorCode) (message : String)
    {s t : Store}
    → Inv s
    → (request_cancellation p public_id now s).0 ≡ ok (some a)
    → (path : Reach p (request_cancellation p public_id now s).1 t)
    → c.dispatch.internal_job_id ≡ a.internal_job_id
    → valid_claim c ≡ true
    → valid_response r ≡ true
    → nonempty message ≡ true
    → ((publish_success c r later t ≡ (ok false, t))
        × (publish_failure c code message later t ≡ (ok false, t)))
      ⊎ Removal (IsWithdrawn a.internal_job_id) path
unfolding request_cancellation after
cancellation-wins p public_id now later a c r code message {s} {t} v e path same valid good text =
    go (request_cancellation-final p public_id now a v e path)
  where
    w : Inv t
    w = Reach-Inv p path (after-Inv p (cancel public_id now) s v)

    refuses :
        Withdrawn a.internal_job_id t.jobs → All (λ j. may_finish false c later j ≡ false) t.jobs
    refuses x =
        Withdrawn-refuses c later a.internal_job_id t.jobs (schema_check-unique t.jobs w.schema) x
          same

    go :
        Withdrawn a.internal_job_id t.jobs ⊎ Removal (IsWithdrawn a.internal_job_id) path
        → ((publish_success c r later t ≡ (ok false, t))
            × (publish_failure c code message later t ≡ (ok false, t)))
          ⊎ Removal (IsWithdrawn a.internal_job_id) path
    go (inl x) = inl (
      publish_success-refused c later t w valid r good (refuses x),
      publish_failure-refused c later t w valid code message text (refuses x),
    )
    go (inr gone) = inr gone
