-- ===== src/Jobs/Repository/History/Replays.antt =====
-- What a client is told that submits a request again under its idempotency key.
use text.Mathlib.TextEquality.{eq_iff}
use textify.Prelude.{
  all, All-In, Bool-cases, ◌+◌, ◌++◌, ==_refl, ==_iff, ℕ, ◌≡◌, true, false, refl, ap, ◌∙◌, subst,
  Bool, Option, none, some, List, [], ◌∷◌, In, ◌⊎◌, inl, inr, select, if◌then◌else◌, arith, null_eq,
  leb,
}
use textify.Jobs.Types.{
  value_error, Result, ok, err, NewQueuedTranscriptionJob, idempotency_conflict, is_uuid4, Uuid,
  QueuedTranscriptionJob,
}
use textify.Jobs.Schema.{job_check, row_check, Job, schema_check}
use textify.Jobs.Schema.Lookup.{find_key}
use textify.Jobs.Rows.{check, accepted_job_from_row, public_id_from_row}
use textify.Jobs.Tx.{Store, one_or_none, commit, transaction, select_one, lift, ◌>>=◌}
use textify.Jobs.Tx.Updates.{commit-ok}
use textify.Jobs.Tx.Promises.{found}
use textify.Transcription.Fields.{ResponseFieldPath, path_rank, excludes}
use textify.Jobs.Schema.Identity.{schema_check-jobs}
use textify.Jobs.Repository.Policy.{Policy}
use textify.Jobs.Repository.Admission.{
  Fresh, new_job, insert_job, admit, subset_paths, same_paths, create_queued, same_request,
  replay_or_admit, replay, create_queued_tx, count_outstanding_jobs,
}
use textify.Jobs.Repository.Steps.{Reach, create, after}
use textify.Jobs.Repository.Invariant.{Inv}
use textify.Jobs.Repository.History.Invariance.{Reach-Inv, after-Inv}
use textify.Jobs.Repository.History.Following.{Follows, as_accepted}
use textify.Jobs.Repository.History.Fates.{Fate, stands, removed, Removal, Removal-map, Reach-Fate}

-- A submission whose idempotency key a job has is answered from that job when the submitted URL and
-- the set of exclusions are the same, and is refused as a conflict otherwise; it changes nothing,
-- whatever the capacity.
pub create_queued-replay :
    (p : Policy) (now : ℕ) (fresh : Fresh) (new : NewQueuedTranscriptionJob) (k : Job) (t : Store)
    → Inv t
    → In k t.jobs
    → k.idempotency_key ≡ some new.idempotency_key
    → is_uuid4 new.idempotency_key ≡ true
    → create_queued p now fresh new t
      ≡ ((if same_request new k then accepted_job_from_row k else err idempotency_conflict), t)
unfolding create_queued create_queued_tx replay_or_admit replay commit transaction select_one
create_queued-replay p now fresh new k t v i e valid =
    rw valid (ap (commit t) body ∙ ground (arith, v.schema))
  where
    body : create_queued_tx p now fresh new t ≡ replay new k t
    body =
        ap (λ (r : Result (Option Job)). (lift r >>= replay_or_admit p now fresh new) t)
          (find_key k new.idempotency_key t.jobs v.schema e i)

same-accepted :
    (new : NewQueuedTranscriptionJob) (j k : Job)
    → Follows j k
    → same_request new k ≡ same_request new j
unfolding same_request as_accepted
same-accepted new j k f = ap (λ (x : Job). same_request new x) f.accepted

row-accepted : (j k : Job) → Follows j k → accepted_job_from_row k ≡ accepted_job_from_row j
unfolding accepted_job_from_row as_accepted public_id_from_row
row-accepted j k f = ap (λ (x : Job). accepted_job_from_row x) f.accepted

key-accepted : (j k : Job) → Follows j k → k.idempotency_key ≡ j.idempotency_key
unfolding as_accepted
key-accepted j k f = ap (λ (x : Job). x.idempotency_key) f.accepted

-- The row behind an accepted submission.
pub record Accepted (new : NewQueuedTranscriptionJob) (q : QueuedTranscriptionJob) (js : List Job)
    : Type 0 where
  pub row : Job
  pub member : In row js
  pub key : row.idempotency_key ≡ some new.idempotency_key
  pub request : same_request new row ≡ true
  pub answer : accepted_job_from_row row ≡ ok q

excludes_self : (x : ResponseFieldPath) (ps : List ResponseFieldPath) → excludes (x ∷ ps) x ≡ true
unfolding excludes
excludes_self x ps = ground (arith, ==_refl (path_rank x))

-- A list whose paths all stand in it.
excludes-all :
    (ps qs : List ResponseFieldPath)
    → ((x : ResponseFieldPath) → excludes ps x ≡ true → excludes qs x ≡ true)
    → subset_paths ps qs ≡ true
unfolding subset_paths excludes all
excludes-all [] qs h = refl
excludes-all (x ∷ ps) qs h =
    ground (arith, h x (excludes_self x ps), excludes-all ps qs (λ y e. h y (ground (arith, e))))

same_request-new :
    (p : Policy) (now : ℕ) (fresh : Fresh) (new : NewQueuedTranscriptionJob) (id : ℕ)
    → same_request new (new_job p now fresh new id) ≡ true
unfolding same_request same_paths new_job
same_request-new p now fresh new id = ground (
  arith,
  (eq_iff new.request_identity.submitted_url new.request_identity.submitted_url).1 refl,
  excludes-all new.request_identity.exclusions new.request_identity.exclusions (λ x e. e),
)

key_of : (k : Option Uuid) (x : Uuid) → null_eq k x ≡ true → k ≡ some x
key_of none x h = ground arith
key_of (some y) x h = ap some ((==_iff y x).0 h)

last-In : (js : List Job) (k : Job) → In k (js ++ k ∷ [])
last-In [] k = inl refl
last-In (j ∷ js) k = inr (last-In js k)

-- The answer to a new job that the constraints let pass.
new_job-answer :
    (p : Policy) (now : ℕ) (fresh : Fresh) (new : NewQueuedTranscriptionJob) (id : ℕ)
    → job_check (new_job p now fresh new id) ≡ true
    → accepted_job_from_row (new_job p now fresh new id)
      ≡ ok (record {
        internal_id = id;
        public_id = fresh.public_id;
        submitted_at = now;
        queue_deadline_at = now + p.queue_timeout;
      })
unfolding accepted_job_from_row public_id_from_row new_job job_check row_check check
new_job-answer p now fresh new id h = ground arith

-- What a body of `create_queued` promises when its tables meet the constraints.
abbrev Accepts : NewQueuedTranscriptionJob → Result (QueuedTranscriptionJob × Store) → Type 0
Accepts new (ok (q, t)) = schema_check t.jobs ≡ true → Accepted new q t.jobs
Accepts new (err e) = Unit

module _ (p : Policy) (now : ℕ) (fresh : Fresh) (new : NewQueuedTranscriptionJob) (s : Store) where
  insert_job-Accepts : Accepts new (insert_job p now fresh new s)
  unfolding insert_job
  insert_job-Accepts met = record {
    row = new_job p now fresh new s.next_id;
    member = last-In s.jobs _;
    key = new_job-key;
    request = same_request-new p now fresh new s.next_id;
    answer =
        new_job-answer p now fresh new s.next_id
          (All-In _ _ _ (schema_check-jobs _ met) (last-In s.jobs _));
  }
    where
      new_job-key : (new_job p now fresh new s.next_id).idempotency_key ≡ some new.idempotency_key
      new_job-key = refl

  admit-Accepts : Accepts new (admit p now fresh new s)
  unfolding admit
  admit-Accepts = elim (Bool-cases (leb p.maximum_outstanding_jobs (count_outstanding_jobs s))) [
    | inl full ↦ rw full tt
    | inr free ↦ rw free insert_job-Accepts
  ]

  replay-Accepts :
      (j : Job)
      → In j s.jobs
      → null_eq j.idempotency_key new.idempotency_key ≡ true
      → Accepts new (replay new j s)
  unfolding replay
  replay-Accepts j i k = elim (Bool-cases (same_request new j)) [
    | inl same ↦ rw same (go (accepted_job_from_row j) refl same)
    | inr other ↦ rw other tt
  ]
    where
      go :
          (r : Result QueuedTranscriptionJob)
          → accepted_job_from_row j ≡ r
          → same_request new j ≡ true
          → Accepts new (lift r s)
      go (ok q) e same = λ met. record {
        row = j;
        member = i;
        key = key_of j.idempotency_key new.idempotency_key k;
        request = same;
        answer = e;
      }
      go (err e) h same = tt

  tx-Accepts : Accepts new (create_queued_tx p now fresh new s)
  unfolding create_queued_tx select_one replay_or_admit
  tx-Accepts =
      go (one_or_none (select (λ j. null_eq j.idempotency_key new.idempotency_key) s.jobs)) refl
    where
      go :
          (r : Result (Option Job))
          → one_or_none (select (λ j. null_eq j.idempotency_key new.idempotency_key) s.jobs) ≡ r
          → Accepts new ((lift r >>= replay_or_admit p now fresh new) s)
      go (ok (some j)) e = let (i, k) = found _ s.jobs j e in replay-Accepts j i k
      go (ok none) e = admit-Accepts
      go (err x) e = tt

-- An accepted submission has its row.
pub create_queued-Accepted :
    (p : Policy) (now : ℕ) (fresh : Fresh) (new : NewQueuedTranscriptionJob) (s : Store)
    (q : QueuedTranscriptionJob)
    → Inv s
    → (create_queued p now fresh new s).0 ≡ ok q
    → (is_uuid4 new.idempotency_key ≡ true)
      × Accepted new q (create_queued p now fresh new s).1.jobs
unfolding create_queued transaction after
create_queued-Accepted p now fresh new s q v e =
    go (is_uuid4 new.idempotency_key) e (after-Inv p (create now fresh new) s v).schema
  where
    answer_of : Bool → Result QueuedTranscriptionJob × Store
    answer_of b = if b then commit s (create_queued_tx p now fresh new s) else (err value_error, s)

    go :
        (b : Bool)
        → (answer_of b).0 ≡ ok q
        → schema_check (answer_of b).1.jobs ≡ true
        → (b ≡ true) × Accepted new q (answer_of b).1.jobs
    go true h met =
        (refl, subst (Accepts new) (commit-ok s _ q h) (tx-Accepts p now fresh new s) met)
    go false h met = cc h

-- An accepted submission, sent again after a history of calls.
pub Accepted-again :
    (p : Policy) (later : ℕ) (fresh : Fresh) (new : NewQueuedTranscriptionJob)
    (q : QueuedTranscriptionJob) {u t : Store} (path : Reach p u t)
    → Inv u
    → is_uuid4 new.idempotency_key ≡ true
    → Accepted new q u.jobs
    → (create_queued p later fresh new t ≡ (ok q, t))
      ⊎ Removal (λ k. accepted_job_from_row k ≡ ok q) path
Accepted-again p later fresh new q {u} {t} path w valid a =
    go a (Reach-Fate p a.row path w a.member)
  where
    go :
        (a : Accepted new q u.jobs)
        → Fate a.row path
        → (create_queued p later fresh new t ≡ (ok q, t))
          ⊎ Removal (λ k. accepted_job_from_row k ≡ ok q) path
    go a (stands k m f) = inl (
        create_queued-replay p later fresh new k t (Reach-Inv p path w) m
          (key-accepted a.row k f ∙ a.key) valid
        ∙ rw (same-accepted new a.row k f ∙ a.request) (
            ap (λ (x : Result QueuedTranscriptionJob). (x, t)) (row-accepted a.row k f ∙ a.answer)))
    go a (removed h) = inr (
        Removal-map (Follows a.row) (λ k. accepted_job_from_row k ≡ ok q) path
          (λ k f. row-accepted a.row k f ∙ a.answer) h)

-- A submission that was accepted once, when sent again after any history of calls, is answered as
-- the first time, and changes nothing, full or not; unless a cleanup of that history ran while the
-- row that was answered stood past its retention, by the clock reading of the cleanup.
pub create_queued-idempotent :
    (p : Policy) (now later : ℕ) (fresh fresh' : Fresh) (new : NewQueuedTranscriptionJob)
    (q : QueuedTranscriptionJob) {s t : Store}
    → Inv s
    → (create_queued p now fresh new s).0 ≡ ok q
    → (path : Reach p (create_queued p now fresh new s).1 t)
    → (create_queued p later fresh' new t ≡ (ok q, t))
      ⊎ Removal (λ k. accepted_job_from_row k ≡ ok q) path
unfolding after
create_queued-idempotent p now later fresh fresh' new q {s} v e path =
    let (valid, a) = create_queued-Accepted p now fresh new s q v e in
    Accepted-again p later fresh' new q path (after-Inv p (create now fresh new) s v) valid a
