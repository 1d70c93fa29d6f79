-- ===== src/Jobs/Service/Replays.antt =====
-- A submission that is sent again, through the service.
use textify.Prelude.{
  ℕ, String, Bool, true, false, arith, ◌≡◌, refl, ◌∙◌, sym, subst, ◌⊎◌, inl, inr, List, Bool-cases,
}
use textify.Texts.{Unicode, codes}
use textify.Transcription.Fields.{ResponseFieldPath}
use textify.Transcription.Faults.{Checked, value, fault}
use textify.Transcription.Inspection.Urls.{UrlLibrary}
use textify.Transcription.Inspection.Classifying.{SubmittedSource, classify_submitted_url}
use textify.Jobs.Types.{
  Uuid, QueuedTranscriptionJob, NewQueuedTranscriptionJob, Result, ok, err, capacity,
  store_unavailable, already_finished, idempotency_conflict, value_error, runtime_error,
  dispatch_unavailable, readiness_unavailable,
}
use textify.Jobs.Tx.{Store}
use textify.Jobs.Rows.{accepted_job_from_row}
use textify.Jobs.Repository.Policy.{Policy}
use textify.Jobs.Repository.Invariant.{Inv}
use textify.Jobs.Repository.Steps.{Reach, create, after}
use textify.Jobs.Repository.Admission.{Fresh, create_queued}
use textify.Jobs.Repository.History.Replays.{Accepted, create_queued-Accepted, Accepted-again}
use textify.Jobs.Repository.History.Fates.{Removal}
use textify.Jobs.Repository.History.Invariance.{after-Inv}
use textify.Jobs.Service.{
  Service, Locked, refused, asked, returned, query, require_store_available, meets_failure, latch,
  finish, submit_answer, submit_locked, submit_classified, submit, new_job,
}

submit_answer-returned :
    (g : Locked QueuedTranscriptionJob) (q : QueuedTranscriptionJob)
    → submit_answer g ≡ returned q
    → g ≡ asked (ok q)
unfolding submit_answer
submit_answer-returned refused q h = cc h
submit_answer-returned (asked (ok r)) q h = cc h
submit_answer-returned (asked (err capacity)) q h = cc h
submit_answer-returned (asked (err idempotency_conflict)) q h = cc h
submit_answer-returned (asked (err store_unavailable)) q h = cc h
submit_answer-returned (asked (err already_finished)) q h = cc h
submit_answer-returned (asked (err value_error)) q h = cc h
submit_answer-returned (asked (err runtime_error)) q h = cc h
submit_answer-returned (asked (err dispatch_unavailable)) q h = cc h
submit_answer-returned (asked (err readiness_unavailable)) q h = cc h

query-asked :
    (up : Bool) (r : Result QueuedTranscriptionJob × Store) (s : Store) (q : QueuedTranscriptionJob)
    → (query up r s).0 ≡ asked (ok q)
    → (r.0 ≡ ok q) × ((query up r s).1 ≡ r.1)
unfolding query
query-asked true (r, t) s q h = (cc h, refl)
query-asked false (r, t) s q h = cc h

require-asked :
    (v : Service) (r : Locked QueuedTranscriptionJob × Store) (s : Store)
    (q : QueuedTranscriptionJob)
    → (require_store_available v r s).0 ≡ asked (ok q)
    → (r.0 ≡ asked (ok q)) × ((require_store_available v r s).1 ≡ r.1)
unfolding require_store_available
require-asked v (g, t) s q h = elim (Bool-cases v.store_available) [
  | inl e ↦ ground arith
  | inr e ↦ cc (h, e)
]

-- A submission that is answered with a job was classified, and created that job.
pub record Created (p : Policy) (now : ℕ) (fresh : Fresh) (new : NewQueuedTranscriptionJob)
    (q : QueuedTranscriptionJob) (c : Checked SubmittedSource) (s t : Store) : Type 0 where
  source : SubmittedSource
  classified : c ≡ value source
  created : (create_queued p now fresh new s).0 ≡ ok q
  stored : t ≡ (create_queued p now fresh new s).1

submit_classified-Created :
    (p : Policy) (up : Bool) (now : ℕ) (fresh : Fresh) (new : NewQueuedTranscriptionJob)
    (c : Checked SubmittedSource) (v : Service) (s : Store) (q : QueuedTranscriptionJob)
    → (submit_classified p up now fresh new c v s).0 ≡ returned q
    → Created p now fresh new q c s (submit_classified p up now fresh new c v s).2
unfolding submit_classified finish submit_locked
submit_classified-Created p up now fresh new (fault f) v s q h = cc h
submit_classified-Created p up now fresh new (value c) v s q h =
    let r = create_queued p now fresh new s in
    let (a, x) = require-asked v (query up r s) s q (submit_answer-returned _ q h) in
    let (b, y) = query-asked up r s q a in
    record { source = c; classified = refl; created = b; stored = x ∙ y }

submit_classified-ok :
    (p : Policy) (now : ℕ) (fresh : Fresh) (new : NewQueuedTranscriptionJob)
    (c : Checked SubmittedSource) (source : SubmittedSource) (v : Service) (t : Store)
    (q : QueuedTranscriptionJob)
    → c ≡ value source
    → v.store_available ≡ true
    → create_queued p now fresh new t ≡ (ok q, t)
    → submit_classified p true now fresh new c v t ≡ (returned q, v, t)
unfolding submit_classified finish submit_locked submit_answer latch meets_failure
    require_store_available query
submit_classified-ok p now fresh new c source v t q e h k = rw e (rw h (rw k refl))

-- A submission that the service has answered with a job, when sent again through any service that
-- is available, after any history of calls, is answered with the same job and changes neither the
-- service nor the store; unless a cleanup of that history ran while the row that was answered stood
-- past its retention, by the clock reading of the cleanup.
pub submit-idempotent :
    (u : Unicode) (l : UrlLibrary) (p : Policy) (up : Bool) (now later : ℕ) (fresh fresh' : Fresh)
    (url : String) (exclusions : List ResponseFieldPath) (key : Uuid) (q : QueuedTranscriptionJob)
    (v w : Service) {s t : Store}
    → Inv s
    → (submit u l p up now fresh url exclusions key v s).0 ≡ returned q
    → (path : Reach p (submit u l p up now fresh url exclusions key v s).2 t)
    → w.store_available ≡ true
    → (submit u l p true later fresh' url exclusions key w t ≡ (returned q, w, t))
      ⊎ Removal (λ k. accepted_job_from_row k ≡ ok q) path
unfolding submit after
submit-idempotent u l p up now later fresh fresh' url exclusions key q v w {s} {t} i e path a =
    let new = new_job url exclusions key in
    let c = classify_submitted_url u l (codes url) in
    let made = submit_classified-Created p up now fresh new c v s q e in
    let (valid, row) = create_queued-Accepted p now fresh new s q i made.created in
    let kept = subst Inv (sym made.stored) (after-Inv p (create now fresh new) s i) in
    let stored = subst (λ (x : Store). Accepted new q x.jobs) (sym made.stored) row in
    elim (Accepted-again p later fresh' new q path kept valid stored) [
      | inl same ↦
          inl (submit_classified-ok p later fresh' new c made.source w t q made.classified a same)
      | inr gone ↦ inr gone
    ]
