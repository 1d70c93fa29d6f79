-- ===== src/Jobs/Service/Latch.antt =====
-- What the latch of the service promises.
use textify.Prelude.{
  ℕ, ◌≤◌, ◌<◌, Bool, false, ◌==◌, ◌≡◌, refl, arith, Bool-cases, inl, inr, String, List, some,
  if◌then◌else◌,
}
use textify.Errors.{job_store_unavailable}
use textify.Texts.{Text, Unicode, codes}
use textify.Identifiers.{parse_canonical_uuid4}
use textify.Transcription.Fields.{ResponseFieldPath}
use textify.Transcription.Faults.{value}
use textify.Transcription.Inspection.Urls.{UrlLibrary}
use textify.Transcription.Inspection.Classifying.{SubmittedSource, classify_submitted_url}
use textify.Jobs.Types.{Uuid}
use textify.Jobs.Tx.{Store}
use textify.Jobs.Repository.Policy.{Policy}
use textify.Jobs.Repository.Admission.{Fresh}
use textify.Jobs.Service.{
  Service, Locked, refused, Answer, raised, public, meets_failure, mark_store_unavailable,
  require_store_available, latch, finish, submit_locked, get_locked, cancel_locked, submit_answer,
  get_answer, cancel_answer, submit_classified, submit, get_parsed, get_status, cancel_parsed,
  cancel,
}
use textify.Jobs.Service.Steps.{
  World, new_world, enter, mark, Step, submitted, asked_status, asked_cancel, marked, other, Run,
  here, next,
}

pub record IsValid (w : World) : Type 0 where
  notified : w.service.notifications ≡ (if w.service.store_available then 0 else 1)
  counted : w.unmarked ≤ w.failures
  latched : w.service.store_available ≡ (w.failures == w.unmarked)

enter-IsValid {ℓ} :
    {A : Type ℓ} (w : World) (r : Locked A × Store) → IsValid w → IsValid (enter w r)
unfolding enter
enter-IsValid w (g, t) v = elim (Bool-cases (meets_failure g)) [
  | inl e ↦ rw e (record { notified = v.notified; counted = omega arith; latched = ground arith })
  | inr e ↦ rw e (record { notified = v.notified; counted = v.counted; latched = v.latched })
]

mark_store_unavailable-latched : (v : Service) → (mark_store_unavailable v).store_available ≡ false
unfolding mark_store_unavailable
mark_store_unavailable-latched v = ground arith

mark_store_unavailable-once :
    (v : Service)
    → v.notifications ≡ (if v.store_available then 0 else 1)
    → (mark_store_unavailable v).notifications ≡ 1
unfolding mark_store_unavailable
mark_store_unavailable-once v h = ground arith

mark-IsValid : (w : World) → 0 < w.unmarked → IsValid w → IsValid (mark w)
unfolding mark
mark-IsValid w h v = record {
  notified =
      rw (mark_store_unavailable-latched w.service)
        (mark_store_unavailable-once w.service v.notified);
  counted = ground arith;
  latched = rw (mark_store_unavailable-latched w.service) (ground arith);
}

step-IsValid : (p : Policy) (w t : World) → Step p w t → IsValid w → IsValid t
step-IsValid p w _ (submitted up now fresh new) v = enter-IsValid w _ v
step-IsValid p w _ (asked_status up now id) v = enter-IsValid w _ v
step-IsValid p w _ (asked_cancel up now id) v = enter-IsValid w _ v
step-IsValid p w _ (marked h) v = mark-IsValid w h v
step-IsValid p w _ (other c) v = record {
  notified = v.notified;
  counted = v.counted;
  latched = v.latched;
}

-- In every interleaving of the calls of a new service, with any calls of other processes and any outages
-- of the database between: the service is available exactly as long as no call that met a failure
-- of the store has set the latch, and `on_store_unavailable` was called once if the latch is set,
-- and never otherwise.
pub World-IsValid : (p : Policy) (s : Store) (w : World) → Run p (new_world s) w → IsValid w
unfolding new_world
World-IsValid p s _ here = start
  where
    start : IsValid (new_world s)
    start = record { notified = refl; counted = omega arith; latched = refl }
World-IsValid p s w (next {t = t} r h) = step-IsValid p t w h (World-IsValid p s t r)

-- Every call is refused, and changes neither the service nor the store.
pub record Refuses (p : Policy) (v : Service) : Type 0 where
  submits :
      (u : Unicode) (l : UrlLibrary) (up : Bool) (now : ℕ) (fresh : Fresh) (url : String)
      (exclusions : List ResponseFieldPath) (key : Uuid) (s : Store) (c : SubmittedSource)
      → classify_submitted_url u l (codes url) ≡ value c
      → submit u l p up now fresh url exclusions key v s
        ≡ (raised (public job_store_unavailable), v, s)
  reads :
      (up : Bool) (now : ℕ) (capability : Text) (s : Store) (id : Uuid)
      → parse_canonical_uuid4 capability ≡ some id
      → get_status p up now capability v s ≡ (raised (public job_store_unavailable), v, s)
  cancels :
      (up : Bool) (now : ℕ) (capability : Text) (s : Store) (id : Uuid)
      → parse_canonical_uuid4 capability ≡ some id
      → cancel p up now capability v s ≡ (raised (public job_store_unavailable), v, s)

require-refused {ℓ κ} :
    {A : Type ℓ} {B : Type κ} (f : Locked A → Answer B) (v : Service) (r : Locked A × Store)
    (s : Store)
    → v.store_available ≡ false
    → finish f v (require_store_available v r s) ≡ (f refused, v, s)
unfolding require_store_available finish latch meets_failure
require-refused f v r s h = rw h refl

latched-Refuses : (p : Policy) (v : Service) → v.store_available ≡ false → Refuses p v
unfolding submit submit_classified get_status get_parsed cancel cancel_parsed submit_locked
    get_locked cancel_locked submit_answer get_answer cancel_answer
latched-Refuses p v h = record {
  submits =
      λ u l up now fresh url exclusions key s c e. rw e (require-refused submit_answer v _ s h);
  reads = λ up now capability s id e. rw e (require-refused get_answer v _ s h);
  cancels = λ up now capability s id e. rw e (require-refused cancel_answer v _ s h);
}

enter-stays {ℓ} : {A : Type ℓ} (w : World) (r : Locked A × Store) → (enter w r).service ≡ w.service
unfolding enter
enter-stays w (g, t) = elim (Bool-cases (meets_failure g)) [ inl e ↦ rw e refl | inr e ↦ rw e refl ]

step-stays :
    (p : Policy) (w t : World)
    → Step p w t
    → w.service.store_available ≡ false
    → t.service.store_available ≡ false
unfolding mark
step-stays p w _ (submitted up now fresh new) e = rw (enter-stays w _) e
step-stays p w _ (asked_status up now id) e = rw (enter-stays w _) e
step-stays p w _ (asked_cancel up now id) e = rw (enter-stays w _) e
step-stays p w _ (marked h) e = mark_store_unavailable-latched w.service
step-stays p w _ (other c) e = e

Run-stays :
    (p : Policy) (w t : World)
    → w.service.store_available ≡ false
    → Run p w t
    → t.service.store_available ≡ false
Run-stays p w _ e here = e
Run-stays p w t e (next {t = m} r h) = step-stays p m t h (Run-stays p w m e r)

-- Once the latch is set, it stays set in every interleaving, and every call is refused as
-- `job_store_unavailable`, whether the database answers again or not, without a change of the
-- service or the store; only a submitted URL that is not classified and a capability that is no
-- canonical UUID are refused for that reason instead.
pub Run-Refuses :
    (p : Policy) (w t : World) → w.service.store_available ≡ false → Run p w t → Refuses p t.service
Run-Refuses p w t e r = latched-Refuses p t.service (Run-stays p w t e r)
