-- ===== src/Jobs/Service.antt =====
-- jobs/service.py, TranscriptionJobService over the repository. The lock makes the test of the latch
-- and the call of the repository one step; the latch is set in a later step, under the lock again.
-- `up` tells whether the database answers; a call that it does not answer raises and changes nothing.
mod Steps
pub mod Latch
pub mod Replays
mod Tests
use textify.Prelude.{
  ℕ, suc, ◌+◌, String, Bool, true, false, Option, none, some, List, [], ◌∷◌, ltb, if◌then◌else◌,
}
use textify.Errors.{
  PublicErrorCode, transcription_capacity_exceeded, job_not_found, job_store_unavailable,
}
use textify.Errors
use textify.Texts.{Text, Unicode, codes}
use textify.Identifiers.{parse_canonical_uuid4}
use textify.Transcription.Fields.{ResponseFieldPath, path_rank}
use textify.Transcription.Faults.{Fault, domain, Checked, value, fault}
use textify.Transcription.Inspection.Urls.{UrlLibrary}
use textify.Transcription.Inspection.Classifying.{SubmittedSource, classify_submitted_url}
use textify.Jobs.Types.{
  Uuid, NewQueuedTranscriptionJob, QueuedTranscriptionJob, TranscriptionJob,
  TranscriptionJobCancellationResult, Error, capacity, store_unavailable, already_finished,
  idempotency_conflict, Result, ok, err,
}
use textify.Jobs.Tx.{Store}
use textify.Jobs.Repository.Policy.{Policy}
use textify.Jobs.Repository.Admission.{Fresh, create_queued}
use textify.Jobs.Repository.Reading.{get_job}
use textify.Jobs.Repository.Cancelling.{Cancellation, request_cancellation}

-- `notifications` counts the calls of `on_store_unavailable`.
pub record Service : Type 0 where
  pub store_available : Bool
  pub notifications : ℕ

unfoldable pub new_service : Service
new_service = record { store_available = true; notifications = 0 }

-- The exceptions of a call: a public error, an exception of the repository that the service does
-- not catch, or one of the inspection.
pub data Failure : Type 0 where
  public : PublicErrorCode → Failure
  from_store : Error → Failure
  from_inspection : Fault → Failure

pub data Answer {ℓ} (A : Type ℓ) : Type ℓ where
  returned : A → Answer A
  raised : Failure → Answer A

-- What the locked part of a call ends with: `refused` is `_require_store_available`.
pub data Locked {ℓ} (A : Type ℓ) : Type ℓ where
  refused : Locked A
  asked : Result A → Locked A

unfoldable pub query {ℓ} : {A : Type ℓ} → Bool → Result A × Store → Store → Locked A × Store
query true (r, t) s = (asked r, t)
query false (r, t) s = (asked (err store_unavailable), s)

unfoldable pub require_store_available {ℓ} :
    {A : Type ℓ} → Service → Locked A × Store → Store → Locked A × Store
require_store_available v r s = if v.store_available then r else (refused, s)

unfoldable pub mark_store_unavailable : Service → Service
mark_store_unavailable v =
    if v.store_available
    then record { store_available = false; notifications = suc v.notifications }
    else v

unfoldable pub meets_failure {ℓ} : {A : Type ℓ} → Locked A → Bool
meets_failure (asked (err store_unavailable)) = true
meets_failure _ = false

-- The `except` clause of a failure of the store.
unfoldable pub latch {ℓ} : {A : Type ℓ} → Locked A → Service → Service
unfolding mark_store_unavailable meets_failure
latch g v = if meets_failure g then mark_store_unavailable v else v

unfoldable pub submit_locked :
    Policy
    → Bool
    → ℕ
    → Fresh
    → NewQueuedTranscriptionJob
    → Service
    → Store
    → Locked QueuedTranscriptionJob × Store
unfolding query require_store_available
submit_locked p up now fresh new v s =
    require_store_available v (query up (create_queued p now fresh new s) s) s

unfoldable pub get_locked :
    Policy → Bool → ℕ → Uuid → Service → Store → Locked (Option TranscriptionJob) × Store
unfolding query require_store_available
get_locked p up now public_id v s =
    require_store_available v (query up (get_job p public_id now s, s) s) s

unfoldable pub cancel_locked :
    Policy → Bool → ℕ → Uuid → Service → Store → Locked Cancellation × Store
unfolding query require_store_available
cancel_locked p up now public_id v s =
    require_store_available v (query up (request_cancellation p public_id now s) s) s

unfoldable pub submit_answer : Locked QueuedTranscriptionJob → Answer QueuedTranscriptionJob
submit_answer refused = raised (public job_store_unavailable)
submit_answer (asked (ok q)) = returned q
submit_answer (asked (err capacity)) = raised (public transcription_capacity_exceeded)
submit_answer (asked (err idempotency_conflict)) = raised (public Errors.idempotency_conflict)
submit_answer (asked (err store_unavailable)) = raised (public job_store_unavailable)
submit_answer (asked (err e)) = raised (from_store e)

unfoldable pub found_or_raised {ℓ} : {A : Type ℓ} → Option A → Answer A
found_or_raised none = raised (public job_not_found)
found_or_raised (some a) = returned a

unfoldable pub get_answer : Locked (Option TranscriptionJob) → Answer TranscriptionJob
unfolding found_or_raised
get_answer refused = raised (public job_store_unavailable)
get_answer (asked (ok o)) = found_or_raised o
get_answer (asked (err store_unavailable)) = raised (public job_store_unavailable)
get_answer (asked (err e)) = raised (from_store e)

unfoldable pub cancel_answer : Locked Cancellation → Answer TranscriptionJobCancellationResult
unfolding found_or_raised
cancel_answer refused = raised (public job_store_unavailable)
cancel_answer (asked (ok o)) = found_or_raised o
cancel_answer (asked (err already_finished)) = raised (public Errors.job_already_finished)
cancel_answer (asked (err store_unavailable)) = raised (public job_store_unavailable)
cancel_answer (asked (err e)) = raised (from_store e)

-- `tuple(sorted(exclusions))`
unfoldable pub insert_path : ResponseFieldPath → List ResponseFieldPath → List ResponseFieldPath
insert_path f [] = f ∷ []
insert_path f (g ∷ gs) =
    let rest = insert_path f gs in if ltb (path_rank g) (path_rank f) then g ∷ rest else f ∷ g ∷ gs

unfoldable pub sort_paths : List ResponseFieldPath → List ResponseFieldPath
unfolding insert_path
sort_paths [] = []
sort_paths (f ∷ fs) = insert_path f (sort_paths fs)

unfoldable pub new_job : String → List ResponseFieldPath → Uuid → NewQueuedTranscriptionJob
unfolding sort_paths
new_job submitted_url exclusions key = record {
  request_identity = record { submitted_url = submitted_url; exclusions = sort_paths exclusions };
  idempotency_key = key;
}

-- A whole call, where no other coroutine runs between its two steps.
unfoldable pub finish {ℓ κ} :
    {A : Type ℓ} {B : Type κ}
    → (Locked A → Answer B)
    → Service
    → Locked A × Store
    → Answer B × Service × Store
unfolding latch
finish f v (g, t) = (f g, latch g v, t)

unfoldable pub refusal : Fault → Failure
refusal (domain c) = public c
refusal f = from_inspection f

unfoldable pub submit_classified :
    Policy
    → Bool
    → ℕ
    → Fresh
    → NewQueuedTranscriptionJob
    → Checked SubmittedSource
    → Service
    → Store
    → Answer QueuedTranscriptionJob × Service × Store
unfolding finish submit_answer submit_locked refusal
submit_classified p up now fresh new (fault f) v s = (raised (refusal f), v, s)
submit_classified p up now fresh new (value c) v s =
    finish submit_answer v (submit_locked p up now fresh new v s)

unfoldable pub submit :
    Unicode
    → UrlLibrary
    → Policy
    → Bool
    → ℕ
    → Fresh
    → String
    → List ResponseFieldPath
    → Uuid
    → Service
    → Store
    → Answer QueuedTranscriptionJob × Service × Store
unfolding submit_classified new_job
submit u l p up now fresh url exclusions key v s =
    submit_classified p up now fresh (new_job url exclusions key)
      (classify_submitted_url u l (codes url)) v s

-- With what `_parse_capability` reads.
unfoldable pub get_parsed :
    Policy → Bool → ℕ → Option Uuid → Service → Store → Answer TranscriptionJob × Service × Store
unfolding finish get_answer get_locked
get_parsed p up now none v s = (raised (public job_not_found), v, s)
get_parsed p up now (some id) v s = finish get_answer v (get_locked p up now id v s)

unfoldable pub get_status :
    Policy → Bool → ℕ → Text → Service → Store → Answer TranscriptionJob × Service × Store
unfolding get_parsed parse_canonical_uuid4
get_status p up now capability v s = get_parsed p up now (parse_canonical_uuid4 capability) v s

unfoldable pub cancel_parsed :
    Policy
    → Bool
    → ℕ
    → Option Uuid
    → Service
    → Store
    → Answer TranscriptionJobCancellationResult × Service × Store
unfolding finish cancel_answer cancel_locked
cancel_parsed p up now none v s = (raised (public job_not_found), v, s)
cancel_parsed p up now (some id) v s = finish cancel_answer v (cancel_locked p up now id v s)

unfoldable pub cancel :
    Policy
    → Bool
    → ℕ
    → Text
    → Service
    → Store
    → Answer TranscriptionJobCancellationResult × Service × Store
unfolding cancel_parsed parse_canonical_uuid4
cancel p up now capability v s = cancel_parsed p up now (parse_canonical_uuid4 capability) v s
