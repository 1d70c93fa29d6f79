-- ===== src/Transcription/Retries.antt =====
-- The retries of transcription/util.py. What the world does between the steps is an argument: the
-- tests of the cancellation and of the clock, and the outcome of each call of yt-dlp.
pub mod Attempts
mod Tests
use textify.Prelude.{
  ℕ, zero, suc, ◌+◌, Bool, true, false, ◌||◌, ◌&&◌, ltb, leb, if◌then◌else◌, Option, none, some,
  not, [], ◌∷◌,
}
use textify.Texts.{Text, codes, same_text, is_one_of}

pub data Failure : Type 0 where
  download_cancelled timeout_error media_byte_limit provider_error assertion : Failure

pub data Outcome {ℓ} (A : Type ℓ) : Type ℓ where
  done : A → Outcome A
  raised : Failure → Outcome A

-- `raise_if_cancelled_or_expired`: the event, and the reading of the monotonic clock
unfoldable pub raise_if_cancelled_or_expired {ℓ} :
    {A : Type ℓ} → Bool → ℕ → ℕ → Outcome A → Outcome A
raise_if_cancelled_or_expired cancelled now deadline rest =
    if cancelled
    then raised download_cancelled
    else if leb deadline now
    then raised timeout_error
    else rest

-- What happens in one round.
pub record Attempt {ℓ} (A : Type ℓ) : Type ℓ where
  pub cancelled_before : Bool
  pub now_before : ℕ
  pub outcome : Outcome A
  pub cancelled_after : Bool
  pub now_after : ℕ

abbrev pub max_attempts : ℕ
max_attempts = 10

unfoldable pub is_cancellation : Failure → Bool
is_cancellation download_cancelled = true
is_cancellation media_byte_limit = true
is_cancellation _ = false

-- One round, by the number of rounds that may follow; `MediaByteLimitExceeded` is a
-- `DownloadCancelled`.
unfoldable pub settle_attempt {ℓ} :
    {A : Type ℓ} → ℕ → ℕ → Attempt A → Outcome A → Outcome A → Outcome A
unfolding raise_if_cancelled_or_expired is_cancellation
settle_attempt later deadline a (done r) retry =
    raise_if_cancelled_or_expired a.cancelled_after a.now_after deadline (done r)
settle_attempt zero deadline a (raised f) retry =
    if is_cancellation f
    then raised f
    else raise_if_cancelled_or_expired a.cancelled_after a.now_after deadline (raised f)
settle_attempt (suc later) deadline a (raised f) retry =
    if is_cancellation f then raised f else retry

-- The loop, from the round `i`.
unfoldable pub attempt_from {ℓ} : {A : Type ℓ} → ℕ → ℕ → (ℕ → Attempt A) → ℕ → Outcome A
unfolding raise_if_cancelled_or_expired settle_attempt
attempt_from zero deadline world i = raised assertion
attempt_from (suc later) deadline world i =
    let retry = attempt_from later deadline world (i + 1) in
    raise_if_cancelled_or_expired (world i).cancelled_before (world i).now_before deadline
      (settle_attempt later deadline (world i) (world i).outcome retry)

unfoldable pub extract_info_with_retries {ℓ} : {A : Type ℓ} → ℕ → (ℕ → Attempt A) → Outcome A
unfolding attempt_from
extract_info_with_retries deadline world = attempt_from max_attempts deadline world 0

-- `status.get(field)` as an int that is no bool.
abbrev pub ByteCount : Type 0
ByteCount = Option ℕ

unfoldable pub exceeds : ℕ → ByteCount → Bool
exceeds max none = false
exceeds max (some n) = ltb max n

-- `_check_progress` of `build_yt_dlp_progress_hook`
unfoldable pub check_progress : Bool → ℕ → ℕ → ℕ → Text → ByteCount → ByteCount → Outcome (Unit {0})
unfolding raise_if_cancelled_or_expired exceeds is_one_of
check_progress cancelled now deadline max status downloaded total =
    raise_if_cancelled_or_expired cancelled now deadline (
      if not (is_one_of (codes "downloading" ∷ codes "finished" ∷ []) status)
      then done tt
      else if exceeds max downloaded || exceeds max total
      then raised media_byte_limit
      else done tt)
