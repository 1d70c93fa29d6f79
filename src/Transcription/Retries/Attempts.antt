-- ===== src/Transcription/Retries/Attempts.antt =====
-- Which attempt the retries answer with.
use textify.Prelude.{
  ℕ, zero, suc, ◌+◌, Bool, true, false, ◌&&◌, not, ◌≡◌, refl, ◌⊎◌, ◌↔◌, inl, inr, leb, arith,
}
use textify.Transcription.Retries.{
  provider_error, Outcome, done, raised, Attempt, is_cancellation, raise_if_cancelled_or_expired,
  settle_attempt, attempt_from, extract_info_with_retries, max_attempts,
}

unfoldable pub clear : Bool → ℕ → ℕ → Bool
clear cancelled now deadline = not cancelled && not (leb deadline now)

unfoldable pub retryable {ℓ} : {A : Type ℓ} → Outcome A → Bool
retryable (done r) = false
retryable (raised f) = not (is_cancellation f)

module _ {A : Type 0} (deadline : ℕ) (world : ℕ → Attempt A) where
  abbrev pub begins : ℕ → Bool
  begins i = clear (world i).cancelled_before (world i).now_before deadline

  -- Within `n` rounds from the round `i`, some round succeeds with `r` and in time, and the rounds
  -- before it fail in a way that is tried again.
  abbrev pub Succeeds : ℕ → ℕ → A → Type 0
  Succeeds zero i r = ⊥
  Succeeds (suc n) i r =
      ((begins i ≡ true)
        × ((world i).outcome ≡ done r)
        × (clear (world i).cancelled_after (world i).now_after deadline ≡ true))
      ⊎ ((begins i ≡ true) × (retryable (world i).outcome ≡ true) × Succeeds n (i + 1) r)

  -- All of `n` rounds begin in time and fail in a way that is tried again.
  abbrev pub Exhausts : ℕ → ℕ → Type 0
  Exhausts zero i = Unit
  Exhausts (suc n) i = (begins i ≡ true) × (retryable (world i).outcome ≡ true) × Exhausts n (i + 1)

  step : ℕ → ℕ → Outcome A → Outcome A
  step n i o =
      raise_if_cancelled_or_expired (world i).cancelled_before (world i).now_before deadline
        (settle_attempt n deadline (world i) o (attempt_from n deadline world (i + 1)))

  succeeded_zero :
      (i : ℕ) (r : A) (o : Outcome A)
      → (world i).outcome ≡ o
      → step zero i o ≡ done r
      → Succeeds 1 i r
  unfolding step raise_if_cancelled_or_expired settle_attempt clear attempt_from
  succeeded_zero i r (done a) e h = inl (ground arith, ground arith, ground arith)
  succeeded_zero i r (raised f) e h = absurd (ground arith)

  succeeded_suc :
      (n i : ℕ) (r : A) (o : Outcome A)
      → (world i).outcome ≡ o
      → step (suc n) i o ≡ done r
      → (attempt_from (suc n) deadline world (i + 1) ≡ done r → Succeeds (suc n) (i + 1) r)
      → Succeeds (suc (suc n)) i r
  unfolding step raise_if_cancelled_or_expired settle_attempt clear retryable
  succeeded_suc n i r (done a) e h k = inl (ground arith, ground arith, ground arith)
  succeeded_suc n i r (raised f) e h k = inr (ground arith, rw e (ground arith), k (ground arith))

  succeeded : (n i : ℕ) (r : A) → attempt_from n deadline world i ≡ done r → Succeeds n i r
  unfolding attempt_from step
  succeeded zero i r h = cc h
  succeeded (suc zero) i r h = succeeded_zero i r (world i).outcome refl h
  succeeded (suc (suc n)) i r h =
      succeeded_suc n i r (world i).outcome refl h (succeeded (suc n) (i + 1) r)

  succeeds_later :
      (n i : ℕ) (r : A) (o : Outcome A)
      → (world i).outcome ≡ o
      → begins i ≡ true
      → retryable o ≡ true
      → attempt_from (suc n) deadline world (i + 1) ≡ done r
      → step (suc n) i o ≡ done r
  unfolding step raise_if_cancelled_or_expired settle_attempt clear retryable
  succeeds_later n i r (done a) e b h k = cc h
  succeeds_later n i r (raised f) e b h k = ground arith

  succeeds_now :
      (n i : ℕ) (r : A)
      → begins i ≡ true
      → (world i).outcome ≡ done r
      → clear (world i).cancelled_after (world i).now_after deadline ≡ true
      → step n i (world i).outcome ≡ done r
  unfolding step raise_if_cancelled_or_expired settle_attempt clear
  succeeds_now n i r b e c = rw (e, step) (ground arith)

  succeeds : (n i : ℕ) (r : A) → Succeeds n i r → attempt_from n deadline world i ≡ done r
  unfolding attempt_from step
  succeeds zero i r h = elim h [ ]
  succeeds (suc n) i r (inl (b, e, c)) = succeeds_now n i r b e c
  succeeds (suc zero) i r (inr (b, e, s)) = elim s [ ]
  succeeds (suc (suc n)) i r (inr (b, e, s)) =
      succeeds_later n i r (world i).outcome refl b e (succeeds (suc n) (i + 1) r s)

  exhausted_zero :
      (i : ℕ) (o : Outcome A)
      → (world i).outcome ≡ o
      → step zero i o ≡ raised provider_error
      → Exhausts 1 i
  unfolding step raise_if_cancelled_or_expired settle_attempt clear retryable
  exhausted_zero i (done a) e h = absurd (ground arith)
  exhausted_zero i (raised f) e h = (ground arith, rw e (ground arith), tt)

  exhausted_suc :
      (n i : ℕ) (o : Outcome A)
      → (world i).outcome ≡ o
      → step (suc n) i o ≡ raised provider_error
      → (attempt_from (suc n) deadline world (i + 1) ≡ raised provider_error
          → Exhausts (suc n) (i + 1))
      → Exhausts (suc (suc n)) i
  unfolding step raise_if_cancelled_or_expired settle_attempt clear retryable is_cancellation
  exhausted_suc n i (done a) e h k = absurd (ground arith)
  exhausted_suc n i (raised f) e h k = (ground arith, rw e (ground arith), k (ground arith))

  exhausted : (n i : ℕ) → attempt_from n deadline world i ≡ raised provider_error → Exhausts n i
  unfolding attempt_from step
  exhausted zero i h = tt
  exhausted (suc zero) i h = exhausted_zero i (world i).outcome refl h
  exhausted (suc (suc n)) i h =
      exhausted_suc n i (world i).outcome refl h (exhausted (suc n) (i + 1))

  -- The retries return `r` exactly when one of the first ten attempts succeeds with `r`, the attempts
  -- before it fail in a way that is tried again, and each test of the cancellation and the deadline
  -- on the way finds neither; and the provider's error is raised only after ten such failures.
  pub extract_info_with_retries-Succeeds :
      (r : A)
      → ((extract_info_with_retries deadline world ≡ done r) ↔ Succeeds max_attempts 0 r)
        × (extract_info_with_retries deadline world ≡ raised provider_error
            → Exhausts max_attempts 0)
  unfolding extract_info_with_retries
  extract_info_with_retries-Succeeds r =
      ((succeeded max_attempts 0 r, succeeds max_attempts 0 r), exhausted max_attempts 0)
