-- ===== src/Transcription/Ownership/Tests.antt =====
-- Media whose native work outlives its caller.
use textify.Prelude.{true, false, ◌≡◌, refl, [], ◌∷◌}
use textify.Transcription.Ownership.{
  Ownership, new_ownership, retained, finished, completed, apply_events,
}
use textify.Transcription.Ownership.Release.{IsValid, ownership-IsValid, ownership-waits}

ownership-IsValid_example :
    IsValid true (apply_events (retained ∷ finished ∷ completed ∷ []) (new_ownership true))
ownership-IsValid_example = ownership-IsValid true (retained ∷ finished ∷ completed ∷ [])

abbrev abandoned : Ownership
abandoned = record {
  has_prepared_audio = true;
  cancellation_set = false;
  native_retained = true;
  caller_finished = false;
  native_completed = false;
  released = false;
  cleanups = 0;
  cleanup_complete = false;
}

waits : (apply_events (finished ∷ []) abandoned).native_completed ≡ false
unfolding apply_events
waits = refl

ownership-waits_example : (apply_events (finished ∷ []) abandoned).released ≡ false
ownership-waits_example = ownership-waits (finished ∷ []) abandoned refl refl waits
