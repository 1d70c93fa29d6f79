-- ===== src/Transcription/Ownership.antt =====
-- `TranscriptionOwnership` of transcription/acquisition.py: who deletes the prepared media, and
-- when. The count of the calls of `PreparedAudio.cleanup` is part of the state.
pub mod Release
mod Tests
use textify.Prelude.{ℕ, suc, Bool, true, false, ◌&&◌, ◌||◌, not, List, [], ◌∷◌, if◌then◌else◌}

pub record Ownership : Type 0 where
  pub has_prepared_audio : Bool
  pub cancellation_set : Bool
  pub native_retained : Bool
  pub caller_finished : Bool
  pub native_completed : Bool
  pub released : Bool
  pub cleanups : ℕ
  pub cleanup_complete : Bool

-- `TranscriptionOwnership.__init__`
unfoldable pub new_ownership : Bool → Ownership
new_ownership prepared = record {
  has_prepared_audio = prepared;
  cancellation_set = false;
  native_retained = false;
  caller_finished = false;
  native_completed = false;
  released = false;
  cleanups = 0;
  cleanup_complete = false;
}

unfoldable pub release_when_finished : Ownership → Ownership
release_when_finished o =
    if o.released || not o.caller_finished
    then o
    else if o.native_retained && not o.native_completed
    then o
    else record o {
      released = true;
      cleanups = if o.has_prepared_audio then suc o.cleanups else o.cleanups;
      cleanup_complete = true;
    }

unfoldable pub retain_native_work : Ownership → Ownership
unfolding release_when_finished
retain_native_work o = release_when_finished (record o { native_retained = true })

unfoldable pub finish_caller : Ownership → Ownership
unfolding release_when_finished
finish_caller o =
    release_when_finished (record o { caller_finished = true; cancellation_set = true })

unfoldable pub complete_native_work : Ownership → Ownership
unfolding release_when_finished
complete_native_work o = release_when_finished (record o { native_completed = true })

pub data Event : Type 0 where
  retained finished completed : Event

unfoldable pub apply_event : Event → Ownership → Ownership
unfolding retain_native_work finish_caller complete_native_work
apply_event retained o = retain_native_work o
apply_event finished o = finish_caller o
apply_event completed o = complete_native_work o

unfoldable pub apply_events : List Event → Ownership → Ownership
unfolding apply_event
apply_events [] o = o
apply_events (e ∷ es) o = apply_events es (apply_event e o)
