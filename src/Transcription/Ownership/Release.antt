-- ===== src/Transcription/Ownership/Release.antt =====
-- When the media are released.
use textify.Prelude.{
  Bool, true, false, ◌&&◌, not, ◌≡◌, refl, List, [], ◌∷◌, if◌then◌else◌, arith, Bool-cases, inl,
  inr,
}
use textify.Transcription.Ownership.{
  Ownership, new_ownership, Event, retained, finished, completed, apply_event, apply_events,
}

-- The media are deleted once at most, and with the release; the completion of the cleanup is told
-- with the release; nothing is released before the caller has finished; and if the caller and the
-- native work have finished, all is released.
pub record IsValid (prepared : Bool) (o : Ownership) : Type 0 where
  pub owner : o.has_prepared_audio ≡ prepared
  pub once : o.cleanups ≡ (if o.released && prepared then 1 else 0)
  pub told : o.cleanup_complete ≡ o.released
  pub after_caller : o.released ≡ true → o.caller_finished ≡ true
  pub prompt :
      o.caller_finished ≡ true
      → (o.native_retained && not o.native_completed) ≡ false
      → o.released ≡ true

apply_event-IsValid :
    (prepared : Bool) (e : Event) (o : Ownership)
    → IsValid prepared o
    → IsValid prepared (apply_event e o)
unfolding apply_event
apply_event-IsValid prepared retained o v = ground arith
apply_event-IsValid prepared finished o v = ground arith
apply_event-IsValid prepared completed o v = ground arith

apply_events-IsValid :
    (prepared : Bool) (es : List Event) (o : Ownership)
    → IsValid prepared o
    → IsValid prepared (apply_events es o)
unfolding apply_events
apply_events-IsValid prepared [] o v = v
apply_events-IsValid prepared (e ∷ es) o v =
    apply_events-IsValid prepared es (apply_event e o) (apply_event-IsValid prepared e o v)

-- From the start, over every sequence of the three events, prepared media are deleted once at most and
-- exactly with the release; the completion is told exactly with the release; nothing is released
-- before the caller has finished; and once the caller has finished and no native work is still
-- retained, everything is released.
pub ownership-IsValid :
    (prepared : Bool) (es : List Event)
    → IsValid prepared (apply_events es (new_ownership prepared))
unfolding new_ownership
ownership-IsValid prepared es = apply_events-IsValid prepared es (new_ownership prepared) start
  where
    start : IsValid prepared (new_ownership prepared)
    start = record {
      owner = refl;
      once = refl;
      told = refl;
      after_caller = λ h. h;
      prompt = λ h k. h;
    }

completed_before :
    (es : List Event) (o : Ownership)
    → o.native_completed ≡ true
    → (apply_events es o).native_completed ≡ true
unfolding apply_events apply_event
completed_before [] o h = h
completed_before (retained ∷ es) o h = completed_before es (apply_event retained o) (ground arith)
completed_before (finished ∷ es) o h = completed_before es (apply_event finished o) (ground arith)
completed_before (completed ∷ es) o h = completed_before es (apply_event completed o) (ground arith)

still :
    (es : List Event) (o : Ownership)
    → (apply_events es o).native_completed ≡ false
    → o.native_completed ≡ false
still es o h = elim (Bool-cases o.native_completed) [
  | inl t ↦ let k = completed_before es o t in cc (h, k)
  | inr f ↦ f
]

-- Media that are not released when native work is retained stay, whatever sequence of events follows
-- in which the native work does not complete.
pub ownership-waits :
    (es : List Event) (o : Ownership)
    → o.released ≡ false
    → o.native_retained ≡ true
    → (apply_events es o).native_completed ≡ false
    → (apply_events es o).released ≡ false
unfolding apply_events apply_event
ownership-waits [] o r n c = r
ownership-waits (retained ∷ es) o r n c =
    ownership-waits es (apply_event retained o)
      (ground (arith, still es (apply_event retained o) c)) (ground arith) c
ownership-waits (finished ∷ es) o r n c =
    ownership-waits es (apply_event finished o)
      (ground (arith, still es (apply_event finished o) c)) (ground arith) c
ownership-waits (completed ∷ es) o r n c =
    absurd (ground (arith, still es (apply_event completed o) c))
