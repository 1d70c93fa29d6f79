-- ===== src/Jobs/Rows/Projection.antt =====
-- What the worker's projection promises the store.
use textify.Prelude.{
  true, false, ◌≡◌, refl, sym, subst, Option, none, some, List, [], ◌∷◌, map, all, arith, inl, inr,
  Bool-cases, if◌then◌else◌,
}
use textify.Errors.{nonempty}
use textify.Transcription.Fields.{
  ResponseFieldPath, source_platform, source_video_id, source_url, source_title, source_description,
  source_channel, source_duration_seconds, transcript_method, transcript_language, transcript_text,
  transcript_segments, excludes, SegmentResponse, TranscriptionResponse, valid_response,
  positive_duration, valid_segments,
}
use textify.Transcription.Response.{
  Segment, TranscriptionResult, segment_response, valid_source, valid_segment, valid_transcript,
  valid_result, field, build_segments, build_source_response, build_transcript_response,
  build_transcription_response,
}
use textify.Jobs.Types.{ok}
use textify.Jobs.Rows.{response_from_result_rows, result_values, segment_values}
use textify.Jobs.Rows.RoundTrip.{presents, is_projected, result_values-roundtrip}

field-presents {ℓ} :
    {A : Type ℓ} (ex : List ResponseFieldPath) (p : ResponseFieldPath) (v : A)
    → presents ex p (field ex p v) ≡ true
unfolding presents field
field-presents ex p v = ground arith

segments-valid :
    (l : List Segment)
    → all valid_segment l ≡ true
    → all (λ s. nonempty s.text) (map segment_response l) ≡ true
unfolding all valid_segment
segments-valid [] h = refl
segments-valid (s ∷ l) h = ground (arith, h, segments-valid l)

-- The segments part of a projection.
abbrev GoodSegments : List ResponseFieldPath → Option (Option (List SegmentResponse)) → Type 0
GoodSegments ex none = Unit
GoodSegments ex (some o) = (presents ex transcript_segments o ≡ true) × (valid_segments o ≡ true)

build_segments-good :
    (segments : Option (List Segment)) (ex : List ResponseFieldPath)
    → valid_transcript segments ≡ true
    → GoodSegments ex (build_segments segments ex)
unfolding build_segments presents valid_transcript valid_segments
build_segments-good none ex h = elim (Bool-cases (excludes ex transcript_segments)) [
  | inl out ↦ rw out (rw out refl, refl)
  | inr kept ↦ rw kept tt
]
build_segments-good (some l) ex h = elim (Bool-cases (excludes ex transcript_segments)) [
  | inl out ↦ rw out (rw out refl, refl)
  | inr kept ↦ rw kept (rw kept refl, segments-valid l h)
]

module _ (x : TranscriptionResult) (ex : List ResponseFieldPath) where
  abbrev assembled : Option (List SegmentResponse) → TranscriptionResponse
  assembled o = record {
    source = build_source_response x.source ex;
    transcript = record {
      method = field ex transcript_method x.transcript.method;
      language = field ex transcript_language x.transcript.language;
      text = field ex transcript_text x.transcript.text;
      segments = o;
    };
  }

  refused :
      build_segments x.transcript.segments ex ≡ none → build_transcription_response x ex ≡ none
  unfolding build_transcription_response build_transcript_response
  refused e = ground (arith, e)

  built :
      (o : Option (List SegmentResponse))
      → build_segments x.transcript.segments ex ≡ some o
      → build_transcription_response x ex ≡ some (assembled o)
  unfolding build_transcription_response build_transcript_response
  built o e = ground (arith, e)

  duration-valid :
      valid_source x.source ≡ true
      → positive_duration (field ex source_duration_seconds x.source.duration_seconds) ≡ true
  unfolding valid_source positive_duration field
  duration-valid h = elim (Bool-cases (excludes ex source_duration_seconds)) [
    | inl out ↦ rw out refl
    | inr kept ↦ rw kept h
  ]

  assembled-projected :
      (o : Option (List SegmentResponse))
      → presents ex transcript_segments o ≡ true
      → is_projected ex (assembled o) ≡ true
  unfolding is_projected build_source_response
  assembled-projected o h = ground (
    arith,
    h,
    field-presents ex source_platform x.source.platform,
    field-presents ex source_video_id x.source.video_id,
    field-presents ex source_url x.source.url,
    field-presents ex source_title x.source.title,
    field-presents ex source_description x.source.description,
    field-presents ex source_channel x.source.channel,
    field-presents ex source_duration_seconds x.source.duration_seconds,
    field-presents ex transcript_method x.transcript.method,
    field-presents ex transcript_language x.transcript.language,
    field-presents ex transcript_text x.transcript.text,
  )

  assembled-valid :
      (o : Option (List SegmentResponse))
      → valid_source x.source ≡ true
      → valid_segments o ≡ true
      → valid_response (assembled o) ≡ true
  unfolding valid_response build_source_response
  assembled-valid o h k = ground (arith, k, duration-valid h)

-- A field of the result: absent if it is excluded, else with its value.
abbrev pub shown {ℓ} : {A : Type ℓ} → List ResponseFieldPath → ResponseFieldPath → A → Option A
shown ex p v = if excludes ex p then none else some v

-- The segments are absent if they are excluded; otherwise the transcript has segments, and they are
-- shown with their times and texts.
pub data ShowsSegments (ex : List ResponseFieldPath)
    : Option (List Segment) → Option (List SegmentResponse) → Type 0 where
  hidden :
      (o : Option (List Segment)) → excludes ex transcript_segments ≡ true → ShowsSegments ex o none
  listed :
      (l : List Segment)
      → excludes ex transcript_segments ≡ false
      → ShowsSegments ex
          (some l)
          (some (map (λ s. record { start = s.start; end = s.end; text = s.text }) l))

-- The response has the values of the result in every field that is not excluded.
pub record Shows (x : TranscriptionResult) (ex : List ResponseFieldPath) (r : TranscriptionResponse)
    : Type 0 where
  pub platform : r.source.platform ≡ shown ex source_platform x.source.platform
  pub video_id : r.source.video_id ≡ shown ex source_video_id x.source.video_id
  pub url : r.source.url ≡ shown ex source_url x.source.url
  pub title : r.source.title ≡ shown ex source_title x.source.title
  pub description : r.source.description ≡ shown ex source_description x.source.description
  pub channel : r.source.channel ≡ shown ex source_channel x.source.channel
  pub duration :
      r.source.duration_seconds ≡ shown ex source_duration_seconds x.source.duration_seconds
  pub method : r.transcript.method ≡ shown ex transcript_method x.transcript.method
  pub language : r.transcript.language ≡ shown ex transcript_language x.transcript.language
  pub text : r.transcript.text ≡ shown ex transcript_text x.transcript.text
  pub segments : ShowsSegments ex x.transcript.segments r.transcript.segments

build_segments-Shows :
    (o : Option (List Segment)) (ex : List ResponseFieldPath) (l : Option (List SegmentResponse))
    → build_segments o ex ≡ some l
    → ShowsSegments ex o l
unfolding build_segments
build_segments-Shows none ex l e = elim (Bool-cases (excludes ex transcript_segments)) [
  | inl out ↦ subst (ShowsSegments ex none) {x = none} (ground (arith, out)) (hidden none out)
  | inr kept ↦ absurd (ground (arith, kept))
]
build_segments-Shows (some ss) ex l e = elim (Bool-cases (excludes ex transcript_segments)) [
  | inl out ↦
      subst (ShowsSegments ex (some ss)) {x = none} (ground (arith, out)) (hidden (some ss) out)
  | inr kept ↦
      subst (ShowsSegments ex (some ss)) {x = some (map segment_response ss)} (ground (arith, kept))
        (listed ss kept)
]

assembled-Shows :
    (x : TranscriptionResult) (ex : List ResponseFieldPath) (o : Option (List SegmentResponse))
    → build_segments x.transcript.segments ex ≡ some o
    → Shows x ex (assembled x ex o)
unfolding build_source_response field
assembled-Shows x ex o e = record {
  platform = refl;
  video_id = refl;
  url = refl;
  title = refl;
  description = refl;
  channel = refl;
  duration = refl;
  method = refl;
  language = refl;
  text = refl;
  segments = build_segments-Shows x.transcript.segments ex o e;
}

-- A projection of a valid result shows exactly the fields that are not excluded, and is valid.
abbrev GoodResponse :
    TranscriptionResult → List ResponseFieldPath → Option TranscriptionResponse → Type 0
GoodResponse x ex none = Unit
GoodResponse x ex (some r) = (is_projected ex r ≡ true) × (valid_response r ≡ true) × Shows x ex r

build_transcription_response-good :
    (x : TranscriptionResult) (ex : List ResponseFieldPath)
    → valid_result x ≡ true
    → GoodResponse x ex (build_transcription_response x ex)
unfolding valid_result
build_transcription_response-good x ex h =
    go (build_segments x.transcript.segments ex) refl
      (build_segments-good x.transcript.segments ex (ground (arith, h)))
  where
    go :
        (o : Option (Option (List SegmentResponse)))
        → build_segments x.transcript.segments ex ≡ o
        → GoodSegments ex o
        → GoodResponse x ex (build_transcription_response x ex)
    go none e k = subst (GoodResponse x ex) (sym (refused x ex e)) tt
    go (some o) e k = subst (GoodResponse x ex) (sym (built x ex o e)) (
      assembled-projected x ex o k.0,
      assembled-valid x ex o (ground (arith, h)) k.1,
      assembled-Shows x ex o e,
    )

-- The projection of a valid transcription result has every field that is not excluded, with the value
-- of the result, and no other; it is a valid response, and is read back unchanged from the columns and segment rows that store it.
pub build_transcription_response-roundtrip :
    (x : TranscriptionResult) (ex : List ResponseFieldPath) (r : TranscriptionResponse)
    → valid_result x ≡ true
    → build_transcription_response x ex ≡ some r
    → Shows x ex r
      × (valid_response r ≡ true)
      × (response_from_result_rows (result_values r (segment_values r)) (segment_values r) ex
          ≡ ok r)
build_transcription_response-roundtrip x ex r h e =
    let good = subst (GoodResponse x ex) e (build_transcription_response-good x ex h) in
    (good.2, good.1, result_values-roundtrip ex r good.0 good.1)
