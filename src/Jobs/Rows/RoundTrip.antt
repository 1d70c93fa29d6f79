-- ===== src/Jobs/Rows/RoundTrip.antt =====
-- A stored result is read back as the response that was published.
use textify.Prelude.{
  ℕ, suc, Bool, true, ◌≡◌, refl, Option, none, some, List, [], ◌∷◌, ◌&&◌, is_none, is_some,
  if◌then◌else◌, arith, ==_refl,
}
use textify.Transcription.Fields.{
  ResponseFieldPath, source_platform, source_video_id, source_url, source_title, source_description,
  source_channel, source_duration_seconds, transcript_method, transcript_language, transcript_text,
  transcript_segments, excludes, SegmentResponse, TranscriptionResponse, valid_response,
}
use textify.Jobs.Types.{ok, ◌>>=◌}
use textify.Jobs.Rows.{
  section_value, source_section, transcript_section, section_segments, segment_response_values,
  number_segments, segment_values, result_values, response_from_result_rows, validate_response,
  check, is_empty,
}

-- A field is present exactly when it is not excluded.
unfoldable pub presents {ℓ} :
    {A : Type ℓ} → List ResponseFieldPath → ResponseFieldPath → Option A → Bool
presents ex p v = if excludes ex p then is_none v else is_some v

-- A response that is projected by the exclusions of its job.
unfoldable pub is_projected : List ResponseFieldPath → TranscriptionResponse → Bool
unfolding presents
is_projected ex r =
    presents ex source_platform r.source.platform
    && presents ex source_video_id r.source.video_id
    && presents ex source_url r.source.url
    && presents ex source_title r.source.title
    && presents ex source_description r.source.description
    && presents ex source_channel r.source.channel
    && presents ex source_duration_seconds r.source.duration_seconds
    && presents ex transcript_method r.transcript.method
    && presents ex transcript_language r.transcript.language
    && presents ex transcript_text r.transcript.text
    && presents ex transcript_segments r.transcript.segments

section_value-presents {ℓ} :
    {A : Type ℓ} (ex : List ResponseFieldPath) (p : ResponseFieldPath) (v : Option A)
    → presents ex p v ≡ true
    → section_value ex p v ≡ ok v
unfolding section_value presents
section_value-presents ex p none h = ground arith
section_value-presents ex p (some v) h = ground arith

segments-numbered :
    (n : ℕ) (l : List SegmentResponse) → segment_response_values n (number_segments n l) ≡ ok l
unfolding segment_response_values number_segments check
segments-numbered n [] = refl
segments-numbered n (s ∷ l) = rw (segments-numbered (suc n) l) (rw (==_refl n) refl)

section_segments-presents :
    (ex : List ResponseFieldPath) (r : TranscriptionResponse)
    → presents ex transcript_segments r.transcript.segments ≡ true
    → section_segments ex (segment_values r) ≡ ok r.transcript.segments
unfolding section_segments segment_values presents check is_empty
section_segments-presents ex r h = go r.transcript.segments h
  where
    go :
        (o : Option (List SegmentResponse))
        → (if excludes ex transcript_segments then is_none o else is_some o) ≡ true
        → (if excludes ex transcript_segments
            then check (is_empty (elim o [ none ↦ [] | some l ↦ number_segments 0 l ])) (ok none)
            else (segment_response_values 0 (elim o [ none ↦ [] | some l ↦ number_segments 0 l ])
                >>= λ l. ok (some l)))
          ≡ ok o
    go none k = ground arith
    go (some l) k = ground (arith, segments-numbered 0 l)

-- A valid response that is projected by the exclusions of its job, split into the columns and the
-- numbered segment rows of a stored result, is read back from them unchanged.
pub result_values-roundtrip :
    (ex : List ResponseFieldPath) (r : TranscriptionResponse)
    → is_projected ex r ≡ true
    → valid_response r ≡ true
    → response_from_result_rows (result_values r (segment_values r)) (segment_values r) ex ≡ ok r
unfolding is_projected response_from_result_rows source_section transcript_section result_values
    validate_response check
result_values-roundtrip ex r h valid = ground (
  arith,
  h,
  valid,
  section_segments-presents ex r,
  section_value-presents ex source_platform r.source.platform,
  section_value-presents ex source_video_id r.source.video_id,
  section_value-presents ex source_url r.source.url,
  section_value-presents ex source_title r.source.title,
  section_value-presents ex source_description r.source.description,
  section_value-presents ex source_channel r.source.channel,
  section_value-presents ex source_duration_seconds r.source.duration_seconds,
  section_value-presents ex transcript_method r.transcript.method,
  section_value-presents ex transcript_language r.transcript.language,
  section_value-presents ex transcript_text r.transcript.text,
)
