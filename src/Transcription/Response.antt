-- ===== src/Transcription/Response.antt =====
-- The domain result of transcription/types.py and its projection to the public response,
-- `build_transcription_response` of transcription/schemas.py.
use textify.Prelude.{
  ℕ, String, Bool, true, ◌&&◌, Option, none, some, List, map, ltb, leb, all, if◌then◌else◌,
}
use textify.Errors.{nonempty}
use textify.Transcription.Fields.{
  Platform, TranscriptMethod, ResponseFieldPath, source_platform, source_video_id, source_url,
  source_title, source_description, source_channel, source_duration_seconds, transcript_method,
  transcript_language, transcript_text, transcript_segments, excludes, SourceResponse,
  SegmentResponse, TranscriptResponse, TranscriptionResponse,
}

pub record Source : Type 0 where
  pub platform : Platform
  pub video_id : String
  pub url : String
  pub title : String
  pub description : String
  pub channel : String
  pub duration_seconds : ℕ

pub record Segment : Type 0 where
  pub start : ℕ
  pub end : ℕ
  pub text : String

-- `Transcript`, or `TimedTranscript` when the segments are there.
pub record Transcript : Type 0 where
  pub method : TranscriptMethod
  pub language : String
  pub text : String
  pub segments : Option (List Segment)

pub record TranscriptionResult : Type 0 where
  pub source : Source
  pub transcript : Transcript

-- What the checks of the constructors ensure at least: a positive duration, ordered times and
-- nonempty texts.
unfoldable pub valid_source : Source → Bool
valid_source s = ltb 0 s.duration_seconds

unfoldable pub valid_segment : Segment → Bool
valid_segment s = leb s.start s.end && nonempty s.text

unfoldable pub valid_transcript : Option (List Segment) → Bool
unfolding valid_segment
valid_transcript none = true
valid_transcript (some l) = all valid_segment l

unfoldable pub valid_result : TranscriptionResult → Bool
unfolding valid_source valid_transcript
valid_result r = valid_source r.source && valid_transcript r.transcript.segments

-- `if path not in excluded_fields: response[key] = value`
unfoldable pub field {ℓ} : {A : Type ℓ} → List ResponseFieldPath → ResponseFieldPath → A → Option A
field excluded p v = if excludes excluded p then none else some v

-- `_build_source_response`
unfoldable pub build_source_response : Source → List ResponseFieldPath → SourceResponse
unfolding field
build_source_response s ex = record {
  platform = field ex source_platform s.platform;
  video_id = field ex source_video_id s.video_id;
  url = field ex source_url s.url;
  title = field ex source_title s.title;
  description = field ex source_description s.description;
  channel = field ex source_channel s.channel;
  duration_seconds = field ex source_duration_seconds s.duration_seconds;
}

abbrev pub segment_response : Segment → SegmentResponse
segment_response s = record { start = s.start; end = s.end; text = s.text }

-- `_build_transcript_response`; none stands for its `TypeError`.
unfoldable pub build_segments :
    Option (List Segment) → List ResponseFieldPath → Option (Option (List SegmentResponse))
build_segments segments ex =
    if excludes ex transcript_segments
    then some none
    else elim segments [ none ↦ none | some l ↦ some (some (map segment_response l)) ]

unfoldable pub build_transcript_response :
    Transcript → List ResponseFieldPath → Option TranscriptResponse
unfolding field build_segments
build_transcript_response t ex = elim (build_segments t.segments ex) [
  | none ↦ none
  | some segments ↦ some (record {
    method = field ex transcript_method t.method;
    language = field ex transcript_language t.language;
    text = field ex transcript_text t.text;
    segments = segments;
  })
]

unfoldable pub build_transcription_response :
    TranscriptionResult → List ResponseFieldPath → Option TranscriptionResponse
unfolding build_source_response build_transcript_response
build_transcription_response r ex = elim (build_transcript_response r.transcript ex) [
  | none ↦ none
  | some transcript ↦
      some (record { source = build_source_response r.source ex; transcript = transcript })
]
