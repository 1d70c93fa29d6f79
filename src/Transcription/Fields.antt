-- ===== src/Transcription/Fields.antt =====
-- transcription/types.py and transcription/schemas.py: the response fields, and the projected
-- response. A finite time in seconds is a natural number of some fixed small unit: the code only
-- copies and compares times.
use textify.Prelude.{
  ℕ, String, Bool, true, false, ◌&&◌, Option, none, some, List, [], ◌∷◌, ltb, ◌==◌, all,
}
use textify.Errors.{nonempty}

pub data Platform : Type 0 where
  youtube instagram facebook tiktok x : Platform

pub data TranscriptMethod : Type 0 where
  youtube_captions faster_whisper : TranscriptMethod

pub data ResponseFieldPath : Type 0 where
  source_platform source_video_id source_url source_title source_description : ResponseFieldPath
  source_channel source_duration_seconds : ResponseFieldPath
  transcript_method transcript_language transcript_text transcript_segments : ResponseFieldPath

-- The place of a path in the order of the texts.
unfoldable pub path_rank : ResponseFieldPath → ℕ
path_rank source_channel = 0
path_rank source_description = 1
path_rank source_duration_seconds = 2
path_rank source_platform = 3
path_rank source_title = 4
path_rank source_url = 5
path_rank source_video_id = 6
path_rank transcript_language = 7
path_rank transcript_method = 8
path_rank transcript_segments = 9
path_rank transcript_text = 10

-- `path in excluded_fields`
unfoldable pub excludes : List ResponseFieldPath → ResponseFieldPath → Bool
excludes [] p = false
excludes (q ∷ qs) p = elim (path_rank q == path_rank p) [ true ↦ true | false ↦ excludes qs p ]

pub record SourceResponse : Type 0 where
  pub platform : Option Platform
  pub video_id : Option String
  pub url : Option String
  pub title : Option String
  pub description : Option String
  pub channel : Option String
  pub duration_seconds : Option ℕ

pub record SegmentResponse : Type 0 where
  pub start : ℕ
  pub end : ℕ
  pub text : String

pub record TranscriptResponse : Type 0 where
  pub method : Option TranscriptMethod
  pub language : Option String
  pub text : Option String
  pub segments : Option (List SegmentResponse)

pub record TranscriptionResponse : Type 0 where
  pub source : SourceResponse
  pub transcript : TranscriptResponse

-- The field constraints of the schemas: `gt=0` and `min_length=1`.
unfoldable pub positive_duration : Option ℕ → Bool
positive_duration none = true
positive_duration (some d) = ltb 0 d

unfoldable pub valid_segments : Option (List SegmentResponse) → Bool
valid_segments none = true
valid_segments (some l) = all (λ s. nonempty s.text) l

unfoldable pub valid_response : TranscriptionResponse → Bool
unfolding positive_duration valid_segments
valid_response r =
    positive_duration r.source.duration_seconds && valid_segments r.transcript.segments
