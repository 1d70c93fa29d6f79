-- ===== src/Transcription/Captions/Tests.antt =====
-- A generated track in the exact language is tried after an empty one of the creator.
use textify.Prelude.{Bool, true, false, ◌≡◌, refl, none, some, List, [], ◌∷◌, ◌==◌, all}
use textify.Texts.{Unicode, codes, same_text, is_blank, words, collapse_whitespace, empty, join}
use textify.Transcription.Fields.{youtube_captions}
use textify.Transcription.Normalizing.{
  RawSegment, Transcript, Languages, seconds, normalize_transcript, normalize_records,
  normalize_record, new_text_transcript, normalize_language_tag, strip, language_of, joined,
  sort_by_start, check_transcript,
}
use textify.Transcription.Inspection.Metadata.{PrimaryLanguage}
use textify.Transcription.Captions.{
  CaptionTrack, segments, tracks, found, bucket_of, track_round, acquire_listed,
}
use textify.Transcription.Captions.Choice.{Preferred, acquire_listed-Preferred}

abbrev plain : Unicode
plain = record {
  lower = λ t. t;
  fold = λ c. c ∷ [];
  is_space = λ c. c == 32;
  is_digit = λ c. false;
  decimal = λ c. none;
}

abbrev tags : Languages
tags t = some t

abbrev primary_of : PrimaryLanguage
primary_of t = some (codes "en")

abbrev track : Bool → List RawSegment → CaptionTrack
track generated raws = record {
  language_code = codes "en";
  is_generated = generated;
  cancelled_first = false;
  cancelled_second = false;
  fetched = segments raws;
  cancelled_after = false;
}

abbrev listed : List CaptionTrack
listed =
    track true (record { start = seconds 1; end = seconds 2; text = some (codes "a") } ∷ [])
    ∷ track false []
    ∷ []

abbrev chosen : Transcript
chosen = record {
  method = youtube_captions;
  language = codes "en";
  text = codes "a";
  segments = none;
}

runs : acquire_listed plain tags primary_of false false (codes "en") (tracks listed) ≡ found chosen
unfolding acquire_listed normalize_transcript normalize_records normalize_record collapse_whitespace
    empty new_text_transcript normalize_language_tag same_text is_blank all strip language_of joined
    sort_by_start words join check_transcript
runs = refl

acquire_listed-Preferred_example :
    Preferred
      (bucket_of plain tags (codes "en") (codes "en"))
      (track_round plain tags false)
      chosen
      listed
acquire_listed-Preferred_example =
    acquire_listed-Preferred plain tags primary_of false false (codes "en") (codes "en") listed
      chosen refl runs
