-- ===== src/Transcription/Inspection/Metadata/Tests.antt =====
-- The metadata of one YouTube video.
use textify.Prelude.{true, false, ◌≡◌, refl, none, some, [], ◌∷◌, ◌==◌, all, any}
use textify.Texts.{Unicode, codes, same_text, is_one_of, is_blank}
use textify.Transcription.Fields.{youtube}
use textify.Transcription.Faults.{value}
use textify.Transcription.Normalizing.{Languages, normalize_language_tag}
use textify.Transcription.Inspection.Urls.{UrlLibrary}
use textify.Transcription.Inspection.Classifying.{SubmittedSource}
use textify.Transcription.Inspection.Metadata.Objects.{
  positive, number, text, mapping, Fields, end, field, get, has_key,
}
use textify.Transcription.Inspection.Metadata.{
  reject_collections_and_live, type_allowed, flag_unset, status_allowed, check_extractor,
  youtube_identity, id_agrees, normalize_title, optional_text, pick_channel, normalize_duration,
  PrimaryLanguage, declared_language, NormalizedMetadata, identity, describe,
  normalize_processed_metadata,
}
use textify.Transcription.Inspection.Metadata.Promises.{
  Accepted, normalize_processed_metadata-Accepted,
}

abbrev plain : Unicode
plain = record {
  lower = λ t. t;
  fold = λ c. c ∷ [];
  is_space = λ c. c == 32;
  is_digit = λ c. false;
  decimal = λ c. none;
}

abbrev urls : UrlLibrary
urls = record {
  parse_qsl = λ q. some [];
  unquote_plus = λ t. t;
  urlencode = λ ps. [];
  netloc_is_valid = λ n. true;
}

abbrev tags : Languages
tags t = none

abbrev primary : PrimaryLanguage
primary t = none

abbrev metadata : Fields
metadata = field (codes "extractor_key") (text (codes "Youtube")) (
    field (codes "title") (text (codes "T")) (
      field (codes "uploader") (text (codes "U"))
        (field (codes "duration") (number (positive 82 1)) end)))

abbrev submitted : SubmittedSource
submitted = record {
  platform = youtube;
  provider_url = codes "https://www.youtube.com/watch?v=AbCdEf12345";
  youtube_video_id = some (codes "AbCdEf12345");
}

-- A duration of 41.5 seconds counts as 42.
abbrev normalized : NormalizedMetadata
normalized = record {
  video_id = codes "AbCdEf12345";
  canonical_url = codes "https://www.youtube.com/watch?v=AbCdEf12345";
  title = codes "T";
  description = [];
  channel = codes "U";
  duration_seconds = 42;
  declared_language = none;
}

runs :
    normalize_processed_metadata plain urls tags primary (mapping metadata) submitted
    ≡ value normalized
unfolding normalize_processed_metadata reject_collections_and_live has_key get same_text
    type_allowed flag_unset status_allowed check_extractor identity youtube_identity id_agrees
    describe normalize_title optional_text normalize_duration pick_channel declared_language
    normalize_language_tag is_blank all any is_one_of
runs = refl

normalize_processed_metadata-Accepted_example : Accepted plain submitted metadata normalized
normalize_processed_metadata-Accepted_example =
    normalize_processed_metadata-Accepted plain urls tags primary metadata submitted normalized runs
