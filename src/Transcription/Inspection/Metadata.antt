-- ===== src/Transcription/Inspection/Metadata.antt =====
-- `normalize_processed_metadata` of transcription/inspection.py, on the Python objects that yt-dlp
-- returns. `langcodes` is a parameter.
pub mod Objects
pub mod Formats
pub mod Canonical
pub mod Promises
mod Tests
use textify.Prelude.{
  ℕ, zero, suc, ◌+◌, ◌*◌, ◌/◌, Bool, true, false, ◌&&◌, ◌||◌, not, Option, none, some, List, [],
  ◌∷◌, ◌++◌, ◌==◌, ltb, leb, if◌then◌else◌, is_none,
}
use textify.Errors.{
  PublicErrorCode, invalid_url, metadata_retrieval_failed, invalid_media_duration,
  unsupported_media, unsupported_platform,
}
use textify.Texts.{
  Text, Unicode, codes, same_text, is_one_of, starts_with, casefold, is_blank, empty, has_code,
}
use textify.Transcription.Fields.{Platform, youtube, instagram, facebook, tiktok, x}
use textify.Transcription.Faults.{Checked, value, fault, Fault, domain, ◌>>=◌, ◌>>◌, ensure}
use textify.Transcription.Normalizing.{Languages, und, normalize_language_tag}
use textify.Transcription.Inspection.Urls.{UrlLibrary, contains_control_character}
use textify.Transcription.Inspection.Classifying.{SubmittedSource}
use textify.Transcription.Inspection.Metadata.Objects.{
  positive, Value, null, bool, number, text, mapping, Fields, get, has_key,
}
use textify.Transcription.Inspection.Metadata.Formats.{validate_social_formats}
use textify.Transcription.Inspection.Metadata.Canonical.{canonical_social_url}

abbrev pub collection_types : List Text
collection_types =
    codes "playlist" ∷ codes "multi_video" ∷ codes "url" ∷ codes "url_transparent" ∷ []

-- The flag is missing or False.
unfoldable pub flag_unset : Option Value → Checked (Unit {0})
flag_unset none = value tt
flag_unset (some (bool b)) = ensure (not b) invalid_url
flag_unset (some _) = fault (domain metadata_retrieval_failed)

-- `metadata.get(key)` that is None is as if it were missing.
unfoldable pub type_allowed : Option Value → Checked (Unit {0})
unfolding is_one_of
type_allowed none = value tt
type_allowed (some null) = value tt
type_allowed (some (text t)) = ensure (not (is_one_of collection_types t)) invalid_url
type_allowed (some _) = fault (domain metadata_retrieval_failed)

unfoldable pub status_allowed : Option Value → Checked (Unit {0})
unfolding same_text
status_allowed none = value tt
status_allowed (some (text t)) = ensure (same_text t (codes "not_live")) invalid_url
status_allowed (some _) = fault (domain metadata_retrieval_failed)

unfoldable pub reject_collections_and_live : Fields → Checked (Unit {0})
reject_collections_and_live m = do
  ensure (not (has_key (codes "entries") m)) invalid_url
  type_allowed (get (codes "_type") m)
  flag_unset (get (codes "is_live") m)
  flag_unset (get (codes "is_upcoming") m)
  status_allowed (get (codes "live_status") m)

unfoldable pub expected_extractor_keys : Platform → List Text
expected_extractor_keys youtube = codes "Youtube" ∷ []
expected_extractor_keys instagram = codes "Instagram" ∷ []
expected_extractor_keys facebook = codes "Facebook" ∷ codes "FacebookReel" ∷ []
expected_extractor_keys tiktok = codes "TikTok" ∷ []
expected_extractor_keys x = codes "Twitter" ∷ []

unfoldable pub check_extractor : Unicode → Platform → Option Value → Checked (Unit {0})
unfolding is_blank is_one_of expected_extractor_keys
check_extractor u p (some (text t)) =
    ensure (not (is_blank u t)) metadata_retrieval_failed
    >> ensure (is_one_of (expected_extractor_keys p) t) invalid_url
check_extractor u p _ = fault (domain metadata_retrieval_failed)

-- `provider_id is not _MISSING and provider_id != video_id`
unfoldable pub id_agrees : Text → Option Value → Bool
unfolding same_text
id_agrees v none = true
id_agrees v (some (text t)) = same_text t v
id_agrees v (some _) = false

unfoldable pub youtube_identity : Option Text → Fields → Checked (Text × Text)
youtube_identity none m = fault (domain metadata_retrieval_failed)
youtube_identity (some v) m = do
  ensure (id_agrees v (get (codes "id") m)) metadata_retrieval_failed
  value (v, codes "https://www.youtube.com/watch?v=" ++ v)

unfoldable pub social_id : Unicode → Option Value → Checked Text
unfolding empty
social_id u (some (text t)) =
    ensure (not (empty t || contains_control_character u t)) metadata_retrieval_failed >> value t
social_id u _ = fault (domain metadata_retrieval_failed)

unfoldable pub social_video_id : Unicode → Fields → Checked Text
unfolding social_id
social_video_id u m = social_id u (get (codes "id") m)

-- `metadata.get("webpage_url")` as a text that is not empty
unfoldable pub webpage_url : Option Value → Checked Text
webpage_url (some (text t)) = value t
webpage_url _ = fault (domain metadata_retrieval_failed)

unfoldable pub canonical_url : Unicode → UrlLibrary → Platform → Fields → Checked Text
unfolding webpage_url
canonical_url u l p m = webpage_url (get (codes "webpage_url") m) >>= canonical_social_url u l p

unfoldable pub is_youtube : Platform → Bool
is_youtube youtube = true
is_youtube _ = false

unfoldable pub title_of : Unicode → Platform → Option Value → Checked Text
unfolding is_youtube
title_of u p none = ensure (not (is_youtube p)) metadata_retrieval_failed >> value []
title_of u p (some null) = ensure (not (is_youtube p)) metadata_retrieval_failed >> value []
title_of u p (some (text t)) =
    ensure (not (is_blank u t && is_youtube p)) metadata_retrieval_failed
    >> value (if is_blank u t then [] else t)
title_of u p (some _) = fault (domain metadata_retrieval_failed)

unfoldable pub normalize_title : Unicode → Platform → Fields → Checked Text
unfolding title_of
normalize_title u p m = title_of u p (get (codes "title") m)

unfoldable pub text_or_none : Option Value → Checked (Option Text)
text_or_none none = value none
text_or_none (some null) = value none
text_or_none (some (text t)) = value (some t)
text_or_none (some _) = fault (domain metadata_retrieval_failed)

unfoldable pub optional_text : Text → Fields → Checked (Option Text)
unfolding text_or_none
optional_text k m = text_or_none (get k m)

unfoldable pub text_or_empty : Option Text → Text
text_or_empty none = []
text_or_empty (some t) = t

unfoldable pub is_visible : Unicode → Option Text → Bool
unfolding is_blank
is_visible u none = false
is_visible u (some t) = not (is_blank u t)

unfoldable pub pick_channel : Unicode → Option Text → Option Text → Text
unfolding is_visible text_or_empty
pick_channel u channel uploader =
    if is_visible u channel
    then text_or_empty channel
    else if is_visible u uploader
    then text_or_empty uploader
    else []

-- `ceil(duration)`
unfoldable pub ceil : ℕ → ℕ → ℕ
ceil n d = n / suc d + 1

unfoldable pub duration_seconds : Option Value → Checked ℕ
unfolding ceil
duration_seconds (some (number (positive n d))) = value (ceil n d)
duration_seconds _ = fault (domain invalid_media_duration)

unfoldable pub normalize_duration : Fields → Checked ℕ
unfolding duration_seconds
normalize_duration m = duration_seconds (get (codes "duration") m)

-- `Language.get(tag).language`
abbrev pub PrimaryLanguage : Type 0
PrimaryLanguage = Text → Option Text

unfoldable pub is_private_language : Unicode → Option Text → Bool
unfolding starts_with casefold
is_private_language u none = true
is_private_language u (some t) = starts_with (codes "x-") (casefold u t)

unfoldable pub string_of : Option Value → Option Text
string_of (some (text t)) = some t
string_of _ = none

unfoldable pub declared_language : Unicode → Languages → PrimaryLanguage → Fields → Option Text
unfolding is_private_language string_of same_text
declared_language u l primary m =
    let tag = normalize_language_tag u l (string_of (get (codes "language") m)) in
    if same_text tag und || is_private_language u (primary tag) then none else some tag

pub record NormalizedMetadata : Type 0 where
  pub video_id : Text
  pub canonical_url : Text
  pub title : Text
  pub description : Text
  pub channel : Text
  pub duration_seconds : ℕ
  pub declared_language : Option Text

-- The identity and the canonical URL.
unfoldable pub identity : Unicode → UrlLibrary → SubmittedSource → Fields → Checked (Text × Text)
identity u l s m = if is_youtube s.platform then youtube_identity s.youtube_video_id m else (do
  video_id ← social_video_id u m
  url ← canonical_url u l s.platform m
  validate_social_formats u s.platform m
  value (video_id, url))

unfoldable pub describe :
    Unicode
    → Languages
    → PrimaryLanguage
    → SubmittedSource
    → Fields
    → Text × Text
    → Checked NormalizedMetadata
describe u tags primary s m (video_id, url) = do
  title ← normalize_title u s.platform m
  description ← optional_text (codes "description") m
  channel ← optional_text (codes "channel") m
  uploader ← optional_text (codes "uploader") m
  duration ← normalize_duration m
  value (record {
    video_id = video_id;
    canonical_url = url;
    title = title;
    description = text_or_empty description;
    channel = pick_channel u channel uploader;
    duration_seconds = duration;
    declared_language = declared_language u tags primary m;
  })

unfoldable pub normalize_processed_metadata :
    Unicode
    → UrlLibrary
    → Languages
    → PrimaryLanguage
    → Value
    → SubmittedSource
    → Checked NormalizedMetadata
normalize_processed_metadata u l tags primary (mapping m) s = do
  reject_collections_and_live m
  check_extractor u s.platform (get (codes "extractor_key") m)
  ids ← identity u l s m
  describe u tags primary s m ids
normalize_processed_metadata u l tags primary _ s = fault (domain metadata_retrieval_failed)
