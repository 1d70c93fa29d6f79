-- ===== src/Transcription/Inspection/Classifying.antt =====
-- `classify_submitted_url` of transcription/inspection.py.
pub mod Safety
pub mod Digits
pub mod Tests
use textify.Prelude.{
  Bool, true, false, ◌&&◌, ◌||◌, Option, none, some, List, [], ◌∷◌, ◌++◌, select, not,
  if◌then◌else◌,
}
use textify.Errors.{invalid_url, unsupported_platform}
use textify.Texts.{Text, Unicode, codes, same_text, is_one_of, starts_with, remove_suffix, item}
use textify.Transcription.Fields.{Platform, youtube, instagram, facebook, tiktok, x}
use textify.Transcription.Faults.{Checked, value, fault, Fault, domain, ◌>>=◌, ◌>>◌}
use textify.Transcription.Inspection.Hosts.{
  youtube_hosts, instagram_hosts, facebook_hosts, facebook_short_hosts, tiktok_hosts,
  tiktok_short_hosts, x_hosts, x_short_hosts, supported_hosts, looks_like_supported_host_trick,
}
use textify.Transcription.Inspection.Urls.{
  UrlLibrary, SplitResult, ParsedUrl, parse_url, path_segments, provider_url, urlunsplit,
  strip_facebook_share_tracking,
}
use textify.Transcription.Inspection.Identities.{
  youtube_video_id, instagram_shortcode, facebook_identity, tiktok_identity, x_identity, at,
}

pub record SubmittedSource : Type 0 where
  pub platform : Platform
  pub provider_url : Text
  pub youtube_video_id : Option Text

unfoldable pub youtube_provider_url : UrlLibrary → Text → List (Text × Text) → Text
youtube_provider_url l video_id pairs = urlunsplit (codes "www.youtube.com") (codes "/watch") (
    l.urlencode
      ((codes "v", video_id) ∷ select (λ (p : Text × Text). not (same_text p.0 (codes "v"))) pairs))

-- `SubmittedSource(platform, provider_url)`
abbrev pub source_of : Platform → Text → SubmittedSource
source_of p url = record { platform = p; provider_url = url; youtube_video_id = none }

unfoldable pub classify_instagram : Unicode → SplitResult → Checked SubmittedSource
classify_instagram u r = do
  segments ← path_segments (remove_suffix b'/' r.path)
  instagram_shortcode segments
  value (source_of instagram (provider_url u (record r { path = remove_suffix b'/' r.path })))

unfoldable pub classify_facebook_video_share :
    Unicode → UrlLibrary → ParsedUrl → SplitResult → Checked SubmittedSource
classify_facebook_video_share u l p r = do
  segments ← path_segments (remove_suffix b'/' r.path)
  facebook_identity u p.host segments p.query_pairs
  value (
      source_of facebook (
        provider_url u (record r {
          path = remove_suffix b'/' r.path;
          query = strip_facebook_share_tracking l r.query;
        })))

unfoldable pub classify_youtube :
    Unicode → UrlLibrary → ParsedUrl → List Text → Checked SubmittedSource
classify_youtube u l p segments = do
  video_id ← youtube_video_id u p.host segments p.query_pairs
  value (record {
    platform = youtube;
    provider_url = youtube_provider_url l video_id p.query_pairs;
    youtube_video_id = some video_id;
  })

unfoldable pub classify_facebook :
    Unicode → UrlLibrary → ParsedUrl → SplitResult → List Text → Checked SubmittedSource
classify_facebook u l p r segments = do
  facebook_identity u p.host segments p.query_pairs
  value (
      source_of facebook (
        provider_url u (
          if is_one_of facebook_hosts p.host && at segments 0 (codes "share")
          then record r { query = strip_facebook_share_tracking l r.query }
          else r)))

-- The hosts whose path segments are read from the path as it stands.
unfoldable pub classify_segments :
    Unicode → UrlLibrary → ParsedUrl → SplitResult → List Text → Checked SubmittedSource
classify_segments u l p r segments =
    if is_one_of youtube_hosts p.host
    then classify_youtube u l p segments
    else if is_one_of facebook_hosts p.host || is_one_of facebook_short_hosts p.host
    then classify_facebook u l p r segments
    else if is_one_of tiktok_hosts p.host || is_one_of tiktok_short_hosts p.host
    then tiktok_identity p.host segments >>= (λ _. value (source_of tiktok (provider_url u r)))
    else if is_one_of x_hosts p.host || is_one_of x_short_hosts p.host
    then x_identity u p.host segments >>= (λ _. value (source_of x (provider_url u r)))
    else fault (domain unsupported_platform)

unfoldable pub classify_supported :
    Unicode → UrlLibrary → ParsedUrl → SplitResult → Checked SubmittedSource
classify_supported u l p r =
    if is_one_of instagram_hosts p.host
    then classify_instagram u r
    else if is_one_of facebook_hosts p.host && starts_with (codes "/share/v/") r.path
    then classify_facebook_video_share u l p r
    else path_segments r.path >>= classify_segments u l p r

-- `/watch/` of Facebook is read as `/watch`.
unfoldable pub watch_path : ParsedUrl → SplitResult
watch_path p =
    if is_one_of facebook_hosts p.host && same_text p.split.path (codes "/watch/")
    then record p.split { path = codes "/watch" }
    else p.split

unfoldable pub classify_parsed : Unicode → UrlLibrary → ParsedUrl → Checked SubmittedSource
classify_parsed u l p =
    if is_one_of supported_hosts p.host
    then classify_supported u l p (watch_path p)
    else if looks_like_supported_host_trick p.host
    then fault (domain invalid_url)
    else fault (domain unsupported_platform)

unfoldable pub classify_submitted_url : Unicode → UrlLibrary → Text → Checked SubmittedSource
classify_submitted_url u l submitted_url = parse_url u l submitted_url >>= classify_parsed u l
