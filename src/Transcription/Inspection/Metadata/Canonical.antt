-- ===== src/Transcription/Inspection/Metadata/Canonical.antt =====
-- `_canonical_social_url` of transcription/inspection.py, on the text of `webpage_url`.
use textify.Prelude.{
  Bool, true, false, ◌&&◌, ◌||◌, not, Option, none, some, List, [], ◌∷◌, ◌++◌, if◌then◌else◌,
}
use textify.Errors.{invalid_url, metadata_retrieval_failed, unsupported_platform}
use textify.Texts.{Text, Unicode, codes, same_text, is_one_of, has_code, casefold, empty}
use textify.Transcription.Fields.{Platform, youtube, instagram, facebook, tiktok, x}
use textify.Transcription.Faults.{Checked, value, fault, domain, value_error, ◌>>=◌, ◌>>◌, ensure}
use textify.Transcription.Inspection.Hosts.{
  facebook_short_hosts, tiktok_short_hosts, x_short_hosts, supported_hosts, platform_hosts,
  short_hosts,
}
use textify.Transcription.Inspection.Urls.{
  UrlLibrary, SplitResult, urlsplit, urlunsplit, hostname, host_part, has_userinfo, has_port_value,
  authority_has_port, port_is_malformed, contains_control_character,
  contains_malformed_percent_encoding, path_segments,
}
use textify.Transcription.Inspection.Identities.{video_query_values, is_video_query_path}
use textify.Transcription.Inspection.Classifying.{SubmittedSource, classify_submitted_url}

unfoldable pub same_platform : Platform → Platform → Bool
same_platform youtube youtube = true
same_platform instagram instagram = true
same_platform facebook facebook = true
same_platform tiktok tiktok = true
same_platform x x = true
same_platform _ _ = false

-- `_minimal_query`
unfoldable pub first_video : List Text → Text
first_video [] = []
first_video (v ∷ vs) = codes "v=" ++ v

-- `ValueError` is not caught here.
unfoldable pub pairs_or_raise : Option (List (Text × Text)) → Checked (List (Text × Text))
pairs_or_raise none = fault value_error
pairs_or_raise (some ps) = value ps

unfoldable pub minimal_query : Unicode → UrlLibrary → Text → Checked Text
unfolding first_video
minimal_query u l query = do
  pairs ← pairs_or_raise (l.parse_qsl query)
  values ← video_query_values u pairs
  value (first_video values)

-- `_minimal_url`
unfoldable pub minimal_url : Unicode → UrlLibrary → SplitResult → Bool → Checked Text
minimal_url u l r retain_video_query = do
  query ← if retain_video_query then minimal_query u l r.query else value []
  value (urlunsplit (casefold u r.netloc) r.path query)

unfoldable pub split_or_failed : Option SplitResult → Checked SplitResult
split_or_failed none = fault (domain metadata_retrieval_failed)
split_or_failed (some r) = value r

-- The split of a URL that the program has made cannot fail; a failure would be a `ValueError`.
unfoldable pub resplit : UrlLibrary → Text → Checked SplitResult
resplit l url = elim (urlsplit l url) [ none ↦ fault value_error | some r ↦ value r ]

unfoldable pub is_facebook : Platform → Bool
is_facebook facebook = true
is_facebook _ = false

unfoldable pub on_x_host : UrlLibrary → Platform → Text → Checked Text
on_x_host l x url = do r ← resplit l url; value (urlunsplit (codes "x.com") r.path r.query)
on_x_host l _ url = value url

unfoldable pub canonical_social_provider_url : Unicode → UrlLibrary → SubmittedSource → Checked Text
canonical_social_provider_url u l s = do
  r ← resplit l s.provider_url
  segments ← path_segments r.path
  url ← minimal_url u l r (is_facebook s.platform && is_video_query_path segments)
  on_x_host l s.platform url

-- The hosts that the platform's short URLs have.
unfoldable pub is_expected_short_host : Platform → Text → Bool
unfolding is_one_of
is_expected_short_host facebook host = is_one_of facebook_short_hosts host
is_expected_short_host tiktok host = is_one_of tiktok_short_hosts host
is_expected_short_host x host = is_one_of x_short_hosts host
is_expected_short_host _ host = false

-- `except UnsupportedPlatformError`
unfoldable pub as_redirect : Checked SubmittedSource → Checked SubmittedSource
as_redirect (value s) = value s
as_redirect (fault (domain unsupported_platform)) = fault (domain invalid_url)
as_redirect (fault e) = fault e

unfoldable pub canonical_social_url : Unicode → UrlLibrary → Platform → Text → Checked Text
canonical_social_url u l p url = do
  ensure
      (not
        (empty url || contains_control_character u url || contains_malformed_percent_encoding url))
      metadata_retrieval_failed
  r ← split_or_failed (urlsplit l url)
  ensure
      (not (port_is_malformed u r.netloc)
        && same_text (casefold u r.scheme) (codes "https")
        && not (empty (host_part r.netloc))
        && not (has_userinfo r.netloc)
        && not (has_port_value r.netloc)
        && not (authority_has_port r.netloc)
        && not (has_code b'\\' r.netloc)
        && not (has_code b'%' r.path))
      metadata_retrieval_failed
  ensure
      (not (
        is_one_of short_hosts (casefold u (hostname u r.netloc))
        && is_expected_short_host p (casefold u (hostname u r.netloc))))
      metadata_retrieval_failed
  ensure (is_one_of supported_hosts (casefold u (hostname u r.netloc))) invalid_url
  ensure (is_one_of (platform_hosts p) (casefold u (hostname u r.netloc))) invalid_url
  s ← as_redirect (classify_submitted_url u l url)
  ensure (same_platform s.platform p) invalid_url
  canonical_social_provider_url u l s
