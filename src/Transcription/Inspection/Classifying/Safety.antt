-- ===== src/Transcription/Inspection/Classifying/Safety.antt =====
-- What a classified URL is.
use textify.Prelude.{
  Bool, true, ◌&&◌, ◌||◌, ◌≡◌, refl, ◌∙◌, ap, subst, Option, none, some, List, [], ◌∷◌, ◌++◌, arith,
  any, Bool-cases, inl, inr,
}
use textify.Texts.{Text, Unicode, codes, same_text, is_one_of, starts_with, remove_suffix, casefold}
use textify.Texts.Laws.{is_one_of-append}
use textify.Transcription.Fields.{Platform, youtube, instagram, facebook, tiktok, x}
use textify.Transcription.Faults.{value, ◌>>=◌, Checked-cases, >>=-value}
use textify.Transcription.Inspection.Hosts.{
  youtube_hosts, instagram_hosts, facebook_hosts, facebook_short_hosts, tiktok_hosts,
  tiktok_short_hosts, x_hosts, x_short_hosts, supported_hosts,
}
use textify.Transcription.Inspection.Urls.{
  UrlLibrary, SplitResult, ParsedUrl, parse_url, path_segments, provider_url,
  strip_facebook_share_tracking, urlunsplit,
}
use textify.Transcription.Inspection.Urls.Parsed.{
  UrlLaws, parse_url-Parsed, Parsed-host, provider_url-prefix,
}
use textify.Transcription.Inspection.Identities.{
  youtube_video_id, matches_video_id, matched, at, video_query_values, pick_video_id,
}
use textify.Transcription.Inspection.Classifying.{
  SubmittedSource, source_of, youtube_provider_url, classify_instagram,
  classify_facebook_video_share, classify_youtube, classify_facebook, classify_segments,
  classify_supported, watch_path, classify_parsed, classify_submitted_url,
}

-- The hosts that a provider URL of the platform may name.
pub provider_hosts : Platform → List Text
provider_hosts youtube = codes "www.youtube.com" ∷ []
provider_hosts instagram = instagram_hosts
provider_hosts facebook = facebook_hosts ++ facebook_short_hosts
provider_hosts tiktok = tiktok_hosts ++ tiktok_short_hosts
provider_hosts x = x_hosts ++ x_short_hosts

-- Only a source of YouTube has a video identifier, and it has one of the right form.
pub HasVideoId : Platform → Option Text → Type 0
HasVideoId youtube none = ⊥
HasVideoId youtube (some v) = matches_video_id v ≡ true
HasVideoId instagram o = o ≡ none
HasVideoId facebook o = o ≡ none
HasVideoId tiktok o = o ≡ none
HasVideoId x o = o ≡ none

pub record IsSafe (s : SubmittedSource) : Type 0 where
  pub host : Text
  pub listed : is_one_of (provider_hosts s.platform) host ≡ true
  pub secure : starts_with (codes "https://" ++ (host ++ codes "/")) s.provider_url ≡ true
  pub video : HasVideoId s.platform s.youtube_video_id

rooted :
    (path : Text) (segments : List Text)
    → path_segments path ≡ value segments
    → starts_with (codes "/") path ≡ true
unfolding path_segments
rooted path segments e = elim (Bool-cases (starts_with (codes "/") path)) [
  | inl h ↦ h
  | inr h ↦ absurd (ground arith)
]

matched_lem : (p : Text → Bool) (t v : Text) → matched p t ≡ value v → p v ≡ true
unfolding matched
matched_lem p t v e = ground arith

youtube_video_id-matches :
    (u : Unicode) (host : Text) (segments : List Text) (pairs : List (Text × Text)) (v : Text)
    → youtube_video_id u host segments pairs ≡ value v
    → matches_video_id v ≡ true
unfolding youtube_video_id
youtube_video_id-matches u host segments pairs v e =
    let (vs, a, b) =
      >>=-value (video_query_values u pairs)
        (λ (values : List Text). pick_video_id host segments values >>= matched matches_video_id) v
        e in
    let (w, c, d) = >>=-value (pick_video_id host segments vs) (matched matches_video_id) v b in
    matched_lem matches_video_id w v d

module _ (u : Unicode) (l : UrlLibrary) where
  -- A source whose URL has the authority of the submitted one.
  retained :
      (p : Platform) (host : Text) (r : SplitResult)
      → is_one_of (provider_hosts p) host ≡ true
      → casefold u r.netloc ≡ host
      → starts_with (codes "/") r.path ≡ true
      → HasVideoId p none
      → IsSafe (source_of p (provider_url u r))
  retained p host r listed same path video = record {
    host = host;
    listed = listed;
    secure =
        subst (λ h. starts_with (codes "https://" ++ (h ++ codes "/")) (provider_url u r) ≡ true)
          same (provider_url-prefix u r path);
    video = video;
  }

  made :
      (v : Text) (pairs : List (Text × Text))
      → matches_video_id v ≡ true
      → IsSafe (record {
        platform = youtube;
        provider_url = youtube_provider_url l v pairs;
        youtube_video_id = some v;
      })
  unfolding provider_hosts HasVideoId youtube_provider_url is_one_of any same_text starts_with
      urlunsplit
  made v pairs h = record {
    host = codes "www.youtube.com";
    listed = refl;
    secure = refl;
    video = h;
  }

  youtube-IsSafe :
      (p : ParsedUrl) (segments : List Text) (s : SubmittedSource)
      → classify_youtube u l p segments ≡ value s
      → IsSafe s
  unfolding classify_youtube
  youtube-IsSafe p segments s e =
      let (v, a, b) =
        >>=-value (youtube_video_id u p.host segments p.query_pairs)
          (λ (video_id : Text). value (record {
            platform = youtube;
            provider_url = youtube_provider_url l video_id p.query_pairs;
            youtube_video_id = some video_id;
          }))
          s e in
      subst IsSafe (ground arith)
        (made v p.query_pairs (youtube_video_id-matches u p.host segments p.query_pairs v a))

  instagram-IsSafe :
      (host : Text) (r : SplitResult) (s : SubmittedSource)
      → is_one_of instagram_hosts host ≡ true
      → casefold u r.netloc ≡ host
      → classify_instagram u r ≡ value s
      → IsSafe s
  unfolding classify_instagram provider_hosts HasVideoId
  instagram-IsSafe host r s h c e =
      elim (Checked-cases (path_segments (remove_suffix b'/' r.path))) [
        | inr (f, k) ↦ absurd (ground arith)
        | inl (segments, k) ↦ subst IsSafe (ground arith) (
            retained instagram host (record r { path = remove_suffix b'/' r.path }) h c
              (rooted (remove_suffix b'/' r.path) segments k) refl)
      ]

  video_share-IsSafe :
      (p : ParsedUrl) (r : SplitResult) (s : SubmittedSource)
      → is_one_of (provider_hosts facebook) p.host ≡ true
      → casefold u r.netloc ≡ p.host
      → classify_facebook_video_share u l p r ≡ value s
      → IsSafe s
  unfolding classify_facebook_video_share HasVideoId
  video_share-IsSafe p r s h c e =
      elim (Checked-cases (path_segments (remove_suffix b'/' r.path))) [
        | inr (f, k) ↦ absurd (ground arith)
        | inl (segments, k) ↦ subst IsSafe (ground arith) (
            retained facebook p.host
              (record r {
                path = remove_suffix b'/' r.path;
                query = strip_facebook_share_tracking l r.query;
              })
              h c (rooted (remove_suffix b'/' r.path) segments k) refl)
      ]

  facebook-IsSafe :
      (p : ParsedUrl) (r : SplitResult) (segments : List Text) (s : SubmittedSource)
      → is_one_of (provider_hosts facebook) p.host ≡ true
      → casefold u r.netloc ≡ p.host
      → starts_with (codes "/") r.path ≡ true
      → classify_facebook u l p r segments ≡ value s
      → IsSafe s
  unfolding classify_facebook HasVideoId
  facebook-IsSafe p r segments s h c k e =
      elim (Bool-cases (is_one_of facebook_hosts p.host && at segments 0 (codes "share"))) [
        | inl b ↦ subst IsSafe (ground arith) (
            retained facebook p.host (record r { query = strip_facebook_share_tracking l r.query })
              h c k refl)
        | inr b ↦ subst IsSafe (ground arith) (retained facebook p.host r h c k refl)
      ]

  segments-IsSafe :
      (p : ParsedUrl) (r : SplitResult) (segments : List Text) (s : SubmittedSource)
      → casefold u r.netloc ≡ p.host
      → starts_with (codes "/") r.path ≡ true
      → classify_segments u l p r segments ≡ value s
      → IsSafe s
  unfolding classify_segments HasVideoId provider_hosts
  segments-IsSafe p r segments s c k e = elim (Bool-cases (is_one_of youtube_hosts p.host)) [
    | inl b ↦ youtube-IsSafe p segments s (rw (b, classify_segments) at e)
    | inr b ↦
        elim (Bool-cases
          (is_one_of facebook_hosts p.host || is_one_of facebook_short_hosts p.host)) [
            | inl b' ↦
                facebook-IsSafe p r segments s
                  (is_one_of-append facebook_hosts facebook_short_hosts p.host ∙ b') c k
                  (ground arith)
            | inr b' ↦
                elim (Bool-cases
                  (is_one_of tiktok_hosts p.host || is_one_of tiktok_short_hosts p.host)) [
                    | inl d ↦ subst IsSafe (ground arith) (
                        retained tiktok p.host r
                          (is_one_of-append tiktok_hosts tiktok_short_hosts p.host ∙ d) c k refl)
                    | inr d ↦
                        elim (Bool-cases
                          (is_one_of x_hosts p.host || is_one_of x_short_hosts p.host)) [
                            | inl f ↦ subst IsSafe (ground arith) (
                                retained x p.host r
                                  (is_one_of-append x_hosts x_short_hosts p.host ∙ f) c k refl)
                            | inr f ↦ absurd (ground arith)
                          ]
                  ]
          ]
  ]

  supported-IsSafe :
      (p : ParsedUrl) (r : SplitResult) (s : SubmittedSource)
      → casefold u r.netloc ≡ p.host
      → classify_supported u l p r ≡ value s
      → IsSafe s
  unfolding classify_supported provider_hosts
  supported-IsSafe p r s c e = elim (Bool-cases (is_one_of instagram_hosts p.host)) [
    | inl b ↦ instagram-IsSafe p.host r s b c (rw (b, classify_supported) at e)
    | inr b ↦
        elim (Bool-cases
          (is_one_of facebook_hosts p.host && starts_with (codes "/share/v/") r.path)) [
            | inl d ↦
                video_share-IsSafe p r s
                  (is_one_of-append facebook_hosts facebook_short_hosts p.host ∙ ground arith) c
                  (ground arith)
            | inr d ↦
                let (segments, k, f) =
                  >>=-value (path_segments r.path) (classify_segments u l p r) s (ground arith) in
                segments-IsSafe p r segments s c (rooted r.path segments k) f
          ]
  ]

  watch_path-netloc : (p : ParsedUrl) → (watch_path p).netloc ≡ p.split.netloc
  unfolding watch_path
  watch_path-netloc p = ground arith

  -- Every source that a submitted URL is classified as has a provider URL which begins with
  -- `https://`, a host of its own platform, and a slash; so no credentials, no port and no other host
  -- reach the provider. A YouTube source, and no other, has a video identifier, of the eleven
  -- permitted characters. The case tables and `urlsplit` obey their two laws.
  pub classify_submitted_url-IsSafe :
      UrlLaws u l
      → (t : Text) (s : SubmittedSource) → classify_submitted_url u l t ≡ value s
      → IsSafe s
  unfolding classify_submitted_url classify_parsed
  classify_submitted_url-IsSafe laws t s e =
      let (p, a, b) = >>=-value (parse_url u l t) (classify_parsed u l) s e in
      elim (Bool-cases (is_one_of supported_hosts p.host)) [
        | inl h ↦
            supported-IsSafe p (watch_path p) s
              (ap (casefold u) (watch_path-netloc p)
                ∙ Parsed-host u l laws p (parse_url-Parsed u l t p a) h)
              (ground arith)
        | inr h ↦ absurd (ground arith)
      ]
