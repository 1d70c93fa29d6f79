-- ===== src/Transcription/Inspection/Classifying/Tests.antt =====
-- Classification at concrete URLs, with the tables of ASCII.
use textify.Prelude.{
  ℕ, Bool, true, ◌&&◌, ◌||◌, not, ◌≡◌, refl, Option, none, some, List, [], ◌∷◌, ◌++◌, map, ◌==◌,
  leb, ◌-◌, all, any, select, arith, if◌then◌else◌,
}
use textify.Texts.{
  Text, Unicode, codes, same_text, is_one_of, has_code, starts_with, before, after, split, join,
  empty, fold_ascii, concat, casefold, isdigit, read_decimal, item,
}
use textify.Transcription.Fields.{youtube}
use textify.Transcription.Faults.{value, fault, value_error}
use textify.Transcription.Inspection.Hosts.{supported_hosts}
use textify.Transcription.Inspection.Urls.{
  UrlLibrary, SplitResult, parse_url, path_segments, urlunsplit, urlsplit, hostname, host_part,
  has_userinfo, has_port_value, authority_has_port, port_is_malformed, contains_control_character,
  contains_malformed_percent_encoding,
}
use textify.Transcription.Inspection.Urls.Parsed.{UrlLaws}
use textify.Transcription.Inspection.Identities.{
  youtube_video_id, video_query_values, pick_video_id, matched, matches_video_id, at,
}
use textify.Transcription.Inspection.Classifying.{
  SubmittedSource, youtube_provider_url, classify_youtube, classify_segments, classify_supported,
  watch_path, classify_parsed, classify_submitted_url,
}
use textify.Transcription.Inspection.Classifying.Safety.{IsSafe, classify_submitted_url-IsSafe}
use textify.Transcription.Inspection.Classifying.Digits.{classify_parsed-value_error}

abbrev pub is_digit_like : ℕ → Bool
is_digit_like c = (leb 48 c && leb c 57) || c == 178

abbrev pub digit : ℕ → Option ℕ
digit c = if leb 48 c && leb c 57 then some (c - 48) else none

-- ASCII, with a superscript two that is a digit and not decimal.
abbrev pub ascii : Unicode
ascii = record {
  lower = map fold_ascii;
  fold = λ c. fold_ascii c ∷ [];
  is_space = λ c. c == 32;
  is_digit = is_digit_like;
  decimal = digit;
}

abbrev pub encode_pair : Text × Text → Text
encode_pair (k, v) = k ++ (b'=' ∷ v)

abbrev pub urls : UrlLibrary
urls = record {
  parse_qsl = λ q. some [];
  unquote_plus = λ t. t;
  urlencode = λ ps. join (codes "&") (map encode_pair ps);
  netloc_is_valid = λ n. not (has_code b'[' n);
}

fold_twice : (c : ℕ) → fold_ascii (fold_ascii c) ≡ fold_ascii c
unfolding fold_ascii
fold_twice c = ground arith

fold_lower : (t : Text) → casefold ascii (ascii.lower t) ≡ casefold ascii t
unfolding casefold concat
fold_lower [] = refl
fold_lower (c ∷ t) = ground (arith, fold_twice c, fold_lower t)

laws : UrlLaws ascii urls
laws = record { fold_lower = fold_lower; brackets = λ n v h. absurd (ground arith) }

abbrev video : Text
video = codes "https://youtu.be/AbCdEf12345"

abbrev pub video_source : SubmittedSource
video_source = record {
  platform = youtube;
  provider_url = codes "https://www.youtube.com/watch?v=AbCdEf12345";
  youtube_video_id = some (codes "AbCdEf12345");
}

pub classified : classify_submitted_url ascii urls video ≡ value video_source
unfolding classify_submitted_url parse_url empty contains_control_character
    contains_malformed_percent_encoding urlsplit port_is_malformed casefold has_code host_part
    has_userinfo has_port_value authority_has_port hostname classify_parsed is_one_of
    supported_hosts classify_supported watch_path path_segments split starts_with same_text
    classify_segments classify_youtube youtube_video_id video_query_values pick_video_id matched
    matches_video_id youtube_provider_url select join any all before after item urlunsplit
classified = refl

classify_submitted_url-IsSafe_example : IsSafe video_source
classify_submitted_url-IsSafe_example =
    classify_submitted_url-IsSafe ascii urls laws video video_source classified

-- The path `/a/status/1/video/²`.
abbrev numbered : List Text
numbered = codes "a" ∷ codes "status" ∷ codes "1" ∷ codes "video" ∷ (178 ∷ []) ∷ []

abbrev numbered_url : SplitResult
numbered_url = record {
  scheme = codes "https";
  netloc = codes "x.com";
  path = codes "/a/status/1/video/" ++ (178 ∷ []);
  query = [];
}

segments_lem : path_segments numbered_url.path ≡ value numbered
unfolding path_segments starts_with same_text split any empty after
segments_lem = refl

video_lem : at numbered 3 (codes "video") ≡ true
unfolding at
video_lem = refl

isdigit_lem : isdigit ascii (178 ∷ []) ≡ true
unfolding isdigit
isdigit_lem = refl

decimal_lem : read_decimal ascii (178 ∷ []) 0 ≡ none
unfolding read_decimal
decimal_lem = refl

classify_parsed-value_error_example :
    classify_parsed ascii urls
      (record { split = numbered_url; host = codes "x.com"; query_pairs = [] })
    ≡ fault value_error
unfolding item
classify_parsed-value_error_example =
    classify_parsed-value_error ascii urls numbered_url [] numbered segments_lem (omega arith)
      video_lem isdigit_lem decimal_lem
