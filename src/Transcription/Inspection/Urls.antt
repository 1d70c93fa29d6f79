-- ===== src/Transcription/Inspection/Urls.antt =====
-- `_parse_url` and the helpers on URLs of transcription/inspection.py, with what they use of
-- `urllib.parse`. The decoding and encoding of query texts, and the checks of `urlsplit` on the
-- host (bracketed addresses, characters that NFKC turns into delimiters), are a parameter.
pub mod Parsed
use textify.Prelude.{
  ℕ, zero, suc, Bool, true, false, ◌&&◌, ◌||◌, not, Option, none, some, List, [], ◌∷◌, ◌++◌, map,
  ◌==◌, leb, ltb, all, any, is_some, if◌then◌else◌, length, select,
}
use textify.Errors.{invalid_url}
use textify.Texts.{
  Text, Unicode, codes, same_text, has_code, starts_with, before, after, after_last, split, join,
  empty, is_ascii_digit, is_ascii_alpha, fold_ascii, casefold, read_decimal, isdigit,
}
use textify.Transcription.Faults.{
  Checked, value, fault, Fault, domain, value_error, ◌>>=◌, ◌>>◌, ensure,
}

-- `urllib.parse`: `parse_qsl` with blank values kept, which raises on too many fields;
-- `unquote_plus`; `urlencode`; and the tests of `urlsplit` on a netloc.
pub record UrlLibrary : Type 0 where
  pub parse_qsl : Text → Option (List (Text × Text))
  pub unquote_plus : Text → Text
  pub urlencode : List (Text × Text) → Text
  pub netloc_is_valid : Text → Bool

pub record SplitResult : Type 0 where
  pub scheme : Text
  pub netloc : Text
  pub path : Text
  pub query : Text

-- Characters of a scheme.
unfoldable pub is_scheme_char : ℕ → Bool
unfolding is_ascii_alpha is_ascii_digit
is_scheme_char c = is_ascii_alpha c || is_ascii_digit c || c == 43 || c == 45 || c == 46

unfoldable pub begins_alpha : Text → Bool
unfolding is_ascii_alpha
begins_alpha [] = false
begins_alpha (c ∷ t) = is_ascii_alpha c

unfoldable pub has_scheme : Text → Bool
unfolding has_code begins_alpha all is_scheme_char before
has_scheme url = has_code b':' url && begins_alpha url && all is_scheme_char (before b':' url)

-- What stands before the first of `/?#`, and what follows from there.
unfoldable pub is_delimiter : ℕ → Bool
is_delimiter c = c == b'/' || c == b'?' || c == b'#'

unfoldable pub authority_of : Text → Text
unfolding is_delimiter
authority_of [] = []
authority_of (c ∷ t) = let rest = authority_of t in if is_delimiter c then [] else c ∷ rest

unfoldable pub after_authority : Text → Text
unfolding is_delimiter
after_authority [] = []
after_authority (c ∷ t) = let rest = after_authority t in if is_delimiter c then c ∷ t else rest

unfoldable pub drop_two : Text → Text
drop_two [] = []
drop_two (c ∷ []) = []
drop_two (c ∷ d ∷ t) = t

-- The path and the query of what follows the authority, without its fragment.
unfoldable pub with_rest : Text → Text → Text → SplitResult
unfolding before after
with_rest scheme netloc rest =
    let plain = before b'#' rest in
    record { scheme = scheme; netloc = netloc; path = before b'?' plain; query = after b'?' plain }

unfoldable pub split_hier : Text → Text → SplitResult
unfolding with_rest authority_of after_authority drop_two starts_with
split_hier scheme url =
    if starts_with (codes "//") url
    then with_rest scheme (authority_of (drop_two url)) (after_authority (drop_two url))
    else with_rest scheme [] url

unfoldable pub one_bracket : Text → Bool
unfolding has_code
one_bracket netloc =
    (has_code b'[' netloc && not (has_code b']' netloc))
    || (has_code b']' netloc && not (has_code b'[' netloc))

unfoldable pub check_netloc : UrlLibrary → SplitResult → Option SplitResult
unfolding one_bracket
check_netloc l r = if one_bracket r.netloc || not (l.netloc_is_valid r.netloc) then none else some r

-- `urlsplit(url)` of a text without control characters and blanks; `none` is a `ValueError`.
unfoldable pub urlsplit : UrlLibrary → Text → Option SplitResult
unfolding check_netloc split_hier has_scheme before after fold_ascii
urlsplit l url = check_netloc l (
    if has_scheme url
    then split_hier (map fold_ascii (before b':' url)) (after b':' url)
    else split_hier [] url)

-- `urlunsplit(("https", netloc, path, query, ""))` of a netloc that is not empty
unfoldable pub urlunsplit : Text → Text → Text → Text
unfolding starts_with empty
urlunsplit netloc path query =
    codes "https://"
    ++ (netloc
        ++ ((if empty path || starts_with (codes "/") path then path else b'/' ∷ path)
            ++ (if empty query then [] else b'?' ∷ query)))

-- `SplitResult._hostinfo`
unfoldable pub hostinfo : Text → Text
unfolding after_last
hostinfo netloc = after_last b'@' netloc

unfoldable pub host_part : Text → Text
unfolding hostinfo has_code before after
host_part netloc =
    if has_code b'[' (hostinfo netloc)
    then before b']' (after b'[' (hostinfo netloc))
    else before b':' (hostinfo netloc)

-- The port, if a colon stands before it.
unfoldable pub port_part : Text → Option Text
unfolding hostinfo has_code after
port_part netloc =
    let info = hostinfo netloc in
    let rest = if has_code b'[' info then after b']' (after b'[' info) else info in
    if has_code b':' rest then some (after b':' rest) else none

-- `SplitResult.hostname`: lower case up to a zone
unfoldable pub hostname : Unicode → Text → Text
unfolding host_part has_code before after
hostname u netloc =
    let host = host_part netloc in
    if has_code b'%' host
    then u.lower (before b'%' host) ++ (b'%' ∷ after b'%' host)
    else u.lower host

-- `SplitResult.username` or `.password` is not None.
unfoldable pub has_userinfo : Text → Bool
unfolding has_code
has_userinfo netloc = has_code b'@' netloc

-- `SplitResult.port` raises: it is not a number, or out of range.
unfoldable pub port_value : Unicode → Text → Option ℕ
unfolding read_decimal all is_ascii_digit
port_value u t =
    if all is_ascii_digit t
    then elim (read_decimal u t 0) [ none ↦ none | some n ↦ if leb n 65535 then some n else none ]
    else none

-- Whether reading the port raises, and whether it is not None.
unfoldable pub port_is_malformed : Unicode → Text → Bool
unfolding port_part port_value empty
port_is_malformed u netloc = elim (port_part netloc) [
  | none ↦ false
  | some t ↦ not (empty t) && not (is_some (port_value u t))
]

unfoldable pub has_port_value : Text → Bool
unfolding port_part empty
has_port_value netloc = elim (port_part netloc) [ none ↦ false | some t ↦ not (empty t) ]

unfoldable pub authority_has_port : Text → Bool
unfolding after_last starts_with has_code after
authority_has_port netloc =
    let authority = after_last b'@' netloc in
    if starts_with (codes "[") authority
    then if has_code b']' authority then starts_with (codes ":") (after b']' authority) else true
    else has_code b':' authority

unfoldable pub contains_control_character : Unicode → Text → Bool
unfolding any
contains_control_character u t = any (λ c. u.is_space c || ltb c 32) t

unfoldable pub is_hex_digit : ℕ → Bool
unfolding is_ascii_digit
is_hex_digit c = is_ascii_digit c || (leb 65 c && leb c 70) || (leb 97 c && leb c 102)

unfoldable pub two_hex : Text → Bool
unfolding is_hex_digit
two_hex [] = false
two_hex (c ∷ []) = false
two_hex (c ∷ d ∷ t) = is_hex_digit c && is_hex_digit d

unfoldable pub contains_malformed_percent_encoding : Text → Bool
unfolding two_hex
contains_malformed_percent_encoding [] = false
contains_malformed_percent_encoding (c ∷ t) =
    (c == b'%' && not (two_hex t)) || contains_malformed_percent_encoding t

pub record ParsedUrl : Type 0 where
  pub split : SplitResult
  pub host : Text
  pub query_pairs : List (Text × Text)

unfoldable pub split_or_invalid : Option SplitResult → Checked SplitResult
split_or_invalid none = fault (domain invalid_url)
split_or_invalid (some r) = value r

unfoldable pub pairs_or_invalid : Option (List (Text × Text)) → Checked (List (Text × Text))
pairs_or_invalid none = fault (domain invalid_url)
pairs_or_invalid (some ps) = value ps

unfoldable pub parse_url : Unicode → UrlLibrary → Text → Checked ParsedUrl
unfolding split_or_invalid pairs_or_invalid
parse_url u l submitted_url = do
  ensure (not (empty submitted_url || contains_control_character u submitted_url)) invalid_url
  ensure (not (contains_malformed_percent_encoding submitted_url)) invalid_url
  r ← split_or_invalid (urlsplit l submitted_url)
  ensure (not (port_is_malformed u r.netloc)) invalid_url
  ensure (same_text (casefold u r.scheme) (codes "https") && not (empty (host_part r.netloc)))
      invalid_url
  ensure (not (has_userinfo r.netloc)) invalid_url
  ensure (not (has_port_value r.netloc || authority_has_port r.netloc)) invalid_url
  ensure (not (has_code b'\\' r.netloc || empty r.netloc)) invalid_url
  pairs ← pairs_or_invalid (l.parse_qsl r.query)
  ensure (not (has_code b'%' r.path)) invalid_url
  value (record { split = r; host = casefold u (hostname u r.netloc); query_pairs = pairs })

-- `_path_segments`
unfoldable pub path_segments : Text → Checked (List Text)
path_segments path = do
  ensure (starts_with (codes "/") path) invalid_url
  ensure (not (same_text path (codes "/"))) invalid_url
  ensure (not (any empty (split b'/' (after b'/' path)))) invalid_url
  value (split b'/' (after b'/' path))

-- `_provider_url`
unfoldable pub provider_url : Unicode → SplitResult → Text
unfolding urlunsplit
provider_url u r = urlunsplit (casefold u r.netloc) r.path r.query

unfoldable pub strip_facebook_share_tracking : UrlLibrary → Text → Text
unfolding join select split before same_text
strip_facebook_share_tracking l query = join (codes "&") (
    select (λ f. not (same_text (l.unquote_plus (before b'=' f)) (codes "mibextid")))
      (split b'&' query))
