-- ===== src/Transcription/Inspection/Identities.antt =====
-- The path and identity checks of the platforms in transcription/inspection.py. A pattern matches
-- the whole text.
use textify.Prelude.{
  ℕ, zero, suc, ◌-◌, Bool, ◌&&◌, ◌||◌, not, Option, none, some, List, [], ◌∷◌, ◌==◌, leb, ltb, all,
  take, if◌then◌else◌, length,
}
use textify.Errors.{invalid_url}
use textify.Texts.{
  Text, Unicode, codes, same_text, is_one_of, starts_with, item, empty, casefold, is_ascii_digit,
  is_ascii_alpha, isdigit, read_decimal,
}
use textify.Transcription.Faults.{Checked, value, fault, domain, value_error, ◌>>=◌, ◌>>◌, ensure}
use textify.Transcription.Inspection.Hosts.{facebook_short_hosts, tiktok_short_hosts, x_short_hosts}

-- `[A-Za-z0-9_-]`
unfoldable pub is_safe : ℕ → Bool
unfolding is_ascii_alpha is_ascii_digit
is_safe c = is_ascii_alpha c || is_ascii_digit c || c == b'_' || c == b'-'

unfoldable pub matches_video_id : Text → Bool
unfolding all is_safe
matches_video_id t = length t == 11 && all is_safe t

unfoldable pub matches_safe_segment : Text → Bool
unfolding all is_safe empty
matches_safe_segment t = not (empty t) && all is_safe t

-- `_FACEBOOK_OWNER_PATTERN` and `_TIKTOK_USER_PATTERN`
unfoldable pub matches_owner : Text → Bool
unfolding all is_safe empty
matches_owner t = not (empty t) && all (λ c. is_safe c || c == b'.') t

-- `_TIKTOK_ID_PATTERN` and `_X_STATUS_PATTERN`
unfoldable pub matches_digits : Text → Bool
unfolding all is_ascii_digit empty
matches_digits t = not (empty t) && all is_ascii_digit t

unfoldable pub drop : ℕ → Text → Text
drop zero t = t
drop (suc n) [] = []
drop (suc n) (c ∷ t) = drop n t

unfoldable pub matches_facebook_id : Text → Bool
unfolding matches_digits starts_with matches_safe_segment drop
matches_facebook_id t =
    matches_digits t || (starts_with (codes "pfbid") t && matches_safe_segment (drop 5 t))

unfoldable pub matches_x_user : Text → Bool
unfolding all is_ascii_alpha is_ascii_digit empty
matches_x_user t = not (empty t) && all (λ c. is_ascii_alpha c || is_ascii_digit c || c == b'_') t

-- `if pattern.fullmatch(value) is None: raise`
unfoldable pub matched : (Text → Bool) → Text → Checked Text
matched p t = do ensure (p t) invalid_url; value t

-- The loop of `_video_query_values`; a key in another case is refused.
unfoldable pub video_values : Unicode → List (Text × Text) → Checked (List Text)
unfolding same_text casefold
video_values u [] = value []
video_values u ((k, v) ∷ ps) =
    if not (same_text (casefold u k) (codes "v"))
    then video_values u ps
    else if not (same_text k (codes "v"))
    then fault (domain invalid_url)
    else video_values u ps >>= λ vs. value (v ∷ vs)

unfoldable pub video_query_values : Unicode → List (Text × Text) → Checked (List Text)
unfolding video_values
video_query_values u ps = do
  vs ← video_values u ps
  ensure (leb (length vs) 1) invalid_url
  value vs

abbrev pub path_forms : List Text
path_forms = codes "shorts" ∷ codes "embed" ∷ codes "live" ∷ []

unfoldable pub pick_video_id : Text → List Text → List Text → Checked Text
unfolding same_text item is_one_of
pick_video_id host segments values =
    if same_text host (codes "youtu.be")
    then (do
      ensure (length segments == 1) invalid_url
      ensure (length values == 0) invalid_url
      value (item 0 segments))
    else if same_text (item 0 segments) (codes "watch")
    then (do ensure (length segments == 1 && length values == 1) invalid_url; value (item 0 values))
    else if is_one_of path_forms (item 0 segments)
    then (do
      ensure (length segments == 2) invalid_url
      ensure (length values == 0) invalid_url
      value (item 1 segments))
    else fault (domain invalid_url)

unfoldable pub youtube_video_id : Unicode → Text → List Text → List (Text × Text) → Checked Text
youtube_video_id u host segments pairs = do
  values ← video_query_values u pairs
  video_id ← pick_video_id host segments values
  matched matches_video_id video_id

abbrev pub instagram_forms : List Text
instagram_forms = codes "p" ∷ codes "tv" ∷ codes "reel" ∷ codes "reels" ∷ []

unfoldable pub instagram_shortcode : List Text → Checked Text
unfolding is_one_of item matched matches_safe_segment
instagram_shortcode segments = do
  ensure (length segments == 2 && is_one_of instagram_forms (item 0 segments)) invalid_url
  matched matches_safe_segment (item 1 segments)

-- `path[i] == s`
unfoldable pub at : List Text → ℕ → Text → Bool
unfolding same_text item
at path i s = same_text (item i path) s

unfoldable pub query_id : Unicode → List (Text × Text) → Checked Text
unfolding video_query_values matched matches_facebook_id item
query_id u pairs = do
  values ← video_query_values u pairs
  ensure (length values == 1) invalid_url
  matched matches_facebook_id (item 0 values)

-- `("watch",)`, `("video.php",)` and `("video", "video.php")`
unfoldable pub is_video_query_path : List Text → Bool
unfolding at
is_video_query_path path =
    (length path == 1 && at path 0 (codes "watch"))
    || (length path == 1 && at path 0 (codes "video.php"))
    || (length path == 2 && at path 0 (codes "video") && at path 1 (codes "video.php"))

unfoldable pub owned_id : Text → Text → Checked Text
unfolding matched matches_owner matches_facebook_id
owned_id owner t = do ensure (matches_owner owner) invalid_url; matched matches_facebook_id t

unfoldable pub facebook_path_identity : List Text → Checked Text
unfolding at matched matches_facebook_id matches_safe_segment matches_owner owned_id item
facebook_path_identity path =
    if length path == 2 && at path 0 (codes "reel")
    then matched matches_facebook_id (item 1 path)
    else if length path == 3 && at path 0 (codes "share") && at path 1 (codes "v")
    then matched matches_safe_segment (item 2 path)
    else if length path == 4 && at path 0 (codes "share")
    then matched matches_safe_segment (item 3 path)
    else if length path == 3 && at path 1 (codes "videos")
    then owned_id (item 0 path) (item 2 path)
    else if length path == 4 && at path 2 (codes "videos")
    then (do
      ensure (matches_owner (item 0 path)) invalid_url
      ensure (matches_safe_segment (item 1 path)) invalid_url
      matched matches_facebook_id (item 3 path))
    else if length path == 3 && at path 1 (codes "posts")
    then owned_id (item 0 path) (item 2 path)
    else fault (domain invalid_url)

unfoldable pub facebook_identity : Unicode → Text → List Text → List (Text × Text) → Checked Text
unfolding is_one_of query_id is_video_query_path facebook_path_identity matched item
facebook_identity u host path pairs =
    if is_one_of facebook_short_hosts host
    then (do ensure (length path == 1) invalid_url; matched matches_safe_segment (item 0 path))
    else if is_video_query_path path
    then query_id u pairs
    else facebook_path_identity path

unfoldable pub tiktok_identity : Text → List Text → Checked Text
unfolding is_one_of matched at starts_with matches_safe_segment matches_digits matches_owner item
    drop
tiktok_identity host path =
    if is_one_of tiktok_short_hosts host
    then (do ensure (length path == 1) invalid_url; matched matches_safe_segment (item 0 path))
    else if at path 0 (codes "t") && length path == 2
    then matched matches_safe_segment (item 1 path)
    else if at path 0 (codes "embed") && length path == 2
    then matched matches_digits (item 1 path)
    else if length path == 3 && starts_with (codes "@") (item 0 path) && at path 1 (codes "video")
    then (do
      ensure (matches_owner (drop 1 (item 0 path))) invalid_url
      matched matches_digits (item 2 path))
    else fault (domain invalid_url)

unfoldable pub positive : Option ℕ → Checked (Unit {0})
positive none = fault value_error
positive (some n) = ensure (ltb 0 n) invalid_url

-- `int` is read outside of a `try`: it raises `ValueError` on a digit that is not decimal.
unfoldable pub base_segments : Unicode → List Text → Checked (List Text)
unfolding positive
base_segments u path =
    if leb 2 (length path) && at path (length path - 2) (codes "video")
    then (do
      ensure (leb 3 (length path) && isdigit u (item (length path - 1) path)) invalid_url
      positive (read_decimal u (item (length path - 1) path) 0)
      value (take (length path - 2) path))
    else value path

unfoldable pub x_base_identity : List Text → Checked Text
unfolding at matched matches_x_user matches_digits item
x_base_identity base =
    if length base == 3 && at base 1 (codes "status")
    then (do
      ensure (matches_x_user (item 0 base)) invalid_url
      matched matches_digits (item 2 base))
    else if length base == 4
        && at base 0 (codes "i")
        && at base 1 (codes "web")
        && at base 2 (codes "status")
    then matched matches_digits (item 3 base)
    else if length base == 2 && at base 0 (codes "statuses")
    then matched matches_digits (item 1 base)
    else fault (domain invalid_url)

unfoldable pub x_identity : Unicode → Text → List Text → Checked Text
x_identity u host path =
    if is_one_of x_short_hosts host
    then (do ensure (length path == 1) invalid_url; matched matches_safe_segment (item 0 path))
    else base_segments u path >>= x_base_identity
