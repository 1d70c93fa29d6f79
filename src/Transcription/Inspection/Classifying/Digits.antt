-- ===== src/Transcription/Inspection/Classifying/Digits.antt =====
-- The video number of an X URL.
use textify.Prelude.{any, ◌-◌, ◌≤◌, true, false, ◌≡◌, refl, none, List, length, arith}
use textify.Texts.{same_text, Text, Unicode, codes, is_one_of, item, isdigit, read_decimal}
use textify.Transcription.Faults.{value, fault, value_error}
use textify.Transcription.Inspection.Hosts.{x_short_hosts, supported_hosts}
use textify.Transcription.Inspection.Urls.{UrlLibrary, SplitResult, path_segments}
use textify.Transcription.Inspection.Classifying.{
  classify_parsed, classify_supported, classify_segments, watch_path,
}
use textify.Transcription.Inspection.Identities.{at, positive, base_segments, x_identity}

-- A path of X, not of its short host, whose segment before the last is `video`, and whose last segment passes `isdigit` but
-- is no decimal number, as a superscript digit, is not refused as an invalid URL: `int` raises
-- `ValueError`, which leaves the identity check.
pub x_identity-value_error :
    (u : Unicode) (host : Text) (path : List Text)
    → is_one_of x_short_hosts host ≡ false
    → 3 ≤ length path
    → at path (length path - 2) (codes "video") ≡ true
    → isdigit u (item (length path - 1) path) ≡ true
    → read_decimal u (item (length path - 1) path) 0 ≡ none
    → x_identity u host path ≡ fault value_error
unfolding x_identity base_segments positive
x_identity-value_error u host path s n v d r = ground arith

-- A parsed URL of the host `x.com`, whose path has `video` before its last segment and there a text
-- that passes `isdigit` but is no decimal number, is not refused as an invalid URL: `ValueError`
-- leaves the classification.
pub classify_parsed-value_error :
    (u : Unicode) (l : UrlLibrary) (r : SplitResult) (pairs : List (Text × Text)) (path : List Text)
    → path_segments r.path ≡ value path
    → 3 ≤ length path
    → at path (length path - 2) (codes "video") ≡ true
    → isdigit u (item (length path - 1) path) ≡ true
    → read_decimal u (item (length path - 1) path) 0 ≡ none
    → classify_parsed u l (record { split = r; host = codes "x.com"; query_pairs = pairs })
      ≡ fault value_error
unfolding classify_parsed supported_hosts is_one_of any same_text classify_supported
    classify_segments watch_path
classify_parsed-value_error u l r pairs path k n v d e =
    rw k (rw (x_identity-value_error u (codes "x.com") path refl n v d e) refl)
