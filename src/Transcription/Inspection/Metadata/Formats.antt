-- ===== src/Transcription/Inspection/Metadata/Formats.antt =====
-- `_validate_social_formats` of transcription/inspection.py.
use textify.Prelude.{Bool, true, false, ◌&&◌, ◌||◌, not, Option, none, some, []}
use textify.Errors.{metadata_retrieval_failed, unsupported_media}
use textify.Texts.{Text, Unicode, codes, same_text, starts_with, casefold, empty}
use textify.Transcription.Fields.{Platform, x}
use textify.Transcription.Faults.{Checked, value, fault, domain, ◌>>=◌, ensure}
use textify.Transcription.Inspection.Metadata.Objects.{
  Value, null, text, mapping, sequence, Items, nil, cons, Fields, get, has_key,
}

-- A codec that is None, or no text.
unfoldable pub codec_of : Option Value → Checked Text
codec_of none = value []
codec_of (some null) = value []
codec_of (some (text t)) = value t
codec_of (some _) = fault (domain metadata_retrieval_failed)

unfoldable pub is_http_url : Option Value → Bool
unfolding starts_with
is_http_url (some (text t)) = starts_with (codes "http://") t || starts_with (codes "https://") t
is_http_url _ = false

unfoldable pub is_http_format : Option Value → Bool
unfolding starts_with same_text
is_http_format (some (text t)) = same_text t (codes "http") || starts_with (codes "http-") t
is_http_format _ = false

unfoldable pub is_x : Platform → Bool
is_x x = true
is_x _ = false

-- One round: whether the format has video.
unfoldable pub format_has_video : Unicode → Platform → Value → Checked Bool
format_has_video u p (mapping f) = do
  codec ← codec_of (get (codes "vcodec") f)
  value (
      (not (empty codec) && not (same_text (casefold u codec) (codes "none")))
      || (is_x p
          && not (has_key (codes "vcodec") f)
          && is_http_url (get (codes "url") f)
          && is_http_format (get (codes "format_id") f)))
format_has_video u p _ = fault (domain metadata_retrieval_failed)

unfoldable pub formats_have_video : Unicode → Platform → Items → Bool → Checked Bool
formats_have_video u p nil found = value found
formats_have_video u p (cons v vs) found = do
  video ← format_has_video u p v
  formats_have_video u p vs (found || video)

unfoldable pub checked_formats : Unicode → Platform → Option Value → Checked (Unit {0})
checked_formats u p (some (sequence nil)) = fault (domain unsupported_media)
checked_formats u p (some (sequence (cons v vs))) = do
  found ← formats_have_video u p (cons v vs) false
  ensure found unsupported_media
checked_formats u p _ = fault (domain metadata_retrieval_failed)

unfoldable pub validate_social_formats : Unicode → Platform → Fields → Checked (Unit {0})
unfolding checked_formats
validate_social_formats u p m = checked_formats u p (get (codes "formats") m)
