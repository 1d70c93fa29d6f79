-- ===== src/Jobs/Payloads.antt =====
-- jobs/types.py, JobDispatch.to_payload and from_payload: the JSON object that carries a dispatch
-- over the broker. A `dict` is the list of its items, in which every key stands once.
pub mod RoundTrip
mod Tests
use textify.Prelude.{
  ℕ, Bool, true, false, ◌&&◌, ◌||◌, Option, none, some, List, [], ◌∷◌, ◌==◌, ltb, all, is_some,
  if◌then◌else◌,
}
use textify.Texts.{Text, codes, same_text}
use textify.Jobs.Types.{Uuid, JobDispatch}
use textify.Identifiers.{uuid_text, parse_canonical_uuid4}

-- What `json` decodes to, as far as `from_payload` tells it apart; `negative n` is `-(n + 1)`.
pub data Json : Type 0 where
  boolean : Bool → Json
  integer : ℕ → Json
  negative : ℕ → Json
  text : Text → Json
  other : Json

pub data Payload : Type 0 where
  object : List (Text × Json) → Payload
  not_object : Payload

abbrev pub job_id_key : Text
job_id_key = codes "internal_job_id"

abbrev pub token_key : Text
token_key = codes "execution_attempt_token"

unfoldable pub to_payload : JobDispatch → Payload
to_payload d = object (
    (job_id_key, integer d.internal_job_id)
    ∷ (token_key, text (uuid_text d.execution_attempt_token))
    ∷ [])

unfoldable pub item : Text → List (Text × Json) → Option Json
unfolding same_text
item k [] = none
item k ((l, v) ∷ items) = if same_text l k then some v else item k items

unfoldable pub is_key : Text × Json → Bool
is_key (k, v) = same_text k job_id_key || same_text k token_key

unfoldable pub dispatch_of : Option ℕ → Option Uuid → Option JobDispatch
dispatch_of none t = none
dispatch_of (some n) none = none
dispatch_of (some n) (some u) = some (record { internal_job_id = n; execution_attempt_token = u })

unfoldable pub job_id_of : Option Json → Option ℕ
job_id_of (some (integer n)) = if ltb 0 n then some n else none
job_id_of _ = none

unfoldable pub token_of : Option Json → Option Uuid
token_of (some (text t)) = parse_canonical_uuid4 t
token_of _ = none

unfoldable pub from_payload : Payload → Option JobDispatch
unfolding item is_key dispatch_of job_id_of token_of all
from_payload not_object = none
from_payload (object items) =
    let job_id = item job_id_key items in
    let token = item token_key items in
    if all is_key items && is_some job_id && is_some token
    then dispatch_of (job_id_of job_id) (token_of token)
    else none
