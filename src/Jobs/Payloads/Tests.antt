-- ===== src/Jobs/Payloads/Tests.antt =====
-- Payloads, accepted and refused.
use textify.Prelude.{true, ◌≡◌, refl, none, some, List, [], ◌∷◌, arith}
use textify.Texts.{Text, codes, same_text}
use textify.Jobs.Types.{Uuid, JobDispatch, is_uuid4}
use textify.Identifiers.{uuid_text, parse_canonical_uuid4}
use textify.Jobs.Payloads.{
  Json, boolean, integer, text, other, object, job_id_key, token_key, to_payload, from_payload,
}
use textify.Jobs.Payloads.RoundTrip.{Names, from_payload-to_payload, from_payload-Names}

abbrev token : Uuid
token = 0x3f2504e04f8941d39a0c0305e82c3301

abbrev sent : JobDispatch
sent = record { internal_job_id = 7; execution_attempt_token = token }

abbrev token_text : Text
token_text = codes "3f2504e0-4f89-41d3-9a0c-0305e82c3301"

token_is_spelled : uuid_text token ≡ token_text
unfolding uuid_text
token_is_spelled = refl

from_payload-to_payload_example : from_payload (to_payload sent) ≡ some sent
unfolding is_uuid4
from_payload-to_payload_example = from_payload-to_payload sent (omega arith) (omega arith) refl

capital_refused : parse_canonical_uuid4 (codes "3F2504e0-4f89-41d3-9a0c-0305e82c3301") ≡ none
unfolding parse_canonical_uuid4 is_uuid4 same_text uuid_text
capital_refused = refl

boolean_refused :
    from_payload (object ((job_id_key, boolean true) ∷ (token_key, text token_text) ∷ [])) ≡ none
unfolding from_payload
boolean_refused = refl

extra_key_refused :
    from_payload
      (object ((job_id_key, integer 7) ∷ (token_key, text token_text) ∷ (codes "note", other) ∷ []))
    ≡ none
unfolding from_payload
extra_key_refused = refl

-- The order of the keys is free.
abbrev delivered : List (Text × Json)
delivered = (token_key, text token_text) ∷ (job_id_key, integer 7) ∷ []

delivered_accepted : from_payload (object delivered) ≡ some sent
unfolding from_payload parse_canonical_uuid4 is_uuid4 uuid_text
delivered_accepted = refl

from_payload-Names_example : Names delivered sent
from_payload-Names_example = from_payload-Names delivered sent delivered_accepted
