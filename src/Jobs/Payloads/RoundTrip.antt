-- ===== src/Jobs/Payloads/RoundTrip.antt =====
-- What is delivered is what was sent.
use textify.Prelude.{
  ℕ, ◌<◌, ◌^◌, true, ◌&&◌, ◌≡◌, refl, ap, sym, Option, none, some, List, lt→ltb, all, is_some,
  arith, and-eq-true, Bool-cases, inl, inr,
}
use mathlib.Core.Option.{some-injective}
use textify.Texts.{Text}
use textify.Jobs.Types.{Uuid, JobDispatch, is_uuid4}
use textify.Identifiers.{uuid_text}
use textify.Identifiers.RoundTrip.{parse_canonical_uuid4-uuid_text, parse_canonical_uuid4-some}
use textify.Jobs.Payloads.{
  Json, boolean, integer, negative, text, other, object, job_id_key, token_key, to_payload, item,
  is_key, dispatch_of, job_id_of, token_of, from_payload,
}

-- A dispatch that a job can have, its job identifier positive and its token a UUID of version 4, is
-- read back unchanged from its payload.
pub from_payload-to_payload :
    (d : JobDispatch)
    → 0 < d.internal_job_id
    → d.execution_attempt_token < 2 ^ 128
    → is_uuid4 d.execution_attempt_token ≡ true
    → from_payload (to_payload d) ≡ some d
unfolding from_payload to_payload
from_payload-to_payload d p h v =
    rw (parse_canonical_uuid4-uuid_text d.execution_attempt_token h v) (rw (lt→ltb _ _ p) refl)

-- The items of a payload that name a dispatch: no others, and the values that it was sent with.
unfoldable pub Names : List (Text × Json) → JobDispatch → Type 0
Names items d =
    (all is_key items ≡ true)
    × (item job_id_key items ≡ some (integer d.internal_job_id))
    × (item token_key items ≡ some (text (uuid_text d.execution_attempt_token)))
    × (0 < d.internal_job_id)
    × (is_uuid4 d.execution_attempt_token ≡ true)

dispatch_of-some :
    (n : Option ℕ) (u : Option Uuid) (d : JobDispatch)
    → dispatch_of n u ≡ some d
    → (n ≡ some d.internal_job_id) × (u ≡ some d.execution_attempt_token)
unfolding dispatch_of
dispatch_of-some none u d h = cc h
dispatch_of-some (some n) none d h = cc h
dispatch_of-some (some n) (some u) d h =
    let same = some-injective _ _ h in
    (ap (λ e. some e.internal_job_id) same, ap (λ e. some e.execution_attempt_token) same)

job_id_of-some : (o : Option Json) (n : ℕ) → job_id_of o ≡ some n → (o ≡ some (integer n)) × (0 < n)
unfolding job_id_of
job_id_of-some none n h = cc h
job_id_of-some (some (boolean b)) n h = cc h
job_id_of-some (some (integer m)) n h = ground arith
job_id_of-some (some (negative m)) n h = cc h
job_id_of-some (some (text t)) n h = cc h
job_id_of-some (some other) n h = cc h

token_of-some :
    (o : Option Json) (u : Uuid)
    → token_of o ≡ some u
    → (o ≡ some (text (uuid_text u))) × (is_uuid4 u ≡ true)
unfolding token_of
token_of-some none u h = cc h
token_of-some (some (boolean b)) u h = cc h
token_of-some (some (integer m)) u h = cc h
token_of-some (some (negative m)) u h = cc h
token_of-some (some (text t)) u h =
    let (valid, same) = parse_canonical_uuid4-some t u h in
    (ap (λ t. some (text t)) (sym same), valid)
token_of-some (some other) u h = cc h

values_lem :
    (items : List (Text × Json)) (d : JobDispatch)
    → all is_key items ≡ true
    → dispatch_of (job_id_of (item job_id_key items)) (token_of (item token_key items)) ≡ some d
    → Names items d
unfolding Names
values_lem items d keys h =
    let (n, u) = dispatch_of-some _ _ d h in
    let (job_id, positive) = job_id_of-some _ _ n in
    let (token, valid) = token_of-some _ _ u in (keys, job_id, token, positive, valid)

keys_lem :
    (items : List (Text × Json))
    → (all is_key items && is_some (item job_id_key items) && is_some (item token_key items)) ≡ true
    → all is_key items ≡ true
keys_lem items e =
    let (keys, token) =
      and-eq-true (all is_key items && is_some (item job_id_key items))
        (is_some (item token_key items)) e in
    let (known, job_id) = and-eq-true (all is_key items) (is_some (item job_id_key items)) keys in
    known

-- A payload from which a dispatch is read is an object with the two keys and no others, whose
-- values are the very ones that this dispatch is sent with; its job identifier is positive and its
-- token is a UUID of version 4.
pub from_payload-Names :
    (items : List (Text × Json)) (d : JobDispatch)
    → from_payload (object items) ≡ some d
    → Names items d
unfolding from_payload
from_payload-Names items d h =
    elim (Bool-cases
      (all is_key items && is_some (item job_id_key items) && is_some (item token_key items))) [
        | inl e ↦ values_lem items d (keys_lem items e) (cc (h, e))
        | inr e ↦ cc (h, e)
      ]
