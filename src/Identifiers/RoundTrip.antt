-- ===== src/Identifiers/RoundTrip.antt =====
-- Every UUID of version 4 is read back from its text.
use textify.Prelude.{
  ℕ, ◌+◌, ◌/◌, ◌^◌, ◌<◌, true, ◌&&◌, ◌≡◌, refl, ◌∙◌, sym, ap, some, none, Option, [], ◌∷◌, arith,
  and-eq-true, Bool-cases, inl, inr,
}
use native.Mathlib.Nat.{div-add-mod'}
use textify.Texts.{Text, same_text}
use textify.Texts.Laws.{same_text_refl, same_text-eq}
use textify.Jobs.Types.{Uuid, is_uuid4}
use textify.Identifiers.{
  hex, hyphen, uuid_text, read_hex, of_digits, parse_uuid, canonical, parse_canonical_uuid4,
}
use textify.Identifiers.Digits.{read_hex-hex, read_hex-hyphen, read_hex-same}

-- Reading the lowest digits of a number onto the others.
read_tail :
    (k x a n : ℕ) (rest : Text)
    → a ≡ x / 16 ^ k
    → read_hex (hex k x rest) n a ≡ read_hex rest (n + k) x
read_tail k x a n rest p =
    read_hex-hex k x rest n a ∙ read_hex-same rest refl (rw p (div-add-mod' x (16 ^ k)))

read_group :
    (k x a n : ℕ) (rest : Text)
    → a ≡ x / 16 ^ k
    → read_hex (hex k x (hyphen ∷ rest)) n a ≡ read_hex rest (n + k) x
read_group k x a n rest p = read_tail k x a n (hyphen ∷ rest) p ∙ read_hex-hyphen rest (n + k) x

read_end : (u : ℕ) → read_hex [] 32 u ≡ some (32, u)
unfolding read_hex
read_end u = refl

read_hex-uuid_text : (u : Uuid) → u < 2 ^ 128 → read_hex (uuid_text u) 0 0 ≡ some (32, u)
unfolding uuid_text
read_hex-uuid_text u h =
    read_group 8 (u / 16 ^ 24) 0 0 _ (omega arith)
    ∙ read_group 4 (u / 16 ^ 20) (u / 16 ^ 24) 8 _ (omega arith)
    ∙ read_group 4 (u / 16 ^ 16) (u / 16 ^ 20) 12 _ (omega arith)
    ∙ read_group 4 (u / 16 ^ 12) (u / 16 ^ 16) 16 _ (omega arith)
    ∙ read_tail 12 u (u / 16 ^ 12) 20 [] (omega arith)
    ∙ read_end u

parse_uuid-uuid_text : (u : Uuid) → u < 2 ^ 128 → parse_uuid (uuid_text u) ≡ some u
unfolding parse_uuid of_digits
parse_uuid-uuid_text u h = ap of_digits (read_hex-uuid_text u h)

pub parse_canonical_uuid4-uuid_text :
    (u : Uuid) → u < 2 ^ 128 → is_uuid4 u ≡ true → parse_canonical_uuid4 (uuid_text u) ≡ some u
unfolding parse_canonical_uuid4 canonical
parse_canonical_uuid4-uuid_text u h v =
    rw (parse_uuid-uuid_text u h) (rw v (rw (same_text_refl (uuid_text u)) refl))

accepted_lem :
    (t : Text) (u v : Uuid)
    → v ≡ u
    → (is_uuid4 v ≡ true) × (same_text (uuid_text v) t ≡ true)
    → (is_uuid4 u ≡ true) × (uuid_text u ≡ t)
accepted_lem t u v p (valid, same) =
    (ap is_uuid4 (sym p) ∙ valid, ap uuid_text (sym p) ∙ same_text-eq (uuid_text v) t same)

canonical-some :
    (t : Text) (o : Option Uuid) (u : Uuid)
    → canonical t o ≡ some u
    → (is_uuid4 u ≡ true) × (uuid_text u ≡ t)
unfolding canonical
canonical-some t none u h = cc h
canonical-some t (some v) u h = elim (Bool-cases (is_uuid4 v && same_text (uuid_text v) t)) [
  | inl e ↦ accepted_lem t u v (cc (h, e)) (and-eq-true _ _ e)
  | inr e ↦ cc (h, e)
]

pub parse_canonical_uuid4-some :
    (t : Text) (u : Uuid)
    → parse_canonical_uuid4 t ≡ some u
    → (is_uuid4 u ≡ true) × (uuid_text u ≡ t)
unfolding parse_canonical_uuid4
parse_canonical_uuid4-some t u h = canonical-some t (parse_uuid t) u h
