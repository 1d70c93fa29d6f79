-- ===== src/Jobs/Schema/Updates.antt =====
-- Updates that keep the constraints.
use textify.Prelude.{
  ℕ, Bool, true, false, ◌≡◌, refl, sym, ap, ◌∙◌, subst, Option, none, some, List, [], ◌∷◌, map,
  count, all, All, In, All-map, All-zip, arith, if◌then◌else◌, inl, inr, Bool-cases, All→all,
}
use textify.Jobs.Types.{Uuid}
use textify.Jobs.Schema.{Attempt, Job, job_check, unique, tokens, keys, schema_check}
use textify.Jobs.Schema.Identity.{count-le-one, count_of_In, schema_check-jobs}
use textify.Jobs.Tx.{update_rows}
use textify.Jobs.Tx.Updates.{patch, map-update_rows, All-update_rows}

abbrev pub token_of : Option Attempt → Option Uuid
token_of none = none
token_of (some a) = some a.execution_attempt_token

-- An update that leaves the unique columns alone.
pub record KeepsColumns (f : Job → Job) : Type 0 where
  pub same_id : (j : Job) → (f j).id ≡ j.id
  pub same_public_id : (j : Job) → (f j).public_id ≡ j.public_id
  pub same_key : (j : Job) → (f j).idempotency_key ≡ j.idempotency_key
  pub same_token : (j : Job) → token_of (f j).attempt ≡ token_of j.attempt

tokens-head :
    (j k : Job) (js ks : List Job)
    → token_of k.attempt ≡ token_of j.attempt
    → tokens ks ≡ tokens js
    → tokens (k ∷ ks) ≡ tokens (j ∷ js)
unfolding tokens
tokens-head j k js ks h e = go j.attempt k.attempt h
  where
    go :
        (a b : Option Attempt)
        → token_of b ≡ token_of a
        → (elim b as (λ x. List Uuid) [
          | none ↦ tokens ks
          | some y ↦ y.execution_attempt_token ∷ tokens ks
        ])
          ≡ (elim a as (λ x. List Uuid) [
            | none ↦ tokens js
            | some y ↦ y.execution_attempt_token ∷ tokens js
          ])
    go none none h = e
    go none (some y) h = cc h
    go (some x) none h = cc h
    go (some x) (some y) h = cc (h, e)

keys-head :
    (j k : Job) (js ks : List Job)
    → k.idempotency_key ≡ j.idempotency_key
    → keys ks ≡ keys js
    → keys (k ∷ ks) ≡ keys (j ∷ js)
unfolding keys
keys-head j k js ks h e = rw h (go j.idempotency_key)
  where
    go :
        (o : Option Uuid)
        → (elim o as (λ x. List Uuid) [ none ↦ keys ks | some y ↦ y ∷ keys ks ])
          ≡ (elim o as (λ x. List Uuid) [ none ↦ keys js | some y ↦ y ∷ keys js ])
    go none = e
    go (some y) = ap (◌∷◌ y) e

module _ (test : Job → Bool) (f : Job → Job) (same : KeepsColumns f) where
  tokens-update : (js : List Job) → tokens (update_rows test f js) ≡ tokens js
  unfolding update_rows
  tokens-update [] = refl
  tokens-update (j ∷ js) = tokens-head j (patch test f j) js _ (row (test j)) (tokens-update js)
    where
      row : (b : Bool) → token_of (if b then f j else j).attempt ≡ token_of j.attempt
      row true = same.same_token j
      row false = refl

  keys-update : (js : List Job) → keys (update_rows test f js) ≡ keys js
  unfolding update_rows
  keys-update [] = refl
  keys-update (j ∷ js) = keys-head j (patch test f j) js _ (row (test j)) (keys-update js)
    where
      row : (b : Bool) → (if b then f j else j).idempotency_key ≡ j.idempotency_key
      row true = same.same_key j
      row false = refl

  checked :
      (j : Job)
      → job_check j ≡ true
      → (test j ≡ true → job_check (f j) ≡ true)
      → job_check (patch test f j) ≡ true
  checked j old new = elim (Bool-cases (test j)) [
    | inl hit ↦ rw hit (new hit)
    | inr miss ↦ rw miss old
  ]

  -- The constraints hold after an update whose every touched row meets its own.
  pub schema_check-update :
      (js : List Job)
      → schema_check js ≡ true
      → All (λ j. test j ≡ true → job_check (f j) ≡ true) js
      → schema_check (update_rows test f js) ≡ true
  unfolding schema_check
  schema_check-update js h new = rw (map-update_rows (λ j. j.id) test f js same.same_id) (
      rw (map-update_rows (λ j. j.public_id) test f js same.same_public_id)
        (rw (tokens-update js) (rw (keys-update js) (ground (arith, h, rows)))))
    where
      rows : all job_check (update_rows test f js) ≡ true
      rows = All→all job_check _ (
          All-update_rows (λ j. job_check j ≡ true) test f js
            (All-map _ _ (λ j k. checked j k.0 k.1) js
              (All-zip _ _ js (schema_check-jobs js h) new)))

-- A row that an update touches is there, as updated.
pub In-update :
    (test : Job → Bool) (f : Job → Job) (js : List Job) (j : Job)
    → In j js
    → test j ≡ true
    → In (f j) (update_rows test f js)
unfolding update_rows
In-update test f [] j i h = elim i [ ]
In-update test f (k ∷ js) j (inl e) h =
    inl (ap f e ∙ sym (touched k (subst (λ x. test x ≡ true) e h)))
  where
    touched : (x : Job) → test x ≡ true → patch test f x ≡ f x
    touched x t = rw t refl
In-update test f (k ∷ js) j (inr i) h = inr (In-update test f js j i h)

-- Exactly one row has an id and passes a test that asks for it.
pub count-one :
    (i : ℕ) (test : Job → Bool) (js : List Job) (j : Job)
    → ((k : Job) → test k ≡ true → k.id ≡ i)
    → unique (map (λ k. k.id) js) ≡ true
    → In j js
    → test j ≡ true
    → count test js ≡ 1
count-one i test js j named u m h =
    omega (arith, count-le-one i test js named u, count_of_In test j js m h)
