-- ===== src/Jobs/Schema/Lookup.antt =====
-- What the UNIQUE constraints give to a SELECT: one row at most has a given public id or key.
use textify.Prelude.{
  if◌then◌else◌, ℕ, true, false, ◌≡◌, refl, sym, ap, ◌∙◌, subst, Option, none, some, List, [], ◌∷◌,
  map, ◌==◌, ==_iff, select, any, contains, ==_refl, In, arith, inl, inr, null_eq,
}
use textify.Jobs.Types.{ok}
use textify.Jobs.Schema.{Job, unique, keys, schema_check}
use textify.Jobs.Tx.{one_or_none}

-- A SELECT for a value of a unique column.
module _ (f : Job → ℕ) where
  lone :
      (k : Job) (js : List Job)
      → contains (f k) (map f js) ≡ false
      → select (λ j. f j == f k) js ≡ []
  unfolding contains any select
  lone k [] h = refl
  lone k (j ∷ js) h = ground (arith, lone k js)

  member : (k : Job) (js : List Job) → In k js → contains (f k) (map f js) ≡ true
  unfolding contains any
  member k [] i = elim i [ ]
  member k (j ∷ js) (inl q) = ground (arith, ap f q, ==_refl (f j))
  member k (j ∷ js) (inr i) = ground (arith, member k js i)

  pub select-unique :
      (k : Job) (js : List Job)
      → unique (map f js) ≡ true
      → In k js
      → select (λ j. f j == f k) js ≡ k ∷ []
  unfolding unique select
  select-unique k [] u i = elim i [ ]
  select-unique k (j ∷ js) u (inl q) =
      subst (λ x. select (λ i. f i == f x) (j ∷ js) ≡ x ∷ []) (sym q)
        (rw (==_refl (f j)) (ap (λ (l : List Job). j ∷ l) (lone j js (ground arith))))
  select-unique k (j ∷ js) u (inr i) = ground (
    arith,
    select-unique k js,
    member k js,
    i,
    ==_iff (f j) (f k),
    ap (λ (n : ℕ). contains n (map f js)),
  )

-- The same for the nullable key.
no_key :
    (x : ℕ) (js : List Job)
    → contains x (keys js) ≡ false
    → select (λ j. null_eq j.idempotency_key x) js ≡ []
unfolding contains any select keys
no_key x [] h = refl
no_key x (j ∷ js) h = ground (arith, no_key x js)

key-member :
    (k : Job) (x : ℕ) (js : List Job)
    → k.idempotency_key ≡ some x
    → In k js
    → contains x (keys js) ≡ true
unfolding contains any keys
key-member k x [] e i = elim i [ ]
key-member k x (j ∷ js) e (inl q) =
    ground (arith, sym (ap (λ (r : Job). r.idempotency_key) q) ∙ e, ==_refl x)
key-member k x (j ∷ js) e (inr i) = ground (arith, key-member k x js e i)

select-key :
    (k : Job) (x : ℕ) (js : List Job)
    → unique (keys js) ≡ true
    → k.idempotency_key ≡ some x
    → In k js
    → select (λ j. null_eq j.idempotency_key x) js ≡ k ∷ []
unfolding unique select keys
select-key k x [] u e i = elim i [ ]
select-key k x (j ∷ js) u e (inl q) =
    ground (arith, q, sym (ap (λ (r : Job). r.idempotency_key) q) ∙ e, ==_refl x, no_key x js)
select-key k x (j ∷ js) u e (inr i) =
    go j.idempotency_key (key-member k x js e i) u (λ v. select-key k x js v e i)
  where
    go :
        (y : Option ℕ)
        → contains x (keys js) ≡ true
        → unique (elim y [ none ↦ keys js | some z ↦ z ∷ keys js ]) ≡ true
        → (unique (keys js) ≡ true → select (λ r. null_eq r.idempotency_key x) js ≡ k ∷ [])
        → (if null_eq y x
            then j ∷ select (λ r. null_eq r.idempotency_key x) js
            else select (λ r. null_eq r.idempotency_key x) js)
          ≡ k ∷ []
    go none m v rec = rec v
    go (some y) m v rec =
        ground (arith, m, v, rec, ==_iff y x, ap (λ (n : ℕ). contains n (keys js)))

-- A job is the one that its public identifier selects.
pub find_public_id :
    (k : Job) (js : List Job)
    → schema_check js ≡ true
    → In k js
    → one_or_none (select (λ j. j.public_id == k.public_id) js) ≡ ok (some k)
unfolding schema_check one_or_none
find_public_id k js h i = rw (select-unique (λ j. j.public_id) k js (ground arith) i) refl

-- A job is the one that its idempotency key selects.
pub find_key :
    (k : Job) (x : ℕ) (js : List Job)
    → schema_check js ≡ true
    → k.idempotency_key ≡ some x
    → In k js
    → one_or_none (select (λ j. null_eq j.idempotency_key x) js) ≡ ok (some k)
unfolding schema_check one_or_none
find_key k x js h e i = rw (select-key k x js (ground arith) e i) refl
