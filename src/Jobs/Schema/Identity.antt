-- ===== src/Jobs/Schema/Identity.antt =====
-- What the primary key of `transcription_job` gives: an id names at most one row.
use textify.Prelude.{
  ℕ, ◌≤◌, Bool, true, false, ◌&&◌, ◌≡◌, refl, sym, ap, ◌∙◌, subst, List, [], ◌∷◌, map, ◌==◌, ==_iff,
  count, any, contains, ==_refl, All, In, all→All, count-le, All-In, All-from_In, All-pure, arith,
  inl, inr, Bool-cases,
}
use textify.Jobs.Schema.{Job, job_check, unique, schema_check}

pub schema_check-unique :
    (js : List Job) → schema_check js ≡ true → unique (map (λ j. j.id) js) ≡ true
unfolding schema_check
schema_check-unique js h = ground arith

pub schema_check-jobs : (js : List Job) → schema_check js ≡ true → All (λ j. job_check j ≡ true) js
unfolding schema_check
schema_check-jobs js h = all→All job_check js (ground arith)

absent-count :
    (i : ℕ) (r : Job → Bool) (js : List Job)
    → contains i (map (λ j. j.id) js) ≡ false
    → count (λ j. j.id == i && r j) js ≡ 0
unfolding contains any count
absent-count i r [] h = refl
absent-count i r (j ∷ js) h = ground (arith, absent-count i r js)

unique-head :
    (j : Job) (js : List Job)
    → unique (map (λ k. k.id) (j ∷ js)) ≡ true
    → contains j.id (map (λ k. k.id) js) ≡ false
unfolding unique
unique-head j js h = ground arith

unique-tail :
    (j : Job) (js : List Job)
    → unique (map (λ k. k.id) (j ∷ js)) ≡ true
    → unique (map (λ k. k.id) js) ≡ true
unfolding unique
unique-tail j js h = ground arith

-- At most one row has a given id and passes a test.
pub count-id-le :
    (i : ℕ) (r : Job → Bool) (js : List Job)
    → unique (map (λ j. j.id) js) ≡ true
    → count (λ j. j.id == i && r j) js ≤ 1
unfolding count
count-id-le i r [] h = omega arith
count-id-le i r (j ∷ js) h = elim (Bool-cases (j.id == i)) [
  | inl e ↦
      ground (arith, absent-count i r js (rw (sym ((==_iff j.id i).0 e)) (unique-head j js h)))
  | inr e ↦ ground (arith, count-id-le i r js (unique-tail j js h))
]

-- A test that implies the id passes at most once.
pub count-le-one :
    (i : ℕ) (p : Job → Bool) (js : List Job)
    → ((j : Job) → p j ≡ true → j.id ≡ i)
    → unique (map (λ j. j.id) js) ≡ true
    → count p js ≤ 1
count-le-one i p js h u = omega (arith, count-id-le i p js u, bound)
  where
    bound : count p js ≤ count (λ j. j.id == i && p j) js
    bound =
        count-le p (λ j. j.id == i && p j) js
          (All-pure _ js (λ j hit. rw hit (rw (h j hit) (rw (==_refl i)))))

-- A row that passes a test is counted.
pub count_of_In : (p : Job → Bool) (j : Job) (js : List Job) → In j js → p j ≡ true → 1 ≤ count p js
unfolding count
count_of_In p j [] i h = elim i [ ]
count_of_In p j (k ∷ ks) (inl e) h = ground (arith, subst (λ x. p x ≡ true) e h)
count_of_In p j (k ∷ ks) (inr i) h = ground (arith, count_of_In p j ks i h)

contains-In : (j : Job) (js : List Job) → In j js → contains j.id (map (λ k. k.id) js) ≡ true
unfolding contains any
contains-In j [] i = elim i [ ]
contains-In j (k ∷ ks) (inl e) = rw e (rw (==_refl k.id))
contains-In j (k ∷ ks) (inr i) = ground (arith, contains-In j ks i)

-- Two rows with one id are one row.
pub id-injective :
    (js : List Job) (j k : Job)
    → unique (map (λ r. r.id) js) ≡ true
    → In j js
    → In k js
    → j.id ≡ k.id
    → j ≡ k
id-injective [] j k u i m e = elim i [ ]
id-injective (x ∷ xs) j k u (inl p) (inl q) e = p ∙ sym q
id-injective (x ∷ xs) j k u (inl p) (inr m) e = cc (
  unique-head x xs u,
  contains-In k xs m,
  ap (λ (i : ℕ). contains i (map (λ r. r.id) xs)) (sym (ap (λ (r : Job). r.id) p) ∙ e),
)
id-injective (x ∷ xs) j k u (inr i) (inl q) e = cc (
  unique-head x xs u,
  contains-In j xs i,
  ap (λ (i : ℕ). contains i (map (λ r. r.id) xs)) (e ∙ ap (λ (r : Job). r.id) q),
)
id-injective (x ∷ xs) j k u (inr i) (inr m) e = id-injective xs j k (unique-tail x xs u) i m e

-- The row behind an id in a list of ids.
pub row_of_id :
    (i : ℕ) (rows : List Job)
    → contains i (map (λ r. r.id) rows) ≡ true
    → (r : Job) × In r rows × (r.id ≡ i)
unfolding contains any
row_of_id i [] h = cc
row_of_id i (r ∷ rs) h = elim (Bool-cases (r.id == i)) [
  | inl e ↦ (r, inl refl, (==_iff _ _).0 e)
  | inr e ↦ let (k, m, p) = row_of_id i rs (ground arith) in (k, inr m, p)
]

-- The rows that a list of ids names are the rows that the ids were taken from.
pub named_by_ids {ℓ} :
    (Q : Job → Type ℓ) (rows js : List Job)
    → unique (map (λ r. r.id) js) ≡ true
    → All (λ r. In r js) rows
    → All Q rows
    → All (λ j. contains j.id (map (λ r. r.id) rows) ≡ true → Q j) js
named_by_ids Q rows js u members q = All-from_In _ js λ j i h.
    let (r, m, e) = row_of_id j.id rows h in
    subst Q (id-injective js r j u (All-In _ r rows members m) i e) (All-In Q r rows q m)
