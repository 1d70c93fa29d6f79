-- ===== src/Jobs/Tx/Updates.antt =====
-- Laws of the statements: what an UPDATE does to every row, and what its row count says.
use textify.Prelude.{
  Bool, true, false, ◌≡◌, refl, sym, ap, subst, List, [], ◌∷◌, map, count, All, Bool-cases,
  if◌then◌else◌, arith, inl, inr,
}
use textify.Jobs.Types.{Result, ok, err}
use textify.Jobs.Schema.{Job, schema_check}
use textify.Jobs.Tx.{Store, commit, update_rows}

-- One row of an UPDATE.
abbrev pub patch : (Job → Bool) → (Job → Job) → Job → Job
patch p f j = if p j then f j else j

pub All-update_rows {ℓ} :
    (P : Job → Type ℓ) (p : Job → Bool) (f : Job → Job) (js : List Job)
    → All (λ j. P (patch p f j)) js
    → All P (update_rows p f js)
unfolding update_rows
All-update_rows P p f [] h = tt
All-update_rows P p f (j ∷ js) h = (h.0, All-update_rows P p f js h.1)

pub All-update_rows_pure {ℓ} :
    (P : Job → Type ℓ) (p : Job → Bool) (f : Job → Job) (js : List Job)
    → All P (update_rows p f js)
    → All (λ j. P (patch p f j)) js
unfolding update_rows
All-update_rows_pure P p f [] h = tt
All-update_rows_pure P p f (j ∷ js) h = (h.0, All-update_rows_pure P p f js h.1)

pub count-update_rows :
    (q p : Job → Bool) (f : Job → Job) (js : List Job)
    → count q (update_rows p f js) ≡ count (λ j. q (patch p f j)) js
unfolding update_rows count
count-update_rows q p f [] = refl
count-update_rows q p f (j ∷ js) = ground (arith, count-update_rows q p f js)

-- A column that the update leaves alone.
pub map-update_rows {ℓ} :
    {A : Type ℓ} (g : Job → A) (p : Job → Bool) (f : Job → Job) (js : List Job)
    → ((j : Job) → g (f j) ≡ g j)
    → map g (update_rows p f js) ≡ map g js
unfolding update_rows
map-update_rows g p f [] h = refl
map-update_rows g p f (j ∷ js) h = elim (Bool-cases (p j)) [
  | inl e ↦ rw e (rw (h j) (ap (◌∷◌ (g j)) (map-update_rows g p f js h)))
  | inr e ↦ rw e (ap (◌∷◌ (g j)) (map-update_rows g p f js h))
]

-- A transaction ends in its own store with the constraints met, or in the store it began with.
pub commit-keeps {ℓ} :
    {A : Type 0} (P : Store → Type ℓ) (s : Store) (r : Result (A × Store))
    → P s
    → ((a : A) (s' : Store) → r ≡ ok (a, s') → schema_check s'.jobs ≡ true → P s')
    → P (commit s r).1
unfolding commit
commit-keeps P s (err e) h k = h
commit-keeps P s (ok (a, s')) h k = elim (Bool-cases (schema_check s'.jobs)) [
  | inl good ↦ rw good (k a s' refl good)
  | inr bad ↦ rw bad h
]

-- A committed value is the body's, and its store the body's.
pub commit-ok :
    {A : Type 0} (s : Store) (r : Result (A × Store)) (a : A)
    → (commit s r).0 ≡ ok a
    → r ≡ ok (a, (commit s r).1)
unfolding commit
commit-ok s (err e) a h = ground arith
commit-ok s (ok (b, s')) a h = ground arith

-- An update that touches no row changes nothing.
pub update_rows-zero :
    (p : Job → Bool) (f : Job → Job) (js : List Job) → count p js ≡ 0 → update_rows p f js ≡ js
unfolding update_rows count
update_rows-zero p f [] h = refl
update_rows-zero p f (j ∷ js) h = elim (Bool-cases (p j)) [
  | inl hit ↦ absurd (ground arith)
  | inr miss ↦ rw miss (ap (◌∷◌ j) (update_rows-zero p f js (ground arith)))
]

pub All-zero {ℓ} :
    (P : Job → Type ℓ) (p : Job → Bool) (f : Job → Job) (js : List Job)
    → count p js ≡ 0
    → All P js
    → All P (update_rows p f js)
All-zero P p f js e h = subst (All P) (sym (update_rows-zero p f js e)) h

-- An update whose every touched row keeps `P`.
pub All-guarded {ℓ} :
    (P : Job → Type ℓ) (p : Job → Bool) (f : Job → Job) (js : List Job)
    → ((j : Job) → p j ≡ true → P j → P (f j))
    → All P js
    → All P (update_rows p f js)
unfolding update_rows
All-guarded P p f [] k h = tt
All-guarded P p f (j ∷ js) k h = (step (p j) refl, All-guarded P p f js k h.1)
  where
    step : (b : Bool) → p j ≡ b → P (if b then f j else j)
    step true e = k j e h.0
    step false e = h.0
