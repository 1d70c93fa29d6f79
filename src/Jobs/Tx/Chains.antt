-- ===== src/Jobs/Tx/Chains.antt =====
-- Chains of updates in one transaction, and postconditions of its body.
use mathlib.Core.Path.{ap₂}
use textify.Prelude.{
  Bool, true, false, ◌≡◌, refl, sym, ◌∙◌, subst, Option, List, [], ◌∷◌, select, count, All,
  Bool-cases, if◌then◌else◌, count-eq, All-map, All-zip, inl, inr,
}
use textify.Jobs.Types.{Result, ok, err}
use textify.Jobs.Schema.{Job}
use textify.Jobs.Tx.{Store, Tx, ◌>>=◌, ◌>>◌, pure, lift, select_one, update_rows, one_or_none}
use textify.Jobs.Tx.Updates.{patch, All-update_rows, count-update_rows, update_rows-zero}

-- An update that touches as many rows as the one before it, and every row of that one, touches
-- those rows alone.
pub second-agrees :
    (p q : Job → Bool) (f : Job → Job) (js : List Job)
    → All (λ j. p j ≡ true → q (f j) ≡ true) js
    → count p js ≡ count q (update_rows p f js)
    → All (λ j. q (patch p f j) ≡ true → p j ≡ true) js
second-agrees p q f js h e =
    count-eq p (λ j. q (patch p f j)) js
      (All-map (λ j. p j ≡ true → q (f j) ≡ true) (λ j. p j ≡ true → q (patch p f j) ≡ true)
        (λ j k hit. rw hit (k hit)) js h)
      (e ∙ count-update_rows q p f js)

-- Two updates, the second of the rows of the first.
pub All-two_updates {ℓ} :
    (P : Job → Type ℓ) (p q : Job → Bool) (f g : Job → Job) (js : List Job)
    → All (λ j. p j ≡ true → q (f j) ≡ true) js
    → count p js ≡ count q (update_rows p f js)
    → All (λ j. P j × (p j ≡ true → P (g (f j)))) js
    → All P (update_rows q g (update_rows p f js))
All-two_updates P p q f g js h e k = All-update_rows P q g (update_rows p f js) (
    All-update_rows (λ j. P (patch q g j)) p f js
      (All-map _ _ step js (All-zip _ _ js h (All-zip _ _ js (second-agrees p q f js h e) k))))
  where
    step :
        (j : Job)
        → ((p j ≡ true → q (f j) ≡ true)
            × ((q (patch p f j) ≡ true → p j ≡ true) × (P j × (p j ≡ true → P (g (f j))))))
        → P (patch q g (patch p f j))
    step j (hits, (back, (keep, move))) = elim (Bool-cases (p j)) [
      | inl hit ↦ rw hit (rw (hits hit) (move hit))
      | inr miss ↦ elim (Bool-cases (q j)) [
        | inl bad ↦ rw miss (rw bad (cc (back (rw miss bad), miss)))
        | inr out ↦ rw miss (rw out keep)
      ]
    ]

-- The postcondition of a body that commits.
abbrev pub After {ℓ} : {A : Type 0} → (Store → Type ℓ) → Result (A × Store) → Type ℓ
After P (ok (a, s')) = P s'
After P (err e) = Unit

pub After-if {ℓ} :
    {A : Type 0} (P : Store → Type ℓ) (b : Bool) (m n : Tx A) (s : Store)
    → (b ≡ true → After P (m s))
    → (b ≡ false → After P (n s))
    → After P ((if b then m else n) s)
After-if P true m n s hm hn = hm refl
After-if P false m n s hm hn = hn refl

pub After-lift {ℓ} :
    {A B : Type 0} (P : Store → Type ℓ) (r : Result A) (f : A → Tx B) (s : Store)
    → ((a : A) → r ≡ ok a → After P (f a s))
    → After P ((lift r >>= f) s)
After-lift P (ok a) f s h = h a refl
After-lift P (err e) f s h = tt

pub After-select_one {ℓ} :
    {B : Type 0} (P : Store → Type ℓ) (p : Job → Bool) (f : Option Job → Tx B) (s : Store)
    → ((row : Option Job) → one_or_none (select p s.jobs) ≡ ok row → After P (f row s))
    → After P ((select_one p >>= f) s)
unfolding select_one
After-select_one P p f s h = After-lift P (one_or_none (select p s.jobs)) f s h

pub After-ok {ℓ} :
    {A : Type 0} (P : Store → Type ℓ) (r : Result (A × Store)) (a : A) (s' : Store)
    → After P r
    → r ≡ ok (a, s')
    → P s'
After-ok P r a s' h e = subst (After P) e h

-- A body that goes on with a value keeps the tables.
pub After-then {ℓ} :
    {A B : Type 0} (P : Store → Type ℓ) (m : Tx A) (b : B) (s : Store)
    → After P (m s)
    → After P ((m >> pure b) s)
After-then {A} {B} P m b s h = go (m s) h
  where
    go :
        (r : Result (A × Store))
        → After P r
        → After P (elim r [ ok (a, s') ↦ ok (b, s') | err e ↦ err e ])
    go (ok (a, s')) k = k
    go (err e) k = k

-- An update that touches no row.
pub unchanged {ℓ} :
    (P : Store → Type ℓ) (p : Job → Bool) (f : Job → Job) (s : Store)
    → count p s.jobs ≡ 0
    → P s
    → P (record s { jobs = update_rows p f s.jobs })
unchanged P p f s e h =
    subst (λ js. P (record s { jobs = js })) (sym (update_rows-zero p f s.jobs e)) h

-- Two updates of the same rows are one update.
pub update_rows-merge :
    (p q : Job → Bool) (f g : Job → Job) (js : List Job)
    → All (λ j. p j ≡ true → q (f j) ≡ true) js
    → count p js ≡ count q (update_rows p f js)
    → update_rows q g (update_rows p f js) ≡ update_rows p (λ j. g (f j)) js
unfolding update_rows
update_rows-merge p q f g js h e = go js h (second-agrees p q f js h e)
  where
    row :
        (j : Job)
        → (p j ≡ true → q (f j) ≡ true)
        → (q (patch p f j) ≡ true → p j ≡ true)
        → patch q g (patch p f j) ≡ patch p (λ k. g (f k)) j
    row j hits back = elim (Bool-cases (p j)) [
      | inl hit ↦ rw hit (rw (hits hit))
      | inr miss ↦ elim (Bool-cases (q j)) [
        | inl bad ↦ cc (back (rw miss bad), miss)
        | inr out ↦ rw miss (rw out)
      ]
    ]

    go :
        (ks : List Job)
        → All (λ j. p j ≡ true → q (f j) ≡ true) ks
        → All (λ j. q (patch p f j) ≡ true → p j ≡ true) ks
        → update_rows q g (update_rows p f ks) ≡ update_rows p (λ j. g (f j)) ks
    go [] a b = refl
    go (k ∷ ks) a b = ap₂ ◌∷◌ (row k a.0 b.0) (go ks a.1 b.1)

pub After-bind {ℓ} :
    {A B : Type 0} (P : Store → Type ℓ) (m : Tx A) (f : A → Tx B) (s : Store)
    → After (λ s'. (a : A) → After P (f a s')) (m s)
    → After P ((m >>= f) s)
After-bind {A} {B} P m f s h = go (m s) h
  where
    go :
        (r : Result (A × Store))
        → After (λ s'. (a : A) → After P (f a s')) r
        → After P (elim r [ ok (a, s') ↦ f a s' | err e ↦ err e ])
    go (ok (a, s')) k = k a
    go (err e) k = k

pub After-map {ℓ κ} :
    {A : Type 0} (P : Store → Type ℓ) (Q : Store → Type κ) (r : Result (A × Store))
    → ((s : Store) → P s → Q s)
    → After P r
    → After Q r
After-map P Q (ok (a, s)) f h = f s h
After-map P Q (err e) f h = tt

-- A value or an error, with the tables as they are.
pub After-value {ℓ} :
    {A : Type 0} (P : Store → Type ℓ) (r : Result A) (s : Store) → P s → After P (lift r s)
After-value P (ok a) s h = h
After-value P (err e) s h = tt
