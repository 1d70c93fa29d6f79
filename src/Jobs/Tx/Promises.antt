-- ===== src/Jobs/Tx/Promises.antt =====
-- What the body of a transaction promises of its value and of the tables it leaves.
use textify.Prelude.{
  Bool, true, false, ◌≡◌, refl, subst, Option, none, some, List, [], ◌∷◌, All, In, select,
  All-select, select-All, if◌then◌else◌,
}
use textify.Jobs.Types.{Result, ok, err}
use textify.Jobs.Schema.{Job}
use textify.Jobs.Tx.{Store, Tx, ◌>>=◌, ◌>>◌, lift, select_one, one_or_none, commit}
use textify.Jobs.Tx.Updates.{commit-ok}
use textify.Jobs.Tx.Order.{members}

one_or_none-All :
    (P : Job → Type 0) (rows : List Job) (j : Job)
    → All P rows
    → one_or_none rows ≡ ok (some j)
    → P j
unfolding one_or_none
one_or_none-All P [] j h e = cc e
one_or_none-All P (k ∷ []) j h e = subst P (cc e) h.0
one_or_none-All P (k ∷ l ∷ ks) j h e = cc e

-- A row that a SELECT of one row finds.
pub found :
    (test : Job → Bool) (js : List Job) (j : Job)
    → one_or_none (select test js) ≡ ok (some j)
    → In j js × (test j ≡ true)
found test js j e = (
  one_or_none-All (λ r. In r js) (select test js) j (All-select _ test js (members js)) e,
  one_or_none-All (λ r. test r ≡ true) (select test js) j (select-All test js) e,
)

abbrev pub Gives {ℓ} : {A : Type 0} → (A → Store → Type ℓ) → Result (A × Store) → Type ℓ
Gives Q (ok (a, t)) = Q a t
Gives Q (err e) = Unit

pub Gives-if {ℓ} :
    {A : Type 0} (Q : A → Store → Type ℓ) (b : Bool) (m n : Tx A) (s : Store)
    → (b ≡ true → Gives Q (m s))
    → (b ≡ false → Gives Q (n s))
    → Gives Q ((if b then m else n) s)
Gives-if Q true m n s hm hn = hm refl
Gives-if Q false m n s hm hn = hn refl

pub Gives-lift {ℓ} :
    {A B : Type 0} (Q : B → Store → Type ℓ) (r : Result A) (f : A → Tx B) (s : Store)
    → ((a : A) → r ≡ ok a → Gives Q (f a s))
    → Gives Q ((lift r >>= f) s)
Gives-lift Q (ok a) f s h = h a refl
Gives-lift Q (err e) f s h = tt

-- A SELECT of one row: none, or a row of the table that passes the test.
pub Gives-select_one {ℓ} :
    {B : Type 0} (Q : B → Store → Type ℓ) (test : Job → Bool) (f : Option Job → Tx B) (s : Store)
    → Gives Q (f none s)
    → ((j : Job) → In j s.jobs → test j ≡ true → Gives Q (f (some j) s))
    → Gives Q ((select_one test >>= f) s)
unfolding select_one
Gives-select_one Q test f s hn hj = Gives-lift Q (one_or_none (select test s.jobs)) f s go
  where
    go : (o : Option Job) → one_or_none (select test s.jobs) ≡ ok o → Gives Q (f o s)
    go none e = hn
    go (some j) e = let (i, k) = found test s.jobs j e in hj j i k

-- A method that returned a value committed it.
pub Gives-commit {ℓ} :
    {A : Type 0} (Q : A → Store → Type ℓ) (s : Store) (r : Result (A × Store)) (a : A)
    → Gives Q r
    → (commit s r).0 ≡ ok a
    → Q a (commit s r).1
Gives-commit Q s r a h e = subst (Gives Q) (commit-ok s r a e) h

pub Gives-then {ℓ} :
    {A B : Type 0} (Q : B → Store → Type ℓ) (m : Tx A) (n : Tx B) (s : Store)
    → Gives (λ a t. Gives Q (n t)) (m s)
    → Gives Q ((m >> n) s)
Gives-then {A} {B} Q m n s h = go (m s) h
  where
    go :
        (r : Result (A × Store))
        → Gives (λ a t. Gives Q (n t)) r
        → Gives Q (elim r [ ok (a, t) ↦ n t | err e ↦ err e ])
    go (ok (a, t)) k = k
    go (err e) k = k

-- What holds of every value and all tables.
pub Gives-any {ℓ} :
    {A : Type 0} (Q : A → Store → Type ℓ) (r : Result (A × Store))
    → ((a : A) (t : Store) → Q a t)
    → Gives Q r
Gives-any Q (ok (a, t)) h = h a t
Gives-any Q (err e) h = tt

pub Gives-map {ℓ κ} :
    {A : Type 0} (P : A → Store → Type ℓ) (Q : A → Store → Type κ) (r : Result (A × Store))
    → ((a : A) (t : Store) → P a t → Q a t)
    → Gives P r
    → Gives Q r
Gives-map P Q (ok (a, t)) f h = f a t h
Gives-map P Q (err e) f h = tt

pub Gives-bind {ℓ} :
    {A B : Type 0} (Q : B → Store → Type ℓ) (m : Tx A) (f : A → Tx B) (s : Store)
    → Gives (λ a t. Gives Q (f a t)) (m s)
    → Gives Q ((m >>= f) s)
Gives-bind {A} {B} Q m f s h = go (m s) h
  where
    go :
        (r : Result (A × Store))
        → Gives (λ a t. Gives Q (f a t)) r
        → Gives Q (elim r [ ok (a, t) ↦ f a t | err e ↦ err e ])
    go (ok (a, t)) k = k
    go (err e) k = k
