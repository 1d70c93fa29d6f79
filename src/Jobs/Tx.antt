-- ===== src/Jobs/Tx.antt =====
-- Transactions on the tables, and the statements that jobs/repository.py executes in them.
-- A transaction is atomic: it commits if every statement succeeds and the constraints hold, and
-- rolls back if one raises. A refused constraint is an `SQLAlchemyError`, which every method turns
-- into `TranscriptionJobStoreUnavailableError`.
pub mod Updates
pub mod Chains
pub mod Order
pub mod Promises
use textify.Prelude.{
  ℕ, zero, suc, ◌+◌, Bool, true, false, ◌&&◌, ◌||◌, not, ◌≡◌, Option, none, some, List, [], ◌∷◌,
  ◌++◌, map, ◌==◌, ltb, leb, select, count, take, if◌then◌else◌, length,
}
use textify.Jobs.Types.{Error, store_unavailable, Result, ok, err}
use textify.Jobs.Schema.{Job, schema_check}

-- The tables, and the next value of the identity column.
pub record Store : Type 0 where
  pub jobs : List Job
  pub next_id : ℕ

abbrev pub Tx : Type 0 → Type 0
Tx A = Store → Result (A × Store)

infixl 5 ◌>>=◌ ◌>>◌
abbrev pub ◌>>=◌ : {A B : Type 0} → Tx A → (A → Tx B) → Tx B
◌>>=◌ m f s = elim (m s) [ ok (a, s') ↦ f a s' | err e ↦ err e ]

abbrev pub ◌>>◌ : {A B : Type 0} → Tx A → Tx B → Tx B
m >> k = m >>= λ _. k

abbrev pub pure : {A : Type 0} → A → Tx A
pure a s = ok (a, s)

abbrev pub raise : {A : Type 0} → Error → Tx A
raise e s = err e

abbrev pub lift : {A : Type 0} → Result A → Tx A
lift (ok a) s = ok (a, s)
lift (err e) s = err e

-- `async with self._engine.begin()`, committed or rolled back
unfoldable pub commit : {A : Type 0} → Store → Result (A × Store) → Result A × Store
commit s (err e) = (err e, s)
commit s (ok (a, s')) = if schema_check s'.jobs then (ok a, s') else (err store_unavailable, s)

unfoldable pub transaction : {A : Type 0} → Tx A → Store → Result A × Store
unfolding commit
transaction m s = commit s (m s)

-- The rows of an UPDATE ... WHERE: `f` at each row that passes `p`.
unfoldable pub update_rows : (Job → Bool) → (Job → Job) → List Job → List Job
update_rows p f [] = []
update_rows p f (j ∷ js) = (if p j then f j else j) ∷ update_rows p f js

-- UPDATE ... WHERE, with its `rowcount`
unfoldable pub update_where : (Job → Bool) → (Job → Job) → Tx ℕ
update_where p f s = ok (count p s.jobs, record s { jobs = update_rows p f s.jobs })

-- UPDATE ... WHERE ... RETURNING: the new rows
unfoldable pub update_returning : (Job → Bool) → (Job → Job) → Tx (List Job)
update_returning p f s = ok (map f (select p s.jobs), record s { jobs = update_rows p f s.jobs })

-- SELECT ... WHERE
unfoldable pub select_where : (Job → Bool) → Tx (List Job)
select_where p s = ok (select p s.jobs, s)

-- `.one_or_none()`: more than one row is an error.
unfoldable pub one_or_none : List Job → Result (Option Job)
one_or_none [] = ok none
one_or_none (j ∷ []) = ok (some j)
one_or_none (j ∷ k ∷ js) = err store_unavailable

unfoldable pub select_one : (Job → Bool) → Tx (Option Job)
unfolding one_or_none
select_one p s = lift (one_or_none (select p s.jobs)) s

-- DELETE ... WHERE; the child rows go with their job.
unfoldable pub delete_where : (Job → Bool) → Tx (Unit {0})
delete_where p s = ok (tt, record s { jobs = select (λ j. not (p j)) s.jobs })

-- ORDER BY (a, b): by `a`, then by `b`
unfoldable pub sorted_before : (Job → ℕ) → (Job → ℕ) → Job → Job → Bool
sorted_before a b j k = ltb (a j) (a k) || (a j == a k && leb (b j) (b k))

unfoldable pub insert_sorted : (Job → Job → Bool) → Job → List Job → List Job
insert_sorted le j [] = j ∷ []
insert_sorted le j (k ∷ ks) =
    let rest = insert_sorted le j ks in if le j k then j ∷ k ∷ ks else k ∷ rest

unfoldable pub order_by : (Job → Job → Bool) → List Job → List Job
order_by le [] = []
order_by le (j ∷ js) = insert_sorted le j (order_by le js)
