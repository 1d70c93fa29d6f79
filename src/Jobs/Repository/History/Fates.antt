-- ===== src/Jobs/Repository/History/Fates.antt =====
-- What becomes of a job over every history of calls.
use textify.Prelude.{ℕ, List, In, inl, inr, ◌⊎◌, subst, sym, refl}
use textify.Jobs.Schema.{Job}
use textify.Jobs.Tx.{Store}
use textify.Jobs.Repository.Policy.{Policy}
use textify.Jobs.Repository.Steps.{Call, Reach, here, next}
use textify.Jobs.Repository.Invariant.{Inv}
use textify.Jobs.Repository.Lifecycle.{Retires, Evolves, done, keep, drop}
use textify.Jobs.Repository.Lifecycle.Refinement.{after-Evolves}
use textify.Jobs.Repository.History.Invariance.{Reach-Inv}
use textify.Jobs.Repository.History.Following.{Follows, Follows-refl, Follows-trans, Move-Follows}

-- A call that may remove a row of the store that it runs on, a row with the property `P`.
pub record RemovedBy (p : Policy) (P : Job → Type 0) (c : Call) (s : Store) : Type 0 where
  pub row : Job
  pub member : In row s.jobs
  pub was : P row
  pub retires : Retires p c row

-- In this history a cleanup ran on a store where a row with the property `P` stood, past its
-- retention at the clock reading of that cleanup.
unfoldable pub Removal : {p : Policy} {s t : Store} → (Job → Type 0) → Reach p s t → Type 0
Removal P here = ⊥
Removal {p = p} P (next {t = t} r c) = RemovedBy p P c t ⊎ Removal P r

pub Removal-map :
    {p : Policy} {s t : Store} (P Q : Job → Type 0) (r : Reach p s t)
    → ((j : Job) → P j → Q j)
    → Removal P r
    → Removal Q r
unfolding Removal
Removal-map P Q here f h = elim h [ ]
Removal-map P Q (next r c) f (inl b) =
    inl (record { row = b.row; member = b.member; was = f b.row b.was; retires = b.retires })
Removal-map P Q (next r c) f (inr h) = inr (Removal-map P Q r f h)

-- The row still stands, as it has become; or a cleanup of this history removed what it had become.
pub data Fate {p : Policy} {s t : Store} (j : Job) (r : Reach p s t) : Type 0 where
  stands : (k : Job) → In k t.jobs → Follows j k → Fate j r
  removed : Removal (Follows j) r → Fate j r

Evolves-Fate :
    (p : Policy) {free : ℕ} {gone : Job → Type 0} {js ks : List Job} (j : Job)
    → Evolves p free gone js ks
    → In j js
    → ((k : Job) × In k ks × Follows j k) ⊎ gone j
Evolves-Fate p j (done ks fresh few) i = elim i [ ]
Evolves-Fate p j (keep a k m e) (inl q) =
    inl (k, inl refl, subst (λ x. Follows x k) (sym q) (Move-Follows m))
Evolves-Fate p j (keep a k m e) (inr i) = elim (Evolves-Fate p j e i) [
  | inl (l, n, f) ↦ inl (l, inr n, f)
  | inr g ↦ inr g
]
Evolves-Fate p {gone = gone} j (drop a old e) (inl q) = inr (subst gone (sym q) old)
Evolves-Fate p j (drop a old e) (inr i) = Evolves-Fate p j e i

next-Fate :
    (p : Policy) {s t : Store} (j : Job) (c : Call) (r : Reach p s t)
    → Inv t
    → Fate j r
    → Fate j (next r c)
unfolding Removal
next-Fate p {s} {t} j c r v (stands k i f) = elim (Evolves-Fate p k (after-Evolves p c t v) i) [
  | inl (l, n, g) ↦ stands l n (Follows-trans f g)
  | inr old ↦ removed (inl (record { row = k; member = i; was = f; retires = old }))
]
next-Fate p j c r v (removed h) = removed (inr h)

-- From a store that satisfies the invariant, after every history of repository calls, every job of
-- that store either still stands in the tables, or a cleanup of this very history ran while it stood
-- there, finished and past its retention at the clock reading of the cleanup; and its last row
-- follows its first: the same identifiers, submitted URL, exclusions, idempotency key, times of
-- admission and execution attempt token; a status that is the same or later; if it was finished,
-- every column the same but those of the attempt; and if a cancellation was accepted, that
-- cancellation or its outcome.
pub Reach-Fate :
    (p : Policy) {s t : Store} (j : Job) (r : Reach p s t) → Inv s → In j s.jobs → Fate j r
Reach-Fate p j here v i = stands j i (Follows-refl j)
Reach-Fate p j (next {t} r c) v i = next-Fate p j c r (Reach-Inv p r v) (Reach-Fate p j r v i)
