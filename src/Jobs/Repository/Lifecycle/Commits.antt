-- ===== src/Jobs/Repository/Lifecycle/Commits.antt =====
-- What a call does to the rows, from what the body of its transaction does.
use textify.Prelude.{Bool, true, false, ◌≡◌, refl, if◌then◌else◌}
use textify.Jobs.Types.{value_error, Result, err}
use textify.Jobs.Tx.{Store, commit}
use textify.Jobs.Tx.Updates.{commit-keeps}
use textify.Jobs.Tx.Chains.{After, After-ok}
use textify.Jobs.Repository.Policy.{Policy}
use textify.Jobs.Repository.Lifecycle.{Never, Evolves, Evolves-refl, room}

-- The rows of `s` have evolved to those of the other store.
abbrev pub Evolved : Policy → Store → Store → Type 0
Evolved p s t = Evolves p (room p s) Never s.jobs t.jobs

pub Evolved-refl : (p : Policy) (s : Store) → Evolved p s s
Evolved-refl p s = Evolves-refl p s.jobs

module _ {A : Type 0} (p : Policy) where
  pub commit-Evolved :
      (s : Store) (r : Result (A × Store)) → After (Evolved p s) r → Evolved p s (commit s r).1
  commit-Evolved s r h =
      commit-keeps (Evolved p s) s r (Evolves-refl p s.jobs)
        (λ a t e _. After-ok (Evolved p s) r a t h e)

  -- A method that checks its arguments first.
  pub guarded-Evolved :
      (b : Bool) (s : Store) (r : Result (A × Store))
      → (b ≡ true → After (Evolved p s) r)
      → Evolved p s (if b then commit s r else (err value_error, s)).1
  guarded-Evolved true s r h = commit-Evolved s r (h refl)
  guarded-Evolved false s r h = Evolves-refl p s.jobs
