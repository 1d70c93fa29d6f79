-- ===== src/Jobs/Repository/History/Invariance.antt =====
-- The invariant over every history of calls.
use textify.Prelude.{refl, all, [], ℕ}
use textify.Jobs.Schema.{schema_check, unique, tokens, keys}
use textify.Jobs.Tx.{Store}
use textify.Jobs.Repository.Policy.{Policy}
use textify.Jobs.Repository.Steps.{Call, after, Reach, here, next}
use textify.Jobs.Repository.Invariant.{Inv}
use textify.Jobs.Repository.Lifecycle.Refinement.{after-Evolves}
use textify.Jobs.Repository.History.Moves.{Evolves-IsSound}
use textify.Jobs.Repository.History.Constraints.{after-Met}

pub after-Inv : (p : Policy) (c : Call) (s : Store) → Inv s → Inv (after p c s)
after-Inv p c s v = record {
  schema = after-Met p c s v.schema;
  sound = Evolves-IsSound p (after-Evolves p c s v) v.sound;
}

-- From a store that satisfies the invariant, every history of repository calls by any processes,
-- with any arguments and clock readings, and with outages, leads to a store that satisfies it: the
-- schema's constraints hold; every job has its attempt and its idempotency key; exactly the
-- processing jobs have an attempt owned by a worker; exactly the succeeded jobs have a stored
-- result; exactly the finished jobs have an outcome.
pub Reach-Inv : (p : Policy) {s t : Store} → Reach p s t → Inv s → Inv t
Reach-Inv p here v = v
Reach-Inv p (next {t} r c) v = after-Inv p c t (Reach-Inv p r v)

-- The empty tables satisfy the invariant.
pub empty-Inv : (n : ℕ) → Inv (record { jobs = []; next_id = n })
unfolding schema_check tokens keys unique all
empty-Inv n = record { schema = refl; sound = tt }
