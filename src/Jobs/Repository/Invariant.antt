-- ===== src/Jobs/Repository/Invariant.antt =====
-- What holds of the tables between two transactions, beyond the constraints of the schema.
pub mod Sound
use textify.Prelude.{
  ℕ, suc, ◌+◌, ◌<◌, Bool, true, false, ◌&&◌, not, ◌≡◌, Option, none, some, List, [], ◌∷◌, is_some,
  All,
}
use textify.Jobs.Types.{JobStatus, is_processing, is_finished}
use textify.Jobs.Schema.{Attempt, Job, schema_check}
use textify.Jobs.Tx.{Store}
use textify.Jobs.Rows.{is_succeeded}
use textify.Jobs.Repository.Policy.{with_attempt}

-- Every job has its attempt and its key; exactly the processing jobs are owned by a worker; exactly
-- the succeeded jobs have a result.
pub record IsSound (j : Job) : Type 0 where
  pub attempted : is_some j.attempt ≡ true
  pub keyed : is_some j.idempotency_key ≡ true
  pub owned : with_attempt (λ a. is_some a.worker_owner) j ≡ is_processing j.status
  pub resulted : is_some j.result ≡ is_succeeded j.outcome
  pub unfinished : is_finished j.status ≡ is_some j.outcome

pub record Inv (s : Store) : Type 0 where
  pub schema : schema_check s.jobs ≡ true
  pub sound : All IsSound s.jobs
