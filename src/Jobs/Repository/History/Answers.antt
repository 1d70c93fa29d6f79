-- ===== src/Jobs/Repository/History/Answers.antt =====
-- What callers are told over time: the answers of `get_job` and of a repeated `create_queued`.
use textify.Prelude.{ℕ, ◌≡◌, true, refl, ap, sym, ◌∙◌, Option, none, some, In, ◌⊎◌, inl, inr}
use textify.Jobs.Types.{
  JobStatus, queued, processing, finished, is_finished, JobOutcome, succeeded, failed, cancelled,
}
use textify.Jobs.Schema.{Attempt, ResultRow, Job}
use textify.Jobs.Schema.Lookup.{find_public_id}
use textify.Jobs.Rows.{
  accepted_job_from_row, load_exclusions, succeeded_job_from_rows, public_id_from_row,
  failed_job_from_row, cancelled_job_from_row, queued_job_from_row, processing_job_from_row,
}
use textify.Jobs.Tx.{Store}
use textify.Jobs.Repository.Policy.{Policy, terminal_job_is_expired}
use textify.Jobs.Repository.Reading.{
  get_job, snapshot_of_row, snapshot_by_status, finished_snapshot, succeeded_snapshot,
}
use textify.Jobs.Repository.Steps.{Reach}
use textify.Jobs.Repository.Invariant.{Inv}
use textify.Jobs.Repository.History.Invariance.{Reach-Inv}
use textify.Jobs.Repository.History.Fates.{Fate, stands, removed, Removal, Removal-map, Reach-Fate}
use textify.Jobs.Repository.History.Following.{Follows}

-- A read of a job's public identifier answers from its row.
pub get_job-row :
    (p : Policy) (now : ℕ) (j : Job) (s : Store)
    → Inv s
    → In j s.jobs
    → get_job p j.public_id now s ≡ snapshot_of_row p now (some j)
unfolding get_job
get_job-row p now j s v i = rw (find_public_id j s.jobs v.schema i) refl

-- No answer depends on the attempt.
module _ (j : Job) (a : Option Attempt) where
  abbrev other : Job
  other = record j { attempt = a }

  succeeded-attempt : (r : Option ResultRow) → succeeded_snapshot r other ≡ succeeded_snapshot r j
  unfolding succeeded_snapshot load_exclusions succeeded_job_from_rows public_id_from_row
  succeeded-attempt none = refl
  succeeded-attempt (some r) = refl

  finished-attempt : (o : Option JobOutcome) → finished_snapshot o other ≡ finished_snapshot o j
  unfolding finished_snapshot failed_job_from_row cancelled_job_from_row public_id_from_row
  finished-attempt none = refl
  finished-attempt (some failed) = refl
  finished-attempt (some cancelled) = refl
  finished-attempt (some succeeded) = succeeded-attempt j.result

  status-attempt : (x : JobStatus) → snapshot_by_status x other ≡ snapshot_by_status x j
  unfolding snapshot_by_status queued_job_from_row accepted_job_from_row processing_job_from_row
      public_id_from_row
  status-attempt queued = refl
  status-attempt processing = refl
  status-attempt finished = finished-attempt j.outcome

  snapshot-attempt :
      (p : Policy) (now : ℕ) → snapshot_of_row p now (some other) ≡ snapshot_of_row p now (some j)
  unfolding snapshot_of_row terminal_job_is_expired
  snapshot-attempt p now = rw (status-attempt j.status) refl

-- Once a job is finished, every later read of it at the same clock reading gives the same answer,
-- whatever calls were made in between; unless a cleanup among those calls ran while a row of this
-- job stood past its retention, by the clock reading of the cleanup.
pub get_job-final :
    (p : Policy) {s t : Store} (j : Job) (now : ℕ) (r : Reach p s t)
    → Inv s
    → In j s.jobs
    → is_finished j.status ≡ true
    → (get_job p j.public_id now t ≡ get_job p j.public_id now s)
      ⊎ Removal (λ k. k ≡ record j { attempt = k.attempt }) r
get_job-final p {s} {t} j now r v i done = go (Reach-Fate p j r v i)
  where
    go :
        Fate j r
        → (get_job p j.public_id now t ≡ get_job p j.public_id now s)
          ⊎ Removal (λ k. k ≡ record j { attempt = k.attempt }) r
    go (stands k m f) =
        let e = f.final done in
        inl (
          ap (λ (x : Job). get_job p x.public_id now t) (sym e)
          ∙ get_job-row p now k t (Reach-Inv p r v) m
          ∙ ap (λ (x : Job). snapshot_of_row p now (some x)) e
          ∙ snapshot-attempt j k.attempt p now
          ∙ sym (get_job-row p now j s v i))
    go (removed h) = inr (
        Removal-map (Follows j) (λ k. k ≡ record j { attempt = k.attempt }) r (λ k f. f.final done)
          h)
