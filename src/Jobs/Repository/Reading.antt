-- ===== src/Jobs/Repository/Reading.antt =====
-- `get_job` of jobs/repository.py.
use textify.Prelude.{ℕ, Option, none, some, ◌==◌, select, if◌then◌else◌}
use textify.Jobs.Types.{
  Uuid, JobStatus, JobOutcome, queued, processing, finished, succeeded, failed, cancelled,
  TranscriptionJob, queued_job, processing_job, succeeded_job, failed_job, cancelled_job,
  store_unavailable, Result, ok, err, ◌>>=◌,
}
use textify.Jobs.Schema.{Job, ResultRow}
use textify.Jobs.Tx.{Store, one_or_none}
use textify.Jobs.Rows.{
  queued_job_from_row, processing_job_from_row, succeeded_job_from_rows, failed_job_from_row,
  cancelled_job_from_row, load_exclusions,
}
use textify.Jobs.Repository.Policy.{Policy, terminal_job_is_expired}

-- The segment rows come by their ordinal, which is the order in which they were inserted.
unfoldable pub succeeded_snapshot : Option ResultRow → Job → Result TranscriptionJob
unfolding succeeded_job_from_rows load_exclusions
succeeded_snapshot none j = err store_unavailable
succeeded_snapshot (some r) j = do
  exclusions ← load_exclusions j
  snapshot ← succeeded_job_from_rows j r r.segments exclusions
  ok (succeeded_job snapshot)

unfoldable pub finished_snapshot : Option JobOutcome → Job → Result TranscriptionJob
unfolding failed_job_from_row cancelled_job_from_row succeeded_snapshot
finished_snapshot (some failed) j = do snapshot ← failed_job_from_row j; ok (failed_job snapshot)
finished_snapshot (some cancelled) j = do
  snapshot ← cancelled_job_from_row j
  ok (cancelled_job snapshot)
finished_snapshot (some succeeded) j = succeeded_snapshot j.result j
finished_snapshot none j = err store_unavailable

unfoldable pub snapshot_by_status : JobStatus → Job → Result TranscriptionJob
unfolding queued_job_from_row processing_job_from_row finished_snapshot
snapshot_by_status queued j = do snapshot ← queued_job_from_row j; ok (queued_job snapshot)
snapshot_by_status processing j = do
  snapshot ← processing_job_from_row j
  ok (processing_job snapshot)
snapshot_by_status finished j = finished_snapshot j.outcome j

unfoldable pub snapshot_of_row : Policy → ℕ → Option Job → Result (Option TranscriptionJob)
unfolding terminal_job_is_expired snapshot_by_status
snapshot_of_row p now none = ok none
snapshot_of_row p now (some j) = do
  expired ← terminal_job_is_expired p now j
  if expired then ok none else (do snapshot ← snapshot_by_status j.status j; ok (some snapshot))

unfoldable pub get_job : Policy → Uuid → ℕ → Store → Result (Option TranscriptionJob)
unfolding one_or_none snapshot_of_row
get_job p public_id now s = do
  row ← one_or_none (select (λ j. j.public_id == public_id) s.jobs)
  snapshot_of_row p now row
