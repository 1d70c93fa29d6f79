-- ===== src/Jobs/Repository/Recovery.antt =====
-- `recover_expired_claims` and `delete_expired_terminal_jobs` of jobs/repository.py.
use textify.Prelude.{
  ℕ, ◌+◌, Bool, false, ◌&&◌, not, none, some, List, [], ◌∷◌, ◌++◌, ltb, leb, ◌==◌, null_le, select,
  take, length, map, contains, if◌then◌else◌,
}
use textify.Errors.{worker_interrupted}
use textify.Jobs.Types.{
  is_processing, is_finished, finished, cancelled, store_unavailable, value_error, Result, err,
}
use textify.Jobs.Schema.{Job}
use textify.Jobs.Tx.{
  Store, Tx, ◌>>=◌, pure, raise, transaction, update_where, delete_where, order_by, sorted_before,
}
use textify.Jobs.Repository.Policy.{Policy, with_attempt, set_attempt, fail_with, cleared}

-- status = 'processing' AND claim_lease_expires_at <= now
unfoldable pub is_lost : ℕ → Job → Bool
unfolding is_processing with_attempt
is_lost now j = is_processing j.status && with_attempt (λ a. null_le a.claim_lease_expires_at now) j

-- The lease of a job that is selected, for the order.
unfoldable pub lease_end : Job → ℕ
lease_end j = elim j.attempt [
  | none ↦ 0
  | some a ↦ elim a.claim_lease_expires_at [ none ↦ 0 | some t ↦ t ]
]

-- ORDER BY claim_lease_expires_at, id LIMIT limit
unfoldable pub lost_rows : ℕ → ℕ → Store → List Job
unfolding is_lost lease_end
lost_rows now limit s =
    take limit (order_by (sorted_before lease_end (λ j. j.id)) (select (is_lost now) s.jobs))

abbrev pub requested : Job → Bool
requested j = j.cancellation_requested

abbrev pub unrequested : Job → Bool
unrequested j = not j.cancellation_requested

abbrev pub finish_cancelled : ℕ → Job → Job
finish_cancelled now j = record j {
  status = finished;
  outcome = some cancelled;
  finished_at = some now;
}

-- `WorkerInterruptedError`
unfoldable pub interrupt : ℕ → Job → Job
unfolding fail_with
interrupt = fail_with worker_interrupted "The transcription job was interrupted before completion."

-- A transition of the listed jobs that has to reach each of them.
unfoldable pub transition_all : List ℕ → (Job → Bool) → (Job → Job) → Tx ℕ
unfolding update_where is_processing
transition_all [] p f = pure 0
transition_all (i ∷ ids) p f = do
  rowcount ← update_where (λ j. contains j.id (i ∷ ids) && is_processing j.status && p j) f
  if rowcount == length (i ∷ ids) then pure rowcount else raise store_unavailable

unfoldable pub clear_claims : List ℕ → ℕ → ℕ → Tx ℕ
unfolding update_where set_attempt with_attempt
clear_claims ids now transitioned = do
  rowcount ←
      update_where
        (λ j. contains j.id ids && with_attempt (λ a. null_le a.claim_lease_expires_at now) j)
        (set_attempt cleared)
  if rowcount == transitioned then pure transitioned else raise store_unavailable

unfoldable pub recover_ids : List ℕ → List ℕ → ℕ → Tx ℕ
unfolding transition_all clear_claims interrupt
recover_ids cancelled_ids interrupted_ids now = do
  m ← transition_all cancelled_ids requested (finish_cancelled now)
  n ← transition_all interrupted_ids unrequested (interrupt now)
  clear_claims (cancelled_ids ++ interrupted_ids) now (m + n)

unfoldable pub recover_rows : ℕ → List Job → Tx ℕ
unfolding recover_ids
recover_rows now [] = pure 0
recover_rows now (r ∷ rs) =
    recover_ids (map (λ j. j.id) (select requested (r ∷ rs)))
      (map (λ j. j.id) (select unrequested (r ∷ rs))) now

unfoldable pub recover_expired_claims : ℕ → ℕ → Store → Result ℕ × Store
unfolding recover_rows lost_rows transaction
recover_expired_claims limit now s =
    if ltb 0 limit
    then transaction (recover_rows now (lost_rows now limit s)) s
    else (err value_error, s)

-- status = 'finished' AND finished_at <= now - terminal_retention, the retention moved over
unfoldable pub is_retired : Policy → ℕ → Job → Bool
unfolding is_finished
is_retired p now j =
    is_finished j.status
    && elim j.finished_at [ none ↦ false | some t ↦ leb (t + p.terminal_retention) now ]

unfoldable pub delete_expired_terminal_jobs : Policy → ℕ → Store → Result (Unit {0}) × Store
unfolding delete_where is_retired transaction
delete_expired_terminal_jobs p now s = transaction (delete_where (is_retired p now)) s
