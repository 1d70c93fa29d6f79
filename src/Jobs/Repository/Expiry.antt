-- ===== src/Jobs/Repository/Expiry.antt =====
-- One sweep over the queue: how many overdue jobs it ends, and how many it leaves.
use textify.Prelude.{
  ℕ, suc, ◌+◌, ◌≤◌, some, Bool-cases, inl, inr, Bool, true, false, ◌&&◌, ◌≡◌, refl, List, [], ◌∷◌,
  select, take, length, count, contains, arith, if◌then◌else◌, ltb,
}
use textify.Errors.{queue_timeout}
use textify.Jobs.Types.{Result, ok, err, is_queued, value_error, finished, failed}
use textify.Jobs.Schema.{Job}
use textify.Jobs.Tx.{Store, update_rows, order_by, sorted_before, commit, transaction}
use textify.Jobs.Tx.Order.{length-take_le}
use textify.Jobs.Tx.Promises.{Gives, Gives-if, Gives-commit}
use textify.Jobs.Repository.Policy.{is_overdue, is_waiting, time_out, fail_with}
use textify.Jobs.Repository.Dispatching.{overdue_ids, ids_of, expire_ids, expire_queued_jobs}

-- A queued job that was overdue and not cancelled, and its row after its failure.
pub record TimedOut (now : ℕ) (j k : Job) : Type 0 where
  pub waiting : is_queued j.status ≡ true
  pub uncancelled : j.cancellation_requested ≡ false
  pub overdue : j.queue_deadline_at ≤ now
  pub ended : k ≡ record j {
    status = finished;
    outcome = some failed;
    finished_at = some now;
    error_code = some queue_timeout;
    error_message =
        some "The transcription job did not begin processing before its queue deadline.";
  }

-- So many rows timed out, and the others are as they were.
pub data Sweeps (now : ℕ) : List Job → List Job → ℕ → Type 0 where
  none_left : Sweeps now [] [] 0
  kept : {js ks : List Job} {n : ℕ} (j : Job) → Sweeps now js ks n → Sweeps now (j ∷ js) (j ∷ ks) n
  timed_out :
      {js ks : List Job} {n : ℕ} (j k : Job)
      → TimedOut now j k
      → Sweeps now js ks n
      → Sweeps now (j ∷ js) (k ∷ ks) (suc n)

-- At most `limit` jobs ended, no other row changed, and so many fewer are overdue.
pub record Swept (limit now : ℕ) (js : List Job) (n : ℕ) (ks : List Job) : Type 0 where
  pub bounded : n ≤ limit
  pub rows : Sweeps now js ks n
  pub fewer : count (is_overdue now) ks + n ≡ count (is_overdue now) js

abbrev named : List ℕ → ℕ → Job → Bool
named ids now j = contains j.id ids && is_overdue now j

ended : (now : ℕ) (j : Job) → is_overdue now (time_out now j) ≡ false
unfolding is_overdue is_waiting is_queued time_out fail_with
ended now j = refl

accounted :
    (ids : List ℕ) (now : ℕ) (js : List Job)
    → count (is_overdue now) (update_rows (named ids now) (time_out now) js)
        + count (named ids now) js
      ≡ count (is_overdue now) js
unfolding count update_rows
accounted ids now [] = refl
accounted ids now (j ∷ js) = ground (arith, accounted ids now js, ended now j)

named-TimedOut :
    (ids : List ℕ) (now : ℕ) (j : Job) → named ids now j ≡ true → TimedOut now j (time_out now j)
unfolding is_overdue is_waiting time_out fail_with
named-TimedOut ids now j h = record {
  waiting = ground (arith, h);
  uncancelled = ground (arith, h);
  overdue = ground (arith, h);
  ended = refl;
}

update_rows-Sweeps :
    (ids : List ℕ) (now : ℕ) (js : List Job)
    → Sweeps now js (update_rows (named ids now) (time_out now) js) (count (named ids now) js)
unfolding update_rows count
update_rows-Sweeps ids now [] = none_left
update_rows-Sweeps ids now (j ∷ js) = elim (Bool-cases (named ids now j)) [
  | inl hit ↦
      rw hit (
        timed_out j (time_out now j) (named-TimedOut ids now j hit) (update_rows-Sweeps ids now js))
  | inr miss ↦ rw miss (kept j (update_rows-Sweeps ids now js))
]

Sweeps-refl : (now : ℕ) (js : List Job) → Sweeps now js js 0
Sweeps-refl now [] = none_left
Sweeps-refl now (j ∷ js) = kept j (Sweeps-refl now js)

length-ids_of : (js : List Job) → length (ids_of js) ≡ length js
unfolding ids_of
length-ids_of [] = refl
length-ids_of (j ∷ js) = omega (arith, length-ids_of js)

overdue_ids-bound : (now limit : ℕ) (s : Store) → length (overdue_ids now limit s) ≤ limit
unfolding overdue_ids
overdue_ids-bound now limit s = omega (
  arith,
  length-ids_of (
      take limit (
        order_by (sorted_before (λ j. j.queue_deadline_at) (λ j. j.id))
          (select (is_overdue now) s.jobs))),
  length-take_le limit (
      order_by (sorted_before (λ j. j.queue_deadline_at) (λ j. j.id))
        (select (is_overdue now) s.jobs)),
)

expire_ids-Swept :
    (limit now : ℕ) (ids : List ℕ) (s : Store)
    → length ids ≤ limit
    → Gives (λ n t. Swept limit now s.jobs n t.jobs) (expire_ids now ids s)
unfolding expire_ids
expire_ids-Swept limit now [] s h = record {
  bounded = omega arith;
  rows = Sweeps-refl now s.jobs;
  fewer = omega arith;
}
expire_ids-Swept limit now (i ∷ ids) s h =
    Gives-if (λ n t. Swept limit now s.jobs n t.jobs)
      (ltb (length (i ∷ ids)) (count (named (i ∷ ids) now) s.jobs)) _ _ _ (λ _. tt)
      (λ e. record {
        bounded = ground (arith, e, h);
        rows = update_rows-Sweeps (i ∷ ids) now s.jobs;
        fewer = accounted (i ∷ ids) now s.jobs;
      })

-- A sweep of the queue that returns `n` ended exactly `n` jobs, at most `limit`: each was queued, not
-- cancelled and overdue at its clock reading, and is now finished, failed with `queue_timeout`; every
-- other row is as it was; and exactly `n` fewer jobs are overdue.
pub expire_queued_jobs-Swept :
    (limit now : ℕ) (s : Store) (n : ℕ)
    → (expire_queued_jobs limit now s).0 ≡ ok n
    → Swept limit now s.jobs n (expire_queued_jobs limit now s).1.jobs
unfolding expire_queued_jobs transaction
expire_queued_jobs-Swept limit now s n e = go (ltb 0 limit) e
  where
    body : Bool → Result ℕ × Store
    body b =
        if b then commit s (expire_ids now (overdue_ids now limit s) s) else (err value_error, s)

    go : (b : Bool) → (body b).0 ≡ ok n → Swept limit now s.jobs n (body b).1.jobs
    go true k =
        Gives-commit (λ m t. Swept limit now s.jobs m t.jobs) s
          (expire_ids now (overdue_ids now limit s) s) n
          (expire_ids-Swept limit now (overdue_ids now limit s) s (overdue_ids-bound now limit s)) k
    go false k = cc k
