-- ===== src/Jobs/Repository/Dispatching.antt =====
-- `expire_queued_jobs`, `lease_due_dispatches`, `record_dispatch_published` and
-- `release_dispatch_leases` of jobs/repository.py. Rows that another session has locked would be
-- skipped; each transaction here runs alone.
use textify.Prelude.{
  ℕ, ◌+◌, Bool, true, false, ◌&&◌, ◌||◌, not, none, some, List, [], ◌∷◌, ltb, leb, ◌==◌, null_eq,
  null_le, is_none, select, take, length, map, contains, any, if◌then◌else◌,
}
use textify.Jobs.Types.{
  Uuid, is_uuid4, JobDispatch, store_unavailable, value_error, Result, ok, err,
}
use textify.Jobs.Schema.{Attempt, Job}
use textify.Jobs.Tx.{
  Store, Tx, ◌>>=◌, ◌>>◌, pure, raise, lift, transaction, update_where, update_returning, order_by,
  sorted_before,
}
use textify.Jobs.Rows.{dispatches_from_rows}
use textify.Jobs.Repository.Policy.{
  is_overdue, is_eligible, with_attempt, set_attempt, matches_dispatch, time_out, released,
}

unfoldable pub ids_of : List Job → List ℕ
ids_of = map (λ j. j.id)

-- SELECT id ... ORDER BY queue_deadline_at, id LIMIT limit
unfoldable pub overdue_ids : ℕ → ℕ → Store → List ℕ
unfolding ids_of
overdue_ids now limit s = ids_of (
    take limit (
      order_by (sorted_before (λ j. j.queue_deadline_at) (λ j. j.id))
        (select (is_overdue now) s.jobs)))

unfoldable pub expire_ids : ℕ → List ℕ → Tx ℕ
unfolding update_where time_out is_overdue
expire_ids now [] = pure 0
expire_ids now (i ∷ ids) = do
  rowcount ← update_where (λ j. contains j.id (i ∷ ids) && is_overdue now j) (time_out now)
  if ltb (length (i ∷ ids)) rowcount then raise store_unavailable else pure rowcount

unfoldable pub expire_queued_jobs : ℕ → ℕ → Store → Result ℕ × Store
unfolding expire_ids overdue_ids transaction
expire_queued_jobs limit now s =
    if ltb 0 limit
    then transaction (expire_ids now (overdue_ids now limit s)) s
    else (err value_error, s)

-- The publication lease is free, or has run out.
unfoldable pub lease_is_free : ℕ → Attempt → Bool
lease_is_free now a =
    is_none a.publication_lease_owner || null_le a.publication_lease_expires_at now

-- The WHERE clause of the candidates.
unfoldable pub is_due : ℕ → Job → Bool
unfolding is_eligible with_attempt lease_is_free
is_due now j =
    is_eligible now j && with_attempt (λ a. leb a.next_dispatch_at now && lease_is_free now a) j

-- ORDER BY submitted_at, id LIMIT limit
unfoldable pub due_rows : ℕ → ℕ → Store → List Job
unfolding is_due
due_rows now limit s =
    take limit
      (order_by (sorted_before (λ j. j.submitted_at) (λ j. j.id)) (select (is_due now) s.jobs))

abbrev pub leased : Uuid → ℕ → Attempt → Attempt
leased owner expires a = record a {
  publication_lease_owner = some owner;
  publication_lease_expires_at = some expires;
}

-- `(dispatch.internal_job_id, dispatch.execution_attempt_token) in keys`
unfoldable pub same_dispatch : JobDispatch → JobDispatch → Bool
same_dispatch c d =
    c.internal_job_id == d.internal_job_id && c.execution_attempt_token == d.execution_attempt_token

unfoldable pub in_dispatches : List JobDispatch → JobDispatch → Bool
unfolding same_dispatch
in_dispatches ds d = any (λ c. same_dispatch c d) ds

unfoldable pub distinct_dispatches : List JobDispatch → Bool
unfolding in_dispatches
distinct_dispatches [] = true
distinct_dispatches (d ∷ ds) = not (in_dispatches ds d) && distinct_dispatches ds

unfoldable pub internal_ids : List JobDispatch → List ℕ
internal_ids = map (λ d. d.internal_job_id)

-- UPDATE ... RETURNING of the attempts of the candidates whose job is still eligible.
unfoldable pub lease_candidates : Uuid → ℕ → ℕ → List JobDispatch → Tx (List JobDispatch)
unfolding update_returning set_attempt internal_ids is_eligible with_attempt
lease_candidates owner now duration [] = pure []
lease_candidates owner now duration (c ∷ cs) = do
  rows ←
      update_returning
        (λ j.
          contains j.id (internal_ids (c ∷ cs)) && is_eligible now j && with_attempt (λ a. true) j)
        (set_attempt (leased owner (now + duration)))
  lift (dispatches_from_rows rows)

-- The transaction, with the candidates beside the leased dispatches.
unfoldable pub lease_tx : Uuid → ℕ → ℕ → ℕ → Tx (List JobDispatch × List JobDispatch)
unfolding lease_candidates due_rows
lease_tx owner duration limit now s =
    (do
      candidates ← lift (dispatches_from_rows (due_rows now limit s))
      dispatches ← lease_candidates owner now duration candidates
      pure (candidates, dispatches))
      s

-- After the commit: the leased candidates in their order.
unfoldable pub leased_in_order :
    Result (List JobDispatch × List JobDispatch) × Store → Result (List JobDispatch) × Store
unfolding in_dispatches distinct_dispatches
leased_in_order (err e, s) = (err e, s)
leased_in_order (ok (candidates, dispatches), s) =
    if distinct_dispatches dispatches
    then (ok (select (in_dispatches dispatches) candidates), s)
    else (err store_unavailable, s)

unfoldable pub lease_due_dispatches : Uuid → ℕ → ℕ → ℕ → Store → Result (List JobDispatch) × Store
unfolding leased_in_order lease_tx transaction
lease_due_dispatches owner duration limit now s =
    if is_uuid4 owner && ltb 0 duration && ltb 0 limit
    then leased_in_order (transaction (lease_tx owner duration limit now) s)
    else (err value_error, s)

-- The publication lease of the attempt belongs to this owner.
unfoldable pub is_leased_by : Uuid → Job → Bool
unfolding with_attempt
is_leased_by owner = with_attempt (λ a. null_eq a.publication_lease_owner owner)

abbrev pub published : ℕ → ℕ → Attempt → Attempt
published now after a = record a {
  next_dispatch_at = now + after;
  publication_lease_owner = none;
  publication_lease_expires_at = none;
  last_dispatched_at = some now;
  dispatch_count = a.dispatch_count + 1;
}

-- RETURNING job_id: `one_or_none()` of the updated rows
unfoldable pub returned_id : JobDispatch → List Job → Result Bool
returned_id d [] = ok false
returned_id d (j ∷ []) = ok (j.id == d.internal_job_id)
returned_id d (j ∷ k ∷ js) = err store_unavailable

unfoldable pub record_dispatch_published : JobDispatch → Uuid → ℕ → ℕ → Store → Result Bool × Store
unfolding update_returning set_attempt returned_id matches_dispatch is_leased_by transaction
record_dispatch_published d owner after now s =
    if is_uuid4 owner && ltb 0 after
    then transaction
        (do
          rows ←
              update_returning (λ j. matches_dispatch d j && is_leased_by owner j)
                (set_attempt (published now after))
          lift (returned_id d rows))
        s
    else (err value_error, s)

-- The pair of the attempt is one of `dispatch_keys`.
unfoldable pub is_named : List JobDispatch → Job → Bool
unfolding matches_dispatch
is_named ds j = any (λ d. matches_dispatch d j) ds

unfoldable pub release_leases : List JobDispatch → Uuid → Store → Result (Unit {0}) × Store
unfolding update_where set_attempt is_named is_leased_by transaction
release_leases [] owner s = (ok tt, s)
release_leases (d ∷ ds) owner s =
    transaction
      (do
        update_where (λ j. is_leased_by owner j && is_named (d ∷ ds) j) (set_attempt released)
        pure tt)
      s

unfoldable pub release_dispatch_leases : List JobDispatch → Uuid → Store → Result (Unit {0}) × Store
unfolding release_leases
release_dispatch_leases ds owner s =
    if is_uuid4 owner then release_leases ds owner s else (err value_error, s)
