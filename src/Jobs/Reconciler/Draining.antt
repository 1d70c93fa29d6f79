-- ===== src/Jobs/Reconciler/Draining.antt =====
-- The two loops that end lost and overdue jobs come to their end.
use textify.Prelude.{
  ℕ, zero, suc, ◌+◌, ◌<◌, Bool, true, false, ◌&&◌, ◌≡◌, refl, List, [], ◌∷◌, ◌++◌, length, count,
  contains, arith, if◌then◌else◌, ltb, ◌==◌, null_le,
}
use textify.Jobs.Types.{
  Result, ok, err, is_queued, is_processing, value_error, Error, store_unavailable,
}
use textify.Jobs.Schema.{Job, Attempt}
use textify.Jobs.Tx.{Store, ◌>>=◌, update_rows, update_where, commit, transaction}
use textify.Jobs.Tx.Promises.{Gives, Gives-if, Gives-commit, Gives-bind, Gives-map}
use textify.Jobs.Repository.Policy.{
  is_overdue, is_waiting, time_out, fail_with, set_attempt, with_attempt, cleared,
}
use textify.Jobs.Repository.Admission.{is_outstanding, count_outstanding_jobs}
use textify.Jobs.Repository.Dispatching.{overdue_ids, expire_ids, expire_queued_jobs}
use textify.Jobs.Repository.Recovery.{
  requested, unrequested, finish_cancelled, interrupt, transition_all, clear_claims, recover_ids,
  recover_rows, lost_rows, recover_expired_claims,
}
use textify.Jobs.Reconciler.{
  ReconcilerPolicy, Moment, call, Ended, complete, failed, drained, drain, recovery, expiry,
  recover_claims, expire_queue,
}

-- As many jobs were finished as the answer says.
abbrev Finishes : Store → ℕ → Store → Type 0
Finishes s n t = count_outstanding_jobs t + n ≡ count_outstanding_jobs s

update_rows-outstanding :
    (p : Job → Bool) (f : Job → Job) (js : List Job)
    → ((j : Job) → p j ≡ true → is_outstanding j ≡ true)
    → ((j : Job) → is_outstanding (f j) ≡ false)
    → count is_outstanding (update_rows p f js) + count p js ≡ count is_outstanding js
unfolding count update_rows
update_rows-outstanding p f [] h k = refl
update_rows-outstanding p f (j ∷ js) h k =
    ground (arith, update_rows-outstanding p f js h k, h j, k j)

update_rows-kept :
    (p : Job → Bool) (f : Job → Job) (js : List Job)
    → ((j : Job) → is_outstanding (f j) ≡ is_outstanding j)
    → count is_outstanding (update_rows p f js) ≡ count is_outstanding js
unfolding count update_rows
update_rows-kept p f [] k = refl
update_rows-kept p f (j ∷ js) k = ground (arith, update_rows-kept p f js k, k j)

overdue_outstanding : (now : ℕ) (j : Job) → is_overdue now j ≡ true → is_outstanding j ≡ true
unfolding is_overdue is_waiting is_outstanding
overdue_outstanding now j h = ground arith

finished_by :
    (now : ℕ) (j : Job)
    → (is_outstanding (time_out now j) ≡ false)
      × (is_outstanding (finish_cancelled now j) ≡ false)
      × (is_outstanding (interrupt now j) ≡ false)
unfolding is_outstanding time_out fail_with is_queued is_processing interrupt
finished_by now j = (refl, refl, refl)

expire_ids-Finishes :
    (now : ℕ) (ids : List ℕ) (s : Store) → Gives (Finishes s) (expire_ids now ids s)
unfolding expire_ids update_where count_outstanding_jobs
expire_ids-Finishes now [] s = omega arith
expire_ids-Finishes now (i ∷ ids) s =
    Gives-if (Finishes s)
      (ltb (length (i ∷ ids)) (count (λ j. contains j.id (i ∷ ids) && is_overdue now j) s.jobs)) _ _
      _ (λ _. tt)
      (λ e.
        update_rows-outstanding (λ j. contains j.id (i ∷ ids) && is_overdue now j) (time_out now)
          s.jobs (λ j h. overdue_outstanding now j (ground arith)) (λ j. (finished_by now j).0))

processing_outstanding : (j : Job) → is_processing j.status ≡ true → is_outstanding j ≡ true
unfolding is_outstanding
processing_outstanding j h = ground arith

kept : (f : Attempt → Attempt) (j : Job) → is_outstanding (set_attempt f j) ≡ is_outstanding j
unfolding is_outstanding set_attempt
kept f j = refl

transition_all-Finishes :
    (ids : List ℕ) (p : Job → Bool) (f : Job → Job) (s : Store)
    → ((j : Job) → is_outstanding (f j) ≡ false)
    → Gives (Finishes s) (transition_all ids p f s)
unfolding transition_all update_where count_outstanding_jobs
transition_all-Finishes [] p f s k = omega arith
transition_all-Finishes (i ∷ ids) p f s k =
    Gives-if (Finishes s)
      (count (λ j. contains j.id (i ∷ ids) && is_processing j.status && p j) s.jobs
        == length (i ∷ ids))
      _ _ _
      (λ e.
        update_rows-outstanding (λ j. contains j.id (i ∷ ids) && is_processing j.status && p j) f
          s.jobs (λ j h. processing_outstanding j (ground arith)) k)
      (λ _. tt)

-- Clearing the claims finishes nothing more.
abbrev Keeps : Store → ℕ → ℕ → Store → Type 0
Keeps s m n t = (count_outstanding_jobs t ≡ count_outstanding_jobs s) × (n ≡ m)

clear_claims-Keeps :
    (ids : List ℕ) (now m : ℕ) (s : Store) → Gives (Keeps s m) (clear_claims ids now m s)
unfolding clear_claims update_where count_outstanding_jobs
clear_claims-Keeps ids now m s =
    Gives-if (Keeps s m)
      (count (λ j. contains j.id ids && with_attempt (λ a. null_le a.claim_lease_expires_at now) j)
          s.jobs
        == m)
      _ _ _ (λ e. (update_rows-kept _ (set_attempt cleared) s.jobs (kept cleared), refl)) (λ _. tt)

interrupted-Finishes :
    (ids is : List ℕ) (now m : ℕ) (s t : Store)
    → Finishes s m t
    → Gives
        (Finishes s)
        ((transition_all is unrequested (interrupt now) >>= λ n. clear_claims ids now (m + n)) t)
interrupted-Finishes ids is now m s t g =
    Gives-bind (Finishes s) (transition_all is unrequested (interrupt now))
      (λ n. clear_claims ids now (m + n)) t
      (Gives-map (Finishes t) (λ n u. Gives (Finishes s) (clear_claims ids now (m + n) u)) _
        (λ n u h.
          Gives-map (Keeps u (m + n)) (Finishes s) _ (λ k v (a, b). omega (arith, a, b, g, h))
            (clear_claims-Keeps ids now (m + n) u))
        (transition_all-Finishes is unrequested (interrupt now) t (λ j. (finished_by now j).2)))

recover_ids-Finishes :
    (cs is : List ℕ) (now : ℕ) (s : Store) → Gives (Finishes s) (recover_ids cs is now s)
unfolding recover_ids
recover_ids-Finishes cs is now s =
    Gives-bind (Finishes s) (transition_all cs requested (finish_cancelled now)) _ s (
      Gives-map (Finishes s) _ _ (λ m t h. interrupted-Finishes (cs ++ is) is now m s t h)
        (transition_all-Finishes cs requested (finish_cancelled now) s
          (λ j. (finished_by now j).1)))

recover_rows-Finishes :
    (now : ℕ) (js : List Job) (s : Store) → Gives (Finishes s) (recover_rows now js s)
unfolding recover_rows
recover_rows-Finishes now [] s = omega arith
recover_rows-Finishes now (j ∷ js) s = recover_ids-Finishes _ _ now s

-- It finishes as many jobs as it answers.
abbrev Finishing : (Moment → Store → Result ℕ × Store) → Type 0
Finishing operation =
    (m : Moment) (s : Store) (n : ℕ) → (operation m s).0 ≡ ok n → Finishes s n (operation m s).1

expire_queued_jobs-Finishes :
    (limit now : ℕ) (s : Store) (n : ℕ)
    → (expire_queued_jobs limit now s).0 ≡ ok n
    → Finishes s n (expire_queued_jobs limit now s).1
unfolding expire_queued_jobs transaction
expire_queued_jobs-Finishes limit now s n e = go (ltb 0 limit) e
  where
    body : Bool → Result ℕ × Store
    body b =
        if b then commit s (expire_ids now (overdue_ids now limit s) s) else (err value_error, s)

    go : (b : Bool) → (body b).0 ≡ ok n → Finishes s n (body b).1
    go true k =
        Gives-commit (Finishes s) s (expire_ids now (overdue_ids now limit s) s) n
          (expire_ids-Finishes now (overdue_ids now limit s) s) k
    go false k = cc k

recover_expired_claims-Finishes :
    (limit now : ℕ) (s : Store) (n : ℕ)
    → (recover_expired_claims limit now s).0 ≡ ok n
    → Finishes s n (recover_expired_claims limit now s).1
unfolding recover_expired_claims transaction
recover_expired_claims-Finishes limit now s n e = go (ltb 0 limit) e
  where
    body : Bool → Result ℕ × Store
    body b =
        if b then commit s (recover_rows now (lost_rows now limit s) s) else (err value_error, s)

    go : (b : Bool) → (body b).0 ≡ ok n → Finishes s n (body b).1
    go true k =
        Gives-commit (Finishes s) s (recover_rows now (lost_rows now limit s) s) n
          (recover_rows-Finishes now (lost_rows now limit s) s) k
    go false k = cc k

-- A loop that ended: all is done, or the store has raised.
pub data Ends : Ended → Type 0 where
  done : Ends complete
  raised : (e : Error) → Ends (failed e)

drained-Ends :
    (r : Result ℕ × Store) (s : Store) (fuel : ℕ) (again : Store → Ended × Store)
    → ((n : ℕ) → r.0 ≡ ok n → Finishes s n r.1)
    → count_outstanding_jobs s < suc fuel
    → ((t : Store) → count_outstanding_jobs t < fuel → Ends (again t).0)
    → Ends (drained r again).0
unfolding drained
drained-Ends (err e, t) s fuel again f h k = raised e
drained-Ends (ok zero, t) s fuel again f h k = done
drained-Ends (ok (suc n), t) s fuel again f h k = k t (omega (arith, f (suc n) refl))

call-Finishes :
    (m : Moment) (r : Result ℕ × Store) (s : Store)
    → ((n : ℕ) → r.0 ≡ ok n → Finishes s n r.1)
    → (n : ℕ) → (call m r s).0 ≡ ok n
    → Finishes s n (call m r s).1
unfolding call
call-Finishes m r s f n e = go m.answers e
  where
    body : Bool → Result ℕ × Store
    body b = if b then r else (err store_unavailable, s)

    go : (b : Bool) → (body b).0 ≡ ok n → Finishes s n (body b).1
    go true k = f n k
    go false k = cc k

drain-Ends :
    (operation : Moment → Store → Result ℕ × Store)
    → Finishing operation
    → (world : ℕ → Moment) (fuel i : ℕ) (s : Store) → count_outstanding_jobs s < fuel
    → Ends (drain operation world fuel i s).0
unfolding drain
drain-Ends operation f world zero i s h = absurd (omega arith)
drain-Ends operation f world (suc fuel) i s h =
    drained-Ends (call (world i) (operation (world i) s) s) s fuel _
      (call-Finishes (world i) (operation (world i) s) s (f (world i) s)) h
      (λ t k. drain-Ends operation f world fuel (i + 1) t k)

-- The loops that recover lost claims and that expire queued jobs end, each within one round more than
-- there are jobs that are queued or in processing, whatever the clock reads and whether or not the
-- database answers.
pub loops-End :
    (p : ReconcilerPolicy) (world : ℕ → Moment) (fuel : ℕ) (s : Store)
    → count_outstanding_jobs s < fuel
    → Ends (recover_claims p world fuel s).0 × Ends (expire_queue p world fuel s).0
unfolding recover_claims expire_queue
loops-End p world fuel s h = (
  drain-Ends (recovery p)
      (λ m t n e. recover_expired_claims-Finishes p.dispatch_batch_size m.now t n e) world fuel 0 s
      h,
  drain-Ends (expiry p) (λ m t n e. expire_queued_jobs-Finishes p.dispatch_batch_size m.now t n e)
      world fuel 0 s h,
)
