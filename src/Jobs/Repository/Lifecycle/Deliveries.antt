-- ===== src/Jobs/Repository/Lifecycle/Deliveries.antt =====
-- Expiry, the dispatch leases and the heartbeats move each row at most one step.
use textify.Prelude.{
  ℕ, ◌+◌, Bool, true, ◌&&◌, ◌≡◌, refl, List, [], ◌∷◌, map, ltb, and-eq-true, contains, count,
  length, select, all, arith,
}
use textify.Jobs.Types.{Uuid, is_uuid4, JobDispatch, ExecutionClaim, is_processing, Result, ok, err}
use textify.Jobs.Schema.{Attempt, Job}
use textify.Jobs.Rows.{dispatches_from_rows}
use textify.Jobs.Tx.{Store, pure, transaction, update_rows}
use textify.Jobs.Tx.Chains.{After, After-if, After-lift, After-bind, After-map, After-value}
use textify.Jobs.Repository.Policy.{
  Policy, is_overdue, is_eligible, with_attempt, set_attempt, matches_dispatch, time_out, released,
}
use textify.Jobs.Repository.Lifecycle.{
  Never, delivers, renews, times_out, OnPublication, Evolves, Evolves-update,
}
use textify.Jobs.Repository.Lifecycle.Commits.{
  Evolved, Evolved-refl, commit-Evolved, guarded-Evolved,
}
use textify.Jobs.Repository.Dispatching.{
  overdue_ids, expire_ids, expire_queued_jobs, lease_candidates, internal_ids, due_rows, lease_tx,
  leased_in_order, leased, lease_due_dispatches, published, returned_id, record_dispatch_published,
  is_named, is_leased_by, release_leases, release_dispatch_leases,
}
use textify.Jobs.Repository.Claiming.{
  is_renewable, renewed, renew, valid_claim, heartbeat_nonempty, heartbeat_claims,
}

-- An update of the publication columns.
publication-Evolves :
    {room : ℕ} (p : Policy) (test : Job → Bool) (f : Attempt → Attempt) (js : List Job)
    → OnPublication f
    → Evolves p room Never js (update_rows test (set_attempt f) js)
publication-Evolves p test f js on =
    Evolves-update p test (set_attempt f) js (λ j _. delivers f on refl)

expire_ids-After :
    (p : Policy) (now : ℕ) (ids : List ℕ) (s : Store) → After (Evolved p s) (expire_ids now ids s)
unfolding expire_ids
expire_ids-After p now [] s = Evolved-refl p s
expire_ids-After p now (i ∷ ids) s =
    After-if (Evolved p s) (ltb (length (i ∷ ids)) (count test s.jobs)) _ _ _ (λ _. tt)
      (λ _.
        Evolves-update p test (time_out now) s.jobs (λ j e.
          times_out now (and-eq-true (contains j.id (i ∷ ids)) (is_overdue now j) e).1 refl))
  where
    test : Job → Bool
    test j = contains j.id (i ∷ ids) && is_overdue now j

pub expire_queued_jobs-Evolved :
    (p : Policy) (limit now : ℕ) (s : Store) → Evolved p s (expire_queued_jobs limit now s).1
unfolding expire_queued_jobs
expire_queued_jobs-Evolved p limit now s =
    guarded-Evolved p (ltb 0 limit) s _ (λ _. expire_ids-After p now (overdue_ids now limit s) s)

leased-OnPublication : (owner : Uuid) (expires : ℕ) → OnPublication (leased owner expires)
leased-OnPublication owner expires = record {
  same_token = λ a. refl;
  same_owner = λ a. refl;
  same_lease = λ a. refl;
}

published-OnPublication : (now delay : ℕ) → OnPublication (published now delay)
published-OnPublication now delay = record {
  same_token = λ a. refl;
  same_owner = λ a. refl;
  same_lease = λ a. refl;
}

released-OnPublication : OnPublication released
released-OnPublication = record {
  same_token = λ a. refl;
  same_owner = λ a. refl;
  same_lease = λ a. refl;
}

lease_candidates-After :
    (p : Policy) (owner : Uuid) (now duration : ℕ) (cs : List JobDispatch) (s : Store)
    → After (Evolved p s) (lease_candidates owner now duration cs s)
unfolding lease_candidates
lease_candidates-After p owner now duration [] s = Evolved-refl p s
lease_candidates-After p owner now duration (c ∷ cs) s =
    After-value (Evolved p s) (dispatches_from_rows (map lease (select test s.jobs)))
      (record s { jobs = update_rows test lease s.jobs })
      (publication-Evolves p test (leased owner (now + duration)) s.jobs
        (leased-OnPublication owner (now + duration)))
  where
    test : Job → Bool
    test j =
        contains j.id (internal_ids (c ∷ cs)) && is_eligible now j && with_attempt (λ a. true) j

    lease : Job → Job
    lease = set_attempt (leased owner (now + duration))

lease_tx-After :
    (p : Policy) (owner : Uuid) (duration limit now : ℕ) (s : Store)
    → After (Evolved p s) (lease_tx owner duration limit now s)
unfolding lease_tx
lease_tx-After p owner duration limit now s =
    After-lift (Evolved p s) (dispatches_from_rows (due_rows now limit s)) _ s λ cs _.
      After-bind (Evolved p s) (lease_candidates owner now duration cs) (λ ds. pure (cs, ds)) s
        (After-map (Evolved p s) (λ t. List JobDispatch → Evolved p s t) _ (λ t k _. k)
          (lease_candidates-After p owner now duration cs s))

pub leased_in_order-store :
    (r : Result (List JobDispatch × List JobDispatch) × Store) → (leased_in_order r).1 ≡ r.1
unfolding leased_in_order
leased_in_order-store (err e, s) = refl
leased_in_order-store (ok (cs, ds), s) = ground arith

pub lease_due_dispatches-Evolved :
    (p : Policy) (owner : Uuid) (duration limit now : ℕ) (s : Store)
    → Evolved p s (lease_due_dispatches owner duration limit now s).1
unfolding lease_due_dispatches transaction
lease_due_dispatches-Evolved p owner duration limit now s = ground (
  arith,
  Evolved-refl p s,
  commit-Evolved p s (lease_tx owner duration limit now s)
      (lease_tx-After p owner duration limit now s),
  leased_in_order-store (transaction (lease_tx owner duration limit now) s),
)

pub record_dispatch_published-Evolved :
    (p : Policy) (d : JobDispatch) (owner : Uuid) (delay now : ℕ) (s : Store)
    → Evolved p s (record_dispatch_published d owner delay now s).1
unfolding record_dispatch_published
record_dispatch_published-Evolved p d owner delay now s =
    guarded-Evolved p (is_uuid4 owner && ltb 0 delay) s _ λ _.
      After-value (Evolved p s) (returned_id d _) _ (
        publication-Evolves p (λ j. matches_dispatch d j && is_leased_by owner j)
          (published now delay) s.jobs (published-OnPublication now delay))

release_leases-Evolved :
    (p : Policy) (ds : List JobDispatch) (owner : Uuid) (s : Store)
    → Evolved p s (release_leases ds owner s).1
unfolding release_leases
release_leases-Evolved p [] owner s = Evolved-refl p s
release_leases-Evolved p (d ∷ ds) owner s =
    commit-Evolved p s (ok (tt {0}, record s { jobs = _ })) (
      publication-Evolves p (λ j. is_leased_by owner j && is_named (d ∷ ds) j) released s.jobs
        released-OnPublication)

pub release_dispatch_leases-Evolved :
    (p : Policy) (ds : List JobDispatch) (owner : Uuid) (s : Store)
    → Evolved p s (release_dispatch_leases ds owner s).1
unfolding release_dispatch_leases
release_dispatch_leases-Evolved p ds owner s =
    ground (arith, Evolved-refl p s, release_leases-Evolved p ds owner s)

renewable-processing :
    (claims : List ExecutionClaim) (now : ℕ) (j : Job)
    → is_renewable claims now j ≡ true
    → is_processing j.status ≡ true
unfolding is_renewable
renewable-processing claims now j h = ground arith

heartbeat_nonempty-Evolved :
    (p : Policy) (claims : List ExecutionClaim) (duration now : ℕ) (s : Store)
    → Evolved p s (heartbeat_nonempty claims duration now s).1
unfolding heartbeat_nonempty renew
heartbeat_nonempty-Evolved p [] duration now s = Evolved-refl p s
heartbeat_nonempty-Evolved p (c ∷ cs) duration now s =
    guarded-Evolved p (all valid_claim (c ∷ cs)) s (renew (c ∷ cs) duration now s) λ _.
      Evolves-update p (is_renewable (c ∷ cs) now) (set_attempt (renewed now (now + duration)))
        s.jobs (λ j h. renews now (now + duration) (renewable-processing (c ∷ cs) now j h) refl)

pub heartbeat_claims-Evolved :
    (p : Policy) (claims : List ExecutionClaim) (duration now : ℕ) (s : Store)
    → Evolved p s (heartbeat_claims claims duration now s).1
unfolding heartbeat_claims
heartbeat_claims-Evolved p claims duration now s =
    ground (arith, Evolved-refl p s, heartbeat_nonempty-Evolved p claims duration now s)
