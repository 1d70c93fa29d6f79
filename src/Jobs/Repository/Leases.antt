-- ===== src/Jobs/Repository/Leases.antt =====
-- What the reconciler is handed: a bounded batch of due dispatches.
use textify.Prelude.{
  ℕ, ◌+◌, ◌≤◌, ◌⊎◌, Option, none, some, map, contains, any, and-eq-true, ==_iff, leb, sym, ap, ◌∙◌,
  Bool, true, false, ◌&&◌, ◌≡◌, refl, subst, List, [], ◌∷◌, select, length, In, All, All-select,
  All-zip, select-All, arith, if◌then◌else◌, ltb, inl, inr, Bool-cases,
}
use textify.Jobs.Types.{Uuid, JobDispatch, Result, ok, err, ◌>>=◌, value_error, is_uuid4}
use textify.Jobs.Schema.{Attempt, Job}
use textify.Jobs.Rows.{check, dispatch_from_row, dispatches_from_rows}
use textify.Jobs.Tx.{Store, commit, transaction, pure, lift, update_rows, update_returning}
use textify.Jobs.Repository.Policy.{is_eligible, with_attempt, set_attempt}
use textify.Jobs.Repository.Grants.{IsReady, is_eligible-IsReady}
use textify.Jobs.Tx.Order.{members, All-order_by, All-take, length-take_le}
use textify.Jobs.Tx.Promises.{Gives, Gives-map, Gives-bind, Gives-lift, Gives-commit}
use textify.Jobs.Repository.Dispatching.{
  is_due, lease_is_free, leased, internal_ids, same_dispatch, due_rows, lease_candidates,
  in_dispatches, distinct_dispatches, lease_tx, leased_in_order, lease_due_dispatches,
}

-- The dispatch of a job that is queued, not cancelled and before its deadline, whose next publication
-- time is reached, and whose publication lease is free or has run out.
pub record Due (now : ℕ) (js : List Job) (d : JobDispatch) : Type 0 where
  pub row : Job
  pub member : In row js
  pub ready : IsReady now row
  pub attempt : Attempt
  pub has : row.attempt ≡ some attempt
  pub reached : attempt.next_dispatch_at ≤ now
  pub free :
      (attempt.publication_lease_owner ≡ none)
      ⊎ ((ended : ℕ) × (attempt.publication_lease_expires_at ≡ some ended) × (ended ≤ now))
  pub named : d.internal_job_id ≡ row.id
  pub keyed : d.execution_attempt_token ≡ attempt.execution_attempt_token

-- The attempt of a dispatch, leased for its publication.
pub record IsLeased (owner : Uuid) (expires : ℕ) (js : List Job) (d : JobDispatch) : Type 0 where
  pub row : Job
  pub member : In row js
  pub attempt : Attempt
  pub has : row.attempt ≡ some attempt
  pub owned : attempt.publication_lease_owner ≡ some owner
  pub until : attempt.publication_lease_expires_at ≡ some expires
  pub named : d.internal_job_id ≡ row.id
  pub keyed : d.execution_attempt_token ≡ attempt.execution_attempt_token

dispatch_from_row-attempt :
    (j : Job) (d : JobDispatch)
    → dispatch_from_row j ≡ ok d
    → (a : Attempt) × (j.attempt ≡ some a)
      × (d.internal_job_id ≡ j.id)
      × (d.execution_attempt_token ≡ a.execution_attempt_token)
unfolding dispatch_from_row check
dispatch_from_row-attempt j d e = go j.attempt refl
  where
    go :
        (o : Option Attempt)
        → j.attempt ≡ o
        → (a : Attempt) × (j.attempt ≡ some a)
          × (d.internal_job_id ≡ j.id)
          × (d.execution_attempt_token ≡ a.execution_attempt_token)
    go none q = absurd (ground (arith, q))
    go (some a) q = (a, q, ground (arith, q), ground (arith, q))

lease_is_free-cases :
    (now : ℕ) (a : Attempt)
    → lease_is_free now a ≡ true
    → (a.publication_lease_owner ≡ none)
      ⊎ ((ended : ℕ) × (a.publication_lease_expires_at ≡ some ended) × (ended ≤ now))
unfolding lease_is_free
lease_is_free-cases now a h = go a.publication_lease_owner a.publication_lease_expires_at refl refl
  where
    go :
        (o : Option Uuid) (x : Option ℕ)
        → a.publication_lease_owner ≡ o
        → a.publication_lease_expires_at ≡ x
        → (a.publication_lease_owner ≡ none)
          ⊎ ((ended : ℕ) × (a.publication_lease_expires_at ≡ some ended) × (ended ≤ now))
    go none x p q = inl p
    go (some o) none p q = absurd (ground (arith, p, q))
    go (some o) (some t) p q = inr (t, q, ground (arith, p, q))

is_due-Due :
    (now : ℕ) (js : List Job) (j : Job) (d : JobDispatch)
    → In j js
    → is_due now j ≡ true
    → dispatch_from_row j ≡ ok d
    → Due now js d
unfolding is_due with_attempt
is_due-Due now js j d m h e =
    let (a, has, named, keyed) = dispatch_from_row-attempt j d e in
    let waits : (leb a.next_dispatch_at now && lease_is_free now a) ≡ true = ground (arith, has) in
    record {
      row = j;
      member = m;
      ready = is_eligible-IsReady now j (ground arith);
      attempt = a;
      has = has;
      reached = ground (arith, waits);
      free = lease_is_free-cases now a (and-eq-true _ _ waits).1;
      named = named;
      keyed = keyed;
    }

abbrev DueList : ℕ → List Job → ℕ → Result (List JobDispatch) → Type 0
DueList now js n (ok ds) = All (Due now js) ds × (length ds ≡ n)
DueList now js n (err e) = Unit

dispatches-Due :
    (now : ℕ) (js rows : List Job)
    → All (λ r. In r js × (is_due now r ≡ true)) rows
    → DueList now js (length rows) (dispatches_from_rows rows)
unfolding dispatches_from_rows
dispatches-Due now js [] h = (tt, refl)
dispatches-Due now js (j ∷ rows) h =
    go (dispatch_from_row j) (dispatches_from_rows rows) refl (dispatches-Due now js rows h.1)
  where
    go :
        (a : Result JobDispatch) (b : Result (List JobDispatch))
        → dispatch_from_row j ≡ a
        → DueList now js (length rows) b
        → DueList now js (length (j ∷ rows)) (a >>= λ d. b >>= λ l. ok (d ∷ l))
    go (ok d) (ok l) p k = ((is_due-Due now js j d h.0.0 h.0.1 p, k.0), omega (arith, k.1))
    go (ok d) (err x) p k = tt
    go (err x) b p k = tt

due_rows-due :
    (now limit : ℕ) (s : Store)
    → All (λ r. In r s.jobs × (is_due now r ≡ true)) (due_rows now limit s)
unfolding due_rows
due_rows-due now limit s = All-take _ limit _ (
    All-order_by _ _ _ (
      All-zip _ _ _ (All-select _ (is_due now) s.jobs (members s.jobs))
        (select-All (is_due now) s.jobs)))

due_rows-bound : (now limit : ℕ) (s : Store) → length (due_rows now limit s) ≤ limit
unfolding due_rows
due_rows-bound now limit s = length-take_le limit _

same-IsLeased :
    (owner : Uuid) (expires : ℕ) (ks : List Job) (ls : List JobDispatch) (d : JobDispatch)
    → All (IsLeased owner expires ks) ls
    → in_dispatches ls d ≡ true
    → IsLeased owner expires ks d
unfolding in_dispatches any same_dispatch
same-IsLeased owner expires ks [] d h e = cc e
same-IsLeased owner expires ks (l ∷ ls) d h e = elim (Bool-cases (same_dispatch l d)) [
  | inl hit ↦
      let x : IsLeased owner expires ks l = h.0 in
      record {
        row = x.row;
        member = x.member;
        attempt = x.attempt;
        has = x.has;
        owned = x.owned;
        until = x.until;
        named = sym ((==_iff _ _).0 (and-eq-true _ _ hit).0) ∙ x.named;
        keyed = sym ((==_iff _ _).0 (and-eq-true _ _ hit).1) ∙ x.keyed;
      }
  | inr miss ↦ same-IsLeased owner expires ks ls d h.1 (ground (arith, miss))
]

All-kept :
    (P Q : JobDispatch → Type 0) (test : JobDispatch → Bool) (ds : List JobDispatch)
    → ((d : JobDispatch) → test d ≡ true → Q d)
    → All P ds
    → All (λ d. P d × Q d) (select test ds)
unfolding select
All-kept P Q test [] q h = tt
All-kept P Q test (d ∷ ds) q h = elim (Bool-cases (test d)) [
  | inl hit ↦ rw hit ((h.0, q d hit), All-kept P Q test ds q h.1)
  | inr miss ↦ rw miss (All-kept P Q test ds q h.1)
]

kept_le : (test : JobDispatch → Bool) (ds : List JobDispatch) → length (select test ds) ≤ length ds
unfolding select
kept_le test [] = omega arith
kept_le test (d ∷ ds) = ground (arith, kept_le test ds)

-- The rows that an update returns, as the table has them now.
returned_rows :
    (p : Job → Bool) (f : Job → Job) (js : List Job)
    → All (λ r. In r (update_rows p f js) × ((j : Job) × (r ≡ f j))) (map f (select p js))
unfolding update_rows select
returned_rows p f [] = tt
returned_rows p f (j ∷ js) = elim (Bool-cases (p j)) [
  | inl hit ↦ rw hit (
    (inl refl, (j, refl)),
    later (f j) (map f (select p js)) (update_rows p f js) (returned_rows p f js),
  )
  | inr miss ↦ rw miss (later j (map f (select p js)) (update_rows p f js) (returned_rows p f js))
]
  where
    later :
        (k : Job) (rs ks : List Job)
        → All (λ r. In r ks × ((j : Job) × (r ≡ f j))) rs
        → All (λ r. In r (k ∷ ks) × ((j : Job) × (r ≡ f j))) rs
    later k [] ks h = tt
    later k (r ∷ rs) ks h = ((inr h.0.0, h.0.1), later k rs ks h.1)

module _ (owner : Uuid) (expires : ℕ) where
  leased-IsLeased :
      (j r : Job) (ks : List Job) (d : JobDispatch)
      → In r ks
      → r ≡ set_attempt (leased owner expires) j
      → dispatch_from_row r ≡ ok d
      → IsLeased owner expires ks d
  unfolding set_attempt
  leased-IsLeased j r ks d m e q =
      let (a, has, named, keyed) = dispatch_from_row-attempt r d q in
      record {
        row = r;
        member = m;
        attempt = a;
        has = has;
        owned = (go j.attempt refl a (sym has ∙ ap (λ (x : Job). x.attempt) e)).0;
        until = (go j.attempt refl a (sym has ∙ ap (λ (x : Job). x.attempt) e)).1;
        named = named;
        keyed = keyed;
      }
    where
      go :
          (o : Option Attempt)
          → j.attempt ≡ o
          → (a : Attempt)
          → some a ≡ elim j.attempt [ none ↦ none | some x ↦ some (leased owner expires x) ]
          → (a.publication_lease_owner ≡ some owner)
            × (a.publication_lease_expires_at ≡ some expires)
      go none p a h = absurd (ground (arith, p))
      go (some x) p a h =
          let same : a ≡ leased owner expires x = ground (arith, p) in
          (
            ap (λ (y : Attempt). y.publication_lease_owner) same,
            ap (λ (y : Attempt). y.publication_lease_expires_at) same,
          )

  abbrev LeasedList : List Job → Result (List JobDispatch) → Type 0
  LeasedList ks (ok ds) = All (IsLeased owner expires ks) ds
  LeasedList ks (err e) = Unit

  dispatches-leased :
      (ks rows : List Job)
      → All (λ r. In r ks × ((j : Job) × (r ≡ set_attempt (leased owner expires) j))) rows
      → LeasedList ks (dispatches_from_rows rows)
  unfolding dispatches_from_rows
  dispatches-leased ks [] h = tt
  dispatches-leased ks (r ∷ rows) h =
      go (dispatch_from_row r) (dispatches_from_rows rows) refl (dispatches-leased ks rows h.1)
    where
      go :
          (a : Result JobDispatch) (b : Result (List JobDispatch))
          → dispatch_from_row r ≡ a
          → LeasedList ks b
          → LeasedList ks (a >>= λ d. b >>= λ l. ok (d ∷ l))
      go (ok d) (ok l) p k = (leased-IsLeased h.0.1.0 r ks d h.0.0 h.0.1.1 p, k)
      go (ok d) (err x) p k = tt
      go (err x) b p k = tt

  lifted :
      (r : Result (List JobDispatch)) (t : Store)
      → LeasedList t.jobs r
      → Gives (λ ds u. All (IsLeased owner expires u.jobs) ds) (lift r t)
  lifted (ok ds) t h = h
  lifted (err e) t h = tt

lease_candidates-IsLeased :
    (owner : Uuid) (now duration : ℕ) (cs : List JobDispatch) (s : Store)
    → Gives
        (λ ds t. All (IsLeased owner (now + duration) t.jobs) ds)
        (lease_candidates owner now duration cs s)
unfolding lease_candidates update_returning
lease_candidates-IsLeased owner now duration [] s = tt
lease_candidates-IsLeased owner now duration (c ∷ cs) s = lifted owner (now + duration) _ _ (
    dispatches-leased owner (now + duration) _ _ (
      returned_rows (eligible_candidate now (c ∷ cs)) (set_attempt (leased owner (now + duration)))
        s.jobs))
  where
    eligible_candidate : ℕ → List JobDispatch → Job → Bool
    eligible_candidate now ds j =
        contains j.id (internal_ids ds) && is_eligible now j && with_attempt (λ a. true) j

-- A batch of due dispatches, which are leased now.
abbrev pub Batch : Uuid → ℕ → ℕ → List Job → ℕ → List JobDispatch → List Job → Type 0
Batch owner duration now js limit ds ks =
    All (λ d. Due now js d × IsLeased owner (now + duration) ks d) ds × (length ds ≤ limit)

-- What the transaction leaves: the candidates are due, the leased dispatches leased.
abbrev Taken : Uuid → ℕ → ℕ → List Job → ℕ → List JobDispatch × List JobDispatch → Store → Type 0
Taken owner duration now js limit r t =
    All (Due now js) r.0 × (length r.0 ≤ limit) × All (IsLeased owner (now + duration) t.jobs) r.1

lease_tx-Taken :
    (owner : Uuid) (duration limit now : ℕ) (s : Store)
    → Gives (Taken owner duration now s.jobs limit) (lease_tx owner duration limit now s)
unfolding lease_tx
lease_tx-Taken owner duration limit now s =
    Gives-lift Q (dispatches_from_rows (due_rows now limit s)) _ s λ cs e.
      let k =
        subst (DueList now s.jobs (length (due_rows now limit s))) e
          (dispatches-Due now s.jobs (due_rows now limit s) (due_rows-due now limit s)) in
      Gives-bind Q (lease_candidates owner now duration cs) (λ ds. pure (cs, ds)) s
        (Gives-map (λ ds t. All (IsLeased owner (now + duration) t.jobs) ds)
          (λ ds t. Gives Q (pure (cs, ds) t)) _
          (λ ds t h. (k.0, omega (arith, k.1, due_rows-bound now limit s), h))
          (lease_candidates-IsLeased owner now duration cs s))
  where
    Q : List JobDispatch × List JobDispatch → Store → Type 0
    Q = Taken owner duration now s.jobs limit

abbrev BatchOf : Uuid → ℕ → ℕ → List Job → ℕ → Result (List JobDispatch) × Store → Type 0
BatchOf owner duration now js limit (ok ds, t) = Batch owner duration now js limit ds t.jobs
BatchOf owner duration now js limit (err e, t) = Unit

ordered :
    (owner : Uuid) (duration now limit : ℕ) (js : List Job)
    (r : Result (List JobDispatch × List JobDispatch) × Store)
    → ((a : List JobDispatch × List JobDispatch)
        → r.0 ≡ ok a
        → Taken owner duration now js limit a r.1)
    → BatchOf owner duration now js limit (leased_in_order r)
unfolding leased_in_order
ordered owner duration now limit js (err e, t) h = tt
ordered owner duration now limit js (ok (cs, ls), t) h =
    elim (Bool-cases (distinct_dispatches ls)) [
      | inl good ↦
          let (due, few, taken) = h (cs, ls) refl in
          rw good (
            All-kept (Due now js) (IsLeased owner (now + duration) t.jobs) (in_dispatches ls) cs
                (λ d e. same-IsLeased owner (now + duration) t.jobs ls d taken e) due,
            omega (arith, few, kept_le (in_dispatches ls) cs),
          )
      | inr bad ↦ rw bad tt
    ]

-- Every dispatch that a lease returns is that of a job which was due when the lease was taken: queued,
-- not cancelled, before its deadline, its next publication time reached and its publication lease
-- free or run out; its attempt is now leased to this owner, until the clock reading and the
-- duration together; and there are at most `limit` of them.
pub lease_due_dispatches-Batch :
    (owner : Uuid) (duration limit now : ℕ) (s : Store) (ds : List JobDispatch)
    → (lease_due_dispatches owner duration limit now s).0 ≡ ok ds
    → Batch owner duration now s.jobs limit ds
        (lease_due_dispatches owner duration limit now s).1.jobs
unfolding lease_due_dispatches transaction
lease_due_dispatches-Batch owner duration limit now s ds e =
    go (is_uuid4 owner && ltb 0 duration && ltb 0 limit) e
  where
    body : Bool → Result (List JobDispatch) × Store
    body b =
        if b
        then leased_in_order (commit s (lease_tx owner duration limit now s))
        else (err value_error, s)

    batch :
        (r : Result (List JobDispatch) × Store)
        → BatchOf owner duration now s.jobs limit r
        → r.0 ≡ ok ds
        → Batch owner duration now s.jobs limit ds r.1.jobs
    batch (ok x, t) h k = subst (λ y. BatchOf owner duration now s.jobs limit (y, t)) k h
    batch (err x, t) h k = cc k

    go : (b : Bool) → (body b).0 ≡ ok ds → Batch owner duration now s.jobs limit ds (body b).1.jobs
    go true k =
        batch (leased_in_order (commit s (lease_tx owner duration limit now s)))
          (ordered owner duration now limit s.jobs (commit s (lease_tx owner duration limit now s))
            (λ a h.
              Gives-commit (Taken owner duration now s.jobs limit) s _ a
                (lease_tx-Taken owner duration limit now s) h))
          k
    go false k = cc k
