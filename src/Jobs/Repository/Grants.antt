-- ===== src/Jobs/Repository/Grants.antt =====
-- What a granted claim means: the oldest eligible job, now running and owned by the worker.
use textify.Prelude.{
  ℕ, ◌<◌, ◌≤◌, ◌⊎◌, inl, inr, arith, select, Bool-cases, Bool, true, false, ◌&&◌, ◌≡◌, refl, sym,
  ap, ◌∙◌, subst, Option, none, some, List, [], ◌∷◌, ◌==◌, ==_iff, ltb, count, In, All, All-select,
  select-All, if◌then◌else◌, and-eq-true, All-zip,
}
use textify.Errors.{nonempty}
use textify.Jobs.Types.{
  Uuid, JobDispatch, ExecutionClaim, ClaimedTranscriptionJob, is_processing, is_queued, is_uuid4,
  Result, ok, err, value_error,
}
use textify.Jobs.Schema.{Job}
use textify.Jobs.Rows.{load_exclusions}
use textify.Jobs.Tx.{Store, commit, sorted_before, order_by}
use textify.Jobs.Tx.Updates.{update_rows-zero}
use textify.Jobs.Tx.Order.{All-order_by, members, HeadFirst, order_by-HeadFirst, All-unorder}
use textify.Jobs.Tx.Promises.{Gives, Gives-if, Gives-lift, Gives-select_one, Gives-commit}
use textify.Jobs.Repository.Policy.{
  is_eligible, is_waiting, is_overdue, matches_claim, matches_dispatch, time_out,
}
use textify.Jobs.Repository.Claiming.{
  first_id, oldest_eligible, claimed_inputs, take_ownership, start_processing, claim_oldest,
  claim_after_timeout, claim_tx, claim_dispatch,
}
use textify.Jobs.Repository.Lifecycle.Claims.{ownable, startable}

-- A job that is queued, not cancelled and before its deadline.
pub record IsReady (now : ℕ) (j : Job) : Type 0 where
  pub queued : is_queued j.status ≡ true
  pub uncancelled : j.cancellation_requested ≡ false
  pub in_time : now < j.queue_deadline_at

-- Submitted earlier; at the same time, with an identifier that is not greater.
pub IsBefore : Job → Job → Type 0
IsBefore j k =
    (j.submitted_at < k.submitted_at) ⊎ ((j.submitted_at ≡ k.submitted_at) × (j.id ≤ k.id))

-- The job `i` is ready, and no ready job comes before it.
pub record IsOldest (now i : ℕ) (js : List Job) : Type 0 where
  pub candidate : Job
  pub present : In candidate js
  pub identified : candidate.id ≡ i
  pub ready : IsReady now candidate
  pub least : (k : Job) → In k js → IsReady now k → IsBefore candidate k

earlier : Job → Job → Bool
earlier = sorted_before (λ j. j.submitted_at) (λ j. j.id)

earlier-total : (j k : Job) → earlier j k ≡ false → earlier k j ≡ true
unfolding earlier sorted_before
earlier-total j k h = ground arith

earlier-trans : (i j k : Job) → earlier i j ≡ true → earlier j k ≡ true → earlier i k ≡ true
unfolding earlier sorted_before
earlier-trans i j k g h = ground arith

earlier-IsBefore : (j k : Job) → earlier j k ≡ true → IsBefore j k
unfolding earlier sorted_before IsBefore
earlier-IsBefore j k h = ground arith

earlier_refl : (j : Job) → earlier j j ≡ true
unfolding earlier sorted_before
earlier_refl j = ground arith

pub is_eligible-IsReady : (now : ℕ) (j : Job) → is_eligible now j ≡ true → IsReady now j
unfolding is_eligible is_waiting
is_eligible-IsReady now j h = record {
  queued = ground arith;
  uncancelled = ground arith;
  in_time = ground arith;
}

pub IsReady-is_eligible : (now : ℕ) (j : Job) → IsReady now j → is_eligible now j ≡ true
unfolding is_eligible is_waiting
IsReady-is_eligible now j r = ground (arith, r.queued, r.uncancelled, r.in_time)

first_id-IsOldest :
    (now i : ℕ) (js rows : List Job)
    → All (λ j. In j js × (is_eligible now j ≡ true)) rows
    → HeadFirst earlier earlier-total earlier-trans rows
    → ((P : Job → Type 0) → All P rows → (k : Job) → In k js → is_eligible now k ≡ true → P k)
    → first_id rows ≡ some i
    → IsOldest now i js
unfolding first_id
first_id-IsOldest now i js [] h f all_of e = cc e
first_id-IsOldest now i js (j ∷ rows) h f all_of e = record {
  candidate = j;
  present = h.0.0;
  identified = cc e;
  ready = is_eligible-IsReady now j h.0.1;
  least = λ k m r.
      earlier-IsBefore j k
        (all_of (λ k. earlier j k ≡ true) (earlier_refl j, f) k m (IsReady-is_eligible now k r));
}

-- What holds of every row that meets a test holds of each.
All-selected :
    (P : Job → Type 0) (p : Job → Bool) (js : List Job) (k : Job)
    → All P (select p js)
    → In k js
    → p k ≡ true
    → P k
unfolding select
All-selected P p [] k h m e = elim m [ ]
All-selected P p (j ∷ js) k h (inl q) e =
    let (first, rest) : P k × All P (select p js) =
      rw (subst (λ x. p x ≡ true) q e, select, ← q) at h in
    first
All-selected P p (j ∷ js) k h (inr m) e = elim (Bool-cases (p j)) [
  | inl hit ↦ All-selected P p js k (rw (hit, select) at h).1 m e
  | inr miss ↦ All-selected P p js k (rw (miss, select) at h) m e
]

pub oldest_eligible-IsOldest :
    (now i : ℕ) (js : List Job) → oldest_eligible now js ≡ some i → IsOldest now i js
unfolding oldest_eligible earlier
oldest_eligible-IsOldest now i js e =
    first_id-IsOldest now i js (order_by earlier (select (is_eligible now) js))
      (All-order_by _ _ _ (
        All-zip _ _ _ (All-select _ (is_eligible now) js (members js))
          (select-All (is_eligible now) js)))
      (order_by-HeadFirst earlier earlier-total earlier-trans (select (is_eligible now) js))
      (λ P h k m r.
        All-selected P (is_eligible now) js k
          (All-unorder P earlier (select (is_eligible now) js) h) m r)
      e

-- The row behind a granted claim.
pub record Granted (claim : ExecutionClaim) (now : ℕ) (js : List Job) (x : ClaimedTranscriptionJob)
    (ks : List Job) : Type 0 where
  pub oldest : IsOldest now claim.dispatch.internal_job_id js
  pub row : Job
  pub member : In row ks
  pub identity : row.id ≡ claim.dispatch.internal_job_id
  pub owned : matches_claim claim row ≡ true
  pub running : is_processing row.status ≡ true
  pub answers : x.claim ≡ claim
  pub url : x.submitted_url ≡ row.submitted_url
  pub excluded : load_exclusions row ≡ ok x.exclusions

abbrev pub Grants : ExecutionClaim → ℕ → List Job → Option ClaimedTranscriptionJob → Store → Type 0
Grants claim now js none t = Unit
Grants claim now js (some x) t = Granted claim now js x t.jobs

module _ (claim : ExecutionClaim) (duration now : ℕ) (js : List Job)
    (oldest : oldest_eligible now js ≡ some claim.dispatch.internal_job_id) where
  claimed_inputs-Grants :
      (j : Job) (t : Store)
      → In j t.jobs
      → (matches_claim claim j && is_processing j.status) ≡ true
      → Gives (Grants claim now js) (claimed_inputs claim (some j) t)
  unfolding claimed_inputs
  claimed_inputs-Grants j t m h =
      Gives-if (Grants claim now js)
        (nonempty j.submitted_url && j.id == claim.dispatch.internal_job_id) _ _ t
        (λ e. Gives-lift (Grants claim now js) (load_exclusions j) _ t λ ex f. record {
          oldest = oldest_eligible-IsOldest now claim.dispatch.internal_job_id js oldest;
          row = j;
          member = m;
          identity = (==_iff _ _).0 (and-eq-true _ _ e).1;
          owned = (and-eq-true _ _ h).0;
          running = (and-eq-true _ _ h).1;
          answers = refl;
          url = refl;
          excluded = f;
        })
        (λ _. tt)

  take_ownership-Grants :
      (t : Store) → Gives (Grants claim now js) (take_ownership claim duration now t)
  unfolding take_ownership
  take_ownership-Grants t =
      Gives-if (Grants claim now js) (count (ownable claim.dispatch) t.jobs == 1) _ _ _
        (λ _.
          Gives-select_one (Grants claim now js)
            (λ j. matches_claim claim j && is_processing j.status) (claimed_inputs claim) _ tt
            (λ j m h. claimed_inputs-Grants j _ m h))
        (λ _. tt)

  start_processing-Grants :
      (t : Store) → Gives (Grants claim now js) (start_processing claim duration now t)
  unfolding start_processing
  start_processing-Grants t =
      Gives-if (Grants claim now js) (count (startable claim.dispatch now) t.jobs == 0) _ _ _
        (λ _. tt)
        (λ _.
          Gives-if (Grants claim now js) (count (startable claim.dispatch now) t.jobs == 1) _ _ _
            (λ _. take_ownership-Grants _) (λ _. tt))

claim_oldest-Grants :
    (claim : ExecutionClaim) (duration now : ℕ) (s : Store) (o : Option ℕ)
    → oldest_eligible now s.jobs ≡ o
    → Gives (Grants claim now s.jobs) (claim_oldest claim duration now o s)
unfolding claim_oldest
claim_oldest-Grants claim duration now s none e = tt
claim_oldest-Grants claim duration now s (some i) e =
    Gives-if (Grants claim now s.jobs) (i == claim.dispatch.internal_job_id) _ _ s
      (λ h. start_processing-Grants claim duration now s.jobs (e ∙ ap some ((==_iff _ _).0 h)) s)
      (λ _. tt)

claim_tx-Grants :
    (claim : ExecutionClaim) (duration now : ℕ) (s : Store)
    → Gives (Grants claim now s.jobs) (claim_tx claim duration now s)
unfolding claim_tx claim_after_timeout
claim_tx-Grants claim duration now s =
    Gives-if (Grants claim now s.jobs) (count late s.jobs == 0) _ _ _
      (λ e.
        subst
          (λ ls.
            Gives (Grants claim now s.jobs)
              (claim_after_timeout claim duration now (record s { jobs = ls })))
          (sym (update_rows-zero late (time_out now) s.jobs ((==_iff _ _).0 e)))
          (claim_oldest-Grants claim duration now s (oldest_eligible now s.jobs) refl))
      (λ _. Gives-if (Grants claim now s.jobs) (count late s.jobs == 1) _ _ _ (λ _. tt) (λ _. tt))
  where
    late : Job → Bool
    late j = is_overdue now j && matches_dispatch claim.dispatch j

-- A claim that is granted is of a job that was queued, not cancelled and before its deadline, and no
-- other such job was submitted earlier, or at the same time with a smaller id; that job now runs under exactly this claim; and the worker gets this claim with the
-- job's submitted URL and its exclusions.
pub claim_dispatch-Granted :
    (d : JobDispatch) (owner : Uuid) (duration now : ℕ) (s : Store) (x : ClaimedTranscriptionJob)
    → (claim_dispatch d owner duration now s).0 ≡ ok (some x)
    → Granted
        (record { dispatch = d; worker_owner = owner })
        now
        s.jobs
        x
        (claim_dispatch d owner duration now s).1.jobs
unfolding claim_dispatch
claim_dispatch-Granted d owner duration now s x e =
    go (is_uuid4 d.execution_attempt_token && is_uuid4 owner && ltb 0 duration) e
  where
    body : Bool → Result (Option ClaimedTranscriptionJob) × Store
    body b =
        if b
        then commit s (claim_tx (record { dispatch = d; worker_owner = owner }) duration now s)
        else (err value_error, s)

    go :
        (b : Bool)
        → (body b).0 ≡ ok (some x)
        → Granted (record { dispatch = d; worker_owner = owner }) now s.jobs x (body b).1.jobs
    go true h =
        Gives-commit (Grants (record { dispatch = d; worker_owner = owner }) now s.jobs) s _
          (some x) (claim_tx-Grants (record { dispatch = d; worker_owner = owner }) duration now s)
          h
    go false h = cc h

-- The oldest eligible job is an eligible row.
pub oldest_eligible-In :
    (now : ℕ) (js : List Job) (i : ℕ)
    → oldest_eligible now js ≡ some i
    → (j : Job) × (In j js × (is_eligible now j ≡ true)) × (j.id ≡ i)
oldest_eligible-In now js i e =
    let o = oldest_eligible-IsOldest now i js e in
    (o.candidate, (o.present, IsReady-is_eligible now o.candidate o.ready), o.identified)
