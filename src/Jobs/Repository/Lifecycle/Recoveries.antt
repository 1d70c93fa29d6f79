-- ===== src/Jobs/Repository/Lifecycle/Recoveries.antt =====
-- A recovery finishes the rows of lost claims; retention deletes finished rows only.
use textify.Prelude.{
  ℕ, Bool, true, false, not, ◌&&◌, ◌≡◌, refl, sym, subst, List, [], ◌∷◌, ◌++◌, map, ◌==◌, ltb,
  and-eq-true, not-eq-true, null_le, contains, contains-append, count, length, select, All, In,
  All-map, All-zip, All-select, select-All, arith, inl, inr, Bool-cases, if◌then◌else◌,
}
use textify.Jobs.Types.{is_processing}
use textify.Jobs.Schema.{Job, unique}
use textify.Jobs.Schema.Identity.{named_by_ids, schema_check-unique}
use textify.Jobs.Tx.{Store, delete_where, update_rows}
use textify.Jobs.Tx.Updates.{patch, update_rows-zero, commit-keeps}
use textify.Jobs.Tx.Chains.{After, After-if, After-bind, After-ok}
use textify.Jobs.Tx.Order.{All-order_by, All-take, members}
use textify.Jobs.Repository.Policy.{Policy, with_attempt, set_attempt, cleared}
use textify.Jobs.Repository.Invariant.{Inv}
use textify.Jobs.Repository.Lifecycle.{
  Never, Move, stays, cancels, fails, Evolves, done, keep, drop, IsPast, Evolves-refl, room,
}
use textify.Jobs.Repository.Lifecycle.Commits.{Evolved, Evolved-refl, guarded-Evolved}
use textify.Jobs.Repository.Recovery.{
  is_lost, lost_rows, requested, unrequested, finish_cancelled, interrupt, transition_all,
  clear_claims, recover_ids, recover_rows, recover_expired_claims, is_retired,
  delete_expired_terminal_jobs,
}

abbrev pub moves : List ℕ → (Job → Bool) → Job → Bool
moves ids p j = contains j.id ids && is_processing j.status && p j

abbrev pub clears : List ℕ → ℕ → Job → Bool
clears ids now j = contains j.id ids && with_attempt (λ a. null_le a.claim_lease_expires_at now) j

moves-nil : (p : Job → Bool) (js : List Job) → count (moves [] p) js ≡ 0
unfolding count contains
moves-nil p [] = refl
moves-nil p (j ∷ js) = moves-nil p js

pub transition_all-After :
    (P : Store → Type 0) (ids : List ℕ) (p : Job → Bool) (f : Job → Job) (s : Store)
    → P (record s { jobs = update_rows (moves ids p) f s.jobs })
    → After P (transition_all ids p f s)
unfolding transition_all
transition_all-After P [] p f s h =
    subst (λ js. P (record s { jobs = js }))
      (update_rows-zero (moves [] p) f s.jobs (moves-nil p s.jobs)) h
transition_all-After P (i ∷ ids) p f s h =
    After-if P (count (moves (i ∷ ids) p) s.jobs == length (i ∷ ids)) _ _ _ (λ _. h) (λ _. tt)

-- What the three updates of a recovery do to one row.
pub recovered : List ℕ → List ℕ → ℕ → Job → Job
recovered cs is now j =
    if contains j.id cs
    then set_attempt cleared (finish_cancelled now j)
    else if contains j.id is
    then set_attempt cleared (interrupt now j)
    else j

-- The ids name rows that are lost, the cancelled ones apart.
pub record AreLost (cs is : List ℕ) (now : ℕ) (j : Job) : Type 0 where
  pub cancelled_row :
      contains j.id cs ≡ true → (is_lost now j ≡ true) × (j.cancellation_requested ≡ true)
  pub interrupted_row :
      contains j.id is ≡ true → (is_lost now j ≡ true) × (j.cancellation_requested ≡ false)

pub recovered_lem :
    (cs is : List ℕ) (now : ℕ) (j : Job)
    → AreLost cs is now j
    → patch (clears (cs ++ is) now) (set_attempt cleared) (
        patch
          (moves is unrequested)
          (interrupt now)
          (patch (moves cs requested) (finish_cancelled now) j))
      ≡ recovered cs is now j
unfolding recovered is_lost is_processing interrupt with_attempt
recovered_lem cs is now j h = ground (arith, contains-append j.id cs is, h)

recovered-Move :
    (cs is : List ℕ) (now : ℕ) (j : Job) → AreLost cs is now j → Move j (recovered cs is now j)
unfolding recovered is_lost interrupt
recovered-Move cs is now j h = elim (Bool-cases (contains j.id cs)) [
  | inl c ↦
      let (lost, flag) = h.cancelled_row c in rw c (cancels now (and-eq-true _ _ lost).0 flag refl)
  | inr n ↦ elim (Bool-cases (contains j.id is)) [
    | inl c ↦
        let (lost, flag) = h.interrupted_row c in
        rw n (rw c (fails _ _ now (and-eq-true _ _ lost).0 flag refl))
    | inr m ↦ rw n (rw m (stays refl))
  ]
]

-- Rows of the store, all lost: their ids name lost rows only.
module _ (now : ℕ) (js rows : List Job) (u : unique (map (λ j. j.id) js) ≡ true) where
  abbrev pub cancelled_ids : List ℕ
  cancelled_ids = map (λ j. j.id) (select requested rows)

  abbrev pub interrupted_ids : List ℕ
  interrupted_ids = map (λ j. j.id) (select unrequested rows)

  pub rows-AreLost :
      All (λ r. In r js) rows
      → All (λ r. is_lost now r ≡ true) rows
      → All (AreLost cancelled_ids interrupted_ids now) js
  rows-AreLost ins lost =
      All-map _ (AreLost cancelled_ids interrupted_ids now)
        (λ j h. record {
          cancelled_row = h.0;
          interrupted_row = λ c. ((h.1 c).0, not-eq-true _ (h.1 c).1);
        })
        js
        (All-zip _ _ js
          (named_by_ids (λ r. (is_lost now r ≡ true) × (requested r ≡ true)) (select requested rows)
            js u (All-select _ requested rows ins)
            (All-zip _ _ _ (All-select _ requested rows lost) (select-All requested rows)))
          (named_by_ids (λ r. (is_lost now r ≡ true) × (unrequested r ≡ true))
            (select unrequested rows) js u (All-select _ unrequested rows ins)
            (All-zip _ _ _ (All-select _ unrequested rows lost) (select-All unrequested rows))))

-- The rows that `recover_expired_claims` selects.
pub lost_rows-In : (now limit : ℕ) (s : Store) → All (λ r. In r s.jobs) (lost_rows now limit s)
unfolding lost_rows
lost_rows-In now limit s =
    All-take _ limit _ (All-order_by _ _ _ (All-select _ (is_lost now) s.jobs (members s.jobs)))

pub lost_rows-lost :
    (now limit : ℕ) (s : Store) → All (λ r. is_lost now r ≡ true) (lost_rows now limit s)
unfolding lost_rows
lost_rows-lost now limit s =
    All-take _ limit _ (All-order_by _ _ _ (select-All (is_lost now) s.jobs))

recover_ids-After :
    (P : Store → Type 0) (cs is : List ℕ) (now : ℕ) (s : Store)
    → P (record s {
      jobs = update_rows (clears (cs ++ is) now) (set_attempt cleared) (
          update_rows
            (moves is unrequested)
            (interrupt now)
            (update_rows (moves cs requested) (finish_cancelled now) s.jobs));
    })
    → After P (recover_ids cs is now s)
unfolding recover_ids clear_claims
recover_ids-After P cs is now s h =
    After-bind P (transition_all cs requested (finish_cancelled now)) _ s (
      transition_all-After _ cs requested (finish_cancelled now) s λ m.
        After-bind P (transition_all is unrequested (interrupt now)) _ _
          (transition_all-After _ is unrequested (interrupt now) _ λ n. ground (arith, h)))

-- The three updates of a recovery, row by row.
recovered-Evolves :
    {room : ℕ} (p : Policy) (cs is : List ℕ) (now : ℕ) (js : List Job)
    → All (AreLost cs is now) js
    → Evolves p room Never js (
        update_rows (clears (cs ++ is) now) (set_attempt cleared) (
          update_rows
            (moves is unrequested)
            (interrupt now)
            (update_rows (moves cs requested) (finish_cancelled now) js)))
unfolding update_rows
recovered-Evolves p cs is now [] h = done [] tt (omega arith)
recovered-Evolves p cs is now (j ∷ js) h =
    keep j _ (subst (Move j) (sym (recovered_lem cs is now j h.0)) (recovered-Move cs is now j h.0))
      (recovered-Evolves p cs is now js h.1)

recover_rows-After :
    (p : Policy) (now : ℕ) (s : Store) (rows : List Job)
    → Inv s
    → All (λ r. In r s.jobs) rows
    → All (λ r. is_lost now r ≡ true) rows
    → After (Evolved p s) (recover_rows now rows s)
unfolding recover_rows
recover_rows-After p now s [] v ins lost = Evolved-refl p s
recover_rows-After p now s (r ∷ rs) v ins lost = recover_ids-After (Evolved p s) _ _ now s (
    recovered-Evolves p _ _ now s.jobs
      (rows-AreLost now s.jobs (r ∷ rs) (schema_check-unique s.jobs v.schema) ins lost))

pub recover_expired_claims-Evolved :
    (p : Policy) (limit now : ℕ) (s : Store)
    → Inv s
    → Evolved p s (recover_expired_claims limit now s).1
unfolding recover_expired_claims
recover_expired_claims-Evolved p limit now s v = guarded-Evolved p (ltb 0 limit) s _ λ _.
    recover_rows-After p now s (lost_rows now limit s) v (lost_rows-In now limit s)
      (lost_rows-lost now limit s)

is_retired-IsPast : (p : Policy) (now : ℕ) (j : Job) → is_retired p now j ≡ true → IsPast p now j
unfolding is_retired
is_retired-IsPast p now j h = ground (arith, h)

retired-Evolves :
    {room : ℕ} (p : Policy) (now : ℕ) (js : List Job)
    → Evolves p room (IsPast p now) js (select (λ j. not (is_retired p now j)) js)
unfolding select
retired-Evolves p now [] = done [] tt (omega arith)
retired-Evolves p now (j ∷ js) = elim (Bool-cases (is_retired p now j)) [
  | inl old ↦ rw (old, select) (drop j (is_retired-IsPast p now j old) (retired-Evolves p now js))
  | inr young ↦ rw (young, select) (keep j j (stays refl) (retired-Evolves p now js))
]

pub delete_expired_terminal_jobs-Evolves :
    (p : Policy) (now : ℕ) (s : Store)
    → Evolves p (room p s) (IsPast p now) s.jobs (delete_expired_terminal_jobs p now s).1.jobs
unfolding delete_expired_terminal_jobs
delete_expired_terminal_jobs-Evolves p now s =
    commit-keeps (λ t. Evolves p (room p s) (IsPast p now) s.jobs t.jobs) s
      (delete_where (is_retired p now) s) (Evolves-refl p s.jobs)
      (λ a t e _.
        After-ok (λ t. Evolves p (room p s) (IsPast p now) s.jobs t.jobs)
          (delete_where (is_retired p now) s) a t (retired-Evolves p now s.jobs) e)
