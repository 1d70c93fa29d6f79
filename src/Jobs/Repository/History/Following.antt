-- ===== src/Jobs/Repository/History/Following.antt =====
-- How a row may stand to the row that it was at an earlier time.
use textify.Prelude.{
  ℕ, ◌≤◌, Bool, true, false, ◌≡◌, refl, sym, ap, ◌∙◌, subst, Option, none, some, ◌&&◌, ◌||◌, arith,
}
use textify.Jobs.Types.{JobStatus, queued, processing, finished, is_processing, is_finished}
use textify.Jobs.Schema.{Attempt, Job}
use textify.Jobs.Rows.{is_cancelled}
use textify.Jobs.Repository.Policy.{
  is_overdue, is_eligible, is_waiting, set_attempt, time_out, fail_with, cleared,
}
use textify.Jobs.Repository.Publishing.{succeed}
use textify.Jobs.Repository.Lifecycle.{
  Move, stays, delivers, renews, times_out, starts, withdraws, flags, cancels, fails, succeeds,
}

-- An attempt as admission writes it, but for its first dispatch time.
abbrev pub new_attempt : Option Attempt → Option Attempt
new_attempt none = none
new_attempt (some a) = some (record {
  execution_attempt_token = a.execution_attempt_token;
  next_dispatch_at = 0;
  publication_lease_owner = none;
  publication_lease_expires_at = none;
  last_dispatched_at = none;
  dispatch_count = 0;
  worker_owner = none;
  last_heartbeat_at = none;
  claim_lease_expires_at = none;
})

-- What a row was accepted as: the columns that no method rewrites, the others reset.
unfoldable pub as_accepted : Job → Job
as_accepted j = record j {
  status = queued;
  outcome = none;
  started_at = none;
  finished_at = none;
  cancellation_requested = false;
  error_code = none;
  error_message = none;
  attempt = new_attempt j.attempt;
  result = none;
}

-- The order of the statuses.
unfoldable pub status_rank : JobStatus → ℕ
status_rank queued = 0
status_rank processing = 1
status_rank finished = 2

-- A cancellation is accepted, or is the outcome.
unfoldable pub is_cancelling : Job → Bool
unfolding is_processing is_finished is_cancelled
is_cancelling j =
    (is_processing j.status && j.cancellation_requested)
    || (is_finished j.status && is_cancelled j.outcome)

-- `k` may be what `j` has become: the accepted request and its identity are the same; the status
-- does not go back; a finished row keeps every column but those of its attempt; an accepted
-- cancellation leads to no other outcome.
pub record Follows (j k : Job) : Type 0 where
  pub accepted : as_accepted k ≡ as_accepted j
  pub forward : status_rank j.status ≤ status_rank k.status
  pub final : is_finished j.status ≡ true → k ≡ record j { attempt = k.attempt }
  pub cancelling : is_cancelling j ≡ true → is_cancelling k ≡ true

pub Follows-refl : (j : Job) → Follows j j
Follows-refl j = record {
  accepted = refl;
  forward = omega arith;
  final = λ _. refl;
  cancelling = λ h. h;
}

stays_finished : (j k : Job) → k ≡ record j { attempt = k.attempt } → k.status ≡ j.status
stays_finished j k e = ap (λ (x : Job). x.status) e

pub Follows-trans : {i j k : Job} → Follows i j → Follows j k → Follows i k
Follows-trans {i} {j} {k} f g = record {
  accepted = g.accepted ∙ f.accepted;
  forward = omega (arith, f.forward, g.forward);
  final = λ h.
      let e = f.final h in
      g.final (ap (λ (x : Job). is_finished x.status) e ∙ h)
      ∙ ap (λ (x : Job). record x { attempt = k.attempt }) e;
  cancelling = λ h. g.cancelling (f.cancelling h);
}

accepted-set_attempt :
    (f : Attempt → Attempt) (j : Job)
    → ((a : Attempt) → (f a).execution_attempt_token ≡ a.execution_attempt_token)
    → as_accepted (set_attempt f j) ≡ as_accepted j
unfolding as_accepted set_attempt
accepted-set_attempt f j h =
    ap (λ (a : Option Attempt). record (as_accepted j) { attempt = a }) (go j.attempt)
  where
    go :
        (a : Option Attempt)
        → new_attempt (elim a [ none ↦ none | some x ↦ some (f x) ]) ≡ new_attempt a
    go none = refl
    go (some a) = rw (h a)

attempt-Follows :
    (f : Attempt → Attempt) (j : Job)
    → ((a : Attempt) → (f a).execution_attempt_token ≡ a.execution_attempt_token)
    → Follows j (set_attempt f j)
unfolding set_attempt is_cancelling
attempt-Follows f j h = record {
  accepted = accepted-set_attempt f j h;
  forward = omega arith;
  final = λ _. refl;
  cancelling = λ c. c;
}

-- A row that is not finished yet, and its next row.
open-Follows :
    (j k : Job)
    → as_accepted k ≡ as_accepted j
    → is_finished j.status ≡ false
    → status_rank j.status ≤ status_rank k.status
    → (is_cancelling j ≡ true → is_cancelling k ≡ true)
    → Follows j k
open-Follows j k e unfinished up c = record {
  accepted = e;
  forward = up;
  final = λ h. cc (h, unfinished);
  cancelling = c;
}

pub Move-Follows : {j k : Job} → Move j k → Follows j k
unfolding as_accepted status_rank is_cancelling set_attempt is_overdue is_eligible is_waiting
    time_out fail_with
Move-Follows {j} {k} (stays e) = subst (Follows j) (sym e) (Follows-refl j)
Move-Follows {j} {k} (delivers f on e) =
    subst (Follows j) (sym e) (attempt-Follows f j on.same_token)
Move-Follows {j} {k} (renews now x run e) =
    subst (Follows j) (sym e) (attempt-Follows _ j (λ a. refl))
Move-Follows {j} {k} (times_out now late e) =
    subst (Follows j) (sym e)
      (open-Follows j _ refl (ground (arith, late)) (ground (arith, late)) (ground (arith, late)))
Move-Follows {j} {k} (starts w now x ready e) = subst (Follows j) (sym e) (
    Follows-trans
      (open-Follows j (record j { status = processing; started_at = some now }) refl
        (ground (arith, ready)) (ground (arith, ready)) (ground (arith, ready)))
      (attempt-Follows _ _ (λ a. refl)))
Move-Follows {j} {k} (withdraws now wait e) =
    subst (Follows j) (sym e)
      (open-Follows j _ refl (ground (arith, wait)) (ground (arith, wait)) (ground (arith, wait)))
Move-Follows {j} {k} (flags run unset e) =
    subst (Follows j) (sym e)
      (open-Follows j _ refl (ground (arith, run)) (ground (arith, run)) (ground (arith, run)))
Move-Follows {j} {k} (cancels now run set e) = subst (Follows j) (sym e) (
    Follows-trans
      (open-Follows j _ refl (ground (arith, run)) (ground (arith, run)) (ground (arith, run)))
      (attempt-Follows _ _ (λ a. refl)))
Move-Follows {j} {k} (fails c m now run unset e) = subst (Follows j) (sym e) (
    Follows-trans
      (open-Follows j _ refl (ground (arith, run)) (ground (arith, run))
        (ground (arith, run, unset)))
      (attempt-Follows _ _ (λ a. refl)))
Move-Follows {j} {k} (succeeds r now run unset e) = subst (Follows j) (sym e) (
    open-Follows j (record (set_attempt cleared (succeed now j)) { result = some r })
      (accepted-set_attempt cleared j (λ a. refl)) (ground (arith, run)) (ground (arith, run))
      (ground (arith, run, unset)))
