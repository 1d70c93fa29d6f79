-- ===== src/Jobs/Repository/History/Capacity.antt =====
-- The bound on outstanding jobs.
use textify.Prelude.{ℕ, ◌+◌, ◌≤◌, Bool, true, ◌≡◌, List, [], ◌∷◌, count, length, arith}
use textify.Jobs.Types.{is_queued, is_processing}
use textify.Jobs.Schema.{Job}
use textify.Jobs.Tx.{Store}
use textify.Jobs.Repository.Policy.{
  Policy, is_overdue, is_eligible, set_attempt, is_waiting, time_out, fail_with,
}
use textify.Jobs.Repository.Admission.{is_outstanding, count_outstanding_jobs}
use textify.Jobs.Repository.Steps.{Reach, here, next}
use textify.Jobs.Repository.Invariant.{Inv}
use textify.Jobs.Repository.Lifecycle.{
  Move, stays, delivers, renews, times_out, starts, withdraws, flags, cancels, fails, succeeds,
  Evolves, done, keep, drop, room,
}
use textify.Jobs.Repository.Lifecycle.Refinement.{after-Evolves}
use textify.Jobs.Repository.History.Invariance.{Reach-Inv}

-- A job that is not outstanding does not become so again.
Move-outstanding : {j k : Job} → Move j k → is_outstanding k ≡ true → is_outstanding j ≡ true
unfolding is_outstanding is_queued is_processing is_overdue is_eligible is_waiting set_attempt
    time_out fail_with
Move-outstanding {j} {k} (stays e) h = ground (arith, e, h)
Move-outstanding {j} {k} (delivers f on e) h = ground (arith, e, h)
Move-outstanding {j} {k} (renews now x run e) h = ground (arith, run)
Move-outstanding {j} {k} (times_out now late e) h = ground (arith, late)
Move-outstanding {j} {k} (starts w now x ready e) h = ground (arith, ready)
Move-outstanding {j} {k} (withdraws now wait e) h = ground (arith, wait)
Move-outstanding {j} {k} (flags run unset e) h = ground (arith, run)
Move-outstanding {j} {k} (cancels now run set e) h = ground (arith, run)
Move-outstanding {j} {k} (fails c m now run unset e) h = ground (arith, run)
Move-outstanding {j} {k} (succeeds r now run unset e) h = ground (arith, run)

count-length : (p : Job → Bool) (js : List Job) → count p js ≤ length js
unfolding count
count-length p [] = omega arith
count-length p (j ∷ js) = ground (arith, count-length p js)

Evolves-outstanding :
    (p : Policy) {free : ℕ} {gone : Job → Type 0} {js ks : List Job}
    → Evolves p free gone js ks
    → count is_outstanding ks ≤ count is_outstanding js + free
unfolding count
Evolves-outstanding p (done ks fresh few) = omega (arith, few, count-length is_outstanding ks)
Evolves-outstanding p (keep j k m e) = ground (arith, Move-outstanding m, Evolves-outstanding p e)
Evolves-outstanding p (drop j old e) = ground (arith, Evolves-outstanding p e)

-- However many processes call the repository, in any order: once the queued and the processing jobs
-- are at most `maximum_outstanding_jobs`, they stay at most as many.
pub Reach-outstanding :
    (p : Policy) {s t : Store}
    → Reach p s t
    → Inv s
    → count_outstanding_jobs s ≤ p.maximum_outstanding_jobs
    → count_outstanding_jobs t ≤ p.maximum_outstanding_jobs
unfolding count_outstanding_jobs room
Reach-outstanding p here v h = h
Reach-outstanding p {s} (next {t} r c) v h = omega (
  arith,
  Evolves-outstanding p (after-Evolves p c t (Reach-Inv p r v)),
  Reach-outstanding p r v h,
)
