-- ===== src/Jobs/Repository/History/Ownership.antt =====
-- A Job Dispatch is claimed once.
use textify.Prelude.{ℕ, true, ◌≡◌, sym, ◌∙◌, subst, some, In, arith, ◌⊎◌, inl, inr}
use textify.Jobs.Types.{Uuid, JobDispatch, ClaimedTranscriptionJob, is_queued, is_processing, ok}
use textify.Jobs.Schema.{Job}
use textify.Jobs.Schema.Identity.{id-injective, schema_check-unique}
use textify.Jobs.Tx.{Store}
use textify.Jobs.Repository.Policy.{Policy, is_eligible, is_waiting}
use textify.Jobs.Repository.Claiming.{claim_dispatch}
use textify.Jobs.Repository.Steps.{Reach, claim, after}
use textify.Jobs.Repository.Invariant.{Inv}
use textify.Jobs.Repository.Grants.{Granted, claim_dispatch-Granted, IsReady-is_eligible}
use textify.Jobs.Repository.History.Invariance.{Reach-Inv, after-Inv}
use textify.Jobs.Repository.History.Following.{Follows, status_rank}
use textify.Jobs.Repository.History.Fates.{Fate, stands, removed, Removal, Removal-map, Reach-Fate}
use textify.Jobs.Repository.History.Cancellations.{same_id}

-- A job that once ran is not eligible any more.
ineligible :
    (now : ℕ) (j k : Job)
    → is_processing j.status ≡ true
    → Follows j k
    → is_eligible now k ≡ true
    → ⊥
unfolding status_rank is_eligible is_waiting is_processing is_queued
ineligible now j k run f h = ground (arith, run, f.forward, h)

-- A Job Dispatch is claimed at most once: after a worker was granted a claim of it, no worker, at
-- any clock reading and however many calls were made between, is granted another, even when the
-- first worker is lost and its job recovered; unless a cleanup of the history between ran while the
-- row of that job stood past its retention, by the clock reading of the cleanup.
pub claim_dispatch-once :
    (p : Policy) (d : JobDispatch) (owner other : Uuid) (duration longer now later : ℕ)
    (x y : ClaimedTranscriptionJob) {s t : Store}
    → Inv s
    → (claim_dispatch d owner duration now s).0 ≡ ok (some x)
    → (path : Reach p (claim_dispatch d owner duration now s).1 t)
    → ¬ ((claim_dispatch d other longer later t).0 ≡ ok (some y))
      ⊎ Removal (λ k. k.id ≡ d.internal_job_id) path
unfolding after
claim_dispatch-once p d owner other duration longer now later x y {s} {t} v e path =
    go (Reach-Fate p g.row path w g.member)
  where
    g :
        Granted
          (record { dispatch = d; worker_owner = owner })
          now
          s.jobs
          x
          (claim_dispatch d owner duration now s).1.jobs
    g = claim_dispatch-Granted d owner duration now s x e

    w : Inv (claim_dispatch d owner duration now s).1
    w = after-Inv p (claim d owner duration now) s v

    refused :
        (k : Job)
        → In k t.jobs
        → Follows g.row k
        → ¬ ((claim_dispatch d other longer later t).0 ≡ ok (some y))
    refused k m f h =
        let again = claim_dispatch-Granted d other longer later t y h in
        let old = again.oldest in
        let one =
          id-injective t.jobs old.candidate k
            (schema_check-unique t.jobs (Reach-Inv p path w).schema) old.present m
            (old.identified ∙ sym (same_id g.row k f ∙ g.identity)) in
        ineligible later g.row k g.running f (
          subst (λ r. is_eligible later r ≡ true) one
            (IsReady-is_eligible later old.candidate old.ready))

    go :
        Fate g.row path
        → ¬ ((claim_dispatch d other longer later t).0 ≡ ok (some y))
          ⊎ Removal (λ k. k.id ≡ d.internal_job_id) path
    go (stands k m f) = inl (refused k m f)
    go (removed h) = inr (
        Removal-map (Follows g.row) (λ k. k.id ≡ d.internal_job_id) path
          (λ k f. same_id g.row k f ∙ g.identity) h)
