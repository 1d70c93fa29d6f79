-- ===== src/Jobs/Repository/History/Moves.antt =====
-- What one move of the lifecycle keeps of a row.
use textify.Prelude.{ℕ, refl, sym, subst, List, [], ◌∷◌, All}
use textify.Jobs.Schema.{Job}
use textify.Jobs.Repository.Policy.{Policy}
use textify.Jobs.Repository.Claiming.{renewed}
use textify.Jobs.Repository.Lifecycle.{
  Move, stays, delivers, renews, times_out, starts, withdraws, flags, cancels, fails, succeeds,
  IsNew, Evolves, done, keep, drop,
}
use textify.Jobs.Repository.Invariant.{IsSound}
use textify.Jobs.Repository.Invariant.Sound.{
  new_job-IsSound, time_out-IsSound, set_attempt-IsSound, started-IsSound, fail-IsSound,
  cancel-IsSound, succeed-IsSound, cancel_queued-IsSound, flag_cancellation-IsSound,
}

pub Move-IsSound : {j k : Job} → Move j k → IsSound j → IsSound k
Move-IsSound {j} (stays e) v = subst IsSound (sym e) v
Move-IsSound {j} (delivers f on e) v =
    subst IsSound (sym e) (set_attempt-IsSound f j on.same_owner v)
Move-IsSound {j} (renews now x run e) v =
    subst IsSound (sym e) (set_attempt-IsSound (renewed now x) j (λ a. refl) v)
Move-IsSound {j} (times_out now late e) v = subst IsSound (sym e) (time_out-IsSound now j late v)
Move-IsSound {j} (starts w now x ready e) v =
    subst IsSound (sym e) (started-IsSound w now x j ready v)
Move-IsSound {j} (withdraws now wait e) v =
    subst IsSound (sym e) (cancel_queued-IsSound now j wait v)
Move-IsSound {j} (flags run unset e) v = subst IsSound (sym e) (flag_cancellation-IsSound j v)
Move-IsSound {j} (cancels now run set e) v = subst IsSound (sym e) (cancel-IsSound now j run v)
Move-IsSound {j} (fails c m now run unset e) v =
    subst IsSound (sym e) (fail-IsSound c m now j run v)
Move-IsSound {j} (succeeds r now run unset e) v =
    subst IsSound (sym e) (succeed-IsSound r now j run v)

-- A statement that moves keep and new jobs meet holds of all rows after a call.
pub Evolves-All {ℓ} :
    (P : Job → Type ℓ) (p : Policy)
    → ((j k : Job) → Move j k → P j → P k)
    → ((k : Job) → IsNew p k → P k)
    → {room : ℕ} {gone : Job → Type 0} {js ks : List Job} → Evolves p room gone js ks
    → All P js
    → All P ks
Evolves-All P p move new (done ks fresh few) h = all_new ks fresh
  where
    all_new : (ls : List Job) → All (IsNew p) ls → All P ls
    all_new [] f = tt
    all_new (l ∷ ls) f = (new l f.0, all_new ls f.1)
Evolves-All P p move new (keep j k m e) h = (move j k m h.0, Evolves-All P p move new e h.1)
Evolves-All P p move new (drop j old e) h = Evolves-All P p move new e h.1

pub Evolves-IsSound :
    (p : Policy) {room : ℕ} {gone : Job → Type 0} {js ks : List Job}
    → Evolves p room gone js ks
    → All IsSound js
    → All IsSound ks
Evolves-IsSound p e h =
    Evolves-All IsSound p (λ j k m v. Move-IsSound m v)
      (λ k n. subst IsSound (sym n.written) (new_job-IsSound p n.now n.fresh n.request n.id)) e h
