-- ===== src/Jobs/Repository/Heartbeats.antt =====
-- What a heartbeat tells the worker.
use textify.Prelude.{
  ℕ, ◌+◌, Bool, true, false, ◌≡◌, refl, Option, none, some, List, [], ◌∷◌, map, In, All, All-select,
  All-zip, select-All, arith, if◌then◌else◌, ltb, all, null_eq, null_gt, ==_refl,
}
use textify.Jobs.Types.{ExecutionClaim, ClaimHeartbeat, Result, ok, err, is_processing, value_error}
use textify.Jobs.Schema.{Job}
use textify.Jobs.Schema.Updates.{In-update}
use textify.Jobs.Tx.{Store, update_rows, commit, transaction}
use textify.Jobs.Tx.Order.{members}
use textify.Jobs.Tx.Promises.{Gives, Gives-commit}
use textify.Jobs.Repository.Policy.{matches_claim, with_attempt, set_attempt}
use textify.Jobs.Repository.Claiming.{
  is_renewable, renewed, cancellation_of, heartbeats_of, valid_claim, renew, heartbeat_nonempty,
  heartbeat_claims,
}

-- A row whose claim runs until `expires`.
pub record Alive (expires : ℕ) (js : List Job) (r : Job) : Type 0 where
  pub member : In r js
  pub running : is_processing r.status ≡ true
  pub leased : with_attempt (λ a. null_eq a.claim_lease_expires_at expires) r ≡ true

-- A reported claim owns a row that is alive, and the report has the row's flag.
pub record Reported (expires : ℕ) (js : List Job) (h : ClaimHeartbeat) : Type 0 where
  pub row : Job
  pub alive : Alive expires js row
  pub owned : matches_claim h.claim row ≡ true
  pub flag : row.cancellation_requested ≡ h.cancellation_requested

cancellation_of-found :
    (expires : ℕ) (js rows : List Job) (c : ExecutionClaim) (b : Bool)
    → All (Alive expires js) rows
    → cancellation_of rows c ≡ some b
    → Reported expires js (record { claim = c; cancellation_requested = b })
unfolding cancellation_of
cancellation_of-found expires js [] c b h e = cc e
cancellation_of-found expires js (j ∷ rows) c b h e =
    go (matches_claim c j) refl e (cancellation_of-found expires js rows c b h.1)
  where
    go :
        (m : Bool)
        → matches_claim c j ≡ m
        → (elim m as (λ x. Option Bool) [
          | true ↦ some j.cancellation_requested
          | false ↦ cancellation_of rows c
        ])
          ≡ some b
        → (cancellation_of rows c ≡ some b
            → Reported expires js (record { claim = c; cancellation_requested = b }))
        → Reported expires js (record { claim = c; cancellation_requested = b })
    go true m k f = record { row = j; alive = h.0; owned = m; flag = cc k }
    go false m k f = f k

heartbeats_of-Reported :
    (expires : ℕ) (js rows : List Job) (cs : List ExecutionClaim)
    → All (Alive expires js) rows
    → All (Reported expires js) (heartbeats_of rows cs)
unfolding heartbeats_of
heartbeats_of-Reported expires js rows [] h = tt
heartbeats_of-Reported expires js rows (c ∷ cs) h =
    go (cancellation_of rows c) (cancellation_of-found expires js rows c)
      (heartbeats_of-Reported expires js rows cs h)
  where
    go :
        (o : Option Bool)
        → ((b : Bool)
            → All (Alive expires js) rows
            → o ≡ some b
            → Reported expires js (record { claim = c; cancellation_requested = b }))
        → All (Reported expires js) (heartbeats_of rows cs)
        → All (Reported expires js) (elim o as (λ x. List ClaimHeartbeat) [
          | none ↦ heartbeats_of rows cs
          | some b ↦ record { claim = c; cancellation_requested = b } ∷ heartbeats_of rows cs
        ])
    go none f rest = rest
    go (some b) f rest = (f b h refl, rest)

renewable-guard :
    (cs : List ExecutionClaim) (now : ℕ) (j : Job)
    → is_renewable cs now j ≡ true
    → (is_processing j.status ≡ true)
      × (with_attempt (λ a. null_gt a.claim_lease_expires_at now) j ≡ true)
unfolding is_renewable
renewable-guard cs now j h = ground arith

renewed-lease :
    (now expires : ℕ) (j : Job)
    → with_attempt (λ a. null_gt a.claim_lease_expires_at now) j ≡ true
    → with_attempt
        (λ a. null_eq a.claim_lease_expires_at expires)
        (set_attempt (renewed now expires) j)
      ≡ true
unfolding set_attempt with_attempt
renewed-lease now expires j h = ground (arith, h, ==_refl expires)

-- The rows of the update.
renewed-Alive :
    (cs : List ExecutionClaim) (now expires : ℕ) (js : List Job) (j : Job)
    → In j js
    → is_renewable cs now j ≡ true
    → Alive expires
        (update_rows (is_renewable cs now) (set_attempt (renewed now expires)) js)
        (set_attempt (renewed now expires) j)
unfolding set_attempt
renewed-Alive cs now expires js j m h = record {
  member = In-update (is_renewable cs now) (set_attempt (renewed now expires)) js j m h;
  running = (renewable-guard cs now j h).0;
  leased = renewed-lease now expires j (renewable-guard cs now j h).1;
}

map-All :
    (P Q : Job → Type 0) (f : Job → Job) (js : List Job)
    → ((j : Job) → P j → Q (f j))
    → All P js
    → All Q (map f js)
map-All P Q f [] k h = tt
map-All P Q f (j ∷ js) k h = (k j h.0, map-All P Q f js k h.1)

renew-Reported :
    (cs : List ExecutionClaim) (duration now : ℕ) (s : Store)
    → Gives (λ hs t. All (Reported (now + duration) t.jobs) hs) (renew cs duration now s)
unfolding renew
renew-Reported cs duration now s = heartbeats_of-Reported (now + duration) _ _ cs (
    map-All (λ j. In j s.jobs × (is_renewable cs now j ≡ true)) _ _ _
      (λ j k. renewed-Alive cs now (now + duration) s.jobs j k.0 k.1)
      (All-zip _ _ _ (All-select _ (is_renewable cs now) s.jobs (members s.jobs))
        (select-All (is_renewable cs now) s.jobs)))

nonempty-Reported :
    (cs : List ExecutionClaim) (duration now : ℕ) (s : Store) (hs : List ClaimHeartbeat)
    → (heartbeat_nonempty cs duration now s).0 ≡ ok hs
    → All (Reported (now + duration) (heartbeat_nonempty cs duration now s).1.jobs) hs
unfolding heartbeat_nonempty transaction
nonempty-Reported [] duration now s [] e = tt
nonempty-Reported [] duration now s (h ∷ hs) e = cc e
nonempty-Reported (c ∷ cs) duration now s hs e = go (all valid_claim (c ∷ cs)) e
  where
    body : Bool → Result (List ClaimHeartbeat) × Store
    body b = if b then commit s (renew (c ∷ cs) duration now s) else (err value_error, s)

    go : (b : Bool) → (body b).0 ≡ ok hs → All (Reported (now + duration) (body b).1.jobs) hs
    go true k =
        Gives-commit (λ ls t. All (Reported (now + duration) t.jobs) ls) s
          (renew (c ∷ cs) duration now s) hs (renew-Reported (c ∷ cs) duration now s) k
    go false k = cc k

-- Every claim that a heartbeat reports is the claim of a running job, whose lease now ends exactly
-- one lease duration after the clock reading, and the reported cancellation is the flag that the
-- store has for that job.
pub heartbeat_claims-Reported :
    (cs : List ExecutionClaim) (duration now : ℕ) (s : Store) (hs : List ClaimHeartbeat)
    → (heartbeat_claims cs duration now s).0 ≡ ok hs
    → All (Reported (now + duration) (heartbeat_claims cs duration now s).1.jobs) hs
unfolding heartbeat_claims
heartbeat_claims-Reported cs duration now s hs e = go (ltb 0 duration) e
  where
    body : Bool → Result (List ClaimHeartbeat) × Store
    body b = if b then heartbeat_nonempty cs duration now s else (err value_error, s)

    go : (b : Bool) → (body b).0 ≡ ok hs → All (Reported (now + duration) (body b).1.jobs) hs
    go true k = nonempty-Reported cs duration now s hs k
    go false k = cc k
