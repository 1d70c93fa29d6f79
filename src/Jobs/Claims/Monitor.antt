-- ===== src/Jobs/Claims/Monitor.antt =====
-- What one heartbeat batch does to the controls and to the lost claims.
use textify.Prelude.{
  ℕ, Bool, true, false, ◌&&◌, ◌||◌, ◌≡◌, refl, ◌∙◌, subst, Option, none, some, List, [], ◌∷◌,
  null_eq, is_none, is_some, any, contains, arith,
}
use textify.Jobs.Types.{ExecutionClaim, ClaimHeartbeat}
use textify.Jobs.Claims.{
  Registration, ClaimManager, same_claim, is_in, control_of, heartbeat_of, request_cancellation,
  apply_heartbeat, apply_heartbeats,
}

-- The claim is registered under this control, and the store reports it as cancelled or not at all.
pub must_stop : List ClaimHeartbeat → List Registration → ℕ → ExecutionClaim → Bool
must_stop hs rs k c =
    null_eq (control_of rs c) k && elim (heartbeat_of hs c) [ none ↦ true | some b ↦ b ]

-- The claim `c` of the batch is `d`, is still registered and is not reported.
pub is_lost : List ClaimHeartbeat → List Registration → ExecutionClaim → ExecutionClaim → Bool
is_lost hs rs d c = is_some (control_of rs c) && is_none (heartbeat_of hs c) && same_claim c d

abbrev pub Outcome :
    List ClaimHeartbeat → List ExecutionClaim → ClaimManager → ClaimManager → Type 0
Outcome hs cs m t =
    ((k : ℕ)
      → contains k t.signalled ≡ (contains k m.signalled || any (must_stop hs m.claims k) cs))
    × ((d : ExecutionClaim)
        → is_in t.ownership_lost d ≡ (is_in m.ownership_lost d || any (is_lost hs m.claims d) cs))
    × (t.claims ≡ m.claims)

step_signals :
    (c : ExecutionClaim) (q : Option ℕ) (h : Option Bool) (m : ClaimManager) (k : ℕ)
    → contains k (apply_heartbeat c q h m).signalled
      ≡ (contains k m.signalled || (null_eq q k && elim h [ none ↦ true | some b ↦ b ]))
unfolding apply_heartbeat request_cancellation contains any
step_signals c none h m k = ground arith
step_signals c (some q) none m k = ground arith
step_signals c (some q) (some true) m k = ground arith
step_signals c (some q) (some false) m k = ground arith

step_lost :
    (c : ExecutionClaim) (q : Option ℕ) (h : Option Bool) (m : ClaimManager) (d : ExecutionClaim)
    → is_in (apply_heartbeat c q h m).ownership_lost d
      ≡ (is_in m.ownership_lost d || (is_some q && is_none h && same_claim c d))
unfolding apply_heartbeat request_cancellation is_in any
step_lost c none h m d = ground arith
step_lost c (some q) none m d = ground arith
step_lost c (some q) (some true) m d = ground arith
step_lost c (some q) (some false) m d = ground arith

step_claims :
    (c : ExecutionClaim) (q : Option ℕ) (h : Option Bool) (m : ClaimManager)
    → (apply_heartbeat c q h m).claims ≡ m.claims
unfolding apply_heartbeat request_cancellation
step_claims c none h m = refl
step_claims c (some q) none m = refl
step_claims c (some q) (some true) m = refl
step_claims c (some q) (some false) m = refl

-- A heartbeat batch that the store has answered cancels exactly the controls of the claims that are
-- still registered and that the answer flags or leaves out, beside those cancelled before; it marks
-- as lost exactly the claims that are still registered and left out, beside those lost before; and
-- it leaves the registered claims as they are.
pub apply_heartbeats-Outcome :
    (hs : List ClaimHeartbeat) (cs : List ExecutionClaim) (m : ClaimManager)
    → Outcome hs cs m (apply_heartbeats hs cs m)
unfolding apply_heartbeats any must_stop is_lost
apply_heartbeats-Outcome hs [] m = (λ k. ground arith, λ d. ground arith, refl)
apply_heartbeats-Outcome hs (c ∷ cs) m =
    go (apply_heartbeat c q h m) (step_signals c q h m) (step_lost c q h m) (step_claims c q h m)
      (apply_heartbeats-Outcome hs cs (apply_heartbeat c q h m))
  where
    q : Option ℕ
    q = control_of m.claims c

    h : Option Bool
    h = heartbeat_of hs c

    go :
        (t : ClaimManager)
        → ((k : ℕ)
            → contains k t.signalled
              ≡ (contains k m.signalled || (null_eq q k && elim h [ none ↦ true | some b ↦ b ])))
        → ((d : ExecutionClaim)
            → is_in t.ownership_lost d
              ≡ (is_in m.ownership_lost d || (is_some q && is_none h && same_claim c d)))
        → t.claims ≡ m.claims
        → Outcome hs cs t (apply_heartbeats hs cs t)
        → Outcome hs (c ∷ cs) m (apply_heartbeats hs cs t)
    go t s l e (i, j, f) = (
      λ k.
          let ik : contains k (apply_heartbeats hs cs t).signalled
              ≡ (contains k t.signalled || any (must_stop hs m.claims k) cs) =
            subst
              (λ rs.
                contains k (apply_heartbeats hs cs t).signalled
                ≡ (contains k t.signalled || any (must_stop hs rs k) cs))
              e (i k) in
          ground (arith, ik, s k),
      λ d.
          let jd : is_in (apply_heartbeats hs cs t).ownership_lost d
              ≡ (is_in t.ownership_lost d || any (is_lost hs m.claims d) cs) =
            subst
              (λ rs.
                is_in (apply_heartbeats hs cs t).ownership_lost d
                ≡ (is_in t.ownership_lost d || any (is_lost hs rs d) cs))
              e (j d) in
          ground (arith, jd, l d),
      f ∙ e,
    )
