-- ===== src/Transcription/Inspection/Timeouts/Tests.antt =====
-- The traversal on a cycle.
use textify.Prelude.{
  ℕ, Bool, true, false, ◌≡◌, ◌↔◌, refl, none, some, [], ◌∷◌, ◌==◌, if◌then◌else◌, inl, inr, arith,
  contains, any,
}
use textify.Transcription.Inspection.Timeouts.{Raised, links, is_timeout_exception}
use textify.Transcription.Inspection.Timeouts.Search.{HasTimeout, is_timeout_exception-HasTimeout}

abbrev plain : Raised
plain = record {
  is_timeout = false;
  is_download_error = false;
  nested = none;
  cause = none;
  context = none;
  reason = none;
}

-- The first is caused by the second, which it is the context of; the second has a timeout as its reason.
abbrev cycle : ℕ → Raised
cycle e =
    if e == 0
    then record plain { cause = some 1 }
    else if e == 1
    then record plain { context = some 0; reason = some 2 }
    else record plain { is_timeout = true }

answer : is_timeout_exception 13 cycle 0 ≡ some true
unfolding is_timeout_exception contains any links
answer = refl

is_timeout_exception-HasTimeout_example :
    (b : Bool) × (is_timeout_exception 13 cycle 0 ≡ some b) × ((b ≡ true) ↔ HasTimeout cycle 0)
unfolding links
is_timeout_exception-HasTimeout_example =
    is_timeout_exception-HasTimeout cycle (0 ∷ 1 ∷ 2 ∷ []) 0 13
      ((inr (inl refl), tt), ((inr (inr (inl refl)), (inl refl, tt)), (tt, tt))) (inl refl)
      (omega arith)
