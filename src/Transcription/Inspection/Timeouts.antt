-- ===== src/Transcription/Inspection/Timeouts.antt =====
-- `_is_timeout_exception` of transcription/inspection.py. An exception object is its identity, and
-- the heap gives what the traversal reads of it; links may form cycles.
pub mod Search
mod Tests
use textify.Prelude.{
  ℕ, zero, suc, Bool, true, false, ◌&&◌, Option, none, some, List, [], ◌∷◌, ◌++◌, contains,
  if◌then◌else◌,
}

-- `nested` is the exception in `exc_info[1]`, if it is a tuple that holds one there.
pub record Raised : Type 0 where
  pub is_timeout : Bool
  pub is_download_error : Bool
  pub nested : Option ℕ
  pub cause : Option ℕ
  pub context : Option ℕ
  pub reason : Option ℕ

unfoldable pub one : Option ℕ → List ℕ
one none = []
one (some e) = e ∷ []

-- The exceptions that are appended to `pending`, the last one first.
unfoldable pub links : Raised → List ℕ
unfolding one
links r =
    one r.reason
    ++ (one r.context ++ (one r.cause ++ (if r.is_download_error then one r.nested else [])))

-- The loop, `pending` with its end first; `none` means that the fuel ran out.
unfoldable pub search_timeout : ℕ → (ℕ → Raised) → List ℕ → List ℕ → Option Bool
search_timeout fuel heap [] visited = some false
search_timeout zero heap (e ∷ pending) visited = none
search_timeout (suc fuel) heap (e ∷ pending) visited =
    let skipped = search_timeout fuel heap pending visited in
    let entered = search_timeout fuel heap (links (heap e) ++ pending) (e ∷ visited) in
    if contains e visited then skipped else if (heap e).is_timeout then some true else entered

unfoldable pub is_timeout_exception : ℕ → (ℕ → Raised) → ℕ → Option Bool
unfolding search_timeout
is_timeout_exception fuel heap e = search_timeout fuel heap (e ∷ []) []
