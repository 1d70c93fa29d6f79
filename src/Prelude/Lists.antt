-- ===== src/Prelude/Lists.antt =====
-- Lists filtered, counted and searched by Boolean tests, over the native numbers.
use Prim.Native.Nat.{ℕ, zero, suc}
use mathlib.Core.Path.{◌≡◌}
use mathlib.Core.Bool.{Bool, true, false, ◌&&◌, ◌||◌}
use mathlib.Core.Logic.{◌⊎◌}
use mathlib.Core.List.{List, [], ◌∷◌}
use textify.Prelude.Tests.{if◌then◌else◌, ◌==◌}

module _ {ℓ} {A : Type ℓ} where
  abbrev pub length : List A → ℕ
  length [] = 0
  length (x ∷ xs) = suc (length xs)

  abbrev pub take : ℕ → List A → List A
  take zero xs = []
  take (suc n) [] = []
  take (suc n) (x ∷ xs) = x ∷ take n xs

  -- The rows that pass a test, in their order.
  unfoldable pub select : (A → Bool) → List A → List A
  select p [] = []
  select p (x ∷ xs) = let rest = select p xs in if p x then x ∷ rest else rest

  unfoldable pub count : (A → Bool) → List A → ℕ
  count p [] = 0
  count p (x ∷ xs) = let rest = count p xs in if p x then suc rest else rest

  unfoldable pub all : (A → Bool) → List A → Bool
  all p [] = true
  all p (x ∷ xs) = p x && all p xs

  unfoldable pub any : (A → Bool) → List A → Bool
  any p [] = false
  any p (x ∷ xs) = p x || any p xs

  -- A statement about every element.
  abbrev pub All {κ} : (A → Type κ) → List A → Type κ
  All P [] = Unit
  All P (x ∷ xs) = P x × All P xs

-- `x in xs`
unfoldable pub contains : ℕ → List ℕ → Bool
unfolding any
contains x = any (λ y. y == x)

-- `x` is an element; this can be taken apart into any type.
abbrev pub In : {A : Type 0} → A → List A → Type 0
In x [] = ⊥
In x (y ∷ ys) = (x ≡ y) ⊎ In x ys
