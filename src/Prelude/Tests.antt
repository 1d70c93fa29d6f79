-- ===== src/Prelude/Tests.antt =====
-- Boolean tests on numbers and options, and the conditional.
use Prim.Native.Nat.{ℕ, ◌≤◌, ◌<◌, compare, Ordering}
use mathlib.Core.Path.{◌≡◌, refl}
use mathlib.Core.Logic.{◌↔◌, ◌⊎◌, inl, inr}
use mathlib.Core.Bool.{Bool, true, false, ◌&&◌, not}
use mathlib.Core.Option.{Option, none, some}
use native.Mathlib.Omega.{arith}

abbrev pub ltb : ℕ → ℕ → Bool
ltb a b = elim (compare a b) [ Ordering.lt ↦ true | _ ↦ false ]

abbrev pub leb : ℕ → ℕ → Bool
leb a b = elim (compare a b) [ Ordering.gt ↦ false | _ ↦ true ]

infix 50 ◌==◌
abbrev pub ◌==◌ : ℕ → ℕ → Bool
a == b = elim (compare a b) [ Ordering.eq ↦ true | _ ↦ false ]

infix 1 if◌then◌else◌
abbrev pub if◌then◌else◌ {ℓ} : {A : Type ℓ} → Bool → A → A → A
if true then x else y = x
if false then x else y = y

pub ltb→lt : (a b : ℕ) → ltb a b ≡ true → a < b
ltb→lt a b h = ground arith

pub lt→ltb : (a b : ℕ) → a < b → ltb a b ≡ true
lt→ltb a b h = ground arith

pub leb→le : (a b : ℕ) → leb a b ≡ true → a ≤ b
leb→le a b h = ground arith

pub le→leb : (a b : ℕ) → a ≤ b → leb a b ≡ true
le→leb a b h = ground arith

pub ==_iff : (a b : ℕ) → ((a == b) ≡ true) ↔ (a ≡ b)
==_iff a b = ground arith

pub ==_refl : (a : ℕ) → (a == a) ≡ true
==_refl a = ground arith

-- To split on a computed value and keep the equation.
pub Bool-cases : (b : Bool) → (b ≡ true) ⊎ (b ≡ false)
Bool-cases true = inl refl
Bool-cases false = inr refl

pub Option-cases {ℓ} : {A : Type ℓ} (o : Option A) → (o ≡ none) ⊎ ((a : A) × (o ≡ some a))
Option-cases none = inl refl
Option-cases (some a) = inr (a, refl)

pub and-eq-true : (a b : Bool) → (a && b) ≡ true → (a ≡ true) × (b ≡ true)
and-eq-true a b h = ground arith

-- `IS NULL` and `IS NOT NULL`
module _ {ℓ} {A : Type ℓ} where
  abbrev pub is_none : Option A → Bool
  is_none none = true
  is_none (some a) = false

  abbrev pub is_some : Option A → Bool
  is_some none = false
  is_some (some a) = true

-- A nullable column compared with a value: the comparison with NULL is not true.
abbrev pub null_eq : Option ℕ → ℕ → Bool
null_eq none b = false
null_eq (some a) b = a == b

abbrev pub null_le : Option ℕ → ℕ → Bool
null_le none b = false
null_le (some a) b = leb a b

abbrev pub null_gt : Option ℕ → ℕ → Bool
null_gt none b = false
null_gt (some a) b = ltb b a

pub not-eq-true : (b : Bool) → not b ≡ true → b ≡ false
not-eq-true true h = cc
not-eq-true false h = refl
