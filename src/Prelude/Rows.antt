-- ===== src/Prelude/Rows.antt =====
-- Laws of the Boolean list functions: what `All`, `In`, `count` and `select` say of one another.
use mathlib.Core.Path.{subst}
use Prim.Native.Nat.{ℕ, ◌≤◌}
use mathlib.Core.Path.{◌≡◌, refl, sym}
use mathlib.Core.Logic.{inl, inr}
use mathlib.Core.Bool.{Bool, true, false, ◌||◌}
use mathlib.Core.List.{List, [], ◌∷◌, ◌++◌}
use native.Mathlib.Omega.{arith}
use textify.Prelude.Tests.{Bool-cases}
use textify.Prelude.Lists.{length, select, count, all, any, contains, All, In}

module _ {A : Type 0} where
  pub all→All : (p : A → Bool) (xs : List A) → all p xs ≡ true → All (λ x. p x ≡ true) xs
  unfolding all
  all→All p [] h = tt
  all→All p (x ∷ xs) h = (ground arith, all→All p xs (ground arith))

  pub All→all : (p : A → Bool) (xs : List A) → All (λ x. p x ≡ true) xs → all p xs ≡ true
  unfolding all
  All→all p [] h = refl
  All→all p (x ∷ xs) h = ground (arith, All→all p xs h.1)

  pub All-map {ℓ κ} :
      (P : A → Type ℓ) (Q : A → Type κ)
      → ((x : A) → P x → Q x)
      → (xs : List A) → All P xs
      → All Q xs
  All-map P Q f [] h = tt
  All-map P Q f (x ∷ xs) h = (f x h.0, All-map P Q f xs h.1)

  pub All-zip {ℓ κ} :
      (P : A → Type ℓ) (Q : A → Type κ) (xs : List A)
      → All P xs
      → All Q xs
      → All (λ x. P x × Q x) xs
  All-zip P Q [] h k = tt
  All-zip P Q (x ∷ xs) h k = ((h.0, k.0), All-zip P Q xs h.1 k.1)

  pub All-append {ℓ} : (P : A → Type ℓ) (xs ys : List A) → All P xs → All P ys → All P (xs ++ ys)
  All-append P [] ys h k = k
  All-append P (x ∷ xs) ys h k = (h.0, All-append P xs ys h.1 k)

  pub All-select {ℓ} :
      (P : A → Type ℓ) (p : A → Bool) (xs : List A) → All P xs → All P (select p xs)
  unfolding select
  All-select P p [] h = tt
  All-select P p (x ∷ xs) h = elim (Bool-cases (p x)) [
    | inl e ↦ rw (e, select) (h.0, All-select P p xs h.1)
    | inr e ↦ rw (e, select) (All-select P p xs h.1)
  ]

  pub All-In {ℓ} : (P : A → Type ℓ) (x : A) (xs : List A) → All P xs → In x xs → P x
  All-In P x [] h i = elim i [ ]
  All-In P x (y ∷ ys) h (inl e) = subst P (sym e) h.0
  All-In P x (y ∷ ys) h (inr i) = All-In P x ys h.1 i

  pub All-from_In {ℓ} : (P : A → Type ℓ) (xs : List A) → ((x : A) → In x xs → P x) → All P xs
  All-from_In P [] h = tt
  All-from_In P (x ∷ xs) h = (h x (inl refl), All-from_In P xs (λ y i. h y (inr i)))

  pub select-All : (p : A → Bool) (xs : List A) → All (λ x. p x ≡ true) (select p xs)
  unfolding select
  select-All p [] = tt
  select-All p (x ∷ xs) = elim (Bool-cases (p x)) [
    | inl e ↦ rw (e, select) (e, select-All p xs)
    | inr e ↦ rw (e, select) (select-All p xs)
  ]

  keep_head : (x y : A) (xs ys : List A) → (In x xs → In x ys) → In x (y ∷ xs) → In x (y ∷ ys)
  keep_head x y xs ys f (inl e) = inl e
  keep_head x y xs ys f (inr i) = inr (f i)

  pub In-select : (p : A → Bool) (x : A) (xs : List A) → In x (select p xs) → In x xs
  unfolding select
  In-select p x [] i = i
  In-select p x (y ∷ ys) i = elim (Bool-cases (p y)) [
    | inl e ↦ keep_head x y (select p ys) ys (In-select p x ys) (rw (e, select) at i)
    | inr e ↦ inr (In-select p x ys (rw (e, select) at i))
  ]

  pub count-le :
      (p q : A → Bool) (xs : List A)
      → All (λ x. p x ≡ true → q x ≡ true) xs
      → count p xs ≤ count q xs
  unfolding count
  count-le p q [] h = omega arith
  count-le p q (x ∷ xs) h = ground (arith, count-le p q xs h.1, h.0)

  -- A test that implies another and passes as often agrees with it.
  pub count-eq :
      (p q : A → Bool) (xs : List A)
      → All (λ x. p x ≡ true → q x ≡ true) xs
      → count p xs ≡ count q xs
      → All (λ x. q x ≡ true → p x ≡ true) xs
  unfolding count
  count-eq p q [] h e = tt
  count-eq p q (x ∷ xs) h e = (
    ground (arith, count-le p q xs h.1, h.0),
    count-eq p q xs h.1 (ground (arith, count-le p q xs h.1, h.0)),
  )

  pub count_ext : (p q : A → Bool) (xs : List A) → All (λ x. p x ≡ q x) xs → count p xs ≡ count q xs
  unfolding count
  count_ext p q [] h = refl
  count_ext p q (x ∷ xs) h = ground (arith, count_ext p q xs h.1)

  pub length-select : (p : A → Bool) (xs : List A) → length (select p xs) ≡ count p xs
  unfolding select count
  length-select p [] = refl
  length-select p (x ∷ xs) = ground (arith, length-select p xs)

  pub count-zero : (p : A → Bool) (xs : List A) → count p xs ≡ 0 → All (λ x. p x ≡ false) xs
  unfolding count
  count-zero p [] h = tt
  count-zero p (x ∷ xs) h = (ground arith, count-zero p xs (ground arith))

  pub All-pure {ℓ} : (P : A → Type ℓ) (xs : List A) → ((x : A) → P x) → All P xs
  All-pure P [] f = tt
  All-pure P (x ∷ xs) f = (f x, All-pure P xs f)

pub contains-append :
    (x : ℕ) (xs ys : List ℕ) → contains x (xs ++ ys) ≡ (contains x xs || contains x ys)
unfolding contains any
contains-append x [] ys = refl
contains-append x (y ∷ xs) ys = ground (arith, contains-append x xs ys)
