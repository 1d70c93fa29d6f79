-- ===== src/Jobs/Tx/Order.antt =====
-- ORDER BY and LIMIT neither lose nor make up a row.
use textify.Prelude.{
  ℕ, zero, suc, ◌≤◌, Bool, true, false, ◌≡◌, refl, List, [], ◌∷◌, All, In, take, length, Bool-cases,
  inl, inr, arith, All-from_In,
}
use textify.Jobs.Schema.{Job}
use textify.Jobs.Tx.{insert_sorted, order_by}

All-insert_sorted {ℓ} :
    (P : Job → Type ℓ) (le : Job → Job → Bool) (j : Job) (ks : List Job)
    → P j
    → All P ks
    → All P (insert_sorted le j ks)
unfolding insert_sorted
All-insert_sorted P le j [] h k = (h, tt)
All-insert_sorted P le j (x ∷ xs) h k = elim (Bool-cases (le j x)) [
  | inl e ↦ rw (e, insert_sorted) (h, k)
  | inr e ↦ rw (e, insert_sorted) (k.0, All-insert_sorted P le j xs h k.1)
]

pub All-order_by {ℓ} :
    (P : Job → Type ℓ) (le : Job → Job → Bool) (js : List Job) → All P js → All P (order_by le js)
unfolding order_by
All-order_by P le [] h = tt
All-order_by P le (j ∷ js) h = All-insert_sorted P le j _ h.0 (All-order_by P le js h.1)

pub All-take {ℓ} : (P : Job → Type ℓ) (n : ℕ) (js : List Job) → All P js → All P (take n js)
All-take P zero js h = tt
All-take P (suc n) [] h = tt
All-take P (suc n) (j ∷ js) h = (h.0, All-take P n js h.1)

length-insert_sorted :
    (le : Job → Job → Bool) (j : Job) (ks : List Job)
    → length (insert_sorted le j ks) ≡ suc (length ks)
unfolding insert_sorted
length-insert_sorted le j [] = refl
length-insert_sorted le j (x ∷ xs) = ground (arith, length-insert_sorted le j xs)

pub length-order_by : (le : Job → Job → Bool) (js : List Job) → length (order_by le js) ≡ length js
unfolding order_by
length-order_by le [] = refl
length-order_by le (j ∷ js) =
    omega (arith, length-insert_sorted le j (order_by le js), length-order_by le js)

pub length-take_le : (n : ℕ) (js : List Job) → length (take n js) ≤ n
length-take_le zero js = omega arith
length-take_le (suc n) [] = omega arith
length-take_le (suc n) (j ∷ js) = omega (arith, length-take_le n js)

-- Every row is a row of its list.
pub members : (js : List Job) → All (λ j. In j js) js
members js = All-from_In (λ j. In j js) js (λ j i. i)

-- ORDER BY puts a least row first.
module _ (le : Job → Job → Bool) (total : (j k : Job) → le j k ≡ false → le k j ≡ true)
    (trans : (i j k : Job) → le i j ≡ true → le j k ≡ true → le i k ≡ true) where
  -- The first row comes before the others.
  abbrev pub HeadFirst : List Job → Type 0
  HeadFirst [] = Unit
  HeadFirst (j ∷ js) = All (λ k. le j k ≡ true) js

  before-All :
      (j x : Job) (xs : List Job)
      → le j x ≡ true
      → All (λ k. le x k ≡ true) xs
      → All (λ k. le j k ≡ true) xs
  before-All j x [] h k = tt
  before-All j x (y ∷ ys) h k = (trans j x y h k.0, before-All j x ys h k.1)

  insert_sorted-HeadFirst :
      (j : Job) (ks : List Job) → HeadFirst ks → HeadFirst (insert_sorted le j ks)
  unfolding insert_sorted
  insert_sorted-HeadFirst j [] h = tt
  insert_sorted-HeadFirst j (x ∷ xs) h = elim (Bool-cases (le j x)) [
    | inl e ↦ rw (e, insert_sorted) (e, before-All j x xs e h)
    | inr e ↦ rw (e, insert_sorted) (All-insert_sorted (λ k. le x k ≡ true) le j xs (total j x e) h)
  ]

  pub order_by-HeadFirst : (js : List Job) → HeadFirst (order_by le js)
  unfolding order_by
  order_by-HeadFirst [] = tt
  order_by-HeadFirst (j ∷ js) = insert_sorted-HeadFirst j (order_by le js) (order_by-HeadFirst js)

All-uninsert :
    (P : Job → Type 0) (le : Job → Job → Bool) (j : Job) (ks : List Job)
    → All P (insert_sorted le j ks)
    → P j × All P ks
unfolding insert_sorted
All-uninsert P le j [] h = h
All-uninsert P le j (x ∷ xs) h = elim (Bool-cases (le j x)) [
  | inl e ↦ (rw (e, insert_sorted) at h)
  | inr e ↦
      let (first, rest) : P x × All P (insert_sorted le j xs) = rw (e, insert_sorted) at h in
      let (a, b) = All-uninsert P le j xs rest in (a, (first, b))
]

-- What holds of the ordered rows holds of the rows.
pub All-unorder :
    (P : Job → Type 0) (le : Job → Job → Bool) (js : List Job) → All P (order_by le js) → All P js
unfolding order_by
All-unorder P le [] h = tt
All-unorder P le (j ∷ js) h =
    let (a, b) = All-uninsert P le j (order_by le js) h in (a, All-unorder P le js b)
