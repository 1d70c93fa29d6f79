-- ===== src/Texts/Laws.antt =====
-- Laws of the functions on texts.
use textify.Prelude.{
  ℕ, true, false, ◌||◌, ◌≡◌, refl, sym, ◌∙◌, ap, List, [], ◌∷◌, ◌++◌, arith, any, Bool-cases, inl,
  inr, In,
}
use mathlib.Core.List.{append_assoc}
use textify.Texts.{
  Text, Unicode, same_text, is_one_of, has_code, starts_with, before, after, after_last, casefold,
  concat,
}

pub same_text-eq : (xs ys : Text) → same_text xs ys ≡ true → xs ≡ ys
unfolding same_text
same_text-eq [] [] h = refl
same_text-eq [] (y ∷ ys) h = cc h
same_text-eq (x ∷ xs) [] h = cc h
same_text-eq (x ∷ xs) (y ∷ ys) h = ground (arith, same_text-eq xs ys)

pub same_text_refl : (xs : Text) → same_text xs xs ≡ true
unfolding same_text
same_text_refl [] = refl
same_text_refl (x ∷ xs) = ground (arith, same_text_refl xs)

pub is_one_of-In : (ts : List Text) (t : Text) → is_one_of ts t ≡ true → In t ts
unfolding is_one_of any
is_one_of-In [] t h = cc h
is_one_of-In (u ∷ ts) t h = elim (Bool-cases (same_text t u)) [
  | inl e ↦ inl (same_text-eq t u e)
  | inr e ↦ inr (is_one_of-In ts t (ground arith))
]

pub starts_with-append : (p t : Text) → starts_with p (p ++ t) ≡ true
unfolding starts_with
starts_with-append [] t = refl
starts_with-append (c ∷ p) t = ground (arith, starts_with-append p t)

pub starts_with_both : (p q t : Text) → starts_with (p ++ q) (p ++ t) ≡ starts_with q t
unfolding starts_with
starts_with_both [] q t = refl
starts_with_both (c ∷ p) q t = ground (arith, starts_with_both p q t)

pub starts_with_extra : (p t s : Text) → starts_with p t ≡ true → starts_with p (t ++ s) ≡ true
unfolding starts_with
starts_with_extra [] t s h = refl
starts_with_extra (c ∷ p) [] s h = cc h
starts_with_extra (c ∷ p) (d ∷ t) s h = ground (arith, starts_with_extra p t s)

pub before-absent : (c : ℕ) (t : Text) → has_code c t ≡ false → before c t ≡ t
unfolding before has_code any
before-absent c [] h = refl
before-absent c (d ∷ t) h = ground (arith, before-absent c t)

pub before-after : (c : ℕ) (t : Text) → has_code c t ≡ true → before c t ++ c ∷ after c t ≡ t
unfolding before after has_code any
before-after c [] h = cc h
before-after c (d ∷ t) h = ground (arith, before-after c t)

pub after_last-absent : (c : ℕ) (t : Text) → has_code c t ≡ false → after_last c t ≡ t
unfolding after_last has_code any
after_last-absent c [] h = refl
after_last-absent c (d ∷ t) h = ground (arith, after_last-absent c t)

pub casefold-append :
    (u : Unicode) (xs ys : Text) → casefold u (xs ++ ys) ≡ casefold u xs ++ casefold u ys
unfolding casefold concat
casefold-append u [] ys = refl
casefold-append u (x ∷ xs) ys =
    ap (◌++◌ (u.fold x)) (casefold-append u xs ys)
    ∙ sym (append_assoc (u.fold x) (casefold u xs) (casefold u ys))

pub is_one_of-append :
    (ts us : List Text) (t : Text) → is_one_of (ts ++ us) t ≡ (is_one_of ts t || is_one_of us t)
unfolding is_one_of any
is_one_of-append [] us t = refl
is_one_of-append (v ∷ ts) us t = ground (arith, is_one_of-append ts us t)
