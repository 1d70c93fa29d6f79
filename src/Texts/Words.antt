-- ===== src/Texts/Words.antt =====
-- White space: what `split` and `join` undo.
use textify.Prelude.{
  ℕ, true, false, ◌≡◌, refl, sym, ◌∙◌, ap, List, [], ◌∷◌, ◌++◌, arith, Bool-cases, inl, inr, All,
  All-append,
}
use mathlib.Core.List.{append_assoc, append-nil}
use textify.Texts.{
  Text, Unicode, codes, head_or_nil, tail_of, join, begins_space, words, collapse_whitespace, empty,
}

-- A run without white space, not empty.
abbrev pub IsWord : Unicode → Text → Type 0
IsWord u w = (empty w ≡ false) × All (λ c. u.is_space c ≡ false) w

pub words-word :
    (u : Unicode) (w t : Text)
    → IsWord u w
    → begins_space u t ≡ true
    → words u (w ++ t) ≡ w ∷ words u t
unfolding words begins_space empty
words-word u [] t h b = absurd (cc h.0)
words-word u (c ∷ []) t h b = ground (arith, h.1.0)
words-word u (c ∷ d ∷ w) t h b =
    ground (arith, h.1.0, h.1.1.0, words-word u (d ∷ w) t (refl, h.1.1) b)

-- The space is white space.
module _ (u : Unicode) (blank : u.is_space b' ' ≡ true) where
  pub words-join : (ws : List Text) → All (IsWord u) ws → words u (join (codes " ") ws) ≡ ws
  unfolding words join begins_space
  words-join [] h = refl
  words-join (w ∷ []) h = ap (words u) (sym (append-nil w)) ∙ words-word u w [] h.0 refl
  words-join (w ∷ v ∷ ws) h =
      words-word u w (b' ' ∷ join (codes " ") (v ∷ ws)) h.0 blank
      ∙ ap (◌∷◌ w) (ground (arith, words-join (v ∷ ws) h.1))

attached :
    (u : Unicode) (c : ℕ) (ws : List Text)
    → u.is_space c ≡ false
    → All (IsWord u) ws
    → All (IsWord u) ((c ∷ head_or_nil ws) ∷ tail_of ws)
unfolding head_or_nil tail_of empty
attached u c [] s h = ((refl, (s, tt)), tt)
attached u c (w ∷ ws) s h = ((refl, (s, h.0.1)), h.1)

pub words-IsWord : (u : Unicode) (t : Text) → All (IsWord u) (words u t)
unfolding words empty
words-IsWord u [] = tt
words-IsWord u (c ∷ t) = elim (Bool-cases (u.is_space c)) [
  | inl s ↦ rw (s, words) (words-IsWord u t)
  | inr s ↦ elim (Bool-cases (begins_space u t)) [
    | inl b ↦ rw (s, words) (rw b ((refl, (s, tt)), words-IsWord u t))
    | inr b ↦ rw (s, words) (rw b (attached u c (words u t) s (words-IsWord u t)))
  ]
]

join-append :
    (w v : Text) (vs ws : List Text)
    → join (codes " ") ((w ∷ ws) ++ (v ∷ vs))
      ≡ join (codes " ") (w ∷ ws) ++ (codes " " ++ join (codes " ") (v ∷ vs))
unfolding join
join-append w v vs [] = refl
join-append w v vs (x ∷ ws) =
    ap (λ t. w ++ (b' ' ∷ t)) (join-append x v vs ws)
    ∙ sym (append_assoc w (b' ' ∷ join (codes " ") (x ∷ ws)) (b' ' ∷ join (codes " ") (v ∷ vs)))

module _ (u : Unicode) (blank : u.is_space b' ' ≡ true) where
  pub collapse_whitespace_idempotent :
      (t : Text) → collapse_whitespace u (collapse_whitespace u t) ≡ collapse_whitespace u t
  unfolding collapse_whitespace
  collapse_whitespace_idempotent t =
      ap (join (codes " ")) (words-join u blank (words u t) (words-IsWord u t))

-- One or more words with single spaces between them.
pub record IsPhrase (u : Unicode) (t : Text) : Type 0 where
  pub first : Text
  pub others : List Text
  pub good : All (IsWord u) (first ∷ others)
  pub spelled : t ≡ join (codes " ") (first ∷ others)

collapsed :
    (u : Unicode) (ws : List Text)
    → All (IsWord u) ws
    → empty (join (codes " ") ws) ≡ false
    → IsPhrase u (join (codes " ") ws)
unfolding join empty
collapsed u [] h e = absurd (cc e)
collapsed u (w ∷ ws) h e = record { first = w; others = ws; good = h; spelled = refl }

pub collapse_whitespace-IsPhrase :
    (u : Unicode) (t : Text)
    → empty (collapse_whitespace u t) ≡ false
    → IsPhrase u (collapse_whitespace u t)
unfolding collapse_whitespace
collapse_whitespace-IsPhrase u t e = collapsed u (words u t) (words-IsWord u t) e

nonempty_join :
    (u : Unicode) (w : Text) (ws : List Text)
    → IsWord u w
    → empty (join (codes " ") (w ∷ ws)) ≡ false
unfolding join empty
nonempty_join u [] ws h = cc h.0
nonempty_join u (c ∷ w) [] h = refl
nonempty_join u (c ∷ w) (v ∷ ws) h = refl

pub IsPhrase-nonempty : (u : Unicode) (t : Text) → IsPhrase u t → empty t ≡ false
IsPhrase-nonempty u t p = ap empty p.spelled ∙ nonempty_join u p.first p.others p.good.0

-- Two phrases with a space between them are a phrase.
pub IsPhrase-append :
    (u : Unicode) (s t : Text) → IsPhrase u s → IsPhrase u t → IsPhrase u (s ++ (codes " " ++ t))
IsPhrase-append u s t p q = record {
  first = p.first;
  others = p.others ++ q.first ∷ q.others;
  good = (p.good.0, All-append (IsWord u) p.others (q.first ∷ q.others) p.good.1 q.good);
  spelled =
      ap (λ x. x ++ (codes " " ++ t)) p.spelled
      ∙ ap (λ x. join (codes " ") (p.first ∷ p.others) ++ (codes " " ++ x)) q.spelled
      ∙ sym (join-append p.first q.first q.others p.others);
}

pub IsPhrase-collapse_whitespace :
    (u : Unicode) (t : Text) → u.is_space b' ' ≡ true → IsPhrase u t → collapse_whitespace u t ≡ t
unfolding collapse_whitespace
IsPhrase-collapse_whitespace u t blank p =
    ap (λ x. join (codes " ") (words u x)) p.spelled
    ∙ ap (join (codes " ")) (words-join u blank (p.first ∷ p.others) p.good)
    ∙ sym p.spelled
