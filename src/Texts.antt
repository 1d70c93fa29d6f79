-- ===== src/Texts.antt =====
-- What the program uses of Python's `str`: a text is the list of its code points, and the tables of
-- the Unicode database are a parameter.
pub mod Laws
pub mod Words
use Prim.Native.Char.{code}
use textify.Prelude.{
  ℕ, zero, suc, ◌+◌, ◌*◌, String, Bool, true, false, ◌&&◌, ◌||◌, not, Option, none, some, List, [],
  ◌∷◌, ◌++◌, map, ◌==◌, ltb, leb, all, any, is_some, if◌then◌else◌, ◌≡◌,
}

abbrev pub Text : Type 0
Text = List ℕ

-- The code points of a literal.
abbrev pub codes : String → Text
codes String.[] = []
codes (String.◌∷◌ c s) = code c ∷ codes s

-- `xs == ys`
unfoldable pub same_text : Text → Text → Bool
same_text [] [] = true
same_text [] (y ∷ ys) = false
same_text (x ∷ xs) [] = false
same_text (x ∷ xs) (y ∷ ys) = x == y && same_text xs ys

-- `x in frozenset`
unfoldable pub is_one_of : List Text → Text → Bool
unfolding same_text any
is_one_of ts t = any (λ u. same_text t u) ts

unfoldable pub has_code : ℕ → Text → Bool
unfolding any
has_code c t = any (λ d. d == c) t

-- `t.startswith(p)`
unfoldable pub starts_with : Text → Text → Bool
starts_with [] t = true
starts_with (c ∷ p) [] = false
starts_with (c ∷ p) (d ∷ t) = c == d && starts_with p t

-- `t.endswith(p)`
unfoldable pub ends_with : Text → Text → Bool
unfolding same_text
ends_with p [] = same_text p []
ends_with p (c ∷ t) = same_text p (c ∷ t) || ends_with p t

-- `p in t`
unfoldable pub has_part : Text → Text → Bool
unfolding starts_with
has_part p [] = starts_with p []
has_part p (c ∷ t) = starts_with p (c ∷ t) || has_part p t

-- `t.partition(c)`: what stands before the first `c`, and after it
unfoldable pub before : ℕ → Text → Text
before c [] = []
before c (d ∷ t) = let rest = before c t in if d == c then [] else d ∷ rest

unfoldable pub after : ℕ → Text → Text
after c [] = []
after c (d ∷ t) = let rest = after c t in if d == c then t else rest

unfoldable pub head_or_nil : List Text → Text
head_or_nil [] = []
head_or_nil (t ∷ ts) = t

unfoldable pub tail_of : List Text → List Text
tail_of [] = []
tail_of (t ∷ ts) = ts

-- `t.split(c)`
unfoldable pub split : ℕ → Text → List Text
unfolding head_or_nil tail_of
split c [] = [] ∷ []
split c (d ∷ t) =
    let rest = split c t in if d == c then [] ∷ rest else (d ∷ head_or_nil rest) ∷ tail_of rest

-- `c.join(ts)`
unfoldable pub join : Text → List Text → Text
join c [] = []
join c (t ∷ []) = t
join c (t ∷ u ∷ ts) = t ++ (c ++ join c (u ∷ ts))

-- `t.removesuffix(c)`
unfoldable pub remove_suffix : ℕ → Text → Text
remove_suffix c [] = []
remove_suffix c (d ∷ []) = if d == c then [] else d ∷ []
remove_suffix c (d ∷ e ∷ t) = d ∷ remove_suffix c (e ∷ t)

unfoldable pub empty : Text → Bool
empty [] = true
empty (c ∷ t) = false

unfoldable pub is_ascii_digit : ℕ → Bool
is_ascii_digit c = leb 48 c && leb c 57

unfoldable pub is_ascii_alpha : ℕ → Bool
is_ascii_alpha c = (leb 65 c && leb c 90) || (leb 97 c && leb c 122)

-- The tables of the interpreter: `str.lower`, full case folding, `isspace`, `isdigit` and the decimal digits
-- that `int` reads. `isdigit` holds of some characters, such as a superscript two, that `int`
-- refuses.
pub record Unicode : Type 0 where
  pub lower : Text → Text
  pub fold : ℕ → Text
  pub is_space : ℕ → Bool
  pub is_digit : ℕ → Bool
  pub decimal : ℕ → Option ℕ

unfoldable pub fold_ascii : ℕ → ℕ
fold_ascii c = if leb 65 c && leb c 90 then c + 32 else c

unfoldable pub concat : List Text → Text
concat [] = []
concat (t ∷ ts) = t ++ concat ts

-- `t.casefold()`
unfoldable pub casefold : Unicode → Text → Text
unfolding concat
casefold u t = concat (map u.fold t)

-- `not t.strip()`
unfoldable pub is_blank : Unicode → Text → Bool
unfolding all
is_blank u t = all u.is_space t

-- `t.isdigit()`
unfoldable pub isdigit : Unicode → Text → Bool
unfolding all empty
isdigit u t = not (empty t) && all u.is_digit t

-- `int(t)` of a text of digits
unfoldable pub read_decimal : Unicode → Text → ℕ → Option ℕ
read_decimal u [] n = some n
read_decimal u (c ∷ t) n = elim (u.decimal c) [
  | none ↦ none
  | some d ↦ read_decimal u t (n * 10 + d)
]

-- `ts[i]`, where there is such an item
unfoldable pub item : ℕ → List Text → Text
item i [] = []
item zero (t ∷ ts) = t
item (suc i) (t ∷ ts) = item i ts

-- What stands after the last `c`, the whole text if there is none: `t.rpartition(c)[2]`
unfoldable pub after_last : ℕ → Text → Text
unfolding has_code
after_last c [] = []
after_last c (d ∷ t) =
    let rest = after_last c t in if has_code c t then rest else if d == c then t else d ∷ t

unfoldable pub begins_space : Unicode → Text → Bool
begins_space u [] = true
begins_space u (c ∷ t) = u.is_space c

-- `t.split()`: the maximal runs without white space
unfoldable pub words : Unicode → Text → List Text
unfolding begins_space head_or_nil tail_of
words u [] = []
words u (c ∷ t) =
    let rest = words u t in
    if u.is_space c
    then rest
    else if begins_space u t
    then (c ∷ []) ∷ rest
    else (c ∷ head_or_nil rest) ∷ tail_of rest

-- `" ".join(t.split())`
unfoldable pub collapse_whitespace : Unicode → Text → Text
unfolding words join
collapse_whitespace u t = join (codes " ") (words u t)
