-- ===== src/Transcription/Inspection/Timeouts/Search.antt =====
-- The traversal ends, and its answer is reachability.
use textify.Prelude.{
  ℕ, zero, suc, ◌+◌, ◌*◌, ◌≤◌, ◌<◌, Bool, true, false, ◌||◌, not, ◌≡◌, refl, subst, Option, none,
  some, List, [], ◌∷◌, ◌++◌, ◌==◌, count, any, contains, length, All, All-append, All-In,
  All-from_In, All-map, contains-append, In, ◌↔◌, inl, inr, if◌then◌else◌, arith, Bool-cases,
  ==_iff,
}
use textify.Transcription.Inspection.Timeouts.{
  Raised, one, links, search_timeout, is_timeout_exception,
}

length-one : (o : Option ℕ) → length (one o) ≤ 1
unfolding one
length-one none = omega arith
length-one (some e) = omega arith

length-append : (xs ys : List ℕ) → length (xs ++ ys) ≡ length xs + length ys
length-append [] ys = omega arith
length-append (x ∷ xs) ys = omega (arith, length-append xs ys)

links_four : (r : Raised) → length (links r) ≤ 4
unfolding links
links_four r =
    let nested : List ℕ = if r.is_download_error then one r.nested else [] in
    let short : length nested ≤ 1 = ground (arith, length-one r.nested) in
    omega (
      arith,
      length-append (one r.reason) (one r.context ++ (one r.cause ++ nested)),
      length-append (one r.context) (one r.cause ++ nested),
      length-append (one r.cause) nested,
      length-one r.reason,
      length-one r.context,
      length-one r.cause,
      short,
    )

-- The objects that have not been visited.
abbrev left : List ℕ → List ℕ → ℕ
left objects visited = count (λ o. not (contains o visited)) objects

left_falls : (objects visited : List ℕ) (e : ℕ) → left objects (e ∷ visited) ≤ left objects visited
unfolding count contains any
left_falls [] visited e = omega arith
left_falls (o ∷ objects) visited e = ground (arith, left_falls objects visited e)

left_falls_strictly :
    (objects visited : List ℕ) (e : ℕ)
    → In e objects
    → contains e visited ≡ false
    → left objects (e ∷ visited) < left objects visited
unfolding count contains any
left_falls_strictly [] visited e i h = elim i [ ]
left_falls_strictly (o ∷ objects) visited e (inl s) h = ground (arith, left_falls objects visited e)
left_falls_strictly (o ∷ objects) visited e (inr i) h =
    ground (arith, left_falls_strictly objects visited e i h)

-- The heap has finitely many exceptions, and a link of one of them leads to another of them.
abbrev pub IsClosed : (ℕ → Raised) → List ℕ → Type 0
IsClosed heap objects = All (λ o. All (λ e. In e objects) (links (heap o))) objects

ends :
    (heap : ℕ → Raised) (objects : List ℕ)
    → IsClosed heap objects
    → (fuel : ℕ) (pending visited : List ℕ) → All (λ e. In e objects) pending
    → 4 * left objects visited + length pending ≤ fuel
    → (b : Bool) × (search_timeout fuel heap pending visited ≡ some b)
unfolding search_timeout links
ends heap objects closed fuel [] visited i h = (false, refl)
ends heap objects closed zero (e ∷ pending) visited i h = absurd (omega arith)
ends heap objects closed (suc fuel) (e ∷ pending) visited i h =
    elim (Bool-cases (contains e visited)) [
      | inl old ↦ rw old (ends heap objects closed fuel pending visited i.1 (omega arith))
      | inr new ↦ elim (Bool-cases (heap e).is_timeout) [
        | inl t ↦ (true, ground arith)
        | inr t ↦ rw new (
            rw t (
              ends heap objects closed fuel (links (heap e) ++ pending) (e ∷ visited)
                (All-append _ (links (heap e)) pending (All-In _ e objects closed i.0) i.1)
                (omega (
                  arith,
                  left_falls_strictly objects visited e i.0 new,
                  links_four (heap e),
                  length-append (links (heap e)) pending,
                ))))
      ]
    ]

-- A chain of links.
pub data LinkPath (heap : ℕ → Raised) (e : ℕ) : ℕ → Type 0 where
  here : LinkPath heap e e
  next : {f g : ℕ} → LinkPath heap e f → In g (links (heap f)) → LinkPath heap e g

-- A timeout is linked from the exception.
abbrev pub HasTimeout : (ℕ → Raised) → ℕ → Type 0
HasTimeout heap e = (g : ℕ) × LinkPath heap e g × ((heap g).is_timeout ≡ true)

-- All pending exceptions are linked from the root.
found :
    (heap : ℕ → Raised) (root fuel : ℕ) (pending visited : List ℕ)
    → All (LinkPath heap root) pending
    → search_timeout fuel heap pending visited ≡ some true
    → HasTimeout heap root
unfolding search_timeout
found heap root fuel [] visited i h = cc h
found heap root zero (e ∷ pending) visited i h = cc h
found heap root (suc fuel) (e ∷ pending) visited i h = elim (Bool-cases (contains e visited)) [
  | inl old ↦ found heap root fuel pending visited i.1 (ground arith)
  | inr new ↦ elim (Bool-cases (heap e).is_timeout) [
    | inl t ↦ (e, i.0, t)
    | inr t ↦
        found heap root fuel (links (heap e) ++ pending) (e ∷ visited)
          (All-append _ (links (heap e)) pending
            (All-from_In _ (links (heap e)) (λ f k. next i.0 k)) i.1)
          (ground arith)
  ]
]

contains-In : (x : ℕ) (xs : List ℕ) → In x xs → contains x xs ≡ true
unfolding contains any
contains-In x [] i = elim i [ ]
contains-In x (y ∷ xs) (inl e) = ground arith
contains-In x (y ∷ xs) (inr i) = ground (arith, contains-In x xs i)

In-contains : (x : ℕ) (xs : List ℕ) → contains x xs ≡ true → In x xs
unfolding contains any
In-contains x [] h = cc h
In-contains x (y ∷ xs) h = elim (Bool-cases (y == x)) [
  | inl e ↦ inl (ground arith)
  | inr n ↦ inr (In-contains x xs (ground arith))
]

-- The visited exceptions are no timeouts, and what they link to is visited or pending.
abbrev IsGood : (ℕ → Raised) → List ℕ → List ℕ → ℕ → Type 0
IsGood heap visited pending v =
    ((heap v).is_timeout ≡ false)
    × All (λ f. (contains f visited || contains f pending) ≡ true) (links (heap v))

abbrev Good : (ℕ → Raised) → List ℕ → List ℕ → Type 0
Good heap visited pending = All (IsGood heap visited pending) visited

weaken :
    (heap : ℕ → Raised) (v p w q : List ℕ)
    → ((f : ℕ) → (contains f v || contains f p) ≡ true → (contains f w || contains f q) ≡ true)
    → (vs : List ℕ) → All (IsGood heap v p) vs
    → All (IsGood heap w q) vs
weaken heap v p w q more vs h =
    All-map (IsGood heap v p) (IsGood heap w q)
      (λ x g. (g.0, All-map _ _ more (links (heap x)) g.1)) vs h

contains_all : (P : ℕ → Type 0) (x : ℕ) (xs : List ℕ) → All P xs → contains x xs ≡ true → P x
contains_all P x xs h c = All-In P x xs h (In-contains x xs c)

All-append_right : (P : ℕ → Type 0) (xs ys : List ℕ) → All P (xs ++ ys) → All P ys
All-append_right P [] ys h = h
All-append_right P (x ∷ xs) ys h = All-append_right P xs ys h.1

-- A closed set without a timeout that holds the visited and the pending ones.
record Settled (heap : ℕ → Raised) (visited pending : List ℕ) : Type 0 where
  all : List ℕ
  good : Good heap all []
  old : All (λ v. contains v all ≡ true) visited
  rest : All (λ v. contains v all ≡ true) pending

repeated :
    (heap : ℕ → Raised) (e : ℕ) (pending visited : List ℕ)
    → contains e visited ≡ true
    → Good heap visited (e ∷ pending)
    → Good heap visited pending
unfolding contains any
repeated heap e pending visited old g =
    weaken heap visited (e ∷ pending) visited pending
      (λ f h. elim (Bool-cases (e == f)) [
        | inl q ↦
            let s : contains f visited ≡ true =
              subst (λ x. contains x visited ≡ true) ((==_iff e f).0 q) old in
            ground arith
        | inr q ↦ ground arith
      ])
      visited g

entered :
    (heap : ℕ → Raised) (e : ℕ) (pending visited : List ℕ)
    → (heap e).is_timeout ≡ false
    → Good heap visited (e ∷ pending)
    → Good heap (e ∷ visited) (links (heap e) ++ pending)
unfolding contains any
entered heap e pending visited t g = (
  (
    t,
    All-from_In _ (links (heap e)) (λ f i.
        ground
          (arith, contains-In f (links (heap e)) i, contains-append f (links (heap e)) pending)),
  ),
  weaken heap visited (e ∷ pending) (e ∷ visited) (links (heap e) ++ pending)
      (λ f h. ground (arith, contains-append f (links (heap e)) pending)) visited g,
)

settles :
    (heap : ℕ → Raised) (fuel : ℕ) (pending visited : List ℕ)
    → Good heap visited pending
    → search_timeout fuel heap pending visited ≡ some false
    → Settled heap visited pending
unfolding search_timeout
settles heap fuel [] visited g h = record {
  all = visited;
  good = g;
  old = All-from_In _ visited (λ v i. contains-In v visited i);
  rest = tt;
}
settles heap zero (e ∷ pending) visited g h = cc h
settles heap (suc fuel) (e ∷ pending) visited g h = elim (Bool-cases (contains e visited)) [
  | inl old ↦
      let s =
        settles heap fuel pending visited (repeated heap e pending visited old g) (ground arith) in
      record {
        all = s.all;
        good = s.good;
        old = s.old;
        rest = (contains_all _ e visited s.old old, s.rest);
      }
  | inr new ↦ elim (Bool-cases (heap e).is_timeout) [
    | inl t ↦ absurd (ground arith)
    | inr t ↦
        let s =
          settles heap fuel (links (heap e) ++ pending) (e ∷ visited)
            (entered heap e pending visited t g) (ground arith) in
        record {
          all = s.all;
          good = s.good;
          old = s.old.1;
          rest = (s.old.0, All-append_right _ (links (heap e)) pending s.rest);
        }
  ]
]

empty_list : (g : ℕ) → contains g [] ≡ false
unfolding contains any
empty_list g = refl

left_le : (objects : List ℕ) → left objects [] ≤ length objects
unfolding count
left_le [] = omega arith
left_le (o ∷ objects) = ground (arith, left_le objects)

-- In a closed set without a timeout, no chain of links leads to one.
stays :
    (heap : ℕ → Raised) (all : List ℕ) (e g : ℕ)
    → Good heap all []
    → contains e all ≡ true
    → LinkPath heap e g
    → contains g all ≡ true
stays heap all e g good h here = h
stays heap all e g good h (next {f} p k) =
    let c = contains_all _ f all good (stays heap all e f good h p) in
    let d = All-In _ g (links (heap f)) c.1 k in ground (arith, d, empty_list g)

-- The traversal of a finite heap of exceptions, cyclic or not, ends within four rounds for each
-- exception and one more, and it answers true exactly when a chain of links leads from the given
-- exception to a timeout.
pub is_timeout_exception-HasTimeout :
    (heap : ℕ → Raised) (objects : List ℕ) (e fuel : ℕ)
    → IsClosed heap objects
    → In e objects
    → 4 * length objects + 1 ≤ fuel
    → (b : Bool) × (is_timeout_exception fuel heap e ≡ some b) × ((b ≡ true) ↔ HasTimeout heap e)
unfolding is_timeout_exception
is_timeout_exception-HasTimeout heap objects e fuel closed i h =
    let (b, r) =
      ends heap objects closed fuel (e ∷ []) [] (i, tt) (omega (arith, left_le objects)) in
    (b, r, answer b r)
  where
    answer :
        (b : Bool)
        → search_timeout fuel heap (e ∷ []) [] ≡ some b
        → ((b ≡ true) ↔ HasTimeout heap e)
    answer true r = (λ _. found heap e fuel (e ∷ []) [] (here, tt) r, λ _. refl)
    answer false r = (
      λ q. cc q,
      λ (g, p, t).
          let s = settles heap fuel (e ∷ []) [] tt r in
          let c = contains_all _ g s.all s.good (stays heap s.all e g s.good s.rest.0 p) in
          cc (c.0, t),
    )
