-- ===== src/Transcription/Normalizing/Sorting.antt =====
-- The stable sort of the records.
use textify.Prelude.{true, ◌≡◌, refl, List, [], ◌∷◌, leb, All, arith, Bool-cases, inl, inr}
use textify.Transcription.Normalizing.{Segment, starts_sorted, insert_by_start, sort_by_start}

All-insert_by_start :
    (P : Segment → Type 0) (s : Segment) (ss : List Segment)
    → P s
    → All P ss
    → All P (insert_by_start s ss)
unfolding insert_by_start
All-insert_by_start P s [] p h = (p, tt)
All-insert_by_start P s (t ∷ ts) p h = elim (Bool-cases (leb s.start t.start)) [
  | inl e ↦ rw (e, insert_by_start) (p, h)
  | inr e ↦ rw (e, insert_by_start) (h.0, All-insert_by_start P s ts p h.1)
]

pub All-sort_by_start :
    (P : Segment → Type 0) (ss : List Segment) → All P ss → All P (sort_by_start ss)
unfolding sort_by_start
All-sort_by_start P [] h = tt
All-sort_by_start P (s ∷ ss) h =
    All-insert_by_start P s (sort_by_start ss) h.0 (All-sort_by_start P ss h.1)

insert_sorted :
    (s : Segment) (ss : List Segment)
    → starts_sorted ss ≡ true
    → starts_sorted (insert_by_start s ss) ≡ true
unfolding insert_by_start starts_sorted
insert_sorted s [] h = refl
insert_sorted s (t ∷ []) h = ground arith
insert_sorted s (t ∷ r ∷ ss) h = ground (arith, insert_sorted s (r ∷ ss))

pub starts_sorted-sort_by_start : (ss : List Segment) → starts_sorted (sort_by_start ss) ≡ true
unfolding sort_by_start starts_sorted
starts_sorted-sort_by_start [] = refl
starts_sorted-sort_by_start (s ∷ ss) =
    insert_sorted s (sort_by_start ss) (starts_sorted-sort_by_start ss)
