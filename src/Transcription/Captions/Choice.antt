-- ===== src/Transcription/Captions/Choice.antt =====
-- Which track is chosen.
use textify.Prelude.{
  ℕ, ◌<◌, Bool, true, false, ◌≡◌, refl, sym, ◌∙◌, ap, subst, ◌⊎◌, inl, inr, Option, none, some,
  List, [], ◌∷◌, ◌++◌, select, All, In, In-select, select-All, arith, Bool-cases, All-In,
}
use mathlib.Core.List.{append_assoc, append-nil}
use textify.Texts.{Text, Unicode}
use textify.Transcription.Normalizing.{Transcript, Languages}
use textify.Transcription.Inspection.Metadata.{PrimaryLanguage}
use textify.Transcription.Captions.{
  CaptionTrack, tracks, Captions, found, Bucket, exact, exact_generated, primary, primary_generated,
  bucket_of, Buckets, put, fill, no_tracks, flatten, rank_by_primary, Round, skip, stop,
  track_round, first_usable, acquire_listed,
}

-- The number of a bucket.
unfoldable pub rank_of : Bucket → ℕ
rank_of exact = 0
rank_of exact_generated = 1
rank_of primary = 2
rank_of primary_generated = 3

unfoldable pub falls_in : Bucket → Option Bucket → Bool
falls_in b none = false
falls_in exact (some exact) = true
falls_in exact_generated (some exact_generated) = true
falls_in primary (some primary) = true
falls_in primary_generated (some primary_generated) = true
falls_in _ (some _) = false

-- The tracks of a bucket, in their order.
unfoldable pub kept :
    (CaptionTrack → Option Bucket) → Bucket → List CaptionTrack → List CaptionTrack
kept f b = select (λ t. falls_in b (f t))

abbrev Filled : (CaptionTrack → Option Bucket) → List CaptionTrack → Buckets → Buckets → Type 0
Filled f ts b c =
    (c.first ≡ b.first ++ kept f exact ts)
    × (c.second ≡ b.second ++ kept f exact_generated ts)
    × (c.third ≡ b.third ++ kept f primary ts)
    × (c.fourth ≡ b.fourth ++ kept f primary_generated ts)

put-Filled :
    (o : Option Bucket) (f : CaptionTrack → Option Bucket) (t : CaptionTrack)
    (ts : List CaptionTrack) (b c : Buckets)
    → f t ≡ o
    → Filled f ts (put o t b) c
    → Filled f (t ∷ ts) b c
unfolding put kept select falls_in
put-Filled none f t ts b c e h = rw e h
put-Filled (some exact) f t ts b c e h =
    rw e (h.0 ∙ append_assoc b.first (t ∷ []) (kept f exact ts), h.1, h.2, h.3)
put-Filled (some exact_generated) f t ts b c e h =
    rw e (h.0, h.1 ∙ append_assoc b.second (t ∷ []) (kept f exact_generated ts), h.2, h.3)
put-Filled (some primary) f t ts b c e h =
    rw e (h.0, h.1, h.2 ∙ append_assoc b.third (t ∷ []) (kept f primary ts), h.3)
put-Filled (some primary_generated) f t ts b c e h =
    rw e (h.0, h.1, h.2, h.3 ∙ append_assoc b.fourth (t ∷ []) (kept f primary_generated ts))

fill_lem :
    (f : CaptionTrack → Option Bucket) (ts : List CaptionTrack) (b : Buckets)
    → Filled f ts b (fill f ts b)
unfolding fill kept select
fill_lem f [] b = (
  sym (append-nil b.first),
  sym (append-nil b.second),
  sym (append-nil b.third),
  sym (append-nil b.fourth),
)
fill_lem f (t ∷ ts) b =
    put-Filled (f t) f t ts b (fill f ts (put (f t) t b)) refl (fill_lem f ts (put (f t) t b))

ranked :
    (f : CaptionTrack → Option Bucket) (ts : List CaptionTrack)
    → flatten (fill f ts no_tracks)
      ≡ kept f exact ts
        ++ (kept f exact_generated ts ++ (kept f primary ts ++ kept f primary_generated ts))
unfolding flatten
ranked f ts = let (a, b, c, d) = fill_lem f ts no_tracks in rw a (rw b (rw c (rw d refl)))

-- A track whose round goes on.
abbrev pub IsSkipped : (CaptionTrack → Round) → CaptionTrack → Type 0
IsSkipped r t = r t ≡ skip

-- The first round that does not go on decides.
abbrev Decides :
    (CaptionTrack → Round) → Transcript → List CaptionTrack → List CaptionTrack → Type 0
Decides r x ts us =
    ((t : CaptionTrack) × In t ts × (r t ≡ stop (found x)))
    ⊎ (All (IsSkipped r) ts × (first_usable r us ≡ found x))

Decides-here :
    (r : CaptionTrack → Round) (x : Transcript) (t : CaptionTrack) (ts us : List CaptionTrack)
    (q : Round)
    → r t ≡ q
    → (elim q as (λ k. Captions) [ skip ↦ first_usable r (ts ++ us) | stop c ↦ c ]) ≡ found x
    → (first_usable r (ts ++ us) ≡ found x → Decides r x ts us)
    → Decides r x (t ∷ ts) us
Decides-here r x t ts us skip e h k = elim (k h) [
  | inl (v, i, d) ↦ inl (v, inr i, d)
  | inr (a, d) ↦ inr ((e, a), d)
]
Decides-here r x t ts us (stop c) e h k = inl (t, inl refl, rw e (ap stop h))

decides :
    (r : CaptionTrack → Round) (x : Transcript) (ts us : List CaptionTrack)
    → first_usable r (ts ++ us) ≡ found x
    → Decides r x ts us
unfolding first_usable
decides r x [] us h = inr (tt, h)
decides r x (t ∷ ts) us h = Decides-here r x t ts us (r t) refl h (decides r x ts us)

In-kept :
    (f : CaptionTrack → Option Bucket) (b : Bucket) (t : CaptionTrack) (ts : List CaptionTrack)
    → In t ts
    → falls_in b (f t) ≡ true
    → In t (kept f b ts)
unfolding kept select
In-kept f b t [] i h = elim i [ ]
In-kept f b t (u ∷ ts) (inl e) h =
    let k : falls_in b (f u) ≡ true = subst (λ v. falls_in b (f v) ≡ true) e h in rw k (inl e)
In-kept f b t (u ∷ ts) (inr i) h = elim (Bool-cases (falls_in b (f u))) [
  | inl k ↦ rw k (inr (In-kept f b t ts i h))
  | inr k ↦ rw k (In-kept f b t ts i h)
]

-- The transcript `x` is that of a listed track, and every listed track of a better bucket is
-- skipped.
pub record Preferred (f : CaptionTrack → Option Bucket) (r : CaptionTrack → Round) (x : Transcript)
    (ts : List CaptionTrack) : Type 0 where
  pub track : CaptionTrack
  pub member : In track ts
  pub bucket : Bucket
  pub ranked : falls_in bucket (f track) ≡ true
  pub decided : r track ≡ stop (found x)
  pub better :
      (t : CaptionTrack) (b : Bucket)
      → In t ts
      → falls_in b (f t) ≡ true
      → rank_of b < rank_of bucket
      → IsSkipped r t

module _ (f : CaptionTrack → Option Bucket) (r : CaptionTrack → Round) (x : Transcript)
    (ts : List CaptionTrack) where
  Skipped : Bucket → Type 0
  Skipped b = All (IsSkipped r) (kept f b ts)

  prefers :
      (b : Bucket) (t : CaptionTrack)
      → In t (kept f b ts)
      → r t ≡ stop (found x)
      → ((c : Bucket) → rank_of c < rank_of b → Skipped c)
      → Preferred f r x ts
  unfolding kept Skipped
  prefers b t i d skipped = record {
    track = t;
    member = In-select (λ v. falls_in b (f v)) t ts i;
    bucket = b;
    ranked =
        All-In (λ v. falls_in b (f v) ≡ true) t (kept f b ts)
          (select-All (λ v. falls_in b (f v)) ts) i;
    decided = d;
    better = λ v c j k l. All-In (IsSkipped r) v (kept f c ts) (skipped c l) (In-kept f c v ts j k);
  }

  below :
      (b c : Bucket)
      → (rank_of exact < rank_of b → Skipped exact)
      → (rank_of exact_generated < rank_of b → Skipped exact_generated)
      → (rank_of primary < rank_of b → Skipped primary)
      → rank_of c < rank_of b
      → Skipped c
  unfolding rank_of
  below b exact p q s l = p l
  below b exact_generated p q s l = q l
  below b primary p q s l = s l
  below exact primary_generated p q s l = absurd (omega arith)
  below exact_generated primary_generated p q s l = absurd (omega arith)
  below primary primary_generated p q s l = absurd (omega arith)
  below primary_generated primary_generated p q s l = absurd (omega arith)

  fourth :
      Skipped exact
      → Skipped exact_generated
      → Skipped primary
      → first_usable r (kept f primary_generated ts) ≡ found x
      → Preferred f r x ts
  unfolding first_usable Skipped
  fourth p q s h =
      elim (decides r x (kept f primary_generated ts) []
        (rw (append-nil (kept f primary_generated ts)) h)) [
          | inl (t, i, d) ↦
              prefers primary_generated t i d
                (λ c l. below primary_generated c (λ _. p) (λ _. q) (λ _. s) l)
          | inr (a, d) ↦ absurd (cc d)
        ]

  third :
      Skipped exact
      → Skipped exact_generated
      → first_usable r (kept f primary ts ++ kept f primary_generated ts) ≡ found x
      → Preferred f r x ts
  unfolding rank_of Skipped
  third p q h = elim (decides r x (kept f primary ts) (kept f primary_generated ts) h) [
    | inl (t, i, d) ↦
        prefers primary t i d
          (λ c l. below primary c (λ _. p) (λ _. q) (λ k. absurd (omega arith)) l)
    | inr (a, d) ↦ fourth p q a d
  ]

  second :
      Skipped exact
      → first_usable r
          (kept f exact_generated ts ++ (kept f primary ts ++ kept f primary_generated ts))
        ≡ found x
      → Preferred f r x ts
  unfolding rank_of Skipped
  second p h =
      elim (decides r x (kept f exact_generated ts)
        (kept f primary ts ++ kept f primary_generated ts) h) [
          | inl (t, i, d) ↦ prefers exact_generated t i d (λ c l.
              below exact_generated c (λ _. p) (λ k. absurd (omega arith))
                (λ k. absurd (omega arith)) l)
          | inr (a, d) ↦ third p a d
        ]

  pub first_usable-Preferred :
      first_usable r (flatten (fill f ts no_tracks)) ≡ found x → Preferred f r x ts
  unfolding rank_of Skipped
  first_usable-Preferred h =
      elim (decides r x (kept f exact ts)
        (kept f exact_generated ts ++ (kept f primary ts ++ kept f primary_generated ts))
        (subst (λ us. first_usable r us ≡ found x) (ranked f ts) h)) [
          | inl (t, i, d) ↦ prefers exact t i d (λ c l.
              below exact c (λ k. absurd (omega arith)) (λ k. absurd (omega arith))
                (λ k. absurd (omega arith)) l)
          | inr (a, d) ↦ second a d
        ]

-- A caption transcript that is acquired from listed tracks is that of a track in the declared language or
-- its primary language, and every track of a better class (the exact language before the primary
-- one, and in each the creator's before the generated ones) was tried and passed over.
pub acquire_listed-Preferred :
    (u : Unicode) (l : Languages) (primaries : PrimaryLanguage) (include cancelled_listed : Bool)
    (declared p : Text) (ts : List CaptionTrack) (x : Transcript)
    → primaries declared ≡ some p
    → acquire_listed u l primaries include cancelled_listed declared (tracks ts) ≡ found x
    → Preferred (bucket_of u l declared p) (track_round u l include) x ts
unfolding acquire_listed
acquire_listed-Preferred u l primaries include true declared p ts x e h = cc h
acquire_listed-Preferred u l primaries include false declared p ts x e h =
    first_usable-Preferred (bucket_of u l declared p) (track_round u l include) x ts (
      subst
        (λ o. first_usable (track_round u l include) (rank_by_primary u l declared o ts) ≡ found x)
        e h)
