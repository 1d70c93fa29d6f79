-- ===== src/Transcription/Normalizing/Results.antt =====
-- The constructors accept what the normalization has made.
use textify.Prelude.{
  Bool, true, false, not, ◌≤◌, ◌≡◌, refl, ap, subst, map, select, le→leb, Option, none, some, List,
  [], ◌∷◌, leb, All, arith, if◌then◌else◌, Bool-cases, inl, inr,
}
use textify.Texts.{Text, Unicode, same_text, empty, is_blank, join, collapse_whitespace, words}
use textify.Texts.Laws.{same_text_refl}
use textify.Texts.Words.{
  IsPhrase, collapse_whitespace-IsPhrase, IsPhrase-nonempty, IsPhrase-append,
  IsPhrase-collapse_whitespace,
}
use textify.Transcription.Fields.{TranscriptMethod}
use textify.Transcription.Faults.{value, Checked-cases}
use textify.Transcription.Normalizing.{
  RawSegment, Segment, seconds, Languages, strip, und, tag_or_und, normalize_language_tag,
  ensure_value, new_segment, new_segments, check_transcript, starts_sorted, joined, check_segments,
  new_text_transcript, new_timed_transcript, validated_time, raw_text, normalize_record,
  normalize_records, sort_by_start, language_of, build_transcript, normalize_transcript,
}
use textify.Transcription.Normalizing.Sorting.{All-sort_by_start, starts_sorted-sort_by_start}

-- A space is white space, and a standard tag has no white space about it and is standard itself; so
-- is `und`.
pub record TagLaws (u : Unicode) (l : Languages) : Type 0 where
  pub blank : u.is_space b' ' ≡ true
  pub standard :
      (t s : Text) → l t ≡ some s → (is_blank u s ≡ false) × (strip u s ≡ s) × (l s ≡ some s)
  pub unknown : l und ≡ some und

-- What the loop keeps.
pub record IsRecord (u : Unicode) (s : Segment) : Type 0 where
  pub ordered : leb s.start s.end ≡ true
  pub phrase : IsPhrase u s.text

module _ (u : Unicode) (l : Languages) (laws : TagLaws u l) where
  tag_twice :
      (o : Option Text)
      → ((s : Text) → o ≡ some s → (is_blank u s ≡ false) × (strip u s ≡ s) × (l s ≡ some s))
      → normalize_language_tag u l (some (tag_or_und o)) ≡ tag_or_und o
  unfolding normalize_language_tag tag_or_und
  tag_twice none h =
      let (b, s, e) = laws.standard und und laws.unknown in
      rw (b, normalize_language_tag) (rw s (rw e refl))
  tag_twice (some t) h =
      let (b, s, e) = h t refl in rw (b, normalize_language_tag) (rw s (rw e refl))

  canonical :
      (language : Option Text)
      → normalize_language_tag u l (some (normalize_language_tag u l language))
        ≡ normalize_language_tag u l language
  unfolding normalize_language_tag
  canonical none = tag_twice none (λ s e. absurd (cc e))
  canonical (some t) = elim (Bool-cases (is_blank u t)) [
    | inl e ↦ rw (e, normalize_language_tag) (tag_twice none (λ s q. absurd (cc q)))
    | inr e ↦
        rw (e, normalize_language_tag) (tag_twice (l (strip u t)) (λ s q. laws.standard _ s q))
  ]

  spaced : (s : Segment) → IsRecord u s → collapse_whitespace u s.text ≡ s.text
  spaced s r = IsPhrase-collapse_whitespace u s.text laws.blank r.phrase

  accepted : (ss : List Segment) → All (IsRecord u) ss → new_segments u ss ≡ value ss
  unfolding new_segments new_segment ensure_value
  accepted [] h = refl
  accepted (s ∷ ss) h = ground (
    arith,
    h.0.ordered,
    IsPhrase-nonempty u s.text h.0.phrase,
    spaced s h.0,
    same_text_refl s.text,
    accepted ss h.1,
  )

  joined-IsPhrase :
      (s : Segment) (ss : List Segment) → All (IsRecord u) (s ∷ ss) → IsPhrase u (joined (s ∷ ss))
  unfolding joined join
  joined-IsPhrase s [] h = h.0.phrase
  joined-IsPhrase s (t ∷ ss) h =
      IsPhrase-append u s.text (joined (t ∷ ss)) h.0.phrase (joined-IsPhrase t ss h.1)

  silent :
      (m : TranscriptMethod) (o : Option (List Segment))
      → check_transcript u l (record { method = m; language = und; text = joined []; segments = o })
        ≡ value tt
  unfolding check_transcript ensure_value joined join collapse_whitespace words same_text
      normalize_language_tag
  silent m o = ground (arith, canonical none)

  checked :
      (m : TranscriptMethod) (language : Option Text) (ss : List Segment)
      (o : Option (List Segment))
      → All (IsRecord u) ss
      → check_transcript u l (record {
        method = m;
        language = language_of u l language ss;
        text = joined ss;
        segments = o;
      })
        ≡ value tt
  unfolding check_transcript ensure_value language_of
  checked m language [] o h = silent m o
  checked m language (s ∷ ss) o h = ground (
    arith,
    canonical language,
    same_text_refl (normalize_language_tag u l language),
    same_text_refl (joined (s ∷ ss)),
    IsPhrase-collapse_whitespace u (joined (s ∷ ss)) laws.blank (joined-IsPhrase s ss h),
    IsPhrase-nonempty u (joined (s ∷ ss)) (joined-IsPhrase s ss h),
  )

  built :
      (m : TranscriptMethod) (language : Option Text) (include : Bool) (ss : List Segment)
      → All (IsRecord u) ss
      → starts_sorted ss ≡ true
      → build_transcript u l m language include ss
        ≡ value (record {
          method = m;
          language = language_of u l language ss;
          text = joined ss;
          segments = if include then some ss else none;
        })
  unfolding build_transcript new_text_transcript new_timed_transcript check_segments ensure_value
  built m language false ss h s = rw (checked m language ss none h) refl
  built m language true ss h s =
      rw (accepted ss h)
        (rw (checked m language ss (some ss) h) (rw s (rw (same_text_refl (joined ss)) refl)))

kept :
    (u : Unicode) (r : RawSegment) (s : Segment)
    → normalize_record u r ≡ value s
    → empty s.text ≡ false
    → IsRecord u s
unfolding normalize_record ensure_value
kept u r s e n = elim (Checked-cases (validated_time r.start)) [
  | inr (f, q) ↦ absurd (ground arith)
  | inl (a, p) ↦ elim (Checked-cases (validated_time r.end)) [
    | inr (f, q) ↦ absurd (ground arith)
    | inl (b, q) ↦ elim (Checked-cases (raw_text r.text)) [
      | inr (f, k) ↦ absurd (ground arith)
      | inl (t, k) ↦
          let same : record { start = a; end = b; text = collapse_whitespace u t } ≡ s =
            ground arith in
          record {
            ordered = ground arith;
            phrase =
                subst (λ (x : Segment). IsPhrase u x.text) same
                  (collapse_whitespace-IsPhrase u t (ground arith));
          }
    ]
  ]
]

records :
    (u : Unicode) (rs : List RawSegment) (ss : List Segment)
    → normalize_records u rs ≡ value ss
    → All (IsRecord u) ss
unfolding normalize_records
records u [] ss e = subst (All (IsRecord u)) {x = []} (cc e) tt
records u (r ∷ rs) ss e = elim (Checked-cases (normalize_record u r)) [
  | inr (f, q) ↦ absurd (ground arith)
  | inl (s, p) ↦ elim (Checked-cases (normalize_records u rs)) [
    | inr (f, q) ↦ absurd (ground arith)
    | inl (ts, q) ↦ elim (Bool-cases (empty s.text)) [
      | inl b ↦ subst (All (IsRecord u)) {x = ts} (ground arith) (records u rs ts q)
      | inr b ↦
          subst (All (IsRecord u)) {x = s ∷ ts} (ground arith) (kept u r s p b, records u rs ts q)
    ]
  ]
]

-- A raw segment with valid times and a text.
unfoldable pub raw : Segment → RawSegment
raw s = record { start = seconds s.start; end = seconds s.end; text = some s.text }

abbrev pub spaced_out : Unicode → Segment → Segment
spaced_out u s = record s { text = collapse_whitespace u s.text }

-- What a transcript has of them: the texts with single spaces between the words.
unfoldable pub spoken : Unicode → List Segment → List Segment
unfolding select
spoken u ss = select (λ s. not (empty s.text)) (map (spaced_out u) ss)

if_not {ℓ} : {A : Type ℓ} (b : Bool) (x y : A) → (if b then x else y) ≡ (if not b then y else x)
if_not true x y = refl
if_not false x y = refl

normalize_records-raw :
    (u : Unicode) (ss : List Segment)
    → All (λ s. s.start ≤ s.end) ss
    → normalize_records u (map raw ss) ≡ value (spoken u ss)
unfolding normalize_records normalize_record validated_time ensure_value raw_text raw spoken select
normalize_records-raw u [] h = refl
normalize_records-raw u (s ∷ ss) h = rw (le→leb s.start s.end h.0) (
    rw (normalize_records-raw u ss h.1)
      (ap value (if_not (empty (collapse_whitespace u s.text)) _ _)))

-- If every raw segment has valid times in order and a text, the normalization succeeds: none of the
-- validations of `Segment`, `Transcript` and `TimedTranscript` refuses its result. Its segments are
-- the given ones in the order of their starts, each text with single spaces between its words, and
-- those without a word left out; its text joins their texts; its language is that of the provider,
-- or `und` if no text is left; the segments are kept on request. The parameters obey their laws.
pub normalize_transcript-succeeds :
    (u : Unicode) (l : Languages)
    → TagLaws u l
    → (m : TranscriptMethod) (language : Option Text) (ss : List Segment) (include : Bool)
    → All (λ s. s.start ≤ s.end) ss
    → normalize_transcript u l m language (map raw ss) include
      ≡ value (record {
        method = m;
        language = language_of u l language (sort_by_start (spoken u ss));
        text = joined (sort_by_start (spoken u ss));
        segments = if include then some (sort_by_start (spoken u ss)) else none;
      })
unfolding normalize_transcript
normalize_transcript-succeeds u l laws m language ss include h =
    let e = normalize_records-raw u ss h in
    rw e (
      built u l laws m language include (sort_by_start (spoken u ss))
        (All-sort_by_start (IsRecord u) (spoken u ss) (records u (map raw ss) (spoken u ss) e))
        (starts_sorted-sort_by_start (spoken u ss)))
