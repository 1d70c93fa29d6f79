-- ===== src/Transcription/Inspection/Metadata/Promises.antt =====
-- What metadata must be to be accepted, and what is made of it.
use textify.Prelude.{
  ℕ, ◌+◌, ◌*◌, ◌≤◌, ◌<◌, true, false, ◌≡◌, ◌≢◌, refl, sym, ◌∙◌, subst, Option, none, some, ◌++◌,
  arith, inl, inr, ◌⊎◌, Bool-cases, ap, any,
}
use textify.Texts.{Text, Unicode, codes, is_blank, empty, is_one_of, same_text}
use textify.Texts.Laws.{same_text-eq}
use textify.Transcription.Fields.{Platform}
use textify.Transcription.Faults.{value, Checked-cases}
use textify.Transcription.Normalizing.{Languages}
use textify.Transcription.Inspection.Urls.{UrlLibrary}
use textify.Transcription.Inspection.Classifying.{SubmittedSource}
use textify.Transcription.Inspection.Metadata.Objects.{
  positive, nonpositive, infinite, not_a_number, Value, null, bool, number, text, mapping, sequence,
  other, Fields, get, has_key,
}
use textify.Transcription.Inspection.Metadata.Formats.{validate_social_formats}
use textify.Transcription.Inspection.Metadata.{
  collection_types, flag_unset, type_allowed, status_allowed, reject_collections_and_live,
  youtube_identity, social_id, social_video_id, canonical_url, is_youtube, title_of,
  normalize_title, optional_text, ceil, duration_seconds, normalize_duration, PrimaryLanguage,
  NormalizedMetadata, identity, describe, normalize_processed_metadata,
}

-- The least whole number that is not below the duration (n + 1) / (d + 1).
pub IsCeiling : ℕ → ℕ → ℕ → Type 0
IsCeiling n d k = (n + 1 ≤ k * (d + 1)) × (k * (d + 1) < (n + 1) + (d + 1))

ceil_lem : (n d : ℕ) → IsCeiling n d (ceil n d)
unfolding IsCeiling ceil
ceil_lem n d = grind arith

-- The duration that the provider reports.
pub record HasDuration (m : Fields) (k : ℕ) : Type 0 where
  pub numerator : ℕ
  pub denominator : ℕ
  pub reported : get (codes "duration") m ≡ some (number (positive numerator denominator))
  pub rounded : IsCeiling numerator denominator k

-- The flag is missing or False.
abbrev pub Unset : Option Value → Type 0
Unset o = (o ≡ none) ⊎ (o ≡ some (bool false))

-- The content type is missing, None, or a text that is none of the four types of collections.
pub data NoCollection : Option Value → Type 0 where
  missing : NoCollection none
  none_given : NoCollection (some null)
  single :
      (t : Text)
      → t ≢ codes "playlist"
      → t ≢ codes "multi_video"
      → t ≢ codes "url"
      → t ≢ codes "url_transparent"
      → NoCollection (some (text t))

pub record Accepted (u : Unicode) (s : SubmittedSource) (m : Fields) (n : NormalizedMetadata)
    : Type 0 where
  pub no_entries : has_key (codes "entries") m ≡ false
  pub no_collection : NoCollection (get (codes "_type") m)
  pub not_live : Unset (get (codes "is_live") m)
  pub not_upcoming : Unset (get (codes "is_upcoming") m)
  pub never_live :
      (get (codes "live_status") m ≡ none)
      ⊎ (get (codes "live_status") m ≡ some (text (codes "not_live")))
  pub duration : HasDuration m n.duration_seconds
  pub titled : is_youtube s.platform ≡ true → is_blank u n.title ≡ false
  pub owned :
      is_youtube s.platform ≡ true
      → (s.youtube_video_id ≡ some n.video_id)
        × (n.canonical_url ≡ codes "https://www.youtube.com/watch?v=" ++ n.video_id)
  pub named : is_youtube s.platform ≡ false → empty n.video_id ≡ false

flag_unset-Unset : (o : Option Value) → flag_unset o ≡ value tt → Unset o
unfolding flag_unset
flag_unset-Unset none e = inl refl
flag_unset-Unset (some (bool true)) e = cc e
flag_unset-Unset (some (bool false)) e = inr refl
flag_unset-Unset (some null) e = cc e
flag_unset-Unset (some (number n)) e = cc e
flag_unset-Unset (some (text t)) e = cc e
flag_unset-Unset (some (mapping f)) e = cc e
flag_unset-Unset (some (sequence l)) e = cc e
flag_unset-Unset (some other) e = cc e

outside :
    (t v : Text)
    → is_one_of collection_types t ≡ false
    → is_one_of collection_types v ≡ true
    → t ≢ v
outside t v out here same = let q = ap (is_one_of collection_types) same in cc (out, here, q)

named_lem :
    (is_one_of collection_types (codes "playlist") ≡ true)
    × (is_one_of collection_types (codes "multi_video") ≡ true)
    × (is_one_of collection_types (codes "url") ≡ true)
    × (is_one_of collection_types (codes "url_transparent") ≡ true)
unfolding is_one_of same_text any
named_lem = (refl, refl, refl, refl)

type_allowed-NoCollection : (o : Option Value) → type_allowed o ≡ value tt → NoCollection o
unfolding type_allowed
type_allowed-NoCollection none e = missing
type_allowed-NoCollection (some null) e = none_given
type_allowed-NoCollection (some (text t)) e = elim (Bool-cases (is_one_of collection_types t)) [
  | inl hit ↦ absurd (ground (arith, hit))
  | inr miss ↦
      single t (outside t (codes "playlist") miss named_lem.0)
        (outside t (codes "multi_video") miss named_lem.1)
        (outside t (codes "url") miss named_lem.2)
        (outside t (codes "url_transparent") miss named_lem.3)
]
type_allowed-NoCollection (some (bool b)) e = cc e
type_allowed-NoCollection (some (number n)) e = cc e
type_allowed-NoCollection (some (mapping f)) e = cc e
type_allowed-NoCollection (some (sequence l)) e = cc e
type_allowed-NoCollection (some other) e = cc e

status_allowed-not_live :
    (o : Option Value)
    → status_allowed o ≡ value tt
    → (o ≡ none) ⊎ (o ≡ some (text (codes "not_live")))
unfolding status_allowed
status_allowed-not_live none e = inl refl
status_allowed-not_live (some (text t)) e = elim (Bool-cases (same_text t (codes "not_live"))) [
  | inl hit ↦ inr (ap (λ x. some (text x)) (same_text-eq t (codes "not_live") hit))
  | inr miss ↦ absurd (ground (arith, miss))
]
status_allowed-not_live (some null) e = cc e
status_allowed-not_live (some (bool b)) e = cc e
status_allowed-not_live (some (number n)) e = cc e
status_allowed-not_live (some (mapping f)) e = cc e
status_allowed-not_live (some (sequence l)) e = cc e
status_allowed-not_live (some other) e = cc e

duration_seconds-positive :
    (o : Option Value) (k : ℕ)
    → duration_seconds o ≡ value k
    → (n : ℕ) × (d : ℕ) × (o ≡ some (number (positive n d))) × (k ≡ ceil n d)
unfolding duration_seconds
duration_seconds-positive none k e = cc e
duration_seconds-positive (some (number (positive n d))) k e = (n, d, refl, cc e)
duration_seconds-positive (some null) k e = cc e
duration_seconds-positive (some (bool b)) k e = cc e
duration_seconds-positive (some (number nonpositive)) k e = cc e
duration_seconds-positive (some (number infinite)) k e = cc e
duration_seconds-positive (some (number not_a_number)) k e = cc e
duration_seconds-positive (some (text t)) k e = cc e
duration_seconds-positive (some (mapping f)) k e = cc e
duration_seconds-positive (some (sequence l)) k e = cc e
duration_seconds-positive (some other) k e = cc e

title_of-visible :
    (u : Unicode) (p : Platform) (o : Option Value) (t : Text)
    → title_of u p o ≡ value t
    → is_youtube p ≡ true
    → is_blank u t ≡ false
unfolding title_of
title_of-visible u p o t e y = ground arith

youtube_identity-owned :
    (v : Option Text) (m : Fields) (ids : Text × Text)
    → youtube_identity v m ≡ value ids
    → (v ≡ some ids.0) × (ids.1 ≡ codes "https://www.youtube.com/watch?v=" ++ ids.0)
unfolding youtube_identity
youtube_identity-owned v m ids e = ground arith

social_id-nonempty :
    (u : Unicode) (o : Option Value) (t : Text) → social_id u o ≡ value t → empty t ≡ false
unfolding social_id
social_id-nonempty u o t e = ground arith

module _ (u : Unicode) (s : SubmittedSource) (m : Fields) where
  youtube_case :
      (l : UrlLibrary) (ids : Text × Text)
      → identity u l s m ≡ value ids
      → is_youtube s.platform ≡ true
      → (s.youtube_video_id ≡ some ids.0)
        × (ids.1 ≡ codes "https://www.youtube.com/watch?v=" ++ ids.0)
  unfolding identity
  youtube_case l ids e y = youtube_identity-owned s.youtube_video_id m ids (rw (y, identity) at e)

  social_case :
      (l : UrlLibrary) (ids : Text × Text)
      → identity u l s m ≡ value ids
      → is_youtube s.platform ≡ false
      → empty ids.0 ≡ false
  unfolding identity social_video_id
  social_case l ids e y = elim (Checked-cases (social_id u (get (codes "id") m))) [
    | inr (f, q) ↦ absurd (ground arith)
    | inl (v, p) ↦ elim (Checked-cases (canonical_url u l s.platform m)) [
      | inr (f, q) ↦ absurd (ground arith)
      | inl (c, q) ↦ elim (Checked-cases (validate_social_formats u s.platform m)) [
        | inr (f, k) ↦ absurd (ground arith)
        | inl (t, k) ↦
            let same : v ≡ ids.0 = ground arith in
            subst (λ (x : Text). empty x ≡ false) same (social_id-nonempty u _ v p)
      ]
    ]
  ]

  rejected :
      reject_collections_and_live m ≡ value tt
      → (has_key (codes "entries") m ≡ false)
        × (flag_unset (get (codes "is_live") m) ≡ value tt)
        × (flag_unset (get (codes "is_upcoming") m) ≡ value tt)
        × (type_allowed (get (codes "_type") m) ≡ value tt)
        × (status_allowed (get (codes "live_status") m) ≡ value tt)
  unfolding reject_collections_and_live
  rejected e = (ground arith, ground arith, ground arith, ground arith, ground arith)

  described :
      (tags : Languages) (primary : PrimaryLanguage) (ids : Text × Text) (n : NormalizedMetadata)
      → describe u tags primary s m ids ≡ value n
      → (n.video_id ≡ ids.0)
        × (n.canonical_url ≡ ids.1)
        × HasDuration m n.duration_seconds
        × (is_youtube s.platform ≡ true → is_blank u n.title ≡ false)
  unfolding describe normalize_duration normalize_title
  described tags primary (v, c) n e =
      elim (Checked-cases (title_of u s.platform (get (codes "title") m))) [
        | inr (f, q) ↦ absurd (ground arith)
        | inl (t, p) ↦ elim (Checked-cases (optional_text (codes "description") m)) [
          | inr (f, q) ↦ absurd (ground arith)
          | inl (d, q) ↦ elim (Checked-cases (optional_text (codes "channel") m)) [
            | inr (f, k) ↦ absurd (ground arith)
            | inl (ch, k) ↦ elim (Checked-cases (optional_text (codes "uploader") m)) [
              | inr (f, r) ↦ absurd (ground arith)
              | inl (up, r) ↦ elim (Checked-cases (duration_seconds (get (codes "duration") m))) [
                | inr (f, w) ↦ absurd (ground arith)
                | inl (len, w) ↦
                    let (a, b, g, h) = duration_seconds-positive _ len w in
                    let same : len ≡ n.duration_seconds = ground arith in
                    let title : t ≡ n.title = ground arith in
                    (
                      ground arith,
                      ground arith,
                      record {
                        numerator = a;
                        denominator = b;
                        reported = g;
                        rounded = subst (IsCeiling a b) (sym h ∙ same) (ceil_lem a b);
                      },
                      λ y.
                          subst (λ x. is_blank u x ≡ false) title
                            (title_of-visible u s.platform _ t p y),
                    )
              ]
            ]
          ]
        ]
      ]

-- Processed metadata that is accepted has no entries and no content type of a collection; its flags
-- `is_live` and `is_upcoming` are missing or False; its live status is missing or `not_live`; its duration is
-- the least whole number of seconds that is not below the positive finite duration the provider
-- reports; a YouTube source keeps the submitted video identifier, gets the canonical watch URL of it
-- and has a visible title; any other source has an identifier that is not empty.
pub normalize_processed_metadata-Accepted :
    (u : Unicode) (l : UrlLibrary) (tags : Languages) (primary : PrimaryLanguage) (m : Fields)
    (s : SubmittedSource) (n : NormalizedMetadata)
    → normalize_processed_metadata u l tags primary (mapping m) s ≡ value n
    → Accepted u s m n
unfolding normalize_processed_metadata
normalize_processed_metadata-Accepted u l tags primary m s n e =
    elim (Checked-cases (reject_collections_and_live m)) [
      | inr (f, q) ↦ absurd (ground arith)
      | inl (t, p) ↦ elim (Checked-cases (identity u l s m)) [
        | inr (f, q) ↦ absurd (ground arith)
        | inl (ids, q) ↦
            let (entries, live, upcoming, kind, status) = rejected u s m p in
            let (v, c, d, title) = described u s m tags primary ids n (ground arith) in
            record {
              no_entries = entries;
              no_collection = type_allowed-NoCollection _ kind;
              not_live = flag_unset-Unset _ live;
              not_upcoming = flag_unset-Unset _ upcoming;
              never_live = status_allowed-not_live _ status;
              duration = d;
              titled = title;
              owned =
                  λ y. let (a, b) = youtube_case u s m l ids q y in (ground arith, ground arith);
              named = λ y. rw v (social_case u s m l ids q y);
            }
      ]
    ]
