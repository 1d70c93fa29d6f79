-- ===== src/Transcription/Captions.antt =====
-- The choice of a caption track in transcription/acquisition.py. What the world does is part of the
-- arguments: the answers of the caption provider, and what the cancellation event reads at each test.
pub mod Choice
mod Tests
use textify.Prelude.{
  ℕ, Bool, true, false, ◌&&◌, ◌||◌, not, Option, none, some, List, [], ◌∷◌, ◌++◌, if◌then◌else◌,
}
use textify.Texts.{Text, Unicode, codes, same_text, empty, starts_with, casefold}
use textify.Transcription.Fields.{youtube_captions}
use textify.Transcription.Faults.{Checked, value, fault}
use textify.Transcription.Normalizing.{
  RawSegment, Transcript, Languages, und, normalize_language_tag, normalize_transcript,
}
use textify.Transcription.Inspection.Metadata.{PrimaryLanguage, is_private_language}

-- `track.fetch_segments()`: `ended` is a `Timeout`, `ended_typed` the timeout of the adapter.
pub data Fetched : Type 0 where
  segments : List RawSegment → Fetched
  ended ended_typed unusable external_failure : Fetched

pub record CaptionTrack : Type 0 where
  pub language_code : Text
  pub is_generated : Bool
  pub cancelled_first : Bool
  pub cancelled_second : Bool
  pub fetched : Fetched
  pub cancelled_after : Bool

-- `provider.list_tracks(video_id)`
pub data Listed : Type 0 where
  tracks : List CaptionTrack → Listed
  ended ended_typed unusable external_failure : Listed

-- `absent` is the result None; the others are exceptions.
pub data Captions : Type 0 where
  found : Transcript → Captions
  absent cancelled provider_timeout provider_failure : Captions

-- The preference of a track: the exact language before the primary one, and in each the tracks of
-- the creator before the generated ones.
pub data Bucket : Type 0 where
  exact exact_generated primary primary_generated : Bucket

unfoldable pub bucket_of : Unicode → Languages → Text → Text → CaptionTrack → Option Bucket
unfolding same_text
bucket_of u l declared primary_language t =
    let tag = normalize_language_tag u l (some t.language_code) in
    if same_text tag und
    then none
    else if same_text tag declared
    then some (if t.is_generated then exact_generated else exact)
    else if same_text tag primary_language
    then some (if t.is_generated then primary_generated else primary)
    else none

pub record Buckets : Type 0 where
  pub first : List CaptionTrack
  pub second : List CaptionTrack
  pub third : List CaptionTrack
  pub fourth : List CaptionTrack

-- `buckets[bucket].append(track)`
unfoldable pub put : Option Bucket → CaptionTrack → Buckets → Buckets
put none t b = b
put (some exact) t b = record b { first = b.first ++ t ∷ [] }
put (some exact_generated) t b = record b { second = b.second ++ t ∷ [] }
put (some primary) t b = record b { third = b.third ++ t ∷ [] }
put (some primary_generated) t b = record b { fourth = b.fourth ++ t ∷ [] }

unfoldable pub fill : (CaptionTrack → Option Bucket) → List CaptionTrack → Buckets → Buckets
unfolding put
fill f [] b = b
fill f (t ∷ ts) b = fill f ts (put (f t) t b)

abbrev pub no_tracks : Buckets
no_tracks = record { first = []; second = []; third = []; fourth = [] }

unfoldable pub flatten : Buckets → List CaptionTrack
flatten b = b.first ++ (b.second ++ (b.third ++ b.fourth))

unfoldable pub rank_by_primary :
    Unicode → Languages → Text → Option Text → List CaptionTrack → List CaptionTrack
unfolding fill flatten bucket_of
rank_by_primary u l declared none ts = []
rank_by_primary u l declared (some p) ts = flatten (fill (bucket_of u l declared p) ts no_tracks)

unfoldable pub rank_caption_tracks :
    Unicode → Languages → PrimaryLanguage → Text → List CaptionTrack → List CaptionTrack
unfolding rank_by_primary
rank_caption_tracks u l primaries declared ts = rank_by_primary u l declared (primaries declared) ts

unfoldable pub canonical_caption_declaration :
    Unicode → Languages → PrimaryLanguage → Option Text → Option Text
unfolding same_text is_private_language
canonical_caption_declaration u l primaries none = none
canonical_caption_declaration u l primaries (some t) =
    let tag = normalize_language_tag u l (some t) in
    if same_text tag und || is_private_language u (primaries tag) then none else some tag

-- What one round of the loop does: go on, return a transcript, or raise.
pub data Round : Type 0 where
  skip : Round
  stop : Captions → Round

-- A transcript with an empty text is passed over; so is a `TypeError` or `ValueError`.
unfoldable pub normalized_round : Bool → Checked Transcript → Round
unfolding empty
normalized_round cancelled_after (fault e) = skip
normalized_round cancelled_after (value t) =
    if cancelled_after then stop cancelled else if empty t.text then skip else stop (found t)

unfoldable pub fetched_round : Unicode → Languages → Bool → CaptionTrack → Fetched → Round
unfolding normalized_round normalize_transcript
fetched_round u l include t (segments raws) =
    normalized_round t.cancelled_after
      (normalize_transcript u l youtube_captions (some t.language_code) raws include)
fetched_round u l include t ended = stop provider_timeout
fetched_round u l include t ended_typed = stop provider_timeout
fetched_round u l include t unusable = skip
fetched_round u l include t external_failure = skip

unfoldable pub track_round : Unicode → Languages → Bool → CaptionTrack → Round
unfolding fetched_round
track_round u l include t =
    if t.cancelled_first || t.cancelled_second
    then stop cancelled
    else fetched_round u l include t t.fetched

-- The loop over the ranked tracks.
unfoldable pub first_usable : (CaptionTrack → Round) → List CaptionTrack → Captions
first_usable f [] = absent
first_usable f (t ∷ ts) = elim (f t) [ skip ↦ first_usable f ts | stop c ↦ c ]

unfoldable pub acquire_listed :
    Unicode → Languages → PrimaryLanguage → Bool → Bool → Text → Listed → Captions
unfolding first_usable track_round rank_caption_tracks
acquire_listed u l primaries include cancelled_listed declared (tracks ts) =
    if cancelled_listed
    then cancelled
    else first_usable (track_round u l include) (rank_caption_tracks u l primaries declared ts)
acquire_listed u l primaries include cancelled_listed declared ended = provider_timeout
acquire_listed u l primaries include cancelled_listed declared ended_typed = provider_timeout
acquire_listed u l primaries include cancelled_listed declared unusable = provider_failure
acquire_listed u l primaries include cancelled_listed declared external_failure = provider_failure

unfoldable pub acquire_declared :
    Unicode → Languages → PrimaryLanguage → Bool → Bool → Bool → Option Text → Listed → Captions
unfolding acquire_listed
acquire_declared u l primaries include cancelled_first cancelled_listed none listed = absent
acquire_declared u l primaries include cancelled_first cancelled_listed (some d) listed =
    if cancelled_first
    then cancelled
    else acquire_listed u l primaries include cancelled_listed d listed

unfoldable pub acquire_transcript :
    Unicode → Languages → PrimaryLanguage → Bool → Bool → Bool → Option Text → Listed → Captions
unfolding acquire_declared canonical_caption_declaration
acquire_transcript u l primaries include cancelled_first cancelled_listed declared listed =
    acquire_declared u l primaries include cancelled_first cancelled_listed
      (canonical_caption_declaration u l primaries declared) listed
