-- ===== src/Transcription/Normalizing.antt =====
-- `normalize_transcript`, `Segment`, `Transcript` and `TimedTranscript` of transcription/types.py. A
-- time is a number of a fixed unit; a value that is no number, and no finite nonnegative one, has a
-- constructor of its own. `standardize_tag` of langcodes is a parameter.
pub mod Sorting
pub mod Results
mod Tests
use textify.Prelude.{
  ℕ, Bool, true, false, ◌&&◌, ◌||◌, not, Option, none, some, List, [], ◌∷◌, map, ◌==◌, ltb, leb,
  all, if◌then◌else◌,
}
use textify.Texts.{Text, Unicode, codes, same_text, empty, is_blank, join, collapse_whitespace}
use textify.Transcription.Fields.{TranscriptMethod}
use textify.Transcription.Faults.{
  Checked, value, fault, Fault, value_error, type_error, ◌>>=◌, ◌>>◌,
}

pub data Time : Type 0 where
  seconds : ℕ → Time
  negative not_finite not_numeric : Time

-- `_validated_time`
unfoldable pub validated_time : Time → Checked ℕ
validated_time (seconds n) = value n
validated_time negative = fault value_error
validated_time not_finite = fault value_error
validated_time not_numeric = fault type_error

-- A raw segment of three parts; its text may be no string.
pub record RawSegment : Type 0 where
  pub start : Time
  pub end : Time
  pub text : Option Text

pub record Segment : Type 0 where
  pub start : ℕ
  pub end : ℕ
  pub text : Text

-- A timed transcript has segments.
pub record Transcript : Type 0 where
  pub method : TranscriptMethod
  pub language : Text
  pub text : Text
  pub segments : Option (List Segment)

-- `standardize_tag`, which raises `LanguageTagError` on a malformed tag
abbrev pub Languages : Type 0
Languages = Text → Option Text

-- `t.strip()`
unfoldable pub strip_left : Unicode → Text → Text
strip_left u [] = []
strip_left u (c ∷ t) = let rest = strip_left u t in if u.is_space c then rest else c ∷ t

unfoldable pub strip_right : Unicode → Text → Text
unfolding is_blank
strip_right u [] = []
strip_right u (c ∷ t) = let rest = strip_right u t in if is_blank u (c ∷ t) then [] else c ∷ rest

unfoldable pub strip : Unicode → Text → Text
unfolding strip_left strip_right
strip u t = strip_right u (strip_left u t)

abbrev pub und : Text
und = codes "und"

unfoldable pub tag_or_und : Option Text → Text
tag_or_und none = und
tag_or_und (some t) = t

-- A language that is no string is None.
unfoldable pub normalize_language_tag : Unicode → Languages → Option Text → Text
unfolding is_blank strip tag_or_und
normalize_language_tag u l none = und
normalize_language_tag u l (some t) = if is_blank u t then und else tag_or_und (l (strip u t))

unfoldable pub ensure_value : Bool → Checked (Unit {0})
ensure_value true = value tt
ensure_value false = fault value_error

-- `Segment.__post_init__`
unfoldable pub new_segment : Unicode → ℕ → ℕ → Text → Checked Segment
unfolding ensure_value
new_segment u start end text = do
  ensure_value (leb start end)
  ensure_value (not (empty text) && same_text text (collapse_whitespace u text))
  value (record { start = start; end = end; text = text })

unfoldable pub new_segments : Unicode → List Segment → Checked (List Segment)
unfolding new_segment
new_segments u [] = value []
new_segments u (s ∷ ss) = do
  t ← new_segment u s.start s.end s.text
  ts ← new_segments u ss
  value (t ∷ ts)

-- `Transcript.__post_init__`
unfoldable pub check_transcript : Unicode → Languages → Transcript → Checked (Unit {0})
unfolding ensure_value
check_transcript u l t = do
  ensure_value (same_text t.language (normalize_language_tag u l (some t.language)))
  ensure_value (same_text t.text (collapse_whitespace u t.text))
  ensure_value (not (empty t.text) || same_text t.language und)

unfoldable pub starts_sorted : List Segment → Bool
starts_sorted [] = true
starts_sorted (s ∷ []) = true
starts_sorted (s ∷ t ∷ ss) = leb s.start t.start && starts_sorted (t ∷ ss)

-- `" ".join(segment.text for segment in segments)`
unfoldable pub joined : List Segment → Text
joined ss = join (codes " ") (map (λ s. s.text) ss)

-- `TimedTranscript.__post_init__`
unfoldable pub check_segments : Transcript → List Segment → Checked (Unit {0})
unfolding ensure_value
check_segments t ss = do
  ensure_value (starts_sorted ss)
  ensure_value (same_text t.text (joined ss))

unfoldable pub new_text_transcript :
    Unicode → Languages → TranscriptMethod → Text → Text → Checked Transcript
unfolding check_transcript
new_text_transcript u l method language text =
    let t : Transcript = record {
      method = method;
      language = language;
      text = text;
      segments = none;
    } in
    check_transcript u l t >> value t

unfoldable pub new_timed_transcript :
    Unicode → Languages → TranscriptMethod → Text → Text → List Segment → Checked Transcript
unfolding check_transcript check_segments
new_timed_transcript u l method language text ss =
    let t : Transcript = record {
      method = method;
      language = language;
      text = text;
      segments = some ss;
    } in
    check_transcript u l t >> (check_segments t ss >> value t)

unfoldable pub raw_text : Option Text → Checked Text
raw_text none = fault type_error
raw_text (some t) = value t

-- One round of the loop over the raw segments.
unfoldable pub normalize_record : Unicode → RawSegment → Checked Segment
unfolding validated_time ensure_value raw_text
normalize_record u r = do
  start ← validated_time r.start
  end ← validated_time r.end
  ensure_value (leb start end)
  text ← raw_text r.text
  value (record { start = start; end = end; text = collapse_whitespace u text })

-- The loop; a record without text is left out.
unfoldable pub normalize_records : Unicode → List RawSegment → Checked (List Segment)
normalize_records u [] = value []
normalize_records u (r ∷ rs) = do
  s ← normalize_record u r
  ss ← normalize_records u rs
  value (if empty s.text then ss else s ∷ ss)

-- `sort` is stable.
unfoldable pub insert_by_start : Segment → List Segment → List Segment
insert_by_start s [] = s ∷ []
insert_by_start s (t ∷ ts) =
    let rest = insert_by_start s ts in if leb s.start t.start then s ∷ t ∷ ts else t ∷ rest

unfoldable pub sort_by_start : List Segment → List Segment
unfolding insert_by_start
sort_by_start [] = []
sort_by_start (s ∷ ss) = insert_by_start s (sort_by_start ss)

unfoldable pub language_of : Unicode → Languages → Option Text → List Segment → Text
language_of u l language [] = und
language_of u l language (s ∷ ss) = normalize_language_tag u l language

unfoldable pub build_transcript :
    Unicode → Languages → TranscriptMethod → Option Text → Bool → List Segment → Checked Transcript
build_transcript u l method language false ss =
    new_text_transcript u l method (language_of u l language ss) (joined ss)
build_transcript u l method language true ss = do
  segments ← new_segments u ss
  new_timed_transcript u l method (language_of u l language ss) (joined ss) segments

unfoldable pub normalize_transcript :
    Unicode
    → Languages
    → TranscriptMethod
    → Option Text
    → List RawSegment
    → Bool
    → Checked Transcript
unfolding build_transcript
normalize_transcript u l method language raws include_segments = do
  records ← normalize_records u raws
  build_transcript u l method language include_segments (sort_by_start records)
