-- ===== src/Transcription/Normalizing/Tests.antt =====
-- The normalization of two segments.
use textify.Prelude.{
  Bool, subst, true, false, ◌≡◌, refl, none, some, List, [], ◌∷◌, ◌==◌, if◌then◌else◌, all, map,
  select, arith,
}
use textify.Texts.{Text, Unicode, codes, join, same_text, is_blank, collapse_whitespace, empty}
use textify.Transcription.Fields.{faster_whisper}
use textify.Transcription.Faults.{value}
use textify.Transcription.Normalizing.{
  Segment, Languages, und, strip, normalize_transcript, language_of, joined, sort_by_start,
}
use textify.Transcription.Normalizing.Results.{TagLaws, raw, spoken, normalize_transcript-succeeds}

abbrev plain : Unicode
plain = record {
  lower = λ t. t;
  fold = λ c. c ∷ [];
  is_space = λ c. c == 32;
  is_digit = λ c. false;
  decimal = λ c. none;
}

-- Only the unknown tag is standard.
abbrev tags : Languages
tags t = if same_text t und then some und else none

laws : TagLaws plain tags
unfolding is_blank strip same_text all
laws = record { blank = refl; standard = λ t s e. standard (same_text t und) t s e; unknown = refl }
  where
    standard :
        (b : Bool) (t s : Text)
        → (if b then some und else none) ≡ some s
        → (is_blank plain s ≡ false) × (strip plain s ≡ s) × (tags s ≡ some s)
    standard true t s e =
        subst (λ x. (is_blank plain x ≡ false) × (strip plain x ≡ x) × (tags x ≡ some x)) {x = und}
          (cc e) (refl, refl, refl)
    standard false t s e = cc e

abbrev given : List Segment
given =
    record { start = 5; end = 9; text = codes " b  c " }
    ∷ record { start = 1; end = 4; text = codes "  " }
    ∷ record { start = 2; end = 4; text = codes "a" }
    ∷ []

abbrev kept : List Segment
kept =
    record { start = 5; end = 9; text = codes "b c" }
    ∷ record { start = 2; end = 4; text = codes "a" }
    ∷ []

given-spoken : spoken plain given ≡ kept
unfolding spoken collapse_whitespace empty select
given-spoken = refl

normalize_transcript-succeeds_example :
    normalize_transcript plain tags faster_whisper none (map raw given) true
    ≡ value (record {
      method = faster_whisper;
      language = language_of plain tags none (sort_by_start (spoken plain given));
      text = joined (sort_by_start (spoken plain given));
      segments = some (sort_by_start (spoken plain given));
    })
normalize_transcript-succeeds_example =
    normalize_transcript-succeeds plain tags laws faster_whisper none given true
      (omega arith, (omega arith, (omega arith, tt)))

text_lem : joined (sort_by_start kept) ≡ codes "a b c"
unfolding joined sort_by_start join
text_lem = refl
