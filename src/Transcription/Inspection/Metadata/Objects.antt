-- ===== src/Transcription/Inspection/Metadata/Objects.antt =====
-- The Python objects that yt-dlp returns, as far as the program looks into them.
use textify.Prelude.{ℕ, Bool, not, Option, none, some, if◌then◌else◌, is_none}
use textify.Texts.{Text, same_text}

-- A number that is no bool: a positive finite one is (n + 1) / (d + 1).
pub data Number : Type 0 where
  positive : ℕ → ℕ → Number
  nonpositive infinite not_a_number : Number

-- A Python object, as far as the program looks into it.
mutual
  pub data Value : Type 0 where
    null : Value
    bool : Bool → Value
    number : Number → Value
    text : Text → Value
    mapping : Fields → Value
    sequence : Items → Value
    other : Value

  pub data Items : Type 0 where
    nil : Items
    cons : Value → Items → Items

  pub data Fields : Type 0 where
    end : Fields
    field : Text → Value → Fields → Fields

-- `metadata.get(key, _MISSING)`
unfoldable pub get : Text → Fields → Option Value
unfolding same_text
get k end = none
get k (field j v m) = let rest = get k m in if same_text j k then some v else rest

-- `key in metadata`
unfoldable pub has_key : Text → Fields → Bool
unfolding get
has_key k m = not (is_none (get k m))
