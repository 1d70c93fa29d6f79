-- ===== src/Identifiers.antt =====
-- identifiers.py, and what it uses of Python's `uuid`. `UUID(value)` is read here only in the
-- spelling with hyphens and digits; the other spellings that it takes (braces, `urn:`, and the signs
-- and blanks of `int`) are not canonical, and the comparison with `str(parsed)` refuses them.
pub mod Digits
pub mod RoundTrip
use textify.Prelude.{
  ℕ, zero, suc, ◌+◌, ◌-◌, ◌*◌, ◌/◌, ◌%◌, ◌^◌, Bool, true, false, ◌&&◌, ◌||◌, Option, none, some,
  List, [], ◌∷◌, ◌++◌, ◌==◌, ltb, leb, if◌then◌else◌,
}
use textify.Texts.{Text, same_text}
use textify.Jobs.Types.{Uuid, is_uuid4}

-- A digit of `'%032x' % self.int`
unfoldable pub hex_digit : ℕ → ℕ
hex_digit d = if ltb d 10 then d + 48 else d + 87

unfoldable pub hex_value : ℕ → Option ℕ
hex_value c =
    if leb 48 c && leb c 57
    then some (c - 48)
    else if leb 97 c && leb c 102
    then some (c - 87)
    else if leb 65 c && leb c 70
    then some (c - 55)
    else none

-- The lowest `k` hexadecimal digits, before `rest`.
unfoldable pub hex : ℕ → ℕ → Text → Text
unfolding hex_digit
hex zero x rest = rest
hex (suc k) x rest = hex k (x / 16) (hex_digit (x % 16) ∷ rest)

abbrev pub hyphen : ℕ
hyphen = b'-'

-- `str(uuid)`: the digits in groups of 8, 4, 4, 4 and 12
unfoldable pub uuid_text : Uuid → Text
unfolding hex
uuid_text u = hex 8 (u / 16 ^ 24) (
    hyphen
    ∷ hex 4 (u / 16 ^ 20)
        (hyphen ∷ hex 4 (u / 16 ^ 16) (hyphen ∷ hex 4 (u / 16 ^ 12) (hyphen ∷ hex 12 u []))))

-- `int(value.replace('-', ''), 16)`, with the count of the digits
unfoldable pub read_hex : Text → ℕ → ℕ → Option (ℕ × ℕ)
unfolding hex_value
read_hex [] n acc = some (n, acc)
read_hex (c ∷ cs) n acc =
    let skipped = read_hex cs n acc in
    if c == hyphen
    then skipped
    else elim (hex_value c) [ none ↦ none | some d ↦ read_hex cs (n + 1) (acc * 16 + d) ]

unfoldable pub of_digits : Option (ℕ × ℕ) → Option Uuid
of_digits none = none
of_digits (some (n, u)) = if n == 32 then some u else none

-- `UUID(value)`
unfoldable pub parse_uuid : Text → Option Uuid
unfolding of_digits read_hex
parse_uuid t = of_digits (read_hex t 0 0)

unfoldable pub canonical : Text → Option Uuid → Option Uuid
canonical t none = none
canonical t (some u) = if is_uuid4 u && same_text (uuid_text u) t then some u else none

-- `none` is a `ValueError`.
unfoldable pub parse_canonical_uuid4 : Text → Option Uuid
unfolding canonical parse_uuid
parse_canonical_uuid4 t = canonical t (parse_uuid t)
