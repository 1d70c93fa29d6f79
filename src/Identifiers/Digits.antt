-- ===== src/Identifiers/Digits.antt =====
-- The digits of a number, read back.
use textify.Prelude.{
  ℕ, zero, suc, ◌+◌, ◌*◌, ◌/◌, ◌%◌, ◌^◌, ◌<◌, false, ◌≡◌, refl, ◌∙◌, sym, subst, some, ◌∷◌, ◌==◌,
  arith,
}
use native.Mathlib.Nat.{div-add-mod, div-div-eq-div-mul, pow-succ', mod-one}
use textify.Texts.{Text}
use textify.Identifiers.{hex_digit, hex_value, hex, hyphen, read_hex}

hex_value-hex_digit : (d : ℕ) → d < 16 → hex_value (hex_digit d) ≡ some d
unfolding hex_value hex_digit
hex_value-hex_digit d h = ground arith

hex_digit-ne-hyphen : (d : ℕ) → (hex_digit d == hyphen) ≡ false
unfolding hex_digit
hex_digit-ne-hyphen d = ground arith

read_hex-digit :
    (d : ℕ) (cs : Text) (n acc : ℕ)
    → d < 16
    → read_hex (hex_digit d ∷ cs) n acc ≡ read_hex cs (n + 1) (acc * 16 + d)
unfolding read_hex
read_hex-digit d cs n acc h = rw (hex_digit-ne-hyphen d) (rw (hex_value-hex_digit d h) refl)

pub read_hex-hyphen : (cs : Text) (n acc : ℕ) → read_hex (hyphen ∷ cs) n acc ≡ read_hex cs n acc
unfolding read_hex
read_hex-hyphen cs n acc = refl

pub read_hex-same : (cs : Text) {n m a b : ℕ} → n ≡ m → a ≡ b → read_hex cs n a ≡ read_hex cs m b
read_hex-same cs p q = rw p (rw q refl)

mod_sixteen : (x m : ℕ) → x % (16 * m) ≡ x / 16 % m * 16 + x % 16
mod_sixteen x m =
    let whole =
      subst (λ q. 16 * m * q + x % (16 * m) ≡ x) (sym (div-div-eq-div-mul x 16 m))
        (div-add-mod x (16 * m)) in
    let low = div-add-mod (x / 16) m in let digit = div-add-mod x 16 in grind arith

next_digit :
    (acc k x : ℕ)
    → (acc * 16 ^ k + x / 16 % 16 ^ k) * 16 + x % 16 ≡ acc * 16 ^ suc k + x % 16 ^ suc k
next_digit acc k x = rw (pow-succ' 16 k) (rw (mod_sixteen x (16 ^ k)) (grind arith))

-- Reading `k` digits adds them to the number that has been read.
pub read_hex-hex :
    (k x : ℕ) (rest : Text) (n acc : ℕ)
    → read_hex (hex k x rest) n acc ≡ read_hex rest (n + k) (acc * 16 ^ k + x % 16 ^ k)
unfolding hex
read_hex-hex zero x rest n acc = read_hex-same rest (omega arith) (rw (mod-one x) (omega arith))
read_hex-hex (suc k) x rest n acc =
    read_hex-hex k (x / 16) (hex_digit (x % 16) ∷ rest) n acc
    ∙ read_hex-digit (x % 16) rest (n + k) (acc * 16 ^ k + x / 16 % 16 ^ k) (omega arith)
    ∙ read_hex-same rest (omega arith) (next_digit acc k x)
