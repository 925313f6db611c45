-- ===== src/Sha256/Hex.antt =====
-- vw_sha256_to_hex of worker/src/vw_sha256.c.
use mathlib.Core.Path.{ap₂}
use vlc_whisper.Common.{
  ℕ, ◌+◌, ◌-◌, ◌*◌, ◌/◌, ◌%◌, ◌≡◌, ◌≤◌, ◌<◌, ◌⊎◌, refl, List, [], ◌∷◌, ◌++◌, arith, ltb,
  if◌then◌else◌, length, All,
}
use vlc_whisper.Sha256.{hex_digit, hex_digits, to_hex}

abbrev pub IsHexDigit : ℕ → Type 0
IsHexDigit c = ((b'0' ≤ c) × (c ≤ b'9')) ⊎ ((b'a' ≤ c) × (c ≤ b'f'))

-- The number that a digit stands for.
unfoldable pub digit_value : ℕ → ℕ
digit_value c = if ltb c b'a' then c - b'0' else c - b'a' + 10

-- The bytes that pairs of digits stand for.
unfoldable pub hex_bytes : List ℕ → List ℕ
unfolding digit_value
hex_bytes [] = []
hex_bytes (c ∷ []) = []
hex_bytes (c ∷ d ∷ rest) = (digit_value c * 16 + digit_value d) ∷ hex_bytes rest

hex_digit-IsHexDigit : (n : ℕ) → n < 16 → IsHexDigit (hex_digit n)
unfolding hex_digit
hex_digit-IsHexDigit n h = ground arith

digit_value-hex_digit : (n : ℕ) → n < 16 → digit_value (hex_digit n) ≡ n
unfolding digit_value hex_digit
digit_value-hex_digit n h = ground arith

length-hex_digits : (hash : List ℕ) → length (hex_digits hash) ≡ 2 * length hash
unfolding hex_digits
length-hex_digits [] = refl
length-hex_digits (b ∷ hash) = omega (arith, length-hex_digits hash)

hex_digits-IsHexDigit : (hash : List ℕ) → All IsHexDigit (hex_digits hash)
unfolding hex_digits
hex_digits-IsHexDigit [] = tt
hex_digits-IsHexDigit (b ∷ hash) = (
  hex_digit-IsHexDigit (b / 16 % 16) (omega arith),
  (hex_digit-IsHexDigit (b % 16) (omega arith), hex_digits-IsHexDigit hash),
)

hex_bytes-hex_digits :
    (hash : List ℕ) → All (λ b. b < 256) hash → hex_bytes (hex_digits hash) ≡ hash
unfolding hex_bytes hex_digits
hex_bytes-hex_digits [] h = refl
hex_bytes-hex_digits (b ∷ hash) (lt, h) =
    ap₂ ◌∷◌
      (omega (
        arith,
        lt,
        digit_value-hex_digit (b / 16 % 16) (omega arith),
        digit_value-hex_digit (b % 16) (omega arith),
      ))
      (hex_bytes-hex_digits hash h)

-- `to_hex` writes two digits 0-9 or a-f for each byte and a NUL behind them, and the digits stand for
-- the bytes.
pub hex_bytes-to_hex :
    (hash : List ℕ)
    → All (λ b. b < 256) hash
    → (text : List ℕ) × (to_hex hash ≡ text ++ 0 ∷ [])
      × (length text ≡ 2 * length hash)
      × All IsHexDigit text
      × (hex_bytes text ≡ hash)
unfolding to_hex
hex_bytes-to_hex hash h = (
  hex_digits hash,
  refl,
  length-hex_digits hash,
  hex_digits-IsHexDigit hash,
  hex_bytes-hex_digits hash h,
)
