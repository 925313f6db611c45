-- ===== src/Protocol/Utf8.antt =====
-- UTF-8: is_valid_utf8 of protocol/src/vw_protocol_validate.c and vw_utf8_safe_len of
-- protocol/include/vw_protocol_util.h. Both loops take one character at a time; `read_char` is one
-- turn. A test of the top bits of a byte, `(c & 0xE0) == 0xC0`, is written by division, and
-- `(code_point << 6) | (next & 0x3F)`, whose parts share no bit, as a sum.
pub mod Scalars
pub mod Sound
pub mod Valid
pub mod Safe
use vlc_whisper.Common.{
  ℕ, zero, suc, ◌+◌, ◌-◌, ◌*◌, ◌/◌, ◌%◌, ◌≡◌, Bool, true, false, not, ◌&&◌, ◌||◌, Option, none,
  some, List, [], ◌∷◌, ltb, leb, ◌==◌, if◌then◌else◌, length, take, All, ◌<◌,
}

-- What the first byte says: how many bytes follow, its bits, and the least code point.
pub record Lead : Type 0 where
  pub extra : ℕ
  pub bits : ℕ
  pub min_cp : ℕ

unfoldable pub lead_byte : ℕ → Option Lead
lead_byte c =
    if c / 32 == 6
    then some (record { extra = 1; bits = c % 32; min_cp = 0x80 })
    else if c / 16 == 14
    then some (record { extra = 2; bits = c % 16; min_cp = 0x800 })
    else if c / 8 == 30
    then some (record { extra = 3; bits = c % 8; min_cp = 0x10000 })
    else none

-- The loop over the continuation bytes.
unfoldable pub continuation : ℕ → ℕ → List ℕ → Option (ℕ × List ℕ)
continuation zero code_point rest = some (code_point, rest)
continuation (suc extra) code_point [] = none
continuation (suc extra) code_point (next ∷ rest) =
    let more = continuation extra (code_point * 64 + next % 64) rest in
    if not (next / 64 == 2) then none else more

-- The tests for overlong forms, surrogates and the largest code point.
unfoldable pub check_code_point : ℕ → ℕ × List ℕ → Option (ℕ × List ℕ)
check_code_point min_cp (code_point, rest) =
    if ltb code_point min_cp
    then none
    else if leb 0xD800 code_point && leb code_point 0xDFFF
    then none
    else if ltb 0x10FFFF code_point
    then none
    else some (code_point, rest)

-- A character of more than one byte.
unfoldable pub read_long : Option Lead → List ℕ → Option (ℕ × List ℕ)
read_long none rest = none
read_long (some l) rest =
    if ltb (length rest) l.extra then none else elim (continuation l.extra l.bits rest) [
      | none ↦ none
      | some r ↦ check_code_point l.min_cp r
    ]

-- One turn: the code point and the bytes behind it; `none` where the text is not UTF-8.
unfoldable pub read_char : ℕ → List ℕ → Option (ℕ × List ℕ)
unfolding lead_byte continuation check_code_point read_long
read_char c rest = if leb c 0x7F then some (c, rest) else read_long (lead_byte c) rest

-- Each turn takes a byte, so the length of the text is fuel enough.
unfoldable pub is_valid_utf8_from : ℕ → List ℕ → Bool
is_valid_utf8_from fuel [] = true
is_valid_utf8_from zero (c ∷ cs) = false
is_valid_utf8_from (suc fuel) (c ∷ cs) = elim (read_char c cs) [
  | none ↦ false
  | some (code_point, rest) ↦ is_valid_utf8_from fuel rest
]

unfoldable pub is_valid_utf8 : List ℕ → ℕ → Bool
unfolding is_valid_utf8_from
is_valid_utf8 text len = is_valid_utf8_from len (take len text)

-- The bytes of a C string up to a bound: `len` of them are behind the reader.
unfoldable pub safe_len_from : ℕ → List ℕ → ℕ → ℕ
safe_len_from zero bs len = len
safe_len_from (suc fuel) [] len = len
safe_len_from (suc fuel) (c ∷ cs) len = if c == 0 then len else elim (read_char c cs) [
  | none ↦ len
  | some (code_point, rest) ↦ safe_len_from fuel rest (len + (suc (length cs) - length rest))
]

-- vw_utf8_safe_len(s, max_bytes)
unfoldable pub utf8_safe_len : List ℕ → ℕ → ℕ
unfolding safe_len_from
utf8_safe_len s max_bytes = safe_len_from max_bytes (take max_bytes s) 0
