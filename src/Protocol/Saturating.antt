-- ===== src/Protocol/Saturating.antt =====
-- vw_saturating_add_i64 and vw_saturating_sub_i64 of protocol/include/vw_protocol_util.h, on the
-- values of the integers. __builtin_add_overflow gives the exact sum's low 64 bits and tells whether
-- the sum is out of range.
use vlc_whisper.Common.{◌-◌, ◌^◌, ◌≡◌, Bool, ◌||◌, arith, if◌then◌else◌}
use vlc_whisper.Common.Int.{ℤ, pos, negsuc, ◌+ℤ◌, ◌-ℤ◌, ◌≤ℤ◌, ltb_ℤ, +ℤ_parts, -ℤ_parts}

abbrev pub int64_max : ℤ
int64_max = pos (2 ^ 63 - 1)

abbrev pub int64_min : ℤ
int64_min = negsuc (2 ^ 63 - 1)

unfoldable pub out_of_range : ℤ → Bool
out_of_range n = ltb_ℤ int64_max n || ltb_ℤ n int64_min

-- vw_saturating_add_i64
unfoldable pub saturating_add_i64 : ℤ → ℤ → ℤ
saturating_add_i64 a b =
    if out_of_range (a +ℤ b) then if ltb_ℤ (pos 0) b then int64_max else int64_min else a +ℤ b

-- vw_saturating_sub_i64
unfoldable pub saturating_sub_i64 : ℤ → ℤ → ℤ
saturating_sub_i64 a b =
    if out_of_range (a -ℤ b) then if ltb_ℤ b (pos 0) then int64_max else int64_min else a -ℤ b

abbrev pub IsI64 : ℤ → Type 0
IsI64 n = (int64_min ≤ℤ n) × (n ≤ℤ int64_max)

-- The nearest integer of 64 bits.
unfoldable pub clamp : ℤ → ℤ
clamp n = if ltb_ℤ int64_max n then int64_max else if ltb_ℤ n int64_min then int64_min else n

-- The sum and the difference of two 64-bit integers are the nearest 64-bit integers to the exact ones.
pub saturating-clamp :
    (a b : ℤ)
    → IsI64 a
    → IsI64 b
    → (saturating_add_i64 a b ≡ clamp (a +ℤ b)) × (saturating_sub_i64 a b ≡ clamp (a -ℤ b))
unfolding saturating_add_i64 saturating_sub_i64 clamp out_of_range
saturating-clamp a b ha hb = (ground (arith, +ℤ_parts a b), ground (arith, -ℤ_parts a b))
