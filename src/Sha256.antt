-- ===== src/Sha256.antt =====
-- SHA-256 of model files: worker/src/vw_sha256.c and worker/include/vw_sha256.h. A word is a number
-- below 2^32, and each 32-bit sum is reduced; bits that are shifted into place share none, so `|`
-- is a sum there.
pub mod Blocks
pub mod Standard
pub mod Hex
mod Tests
use Prim.Native.Nat.{bit_and, bit_xor}
use vlc_whisper.Common.{
  ℕ, zero, suc, ◌+◌, ◌-◌, ◌*◌, ◌/◌, ◌%◌, ◌^◌, List, [], ◌∷◌, ◌++◌, ltb, ◌==◌, if◌then◌else◌, get_or,
  set, take, drop, replicate, map,
}

-- kVW_SHA256_K
abbrev pub round_constants : List ℕ
round_constants =
    0x428a2f98 ∷ 0x71374491 ∷ 0xb5c0fbcf ∷ 0xe9b5dba5 ∷ 0x3956c25b ∷ 0x59f111f1 ∷ 0x923f82a4
    ∷ 0xab1c5ed5 ∷ 0xd807aa98 ∷ 0x12835b01 ∷ 0x243185be ∷ 0x550c7dc3 ∷ 0x72be5d74 ∷ 0x80deb1fe
    ∷ 0x9bdc06a7 ∷ 0xc19bf174 ∷ 0xe49b69c1 ∷ 0xefbe4786 ∷ 0x0fc19dc6 ∷ 0x240ca1cc ∷ 0x2de92c6f
    ∷ 0x4a7484aa ∷ 0x5cb0a9dc ∷ 0x76f988da ∷ 0x983e5152 ∷ 0xa831c66d ∷ 0xb00327c8 ∷ 0xbf597fc7
    ∷ 0xc6e00bf3 ∷ 0xd5a79147 ∷ 0x06ca6351 ∷ 0x14292967 ∷ 0x27b70a85 ∷ 0x2e1b2138 ∷ 0x4d2c6dfc
    ∷ 0x53380d13 ∷ 0x650a7354 ∷ 0x766a0abb ∷ 0x81c2c92e ∷ 0x92722c85 ∷ 0xa2bfe8a1 ∷ 0xa81a664b
    ∷ 0xc24b8b70 ∷ 0xc76c51a3 ∷ 0xd192e819 ∷ 0xd6990624 ∷ 0xf40e3585 ∷ 0x106aa070 ∷ 0x19a4c116
    ∷ 0x1e376c08 ∷ 0x2748774c ∷ 0x34b0bcb5 ∷ 0x391c0cb3 ∷ 0x4ed8aa4a ∷ 0x5b9cca4f ∷ 0x682e6ff3
    ∷ 0x748f82ee ∷ 0x78a5636f ∷ 0x84c87814 ∷ 0x8cc70208 ∷ 0x90befffa ∷ 0xa4506ceb ∷ 0xbef9a3f7
    ∷ 0xc67178f2 ∷ []

-- The working variables, and `state` of the context.
pub record Words : Type 0 where
  pub a : ℕ
  pub b : ℕ
  pub c : ℕ
  pub d : ℕ
  pub e : ℕ
  pub f : ℕ
  pub g : ℕ
  pub h : ℕ

-- vw_sha256_context_t; `block` is its array `data`.
pub record Context : Type 0 where
  pub block : List ℕ
  pub datalen : ℕ
  pub bitlen : ℕ
  pub state : Words

-- uint32_t of a sum.
abbrev pub u32 : ℕ → ℕ
u32 n = n % 2 ^ 32

-- VW_SHA256_ROTR
unfoldable pub rotr : ℕ → ℕ → ℕ
rotr x n = x / 2 ^ n + u32 (x * 2 ^ (32 - n))

-- Byte `i` of the block.
abbrev pub byte_at : List ℕ → ℕ → ℕ
byte_at block i = get_or block i 0

-- The first loop: `n` words from word `i` on.
unfoldable pub load_words : List ℕ → ℕ → ℕ → List ℕ
load_words block i zero = []
load_words block i (suc n) =
    (byte_at block (i * 4) * 2 ^ 24
      + byte_at block (i * 4 + 1) * 2 ^ 16
      + byte_at block (i * 4 + 2) * 2 ^ 8
      + byte_at block (i * 4 + 3))
    ∷ load_words block (i + 1) n

-- The second loop: `n` more words from word `i` on, each put behind the others.
unfoldable pub extend_words : List ℕ → ℕ → ℕ → List ℕ
unfolding rotr
extend_words w i zero = w
extend_words w i (suc n) =
    let x = get_or w (i - 15) 0 in
    let y = get_or w (i - 2) 0 in
    let s0 = bit_xor (bit_xor (rotr x 7) (rotr x 18)) (x / 2 ^ 3) in
    let s1 = bit_xor (bit_xor (rotr y 17) (rotr y 19)) (y / 2 ^ 10) in
    extend_words (w ++ u32 (get_or w (i - 16) 0 + s0 + get_or w (i - 7) 0 + s1) ∷ []) (i + 1) n

-- A turn of the third loop, with its constant and its word.
unfoldable pub round : ℕ → ℕ → Words → Words
unfolding rotr
round k w v =
    let s1 = bit_xor (bit_xor (rotr v.e 6) (rotr v.e 11)) (rotr v.e 25) in
    let ch = bit_xor (bit_and v.e v.f) (bit_and (2 ^ 32 - 1 - v.e) v.g) in
    let temp1 = u32 (v.h + s1 + ch + k + w) in
    let s0 = bit_xor (bit_xor (rotr v.a 2) (rotr v.a 13)) (rotr v.a 22) in
    let maj = bit_xor (bit_xor (bit_and v.a v.b) (bit_and v.a v.c)) (bit_and v.b v.c) in
    let temp2 = u32 (s0 + maj) in
    record {
      a = u32 (temp1 + temp2);
      b = v.a;
      c = v.b;
      d = v.c;
      e = u32 (v.d + temp1);
      f = v.e;
      g = v.f;
      h = v.g;
    }

-- The third loop.
unfoldable pub rounds : List ℕ → List ℕ → Words → Words
unfolding round
rounds [] ws v = v
rounds (k ∷ ks) [] v = v
rounds (k ∷ ks) (w ∷ ws) v = rounds ks ws (round k w v)

-- vw_sha256_transform on the state of the context.
unfoldable pub transform : Words → List ℕ → Words
unfolding rounds extend_words load_words
transform s block =
    let v = rounds round_constants (extend_words (load_words block 0 16) 16 48) s in
    record {
      a = u32 (s.a + v.a);
      b = u32 (s.b + v.b);
      c = u32 (s.c + v.c);
      d = u32 (s.d + v.d);
      e = u32 (s.e + v.e);
      f = u32 (s.f + v.f);
      g = u32 (s.g + v.g);
      h = u32 (s.h + v.h);
    }

-- vw_sha256_init. It leaves the bytes of the array as they are.
unfoldable pub init : List ℕ → Context
init block = record {
  block = block;
  datalen = 0;
  bitlen = 0;
  state = record {
    a = 0x6a09e667;
    b = 0xbb67ae85;
    c = 0x3c6ef372;
    d = 0xa54ff53a;
    e = 0x510e527f;
    f = 0x9b05688c;
    g = 0x1f83d9ab;
    h = 0x5be0cd19;
  };
}

-- A turn of the loop of vw_sha256_update.
unfoldable pub put_byte : Context → ℕ → Context
put_byte ctx byte =
    let block = set ctx.block ctx.datalen byte in
    let datalen = ctx.datalen + 1 in
    if datalen == 64
    then record {
      block = block;
      datalen = 0;
      bitlen = (ctx.bitlen + 512) % 2 ^ 64;
      state = transform ctx.state block;
    }
    else record ctx { block = block; datalen = datalen }

-- vw_sha256_update
unfoldable pub update : Context → List ℕ → Context
update ctx [] = ctx
update ctx (byte ∷ bytes) = update (put_byte ctx byte) bytes

-- The writes of 0x80 and of the zeros behind it, up to `bound`.
abbrev pub padded : List ℕ → ℕ → ℕ → List ℕ
padded block datalen bound =
    take datalen block ++ (0x80 ∷ (replicate (bound - datalen - 1) 0 ++ drop bound block))

-- The eight writes of the length, the last byte first.
abbrev pub length_bytes : ℕ → List ℕ
length_bytes n =
    n / 2 ^ 56 % 256
    ∷ n / 2 ^ 48 % 256
    ∷ n / 2 ^ 40 % 256
    ∷ n / 2 ^ 32 % 256
    ∷ n / 2 ^ 24 % 256
    ∷ n / 2 ^ 16 % 256
    ∷ n / 2 ^ 8 % 256
    ∷ n % 256
    ∷ []

-- The bytes of a word in the hash, the highest first.
abbrev pub word_bytes : ℕ → List ℕ
word_bytes x = x / 2 ^ 24 % 256 ∷ x / 2 ^ 16 % 256 ∷ x / 2 ^ 8 % 256 ∷ x % 256 ∷ []

unfoldable pub digest : Words → List ℕ
digest s =
    word_bytes s.a
    ++ word_bytes s.b
    ++ word_bytes s.c
    ++ word_bytes s.d
    ++ word_bytes s.e
    ++ word_bytes s.f
    ++ word_bytes s.g
    ++ word_bytes s.h

-- vw_sha256_final: the hash. The context is not used after it.
unfoldable pub final : Context → List ℕ
final ctx =
    let bitlen = (ctx.bitlen + ctx.datalen * 8) % 2 ^ 64 in
    if ltb ctx.datalen 56
    then digest
        (transform ctx.state (take 56 (padded ctx.block ctx.datalen 56) ++ length_bytes bitlen))
    else digest (
        transform (transform ctx.state (padded ctx.block ctx.datalen 64))
          (replicate 56 0 ++ length_bytes bitlen))

-- vw_sha256, with the bytes that the context has on the stack.
unfoldable pub sha256 : List ℕ → List ℕ → List ℕ
sha256 stack block = final (update (init stack) block)

-- kHex[n]
unfoldable pub hex_digit : ℕ → ℕ
hex_digit n = if ltb n 10 then b'0' + n else b'a' + (n - 10)

-- The loop of vw_sha256_to_hex.
unfoldable pub hex_digits : List ℕ → List ℕ
hex_digits [] = []
hex_digits (byte ∷ bytes) = hex_digit (byte / 16 % 16) ∷ hex_digit (byte % 16) ∷ hex_digits bytes

-- vw_sha256_to_hex: the string with its NUL.
unfoldable pub to_hex : List ℕ → List ℕ
to_hex hash = hex_digits hash ++ 0 ∷ []
