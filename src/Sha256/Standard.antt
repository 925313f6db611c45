-- ===== src/Sha256/Standard.antt =====
-- vw_sha256_update and vw_sha256_final of worker/src/vw_sha256.c against the hash of a whole message
-- as FIPS 180-4 has it: pad the message, compress its blocks in order.
use native.Mathlib.Decide.{dec_lt, ℕ_discrete}
use mathlib.Core.Path.{ap₂, subst}
use vlc_whisper.Common.{
  ℕ, ◌+◌, ◌-◌, ◌*◌, ◌/◌, ◌%◌, ◌^◌, ◌≡◌, ◌≤◌, ◌<◌, refl, ap, sym, ◌∙◌, true, false, List, [], ◌∷◌,
  ◌++◌, arith, ltb, ◌==◌, lt→ltb, length, take, drop, set, replicate, append-nil, append_assoc,
  length-append, length-drop, length-replicate, take-append,
}
use vlc_whisper.Sha256.{
  Words, Context, init, put_byte, update, padded, length_bytes, digest, final, transform,
}
use vlc_whisper.Sha256.Blocks.{
  absorb, absorb-append, absorb-block, take-exact, drop-exact, set-append, replicate-add,
}

-- The state that the standard starts from.
abbrev pub initial : Words
initial = record {
  a = 0x6a09e667;
  b = 0xbb67ae85;
  c = 0x3c6ef372;
  d = 0xa54ff53a;
  e = 0x510e527f;
  f = 0x9b05688c;
  g = 0x1f83d9ab;
  h = 0x5be0cd19;
}

-- A one bit, the fewest zeros that make the length with the count of bits a multiple of 64 bytes,
-- and the count, as a 64-bit number.
abbrev pub padding : ℕ → List ℕ
padding len = 0x80 ∷ replicate ((119 - len % 64) % 64) 0 ++ length_bytes (8 * len % 2 ^ 64)

unfoldable pub standard : List ℕ → List ℕ
standard message =
    let bytes = message ++ padding (length message) in
    digest (absorb (length bytes / 64) initial bytes)

-- The context behind a message: `front` is absorbed, `rest` is in the array.
pub record IsBehind (ctx : Context) (message : List ℕ) : Type 0 where
  pub blocks : ℕ
  pub front : List ℕ
  pub rest : List ℕ
  pub stale : List ℕ
  pub parts : message ≡ front ++ rest
  pub whole : length front ≡ 64 * blocks
  pub array : ctx.block ≡ rest ++ stale
  pub room : length rest + length stale ≡ 64
  pub short : length rest < 64
  pub datalen : ctx.datalen ≡ length rest
  pub bitlen : ctx.bitlen ≡ 512 * blocks % 2 ^ 64
  pub state : ctx.state ≡ absorb blocks initial front

init-IsBehind : (stack : List ℕ) → length stack ≡ 64 → IsBehind (init stack) []
unfolding init absorb
init-IsBehind stack h = record {
  blocks = 0;
  front = [];
  rest = [];
  stale = stack;
  parts = refl;
  whole = refl;
  array = refl;
  room = omega (arith, h);
  short = omega arith;
  datalen = refl;
  bitlen = refl;
  state = refl;
}

-- The byte goes behind the others in the array.
stored :
    (rest stale : List ℕ) (byte : ℕ)
    → 0 < length stale
    → set (rest ++ stale) (length rest) byte ≡ (rest ++ byte ∷ []) ++ drop 1 stale
stored rest [] byte h = absurd (omega arith)
stored rest (x ∷ stale) byte h =
    set-append rest x stale byte ∙ sym (append_assoc rest (byte ∷ []) stale)

stored_in :
    (ctx : Context) (message : List ℕ) (byte : ℕ) (v : IsBehind ctx message)
    → set ctx.block ctx.datalen byte ≡ (v.rest ++ byte ∷ []) ++ drop 1 v.stale
stored_in ctx message byte v =
    ap₂ (λ array i. set array i byte) v.array v.datalen
    ∙ stored v.rest v.stale byte (omega (arith, v.room, v.short))

spent : (stale : List ℕ) → length stale ≡ 1 → drop 1 stale ≡ []
spent [] h = refl
spent (x ∷ []) h = refl
spent (x ∷ y ∷ stale) h = absurd (omega arith)

put_byte-partial :
    (ctx : Context) (message : List ℕ) (byte : ℕ) (v : IsBehind ctx message)
    → length v.rest + 1 < 64
    → IsBehind (put_byte ctx byte) (message ++ byte ∷ [])
unfolding put_byte
put_byte-partial ctx message byte v lt =
    let test : (ctx.datalen + 1 == 64) ≡ false = ground (arith, v.datalen) in
    let more = length-append v.rest (byte ∷ []) in
    rw test (record {
      blocks = v.blocks;
      front = v.front;
      rest = v.rest ++ byte ∷ [];
      stale = drop 1 v.stale;
      parts = ap (λ m. m ++ byte ∷ []) v.parts ∙ append_assoc v.front v.rest (byte ∷ []);
      whole = v.whole;
      array = stored_in ctx message byte v;
      room = omega (arith, v.room, more, length-drop 1 v.stale);
      short = omega (arith, more);
      datalen = omega (arith, v.datalen, more);
      bitlen = v.bitlen;
      state = v.state;
    })

put_byte-whole :
    (ctx : Context) (message : List ℕ) (byte : ℕ) (v : IsBehind ctx message)
    → length v.rest + 1 ≡ 64
    → IsBehind (put_byte ctx byte) (message ++ byte ∷ [])
unfolding put_byte
put_byte-whole ctx message byte v all =
    let test : (ctx.datalen + 1 == 64) ≡ true = ground (arith, v.datalen) in
    let block = v.rest ++ byte ∷ [] in
    let full : length block ≡ 64 = omega (arith, length-append v.rest (byte ∷ [])) in
    let filled =
      stored_in ctx message byte v
      ∙ ap (λ ys. block ++ ys) (spent v.stale (omega (arith, v.room)))
      ∙ append-nil block in
    rw test (record {
      blocks = v.blocks + 1;
      front = v.front ++ block;
      rest = [];
      stale = block;
      parts =
          ap (λ m. m ++ byte ∷ []) v.parts
          ∙ append_assoc v.front v.rest (byte ∷ [])
          ∙ sym (append-nil (v.front ++ block));
      whole = omega (arith, length-append v.front block, full, v.whole);
      array = filled;
      room = omega (arith, full);
      short = omega arith;
      datalen = refl;
      bitlen = omega (arith, v.bitlen);
      state =
          ap₂ transform v.state filled
          ∙ sym (absorb-block (absorb v.blocks initial v.front) block full)
          ∙ sym (absorb-append v.blocks 1 initial v.front block v.whole);
    })

put_byte-IsBehind :
    (ctx : Context) (message : List ℕ) (byte : ℕ)
    → IsBehind ctx message
    → IsBehind (put_byte ctx byte) (message ++ byte ∷ [])
put_byte-IsBehind ctx message byte v = elim (ℕ_discrete (length v.rest + 1) 64) [
  | yes all ↦ put_byte-whole ctx message byte v all
  | no some_left ↦ put_byte-partial ctx message byte v (omega (arith, v.short))
]

update-IsBehind :
    (ctx : Context) (message bytes : List ℕ)
    → IsBehind ctx message
    → IsBehind (update ctx bytes) (message ++ bytes)
unfolding update
update-IsBehind ctx message [] v = subst (IsBehind ctx) (sym (append-nil message)) v
update-IsBehind ctx message (byte ∷ bytes) v =
    subst (IsBehind (update (put_byte ctx byte) bytes)) (append_assoc message (byte ∷ []) bytes) (
      update-IsBehind (put_byte ctx byte) (message ++ byte ∷ []) bytes
        (put_byte-IsBehind ctx message byte v))

-- The standard on the blocks that follow `front`.
standard-tail :
    (ctx : Context) (message : List ℕ) (v : IsBehind ctx message) (tail : List ℕ) (k : ℕ)
    → v.rest ++ padding (length message) ≡ tail
    → length tail ≡ 64 * k
    → standard message ≡ digest (absorb k (absorb v.blocks initial v.front) tail)
unfolding standard
standard-tail ctx message v tail k e len =
    let split : message ++ padding (length message) ≡ v.front ++ tail =
      ap (λ m. m ++ padding (length message)) v.parts
      ∙ append_assoc v.front v.rest (padding (length message))
      ∙ ap (λ bytes. v.front ++ bytes) e in
    let count : length (message ++ padding (length message)) / 64 ≡ v.blocks + k =
      omega (arith, ap length split, length-append v.front tail, v.whole, len) in
    ap₂ (λ n bytes. digest (absorb n initial bytes)) count split
    ∙ ap digest (absorb-append v.blocks k initial v.front tail v.whole)

length-message :
    (ctx : Context) (message : List ℕ) (v : IsBehind ctx message)
    → length message ≡ 64 * v.blocks + length v.rest
length-message ctx message v =
    omega (arith, ap length v.parts, length-append v.front v.rest, v.whole)

bit_count :
    (ctx : Context) (message : List ℕ) (v : IsBehind ctx message)
    → (ctx.bitlen + ctx.datalen * 8) % 2 ^ 64 ≡ 8 * length message % 2 ^ 64
bit_count ctx message v = omega (arith, v.bitlen, v.datalen, length-message ctx message v)

-- The message's end, the one bit and `k` zeros.
abbrev zeros : ℕ → List ℕ
zeros k = replicate k 0

abbrev closed : List ℕ → ℕ → List ℕ
closed rest k = rest ++ 0x80 ∷ zeros k

length-closed : (rest : List ℕ) (k : ℕ) → length (closed rest k) ≡ length rest + 1 + k
length-closed rest k =
    omega (arith, length-append rest (0x80 ∷ zeros k), length-replicate {A = ℕ} k 0)

closed-append :
    (rest : List ℕ) (k : ℕ) (bytes : List ℕ)
    → closed rest k ++ bytes ≡ rest ++ (0x80 ∷ (zeros k ++ bytes))
closed-append rest k bytes = append_assoc rest (0x80 ∷ zeros k) bytes

padded-closed :
    (ctx : Context) (message : List ℕ) (v : IsBehind ctx message) (bound : ℕ)
    → padded ctx.block ctx.datalen bound
      ≡ closed v.rest (bound - length v.rest - 1) ++ drop bound ctx.block
padded-closed ctx message v bound =
    let k : ℕ = bound - length v.rest - 1 in
    let front : take (length v.rest) ctx.block ≡ v.rest =
      ap (take (length v.rest)) v.array ∙ take-append v.rest v.stale in
    let at_rest : padded ctx.block (length v.rest) bound
        ≡ v.rest ++ (0x80 ∷ (zeros k ++ drop bound ctx.block)) =
      ap (λ bytes. bytes ++ (0x80 ∷ (zeros k ++ drop bound ctx.block))) front in
    ap (λ d. padded ctx.block d bound) v.datalen
    ∙ at_rest
    ∙ sym (closed-append v.rest k (drop bound ctx.block))

-- One block if the count fits behind the rest.
final-standard_short :
    (ctx : Context) (message : List ℕ) (v : IsBehind ctx message)
    → length v.rest < 56
    → final ctx ≡ standard message
unfolding final
final-standard_short ctx message v lt =
    let k = 56 - length v.rest - 1 in
    let size = length-message ctx message v in
    let bits = length_bytes (8 * length message % 2 ^ 64) in
    let body = closed v.rest k in
    let long : length body ≡ 56 = omega (arith, length-closed v.rest k) in
    let long' : length (body ++ bits) ≡ 64 = omega (arith, length-append body bits, long) in
    let tail : v.rest ++ padding (length message) ≡ body ++ bits =
      ap (λ z. v.rest ++ (0x80 ∷ (zeros z ++ bits))) {x = (119 - length message % 64) % 64} {y = k}
        (omega (arith, size))
      ∙ sym (closed-append v.rest k bits) in
    let front = ap (take 56) (padded-closed ctx message v 56) ∙ take-exact 56 body _ long in
    let test : ltb ctx.datalen 56 ≡ true = lt→ltb ctx.datalen 56 (omega (arith, v.datalen)) in
    rw test (
      ap digest (
        ap₂ transform v.state
          (ap₂ (λ bytes n. bytes ++ length_bytes n) front (bit_count ctx message v))
        ∙ sym (absorb-block (absorb v.blocks initial v.front) (body ++ bits) long')))
    ∙ sym (standard-tail ctx message v (body ++ bits) 1 tail long')

two_blocks :
    (s : Words) (one two : List ℕ)
    → length one ≡ 64
    → length two ≡ 64
    → absorb 2 s (one ++ two) ≡ transform (transform s one) two
two_blocks s one two h k =
    absorb-append 1 1 s one two (omega (arith, h))
    ∙ absorb-block (absorb 1 s one) two k
    ∙ ap (λ t. transform t two) (absorb-block s one h)

first_block :
    (ctx : Context) (message : List ℕ) (v : IsBehind ctx message)
    → padded ctx.block ctx.datalen 64 ≡ closed v.rest (64 - length v.rest - 1)
first_block ctx message v =
    let k : ℕ = 64 - length v.rest - 1 in
    let size : length ctx.block ≡ 64 =
      omega (arith, ap length v.array, length-append v.rest v.stale, v.room) in
    padded-closed ctx message v 64
    ∙ ap (λ bytes. closed v.rest k ++ bytes)
        (ap (drop 64) (sym (append-nil ctx.block)) ∙ drop-exact 64 ctx.block [] size)
    ∙ append-nil (closed v.rest k)

-- Two if not.
final-standard_long :
    (ctx : Context) (message : List ℕ) (v : IsBehind ctx message)
    → 56 ≤ length v.rest
    → final ctx ≡ standard message
unfolding final
final-standard_long ctx message v le =
    let k : ℕ = 64 - length v.rest - 1 in
    let size = length-message ctx message v in
    let bits = length_bytes (8 * length message % 2 ^ 64) in
    let body = closed v.rest k in
    let last = zeros 56 ++ bits in
    let long : length body ≡ 64 = omega (arith, length-closed v.rest k, v.short) in
    let tail : v.rest ++ padding (length message) ≡ body ++ last =
      ap (λ z. v.rest ++ (0x80 ∷ (zeros z ++ bits))) {x = (119 - length message % 64) % 64}
        {y = k + 56} (omega (arith, size, v.short))
      ∙ ap (λ bytes. v.rest ++ (0x80 ∷ bytes))
          (ap (λ bytes. bytes ++ bits) (replicate-add k 56 0)
            ∙ append_assoc (zeros k) (zeros 56) bits)
      ∙ sym (closed-append v.rest k last) in
    let test : ltb ctx.datalen 56 ≡ false = ground (arith, v.datalen) in
    let s = absorb v.blocks initial v.front in
    rw test (
      ap digest (
        ap₂ (λ state n. transform state (zeros 56 ++ length_bytes n))
          (ap₂ transform v.state (first_block ctx message v)) (bit_count ctx message v)
        ∙ sym (two_blocks s body last long refl)))
    ∙ sym (
        standard-tail ctx message v (body ++ last) 2 tail
          (omega (arith, length-append body last, long)))

-- Hashing a message in any two pieces gives the hash of the whole, whatever the 64 bytes of the array
-- were before: the message is padded as FIPS 180-4 has it and its blocks are compressed in order.
-- (The compression of a block is the code's.)
pub sha256-standard :
    (stack first second : List ℕ)
    → length stack ≡ 64
    → final (update (update (init stack) first) second) ≡ standard (first ++ second)
sha256-standard stack first second h =
    let v =
      update-IsBehind (update (init stack) first) first second
        (update-IsBehind (init stack) [] first (init-IsBehind stack h)) in
    elim (dec_lt (length v.rest) 56) [
      | yes lt ↦ final-standard_short _ (first ++ second) v lt
      | no ge ↦ final-standard_long _ (first ++ second) v (omega arith)
    ]
