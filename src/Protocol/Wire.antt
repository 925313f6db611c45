-- ===== src/Protocol/Wire.antt =====
-- The macros ENC_FIELD, ENC_BYTES, DEC_FIELD, DEC_BYTES and DEC_PTR of
-- protocol/src/vw_protocol_codec.c. `memcpy` of an integer field writes its bytes in the order of
-- the supported x86-64 hosts, the least significant first. The writer's state is the list of the
-- bytes written so far, the reader's is the part of the buffer that is still to be read.
use native.Mathlib.Nat.{pow-suc}
use vlc_whisper.Common.{
  ℕ, zero, suc, ◌+◌, ◌*◌, ◌/◌, ◌%◌, ◌^◌, ◌<◌, ◌≤◌, ◌≡◌, refl, ap, Bool, true, false, Option, none,
  some, List, [], ◌∷◌, ◌++◌, append-nil, append_assoc, arith, ltb, if◌then◌else◌, length, take,
  drop, flatten, length-append, take-append, drop-append, le→ltb,
}

-- The `w` bytes of the integer `v`.
unfoldable pub le_bytes : ℕ → ℕ → List ℕ
le_bytes zero v = []
le_bytes (suc w) v = v % 256 ∷ le_bytes w (v / 256)

unfoldable pub from_le : List ℕ → ℕ
from_le [] = 0
from_le (b ∷ bs) = b + 256 * from_le bs

pub length-le_bytes : (w v : ℕ) → length (le_bytes w v) ≡ w
unfolding le_bytes
length-le_bytes zero v = refl
length-le_bytes (suc w) v = ap suc (length-le_bytes w (v / 256))

pub from_le-le_bytes : (w v : ℕ) → v < 256 ^ w → from_le (le_bytes w v) ≡ v
unfolding le_bytes from_le
from_le-le_bytes zero v h = omega arith
from_le-le_bytes (suc w) v h =
    omega (arith, from_le-le_bytes w (v / 256) (omega (arith, pow-suc 256 w)))

-- One ENC_FIELD or ENC_BYTES: `if (written + n > buffer_size) return false; memcpy; written += n`.
unfoldable pub write : ℕ → List ℕ → List ℕ → Option (List ℕ)
write room chunk out = if ltb room (length out + length chunk) then none else some (out ++ chunk)

-- A sequence of them.
unfoldable pub write_all : ℕ → List (List ℕ) → List ℕ → Option (List ℕ)
write_all room [] out = some out
write_all room (c ∷ cs) out = elim (write room c out) [
  | none ↦ none
  | some out' ↦ write_all room cs out'
]

-- The writes succeed exactly if all the bytes fit into the buffer.
pub write_all-fits :
    (room : ℕ) (cs : List (List ℕ)) (out : List ℕ)
    → length out ≤ room
    → write_all room cs out
      ≡ (if ltb room (length out + length (flatten cs)) then none else some (out ++ flatten cs))
unfolding write_all write
write_all-fits room [] out h = ground (arith, append-nil out)
write_all-fits room (c ∷ cs) out h = ground (
  arith,
  write_all-fits room cs (out ++ c),
  length-append out c,
  length-append c (flatten cs),
  append_assoc out c (flatten cs),
)

abbrev pub Reader : Type 0 → Type 0
Reader A = List ℕ → Option (A × List ℕ)

infixl 5 ◌>>=◌ ◌>>◌
unfoldable pub ◌>>=◌ : {A B : Type 0} → Reader A → (A → Reader B) → Reader B
◌>>=◌ m f bs = elim (m bs) [ none ↦ none | some (a, rest) ↦ f a rest ]

unfoldable pub ◌>>◌ : {B : Type 0} → Reader (Unit {0}) → Reader B → Reader B
unfolding ◌>>=◌
m >> k = m >>= λ _. k

-- DEC_FIELD.
unfoldable pub field : ℕ → Reader ℕ
field w bs = if ltb (length bs) w then none else some (from_le (take w bs), drop w bs)

-- DEC_BYTES, and DEC_PTR: the pointer's target is the same run of bytes.
unfoldable pub bytes : ℕ → Reader (List ℕ)
bytes n bs = if ltb (length bs) n then none else some (take n bs, drop n bs)

-- `buffer_size - read_pos`.
unfoldable pub remaining : Reader ℕ
remaining bs = some (length bs, bs)

-- `if (!test) return false;`.
unfoldable pub require : Bool → Reader (Unit {0})
require test bs = if test then some (tt, bs) else none

unfoldable pub done : {A : Type 0} → A → Reader A
done a bs = some (a, bs)

-- A decoder's last test, `read_pos != buffer_size`.
unfoldable pub finish : {A : Type 0} → Option (A × List ℕ) → Option A
finish none = none
finish (some (a, [])) = some a
finish (some (a, b ∷ bs)) = none

take-drop-append :
    (n : ℕ) (xs rest : List ℕ)
    → length xs ≡ n
    → (take n (xs ++ rest) ≡ xs)
      × (drop n (xs ++ rest) ≡ rest)
      × (ltb (length (xs ++ rest)) n ≡ false)
take-drop-append n xs rest h = (
  rw (← h) (take-append xs rest),
  rw (← h) (drop-append xs rest),
  le→ltb (length (xs ++ rest)) n (omega (arith, length-append xs rest)),
)

pub bytes-append :
    (n : ℕ) (xs rest : List ℕ) → length xs ≡ n → bytes n (xs ++ rest) ≡ some (xs, rest)
unfolding bytes
bytes-append n xs rest h = let (t, d, l) = take-drop-append n xs rest h in rw (l, t, d) refl

pub field-le_bytes :
    (w v : ℕ) (rest : List ℕ) → v < 256 ^ w → field w (le_bytes w v ++ rest) ≡ some (v, rest)
unfolding field
field-le_bytes w v rest h =
    let (t, d, l) = take-drop-append w (le_bytes w v) rest (length-le_bytes w v) in
    rw (l, t, d, from_le-le_bytes w v h) refl

module _ {B : Type 0} where
  pub bind-some :
      {A : Type 0} (m : Reader A) (bs : List ℕ) (a : A) (rest : List ℕ) (f : A → Reader B)
      → m bs ≡ some (a, rest)
      → (m >>= f) bs ≡ f a rest
  unfolding ◌>>=◌
  bind-some m bs a rest f h = rw (h, ◌>>=◌)

  -- A field that was written is read back, and the reader goes on behind it.
  pub bind-field :
      (w v : ℕ) (rest : List ℕ) (f : ℕ → Reader B)
      → v < 256 ^ w
      → (field w >>= f) (le_bytes w v ++ rest) ≡ f v rest
  bind-field w v rest f h = bind-some (field w) _ v rest f (field-le_bytes w v rest h)

  pub bind-bytes :
      (n : ℕ) (xs rest : List ℕ) (f : List ℕ → Reader B)
      → length xs ≡ n
      → (bytes n >>= f) (xs ++ rest) ≡ f xs rest
  bind-bytes n xs rest f h = bind-some (bytes n) _ xs rest f (bytes-append n xs rest h)

  pub bind-require :
      (test : Bool) (bs : List ℕ) (f : Reader B) → test ≡ true → (require test >> f) bs ≡ f bs
  unfolding require ◌>>◌
  bind-require test bs f h = rw h
