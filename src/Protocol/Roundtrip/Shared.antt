-- ===== src/Protocol/Roundtrip/Shared.antt =====
-- What the round trips of the messages share: arrays and pointers that were written are read back.
use mathlib.Core.Option.{get_or}
use native.Mathlib.Nat.{zero-add}
use vlc_whisper.Common.{
  sym, append_assoc, ℕ, suc, ◌≡◌, refl, ap, ◌∙◌, false, Option, none, some, List, [], ◌∷◌, ◌++◌,
  ◌&&◌, arith, ltb, if◌then◌else◌, length, set, take, flatten, length-append, take-length,
}
use vlc_whisper.Protocol.Wire.{
  Reader, ◌>>=◌, remaining, bytes, finish, write_all, write_all-fits, bind-bytes,
}
use vlc_whisper.Protocol.Types.{Pointer, read_at, is_null}
use vlc_whisper.Protocol.WellFormed.{Points, EndsInNul}

-- The payload of a message: what the encoder writes if it fits, of the given size, and what the
-- decoder turns into the message again.
abbrev pub Carries : {A : Type 0} → (ℕ → Option (List ℕ)) → Reader A → A → ℕ → Type 0
Carries encode reader p size =
    (bs : List ℕ) × ((room : ℕ) → encode room ≡ (if ltb room (length bs) then none else some bs))
    × (length bs ≡ size)
    × (finish (reader bs) ≡ some p)

pub write_all-empty :
    (room : ℕ) (cs : List (List ℕ))
    → write_all room cs [] ≡ (if ltb room (length (flatten cs)) then none else some (flatten cs))
write_all-empty room cs = simp zero-add at (write_all-fits room cs [] (omega arith))

pub take_all : (n : ℕ) (xs : List ℕ) → length xs ≡ n → take n xs ≡ xs
take_all n xs h = rw (← h) (take-length xs)

module _ {B : Type 0} where
  pub bind-array :
      (n : ℕ) (xs rest : List ℕ) (f : List ℕ → Reader B)
      → length xs ≡ n
      → (bytes n >>= f) (take n xs ++ rest) ≡ f xs rest
  bind-array n xs rest f h = rw (take_all n xs h) (bind-bytes n xs rest f h)

  pub bind-pointer :
      (ptr : Pointer) (n : ℕ) (rest : List ℕ) (f : List ℕ → Reader B)
      → Points ptr n
      → (bytes n >>= f) (read_at ptr n ++ rest) ≡ f (get_or ptr []) rest
  bind-pointer none n rest f h = elim h [ ]
  bind-pointer (some bs) n rest f h = bind-array n bs rest f h

pub some-Points : (ptr : Pointer) (n : ℕ) → Points ptr n → some (get_or ptr []) ≡ ptr
some-Points none n h = elim h [ ]
some-Points (some bs) n h = refl

pub is_null-Points : (ptr : Pointer) (n : ℕ) → Points ptr n → is_null ptr ≡ false
is_null-Points none n h = elim h [ ]
is_null-Points (some bs) n h = refl

pub length-array : (n : ℕ) (xs : List ℕ) → length xs ≡ n → length (take n xs) ≡ n
length-array n xs h = rw (take_all n xs h) h

pub length-read_at : (ptr : Pointer) (n : ℕ) → Points ptr n → length (read_at ptr n) ≡ n
length-read_at none n h = elim h [ ]
length-read_at (some bs) n h = length-array n bs h

set_last : (s : List ℕ) → set (s ++ 0 ∷ []) (length s) 0 ≡ s ++ 0 ∷ []
set_last [] = refl
set_last (c ∷ s) = ap (◌∷◌ c) (set_last s)

pub EndsInNul-set : (n : ℕ) (a : List ℕ) → EndsInNul n a → set a n 0 ≡ a
EndsInNul-set n a (s, e, h) = rw (e, ← h) (set_last s)

pub EndsInNul-length : (n : ℕ) (a : List ℕ) → EndsInNul n a → length a ≡ suc n
EndsInNul-length n a (s, e, h) = rw e (omega (arith, length-append s (0 ∷ [])))

-- The encoders of a pointer first test that it is not NULL.
pub write_all-guarded :
    (ptr : Pointer) (n room : ℕ) (cs : List (List ℕ))
    → Points ptr n
    → (if ltb 0 n && is_null ptr then none else write_all room cs [])
      ≡ (if ltb room (length (flatten cs)) then none else some (flatten cs))
write_all-guarded none n room cs h = elim h [ ]
write_all-guarded (some bs) n room cs h = ground (arith, write_all-empty room cs)

-- A test of `buffer_size`.
pub bind-remaining :
    {B : Type 0} (n : ℕ) (bs : List ℕ) (f : ℕ → Reader B)
    → length bs ≡ n
    → (remaining >>= f) bs ≡ f n bs
unfolding ◌>>=◌ remaining
bind-remaining n bs f h = ap (λ k. f k bs) h

flatten-append : (cs ds : List (List ℕ)) → flatten (cs ++ ds) ≡ flatten cs ++ flatten ds
flatten-append [] ds = refl
flatten-append (c ∷ cs) ds =
    ap (◌++◌ c) (flatten-append cs ds) ∙ sym (append_assoc c (flatten cs) (flatten ds))

-- The writes of an encoder in two runs.
abbrev pub then_write : ℕ → List (List ℕ) → Option (List ℕ) → Option (List ℕ)
then_write room ds r = elim r [ none ↦ none | some out ↦ write_all room ds out ]

pub write_all-append :
    (room : ℕ) (cs ds : List (List ℕ))
    → then_write room ds (write_all room cs [])
      ≡ (if ltb room (length (flatten (cs ++ ds))) then none else some (flatten (cs ++ ds)))
write_all-append room cs ds = ground (
  arith,
  write_all-empty room cs,
  write_all-fits room ds (flatten cs),
  flatten-append cs ds,
  length-append (flatten cs) (flatten ds),
)
