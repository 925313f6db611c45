-- ===== src/Sha256/Blocks.antt =====
-- Messages cut into blocks of 64 bytes, as FIPS 180-4 has them, for worker/src/vw_sha256.c.
use native.Mathlib.Nat.{zero-add}
use Prim.Native.Nat.add
use mathlib.Core.Path.{ap₂}
use vlc_whisper.Common.{
  ℕ, zero, suc, ◌+◌, ◌*◌, ◌≡◌, ◌≤◌, refl, ap, sym, ◌∙◌, List, [], ◌∷◌, ◌++◌, arith, length, take,
  drop, set, replicate, length-drop, take-append, drop-append, take-length,
}
use vlc_whisper.Sha256.{Words, transform}

-- The state behind `n` blocks.
unfoldable pub absorb : ℕ → Words → List ℕ → Words
absorb zero s bytes = s
absorb (suc n) s bytes = absorb n (transform s (take 64 bytes)) (drop 64 bytes)

module _ {ℓ} {A : Type ℓ} where
  pub take-append_le : (k : ℕ) (xs ys : List A) → k ≤ length xs → take k (xs ++ ys) ≡ take k xs
  take-append_le zero xs ys h = refl
  take-append_le (suc k) [] ys h = absurd (omega arith)
  take-append_le (suc k) (x ∷ xs) ys h = ap (◌∷◌ x) (take-append_le k xs ys (omega arith))

  pub drop-append_le :
      (k : ℕ) (xs ys : List A) → k ≤ length xs → drop k (xs ++ ys) ≡ drop k xs ++ ys
  drop-append_le zero xs ys h = refl
  drop-append_le (suc k) [] ys h = absurd (omega arith)
  drop-append_le (suc k) (x ∷ xs) ys h = drop-append_le k xs ys (omega arith)

  pub take-exact : (k : ℕ) (xs ys : List A) → length xs ≡ k → take k (xs ++ ys) ≡ xs
  take-exact k xs ys h = ap (λ n. take n (xs ++ ys)) (sym h) ∙ take-append xs ys

  pub drop-exact : (k : ℕ) (xs ys : List A) → length xs ≡ k → drop k (xs ++ ys) ≡ ys
  drop-exact k xs ys h = ap (λ n. drop n (xs ++ ys)) (sym h) ∙ drop-append xs ys

  pub set-append :
      (xs : List A) (y : A) (ys : List A) (v : A) → set (xs ++ y ∷ ys) (length xs) v ≡ xs ++ v ∷ ys
  set-append [] y ys v = refl
  set-append (x ∷ xs) y ys v = ap (◌∷◌ x) (set-append xs y ys v)

  pub replicate-add : (m n : ℕ) (x : A) → replicate (m + n) x ≡ replicate m x ++ replicate n x
  replicate-add zero n x = rw (zero-add n) refl
  replicate-add (suc m) n x = rw (add.suc m n) (ap (◌∷◌ x) (replicate-add m n x))

-- Whole blocks are absorbed before what follows them.
pub absorb-append :
    (n m : ℕ) (s : Words) (front back : List ℕ)
    → length front ≡ 64 * n
    → absorb (n + m) s (front ++ back) ≡ absorb m (absorb n s front) back
unfolding absorb
absorb-append zero m s [] back h = rw (zero-add m) refl
absorb-append zero m s (x ∷ front) back h = absurd (omega arith)
absorb-append (suc n) m s front back h = rw (add.suc n m) (
    ap₂ (λ block rest. absorb (n + m) (transform s block) rest)
      (take-append_le 64 front back (omega arith)) (drop-append_le 64 front back (omega arith))
    ∙ absorb-append n m (transform s (take 64 front)) (drop 64 front) back
        (omega (arith, length-drop 64 front)))

-- One more block.
pub absorb-block :
    (s : Words) (block : List ℕ) → length block ≡ 64 → absorb 1 s block ≡ transform s block
unfolding absorb
absorb-block s block h = ap (transform s) (ap (λ k. take k block) (sym h) ∙ take-length block)
