-- ===== src/Common/Ring.antt =====
-- Arrays used as rings: the run of entries from a position on, positions counted without end and
-- reduced where the array is read.
use native.Mathlib.Nat.{mod-add-mod, mod-eq_of_lt, mod-eq-sub-mod, add-zero, zero-add}
use Prim.Native.Nat.add
use Prim.Native.Nat.{ℕ, zero, suc, ◌+◌, ◌-◌, ◌%◌, ◌≤◌, ◌<◌}
use mathlib.Core.Path.{◌≡◌, refl, ap, ap₂, sym, ◌∙◌}
use mathlib.Core.Logic.{◌≢◌}
use mathlib.Core.List.{List, [], ◌∷◌, ◌++◌}
use native.Mathlib.Decide.{dec_lt}
use native.Mathlib.Omega.{arith}
use vlc_whisper.Common.Lists.{length, get_or, set, get_or-set_self, get_or-set_ne}

-- Positions less than a turn apart are different places.
pub mod-add-ne : (a j c : ℕ) → 0 < j → j < c → a % c ≢ (a + j) % c
mod-add-ne a j c pos lt e =
    let r : a % c < c = omega arith in
    elim (dec_lt (a % c + j) c) [
      | yes p ↦ omega (arith, mod-add-mod a c j, mod-eq_of_lt {n = a % c + j} {m = c} p)
      | no p ↦ omega (
        arith,
        mod-add-mod a c j,
        mod-eq-sub-mod {n = a % c + j} {m = c} (omega arith),
        mod-eq_of_lt {n = a % c + j - c} {m = c} (omega arith),
      )
    ]

suc_plus : (h : ℕ) → suc h ≡ h + 1
suc_plus h = omega arith

pub suc-mod : (h k c : ℕ) → h % c ≡ k % c → suc h % c ≡ suc k % c
suc-mod h k c e =
    ap (λ m. m % c) (suc_plus h)
    ∙ sym (mod-add-mod h c 1)
    ∙ ap (λ m. (m + 1) % c) e
    ∙ mod-add-mod k c 1
    ∙ sym (ap (λ m. m % c) (suc_plus k))

pub suc_add : (h n : ℕ) → suc h + n ≡ h + suc n
suc_add h n = omega arith

module _ {ℓ} {A : Type ℓ} (d : A) where
  -- `n` entries from position `h` on of a ring of `size` places.
  abbrev pub window : List A → ℕ → ℕ → ℕ → List A
  window buf size h zero = []
  window buf size h (suc n) = get_or buf (h % size) d ∷ window buf size (suc h) n

  pub length-window : (buf : List A) (size h n : ℕ) → length (window buf size h n) ≡ n
  length-window buf size h zero = refl
  length-window buf size h (suc n) = ap suc (length-window buf size (suc h) n)

  -- A position may be reduced beforehand.
  pub window-mod :
      (buf : List A) (size h k n : ℕ)
      → h % size ≡ k % size
      → window buf size h n ≡ window buf size k n
  window-mod buf size h k zero e = refl
  window-mod buf size h k (suc n) e =
      ap₂ ◌∷◌ (ap (λ i. get_or buf i d) e)
        (window-mod buf size (suc h) (suc k) n (suc-mod h k size e))

  -- Writing at a place behind the window leaves it.
  pub window-set_out :
      (buf : List A) (size h n m i : ℕ) (v : A)
      → n ≤ m
      → m < size
      → i ≡ (h + m) % size
      → window (set buf i v) size h n ≡ window buf size h n
  window-set_out buf size h zero m i v le lt e = refl
  window-set_out buf size h (suc n) m i v le lt e =
      ap₂ ◌∷◌ (get_or-set_ne buf v d (λ same. mod-add-ne h m size (omega arith) lt (omega arith))) (
        window-set_out buf size (suc h) n (m - 1) i v (omega arith) (omega arith)
          (e ∙ ap (λ k. k % size) (omega arith)))

  -- The window grows by the entry behind it.
  pub window-snoc :
      (buf : List A) (size h n : ℕ)
      → window buf size h (suc n) ≡ window buf size h n ++ (get_or buf ((h + n) % size) d ∷ [])
  window-snoc buf size h zero = rw (add-zero h) refl
  window-snoc buf size h (suc n) = ap (◌∷◌ (get_or buf (h % size) d)) (
      window-snoc buf size (suc h) n
      ∙ ap (λ k. window buf size (suc h) n ++ (get_or buf (k % size) d ∷ [])) (suc_add h n))

  -- Writing at the end puts the entry behind the window.
  pub window-push :
      (buf : List A) (size h n i : ℕ) (v : A)
      → n < size
      → size ≤ length buf
      → i ≡ (h + n) % size
      → window (set buf i v) size h (suc n) ≡ window buf size h n ++ (v ∷ [])
  window-push buf size h n i v lt room e =
      window-snoc (set buf i v) size h n
      ∙ ap₂ (λ xs x. xs ++ (x ∷ [])) (window-set_out buf size h n n i v (omega arith) lt e)
          (ap (λ k. get_or (set buf i v) k d) (sym e) ∙ get_or-set_self buf i v d (omega arith))

  -- A window in two parts.
  pub window-append :
      (buf : List A) (size h m n : ℕ)
      → window buf size h (m + n) ≡ window buf size h m ++ window buf size (h + m) n
  window-append buf size h zero n = rw (zero-add n, add-zero h) refl
  window-append buf size h (suc m) n = rw (add.suc m n) (
      ap (◌∷◌ (get_or buf (h % size) d)) (
        window-append buf size (suc h) m n
        ∙ ap (λ k. window buf size (suc h) m ++ window buf size k n) (suc_add h m)))
