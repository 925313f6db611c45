-- ===== src/WorkerQueue/Shift.antt =====
-- The shift loop of vw_worker_queue_push in worker/src/vw_worker_queue.c: the window of the ring
-- loses one frame and keeps the order of the others.
use native.Mathlib.Nat.{add-zero, zero-add}
use Prim.Native.Nat.add
use mathlib.Core.Path.{ap₂}
use vlc_whisper.Common.{
  ℕ, zero, suc, ◌+◌, ◌-◌, ◌%◌, ◌≤◌, ◌<◌, ◌≡◌, refl, ap, sym, ◌∙◌, List, [], ◌∷◌, ◌++◌, arith,
  length, get_or, set, length-set, get_or-set_self, get_or-set_ne,
}
use vlc_whisper.Common.Ring.{mod-add-ne, suc_add, window, window-append}
use vlc_whisper.WorkerQueue.{Frame, blank_frame, shift_left}

abbrev frames : List Frame → ℕ → ℕ → ℕ → List Frame
frames = window blank_frame

abbrev at : List Frame → ℕ → Frame
at slots i = get_or slots i blank_frame

pub length-shift_left : (s : List Frame) (c i n : ℕ) → length (shift_left s c i n) ≡ length s
unfolding shift_left
length-shift_left s c i zero = refl
length-shift_left s c i (suc n) =
    length-shift_left (set s (i % c) (at s ((i + 1) % c))) c (i + 1) n
    ∙ length-set s (i % c) (at s ((i + 1) % c))

-- A write at a later place, less than a turn on, is not read.
read_before :
    (s : List Frame) (c i j : ℕ) (f : Frame)
    → i < j
    → j < i + c
    → at (set s (j % c) f) (i % c) ≡ at s (i % c)
read_before s c i j f lt near = get_or-set_ne s f blank_frame (λ same.
    mod-add-ne i (j - i) c (omega arith) (omega arith) (sym same ∙ ap (λ k. k % c) (omega arith)))

-- Nor is one at an earlier place.
read_behind :
    (s : List Frame) (c i j : ℕ) (f : Frame)
    → j < i
    → i < j + c
    → at (set s (j % c) f) (i % c) ≡ at s (i % c)
read_behind s c i j f lt near = get_or-set_ne s f blank_frame (λ same.
    mod-add-ne j (i - j) c (omega arith) (omega arith) (same ∙ ap (λ k. k % c) (omega arith)))

window_behind :
    (s : List Frame) (c j h n : ℕ) (f : Frame)
    → j < h
    → h + n ≤ j + c
    → frames (set s (j % c) f) c h n ≡ frames s c h n
window_behind s c j h zero f lt near = refl
window_behind s c j h (suc n) f lt near =
    ap₂ ◌∷◌ (read_behind s c h j f lt (omega arith))
      (window_behind s c j (suc h) n f (omega arith) (omega arith))

read_before_shift :
    (s : List Frame) (c i e n : ℕ)
    → i < e
    → e + n ≤ i + c
    → at (shift_left s c e n) (i % c) ≡ at s (i % c)
unfolding shift_left
read_before_shift s c i e zero lt near = refl
read_before_shift s c i e (suc n) lt near =
    read_before_shift (set s (e % c) (at s ((e + 1) % c))) c i (e + 1) n (omega arith) (omega arith)
    ∙ read_before s c i e (at s ((e + 1) % c)) lt (omega arith)

window_before_shift :
    (s : List Frame) (c h k e n : ℕ)
    → h + k ≤ e
    → e + n ≤ h + c
    → frames (shift_left s c e n) c h k ≡ frames s c h k
window_before_shift s c h zero e n le near = refl
window_before_shift s c h (suc k) e n le near =
    ap₂ ◌∷◌ (read_before_shift s c h e n (omega arith) near)
      (window_before_shift s c (suc h) k e n (omega arith) (omega arith))

window-shift_left :
    (s : List Frame) (c e n : ℕ)
    → c ≤ length s
    → n < c
    → frames (shift_left s c e n) c e n ≡ frames s c (suc e) n
unfolding shift_left
window-shift_left s c e zero room lt = refl
window-shift_left s c e (suc n) room lt =
    let moved = at s ((e + 1) % c) in
    let s' = set s (e % c) moved in
    let inside : e % c < length s = omega arith in
    ap₂ ◌∷◌
      (read_before_shift s' c e (e + 1) n (omega arith) (omega arith)
        ∙ get_or-set_self s (e % c) moved blank_frame inside
        ∙ ap (λ k. at s (k % c)) {y = suc e} (omega arith))
      (ap (λ k. frames (shift_left s' c k n) c (suc e) n) {y = suc e} (omega arith)
        ∙ window-shift_left s' c (suc e) n (omega (arith, length-set s (e % c) moved)) (omega arith)
        ∙ window_behind s c e (suc (suc e)) n moved (omega arith) (omega arith))

-- A list without its entry `k`.
abbrev pub remove_at : ℕ → List Frame → List Frame
remove_at k [] = []
remove_at zero (f ∷ fs) = fs
remove_at (suc k) (f ∷ fs) = f ∷ remove_at k fs

remove_at-window :
    (s : List Frame) (c h k n : ℕ)
    → remove_at k (frames s c h (k + suc n)) ≡ frames s c h k ++ frames s c (suc (h + k)) n
remove_at-window s c h zero n = rw (zero-add (suc n), add-zero h) refl
remove_at-window s c h (suc k) n = rw (add.suc k (suc n)) (
    ap (◌∷◌ (at s (h % c))) (
      remove_at-window s c (suc h) k n
      ∙ ap (λ j. frames s c (suc h) k ++ frames s c (suc j) n) (suc_add h k)))

-- After the loop the frames behind the evicted one stand one place further up.
pub window-evict :
    (s : List Frame) (c tail k n : ℕ)
    → c ≤ length s
    → k + suc n ≤ c
    → frames (shift_left s c (tail + k) n) c tail (k + n)
      ≡ remove_at k (frames s c tail (k + suc n))
window-evict s c tail k n room fits =
    window-append blank_frame (shift_left s c (tail + k) n) c tail k n
    ∙ ap₂ ◌++◌ (window_before_shift s c tail k (tail + k) n (omega arith) (omega arith))
        (window-shift_left s c (tail + k) n room (omega arith))
    ∙ sym (remove_at-window s c tail k n)
