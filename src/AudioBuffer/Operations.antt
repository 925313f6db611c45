-- ===== src/AudioBuffer/Operations.antt =====
-- vw_audio_buffer_append_s16le, vw_audio_buffer_get_samples and vw_audio_buffer_drain of
-- worker/src/vw_audio_buffer.c on the samples that the ring holds.
use native.Mathlib.Nat.{mod-add-mod, add-zero, sub-zero}
use native.Mathlib.Decide.{dec_lt}
use mathlib.Core.Path.{ap₂}
use vlc_whisper.Common.{
  ℕ, zero, suc, ◌+◌, ◌-◌, ◌%◌, ◌≤◌, ◌<◌, ◌≡◌, refl, ap, sym, ◌∙◌, true, false, inl, inr, List, [],
  ◌∷◌, ◌++◌, arith, ltb, lt→ltb, ltb→lt, ◌==◌, ◌||◌, none, some, if◌then◌else◌, length, get_or,
  take, drop, Bool-cases,
}
use vlc_whisper.Common.Int.{ℤ}
use vlc_whisper.Common.Ring.{suc_add, window}
use vlc_whisper.AudioBuffer.{
  AudioBuffer, clear, anchor, is_discontinuity, append_samples, append_s16le, copy_samples,
  get_samples, drain,
}
use vlc_whisper.AudioBuffer.Contents.{
  IsValid, oldest, contents, newest, length-contents, append_samples-IsValid,
  contents-append_samples,
}

anchored-IsValid : (b : AudioBuffer) (pts : ℤ) → IsValid b → IsValid (anchor b pts)
unfolding anchor
anchored-IsValid b pts v = ground arith

anchored-contents : (b : AudioBuffer) (pts : ℤ) → contents (anchor b pts) ≡ contents b
unfolding anchor
anchored-contents b pts = ground arith

clear-IsValid : (b : AudioBuffer) → IsValid b → IsValid (clear b)
unfolding clear
clear-IsValid b v = ground arith

-- The buffer when the samples are about to be written.
abbrev pub ready : AudioBuffer → ℤ → AudioBuffer
ready b pts = anchor (if is_discontinuity b pts then clear b else b) pts

ready-IsValid : (b : AudioBuffer) (pts : ℤ) → IsValid b → IsValid (ready b pts)
ready-IsValid b pts v = elim (Bool-cases (is_discontinuity b pts)) [
  | inl gap ↦ rw gap (anchored-IsValid (clear b) pts (clear-IsValid b v))
  | inr near ↦ rw near (anchored-IsValid b pts v)
]

contents-clear : (b : AudioBuffer) → contents (clear b) ≡ []
unfolding clear
contents-clear b = refl

ready-contents :
    (b : AudioBuffer) (pts : ℤ)
    → contents (ready b pts) ≡ (if is_discontinuity b pts then [] else contents b)
ready-contents b pts = elim (Bool-cases (is_discontinuity b pts)) [
  | inl gap ↦ rw gap (anchored-contents (clear b) pts ∙ contents-clear b)
  | inr near ↦ rw near (anchored-contents b pts)
]

ready-max : (b : AudioBuffer) (pts : ℤ) → (ready b pts).max_samples ≡ b.max_samples
unfolding anchor clear
ready-max b pts = ground arith

pub append_s16le-cons :
    (b : AudioBuffer) (x : ℕ) (xs : List ℕ) (pts : ℤ)
    → append_s16le b (x ∷ xs) pts ≡ (true, append_samples (ready b pts) (x ∷ xs))
unfolding append_s16le
append_s16le-cons b x xs pts = ground arith

-- Appending PCM whose time fits adds it behind the buffered samples, and the buffer keeps the newest
-- `max_samples` of all; after a discontinuity only the new samples count. An empty block is refused
-- and changes nothing. The buffer stays valid.
pub append_s16le_lem :
    (b : AudioBuffer) (pcm16 : List ℕ) (pts_us : ℤ)
    → IsValid b
    → let (done, b') = append_s16le b pcm16 pts_us in
      (done ≡ ltb 0 (length pcm16))
      × (contents b' ≡ (
          if ltb 0 (length pcm16)
          then newest b.max_samples
              ((if is_discontinuity b pts_us then [] else contents b) ++ pcm16)
          else contents b))
      × IsValid b'
append_s16le_lem b [] pts_us v = unfold append_s16le in (refl, refl, v)
append_s16le_lem b (x ∷ xs) pts_us v =
    let v' = ready-IsValid b pts_us v in
    rw (append_s16le-cons b x xs pts_us, lt→ltb 0 (suc (length xs)) (omega arith))
      (
        refl,
        contents-append_samples (ready b pts_us) (x ∷ xs) v'
            ∙ ap (λ n. newest n (contents (ready b pts_us) ++ x ∷ xs)) (ready-max b pts_us)
            ∙ ap (λ c. newest b.max_samples (c ++ x ∷ xs)) (ready-contents b pts_us),
        append_samples-IsValid (ready b pts_us) (x ∷ xs) v',
      )

copy_samples-window :
    (b : AudioBuffer) (start i n : ℕ)
    → copy_samples b (start % b.max_samples) i n ≡ window 0 b.samples b.max_samples (start + i) n
unfolding copy_samples
copy_samples-window b start i zero = refl
copy_samples-window b start i (suc n) =
    ap₂ ◌∷◌ (ap (λ k. get_or b.samples k 0) (mod-add-mod start b.max_samples i)) (
      copy_samples-window b start (i + 1) n
      ∙ ap (λ k. window 0 b.samples b.max_samples k n) (omega arith))

take-window :
    (buf : List ℕ) (size h n m : ℕ) → m ≤ n → take m (window 0 buf size h n) ≡ window 0 buf size h m
take-window buf size h n zero le = refl
take-window buf size h zero (suc m) le = absurd (omega arith)
take-window buf size h (suc n) (suc m) le =
    ap (◌∷◌ (get_or buf (h % size) 0)) (take-window buf size (suc h) n m (omega arith))

take-window_all :
    (buf : List ℕ) (size h n m : ℕ) → n ≤ m → take m (window 0 buf size h n) ≡ window 0 buf size h n
take-window_all buf size h zero zero le = refl
take-window_all buf size h zero (suc m) le = refl
take-window_all buf size h (suc n) zero le = absurd (omega arith)
take-window_all buf size h (suc n) (suc m) le =
    ap (◌∷◌ (get_or buf (h % size) 0)) (take-window_all buf size (suc h) n m (omega arith))

drop-window :
    (buf : List ℕ) (size h n k : ℕ)
    → k ≤ n
    → drop k (window 0 buf size h n) ≡ window 0 buf size (h + k) (n - k)
drop-window buf size h n zero le = rw (add-zero h, sub-zero n) refl
drop-window buf size h zero (suc k) le = absurd (omega arith)
drop-window buf size h (suc n) (suc k) le =
    drop-window buf size (suc h) n k (omega arith)
    ∙ ap₂ (λ i m. window 0 buf size i m) (suc_add h k) (omega arith)

drop_all : (k : ℕ) (xs : List ℕ) → length xs ≤ k → drop k xs ≡ []
drop_all zero [] le = refl
drop_all (suc k) [] le = refl
drop_all zero (x ∷ xs) le = absurd (omega arith)
drop_all (suc k) (x ∷ xs) le = drop_all k xs (omega arith)

copied :
    (b : AudioBuffer) (max_out : ℕ)
    → copy_samples b (oldest b % b.max_samples) 0 (if ltb b.count max_out then b.count else max_out)
      ≡ take max_out (contents b)
copied b max_out =
    copy_samples-window b (oldest b) 0 _
    ∙ ap
        (λ k. window 0 b.samples b.max_samples k (if ltb b.count max_out then b.count else max_out))
        (add-zero (oldest b))
    ∙ elim (Bool-cases (ltb b.count max_out)) [
      | inl fewer ↦ rw fewer (
          sym (
            take-window_all b.samples b.max_samples (oldest b) b.count max_out
              (omega (arith, ltb→lt _ _ fewer))))
      | inr more ↦
          rw more
            (sym (take-window b.samples b.max_samples (oldest b) b.count max_out (ground arith)))
    ]

-- `get_samples` copies the oldest `max_out` samples, or all if there are fewer, and the time of the
-- first one; it copies nothing if there are none or none are wanted. It changes nothing.
pub get_samples_lem :
    (b : AudioBuffer) (max_out : ℕ)
    → get_samples b max_out ≡ (
        if max_out == 0 || b.count == 0
        then none
        else some (take max_out (contents b), b.start_pts_us))
unfolding get_samples
get_samples_lem b max_out = rw (copied b max_out) refl

drain-some :
    (b : AudioBuffer) (n : ℕ)
    → IsValid b
    → 0 < n
    → n < b.count
    → (contents (drain b n) ≡ window 0 b.samples b.max_samples (oldest b + n) (b.count - n))
      × IsValid (drain b n)
unfolding drain
drain-some b n v pos lt =
    let some_left : (b.count - n == 0) ≡ false = ground arith in
    let asked : (n == 0 || b.count == 0) ≡ false = ground arith in
    rw (asked, lt→ltb n b.count lt, some_left)
      (
        ap (λ k. window 0 b.samples b.max_samples k (b.count - n)) (omega (arith, v.count_in)),
        ground arith,
      )

drain-all :
    (b : AudioBuffer) (n : ℕ)
    → IsValid b
    → 0 < b.count
    → b.count ≤ n
    → (contents (drain b n) ≡ []) × IsValid (drain b n)
unfolding drain
drain-all b n v pos le =
    let asked : (n == 0 || b.count == 0) ≡ false = ground arith in
    let all : ltb n b.count ≡ false = ground arith in
    let none_left : b.count - b.count ≡ 0 = omega arith in
    rw (asked, all, none_left) (refl, ground arith)

drain-empty :
    (b : AudioBuffer) (n : ℕ)
    → IsValid b
    → (b.count == 0) ≡ true
    → drop n (contents b) ≡ []
    → (contents (drain b n) ≡ drop n (contents b)) × IsValid (drain b n)
unfolding drain
drain-empty b n v empty dropped =
    let skipped : (n == 0 || b.count == 0) ≡ true = ground arith in
    let nothing : b.count ≡ 0 = ground arith in
    rw (skipped, dropped) (ap (window 0 b.samples b.max_samples (oldest b)) nothing, v)

drained :
    (b : AudioBuffer) (n : ℕ)
    → IsValid b
    → 0 < n
    → b.count ≤ n
    → (contents (drain b n) ≡ drop n (contents b)) × IsValid (drain b n)
drained b n v pos le =
    let rest_dropped = drop_all n (contents b) (omega (arith, length-contents b)) in
    elim (Bool-cases (b.count == 0)) [
      | inl empty ↦ drain-empty b n v empty rest_dropped
      | inr held ↦ let (e, v') = drain-all b n v (ground arith) le in (e ∙ sym rest_dropped, v')
    ]

-- `drain` removes the oldest `sample_count` samples, or all if there are fewer, and keeps the buffer
-- valid.
pub drain_lem :
    (b : AudioBuffer) (sample_count : ℕ)
    → IsValid b
    → (contents (drain b sample_count) ≡ drop sample_count (contents b))
      × IsValid (drain b sample_count)
drain_lem b zero v = unfold drain in (refl, v)
drain_lem b (suc n) v = elim (dec_lt (suc n) b.count) [
  | yes lt ↦
      let (e, v') = drain-some b (suc n) v (omega arith) lt in
      (e ∙ sym (drop-window b.samples b.max_samples (oldest b) b.count (suc n) (omega arith)), v')
  | no ge ↦ drained b (suc n) v (omega arith) (omega arith)
]
