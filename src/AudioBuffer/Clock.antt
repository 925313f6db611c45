-- ===== src/AudioBuffer/Clock.antt =====
-- The clock of worker/src/vw_audio_buffer.c: a sample is 62.5 microseconds, which the code keeps as
-- whole microseconds and a remainder of half ones.
use native.Mathlib.Omega.{arith}
use mathlib.Core.Path.{subst}
use vlc_whisper.Common.{
  ℕ, zero, suc, ap, ◌+◌, ◌-◌, ◌*◌, ◌≡◌, ◌<◌, refl, false, inl, inr, List, [], ◌∷◌, length, ltb,
  lt→ltb, ◌==◌, ◌||◌, if◌then◌else◌, Bool-cases,
}
use vlc_whisper.Common.Int.{ℤ, pos_part, neg_part, int_laws}
use vlc_whisper.AudioBuffer.{
  AudioBuffer, advance_pts, is_discontinuity, clear, anchor, append_sample, append_samples,
  append_s16le, drain,
}
use vlc_whisper.AudioBuffer.Operations.{ready, append_s16le-cons}

-- A time in microseconds and half microseconds, the second as many as needed.
pub record Time : Type 0 where
  pub us : ℤ
  pub half_us : ℕ

-- `late` is `elapsed` half microseconds behind `early`.
pub IsLater : ℕ → Time → Time → Type 0
IsLater elapsed early late =
    2 * pos_part late.us + late.half_us + 2 * neg_part early.us
    ≡ 2 * pos_part early.us + early.half_us + 2 * neg_part late.us + elapsed

-- The time of the oldest sample, and the time behind the newest one.
unfoldable pub start_time : AudioBuffer → Time
start_time b = record { us = b.start_pts_us; half_us = b.start_pts_frac_us }

unfoldable pub end_time : AudioBuffer → Time
end_time b = record { us = b.start_pts_us; half_us = b.start_pts_frac_us + 125 * b.count }

advanced :
    (b : AudioBuffer) (n : ℕ) → IsLater (125 * n) (start_time b) (start_time (advance_pts b n))
unfolding IsLater advance_pts start_time
advanced b n = omega int_laws

append_sample-IsLater :
    (b : AudioBuffer) (x : ℕ) → IsLater 125 (end_time b) (end_time (append_sample b x))
unfolding IsLater advance_pts end_time append_sample
append_sample-IsLater b x = elim (Bool-cases (ltb b.count b.max_samples)) [
  | inl room ↦ rw room (omega arith)
  | inr full ↦ rw full (omega int_laws)
]

IsLater-trans : (a b : ℕ) (t u v : Time) → IsLater a t u → IsLater b u v → IsLater (a + b) t v
unfolding IsLater
IsLater-trans a b t u v p q = omega arith

append_samples-IsLater :
    (b : AudioBuffer) (xs : List ℕ)
    → IsLater (125 * length xs) (end_time b) (end_time (append_samples b xs))
unfolding append_samples
append_samples-IsLater b [] = unfold IsLater in omega arith
append_samples-IsLater b (x ∷ xs) =
    subst (λ n. IsLater n (end_time b) (end_time (append_samples (append_sample b x) xs)))
      (omega arith)
      (IsLater-trans 125 (125 * length xs) _ _ _ (append_sample-IsLater b x)
        (append_samples-IsLater (append_sample b x) xs))

-- The time at which a block begins: the one given with it if there is no earlier sample or a gap
-- before it, else the time behind the newest sample.
unfoldable pub block_start : AudioBuffer → ℤ → Time
unfolding end_time
block_start b pts_us =
    if is_discontinuity b pts_us || b.count == 0
    then record { us = pts_us; half_us = 0 }
    else end_time b

anchored :
    (b : AudioBuffer) (pts : ℤ)
    → end_time (anchor (if is_discontinuity b pts then clear b else b) pts) ≡ block_start b pts
unfolding block_start clear anchor
anchored b pts = elim (Bool-cases (is_discontinuity b pts)) [
  | inl gap ↦ rw gap (unfold end_time in refl)
  | inr near ↦ rw near (elim (Bool-cases (b.count == 0)) [
    | inl none_held ↦ rw none_held (
        unfold end_time in
        ap (λ h. record { us = pts; half_us = h }) {x = 0 + 125 * b.count} {y = 0} (ground arith))
    | inr held ↦ rw held refl
  ])
]

-- Appending moves the time behind the newest sample by exactly 62.5 microseconds a sample, counted
-- from the start of the block, whether or not old samples were dropped: nothing drifts.
pub append_s16le-IsLater :
    (b : AudioBuffer) (x : ℕ) (xs : List ℕ) (pts_us : ℤ)
    → let (_, b') = append_s16le b (x ∷ xs) pts_us in
      IsLater (125 * length (x ∷ xs)) (block_start b pts_us) (end_time b')
append_s16le-IsLater b x xs pts =
    subst (λ t. IsLater (125 * length (x ∷ xs)) t (end_time (append_s16le b (x ∷ xs) pts).1))
      (anchored b pts)
      (rw (append_s16le-cons b x xs pts) (append_samples-IsLater (ready b pts) (x ∷ xs)))

drain-fewer :
    (b : AudioBuffer) (n : ℕ)
    → 0 < n
    → n < b.count
    → drain b n ≡ advance_pts (record b { count = b.count - n }) n
unfolding drain
drain-fewer b n some_wanted lt =
    let asked : (n == 0 || b.count == 0) ≡ false = ground arith in
    let left : (b.count - n == 0) ≡ false = ground arith in
    rw (asked, lt→ltb n b.count lt, left) refl

drained-start :
    (b : AudioBuffer) (n : ℕ)
    → IsLater
        (125 * n)
        (start_time b)
        (start_time (advance_pts (record b { count = b.count - n }) n))
unfolding start_time
drained-start b n = advanced (record b { count = b.count - n }) n

drained-end :
    (b : AudioBuffer) (n : ℕ)
    → n < b.count
    → IsLater 0 (end_time b) (end_time (advance_pts (record b { count = b.count - n }) n))
unfolding IsLater advance_pts end_time
drained-end b n lt = omega int_laws

-- Draining some of the samples moves the time of the oldest one by exactly 62.5 microseconds a
-- sample, and leaves the time behind the newest one.
pub drain-IsLater :
    (b : AudioBuffer) (n : ℕ)
    → n < b.count
    → IsLater (125 * n) (start_time b) (start_time (drain b n))
      × IsLater 0 (end_time b) (end_time (drain b n))
drain-IsLater b zero lt = unfold drain IsLater in (omega arith, omega arith)
drain-IsLater b (suc n) lt =
    rw (drain-fewer b (suc n) (omega arith) lt) (drained-start b (suc n), drained-end b (suc n) lt)
