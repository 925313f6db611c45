-- ===== src/WorkerQueue/Fifo.antt =====
-- The queue of worker/src/vw_worker_queue.c as a bounded list of frames, with the search for what gives
-- way when it is full.
use vlc_whisper.Common.{
  ℕ, zero, suc, ◌+◌, ◌<◌, ◌≡◌, refl, Bool, true, false, ◌||◌, Option, none, some, List, [], ◌∷◌,
  ◌++◌, arith, ltb, ◌==◌, if◌then◌else◌, length, get_or,
}
use vlc_whisper.WorkerQueue.{
  Frame, blank_frame, frame_audio_duration_us, is_audio, is_superseded, is_not_shutdown,
}
use vlc_whisper.WorkerQueue.Shift.{remove_at}

abbrev pub bump : Option ℕ → Option ℕ
bump none = none
bump (some k) = some (suc k)

-- The place of the oldest frame that has the test.
unfoldable pub find_index : (Frame → Bool) → List Frame → Option ℕ
find_index test [] = none
find_index test (f ∷ fs) = if test f then some 0 else bump (find_index test fs)

-- The frame that a full queue gives up for one of type `type`: the oldest audio frame; without one,
-- nothing for audio, the oldest frame for SHUTDOWN, else the oldest PAUSE, RESUME or frame of the
-- same type; without one, the oldest that is not SHUTDOWN for START_SESSION and STOP_SESSION.
unfoldable pub victim_for : ℕ → List Frame → Option ℕ
victim_for type fs = elim (find_index is_audio fs) [
  | some k ↦ some k
  | none ↦
      if type == 4
      then none
      else if type == 11
      then some 0
      else elim (find_index (is_superseded type) fs) [
        | some k ↦ some k
        | none ↦ if type == 3 || type == 7 then find_index is_not_shutdown fs else none
      ]
]

-- Whether a frame is accepted by a queue for `room` frames, and the frames after that.
unfoldable pub offer : ℕ → List Frame → Frame → Bool × List Frame
offer room fs f =
    if ltb (length fs) room then (true, fs ++ f ∷ []) else elim (victim_for f.type fs) [
      | some k ↦ (true, remove_at k fs ++ f ∷ [])
      | none ↦ (false, fs)
    ]

-- The microseconds of audio in a list of frames.
unfoldable pub total_us : List Frame → ℕ
unfolding frame_audio_duration_us
total_us [] = 0
total_us (f ∷ fs) = frame_audio_duration_us f + total_us fs

bumped :
    (test : Frame → Bool) (f : Frame) (fs : List Frame) (o : Option ℕ) (k : ℕ)
    → ((j : ℕ) → o ≡ some j → (j < length fs) × (test (get_or fs j blank_frame) ≡ true))
    → bump o ≡ some k
    → (k < length (f ∷ fs)) × (test (get_or (f ∷ fs) k blank_frame) ≡ true)
bumped test f fs none k found e = ground arith
bumped test f fs (some j) zero found e = ground arith
bumped test f fs (some j) (suc k) found e =
    let (lt, holds) = found k (ground arith) in (omega (arith, lt), holds)

found_cons :
    (test : Frame → Bool) (f : Frame) (fs : List Frame) (o : Option ℕ) (k : ℕ) (hit : Bool)
    → test f ≡ hit
    → ((j : ℕ) → o ≡ some j → (j < length fs) × (test (get_or fs j blank_frame) ≡ true))
    → (if hit then some 0 else bump o) ≡ some k
    → (k < length (f ∷ fs)) × (test (get_or (f ∷ fs) k blank_frame) ≡ true)
found_cons test f fs o zero true h found e = (omega arith, h)
found_cons test f fs o (suc k) true h found e = ground arith
found_cons test f fs o k false h found e = bumped test f fs o k found e

pub find_index-found :
    (test : Frame → Bool) (fs : List Frame) (k : ℕ)
    → find_index test fs ≡ some k
    → (k < length fs) × (test (get_or fs k blank_frame) ≡ true)
unfolding find_index
find_index-found test [] k e = ground arith
find_index-found test (f ∷ fs) k e =
    found_cons test f fs (find_index test fs) k (test f) refl (find_index-found test fs) e

pub total_us-append : (fs gs : List Frame) → total_us (fs ++ gs) ≡ total_us fs + total_us gs
unfolding total_us
total_us-append [] gs = omega arith
total_us-append (f ∷ fs) gs = omega (arith, total_us-append fs gs)

pub total_us-remove_at :
    (fs : List Frame) (k : ℕ)
    → k < length fs
    → total_us fs ≡ frame_audio_duration_us (get_or fs k blank_frame) + total_us (remove_at k fs)
unfolding total_us
total_us-remove_at [] k lt = absurd (omega arith)
total_us-remove_at (f ∷ fs) zero lt = refl
total_us-remove_at (f ∷ fs) (suc k) lt = omega (arith, total_us-remove_at fs k (omega arith))
