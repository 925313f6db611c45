-- ===== src/WorkerQueue/Push.antt =====
-- The branches of vw_worker_queue_push in worker/src/vw_worker_queue.c, told apart by the frames that
-- the queue holds.
use vlc_whisper.Common.{
  ℕ, zero, suc, ◌+◌, ◌-◌, ◌%◌, ◌≤◌, ◌<◌, ◌≡◌, refl, ap, sym, ◌∙◌, Bool, true, false, ◌||◌, Option,
  none, some, List, arith, ltb, lt→ltb, ◌==◌, if◌then◌else◌, get_or,
}
use vlc_whisper.Common.Ring.{window}
use vlc_whisper.WorkerQueue.{
  Frame, WorkerQueue, blank_frame, slot, store, replace, find_slot, is_audio, is_superseded,
  is_not_shutdown, find_control, push_control, push, audio_duration_us, frame_audio_duration_us,
  add_u64, sub_u64,
}
use vlc_whisper.WorkerQueue.Fifo.{find_index, victim_for, find_index-found}
use vlc_whisper.WorkerQueue.Refine.{
  IsValid, count, contents, length-contents, place, find_slot-window,
}

-- The frame `k` gives way: its duration goes from the queued total to the dropped one.
abbrev evict_us : WorkerQueue → ℕ → Frame → ℕ → WorkerQueue
evict_us q k f victim_us =
    replace
      (record q {
        dropped_audio_us = add_u64 q.dropped_audio_us victim_us;
        queued_audio_us = add_u64 (sub_u64 q.queued_audio_us victim_us) (frame_audio_duration_us f);
      })
      (q.tail + k) f

abbrev pub evict : WorkerQueue → ℕ → Frame → WorkerQueue
evict q k f = evict_us q k f (frame_audio_duration_us (get_or (contents q) k blank_frame))

get_or-window :
    (s : List Frame) (c h n k : ℕ)
    → k < n
    → get_or (window blank_frame s c h n) k blank_frame ≡ get_or s ((h + k) % c) blank_frame
get_or-window s c h zero k lt = absurd (omega arith)
get_or-window s c h (suc n) zero lt = ap (λ i. get_or s (i % c) blank_frame) (omega arith)
get_or-window s c h (suc n) (suc k) lt =
    get_or-window s c (suc h) n k (omega arith)
    ∙ ap (λ i. get_or s (i % c) blank_frame) (omega arith)

slot-contents :
    (q : WorkerQueue) (k : ℕ)
    → k < count q
    → slot q (q.tail + k) ≡ get_or (contents q) k blank_frame
slot-contents q k lt = sym (get_or-window q.slots q.capacity q.tail (count q) k lt)

pub push-stored :
    (q : WorkerQueue) (f : Frame)
    → count q < q.capacity
    → push q f ≡ (
      true,
      store
          (record q { queued_audio_us = add_u64 q.queued_audio_us (frame_audio_duration_us f) })
          f,
    )
unfolding push
push-stored q f free = rw (lt→ltb (count q) q.capacity free) refl

is_full : (q : WorkerQueue) → q.capacity ≤ count q → ltb (count q) q.capacity ≡ false
is_full q full = ground arith

audio_frame :
    (f : Frame)
    → is_audio f ≡ true
    → audio_duration_us f.payload f.payload_len ≡ frame_audio_duration_us f
unfolding is_audio frame_audio_duration_us
audio_frame f audio = rw audio refl

-- An audio frame gives way.
pub push-audio_out :
    (q : WorkerQueue) (f : Frame) (k : ℕ)
    → q.capacity ≤ count q
    → find_index is_audio (contents q) ≡ some k
    → push q f ≡ (true, evict q k f)
unfolding push
push-audio_out q f k full found =
    let (lt, audio) = find_index-found is_audio (contents q) k found in
    let at_slot = slot-contents q k (omega (arith, length-contents q)) in
    let there : find_slot is_audio q q.tail (q.head - q.tail) ≡ some (q.tail + k) =
      find_slot-window is_audio q q.tail (count q) ∙ ap (place q.tail) found in
    let victim = get_or (contents q) k blank_frame in
    let out : push q f
        ≡ (true, evict_us q k f (audio_duration_us victim.payload victim.payload_len)) =
      rw (is_full q full, there, at_slot) refl in
    out ∙ ap (λ us. (true, evict_us q k f us)) (audio_frame victim audio)

no_audio :
    (q : WorkerQueue)
    → find_index is_audio (contents q) ≡ none
    → find_slot is_audio q q.tail (q.head - q.tail) ≡ none
no_audio q found = find_slot-window is_audio q q.tail (count q) ∙ ap (place q.tail) found

-- Audio finds only control frames.
pub push-audio_refused :
    (q : WorkerQueue) (f : Frame)
    → q.capacity ≤ count q
    → find_index is_audio (contents q) ≡ none
    → (f.type == 4) ≡ true
    → push q f ≡ (
      false,
      record q { dropped_audio_us = add_u64 q.dropped_audio_us (frame_audio_duration_us f) },
    )
unfolding push
push-audio_refused q f full found audio = rw (is_full q full, no_audio q found, audio) refl

push-control :
    (q : WorkerQueue) (f : Frame)
    → q.capacity ≤ count q
    → find_index is_audio (contents q) ≡ none
    → (f.type == 4) ≡ false
    → push q f ≡ push_control q f
unfolding push
push-control q f full found control = rw (is_full q full, no_audio q found, control) refl

control_place :
    (i : ℕ) (o : Option ℕ) (shutting_down required : Bool) (fallback reached : Option ℕ)
    → reached ≡ place i fallback
    → (if shutting_down
        then some i
        else elim (place i o) [ some j ↦ some j | none ↦ if required then reached else none ])
      ≡ place i (
          if shutting_down
          then some 0
          else elim o [ some k ↦ some k | none ↦ if required then fallback else none ])
control_place i o true required fallback reached e = ap some (omega arith)
control_place i (some k) false required fallback reached e = refl
control_place i none false true fallback reached e = e
control_place i none false false fallback reached e = refl

find_control-place :
    (q : WorkerQueue) (f : Frame)
    → find_index is_audio (contents q) ≡ none
    → (f.type == 4) ≡ false
    → find_control q f.type ≡ place q.tail (victim_for f.type (contents q))
unfolding find_control victim_for
find_control-place q f found control =
    rw
      (
        found,
        control,
        find_slot-window (is_superseded f.type) q q.tail (count q),
        find_control,
        victim_for,
      )
      (control_place q.tail (find_index (is_superseded f.type) (contents q)) (f.type == 11)
        (f.type == 3 || f.type == 7) (find_index is_not_shutdown (contents q)) _
        (find_slot-window is_not_shutdown q q.tail (count q)))

pub silent : (f : Frame) → (f.type == 4) ≡ false → frame_audio_duration_us f ≡ 0
unfolding frame_audio_duration_us
silent f control = rw control refl

-- A control frame gives way.
pub push-control_out :
    (q : WorkerQueue) (f : Frame) (k : ℕ)
    → IsValid q
    → q.capacity ≤ count q
    → find_index is_audio (contents q) ≡ none
    → (f.type == 4) ≡ false
    → victim_for f.type (contents q) ≡ some k
    → k < count q
    → push q f ≡ (true, evict q k f)
unfolding push_control
push-control_out q f k v full found control chosen lt =
    let victim_us = frame_audio_duration_us (get_or (contents q) k blank_frame) in
    push-control q f full found control
    ∙ (rw
        (
          find_control-place q f found control ∙ ap (place q.tail) chosen,
          slot-contents q k lt,
          push_control,
        )
        (ap
          (λ us. (
            true,
            replace
                (record q {
                  dropped_audio_us = add_u64 q.dropped_audio_us victim_us;
                  queued_audio_us = us;
                })
                (q.tail + k) f,
          ))
          (omega (arith, silent f control))))

pub push-control_refused :
    (q : WorkerQueue) (f : Frame)
    → q.capacity ≤ count q
    → find_index is_audio (contents q) ≡ none
    → (f.type == 4) ≡ false
    → victim_for f.type (contents q) ≡ none
    → push q f ≡ (false, q)
unfolding push_control
push-control_refused q f full found control chosen =
    push-control q f full found control
    ∙ rw (find_control-place q f found control ∙ ap (place q.tail) chosen, push_control) refl
