-- ===== src/WorkerQueue/Policy.antt =====
-- What the queue of worker/src/vw_worker_queue.c guarantees to the threads at its two ends.
use vlc_whisper.Common.{
  ℕ, suc, ◌+◌, ◌-◌, ◌%◌, ◌^◌, ◌<◌, ◌≤◌, ◌≡◌, ◌⊎◌, refl, ap, sym, ◌∙◌, true, inl, inr, Option, none,
  some, List, [], ◌∷◌, ◌++◌, arith, Bool, false, length, ◌==◌, length-replicate, Bool-cases,
}
use vlc_whisper.WorkerQueue.{
  Frame, WorkerQueue, blank_frame, slot, create, push, pop, frame_audio_duration_us,
}
use vlc_whisper.Common.Ring.{window}
use vlc_whisper.WorkerQueue.Fifo.{offer, total_us}
use vlc_whisper.WorkerQueue.Shift.{remove_at}
use vlc_whisper.WorkerQueue.Rule.{GivesWay, NoneGives}
use vlc_whisper.WorkerQueue.Refine.{IsValid, contents}
use vlc_whisper.WorkerQueue.Outcome.{push-Outcome}
use vlc_whisper.WorkerQueue.Promise.{promised, duration-lt}

-- The count of queued microseconds is that of the queued frames, as a 64-bit number.
abbrev pub IsCounted : WorkerQueue → Type 0
IsCounted q = q.queued_audio_us ≡ total_us (contents q) % 2 ^ 64

-- A new queue is valid, empty and counted.
pub create-IsValid :
    (capacity : ℕ) (q : WorkerQueue)
    → create capacity true true true ≡ some q
    → IsValid q × IsCounted q × (contents q ≡ [])
unfolding create total_us
create-IsValid capacity q e = ground (arith, length-replicate capacity blank_frame)

-- `push` does with the queued frames what `offer` says, and keeps the queue valid.
pub push-offer :
    (q : WorkerQueue) (f : Frame)
    → IsValid q
    → let (done, q') = push q f in
      ((done, contents q') ≡ offer q.capacity (contents q) f) × IsValid q'
push-offer q f v = let p = promised q f v (push-Outcome q f v) in (p.0, p.1)

-- How a frame is placed in a queue for `room` frames, which holds `fs`: whether it is accepted, and the
-- frames behind that.
abbrev pub Placed : ℕ → Frame → List Frame → Bool × List Frame → Type 0
Placed room f fs r =
    ((length fs < room) × (r ≡ (true, fs ++ f ∷ [])))
    ⊎ ((room ≤ length fs)
        × (((k : ℕ) × GivesWay f.type fs k × (r ≡ (true, remove_at k fs ++ f ∷ [])))
            ⊎ (NoneGives f.type fs × (r ≡ (false, fs)))))

-- After a `push` the queued total is still that of the queued frames. No microsecond of audio is
-- lost: what was dropped and queued before and what came in is dropped or queued after, modulo 2^64.
pub push-IsCounted :
    (q : WorkerQueue) (f : Frame)
    → IsValid q
    → IsCounted q
    → let (_, q') = push q f in
      IsCounted q'
      × ((q'.dropped_audio_us + q'.queued_audio_us) % 2 ^ 64
          ≡ (q.dropped_audio_us + q.queued_audio_us + frame_audio_duration_us f) % 2 ^ 64)
push-IsCounted q f v counted =
    let (_, valid, queued, dropped) = promised q f v (push-Outcome q f v) in
    let after : IsCounted (push q f).1 = omega (arith, valid.queued_in) in (after, omega arith)

-- The oldest frame of a list, and the others.
unfoldable pub poll : List Frame → Option Frame × List Frame
poll [] = (none, [])
poll (f ∷ fs) = (some f, fs)

contents-first :
    (q : WorkerQueue)
    → q.tail < q.head
    → contents q
      ≡ slot q q.tail ∷ window blank_frame q.slots q.capacity (q.tail + 1) (q.head - (q.tail + 1))
contents-first q lt =
    ap (window blank_frame q.slots q.capacity q.tail) {y = suc (q.head - (q.tail + 1))}
      (omega arith)
    ∙ ap (λ i. slot q q.tail ∷ window blank_frame q.slots q.capacity i (q.head - (q.tail + 1)))
        (omega arith)

total_us-first :
    (f : Frame) (fs : List Frame) → total_us (f ∷ fs) ≡ frame_audio_duration_us f + total_us fs
unfolding total_us
total_us-first f fs = refl

-- `pop` returns the oldest frame and removes it, or nothing from an empty queue. It keeps the queue
-- valid, and the queued total that of the queued frames.
pub pop-poll :
    (q : WorkerQueue)
    → IsValid q
    → IsCounted q
    → let (out, q') = pop q in ((out, contents q') ≡ poll (contents q)) × IsValid q' × IsCounted q'
unfolding pop poll
pop-poll q v counted = elim (Bool-cases (q.head == q.tail)) [
  | inl empty ↦
      let nothing : contents q ≡ [] =
        ap (window blank_frame q.slots q.capacity q.tail) {y = 0} (ground arith) in
      rw empty (ap (λ fs. (none, fs)) nothing ∙ sym (ap poll nothing), v, counted)
  | inr held ↦
      let first = slot q q.tail in
      let rest = window blank_frame q.slots q.capacity (q.tail + 1) (q.head - (q.tail + 1)) in
      let split = contents-first q (ground arith) in
      let sum = ap total_us split ∙ total_us-first first rest in
      rw held (sym (ap poll split), ground arith, omega (arith, counted, sum, duration-lt first))
]
