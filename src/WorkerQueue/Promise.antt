-- ===== src/WorkerQueue/Promise.antt =====
-- What each way that vw_worker_queue_push of worker/src/vw_worker_queue.c can go does to the frames
-- and to the totals of audio.
use mathlib.Core.Path.{subst}
use vlc_whisper.Common.{
  ℕ, ◌+◌, ◌%◌, ◌^◌, ◌≤◌, ◌<◌, ◌≡◌, refl, ap, sym, ◌∙◌, Bool, true, false, inl, inr, Option, none,
  some, List, [], ◌∷◌, ◌++◌, arith, ltb, lt→ltb, length, get_or,
}
use vlc_whisper.Protocol.Types.{Message, read_at}
use vlc_whisper.Protocol.Decode.{decode_payload}
use vlc_whisper.WorkerQueue.{
  replace, positive_duration, audio_duration_us, Frame, WorkerQueue, blank_frame, store, push,
  frame_audio_duration_us, add_u64, sub_u64,
}
use vlc_whisper.WorkerQueue.Shift.{remove_at}
use vlc_whisper.WorkerQueue.Fifo.{victim_for, offer, total_us, total_us-append, total_us-remove_at}
use vlc_whisper.WorkerQueue.Refine.{
  IsValid, count, contents, length-contents, contents-store, store-IsValid, replaced,
}
use vlc_whisper.WorkerQueue.Push.{evict}
use vlc_whisper.WorkerQueue.Outcome.{Outcome}

-- The result of a push, in terms of the frames.
abbrev pub Promise : WorkerQueue → Frame → Bool × WorkerQueue → Type 0
Promise q f r =
    ((r.0, contents r.1) ≡ offer q.capacity (contents q) f)
    × IsValid r.1
    × ((r.1.queued_audio_us + total_us (contents q)) % 2 ^ 64
        ≡ (q.queued_audio_us + total_us (contents r.1)) % 2 ^ 64)
    × ((r.1.dropped_audio_us + total_us (contents r.1)) % 2 ^ 64
        ≡ (q.dropped_audio_us + frame_audio_duration_us f + total_us (contents q)) % 2 ^ 64)

offer-stored :
    (q : WorkerQueue) (f : Frame)
    → count q < q.capacity
    → offer q.capacity (contents q) f ≡ (true, contents q ++ f ∷ [])
unfolding offer
offer-stored q f free = rw (length-contents q, lt→ltb (count q) q.capacity free) refl

offer-full :
    (q : WorkerQueue) (f : Frame)
    → q.capacity ≤ count q
    → ltb (length (contents q)) q.capacity ≡ false
offer-full q f full = ground (arith, length-contents q)

store-totals :
    (q : WorkerQueue) (f : Frame)
    → ((store q f).dropped_audio_us ≡ q.dropped_audio_us)
      × ((store q f).queued_audio_us ≡ q.queued_audio_us)
unfolding store
store-totals q f = (refl, refl)

replace-totals :
    (q : WorkerQueue) (i : ℕ) (f : Frame)
    → ((replace q i f).dropped_audio_us ≡ q.dropped_audio_us)
      × ((replace q i f).queued_audio_us ≡ q.queued_audio_us)
unfolding replace store
replace-totals q i f = (refl, refl)

total_us-snoc :
    (fs : List Frame) (f : Frame)
    → total_us (fs ++ f ∷ []) ≡ total_us fs + frame_audio_duration_us f
unfolding total_us
total_us-snoc fs f = omega (arith, total_us-append fs (f ∷ []))

-- The totals may be changed freely.
pub retotal :
    (q : WorkerQueue) (d u : ℕ)
    → IsValid q
    → d < 2 ^ 64
    → u < 2 ^ 64
    → IsValid (record q { dropped_audio_us = d; queued_audio_us = u })
retotal q d u v hd hu = record {
  storage = v.storage;
  some_room = v.some_room;
  in_order = v.in_order;
  fits = v.fits;
  dropped_in = hd;
  queued_in = hu;
}

stored-Promise :
    (q : WorkerQueue) (f : Frame)
    → IsValid q
    → count q < q.capacity
    → Promise q f (
      true,
      store
          (record q { queued_audio_us = add_u64 q.queued_audio_us (frame_audio_duration_us f) })
          f,
    )
stored-Promise q f v free =
    let us = frame_audio_duration_us f in
    let q' = record q { queued_audio_us = add_u64 q.queued_audio_us us } in
    let v' =
      retotal q q.dropped_audio_us (add_u64 q.queued_audio_us us) v v.dropped_in (omega arith) in
    let after = contents-store q' f v' free in
    let totals = store-totals q' f in
    let sum = ap total_us after ∙ total_us-snoc (contents q) f in
    (
      ap (λ fs. (true, fs)) after ∙ sym (offer-stored q f free),
      store-IsValid q' f v' free,
      omega (arith, totals.1, sum),
      omega (arith, totals.0, sum),
    )

offer-evicted :
    (q : WorkerQueue) (f : Frame) (k : ℕ)
    → q.capacity ≤ count q
    → victim_for f.type (contents q) ≡ some k
    → offer q.capacity (contents q) f ≡ (true, remove_at k (contents q) ++ f ∷ [])
unfolding offer
offer-evicted q f k full out = rw (offer-full q f full, out) refl

offer-refused :
    (q : WorkerQueue) (f : Frame)
    → q.capacity ≤ count q
    → victim_for f.type (contents q) ≡ none
    → offer q.capacity (contents q) f ≡ (false, contents q)
unfolding offer
offer-refused q f full out = rw (offer-full q f full, out) refl

positive_duration-lt : (o : Option Message) → positive_duration o < 2 ^ 63
unfolding positive_duration
positive_duration-lt o = ground arith

pub duration-lt : (f : Frame) → frame_audio_duration_us f < 2 ^ 63
unfolding frame_audio_duration_us audio_duration_us
duration-lt f =
    ground (arith, positive_duration-lt (decode_payload 4 (read_at f.payload f.payload_len)))

evicted-Promise :
    (q : WorkerQueue) (f : Frame) (k : ℕ)
    → IsValid q
    → q.capacity ≤ count q
    → victim_for f.type (contents q) ≡ some k
    → k < count q
    → Promise q f (true, evict q k f)
evicted-Promise q f k v full out lt =
    let us = frame_audio_duration_us f in
    let out_us = frame_audio_duration_us (get_or (contents q) k blank_frame) in
    let dropped = add_u64 q.dropped_audio_us out_us in
    let queued = add_u64 (sub_u64 q.queued_audio_us out_us) us in
    let q' = record q { dropped_audio_us = dropped; queued_audio_us = queued } in
    let v' = retotal q dropped queued v (omega arith) (omega arith) in
    let (after, valid) = replaced q' k f v' lt in
    let totals = replace-totals q' (q.tail + k) f in
    let sum = ap total_us after ∙ total_us-snoc (remove_at k (contents q)) f in
    let split =
      total_us-remove_at (contents q) k (subst (λ n. k < n) (sym (length-contents q)) lt) in
    let bound = duration-lt (get_or (contents q) k blank_frame) in
    (
      ap (λ fs. (true, fs)) after ∙ sym (offer-evicted q f k full out),
      valid,
      omega (arith, totals.1, sum, split, bound),
      omega (arith, totals.0, sum, split),
    )

refused-Promise :
    (q : WorkerQueue) (f : Frame)
    → IsValid q
    → q.capacity ≤ count q
    → victim_for f.type (contents q) ≡ none
    → Promise q f (
      false,
      record q { dropped_audio_us = add_u64 q.dropped_audio_us (frame_audio_duration_us f) },
    )
refused-Promise q f v full out = (
  sym (offer-refused q f full out),
  retotal q _ q.queued_audio_us v (omega arith) v.queued_in,
  refl,
  omega arith,
)

pub promised : (q : WorkerQueue) (f : Frame) → IsValid q → Outcome q f → Promise q f (push q f)
promised q f v (inl (free, e)) = subst (Promise q f) (sym e) (stored-Promise q f v free)
promised q f v (inr (inl (full, (k, out, lt, e)))) =
    subst (Promise q f) (sym e) (evicted-Promise q f k v full out lt)
promised q f v (inr (inr (full, out, e))) =
    subst (Promise q f) (sym e) (refused-Promise q f v full out)
