-- ===== src/WorkerQueue/Refine.antt =====
-- vw_worker_queue_push and vw_worker_queue_pop of worker/src/vw_worker_queue.c against the list of
-- frames in `Fifo`.
use vlc_whisper.Common.{
  ℕ, zero, suc, ◌+◌, ◌-◌, ◌%◌, ◌^◌, ◌≤◌, ◌<◌, ◌≡◌, refl, ap, ◌∙◌, Bool, true, false, Option, none,
  some, List, [], ◌∷◌, ◌++◌, arith, if◌then◌else◌, length, length-set, set,
}
use vlc_whisper.Common.Ring.{window, length-window, window-push}
use vlc_whisper.WorkerQueue.{
  Frame, WorkerQueue, blank_frame, slot, store, replace, find_slot, shift_left,
}
use vlc_whisper.WorkerQueue.Shift.{remove_at, length-shift_left, window-evict}
use vlc_whisper.WorkerQueue.Fifo.{bump, find_index}

abbrev pub count : WorkerQueue → ℕ
count q = q.head - q.tail

abbrev pub contents : WorkerQueue → List Frame
contents q = window blank_frame q.slots q.capacity q.tail (count q)

pub record IsValid (q : WorkerQueue) : Type 0 where
  pub storage : length q.slots ≡ q.capacity
  pub some_room : 0 < q.capacity
  pub in_order : q.tail ≤ q.head
  pub fits : q.head ≤ q.tail + q.capacity
  pub dropped_in : q.dropped_audio_us < 2 ^ 64
  pub queued_in : q.queued_audio_us < 2 ^ 64

pub length-contents : (q : WorkerQueue) → length (contents q) ≡ count q
length-contents q = length-window blank_frame q.slots q.capacity q.tail (count q)

pub contents-store :
    (q : WorkerQueue) (f : Frame)
    → IsValid q
    → count q < q.capacity
    → contents (store q f) ≡ contents q ++ f ∷ []
unfolding store
contents-store q f v free =
    ap (window blank_frame (set q.slots (q.head % q.capacity) f) q.capacity q.tail)
      {y = suc (count q)} (omega (arith, v.in_order))
    ∙ window-push blank_frame q.slots q.capacity q.tail (count q) (q.head % q.capacity) f free
        (omega (arith, v.storage)) (ap (λ k. k % q.capacity) (omega (arith, v.in_order)))

pub store-IsValid :
    (q : WorkerQueue) (f : Frame) → IsValid q → count q < q.capacity → IsValid (store q f)
unfolding store
store-IsValid q f v free = ground (arith, length-set q.slots (q.head % q.capacity) f)

-- The queue without the frame at `tail + k`.
abbrev shifted : WorkerQueue → ℕ → WorkerQueue
shifted q k = record q {
  slots = shift_left q.slots q.capacity (q.tail + k) (q.head - 1 - (q.tail + k));
  head = q.head - 1;
}

contents-shifted :
    (q : WorkerQueue) (k : ℕ)
    → IsValid q
    → k < count q
    → contents (shifted q k) ≡ remove_at k (contents q)
contents-shifted q k v lt =
    let n = q.head - 1 - (q.tail + k) in
    ap (window blank_frame (shift_left q.slots q.capacity (q.tail + k) n) q.capacity q.tail)
      (omega arith)
    ∙ window-evict q.slots q.capacity q.tail k n (omega (arith, v.storage)) (omega (arith, v.fits))
    ∙ ap (λ m. remove_at k (window blank_frame q.slots q.capacity q.tail m)) (omega arith)

shifted-IsValid : (q : WorkerQueue) (k : ℕ) → IsValid q → k < count q → IsValid (shifted q k)
shifted-IsValid q k v lt =
    ground (arith, length-shift_left q.slots q.capacity (q.tail + k) (q.head - 1 - (q.tail + k)))

pub replaced :
    (q : WorkerQueue) (k : ℕ) (f : Frame)
    → IsValid q
    → k < count q
    → (contents (replace q (q.tail + k) f) ≡ remove_at k (contents q) ++ f ∷ [])
      × IsValid (replace q (q.tail + k) f)
unfolding replace
replaced q k f v lt =
    let v' = shifted-IsValid q k v lt in
    let free : q.head - 1 - q.tail < q.capacity = omega (arith, v.fits) in
    (
      contents-store (shifted q k) f v' free ∙ ap (λ fs. fs ++ f ∷ []) (contents-shifted q k v lt),
      store-IsValid (shifted q k) f v' free,
    )

abbrev pub place : ℕ → Option ℕ → Option ℕ
place i none = none
place i (some k) = some (i + k)

placed :
    (hit : Bool) (i : ℕ) (o : Option ℕ)
    → (if hit then some i else place (i + 1) o) ≡ place i (if hit then some 0 else bump o)
placed true i o = ap some (omega arith)
placed false i none = refl
placed false i (some k) = ap some (omega arith)

pub find_slot-window :
    (test : Frame → Bool) (q : WorkerQueue) (i n : ℕ)
    → find_slot test q i n ≡ place i (find_index test (window blank_frame q.slots q.capacity i n))
unfolding find_slot find_index
find_slot-window test q i zero = refl
find_slot-window test q i (suc n) =
    ap (λ later. if test (slot q i) then some i else later) (find_slot-window test q (i + 1) n)
    ∙ ap
        (λ h.
          if test (slot q i)
          then some i
          else place (i + 1) (find_index test (window blank_frame q.slots q.capacity h n)))
        {y = suc i} (omega arith)
    ∙ placed (test (slot q i)) i (find_index test (window blank_frame q.slots q.capacity (suc i) n))
