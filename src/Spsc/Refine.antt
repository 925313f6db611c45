-- ===== src/Spsc/Refine.antt =====
-- vw_spsc_queue_push and vw_spsc_queue_pop against a bounded FIFO.
use native.Mathlib.Nat.{mod-mod, mod-eq_of_lt}
use mathlib.Core.Path.{ap₂}
use vlc_whisper.Common.{
  ℕ, ◌+◌, ◌%◌, ◌^◌, ◌≡◌, ◌≢◌, ◌↔◌, ap, ◌∙◌, sym, Bool, true, false, List, [], ◌∷◌, ◌++◌, arith,
  ◌==◌, if◌then◌else◌, length, get_or, set, length-set, Option, none, some, suc, Bool-cases, inl,
  inr,
}
use vlc_whisper.Common.Ring.{window, window-mod, window-push}
use vlc_whisper.Spsc.{SpscQueue, AudioChunk, blank_chunk, places, next_index, push, pop}
use vlc_whisper.Spsc.Inv.{
  IsValid, distance, count, contents, length-contents, next_index-eq, distance-lt, head-distance,
  full_iff, distance-next_head, distance-next_tail,
}

-- The queue of capacity `room` that the ring stands for, with the time that it has dropped.
pub record Fifo : Type 0 where
  pub room : ℕ
  pub queued : List AudioChunk
  pub dropped_us : ℕ

pub offer : Fifo → AudioChunk → Bool × Fifo
offer f chunk =
    if length f.queued == f.room
    then (false, record f { dropped_us = (f.dropped_us + chunk.duration_us) % 2 ^ 64 })
    else (true, record f { queued = f.queued ++ chunk ∷ [] })

pub poll_list : List AudioChunk → Option AudioChunk × List AudioChunk
poll_list [] = (none, [])
poll_list (c ∷ cs) = (some c, cs)

pub poll : Fifo → Option AudioChunk × Fifo
unfolding poll_list
poll f = let (c, cs) = poll_list f.queued in (c, record f { queued = cs })

abbrev pub view : SpscQueue → Fifo
view q = record { room = q.capacity_chunks; queued = contents q; dropped_us = q.audio_dropped_us }

distance_published :
    (q : SpscQueue)
    → IsValid q
    → next_index q q.head ≢ q.tail
    → distance (places q) (next_index q q.head) q.tail ≡ suc (count q)
distance_published q v ne =
    let e = next_index-eq (places q) q.head v.head_in in
    rw e (distance-next_head (places q) q.head q.tail v.head_in v.tail_in (λ f. ne (e ∙ f)))

distance_consumed :
    (q : SpscQueue)
    → IsValid q
    → q.tail ≢ q.head
    → count q ≡ suc (distance (places q) q.head (next_index q q.tail))
distance_consumed q v ne =
    rw (next_index-eq (places q) q.tail v.tail_in)
      (distance-next_tail (places q) q.head q.tail v.head_in v.tail_in ne)

suc_mod_next : (n t : ℕ) → suc t % n ≡ (t + 1) % n % n
suc_mod_next n t = ap (λ k. k % n) (omega arith) ∙ sym (mod-mod (t + 1) n)

pub contents-empty : (q : SpscQueue) → q.tail ≡ q.head → contents q ≡ []
contents-empty q e =
    let none_left : count q ≡ 0 = ground arith in
    ap (window blank_chunk q.ring_buffer (places q) q.tail) none_left

-- The ring is full exactly if it holds `capacity_chunks` chunks.
pub full_count :
    (q : SpscQueue)
    → IsValid q
    → (next_index q q.head ≡ q.tail) ↔ (length (contents q) ≡ q.capacity_chunks)
full_count q v =
    let e = next_index-eq (places q) q.head v.head_in in
    let (to, from) = full_iff (places q) q.head q.tail v.head_in v.tail_in in
    (
      λ f. omega (arith, length-contents q, to (sym e ∙ f)),
      λ f. e ∙ from (omega (arith, length-contents q)),
    )

-- Behind the head nothing of the queue is stored.
pub contents-publish :
    (q : SpscQueue) (chunk : AudioChunk)
    → IsValid q
    → next_index q q.head ≢ q.tail
    → contents
        (record q { ring_buffer = set q.ring_buffer q.head chunk; head = next_index q q.head })
      ≡ contents q ++ chunk ∷ []
contents-publish q chunk v ne =
    ap (window blank_chunk (set q.ring_buffer q.head chunk) (places q) q.tail)
      (distance_published q v ne)
    ∙ window-push blank_chunk q.ring_buffer (places q) q.tail (count q) q.head chunk
        (distance-lt (places q) q.head q.tail v.head_in v.tail_in) (omega arith)
        (head-distance (places q) q.head q.tail v.head_in v.tail_in)

pub contents-consume :
    (q : SpscQueue)
    → IsValid q
    → q.tail ≢ q.head
    → contents q
      ≡ get_or q.ring_buffer q.tail blank_chunk ∷ contents (record q { tail = next_index q q.tail })
contents-consume q v ne =
    ap (window blank_chunk q.ring_buffer (places q) q.tail) (distance_consumed q v ne)
    ∙ ap₂ ◌∷◌ (ap (λ i. get_or q.ring_buffer i blank_chunk) (mod-eq_of_lt v.tail_in)) (
        window-mod blank_chunk q.ring_buffer (places q) (suc q.tail) (next_index q q.tail)
          (distance (places q) q.head (next_index q q.tail)) (suc_mod_next (places q) q.tail))

-- `push` stores the chunk behind the queued ones and returns true, or, if the ring holds
-- `capacity_chunks` chunks, adds its duration to the dropped time and returns false.
pub push_refines :
    (q : SpscQueue) (chunk : AudioChunk)
    → IsValid q
    → let (done, q') = push q chunk in ((done, view q') ≡ offer (view q) chunk) × IsValid q'
unfolding push offer
push_refines q chunk v = elim (Bool-cases (next_index q q.head == q.tail)) [
  | inl full ↦ ground (arith, (full_count q v).0)
  | inr free ↦
      ground (
        arith,
        (full_count q v).1,
        contents-publish q chunk v,
        length-set q.ring_buffer q.head chunk,
      )
]

-- `pop` returns the oldest chunk and removes it, or, on an empty queue, returns NULL.
pub pop_refines :
    (q : SpscQueue)
    → IsValid q
    → let (chunk, q') = pop q in ((chunk, view q') ≡ poll (view q)) × IsValid q'
unfolding pop poll poll_list
pop_refines q v = elim (Bool-cases (q.tail == q.head)) [
  | inl empty ↦ ground (arith, contents-empty q)
  | inr some_left ↦ ground (arith, contents-consume q v)
]
