-- ===== src/Spsc.antt =====
-- The lock-free queue between VLC's audio callback and the sender thread: plugin/src/vw_queue.c
-- and plugin/include/vw_queue.h, and vw_audio_chunk_t of plugin/include/vw_audio_capture.h.
-- An operation on the shared struct returns the new struct. Here each call runs by itself; the
-- interleaving of the atomic accesses of the two threads is in `Threads`.
pub mod Inv
pub mod Refine
pub mod Threads
mod Tests
use vlc_whisper.Common.{
  ℕ, ◌+◌, ◌-◌, ◌%◌, ◌^◌, Bool, true, false, Option, none, some, List, [], ◌∷◌, ◌==◌, if◌then◌else◌,
  get_or, set, replicate,
}

-- vw_audio_chunk_t; `duration_us` is the 64-bit pattern.
pub record AudioChunk : Type 0 where
  pub start_pts_us : ℕ
  pub duration_us : ℕ
  pub sample_rate : ℕ
  pub channels : ℕ
  pub bytes : ℕ
  pub pcm_data : List ℕ

-- A chunk as `calloc` leaves it. (Its array of zeros is written as an empty list.)
abbrev pub blank_chunk : AudioChunk
blank_chunk = record {
  start_pts_us = 0;
  duration_us = 0;
  sample_rate = 0;
  channels = 0;
  bytes = 0;
  pcm_data = [];
}

-- vw_spsc_queue_t
pub record SpscQueue : Type 0 where
  pub ring_buffer : List AudioChunk
  pub capacity_chunks : ℕ
  pub head : ℕ
  pub tail : ℕ
  pub audio_dropped_us : ℕ

-- One place more than the capacity tells a full ring from an empty one.
abbrev pub places : SpscQueue → ℕ
places q = q.capacity_chunks + 1

-- vw_spsc_queue_create; the two tests tell whether the allocations succeed.
unfoldable pub create : ℕ → Bool → Bool → Option SpscQueue
create capacity struct_allocated ring_allocated =
    if capacity == 0
    then none
    else if struct_allocated
    then if ring_allocated
      then some (record {
        ring_buffer = replicate (capacity + 1) blank_chunk;
        capacity_chunks = capacity;
        head = 0;
        tail = 0;
        audio_dropped_us = 0;
      })
      else none
    else none

-- (index + 1) % (capacity_chunks + 1)
abbrev pub next_index : SpscQueue → ℕ → ℕ
next_index q i = (i + 1) % places q

-- vw_spsc_queue_push
unfoldable pub push : SpscQueue → AudioChunk → Bool × SpscQueue
push q chunk =
    let next_head = next_index q q.head in
    if next_head == q.tail
    then (false, record q { audio_dropped_us = (q.audio_dropped_us + chunk.duration_us) % 2 ^ 64 })
    else (true, record q { ring_buffer = set q.ring_buffer q.head chunk; head = next_head })

-- vw_spsc_queue_pop
unfoldable pub pop : SpscQueue → Option AudioChunk × SpscQueue
pop q =
    if q.tail == q.head
    then (none, q)
    else (some (get_or q.ring_buffer q.tail blank_chunk), record q { tail = next_index q q.tail })

-- vw_spsc_queue_get_dropped_microseconds
unfoldable pub get_dropped_microseconds : SpscQueue → ℕ
get_dropped_microseconds q = q.audio_dropped_us
