-- ===== src/WorkerQueue.antt =====
-- The worker's queue of inbound frames: worker/src/vw_worker_queue.c and
-- worker/include/vw_worker_queue.h. Every operation holds the mutex from its first to its last access
-- of the struct, so it is one step here. `head` and `tail` count all frames ever stored and read;
-- they are taken to stay below 2^64. `free` has no counterpart.
pub mod Shift
pub mod Fifo
pub mod Rule
pub mod Refine
pub mod Push
pub mod Outcome
pub mod Promise
pub mod Policy
pub mod Directives
mod Tests
use vlc_whisper.Common.{
  ℕ, zero, suc, ◌+◌, ◌-◌, ◌%◌, ◌^◌, Bool, true, false, not, ◌||◌, Option, none, some, List, ltb,
  ◌==◌, if◌then◌else◌, get_or, set, replicate,
}
use vlc_whisper.Protocol.Types.{Pointer, is_null, read_at, Message, audio_pcm}
use vlc_whisper.Protocol.Decode.{decode_payload}

-- vw_worker_frame_t
pub record Frame : Type 0 where
  pub type : ℕ
  pub payload_len : ℕ
  pub payload : Pointer

abbrev pub blank_frame : Frame
blank_frame = record { type = 0; payload_len = 0; payload = none }

-- struct vw_worker_queue, but for the mutex.
pub record WorkerQueue : Type 0 where
  pub slots : List Frame
  pub capacity : ℕ
  pub head : ℕ
  pub tail : ℕ
  pub dropped_audio_us : ℕ
  pub queued_audio_us : ℕ

-- vw_worker_queue_create; the tests tell whether the allocations and pthread_mutex_init succeed.
unfoldable pub create : ℕ → Bool → Bool → Bool → Option WorkerQueue
create capacity struct_allocated slots_allocated mutex_made =
    if capacity == 0 || not struct_allocated || not slots_allocated || not mutex_made
    then none
    else some (record {
      slots = replicate capacity blank_frame;
      capacity = capacity;
      head = 0;
      tail = 0;
      dropped_audio_us = 0;
      queued_audio_us = 0;
    })

-- `audio.duration_us > 0 ? (uint64_t)audio.duration_us : 0`, of the 64-bit pattern of the field.
unfoldable pub positive_duration : Option Message → ℕ
positive_duration (some (audio_pcm audio)) =
    if ltb audio.duration_us (2 ^ 63) then audio.duration_us else 0
positive_duration _ = 0

-- vw_worker_queue_audio_duration_us
unfoldable pub audio_duration_us : Pointer → ℕ → ℕ
audio_duration_us payload payload_len =
    if is_null payload
    then 0
    else positive_duration (decode_payload 4 (read_at payload payload_len))

-- vw_worker_queue_frame_audio_duration_us
unfoldable pub frame_audio_duration_us : Frame → ℕ
frame_audio_duration_us f = if f.type == 4 then audio_duration_us f.payload f.payload_len else 0

-- atomic_fetch_add and atomic_fetch_sub on a uint64_t.
abbrev pub add_u64 : ℕ → ℕ → ℕ
add_u64 a b = (a + b) % 2 ^ 64

abbrev pub sub_u64 : ℕ → ℕ → ℕ
sub_u64 a b = (a + 2 ^ 64 - b) % 2 ^ 64

abbrev pub slot : WorkerQueue → ℕ → Frame
slot q i = get_or q.slots (i % q.capacity) blank_frame

-- A frame written at the head.
unfoldable pub store : WorkerQueue → Frame → WorkerQueue
store q f = record q { slots = set q.slots (q.head % q.capacity) f; head = q.head + 1 }

-- The loops that look for a frame to evict: the first of `n` from index `i` on that has the test.
unfoldable pub find_slot : (Frame → Bool) → WorkerQueue → ℕ → ℕ → Option ℕ
find_slot test q i zero = none
find_slot test q i (suc n) =
    let later = find_slot test q (i + 1) n in if test (slot q i) then some i else later

-- The loops that shift the frames behind an evicted one: `n` turns from index `i` on.
unfoldable pub shift_left : List Frame → ℕ → ℕ → ℕ → List Frame
shift_left slots capacity i zero = slots
shift_left slots capacity i (suc n) =
    shift_left (set slots (i % capacity) (get_or slots ((i + 1) % capacity) blank_frame)) capacity
      (i + 1) n

-- The survivors move up and the new frame goes to the end.
unfoldable pub replace : WorkerQueue → ℕ → Frame → WorkerQueue
replace q evict f =
    store
      (record q {
        slots = shift_left q.slots q.capacity evict (q.head - 1 - evict);
        head = q.head - 1;
      })
      f

unfoldable pub is_audio : Frame → Bool
is_audio f = f.type == 4

unfoldable pub is_shutdown : Frame → Bool
is_shutdown f = f.type == 11

-- `queued == VW_MSG_PAUSE || queued == VW_MSG_RESUME || queued == type`
unfoldable pub is_superseded : ℕ → Frame → Bool
is_superseded type f = f.type == 5 || f.type == 6 || f.type == type

abbrev pub is_not_shutdown : Frame → Bool
is_not_shutdown f = not (f.type == 11)

-- Which control frame of a queue of control frames an incoming one evicts.
unfoldable pub find_control : WorkerQueue → ℕ → Option ℕ
find_control q type =
    let superseded = find_slot (is_superseded type) q q.tail (q.head - q.tail) in
    let oldest = find_slot is_not_shutdown q q.tail (q.head - q.tail) in
    if type == 11 then some q.tail else elim superseded [
      | some i ↦ some i
      | none ↦ if type == 3 || type == 7 then oldest else none
    ]

-- vw_worker_queue_push on a full queue without audio, given a control frame.
unfoldable pub push_control : WorkerQueue → Frame → Bool × WorkerQueue
push_control q f = elim (find_control q f.type) [
  | none ↦ (false, q)
  | some evict ↦
      let victim_us = frame_audio_duration_us (slot q evict) in
      (
        true,
        replace
            (record q {
              dropped_audio_us = add_u64 q.dropped_audio_us victim_us;
              queued_audio_us = sub_u64 q.queued_audio_us victim_us;
            })
            evict f,
      )
]

-- vw_worker_queue_push. A duration of 0 is added and subtracted too, which
-- changes no total below 2^64.
unfoldable pub push : WorkerQueue → Frame → Bool × WorkerQueue
push q f =
    let incoming_us = frame_audio_duration_us f in
    if ltb (q.head - q.tail) q.capacity
    then (true, store (record q { queued_audio_us = add_u64 q.queued_audio_us incoming_us }) f)
    else elim (find_slot is_audio q q.tail (q.head - q.tail)) [
      | some evict ↦
          let victim = slot q evict in
          let victim_us = audio_duration_us victim.payload victim.payload_len in
          (
            true,
            replace
                (record q {
                  dropped_audio_us = add_u64 q.dropped_audio_us victim_us;
                  queued_audio_us = add_u64 (sub_u64 q.queued_audio_us victim_us) incoming_us;
                })
                evict f,
          )
      | none ↦
          if f.type == 4
          then (false, record q { dropped_audio_us = add_u64 q.dropped_audio_us incoming_us })
          else push_control q f
    ]

-- vw_worker_queue_pop
unfoldable pub pop : WorkerQueue → Option Frame × WorkerQueue
pop q =
    if q.head == q.tail
    then (none, q)
    else (let out = slot q q.tail in
        (
          some out,
          record q {
            tail = q.tail + 1;
            queued_audio_us = sub_u64 q.queued_audio_us (frame_audio_duration_us out);
          },
        ))

-- vw_worker_queue_get_dropped_audio_us
unfoldable pub get_dropped_audio_us : WorkerQueue → ℕ
get_dropped_audio_us q = q.dropped_audio_us

-- vw_worker_queue_get_queued_audio_us
unfoldable pub get_queued_audio_us : WorkerQueue → ℕ
get_queued_audio_us q = q.queued_audio_us
