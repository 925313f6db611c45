-- ===== src/Spsc/Inv.antt =====
-- The invariant of vw_spsc_queue_t and the chunks that it holds, oldest first.
use native.Mathlib.Nat.{mod-eq_of_lt, mod-eq-sub-mod, zero-mod}
use native.Mathlib.Decide.{ℕ_discrete, dec_le}
use vlc_whisper.Common.{
  ℕ, ◌+◌, ◌-◌, ◌%◌, ◌<◌, ◌≡◌, ◌≢◌, ◌↔◌, Bool, true, false, List, [], arith, leb, ◌==◌,
  if◌then◌else◌, length, some, length-replicate, suc,
}
use vlc_whisper.Common.Ring.{window, length-window}
use vlc_whisper.Spsc.{SpscQueue, AudioChunk, blank_chunk, places, create}

pub record IsValid (q : SpscQueue) : Type 0 where
  pub storage : length q.ring_buffer ≡ places q
  pub head_in : q.head < places q
  pub tail_in : q.tail < places q

-- The distance from `t` round to `h` among `n` places.
abbrev pub distance : ℕ → ℕ → ℕ → ℕ
distance n h t = if leb t h then h - t else h + n - t

-- How many chunks are queued.
abbrev pub count : SpscQueue → ℕ
count q = distance (places q) q.head q.tail

abbrev pub contents : SpscQueue → List AudioChunk
contents q = window blank_chunk q.ring_buffer (places q) q.tail (count q)

pub length-contents : (q : SpscQueue) → length (contents q) ≡ count q
length-contents q = length-window blank_chunk q.ring_buffer (places q) q.tail (count q)

-- The index behind `i`, without a remainder.
abbrev pub wrapped_next : ℕ → ℕ → ℕ
wrapped_next n i = if i + 1 == n then 0 else i + 1

pub next_index-eq : (n i : ℕ) → i < n → (i + 1) % n ≡ wrapped_next n i
next_index-eq n i h = elim (ℕ_discrete (i + 1) n) [
  | yes e ↦ ground (arith, mod-eq-sub-mod {n = i + 1} {m = n}, zero-mod n)
  | no ne ↦ ground (arith, mod-eq_of_lt {n = i + 1} {m = n})
]

pub distance-lt : (n h t : ℕ) → h < n → t < n → distance n h t < n
distance-lt n h t lh lt = ground arith

-- `h` is the place behind the entries.
pub head-distance : (n h t : ℕ) → h < n → t < n → h ≡ (t + distance n h t) % n
head-distance n h t lh lt = elim (dec_le t h) [
  | yes le ↦ ground (arith, mod-eq_of_lt {n = h} {m = n})
  | no gt ↦ ground (arith, mod-eq_of_lt {n = h} {m = n}, mod-eq-sub-mod {n = h + n} {m = n})
]

-- The ring is full exactly if the next place of the head is the tail.
pub full_iff : (n h t : ℕ) → h < n → t < n → (wrapped_next n h ≡ t) ↔ (distance n h t + 1 ≡ n)
full_iff n h t lh lt = (λ e. ground arith, λ e. ground arith)

pub distance-next_head :
    (n h t : ℕ)
    → h < n
    → t < n
    → wrapped_next n h ≢ t
    → distance n (wrapped_next n h) t ≡ suc (distance n h t)
distance-next_head n h t lh lt ne = ground arith

pub distance-next_tail :
    (n h t : ℕ) → h < n → t < n → t ≢ h → distance n h t ≡ suc (distance n h (wrapped_next n t))
distance-next_tail n h t lh lt ne = ground arith

pub create-IsValid :
    (capacity : ℕ) (a b : Bool) (q : SpscQueue)
    → create capacity a b ≡ some q
    → IsValid q × (contents q ≡ []) × (q.capacity_chunks ≡ capacity) × (q.audio_dropped_us ≡ 0)
unfolding create
create-IsValid capacity true true q e = ground (arith, length-replicate (capacity + 1) blank_chunk)
create-IsValid capacity true false q e = ground arith
create-IsValid capacity false b q e = ground arith
