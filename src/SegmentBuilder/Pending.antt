-- ===== src/SegmentBuilder/Pending.antt =====
-- What queueing and popping do to the pending cues of the builder of worker/src/vw_segment_builder.c.
pub mod Growth
use native.Mathlib.Nat.{add-zero, mod-eq_of_lt, mod-eq-sub-mod}
use native.Mathlib.Decide.{dec_lt}
use mathlib.Core.Path.{ap₂}
use vlc_whisper.Common.{
  ℕ, zero, suc, ◌+◌, ◌-◌, ◌*◌, ◌%◌, ◌^◌, ◌≤◌, ◌<◌, ◌≡◌, ◌⊎◌, refl, ap, sym, ◌∙◌, true, inl, inr,
  Option, none, some, List, [], ◌∷◌, ◌++◌, append-nil, append_assoc, arith, ◌==◌, ◌||◌, length,
  length-set, length-replicate, get_or, set, replicate, Bool-cases,
}
use vlc_whisper.Common.Int.{ℤ}
use vlc_whisper.Common.Ring.{window, length-window, window-mod, window-set_out, window-push}
use vlc_whisper.SegmentBuilder.{Builder, Cue, blank_cue, copy_queue, grow, write_cue}
use vlc_whisper.SegmentBuilder.Push.{pop}
use vlc_whisper.SegmentBuilder.Pending.Growth.{
  IsValid, oldest, pending, one_more, HasRoom, grow-HasRoom,
}

turn : (h c : ℕ) → h < c → (h + c) % c ≡ h
turn h c lt =
    mod-eq-sub-mod {n = h + c} {m = c} (omega arith)
    ∙ ap (λ k. k % c) (omega arith)
    ∙ mod-eq_of_lt {n = h} {m = c} lt

write_place : (b : Builder) → IsValid b → b.head ≡ (oldest b + b.count) % b.capacity
write_place b v =
    sym (ap (λ k. k % b.capacity) (ground (arith, v.fits)) ∙ turn b.head b.capacity v.head_inside)

-- Writing at the end of the ring keeps the place of its oldest cue.
oldest_kept : (h c n : ℕ) → h < c → n < c → ((h + 1) % c + c - (n + 1)) % c ≡ (h + c - n) % c
oldest_kept h c n inside room = elim (dec_lt (h + 1) c) [
  | yes more ↦
      ap (λ k. (k + c - (n + 1)) % c) (mod-eq_of_lt {n = h + 1} {m = c} more)
      ∙ ap (λ k. k % c) (omega arith)
  | no last ↦
      ap (λ k. (k + c - (n + 1)) % c)
        (mod-eq-sub-mod {n = h + 1} {m = c} (omega arith)
          ∙ ap (λ k. k % c) {x = h + 1 - c} {y = 0} (omega arith)
          ∙ mod-eq_of_lt {n = 0} {m = c} (omega arith))
      ∙ ap (λ k. k % c) {x = 0 + c - (n + 1)} {y = h + c - n - c} (omega arith)
      ∙ sym (mod-eq-sub-mod {n = h + c - n} {m = c} (omega arith))
]

-- The cue that is queued for a text.
abbrev pub new_cue : Builder → List ℕ → ℤ → ℤ → Cue
new_cue b text start end = record {
  segment_id = b.next_segment_id;
  start_pts_us = start;
  end_pts_us = end;
  is_final = true;
  text_utf8 = some text;
  text_bytes = length text % 2 ^ 16;
}

pub write_cue-pending :
    (b : Builder) (text : List ℕ) (start end : ℤ)
    → IsValid b
    → b.count < b.capacity
    → pending (write_cue b text start end) ≡ pending b ++ (new_cue b text start end ∷ [])
unfolding pending write_cue
write_cue-pending b text start end v room =
    let cue = new_cue b text start end in
    let queue = set b.segment_queue b.head cue in
    let h = (b.head + 1) % b.capacity + b.capacity - (b.count + 1) in
    ap (window blank_cue queue b.capacity h) (one_more b.count)
    ∙ window-mod blank_cue queue b.capacity h (oldest b) (suc b.count)
        (oldest_kept b.head b.capacity b.count v.head_inside room)
    ∙ window-push blank_cue b.segment_queue b.capacity (oldest b) b.count b.head cue room
        (ground (arith, v.size)) (write_place b v)

pub write_cue-IsValid :
    (b : Builder) (text : List ℕ) (start end : ℤ)
    → IsValid b
    → b.count < b.capacity
    → IsValid (write_cue b text start end)
unfolding write_cue
write_cue-IsValid b text start end v room =
    ground (arith, length-set b.segment_queue b.head (new_cue b text start end))

pub length-pending : (b : Builder) → length (pending b) ≡ b.count
unfolding pending
length-pending b = length-window blank_cue b.segment_queue b.capacity (oldest b) b.count

pop_place : (h c n : ℕ) → 0 < c → 0 < n → n ≤ c → (h + c - n) % c ≡ (suc (h + c - n) + (c - 1)) % c
pop_place h c n pos waiting fits =
    ap (λ k. k % c) {x = h + c - n} {y = suc (h + c - n) + (c - 1) - c} (omega arith)
    ∙ sym (mod-eq-sub-mod {n = suc (h + c - n) + (c - 1)} {m = c} (omega arith))

-- What a bounded list gives up first.
abbrev pub poll : List Cue → Option (Cue × List Cue)
poll [] = none
poll (c ∷ cs) = some (c, cs)

-- The pending cues after a pop.
abbrev pub seen : Option (Cue × Builder) → Option (Cue × List Cue)
seen none = none
seen (some (c, b)) = some (c, pending b)

-- The builder after a pop.
abbrev pub remaining : Builder → Option (Cue × Builder) → Builder
remaining b none = b
remaining b (some (c, after)) = after

-- The builder after a pop from a ring that is not empty.
abbrev pub popped : Builder → Builder
popped b = record b {
  segment_queue = set b.segment_queue (oldest b % b.capacity) blank_cue;
  count = b.count - 1;
}

pending-empty : (b : Builder) → b.count ≡ 0 → pending b ≡ []
unfolding pending
pending-empty b e = ap (window blank_cue b.segment_queue b.capacity (oldest b)) e

pending-first :
    (b : Builder)
    → 0 < b.count
    → pending b
      ≡ get_or b.segment_queue (oldest b % b.capacity) blank_cue
        ∷ window blank_cue b.segment_queue b.capacity (suc (oldest b)) (b.count - 1)
unfolding pending
pending-first b pos =
    ap (window blank_cue b.segment_queue b.capacity (oldest b)) {y = suc (b.count - 1)}
      (omega arith)

popped-pending :
    (b : Builder)
    → IsValid b
    → 0 < b.count
    → pending (popped b)
      ≡ window blank_cue b.segment_queue b.capacity (suc (oldest b)) (b.count - 1)
unfolding pending
popped-pending b v pos =
    let place = oldest b % b.capacity in
    ap (λ h. window blank_cue (set b.segment_queue place blank_cue) b.capacity h (b.count - 1))
      {y = suc (oldest b)} (ground (arith, v.fits))
    ∙ window-set_out blank_cue b.segment_queue b.capacity (suc (oldest b)) (b.count - 1)
        (b.capacity - 1) place blank_cue (ground (arith, v.fits)) (ground (arith, v.some_room))
        (pop_place b.head b.capacity b.count v.some_room pos v.fits)

pub popped-IsValid : (b : Builder) → IsValid b → IsValid (popped b)
popped-IsValid b v = ground (arith, length-set b.segment_queue (oldest b % b.capacity) blank_cue)

abbrev pub first_cue : Builder → Cue
first_cue b = get_or b.segment_queue (oldest b % b.capacity) blank_cue

pub pop_cases :
    (b : Builder)
    → IsValid b
    → ((pop b ≡ none) × (pending b ≡ []))
      ⊎ ((pop b ≡ some (first_cue b, popped b)) × (pending b ≡ first_cue b ∷ pending (popped b)))
unfolding pop
pop_cases b v = elim (Bool-cases (b.count == 0 || b.capacity == 0)) [
  | inl none_left ↦ inl (rw none_left refl, pending-empty b (ground (arith, v.some_room)))
  | inr some_left ↦
      let waiting : 0 < b.count = ground arith in
      inr (
        rw some_left refl,
        pending-first b waiting ∙ ap (◌∷◌ (first_cue b)) (sym (popped-pending b v waiting)),
      )
]

-- A pop returns the oldest pending cue and removes it, and nothing when there is none; the builder
-- stays valid.
pub pop-pending :
    (b : Builder) → IsValid b → (seen (pop b) ≡ poll (pending b)) × IsValid (remaining b (pop b))
pop-pending b v = elim (pop_cases b v) [
  | inl (nothing, e) ↦ rw (nothing, e) (refl, v)
  | inr (something, e) ↦ rw (something, e) (refl, popped-IsValid b v)
]
