-- ===== src/SegmentBuilder/Pending/Growth.antt =====
-- The ring of pending cues of worker/src/vw_segment_builder.c, and its growth when it is full.
use native.Mathlib.Nat.{add-zero, mod-eq_of_lt, mod-eq-sub-mod}
use mathlib.Core.Path.{ap₂}
use vlc_whisper.Common.{
  ℕ, zero, suc, ◌+◌, ◌-◌, ◌*◌, ◌%◌, ◌≤◌, ◌<◌, ◌≡◌, refl, ap, sym, ◌∙◌, inl, inr, List, [], ◌∷◌,
  ◌++◌, append-nil, append_assoc, arith, ◌==◌, length, length-set, length-replicate, get_or, set,
  replicate, Bool-cases,
}
use vlc_whisper.Common.Ring.{window, window-mod, window-push}
use vlc_whisper.SegmentBuilder.{Builder, Cue, blank_cue, copy_queue, grow}

pub record IsValid (b : Builder) : Type 0 where
  pub some_room : 0 < b.capacity
  pub size : length b.segment_queue ≡ b.capacity
  pub head_inside : b.head < b.capacity
  pub fits : b.count ≤ b.capacity
  pub history_size : length b.history ≡ 16
  pub history_inside : b.history_head < 16
  pub history_fits : b.history_count ≤ 16

-- The position of the oldest pending cue.
abbrev pub oldest : Builder → ℕ
oldest b = b.head + b.capacity - b.count

-- The pending cues, oldest first.
unfoldable pub pending : Builder → List Cue
pending b = window blank_cue b.segment_queue b.capacity (oldest b) b.count

length-copy_queue :
    (b : Builder) (i n : ℕ) (new_queue : List Cue)
    → length (copy_queue b i n new_queue) ≡ length new_queue
unfolding copy_queue
length-copy_queue b i zero new_queue = refl
length-copy_queue b i (suc n) new_queue =
    let tail = (b.head + b.capacity - b.count + i) % b.capacity in
    length-copy_queue b (i + 1) n (set new_queue i (get_or b.segment_queue tail blank_cue))
    ∙ length-set new_queue i (get_or b.segment_queue tail blank_cue)

pub one_more : (i : ℕ) → i + 1 ≡ suc i
one_more i = omega arith

shifted : (i n : ℕ) → i + suc n ≡ (i + 1) + n
shifted i n = omega arith

own_place : (i c : ℕ) → i < c → i ≡ (0 + i) % c
own_place i c lt = sym (ap (λ k. k % c) (omega arith) ∙ mod-eq_of_lt {n = i} {m = c} lt)

-- The loop puts the entries of the ring in order.
copied :
    (b : Builder) (i n c : ℕ) (new_queue : List Cue)
    → length new_queue ≡ c
    → i + n ≤ c
    → window blank_cue (copy_queue b i n new_queue) c 0 (i + n)
      ≡ window blank_cue new_queue c 0 i
        ++ window blank_cue b.segment_queue b.capacity (oldest b + i) n
unfolding copy_queue
copied b i zero c new_queue size le =
    ap (window blank_cue new_queue c 0) (add-zero i)
    ∙ sym (append-nil (window blank_cue new_queue c 0 i))
copied b i (suc n) c new_queue size le =
    let v = get_or b.segment_queue ((oldest b + i) % b.capacity) blank_cue in
    let rest = window blank_cue b.segment_queue b.capacity (suc (oldest b + i)) n in
    let more = copy_queue b (i + 1) n (set new_queue i v) in
    ap (window blank_cue more c 0) (shifted i n)
    ∙ copied b (i + 1) n c (set new_queue i v) (length-set new_queue i v ∙ size) (omega arith)
    ∙ ap₂ ◌++◌
        (ap (window blank_cue (set new_queue i v) c 0) (one_more i)
          ∙ window-push blank_cue new_queue c 0 i i v (omega arith) (omega arith)
              (own_place i c (omega arith)))
        (ap (λ h. window blank_cue b.segment_queue b.capacity h n) (omega arith))
    ∙ append_assoc (window blank_cue new_queue c 0 i) (v ∷ []) rest

-- What growing does to a full ring.
abbrev grown : Builder → Builder
grown b = record b {
  segment_queue = copy_queue b 0 b.count (replicate (b.capacity * 2) blank_cue);
  head = b.count;
  capacity = b.capacity * 2;
}

grown_oldest : (n c : ℕ) → n ≡ c → 0 < c → (n + c * 2 - n) % (c * 2) ≡ 0 % (c * 2)
grown_oldest n c full pos =
    mod-eq-sub-mod {n = n + c * 2 - n} {m = c * 2} (omega arith)
    ∙ ap (λ k. k % (c * 2)) (omega arith)

grown-IsValid : (b : Builder) → IsValid b → b.count ≡ b.capacity → IsValid (grown b)
grown-IsValid b v full = ground (
  arith,
  length-copy_queue b 0 b.count (replicate (b.capacity * 2) blank_cue),
  length-replicate (b.capacity * 2) blank_cue,
)

grown-pending : (b : Builder) → IsValid b → b.count ≡ b.capacity → pending (grown b) ≡ pending b
unfolding pending
grown-pending b v full =
    let fresh = replicate (b.capacity * 2) blank_cue in
    let queue = copy_queue b 0 b.count fresh in
    let c = b.capacity * 2 in
    window-mod blank_cue queue c (b.count + c - b.count) 0 b.count
      (grown_oldest b.count b.capacity full v.some_room)
    ∙ ap (window blank_cue queue c 0) (omega arith)
    ∙ copied b 0 b.count c fresh (length-replicate c blank_cue) (ground arith)
    ∙ ap (λ h. window blank_cue b.segment_queue b.capacity h b.count) (omega arith)

-- A builder that is ready for a cue.
pub record HasRoom (b c : Builder) : Type 0 where
  pub valid : IsValid c
  pub room : c.count < c.capacity
  pub same_pending : pending c ≡ pending b

pub grow-HasRoom : (b : Builder) → IsValid b → HasRoom b (grow b)
unfolding grow
grow-HasRoom b v = elim (Bool-cases (b.count == b.capacity)) [
  | inl full ↦ rw full record {
    valid = grown-IsValid b v (ground arith);
    room = ground (arith, v.some_room);
    same_pending = grown-pending b v (ground arith);
  }
  | inr room ↦ rw room record { valid = v; room = ground (arith, v.fits); same_pending = refl }
]
