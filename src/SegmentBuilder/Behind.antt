-- ===== src/SegmentBuilder/Behind.antt =====
-- That every cue that the builder of worker/src/vw_segment_builder.c compares with lies within the
-- captioned audio, in every state that a session reaches.
use native.Mathlib.Nat.{mod-eq_of_lt, mod-eq-sub-mod}
use native.Mathlib.Decide.{dec_lt}
use mathlib.Core.Path.{subst}
use mathlib.Core.Option.{some-injective}
use vlc_whisper.Common.{
  ℕ, zero, suc, ◌+◌, ◌-◌, ◌%◌, ◌≤◌, ◌<◌, ◌≡◌, ◌≢◌, inl, inr, ap, sym, ◌∙◌, false, ◌||◌, some, List,
  arith, ltb, ◌==◌, if◌then◌else◌, length, get_or, set, get_or-set_self, get_or-set_ne, Bool-cases,
}
use vlc_whisper.Common.Int.{ℤ, ◌≤ℤ◌, ◌<ℤ◌, ltb_ℤ}
use vlc_whisper.Common.Ring.{mod-add-ne}
use vlc_whisper.SegmentBuilder.{
  Builder, Cue, Entry, blank_cue, blank_entry, get_last_segment, grow, write_cue, commit_history,
  clear,
}
use vlc_whisper.SegmentBuilder.Push.{Heaps, push_hypothesis}
use vlc_whisper.SegmentBuilder.Outcome.{push_cases}
use vlc_whisper.SegmentBuilder.Outcome.Steps.{emit}
use vlc_whisper.SegmentBuilder.Pending.{popped, new_cue}
use vlc_whisper.SegmentBuilder.Pending.Growth.{IsValid, oldest, grow-HasRoom}
use vlc_whisper.SegmentBuilder.Effect.{new_entry, emit_covered, accepted_later}
use vlc_whisper.SegmentBuilder.NewAudio.{IsBefore, IsBehind}

last_place : (h c : ℕ) → h < c → ((h + 1) % c + c - 1) % c ≡ h
last_place h c inside = elim (dec_lt (h + 1) c) [
  | yes more ↦
      ap (λ k. (k + c - 1) % c) (mod-eq_of_lt {n = h + 1} {m = c} more)
      ∙ mod-eq-sub-mod {n = h + 1 + c - 1} {m = c} (omega arith)
      ∙ ap (λ k. k % c) {x = h + 1 + c - 1 - c} {y = h} (omega arith)
      ∙ mod-eq_of_lt {n = h} {m = c} inside
  | no last ↦
      ap (λ k. (k + c - 1) % c)
        (mod-eq-sub-mod {n = h + 1} {m = c} (omega arith)
          ∙ ap (λ k. k % c) {x = h + 1 - c} {y = 0} (omega arith)
          ∙ mod-eq_of_lt {n = 0} {m = c} (omega arith))
      ∙ mod-eq_of_lt {n = 0 + c - 1} {m = c} (omega arith)
      ∙ omega arith
]

-- The cue that was written is the last one.
last_written :
    (b : Builder) (text : List ℕ) (start end : ℤ)
    → IsValid b
    → get_last_segment (commit_history (write_cue b text start end) text start end)
      ≡ some (new_cue b text start end)
unfolding get_last_segment write_cue commit_history
last_written b text start end v =
    let cue = new_cue b text start end in
    let queue = set b.segment_queue b.head cue in
    let stored : (b.count + 1 == 0 || b.capacity == 0) ≡ false = ground (arith, v.some_room) in
    rw stored (
      ap (λ i. some (get_or queue i blank_cue)) (last_place b.head b.capacity v.head_inside)
      ∙ ap some (
          get_or-set_self b.segment_queue b.head cue blank_cue
            (ground (arith, v.size, v.head_inside))))

-- The place of the newest entry, and of the others.
newest_place : (h : ℕ) → h < 16 → ((h + 1) % 16 + 16 - 1 - 0) % 16 ≡ h
newest_place h inside = omega arith

older_place :
    (h i : ℕ)
    → h < 16
    → suc i < 16
    → (((h + 1) % 16 + 16 - 1 - suc i) % 16 ≡ (h + 16 - 1 - i) % 16) × ((h + 16 - 1 - i) % 16 ≢ h)
older_place h i inside lt = (omega arith, λ e. omega arith)

IsBefore-mono :
    (covered covered' start end : ℤ)
    → IsBefore covered start end
    → covered <ℤ covered'
    → IsBefore covered' start end
IsBefore-mono covered covered' start end before lt = record {
  lasts = before.lasts;
  inside = omega (arith, before.inside);
}

entry_at : List Entry → ℕ → ℕ → Entry
entry_at history h i = get_or history ((h + 16 - 1 - i) % 16) blank_entry

entries_after :
    (history : List Entry) (h n : ℕ) (entry : Entry) (covered covered' : ℤ)
    → length history ≡ 16
    → h < 16
    → n ≤ 16
    → covered <ℤ covered'
    → IsBefore covered' entry.start_pts_us entry.end_pts_us
    → ((i : ℕ)
        → i < n
        → IsBefore covered (entry_at history h i).start_pts_us (entry_at history h i).end_pts_us)
    → (i : ℕ) → i < (if ltb n 16 then n + 1 else n)
    → let hist = entry_at (set history h entry) ((h + 1) % 16) i in
      IsBefore covered' hist.start_pts_us hist.end_pts_us
unfolding entry_at
entries_after history h n entry covered covered' size inside fits lt before older zero i_lt =
    subst (λ e. IsBefore covered' e.start_pts_us e.end_pts_us)
      (sym (
        ap (λ k. get_or (set history h entry) k blank_entry) (newest_place h inside)
        ∙ get_or-set_self history h entry blank_entry (omega arith)))
      before
entries_after history h n entry covered covered' size inside fits lt before older (suc i) i_lt =
    let i_old : i < n = ground arith in
    let (same, other) = older_place h i inside (ground arith) in
    subst (λ e. IsBefore covered' e.start_pts_us e.end_pts_us)
      (sym (
        ap (λ k. get_or (set history h entry) k blank_entry) same
        ∙ get_or-set_ne history entry blank_entry (λ e. other (sym e))))
      (IsBefore-mono covered covered' _ _ (older i i_old) lt)

-- The second half of `IsBehind`.
abbrev EntriesBehind : Builder → Type 0
EntriesBehind b =
    (i : ℕ)
    → i < b.history_count
    → let hist = get_or b.history ((b.history_head + 16 - 1 - i) % 16) blank_entry in
      IsBefore b.covered_end_us hist.start_pts_us hist.end_pts_us

grow-EntriesBehind : (b : Builder) → EntriesBehind b → EntriesBehind (grow b)
unfolding grow
grow-EntriesBehind b older = elim (Bool-cases (b.count == b.capacity)) [
  | inl full ↦ rw full older
  | inr room ↦ rw room older
]

commit-EntriesBehind :
    (b : Builder) (text : List ℕ) (start end : ℤ)
    → IsValid b
    → EntriesBehind b
    → start <ℤ end
    → b.covered_end_us <ℤ end
    → EntriesBehind (commit_history (write_cue b text start end) text start end)
unfolding commit_history write_cue entry_at
commit-EntriesBehind b text start end v older lasts later =
    let covered' = if ltb_ℤ b.covered_end_us end then end else b.covered_end_us in
    let covers : covered' ≡ end = ground arith in
    entries_after b.history b.history_head b.history_count (new_entry text start end)
      b.covered_end_us covered' v.history_size v.history_inside v.history_fits
      (subst (λ c. b.covered_end_us <ℤ c) (sym covers) later)
      record { lasts = lasts; inside = subst (λ c. end ≤ℤ c) (sym covers) (omega arith) } older

grow_covered : (b : Builder) → (grow b).covered_end_us ≡ b.covered_end_us
unfolding grow
grow_covered b = ground arith

emit-IsBehind :
    (b : Builder) (text : List ℕ) (start end : ℤ)
    → IsValid b
    → IsBehind b
    → start <ℤ end
    → b.covered_end_us <ℤ end
    → IsBehind (emit b text start end)
unfolding emit
emit-IsBehind b text start end v behind lasts later =
    let r = grow-HasRoom b v in
    record {
      last_cue = λ last e.
          subst (λ c. IsBefore (emit b text start end).covered_end_us c.start_pts_us c.end_pts_us)
            (some-injective _ _ (sym (last_written (grow b) text start end r.valid) ∙ e))
            (record {
              lasts = lasts;
              inside =
                  subst (λ c. end ≤ℤ c) (sym (emit_covered b text start end later)) (omega arith);
            });
      entries =
          commit-EntriesBehind (grow b) text start end r.valid (grow-EntriesBehind b behind.entries)
            lasts (subst (λ c. c <ℤ end) (sym (grow_covered b)) later);
    }

-- A push keeps every cue that phrases are compared with, the last pending one and those of the
-- history, within the captioned audio.
pub push-IsBehind :
    (heaps : Heaps) (b : Builder) (text : List ℕ) (start end : ℤ)
    → IsValid b
    → IsBehind b
    → IsBehind (push_hypothesis heaps b (some text) start end).1
push-IsBehind heaps b text start end v behind = elim (push_cases heaps b text start end) [
  | inl refused ↦ subst (λ r. IsBehind r.1) (sym refused) behind
  | inr a ↦
      let e = a.emits in
      subst (λ r. IsBehind r.1) (sym e.result)
        (emit-IsBehind b e.text e.start end v behind e.lasts
          (accepted_later b start end a.not_negative a.in_order a.uncovered))
]

place_kept :
    (b : Builder)
    → IsValid b
    → 1 < b.count
    → get_or
        (set b.segment_queue (oldest b % b.capacity) blank_cue)
        ((b.head + b.capacity - 1) % b.capacity)
        blank_cue
      ≡ get_or b.segment_queue ((b.head + b.capacity - 1) % b.capacity) blank_cue
place_kept b v more = get_or-set_ne b.segment_queue blank_cue blank_cue (λ e.
    mod-add-ne (oldest b) (b.count - 1) b.capacity (omega arith) (omega (arith, v.fits))
      (e ∙ ap (λ k. k % b.capacity) (omega (arith, v.fits))))

popped_last :
    (b : Builder) (last : Cue)
    → IsValid b
    → get_last_segment (popped b) ≡ some last
    → get_last_segment b ≡ some last
unfolding get_last_segment
popped_last b last v e = elim (Bool-cases (b.count - 1 == 0)) [
  | inl gone ↦ ground arith
  | inr more ↦ ground (arith, place_kept b v (ground arith))
]

-- A pop does the same.
pub popped-IsBehind : (b : Builder) → IsValid b → IsBehind b → IsBehind (popped b)
popped-IsBehind b v behind = record {
  last_cue = λ last e. behind.last_cue last (popped_last b last v e);
  entries = behind.entries;
}

-- A builder that has just been cleared compares with nothing.
pub clear-IsBehind : (b : Builder) → IsBehind (clear b)
unfolding clear get_last_segment
clear-IsBehind b = record {
  last_cue = λ last e. ground arith;
  entries = λ i lt. absurd (omega arith);
}
