-- ===== src/SegmentBuilder/Effect.antt =====
-- What vw_segment_builder_push_hypothesis of worker/src/vw_segment_builder.c does to the pending cues
-- and to the end of the captioned audio.
use mathlib.Core.Path.{subst}
use vlc_whisper.Common.{
  ℕ, ◌≡◌, ◌≢◌, ◌⊎◌, inl, inr, refl, ap, sym, ◌∙◌, Bool, true, false, some, List, [], ◌∷◌, ◌++◌,
  arith, length-set, take, if◌then◌else◌,
}
use vlc_whisper.Common.Int.{ℤ, pos, ◌≤ℤ◌, ◌<ℤ◌, ltb_ℤ, +ℤ_parts}
use vlc_whisper.Protocol.Utf8.{utf8_safe_len}
use vlc_whisper.SegmentBuilder.{
  Builder, Cue, Entry, dedup_time_tolerance_us, grow, write_cue, commit_history,
}
use vlc_whisper.SegmentBuilder.Push.{Heaps, push_hypothesis, is_covered, trim}
use vlc_whisper.SegmentBuilder.Outcome.{Accepted, push_cases}
use vlc_whisper.SegmentBuilder.Outcome.Steps.{emit}
use vlc_whisper.SegmentBuilder.Pending.{new_cue, write_cue-pending, write_cue-IsValid}
use vlc_whisper.SegmentBuilder.Pending.Growth.{IsValid, pending, grow-HasRoom}

commit-pending :
    (b : Builder) (text : List ℕ) (start end : ℤ)
    → pending (commit_history b text start end) ≡ pending b
unfolding commit_history pending
commit-pending b text start end = refl

-- What is written to the history.
abbrev pub new_entry : List ℕ → ℤ → ℤ → Entry
new_entry text start end = record {
  start_pts_us = start;
  end_pts_us = end;
  text = take (utf8_safe_len text 1023) text;
}

commit-IsValid :
    (b : Builder) (text : List ℕ) (start end : ℤ)
    → IsValid b
    → IsValid (commit_history b text start end)
unfolding commit_history
commit-IsValid b text start end v =
    ground (arith, length-set b.history b.history_head (new_entry text start end))

grow_ids :
    (b : Builder) (text : List ℕ) (start end : ℤ)
    → new_cue (grow b) text start end ≡ new_cue b text start end
unfolding grow
grow_ids b text start end = ground arith

grow_covered : (b : Builder) → (grow b).covered_end_us ≡ b.covered_end_us
unfolding grow
grow_covered b = ground arith

covered_after :
    (b : Builder) (text : List ℕ) (start end : ℤ)
    → (emit b text start end).covered_end_us
      ≡ (if ltb_ℤ (grow b).covered_end_us end then end else (grow b).covered_end_us)
unfolding emit commit_history write_cue
covered_after b text start end = refl

pub emit-IsValid :
    (b : Builder) (text : List ℕ) (start end : ℤ) → IsValid b → IsValid (emit b text start end)
unfolding emit
emit-IsValid b text start end v =
    let r = grow-HasRoom b v in
    commit-IsValid (write_cue (grow b) text start end) text start end
      (write_cue-IsValid (grow b) text start end r.valid r.room)

pub emit-pending :
    (b : Builder) (text : List ℕ) (start end : ℤ)
    → IsValid b
    → pending (emit b text start end) ≡ pending b ++ (new_cue b text start end ∷ [])
unfolding emit
emit-pending b text start end v =
    let r = grow-HasRoom b v in
    commit-pending (write_cue (grow b) text start end) text start end
    ∙ write_cue-pending (grow b) text start end r.valid r.room
    ∙ ap (λ cs. cs ++ (new_cue (grow b) text start end ∷ [])) r.same_pending
    ∙ ap (λ c. pending b ++ (c ∷ [])) (grow_ids b text start end)

pub emit_covered :
    (b : Builder) (text : List ℕ) (start end : ℤ)
    → b.covered_end_us <ℤ end
    → (emit b text start end).covered_end_us ≡ end
emit_covered b text start end later =
    covered_after b text start end
    ∙ ap (λ c. if ltb_ℤ c end then end else c) (grow_covered b)
    ∙ ap (λ t. if t then end else b.covered_end_us) {x = ltb_ℤ b.covered_end_us end} {y = true}
        (ground arith)

-- A phrase that is let through ends behind the captioned audio.
pub accepted_later :
    (b : Builder) (start end : ℤ)
    → pos 0 ≤ℤ start
    → start <ℤ end
    → is_covered b start end ≡ false
    → b.covered_end_us <ℤ end
unfolding is_covered
accepted_later b start end nn ordered uncovered =
    ground (arith, +ℤ_parts b.covered_end_us dedup_time_tolerance_us)

-- What a push that queues does, with the cue that it queues.
pub record Queues (b : Builder) (text : List ℕ) (start end : ℤ) (r : Bool × Builder) : Type 0 where
  pub cue : Cue
  pub before : List ℕ
  pub shown : List ℕ
  pub done : r.0 ≡ true
  pub valid : IsValid r.1
  pub appended : pending r.1 ≡ pending b ++ (cue ∷ [])
  pub identified : cue.segment_id ≡ b.next_segment_id
  pub cue_text : cue.text_utf8 ≡ some shown
  pub some_text : shown ≢ []
  pub end_of_phrase : before ++ shown ≡ trim text
  pub lasts : cue.start_pts_us <ℤ cue.end_pts_us
  pub end_kept : cue.end_pts_us ≡ end
  pub positive : pos 0 <ℤ end
  pub later : b.covered_end_us <ℤ end
  pub covered : r.1.covered_end_us ≡ end

Queues-of :
    (b : Builder) (text : List ℕ) (start end : ℤ) (r : Bool × Builder)
    → IsValid b
    → Accepted b text start end r
    → Queues b text start end r
Queues-of b text start end r v a =
    let e = a.emits in
    let positive : pos 0 <ℤ end = omega (arith, a.not_negative, a.in_order) in
    let later = accepted_later b start end a.not_negative a.in_order a.uncovered in
    subst (Queues b text start end) (sym e.result) record {
      cue = new_cue b e.text e.start end;
      before = e.before;
      shown = e.text;
      done = refl;
      valid = emit-IsValid b e.text e.start end v;
      appended = emit-pending b e.text e.start end v;
      identified = refl;
      cue_text = refl;
      some_text = e.shown;
      end_of_phrase = e.suffix;
      lasts = e.lasts;
      end_kept = refl;
      positive = positive;
      later = later;
      covered = emit_covered b e.text e.start end later;
    }

-- A push either fails and leaves the builder as it was, or queues one cue behind the pending ones:
-- its text is not empty and ends the trimmed text of the phrase, it starts before it ends, it ends
-- where the phrase ends, which is behind all captioned audio, and the captioned audio then ends
-- there. This holds whichever allocations fail.
pub push-Queues :
    (heaps : Heaps) (b : Builder) (text : List ℕ) (start end : ℤ)
    → IsValid b
    → (push_hypothesis heaps b (some text) start end ≡ (false, b))
      ⊎ Queues b text start end (push_hypothesis heaps b (some text) start end)
push-Queues heaps b text start end v = elim (push_cases heaps b text start end) [
  | inl refused ↦ inl refused
  | inr a ↦ inr (Queues-of b text start end (push_hypothesis heaps b (some text) start end) v a)
]
