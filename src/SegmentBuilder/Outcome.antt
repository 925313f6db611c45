-- ===== src/SegmentBuilder/Outcome.antt =====
-- What a push does to the builder of worker/src/vw_segment_builder.c, with the guards that it has
-- passed.
pub mod Steps
use vlc_whisper.Common.{
  ℕ, zero, suc, ◌+◌, ◌-◌, ◌%◌, ◌≡◌, ◌≢◌, ◌⊎◌, inl, inr, refl, ap, ◌∙◌, Bool, true, false, ◌&&◌,
  ◌||◌, Option, none, some, List, [], ◌∷◌, ◌++◌, append_assoc, arith, ◌==◌, if◌then◌else◌, length,
  get_or, take, drop, take-append-drop, Bool-cases,
}
use vlc_whisper.Common.Int.{ℤ, pos, ◌≤ℤ◌, ◌<ℤ◌, ltb_ℤ, leb_ℤ}
use vlc_whisper.Protocol.Types.{Pointer}
use vlc_whisper.SegmentBuilder.{
  Builder, Heap, Entry, Cue, blank_entry, history_capacity, grow, write_cue, enqueue,
  commit_history, apply_tail_trim, is_near_cue, get_last_segment,
}
use vlc_whisper.SegmentBuilder.Text.{
  is_blank, skip_blanks, strings_equal, contains, tail_prefix_len,
}
use vlc_whisper.SegmentBuilder.Push.{
  Heaps, undropped, against_text, against_pointer, against_cue, against_pending, against_entry,
  against_history, queue_phrase, deduplicate, is_covered, trim, is_refused_text, push_hypothesis,
  time_matches,
}
use vlc_whisper.SegmentBuilder.Outcome.Steps.{emit, Emits, Outcome, deduplicate-Outcome}

-- A push that queues: the guards that its phrase has passed, and what it queues.
pub record Accepted (b : Builder) (text : List ℕ) (start end : ℤ) (r : Bool × Builder)
    : Type 0 where
  pub not_negative : pos 0 ≤ℤ start
  pub in_order : start <ℤ end
  pub speech : is_refused_text (trim text) ≡ false
  pub uncovered : is_covered b start end ≡ false
  pub emits : Emits b (trim text) end r

refused_empty : (clean : List ℕ) → is_refused_text clean ≡ false → clean ≢ []
unfolding is_refused_text
refused_empty [] e = ground arith
refused_empty (c ∷ cs) e = λ same. ground arith

accept_of :
    (heaps : Heaps) (b : Builder) (text : List ℕ) (start end : ℤ)
    → pos 0 ≤ℤ start
    → start <ℤ end
    → is_refused_text (trim text) ≡ false
    → is_covered b start end ≡ false
    → Outcome b (trim text) end (deduplicate heaps b (trim text) start end)
    → (deduplicate heaps b (trim text) start end ≡ (false, b))
      ⊎ Accepted b text start end (deduplicate heaps b (trim text) start end)
accept_of heaps b text start end nn ordered speech uncovered (inl refused) = inl refused
accept_of heaps b text start end nn ordered speech uncovered (inr emits) = inr record {
  not_negative = nn;
  in_order = ordered;
  speech = speech;
  uncovered = uncovered;
  emits = emits;
}

pub push_cases :
    (heaps : Heaps) (b : Builder) (text : List ℕ) (start end : ℤ)
    → (push_hypothesis heaps b (some text) start end ≡ (false, b))
      ⊎ Accepted b text start end (push_hypothesis heaps b (some text) start end)
unfolding push_hypothesis
push_cases heaps b text start end = elim (Bool-cases (ltb_ℤ start (pos 0) || leb_ℤ end start)) [
  | inl wrong ↦ rw wrong (inl refl)
  | inr ordered ↦ elim (Bool-cases (is_refused_text (trim text))) [
    | inl refused ↦ rw (ordered, refused) (inl refl)
    | inr speech ↦ elim (Bool-cases (is_covered b start end)) [
      | inl covered ↦ rw (ordered, speech, covered) (inl refl)
      | inr uncovered ↦
          rw (ordered, speech, uncovered)
            (accept_of heaps b text start end (ground arith) (ground arith) speech uncovered (
              deduplicate-Outcome heaps b (trim text) start end (refused_empty (trim text) speech)))
    ]
  ]
]
