-- ===== src/SegmentBuilder/Coverage.antt =====
-- Which phrases vw_segment_builder_push_hypothesis of worker/src/vw_segment_builder.c lets through by
-- their times.
use mathlib.Core.Path.{subst}
use vlc_whisper.Common.{
  ℕ, ◌≡◌, inl, inr, refl, ap, sym, true, false, ◌||◌, some, List, arith, Bool-cases,
}
use vlc_whisper.Common.Int.{ℤ, pos, ◌≤ℤ◌, ◌<ℤ◌, ◌+ℤ◌, ltb_ℤ, leb_ℤ}
use vlc_whisper.SegmentBuilder.{Builder, dedup_time_tolerance_us}
use vlc_whisper.SegmentBuilder.Push.{Heaps, is_covered, trim, is_refused_text, push_hypothesis}
use vlc_whisper.SegmentBuilder.Pending.Growth.{IsValid}
use vlc_whisper.SegmentBuilder.Effect.{push-Queues}

refused_when_covered :
    (heaps : Heaps) (b : Builder) (text : List ℕ) (start end : ℤ)
    → is_covered b start end ≡ true
    → push_hypothesis heaps b (some text) start end ≡ (false, b)
unfolding push_hypothesis
refused_when_covered heaps b text start end covered =
    elim (Bool-cases (ltb_ℤ start (pos 0) || leb_ℤ end start)) [
      | inl wrong ↦ rw wrong refl
      | inr ordered ↦ elim (Bool-cases (is_refused_text (trim text))) [
        | inl refused ↦ rw (ordered, refused) refl
        | inr speech ↦ rw (ordered, speech, covered) refl
      ]
    ]

within_covered :
    (b : Builder) (start end : ℤ)
    → pos 0 ≤ℤ b.covered_end_us
    → start <ℤ b.covered_end_us
    → end ≤ℤ (b.covered_end_us +ℤ dedup_time_tolerance_us)
    → is_covered b start end ≡ true
unfolding is_covered
within_covered b start end nn inside ends = ground arith

-- Once a phrase is accepted, every phrase that starts before its end and ends at most 0.5 seconds
-- behind it is refused, whatever its text, and leaves the builder as it was: a second recognition of
-- the same audio shows nothing.
pub push-again :
    (heaps again : Heaps) (b : Builder) (text other : List ℕ) (start end other_start other_end : ℤ)
    → IsValid b
    → (push_hypothesis heaps b (some text) start end).0 ≡ true
    → other_start <ℤ end
    → other_end ≤ℤ (end +ℤ dedup_time_tolerance_us)
    → let after = (push_hypothesis heaps b (some text) start end).1 in
      push_hypothesis again after (some other) other_start other_end ≡ (false, after)
push-again heaps again b text other start end other_start other_end v done inside ends =
    let after = (push_hypothesis heaps b (some text) start end).1 in
    elim (push-Queues heaps b text start end v) [
      | inl refused ↦ ground (arith, ap (λ r. r.0) refused)
      | inr q ↦ refused_when_covered again after other other_start other_end (
          within_covered after other_start other_end
            (subst (λ e. pos 0 ≤ℤ e) (sym q.covered) (omega (arith, q.positive)))
            (subst (λ e. other_start <ℤ e) (sym q.covered) inside)
            (subst (λ e. other_end ≤ℤ (e +ℤ dedup_time_tolerance_us)) (sym q.covered) ends))
    ]
