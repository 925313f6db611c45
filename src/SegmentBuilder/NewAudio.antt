-- ===== src/SegmentBuilder/NewAudio.antt =====
-- That vw_segment_builder_push_hypothesis of worker/src/vw_segment_builder.c lets new audio through.
use vlc_whisper.Common.{
  ℕ, zero, suc, ◌+◌, ◌-◌, ◌%◌, ◌≤◌, ◌<◌, ◌≡◌, refl, ap, ◌∙◌, true, false, ◌||◌, Option, none, some,
  List, arith, get_or,
}
use vlc_whisper.Common.Int.{ℤ, pos, ◌≤ℤ◌, ◌<ℤ◌, ◌+ℤ◌, ltb_ℤ, leb_ℤ, +ℤ_parts, -ℤ_parts}
use vlc_whisper.Protocol.Types.{Pointer}
use vlc_whisper.SegmentBuilder.{
  Builder, Cue, Entry, Heap, blank_entry, dedup_time_tolerance_us, get_last_segment, enqueue,
  apply_tail_trim, is_near_cue,
}
use vlc_whisper.SegmentBuilder.Push.{
  Heaps, against_text, against_pointer, against_cue, against_pending, against_entry,
  against_history, queue_phrase, deduplicate, is_covered, trim, is_refused_text, push_hypothesis,
  time_matches,
}
use vlc_whisper.SegmentBuilder.Outcome.Steps.{emit}
use vlc_whisper.SegmentBuilder.Pending.Growth.{IsValid}

-- A cue that lasts and ends within the captioned audio.
pub record IsBefore (covered start end : ℤ) : Type 0 where
  pub lasts : start <ℤ end
  pub inside : end ≤ℤ covered

no_match :
    (covered start end cue_start cue_end : ℤ)
    → IsBefore covered cue_start cue_end
    → (covered +ℤ dedup_time_tolerance_us) <ℤ start
    → time_matches start end cue_start cue_end ≡ false
unfolding time_matches
no_match covered start end cue_start cue_end before far = ground (
  arith,
  before.lasts,
  before.inside,
  +ℤ_parts covered dedup_time_tolerance_us,
  -ℤ_parts start cue_start,
  -ℤ_parts cue_start start,
)

not_near :
    (covered start end cue_start cue_end : ℤ)
    → IsBefore covered cue_start cue_end
    → (covered +ℤ dedup_time_tolerance_us) <ℤ start
    → is_near_cue start end cue_start cue_end ≡ false
unfolding is_near_cue
not_near covered start end cue_start cue_end before far = ground (
  arith,
  before.lasts,
  before.inside,
  +ℤ_parts covered dedup_time_tolerance_us,
  +ℤ_parts cue_end dedup_time_tolerance_us,
  -ℤ_parts cue_end dedup_time_tolerance_us,
)

passes_text :
    (heap : Heap) (b : Builder) (clean : List ℕ) (start end : ℤ) (cue_text : List ℕ)
    (cue_start cue_end : ℤ)
    → is_near_cue start end cue_start cue_end ≡ false
    → against_text heap b clean start end cue_text cue_start cue_end false ≡ none
unfolding against_text apply_tail_trim
passes_text heap b clean start end cue_text cue_start cue_end far = rw far refl

-- Every cue that a phrase is compared with lies within the captioned audio.
pub record IsBehind (b : Builder) : Type 0 where
  pub last_cue :
      (last : Cue)
      → get_last_segment b ≡ some last
      → IsBefore b.covered_end_us last.start_pts_us last.end_pts_us
  pub entries :
      (i : ℕ)
      → i < b.history_count
      → let hist = get_or b.history ((b.history_head + 16 - 1 - i) % 16) blank_entry in
        IsBefore b.covered_end_us hist.start_pts_us hist.end_pts_us

passes_pointer :
    (heap : Heap) (b : Builder) (clean : List ℕ) (start end : ℤ) (last : Cue) (text : Pointer)
    → IsBefore b.covered_end_us last.start_pts_us last.end_pts_us
    → (b.covered_end_us +ℤ dedup_time_tolerance_us) <ℤ start
    → against_pointer heap b clean start end last text ≡ none
unfolding against_pointer
passes_pointer heap b clean start end last none before far = refl
passes_pointer heap b clean start end last (some text) before far =
    let s = last.start_pts_us in
    let e = last.end_pts_us in
    ap (against_text heap b clean start end text s e)
      (no_match b.covered_end_us start end s e before far)
    ∙ passes_text heap b clean start end text s e
        (not_near b.covered_end_us start end s e before far)

passes_cue :
    (heap : Heap) (b : Builder) (clean : List ℕ) (start end : ℤ) (last : Option Cue)
    → ((c : Cue) → last ≡ some c → IsBefore b.covered_end_us c.start_pts_us c.end_pts_us)
    → (b.covered_end_us +ℤ dedup_time_tolerance_us) <ℤ start
    → against_cue heap b clean start end last ≡ none
unfolding against_cue
passes_cue heap b clean start end none before far = refl
passes_cue heap b clean start end (some last) before far =
    passes_pointer heap b clean start end last last.text_utf8 (before last refl) far

passes_pending :
    (heap : Heap) (b : Builder) (clean : List ℕ) (start end : ℤ)
    → IsBehind b
    → (b.covered_end_us +ℤ dedup_time_tolerance_us) <ℤ start
    → against_pending heap b clean start end ≡ none
unfolding against_pending
passes_pending heap b clean start end behind far =
    passes_cue heap b clean start end (get_last_segment b) behind.last_cue far

passes_entry :
    (heap : Heap) (b : Builder) (clean : List ℕ) (start end : ℤ) (hist : Entry)
    → IsBefore b.covered_end_us hist.start_pts_us hist.end_pts_us
    → (b.covered_end_us +ℤ dedup_time_tolerance_us) <ℤ start
    → against_entry heap b clean start end hist ≡ none
unfolding against_entry
passes_entry heap b clean start end hist before far =
    rw (no_match b.covered_end_us start end hist.start_pts_us hist.end_pts_us before far) refl

passes_history :
    (heaps : ℕ → Heap) (b : Builder) (clean : List ℕ) (start end : ℤ) (i n : ℕ)
    → IsBehind b
    → i + n ≤ b.history_count
    → (b.covered_end_us +ℤ dedup_time_tolerance_us) <ℤ start
    → against_history heaps b clean start end i n ≡ none
unfolding against_history
passes_history heaps b clean start end i zero behind le far = refl
passes_history heaps b clean start end i (suc n) behind le far =
    let hist = get_or b.history ((b.history_head + 16 - 1 - i) % 16) blank_entry in
    let before = behind.entries i (omega arith) in
    rw (passes_entry (heaps i) b clean start end hist before far, against_history)
      (passes_history heaps b clean start end (suc i) n behind (omega arith) far)

new_uncovered :
    (b : Builder) (start end : ℤ)
    → (b.covered_end_us +ℤ dedup_time_tolerance_us) <ℤ start
    → is_covered b start end ≡ false
unfolding is_covered
new_uncovered b start end far = ground (arith, +ℤ_parts b.covered_end_us dedup_time_tolerance_us)

queues_new :
    (heap : Heap) (b : Builder) (clean : List ℕ) (start end : ℤ)
    → IsValid b
    → heap.copy ≡ true
    → heap.new_queue ≡ true
    → start <ℤ end
    → (b.covered_end_us +ℤ dedup_time_tolerance_us) <ℤ start
    → queue_phrase heap b clean start end ≡ (true, emit b clean start end)
unfolding queue_phrase enqueue emit
queues_new heap b clean start end v copy new_queue ordered far =
    ground (arith, v.some_room, +ℤ_parts b.covered_end_us dedup_time_tolerance_us)

passes_all :
    (heaps : Heaps) (b : Builder) (clean : List ℕ) (start end : ℤ)
    → IsBehind b
    → (b.covered_end_us +ℤ dedup_time_tolerance_us) <ℤ start
    → deduplicate heaps b clean start end ≡ queue_phrase heaps.phrase b clean start end
unfolding deduplicate
passes_all heaps b clean start end behind far =
    ap
      (λ o. elim o [
        | some r ↦ r
        | none ↦ elim (against_history heaps.turns b clean start end 0 b.history_count) [
          | some r ↦ r
          | none ↦ queue_phrase heaps.phrase b clean start end
        ]
      ])
      (passes_pending heaps.pending b clean start end behind far)
    ∙ ap (λ o. elim o [ some r ↦ r | none ↦ queue_phrase heaps.phrase b clean start end ])
        (passes_history heaps.turns b clean start end 0 b.history_count behind (omega arith) far)

-- A phrase of speech that starts more than 0.5 seconds behind the captioned audio is queued in full
-- with its own times, when memory suffices, whatever was shown before.
pub push-new :
    (heaps : Heaps) (b : Builder) (text : List ℕ) (start end : ℤ)
    → IsValid b
    → IsBehind b
    → heaps.phrase.copy ≡ true
    → heaps.phrase.new_queue ≡ true
    → pos 0 ≤ℤ start
    → start <ℤ end
    → is_refused_text (trim text) ≡ false
    → (b.covered_end_us +ℤ dedup_time_tolerance_us) <ℤ start
    → push_hypothesis heaps b (some text) start end ≡ (true, emit b (trim text) start end)
unfolding push_hypothesis
push-new heaps b text start end v behind copy new_queue nn ordered speech far =
    let guard : (ltb_ℤ start (pos 0) || leb_ℤ end start) ≡ false = ground arith in
    rw (guard, speech, new_uncovered b start end far)
      (passes_all heaps b (trim text) start end behind far
        ∙ queues_new heaps.phrase b (trim text) start end v copy new_queue ordered far)
