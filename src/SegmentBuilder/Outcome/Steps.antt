-- ===== src/SegmentBuilder/Outcome/Steps.antt =====
-- What the steps of vw_segment_builder_push_hypothesis of worker/src/vw_segment_builder.c do to the
-- builder: nothing, or one cue queued and committed to the history.
use vlc_whisper.Common.{
  ℕ, zero, suc, ◌+◌, ◌-◌, ◌%◌, ◌≡◌, ◌≢◌, ◌⊎◌, inl, inr, refl, ap, ◌∙◌, Bool, true, false, ◌&&◌,
  ◌||◌, Option, none, some, List, [], ◌∷◌, ◌++◌, append_assoc, arith, ◌==◌, if◌then◌else◌, length,
  get_or, take, drop, take-append-drop, Bool-cases,
}
use vlc_whisper.Common.Int.{ℤ, ◌<ℤ◌, ltb_ℤ, leb_ℤ}
use vlc_whisper.Protocol.Types.{Pointer}
use vlc_whisper.SegmentBuilder.{
  Builder, Heap, Entry, Cue, blank_entry, history_capacity, grow, write_cue, enqueue,
  commit_history, apply_tail_trim, is_near_cue, get_last_segment,
}
use vlc_whisper.SegmentBuilder.Text.{
  is_blank, skip_blanks, strings_equal, contains, tail_prefix_len,
}
use vlc_whisper.SegmentBuilder.Push.{
  Heaps, undropped, against_text, against_pointer, against_cue, against_pending, against_entry,
  against_history, queue_phrase, deduplicate, time_matches,
}

-- The builder after a cue is queued and committed.
unfoldable pub emit : Builder → List ℕ → ℤ → ℤ → Builder
unfolding commit_history write_cue grow
emit b text start end = commit_history (write_cue (grow b) text start end) text start end

-- The cue ends with the phrase and shows some end of its text.
pub record Emits (b : Builder) (clean : List ℕ) (end : ℤ) (r : Bool × Builder) : Type 0 where
  pub before : List ℕ
  pub text : List ℕ
  pub start : ℤ
  pub suffix : before ++ text ≡ clean
  pub shown : text ≢ []
  pub lasts : start <ℤ end
  pub result : r ≡ (true, emit b text start end)

abbrev pub Outcome : Builder → List ℕ → ℤ → Bool × Builder → Type 0
Outcome b clean end r = (r ≡ (false, b)) ⊎ Emits b clean end r

-- The same where the function may go on.
abbrev pub Settled : Builder → List ℕ → ℤ → Option (Bool × Builder) → Type 0
Settled b clean end none = Unit
Settled b clean end (some r) = Outcome b clean end r

skip_blanks_suffix : (xs : List ℕ) → (before : List ℕ) × (before ++ skip_blanks xs ≡ xs)
unfolding skip_blanks
skip_blanks_suffix [] = ([], refl)
skip_blanks_suffix (c ∷ cs) =
    let (before, e) = skip_blanks_suffix cs in
    elim (Bool-cases (is_blank c)) [
      | inl t ↦ (c ∷ before, rw t (ap (◌∷◌ c) e))
      | inr f ↦ ([], rw f refl)
    ]

pub enqueue_cases :
    (heap : Heap) (b : Builder) (text : List ℕ) (start end : ℤ)
    → (enqueue heap b text start end ≡ (false, b))
      ⊎ (enqueue heap b text start end ≡ (true, write_cue (grow b) text start end))
unfolding enqueue
enqueue_cases heap b text start end = ground arith

trimmed_suffix :
    (m : ℕ) (text : List ℕ) → (before : List ℕ) × (before ++ skip_blanks (drop m text) ≡ text)
trimmed_suffix m text =
    let (before, e) = skip_blanks_suffix (drop m text) in
    (
      take m text ++ before,
      append_assoc (take m text) before (skip_blanks (drop m text))
          ∙ ap (◌++◌ (take m text)) e
          ∙ take-append-drop m text,
    )

trim_queued :
    (heap : Heap) (b : Builder) (clean before text : List ℕ) (start end : ℤ)
    → before ++ text ≡ clean
    → text ≢ []
    → start <ℤ end
    → Settled b clean end (
        undropped (
          let (queued, b') = enqueue heap b text start end in
          if queued then some (false, commit_history b' text start end) else none))
unfolding emit
trim_queued heap b clean before text start end e shown lt =
    elim (enqueue_cases heap b text start end) [
      | inl failed ↦ rw failed tt
      | inr ok ↦ rw ok (
          inr record {
            before = before;
            text = text;
            start = start;
            suffix = e;
            shown = shown;
            lasts = lt;
            result = refl;
          })
    ]

apply_tail_trim-Settled :
    (heap : Heap) (b : Builder) (clean : List ℕ) (start end : ℤ) (cue_text : List ℕ)
    (cue_start cue_end : ℤ)
    → Settled b clean end
        (undropped (apply_tail_trim heap b clean start end cue_text cue_start cue_end))
unfolding apply_tail_trim
apply_tail_trim-Settled heap b clean start end cue_text cue_start cue_end =
    let m = tail_prefix_len cue_text clean in
    let trimmed = skip_blanks (drop m clean) in
    let (before, e) = trimmed_suffix m clean in
    elim (Bool-cases (is_near_cue start end cue_start cue_end)) [
      | inr far ↦ rw far tt
      | inl near ↦ elim (Bool-cases (m == 0)) [
        | inl z ↦ rw (near, z) tt
        | inr nz ↦ elim (Bool-cases (m == length clean || leb_ℤ end cue_end)) [
          | inl full ↦ rw (near, nz, full) (inl refl)
          | inr room ↦ elim (Bool-cases (length trimmed == 0)) [
            | inl blank ↦ rw (near, nz, room, blank) (inl refl)
            | inr shown ↦ elim (Bool-cases heap.trimmed) [
              | inr failed ↦ rw (near, nz, room, shown, failed) tt
              | inl ok ↦
                  rw (near, nz, room, shown, ok)
                    (trim_queued heap b clean before trimmed cue_end end e
                      (λ none_left. ground arith) (ground arith))
            ]
          ]
        ]
      ]
    ]

Settled-or :
    (b : Builder) (clean : List ℕ) (end : ℤ) (o : Option (Bool × Builder)) (covered : Bool)
    → Settled b clean end o
    → Settled b clean end
        (elim o [ some r ↦ some r | none ↦ if covered then some (false, b) else none ])
Settled-or b clean end none true h = inl refl
Settled-or b clean end none false h = tt
Settled-or b clean end (some r) covered h = h

against_text-Settled :
    (heap : Heap) (b : Builder) (clean : List ℕ) (start end : ℤ) (cue_text : List ℕ)
    (cue_start cue_end : ℤ) (matches : Bool)
    → Settled b clean end (against_text heap b clean start end cue_text cue_start cue_end matches)
unfolding against_text
against_text-Settled heap b clean start end cue_text cue_start cue_end matches =
    elim (Bool-cases (matches && (strings_equal cue_text clean || contains cue_text clean))) [
      | inl same ↦ rw same (inl refl)
      | inr new ↦ rw new (
          Settled-or b clean end
            (undropped (apply_tail_trim heap b clean start end cue_text cue_start cue_end))
            (matches && contains clean cue_text)
            (apply_tail_trim-Settled heap b clean start end cue_text cue_start cue_end))
    ]

Settled-chain :
    (b : Builder) (clean : List ℕ) (end : ℤ) (o rest : Option (Bool × Builder))
    → Settled b clean end o
    → Settled b clean end rest
    → Settled b clean end (elim o [ some r ↦ some r | none ↦ rest ])
Settled-chain b clean end none rest h k = k
Settled-chain b clean end (some r) rest h k = h

Outcome-chain :
    (b : Builder) (clean : List ℕ) (end : ℤ) (o : Option (Bool × Builder)) (rest : Bool × Builder)
    → Settled b clean end o
    → Outcome b clean end rest
    → Outcome b clean end (elim o [ some r ↦ r | none ↦ rest ])
Outcome-chain b clean end none rest h k = k
Outcome-chain b clean end (some r) rest h k = h

against_pointer-Settled :
    (heap : Heap) (b : Builder) (clean : List ℕ) (start end : ℤ) (last : Cue) (text : Pointer)
    → Settled b clean end (against_pointer heap b clean start end last text)
unfolding against_pointer
against_pointer-Settled heap b clean start end last none = tt
against_pointer-Settled heap b clean start end last (some text) =
    against_text-Settled heap b clean start end text last.start_pts_us last.end_pts_us
      (time_matches start end last.start_pts_us last.end_pts_us)

against_cue-Settled :
    (heap : Heap) (b : Builder) (clean : List ℕ) (start end : ℤ) (last : Option Cue)
    → Settled b clean end (against_cue heap b clean start end last)
unfolding against_cue
against_cue-Settled heap b clean start end none = tt
against_cue-Settled heap b clean start end (some last) =
    against_pointer-Settled heap b clean start end last last.text_utf8

against_pending-Settled :
    (heap : Heap) (b : Builder) (clean : List ℕ) (start end : ℤ)
    → Settled b clean end (against_pending heap b clean start end)
unfolding against_pending
against_pending-Settled heap b clean start end =
    against_cue-Settled heap b clean start end (get_last_segment b)

against_entry-Settled :
    (heap : Heap) (b : Builder) (clean : List ℕ) (start end : ℤ) (hist : Entry)
    → Settled b clean end (against_entry heap b clean start end hist)
unfolding against_entry
against_entry-Settled heap b clean start end hist =
    elim (Bool-cases (time_matches start end hist.start_pts_us hist.end_pts_us)) [
      | inl t ↦ rw t (
          against_text-Settled heap b clean start end hist.text hist.start_pts_us hist.end_pts_us
            true)
      | inr f ↦ rw f tt
    ]

against_history-Settled :
    (heaps : ℕ → Heap) (b : Builder) (clean : List ℕ) (start end : ℤ) (i n : ℕ)
    → Settled b clean end (against_history heaps b clean start end i n)
unfolding against_history
against_history-Settled heaps b clean start end i zero = tt
against_history-Settled heaps b clean start end i (suc n) =
    let idx = (b.history_head + history_capacity - 1 - i) % history_capacity in
    let hist = get_or b.history idx blank_entry in
    Settled-chain b clean end (against_entry (heaps i) b clean start end hist)
      (against_history heaps b clean start end (suc i) n)
      (against_entry-Settled (heaps i) b clean start end hist)
      (against_history-Settled heaps b clean start end (suc i) n)

queue_phrase-Outcome :
    (heap : Heap) (b : Builder) (clean : List ℕ) (start end : ℤ)
    → clean ≢ []
    → Outcome b clean end (queue_phrase heap b clean start end)
unfolding queue_phrase emit
queue_phrase-Outcome heap b clean start end shown =
    let emit_start = if ltb_ℤ start b.covered_end_us then b.covered_end_us else start in
    elim (Bool-cases (leb_ℤ end emit_start)) [
      | inl late ↦ rw late (inl refl)
      | inr lasts ↦ elim (enqueue_cases heap b clean emit_start end) [
        | inl failed ↦ rw (lasts, failed) (inl refl)
        | inr ok ↦
            rw (lasts, ok)
              (inr record {
                before = [];
                text = clean;
                start = emit_start;
                suffix = refl;
                shown = shown;
                lasts = ground arith;
                result = refl;
              })
      ]
    ]

pub deduplicate-Outcome :
    (heaps : Heaps) (b : Builder) (clean : List ℕ) (start end : ℤ)
    → clean ≢ []
    → Outcome b clean end (deduplicate heaps b clean start end)
unfolding deduplicate
deduplicate-Outcome heaps b clean start end shown =
    Outcome-chain b clean end (against_pending heaps.pending b clean start end)
      (elim (against_history heaps.turns b clean start end 0 b.history_count) [
        | some r ↦ r
        | none ↦ queue_phrase heaps.phrase b clean start end
      ])
      (against_pending-Settled heaps.pending b clean start end)
      (Outcome-chain b clean end (against_history heaps.turns b clean start end 0 b.history_count)
        (queue_phrase heaps.phrase b clean start end)
        (against_history-Settled heaps.turns b clean start end 0 b.history_count)
        (queue_phrase-Outcome heaps.phrase b clean start end shown))
