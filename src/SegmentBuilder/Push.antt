-- ===== src/SegmentBuilder/Push.antt =====
-- vw_segment_builder_push_hypothesis and vw_segment_builder_pop of worker/src/vw_segment_builder.c.
use vlc_whisper.Common.{
  ℕ, zero, suc, ◌+◌, ◌-◌, ◌%◌, Bool, true, false, ◌&&◌, ◌||◌, not, Option, none, some, List, leb,
  ◌==◌, if◌then◌else◌, length, get_or, set, take,
}
use vlc_whisper.Common.Int.{ℤ, pos, ◌-ℤ◌, ◌+ℤ◌, ltb_ℤ, leb_ℤ}
use vlc_whisper.Protocol.Types.{Pointer}
use vlc_whisper.Hallucination.{is_phantom_text}
use vlc_whisper.SegmentBuilder.{
  Builder, Cue, Entry, Heap, blank_cue, blank_entry, history_capacity, builder_max_text_bytes,
  dedup_time_tolerance_us, get_last_segment, enqueue, commit_history, apply_tail_trim,
}
use vlc_whisper.SegmentBuilder.Text.{strings_equal, contains, skip_blanks, cut_blanks}

-- `time_matches`, for a cue from `cue_start` to `cue_end`.
unfoldable pub time_matches : ℤ → ℤ → ℤ → ℤ → Bool
time_matches start end cue_start cue_end =
    let start_diff = if leb_ℤ cue_start start then start -ℤ cue_start else cue_start -ℤ start in
    leb_ℤ start_diff dedup_time_tolerance_us || (ltb_ℤ cue_start end && ltb_ℤ start cue_end)

-- `return !dropped`
abbrev pub undropped : Option (Bool × Builder) → Option (Bool × Builder)
undropped none = none
undropped (some (dropped, b)) = some (not dropped, b)

-- What both comparisons do with the text of a cue: `none` if the function goes on.
unfoldable pub against_text :
    Heap → Builder → List ℕ → ℤ → ℤ → List ℕ → ℤ → ℤ → Bool → Option (Bool × Builder)
unfolding apply_tail_trim
against_text heap b clean start end cue_text cue_start cue_end matches =
    if matches && (strings_equal cue_text clean || contains cue_text clean)
    then some (false, b)
    else elim (undropped (apply_tail_trim heap b clean start end cue_text cue_start cue_end)) [
      | some r ↦ some r
      | none ↦ if matches && contains clean cue_text then some (false, b) else none
    ]

-- A cue whose text is NULL is passed over.
unfoldable pub against_pointer :
    Heap → Builder → List ℕ → ℤ → ℤ → Cue → Pointer → Option (Bool × Builder)
unfolding against_text time_matches
against_pointer heap b clean start end last none = none
against_pointer heap b clean start end last (some text) =
    against_text heap b clean start end text last.start_pts_us last.end_pts_us
      (time_matches start end last.start_pts_us last.end_pts_us)

unfoldable pub against_cue : Heap → Builder → List ℕ → ℤ → ℤ → Option Cue → Option (Bool × Builder)
unfolding against_pointer
against_cue heap b clean start end none = none
against_cue heap b clean start end (some last) =
    against_pointer heap b clean start end last last.text_utf8

-- Step 1: the comparison with the last queued cue.
unfoldable pub against_pending : Heap → Builder → List ℕ → ℤ → ℤ → Option (Bool × Builder)
unfolding get_last_segment against_cue
against_pending heap b clean start end = against_cue heap b clean start end (get_last_segment b)

-- The body of the loop of step 2.
unfoldable pub against_entry : Heap → Builder → List ℕ → ℤ → ℤ → Entry → Option (Bool × Builder)
unfolding against_text time_matches
against_entry heap b clean start end hist =
    if not (time_matches start end hist.start_pts_us hist.end_pts_us)
    then none
    else against_text heap b clean start end hist.text hist.start_pts_us hist.end_pts_us true

-- Step 2: `n` turns of the loop from the `i`th on. Each turn has its own allocations.
unfoldable pub against_history :
    (ℕ → Heap) → Builder → List ℕ → ℤ → ℤ → ℕ → ℕ → Option (Bool × Builder)
unfolding against_entry
against_history heaps b clean start end i zero = none
against_history heaps b clean start end i (suc n) =
    let idx = (b.history_head + history_capacity - 1 - i) % history_capacity in
    let rest = against_history heaps b clean start end (suc i) n in
    elim (against_entry (heaps i) b clean start end (get_or b.history idx blank_entry)) [
      | some r ↦ some r
      | none ↦ rest
    ]

-- Step 3.
unfoldable pub queue_phrase : Heap → Builder → List ℕ → ℤ → ℤ → Bool × Builder
unfolding enqueue commit_history
queue_phrase heap b clean start end =
    let emit_start = if ltb_ℤ start b.covered_end_us then b.covered_end_us else start in
    if leb_ℤ end emit_start
    then (false, b)
    else let (queued, b') = enqueue heap b clean emit_start end in
      if queued then (true, commit_history b' clean emit_start end) else (false, b)

-- What the allocations of a push do: those of step 1, of each turn of step 2, and of step 3.
pub record Heaps : Type 0 where
  pub pending : Heap
  pub turns : ℕ → Heap
  pub phrase : Heap

-- Steps 1 to 3.
unfoldable pub deduplicate : Heaps → Builder → List ℕ → ℤ → ℤ → Bool × Builder
unfolding against_pending against_history queue_phrase
deduplicate heaps b clean start end = elim (against_pending heaps.pending b clean start end) [
  | some r ↦ r
  | none ↦ elim (against_history heaps.turns b clean start end 0 b.history_count) [
    | some r ↦ r
    | none ↦ queue_phrase heaps.phrase b clean start end
  ]
]

-- Step 0: whether the phrase lies in captioned audio.
unfoldable pub is_covered : Builder → ℤ → ℤ → Bool
is_covered b start end =
    leb_ℤ (pos 0) b.covered_end_us
    && ltb_ℤ start b.covered_end_us
    && leb_ℤ end (b.covered_end_us +ℤ dedup_time_tolerance_us)

-- `clean_text`, before its length is tested.
unfoldable pub trim : List ℕ → List ℕ
trim text = let rest = skip_blanks text in take (cut_blanks rest (length rest)) rest

-- Whether the text of a phrase is refused, whatever its times.
unfoldable pub is_refused_text : List ℕ → Bool
is_refused_text clean =
    length clean == 0 || leb builder_max_text_bytes (length clean) || is_phantom_text (some clean)

-- vw_segment_builder_push_hypothesis
unfoldable pub push_hypothesis : Heaps → Builder → Pointer → ℤ → ℤ → Bool × Builder
unfolding is_covered trim is_refused_text deduplicate
push_hypothesis heaps b none start end = (false, b)
push_hypothesis heaps b (some text) start end =
    if ltb_ℤ start (pos 0) || leb_ℤ end start
    then (false, b)
    else if is_refused_text (trim text)
    then (false, b)
    else if is_covered b start end
    then (false, b)
    else deduplicate heaps b (trim text) start end

-- vw_segment_builder_pop
unfoldable pub pop : Builder → Option (Cue × Builder)
pop b =
    if b.count == 0 || b.capacity == 0
    then none
    else let tail = (b.head + b.capacity - b.count) % b.capacity in
      some (
        get_or b.segment_queue tail blank_cue,
        record b { segment_queue = set b.segment_queue tail blank_cue; count = b.count - 1 },
      )
