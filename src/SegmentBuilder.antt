-- ===== src/SegmentBuilder.antt =====
-- The builder of captions from the phrases that recognition gives for overlapping windows:
-- worker/src/vw_segment_builder.c. Times are integers; a sum of a time and the tolerance is taken to
-- fit 64 bits. vw_segment_builder_create leaves no builder whose queue is NULL.
pub mod Text
pub mod Push
pub mod Outcome
pub mod Pending
pub mod Effect
pub mod Session
pub mod Overlap
pub mod Coverage
pub mod NewAudio
pub mod Behind
mod Tests
use vlc_whisper.Common.{
  ℕ, zero, suc, ◌+◌, ◌-◌, ◌*◌, ◌%◌, ◌^◌, Bool, true, false, ◌&&◌, ◌||◌, not, Option, none, some,
  List, [], ◌∷◌, leb, ltb, ◌==◌, if◌then◌else◌, length, get_or, set, take, drop, replicate,
}
use vlc_whisper.Common.Int.{ℤ, pos, negsuc, ◌+ℤ◌, ◌-ℤ◌, ltb_ℤ, leb_ℤ}
use vlc_whisper.Protocol.Types.{Pointer}
use vlc_whisper.Protocol.Utf8.{utf8_safe_len}
use vlc_whisper.Hallucination.{is_phantom_text}
use vlc_whisper.SegmentBuilder.Text.{
  strings_equal, contains, skip_blanks, cut_blanks, tail_prefix_len,
}

abbrev pub initial_capacity : ℕ
initial_capacity = 32

abbrev pub history_capacity : ℕ
history_capacity = 16

abbrev pub builder_max_text_bytes : ℕ
builder_max_text_bytes = 1024

abbrev pub dedup_time_tolerance_us : ℤ
dedup_time_tolerance_us = pos 500000

-- The fields of vw_caption_segment_t that the builder writes; the others stay zero.
pub record Cue : Type 0 where
  pub segment_id : ℕ
  pub start_pts_us : ℤ
  pub end_pts_us : ℤ
  pub is_final : Bool
  pub text_utf8 : Pointer
  pub text_bytes : ℕ

abbrev pub blank_cue : Cue
blank_cue = record {
  segment_id = 0;
  start_pts_us = pos 0;
  end_pts_us = pos 0;
  is_final = false;
  text_utf8 = none;
  text_bytes = 0;
}

-- vw_history_entry_t
pub record Entry : Type 0 where
  pub start_pts_us : ℤ
  pub end_pts_us : ℤ
  pub text : List ℕ

abbrev pub blank_entry : Entry
blank_entry = record { start_pts_us = pos 0; end_pts_us = pos 0; text = [] }

-- vw_segment_builder_t
pub record Builder : Type 0 where
  pub next_segment_id : ℕ
  pub segment_queue : List Cue
  pub capacity : ℕ
  pub head : ℕ
  pub count : ℕ
  pub history : List Entry
  pub history_head : ℕ
  pub history_count : ℕ
  pub covered_end_us : ℤ

-- Which of the allocations of one attempt to queue a cue succeed: that of `trimmed`, of `copy` and of
-- `new_queue`.
pub record Heap : Type 0 where
  pub trimmed : Bool
  pub copy : Bool
  pub new_queue : Bool

-- vw_segment_builder_create
unfoldable pub create : Bool → Bool → Option Builder
create builder_allocated queue_allocated =
    if not builder_allocated || not queue_allocated
    then none
    else some record {
      next_segment_id = 1;
      segment_queue = replicate initial_capacity blank_cue;
      capacity = initial_capacity;
      head = 0;
      count = 0;
      history = replicate history_capacity blank_entry;
      history_head = 0;
      history_count = 0;
      covered_end_us = negsuc 0;
    }

abbrev pub forget_text : Cue → Cue
forget_text c = record c { text_utf8 = none }

-- The loop that frees the texts.
unfoldable pub forget_texts : List Cue → List Cue
forget_texts [] = []
forget_texts (c ∷ cs) = forget_text c ∷ forget_texts cs

-- vw_segment_builder_clear
unfoldable pub clear : Builder → Builder
clear b = record b {
  segment_queue = forget_texts b.segment_queue;
  head = 0;
  count = 0;
  history_head = 0;
  history_count = 0;
  covered_end_us = negsuc 0;
  history = replicate history_capacity blank_entry;
}

-- vw_segment_builder_get_last_segment
unfoldable pub get_last_segment : Builder → Option Cue
get_last_segment b =
    if b.count == 0 || b.capacity == 0
    then none
    else some (get_or b.segment_queue ((b.head + b.capacity - 1) % b.capacity) blank_cue)

-- The loop that copies the pending cues to the new queue: `n` turns from the `i`th on.
unfoldable pub copy_queue : Builder → ℕ → ℕ → List Cue → List Cue
copy_queue b i zero new_queue = new_queue
copy_queue b i (suc n) new_queue =
    let tail = (b.head + b.capacity - b.count + i) % b.capacity in
    copy_queue b (i + 1) n (set new_queue i (get_or b.segment_queue tail blank_cue))

-- `if (builder->count == builder->capacity)` of vw_segment_builder_enqueue.
unfoldable pub grow : Builder → Builder
unfolding copy_queue
grow b =
    if b.count == b.capacity
    then record b {
      segment_queue = copy_queue b 0 b.count (replicate (b.capacity * 2) blank_cue);
      head = b.count;
      capacity = b.capacity * 2;
    }
    else b

-- From `size_t slot` on.
unfoldable pub write_cue : Builder → List ℕ → ℤ → ℤ → Builder
write_cue b text start end = record b {
  segment_queue = set b.segment_queue b.head record {
    segment_id = b.next_segment_id;
    start_pts_us = start;
    end_pts_us = end;
    is_final = true;
    text_utf8 = some text;
    text_bytes = length text % 2 ^ 16;
  };
  next_segment_id = (b.next_segment_id + 1) % 2 ^ 64;
  head = (b.head + 1) % b.capacity;
  count = b.count + 1;
}

-- vw_segment_builder_enqueue
unfoldable pub enqueue : Heap → Builder → List ℕ → ℤ → ℤ → Bool × Builder
unfolding grow write_cue
enqueue heap b text start end =
    if b.capacity == 0
    then (false, b)
    else if not heap.copy
    then (false, b)
    else if b.count == b.capacity && not heap.new_queue
    then (false, b)
    else (true, write_cue (grow b) text start end)

-- vw_segment_builder_commit_history
unfoldable pub commit_history : Builder → List ℕ → ℤ → ℤ → Builder
commit_history b text start end = record b {
  history = set b.history b.history_head record {
    start_pts_us = start;
    end_pts_us = end;
    text = take (utf8_safe_len text (builder_max_text_bytes - 1)) text;
  };
  covered_end_us = if ltb_ℤ b.covered_end_us end then end else b.covered_end_us;
  history_head = (b.history_head + 1) % history_capacity;
  history_count =
      if ltb b.history_count history_capacity then b.history_count + 1 else b.history_count;
}

-- Whether a phrase overlaps a cue or lies within the tolerance of its end.
unfoldable pub is_near_cue : ℤ → ℤ → ℤ → ℤ → Bool
is_near_cue start end cue_start cue_end =
    (ltb_ℤ cue_start end && ltb_ℤ start cue_end)
    || (leb_ℤ (cue_end -ℤ dedup_time_tolerance_us) start
        && leb_ℤ start (cue_end +ℤ dedup_time_tolerance_us))

-- vw_segment_builder_apply_tail_trim for a cue with text: `none` if it returns false, else
-- `*dropped`.
unfoldable pub apply_tail_trim :
    Heap → Builder → List ℕ → ℤ → ℤ → List ℕ → ℤ → ℤ → Option (Bool × Builder)
unfolding enqueue commit_history is_near_cue
apply_tail_trim heap b text start end cue_text cue_start cue_end =
    if not (is_near_cue start end cue_start cue_end)
    then none
    else let m = tail_prefix_len cue_text text in
      let trimmed = skip_blanks (drop m text) in
      if m == 0
      then none
      else if m == length text || leb_ℤ end cue_end
      then some (true, b)
      else if length trimmed == 0
      then some (true, b)
      else if not heap.trimmed
      then none
      else let (queued, b') = enqueue heap b trimmed cue_end end in
        if queued then some (false, commit_history b' trimmed cue_end end) else none
