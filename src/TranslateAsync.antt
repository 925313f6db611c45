-- ===== src/TranslateAsync.antt =====
-- The translator that works behind the worker's loop: worker/src/vw_translate_async.c. Each function
-- that holds the mutex is one step; a thread of the pool takes a job in one step and completes it in
-- another one. The translation itself, of worker/src/vw_translate.c, is an argument of the second.
-- Tests for NULL and the calls of pthread are left out, but for those that fail.
pub mod Step
pub mod Bounds
pub mod Order
pub mod Epochs
mod Tests
use vlc_whisper.Common.{
  ℕ, zero, suc, ◌+◌, ◌-◌, ◌%◌, ◌^◌, Bool, true, false, ◌&&◌, ◌||◌, not, Option, none, some, List,
  [], ◌∷◌, ltb, leb, ◌==◌, if◌then◌else◌, length, get_or, set, replicate, take,
}
use vlc_whisper.Protocol.Types.{CaptionSegment, Pointer, max_text_bytes}

abbrev pub active_budget : ℕ
active_budget = 4

abbrev pub queue_capacity : ℕ
queue_capacity = 32

abbrev pub result_capacity : ℕ
result_capacity = 34

-- vw_translate_job_t
pub record Job : Type 0 where
  pub epoch : ℕ
  pub ordinal : ℕ
  pub segment : CaptionSegment
  pub source_text : List ℕ
  pub source_lang : List ℕ
  pub target_lang : List ℕ
  pub skip_translation : Bool

-- vw_translate_async_result_t; of the failure, whether its cause is VW_TRANSLATE_FAILURE_LOCAL.
pub record Result : Type 0 where
  pub epoch : ℕ
  pub segment : CaptionSegment
  pub source_text : List ℕ
  pub translated_text : List ℕ
  pub is_local_failure : Bool
  pub attempted : Bool
  pub success : Bool

-- vw_translate_async_completion_t
pub record Completion : Type 0 where
  pub ordinal : ℕ
  pub result : Result

-- vw_translate_async, without its threads, mutex and condition.
pub record Async : Type 0 where
  pub stopping : Bool
  pub epoch : ℕ
  pub next_submit_ordinal : ℕ
  pub next_result_ordinal : ℕ
  pub jobs : List Job
  pub job_head : ℕ
  pub job_tail : ℕ
  pub job_count : ℕ
  pub inflight_count : ℕ
  pub active_translation_count : ℕ
  pub results : List Completion
  pub result_head : ℕ
  pub result_tail : ℕ
  pub result_count : ℕ

abbrev pub blank_segment : CaptionSegment
blank_segment = record {
  session_id = [];
  segment_id = 0;
  start_pts_us = 0;
  end_pts_us = 0;
  is_final = 0;
  text_utf8 = none;
  text_bytes = 0;
  translated_text_utf8 = none;
  translated_text_bytes = 0;
  translation_attempted = false;
  translation_latency_us = 0;
  translation_tier = 0;
}

abbrev pub blank_job : Job
blank_job = record {
  epoch = 0;
  ordinal = 0;
  segment = blank_segment;
  source_text = [];
  source_lang = [];
  target_lang = [];
  skip_translation = false;
}

abbrev pub blank_completion : Completion
blank_completion = record {
  ordinal = 0;
  result = record {
    epoch = 0;
    segment = blank_segment;
    source_text = [];
    translated_text = [];
    is_local_failure = false;
    attempted = false;
    success = false;
  };
}

-- vw_translate_async_next_ordinal; the next epoch is counted alike.
unfoldable pub next_ordinal : ℕ → ℕ
next_ordinal ordinal = if ordinal == 2 ^ 64 - 1 then 1 else ordinal + 1

-- vw_translate_async_push_result_locked
unfoldable pub push_result : Async → ℕ → Result → Async
push_result a ordinal result = if leb result_capacity a.result_count then a else record a {
  results = set a.results a.result_head record { ordinal = ordinal; result = result };
  result_head = (a.result_head + 1) % result_capacity;
  result_count = a.result_count + 1;
}

-- The loop of vw_translate_async_find_next_result_locked: `n` turns from `index` on.
unfoldable pub find_from : Async → ℕ → ℕ → Option ℕ
find_from a index zero = none
find_from a index (suc n) =
    let rest = find_from a ((index + 1) % result_capacity) n in
    if (get_or a.results index blank_completion).ordinal == a.next_result_ordinal
    then some index
    else rest

-- vw_translate_async_find_next_result_locked
unfoldable pub find_next_result : Async → Option ℕ
unfolding find_from
find_next_result a = find_from a a.result_tail a.result_count

-- The loop of vw_translate_async_remove_result_locked. It comes to `result_head` within one turn of the
-- ring, whose places are its fuel.
unfoldable pub shift_results : ℕ → ℕ → List Completion → ℕ → ℕ → List Completion
shift_results zero head results move next = results
shift_results (suc fuel) head results move next =
    let moved = set results move (get_or results next blank_completion) in
    let rest = shift_results fuel head moved next ((next + 1) % result_capacity) in
    if next == head then results else rest

-- vw_translate_async_remove_result_locked
unfoldable pub remove_result : Async → ℕ → Async
unfolding shift_results next_ordinal
remove_result a index = record a {
  results =
      shift_results result_capacity a.result_head a.results index ((index + 1) % result_capacity);
  result_head = (a.result_head + result_capacity - 1) % result_capacity;
  result_count = a.result_count - 1;
  next_result_ordinal = next_ordinal a.next_result_ordinal;
}

-- vw_translate_async_bind_result_text
unfoldable pub bind_result_text : Result → Result
bind_result_text r =
    let translated = r.success && ltb 0 (length r.translated_text) in
    record r {
      segment = record r.segment {
        text_utf8 = some r.source_text;
        translation_attempted = r.attempted;
        translated_text_utf8 = if translated then some r.translated_text else none;
        translated_text_bytes = if translated then length r.translated_text % 2 ^ 16 else 0;
        translation_tier = if translated then r.segment.translation_tier else 0;
      };
    }

-- vw_translate_async_create, when every pthread call succeeds.
unfoldable pub create : Bool → Bool → Bool → Option Async
create allocated initialised threads_created =
    if not allocated || not initialised || not threads_created
    then none
    else some record {
      stopping = false;
      epoch = 1;
      next_submit_ordinal = 1;
      next_result_ordinal = 1;
      jobs = replicate queue_capacity blank_job;
      job_head = 0;
      job_tail = 0;
      job_count = 0;
      inflight_count = 0;
      active_translation_count = 0;
      results = replicate result_capacity blank_completion;
      result_head = 0;
      result_tail = 0;
      result_count = 0;
    }

-- What vw_translate_async_destroy and vw_translate_async_invalidate both empty.
unfoldable pub empty_queues : Async → Async
empty_queues a = record a {
  job_head = 0;
  job_tail = 0;
  job_count = 0;
  active_translation_count = 0;
  result_head = 0;
  result_tail = 0;
  result_count = 0;
}

-- vw_translate_async_destroy, up to the calls of pthread_join.
unfoldable pub stop_all : Async → Async
unfolding empty_queues
stop_all a = record (empty_queues a) { stopping = true }

-- vw_translate_async_invalidate
unfoldable pub invalidate : Async → Async
unfolding empty_queues next_ordinal
invalidate a = record (empty_queues a) {
  epoch = next_ordinal a.epoch;
  next_submit_ordinal = 1;
  next_result_ordinal = 1;
}
