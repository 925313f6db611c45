-- ===== src/TranslateAsync/Step.antt =====
-- The steps of the threads of worker/src/vw_translate_async.c: submitting, taking and completing jobs,
-- and delivering results.
use mathlib.Core.Option.{get_or}
use vlc_whisper.Common.{
  ℕ, zero, suc, ◌+◌, ◌-◌, ◌%◌, ◌^◌, Bool, true, false, ◌&&◌, ◌||◌, not, Option, none, some, List,
  [], ◌∷◌, ltb, leb, ◌==◌, if◌then◌else◌, length, set, take,
}
use vlc_whisper.Common
use vlc_whisper.Protocol.Types.{CaptionSegment, Pointer, max_text_bytes}
use vlc_whisper.TranslateAsync.{
  Job, Result, Completion, Async, active_budget, queue_capacity, result_capacity, blank_job,
  blank_completion, next_ordinal, push_result, find_next_result, remove_result, bind_result_text,
}

abbrev pub local_failure : Job → Result
local_failure job = record {
  epoch = job.epoch;
  segment = record job.segment {
    text_utf8 = some job.source_text;
    translated_text_utf8 = none;
    translated_text_bytes = 0;
    translation_tier = 0;
    translation_latency_us = 0;
  };
  source_text = job.source_text;
  translated_text = [];
  is_local_failure = true;
  attempted = true;
  success = false;
}

-- The job at `job_tail`, and the queue without it.
abbrev pub oldest_job : Async → Job
oldest_job a = Common.get_or a.jobs a.job_tail blank_job

unfoldable pub without_oldest : Async → Async
without_oldest a = record a {
  job_tail = (a.job_tail + 1) % queue_capacity;
  job_count = a.job_count - 1;
}

unfoldable pub release_budget : Bool → Async → Async
release_budget used a =
    if used && ltb 0 a.active_translation_count
    then record a { active_translation_count = a.active_translation_count - 1 }
    else a

-- The eviction by vw_translate_async_submit. The segment of the evicted job keeps its latency.
unfoldable pub evict_oldest : Async → Async
unfolding without_oldest release_budget push_result bind_result_text
evict_oldest a =
    let oldest = oldest_job a in
    push_result (release_budget (not oldest.skip_translation) (without_oldest a)) oldest.ordinal
      (bind_result_text record (local_failure oldest) { segment = oldest.segment })

-- snprintf to a field of 16 bytes of a language, or a default.
unfoldable pub language_field : Pointer → List ℕ → List ℕ
language_field none other = other
language_field (some []) other = other
language_field (some (c ∷ cs)) other = take 15 (c ∷ cs)

-- The job that is made of a segment with the text `text`.
unfoldable pub new_job : Async → CaptionSegment → List ℕ → Pointer → Pointer → Bool → Job
unfolding language_field
new_job a segment text source_lang target_lang skip = record {
  epoch = a.epoch;
  ordinal = a.next_submit_ordinal;
  segment = record segment {
    text_utf8 = some text;
    text_bytes = length text % 2 ^ 16;
    translated_text_utf8 = none;
    translated_text_bytes = 0;
  };
  source_text = text;
  source_lang = language_field source_lang (b'a' ∷ b'u' ∷ b't' ∷ b'o' ∷ []);
  target_lang = language_field target_lang (b'e' ∷ b'n' ∷ []);
  skip_translation = skip;
}

unfoldable pub enqueue_job : Async → Job → Async
unfolding next_ordinal
enqueue_job a job = record a {
  jobs = set a.jobs a.job_head job;
  next_submit_ordinal = next_ordinal a.next_submit_ordinal;
  active_translation_count =
      if job.skip_translation then a.active_translation_count else a.active_translation_count + 1;
  job_head = (a.job_head + 1) % queue_capacity;
  job_count = a.job_count + 1;
}

-- vw_translate_async_submit
unfoldable pub submit : Async → CaptionSegment → Pointer → Pointer → Bool × Async
unfolding evict_oldest new_job enqueue_job
submit a segment source_lang target_lang =
    let text = get_or segment.text_utf8 [] in
    let skip = leb active_budget a.active_translation_count in
    let evicted = if leb queue_capacity a.job_count then evict_oldest a else a in
    if length text == 0 || ltb max_text_bytes (length text)
    then (false, a)
    else if a.stopping
    then (false, a)
    else if leb result_capacity (a.job_count + a.inflight_count + a.result_count)
    then (false, a)
    else (true, enqueue_job evicted (new_job evicted segment text source_lang target_lang skip))

-- The first part of a turn of vw_translate_async_thread_main: `none` while it waits or when it ends.
unfoldable pub take_job : Async → Option (Job × Async)
unfolding without_oldest
take_job a =
    if a.job_count == 0
    then none
    else some (oldest_job a, record (without_oldest a) { inflight_count = a.inflight_count + 1 })

-- What vw_translate_text_detailed answers: success, the text, the tier, the latency, and whether it
-- fails locally.
pub record Translation : Type 0 where
  pub success : Bool
  pub translated_text : List ℕ
  pub tier : ℕ
  pub latency_us : ℕ
  pub is_local_failure : Bool

-- The result of a job.
unfoldable pub result_of : Job → Translation → Result
unfolding bind_result_text
result_of job t =
    if job.skip_translation
    then bind_result_text (local_failure job)
    else bind_result_text record (local_failure job) {
      success = t.success;
      translated_text = t.translated_text;
      is_local_failure = t.is_local_failure;
      segment = record (local_failure job).segment {
        translation_latency_us = t.latency_us;
        translation_tier = if t.success then t.tier else 0;
      };
    }

-- The last part of the turn.
unfoldable pub complete_job : Async → Job → Translation → Async
unfolding release_budget result_of push_result
complete_job a job t =
    let freed = release_budget (not job.skip_translation && job.epoch == a.epoch) a in
    let done =
      if not a.stopping && job.epoch == a.epoch
      then push_result freed job.ordinal (result_of job t)
      else freed in
    record done { inflight_count = done.inflight_count - 1 }

-- vw_translate_async_has_result
unfoldable pub has_result : Async → Bool
unfolding find_next_result
has_result a = elim (find_next_result a) [ none ↦ false | some index ↦ true ]

-- vw_translate_async_has_pending
unfoldable pub has_pending : Async → Bool
has_pending a = not (a.job_count == 0) || not (a.inflight_count == 0) || not (a.result_count == 0)

abbrev pub completion_at : Async → ℕ → Completion
completion_at a index = Common.get_or a.results index blank_completion

unfoldable pub pop_found : Async → Option ℕ → Option Result × Async
unfolding remove_result bind_result_text
pop_found a none = (none, a)
pop_found a (some index) =
    (some (bind_result_text (completion_at a index).result), remove_result a index)

-- vw_translate_async_try_pop
unfoldable pub try_pop : Async → Option Result × Async
unfolding pop_found find_next_result
try_pop a = if a.result_count == 0 then (none, a) else pop_found a (find_next_result a)

unfoldable pub deliver_found : Async → Option ℕ → Option Result × Async
unfolding remove_result bind_result_text
deliver_found a none = (none, a)
deliver_found a (some index) =
    if not ((completion_at a index).result.epoch == a.epoch)
    then (none, remove_result a index)
    else (some (bind_result_text (completion_at a index).result), remove_result a index)

-- vw_translate_async_try_deliver: what it delivers, and the state.
unfoldable pub try_deliver : Async → Option Result × Async
unfolding deliver_found find_next_result
try_deliver a = deliver_found a (find_next_result a)
