-- ===== src/TranslateAsync/Tests.antt =====
-- A run of worker/src/vw_translate_async.c.
use vlc_whisper.Common.{◌≡◌, refl, true, false, some, none, List, [], ◌∷◌, arith, replicate}
use vlc_whisper.Protocol.Types.{CaptionSegment}
use vlc_whisper.TranslateAsync.{
  Async, blank_job, blank_completion, blank_segment, queue_capacity, result_capacity, create,
  find_next_result, find_from, push_result, next_ordinal, bind_result_text,
}
use vlc_whisper.TranslateAsync.Step.{
  Translation, has_result, try_pop, try_deliver, submit, evict_oldest, new_job, enqueue_job,
  take_job, complete_job, release_budget, result_of, without_oldest, language_field,
}
use vlc_whisper.TranslateAsync.Order.{HandsOut, due_one, is_there, popped, current, calls-HandOut}
use vlc_whisper.TranslateAsync.Bounds.{
  Pool, Act, submits, takes, completes, delivers, invalidates, stops, act, run, PoolIsBounded,
  run-IsBounded,
}

abbrev fresh : Async
fresh = record {
  stopping = false;
  epoch = 1;
  next_submit_ordinal = 1;
  next_result_ordinal = 1;
  jobs = replicate queue_capacity blank_job;
  job_head = 0;
  job_tail = 0;
  job_count = 0;
  inflight_count = 0;
  active_translation_count = 0;
  results = replicate result_capacity blank_completion;
  result_head = 0;
  result_tail = 0;
  result_count = 0;
}

create_test : create true true true ≡ some fresh
unfolding create
create_test = refl

abbrev fresh_pool : Pool
fresh_pool = record { async = fresh; working = [] }

fresh_pool_bounded : PoolIsBounded fresh_pool
fresh_pool_bounded = record {
  inflight = refl;
  threads = omega arith;
  jobs_fit = omega arith;
  all_fit = omega arith;
  budget = omega arith;
  job_head_in = omega arith;
  job_tail_in = omega arith;
  result_head_in = omega arith;
  result_tail_in = omega arith;
}

abbrev cue : CaptionSegment
cue = record blank_segment { text_utf8 = some (b'h' ∷ b'i' ∷ []); text_bytes = 2 }

abbrev answer : Translation
answer = record {
  success = true;
  translated_text = b'o' ∷ b'k' ∷ [];
  tier = 1;
  latency_us = 1000;
  is_local_failure = false;
}

abbrev some_acts : List Act
some_acts =
    submits cue none none
    ∷ submits cue none none
    ∷ takes
    ∷ takes
    ∷ completes 1 answer
    ∷ delivers
    ∷ completes 0 answer
    ∷ delivers
    ∷ delivers
    ∷ invalidates
    ∷ stops
    ∷ []

run-IsBounded_example : PoolIsBounded (run fresh_pool some_acts)
run-IsBounded_example = run-IsBounded fresh_pool some_acts fresh_pool_bounded

-- The second of two cues is completed before the first.
abbrev second_first : Async
second_first =
    (run fresh_pool (
      submits cue none none
      ∷ submits cue none none
      ∷ takes
      ∷ takes
      ∷ completes 1 answer
      ∷ [])).async

abbrev both : Async
both =
    (run fresh_pool (
      submits cue none none
      ∷ submits cue none none
      ∷ takes
      ∷ takes
      ∷ completes 1 answer
      ∷ completes 0 answer
      ∷ [])).async

calls-HandOut_example :
    (has_result both ≡ is_there (due_one both))
    × HandsOut both (try_pop both) (popped (due_one both)) (due_one both)
    × HandsOut both (try_deliver both) (current both.epoch (due_one both)) (due_one both)
calls-HandOut_example =
    calls-HandOut both
      (run-IsBounded fresh_pool
        (submits cue none none
          ∷ submits cue none none
          ∷ takes
          ∷ takes
          ∷ completes 1 answer
          ∷ completes 0 answer
          ∷ [])
        fresh_pool_bounded).result_tail_in

second_waits : has_result second_first ≡ false
unfolding has_result find_next_result find_from run act submit evict_oldest new_job enqueue_job
    take_job complete_job release_budget result_of push_result without_oldest next_ordinal
    language_field bind_result_text
second_waits = refl

first_due : has_result both ≡ true
unfolding has_result find_next_result find_from run act submit evict_oldest new_job enqueue_job
    take_job complete_job release_budget result_of push_result without_oldest next_ordinal
    language_field bind_result_text
first_due = refl
