-- ===== src/TranslateAsync/Bounds.antt =====
-- That worker/src/vw_translate_async.c keeps its bounds, whatever its threads do in which order.
pub mod Calls
use mathlib.Core.Path.{subst}
use mathlib.Core.Option
use vlc_whisper.Common.{
  ℕ, zero, suc, ◌+◌, ◌-◌, ◌%◌, ◌≤◌, ◌<◌, ◌≡◌, refl, sym, Bool, true, false, ◌&&◌, ◌||◌, not, Option,
  none, some, List, [], ◌∷◌, ◌++◌, arith, ltb, leb, ◌==◌, if◌then◌else◌, length, length-append,
  get_or, take, drop, length-take, length-drop, pick, Option-cases,
}
use vlc_whisper.Protocol.Types.{CaptionSegment, Pointer, max_text_bytes}
use vlc_whisper.TranslateAsync.{
  Job, Result, Async, active_budget, queue_capacity, result_capacity, blank_job, push_result,
  find_next_result, remove_result, create, empty_queues, stop_all, invalidate,
}
use vlc_whisper.TranslateAsync.Step.{
  without_oldest, release_budget, evict_oldest, new_job, enqueue_job, submit, take_job, Translation,
  complete_job, pop_found, try_pop, deliver_found, try_deliver, result_of, oldest_job,
  completion_at,
}
use vlc_whisper.TranslateAsync.Bounds.Calls.{
  IsBounded, submit-IsBounded, deliver_found-IsBounded, try_pop-IsBounded, complete_job-IsBounded,
  clear-IsBounded,
}

-- The translator and the jobs that its threads work on.
pub record Pool : Type 0 where
  pub async : Async
  pub working : List Job

-- What can happen next, in any thread.
pub data Act : Type 0 where
  submits : CaptionSegment → Pointer → Pointer → Act
  takes : Act
  completes : ℕ → Translation → Act
  pops : Act
  delivers : Act
  invalidates : Act
  stops : Act

abbrev pub taken_by : Pool → Option (Job × Async) → Pool
taken_by p none = p
taken_by p (some (job, a)) = record { async = a; working = p.working ++ (job ∷ []) }

-- A thread takes a job only when one of the four is idle, and completes one that it works on.
unfoldable pub act : Pool → Act → Pool
unfolding submit take_job complete_job try_pop try_deliver invalidate stop_all
act p (submits segment source target) = record p {
  async = (submit p.async segment source target).1;
}
act p takes = if leb active_budget (length p.working) then p else taken_by p (take_job p.async)
act p (completes i t) = if leb (length p.working) i then p else record {
  async = complete_job p.async (get_or p.working i blank_job) t;
  working = take i p.working ++ drop (suc i) p.working;
}
act p pops = record p { async = (try_pop p.async).1 }
act p delivers = record p { async = (try_deliver p.async).1 }
act p invalidates = record p { async = invalidate p.async }
act p stops = record p { async = stop_all p.async }

unfoldable pub run : Pool → List Act → Pool
unfolding act
run p [] = p
run p (a ∷ acts) = run (act p a) acts

-- The bounds of the translator with its threads.
abbrev pub PoolIsBounded : Pool → Type 0
PoolIsBounded p = IsBounded p.async (length p.working)

taken-IsBounded :
    (a : Async) (w : ℕ)
    → IsBounded a w
    → w < 4
    → 0 < a.job_count
    → IsBounded (record (without_oldest a) { inflight_count = a.inflight_count + 1 }) (w + 1)
unfolding without_oldest
taken-IsBounded a w b idle some_left = ground arith

take_job-IsBounded :
    (p : Pool)
    → PoolIsBounded p
    → length p.working < 4
    → PoolIsBounded (taken_by p (take_job p.async))
unfolding take_job
take_job-IsBounded p b idle =
    pick {A = Option (Job × Async)} (λ o. PoolIsBounded (taken_by p o)) (p.async.job_count == 0)
      (λ none_left. b)
      (λ some_left.
        subst
          (λ w.
            IsBounded
              (record (without_oldest p.async) { inflight_count = p.async.inflight_count + 1 }) w)
          (sym (length-append p.working (oldest_job p.async ∷ [])))
          (taken-IsBounded p.async (length p.working) b idle (ground arith)))

length-removed :
    (xs : List Job) (i : ℕ)
    → i < length xs
    → suc (length (take i xs ++ drop (suc i) xs)) ≡ length xs
length-removed xs i lt =
    omega
      (arith, length-append (take i xs) (drop (suc i) xs), length-take i xs, length-drop (suc i) xs)

act-PoolIsBounded : (p : Pool) (a : Act) → PoolIsBounded p → PoolIsBounded (act p a)
unfolding act
act-PoolIsBounded p (submits segment source target) b =
    submit-IsBounded p.async (length p.working) segment source target b
act-PoolIsBounded p takes b =
    pick PoolIsBounded (leb active_budget (length p.working)) (λ busy. b)
      (λ idle. take_job-IsBounded p b (ground arith))
act-PoolIsBounded p (completes i t) b =
    pick PoolIsBounded (leb (length p.working) i) (λ outside. b)
      (λ inside.
        complete_job-IsBounded p.async (length (take i p.working ++ drop (suc i) p.working))
          (get_or p.working i blank_job) t
          (subst (λ w. IsBounded p.async w) (sym (length-removed p.working i (ground arith))) b))
act-PoolIsBounded p pops b = try_pop-IsBounded p.async (length p.working) b
act-PoolIsBounded p delivers b =
    unfold try_deliver in
    deliver_found-IsBounded p.async (length p.working) (find_next_result p.async) b
act-PoolIsBounded p invalidates b = (clear-IsBounded p.async (length p.working) b).0
act-PoolIsBounded p stops b = (clear-IsBounded p.async (length p.working) b).1

-- Whatever the callers and the four threads do in whatever order, at most 32 jobs are queued, at most
-- 34 cues are queued, in work or completed, at most 4 are counted as active translations, and the
-- in-flight count is that of the jobs in work; so a completion always finds room in the ring.
pub run-IsBounded : (p : Pool) (acts : List Act) → PoolIsBounded p → PoolIsBounded (run p acts)
unfolding run
run-IsBounded p [] b = b
run-IsBounded p (a ∷ acts) b = run-IsBounded (act p a) acts (act-PoolIsBounded p a b)
