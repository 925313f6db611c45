-- ===== src/TranslateAsync/Bounds/Calls.antt =====
-- That each call of worker/src/vw_translate_async.c keeps the bounds of its state.
use mathlib.Core.Option
use vlc_whisper.Common.{
  ℕ, suc, ◌+◌, ◌-◌, ◌≤◌, ◌<◌, ◌≡◌, refl, Bool, false, ◌&&◌, ◌||◌, not, Option, none, some, List, [],
  arith, ltb, leb, ◌==◌, if◌then◌else◌, length, pick,
}
use vlc_whisper.Protocol.Types.{CaptionSegment, Pointer, max_text_bytes}
use vlc_whisper.TranslateAsync.{
  Job, Result, Async, active_budget, queue_capacity, result_capacity, push_result, find_next_result,
  remove_result, empty_queues, stop_all, invalidate,
}
use vlc_whisper.TranslateAsync.Step.{
  without_oldest, release_budget, evict_oldest, new_job, enqueue_job, submit, Translation,
  complete_job, pop_found, try_pop, deliver_found, result_of, completion_at,
}

-- The bounds, when threads work on `working` jobs.
pub record IsBounded (a : Async) (working : ℕ) : Type 0 where
  pub inflight : a.inflight_count ≡ working
  pub threads : working ≤ 4
  pub jobs_fit : a.job_count ≤ 32
  pub all_fit : a.job_count + a.inflight_count + a.result_count ≤ 34
  pub budget : a.active_translation_count ≤ 4
  pub job_head_in : a.job_head < 32
  pub job_tail_in : a.job_tail < 32
  pub result_head_in : a.result_head < 34
  pub result_tail_in : a.result_tail < 34

push_result-IsBounded :
    (a : Async) (w ordinal : ℕ) (r : Result)
    → IsBounded a w
    → a.job_count + a.inflight_count + a.result_count < 34
    → IsBounded (push_result a ordinal r) w
unfolding push_result
push_result-IsBounded a w ordinal r b room = ground arith

release_budget-IsBounded :
    (used : Bool) (a : Async) (w : ℕ) → IsBounded a w → IsBounded (release_budget used a) w
unfolding release_budget
release_budget-IsBounded used a w b = ground arith

load : Async → ℕ
load a = a.job_count + a.inflight_count + a.result_count

release_budget-load : (used : Bool) (a : Async) → load (release_budget used a) ≡ load a
unfolding release_budget load
release_budget-load used a = ground arith

without_oldest-IsBounded :
    (a : Async) (w : ℕ)
    → IsBounded a w
    → 0 < a.job_count
    → IsBounded (without_oldest a) w × (suc (load (without_oldest a)) ≡ load a)
unfolding without_oldest load
without_oldest-IsBounded a w b pos = (ground arith, ground arith)

push_result_counts :
    (a : Async) (ordinal : ℕ) (r : Result)
    → a.result_count < 34
    → (load (push_result a ordinal r) ≡ suc (load a))
      × ((push_result a ordinal r).job_count ≡ a.job_count)
      × ((push_result a ordinal r).active_translation_count ≡ a.active_translation_count)
unfolding push_result load
push_result_counts a ordinal r room = (ground arith, ground arith, ground arith)

release_budget_counts :
    (used : Bool) (a : Async)
    → ((release_budget used a).active_translation_count ≤ a.active_translation_count)
      × ((release_budget used a).job_count ≡ a.job_count)
      × ((release_budget used a).result_count ≡ a.result_count)
      × ((release_budget used a).inflight_count ≡ a.inflight_count)
unfolding release_budget
release_budget_counts used a = (ground arith, ground arith, ground arith, ground arith)

-- A queue with room for a job, of the same load.
record HasRoom (a e : Async) (w : ℕ) : Type 0 where
  bounded : IsBounded e w
  same_load : load e ≡ load a
  room : e.job_count < 32
  budget_left : e.active_translation_count ≤ a.active_translation_count

without_oldest_counts :
    (a : Async)
    → ((without_oldest a).active_translation_count ≡ a.active_translation_count)
      × ((without_oldest a).job_count ≡ a.job_count - 1)
unfolding without_oldest
without_oldest_counts a = (refl, refl)

evicted-HasRoom :
    (a : Async) (w : ℕ) (used : Bool) (ordinal : ℕ) (r : Result)
    → IsBounded a w
    → load a < 34
    → 32 ≤ a.job_count
    → HasRoom a (push_result (release_budget used (without_oldest a)) ordinal r) w
unfolding load
evicted-HasRoom a w used ordinal r b free full =
    let fewer = without_oldest a in
    let freed = release_budget used fewer in
    let (b1, load1) = without_oldest-IsBounded a w b (omega arith) in
    let (active1, jobs1) = without_oldest_counts a in
    let b2 = release_budget-IsBounded used fewer w b1 in
    let load2 = release_budget-load used fewer in
    let (active2, jobs2, results2, inflight2) = release_budget_counts used fewer in
    let small : freed.job_count + freed.inflight_count + freed.result_count < 34 =
      omega (arith, load1, load2, free) in
    let (load3, jobs3, active3) = push_result_counts freed ordinal r (omega arith) in
    record {
      bounded = push_result-IsBounded freed w ordinal r b2 small;
      same_load = omega (arith, load1, load2, load3);
      room = omega (arith, jobs1, jobs2, jobs3, b.jobs_fit, full);
      budget_left = omega (arith, active1, active2, active3);
    }

evict-HasRoom :
    (a : Async) (w : ℕ)
    → IsBounded a w
    → load a < 34
    → 32 ≤ a.job_count
    → HasRoom a (evict_oldest a) w
unfolding evict_oldest
evict-HasRoom a w b free full = evicted-HasRoom a w _ _ _ b free full

enqueue_job-IsBounded :
    (a e : Async) (w : ℕ) (segment : CaptionSegment) (text : List ℕ) (source target : Pointer)
    → HasRoom a e w
    → load a < 34
    → IsBounded a w
    → IsBounded
        (enqueue_job e
          (new_job e segment text source target (leb active_budget a.active_translation_count)))
        w
unfolding enqueue_job new_job load
enqueue_job-IsBounded a e w segment text source target h free b =
    let bounded = h.bounded in
    let same = h.same_load in let room = h.room in let left = h.budget_left in ground arith

without_result-IsBounded :
    (a : Async) (w index : ℕ) → IsBounded a w → IsBounded (remove_result a index) w
unfolding remove_result
without_result-IsBounded a w index b = ground arith

-- A thread is done with its job.
abbrev idle_again : Async → Async
idle_again a = record a { inflight_count = a.inflight_count - 1 }

pushed-IsBounded :
    (a : Async) (w ordinal : ℕ) (r : Result)
    → IsBounded a (suc w)
    → IsBounded (idle_again (push_result a ordinal r)) w
unfolding push_result
pushed-IsBounded a w ordinal r b = ground arith

idle_again-IsBounded : (a : Async) (w : ℕ) → IsBounded a (suc w) → IsBounded (idle_again a) w
idle_again-IsBounded a w b = ground arith

pub complete_job-IsBounded :
    (a : Async) (w : ℕ) (job : Job) (t : Translation)
    → IsBounded a (suc w)
    → IsBounded (complete_job a job t) w
unfolding complete_job
complete_job-IsBounded a w job t b =
    let used = not job.skip_translation && job.epoch == a.epoch in
    let freed = release_budget used a in
    let b' = release_budget-IsBounded used a (suc w) b in
    pick {A = Async} (λ x. IsBounded (idle_again x) w) (not a.stopping && job.epoch == a.epoch)
      (λ wanted. pushed-IsBounded freed w job.ordinal (result_of job t) b')
      (λ stale. idle_again-IsBounded freed w b')

pub clear-IsBounded :
    (a : Async) (w : ℕ) → IsBounded a w → IsBounded (invalidate a) w × IsBounded (stop_all a) w
unfolding invalidate stop_all empty_queues
clear-IsBounded a w b = (ground arith, ground arith)

free_of :
    (a : Async)
    → leb result_capacity (a.job_count + a.inflight_count + a.result_count) ≡ false
    → load a < 34
unfolding load
free_of a room = ground arith

ready-HasRoom :
    (a : Async) (w : ℕ)
    → IsBounded a w
    → load a < 34
    → HasRoom a (if leb queue_capacity a.job_count then evict_oldest a else a) w
ready-HasRoom a w b free =
    pick {A = Async} (λ e. HasRoom a e w) (leb queue_capacity a.job_count)
      (λ full. evict-HasRoom a w b free (ground arith))
      (λ room. record {
        bounded = b;
        same_load = refl;
        room = ground arith;
        budget_left = omega arith;
      })

pub submit-IsBounded :
    (a : Async) (w : ℕ) (segment : CaptionSegment) (source target : Pointer)
    → IsBounded a w
    → IsBounded (submit a segment source target).1 w
unfolding submit
submit-IsBounded a w segment source target b =
    let text = Option.get_or segment.text_utf8 [] in
    pick {A = Bool × Async} (λ r. IsBounded r.1 w)
      (length text == 0 || ltb max_text_bytes (length text)) (λ bad. b)
      (λ good.
        pick {A = Bool × Async} (λ r. IsBounded r.1 w) a.stopping (λ stopped. b)
          (λ runs.
            pick {A = Bool × Async} (λ r. IsBounded r.1 w)
              (leb result_capacity (a.job_count + a.inflight_count + a.result_count)) (λ full. b)
              (λ room.
                enqueue_job-IsBounded a
                  (if leb queue_capacity a.job_count then evict_oldest a else a) w segment text
                  source target (ready-HasRoom a w b (free_of a room)) (free_of a room) b)))

pop_found-IsBounded :
    (a : Async) (w : ℕ) (o : Option ℕ) → IsBounded a w → IsBounded (pop_found a o).1 w
unfolding pop_found
pop_found-IsBounded a w none b = b
pop_found-IsBounded a w (some i) b = without_result-IsBounded a w i b

pub deliver_found-IsBounded :
    (a : Async) (w : ℕ) (o : Option ℕ) → IsBounded a w → IsBounded (deliver_found a o).1 w
unfolding deliver_found
deliver_found-IsBounded a w none b = b
deliver_found-IsBounded a w (some i) b =
    pick {A = Option Result × Async} (λ r. IsBounded r.1 w)
      (not ((completion_at a i).result.epoch == a.epoch))
      (λ stale. without_result-IsBounded a w i b) (λ current. without_result-IsBounded a w i b)

pub try_pop-IsBounded : (a : Async) (w : ℕ) → IsBounded a w → IsBounded (try_pop a).1 w
unfolding try_pop
try_pop-IsBounded a w b =
    pick {A = Option Result × Async} (λ r. IsBounded r.1 w) (a.result_count == 0) (λ none_there. b)
      (λ some_there. pop_found-IsBounded a w (find_next_result a) b)
