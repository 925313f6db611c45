-- ===== src/TranslateAsync/Epochs.antt =====
-- The epochs of the jobs of worker/src/vw_translate_async.c: behind an invalidation no job of before
-- gives a result.
use mathlib.Core.Path.{subst}
use mathlib.Core.Option
use vlc_whisper.Common.{
  ℕ, zero, suc, ◌+◌, ◌-◌, ◌^◌, ◌≤◌, ◌<◌, ◌≡◌, refl, sym, ◌∙◌, Bool, true, false, ◌&&◌, ◌||◌, ltb,
  not, Option, none, some, List, [], ◌∷◌, ◌++◌, arith, leb, ◌==◌, if◌then◌else◌, get_or, set, take,
  drop, length, pick, All, replicate,
}
use vlc_whisper.Protocol.Types.{CaptionSegment, Pointer, max_text_bytes}
use vlc_whisper.TranslateAsync.{
  Job, Result, Async, active_budget, queue_capacity, result_capacity, blank_job, push_result,
  remove_result, find_next_result, bind_result_text, empty_queues, invalidate, next_ordinal,
}
use vlc_whisper.TranslateAsync.Step.{
  without_oldest, release_budget, evict_oldest, new_job, enqueue_job, submit, Translation, take_job,
  complete_job, deliver_found, try_deliver, result_of, oldest_job, completion_at, local_failure,
}
use vlc_whisper.TranslateAsync.Bounds.{Pool, takes, completes, act, taken_by}

-- Jobs of epochs up to `epoch`.
abbrev pub UpTo : ℕ → List Job → Type 0
UpTo epoch jobs = All (λ j. j.epoch ≤ epoch) jobs

-- No job is of a later epoch than the translator's, whose count does not start anew soon.
pub record IsTimely (p : Pool) : Type 0 where
  pub queued : UpTo p.async.epoch p.async.jobs
  pub working : UpTo p.async.epoch p.working
  pub room : p.async.epoch < 2 ^ 64 - 1

UpTo-get_or : (e i : ℕ) (jobs : List Job) → UpTo e jobs → (get_or jobs i blank_job).epoch ≤ e
UpTo-get_or e i [] u = ground arith
UpTo-get_or e zero (j ∷ js) u = u.0
UpTo-get_or e (suc i) (j ∷ js) u = UpTo-get_or e i js u.1

UpTo-set : (e i : ℕ) (j : Job) (jobs : List Job) → j.epoch ≤ e → UpTo e jobs → UpTo e (set jobs i j)
UpTo-set e i j [] le u = tt
UpTo-set e zero j (k ∷ ks) le u = (le, u.1)
UpTo-set e (suc i) j (k ∷ ks) le u = (u.0, UpTo-set e i j ks le u.1)

UpTo-add : (e : ℕ) (js ks : List Job) → UpTo e js → UpTo e ks → UpTo e (js ++ ks)
UpTo-add e [] ks u v = v
UpTo-add e (j ∷ js) ks u v = (u.0, UpTo-add e js ks u.1 v)

UpTo-take : (e i : ℕ) (js : List Job) → UpTo e js → UpTo e (take i js)
UpTo-take e zero js u = tt
UpTo-take e (suc i) [] u = tt
UpTo-take e (suc i) (j ∷ js) u = (u.0, UpTo-take e i js u.1)

UpTo-drop : (e i : ℕ) (js : List Job) → UpTo e js → UpTo e (drop i js)
UpTo-drop e zero js u = u
UpTo-drop e (suc i) [] u = tt
UpTo-drop e (suc i) (j ∷ js) u = UpTo-drop e i js u.1

pub UpTo-blank : (e n : ℕ) → UpTo e (replicate n blank_job)
UpTo-blank e zero = tt
UpTo-blank e (suc n) = (ground arith, UpTo-blank e n)

-- The queue and the epoch stay as they are.
abbrev Alike : Async → Async → Type 0
Alike a b = (b.epoch ≡ a.epoch) × (b.jobs ≡ a.jobs)

push_result-Alike :
    (a b : Async) (ordinal : ℕ) (r : Result) → Alike a b → Alike a (push_result b ordinal r)
unfolding push_result
push_result-Alike a b ordinal r alike =
    pick (λ x. Alike a x) (leb result_capacity b.result_count) (λ full. alike) (λ room. alike)

release_budget-Alike : (used : Bool) (a : Async) → Alike a (release_budget used a)
unfolding release_budget
release_budget-Alike used a =
    pick (λ x. Alike a x) _ (λ counted. (refl, refl)) (λ not_counted. (refl, refl))

evict_oldest-Alike : (a : Async) → Alike a (evict_oldest a)
unfolding evict_oldest without_oldest
evict_oldest-Alike a =
    let oldest = oldest_job a in
    push_result-Alike a (release_budget (not oldest.skip_translation) (without_oldest a))
      oldest.ordinal (bind_result_text record (local_failure oldest) { segment = oldest.segment })
      (release_budget-Alike (not oldest.skip_translation) (without_oldest a))

complete_job-Alike : (a : Async) (j : Job) (t : Translation) → Alike a (complete_job a j t)
unfolding complete_job
complete_job-Alike a j t =
    let freed = release_budget (not j.skip_translation && j.epoch == a.epoch) a in
    let same = release_budget-Alike (not j.skip_translation && j.epoch == a.epoch) a in
    pick (λ x. Alike a (record x { inflight_count = x.inflight_count - 1 }))
      (not a.stopping && j.epoch == a.epoch)
      (λ current. push_result-Alike a freed j.ordinal (result_of j t) same) (λ stale. same)

enqueue_job-UpTo :
    (a b : Async) (segment : CaptionSegment) (text : List ℕ) (source target : Pointer) (skip : Bool)
    → Alike a b
    → UpTo a.epoch a.jobs
    → let c = enqueue_job b (new_job b segment text source target skip) in
      (c.epoch ≡ a.epoch) × UpTo a.epoch c.jobs
unfolding enqueue_job new_job
enqueue_job-UpTo a b segment text source target skip alike u = (
  alike.0,
  UpTo-set a.epoch b.job_head _ b.jobs (omega (arith, alike.0))
      (subst (UpTo a.epoch) (sym alike.1) u),
)

abbrev KeptUp : Async → Bool × Async → Type 0
KeptUp a r = (r.1.epoch ≡ a.epoch) × UpTo a.epoch r.1.jobs

submit-UpTo :
    (a : Async) (segment : CaptionSegment) (source target : Pointer)
    → UpTo a.epoch a.jobs
    → KeptUp a (submit a segment source target)
unfolding submit
submit-UpTo a segment source target u =
    let text = Option.get_or segment.text_utf8 [] in
    let skip = leb active_budget a.active_translation_count in
    let evicted = if leb queue_capacity a.job_count then evict_oldest a else a in
    let alike : Alike a evicted =
      pick (λ x. Alike a x) (leb queue_capacity a.job_count) (λ full. evict_oldest-Alike a)
        (λ room. (refl, refl)) in
    let last : Bool × Async =
      (true, enqueue_job evicted (new_job evicted segment text source target skip)) in
    let after_room : Bool × Async =
      if leb result_capacity (a.job_count + a.inflight_count + a.result_count)
      then (false, a)
      else last in
    pick (λ r. KeptUp a r) (length text == 0 || ltb max_text_bytes (length text)) {x = (false, a)}
      {y = if a.stopping then (false, a) else after_room} (λ no_text. (refl, u))
      (λ fits.
        pick (λ r. KeptUp a r) a.stopping {x = (false, a)} {y = after_room} (λ stopping. (refl, u))
          (λ going.
            pick (λ r. KeptUp a r)
              (leb result_capacity (a.job_count + a.inflight_count + a.result_count))
              {x = (false, a)} {y = last} (λ full. (refl, u))
              (λ room. enqueue_job-UpTo a evicted segment text source target skip alike u)))

deliver_found-Alike : (a : Async) (o : Option ℕ) → Alike a (deliver_found a o).1
unfolding deliver_found remove_result
deliver_found-Alike a none = (refl, refl)
deliver_found-Alike a (some index) =
    pick (λ (x : Option Result × Async). Alike a x.1)
      (not ((completion_at a index).result.epoch == a.epoch)) (λ stale. (refl, refl))
      (λ current. (refl, refl))

-- What the worker's loop and the threads do between two invalidations keeps the jobs timely.
pub submit-IsTimely :
    (p : Pool) (segment : CaptionSegment) (source target : Pointer)
    → IsTimely p
    → IsTimely record p { async = (submit p.async segment source target).1 }
submit-IsTimely p segment source target t =
    let (same, queued) = submit-UpTo p.async segment source target t.queued in
    record { queued = rw same queued; working = rw same t.working; room = rw same t.room }

pub deliver-IsTimely :
    (p : Pool) → IsTimely p → IsTimely record p { async = (try_deliver p.async).1 }
unfolding try_deliver
deliver-IsTimely p t =
    let (same, jobs) = deliver_found-Alike p.async (find_next_result p.async) in
    record { queued = rw (same, jobs) t.queued; working = rw same t.working; room = rw same t.room }

pub take-IsTimely : (p : Pool) → IsTimely p → IsTimely (act p takes)
unfolding act take_job without_oldest
take-IsTimely p t =
    pick IsTimely (leb active_budget (length p.working)) (λ busy. t)
      (λ idle.
        pick {A = Option (Job × Async)} (λ o. IsTimely (taken_by p o)) (p.async.job_count == 0)
          (λ nothing. t)
          (λ some_left. record {
            queued = t.queued;
            working =
                UpTo-add p.async.epoch p.working (oldest_job p.async ∷ []) t.working
                  (UpTo-get_or p.async.epoch p.async.job_tail p.async.jobs t.queued, tt);
            room = t.room;
          }))

pub complete-IsTimely :
    (p : Pool) (i : ℕ) (t : Translation) → IsTimely p → IsTimely (act p (completes i t))
unfolding act
complete-IsTimely p i t timely =
    pick IsTimely (leb (length p.working) i) (λ outside. timely)
      (λ inside.
        let (same, jobs) = complete_job-Alike p.async (get_or p.working i blank_job) t in
        record {
          queued = rw (same, jobs) timely.queued;
          working = rw same (
              UpTo-add p.async.epoch (take i p.working) (drop (suc i) p.working)
                (UpTo-take p.async.epoch i p.working timely.working)
                (UpTo-drop p.async.epoch (suc i) p.working timely.working));
          room = rw same timely.room;
        })

-- Nothing is queued, nothing has come, and what is in work is of an earlier epoch.
pub record IsStale (p : Pool) : Type 0 where
  pub no_job : p.async.job_count ≡ 0
  pub no_result : p.async.result_count ≡ 0
  pub earlier : All (λ j. j.epoch < p.async.epoch) p.working

earlier-of : (e : ℕ) (js : List Job) → UpTo e js → All (λ j. j.epoch < e + 1) js
earlier-of e [] u = tt
earlier-of e (j ∷ js) u = (omega (arith, u.0), earlier-of e js u.1)

-- An invalidation makes all jobs stale, those in work too.
pub invalidate-IsStale : (p : Pool) → IsTimely p → IsStale record p { async = invalidate p.async }
unfolding invalidate empty_queues next_ordinal
invalidate-IsStale p t = record {
  no_job = refl;
  no_result = refl;
  earlier =
      pick (λ e. All (λ j. j.epoch < e) p.working) (p.async.epoch == 2 ^ 64 - 1)
        (λ last. absurd (ground (arith, t.room)))
        (λ before. earlier-of p.async.epoch p.working t.working);
}

Before-get_or :
    (e i : ℕ) (js : List Job)
    → i < length js
    → All (λ j. j.epoch < e) js
    → (get_or js i blank_job).epoch < e
Before-get_or e i [] lt u = absurd (omega (arith, lt))
Before-get_or e zero (j ∷ js) lt u = u.0
Before-get_or e (suc i) (j ∷ js) lt u = Before-get_or e i js (omega (arith, lt)) u.1

Before-without :
    (e i : ℕ) (js : List Job)
    → All (λ j. j.epoch < e) js
    → All (λ j. j.epoch < e) (take i js ++ drop (suc i) js)
Before-without e zero [] u = tt
Before-without e (suc i) [] u = tt
Before-without e zero (j ∷ js) u = u.1
Before-without e (suc i) (j ∷ js) u = (u.0, Before-without e i js u.1)

-- A job of another epoch gives no result.
complete_job-stale :
    (a : Async) (j : Job) (t : Translation)
    → j.epoch < a.epoch
    → let b = complete_job a j t in
      (b.epoch ≡ a.epoch) × (b.job_count ≡ a.job_count) × (b.result_count ≡ a.result_count)
unfolding complete_job release_budget
complete_job-stale a j t before = ground arith

-- However far the threads get with stale jobs, none gives a result.
pub take-IsStale : (p : Pool) → IsStale p → IsStale (act p takes)
unfolding act take_job
take-IsStale p s =
    pick IsStale (leb active_budget (length p.working)) (λ busy. s)
      (λ idle.
        pick {A = Option (Job × Async)} (λ o. IsStale (taken_by p o)) (p.async.job_count == 0)
          (λ nothing. s) (λ some_left. absurd (ground (arith, s.no_job))))

pub complete-IsStale :
    (p : Pool) (i : ℕ) (t : Translation) → IsStale p → IsStale (act p (completes i t))
unfolding act
complete-IsStale p i t s =
    pick IsStale (leb (length p.working) i) (λ outside. s)
      (λ inside.
        let before = Before-get_or p.async.epoch i p.working (ground arith) s.earlier in
        let (same, jobs, results) =
          complete_job-stale p.async (get_or p.working i blank_job) t before in
        record {
          no_job = jobs ∙ s.no_job;
          no_result = results ∙ s.no_result;
          earlier = rw same (Before-without p.async.epoch i p.working s.earlier);
        })
