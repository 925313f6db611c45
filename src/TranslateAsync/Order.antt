-- ===== src/TranslateAsync/Order.antt =====
-- In which order worker/src/vw_translate_async.c hands out the completed cues.
use mathlib.Core.Path.{subst}
use vlc_whisper.Common.{
  ℕ, zero, suc, ◌+◌, ◌%◌, ◌<◌, ◌≡◌, refl, ap, ◌∙◌, Bool, true, false, Option, none, some, List, [],
  ◌∷◌, arith, ◌==◌, if◌then◌else◌, inl, inr, Bool-cases,
}
use vlc_whisper.Common.Ring.{window, window-mod}
use vlc_whisper.TranslateAsync.{
  Result, Completion, Async, result_capacity, blank_completion, next_ordinal, find_from,
  find_next_result, remove_result, bind_result_text,
}
use vlc_whisper.TranslateAsync.Step.{
  has_result, completion_at, pop_found, try_pop, deliver_found, try_deliver,
}

-- The completed cues, in the order in which they were completed.
abbrev pub waiting : Async → List Completion
waiting a = window blank_completion a.results result_capacity a.result_tail a.result_count

-- The cue with the ordinal `ordinal`.
unfoldable pub due : ℕ → List Completion → Option Result
due ordinal [] = none
due ordinal (c ∷ cs) =
    let rest = due ordinal cs in if c.ordinal == ordinal then some c.result else rest

-- What is handed out, if it belongs to the epoch.
unfoldable pub current : ℕ → Option Result → Option Result
current epoch none = none
current epoch (some r) = if r.epoch == epoch then some (bind_result_text r) else none

unfoldable pub popped : Option Result → Option Result
popped none = none
popped (some r) = some (bind_result_text r)

unfoldable pub is_there : Option Result → Bool
is_there none = false
is_there (some r) = true

-- The ordinal that is due after a cue is handed out or dropped.
unfoldable pub due_next : ℕ → Option Result → ℕ
due_next ordinal none = ordinal
due_next ordinal (some r) = next_ordinal ordinal

abbrev found_in : Async → Option ℕ → Option Result
found_in a none = none
found_in a (some i) = some (completion_at a i).result

find_from-due :
    (a : Async) (index n : ℕ)
    → index < 34
    → found_in a (find_from a index n)
      ≡ due a.next_result_ordinal (window blank_completion a.results result_capacity index n)
unfolding find_from due
find_from-due a index zero lt = refl
find_from-due a index (suc n) lt =
    let here : index % 34 ≡ index = omega arith in
    let next : (index + 1) % 34 % 34 ≡ suc index % 34 = omega arith in
    let later =
      find_from-due a ((index + 1) % 34) n (omega arith)
      ∙ ap (due a.next_result_ordinal)
          (window-mod blank_completion a.results 34 ((index + 1) % 34) (suc index) n next) in
    rw here (elim (Bool-cases ((completion_at a index).ordinal == a.next_result_ordinal)) [
      | inl same ↦ rw same refl
      | inr other ↦ rw other later
    ])

find_next_result-due :
    (a : Async)
    → a.result_tail < 34
    → found_in a (find_next_result a) ≡ due a.next_result_ordinal (waiting a)
unfolding find_next_result
find_next_result-due a lt = find_from-due a a.result_tail a.result_count lt

found_there :
    (a : Async) (o : Option ℕ)
    → elim o [ none ↦ false | some index ↦ true ] ≡ is_there (found_in a o)
unfolding is_there
found_there a none = refl
found_there a (some i) = refl

-- What has been found is what is handed out.
pub record HandsOut (a : Async) (answer : Option Result × Async) (expected due_one : Option Result)
    : Type 0 where
  pub result : answer.0 ≡ expected
  pub ordinal : answer.1.next_result_ordinal ≡ due_next a.next_result_ordinal due_one

pop_found-HandsOut :
    (a : Async) (o : Option ℕ) → HandsOut a (pop_found a o) (popped (found_in a o)) (found_in a o)
unfolding pop_found popped due_next remove_result
pop_found-HandsOut a none = record { result = refl; ordinal = refl }
pop_found-HandsOut a (some i) = record { result = refl; ordinal = refl }

deliver_found-HandsOut :
    (a : Async) (o : Option ℕ)
    → HandsOut a (deliver_found a o) (current a.epoch (found_in a o)) (found_in a o)
unfolding deliver_found current due_next remove_result
deliver_found-HandsOut a none = record { result = refl; ordinal = refl }
deliver_found-HandsOut a (some i) =
    elim (Bool-cases ((completion_at a i).result.epoch == a.epoch)) [
      | inl same ↦ rw same record { result = refl; ordinal = refl }
      | inr other ↦ rw other record { result = refl; ordinal = refl }
    ]

unfoldable pub due_one : Async → Option Result
due_one a = due a.next_result_ordinal (waiting a)

try_deliver-HandsOut :
    (a : Async)
    → a.result_tail < 34
    → HandsOut a (try_deliver a) (current a.epoch (due_one a)) (due_one a)
unfolding try_deliver due_one
try_deliver-HandsOut a lt =
    subst (λ d. HandsOut a (try_deliver a) (current a.epoch d) d) (find_next_result-due a lt)
      (deliver_found-HandsOut a (find_next_result a))

try_pop-HandsOut :
    (a : Async) → a.result_tail < 34 → HandsOut a (try_pop a) (popped (due_one a)) (due_one a)
unfolding try_pop due_one due popped due_next
try_pop-HandsOut a lt = elim (Bool-cases (a.result_count == 0)) [
  | inl empty ↦
      let zero_count : a.result_count ≡ 0 = ground arith in
      rw (empty, zero_count) record { result = refl; ordinal = refl }
  | inr full ↦ rw full (
      subst (λ d. HandsOut a (pop_found a (find_next_result a)) (popped d) d)
        (find_next_result-due a lt) (pop_found-HandsOut a (find_next_result a)))
]

-- vw_translate_async_has_result says whether the cue with the next ordinal is among those completed;
-- vw_translate_async_try_pop hands it out if it is, whatever was completed before it, and
-- vw_translate_async_try_deliver hands it out if it belongs to the epoch and drops it if not. Then the
-- ordinal after it is due; without it, no cue is handed out and the same ordinal stays due.
pub calls-HandOut :
    (a : Async)
    → a.result_tail < 34
    → (has_result a ≡ is_there (due_one a))
      × HandsOut a (try_pop a) (popped (due_one a)) (due_one a)
      × HandsOut a (try_deliver a) (current a.epoch (due_one a)) (due_one a)
unfolding has_result due_one
calls-HandOut a lt = (
  found_there a (find_next_result a) ∙ ap is_there (find_next_result-due a lt),
  try_pop-HandsOut a lt,
  try_deliver-HandsOut a lt,
)
