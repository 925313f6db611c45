-- ===== src/WorkerQueue/Outcome.antt =====
-- The three ways that vw_worker_queue_push of worker/src/vw_worker_queue.c can go.
use native.Mathlib.Decide.{dec_lt}
use mathlib.Core.Path.{subst}
use vlc_whisper.Common.{
  ℕ, zero, suc, ◌≤◌, ◌<◌, ◌≡◌, refl, ap, sym, ◌∙◌, Bool, true, false, ◌||◌, ◌⊎◌, inl, inr, Option,
  none, some, List, arith, ◌==◌, if◌then◌else◌, length, Bool-cases, Option-cases,
}
use vlc_whisper.WorkerQueue.{
  Frame, WorkerQueue, store, is_audio, is_superseded, is_not_shutdown, push,
  frame_audio_duration_us, add_u64,
}
use vlc_whisper.WorkerQueue.Fifo.{find_index, victim_for, find_index-found}
use vlc_whisper.WorkerQueue.Refine.{IsValid, count, contents, length-contents}
use vlc_whisper.WorkerQueue.Push.{
  evict, push-stored, silent, push-audio_out, push-audio_refused, push-control_out,
  push-control_refused,
}

-- What holds of the frame that a control frame displaces, by the reason for which it goes.
victim-control :
    (P : ℕ → Type 0) (k : ℕ) (shutting_down required : Bool) (soft oldest : Option ℕ)
    → (shutting_down ≡ true → P 0)
    → ((j : ℕ) → soft ≡ some j → P j)
    → ((j : ℕ) → oldest ≡ some j → P j)
    → (if shutting_down
        then some 0
        else elim soft [ some k ↦ some k | none ↦ if required then oldest else none ])
      ≡ some k
    → P k
victim-control P zero true required soft oldest z s o e = z refl
victim-control P (suc k) true required soft oldest z s o e = ground arith
victim-control P k false required (some j) oldest z s o e = s k e
victim-control P k false true none oldest z s o e = o k e
victim-control P k false false none oldest z s o e = ground arith

victim_for-control :
    (type : ℕ) (fs : List Frame)
    → find_index is_audio fs ≡ none
    → (type == 4) ≡ false
    → victim_for type fs ≡ (
        if type == 11 then some 0 else elim (find_index (is_superseded type) fs) [
          | some k ↦ some k
          | none ↦ if type == 3 || type == 7 then find_index is_not_shutdown fs else none
        ])
unfolding victim_for
victim_for-control type fs found control = rw (found, control, victim_for) refl

pub victim_for-audio :
    (type : ℕ) (fs : List Frame)
    → find_index is_audio fs ≡ none
    → (type == 4) ≡ true
    → victim_for type fs ≡ none
unfolding victim_for
victim_for-audio type fs found audio = rw (found, audio, victim_for) refl

pub victim_for-oldest :
    (type : ℕ) (fs : List Frame) (k : ℕ)
    → find_index is_audio fs ≡ some k
    → victim_for type fs ≡ some k
unfolding victim_for
victim_for-oldest type fs k found = rw (found, victim_for) refl

pub victim_for-by :
    (P : ℕ → Type 0) (type : ℕ) (fs : List Frame) (k : ℕ)
    → find_index is_audio fs ≡ none
    → (type == 4) ≡ false
    → ((type == 11) ≡ true → P 0)
    → ((j : ℕ) → find_index (is_superseded type) fs ≡ some j → P j)
    → ((j : ℕ) → find_index is_not_shutdown fs ≡ some j → P j)
    → victim_for type fs ≡ some k
    → P k
victim_for-by P type fs k found control z s o e =
    victim-control P k (type == 11) (type == 3 || type == 7) (find_index (is_superseded type) fs)
      (find_index is_not_shutdown fs) z s o (sym (victim_for-control type fs found control) ∙ e)

victim_for-in :
    (type : ℕ) (fs : List Frame) (k : ℕ)
    → 0 < length fs
    → find_index is_audio fs ≡ none
    → (type == 4) ≡ false
    → victim_for type fs ≡ some k
    → k < length fs
victim_for-in type fs k held found control =
    victim_for-by (λ j. j < length fs) type fs k found control (λ going. held)
      (λ j h. (find_index-found (is_superseded type) fs j h).0)
      (λ j h. (find_index-found is_not_shutdown fs j h).0)

-- The three ways a push can go.
abbrev pub Outcome : WorkerQueue → Frame → Type 0
Outcome q f =
    ((count q < q.capacity)
      × (push q f ≡ (
        true,
        store (record q { queued_audio_us = add_u64 q.queued_audio_us (frame_audio_duration_us f) })
            f,
      )))
    ⊎ ((q.capacity ≤ count q)
        × ((k : ℕ) × (victim_for f.type (contents q) ≡ some k)
            × (k < count q)
            × (push q f ≡ (true, evict q k f))))
    ⊎ ((q.capacity ≤ count q)
        × (victim_for f.type (contents q) ≡ none)
        × (push q f ≡ (
          false,
          record q { dropped_audio_us = add_u64 q.dropped_audio_us (frame_audio_duration_us f) },
        )))

-- A full queue without audio, given a control frame.
control-Outcome :
    (q : WorkerQueue) (f : Frame)
    → IsValid q
    → q.capacity ≤ count q
    → find_index is_audio (contents q) ≡ none
    → (f.type == 4) ≡ false
    → Outcome q f
control-Outcome q f v full found control = elim (Option-cases (victim_for f.type (contents q))) [
  | inl none_out ↦ inr (
      inr (
        full,
        none_out,
        push-control_refused q f full found control none_out
            ∙ ap (λ us. (false, record q { dropped_audio_us = us }))
                (omega (arith, silent f control, v.dropped_in)),
      ))
  | inr chosen ↦
      let (k, out) = chosen in
      let lt : k < count q =
        subst (λ n. k < n) (length-contents q)
          (victim_for-in f.type (contents q) k (omega (arith, length-contents q, v.some_room)) found
            control out) in
      inr (inl (full, (k, out, lt, push-control_out q f k v full found control out lt)))
]

audio_out-Outcome :
    (q : WorkerQueue) (f : Frame) (k : ℕ)
    → q.capacity ≤ count q
    → find_index is_audio (contents q) ≡ some k
    → Outcome q f
audio_out-Outcome q f k full found = inr (
    inl (
      full,
      (
        k,
        victim_for-oldest f.type (contents q) k found,
        subst (λ n. k < n) (length-contents q) (find_index-found is_audio (contents q) k found).0,
        push-audio_out q f k full found,
      ),
    ))

full-Outcome : (q : WorkerQueue) (f : Frame) → IsValid q → q.capacity ≤ count q → Outcome q f
full-Outcome q f v full = elim (Option-cases (find_index is_audio (contents q))) [
  | inl found ↦ elim (Bool-cases (f.type == 4)) [
    | inl audio ↦ inr (
        inr (
          full,
          victim_for-audio f.type (contents q) found audio,
          push-audio_refused q f full found audio,
        ))
    | inr control ↦ control-Outcome q f v full found control
  ]
  | inr found ↦ audio_out-Outcome q f found.0 full found.1
]

pub push-Outcome : (q : WorkerQueue) (f : Frame) → IsValid q → Outcome q f
push-Outcome q f v = elim (dec_lt (count q) q.capacity) [
  | yes free ↦ inl (free, push-stored q f free)
  | no full ↦ full-Outcome q f v (omega arith)
]
