-- ===== src/WorkerQueue/Directives.antt =====
-- Which frames of the queue of worker/src/vw_worker_queue.c survive a push.
use mathlib.Core.Path.{subst}
use vlc_whisper.Common.{
  ℕ, zero, suc, ◌<◌, ◌≡◌, refl, ap, sym, ◌∙◌, Bool, true, false, ◌||◌, ◌⊎◌, inl, inr, some, List,
  [], ◌∷◌, ◌++◌, arith, ltb, ◌==◌, if◌then◌else◌, length, get_or, Bool-cases, Option-cases,
}
use vlc_whisper.WorkerQueue.{
  Frame, WorkerQueue, blank_frame, is_audio, is_shutdown, is_superseded, is_not_shutdown, push,
}
use vlc_whisper.WorkerQueue.Shift.{remove_at}
use vlc_whisper.WorkerQueue.Fifo.{find_index, victim_for, offer, find_index-found}
use vlc_whisper.WorkerQueue.Refine.{IsValid, contents}
use vlc_whisper.WorkerQueue.Outcome.{victim_for-by, victim_for-oldest, victim_for-audio}
use vlc_whisper.WorkerQueue.Policy.{push-offer}

-- Whether a list has a frame with the test.
unfoldable pub any : (Frame → Bool) → List Frame → Bool
any test [] = false
any test (f ∷ fs) = test f || any test fs

-- The frames without the test, in order.
unfoldable pub others : (Frame → Bool) → List Frame → List Frame
others test [] = []
others test (f ∷ fs) = let rest = others test fs in if test f then rest else f ∷ rest

any-append :
    (test : Frame → Bool) (fs gs : List Frame) → any test (fs ++ gs) ≡ any test fs || any test gs
unfolding any
any-append test [] gs = refl
any-append test (f ∷ fs) gs = ground (arith, any-append test fs gs)

any-remove_at :
    (test : Frame → Bool) (fs : List Frame) (k : ℕ)
    → test (get_or fs k blank_frame) ≡ false
    → any test fs ≡ true
    → any test (remove_at k fs) ≡ true
unfolding any
any-remove_at test [] k out e = e
any-remove_at test (f ∷ fs) zero out e = ground arith
any-remove_at test (f ∷ fs) (suc k) out e = elim (Bool-cases (test f)) [
  | inl here ↦ rw here refl
  | inr gone ↦ rw gone (any-remove_at test fs k out (ground arith))
]

others-append :
    (test : Frame → Bool) (fs : List Frame) (f : Frame)
    → test f ≡ true
    → others test (fs ++ f ∷ []) ≡ others test fs
unfolding others
others-append test [] f e = rw e refl
others-append test (g ∷ fs) f e = elim (Bool-cases (test g)) [
  | inl here ↦ rw here (others-append test fs f e)
  | inr gone ↦ rw gone (ap (◌∷◌ g) (others-append test fs f e))
]

others-remove_at :
    (test : Frame → Bool) (fs : List Frame) (k : ℕ)
    → k < length fs
    → test (get_or fs k blank_frame) ≡ true
    → others test (remove_at k fs) ≡ others test fs
unfolding others
others-remove_at test [] k lt e = refl
others-remove_at test (f ∷ fs) zero lt e = rw e refl
others-remove_at test (f ∷ fs) (suc k) lt e = elim (Bool-cases (test f)) [
  | inl here ↦ rw here (others-remove_at test fs k (omega arith) e)
  | inr gone ↦ rw gone (ap (◌∷◌ f) (others-remove_at test fs k (omega arith) e))
]

audio_type : (f : Frame) → is_audio f ≡ true → (f.type == 4) ≡ true
unfolding is_audio
audio_type f e = e

shutdown_type : (f : Frame) → (f.type == 11) ≡ true → is_shutdown f ≡ true
unfolding is_shutdown
shutdown_type f e = e

audio_spares : (f : Frame) → is_audio f ≡ true → is_shutdown f ≡ false
unfolding is_audio is_shutdown
audio_spares f e = ground arith

superseded_spares :
    (type : ℕ) (f : Frame)
    → (type == 11) ≡ false
    → is_superseded type f ≡ true
    → is_shutdown f ≡ false
unfolding is_superseded is_shutdown
superseded_spares type f going e = ground arith

not_shutdown_spares : (f : Frame) → is_not_shutdown f ≡ true → is_shutdown f ≡ false
unfolding is_shutdown
not_shutdown_spares f e = ground arith

-- A frame that gives way to another is no SHUTDOWN, unless the other is one.
victim-spares :
    (type : ℕ) (fs : List Frame) (k : ℕ)
    → (type == 11) ≡ false
    → victim_for type fs ≡ some k
    → is_shutdown (get_or fs k blank_frame) ≡ false
victim-spares type fs k going e = elim (Option-cases (find_index is_audio fs)) [
  | inr found ↦
      let at : found.0 ≡ k = ground (arith, victim_for-oldest type fs found.0 found.1) in
      audio_spares _ (
        subst (λ j. is_audio (get_or fs j blank_frame) ≡ true) at
          (find_index-found is_audio fs found.0 found.1).1)
  | inl found ↦ elim (Bool-cases (type == 4)) [
    | inl audio ↦ ground (arith, victim_for-audio type fs found audio)
    | inr control ↦
        victim_for-by (λ j. is_shutdown (get_or fs j blank_frame) ≡ false) type fs k found control
          (λ off. ground arith)
          (λ j h. superseded_spares type _ going (find_index-found (is_superseded type) fs j h).1)
          (λ j h. not_shutdown_spares _ (find_index-found is_not_shutdown fs j h).1) e
  ]
]

any-end :
    (test : Frame → Bool) (fs : List Frame) (f : Frame)
    → ((any test fs ≡ true) ⊎ (test f ≡ true))
    → any test (fs ++ f ∷ []) ≡ true
any-end test fs f h = any-append test fs (f ∷ []) ∙ unfold any in ground arith

offer-keeps_shutdown :
    (room : ℕ) (fs : List Frame) (f : Frame)
    → any is_shutdown fs ≡ true
    → any is_shutdown (offer room fs f).1 ≡ true
unfolding offer
offer-keeps_shutdown room fs f held = elim (Bool-cases (ltb (length fs) room)) [
  | inl free ↦ rw free (any-end is_shutdown fs f (inl held))
  | inr full ↦ elim (Option-cases (victim_for f.type fs)) [
    | inl none_out ↦ rw (full, none_out, offer) held
    | inr chosen ↦ elim (Bool-cases (f.type == 11)) [
      | inl off ↦
          rw (full, chosen.1, offer)
            (any-end is_shutdown (remove_at chosen.0 fs) f (inr (shutdown_type f off)))
      | inr going ↦
          rw (full, chosen.1, offer)
            (any-end is_shutdown (remove_at chosen.0 fs) f (
              inl (
                any-remove_at is_shutdown fs chosen.0
                  (victim-spares f.type fs chosen.0 going chosen.1) held)))
    ]
  ]
]

-- Audio takes the place of audio only.
victim-audio :
    (type : ℕ) (fs : List Frame) (k : ℕ)
    → (type == 4) ≡ true
    → victim_for type fs ≡ some k
    → (k < length fs) × (is_audio (get_or fs k blank_frame) ≡ true)
victim-audio type fs k audio e = elim (Option-cases (find_index is_audio fs)) [
  | inl found ↦ ground (arith, victim_for-audio type fs found audio)
  | inr found ↦
      find_index-found is_audio fs k (found.1 ∙ sym (victim_for-oldest type fs found.0 found.1) ∙ e)
]

offer-keeps_controls :
    (room : ℕ) (fs : List Frame) (f : Frame)
    → is_audio f ≡ true
    → others is_audio (offer room fs f).1 ≡ others is_audio fs
unfolding offer
offer-keeps_controls room fs f audio = elim (Bool-cases (ltb (length fs) room)) [
  | inl free ↦ rw free (others-append is_audio fs f audio)
  | inr full ↦ elim (Option-cases (victim_for f.type fs)) [
    | inl none_out ↦ rw (full, none_out, offer) refl
    | inr chosen ↦
        let (lt, out) = victim-audio f.type fs chosen.0 (audio_type f audio) chosen.1 in
        rw (full, chosen.1, offer)
          (others-append is_audio (remove_at chosen.0 fs) f audio
            ∙ others-remove_at is_audio fs chosen.0 lt out)
  ]
]

-- A valid queue with a SHUTDOWN in it has one after any `push`.
pub push-keeps_shutdown :
    (q : WorkerQueue) (f : Frame)
    → IsValid q
    → any is_shutdown (contents q) ≡ true
    → any is_shutdown (contents (push q f).1) ≡ true
push-keeps_shutdown q f v held =
    ap (λ r. any is_shutdown r.1) (push-offer q f v).0
    ∙ offer-keeps_shutdown q.capacity (contents q) f held

-- A `push` of audio keeps every frame that is not audio, in its order.
pub push-keeps_controls :
    (q : WorkerQueue) (f : Frame)
    → IsValid q
    → is_audio f ≡ true
    → others is_audio (contents (push q f).1) ≡ others is_audio (contents q)
push-keeps_controls q f v audio =
    ap (λ r. others is_audio r.1) (push-offer q f v).0
    ∙ offer-keeps_controls q.capacity (contents q) f audio
