-- ===== src/WorkerQueue/Rule.antt =====
-- Which frame gives way in a full queue of worker/src/vw_worker_queue.c: the oldest of those that can
-- be spared best. The comment in vw_worker_queue_push says that only PAUSE and RESUME can be dropped;
-- by the rule here, which the code follows, any other frame but SHUTDOWN can be dropped too, when no
-- queued frame is spared for it.
use vlc_whisper.Common.{
  ℕ, zero, suc, ◌≤◌, ◌<◌, ◌≡◌, refl, Bool, true, false, ◌&&◌, ◌||◌, Option, none, some, List, [],
  ◌∷◌, arith, ◌==◌, if◌then◌else◌, length, get_or, pick, Option-cases, inl, inr,
}
use vlc_whisper.WorkerQueue.{Frame, blank_frame, is_audio, is_superseded, is_not_shutdown}
use vlc_whisper.WorkerQueue.Fifo.{bump, find_index, find_index-found, victim_for}

-- How ill a queued frame can be spared for one of type `type`: audio best; then PAUSE, RESUME and what
-- has the same type, and for SHUTDOWN anything; then, for START_SESSION and STOP_SESSION, anything but
-- SHUTDOWN. At 3 it is not spared; but audio, nothing is spared for audio.
unfoldable pub rank : ℕ → Frame → ℕ
rank type f =
    if is_audio f
    then 0
    else if type == 4
    then 3
    else if type == 11 || is_superseded type f
    then 1
    else if (type == 3 || type == 7) && is_not_shutdown f
    then 2
    else 3

-- The frame at place `k` is the oldest of those that can be spared best.
pub record GivesWay (type : ℕ) (fs : List Frame) (k : ℕ) : Type 0 where
  pub inside : k < length fs
  pub spared : rank type (get_or fs k blank_frame) < 3
  pub best :
      (j : ℕ)
      → j < length fs
      → rank type (get_or fs k blank_frame) ≤ rank type (get_or fs j blank_frame)
  pub oldest :
      (j : ℕ) → j < k → rank type (get_or fs k blank_frame) < rank type (get_or fs j blank_frame)

-- No frame is spared.
abbrev pub NoneGives : ℕ → List Frame → Type 0
NoneGives type fs = (j : ℕ) → j < length fs → rank type (get_or fs j blank_frame) ≡ 3

earlier_bumped :
    (test : Frame → Bool) (f : Frame) (fs : List Frame) (o : Option ℕ) (k j : ℕ) (hit : Bool)
    → test f ≡ hit
    → ((i : ℕ) → o ≡ some i → (m : ℕ) → m < i → test (get_or fs m blank_frame) ≡ false)
    → (if hit then some 0 else bump o) ≡ some k
    → j < k
    → test (get_or (f ∷ fs) j blank_frame) ≡ false
earlier_bumped test f fs o k j true h later e lt = absurd (ground arith)
earlier_bumped test f fs none k j false h later e lt = absurd (ground arith)
earlier_bumped test f fs (some i) k zero false h later e lt = h
earlier_bumped test f fs (some i) k (suc j) false h later e lt = later i refl j (ground arith)

find_index-first :
    (test : Frame → Bool) (fs : List Frame) (k : ℕ)
    → find_index test fs ≡ some k
    → (j : ℕ) → j < k
    → test (get_or fs j blank_frame) ≡ false
unfolding find_index
find_index-first test [] k e j lt = absurd (ground arith)
find_index-first test (f ∷ fs) k e j lt =
    earlier_bumped test f fs (find_index test fs) k j (test f) refl
      (λ i found m before. find_index-first test fs i found m before) e lt

none_bumped :
    (test : Frame → Bool) (f : Frame) (fs : List Frame) (o : Option ℕ) (j : ℕ) (hit : Bool)
    → test f ≡ hit
    → (◌≡◌ {A = Option ℕ} o none → (m : ℕ) → m < length fs → test (get_or fs m blank_frame) ≡ false)
    → ◌≡◌ {A = Option ℕ} (if hit then some 0 else bump o) none
    → j < length (f ∷ fs)
    → test (get_or (f ∷ fs) j blank_frame) ≡ false
none_bumped test f fs o j true h later e lt = absurd (ground arith)
none_bumped test f fs (some i) j false h later e lt = absurd (ground arith)
none_bumped test f fs none zero false h later e lt = h
none_bumped test f fs none (suc j) false h later e lt = later refl j (omega (arith, lt))

find_index-none :
    (test : Frame → Bool) (fs : List Frame)
    → ◌≡◌ {A = Option ℕ} (find_index test fs) none
    → (j : ℕ) → j < length fs
    → test (get_or fs j blank_frame) ≡ false
unfolding find_index
find_index-none test [] e j lt = absurd (omega (arith, lt))
find_index-none test (f ∷ fs) e j lt =
    none_bumped test f fs (find_index test fs) j (test f) refl
      (λ absent m inside. find_index-none test fs absent m inside) e lt

module _ (type : ℕ) (f : Frame) where
  rank-audio : is_audio f ≡ true → rank type f ≡ 0
  unfolding rank
  rank-audio a = ground arith

  rank-other : is_audio f ≡ false → 1 ≤ rank type f
  unfolding rank
  rank-other a = ground arith

  rank-for_audio : is_audio f ≡ false → (type == 4) ≡ true → rank type f ≡ 3
  unfolding rank
  rank-for_audio a t = ground arith

  rank-superseded :
      is_audio f ≡ false
      → (type == 4) ≡ false
      → (type == 11 || is_superseded type f) ≡ true
      → rank type f ≡ 1
  unfolding rank
  rank-superseded a t s = ground arith

  rank-kept :
      is_audio f ≡ false
      → (type == 4) ≡ false
      → (type == 11 || is_superseded type f) ≡ false
      → (2 ≤ rank type f)
        × (((type == 3 || type == 7) && is_not_shutdown f) ≡ true → rank type f ≡ 2)
        × (((type == 3 || type == 7) && is_not_shutdown f) ≡ false → rank type f ≡ 3)
  unfolding rank
  rank-kept a t s = (ground arith, λ r. ground arith, λ r. ground arith)

-- What a search for a frame to evict says.
abbrev pub Verdict : ℕ → List Frame → Option ℕ → Type 0
Verdict type fs none = NoneGives type fs
Verdict type fs (some k) = GivesWay type fs k

-- A frame of the rank `r`, when no frame has a lower one and none before it this one.
gives_way :
    (type : ℕ) (fs : List Frame) (k r : ℕ)
    → k < length fs
    → rank type (get_or fs k blank_frame) ≡ r
    → r < 3
    → ((j : ℕ) → j < length fs → r ≤ rank type (get_or fs j blank_frame))
    → ((j : ℕ) → j < k → r < rank type (get_or fs j blank_frame))
    → GivesWay type fs k
gives_way type fs k r inside e small best oldest = record {
  inside = inside;
  spared = omega (arith, e, small);
  best = λ j lt. omega (arith, e, best j lt);
  oldest = λ j lt. omega (arith, e, oldest j lt);
}

-- A list without audio, for a frame of another type than audio and SHUTDOWN.
control-Verdict :
    (type : ℕ) (fs : List Frame)
    → (type == 4) ≡ false
    → (type == 11) ≡ false
    → ((j : ℕ) → j < length fs → is_audio (get_or fs j blank_frame) ≡ false)
    → Verdict type fs (elim (find_index (is_superseded type) fs) [
      | some k ↦ some k
      | none ↦ if type == 3 || type == 7 then find_index is_not_shutdown fs else none
    ])
control-Verdict type fs t off quiet = elim (Option-cases (find_index (is_superseded type) fs)) [
  | inr (k, found) ↦
      let (inside, hit) = find_index-found (is_superseded type) fs k found in
      rw found (
        gives_way type fs k 1 inside
          (rank-superseded type (get_or fs k blank_frame) (quiet k inside) t (ground arith))
          (omega arith) (λ j lt. rank-other type (get_or fs j blank_frame) (quiet j lt))
          (λ j lt.
            (rank-kept type (get_or fs j blank_frame) (quiet j (omega (arith, lt, inside))) t
              (ground (arith, find_index-first (is_superseded type) fs k found j lt))).0))
  | inl none_such ↦
      let kept = λ (j : ℕ) (lt : j < length fs).
        rank-kept type (get_or fs j blank_frame) (quiet j lt) t
          (ground (arith, find_index-none (is_superseded type) fs none_such j lt)) in
      rw none_such (
        pick (Verdict type fs) (type == 3 || type == 7)
          (λ required. elim (Option-cases (find_index is_not_shutdown fs)) [
            | inr (k, found) ↦
                let (inside, hit) = find_index-found is_not_shutdown fs k found in
                rw found (
                  gives_way type fs k 2 inside ((kept k inside).1 (ground arith)) (omega arith)
                    (λ j lt. (kept j lt).0)
                    (λ j lt. omega (
                      arith,
                      (kept j (omega (arith, lt, inside))).2
                          (ground (arith, find_index-first is_not_shutdown fs k found j lt)),
                    )))
            | inl none_left ↦ rw none_left (λ j lt.
                (kept j lt).2 (ground (arith, find_index-none is_not_shutdown fs none_left j lt)))
          ])
          (λ soft. λ j lt. (kept j lt).2 (ground arith)))
]

any-Verdict :
    (type : ℕ) (fs : List Frame)
    → 0 < length fs
    → Verdict type fs (elim (find_index is_audio fs) [
      | some k ↦ some k
      | none ↦
          if type == 4
          then none
          else if type == 11
          then some 0
          else elim (find_index (is_superseded type) fs) [
            | some k ↦ some k
            | none ↦ if type == 3 || type == 7 then find_index is_not_shutdown fs else none
          ]
    ])
any-Verdict type fs filled = elim (Option-cases (find_index is_audio fs)) [
  | inr (k, found) ↦
      let (inside, hit) = find_index-found is_audio fs k found in
      rw found (
        gives_way type fs k 0 inside (rank-audio type (get_or fs k blank_frame) hit) (omega arith)
          (λ j lt. omega arith)
          (λ j lt.
            rank-other type (get_or fs j blank_frame) (find_index-first is_audio fs k found j lt)))
  | inl absent ↦
      let quiet = find_index-none is_audio fs absent in
      rw absent (
        pick (Verdict type fs) (type == 4)
          (λ audio. λ j lt. rank-for_audio type (get_or fs j blank_frame) (quiet j lt) audio)
          (λ other.
            pick (Verdict type fs) (type == 11)
              (λ off.
                gives_way type fs 0 1 filled
                  (rank-superseded type (get_or fs 0 blank_frame) (quiet 0 filled) other
                    (ground arith))
                  (omega arith) (λ j lt. rank-other type (get_or fs j blank_frame) (quiet j lt))
                  (λ j lt. absurd (omega (arith, lt))))
              (λ steers. control-Verdict type fs other steers quiet)))
]

pub victim_for-Verdict :
    (type : ℕ) (fs : List Frame) → 0 < length fs → Verdict type fs (victim_for type fs)
unfolding victim_for
victim_for-Verdict type fs filled = any-Verdict type fs filled
