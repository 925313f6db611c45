-- ===== src/AudioBuffer/Contents.antt =====
-- The samples that the ring of worker/src/vw_audio_buffer.c holds, oldest first.
use native.Mathlib.Nat.{mod-eq_of_lt, mod-eq-sub-mod, mod-mod, zero-mod, add-mod_right}
use native.Mathlib.Decide.{ℕ_discrete}
use vlc_whisper.Common.{
  ℕ, zero, suc, ◌+◌, ◌-◌, ◌%◌, ◌≤◌, ◌<◌, ◌≡◌, refl, ap, sym, ◌∙◌, true, false, inl, inr, List, [],
  ◌∷◌, ◌++◌, arith, ltb, ltb→lt, length, set, drop, length-set, length-drop, length-append,
  append_assoc, append-nil, Bool-cases,
}
use Prim.Native.Nat.add
use vlc_whisper.Common.Ring.{window, length-window, window-mod, window-push}
use vlc_whisper.AudioBuffer.{AudioBuffer, append_sample, append_samples}

pub record IsValid (b : AudioBuffer) : Type 0 where
  pub storage : length b.samples ≡ b.max_samples
  pub some_room : 0 < b.max_samples
  pub head_in : b.head < b.max_samples
  pub count_in : b.count ≤ b.max_samples
  pub frac_in : b.start_pts_frac_us < 2

-- Where the oldest sample stands, not reduced.
abbrev pub oldest : AudioBuffer → ℕ
oldest b = b.head + b.max_samples - b.count

abbrev pub contents : AudioBuffer → List ℕ
contents b = window 0 b.samples b.max_samples (oldest b) b.count

-- The newest `n` of a list.
abbrev pub newest : ℕ → List ℕ → List ℕ
newest n xs = drop (length xs - n) xs

step_index : (n h c : ℕ) → h < n → c < n → ((h + 1) % n + n - (c + 1)) % n ≡ (h + n - c) % n
step_index n h c lh lc = elim (ℕ_discrete (h + 1) n) [
  | yes e ↦ ground (
    arith,
    mod-eq-sub-mod {n = h + 1} {m = n},
    zero-mod n,
    add-mod_right (n - (c + 1)) n,
    ap (λ k. k % n) (turn n h c e lc),
  )
  | no ne ↦ ground (arith, mod-eq_of_lt {n = h + 1} {m = n})
]
  where
    turn : (n h c : ℕ) → h + 1 ≡ n → c < n → h + n - c ≡ n - (c + 1) + n
    turn n h c e lc = omega arith

-- A sample written into a ring with room is behind the others.
ring_append :
    (buf : List ℕ) (n h c x : ℕ)
    → length buf ≡ n
    → h < n
    → c < n
    → window 0 (set buf h x) n ((h + 1) % n + n - (c + 1)) (c + 1)
      ≡ window 0 buf n (h + n - c) c ++ x ∷ []
ring_append buf n h c x e lh lc =
    window-mod 0 (set buf h x) n _ (h + n - c) (c + 1) (step_index n h c lh lc)
    ∙ ap (window 0 (set buf h x) n (h + n - c)) {y = suc c} (omega arith)
    ∙ window-push 0 buf n (h + n - c) c h x lc (omega arith)
        (sym (mod-eq_of_lt lh) ∙ sym (add-mod_right h n) ∙ ap (λ k. k % n) (omega arith))

-- Written into a full ring it takes the oldest one's place.
ring_replace :
    (buf : List ℕ) (n h x : ℕ)
    → length buf ≡ n
    → h < n
    → window 0 (set buf h x) n ((h + 1) % n + n - n) n
      ≡ drop 1 (window 0 buf n (h + n - n) n) ++ x ∷ []
ring_replace buf zero h x e lh = absurd (omega arith)
ring_replace buf (suc m) h x e lh =
    window-mod 0 (set buf h x) (suc m) _ (suc (h + suc m - suc m)) (suc m) (
      ap (λ k. k % suc m) (omega arith)
      ∙ mod-mod (h + 1) (suc m)
      ∙ ap (λ k. k % suc m) (omega arith))
    ∙ window-push 0 buf (suc m) (suc (h + suc m - suc m)) m h x (omega arith) (omega arith)
        (sym (mod-eq_of_lt lh) ∙ sym (add-mod_right h (suc m)) ∙ ap (λ k. k % suc m) (omega arith))

pub append_sample-IsValid : (b : AudioBuffer) (x : ℕ) → IsValid b → IsValid (append_sample b x)
unfolding append_sample
append_sample-IsValid b x v = ground (arith, length-set b.samples b.head x)

pub length-contents : (b : AudioBuffer) → length (contents b) ≡ b.count
length-contents b = length-window 0 b.samples b.max_samples (oldest b) b.count

drop-append-le : (k : ℕ) (xs ys : List ℕ) → k ≤ length xs → drop k (xs ++ ys) ≡ drop k xs ++ ys
drop-append-le zero xs ys h = refl
drop-append-le (suc k) [] ys h = absurd (omega arith)
drop-append-le (suc k) (x ∷ xs) ys h = drop-append-le k xs ys (omega arith)

append_sample_free :
    (b : AudioBuffer) (x : ℕ)
    → ltb b.count b.max_samples ≡ true
    → contents (append_sample b x)
      ≡ window 0
          (set b.samples b.head x)
          b.max_samples
          ((b.head + 1) % b.max_samples + b.max_samples - (b.count + 1))
          (b.count + 1)
unfolding append_sample
append_sample_free b x free = rw free

append_sample_full :
    (b : AudioBuffer) (x : ℕ)
    → ltb b.count b.max_samples ≡ false
    → b.count ≡ b.max_samples
    → contents (append_sample b x)
      ≡ window 0
          (set b.samples b.head x)
          b.max_samples
          ((b.head + 1) % b.max_samples + b.max_samples - b.max_samples)
          b.max_samples
unfolding append_sample
append_sample_full b x full all = rw full (
    ap
      (λ c.
        window 0 (set b.samples b.head x) b.max_samples
          ((b.head + 1) % b.max_samples + b.max_samples - c) c)
      all)

pub contents-append_sample :
    (b : AudioBuffer) (x : ℕ)
    → IsValid b
    → contents (append_sample b x) ≡ newest b.max_samples (contents b ++ x ∷ [])
contents-append_sample b x v =
    let len : length (contents b ++ x ∷ []) ≡ b.count + 1 =
      omega (arith, length-append (contents b) (x ∷ []), length-contents b) in
    elim (Bool-cases (ltb b.count b.max_samples)) [
      | inl free ↦
          append_sample_free b x free
          ∙ ring_append b.samples b.max_samples b.head b.count x v.storage v.head_in (ground arith)
          ∙ ap (λ k. drop k (contents b ++ x ∷ [])) {x = 0} (omega (arith, ltb→lt _ _ free))
      | inr full ↦
          let all : b.count ≡ b.max_samples = ground arith in
          append_sample_full b x full all
          ∙ ring_replace b.samples b.max_samples b.head x v.storage v.head_in
          ∙ ap
              (λ c.
                drop 1 (window 0 b.samples b.max_samples (b.head + b.max_samples - c) c) ++ x ∷ [])
              (sym all)
          ∙ sym (drop-append-le 1 (contents b) (x ∷ []) (omega (arith, length-contents b)))
          ∙ ap (λ k. drop k (contents b ++ x ∷ [])) {x = 1} (omega arith)
    ]

max-append_sample : (b : AudioBuffer) (x : ℕ) → (append_sample b x).max_samples ≡ b.max_samples
unfolding append_sample
max-append_sample b x = ground arith

drop-drop : (j k : ℕ) (xs : List ℕ) → drop k (drop j xs) ≡ drop (j + k) xs
drop-drop zero k xs = ap (λ n. drop n xs) (omega arith)
drop-drop (suc j) zero [] = rw (add.suc j 0) refl
drop-drop (suc j) (suc k) [] = rw (add.suc j (suc k)) refl
drop-drop (suc j) k (x ∷ xs) = rw (add.suc j k) (drop-drop j k xs)

-- What was forgotten of the older samples is forgotten at the end too.
newest-append : (n : ℕ) (xs ys : List ℕ) → newest n (newest n xs ++ ys) ≡ newest n (xs ++ ys)
newest-append n xs ys =
    let j = length xs - n in
    let cut : drop j (xs ++ ys) ≡ newest n xs ++ ys = drop-append-le j xs ys (omega arith) in
    let k = length (newest n xs ++ ys) - n in
    ap (drop k) (sym cut)
    ∙ drop-drop j k (xs ++ ys)
    ∙ ap (λ m. drop m (xs ++ ys))
        (omega (arith, length-append xs ys, length-append (newest n xs) ys, length-drop j xs))

newest-all : (n : ℕ) (xs : List ℕ) → length xs ≤ n → newest n xs ≡ xs
newest-all n xs h = ap (λ k. drop k xs) {y = 0} (omega arith)

pub append_samples-IsValid :
    (b : AudioBuffer) (xs : List ℕ) → IsValid b → IsValid (append_samples b xs)
unfolding append_samples
append_samples-IsValid b [] v = v
append_samples-IsValid b (x ∷ xs) v =
    append_samples-IsValid (append_sample b x) xs (append_sample-IsValid b x v)

pub contents-append_samples :
    (b : AudioBuffer) (xs : List ℕ)
    → IsValid b
    → contents (append_samples b xs) ≡ newest b.max_samples (contents b ++ xs)
unfolding append_samples
contents-append_samples b [] v =
    sym (newest-all b.max_samples (contents b) (omega (arith, length-contents b, v.count_in)))
    ∙ ap (newest b.max_samples) (sym (append-nil (contents b)))
contents-append_samples b (x ∷ xs) v =
    contents-append_samples (append_sample b x) xs (append_sample-IsValid b x v)
    ∙ ap (λ n. newest n (contents (append_sample b x) ++ xs)) (max-append_sample b x)
    ∙ ap (λ c. newest b.max_samples (c ++ xs)) (contents-append_sample b x v)
    ∙ newest-append b.max_samples (contents b ++ x ∷ []) xs
    ∙ ap (newest b.max_samples) (append_assoc (contents b) (x ∷ []) xs)
