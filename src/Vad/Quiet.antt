-- ===== src/Vad/Quiet.antt =====
-- That vw_vad_find_chunk_boundary of worker/src/vw_vad.c cuts where nobody speaks.
use mathlib.Core.Path.{subst}
use vlc_whisper.Common.{
  ℕ, ◌+◌, ◌-◌, ◌≤◌, ◌<◌, ◌≡◌, ◌⊎◌, inl, inr, refl, sym, ◌∙◌, Bool, false, ◌&&◌, ◌||◌, List, [], ◌∷◌,
  arith, ltb, leb, ◌==◌, All, pick,
}
use vlc_whisper.Vad.{
  Speech, Boundary, found, chunk_max_samples, chunk_pad_samples, chunk_min_silence_gap, nothing_yet,
  at_least, at_most, may_end, middle_of_gap, behind_last, cut_in_gap, choose_cut, model_boundary,
  find_chunk_boundary,
}

-- Segments in order, from `low` on, that end within the audio.
abbrev pub Ordered : ℕ → List Speech → ℕ → Type 0
Ordered low [] sample_count = low ≤ sample_count
Ordered low (s ∷ rest) sample_count = (low ≤ s.t0) × (s.t0 ≤ s.t1) × Ordered s.t1 rest sample_count

-- A place that lies in no segment.
abbrev pub IsQuiet : ℕ → Speech → Type 0
IsQuiet place s = (s.t1 ≤ place) ⊎ (place ≤ s.t0)

All-later :
    (place low : ℕ) (segments : List Speech) (sample_count : ℕ)
    → Ordered low segments sample_count
    → place ≤ low
    → All (IsQuiet place) segments
All-later place low [] sample_count ordered le = tt
All-later place low (s ∷ rest) sample_count (after, lasts, ordered) le =
    (inr (omega arith), All-later place s.t1 rest sample_count ordered (omega arith))

ends_inside :
    (low : ℕ) (segments : List Speech) (sample_count : ℕ)
    → Ordered low segments sample_count
    → low ≤ sample_count
ends_inside low [] sample_count ordered = ordered
ends_inside low (s ∷ rest) sample_count (after, lasts, ordered) =
    omega (arith, ends_inside s.t1 rest sample_count ordered)

gap_quiet :
    (s next : Speech)
    → s.t1 + chunk_min_silence_gap ≤ next.t0
    → (s.t1 ≤ middle_of_gap s next) × (middle_of_gap s next ≤ next.t0)
unfolding middle_of_gap at_least
gap_quiet s next gap = ground arith

at_most-le : (high n : ℕ) → at_most high n ≤ n
unfolding at_most
at_most-le high n = ground arith

at_most-ge : (high n m : ℕ) → m ≤ high → m ≤ n → m ≤ at_most high n
unfolding at_most
at_most-ge high n m h k = ground arith

behind_quiet : (s : Speech) (sample_count : ℕ) → s.t1 ≤ behind_last s sample_count
unfolding behind_last at_least at_most
behind_quiet s sample_count = ground arith

-- A cut behind `low` that lies in no segment, when it is reduced to the audio that is there.
abbrev CutsWell : ℕ → ℕ → List Speech → ℕ → Type 0
CutsWell sample_count low segments cut =
    (cut ≡ 0) ⊎ ((low ≤ cut) × All (IsQuiet (at_most sample_count cut)) segments)

gap_CutsWell :
    (sample_count low : ℕ) (s next : Speech) (rest : List Speech)
    → Ordered low (s ∷ next ∷ rest) sample_count
    → s.t1 + chunk_min_silence_gap ≤ next.t0
    → CutsWell sample_count low (s ∷ next ∷ rest) (middle_of_gap s next)
gap_CutsWell sample_count low s next rest (after, lasts, (before, lasts', ordered)) gap =
    let (from, to) = gap_quiet s next gap in
    let ends = ends_inside next.t1 rest sample_count ordered in
    let place = at_most sample_count (middle_of_gap s next) in
    let le = at_most-le sample_count (middle_of_gap s next) in
    inr (
      omega arith,
      (
        inl (at_most-ge sample_count (middle_of_gap s next) s.t1 (omega arith) from),
        All-later place next.t0 (next ∷ rest) sample_count (omega arith, lasts', ordered)
            (omega arith),
      ),
    )

later_CutsWell :
    (sample_count low cut : ℕ) (s : Speech) (rest : List Speech)
    → Ordered low (s ∷ rest) sample_count
    → CutsWell sample_count s.t1 rest cut
    → CutsWell sample_count low (s ∷ rest) cut
later_CutsWell sample_count low cut s rest ordered (inl nowhere) = inl nowhere
later_CutsWell sample_count low cut s rest (after, lasts, ordered) (inr (from, quiet)) =
    let ends = ends_inside s.t1 rest sample_count ordered in
    inr (omega arith, (inl (at_most-ge sample_count cut s.t1 ends from), quiet))

cut_in_gap-CutsWell :
    (sample_count low : ℕ) (is_eof : Bool) (segments : List Speech)
    → Ordered low segments sample_count
    → CutsWell sample_count low segments (cut_in_gap sample_count is_eof segments)
unfolding cut_in_gap
cut_in_gap-CutsWell sample_count low is_eof [] ordered = inl refl
cut_in_gap-CutsWell sample_count low is_eof (s ∷ []) (after, lasts, ordered) =
    pick (CutsWell sample_count low (s ∷ []))
      (may_end s && (leb (s.t1 + chunk_min_silence_gap) sample_count || is_eof))
      (λ here.
        let behind = behind_quiet s sample_count in
        inr (
          omega arith,
          (inl (at_most-ge sample_count (behind_last s sample_count) s.t1 ordered behind), tt),
        ))
      (λ other. inl refl)
cut_in_gap-CutsWell sample_count low is_eof (s ∷ next ∷ rest) ordered =
    pick (CutsWell sample_count low (s ∷ next ∷ rest))
      (may_end s && leb (s.t1 + chunk_min_silence_gap) next.t0)
      (λ here. gap_CutsWell sample_count low s next rest ordered (ground arith))
      (λ none_here.
        let (after, lasts, later) = ordered in
        later_CutsWell sample_count low (cut_in_gap sample_count is_eof (next ∷ rest)) s
          (next ∷ rest) ordered (cut_in_gap-CutsWell sample_count s.t1 is_eof (next ∷ rest) later))

chosen_in_gap :
    (sample_count : ℕ) (segments : List Speech)
    → sample_count < chunk_max_samples
    → choose_cut sample_count false segments ≡ cut_in_gap sample_count false segments
unfolding choose_cut
chosen_in_gap sample_count segments short = ground arith

starts_later :
    (place low : ℕ) (segments : List Speech) (sample_count : ℕ)
    → Ordered low segments sample_count
    → place ≤ low
    → All (λ s. place ≤ s.t0) segments
starts_later place low [] sample_count ordered le = tt
starts_later place low (s ∷ rest) sample_count (after, lasts, ordered) le =
    (omega arith, starts_later place s.t1 rest sample_count ordered (omega arith))

-- The cut lies in no segment, and the silence ends before each.
abbrev pub QuietAt : List Speech → Boundary → Type 0
QuietAt segments r = All (IsQuiet r.cut) segments × All (λ s. r.silence_drain ≤ s.t0) segments

chosen-IsQuiet :
    (sample_count : ℕ) (segments : List Speech) (chosen_cut : ℕ)
    → Ordered 0 segments sample_count
    → sample_count < chunk_max_samples
    → choose_cut sample_count false segments ≡ chosen_cut
    → 0 < chosen_cut
    → All (IsQuiet (at_most sample_count chosen_cut)) segments
chosen-IsQuiet sample_count segments chosen_cut ordered short e pos =
    let in_gap : cut_in_gap sample_count false segments ≡ chosen_cut =
      sym (chosen_in_gap sample_count segments short) ∙ e in
    elim (cut_in_gap-CutsWell sample_count 0 false segments ordered) [
      | inl nowhere ↦ absurd (omega (arith, in_gap, nowhere))
      | inr (from, quiet) ↦
          subst (λ c. All (IsQuiet (at_most sample_count c)) segments) in_gap quiet
    ]

model_quiet :
    (sample_count : ℕ) (segments : List Speech)
    → Ordered 0 segments sample_count
    → sample_count < chunk_max_samples
    → QuietAt segments (model_boundary sample_count false segments)
unfolding model_boundary nothing_yet
model_quiet sample_count [] ordered short = (tt, tt)
model_quiet sample_count (s ∷ rest) ordered short =
    let (after, lasts, later) = ordered in
    let at_zero = All-later 0 0 (s ∷ rest) sample_count ordered (omega arith) in
    let from_zero = starts_later 0 0 (s ∷ rest) sample_count ordered (omega arith) in
    pick (QuietAt (s ∷ rest)) (ltb (16000 + chunk_pad_samples) s.t0)
      (λ silent. (
        at_zero,
        starts_later (s.t0 - chunk_pad_samples) s.t0 (s ∷ rest) sample_count
            (omega arith, lasts, later) (omega arith),
      ))
      (λ speaks.
        pick (QuietAt (s ∷ rest)) (ltb 0 (choose_cut sample_count false (s ∷ rest)))
          (λ some_cut. (
            chosen-IsQuiet sample_count (s ∷ rest) (choose_cut sample_count false (s ∷ rest))
                ordered short refl (ground arith),
            from_zero,
          ))
          (λ no_cut. (at_zero, from_zero)))

-- While the stream goes on and there are less than 24 seconds of audio, and the model's segments are
-- in order and within it, the cut lies within no segment of speech, and the silence that is drained
-- ends before every segment.
pub find_chunk_boundary-QuietAt :
    (is_loud : Bool) (sample_count : ℕ) (segments : List Speech)
    → Ordered 0 segments sample_count
    → sample_count < chunk_max_samples
    → QuietAt segments (find_chunk_boundary (found segments) is_loud sample_count false)
unfolding find_chunk_boundary nothing_yet
find_chunk_boundary-QuietAt is_loud sample_count segments ordered short =
    pick (QuietAt segments) (sample_count == 0)
      (λ none_there. (
        All-later 0 0 segments sample_count ordered (omega arith),
        starts_later 0 0 segments sample_count ordered (omega arith),
      ))
      (λ some_there. model_quiet sample_count segments ordered short)
