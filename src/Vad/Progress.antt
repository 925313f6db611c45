-- ===== src/Vad/Progress.antt =====
-- That vw_vad_find_chunk_boundary of worker/src/vw_vad.c takes some of the audio, and no more than
-- there is, and when it must.
use vlc_whisper.Common.{
  ℕ, ◌+◌, ◌≤◌, ◌<◌, ◌≡◌, ◌⊎◌, inl, inr, refl, Bool, true, false, ◌||◌, List, [], ◌∷◌, arith, leb,
  ◌==◌, Bool-cases,
}
use vlc_whisper.Vad.{
  Speech, Detection, no_model, failed, found, Boundary, chunk_max_samples, nothing_yet,
  drain_silence, at_most, choose_cut, model_boundary, energy_boundary, find_chunk_boundary,
}

-- A segment lies within the audio.
abbrev pub StartsInside : ℕ → Detection → Type 0
StartsInside sample_count no_model = Unit
StartsInside sample_count failed = Unit
StartsInside sample_count (found []) = Unit
StartsInside sample_count (found (s ∷ rest)) = s.t0 ≤ sample_count

-- Nothing was found, or a cut, or silence, of some samples that are there.
abbrev pub IsWithin : ℕ → Boundary → Type 0
IsWithin sample_count r =
    ((r.evaluated ≡ false) × (r.cut ≡ 0) × (r.silence_drain ≡ 0))
    ⊎ ((r.evaluated ≡ true)
        × (0 < r.cut + r.silence_drain)
        × (r.cut + r.silence_drain ≤ sample_count)
        × ((r.cut ≡ 0) ⊎ (r.silence_drain ≡ 0)))

silence-IsWithin :
    (sample_count : ℕ) (is_eof : Bool)
    → 0 < sample_count
    → IsWithin sample_count (drain_silence sample_count is_eof)
unfolding drain_silence nothing_yet
silence-IsWithin sample_count is_eof pos = ground arith

energy-IsWithin :
    (sample_count : ℕ) (is_eof is_loud : Bool)
    → 0 < sample_count
    → IsWithin sample_count (energy_boundary sample_count is_eof is_loud)
unfolding energy_boundary nothing_yet
energy-IsWithin sample_count is_eof false pos = silence-IsWithin sample_count is_eof pos
energy-IsWithin sample_count is_eof true pos = ground arith

model-IsWithin :
    (sample_count : ℕ) (is_eof : Bool) (segments : List Speech)
    → 0 < sample_count
    → StartsInside sample_count (found segments)
    → IsWithin sample_count (model_boundary sample_count is_eof segments)
unfolding model_boundary nothing_yet at_most
model-IsWithin sample_count is_eof [] pos inside = silence-IsWithin sample_count is_eof pos
model-IsWithin sample_count is_eof (s ∷ rest) pos inside = ground arith

IsWithin-none :
    (d : Detection) (is_loud : Bool) (sample_count : ℕ) (is_eof : Bool)
    → (sample_count == 0) ≡ true
    → IsWithin sample_count (find_chunk_boundary d is_loud sample_count is_eof)
unfolding find_chunk_boundary nothing_yet
IsWithin-none no_model is_loud sample_count is_eof z = rw z (inl (refl, refl, refl))
IsWithin-none failed is_loud sample_count is_eof z = rw z (inl (refl, refl, refl))
IsWithin-none (found segments) is_loud sample_count is_eof z = rw z (inl (refl, refl, refl))

IsWithin-some :
    (d : Detection) (is_loud : Bool) (sample_count : ℕ) (is_eof : Bool)
    → StartsInside sample_count d
    → (sample_count == 0) ≡ false
    → 0 < sample_count
    → IsWithin sample_count (find_chunk_boundary d is_loud sample_count is_eof)
unfolding find_chunk_boundary
IsWithin-some no_model is_loud sample_count is_eof inside nz pos =
    rw nz (energy-IsWithin sample_count is_eof is_loud pos)
IsWithin-some failed is_loud sample_count is_eof inside nz pos =
    rw nz (energy-IsWithin sample_count is_eof is_loud pos)
IsWithin-some (found segments) is_loud sample_count is_eof inside nz pos =
    rw nz (model-IsWithin sample_count is_eof segments pos inside)

-- Whatever the model finds, as long as its first segment starts within the audio:
-- vw_vad_find_chunk_boundary gives no boundary, with both numbers 0, or one of the two numbers, which
-- is not 0 and at most that of the samples.
pub find_chunk_boundary-IsWithin :
    (d : Detection) (is_loud : Bool) (sample_count : ℕ) (is_eof : Bool)
    → StartsInside sample_count d
    → IsWithin sample_count (find_chunk_boundary d is_loud sample_count is_eof)
unfolding find_chunk_boundary nothing_yet
find_chunk_boundary-IsWithin d is_loud sample_count is_eof inside =
    elim (Bool-cases (sample_count == 0)) [
      | inl none_there ↦ IsWithin-none d is_loud sample_count is_eof none_there
      | inr some_there ↦
          IsWithin-some d is_loud sample_count is_eof inside some_there (ground arith)
    ]

abbrev must_evaluate : ℕ → Bool → Bool
must_evaluate sample_count is_eof = leb chunk_max_samples sample_count || is_eof

choose_cut-pos :
    (sample_count : ℕ) (is_eof : Bool) (segments : List Speech)
    → 0 < sample_count
    → must_evaluate sample_count is_eof ≡ true
    → 0 < choose_cut sample_count is_eof segments
unfolding choose_cut
choose_cut-pos sample_count is_eof segments pos must = ground arith

model_must :
    (sample_count : ℕ) (is_eof : Bool) (segments : List Speech)
    → 0 < sample_count
    → must_evaluate sample_count is_eof ≡ true
    → (model_boundary sample_count is_eof segments).evaluated ≡ true
unfolding model_boundary drain_silence nothing_yet
model_must sample_count is_eof [] pos must = ground arith
model_must sample_count is_eof (s ∷ rest) pos must =
    ground (arith, choose_cut-pos sample_count is_eof (s ∷ rest) pos must)

energy_must :
    (sample_count : ℕ) (is_eof is_loud : Bool)
    → must_evaluate sample_count is_eof ≡ true
    → (energy_boundary sample_count is_eof is_loud).evaluated ≡ true
unfolding energy_boundary drain_silence nothing_yet
energy_must sample_count is_eof is_loud must = ground arith

-- A boundary is found whenever there are 24 seconds of audio, and at the end of the stream whenever
-- there is any, whatever the model finds or whether it works.
pub find_chunk_boundary-evaluated :
    (d : Detection) (is_loud : Bool) (sample_count : ℕ) (is_eof : Bool)
    → 0 < sample_count
    → (leb chunk_max_samples sample_count || is_eof) ≡ true
    → (find_chunk_boundary d is_loud sample_count is_eof).evaluated ≡ true
unfolding find_chunk_boundary
find_chunk_boundary-evaluated no_model is_loud sample_count is_eof pos must =
    let there : (sample_count == 0) ≡ false = ground arith in
    rw there (energy_must sample_count is_eof is_loud must)
find_chunk_boundary-evaluated failed is_loud sample_count is_eof pos must =
    let there : (sample_count == 0) ≡ false = ground arith in
    rw there (energy_must sample_count is_eof is_loud must)
find_chunk_boundary-evaluated (found segments) is_loud sample_count is_eof pos must =
    let there : (sample_count == 0) ≡ false = ground arith in
    rw there (model_must sample_count is_eof segments pos must)
