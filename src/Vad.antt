-- ===== src/Vad.antt =====
-- Where the worker cuts its audio: worker/src/vw_vad.c. What whisper.cpp's model of speech finds and
-- whether vw_vad_detect_speech_energy finds the audio loud are arguments. Places in the audio are
-- numbers of samples, which are taken not to reach 2^64.
pub mod Progress
pub mod Quiet
mod Tests
use vlc_whisper.Common.{
  ℕ, ◌+◌, ◌-◌, ◌/◌, Bool, true, false, ◌&&◌, ◌||◌, not, List, [], ◌∷◌, ltb, leb, ◌==◌,
  if◌then◌else◌,
}

abbrev pub chunk_min_samples : ℕ
chunk_min_samples = 96000

abbrev pub chunk_max_samples : ℕ
chunk_max_samples = 384000

abbrev pub chunk_pad_samples : ℕ
chunk_pad_samples = 2400

abbrev pub chunk_min_silence_gap : ℕ
chunk_min_silence_gap = 4800

abbrev pub max_trailing_silence_samples : ℕ
max_trailing_silence_samples = 4800

-- A segment of speech, from `(size_t)(t0_cs * 160.0f)` to `(size_t)(t1_cs * 160.0f)`.
pub record Speech : Type 0 where
  pub t0 : ℕ
  pub t1 : ℕ

-- What the model gives: there is none, it fails or has no segments, or it finds segments.
pub data Detection : Type 0 where
  no_model : Detection
  failed : Detection
  found : List Speech → Detection

-- The returned flag, `*out_cut_samples` and `*out_silence_drain`.
pub record Boundary : Type 0 where
  pub evaluated : Bool
  pub cut : ℕ
  pub silence_drain : ℕ

unfoldable pub nothing_yet : Boundary
nothing_yet = record { evaluated = false; cut = 0; silence_drain = 0 }

-- Case A, and the same of the energy path: no speech.
unfoldable pub drain_silence : ℕ → Bool → Boundary
unfolding nothing_yet
drain_silence sample_count is_eof =
    if leb chunk_min_samples sample_count || is_eof
    then record {
      evaluated = true;
      cut = 0;
      silence_drain =
          if is_eof || leb sample_count chunk_pad_samples
          then sample_count
          else sample_count - chunk_pad_samples;
    }
    else nothing_yet

unfoldable pub at_least : ℕ → ℕ → ℕ
at_least low n = if ltb n low then low else n

unfoldable pub at_most : ℕ → ℕ → ℕ
at_most high n = if ltb high n then high else n

-- Whether a segment with its padding ends where a chunk may end.
unfoldable pub may_end : Speech → Bool
may_end s =
    leb chunk_min_samples (s.t1 + chunk_pad_samples)
    && leb (s.t1 + chunk_pad_samples) chunk_max_samples

-- `chosen_cut` in the gap before the next segment.
unfoldable pub middle_of_gap : Speech → Speech → ℕ
unfolding at_least
middle_of_gap s next =
    let seg_end = s.t1 + chunk_pad_samples in
    let next_padded_start =
      if ltb chunk_pad_samples next.t0 then next.t0 - chunk_pad_samples else next.t0 in
    at_least seg_end ((seg_end + next_padded_start) / 2)

-- `chosen_cut` behind the last segment.
unfoldable pub behind_last : Speech → ℕ → ℕ
unfolding at_least at_most
behind_last s sample_count =
    let seg_end = s.t1 + chunk_pad_samples in
    let max_cut = s.t1 + max_trailing_silence_samples in
    at_least seg_end (at_most sample_count (at_most max_cut ((seg_end + sample_count) / 2)))

-- Case C: the first loop, 0 if it finds no gap.
unfoldable pub cut_in_gap : ℕ → Bool → List Speech → ℕ
unfolding may_end middle_of_gap behind_last
cut_in_gap sample_count is_eof [] = 0
cut_in_gap sample_count is_eof (s ∷ []) =
    if may_end s && (leb (s.t1 + chunk_min_silence_gap) sample_count || is_eof)
    then behind_last s sample_count
    else 0
cut_in_gap sample_count is_eof (s ∷ next ∷ rest) =
    let later = cut_in_gap sample_count is_eof (next ∷ rest) in
    if may_end s && leb (s.t1 + chunk_min_silence_gap) next.t0 then middle_of_gap s next else later

-- The second loop, from the last segment back, 0 if it finds none.
unfoldable pub last_end : List Speech → ℕ
unfolding may_end
last_end [] = 0
last_end (s ∷ rest) =
    let later = last_end rest in
    if later == 0 then (if may_end s then s.t1 + chunk_pad_samples else 0) else later

-- `chosen_cut` after both loops.
unfoldable pub choose_cut : ℕ → Bool → List Speech → ℕ
unfolding cut_in_gap last_end
choose_cut sample_count is_eof segments =
    let chosen_cut = cut_in_gap sample_count is_eof segments in
    let forced = last_end segments in
    if chosen_cut == 0 && leb chunk_max_samples sample_count
    then (if forced == 0 then chunk_max_samples else forced)
    else if chosen_cut == 0 && is_eof
    then sample_count
    else chosen_cut

-- The path of the model.
unfoldable pub model_boundary : ℕ → Bool → List Speech → Boundary
unfolding drain_silence choose_cut nothing_yet at_most
model_boundary sample_count is_eof [] = drain_silence sample_count is_eof
model_boundary sample_count is_eof (s ∷ rest) =
    let chosen_cut = choose_cut sample_count is_eof (s ∷ rest) in
    if ltb (16000 + chunk_pad_samples) s.t0
    then record { evaluated = true; cut = 0; silence_drain = s.t0 - chunk_pad_samples }
    else if ltb 0 chosen_cut
    then record { evaluated = true; cut = at_most sample_count chosen_cut; silence_drain = 0 }
    else nothing_yet

-- From `energy_fallback` on.
unfoldable pub energy_boundary : ℕ → Bool → Bool → Boundary
unfolding drain_silence nothing_yet
energy_boundary sample_count is_eof is_loud =
    let target_samples = (chunk_min_samples + chunk_max_samples) / 2 in
    if not is_loud
    then drain_silence sample_count is_eof
    else if leb target_samples sample_count || is_eof
    then record {
      evaluated = true;
      cut = if ltb target_samples sample_count then target_samples else sample_count;
      silence_drain = 0;
    }
    else nothing_yet

-- vw_vad_find_chunk_boundary
unfoldable pub find_chunk_boundary : Detection → Bool → ℕ → Bool → Boundary
unfolding model_boundary energy_boundary nothing_yet
find_chunk_boundary no_model is_loud sample_count is_eof =
    if sample_count == 0 then nothing_yet else energy_boundary sample_count is_eof is_loud
find_chunk_boundary failed is_loud sample_count is_eof =
    if sample_count == 0 then nothing_yet else energy_boundary sample_count is_eof is_loud
find_chunk_boundary (found segments) is_loud sample_count is_eof =
    if sample_count == 0 then nothing_yet else model_boundary sample_count is_eof segments
