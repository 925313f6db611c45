-- ===== src/AudioBuffer/Tests.antt =====
-- The theorems on the ring of samples at concrete inputs, and runs of the code.
use vlc_whisper.Common.{
  ◌≡◌, ◌*◌, refl, ◌||◌, none, some, [], ◌∷◌, ◌++◌, arith, take, drop, ltb, ◌==◌, if◌then◌else◌,
}
use vlc_whisper.Common.Int.{pos}
use vlc_whisper.AudioBuffer.{AudioBuffer, is_discontinuity, append_s16le, get_samples, drain}
use vlc_whisper.AudioBuffer.Contents.{IsValid, contents, newest}
use vlc_whisper.AudioBuffer.Operations.{append_s16le_lem, get_samples_lem, drain_lem}
use vlc_whisper.AudioBuffer.Clock.{IsLater, end_time, block_start, append_s16le-IsLater}

-- Room for four samples; 11, 12 and 13 are held, behind the end of the array too.
abbrev three_samples : AudioBuffer
three_samples = record {
  samples = 13 ∷ 9 ∷ 11 ∷ 12 ∷ [];
  max_samples = 4;
  head = 1;
  count = 3;
  start_pts_us = pos 1000;
  start_pts_frac_us = 1;
  dropped_samples = 0;
}

three_samples-IsValid : IsValid three_samples
three_samples-IsValid = record {
  storage = refl;
  some_room = omega arith;
  head_in = omega arith;
  count_in = omega arith;
  frac_in = omega arith;
}

held : contents three_samples ≡ 11 ∷ 12 ∷ 13 ∷ []
held = refl

append_s16le_lem_example :
    let (done, b') = append_s16le three_samples (14 ∷ 15 ∷ []) (pos 1188) in
    (done ≡ ltb 0 2)
    × (contents b' ≡ (
        if ltb 0 2
        then newest 4 (
            (if is_discontinuity three_samples (pos 1188) then [] else contents three_samples)
            ++ 14 ∷ 15 ∷ [])
        else contents three_samples))
    × IsValid b'
append_s16le_lem_example =
    append_s16le_lem three_samples (14 ∷ 15 ∷ []) (pos 1188) three_samples-IsValid

get_samples_lem_example : get_samples three_samples 2 ≡ (
    if 2 == 0 || 3 == 0
    then none
    else some (take 2 (contents three_samples), three_samples.start_pts_us))
get_samples_lem_example = get_samples_lem three_samples 2

drain_lem_example :
    (contents (drain three_samples 2) ≡ drop 2 (contents three_samples))
    × IsValid (drain three_samples 2)
drain_lem_example = drain_lem three_samples 2 three_samples-IsValid

append_s16le-IsLater_example :
    let (_, b') = append_s16le three_samples (14 ∷ 15 ∷ []) (pos 1188) in
    IsLater (125 * 2) (block_start three_samples (pos 1188)) (end_time b')
append_s16le-IsLater_example = append_s16le-IsLater three_samples 14 (15 ∷ []) (pos 1188)
