-- ===== src/AudioBuffer.antt =====
-- The worker's ring of audio samples and its clock: worker/src/vw_audio_buffer.c and
-- worker/include/vw_audio_buffer.h. The float `pcm16[i] / 32768.0f` is exact, and stands here as
-- the pattern of the 16-bit sample that it is made from. Times are 64-bit signed integers, taken
-- not to overflow: a time in a valid message is at most ten years.
pub mod Contents
pub mod Operations
pub mod Clock
mod Tests
use vlc_whisper.Common.{
  ℕ, ◌+◌, ◌-◌, ◌*◌, ◌/◌, ◌%◌, Bool, true, false, ◌||◌, Option, none, some, List, [], ◌∷◌, ltb, ◌==◌,
  if◌then◌else◌, length, get_or, set, replicate, zero, suc,
}
use vlc_whisper.Common.Int.{ℤ, pos, negsuc, ◌+ℤ◌, ◌-ℤ◌, ltb_ℤ}

-- vw_audio_buffer_t; `start_pts_frac_us` counts half microseconds and is never negative.
pub record AudioBuffer : Type 0 where
  pub samples : List ℕ
  pub max_samples : ℕ
  pub head : ℕ
  pub count : ℕ
  pub start_pts_us : ℤ
  pub start_pts_frac_us : ℕ
  pub dropped_samples : ℕ

-- vw_audio_buffer_create; the tests tell whether the allocations succeed.
unfoldable pub create : ℕ → Bool → Bool → Option AudioBuffer
create max_samples struct_allocated samples_allocated =
    if max_samples == 0
    then none
    else if struct_allocated
    then if samples_allocated
      then some (record {
        samples = replicate max_samples 0;
        max_samples = max_samples;
        head = 0;
        count = 0;
        start_pts_us = negsuc 0;
        start_pts_frac_us = 0;
        dropped_samples = 0;
      })
      else none
    else none

-- vw_audio_buffer_advance_pts
unfoldable pub advance_pts : AudioBuffer → ℕ → AudioBuffer
advance_pts buf n =
    let frac = buf.start_pts_frac_us + n in
    record buf {
      start_pts_us = buf.start_pts_us +ℤ pos (n * 62) +ℤ pos (frac / 2);
      start_pts_frac_us = frac % 2;
    }

-- vw_audio_buffer_clear
unfoldable pub clear : AudioBuffer → AudioBuffer
clear buf = record buf { head = 0; count = 0; start_pts_us = negsuc 0; start_pts_frac_us = 0 }

-- The time behind the newest sample.
unfoldable pub expected_pts_us : AudioBuffer → ℤ
expected_pts_us buf = buf.start_pts_us +ℤ pos ((buf.count * 125 + buf.start_pts_frac_us) / 2)

-- A new PTS more than 63 microseconds from the expected one, of a buffer that holds samples.
unfoldable pub is_discontinuity : AudioBuffer → ℤ → Bool
unfolding expected_pts_us
is_discontinuity buf pts_us =
    if ltb 0 buf.count
    then (let delta = pts_us -ℤ expected_pts_us buf in
        ltb_ℤ delta (negsuc 62) || ltb_ℤ (pos 63) delta)
    else false

-- One turn of the loop over the samples.
unfoldable pub append_sample : AudioBuffer → ℕ → AudioBuffer
unfolding advance_pts
append_sample buf sample =
    let stored = record buf {
      samples = set buf.samples buf.head sample;
      head = (buf.head + 1) % buf.max_samples;
    } in
    if ltb buf.count buf.max_samples
    then record stored { count = buf.count + 1 }
    else advance_pts (record stored { dropped_samples = buf.dropped_samples + 1 }) 1

unfoldable pub append_samples : AudioBuffer → List ℕ → AudioBuffer
unfolding append_sample
append_samples buf [] = buf
append_samples buf (sample ∷ rest) = append_samples (append_sample buf sample) rest

-- `if (buf->count == 0)`: the first samples set the clock.
unfoldable pub anchor : AudioBuffer → ℤ → AudioBuffer
anchor buf pts_us =
    if buf.count == 0 then record buf { start_pts_us = pts_us; start_pts_frac_us = 0 } else buf

-- vw_audio_buffer_append_s16le
unfoldable pub append_s16le : AudioBuffer → List ℕ → ℤ → Bool × AudioBuffer
unfolding is_discontinuity clear anchor append_samples
append_s16le buf pcm16 pts_us = if length pcm16 == 0 then (false, buf) else (
  true,
  append_samples (anchor (if is_discontinuity buf pts_us then clear buf else buf) pts_us) pcm16,
)

-- The loop of vw_audio_buffer_get_samples: `n` samples from index `i` behind `tail`.
unfoldable pub copy_samples : AudioBuffer → ℕ → ℕ → ℕ → List ℕ
copy_samples buf tail i zero = []
copy_samples buf tail i (suc n) =
    get_or buf.samples ((tail + i) % buf.max_samples) 0 ∷ copy_samples buf tail (i + 1) n

-- vw_audio_buffer_get_samples: the samples copied and the time of the first, or `none` for 0.
unfoldable pub get_samples : AudioBuffer → ℕ → Option (List ℕ × ℤ)
unfolding copy_samples
get_samples buf max_out =
    if max_out == 0 || buf.count == 0
    then none
    else (let to_copy = if ltb buf.count max_out then buf.count else max_out in
        let tail = (buf.head + buf.max_samples - buf.count) % buf.max_samples in
        some (copy_samples buf tail 0 to_copy, buf.start_pts_us))

-- vw_audio_buffer_drain
unfoldable pub drain : AudioBuffer → ℕ → AudioBuffer
unfolding advance_pts
drain buf sample_count =
    if sample_count == 0 || buf.count == 0
    then buf
    else (let drained = if ltb sample_count buf.count then sample_count else buf.count in
        let rest = advance_pts (record buf { count = buf.count - drained }) drained in
        if rest.count == 0
        then record rest { head = 0; start_pts_us = negsuc 0; start_pts_frac_us = 0 }
        else rest)

-- vw_audio_buffer_get_count and vw_audio_buffer_get_available
unfoldable pub get_count : AudioBuffer → ℕ
get_count buf = buf.count
