-- ===== src/Protocol/Validate/Pcm.antt =====
-- What vw_protocol_validate_payload accepts of AUDIO_PCM and POSITION, as numbers.
use vlc_whisper.Common.{◌+◌, ◌-◌, ◌*◌, ◌/◌, ◌%◌, ◌^◌, ◌≤◌, ◌<◌, ◌≡◌, ◌↔◌, ◌⊎◌, true, false, arith}
use vlc_whisper.Protocol.Types.{Audio, Position, is_null}
use vlc_whisper.Protocol.WellFormed.{U32, U64}
use vlc_whisper.Protocol.Validate.{validate_audio, validate_position}

-- An audio message is accepted exactly if it is longer than 0 and at most 30 seconds, holds whole
-- 16-bit samples, within one byte of 32 bytes for each millisecond, and has them unless there are
-- none. (No comparison is fooled by a wrapped 32-bit sum or by a negative duration.)
pub validate_audio_iff :
    (p : Audio)
    → U32 p.pcm_bytes
    → U64 p.duration_us
    → (validate_audio p ≡ true) ↔ (
        (0 < p.duration_us)
        × (p.duration_us ≤ 30000000)
        × (p.pcm_bytes % 2 ≡ 0)
        × (p.duration_us * 32 / 1000 ≤ p.pcm_bytes + 1)
        × (p.pcm_bytes ≤ p.duration_us * 32 / 1000 + 1)
        × ((p.pcm_bytes ≡ 0) ⊎ (is_null p.pcm_data ≡ false)))
unfolding validate_audio
validate_audio_iff p hb hd = (λ e. ground arith, λ e. ground arith)

-- Where the fields have their widths, a position is accepted exactly if the playback rate's pattern
-- is that of a positive number of at most 16 (the patterns of the positive numbers have their
-- order), only the two defined flags are set, the media time is from -10 seconds to ten years, and
-- the input time from -1 microsecond to ten years, each as a 64-bit two's complement.
pub validate_position_iff :
    (p : Position)
    → U64 p.current_pts_us
    → U64 p.input_time_us
    → U32 p.playback_rate
    → (validate_position p ≡ true) ↔ (
        ((p.current_pts_us ≤ 315360000000000) ⊎ (2 ^ 64 - 10000000 ≤ p.current_pts_us))
        × ((p.input_time_us ≤ 315360000000000) ⊎ (p.input_time_us ≡ 2 ^ 64 - 1))
        × (0 < p.playback_rate)
        × (p.playback_rate ≤ 0x41800000)
        × (p.flags < 4))
unfolding validate_position
validate_position_iff p hc hi hr = (λ e. ground arith, λ e. ground arith)
