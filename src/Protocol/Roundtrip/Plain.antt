-- ===== src/Protocol/Roundtrip/Plain.antt =====
-- Round trips of the messages whose arrays and pointers travel unchanged.
use vlc_whisper.Common.{◌+◌, ap, ◌∙◌, some, arith, length-append}
use vlc_whisper.Protocol.Wire.{finish, done, ◌>>◌, length-le_bytes, bind-field}
use vlc_whisper.Protocol.Types.{
  Hello, HelloAck, Audio, Position, Control, Started, auth_token_bytes, session_id_bytes,
}
use vlc_whisper.Protocol.WellFormed.{IsHello, IsHelloAck, IsAudio, IsPosition, IsControl, IsStarted}
use vlc_whisper.Protocol.Encode.{
  encode_hello, encode_hello_ack, encode_audio, encode_position, encode_control, encode_started,
}
use vlc_whisper.Protocol.Decode.{
  decode_hello, decode_hello_ack, decode_audio, decode_position, decode_control, decode_started,
  decode_started_at,
}
use vlc_whisper.Protocol.Roundtrip.Shared.{
  Carries, write_all-empty, write_all-guarded, bind-array, bind-pointer, bind-remaining,
  some-Points, length-array, length-read_at,
}

pub hello_carried :
    (p : Hello) → IsHello p → Carries (encode_hello p) decode_hello p (38 + p.client_version_length)
unfolding encode_hello decode_hello done finish ◌>>◌
hello_carried p v = (
  _,
  λ room. write_all-guarded p.client_version p.client_version_length room _ v.points,
  omega (
    arith,
    length-append {0},
    length-le_bytes,
    length-array _ _ v.token_size,
    length-read_at _ _ v.points,
  ),
  ap finish (
        bind-field 2 p.min_major _ _ v.min_fits
        ∙ bind-field 2 p.max_major _ _ v.max_fits
        ∙ bind-array auth_token_bytes p.auth_token _ _ v.token_size
        ∙ bind-field 2 p.client_version_length _ _ v.length_fits
        ∙ bind-pointer p.client_version p.client_version_length _ _ v.points)
      ∙ ap (λ ptr. some (record p { client_version = ptr })) (some-Points _ _ v.points),
)

pub hello_ack_carried :
    (p : HelloAck)
    → IsHelloAck p
    → Carries (encode_hello_ack p) decode_hello_ack p (10 + p.worker_version_length)
unfolding encode_hello_ack decode_hello_ack done finish ◌>>◌
hello_ack_carried p v = (
  _,
  λ room. write_all-guarded p.worker_version p.worker_version_length room _ v.points,
  omega (arith, length-append {0}, length-le_bytes, length-read_at _ _ v.points),
  ap finish (
        bind-field 2 p.selected_major _ _ v.major_fits
        ∙ bind-field 2 p.selected_minor _ _ v.minor_fits
        ∙ bind-field 4 p.capability_flags _ _ v.flags_fit
        ∙ bind-field 2 p.worker_version_length _ _ v.length_fits
        ∙ bind-pointer p.worker_version p.worker_version_length _ _ v.points)
      ∙ ap (λ ptr. some (record p { worker_version = ptr })) (some-Points _ _ v.points),
)

pub audio_carried :
    (p : Audio) → IsAudio p → Carries (encode_audio p) decode_audio p (36 + p.pcm_bytes)
unfolding encode_audio decode_audio done finish ◌>>◌
audio_carried p v = (
  _,
  λ room. write_all-guarded p.pcm_data p.pcm_bytes room _ v.points,
  omega (
    arith,
    length-append {0},
    length-le_bytes,
    length-array _ _ v.session,
    length-read_at _ _ v.points,
  ),
  ap finish (
        bind-array session_id_bytes p.session_id _ _ v.session
        ∙ bind-field 8 p.start_pts_us _ _ v.start_fits
        ∙ bind-field 8 p.duration_us _ _ v.duration_fits
        ∙ bind-field 4 p.pcm_bytes _ _ v.length_fits
        ∙ bind-pointer p.pcm_data p.pcm_bytes _ _ v.points)
      ∙ ap (λ ptr. some (record p { pcm_data = ptr })) (some-Points _ _ v.points),
)

pub position_carried :
    (p : Position) → IsPosition p → Carries (encode_position p) decode_position p 40
unfolding encode_position decode_position done finish ◌>>◌
position_carried p v = (
  _,
  λ room. write_all-empty room _,
  omega (arith, length-append {0}, length-le_bytes, length-array _ _ v.session),
  ap finish (
      bind-array session_id_bytes p.session_id _ _ v.session
      ∙ bind-field 8 p.current_pts_us _ _ v.current_fits
      ∙ bind-field 8 p.input_time_us _ _ v.input_fits
      ∙ bind-field 4 p.playback_rate _ _ v.rate_fits
      ∙ bind-field 4 p.flags _ _ v.flags_fit),
)

pub control_carried : (p : Control) → IsControl p → Carries (encode_control p) decode_control p 18
unfolding encode_control decode_control done finish ◌>>◌
control_carried p v = (
  _,
  λ room. write_all-empty room _,
  omega (arith, length-append {0}, length-le_bytes, length-array _ _ v.session),
  ap finish (
      bind-array session_id_bytes p.session_id _ _ v.session
      ∙ bind-field 2 p.reason _ _ v.reason_fits),
)

pub started_carried : (p : Started) → IsStarted p → Carries (encode_started p) decode_started p 17
unfolding encode_started decode_started done finish ◌>>◌ decode_started_at
started_carried p v = (
  _,
  λ room. write_all-empty room _,
  omega (arith, length-append {0}, length-le_bytes, length-array _ _ v.session),
  ap finish (
      bind-remaining 17 _ _
        (omega (arith, length-append {0}, length-le_bytes, length-array _ _ v.session))
      ∙ bind-array session_id_bytes p.session_id _ _ v.session
      ∙ bind-field 1 p.source_active _ _ v.active_fits),
)
