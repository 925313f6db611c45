-- ===== src/Protocol/Roundtrip/Messages.antt =====
-- The round trip of every message, through the switches of the two functions.
use vlc_whisper.Common.{
  ℕ, ◌+◌, ◌≡◌, refl, ◌∙◌, arith, Option, none, some, List, [], ltb, if◌then◌else◌, length,
}
use vlc_whisper.Protocol.Wire.{Reader, finish, done}
use vlc_whisper.Protocol.Types.{
  Message, hello, hello_ack, start_session, audio_pcm, pause, resume, stop_session, caption_segment,
  status, error, shutdown, started, position, model_ctrl, model_progress, translate_ctrl,
  message_type,
}
use vlc_whisper.Protocol.WellFormed.{IsWellFormed}
use vlc_whisper.Protocol.Encode.{encode_payload}
use vlc_whisper.Protocol.Decode.{decode_payload, wrap}
use vlc_whisper.Protocol.Roundtrip.Shared.{Carries}
use vlc_whisper.Protocol.Roundtrip.Plain.{
  hello_carried, hello_ack_carried, audio_carried, position_carried, control_carried,
  started_carried,
}
use vlc_whisper.Protocol.Roundtrip.Fixed.{
  model_ctrl_carried, model_progress_carried, status_carried, translate_ctrl_carried,
}
use vlc_whisper.Protocol.Roundtrip.Text.{start_carried, error_carried}
use vlc_whisper.Protocol.Roundtrip.Caption.{caption_carried, trailer_size}

-- The documented payload sizes.
abbrev pub payload_size : (m : Message) → IsWellFormed m → ℕ
payload_size (hello p) v = 38 + p.client_version_length
payload_size (hello_ack p) v = 10 + p.worker_version_length
payload_size (start_session p) v = 40 + length v.model.0 + length v.language.0 + length v.url.0
payload_size (audio_pcm p) v = 36 + p.pcm_bytes
payload_size (pause p) v = 18
payload_size (resume p) v = 18
payload_size (stop_session p) v = 18
payload_size (caption_segment p) v = 43 + p.text_bytes + trailer_size p.translation_attempted p
payload_size (status p) v = 60
payload_size (error p) v = 277
payload_size shutdown v = 0
payload_size (started p) v = 17
payload_size (position p) v = 40
payload_size (model_ctrl p) v = 49
payload_size (model_progress p) v = 66
payload_size (translate_ctrl p) v = 50

abbrev Survives : Message → ℕ → ℕ → Type 0
Survives m room size =
    (bs : List ℕ) × (encode_payload m room ≡ (if ltb room (length bs) then none else some bs))
    × (length bs ≡ size)
    × (decode_payload (message_type m) bs ≡ some m)

survives :
    {A : Type 0} (make : A → Message) (encode : ℕ → Option (List ℕ)) (reader : Reader A) (p : A)
    (size room : ℕ)
    → Carries encode reader p size
    → (encode_payload (make p) room ≡ encode room)
    → ((bs : List ℕ) → decode_payload (message_type (make p)) bs ≡ wrap make reader bs)
    → Survives (make p) room size
survives make encode reader p size room (bs, e, l, d) ee dd =
    (bs, ee ∙ e room, l, dd bs ∙ rw (d, wrap))

-- Every well-formed message is encoded as a payload of the size documented for it, unless the
-- buffer is smaller, which is an error; the payload is decoded, under the message's type, to the
-- same message.
pub decode_payload-encode_payload :
    (m : Message) (room : ℕ) (v : IsWellFormed m)
    → (bs : List ℕ) × (encode_payload m room ≡ (if ltb room (length bs) then none else some bs))
      × (length bs ≡ payload_size m v)
      × (decode_payload (message_type m) bs ≡ some m)
unfolding encode_payload decode_payload message_type finish done
decode_payload-encode_payload (hello p) room v =
    survives hello _ _ p _ room (hello_carried p v) refl (λ bs. refl)
decode_payload-encode_payload (hello_ack p) room v =
    survives hello_ack _ _ p _ room (hello_ack_carried p v) refl (λ bs. refl)
decode_payload-encode_payload (start_session p) room v =
    survives start_session _ _ p _ room (start_carried p v) refl (λ bs. refl)
decode_payload-encode_payload (audio_pcm p) room v =
    survives audio_pcm _ _ p _ room (audio_carried p v) refl (λ bs. refl)
decode_payload-encode_payload (pause p) room v =
    survives pause _ _ p _ room (control_carried p v) refl (λ bs. refl)
decode_payload-encode_payload (resume p) room v =
    survives resume _ _ p _ room (control_carried p v) refl (λ bs. refl)
decode_payload-encode_payload (stop_session p) room v =
    survives stop_session _ _ p _ room (control_carried p v) refl (λ bs. refl)
decode_payload-encode_payload (caption_segment p) room v =
    survives caption_segment _ _ p _ room (caption_carried p v) refl (λ bs. refl)
decode_payload-encode_payload (status p) room v =
    survives status _ _ p _ room (status_carried p v) refl (λ bs. refl)
decode_payload-encode_payload (error p) room v =
    survives error _ _ p _ room (error_carried p v) refl (λ bs. refl)
decode_payload-encode_payload shutdown room v = ([], ground arith, refl, refl)
decode_payload-encode_payload (started p) room v =
    survives started _ _ p _ room (started_carried p v) refl (λ bs. refl)
decode_payload-encode_payload (position p) room v =
    survives position _ _ p _ room (position_carried p v) refl (λ bs. refl)
decode_payload-encode_payload (model_ctrl p) room v =
    survives model_ctrl _ _ p _ room (model_ctrl_carried p v) refl (λ bs. refl)
decode_payload-encode_payload (model_progress p) room v =
    survives model_progress _ _ p _ room (model_progress_carried p v) refl (λ bs. refl)
decode_payload-encode_payload (translate_ctrl p) room v =
    survives translate_ctrl _ _ p _ room (translate_ctrl_carried p v) refl (λ bs. refl)
