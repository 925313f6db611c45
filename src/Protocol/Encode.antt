-- ===== src/Protocol/Encode.antt =====
-- vw_protocol_encode_payload of protocol/src/vw_protocol_codec.c: one function for each case of
-- its switch. `none` is `return false`, `some bs` is `true` with `bs` in the buffer and its length
-- in `*out_written`.
use vlc_whisper.Common.{
  ℕ, zero, suc, ◌-◌, ◌&&◌, ◌||◌, Option, none, some, List, [], ◌∷◌, ltb, leb, ◌==◌, if◌then◌else◌,
  take,
}
use vlc_whisper.Protocol.Wire.{le_bytes, write_all}
use vlc_whisper.Protocol.Types.{
  Hello, HelloAck, Start, Started, Position, Audio, Control, Status, ModelCtrl, ModelProgress,
  TranslateCtrl, ErrorMsg, CaptionSegment, Message, hello, hello_ack, start_session, audio_pcm,
  pause, resume, stop_session, caption_segment, status, error, shutdown, started, position,
  model_ctrl, model_progress, translate_ctrl, is_null, read_at, max_model_id_bytes,
  max_source_url_bytes, max_error_msg_bytes, session_id_bytes, auth_token_bytes,
}

-- strnlen(text, n)
unfoldable pub strnlen : List ℕ → ℕ → ℕ
strnlen text zero = 0
strnlen [] (suc n) = 0
strnlen (c ∷ cs) (suc n) = if c == 0 then 0 else suc (strnlen cs n)

-- `uint16_t len = strnlen(text, n); if (len >= n) len = n - 1;`
unfoldable pub capped_strnlen : List ℕ → ℕ → ℕ
unfolding strnlen
capped_strnlen text n = let len = strnlen text n in if leb n len then n - 1 else len

unfoldable pub encode_hello : Hello → ℕ → Option (List ℕ)
encode_hello p room =
    if ltb 0 p.client_version_length && is_null p.client_version
    then none
    else write_all room
        (le_bytes 2 p.min_major
          ∷ le_bytes 2 p.max_major
          ∷ take auth_token_bytes p.auth_token
          ∷ le_bytes 2 p.client_version_length
          ∷ read_at p.client_version p.client_version_length
          ∷ [])
        []

unfoldable pub encode_hello_ack : HelloAck → ℕ → Option (List ℕ)
encode_hello_ack p room =
    if ltb 0 p.worker_version_length && is_null p.worker_version
    then none
    else write_all room
        (le_bytes 2 p.selected_major
          ∷ le_bytes 2 p.selected_minor
          ∷ le_bytes 4 p.capability_flags
          ∷ le_bytes 2 p.worker_version_length
          ∷ read_at p.worker_version p.worker_version_length
          ∷ [])
        []

-- The length that goes with the URL: the stored one, or the string's if that is 0, capped.
unfoldable pub encoded_url_len : Start → ℕ
unfolding strnlen
encoded_url_len p =
    let url_len =
      if ltb 0 p.source_url_len
      then p.source_url_len
      else strnlen p.source_url max_source_url_bytes in
    if leb max_source_url_bytes url_len then max_source_url_bytes - 1 else url_len

unfoldable pub encode_start : Start → ℕ → Option (List ℕ)
encode_start p room =
    let model_id_len = capped_strnlen p.model_id max_model_id_bytes in
    let lang_len = capped_strnlen p.language 16 in
    let url_len = encoded_url_len p in
    write_all room
      (take session_id_bytes p.session_id
        ∷ le_bytes 8 p.timeline_origin_pts_us
        ∷ le_bytes 4 p.sample_rate
        ∷ le_bytes 2 p.channels
        ∷ le_bytes 2 p.sample_format
        ∷ le_bytes 2 model_id_len
        ∷ take model_id_len p.model_id
        ∷ le_bytes 2 lang_len
        ∷ take lang_len p.language
        ∷ le_bytes 2 p.source_kind
        ∷ le_bytes 2 url_len
        ∷ take url_len p.source_url
        ∷ [])
      []

unfoldable pub encode_position : Position → ℕ → Option (List ℕ)
encode_position p room =
    write_all room
      (take session_id_bytes p.session_id
        ∷ le_bytes 8 p.current_pts_us
        ∷ le_bytes 8 p.input_time_us
        ∷ le_bytes 4 p.playback_rate
        ∷ le_bytes 4 p.flags
        ∷ [])
      []

unfoldable pub encode_audio : Audio → ℕ → Option (List ℕ)
encode_audio p room =
    if ltb 0 p.pcm_bytes && is_null p.pcm_data
    then none
    else write_all room
        (take session_id_bytes p.session_id
          ∷ le_bytes 8 p.start_pts_us
          ∷ le_bytes 8 p.duration_us
          ∷ le_bytes 4 p.pcm_bytes
          ∷ read_at p.pcm_data p.pcm_bytes
          ∷ [])
        []

-- PAUSE, RESUME and STOP_SESSION.
unfoldable pub encode_control : Control → ℕ → Option (List ℕ)
encode_control p room =
    write_all room (take session_id_bytes p.session_id ∷ le_bytes 2 p.reason ∷ []) []

-- The trailer of a translated caption.
abbrev pub translation_trailer : CaptionSegment → List (List ℕ)
translation_trailer p =
    le_bytes 2 p.translated_text_bytes
    ∷ read_at p.translated_text_utf8 p.translated_text_bytes
    ∷ le_bytes 4 p.translation_latency_us
    ∷ le_bytes 1 p.translation_tier
    ∷ []

-- The fields of every caption.
abbrev pub caption_fields : CaptionSegment → List (List ℕ)
caption_fields p =
    take session_id_bytes p.session_id
    ∷ le_bytes 8 p.segment_id
    ∷ le_bytes 8 p.start_pts_us
    ∷ le_bytes 8 p.end_pts_us
    ∷ le_bytes 1 p.is_final
    ∷ le_bytes 2 p.text_bytes
    ∷ read_at p.text_utf8 p.text_bytes
    ∷ []

-- The test of `translated_text_utf8` stands behind the writes of the first fields.
unfoldable pub encode_caption : CaptionSegment → ℕ → Option (List ℕ)
encode_caption p room =
    if ltb 0 p.text_bytes && is_null p.text_utf8
    then none
    else elim (write_all room (caption_fields p) []) [
      | none ↦ none
      | some out ↦
          if ltb 0 p.translated_text_bytes && is_null p.translated_text_utf8
          then none
          else if p.translation_attempted || ltb 0 p.translated_text_bytes
          then write_all room (translation_trailer p) out
          else some out
    ]

unfoldable pub encode_translate_ctrl : TranslateCtrl → ℕ → Option (List ℕ)
encode_translate_ctrl p room =
    write_all room
      (take session_id_bytes p.session_id
        ∷ le_bytes 1 p.enabled
        ∷ take 16 p.source_lang
        ∷ take 16 p.target_lang
        ∷ le_bytes 1 p.mode
        ∷ [])
      []

unfoldable pub encode_status : Status → ℕ → Option (List ℕ)
encode_status p room =
    write_all room
      (take session_id_bytes p.session_id
        ∷ le_bytes 4 p.state
        ∷ le_bytes 8 p.queued_audio_us
        ∷ le_bytes 8 p.inference_us
        ∷ le_bytes 8 p.dropped_audio_us
        ∷ take 16 p.resolved_backend
        ∷ [])
      []

unfoldable pub encode_model_ctrl : ModelCtrl → ℕ → Option (List ℕ)
encode_model_ctrl p room =
    write_all room
      (take session_id_bytes p.session_id ∷ le_bytes 1 p.action ∷ take 32 p.model_id ∷ []) []

unfoldable pub encode_model_progress : ModelProgress → ℕ → Option (List ℕ)
encode_model_progress p room =
    write_all room
      (take session_id_bytes p.session_id
        ∷ le_bytes 1 p.stage
        ∷ le_bytes 1 p.pct
        ∷ le_bytes 8 p.bytes_done
        ∷ le_bytes 8 p.bytes_total
        ∷ take 32 p.model_id
        ∷ [])
      []

-- The test of the message stands behind the writes of the first fields; both fail alike.
unfoldable pub encode_error : ErrorMsg → ℕ → Option (List ℕ)
encode_error p room =
    elim (write_all room
      (take session_id_bytes p.session_id ∷ le_bytes 4 p.error_code ∷ le_bytes 1 p.recoverable ∷ [])
      []) [
        | none ↦ none
        | some out ↦
            if leb max_error_msg_bytes (strnlen p.message max_error_msg_bytes)
            then none
            else write_all room (take max_error_msg_bytes p.message ∷ []) out
      ]

unfoldable pub encode_started : Started → ℕ → Option (List ℕ)
encode_started p room =
    write_all room (take session_id_bytes p.session_id ∷ le_bytes 1 p.source_active ∷ []) []

-- The switch.
unfoldable pub encode_payload : Message → ℕ → Option (List ℕ)
encode_payload (hello p) room = encode_hello p room
encode_payload (hello_ack p) room = encode_hello_ack p room
encode_payload (start_session p) room = encode_start p room
encode_payload (audio_pcm p) room = encode_audio p room
encode_payload (pause p) room = encode_control p room
encode_payload (resume p) room = encode_control p room
encode_payload (stop_session p) room = encode_control p room
encode_payload (caption_segment p) room = encode_caption p room
encode_payload (status p) room = encode_status p room
encode_payload (error p) room = encode_error p room
encode_payload shutdown room = some []
encode_payload (started p) room = encode_started p room
encode_payload (position p) room = encode_position p room
encode_payload (model_ctrl p) room = encode_model_ctrl p room
encode_payload (model_progress p) room = encode_model_progress p room
encode_payload (translate_ctrl p) room = encode_translate_ctrl p room
