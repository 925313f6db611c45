-- ===== src/Protocol/Validate.antt =====
-- vw_protocol_validate_payload of protocol/src/vw_protocol_validate.c: one function for each case
-- of its switch. Signed 64-bit fields are compared as their patterns moved by 2^63; a `float` is
-- read by the fields of its IEEE 754 pattern.
pub mod Pcm
pub mod Cues
use vlc_whisper.Common.{
  ℕ, zero, suc, ◌+◌, ◌-◌, ◌*◌, ◌/◌, ◌%◌, ◌^◌, Bool, true, false, ◌&&◌, ◌||◌, not, List, [], ◌∷◌,
  ltb, leb, ◌==◌, if◌then◌else◌, Option, none, some, take,
}
use mathlib.Core.Option.{get_or}
use vlc_whisper.Protocol.Types.{
  Pointer, Hello, HelloAck, Start, Started, Position, Audio, Control, ModelCtrl, ModelProgress,
  TranslateCtrl, ErrorMsg, CaptionSegment, Message, hello, hello_ack, start_session, audio_pcm,
  pause, resume, stop_session, caption_segment, status, error, shutdown, started, position,
  model_ctrl, model_progress, translate_ctrl, is_null, max_text_bytes, max_model_id_bytes,
  max_source_url_bytes,
}
use vlc_whisper.Protocol.Encode.{strnlen}
use vlc_whisper.Protocol.Utf8.{is_valid_utf8}
use vlc_whisper.Protocol.Language.{is_valid_language_code}

-- a < b for int64_t
abbrev pub lt_i64 : ℕ → ℕ → Bool
lt_i64 a b = ltb ((a + 2 ^ 63) % 2 ^ 64) ((b + 2 ^ 63) % 2 ^ 64)

-- The pattern of -n.
abbrev pub neg_i64 : ℕ → ℕ
neg_i64 n = 2 ^ 64 - n

is_blank : ℕ → Bool
is_blank c = c == b' ' || c == b'\n' || c == b'\r' || c == b'\t'

-- The loop of is_empty_or_whitespace.
unfoldable pub all_blank : List ℕ → Bool
unfolding is_blank
all_blank [] = true
all_blank (c ∷ cs) = if not (is_blank c) then false else all_blank cs

unfoldable pub is_empty_or_whitespace : List ℕ → ℕ → Bool
is_empty_or_whitespace s len = if len == 0 then true else all_blank (take len s)

-- The loop that refuses control characters.
unfoldable pub no_control : List ℕ → Bool
no_control [] = true
no_control (c ∷ cs) =
    if ltb c 0x20 && not (c == b'\n') && not (c == b' ') then false else no_control cs

-- vw_bounded_string_length
unfoldable pub bounded_string_length : List ℕ → ℕ → Option ℕ
unfolding strnlen
bounded_string_length text capacity =
    let len = strnlen text capacity in
    if capacity == 0 then none else if len == capacity then none else some len

unfoldable pub validate_hello : Hello → Bool
validate_hello p = if ltb 0 p.client_version_length && is_null p.client_version then false else true

unfoldable pub validate_hello_ack : HelloAck → Bool
validate_hello_ack p =
    if ltb 0 p.worker_version_length && is_null p.worker_version then false else true

-- The tests on the URL behind those on the model.
unfoldable pub validate_source : Start → Option ℕ → Bool
validate_source p none = false
validate_source p (some source_url_length) =
    if not (p.source_url_len == source_url_length)
    then false
    else if p.source_kind == 0
    then source_url_length == 0
    else if p.source_kind == 1
    then ltb 0 source_url_length
    else false

unfoldable pub validate_model : Start → Option ℕ → Bool
unfolding validate_source bounded_string_length
validate_model p none = false
validate_model p (some model_id_length) =
    if model_id_length == 0
    then false
    else validate_source p (bounded_string_length p.source_url max_source_url_bytes)

unfoldable pub validate_start : Start → Bool
unfolding validate_model is_valid_language_code bounded_string_length
validate_start p =
    if not (p.sample_rate == 16000) || not (p.channels == 1) || not (p.sample_format == 1)
    then false
    else if not (is_valid_language_code p.language false)
    then false
    else validate_model p (bounded_string_length p.model_id max_model_id_bytes)

-- `duration_us * 32 / 1000` as uint32_t; the duration is at most 30 seconds there.
abbrev pub expected_pcm_bytes : ℕ → ℕ
expected_pcm_bytes duration_us = (duration_us * 32 / 1000) % 2 ^ 32

unfoldable pub validate_audio : Audio → Bool
validate_audio p =
    if not (lt_i64 0 p.duration_us) || lt_i64 30000000 p.duration_us
    then false
    else if not (p.pcm_bytes % 2 == 0)
    then false
    else if ltb ((p.pcm_bytes + 1) % 2 ^ 32) (expected_pcm_bytes p.duration_us)
        || ltb ((expected_pcm_bytes p.duration_us + 1) % 2 ^ 32) p.pcm_bytes
    then false
    else if ltb 0 p.pcm_bytes && is_null p.pcm_data
    then false
    else true

-- isfinite(f): the exponent is not all ones.
abbrev pub is_finite : ℕ → Bool
is_finite f = not (f / 2 ^ 23 % 256 == 255)

-- f <= 0.0f and f > 16.0f for a finite f.
abbrev pub le_zero : ℕ → Bool
le_zero f = leb (2 ^ 31) f || f == 0

abbrev pub gt_sixteen : ℕ → Bool
gt_sixteen f = ltb f (2 ^ 31) && ltb 0x41800000 f

unfoldable pub validate_position : Position → Bool
validate_position p =
    if lt_i64 p.current_pts_us (neg_i64 10000000) || lt_i64 315360000000000 p.current_pts_us
    then false
    else if lt_i64 p.input_time_us (neg_i64 1) || lt_i64 315360000000000 p.input_time_us
    then false
    else if not (is_finite p.playback_rate) || le_zero p.playback_rate || gt_sixteen p.playback_rate
    then false
    else if not (p.flags / 4 == 0)
    then false
    else true

-- The tests that the caption's text and its translation share.
unfoldable pub validate_text : Pointer → ℕ → Bool
validate_text text n =
    if ltb max_text_bytes n
    then false
    else if ltb 0 n && is_null text
    then false
    else if is_empty_or_whitespace (get_or text []) n
    then false
    else if not (is_valid_utf8 (get_or text []) n)
    then false
    else no_control (take n (get_or text []))

unfoldable pub validate_caption : CaptionSegment → Bool
validate_caption p =
    if not (lt_i64 p.start_pts_us p.end_pts_us)
    then false
    else if not (validate_text p.text_utf8 p.text_bytes)
    then false
    else if not (
        if ltb 0 p.translated_text_bytes
        then validate_text p.translated_text_utf8 p.translated_text_bytes
        else is_null p.translated_text_utf8)
    then false
    else if not p.translation_attempted
        && (ltb 0 p.translated_text_bytes
            || ltb 0 p.translation_latency_us
            || ltb 0 p.translation_tier)
    then false
    else if ltb 3 p.translation_tier
    then false
    else if ltb 0 p.translated_text_bytes && p.translation_tier == 0
    then false
    else if p.translated_text_bytes == 0 && not (p.translation_tier == 0)
    then false
    else true

unfoldable pub validate_translate_ctrl : TranslateCtrl → Bool
unfolding is_valid_language_code
validate_translate_ctrl p =
    if ltb 1 p.enabled
    then false
    else if ltb 1 p.mode
    then false
    else if not (is_valid_language_code p.source_lang true)
    then false
    else if not (is_valid_language_code p.target_lang false)
    then false
    else true

unfoldable pub validate_model_progress : ModelProgress → Bool
validate_model_progress p =
    if ltb 5 p.stage
    then false
    else if ltb 100 p.pct
    then false
    else if p.bytes_total == 0 && not (p.stage == 0) && not (p.stage == 4)
    then false
    else true

-- The switch; a NULL payload is refused before it.
unfoldable pub validate_payload : Message → Bool
unfolding validate_hello validate_hello_ack validate_start validate_audio validate_caption
    validate_position validate_translate_ctrl validate_model_progress
validate_payload (hello p) = validate_hello p
validate_payload (hello_ack p) = validate_hello_ack p
validate_payload (start_session p) = validate_start p
validate_payload (audio_pcm p) = validate_audio p
validate_payload (pause p) = p.reason == 1
validate_payload (resume p) = p.reason == 1
validate_payload (stop_session p) = p.reason == 1 || p.reason == 2 || p.reason == 3
validate_payload (caption_segment p) = validate_caption p
validate_payload (status p) = true
validate_payload (error p) = leb 1 p.error_code && leb p.error_code 15
validate_payload shutdown = true
validate_payload (started p) =
    if not (p.source_active == 0) && not (p.source_active == 1) then false else true
validate_payload (position p) = validate_position p
validate_payload (model_ctrl p) = if not (p.action == 1) && not (p.action == 2) then false else true
validate_payload (model_progress p) = validate_model_progress p
validate_payload (translate_ctrl p) = validate_translate_ctrl p
