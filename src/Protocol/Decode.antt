-- ===== src/Protocol/Decode.antt =====
-- vw_protocol_decode_payload of protocol/src/vw_protocol_codec.c: one reader for each case of its
-- switch. What a failed call has left in `*out_payload` is not modelled.
use vlc_whisper.Common.{
  ℕ, zero, suc, ◌-◌, Bool, true, false, Option, none, some, List, [], ◌∷◌, ◌++◌, ltb, leb, ◌==◌,
  if◌then◌else◌, length, set, replicate,
}
use vlc_whisper.Protocol.Wire.{Reader, ◌>>=◌, ◌>>◌, field, bytes, remaining, require, done, finish}
use vlc_whisper.Protocol.Types.{
  Hello, HelloAck, Start, Started, Position, Audio, Control, Status, ModelCtrl, ModelProgress,
  TranslateCtrl, ErrorMsg, CaptionSegment, Message, hello, hello_ack, start_session, audio_pcm,
  pause, resume, stop_session, caption_segment, status, error, shutdown, started, position,
  model_ctrl, model_progress, translate_ctrl, max_model_id_bytes, max_source_url_bytes,
  max_error_msg_bytes, session_id_bytes, auth_token_bytes,
}

-- An array of `n` bytes, zeroed by `memset`, with `bs` at its start.
abbrev pub pad : ℕ → List ℕ → List ℕ
pad n bs = bs ++ replicate (n - length bs) 0

-- memchr(_, '\0', _) != NULL
unfoldable pub has_nul : List ℕ → Bool
has_nul [] = false
has_nul (c ∷ cs) = if c == 0 then true else has_nul cs

-- `if (!memchr(message, '\0', n)) message[n - 1] = '\0';`
unfoldable pub terminate : ℕ → List ℕ → List ℕ
unfolding has_nul
terminate n message = if has_nul message then message else set message (n - 1) 0

unfoldable pub decode_hello : Reader Hello
decode_hello = do
  min_major ← field 2
  max_major ← field 2
  token ← bytes auth_token_bytes
  n ← field 2
  version ← bytes n
  done (record {
    min_major = min_major;
    max_major = max_major;
    auth_token = token;
    client_version_length = n;
    client_version = some version;
  })

unfoldable pub decode_hello_ack : Reader HelloAck
decode_hello_ack = do
  major ← field 2
  minor ← field 2
  flags ← field 4
  n ← field 2
  version ← bytes n
  done (record {
    selected_major = major;
    selected_minor = minor;
    capability_flags = flags;
    worker_version_length = n;
    worker_version = some version;
  })

-- The URL is missing in frames of older peers.
unfoldable pub decode_url : ℕ → Reader (ℕ × List ℕ)
decode_url zero = done (0, [])
decode_url (suc left) = do
  url_len ← field 2
  require (ltb url_len max_source_url_bytes)
  url ← bytes url_len
  done (url_len, url)

unfoldable pub decode_start : Reader Start
decode_start = do
  session ← bytes session_id_bytes
  origin ← field 8
  rate ← field 4
  channels ← field 2
  format ← field 2
  model_id_len ← field 2
  require (ltb model_id_len max_model_id_bytes)
  model ← bytes model_id_len
  lang_len ← field 2
  require (ltb lang_len 16)
  language ← bytes lang_len
  kind ← field 2
  left ← remaining
  url ← decode_url left
  done (record {
    session_id = session;
    timeline_origin_pts_us = origin;
    sample_rate = rate;
    channels = channels;
    sample_format = format;
    model_id = pad max_model_id_bytes model;
    language = pad 16 language;
    source_kind = kind;
    source_url_len = url.0;
    source_url = pad max_source_url_bytes url.1;
  })

unfoldable pub decode_position : Reader Position
decode_position = do
  session ← bytes session_id_bytes
  current ← field 8
  input ← field 8
  rate ← field 4
  flags ← field 4
  done (record {
    session_id = session;
    current_pts_us = current;
    input_time_us = input;
    playback_rate = rate;
    flags = flags;
  })

unfoldable pub decode_audio : Reader Audio
decode_audio = do
  session ← bytes session_id_bytes
  start ← field 8
  duration ← field 8
  n ← field 4
  pcm ← bytes n
  done (record {
    session_id = session;
    start_pts_us = start;
    duration_us = duration;
    pcm_bytes = n;
    pcm_data = some pcm;
  })

-- PAUSE, RESUME and STOP_SESSION.
unfoldable pub decode_control : Reader Control
decode_control = do
  session ← bytes session_id_bytes
  reason ← field 2
  done (record { session_id = session; reason = reason })

-- The trailer of a translated caption, read into a caption without one. An empty translation has
-- the pointer NULL, and the last five bytes are the latency and the tier.
unfoldable pub decode_trailer : ℕ → CaptionSegment → Reader CaptionSegment
decode_trailer zero p = done p
decode_trailer (suc left) p = do
  require (leb 7 (suc left))
  n ← field 2
  text ← bytes n
  rest ← remaining
  require (rest == 5)
  latency ← field 4
  tier ← field 1
  done (record p {
    translated_text_bytes = n;
    translated_text_utf8 = if ltb 0 n then some text else none;
    translation_latency_us = latency;
    translation_tier = tier;
    translation_attempted = true;
  })

unfoldable pub decode_caption : Reader CaptionSegment
decode_caption = do
  session ← bytes session_id_bytes
  id ← field 8
  start ← field 8
  end ← field 8
  final ← field 1
  n ← field 2
  text ← bytes n
  left ← remaining
  decode_trailer left (record {
    session_id = session;
    segment_id = id;
    start_pts_us = start;
    end_pts_us = end;
    is_final = final;
    text_utf8 = some text;
    text_bytes = n;
    translated_text_utf8 = none;
    translated_text_bytes = 0;
    translation_attempted = false;
    translation_latency_us = 0;
    translation_tier = 0;
  })

unfoldable pub decode_translate_ctrl : Reader TranslateCtrl
decode_translate_ctrl = do
  size ← remaining
  require (size == 50)
  session ← bytes session_id_bytes
  enabled ← field 1
  source ← bytes 16
  target ← bytes 16
  mode ← field 1
  done (record {
    session_id = session;
    enabled = enabled;
    source_lang = set source 15 0;
    target_lang = set target 15 0;
    mode = mode;
  })

-- The fields of every STATUS; `backend` reads or zeroes the array behind them.
unfoldable pub decode_status_fields : Reader (List ℕ) → Reader Status
decode_status_fields backend = do
  session ← bytes session_id_bytes
  state ← field 4
  queued ← field 8
  inference ← field 8
  dropped ← field 8
  array ← backend
  done (record {
    session_id = session;
    state = state;
    queued_audio_us = queued;
    inference_us = inference;
    dropped_audio_us = dropped;
    resolved_backend = array;
  })

-- The backend's name; frames of older peers end before it.
unfoldable pub read_backend : Bool → Reader (List ℕ)
read_backend true = do name ← bytes 16; done (set name 15 0)
read_backend false = done (replicate 16 0)

unfoldable pub decode_status : Reader Status
unfolding decode_status_fields read_backend
decode_status = do
  size ← remaining
  require (leb 44 size)
  decode_status_fields (read_backend (leb 60 size))

unfoldable pub decode_model_ctrl : Reader ModelCtrl
decode_model_ctrl = do
  size ← remaining
  require (size == 49)
  session ← bytes session_id_bytes
  action ← field 1
  model ← bytes 32
  done (record { session_id = session; action = action; model_id = set model 31 0 })

unfoldable pub decode_model_progress : Reader ModelProgress
decode_model_progress = do
  size ← remaining
  require (size == 66)
  session ← bytes session_id_bytes
  stage ← field 1
  pct ← field 1
  bytes_done ← field 8
  bytes_total ← field 8
  model ← bytes 32
  done (record {
    session_id = session;
    stage = stage;
    pct = pct;
    bytes_done = bytes_done;
    bytes_total = bytes_total;
    model_id = set model 31 0;
  })

unfoldable pub decode_error : Reader ErrorMsg
decode_error = do
  session ← bytes session_id_bytes
  code ← field 4
  recoverable ← field 1
  message ← bytes max_error_msg_bytes
  done (record {
    session_id = session;
    error_code = code;
    recoverable = recoverable;
    message = terminate max_error_msg_bytes message;
  })

-- A payload of one byte is the form without a session, whose id is zeroed.
unfoldable pub decode_started_at : Bool → Reader Started
decode_started_at true = do
  active ← field 1
  done (record { session_id = replicate session_id_bytes 0; source_active = active })
decode_started_at false = do
  session ← bytes session_id_bytes
  active ← field 1
  done (record { session_id = session; source_active = active })

unfoldable pub decode_started : Reader Started
unfolding decode_started_at
decode_started = do size ← remaining; decode_started_at (size == 1)

abbrev pub wrap : {A : Type 0} → (A → Message) → Reader A → List ℕ → Option Message
wrap make reader bs = elim (finish (reader bs)) [ none ↦ none | some p ↦ some (make p) ]

-- The switch, on the type of the header.
unfoldable pub decode_payload : ℕ → List ℕ → Option Message
decode_payload type bs =
    if type == 1
    then wrap hello decode_hello bs
    else if type == 2
    then wrap hello_ack decode_hello_ack bs
    else if type == 3
    then wrap start_session decode_start bs
    else if type == 4
    then wrap audio_pcm decode_audio bs
    else if type == 5
    then wrap pause decode_control bs
    else if type == 6
    then wrap resume decode_control bs
    else if type == 7
    then wrap stop_session decode_control bs
    else if type == 8
    then wrap caption_segment decode_caption bs
    else if type == 9
    then wrap status decode_status bs
    else if type == 10
    then wrap error decode_error bs
    else if type == 11
    then finish (done shutdown bs)
    else if type == 12
    then wrap started decode_started bs
    else if type == 13
    then wrap position decode_position bs
    else if type == 14
    then wrap model_ctrl decode_model_ctrl bs
    else if type == 15
    then wrap model_progress decode_model_progress bs
    else if type == 16
    then wrap translate_ctrl decode_translate_ctrl bs
    else none
