-- ===== src/Protocol/Types.antt =====
-- protocol/include/vw_protocol_types.h. An unsigned field is its value; a signed or floating one
-- is its bit pattern. A `char` array is the list of its bytes. A pointer is NULL (`none`) or the
-- bytes that it points to.
use mathlib.Core.Option.{get_or}
use vlc_whisper.Common.{ℕ, Bool, true, false, Option, none, some, List, [], take}

abbrev pub protocol_magic : ℕ
protocol_magic = 0x564C4357

abbrev pub version_major : ℕ
version_major = 1

abbrev pub max_payload_bytes : ℕ
max_payload_bytes = 1048576

abbrev pub max_error_msg_bytes : ℕ
max_error_msg_bytes = 256

abbrev pub max_model_id_bytes : ℕ
max_model_id_bytes = 64

abbrev pub max_source_url_bytes : ℕ
max_source_url_bytes = 1024

abbrev pub auth_token_bytes : ℕ
auth_token_bytes = 32

abbrev pub session_id_bytes : ℕ
session_id_bytes = 16

abbrev pub max_text_bytes : ℕ
max_text_bytes = 1024

abbrev pub Pointer : Type 0
Pointer = Option (List ℕ)

abbrev pub is_null : Pointer → Bool
is_null none = true
is_null (some bs) = false

-- What `memcpy(_, ptr, n)` copies.
abbrev pub read_at : Pointer → ℕ → List ℕ
read_at ptr n = take n (get_or ptr [])

pub record FrameHeader : Type 0 where
  pub magic : ℕ
  pub major : ℕ
  pub type : ℕ
  pub payload_length : ℕ
  pub sequence : ℕ

pub record Hello : Type 0 where
  pub min_major : ℕ
  pub max_major : ℕ
  pub auth_token : List ℕ
  pub client_version_length : ℕ
  pub client_version : Pointer

pub record HelloAck : Type 0 where
  pub selected_major : ℕ
  pub selected_minor : ℕ
  pub capability_flags : ℕ
  pub worker_version_length : ℕ
  pub worker_version : Pointer

pub record Start : Type 0 where
  pub session_id : List ℕ
  pub timeline_origin_pts_us : ℕ
  pub sample_rate : ℕ
  pub channels : ℕ
  pub sample_format : ℕ
  pub model_id : List ℕ
  pub language : List ℕ
  pub source_kind : ℕ
  pub source_url_len : ℕ
  pub source_url : List ℕ

pub record Started : Type 0 where
  pub session_id : List ℕ
  pub source_active : ℕ

pub record Position : Type 0 where
  pub session_id : List ℕ
  pub current_pts_us : ℕ
  pub input_time_us : ℕ
  pub playback_rate : ℕ
  pub flags : ℕ

pub record Audio : Type 0 where
  pub session_id : List ℕ
  pub start_pts_us : ℕ
  pub duration_us : ℕ
  pub pcm_bytes : ℕ
  pub pcm_data : Pointer

pub record Control : Type 0 where
  pub session_id : List ℕ
  pub reason : ℕ

pub record Status : Type 0 where
  pub session_id : List ℕ
  pub state : ℕ
  pub queued_audio_us : ℕ
  pub inference_us : ℕ
  pub dropped_audio_us : ℕ
  pub resolved_backend : List ℕ

pub record ModelCtrl : Type 0 where
  pub session_id : List ℕ
  pub action : ℕ
  pub model_id : List ℕ

pub record ModelProgress : Type 0 where
  pub session_id : List ℕ
  pub stage : ℕ
  pub pct : ℕ
  pub bytes_done : ℕ
  pub bytes_total : ℕ
  pub model_id : List ℕ

pub record TranslateCtrl : Type 0 where
  pub session_id : List ℕ
  pub enabled : ℕ
  pub source_lang : List ℕ
  pub target_lang : List ℕ
  pub mode : ℕ

pub record ErrorMsg : Type 0 where
  pub session_id : List ℕ
  pub error_code : ℕ
  pub recoverable : ℕ
  pub message : List ℕ

-- `is_final` is the byte of a C `bool`.
pub record CaptionSegment : Type 0 where
  pub session_id : List ℕ
  pub segment_id : ℕ
  pub start_pts_us : ℕ
  pub end_pts_us : ℕ
  pub is_final : ℕ
  pub text_utf8 : Pointer
  pub text_bytes : ℕ
  pub translated_text_utf8 : Pointer
  pub translated_text_bytes : ℕ
  pub translation_attempted : Bool
  pub translation_latency_us : ℕ
  pub translation_tier : ℕ

-- A `vw_message_type_t` with the payload struct that it selects.
pub data Message : Type 0 where
  hello : Hello → Message
  hello_ack : HelloAck → Message
  start_session : Start → Message
  audio_pcm : Audio → Message
  pause resume stop_session : Control → Message
  caption_segment : CaptionSegment → Message
  status : Status → Message
  error : ErrorMsg → Message
  shutdown : Message
  started : Started → Message
  position : Position → Message
  model_ctrl : ModelCtrl → Message
  model_progress : ModelProgress → Message
  translate_ctrl : TranslateCtrl → Message

-- The numbers of `vw_message_type_t`.
unfoldable pub message_type : Message → ℕ
message_type (hello p) = 1
message_type (hello_ack p) = 2
message_type (start_session p) = 3
message_type (audio_pcm p) = 4
message_type (pause p) = 5
message_type (resume p) = 6
message_type (stop_session p) = 7
message_type (caption_segment p) = 8
message_type (status p) = 9
message_type (error p) = 10
message_type shutdown = 11
message_type (started p) = 12
message_type (position p) = 13
message_type (model_ctrl p) = 14
message_type (model_progress p) = 15
message_type (translate_ctrl p) = 16
