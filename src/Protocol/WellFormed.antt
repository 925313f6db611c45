-- ===== src/Protocol/WellFormed.antt =====
-- The payload structs of protocol/include/vw_protocol_types.h whose fields have the widths and
-- sizes of the struct, and whose strings are as the senders fill them: NUL-terminated and padded
-- with NULs, a pointer with as many bytes as its length says.
use mathlib.Core.Option.{get_or}
use vlc_whisper.Common.{
  ℕ, ◌^◌, ◌<◌, ◌≡◌, ◌≢◌, Bool, true, false, none, some, List, [], ◌∷◌, ◌++◌, All, length,
  if◌then◌else◌, ltb,
}
use vlc_whisper.Protocol.Types.{
  Pointer, Hello, HelloAck, Start, Started, Position, Audio, Control, Status, ModelCtrl,
  ModelProgress, TranslateCtrl, ErrorMsg, CaptionSegment, Message, hello, hello_ack, start_session,
  audio_pcm, pause, resume, stop_session, caption_segment, status, error, shutdown, started,
  position, model_ctrl, model_progress, translate_ctrl, max_model_id_bytes, max_source_url_bytes,
  max_error_msg_bytes, session_id_bytes, auth_token_bytes,
}
use vlc_whisper.Protocol.Decode.{pad, has_nul}

abbrev pub U8 : ℕ → Type 0
U8 v = v < 256 ^ 1

abbrev pub U16 : ℕ → Type 0
U16 v = v < 256 ^ 2

abbrev pub U32 : ℕ → Type 0
U32 v = v < 256 ^ 4

abbrev pub U64 : ℕ → Type 0
U64 v = v < 256 ^ 8

-- A pointer to `n` bytes, not NULL.
abbrev pub Points : Pointer → ℕ → Type 0
Points none n = ⊥
Points (some bs) n = length bs ≡ n

abbrev pub IsSession : List ℕ → Type 0
IsSession s = length s ≡ session_id_bytes

-- A string of fewer than `n` bytes with NULs behind it up to the array's `n`.
abbrev pub IsText : ℕ → List ℕ → Type 0
IsText n a = (s : List ℕ) × (a ≡ pad n s) × (length s < n) × All (λ c. c ≢ 0) s

-- An array of `n + 1` bytes that ends in a NUL.
abbrev pub EndsInNul : ℕ → List ℕ → Type 0
EndsInNul n a = (s : List ℕ) × (a ≡ s ++ 0 ∷ []) × (length s ≡ n)

pub record IsHello (p : Hello) : Type 0 where
  pub min_fits : U16 p.min_major
  pub max_fits : U16 p.max_major
  pub token_size : length p.auth_token ≡ auth_token_bytes
  pub length_fits : U16 p.client_version_length
  pub points : Points p.client_version p.client_version_length

pub record IsHelloAck (p : HelloAck) : Type 0 where
  pub major_fits : U16 p.selected_major
  pub minor_fits : U16 p.selected_minor
  pub flags_fit : U32 p.capability_flags
  pub length_fits : U16 p.worker_version_length
  pub points : Points p.worker_version p.worker_version_length

pub record IsStart (p : Start) : Type 0 where
  pub session : IsSession p.session_id
  pub origin_fits : U64 p.timeline_origin_pts_us
  pub rate_fits : U32 p.sample_rate
  pub channels_fit : U16 p.channels
  pub format_fits : U16 p.sample_format
  pub model : IsText max_model_id_bytes p.model_id
  pub language : IsText 16 p.language
  pub kind_fits : U16 p.source_kind
  pub url : IsText max_source_url_bytes p.source_url
  pub url_length : p.source_url_len ≡ length url.0

pub record IsStarted (p : Started) : Type 0 where
  pub session : IsSession p.session_id
  pub active_fits : U8 p.source_active

pub record IsPosition (p : Position) : Type 0 where
  pub session : IsSession p.session_id
  pub current_fits : U64 p.current_pts_us
  pub input_fits : U64 p.input_time_us
  pub rate_fits : U32 p.playback_rate
  pub flags_fit : U32 p.flags

pub record IsAudio (p : Audio) : Type 0 where
  pub session : IsSession p.session_id
  pub start_fits : U64 p.start_pts_us
  pub duration_fits : U64 p.duration_us
  pub length_fits : U32 p.pcm_bytes
  pub points : Points p.pcm_data p.pcm_bytes

pub record IsControl (p : Control) : Type 0 where
  pub session : IsSession p.session_id
  pub reason_fits : U16 p.reason

pub record IsStatus (p : Status) : Type 0 where
  pub session : IsSession p.session_id
  pub state_fits : U32 p.state
  pub queued_fits : U64 p.queued_audio_us
  pub inference_fits : U64 p.inference_us
  pub dropped_fits : U64 p.dropped_audio_us
  pub backend : EndsInNul 15 p.resolved_backend

pub record IsModelCtrl (p : ModelCtrl) : Type 0 where
  pub session : IsSession p.session_id
  pub action_fits : U8 p.action
  pub model : EndsInNul 31 p.model_id

pub record IsModelProgress (p : ModelProgress) : Type 0 where
  pub session : IsSession p.session_id
  pub stage_fits : U8 p.stage
  pub pct_fits : U8 p.pct
  pub done_fits : U64 p.bytes_done
  pub total_fits : U64 p.bytes_total
  pub model : EndsInNul 31 p.model_id

pub record IsTranslateCtrl (p : TranslateCtrl) : Type 0 where
  pub session : IsSession p.session_id
  pub enabled_fits : U8 p.enabled
  pub source : EndsInNul 15 p.source_lang
  pub target : EndsInNul 15 p.target_lang
  pub mode_fits : U8 p.mode

pub record IsErrorMsg (p : ErrorMsg) : Type 0 where
  pub session : IsSession p.session_id
  pub code_fits : U32 p.error_code
  pub recoverable_fits : U8 p.recoverable
  pub message_size : length p.message ≡ max_error_msg_bytes
  pub terminated : has_nul p.message ≡ true

-- No translation was tried: the trailer's fields are empty. One was: its text may be.
abbrev pub IsTrailer : Bool → CaptionSegment → Type 0
IsTrailer false p =
    (p.translated_text_utf8 ≡ none)
    × (p.translated_text_bytes ≡ 0)
    × (p.translation_latency_us ≡ 0)
    × (p.translation_tier ≡ 0)
IsTrailer true p =
    (p.translated_text_utf8
      ≡ (if ltb 0 p.translated_text_bytes then some (get_or p.translated_text_utf8 []) else none))
    × (length (get_or p.translated_text_utf8 []) ≡ p.translated_text_bytes)

pub record IsCaption (p : CaptionSegment) : Type 0 where
  pub session : IsSession p.session_id
  pub id_fits : U64 p.segment_id
  pub start_fits : U64 p.start_pts_us
  pub end_fits : U64 p.end_pts_us
  pub final_fits : U8 p.is_final
  pub length_fits : U16 p.text_bytes
  pub points : Points p.text_utf8 p.text_bytes
  pub translated_fits : U16 p.translated_text_bytes
  pub latency_fits : U32 p.translation_latency_us
  pub tier_fits : U8 p.translation_tier
  pub trailer : IsTrailer p.translation_attempted p

abbrev pub IsWellFormed : Message → Type 0
IsWellFormed (hello p) = IsHello p
IsWellFormed (hello_ack p) = IsHelloAck p
IsWellFormed (start_session p) = IsStart p
IsWellFormed (audio_pcm p) = IsAudio p
IsWellFormed (pause p) = IsControl p
IsWellFormed (resume p) = IsControl p
IsWellFormed (stop_session p) = IsControl p
IsWellFormed (caption_segment p) = IsCaption p
IsWellFormed (status p) = IsStatus p
IsWellFormed (error p) = IsErrorMsg p
IsWellFormed shutdown = Unit
IsWellFormed (started p) = IsStarted p
IsWellFormed (position p) = IsPosition p
IsWellFormed (model_ctrl p) = IsModelCtrl p
IsWellFormed (model_progress p) = IsModelProgress p
IsWellFormed (translate_ctrl p) = IsTranslateCtrl p
