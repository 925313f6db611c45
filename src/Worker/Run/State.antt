-- ===== src/Worker/Run/State.antt =====
-- The state of vw_worker_run of worker/src/vw_worker.c.
--
-- The locals of the function are the record `Run`. What the code outside of src/ and the other threads
-- answer during one turn of the main loop is a record `Host`: whether the frame with a given sequence
-- number can be sent, what recognition finds, what the decoder of the source and the download of a
-- model do, and how far the threads of the translator get. `posted` lists the frames that the worker
-- has tried to send. Logging is left out. The counter of the frames is taken not to reach 2^64.
use Prim.Native.String.{String}
use Prim.Native.Char.{code}
use vlc_whisper.Common.{
  ℕ, ◌-◌, ◌^◌, Bool, true, false, ◌&&◌, Option, List, [], ◌∷◌, ltb, ◌==◌, if◌then◌else◌, take,
}
use vlc_whisper.Common.Int.{ℤ, pos, negsuc}
use vlc_whisper.Protocol.Types.{FrameHeader, Message}
use vlc_whisper.Protocol.Encode.{strnlen}
use vlc_whisper.Protocol.Decode.{pad}
use vlc_whisper.AudioBuffer.{AudioBuffer}
use vlc_whisper.SegmentBuilder.{Builder}
use vlc_whisper.WorkerQueue.{WorkerQueue}
use vlc_whisper.TranslateAsync.Bounds.{Pool}
use vlc_whisper.TranslateAsync.Step.{Translation}
use vlc_whisper.Worker.{Env}

abbrev pub codes : String → List ℕ
codes String.[] = []
codes (String.◌∷◌ c s) = code c ∷ codes s

abbrev pub window_samples : ℕ
window_samples = 128000

abbrev pub live_startup_samples : ℕ
live_startup_samples = 32000

-- The value of a 64-bit pattern, and its pattern.
abbrev pub i64_value : ℕ → ℤ
i64_value n = if ltb n (2 ^ 63) then pos n else negsuc (2 ^ 64 - 1 - n)

abbrev pub i64_pattern : ℤ → ℕ
i64_pattern (pos n) = n
i64_pattern (negsuc n) = 2 ^ 64 - 1 - n

-- memcmp(_, _, n) == 0, of two arrays of n bytes.
unfoldable pub same_bytes : List ℕ → List ℕ → Bool
same_bytes [] [] = true
same_bytes [] (d ∷ ds) = false
same_bytes (c ∷ cs) [] = false
same_bytes (c ∷ cs) (d ∷ ds) = c == d && same_bytes cs ds

-- snprintf(_, n, "%s", text), of an array of n bytes that is zeroed.
abbrev pub print_to : ℕ → List ℕ → List ℕ
print_to n text = pad n (take (strnlen text (n - 1)) text)

-- A frame: its header, the message, and the payload.
pub record Outgoing : Type 0 where
  pub header : FrameHeader
  pub message : Message
  pub payload : List ℕ

-- What the threads of the translator do: take a job, or complete the `i`th that is in work.
pub data Progress : Type 0 where
  takes_job : Progress
  completes_job : ℕ → Translation → Progress

-- What vw_model_download_poll copies.
pub record Download : Type 0 where
  pub stage : ℕ
  pub pct : ℕ
  pub bytes_done : ℕ
  pub bytes_total : ℕ
  pub model_id : List ℕ

-- vw_source_decoder_read_s16le: samples with their time, or one of the other three results.
pub data SourceRead : Type 0 where
  read_ok : List ℕ → ℤ → SourceRead
  read_again : SourceRead
  read_eof : SourceRead
  read_error : SourceRead

pub record Host : Type 0 where
  pub sends : ℕ → Bool
  pub tail : Env
  pub detects_speech : ℕ → List ℕ → Bool
  pub accepts_language : List ℕ → Bool
  pub opens_source : List ℕ → Bool
  pub seeks : ℕ → Bool
  pub reads : SourceRead
  pub total_inference_us : ℕ
  pub is_gpu_active : Bool
  pub finds_model : List ℕ → Option (List ℕ)
  pub starts_download : Bool
  pub polls : ℕ → Option Download
  pub now_us : ℕ
  pub threads : ℕ → List Progress
  pub waits : List (List Progress)

-- What stays the same while the worker runs.
pub record Config : Type 0 where
  pub auth_token : List ℕ
  pub is_cpu_backend : Bool
  pub has_engine : Bool
  pub dl_dir_ready : Bool

-- `source_decoder` and `model_dl` say whether the pointers are set; `none` of `last_stage` is -1.
pub record Run : Type 0 where
  pub running : Bool
  pub fatal_exit : Bool
  pub authenticated : Bool
  pub audio_buf : AudioBuffer
  pub builder : Builder
  pub session_id : List ℕ
  pub session_active : Bool
  pub paused : Bool
  pub live_progressive_mode : Bool
  pub live_next_inference_samples : ℕ
  pub sequence : ℕ
  pub source_decoder : Bool
  pub source_mode : Bool
  pub source_eof : Bool
  pub seek_failed_pending : Bool
  pub current_playback_pts_us : ℤ
  pub last_playback_pts_us : ℤ
  pub decoded_pts_us : ℤ
  pub translate_enabled : Bool
  pub translate_src_lang : List ℕ
  pub translate_dst_lang : List ℕ
  pub translate_mode : ℕ
  pub translator : Option Pool
  pub model_dl : Bool
  pub last_stage : Option ℕ
  pub last_progress_send_us : ℕ
  pub queue : WorkerQueue
  pub posted : List Outgoing
