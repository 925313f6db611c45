-- ===== src/Worker/Run.antt =====
-- What the worker posts, in vw_worker_run of worker/src/vw_worker.c.
pub mod State
use Prim.Native.String.{String}
use Prim.Native.Char.{code}
use mathlib.Core.Option.{get_or}
use vlc_whisper.Common.{
  ℕ, zero, suc, ◌+◌, ◌-◌, ◌*◌, ◌/◌, ◌^◌, Bool, true, false, ◌&&◌, ◌||◌, not, Option, none, some,
  List, [], ◌∷◌, ◌++◌, ltb, ◌==◌, if◌then◌else◌, length, take,
}
use vlc_whisper.Common.Int.{ℤ, pos, negsuc}
use vlc_whisper.Protocol.Types.{
  FrameHeader, CaptionSegment, Message, message_type, protocol_magic, version_major,
  auth_token_bytes, max_error_msg_bytes, max_text_bytes, caption_segment, status, error,
  model_progress,
}
use vlc_whisper.Protocol.Encode.{encode_payload, strnlen}
use vlc_whisper.Protocol.Decode.{pad}
use vlc_whisper.AudioBuffer
use vlc_whisper.AudioBuffer.{AudioBuffer, get_count}
use vlc_whisper.SegmentBuilder
use vlc_whisper.SegmentBuilder.{Builder}
use vlc_whisper.WorkerQueue.{WorkerQueue, get_queued_audio_us, get_dropped_audio_us}
use vlc_whisper.TranslateAsync
use vlc_whisper.TranslateAsync.Bounds.{Pool}
use vlc_whisper.TranslateAsync.Step.{Translation}
use vlc_whisper.Worker.{Env}
use vlc_whisper.Worker.Run.State.{
  codes, window_samples, live_startup_samples, i64_value, i64_pattern, same_bytes, print_to,
  Outgoing, Progress, Download, SourceRead, Host, Config, Run, takes_job, completes_job, read_ok,
  read_again, read_eof, read_error,
}

-- atomic_store(&fatal_exit, true) and atomic_store(&running, false)
abbrev pub fail : Run → Run
fail w = record w { fatal_exit = true; running = false }

abbrev pub or_fail : Bool × Run → Run
or_fail r = if r.0 then r.1 else fail r.1

-- The frame of a payload with the next sequence number.
abbrev pub frame_of : Message → List ℕ → ℕ → Outgoing
frame_of message payload sequence = record {
  header = record {
    magic = protocol_magic;
    major = version_major;
    type = message_type message;
    payload_length = length payload;
    sequence = sequence;
  };
  message = message;
  payload = payload;
}

-- The two calls of vw_ipc_send, of a message that is encoded.
unfoldable pub send_payload : Message → Host → Run → Option (List ℕ) → Bool × Run
send_payload message host w none = (false, w)
send_payload message host w (some payload) = (
  host.sends (w.sequence + 1),
  record w {
    sequence = w.sequence + 1;
    posted = w.posted ++ frame_of message payload (w.sequence + 1) ∷ [];
  },
)

-- The encoding of a message into a buffer of `room` bytes, and the calls of vw_ipc_send.
unfoldable pub post : ℕ → Message → Host → Run → Bool × Run
unfolding send_payload
post room message host w = send_payload message host w (encode_payload message room)

-- send_error
unfoldable pub send_error : List ℕ → ℕ → ℕ → String → Host → Run → Bool × Run
unfolding post
send_error session_id error_code recoverable text = post 512 (
    error record {
      session_id = session_id;
      error_code = error_code;
      recoverable = recoverable;
      message = print_to max_error_msg_bytes (codes text);
    })

-- vw_worker_send_model_progress
unfoldable pub send_model_progress : List ℕ → Download → Host → Run → Bool × Run
unfolding post
send_model_progress session_id d = post 66 (
    model_progress record {
      session_id = session_id;
      stage = d.stage;
      pct = d.pct;
      bytes_done = d.bytes_done;
      bytes_total = d.bytes_total;
      model_id = print_to 32 d.model_id;
    })

-- vw_worker_send_status; the state is IDLE, PLAYING or PAUSED.
unfoldable pub send_status : Config → Bool → Bool → Host → Run → Bool × Run
unfolding post get_queued_audio_us get_dropped_audio_us get_count
send_status config session_active paused host w =
    let samples = get_count w.audio_buf in
    post 64
      (status record {
        session_id = w.session_id;
        state = if not session_active then 0 else if paused then 2 else 1;
        queued_audio_us = get_queued_audio_us w.queue + samples * 1000000 / 16000;
        inference_us = if config.has_engine then host.total_inference_us else 0;
        dropped_audio_us = get_dropped_audio_us w.queue;
        resolved_backend = print_to 16 (
            codes (
              if config.is_cpu_backend || not config.has_engine || not host.is_gpu_active
              then "cpu"
              else "gpu"));
      })
      host w

-- The status with which most handlers end.
unfoldable pub report : Config → Host → Run → Run
unfolding send_status
report config host w = or_fail (send_status config w.session_active w.paused host w)

-- vw_worker_send_caption_segment
unfoldable pub send_caption_segment : CaptionSegment → Host → Run → Bool × Run
unfolding post
send_caption_segment segment = post (43 + max_text_bytes * 2 + 64) (caption_segment segment)

-- vw_audio_buffer_clear, vw_segment_builder_clear and the startup threshold of the live window.
unfoldable pub restart_window : Run → Run
restart_window w = record w {
  audio_buf = AudioBuffer.clear w.audio_buf;
  builder = SegmentBuilder.clear w.builder;
  live_next_inference_samples =
      if w.live_progressive_mode then live_startup_samples else window_samples;
}

-- `if (translator) vw_translate_async_invalidate(translator)`
unfoldable pub invalidated : Option Pool → Option Pool
invalidated none = none
invalidated (some p) = some record p { async = TranslateAsync.invalidate p.async }

unfoldable pub invalidate_translator : Run → Run
unfolding invalidated
invalidate_translator w = record w { translator = invalidated w.translator }
