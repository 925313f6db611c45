-- ===== src/Worker/Opening.antt =====
-- VW_MSG_START_SESSION in vw_worker_run of worker/src/vw_worker.c. vw_vad_reset_state has no
-- counterpart, since what the model of speech finds is an argument. The 17 bytes of the buffer for the
-- answer hold it, so its encoding does not fail.
use vlc_whisper.Common.{
  ℕ, zero, Bool, true, false, ◌&&◌, ◌||◌, not, none, some, ltb, ◌==◌, if◌then◌else◌, take, suc,
}
use vlc_whisper.Common.Int.{pos, negsuc, ltb_ℤ}
use vlc_whisper.Protocol.Types.{Start, started}
use vlc_whisper.Protocol.Encode.{strnlen}
use vlc_whisper.AudioBuffer
use vlc_whisper.AudioBuffer.{get_count}
use vlc_whisper.SegmentBuilder
use vlc_whisper.SegmentBuilder.Push.{pop}
use vlc_whisper.SegmentBuilder.{Builder}
use vlc_whisper.Worker.Run.{fail, or_fail, post, send_error, report, invalidate_translator}
use vlc_whisper.Worker.Run.State.{
  Run, Host, Config, same_bytes, i64_value, window_samples, live_startup_samples,
}

-- The loop that frees what an old session leaves in the builder.
unfoldable pub pop_all : ℕ → Builder → Builder
unfolding pop
pop_all zero b = b
pop_all (suc fuel) b = elim (pop b) [ none ↦ b | some (cue, rest) ↦ pop_all fuel rest ]

-- The end of an old session, when a new one starts.
unfoldable pub swap_session : Run → Run
unfolding pop_all
swap_session w = record w {
  source_decoder = false;
  audio_buf = AudioBuffer.clear w.audio_buf;
  live_progressive_mode = false;
  live_next_inference_samples = window_samples;
  builder = pop_all (suc w.builder.count) w.builder;
  session_active = false;
}

-- The state of a new session, without its source.
unfoldable pub begin_session : Start → Run → Run
unfolding invalidate_translator
begin_session s w =
    let live = s.source_kind == 0 in
    let origin = i64_value s.timeline_origin_pts_us in
    let begun = invalidate_translator record w {
      session_id = s.session_id;
      session_active = true;
      paused = false;
      live_progressive_mode = live;
      live_next_inference_samples = if live then live_startup_samples else window_samples;
      source_eof = false;
      seek_failed_pending = false;
      current_playback_pts_us = origin;
      last_playback_pts_us = negsuc 0;
      decoded_pts_us = origin;
      audio_buf = AudioBuffer.clear w.audio_buf;
      builder = SegmentBuilder.clear w.builder;
    } in
    record begun {
      source_decoder = false;
      source_mode = if begun.source_decoder then false else begun.source_mode;
    }

-- source_url_len > 0 && source_url[0] != '\0'
abbrev pub has_source : Start → Bool
has_source s = ltb 0 s.source_url_len && ltb 0 (strnlen s.source_url 1)

-- The source of a new session: whether the handler goes on, and the state.
unfoldable pub open_source : Host → Start → Run → Bool × Run
unfolding send_error
open_source host s w =
    let origin = i64_value s.timeline_origin_pts_us in
    let seeks = not (ltb_ℤ (pos 0) origin) || host.seeks 0 in
    let opened = record w {
      source_decoder = seeks;
      source_mode = seeks;
      source_eof = false;
      current_playback_pts_us = origin;
      last_playback_pts_us = origin;
      decoded_pts_us = origin;
    } in
    let closed = record w { source_decoder = false; source_mode = false; source_eof = false } in
    let told =
      send_error s.session_id 10 1 "Failed to open source MRL; falling back to live PCM stream" host
        closed in
    if not (has_source s)
    then (true, record w { source_mode = false; source_eof = false })
    else if host.opens_source (take (strnlen s.source_url 1024) s.source_url)
    then (true, opened)
    else (told.0, or_fail told)

-- The answer VW_MSG_STARTED, and the status behind it.
unfoldable pub answer_started : Config → Host → Start → Run → Run
unfolding post report
answer_started config host s w =
    let told =
      post 17
        (started
          record { session_id = s.session_id; source_active = if w.source_mode then 1 else 0 })
        host w in
    if told.0 then report config host told.1 else fail told.1

-- VW_MSG_START_SESSION, when no session of the same identity is active.
unfoldable pub start_anew : Config → Host → Start → Run → Run
unfolding begin_session open_source answer_started send_error
start_anew config host s w =
    let opened = open_source host s (begin_session s w) in
    if not (s.sample_rate == 16000)
    then or_fail (send_error s.session_id 5 1 "Unsupported sample rate (expected 16000)" host w)
    else if not config.has_engine
    then or_fail (send_error s.session_id 3 0 "Whisper model file missing or invalid" host w)
    else if not (host.accepts_language (take (strnlen s.language 16) s.language))
    then or_fail (send_error s.session_id 9 1 "Invalid session transcription language" host w)
    else if opened.0
    then answer_started config host s opened.1
    else opened.1

-- VW_MSG_START_SESSION
unfoldable pub handle_start : Config → Host → Start → Run → Run
unfolding same_bytes swap_session start_anew send_error
handle_start config host s w =
    if not w.session_active
    then start_anew config host s w
    else if same_bytes w.session_id s.session_id
    then or_fail (send_error w.session_id 9 1 "Session already active" host w)
    else start_anew config host s (swap_session w)
