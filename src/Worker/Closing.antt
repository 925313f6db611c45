-- ===== src/Worker/Closing.antt =====
-- VW_MSG_STOP_SESSION, VW_MSG_SHUTDOWN, and the settings VW_MSG_TRANSLATE_CTRL and VW_MSG_MODEL_CTRL
-- in vw_worker_run of worker/src/vw_worker.c.
use Prim.Native.String.{String}
use vlc_whisper.Common.{
  ℕ, Bool, false, ◌&&◌, ◌||◌, not, Option, none, some, List, [], ltb, ◌==◌, if◌then◌else◌, take,
  suc,
}
use vlc_whisper.Common.Int.{negsuc}
use vlc_whisper.Protocol.Types.{Control, TranslateCtrl, ModelCtrl}
use vlc_whisper.Protocol.Encode.{strnlen}
use vlc_whisper.AudioBuffer
use vlc_whisper.AudioBuffer.{get_count}
use vlc_whisper.SegmentBuilder
use vlc_whisper.SegmentBuilder.{Builder}
use vlc_whisper.Worker.Run.{
  fail, or_fail, send_error, send_status, send_model_progress, report, invalidate_translator,
}
use vlc_whisper.Worker.Run.State.{Run, Host, Config, Download, same_bytes, window_samples}
use vlc_whisper.Worker.Captions.{emit_tail_segments, drain_translation}
use vlc_whisper.Worker.Listening.{flush_tail}

-- The tail of a session: its audio is recognised and its captions are emitted.
unfoldable pub flush_session : Config → Host → String → Run → Bool × Run
unfolding flush_tail emit_tail_segments send_error
flush_session config host text w =
    let flushed = flush_tail config host w in
    let emitted = emit_tail_segments (suc flushed.1.builder.count) host flushed.1 in
    if flushed.0
    then (emitted.0, or_fail emitted)
    else (false, fail (send_error w.session_id 9 0 text host flushed.1).1)

-- What VW_MSG_STOP_SESSION leaves, without the status.
unfoldable pub end_session : Run → Run
unfolding invalidate_translator
end_session w = invalidate_translator record w {
  session_active = false;
  seek_failed_pending = false;
  last_playback_pts_us = negsuc 0;
  source_decoder = false;
  source_mode = if w.source_decoder then false else w.source_mode;
  audio_buf = AudioBuffer.clear w.audio_buf;
  live_progressive_mode = false;
  live_next_inference_samples = window_samples;
  builder = SegmentBuilder.clear w.builder;
}

-- VW_MSG_STOP_SESSION: the reasons are 1, the user; 2, a seek or discontinuity; 3, the end of the media.
unfoldable pub handle_stop : Config → Host → Control → Run → Run
unfolding same_bytes flush_session get_count drain_translation end_session send_status
handle_stop config host c w =
    let flushed =
      if c.reason == 3 && not w.source_mode && ltb 0 (get_count w.audio_buf)
      then (flush_session config host "MEDIA_END tail inference failed" w).1
      else w in
    let drained =
      if flushed.session_active && not (c.reason == 2)
      then drain_translation host.waits host flushed
      else flushed in
    let ended = end_session drained in
    if not (same_bytes c.session_id w.session_id)
    then w
    else if ended.running
    then or_fail (send_status config false false host ended)
    else ended

-- snprintf(_, 16, "%s", _)
abbrev pub language_of : List ℕ → List ℕ
language_of text = take (strnlen text 15) text

-- VW_MSG_TRANSLATE_CTRL
unfoldable pub handle_translate : TranslateCtrl → Run → Run
unfolding same_bytes invalidate_translator
handle_translate t w =
    if not (same_bytes t.session_id w.session_id)
    then w
    else invalidate_translator record w {
      translate_enabled = not (t.enabled == 0);
      translate_src_lang = language_of t.source_lang;
      translate_dst_lang = language_of t.target_lang;
      translate_mode = t.mode;
    }

-- A download whose stage is DOWNLOADING, VERIFYING or ABORTING.
abbrev pub is_busy : ℕ → Bool
is_busy stage = stage == 1 || stage == 2 || stage == 5

unfoldable pub is_downloading : Host → Run → Bool
is_downloading host w = elim (host.polls 0) [
  | none ↦ false
  | some d ↦ w.model_dl && is_busy d.stage
]

-- A progress without byte totals.
abbrev pub progress_at : ℕ → List ℕ → Download
progress_at stage id = record {
  stage = stage;
  pct = 0;
  bytes_done = 0;
  bytes_total = 0;
  model_id = id;
}

-- VW_MODEL_ACTION_DOWNLOAD, of a model that the catalog has or has not.
unfoldable pub download_model : Config → Host → List ℕ → List ℕ → Run → Option (List ℕ) → Run
unfolding send_model_progress is_downloading
download_model config host session id w none =
    or_fail (send_model_progress session (progress_at 4 id) host w)
download_model config host session id w (some entry) =
    let freed = record w {
      model_dl = host.starts_download;
      last_stage = if w.model_dl then none else w.last_stage;
    } in
    if not config.dl_dir_ready || is_downloading host w
    then or_fail (send_model_progress session (progress_at 4 id) host w)
    else if host.starts_download
    then freed
    else or_fail (send_model_progress session (progress_at 4 entry) host freed)

-- VW_MSG_MODEL_CTRL; vw_model_download_abort only asks the download to stop.
unfoldable pub handle_model : Config → Host → ModelCtrl → Run → Run
unfolding download_model send_model_progress
handle_model config host m w =
    let session = if w.session_active then w.session_id else m.session_id in
    let id = take (strnlen m.model_id 32) m.model_id in
    if m.action == 1
    then download_model config host session id w (host.finds_model id)
    else if m.action == 2 && not w.model_dl
    then or_fail (send_model_progress session (progress_at 0 []) host w)
    else w

-- VW_MSG_SHUTDOWN
unfoldable pub handle_shutdown : Config → Host → Run → Run
unfolding flush_session report get_count drain_translation
handle_shutdown config host w =
    let tail = flush_session config host "SHUTDOWN tail inference failed" w in
    let flushed =
      if w.session_active && not w.source_mode && ltb 0 (get_count w.audio_buf)
      then if tail.0 then report config host tail.1 else tail.1
      else w in
    let drained =
      if flushed.session_active then drain_translation host.waits host flushed else flushed in
    record drained {
      source_decoder = false;
      source_mode = if drained.source_decoder then false else drained.source_mode;
      running = false;
    }
