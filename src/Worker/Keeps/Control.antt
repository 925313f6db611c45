-- ===== src/Worker/Keeps/Control.antt =====
-- That the frames which control a session leave the worker in it: the handlers of VW_MSG_POSITION,
-- VW_MSG_PAUSE, VW_MSG_RESUME, VW_MSG_STOP_SESSION, VW_MSG_TRANSLATE_CTRL, VW_MSG_MODEL_CTRL and
-- VW_MSG_SHUTDOWN of worker/src/vw_worker.c.
use Prim.Native.String.{String}
use vlc_whisper.Common.{
  ℕ, suc, Bool, true, false, ◌&&◌, ◌||◌, not, Option, none, some, List, [], ltb, ◌==◌,
  if◌then◌else◌, pick, take,
}
use vlc_whisper.Common.Int.{ℤ, pos, leb_ℤ}
use vlc_whisper.Protocol.Types.{Position, Control, TranslateCtrl, ModelCtrl}
use vlc_whisper.Protocol.Encode.{strnlen}
use vlc_whisper.AudioBuffer.{get_count}
use vlc_whisper.Worker.Run.{send_error, send_status, report, restart_window, invalidate_translator}
use vlc_whisper.Worker.Run.State.{Run, Host, Config, same_bytes, i64_value}
use vlc_whisper.Worker.Captions.{drain_translation, emit_tail_segments}
use vlc_whisper.Worker.Listening.{flush_tail}
use vlc_whisper.Worker.Following.{
  anchor_at, change_pause, requires_seek, seek_source, is_equal_ℤ, follow_source, follow_position,
  has_flag, differ, handle_position, handle_pause, handle_resume,
}
use vlc_whisper.Worker.Closing.{
  flush_session, end_session, handle_stop, handle_translate, is_downloading, progress_at,
  download_model, handle_model, handle_shutdown,
}
use vlc_whisper.Worker.Keeps.{
  Keeps, Keeps-same, Keeps-then, fail-Keeps, or_fail-Keeps, send_error-Keeps, send_status-Keeps,
  send_model_progress-Keeps, report-Keeps,
}
use vlc_whisper.Worker.Keeps.Captions.{drain_translation-Keeps, emit_tail_segments-Keeps}
use vlc_whisper.Worker.Keeps.Audio.{flush_tail-Keeps}

change_pause-Keeps :
    (s : List ℕ) (host : Host) (requested : ℤ) (is_paused : Bool) (w : Run)
    → Keeps s w (change_pause host requested is_paused w)
unfolding change_pause Keeps restart_window
change_pause-Keeps s host requested is_paused w =
    pick (λ x. Keeps s w x) is_paused (λ pauses. Keeps-same s w)
      (λ resumes.
        pick (λ x. Keeps s w x)
          (w.source_mode && w.source_decoder && leb_ℤ (pos 0) requested && host.seeks 0)
          (λ sought. Keeps-same s w) (λ unsought. Keeps-same s w))

seek_source-Keeps :
    (s : List ℕ) (host : Host) (seek_flag : Bool) (requested : ℤ) (w : Run)
    → Keeps s w (seek_source host seek_flag requested w)
unfolding seek_source Keeps restart_window invalidate_translator
seek_source-Keeps s host seek_flag requested w =
    pick (λ x. Keeps s w x) (not (host.seeks 1)) (λ failed. Keeps-same s w) (λ went. Keeps-same s w)

follow_source-Keeps :
    (s : List ℕ) (host : Host) (seek_flag : Bool) (requested : ℤ) (w : Run)
    → Keeps s w (follow_source host seek_flag requested w)
unfolding follow_source Keeps
follow_source-Keeps s host seek_flag requested w =
    let needed = requires_seek seek_flag requested w in
    let sought = if needed then seek_source host seek_flag requested w else w in
    let first : Keeps s w sought =
      pick (λ x. Keeps s w x) needed (λ seeks. seek_source-Keeps s host seek_flag requested w)
        (λ stays. Keeps-same s w) in
    pick (λ x. Keeps s w x) (not needed || is_equal_ℤ sought.current_playback_pts_us requested)
      (λ moved. first) (λ kept. first)

follow_position-Keeps :
    (s : List ℕ) (host : Host) (seek_flag : Bool) (requested : ℤ) (w : Run)
    → Keeps s w (follow_position host seek_flag requested w)
unfolding follow_position Keeps
follow_position-Keeps s host seek_flag requested w =
    pick (λ x. Keeps s w x) (w.source_mode && w.source_decoder)
      (λ source. follow_source-Keeps s host seek_flag requested w) (λ live. Keeps-same s w)

pub handle_position-Keeps :
    (s : List ℕ) (config : Config) (host : Host) (p : Position) (w : Run)
    → Keeps s w (handle_position config host p w)
unfolding handle_position
handle_position-Keeps s config host p w =
    let requested = i64_value p.current_pts_us in
    let is_paused = has_flag p.flags 2 in
    let seek_flag = has_flag p.flags 1 in
    let changed = change_pause host requested is_paused w in
    let told = send_status config changed.session_active changed.paused host changed in
    let first : Keeps s w told.1 =
      Keeps-then s w changed told.1 (change_pause-Keeps s host requested is_paused w)
        (send_status-Keeps s config changed.session_active changed.paused host changed) in
    pick (λ x. Keeps s w x) (not w.session_active || not (same_bytes p.session_id w.session_id))
      (λ foreign. Keeps-same s w)
      (λ own.
        pick (λ x. Keeps s w x) (not (differ is_paused w.paused))
          (λ same. follow_position-Keeps s host seek_flag requested w)
          (λ toggled.
            pick (λ x. Keeps s w x) told.0
              (λ sent.
                Keeps-then s w told.1 (follow_position host seek_flag requested told.1) first
                  (follow_position-Keeps s host seek_flag requested told.1))
              (λ lost. fail-Keeps s w told.1 first)))

pub handle_pause-Keeps :
    (s : List ℕ) (config : Config) (host : Host) (c : Control) (w : Run)
    → Keeps s w (handle_pause config host c w)
unfolding handle_pause Keeps
handle_pause-Keeps s config host c w =
    let paused = invalidate_translator (restart_window record w { paused = true }) in
    let first : Keeps s w paused = unfold invalidate_translator restart_window in Keeps-same s w in
    pick (λ x. Keeps s w x) (not w.session_active || not (same_bytes c.session_id w.session_id))
      (λ foreign. Keeps-same s w)
      (λ own.
        Keeps-then s w paused (report config host paused) first (report-Keeps s config host paused))

pub handle_resume-Keeps :
    (s : List ℕ) (config : Config) (host : Host) (c : Control) (w : Run)
    → Keeps s w (handle_resume config host c w)
unfolding handle_resume Keeps
handle_resume-Keeps s config host c w =
    let resumed = record w { paused = false } in
    let pts = w.current_playback_pts_us in
    let seeks = w.source_mode && w.source_decoder && leb_ℤ (pos 0) pts && host.seeks 0 in
    let sought =
      if seeks then invalidate_translator (restart_window (anchor_at pts resumed)) else resumed in
    let first : Keeps s w sought =
      pick (λ x. Keeps s w x) seeks
        (λ went. unfold invalidate_translator restart_window in Keeps-same s w)
        (λ stays. Keeps-same s w) in
    pick (λ x. Keeps s w x) (not w.session_active || not (same_bytes c.session_id w.session_id))
      (λ foreign. Keeps-same s w)
      (λ own.
        Keeps-then s w sought (report config host sought) first (report-Keeps s config host sought))

flush_session-Keeps :
    (s : List ℕ) (config : Config) (host : Host) (text : String) (w : Run)
    → Keeps s w (flush_session config host text w).1
unfolding flush_session
flush_session-Keeps s config host text w =
    let flushed = flush_tail config host w in
    let first = flush_tail-Keeps s config host w in
    let emitted = emit_tail_segments (suc flushed.1.builder.count) host flushed.1 in
    let told = (send_error w.session_id 9 0 text host flushed.1).1 in
    pick {A = Bool × Run} (λ r. Keeps s w r.1) flushed.0
      (λ done. or_fail-Keeps s w emitted (
        Keeps-then s w flushed.1 emitted.1 first
          (emit_tail_segments-Keeps s (suc flushed.1.builder.count) host flushed.1)))
      (λ failed. fail-Keeps s w told (
        Keeps-then s w flushed.1 told first
          (send_error-Keeps s w.session_id 9 0 text host flushed.1)))

drained-Keeps :
    (s : List ℕ) (drains : Bool) (host : Host) (w u : Run)
    → Keeps s w u
    → Keeps s w (if drains then drain_translation host.waits host u else u)
drained-Keeps s drains host w u k =
    pick (λ x. Keeps s w x) drains
      (λ d.
        Keeps-then s w u (drain_translation host.waits host u) k
          (drain_translation-Keeps s host.waits host u))
      (λ d. k)

pub handle_stop-Keeps :
    (s : List ℕ) (config : Config) (host : Host) (c : Control) (w : Run)
    → Keeps s w (handle_stop config host c w)
unfolding handle_stop
handle_stop-Keeps s config host c w =
    let flushes = c.reason == 3 && not w.source_mode && ltb 0 (get_count w.audio_buf) in
    let flushed =
      if flushes then (flush_session config host "MEDIA_END tail inference failed" w).1 else w in
    let drains = flushed.session_active && not (c.reason == 2) in
    let drained = if drains then drain_translation host.waits host flushed else flushed in
    let ended = end_session drained in
    let first : Keeps s w flushed =
      pick (λ x. Keeps s w x) flushes
        (λ f. flush_session-Keeps s config host "MEDIA_END tail inference failed" w)
        (λ f. Keeps-same s w) in
    let second : Keeps s w ended =
      unfold end_session Keeps invalidate_translator in
      drained-Keeps s drains host w flushed first in
    let told = send_status config false false host ended in
    pick (λ x. Keeps s w x) (not (same_bytes c.session_id w.session_id)) (λ foreign. Keeps-same s w)
      (λ own.
        pick (λ x. Keeps s w x) ended.running
          (λ runs. or_fail-Keeps s w told (
            Keeps-then s w ended told.1 second (send_status-Keeps s config false false host ended)))
          (λ stopped. second))

pub handle_translate-Keeps :
    (s : List ℕ) (t : TranslateCtrl) (w : Run) → Keeps s w (handle_translate t w)
unfolding handle_translate Keeps invalidate_translator
handle_translate-Keeps s t w =
    pick (λ x. Keeps s w x) (not (same_bytes t.session_id w.session_id)) (λ foreign. Keeps-same s w)
      (λ own. Keeps-same s w)

download_model-Keeps :
    (s : List ℕ) (config : Config) (host : Host) (session id : List ℕ) (w : Run)
    (o : Option (List ℕ))
    → Keeps s w (download_model config host session id w o)
unfolding download_model Keeps
download_model-Keeps s config host session id w none =
    send_model_progress-Keeps s session (progress_at 4 id) host w
download_model-Keeps s config host session id w (some entry) =
    let freed = record w {
      model_dl = host.starts_download;
      last_stage = if w.model_dl then none else w.last_stage;
    } in
    pick (λ x. Keeps s w x) (not config.dl_dir_ready || is_downloading host w)
      (λ refused. send_model_progress-Keeps s session (progress_at 4 id) host w)
      (λ granted.
        pick (λ x. Keeps s w x) host.starts_download (λ starts. Keeps-same s w)
          (λ failed. send_model_progress-Keeps s session (progress_at 4 entry) host freed))

pub handle_model-Keeps :
    (s : List ℕ) (config : Config) (host : Host) (m : ModelCtrl) (w : Run)
    → Keeps s w (handle_model config host m w)
unfolding handle_model
handle_model-Keeps s config host m w =
    let session = if w.session_active then w.session_id else m.session_id in
    let id = take (strnlen m.model_id 32) m.model_id in
    pick (λ x. Keeps s w x) (m.action == 1)
      (λ download. download_model-Keeps s config host session id w (host.finds_model id))
      (λ other.
        pick (λ x. Keeps s w x) (m.action == 2 && not w.model_dl)
          (λ idle. send_model_progress-Keeps s session (progress_at 0 []) host w)
          (λ aborts. Keeps-same s w))

pub handle_shutdown-Keeps :
    (s : List ℕ) (config : Config) (host : Host) (w : Run)
    → Keeps s w (handle_shutdown config host w)
unfolding handle_shutdown
handle_shutdown-Keeps s config host w =
    let tail = flush_session config host "SHUTDOWN tail inference failed" w in
    let flushes = w.session_active && not w.source_mode && ltb 0 (get_count w.audio_buf) in
    let flushed = if flushes then if tail.0 then report config host tail.1 else tail.1 else w in
    let first = flush_session-Keeps s config host "SHUTDOWN tail inference failed" w in
    let second : Keeps s w flushed =
      pick (λ x. Keeps s w x) flushes
        (λ f.
          pick (λ x. Keeps s w x) tail.0
            (λ done.
              Keeps-then s w tail.1 (report config host tail.1) first
                (report-Keeps s config host tail.1))
            (λ failed. first))
        (λ f. Keeps-same s w) in
    unfold Keeps in drained-Keeps s flushed.session_active host w flushed second
