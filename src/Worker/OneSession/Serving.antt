-- ===== src/Worker/OneSession/Serving.antt =====
-- That the dispatch of a frame and the rest of a turn stay in one session, in worker/src/vw_worker.c.
use vlc_whisper.Common.{
  ℕ, suc, refl, sym, not, Option, none, some, List, if◌then◌else◌, pick, replicate,
}
use mathlib.Core.Path.{subst}
use vlc_whisper.Protocol.Types.{
  Message, hello, hello_ack, start_session, audio_pcm, pause, resume, stop_session, caption_segment,
  status, error, shutdown, started, position, model_ctrl, model_progress, translate_ctrl,
  session_id_bytes,
}
use vlc_whisper.Worker.Run.State.{Run, Host, Config, Download}
use vlc_whisper.Worker.Captions.{deliver_results, emit_segments}
use vlc_whisper.Worker.Listening.{read_source, wants_source}
use vlc_whisper.Worker.MainLoop.{
  is_due, is_over, send_progress, dispatch, serve_progress, serve_poll, serve_download,
  serve_captions, serve,
}
use vlc_whisper.Worker.Posts.{PostsOf, PostsOf-then}
use vlc_whisper.Worker.Keeps.{CaptionOf, Keeps, Keeps-same, Keeps-then, send_model_progress-Keeps}
use vlc_whisper.Worker.Keeps.Captions.{deliver_results-Keeps, emit_segments-Keeps}
use vlc_whisper.Worker.Keeps.Audio.{read_source-Keeps}
use vlc_whisper.Worker.Keeps.Audio.Live.{handle_audio-Keeps}
use vlc_whisper.Worker.Keeps.Control.{
  handle_position-Keeps, handle_pause-Keeps, handle_resume-Keeps, handle_stop-Keeps,
  handle_translate-Keeps, handle_model-Keeps, handle_shutdown-Keeps,
}
use vlc_whisper.Worker.Keeps.Start.{handle_start-Posts}

-- From one state to another, the new frames stand in the order of their sequence numbers, and their
-- captions are those of the session of the second state.
unfoldable pub Stays : Run → Run → Type 0
Stays w w' = PostsOf (CaptionOf w'.session_id) w w'

pub of_Keeps : (w u : Run) → Keeps w.session_id w u → Stays w u
unfolding Keeps Stays
of_Keeps w u k =
    let (same, posts) = k refl in subst (λ s. PostsOf (CaptionOf s) w u) (sym same) posts

pub then_Keeps : (w u v : Run) → Stays w u → Keeps u.session_id u v → Stays w v
unfolding Keeps Stays
then_Keeps w u v p k =
    let (same, posts) = k refl in
    subst (λ s. PostsOf (CaptionOf s) w v) (sym same)
      (PostsOf-then (CaptionOf u.session_id) w u v p posts)

pub dispatch-Stays :
    (config : Config) (host : Host) (m : Message) (w : Run) → Stays w (dispatch config host m w)
unfolding dispatch
dispatch-Stays config host (start_session s) w =
    unfold Stays in handle_start-Posts _ config host s w
dispatch-Stays config host (audio_pcm a) w =
    of_Keeps w _ (handle_audio-Keeps w.session_id config host a w)
dispatch-Stays config host (position p) w =
    of_Keeps w _ (handle_position-Keeps w.session_id config host p w)
dispatch-Stays config host (pause c) w =
    of_Keeps w _ (handle_pause-Keeps w.session_id config host c w)
dispatch-Stays config host (resume c) w =
    of_Keeps w _ (handle_resume-Keeps w.session_id config host c w)
dispatch-Stays config host (stop_session c) w =
    of_Keeps w _ (handle_stop-Keeps w.session_id config host c w)
dispatch-Stays config host (translate_ctrl t) w =
    of_Keeps w _ (handle_translate-Keeps w.session_id t w)
dispatch-Stays config host (model_ctrl m) w =
    of_Keeps w _ (handle_model-Keeps w.session_id config host m w)
dispatch-Stays config host shutdown w =
    of_Keeps w _ (handle_shutdown-Keeps w.session_id config host w)
dispatch-Stays config host (hello h) w = of_Keeps w w (Keeps-same w.session_id w)
dispatch-Stays config host (hello_ack h) w = of_Keeps w w (Keeps-same w.session_id w)
dispatch-Stays config host (caption_segment c) w = of_Keeps w w (Keeps-same w.session_id w)
dispatch-Stays config host (status t) w = of_Keeps w w (Keeps-same w.session_id w)
dispatch-Stays config host (error e) w = of_Keeps w w (Keeps-same w.session_id w)
dispatch-Stays config host (started t) w = of_Keeps w w (Keeps-same w.session_id w)
dispatch-Stays config host (model_progress p) w = of_Keeps w w (Keeps-same w.session_id w)

send_progress-Keeps :
    (s : List ℕ) (host : Host) (d : Download) (w : Run) → Keeps s w (send_progress host d w)
unfolding send_progress Keeps
send_progress-Keeps s host d w =
    let session = if w.session_active then w.session_id else replicate session_id_bytes 0 in
    pick (λ x. Keeps s w x) (is_due host d w) (λ due. send_model_progress-Keeps s session d host w)
      (λ early. Keeps-same s w)

serve_progress-Keeps :
    (s : List ℕ) (host : Host) (d : Download) (w : Run) → Keeps s w (serve_progress host d w)
unfolding serve_progress Keeps
serve_progress-Keeps s host d w =
    let sent = send_progress-Keeps s host d w in
    pick (λ x. Keeps s w x) (is_over d w) (λ over. sent) (λ going. sent)

serve_poll-Keeps :
    (s : List ℕ) (host : Host) (w : Run) (o : Option Download) → Keeps s w (serve_poll host w o)
unfolding serve_poll
serve_poll-Keeps s host w none = Keeps-same s w
serve_poll-Keeps s host w (some d) =
    pick (λ x. Keeps s w x) w.model_dl (λ polled. serve_progress-Keeps s host d w)
      (λ idle. Keeps-same s w)

serve_captions-Keeps : (s : List ℕ) (host : Host) (w : Run) → Keeps s w (serve_captions host w)
unfolding serve_captions
serve_captions-Keeps s host w =
    let emitted = emit_segments (suc w.builder.count) host w in
    Keeps-then s w emitted (deliver_results (host.threads 1) host emitted)
      (emit_segments-Keeps s (suc w.builder.count) host w)
      (deliver_results-Keeps s (host.threads 1) host emitted)

pub serve-Keeps :
    (s : List ℕ) (config : Config) (host : Host) (w : Run) → Keeps s w (serve config host w)
unfolding serve serve_download
serve-Keeps s config host w =
    let delivered = deliver_results (host.threads 0) host w in
    let polled = serve_poll host delivered (host.polls 1) in
    let read = read_source config host host.reads polled in
    let first =
      Keeps-then s w delivered polled (deliver_results-Keeps s (host.threads 0) host w)
        (serve_poll-Keeps s host delivered (host.polls 1)) in
    let second =
      Keeps-then s w polled read.1 first (read_source-Keeps s config host host.reads polled) in
    pick (λ x. Keeps s w x) (not (wants_source polled))
      (λ ahead.
        Keeps-then s w polled (serve_captions host polled) first
          (serve_captions-Keeps s host polled))
      (λ behind.
        pick (λ x. Keeps s w x) read.0 (λ leaves_loop. second)
          (λ goes.
            Keeps-then s w read.1 (serve_captions host read.1) second
              (serve_captions-Keeps s host read.1)))
