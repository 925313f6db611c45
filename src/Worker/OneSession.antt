-- ===== src/Worker/OneSession.antt =====
-- What a turn of the main loop of worker/src/vw_worker.c posts.
pub mod Serving
use vlc_whisper.Common.{
  arith, ℕ, zero, suc, ◌≡◌, refl, sym, Bool, true, false, ◌&&◌, ◌||◌, not, Option, none, some, List,
  [], ◌∷◌, ◌==◌, if◌then◌else◌, pick, replicate,
}
use mathlib.Core.Path.{subst}
use vlc_whisper.Protocol.Types.{
  Message, Start, hello, hello_ack, start_session, audio_pcm, pause, resume, stop_session,
  caption_segment, status, error, shutdown, started, position, model_ctrl, model_progress,
  translate_ctrl, is_null, read_at, session_id_bytes,
}
use vlc_whisper.Protocol.Validate.{validate_payload}
use vlc_whisper.Protocol.Decode.{decode_payload}
use vlc_whisper.WorkerQueue
use vlc_whisper.WorkerQueue.{Frame, WorkerQueue}
use vlc_whisper.Worker.Run.{or_fail, send_error, send_model_progress}
use vlc_whisper.Worker.Run.State.{Run, Host, Config, Download}
use vlc_whisper.Worker.Captions.{deliver_results, emit_segments}
use vlc_whisper.Worker.Listening.{read_source, wants_source}
use vlc_whisper.Worker.MainLoop.{
  is_due, is_over, send_progress, dispatch, refuse, handle_message, handle_decoded, handle_frame,
  serve_progress, serve_poll, serve_download, serve_captions, serve, after_frame, arrive,
  has_other_work, turn_on, turn,
}
use vlc_whisper.Worker.MainLoop.Entry.{start_of, Flow, goes_on, next_turn, leaves, stop_fatally}
use vlc_whisper.Worker.Posts.{PostsOf, PostsOf-then}
use vlc_whisper.Worker.Keeps.{
  CaptionOf, Keeps, Keeps-same, Keeps-then, send_error-Keeps, send_model_progress-Keeps,
}
use vlc_whisper.Worker.Keeps.Captions.{deliver_results-Keeps, emit_segments-Keeps}
use vlc_whisper.Worker.Keeps.Audio.{read_source-Keeps}
use vlc_whisper.Worker.Keeps.Audio.Live.{handle_audio-Keeps}
use vlc_whisper.Worker.Keeps.Control.{
  handle_position-Keeps, handle_pause-Keeps, handle_resume-Keeps, handle_stop-Keeps,
  handle_translate-Keeps, handle_model-Keeps, handle_shutdown-Keeps,
}
use vlc_whisper.Worker.Keeps.Start.{handle_start-Posts}
use vlc_whisper.Worker.OneSession.Serving.{Stays, of_Keeps, then_Keeps, dispatch-Stays, serve-Keeps}

-- What a frame of an authenticated worker leads to.
FlowStays : Config → Host → Run → Flow → Type 0
FlowStays config host w flow = Stays w (after_frame config host flow)

fatal-Stays :
    (config : Config) (host : Host) (w u : Run)
    → Stays w u
    → FlowStays config host w (stop_fatally u)
unfolding FlowStays after_frame Stays
fatal-Stays config host w u k = k

refuse-Stays :
    (config : Config) (host : Host) (w : Run) (o : Option Start)
    → FlowStays config host w (refuse host w o)
unfolding refuse
refuse-Stays config host w none =
    fatal-Stays config host w w (of_Keeps w w (Keeps-same w.session_id w))
refuse-Stays config host w (some s) =
    let told =
      send_error s.session_id 5 1 "Unsupported audio format (expected 16kHz mono S16LE)" host w in
    let first = of_Keeps w told.1 (
      send_error-Keeps w.session_id s.session_id 5 1
        "Unsupported audio format (expected 16kHz mono S16LE)" host w) in
    pick (λ x. FlowStays config host w x)
      (w.authenticated
        && (not (s.sample_rate == 16000) || not (s.channels == 1) || not (s.sample_format == 1)))
      (λ format.
        pick (λ x. FlowStays config host w x) told.0 (λ sent. unfold FlowStays after_frame in first)
          (λ lost. fatal-Stays config host w told.1 first))
      (λ bad. fatal-Stays config host w w (of_Keeps w w (Keeps-same w.session_id w)))

handle_message-Stays :
    (config : Config) (host : Host) (m : Message) (w : Run)
    → w.authenticated ≡ true
    → FlowStays config host w (handle_message config host m w)
unfolding handle_message
handle_message-Stays config host m w known =
    pick (λ x. FlowStays config host w x) (not (validate_payload m))
      (λ invalid. refuse-Stays config host w (start_of m))
      (λ valid.
        pick (λ x. FlowStays config host w x) w.authenticated
          (λ yes_known.
            unfold FlowStays after_frame in
            then_Keeps w (dispatch config host m w) (serve config host (dispatch config host m w))
              (dispatch-Stays config host m w)
              (serve-Keeps _ config host (dispatch config host m w)))
          (λ unknown. absurd (ground arith)))

handle_decoded-Stays :
    (config : Config) (host : Host) (w : Run) (o : Option Message)
    → w.authenticated ≡ true
    → FlowStays config host w (handle_decoded config host w o)
unfolding handle_decoded
handle_decoded-Stays config host w none known =
    fatal-Stays config host w w (of_Keeps w w (Keeps-same w.session_id w))
handle_decoded-Stays config host w (some m) known = handle_message-Stays config host m w known

handle_frame-Stays :
    (config : Config) (host : Host) (f : Frame) (w : Run)
    → w.authenticated ≡ true
    → FlowStays config host w (handle_frame config host f w)
unfolding handle_frame
handle_frame-Stays config host f w known =
    let refused = fatal-Stays config host w w (of_Keeps w w (Keeps-same w.session_id w)) in
    pick (λ x. FlowStays config host w x) (f.type == 11 && f.payload_len == 0)
      (λ off. handle_message-Stays config host shutdown w known)
      (λ other.
        pick (λ x. FlowStays config host w x) (is_null f.payload) (λ null. refused)
          (λ payload.
            handle_decoded-Stays config host w
              (decode_payload f.type (read_at f.payload f.payload_len)) known))

turn_on-Stays :
    (config : Config) (host : Host) (w : Run) (popped : Option Frame × WorkerQueue)
    → w.authenticated ≡ true
    → Stays w (turn_on config host w popped)
unfolding turn_on
turn_on-Stays config host w (some f, q) known =
    unfold FlowStays Stays in handle_frame-Stays config host f record w { queue = q } known
turn_on-Stays config host w (none, q) known =
    pick (λ x. Stays w x) (has_other_work w)
      (λ work. of_Keeps w (serve config host w) (serve-Keeps w.session_id config host w))
      (λ idle. of_Keeps w w (Keeps-same w.session_id w))

-- In a turn of the main loop of an authenticated worker, frames are posted with rising sequence
-- numbers above all before, and all captions among them are those of one session, which is the
-- worker's at the end of the turn. The worker stays authenticated.
pub turn-Stays :
    (config : Config) (host : Host) (frames : List Frame) (w : Run)
    → w.authenticated ≡ true
    → Stays w (turn config host frames w)
unfolding turn
turn-Stays config host frames w known =
    let arrived = record w { queue = arrive frames w.queue } in
    pick (λ x. Stays w x) w.running
      (λ runs.
        unfold Stays in turn_on-Stays config host arrived (WorkerQueue.pop arrived.queue) known)
      (λ stopped. of_Keeps w w (Keeps-same w.session_id w))
