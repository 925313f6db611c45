-- ===== src/Worker/Keeps/Start.antt =====
-- That VW_MSG_START_SESSION posts no captions, in worker/src/vw_worker.c.
use Prim.Native.String.{String}
use vlc_whisper.Common.{ℕ, Bool, false, not, List, ◌==◌, if◌then◌else◌, pick, take}
use vlc_whisper.Protocol.Types.{Message, Start, started}
use vlc_whisper.Protocol.Encode.{strnlen}
use vlc_whisper.Worker.Run.{or_fail, post, send_error, send_status, report}
use vlc_whisper.Worker.Run.State.{Run, Host, Config, same_bytes}
use vlc_whisper.Worker.Posts.{PostsOf, PostsOf-same, PostsOf-then, post-Posts}
use vlc_whisper.Worker.Opening.{
  begin_session, has_source, open_source, answer_started, start_anew, swap_session, handle_start,
}
use vlc_whisper.Worker.Keeps.{CaptionOf}

or_fail-Posts :
    (P : Message → Type 0) (w : Run) (r : Bool × Run) → PostsOf P w r.1 → PostsOf P w (or_fail r)
or_fail-Posts P w r k = pick (λ x. PostsOf P w x) r.0 (λ sent. k) (λ lost. k)

send_error-Posts :
    (s session : List ℕ) (error_code recoverable : ℕ) (text : String) (host : Host) (w : Run)
    → PostsOf (CaptionOf s) w (or_fail (send_error session error_code recoverable text host w))
unfolding send_error CaptionOf
send_error-Posts s session error_code recoverable text host w =
    or_fail-Posts (CaptionOf s) w (send_error session error_code recoverable text host w)
      (post-Posts (CaptionOf s) 512 _ host w tt)

report-Posts :
    (s : List ℕ) (config : Config) (host : Host) (w : Run)
    → PostsOf (CaptionOf s) w (report config host w)
unfolding report send_status CaptionOf
report-Posts s config host w =
    or_fail-Posts (CaptionOf s) w (send_status config w.session_active w.paused host w)
      (post-Posts (CaptionOf s) 64 _ host w tt)

open_source-Posts :
    (s : List ℕ) (host : Host) (m : Start) (w : Run)
    → PostsOf (CaptionOf s) w (open_source host m w).1
unfolding open_source
open_source-Posts s host m w =
    let closed = record w { source_decoder = false; source_mode = false; source_eof = false } in
    pick {A = Bool × Run} (λ r. PostsOf (CaptionOf s) w r.1) (not (has_source m))
      (λ live. PostsOf-same (CaptionOf s) w)
      (λ source.
        pick {A = Bool × Run} (λ r. PostsOf (CaptionOf s) w r.1)
          (host.opens_source (take (strnlen m.source_url 1024) m.source_url))
          (λ opens. PostsOf-same (CaptionOf s) w)
          (λ fails.
            send_error-Posts s m.session_id 10 1
              "Failed to open source MRL; falling back to live PCM stream" host closed))

answer_started-Posts :
    (s : List ℕ) (config : Config) (host : Host) (m : Start) (w : Run)
    → PostsOf (CaptionOf s) w (answer_started config host m w)
unfolding answer_started CaptionOf
answer_started-Posts s config host m w =
    let answer =
      started
        record { session_id = m.session_id; source_active = if w.source_mode then 1 else 0 } in
    let told = post 17 answer host w in
    let first = post-Posts (CaptionOf s) 17 answer host w tt in
    pick (λ x. PostsOf (CaptionOf s) w x) told.0
      (λ sent.
        PostsOf-then (CaptionOf s) w told.1 (report config host told.1) first
          (report-Posts s config host told.1))
      (λ lost. first)

start_anew-Posts :
    (s : List ℕ) (config : Config) (host : Host) (m : Start) (w : Run)
    → PostsOf (CaptionOf s) w (start_anew config host m w)
unfolding start_anew
start_anew-Posts s config host m w =
    let begun = begin_session m w in
    let opened = open_source host m begun in
    let first : PostsOf (CaptionOf s) w opened.1 =
      unfold begin_session in open_source-Posts s host m (begin_session m w) in
    pick (λ x. PostsOf (CaptionOf s) w x) (not (m.sample_rate == 16000))
      (λ rate.
        send_error-Posts s m.session_id 5 1 "Unsupported sample rate (expected 16000)" host w)
      (λ rate.
        pick (λ x. PostsOf (CaptionOf s) w x) (not config.has_engine)
          (λ without.
            send_error-Posts s m.session_id 3 0 "Whisper model file missing or invalid" host w)
          (λ engine.
            pick (λ x. PostsOf (CaptionOf s) w x)
              (not (host.accepts_language (take (strnlen m.language 16) m.language)))
              (λ unknown.
                send_error-Posts s m.session_id 9 1 "Invalid session transcription language" host w)
              (λ known.
                pick (λ x. PostsOf (CaptionOf s) w x) opened.0
                  (λ goes.
                    PostsOf-then (CaptionOf s) w opened.1 (answer_started config host m opened.1)
                      first (answer_started-Posts s config host m opened.1))
                  (λ stops. first))))

pub handle_start-Posts :
    (s : List ℕ) (config : Config) (host : Host) (m : Start) (w : Run)
    → PostsOf (CaptionOf s) w (handle_start config host m w)
unfolding handle_start
handle_start-Posts s config host m w =
    pick (λ x. PostsOf (CaptionOf s) w x) (not w.session_active)
      (λ inactive. start_anew-Posts s config host m w)
      (λ active.
        pick (λ x. PostsOf (CaptionOf s) w x) (same_bytes w.session_id m.session_id)
          (λ same. send_error-Posts s w.session_id 9 1 "Session already active" host w)
          (λ other. unfold swap_session in start_anew-Posts s config host m (swap_session w)))
