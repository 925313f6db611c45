-- ===== src/Worker/Keeps.antt =====
-- That each part of vw_worker_run of worker/src/vw_worker.c which serves a session stays in it: it
-- keeps the identity of the session, and posts captions of that session only, in the order of the
-- sequence numbers.
pub mod Captions
pub mod Audio
pub mod Control
pub mod Start
use Prim.Native.String.{String}
use vlc_whisper.Common.{
  ℕ, ◌≡◌, refl, sym, ◌∙◌, Bool, true, false, Option, none, some, List, if◌then◌else◌, pick,
}
use vlc_whisper.Protocol.Types.{
  Message, CaptionSegment, hello, hello_ack, start_session, audio_pcm, pause, resume, stop_session,
  caption_segment, status, error, shutdown, started, position, model_ctrl, model_progress,
  translate_ctrl,
}
use vlc_whisper.Protocol.Encode.{encode_payload}
use vlc_whisper.Worker.Run.{
  or_fail, fail, send_payload, post, send_error, send_model_progress, send_status,
  send_caption_segment, report, restart_window, invalidate_translator,
}
use vlc_whisper.Worker.Run.State.{Run, Host, Config, Download}
use vlc_whisper.Worker.Posts.{PostsOf, PostsOf-same, PostsOf-then, post-Posts}

-- A message that is a caption is one of the session `s`.
unfoldable pub CaptionOf : List ℕ → Message → Type 0
CaptionOf s (caption_segment c) = c.session_id ≡ s
CaptionOf s _ = Unit

-- From a state in the session `s` to another, with captions of that session.
unfoldable pub Keeps : List ℕ → Run → Run → Type 0
Keeps s w w' = w.session_id ≡ s → (w'.session_id ≡ s) × (PostsOf (CaptionOf s) w w')

pub Keeps-same : (s : List ℕ) (w : Run) → Keeps s w w
unfolding Keeps
Keeps-same s w e = (e, PostsOf-same (CaptionOf s) w)

pub Keeps-then : (s : List ℕ) (w u v : Run) → Keeps s w u → Keeps s u v → Keeps s w v
unfolding Keeps
Keeps-then s w u v p q e =
    let (e1, p1) = p e in let (e2, p2) = q e1 in (e2, PostsOf-then (CaptionOf s) w u v p1 p2)

send_payload-session_id :
    (m : Message) (host : Host) (w : Run) (payload : Option (List ℕ))
    → (send_payload m host w payload).1.session_id ≡ w.session_id
unfolding send_payload
send_payload-session_id m host w none = refl
send_payload-session_id m host w (some payload) = refl

pub post-Keeps :
    (s : List ℕ) (room : ℕ) (m : Message) (host : Host) (w : Run)
    → (w.session_id ≡ s → CaptionOf s m)
    → Keeps s w (post room m host w).1
unfolding post Keeps
post-Keeps s room m host w p e = (
  send_payload-session_id m host w (encode_payload m room) ∙ e,
  post-Posts (CaptionOf s) room m host w (p e),
)

pub or_fail-Keeps : (s : List ℕ) (w : Run) (r : Bool × Run) → Keeps s w r.1 → Keeps s w (or_fail r)
unfolding Keeps
or_fail-Keeps s w r k = pick (λ x. Keeps s w x) r.0 (λ sent. k) (λ lost. k)

pub send_error-Keeps :
    (s session : List ℕ) (error_code recoverable : ℕ) (text : String) (host : Host) (w : Run)
    → Keeps s w (send_error session error_code recoverable text host w).1
unfolding send_error CaptionOf
send_error-Keeps s session error_code recoverable text host w = post-Keeps s 512 _ host w (λ e. tt)

pub send_error-or_fail :
    (s session : List ℕ) (error_code recoverable : ℕ) (text : String) (host : Host) (w : Run)
    → Keeps s w (or_fail (send_error session error_code recoverable text host w))
send_error-or_fail s session error_code recoverable text host w =
    or_fail-Keeps s w (send_error session error_code recoverable text host w)
      (send_error-Keeps s session error_code recoverable text host w)

pub fail-Keeps : (s : List ℕ) (w u : Run) → Keeps s w u → Keeps s w (fail u)
unfolding Keeps
fail-Keeps s w u k = k

pub send_model_progress-Keeps :
    (s session : List ℕ) (d : Download) (host : Host) (w : Run)
    → Keeps s w (or_fail (send_model_progress session d host w))
unfolding send_model_progress CaptionOf
send_model_progress-Keeps s session d host w =
    or_fail-Keeps s w _ (post-Keeps s 66 _ host w (λ e. tt))

pub send_status-Keeps :
    (s : List ℕ) (config : Config) (active paused : Bool) (host : Host) (w : Run)
    → Keeps s w (send_status config active paused host w).1
unfolding send_status CaptionOf
send_status-Keeps s config active paused host w = post-Keeps s 64 _ host w (λ e. tt)

pub report-Keeps :
    (s : List ℕ) (config : Config) (host : Host) (w : Run) → Keeps s w (report config host w)
unfolding report
report-Keeps s config host w =
    or_fail-Keeps s w _ (send_status-Keeps s config w.session_active w.paused host w)

pub send_caption_segment-Keeps :
    (s : List ℕ) (c : CaptionSegment) (host : Host) (w : Run)
    → (w.session_id ≡ s → c.session_id ≡ s)
    → Keeps s w (send_caption_segment c host w).1
unfolding send_caption_segment CaptionOf
send_caption_segment-Keeps s c host w p = post-Keeps s _ (caption_segment c) host w p

pub restart_window-Keeps : (s : List ℕ) (w u : Run) → Keeps s w u → Keeps s w (restart_window u)
unfolding restart_window Keeps
restart_window-Keeps s w u k = k

pub invalidate_translator-Keeps :
    (s : List ℕ) (w u : Run) → Keeps s w u → Keeps s w (invalidate_translator u)
unfolding invalidate_translator Keeps
invalidate_translator-Keeps s w u k = k
