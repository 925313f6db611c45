-- ===== src/Worker/Foreign.antt =====
-- What the main loop of worker/src/vw_worker.c does with what does not belong to its session.
use mathlib.Core.Path.{subst}
use vlc_whisper.Common.{
  ℕ, ◌+◌, ◌≡◌, ◌∙◌, ◌⊎◌, inl, inr, refl, sym, ap, All, Bool, true, false, ◌&&◌, ◌||◌, not, Option,
  none, some, List, [], ◌∷◌, arith, ◌==◌, take, if◌then◌else◌, pick,
}
use vlc_whisper.Protocol.Types.{
  Message, ModelCtrl, audio_pcm, position, pause, resume, stop_session, translate_ctrl, hello,
  hello_ack, start_session, caption_segment, status, error, started, model_ctrl, model_progress,
  shutdown,
}
use vlc_whisper.Protocol.Encode.{strnlen}
use vlc_whisper.Worker.Run.{or_fail, post, send_payload, send_model_progress}
use vlc_whisper.Worker.Run.State.{Run, Host, Config, Download, Outgoing, same_bytes}
use vlc_whisper.Worker.Listening.Live.{handle_audio}
use vlc_whisper.Worker.Following.{handle_position, handle_pause, handle_resume}
use vlc_whisper.Worker.Closing.{
  handle_stop, handle_translate, handle_model, download_model, is_downloading, progress_at,
}
use vlc_whisper.Worker.MainLoop.{dispatch}
use vlc_whisper.Worker.Posts.{PostsOf, PostsOf-same, PostsOf-then, post-Posts}

-- A message that is not for the session `id`: it carries the identity of another one, or it is of a
-- kind that opens, feeds, steers or ends no session.
unfoldable pub IsForeign : List ℕ → Message → Type 0
IsForeign id (audio_pcm a) = same_bytes a.session_id id ≡ false
IsForeign id (position p) = same_bytes p.session_id id ≡ false
IsForeign id (pause c) = same_bytes c.session_id id ≡ false
IsForeign id (resume c) = same_bytes c.session_id id ≡ false
IsForeign id (stop_session c) = same_bytes c.session_id id ≡ false
IsForeign id (translate_ctrl t) = same_bytes t.session_id id ≡ false
IsForeign id (start_session s) = ⊥
IsForeign id shutdown = ⊥
IsForeign id _ = Unit

unfoldable pub IsProgress : Message → Type 0
IsProgress (model_progress p) = Unit
IsProgress _ = ⊥

-- The worker runs on as before, or has stopped with an error.
abbrev pub StopsAtMost : Run → Run → Type 0
StopsAtMost w w' =
    ((w'.running ≡ w.running) × (w'.fatal_exit ≡ w.fatal_exit))
    ⊎ ((w'.running ≡ false) × (w'.fatal_exit ≡ true))

StopsAtMost-then : (w u v : Run) → StopsAtMost w u → StopsAtMost u v → StopsAtMost w v
StopsAtMost-then w u v p (inr stopped) = inr stopped
StopsAtMost-then w u v (inl same) (inl later) = inl (later.0 ∙ same.0, later.1 ∙ same.1)
StopsAtMost-then w u v (inr stopped) (inl later) = inr (later.0 ∙ stopped.0, later.1 ∙ stopped.1)

-- Only the download of a model goes on, and only its progress is posted; the worker may stop, when a
-- frame cannot be sent.
pub record Spares (w w' : Run) : Type 0 where
  pub model_dl : Bool
  pub last_stage : Option ℕ
  pub sequence : ℕ
  pub posted : List Outgoing
  pub running : Bool
  pub fatal_exit : Bool
  pub same : w' ≡ record w {
    model_dl = model_dl;
    last_stage = last_stage;
    sequence = sequence;
    posted = posted;
    running = running;
    fatal_exit = fatal_exit;
  }
  pub posts : PostsOf IsProgress w w'
  pub stops : StopsAtMost w w'

Spares-same : (w : Run) → Spares w w
Spares-same w = record {
  model_dl = w.model_dl;
  last_stage = w.last_stage;
  sequence = w.sequence;
  posted = w.posted;
  running = w.running;
  fatal_exit = w.fatal_exit;
  same = refl;
  posts = PostsOf-same IsProgress w;
  stops = inl (refl, refl);
}

-- With another download.
downloads : Bool → Option ℕ → Run → Run
downloads dl stage w = record w { model_dl = dl; last_stage = stage }

sent-Spares :
    (dl : Bool) (stage : Option ℕ) (m : Message) (host : Host) (w : Run) (o : Option (List ℕ))
    → PostsOf IsProgress (downloads dl stage w) (send_payload m host (downloads dl stage w) o).1
    → Spares w (or_fail (send_payload m host (downloads dl stage w) o))
unfolding send_payload downloads
sent-Spares dl stage m host w none posts = record {
  model_dl = dl;
  last_stage = stage;
  sequence = w.sequence;
  posted = w.posted;
  running = false;
  fatal_exit = true;
  same = refl;
  posts = posts;
  stops = inr (refl, refl);
}
sent-Spares dl stage m host w (some payload) posts =
    let after = (send_payload m host (downloads dl stage w) (some payload)).1 in
    pick (Spares w) (host.sends (w.sequence + 1))
      (λ sent. record {
        model_dl = dl;
        last_stage = stage;
        sequence = after.sequence;
        posted = after.posted;
        running = w.running;
        fatal_exit = w.fatal_exit;
        same = refl;
        posts = posts;
        stops = inl (refl, refl);
      })
      (λ lost. record {
        model_dl = dl;
        last_stage = stage;
        sequence = after.sequence;
        posted = after.posted;
        running = false;
        fatal_exit = true;
        same = refl;
        posts = posts;
        stops = inr (refl, refl);
      })

progress-Spares :
    (dl : Bool) (stage : Option ℕ) (session : List ℕ) (d : Download) (host : Host) (w : Run)
    → Spares w (
        or_fail (send_model_progress session d host record w { model_dl = dl; last_stage = stage }))
unfolding send_model_progress post IsProgress downloads
progress-Spares dl stage session d host w =
    sent-Spares dl stage _ host w _
      (post-Posts IsProgress 66 _ host record w { model_dl = dl; last_stage = stage } tt)

download_model-Spares :
    (config : Config) (host : Host) (session id : List ℕ) (w : Run) (o : Option (List ℕ))
    → Spares w (download_model config host session id w o)
unfolding download_model
download_model-Spares config host session id w none =
    progress-Spares w.model_dl w.last_stage session (progress_at 4 id) host w
download_model-Spares config host session id w (some entry) =
    let stage = if w.model_dl then none else w.last_stage in
    pick (Spares w) (not config.dl_dir_ready || is_downloading host w)
      (λ refused. progress-Spares w.model_dl w.last_stage session (progress_at 4 id) host w)
      (λ granted.
        pick (Spares w) host.starts_download
          (λ starts. record {
            model_dl = host.starts_download;
            last_stage = stage;
            sequence = w.sequence;
            posted = w.posted;
            running = w.running;
            fatal_exit = w.fatal_exit;
            same = refl;
            posts = PostsOf-same IsProgress w;
            stops = inl (refl, refl);
          })
          (λ failed.
            progress-Spares host.starts_download stage session (progress_at 4 entry) host w))

handle_model-Spares :
    (config : Config) (host : Host) (m : ModelCtrl) (w : Run)
    → Spares w (handle_model config host m w)
unfolding handle_model
handle_model-Spares config host m w =
    let session = if w.session_active then w.session_id else m.session_id in
    let id = take (strnlen m.model_id 32) m.model_id in
    pick (Spares w) (m.action == 1)
      (λ download. download_model-Spares config host session id w (host.finds_model id))
      (λ other.
        pick (Spares w) (m.action == 2 && not w.model_dl)
          (λ idle. progress-Spares w.model_dl w.last_stage session (progress_at 0 []) host w)
          (λ aborts. Spares-same w))

-- A handler that begins with the test of the identity.
skips :
    (w rest : Run) (skipped : Bool) (id : List ℕ)
    → same_bytes id w.session_id ≡ false
    → Spares w (if skipped || not (same_bytes id w.session_id) then w else rest)
skips w rest skipped id other =
    pick (Spares w) (skipped || not (same_bytes id w.session_id)) (λ off. Spares-same w)
      (λ on. absurd (ground arith))

one-Spares :
    (config : Config) (host : Host) (m : Message) (w : Run)
    → IsForeign w.session_id m
    → Spares w (dispatch config host m w)
unfolding dispatch IsForeign handle_audio handle_position handle_pause handle_resume handle_stop
    handle_translate
one-Spares config host (audio_pcm a) w other =
    skips w _ (not w.session_active || w.paused || w.source_mode) a.session_id other
one-Spares config host (position p) w other = skips w _ (not w.session_active) p.session_id other
one-Spares config host (pause c) w other = skips w _ (not w.session_active) c.session_id other
one-Spares config host (resume c) w other = skips w _ (not w.session_active) c.session_id other
one-Spares config host (stop_session c) w other = skips w _ false c.session_id other
one-Spares config host (translate_ctrl t) w other = skips w _ false t.session_id other
one-Spares config host (hello x) w other = Spares-same w
one-Spares config host (hello_ack x) w other = Spares-same w
one-Spares config host (start_session x) w other = absurd other
one-Spares config host (caption_segment x) w other = Spares-same w
one-Spares config host (status x) w other = Spares-same w
one-Spares config host (error x) w other = Spares-same w
one-Spares config host (started x) w other = Spares-same w
one-Spares config host (model_ctrl m) w other = handle_model-Spares config host m w
one-Spares config host (model_progress x) w other = Spares-same w
one-Spares config host shutdown w other = absurd other

Spares-then : (w u v : Run) → Spares w u → Spares u v → Spares w v
Spares-then w u v p q = record {
  model_dl = q.model_dl;
  last_stage = q.last_stage;
  sequence = q.sequence;
  posted = q.posted;
  running = q.running;
  fatal_exit = q.fatal_exit;
  same =
      subst
        (λ (x : Run). v ≡ record x {
          model_dl = q.model_dl;
          last_stage = q.last_stage;
          sequence = q.sequence;
          posted = q.posted;
          running = q.running;
          fatal_exit = q.fatal_exit;
        })
        p.same q.same;
  posts = PostsOf-then IsProgress w u v p.posts q.posts;
  stops = StopsAtMost-then w u v p.stops q.stops;
}

-- The messages of a list, one after the other.
unfoldable pub dispatch_all : Config → List (Host × Message) → Run → Run
unfolding dispatch
dispatch_all config [] w = w
dispatch_all config ((host, m) ∷ rest) w = dispatch_all config rest (dispatch config host m w)

-- Any number of messages that are neither START_SESSION nor SHUTDOWN, and of which those of audio,
-- positions, pauses, resumptions, stops and settings of translation carry the identity of another
-- session, leave the session as it is: its audio, cues, translations, source, clock and settings. Only
-- the download of a model changes, of the frames only its progress is posted, and the worker runs on as
-- before or stops with an error.
pub dispatch-foreign :
    (config : Config) (messages : List (Host × Message)) (w : Run)
    → All (λ hm. IsForeign w.session_id hm.1) messages
    → Spares w (dispatch_all config messages w)
unfolding dispatch_all
dispatch-foreign config [] w others = Spares-same w
dispatch-foreign config ((host, m) ∷ rest) w (other, others) =
    let first = one-Spares config host m w other in
    let next = dispatch config host m w in
    let same_id : next.session_id ≡ w.session_id = ap (λ x. x.session_id) first.same in
    Spares-then w next (dispatch_all config rest next) first (
      dispatch-foreign config rest next
        (subst (λ id. All (λ hm. IsForeign id hm.1) rest) (sym same_id) others))
