-- ===== src/Worker/Handshake.antt =====
-- Whom the main loop of worker/src/vw_worker.c lets in, and in which order it posts over a whole run.
pub mod Frames
use Prim.Native.String.{String}
use vlc_whisper.Common.{
  ℕ, zero, suc, ◌≤◌, ◌≡◌, ◌⊎◌, inl, inr, refl, sym, ap, ◌∙◌, Bool, true, false, ◌&&◌, ◌||◌, not,
  Option, none, some, List, [], ◌∷◌, ◌++◌, arith, Bool-cases, ltb, ◌==◌, if◌then◌else◌, pick,
  replicate,
}
use mathlib.Core.Path.{subst}
use vlc_whisper.Protocol.Types.{
  Hello, Start, Message, error, shutdown, is_null, read_at, version_major, session_id_bytes,
}
use vlc_whisper.Protocol.Encode.{encode_payload}
use vlc_whisper.Protocol.Decode.{decode_payload}
use vlc_whisper.Protocol.Validate.{validate_payload}
use vlc_whisper.AudioBuffer.{AudioBuffer}
use vlc_whisper.SegmentBuilder.{Builder}
use vlc_whisper.WorkerQueue
use vlc_whisper.WorkerQueue.{Frame, WorkerQueue}
use vlc_whisper.TranslateAsync.Step.{has_result}
use vlc_whisper.TranslateAsync.Bounds.{Pool}
use vlc_whisper.Worker.Run.{frame_of, send_error}
use vlc_whisper.Worker.Run.State.{Run, Host, Config, Outgoing}
use vlc_whisper.Worker.Listening.{wants_source}
use vlc_whisper.Worker.MainLoop.{
  refuse, dispatch, handle_message, handle_decoded, handle_frame, after_frame, serve, arrive,
  has_other_work, turn_on, turn, Event, turns, loses_peer, lose_peer, run, start_state, exit_code,
}
use vlc_whisper.Worker.MainLoop.Entry.{
  Flow, stop_fatally, verify_token_constant_time, ack_message, ack_payload, send_ack, handle_hello,
  hello_of, start_of, authenticate,
}
use vlc_whisper.Worker.Posts.{IsRising, IsRising-append, PostsOf, PostsOf-same, post-Posts}
use vlc_whisper.Worker.OneSession.{turn-Stays}
use vlc_whisper.Worker.OneSession.Serving.{Stays}
use vlc_whisper.Worker.Handshake.Frames.{
  IsWaiting, IsError, IsRefused, IsAccepted, Answers, FlowAnswers, frame-Answers, hello_in,
  is_admitted,
}

-- A turn in which no frame comes.
abbrev pub IsIdle : Run → Run → Type 0
IsIdle w w' = (q : WorkerQueue) × (w' ≡ record w { queue = q })

-- What a turn makes of a waiting worker, with the frame that it pops.
abbrev pub Turned : Config → Option Frame → Run → Run → Type 0
Turned config none w w' = IsIdle w w'
Turned config (some f) w w' = Answers (is_admitted config (hello_in f)) w w'

-- The queue does not matter.
requeued-Answers :
    (admitted : Bool) (w w' : Run) (q : WorkerQueue)
    → Answers admitted record w { queue = q } w'
    → Answers admitted w w'
requeued-Answers admitted w w' q (inl (unfit, r)) =
    inl (unfit, record { stopped = r.stopped; code = r.code; posts = r.posts })
requeued-Answers admitted w w' q (inr (fit, a)) =
    inr (fit, record { known = a.known; same_sequence = a.same_sequence; answer = a.answer })

requeued-Turned :
    (config : Config) (o : Option Frame) (w w' : Run) (q : WorkerQueue)
    → Turned config o record w { queue = q } w'
    → Turned config o w w'
requeued-Turned config none w w' q (r, same) = (r, same)
requeued-Turned config (some f) w w' q a =
    requeued-Answers (is_admitted config (hello_in f)) w w' q a

turn_on-Turned :
    (config : Config) (host : Host) (w : Run) (popped : Option Frame × WorkerQueue)
    → IsWaiting w
    → Turned config popped.0 w (turn_on config host w popped)
unfolding turn_on
turn_on-Turned config host w (some f, q) waits =
    requeued-Answers (is_admitted config (hello_in f)) w
      (after_frame config host (handle_frame config host f record w { queue = q })) q
      (unfold FlowAnswers in frame-Answers config host f record w { queue = q } waits.unknown)
turn_on-Turned config host w (none, q) waits =
    pick (λ x. IsIdle w x) (has_other_work w) (λ work. absurd (ground (arith, waits.no_work)))
      (λ idle. (w.queue, refl))

-- A running worker that waits for VW_MSG_HELLO pops a frame or none. Without one, nothing but its queue
-- changes. If the frame holds a valid VW_MSG_HELLO of the worker's version and with the token of its
-- configuration, the worker is authenticated, and posts the answer of sequence number 1 or stops with
-- the exit code 1. With any other frame it is not authenticated, posts nothing but errors, and stops
-- with the exit code 1.
pub turn-Answers :
    (config : Config) (host : Host) (frames : List Frame) (w : Run)
    → IsWaiting w
    → w.running ≡ true
    → Turned config (WorkerQueue.pop (arrive frames w.queue)).0 w (turn config host frames w)
unfolding turn
turn-Answers config host frames w waits runs =
    let arrived = record w { queue = arrive frames w.queue } in
    let popped = WorkerQueue.pop (arrive frames w.queue) in
    pick (λ x. Turned config popped.0 w x) w.running
      (λ on. requeued-Turned config popped.0 w (turn_on config host arrived popped) arrived.queue (
        turn_on-Turned config host arrived popped
          (unfold has_other_work in record { unknown = waits.unknown; no_work = waits.no_work })))
      (λ off. absurd (ground arith))

-- All frames stand in the order of their numbers; and the worker is authenticated, or has stopped, or
-- still waits and has posted nothing.
record IsOrderly (w : Run) : Type 0 where
  pub rising : IsRising 0 w.posted w.sequence
  pub phase :
      (w.authenticated ≡ true)
      ⊎ ((w.running ≡ false) ⊎ (IsWaiting w × (w.posted ≡ []) × (w.sequence ≡ 1)))

known-IsOrderly :
    (w w' : Run)
    → w.authenticated ≡ true
    → IsRising 0 w.posted w.sequence
    → Stays w w'
    → IsOrderly w'
unfolding Stays
known-IsOrderly w w' known rising stays =
    let p = stays.1 in
    record {
      rising =
          subst (λ l. IsRising 0 l w'.sequence) (sym p.split)
            (IsRising-append 0 w.sequence w'.sequence w.posted p.added rising p.rising);
      phase = inl (stays.0 ∙ known);
    }

answered-IsOrderly :
    (admitted : Bool) (w w' : Run)
    → w.posted ≡ []
    → w.sequence ≡ 1
    → Answers admitted w w'
    → IsOrderly w'
answered-IsOrderly admitted w w' empty one (inl (unfit, r)) =
    let p = r.posts.1 in
    let old : IsRising 0 w.posted w.sequence = rw (empty, one) (unfold IsRising in omega arith) in
    record {
      rising =
          subst (λ l. IsRising 0 l w'.sequence) (sym p.split)
            (IsRising-append 0 w.sequence w'.sequence w.posted p.added old p.rising);
      phase = inr (inl r.stopped);
    }
answered-IsOrderly admitted w w' empty one (inr (fit, a)) = record {
  rising = elim a.answer [
    | inl (same, code) ↦ rw (same, empty, a.same_sequence, one) (unfold IsRising in omega arith)
    | inr (payload, split) ↦
        rw (split, empty, a.same_sequence, one) (unfold IsRising in (omega arith, omega arith))
  ];
  phase = inl a.known;
}

Turned-IsOrderly :
    (config : Config) (popped : Option Frame) (w w' : Run)
    → IsWaiting w
    → w.posted ≡ []
    → w.sequence ≡ 1
    → IsOrderly w
    → Turned config popped w w'
    → IsOrderly w'
Turned-IsOrderly config none w w' waits empty one o (q, same) = subst IsOrderly (sym same) (
    unfold has_other_work in
    record {
      rising = o.rising;
      phase = inr (inr (record { unknown = waits.unknown; no_work = waits.no_work }, empty, one));
    })
Turned-IsOrderly config (some f) w w' waits empty one o a =
    answered-IsOrderly (is_admitted config (hello_in f)) w w' empty one a

stopped-IsOrderly :
    (config : Config) (host : Host) (frames : List Frame) (w : Run)
    → w.running ≡ false
    → IsOrderly w
    → IsOrderly (turn config host frames w)
unfolding turn
stopped-IsOrderly config host frames w stopped o =
    pick IsOrderly w.running (λ runs. absurd (ground arith)) (λ off. o)

waiting-IsOrderly :
    (config : Config) (host : Host) (frames : List Frame) (w : Run)
    → IsWaiting w
    → w.posted ≡ []
    → w.sequence ≡ 1
    → w.running ≡ true
    → IsOrderly w
    → IsOrderly (turn config host frames w)
waiting-IsOrderly config host frames w waits empty one runs o =
    Turned-IsOrderly config (WorkerQueue.pop (arrive frames w.queue)).0 w
      (turn config host frames w) waits empty one o (turn-Answers config host frames w waits runs)

turn-IsOrderly :
    (config : Config) (host : Host) (frames : List Frame) (w : Run)
    → IsOrderly w
    → IsOrderly (turn config host frames w)
turn-IsOrderly config host frames w o = elim o.phase [
  | inl known ↦
      known-IsOrderly w (turn config host frames w) known o.rising
        (turn-Stays config host frames w known)
  | inr (inl stopped) ↦ stopped-IsOrderly config host frames w stopped o
  | inr (inr (waits, empty, one)) ↦ elim (Bool-cases w.running) [
    | inl runs ↦ waiting-IsOrderly config host frames w waits empty one runs o
    | inr stopped ↦ stopped-IsOrderly config host frames w stopped o
  ]
]

lose_peer-IsOrderly : (w : Run) → IsOrderly w → IsOrderly (lose_peer w)
unfolding lose_peer
lose_peer-IsOrderly w o = record { rising = o.rising; phase = inr (inl refl) }

run-IsOrderly :
    (config : Config) (events : List Event) (w : Run)
    → IsOrderly w
    → IsOrderly (run config events w)
unfolding run
run-IsOrderly config [] w o = o
run-IsOrderly config (turns host frames ∷ events) w o =
    run-IsOrderly config events (turn config host frames w) (turn-IsOrderly config host frames w o)
run-IsOrderly config (loses_peer ∷ events) w o =
    run-IsOrderly config events (lose_peer w) (lose_peer-IsOrderly w o)

-- Over a whole run of the main loop, from its start on, with whatever frames, failures of the
-- connection, answers of the system and work of the translator's threads, all frames are posted with rising sequence numbers, which begin
-- above 0 and end at most with the worker's counter.
pub run-IsRising :
    (config : Config) (events : List Event) (audio_buf : AudioBuffer) (builder : Builder)
    (queue : WorkerQueue) (translator : Option Pool)
    → has_other_work (start_state audio_buf builder queue translator) ≡ false
    → IsRising 0
        (run config events (start_state audio_buf builder queue translator)).posted
        (run config events (start_state audio_buf builder queue translator)).sequence
run-IsRising config events audio_buf builder queue translator quiet =
    let begun = start_state audio_buf builder queue translator in
    (run-IsOrderly config events begun (
      unfold start_state IsRising in
      record {
        rising = omega arith;
        phase = inr (inr (record { unknown = refl; no_work = quiet }, refl, refl));
      })).rising
