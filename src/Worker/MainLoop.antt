-- ===== src/Worker/MainLoop.antt =====
-- The main loop of vw_worker_run of worker/src/vw_worker.c: a frame is popped, checked and handled,
-- then results, the progress of a download, the source and the captions are served. What the reader
-- thread does, pushing frames or stopping the worker when the connection fails, happens between two
-- turns. What happens before the loop, but for the values that the locals begin with, is left out.
pub mod Entry
use Prim.Native.Nat.{bit_xor, bit_or}
use vlc_whisper.Common.{
  ℕ, suc, ◌+◌, Bool, true, false, ◌&&◌, ◌||◌, not, Option, none, some, List, [], ◌∷◌, ◌++◌, ltb,
  leb, ◌==◌, if◌then◌else◌, replicate,
}
use vlc_whisper.Common.Int.{pos, negsuc}
use vlc_whisper.Protocol.Types.{
  Hello, Start, Message, is_null, read_at, hello, hello_ack, start_session, audio_pcm, pause,
  resume, stop_session, shutdown, position, model_ctrl, translate_ctrl, version_major,
  session_id_bytes,
}
use vlc_whisper.Protocol.Encode.{encode_payload}
use vlc_whisper.Protocol.Decode.{decode_payload}
use vlc_whisper.Protocol.Validate.{validate_payload}
use vlc_whisper.AudioBuffer.{AudioBuffer}
use vlc_whisper.SegmentBuilder.{Builder}
use vlc_whisper.WorkerQueue
use vlc_whisper.WorkerQueue.{Frame, WorkerQueue}
use vlc_whisper.TranslateAsync.Step.{has_result}
use vlc_whisper.TranslateAsync.Bounds.{Pool}
use vlc_whisper.Worker.Run.{or_fail, frame_of, send_error, send_model_progress}
use vlc_whisper.Worker.Run.State.{Run, Host, Config, Download, codes, window_samples}
use vlc_whisper.Worker.Captions.{deliver_results, emit_segments}
use vlc_whisper.Worker.Listening.{read_source, wants_source}
use vlc_whisper.Worker.Listening.Live.{handle_audio}
use vlc_whisper.Worker.Opening.{handle_start}
use vlc_whisper.Worker.Following.{handle_position, handle_pause, handle_resume}
use vlc_whisper.Worker.Closing.{
  handle_stop, handle_translate, handle_model, handle_shutdown, is_busy,
}
use vlc_whisper.Worker.MainLoop.Entry.{
  Flow, stop_fatally, token_diff, verify_token_constant_time, ack_message, ack_payload, send_ack,
  handle_hello, hello_of, start_of, authenticate, goes_on, next_turn, leaves,
}

-- The switch over the type of the frame.
unfoldable pub dispatch : Config → Host → Message → Run → Run
unfolding handle_start handle_audio handle_position handle_pause handle_resume handle_stop
    handle_translate handle_model handle_shutdown
dispatch config host (start_session s) w = handle_start config host s w
dispatch config host (audio_pcm a) w = handle_audio config host a w
dispatch config host (position p) w = handle_position config host p w
dispatch config host (pause c) w = handle_pause config host c w
dispatch config host (resume c) w = handle_resume config host c w
dispatch config host (stop_session c) w = handle_stop config host c w
dispatch config host (translate_ctrl t) w = handle_translate t w
dispatch config host (model_ctrl m) w = handle_model config host m w
dispatch config host shutdown w = handle_shutdown config host w
dispatch config host _ w = w

-- A message that is decoded and not accepted.
unfoldable pub refuse : Host → Run → Option Start → Flow
unfolding send_error
refuse host w none = stop_fatally w
refuse host w (some s) =
    let told =
      send_error s.session_id 5 1 "Unsupported audio format (expected 16kHz mono S16LE)" host w in
    if w.authenticated
      && (not (s.sample_rate == 16000) || not (s.channels == 1) || not (s.sample_format == 1))
    then if told.0 then next_turn told.1 else stop_fatally told.1
    else stop_fatally w

unfoldable pub handle_message : Config → Host → Message → Run → Flow
unfolding validate_payload refuse authenticate dispatch
handle_message config host m w =
    if not (validate_payload m)
    then refuse host w (start_of m)
    else if w.authenticated
    then goes_on (dispatch config host m w)
    else authenticate config host w (hello_of m)

unfoldable pub handle_decoded : Config → Host → Run → Option Message → Flow
unfolding handle_message
handle_decoded config host w none = stop_fatally w
handle_decoded config host w (some m) = handle_message config host m w

-- A popped frame. A VW_MSG_SHUTDOWN without a payload is accepted.
unfoldable pub handle_frame : Config → Host → Frame → Run → Flow
unfolding decode_payload handle_message handle_decoded
handle_frame config host f w =
    if f.type == 11 && f.payload_len == 0
    then handle_message config host shutdown w
    else if is_null f.payload
    then stop_fatally w
    else handle_decoded config host w (decode_payload f.type (read_at f.payload f.payload_len))

-- The progress of a download that is polled, after the stage `prev_stage`.
abbrev pub is_stage : Option ℕ → ℕ → Bool
is_stage none stage = false
is_stage (some n) stage = n == stage

-- `should_send`
unfoldable pub is_due : Host → Download → Run → Bool
is_due host d w =
    not (is_stage w.last_stage d.stage)
    || (is_busy d.stage && leb (w.last_progress_send_us + 1000000) host.now_us)

-- `is_done || is_abort_idle || is_fast_abort_idle`
unfoldable pub is_over : Download → Run → Bool
is_over d w =
    d.stage == 3
    || d.stage == 4
    || (d.stage == 0
        && (is_stage w.last_stage 5 || is_stage w.last_stage 1 || is_stage w.last_stage 2))

unfoldable pub send_progress : Host → Download → Run → Run
unfolding is_due send_model_progress
send_progress host d w =
    let session = if w.session_active then w.session_id else replicate session_id_bytes 0 in
    let told = or_fail (send_model_progress session d host w) in
    if is_due host d w
    then record told { last_stage = some d.stage; last_progress_send_us = host.now_us }
    else w

unfoldable pub serve_progress : Host → Download → Run → Run
unfolding is_over send_progress
serve_progress host d w =
    let sent = send_progress host d w in
    if is_over d w then record sent { model_dl = false; last_stage = none } else sent

unfoldable pub serve_poll : Host → Run → Option Download → Run
unfolding serve_progress
serve_poll host w none = w
serve_poll host w (some d) = if w.model_dl then serve_progress host d w else w

unfoldable pub serve_download : Host → Run → Run
unfolding serve_poll
serve_download host w = serve_poll host w (host.polls 1)

-- The end of a turn: the captions of the builder, and the results that have come.
unfoldable pub serve_captions : Host → Run → Run
unfolding emit_segments deliver_results
serve_captions host w =
    deliver_results (host.threads 1) host (emit_segments (suc w.builder.count) host w)

-- The turn behind the frame.
unfoldable pub serve : Config → Host → Run → Run
unfolding deliver_results serve_download read_source wants_source serve_captions
serve config host w =
    let polled = serve_download host (deliver_results (host.threads 0) host w) in
    let read = read_source config host host.reads polled in
    if not (wants_source polled)
    then serve_captions host polled
    else if read.0
    then read.1
    else serve_captions host read.1

unfoldable pub after_frame : Config → Host → Flow → Run
unfolding serve
after_frame config host (goes_on w) = serve config host w
after_frame config host (next_turn w) = w
after_frame config host (leaves w) = w

-- What the reader thread pushes.
unfoldable pub arrive : List Frame → WorkerQueue → WorkerQueue
arrive [] q = q
arrive (f ∷ fs) q = arrive fs (WorkerQueue.push q f).1

-- Whether the worker goes on without a frame, and does not wait for one.
unfoldable pub has_other_work : Run → Bool
unfolding has_result wants_source
has_other_work w =
    elim w.translator [ none ↦ false | some p ↦ has_result p.async ] || wants_source w || w.model_dl

unfoldable pub turn_on : Config → Host → Run → Option Frame × WorkerQueue → Run
unfolding handle_frame after_frame serve has_other_work
turn_on config host w (some f, q) =
    after_frame config host (handle_frame config host f record w { queue = q })
turn_on config host w (none, q) = if has_other_work w then serve config host w else w

-- A turn of the main loop, with the frames that have arrived before it.
unfoldable pub turn : Config → Host → List Frame → Run → Run
unfolding arrive turn_on
turn config host frames w =
    let arrived = record w { queue = arrive frames w.queue } in
    if w.running then turn_on config host arrived (WorkerQueue.pop arrived.queue) else w

-- The reader thread's way out when the connection fails: VW_MSG_SHUTDOWN, of no payload, is pushed.
unfoldable pub lose_peer : Run → Run
lose_peer w = record w {
  fatal_exit = true;
  running = false;
  queue = (WorkerQueue.push w.queue record { type = 11; payload_len = 0; payload = none }).1;
}

pub data Event : Type 0 where
  turns : Host → List Frame → Event
  loses_peer : Event

-- The main loop, over any number of turns. The connection may fail between two of them.
unfoldable pub run : Config → List Event → Run → Run
unfolding turn lose_peer
run config [] w = w
run config (turns host frames ∷ events) w = run config events (turn config host frames w)
run config (loses_peer ∷ events) w = run config events (lose_peer w)

-- The locals before the loop.
unfoldable pub start_state : AudioBuffer → Builder → WorkerQueue → Option Pool → Run
start_state audio_buf builder queue translator = record {
  running = true;
  fatal_exit = false;
  authenticated = false;
  audio_buf = audio_buf;
  builder = builder;
  session_id = replicate session_id_bytes 0;
  session_active = false;
  paused = false;
  live_progressive_mode = false;
  live_next_inference_samples = window_samples;
  sequence = 1;
  source_decoder = false;
  source_mode = false;
  source_eof = false;
  seek_failed_pending = false;
  current_playback_pts_us = pos 0;
  last_playback_pts_us = negsuc 0;
  decoded_pts_us = pos 0;
  translate_enabled = false;
  translate_src_lang = codes "auto";
  translate_dst_lang = codes "en";
  translate_mode = 1;
  translator = translator;
  model_dl = false;
  last_stage = none;
  last_progress_send_us = 0;
  queue = queue;
  posted = [];
}

-- What vw_worker_run returns behind the loop.
unfoldable pub exit_code : Run → ℕ
exit_code w = if w.fatal_exit || not w.authenticated then 1 else 0
