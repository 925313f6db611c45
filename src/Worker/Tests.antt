-- ===== src/Worker/Tests.antt =====
-- The theorems on the worker at concrete inputs.
use vlc_whisper.Common.{
  ℕ, ◌≡◌, ◌↔◌, true, false, none, some, List, [], ◌∷◌, ◌++◌, arith, refl, replicate, length,
}
use vlc_whisper.Protocol.Types.{Control, Message, stop_session, model_ctrl}
use vlc_whisper.Protocol.Wire
use vlc_whisper.Protocol.Decode.{decode_hello}
use vlc_whisper.Protocol.Encode.{encode_hello_ack}
use vlc_whisper.WorkerQueue
use vlc_whisper.WorkerQueue.{Frame, WorkerQueue, blank_frame}
use vlc_whisper.Worker.Run.State.{Run, Host, Config, read_again, same_bytes}
use vlc_whisper.Worker.Closing.{handle_stop}
use vlc_whisper.Worker.MainLoop.{
  arrive, has_other_work, turn, Event, turns, loses_peer, run, start_state,
}
use vlc_whisper.Worker.MainLoop.Entry.{verify_token_constant_time}
use vlc_whisper.Worker.Posts.{IsRising}
use vlc_whisper.Worker.OneSession.{turn-Stays}
use vlc_whisper.Worker.OneSession.Serving.{Stays}
use vlc_whisper.Protocol.Types.{CaptionSegment}
use vlc_whisper.TranslateAsync.{blank_segment, blank_job, blank_completion}
use vlc_whisper.TranslateAsync.Step
use vlc_whisper.TranslateAsync.Step.{submit}
use vlc_whisper.TranslateAsync.Bounds.{Pool, act, takes}
use vlc_whisper.TranslateAsync.Epochs.{UpTo-blank, submit-IsTimely, take-IsTimely}
use vlc_whisper.Worker.Timely.{Timely}
use vlc_whisper.Worker.Handshake.{Turned, turn-Answers, run-IsRising}
use vlc_whisper.Worker.Token.{verify_token_constant_time_iff}
use vlc_whisper.Worker.Foreign.{IsForeign, Spares, dispatch_all, dispatch-foreign}
use vlc_whisper.Worker.Stopping.{IsEnded, handle_stop-IsEnded}
use vlc_whisper.Common.Int.{pos, negsuc}
use vlc_whisper.AudioBuffer.{AudioBuffer}
use vlc_whisper.AudioBuffer.Contents
use vlc_whisper.Vad.{no_model}
use vlc_whisper.SegmentBuilder.{Builder, Heap, blank_cue, blank_entry}
use vlc_whisper.SegmentBuilder.Pending.Growth
use vlc_whisper.SegmentBuilder.Session.{create-IsFresh}
use vlc_whisper.Worker.{Env, Phrase, flush_audio_tail}
use vlc_whisper.Worker.Tail.{Flushed, flush_audio_tail-Flushed}

-- Three samples are left.
abbrev three_left : AudioBuffer
three_left = record {
  samples = 13 ∷ 9 ∷ 11 ∷ 12 ∷ [];
  max_samples = 4;
  head = 1;
  count = 3;
  start_pts_us = pos 1000;
  start_pts_frac_us = 1;
  dropped_samples = 0;
}

three_left-IsValid : Contents.IsValid three_left
three_left-IsValid = record {
  storage = refl;
  some_room = omega arith;
  head_in = omega arith;
  count_in = omega arith;
  frac_in = omega arith;
}

abbrev enough : Heap
enough = record { trimmed = true; copy = true; new_queue = true }

-- "we go"
abbrev we_go : Phrase
we_go = record {
  is_readable = true;
  is_unlikely = false;
  text_utf8 = some (b'w' ∷ b'e' ∷ b' ' ∷ b'g' ∷ b'o' ∷ []);
  t0_us = pos 0;
  t1_us = pos 900000;
}

-- No model of speech, loud audio, and recognition that works.
abbrev env : Env
env = record {
  detects = λ turn window. no_model;
  is_loud = λ turn window. true;
  transcribes = λ turn window. some (we_go ∷ []);
  heaps = λ turn i. record { pending = enough; turns = λ k. enough; phrase = enough };
}

abbrev new_builder : Builder
new_builder = record {
  next_segment_id = 1;
  segment_queue = replicate 32 blank_cue;
  capacity = 32;
  head = 0;
  count = 0;
  history = replicate 16 blank_entry;
  history_head = 0;
  history_count = 0;
  covered_end_us = negsuc 0;
}

new_builder-IsValid : Growth.IsValid new_builder
unfolding vlc_whisper.SegmentBuilder.create
new_builder-IsValid = (create-IsFresh new_builder refl).valid

flush_audio_tail-Flushed_example : Flushed env (flush_audio_tail 4 env 0 three_left new_builder)
flush_audio_tail-Flushed_example =
    flush_audio_tail-Flushed 4 env 0 three_left new_builder (λ turn window. tt)
      (three_left-IsValid, new_builder-IsValid) (omega arith)

-- The main loop.
abbrev token : List ℕ
token = replicate 32 7

abbrev config : Config
config = record {
  auth_token = token;
  is_cpu_backend = true;
  has_engine = true;
  dl_dir_ready = false;
}

abbrev host : Host
host = record {
  sends = λ sequence. true;
  tail = env;
  detects_speech = λ i window. true;
  accepts_language = λ language. true;
  opens_source = λ url. false;
  seeks = λ i. true;
  reads = read_again;
  total_inference_us = 0;
  is_gpu_active = false;
  finds_model = λ id. none;
  starts_download = false;
  polls = λ i. none;
  now_us = 0;
  threads = λ i. [];
  waits = [];
}

abbrev slots : WorkerQueue
slots = record {
  slots = replicate 2 blank_frame;
  capacity = 2;
  head = 0;
  tail = 0;
  dropped_audio_us = 0;
  queued_audio_us = 0;
}

abbrev fresh : Run
fresh = start_state three_left new_builder slots none

fresh-idle : has_other_work fresh ≡ false
unfolding has_other_work start_state
fresh-idle = refl

abbrev session : List ℕ
session = replicate 16 5

-- In a session, with three samples of audio.
abbrev active : Run
active = record fresh { authenticated = true; session_id = session; session_active = true }

abbrev media_end : Control
media_end = record { session_id = session; reason = 3 }

-- VW_MSG_HELLO with the token, in the version 1.
abbrev hello_frame : Frame
hello_frame = record {
  type = 1;
  payload_len = 38;
  payload = some (1 ∷ 0 ∷ 1 ∷ 0 ∷ token ++ 0 ∷ 0 ∷ []);
}

abbrev stop_frame : Frame
stop_frame = record { type = 7; payload_len = 18; payload = some (session ++ 3 ∷ 0 ∷ []) }

abbrev three_events : List Event
three_events = turns host (hello_frame ∷ []) ∷ turns host (stop_frame ∷ []) ∷ loses_peer ∷ []

lets_in : (turn config host (hello_frame ∷ []) fresh).authenticated ≡ true
unfolding turn start_state WorkerQueue.pop WorkerQueue.push WorkerQueue.store Wire.finish
    decode_hello Wire.◌>>=◌ Wire.field Wire.bytes Wire.from_le Wire.done encode_hello_ack
    Wire.write_all Wire.write Wire.le_bytes
lets_in = refl

run-IsRising_example :
    IsRising 0 (run config three_events fresh).posted (run config three_events fresh).sequence
run-IsRising_example = run-IsRising config three_events three_left new_builder slots none fresh-idle

turn-Answers_example :
    Turned config
      (WorkerQueue.pop (arrive (hello_frame ∷ []) fresh.queue)).0
      fresh
      (turn config host (hello_frame ∷ []) fresh)
turn-Answers_example =
    turn-Answers config host (hello_frame ∷ []) fresh
      (record { unknown = unfold start_state in refl; no_work = fresh-idle })
      (unfold start_state in refl)

turn-Stays_example : Stays active (turn config host (stop_frame ∷ []) active)
turn-Stays_example = turn-Stays config host (stop_frame ∷ []) active refl

verify_token_constant_time_iff_example :
    (verify_token_constant_time token token ≡ true) ↔ (token ≡ token)
verify_token_constant_time_iff_example = verify_token_constant_time_iff token token refl

same_session : same_bytes session session ≡ true
unfolding same_bytes
same_session = refl

other_session : same_bytes token session ≡ false
unfolding same_bytes
other_session = refl

-- A new translator, and one of whose threads works on a cue.
abbrev new_pool : Pool
new_pool = record {
  async = record {
    stopping = false;
    epoch = 1;
    next_submit_ordinal = 1;
    next_result_ordinal = 1;
    jobs = replicate 32 blank_job;
    job_head = 0;
    job_tail = 0;
    job_count = 0;
    inflight_count = 0;
    active_translation_count = 0;
    results = replicate 34 blank_completion;
    result_head = 0;
    result_tail = 0;
    result_count = 0;
  };
  working = [];
}

abbrev cue : CaptionSegment
cue = record blank_segment { session_id = session; text_utf8 = some (b'h' ∷ b'i' ∷ []) }

abbrev submitted : Pool
submitted = record new_pool { async = (submit new_pool.async cue none none).1 }

abbrev translating : Run
translating = record active { translator = some (act submitted takes) }

translating-Timely : Timely translating
translating-Timely = take-IsTimely submitted (
    submit-IsTimely new_pool cue none none
      (record { queued = UpTo-blank 1 32; working = tt; room = ground arith }))

works_on_one : length (act submitted takes).working ≡ 1
unfolding act submit Step.enqueue_job Step.take_job
works_on_one = refl

handle_stop-IsEnded_example : IsEnded (handle_stop config host media_end translating)
handle_stop-IsEnded_example =
    handle_stop-IsEnded config host media_end translating same_session translating-Timely

-- A stop of another session, and a download that is not found in the catalog.
abbrev foreign_messages : List (Host × Message)
foreign_messages =
    (host, stop_session record { session_id = token; reason = 3 })
    ∷ (host, model_ctrl record { session_id = token; action = 1; model_id = [] })
    ∷ []

dispatch-foreign_example : Spares active (dispatch_all config foreign_messages active)
unfolding IsForeign
dispatch-foreign_example = dispatch-foreign config foreign_messages active (other_session, (tt, tt))
