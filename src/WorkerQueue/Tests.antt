-- ===== src/WorkerQueue/Tests.antt =====
-- The theorems on the queue of frames at concrete inputs, and runs of the code.
use vlc_whisper.Common.{ℕ, ◌≡◌, ◌%◌, ◌+◌, ◌^◌, refl, true, none, [], ◌∷◌, arith}
use vlc_whisper.WorkerQueue.{
  Frame, WorkerQueue, push, pop, find_slot, replace, shift_left, store, is_audio, is_shutdown,
  frame_audio_duration_us, audio_duration_us,
}
use vlc_whisper.WorkerQueue.Fifo.{total_us}
use vlc_whisper.WorkerQueue.Refine.{IsValid, contents}
use vlc_whisper.WorkerQueue.Policy.{IsCounted, push-IsCounted, poll, pop-poll}
use vlc_whisper.WorkerQueue.Directives.{any, others, push-keeps_shutdown, push-keeps_controls}

abbrev frame : ℕ → Frame
frame type = record { type = type; payload_len = 0; payload = none }

-- A full queue of three: START_SESSION, audio that cannot be decoded, SHUTDOWN.
abbrev three_frames : WorkerQueue
three_frames = record {
  slots = frame 4 ∷ frame 11 ∷ frame 3 ∷ [];
  capacity = 3;
  head = 5;
  tail = 2;
  dropped_audio_us = 0;
  queued_audio_us = 0;
}

three_frames-IsValid : IsValid three_frames
three_frames-IsValid = record {
  storage = refl;
  some_room = omega arith;
  in_order = omega arith;
  fits = omega arith;
  dropped_in = omega arith;
  queued_in = omega arith;
}

three_frames-IsCounted : IsCounted three_frames
unfolding total_us frame_audio_duration_us audio_duration_us
three_frames-IsCounted = refl

-- PAUSE takes the place of the audio, and SHUTDOWN stays.
push_pause : contents (push three_frames (frame 5)).1 ≡ frame 3 ∷ frame 11 ∷ frame 5 ∷ []
unfolding push find_slot is_audio replace shift_left store
push_pause = refl

push-IsCounted_example :
    let (_, q') = push three_frames (frame 5) in
    IsCounted q'
    × ((q'.dropped_audio_us + q'.queued_audio_us) % 2 ^ 64
        ≡ (0 + 0 + frame_audio_duration_us (frame 5)) % 2 ^ 64)
push-IsCounted_example =
    push-IsCounted three_frames (frame 5) three_frames-IsValid three_frames-IsCounted

pop-poll_example :
    let (out, q') = pop three_frames in
    ((out, contents q') ≡ poll (contents three_frames)) × IsValid q' × IsCounted q'
pop-poll_example = pop-poll three_frames three_frames-IsValid three_frames-IsCounted

has_shutdown : any is_shutdown (contents three_frames) ≡ true
unfolding any is_shutdown
has_shutdown = refl

push-keeps_shutdown_example : any is_shutdown (contents (push three_frames (frame 3)).1) ≡ true
push-keeps_shutdown_example =
    push-keeps_shutdown three_frames (frame 3) three_frames-IsValid has_shutdown

audio_frame : is_audio (frame 4) ≡ true
unfolding is_audio
audio_frame = refl

push-keeps_controls_example :
    others is_audio (contents (push three_frames (frame 4)).1)
    ≡ others is_audio (contents three_frames)
push-keeps_controls_example =
    push-keeps_controls three_frames (frame 4) three_frames-IsValid audio_frame
