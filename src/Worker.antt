-- ===== src/Worker.antt =====
-- The end of a stream in the worker: vw_worker_flush_audio_tail of worker/src/vw_worker.c, which
-- takes what is left in the ring of audio piece by piece, has it recognised, and pushes the phrases
-- to the builder of captions. The calls of whisper.cpp are fields of `Env`: each turn of the loop has
-- its own answers.
pub mod Run
pub mod Captions
pub mod Listening
pub mod Opening
pub mod Following
pub mod Closing
pub mod MainLoop
pub mod Posts
pub mod Keeps
pub mod OneSession
pub mod Handshake
pub mod Token
pub mod Foreign
pub mod Timely
pub mod Stopping
mod Tail
mod Tests
use vlc_whisper.Common.{
  ℕ, zero, suc, Bool, true, false, ◌&&◌, ◌||◌, not, Option, none, some, List, [], ◌∷◌, ltb, ◌==◌,
  if◌then◌else◌, length, take,
}
use vlc_whisper.Common.Int.{ℤ}
use vlc_whisper.Protocol.Types.{Pointer}
use vlc_whisper.Protocol.Saturating.{saturating_add_i64}
use vlc_whisper.AudioBuffer.{AudioBuffer, get_count, get_samples, drain}
use vlc_whisper.Vad.{Detection, Boundary, chunk_max_samples, find_chunk_boundary}
use vlc_whisper.SegmentBuilder.{Builder}
use vlc_whisper.SegmentBuilder.Push.{Heaps, push_hypothesis}

-- vw_whisper_segment_t, with the answer of vw_whisper_engine_get_segment and that of
-- `no_speech_prob >= 0.60f`.
pub record Phrase : Type 0 where
  pub is_readable : Bool
  pub is_unlikely : Bool
  pub text_utf8 : Pointer
  pub t0_us : ℤ
  pub t1_us : ℤ

-- For each turn of the loop and each window: what the model of speech finds, whether the energy test
-- finds it loud, the phrases that recognition gives or `none` where it fails, and the allocations of
-- each push.
pub record Env : Type 0 where
  pub detects : ℕ → List ℕ → Detection
  pub is_loud : ℕ → List ℕ → Bool
  pub transcribes : ℕ → List ℕ → Option (List Phrase)
  pub heaps : ℕ → ℕ → Heaps

-- The loop over the segments, from the `i`th on.
unfoldable pub push_phrases : Env → ℕ → ℤ → Builder → ℕ → List Phrase → Builder
unfolding push_hypothesis saturating_add_i64
push_phrases env turn window_pts_us builder i [] = builder
push_phrases env turn window_pts_us builder i (p ∷ ps) =
    let start = saturating_add_i64 window_pts_us p.t0_us in
    let end = saturating_add_i64 window_pts_us p.t1_us in
    let (queued, pushed) = push_hypothesis (env.heaps turn i) builder p.text_utf8 start end in
    push_phrases env turn window_pts_us
      (if not p.is_readable || p.is_unlikely then builder else pushed) (suc i) ps

-- A turn of the loop returns, or goes on.
pub data Turn : Type 0 where
  stop : Bool → AudioBuffer → Builder → Turn
  again : AudioBuffer → Builder → Turn

-- From vw_whisper_engine_transcribe_pcm on.
unfoldable pub tail_phrases : Env → ℕ → AudioBuffer → Builder → ℤ → ℕ → Option (List Phrase) → Turn
unfolding push_phrases drain
tail_phrases env turn buf builder window_pts_us cut none = stop false buf builder
tail_phrases env turn buf builder window_pts_us cut (some phrases) =
    again (drain buf cut) (push_phrases env turn window_pts_us builder 0 phrases)

-- From the boundary on.
unfoldable pub tail_boundary : Env → ℕ → AudioBuffer → Builder → List ℕ → ℤ → Boundary → Turn
unfolding tail_phrases drain
tail_boundary env turn buf builder window window_pts_us r =
    if not r.evaluated || (r.cut == 0 && r.silence_drain == 0)
    then stop false buf builder
    else if ltb 0 r.silence_drain
    then again (drain buf r.silence_drain) builder
    else tail_phrases env turn buf builder window_pts_us r.cut
        (env.transcribes turn (take r.cut window))

-- From the window on; `none` is `available == 0`.
unfoldable pub tail_window : Env → ℕ → AudioBuffer → Builder → Option (List ℕ × ℤ) → Turn
unfolding tail_boundary find_chunk_boundary
tail_window env turn buf builder none = stop true buf builder
tail_window env turn buf builder (some (window, window_pts_us)) =
    tail_boundary env turn buf builder window window_pts_us
      (find_chunk_boundary (env.detects turn window) (env.is_loud turn window) (length window) true)

-- One turn, the test of the loop included.
unfoldable pub tail_turn : Env → ℕ → AudioBuffer → Builder → Turn
unfolding tail_window get_count get_samples
tail_turn env turn buf builder =
    if get_count buf == 0
    then stop true buf builder
    else tail_window env turn buf builder (get_samples buf chunk_max_samples)

-- vw_worker_flush_audio_tail, from turn `turn` on; `none` when the fuel does not suffice.
unfoldable pub flush_audio_tail :
    ℕ → Env → ℕ → AudioBuffer → Builder → Option (Bool × AudioBuffer × Builder)
unfolding tail_turn
flush_audio_tail zero env turn buf builder = none
flush_audio_tail (suc fuel) env turn buf builder = elim (tail_turn env turn buf builder) [
  | stop done buf' builder' ↦ some (done, buf', builder')
  | again buf' builder' ↦ flush_audio_tail fuel env (suc turn) buf' builder'
]
