-- ===== src/Worker/Listening.antt =====
-- The look-ahead over a source and the end of a stream in vw_worker_run of worker/src/vw_worker.c. A
-- chunk that is handled takes at least one sample out of the ring, so the fuel of the loop, one turn
-- more than the samples, is enough.
pub mod Live
use mathlib.Core.Option
use vlc_whisper.Common.{
  ℕ, zero, suc, ◌+◌, ◌*◌, ◌/◌, Bool, true, false, ◌&&◌, ◌||◌, not, Option, none, some, List, [],
  ◌∷◌, ltb, leb, if◌then◌else◌, length, take, map,
}
use vlc_whisper.Common.Int.{ℤ, pos, ◌+ℤ◌, ◌-ℤ◌, ltb_ℤ, leb_ℤ}
use vlc_whisper.Protocol.Types.{Audio}
use vlc_whisper.Protocol.Saturating.{saturating_add_i64}
use vlc_whisper.AudioBuffer
use vlc_whisper.SegmentBuilder.{Builder}
use vlc_whisper.AudioBuffer.{AudioBuffer, get_count, get_samples, append_s16le, drain}
use vlc_whisper.SegmentBuilder
use vlc_whisper.Vad.{chunk_min_samples, chunk_max_samples, Boundary, find_chunk_boundary}
use vlc_whisper.Worker.{Phrase, push_phrases, flush_audio_tail}
use vlc_whisper.Worker.Run.{
  fail, or_fail, send_error, report, restart_window, invalidate_translator,
}
use vlc_whisper.Worker.Run.State.{
  Run, Host, Config, SourceRead, read_ok, read_again, read_eof, read_error, same_bytes, i64_value,
  window_samples,
}
use vlc_whisper.Worker.Listening.Live.{
  live_hop_samples, local_fallback_hop_samples, live_edge_holdback_us, pcm16, hold_back,
  inference_failed, hear_phrases, advance_window, hear_window, hear_live, handle_audio,
}

-- vw_worker_flush_audio_tail, with its test of the engine.
unfoldable pub flushed_to : Run → Option (Bool × AudioBuffer × Builder) → Bool × Run
flushed_to w none = (false, w)
flushed_to w (some (flushed, audio_buf, builder)) =
    (flushed, record w { audio_buf = audio_buf; builder = builder })

unfoldable pub flush_tail : Config → Host → Run → Bool × Run
unfolding flush_audio_tail get_count flushed_to
flush_tail config host w =
    if not config.has_engine
    then (false, w)
    else flushed_to w
        (flush_audio_tail (suc (get_count w.audio_buf)) host.tail 0 w.audio_buf w.builder)

-- A chunk of speech of the source, up to `cut`.
unfoldable pub read_phrases : Config → Host → ℕ → ℕ → ℤ → Run → Option (List Phrase) → Bool × Run
unfolding inference_failed push_phrases report drain
read_phrases config host i cut pts w none = (false, inference_failed host w)
read_phrases config host i cut pts w (some phrases) =
    let pushed = record w { builder = push_phrases host.tail i pts w.builder 0 phrases } in
    if not config.has_engine
    then (false, inference_failed host w)
    else if not w.running
    then (false, pushed)
    else (true, report config host record pushed { audio_buf = drain w.audio_buf cut })

-- From the boundary on: whether the loop over the chunks goes on, and the state.
unfoldable pub read_chunk : Config → Host → ℕ → List ℕ → ℤ → Boundary → Run → Bool × Run
unfolding read_phrases drain
read_chunk config host i window pts r w =
    if not r.evaluated
    then (false, w)
    else if ltb 0 r.silence_drain
    then (true, record w { audio_buf = drain w.audio_buf r.silence_drain })
    else if ltb 0 r.cut
    then read_phrases config host i r.cut pts w (host.tail.transcribes i (take r.cut window))
    else (false, w)

-- From the window on; `none` is `avail == 0`.
unfoldable pub read_window : Config → Host → ℕ → Run → Option (List ℕ × ℤ) → Bool × Run
unfolding read_chunk find_chunk_boundary
read_window config host i w none = (false, w)
read_window config host i w (some (window, pts)) =
    read_chunk config host i window pts
      (find_chunk_boundary (host.tail.detects i window) (host.tail.is_loud i window) (length window)
        w.source_eof)
      w

-- The loop over the chunks.
unfoldable pub read_chunks : ℕ → Config → Host → ℕ → Run → Run
unfolding read_window get_count get_samples
read_chunks zero config host i w = w
read_chunks (suc fuel) config host i w =
    let count = get_count w.audio_buf in
    let done = read_window config host i w (get_samples w.audio_buf chunk_max_samples) in
    let rest = read_chunks fuel config host (suc i) done.1 in
    if not (leb chunk_min_samples count || (w.source_eof && ltb 0 count))
    then w
    else if done.0
    then rest
    else done.1

-- What the worker does with what it reads of the source: whether it leaves its main loop at once, and
-- the state.
unfoldable pub read_source : Config → Host → SourceRead → Run → Bool × Run
unfolding append_s16le read_chunks get_count flush_tail send_error report invalidate_translator
read_source config host (read_ok samples chunk_pts) w =
    let actual = if leb_ℤ (pos 0) chunk_pts then chunk_pts else w.decoded_pts_us in
    let filled = record w {
      audio_buf = (append_s16le w.audio_buf samples actual).1;
      decoded_pts_us = actual +ℤ pos (length samples * 1000000 / 16000);
    } in
    (
      false,
      if ltb 0 (length samples)
          then read_chunks (suc (get_count filled.audio_buf)) config host 0 filled
          else w,
    )
read_source config host read_again w = (false, w)
read_source config host read_eof w =
    let flushed = flush_tail config host record w { source_eof = true } in
    if flushed.0
    then (false, report config host flushed.1)
    else (true, fail (send_error w.session_id 9 0 "Source tail inference failed" host flushed.1).1)
read_source config host read_error w =
    let told = or_fail (send_error w.session_id 9 0 "Source decoder read failed" host w) in
    (
      false,
      invalidate_translator record told {
        session_active = false;
        source_eof = true;
        source_decoder = false;
        source_mode = false;
        audio_buf = AudioBuffer.clear told.audio_buf;
        builder = SegmentBuilder.clear told.builder;
      },
    )

-- Whether the worker reads on: the source is open, and less than 30 s ahead of the player.
unfoldable pub wants_source : Run → Bool
unfolding saturating_add_i64
wants_source w =
    w.session_active
    && w.source_mode
    && w.source_decoder
    && not w.paused
    && not w.source_eof
    && ltb_ℤ w.decoded_pts_us (saturating_add_i64 w.current_playback_pts_us (pos 30000000))
