-- ===== src/Worker/Keeps/Audio.antt =====
-- That what the worker reads leaves it in its session: the look-ahead over a source and the end of a
-- stream of worker/src/vw_worker.c.
pub mod Live
use mathlib.Core.Option
use vlc_whisper.Common.{
  ℕ, zero, suc, ◌+◌, ◌*◌, ◌/◌, Bool, true, false, ◌&&◌, ◌||◌, not, Option, none, some, List, [],
  ◌∷◌, ltb, leb, ◌==◌, if◌then◌else◌, pick, length, take,
}
use vlc_whisper.Common.Int.{ℤ, pos, ◌+ℤ◌, ltb_ℤ, leb_ℤ}
use vlc_whisper.Protocol.Types.{Audio}
use vlc_whisper.AudioBuffer.{AudioBuffer, get_count, get_samples, append_s16le, drain}
use vlc_whisper.SegmentBuilder.{Builder}
use vlc_whisper.Vad.{chunk_min_samples, chunk_max_samples, Boundary, find_chunk_boundary}
use vlc_whisper.Worker.{Phrase, push_phrases, flush_audio_tail}
use vlc_whisper.Worker.Run.{fail, or_fail, send_error, report}
use vlc_whisper.Worker.Run.State.{
  Run, Host, Config, SourceRead, read_ok, read_again, read_eof, read_error, same_bytes,
  window_samples, i64_value,
}
use vlc_whisper.Worker.Listening.{
  flushed_to, flush_tail, read_phrases, read_chunk, read_window, read_chunks, read_source,
}
use vlc_whisper.Worker.Listening.Live.{
  live_hop_samples, local_fallback_hop_samples, pcm16, inference_failed, hear_phrases,
  advance_window, hear_window, hear_live, handle_audio,
}
use vlc_whisper.Worker.Keeps.{
  Keeps, Keeps-same, Keeps-then, fail-Keeps, or_fail-Keeps, send_error-Keeps, send_error-or_fail,
  report-Keeps, restart_window-Keeps, invalidate_translator-Keeps,
}
use vlc_whisper.Worker.Keeps.Audio.Live.{inference_failed-Keeps, handle_audio-Keeps}

flushed_to-Keeps :
    (s : List ℕ) (w : Run) (o : Option (Bool × AudioBuffer × Builder))
    → Keeps s w (flushed_to w o).1
unfolding flushed_to Keeps
flushed_to-Keeps s w none = Keeps-same s w
flushed_to-Keeps s w (some (flushed, a, b)) = Keeps-same s w

pub flush_tail-Keeps :
    (s : List ℕ) (config : Config) (host : Host) (w : Run) → Keeps s w (flush_tail config host w).1
unfolding flush_tail
flush_tail-Keeps s config host w =
    pick {A = Bool × Run} (λ r. Keeps s w r.1) (not config.has_engine) (λ without. Keeps-same s w)
      (λ engine.
        flushed_to-Keeps s w
          (flush_audio_tail (suc (get_count w.audio_buf)) host.tail 0 w.audio_buf w.builder))

read_phrases-Keeps :
    (s : List ℕ) (config : Config) (host : Host) (i cut : ℕ) (pts : ℤ) (w : Run)
    (o : Option (List Phrase))
    → Keeps s w (read_phrases config host i cut pts w o).1
unfolding read_phrases Keeps
read_phrases-Keeps s config host i cut pts w none = inference_failed-Keeps s host w
read_phrases-Keeps s config host i cut pts w (some phrases) =
    let pushed = record w { builder = push_phrases host.tail i pts w.builder 0 phrases } in
    pick {A = Bool × Run} (λ r. Keeps s w r.1) (not config.has_engine)
      (λ without. inference_failed-Keeps s host w)
      (λ engine.
        pick {A = Bool × Run} (λ r. Keeps s w r.1) (not w.running) (λ stopped. Keeps-same s w)
          (λ runs. report-Keeps s config host record pushed { audio_buf = drain w.audio_buf cut }))

read_chunk-Keeps :
    (s : List ℕ) (config : Config) (host : Host) (i : ℕ) (window : List ℕ) (pts : ℤ) (r : Boundary)
    (w : Run)
    → Keeps s w (read_chunk config host i window pts r w).1
unfolding read_chunk Keeps
read_chunk-Keeps s config host i window pts r w =
    pick {A = Bool × Run} (λ r. Keeps s w r.1) (not r.evaluated) (λ unknown. Keeps-same s w)
      (λ known.
        pick {A = Bool × Run} (λ r. Keeps s w r.1) (ltb 0 r.silence_drain)
          (λ silence. Keeps-same s w)
          (λ speech.
            pick {A = Bool × Run} (λ r. Keeps s w r.1) (ltb 0 r.cut)
              (λ cut.
                read_phrases-Keeps s config host i r.cut pts w
                  (host.tail.transcribes i (take r.cut window)))
              (λ nothing. Keeps-same s w)))

read_window-Keeps :
    (s : List ℕ) (config : Config) (host : Host) (i : ℕ) (w : Run) (o : Option (List ℕ × ℤ))
    → Keeps s w (read_window config host i w o).1
unfolding read_window
read_window-Keeps s config host i w none = Keeps-same s w
read_window-Keeps s config host i w (some (window, pts)) =
    read_chunk-Keeps s config host i window pts
      (find_chunk_boundary (host.tail.detects i window) (host.tail.is_loud i window) (length window)
        w.source_eof)
      w

read_chunks-Keeps :
    (s : List ℕ) (fuel : ℕ) (config : Config) (host : Host) (i : ℕ) (w : Run)
    → Keeps s w (read_chunks fuel config host i w)
unfolding read_chunks
read_chunks-Keeps s zero config host i w = Keeps-same s w
read_chunks-Keeps s (suc fuel) config host i w =
    let count = get_count w.audio_buf in
    let done = read_window config host i w (get_samples w.audio_buf chunk_max_samples) in
    let first = read_window-Keeps s config host i w (get_samples w.audio_buf chunk_max_samples) in
    pick (λ x. Keeps s w x) (not (leb chunk_min_samples count || (w.source_eof && ltb 0 count)))
      (λ few. Keeps-same s w)
      (λ enough.
        pick (λ x. Keeps s w x) done.0
          (λ again.
            Keeps-then s w done.1 _ first (read_chunks-Keeps s fuel config host (suc i) done.1))
          (λ stops. first))

pub read_source-Keeps :
    (s : List ℕ) (config : Config) (host : Host) (r : SourceRead) (w : Run)
    → Keeps s w (read_source config host r w).1
unfolding read_source Keeps
read_source-Keeps s config host (read_ok samples pts) w =
    let actual = if leb_ℤ (pos 0) pts then pts else w.decoded_pts_us in
    let filled = record w {
      audio_buf = (append_s16le w.audio_buf samples actual).1;
      decoded_pts_us = actual +ℤ pos (length samples * 1000000 / 16000);
    } in
    pick (λ x. Keeps s w x) (ltb 0 (length samples))
      (λ some_samples. read_chunks-Keeps s (suc (get_count filled.audio_buf)) config host 0 filled)
      (λ no_samples. Keeps-same s w)
read_source-Keeps s config host read_again w = Keeps-same s w
read_source-Keeps s config host read_eof w =
    let flushed = flush_tail config host record w { source_eof = true } in
    let first : Keeps s w flushed.1 =
      flush_tail-Keeps s config host record w { source_eof = true } in
    let told = (send_error w.session_id 9 0 "Source tail inference failed" host flushed.1).1 in
    pick {A = Bool × Run} (λ r. Keeps s w r.1) flushed.0
      (λ done.
        Keeps-then s w flushed.1 (report config host flushed.1) first
          (report-Keeps s config host flushed.1))
      (λ failed.
        Keeps-then s w flushed.1 told first
          (send_error-Keeps s w.session_id 9 0 "Source tail inference failed" host flushed.1))
read_source-Keeps s config host read_error w =
    send_error-or_fail s w.session_id 9 0 "Source decoder read failed" host w
