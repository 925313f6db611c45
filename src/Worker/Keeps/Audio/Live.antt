-- ===== src/Worker/Keeps/Audio/Live.antt =====
-- That what the worker hears leaves it in its session: the handler of VW_MSG_AUDIO_PCM of
-- worker/src/vw_worker.c.
use mathlib.Core.Option
use vlc_whisper.Common.{
  ℕ, zero, suc, ◌+◌, Bool, false, ◌&&◌, ◌||◌, not, Option, none, some, List, [], ltb, if◌then◌else◌,
  pick, length, take,
}
use vlc_whisper.Common.Int.{ℤ, pos, ltb_ℤ}
use vlc_whisper.Protocol.Types.{Audio}
use vlc_whisper.AudioBuffer.{get_count, get_samples, append_s16le, drain}
use vlc_whisper.Worker.{Phrase}
use vlc_whisper.Worker.Run.{send_error}
use vlc_whisper.Worker.Run.State.{Run, Host, Config, same_bytes, window_samples, i64_value}
use vlc_whisper.Worker.Listening.Live.{
  live_hop_samples, local_fallback_hop_samples, pcm16, inference_failed, hear_phrases,
  advance_window, hear_window, hear_live, handle_audio,
}
use vlc_whisper.Worker.Keeps.{
  Keeps, Keeps-same, Keeps-then, fail-Keeps, send_error-Keeps, report-Keeps, restart_window-Keeps,
}

pub inference_failed-Keeps :
    (s : List ℕ) (host : Host) (w : Run) → Keeps s w (inference_failed host w)
unfolding inference_failed
inference_failed-Keeps s host w =
    let told = (send_error w.session_id 9 0 "Whisper inference failed" host w).1 in
    fail-Keeps s w told (send_error-Keeps s w.session_id 9 0 "Whisper inference failed" host w)

hear_phrases-Keeps :
    (s : List ℕ) (host : Host) (i : ℕ) (growing : Bool) (read_cnt : ℕ) (pts : ℤ) (w : Run)
    (o : Option (List Phrase))
    → Keeps s w (hear_phrases host i growing read_cnt pts w o).1
unfolding hear_phrases Keeps
hear_phrases-Keeps s host i growing read_cnt pts w none = inference_failed-Keeps s host w
hear_phrases-Keeps s host i growing read_cnt pts w (some phrases) = Keeps-same s w

advance_window-Keeps :
    (s : List ℕ) (config : Config) (host : Host) (read_cnt : ℕ) (w : Run)
    → Keeps s w (advance_window config host read_cnt w).1
unfolding advance_window Keeps
advance_window-Keeps s config host read_cnt w =
    let next_target = read_cnt + live_hop_samples in
    let next = record w {
      live_next_inference_samples =
          if ltb next_target window_samples then next_target else window_samples;
    } in
    let drained = record w {
      live_next_inference_samples = window_samples;
      audio_buf =
          drain w.audio_buf
            (if w.live_progressive_mode then live_hop_samples else local_fallback_hop_samples);
    } in
    pick {A = Bool × Run} (λ r. Keeps s w r.1)
      (w.live_progressive_mode && ltb read_cnt window_samples)
      (λ growing.
        pick (λ x. Keeps s w x) next.running (λ runs. report-Keeps s config host next)
          (λ stopped. Keeps-same s w))
      (λ full.
        pick {A = Bool × Run} (λ r. Keeps s w r.1) (not w.running) (λ stopped. Keeps-same s w)
          (λ runs. report-Keeps s config host drained))

hear_window-Keeps :
    (s : List ℕ) (config : Config) (host : Host) (i : ℕ) (window : List ℕ) (pts : ℤ) (w : Run)
    → Keeps s w (hear_window config host i window pts w).1
unfolding hear_window
hear_window-Keeps s config host i window pts w =
    let growing = w.live_progressive_mode && ltb (length window) window_samples in
    let heard =
      if ltb 0 (length window) && config.has_engine && host.detects_speech i window
      then hear_phrases host i growing (length window) pts w (host.tail.transcribes i window)
      else (false, w) in
    let first : Keeps s w heard.1 =
      pick {A = Bool × Run} (λ r. Keeps s w r.1)
        (ltb 0 (length window) && config.has_engine && host.detects_speech i window)
        (λ speech.
          hear_phrases-Keeps s host i growing (length window) pts w
            (host.tail.transcribes i window))
        (λ silence. Keeps-same s w) in
    pick {A = Bool × Run} (λ r. Keeps s w r.1) heard.0 (λ failed. first)
      (λ went.
        Keeps-then s w heard.1 _ first (advance_window-Keeps s config host (length window) heard.1))

hear_live-Keeps :
    (s : List ℕ) (fuel : ℕ) (config : Config) (host : Host) (i : ℕ) (w : Run)
    → Keeps s w (hear_live fuel config host i w)
unfolding hear_live
hear_live-Keeps s zero config host i w = Keeps-same s w
hear_live-Keeps s (suc fuel) config host i w =
    let count = get_count w.audio_buf in
    let requested = if ltb count window_samples then count else window_samples in
    let read = Option.get_or (get_samples w.audio_buf requested) ([], pos 0) in
    let heard = hear_window config host i read.0 read.1 w in
    let first = hear_window-Keeps s config host i read.0 read.1 w in
    pick (λ x. Keeps s w x) (ltb count w.live_next_inference_samples) (λ few. Keeps-same s w)
      (λ enough.
        pick (λ x. Keeps s w x) heard.0
          (λ again.
            Keeps-then s w heard.1 _ first (hear_live-Keeps s fuel config host (suc i) heard.1))
          (λ stops. first))

pub handle_audio-Keeps :
    (s : List ℕ) (config : Config) (host : Host) (a : Audio) (w : Run)
    → Keeps s w (handle_audio config host a w)
unfolding handle_audio Keeps
handle_audio-Keeps s config host a w =
    let samples = pcm16 (take a.pcm_bytes (Option.get_or a.pcm_data [])) in
    let pts = i64_value a.start_pts_us in
    let filled = record w { audio_buf = (append_s16le w.audio_buf samples pts).1 } in
    pick (λ x. Keeps s w x)
      (not w.session_active
        || w.paused
        || w.source_mode
        || not (same_bytes a.session_id w.session_id))
      (λ ignored. Keeps-same s w)
      (λ taken.
        pick (λ x. Keeps s w x) (ltb_ℤ pts (pos 0) || ltb_ℤ (pos 315360000000000) pts)
          (λ bad. restart_window-Keeps s w w (Keeps-same s w))
          (λ good.
            pick (λ x. Keeps s w x) (ltb 0 (length samples))
              (λ some_samples.
                hear_live-Keeps s (suc (get_count filled.audio_buf)) config host 0 filled)
              (λ no_samples. Keeps-same s w)))
