-- ===== src/Worker/Listening/Live.antt =====
-- The handler of VW_MSG_AUDIO_PCM in vw_worker_run of worker/src/vw_worker.c. A window that is
-- handled in full takes at least one sample out of the ring, so the fuel of the loop, one turn more
-- than the samples, is enough.
use mathlib.Core.Option
use vlc_whisper.Common.{
  ℕ, zero, suc, ◌+◌, ◌*◌, ◌/◌, Bool, true, false, ◌&&◌, ◌||◌, not, Option, none, some, List, [],
  ◌∷◌, ltb, if◌then◌else◌, length, take, map,
}
use vlc_whisper.Common.Int.{ℤ, pos, ◌-ℤ◌, ltb_ℤ}
use vlc_whisper.Protocol.Types.{Audio}
use vlc_whisper.AudioBuffer.{get_count, get_samples, append_s16le, drain}
use vlc_whisper.Worker.{Phrase, push_phrases}
use vlc_whisper.Worker.Run.{fail, send_error, report, restart_window}
use vlc_whisper.Worker.Run.State.{Run, Host, Config, same_bytes, i64_value, window_samples}

abbrev pub live_hop_samples : ℕ
live_hop_samples = 16000

abbrev pub local_fallback_hop_samples : ℕ
local_fallback_hop_samples = 32000

abbrev pub live_edge_holdback_us : ℤ
live_edge_holdback_us = pos 500000

-- (const int16_t*)pcm_data; a byte that is left over is dropped.
unfoldable pub pcm16 : List ℕ → List ℕ
pcm16 [] = []
pcm16 (lo ∷ []) = []
pcm16 (lo ∷ hi ∷ rest) = (lo + 256 * hi) ∷ pcm16 rest

-- A phrase at the end of a growing window is passed over like an unlikely one.
unfoldable pub hold_back : Bool → ℤ → Phrase → Phrase
hold_back growing duration p = record p {
  is_unlikely = p.is_unlikely || (growing && ltb_ℤ (duration -ℤ live_edge_holdback_us) p.t1_us);
}

-- The error and the stop after a call of recognition that fails.
unfoldable pub inference_failed : Host → Run → Run
unfolding send_error
inference_failed host w = fail (send_error w.session_id 9 0 "Whisper inference failed" host w).1

-- The recognition of a window of live audio, in turn `i` of the loop: whether it fails, and the state.
unfoldable pub hear_phrases : Host → ℕ → Bool → ℕ → ℤ → Run → Option (List Phrase) → Bool × Run
unfolding inference_failed hold_back push_phrases
hear_phrases host i growing read_cnt pts w none = (true, inference_failed host w)
hear_phrases host i growing read_cnt pts w (some phrases) =
    let duration = pos (read_cnt * 1000000 / 16000) in
    (
      false,
      record w {
        builder =
            push_phrases host.tail i pts w.builder 0 (map (hold_back growing duration) phrases);
      },
    )

-- The end of a turn of the loop: whether the loop goes on, and the state.
unfoldable pub advance_window : Config → Host → ℕ → Run → Bool × Run
unfolding report drain
advance_window config host read_cnt w =
    if w.live_progressive_mode && ltb read_cnt window_samples
    then (let next_target = read_cnt + live_hop_samples in
        let next = record w {
          live_next_inference_samples =
              if ltb next_target window_samples then next_target else window_samples;
        } in
        (false, if next.running then report config host next else next))
    else if not w.running
    then (false, w)
    else (
      true,
      report config host record w {
        live_next_inference_samples = window_samples;
        audio_buf =
            drain w.audio_buf
              (if w.live_progressive_mode then live_hop_samples else local_fallback_hop_samples);
      },
    )

-- From the window on, of `read_cnt` samples from `pts` on.
unfoldable pub hear_window : Config → Host → ℕ → List ℕ → ℤ → Run → Bool × Run
unfolding hear_phrases advance_window
hear_window config host i window pts w =
    let read_cnt = length window in
    let growing = w.live_progressive_mode && ltb read_cnt window_samples in
    let heard =
      if ltb 0 read_cnt && config.has_engine && host.detects_speech i window
      then hear_phrases host i growing read_cnt pts w (host.tail.transcribes i window)
      else (false, w) in
    if heard.0 then (false, heard.1) else advance_window config host read_cnt heard.1

-- The loop over the windows.
unfoldable pub hear_live : ℕ → Config → Host → ℕ → Run → Run
unfolding hear_window get_count get_samples
hear_live zero config host i w = w
hear_live (suc fuel) config host i w =
    let count = get_count w.audio_buf in
    let requested = if ltb count window_samples then count else window_samples in
    let read = Option.get_or (get_samples w.audio_buf requested) ([], pos 0) in
    let heard = hear_window config host i read.0 read.1 w in
    let rest = hear_live fuel config host (suc i) heard.1 in
    if ltb count w.live_next_inference_samples then w else if heard.0 then rest else heard.1

-- VW_MSG_AUDIO_PCM
unfoldable pub handle_audio : Config → Host → Audio → Run → Run
unfolding same_bytes pcm16 restart_window append_s16le hear_live
handle_audio config host a w =
    let samples = pcm16 (take a.pcm_bytes (Option.get_or a.pcm_data [])) in
    let pts = i64_value a.start_pts_us in
    let filled = record w { audio_buf = (append_s16le w.audio_buf samples pts).1 } in
    if not w.session_active
      || w.paused
      || w.source_mode
      || not (same_bytes a.session_id w.session_id)
    then w
    else if ltb_ℤ pts (pos 0) || ltb_ℤ (pos 315360000000000) pts
    then restart_window w
    else if ltb 0 (length samples)
    then hear_live (suc (get_count filled.audio_buf)) config host 0 filled
    else w
