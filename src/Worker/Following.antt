-- ===== src/Worker/Following.antt =====
-- How the worker follows the player: VW_MSG_POSITION, VW_MSG_PAUSE and VW_MSG_RESUME in vw_worker_run
-- of worker/src/vw_worker.c.
use vlc_whisper.Common.{ℕ, Bool, true, false, ◌&&◌, ◌||◌, not, ltb, if◌then◌else◌}
use Prim.Native.Nat.{bit_and}
use vlc_whisper.Common.Int.{ℤ, pos, ltb_ℤ, leb_ℤ}
use vlc_whisper.Protocol.Types.{Position, Control}
use vlc_whisper.Protocol.Saturating.{saturating_add_i64, saturating_sub_i64}
use vlc_whisper.Worker.Run.{fail, send_status, report, restart_window, invalidate_translator}
use vlc_whisper.Worker.Run.State.{Run, Host, Config, same_bytes, i64_value}

-- The position of the player becomes that of the source, after a seek.
abbrev pub anchor_at : ℤ → Run → Run
anchor_at pts w = record w {
  current_playback_pts_us = pts;
  decoded_pts_us = pts;
  last_playback_pts_us = pts;
  source_eof = false;
}

-- `if (is_pos_paused != paused)`, without the status.
unfoldable pub change_pause : Host → ℤ → Bool → Run → Run
unfolding restart_window
change_pause host requested is_paused w =
    let changed = record w { paused = is_paused } in
    if is_paused
    then restart_window changed
    else if w.source_mode && w.source_decoder && leb_ℤ (pos 0) requested && host.seeks 0
    then restart_window (anchor_at requested changed)
    else changed

abbrev pub is_equal_ℤ : ℤ → ℤ → Bool
is_equal_ℤ a b = leb_ℤ a b && leb_ℤ b a

-- `requires_seek`
unfoldable pub requires_seek : Bool → ℤ → Run → Bool
unfolding saturating_add_i64 saturating_sub_i64
requires_seek seek_flag requested w =
    let backward_jump =
      leb_ℤ (pos 0) w.last_playback_pts_us
      && ltb_ℤ requested (saturating_sub_i64 w.last_playback_pts_us (pos 500000)) in
    let forward_past_decoded =
      ltb_ℤ (saturating_add_i64 w.decoded_pts_us (pos 1000000)) requested in
    seek_flag
    || ((backward_jump || forward_past_decoded)
        && not (is_equal_ℤ requested w.last_playback_pts_us)
        && (not w.seek_failed_pending || seek_flag))

-- The seek.
unfoldable pub seek_source : Host → Bool → ℤ → Run → Run
unfolding invalidate_translator restart_window
seek_source host seek_flag requested w =
    if not (host.seeks 1)
    then record w { seek_failed_pending = not seek_flag }
    else restart_window record (invalidate_translator w) {
      seek_failed_pending = false;
      current_playback_pts_us = requested;
      decoded_pts_us = requested;
      source_eof = false;
    }

-- `if (source_mode && source_decoder)`
unfoldable pub follow_source : Host → Bool → ℤ → Run → Run
unfolding requires_seek seek_source
follow_source host seek_flag requested w =
    let needed = requires_seek seek_flag requested w in
    let sought = if needed then seek_source host seek_flag requested w else w in
    if not needed || is_equal_ℤ sought.current_playback_pts_us requested
    then record sought { current_playback_pts_us = requested; last_playback_pts_us = requested }
    else sought

-- From the status of a changed pause on.
unfoldable pub follow_position : Host → Bool → ℤ → Run → Run
unfolding follow_source
follow_position host seek_flag requested w =
    if w.source_mode && w.source_decoder
    then follow_source host seek_flag requested w
    else record w { current_playback_pts_us = requested }

-- The bits of vw_msg_position_t's flags.
abbrev pub has_flag : ℕ → ℕ → Bool
has_flag flags bit = ltb 0 (bit_and flags bit)

abbrev pub differ : Bool → Bool → Bool
differ true b = not b
differ false b = b

-- VW_MSG_POSITION
unfoldable pub handle_position : Config → Host → Position → Run → Run
unfolding same_bytes change_pause send_status follow_position
handle_position config host p w =
    let requested = i64_value p.current_pts_us in
    let is_paused = has_flag p.flags 2 in
    let seek_flag = has_flag p.flags 1 in
    let changed = change_pause host requested is_paused w in
    let told = send_status config changed.session_active changed.paused host changed in
    if not w.session_active || not (same_bytes p.session_id w.session_id)
    then w
    else if not (differ is_paused w.paused)
    then follow_position host seek_flag requested w
    else if told.0
    then follow_position host seek_flag requested told.1
    else fail told.1

-- VW_MSG_PAUSE
unfoldable pub handle_pause : Config → Host → Control → Run → Run
unfolding same_bytes restart_window invalidate_translator report
handle_pause config host c w =
    if not w.session_active || not (same_bytes c.session_id w.session_id)
    then w
    else report config host (invalidate_translator (restart_window record w { paused = true }))

-- VW_MSG_RESUME
unfoldable pub handle_resume : Config → Host → Control → Run → Run
unfolding same_bytes restart_window invalidate_translator report
handle_resume config host c w =
    let resumed = record w { paused = false } in
    let pts = w.current_playback_pts_us in
    let sought =
      if w.source_mode && w.source_decoder && leb_ℤ (pos 0) pts && host.seeks 0
      then invalidate_translator (restart_window (anchor_at pts resumed))
      else resumed in
    if not w.session_active || not (same_bytes c.session_id w.session_id)
    then w
    else report config host sought
