-- ===== src/CaptionPresenter/Tests.antt =====
-- The theorems on the display of captions at concrete inputs, and runs of the code.
use vlc_whisper.Common.{ℕ, ◌≡◌, refl, true, false, Option, none, some, List, [], ◌∷◌, arith}
use vlc_whisper.Common.Int.{ℤ, pos, negsuc, ◌-ℤ◌}
use vlc_whisper.CaptionPresenter.{Segment, Presenter, Player}
use vlc_whisper.CaptionPresenter.Show.{target_duration, clipped_duration}
use vlc_whisper.CaptionPresenter.References.{
  Call, shows_progress, shows_segment, flushes_pending, life, life-released,
}
use vlc_whisper.CaptionPresenter.References.Count.{taken, given}
use vlc_whisper.CaptionPresenter.Duration.{max_ℤ, until_next, clipped_duration-until_next}

abbrev cue : Segment
cue = record {
  start_pts_us = pos 1000000;
  end_pts_us = pos 4000000;
  text_utf8 = some (b'h' ∷ b'i' ∷ []);
  text_bytes = 2;
  translated_text_utf8 = none;
  translated_text_bytes = 0;
}

abbrev new_presenter : Presenter
new_presenter = record {
  has_filter_ctx = true;
  held_vout = none;
  spu_channel_id = negsuc 0;
  spu_channel_registered = false;
  model_progress_held_vout = none;
  model_progress_channel_id = negsuc 0;
  model_progress_channel_registered = false;
  has_pending = false;
  pending_segment = cue;
}

-- A player with the output `vout`.
abbrev player : ℕ → Player
player vout = record {
  vout = some vout;
  channel_id = pos 7;
  subpicture = true;
  region = true;
  text_segment = true;
  now_tick = pos 5000000;
  translate_mode = pos 1;
  min_media_floor_us = pos 1000000;
  wall_clock = λ t. t;
}

-- The output changes between the calls.
abbrev calls : List (Player × Call)
calls =
    (player 1, shows_progress (b'm' ∷ []))
    ∷ (player 1, shows_segment cue (pos 0) true)
    ∷ (player 2, flushes_pending (pos 0) true)
    ∷ []

life-released_example :
    taken 1 (life new_presenter calls (player 2)) ≡ given 1 (life new_presenter calls (player 2))
life-released_example = life-released new_presenter calls (player 2) 1 refl refl

clipped_duration-until_next_example :
    clipped_duration (pos 1000000) cue (pos 3000000)
    ≡ max_ℤ (pos 1000000) (
        until_next
          (target_duration (pos 1000000) (pos 4000000 -ℤ pos 1000000))
          (pos 3000000 -ℤ pos 1000000))
clipped_duration-until_next_example =
    clipped_duration-until_next (pos 1000000) cue (pos 3000000) (omega arith)

shown_until_next : clipped_duration (pos 1000000) cue (pos 3000000) ≡ pos 2000000
unfolding vlc_whisper.CaptionPresenter.Show.clipped_duration
    vlc_whisper.CaptionPresenter.Show.clipped_end
    vlc_whisper.CaptionPresenter.Show.readable_duration
    vlc_whisper.CaptionPresenter.Show.target_duration vlc_whisper.Common.Int.◌-ℤ◌
    vlc_whisper.Common.Int.◌+ℤ◌
shown_until_next = refl
