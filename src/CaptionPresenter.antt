-- ===== src/CaptionPresenter.antt =====
-- The display of captions in the player: plugin/src/vw_caption_presenter.c. What the calls of VLC
-- return in one call of the presenter, the search for the video output and the arithmetic on its float
-- rate included, is a record `Player`; what the calls do is a list of `Effect`s. Differences and sums
-- of times that the code does not saturate are taken to fit 64 bits. The presenter is never NULL.
pub mod Show
pub mod References
pub mod Duration
mod Tests
use vlc_whisper.Common.{
  ℕ, ◌+◌, ◌*◌, ◌-◌, Bool, true, false, ◌&&◌, ◌||◌, not, Option, none, some, List, [], ◌∷◌, ◌++◌,
  ltb, ◌==◌, if◌then◌else◌, take,
}
use vlc_whisper.Common.Int.{ℤ, pos, negsuc, ltb_ℤ, leb_ℤ}
use vlc_whisper.Protocol.Types.{Pointer}
use vlc_whisper.Protocol.Saturating.{saturating_add_i64, saturating_sub_i64}

abbrev pub min_display_duration_us : ℤ
min_display_duration_us = pos 1000000

abbrev pub model_progress_display_duration_us : ℤ
model_progress_display_duration_us = pos 2000000

abbrev pub presenter_max_text_bytes : ℕ
presenter_max_text_bytes = 1025

-- The fields of vw_caption_segment_t that are displayed.
pub record Segment : Type 0 where
  pub start_pts_us : ℤ
  pub end_pts_us : ℤ
  pub text_utf8 : Pointer
  pub text_bytes : ℕ
  pub translated_text_utf8 : Pointer
  pub translated_text_bytes : ℕ

-- vw_caption_presenter_t; a video output is a number, NULL is `none`.
pub record Presenter : Type 0 where
  pub has_filter_ctx : Bool
  pub held_vout : Option ℕ
  pub spu_channel_id : ℤ
  pub spu_channel_registered : Bool
  pub model_progress_held_vout : Option ℕ
  pub model_progress_channel_id : ℤ
  pub model_progress_channel_registered : Bool
  pub has_pending : Bool
  pub pending_segment : Segment

-- The found video output, the channel that it registers, whether the subpicture, its region and its
-- text are allocated, mdate(), the translation mode, `(int64_t)(1000000 * rate)`, and the division by
-- the rate.
pub record Player : Type 0 where
  pub vout : Option ℕ
  pub channel_id : ℤ
  pub subpicture : Bool
  pub region : Bool
  pub text_segment : Bool
  pub now_tick : ℤ
  pub translate_mode : ℤ
  pub min_media_floor_us : ℤ
  pub wall_clock : ℤ → ℤ

pub record Subpicture : Type 0 where
  pub channel : ℤ
  pub text : List ℕ
  pub start_tick : ℤ
  pub stop_tick : ℤ
  pub is_ephemeral : Bool

-- vlc_object_hold, or the search, which holds what it finds; vlc_object_release;
-- vout_FlushSubpictureChannel; vout_PutSubpicture; vout_OSDText.
pub data Effect : Type 0 where
  holds : ℕ → Effect
  releases : ℕ → Effect
  flushes : ℕ → ℤ → Effect
  puts : ℕ → Subpicture → Effect
  shows_osd : ℕ → ℤ → List ℕ → Effect

abbrev pub is_channel : ℤ → Bool
is_channel id = leb_ℤ (pos 0) id

-- `presenter->p_held_vout == (void*)vout`
unfoldable pub is_held : Option ℕ → ℕ → Bool
is_held none vout = false
is_held (some held) vout = held == vout

-- vw_caption_presenter_render_spu
unfoldable pub render_spu : Player → ℕ → ℤ → List ℕ → ℤ → ℤ → Bool → Bool → Bool × List Effect
unfolding saturating_add_i64
render_spu player vout channel text start_tick stop_tick replace_existing persistent =
    let stop =
      if leb_ℤ stop_tick start_tick
      then saturating_add_i64 start_tick min_display_duration_us
      else stop_tick in
    let put = puts vout record {
      channel = channel;
      text = text;
      start_tick = start_tick;
      stop_tick = stop;
      is_ephemeral = persistent;
    } in
    if not (is_channel channel)
    then (false, [])
    else if not player.subpicture || not player.region || not player.text_segment
    then (false, [])
    else (true, if replace_existing then flushes vout channel ∷ put ∷ [] else put ∷ [])

-- What both registrations do with the output that was held: its channel is flushed and it is
-- released.
unfoldable pub let_go : Option ℕ → Bool → ℤ → List Effect
let_go none has_channel channel = []
let_go (some held) has_channel channel =
    if has_channel then flushes held channel ∷ releases held ∷ [] else releases held ∷ []

-- vw_caption_presenter_register_model_progress_channel
unfoldable pub register_model_progress_channel :
    Player → Presenter → ℕ → Bool × Presenter × List Effect
unfolding is_held let_go
register_model_progress_channel player p vout =
    let has_channel =
      p.model_progress_channel_registered && is_channel p.model_progress_channel_id in
    let freed = let_go p.model_progress_held_vout has_channel p.model_progress_channel_id in
    if p.model_progress_channel_registered && is_held p.model_progress_held_vout vout
    then (true, p, [])
    else if not (is_channel player.channel_id)
    then (
      false,
      record p {
        model_progress_held_vout = none;
        model_progress_channel_id = negsuc 0;
        model_progress_channel_registered = false;
      },
      freed,
    )
    else (
      true,
      record p {
        model_progress_held_vout = some vout;
        model_progress_channel_id = player.channel_id;
        model_progress_channel_registered = true;
      },
      freed ++ holds vout ∷ [],
    )

-- From vw_caption_presenter_find_vout on.
unfoldable pub model_progress_on :
    Player → Presenter → List ℕ → Option ℕ → Bool × Presenter × List Effect
unfolding register_model_progress_channel render_spu saturating_add_i64
model_progress_on player p progress_text none = (false, p, [])
model_progress_on player p progress_text (some vout) =
    let (registered, p', effects) = register_model_progress_channel player p vout in
    let stop = saturating_add_i64 player.now_tick model_progress_display_duration_us in
    let (rendered, shown) =
      render_spu player vout p'.model_progress_channel_id progress_text player.now_tick stop true
        false in
    if registered
    then (rendered, p', holds vout ∷ (effects ++ shown) ++ releases vout ∷ [])
    else (false, p', holds vout ∷ (effects ++ []) ++ releases vout ∷ [])

-- vw_caption_presenter_show_model_progress, with the text that snprintf makes of the message.
unfoldable pub show_model_progress : Player → Presenter → List ℕ → Bool × Presenter × List Effect
unfolding model_progress_on
show_model_progress player p progress_text =
    if not p.has_filter_ctx
    then (false, p, [])
    else model_progress_on player p progress_text player.vout

-- vw_caption_presenter_clear_model_progress
unfoldable pub clear_model_progress : Presenter → Presenter × List Effect
unfolding let_go
clear_model_progress p =
    let has_channel =
      p.model_progress_channel_registered && is_channel p.model_progress_channel_id in
    (
      record p {
        model_progress_held_vout = none;
        model_progress_channel_id = negsuc 0;
        model_progress_channel_registered = false;
      },
      let_go p.model_progress_held_vout has_channel p.model_progress_channel_id,
    )
