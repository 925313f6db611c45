-- ===== src/CaptionPresenter/References/Calls.antt =====
-- That each call of plugin/src/vw_caption_presenter.c keeps the references balanced.
pub mod Render
use vlc_whisper.Common.{
  ℕ, ◌+◌, ◌≡◌, refl, ap, sym, ◌∙◌, Bool, true, false, ◌&&◌, ◌||◌, not, Option, none, some, List, [],
  ◌∷◌, ◌++◌, arith, ltb, ◌==◌, if◌then◌else◌, pick, Bool-cases,
}
use vlc_whisper.Common.Int.{ℤ, pos, negsuc, ltb_ℤ, ◌-ℤ◌}
use vlc_whisper.CaptionPresenter.{
  Segment, Presenter, Player, Effect, holds, releases, flushes, puts, shows_osd, is_channel,
  is_held, let_go, render_spu, register_model_progress_channel, show_model_progress,
  min_display_duration_us, model_progress_display_duration_us, model_progress_on,
  clear_model_progress,
}
use vlc_whisper.Protocol.Types.{Pointer, is_null}
use vlc_whisper.Protocol.Saturating.{saturating_add_i64}
use vlc_whisper.CaptionPresenter.Show.{
  lead_us, render_on, render_text, show_text, target_duration, clipped_duration, text_to_render,
  register_channel, render_on_channel, render, dispatch_pending, buffered, show_segment, flush,
  show_paused, blank_on, blank_found, blank_held, blank, clear,
}
use vlc_whisper.CaptionPresenter.References.Count.{
  one, one_of, taken, given, kept, Balanced, taken-append, given-append, IsNeutral, taken-let_go,
  given-let_go, render_spu-IsNeutral, swapped,
}
use vlc_whisper.CaptionPresenter.References.Calls.Render.{
  register_channel-Balanced, after, around, nothing-IsNeutral, unmoved, unpended, render-Balanced,
  repended, from_unpended, dispatch_pending-Balanced,
}

pub show_text-Balanced :
    (player : Player) (p : Presenter) (segment : Segment) (time : ℤ) (media : Bool) (text : Pointer)
    → Balanced p (after (show_text player p segment time media text))
unfolding show_text
show_text-Balanced player p segment time media none = unmoved p
show_text-Balanced player p segment time media (some text) =
    let r = dispatch_pending player p segment.start_pts_us time media in
    repended p r (buffered segment text)
      (dispatch_pending-Balanced player p segment.start_pts_us time media)

pub flush-Balanced :
    (player : Player) (p : Presenter) (time : ℤ) (media : Bool)
    → Balanced p (after (flush player p time media))
unfolding flush
flush-Balanced player p time media =
    let raw = p.pending_segment.end_pts_us -ℤ p.pending_segment.start_pts_us in
    let duration = target_duration player.min_media_floor_us raw in
    pick {A = Bool × Presenter × List Effect} (λ r. Balanced p (after r)) p.has_pending
      (λ shown.
        unpended p (render player p p.pending_segment duration time media false)
          (render-Balanced player p p.pending_segment duration time media false))
      (λ none_pending. unmoved p)

pub show_paused-Balanced :
    (player : Player) (p : Presenter) (segment : Segment)
    → Balanced p (after (show_paused player p segment))
unfolding show_paused
show_paused-Balanced player p segment =
    let raw = segment.end_pts_us -ℤ segment.start_pts_us in
    let duration = if ltb_ℤ raw min_display_duration_us then min_display_duration_us else raw in
    pick {A = Bool × Presenter × List Effect} (λ r. Balanced p (after r))
      (is_null segment.text_utf8) (λ empty_cue. unmoved p)
      (λ cue.
        from_unpended p
          (render player (record p { has_pending = false }) segment duration (negsuc 0) false true)
          (render-Balanced player (record p { has_pending = false }) segment duration (negsuc 0)
            false true))

register_model_progress_channel-Balanced :
    (player : Player) (p : Presenter) (vout : ℕ)
    → Balanced p (after (register_model_progress_channel player p vout))
unfolding register_model_progress_channel Balanced
register_model_progress_channel-Balanced player p vout =
    let c = p.model_progress_channel_id in
    let held = p.model_progress_held_vout in
    let t = p.model_progress_channel_registered && is_channel c in
    pick {A = Bool × Presenter × List Effect} (λ r. Balanced p (after r))
      (p.model_progress_channel_registered && is_held held vout) (λ same v. omega arith)
      (λ other.
        pick {A = Bool × Presenter × List Effect} (λ r. Balanced p (after r))
          (not (is_channel player.channel_id))
          (λ bad v. omega (arith, taken-let_go v held t c, given-let_go v held t c))
          (λ good v. omega (arith, swapped v vout held t c)))

model_progress_on-Balanced :
    (player : Player) (p : Presenter) (text : List ℕ) (found : Option ℕ)
    → Balanced p (after (model_progress_on player p text found))
unfolding model_progress_on
model_progress_on-Balanced player p text none = unmoved p
model_progress_on-Balanced player p text (some vout) =
    let (registered, p', effects) = register_model_progress_channel player p vout in
    let stop = saturating_add_i64 player.now_tick model_progress_display_duration_us in
    let shown =
      (render_spu player vout p'.model_progress_channel_id text player.now_tick stop true
        false).1 in
    let balanced = register_model_progress_channel-Balanced player p vout in
    pick {A = Bool × Presenter × List Effect} (λ r. Balanced p (after r)) registered
      (λ done. around p p' vout effects shown balanced (
        render_spu-IsNeutral player vout p'.model_progress_channel_id text player.now_tick stop true
          false))
      (λ failed. around p p' vout effects [] balanced nothing-IsNeutral)

pub show_model_progress-Balanced :
    (player : Player) (p : Presenter) (text : List ℕ)
    → Balanced p (after (show_model_progress player p text))
unfolding show_model_progress
show_model_progress-Balanced player p text =
    pick {A = Bool × Presenter × List Effect} (λ r. Balanced p (after r)) (not p.has_filter_ctx)
      (λ unseen. unmoved p) (λ seen. model_progress_on-Balanced player p text player.vout)

pub clear_model_progress-Balanced : (p : Presenter) → Balanced p (clear_model_progress p)
unfolding clear_model_progress Balanced
clear_model_progress-Balanced p v =
    let c = p.model_progress_channel_id in
    let held = p.model_progress_held_vout in
    let t = p.model_progress_channel_registered && is_channel c in
    omega (arith, taken-let_go v held t c, given-let_go v held t c)

blank_on-IsNeutral : (p : Presenter) (vout : ℕ) → IsNeutral (blank_on p vout)
unfolding blank_on IsNeutral
blank_on-IsNeutral p vout =
    pick IsNeutral (p.spu_channel_registered && is_channel p.spu_channel_id) (λ own v. (refl, refl))
      (λ osd v. (refl, refl))

-- Effects that take and give back alike.
IsLevel : List Effect → Type 0
IsLevel es = (v : ℕ) → taken v es ≡ given v es

blank_found-IsLevel : (p : Presenter) (found : Option ℕ) → IsLevel (blank_found p found)
unfolding blank_found IsLevel IsNeutral
blank_found-IsLevel p none v = refl
blank_found-IsLevel p (some vout) v =
    let (none_taken, none_given) = blank_on-IsNeutral p vout v in
    omega (
      arith,
      none_taken,
      none_given,
      taken-append v (blank_on p vout) (releases vout ∷ []),
      given-append v (blank_on p vout) (releases vout ∷ []),
    )

blank_held-IsLevel :
    (player : Player) (p : Presenter) (held : Option ℕ) → IsLevel (blank_held player p held)
unfolding blank_held
blank_held-IsLevel player p none = blank_found-IsLevel p player.vout
blank_held-IsLevel player p (some held) =
    pick IsLevel (p.spu_channel_registered && is_channel p.spu_channel_id)
      (λ own. unfold IsLevel in λ v. refl) (λ osd. blank_found-IsLevel p player.vout)

pub blank-Balanced : (player : Player) (p : Presenter) → Balanced p (blank player p)
unfolding blank Balanced IsLevel
blank-Balanced player p v =
    pick {A = List Effect} (λ es. kept v p + taken v es ≡ given v es + kept v p)
      (not p.has_filter_ctx) (λ unseen. omega arith)
      (λ seen. omega (arith, blank_held-IsLevel player p p.held_vout v))
