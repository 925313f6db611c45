-- ===== src/CaptionPresenter/References.antt =====
-- That plugin/src/vw_caption_presenter.c releases every reference to a video output that it takes.
pub mod Count
pub mod Calls
use vlc_whisper.Common.{
  ℕ, ◌+◌, ◌≡◌, refl, ap, sym, ◌∙◌, Bool, true, false, ◌&&◌, ◌||◌, not, Option, none, some, List, [],
  ◌∷◌, ◌++◌, arith, ltb, ◌==◌, if◌then◌else◌, pick, Bool-cases,
}
use vlc_whisper.Common.Int.{ℤ, pos, negsuc, ltb_ℤ, ◌-ℤ◌}
use vlc_whisper.CaptionPresenter.{
  Segment, Presenter, Player, Effect, holds, releases, flushes, puts, shows_osd, is_channel,
  is_held, let_go, render_spu, register_model_progress_channel, show_model_progress,
  min_display_duration_us, model_progress_display_duration_us, model_progress_on,
  clear_model_progress,
}
use vlc_whisper.Protocol.Types.{Pointer, is_null}
use vlc_whisper.Protocol.Saturating.{saturating_add_i64}
use vlc_whisper.CaptionPresenter.Show.{
  lead_us, render_on, render_text, show_text, target_duration, clipped_duration, text_to_render,
  register_channel, render_on_channel, render, dispatch_pending, buffered, show_segment, flush,
  show_paused, blank_on, blank_found, blank_held, blank, clear,
}
use vlc_whisper.CaptionPresenter.References.Count.{
  one, one_of, taken, given, kept, Balanced, taken-append, given-append, IsNeutral, taken-let_go,
  given-let_go, render_spu-IsNeutral, swapped,
}
use vlc_whisper.CaptionPresenter.References.Calls.{
  show_text-Balanced, flush-Balanced, show_paused-Balanced, show_model_progress-Balanced,
  clear_model_progress-Balanced, blank-Balanced,
}
use vlc_whisper.CaptionPresenter.References.Calls.Render.{after}

-- The calls of the module.
pub data Call : Type 0 where
  shows_progress : List ℕ → Call
  clears_progress : Call
  shows_segment : Segment → ℤ → Bool → Call
  flushes_pending : ℤ → Bool → Call
  shows_paused : Segment → Call
  blanks : Call

unfoldable pub perform : Player → Presenter → Call → Presenter × List Effect
unfolding show_model_progress clear_model_progress show_segment flush show_paused blank
perform player p (shows_progress text) = after (show_model_progress player p text)
perform player p clears_progress = clear_model_progress p
perform player p (shows_segment segment time media) =
    after (show_segment player p segment time media)
perform player p (flushes_pending time media) = after (flush player p time media)
perform player p (shows_paused segment) = after (show_paused player p segment)
perform player p blanks = blank player p

-- The effects of a sequence of calls, each with its own answers of the player, and of the
-- vw_caption_presenter_clear at the end.
unfoldable pub life : Presenter → List (Player × Call) → Player → List Effect
unfolding perform clear
life p [] last = (clear last p).1
life p ((player, call) ∷ calls) last =
    let (p', es) = perform player p call in es ++ life p' calls last

perform-Balanced :
    (player : Player) (p : Presenter) (call : Call) → Balanced p (perform player p call)
unfolding perform
perform-Balanced player p (shows_progress text) = show_model_progress-Balanced player p text
perform-Balanced player p clears_progress = clear_model_progress-Balanced p
perform-Balanced player p (shows_segment segment time media) =
    unfold show_segment in show_text-Balanced player p segment time media segment.text_utf8
perform-Balanced player p (flushes_pending time media) = flush-Balanced player p time media
perform-Balanced player p (shows_paused segment) = show_paused-Balanced player p segment
perform-Balanced player p blanks = blank-Balanced player p

progress_cleared :
    (player : Player) (p : Presenter) (v : ℕ)
    → one_of v (blank player (clear_model_progress p).0).0.model_progress_held_vout ≡ 0
unfolding clear_model_progress blank
progress_cleared player p v = refl

-- The effects of the three parts of vw_caption_presenter_clear.
clear_parts : Player → Presenter → List Effect
clear_parts player p =
    let (p', progress) = clear_model_progress p in
    let (p'', blanked) = blank player p' in
    progress ++ (blanked ++ let_go p''.held_vout false (pos 0))

clear_effects : (player : Player) (p : Presenter) → (clear player p).1 ≡ clear_parts player p
unfolding clear clear_parts
clear_effects player p = refl

clear_releases :
    (player : Player) (p : Presenter) (v : ℕ)
    → kept v p + taken v (clear player p).1 ≡ given v (clear player p).1
unfolding clear_parts Balanced
clear_releases player p v =
    let (p', progress) = clear_model_progress p in
    let (p'', blanked) = blank player p' in
    let rest = let_go p''.held_vout false (pos 0) in
    let no_progress : one_of v p''.model_progress_held_vout ≡ 0 = progress_cleared player p v in
    omega (
      arith,
      ap (taken v) (clear_effects player p),
      ap (given v) (clear_effects player p),
      clear_model_progress-Balanced p v,
      blank-Balanced player p' v,
      no_progress,
      taken-append v progress (blanked ++ rest),
      given-append v progress (blanked ++ rest),
      taken-append v blanked rest,
      given-append v blanked rest,
      taken-let_go v p''.held_vout false (pos 0),
      given-let_go v p''.held_vout false (pos 0),
    )

life_balance :
    (p : Presenter) (calls : List (Player × Call)) (last : Player) (v : ℕ)
    → kept v p + taken v (life p calls last) ≡ given v (life p calls last)
unfolding life Balanced
life_balance p [] last v = clear_releases last p v
life_balance p ((player, call) ∷ calls) last v =
    let (p', es) = perform player p call in
    omega (
      arith,
      perform-Balanced player p call v,
      life_balance p' calls last v,
      taken-append v es (life p' calls last),
      given-append v es (life p' calls last),
    )

-- In any sequence of calls that ends with vw_caption_presenter_clear, each video output is held
-- exactly as often as it is released, when the presenter holds none at first: whichever outputs are
-- found, channels registered and subpictures allocated.
pub life-released :
    (p : Presenter) (calls : List (Player × Call)) (last : Player) (vout : ℕ)
    → p.held_vout ≡ none
    → p.model_progress_held_vout ≡ none
    → taken vout (life p calls last) ≡ given vout (life p calls last)
life-released p calls last vout no_caption no_progress = omega (
  arith,
  life_balance p calls last vout,
  ap (one_of vout) no_caption,
  ap (one_of vout) no_progress,
)
