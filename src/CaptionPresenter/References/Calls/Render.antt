-- ===== src/CaptionPresenter/References/Calls/Render.antt =====
-- That vw_render of plugin/src/vw_caption_presenter.c keeps the references balanced.
use vlc_whisper.Common.{
  ℕ, refl, Bool, true, false, ◌&&◌, ◌||◌, not, Option, none, some, List, [], ◌∷◌, ◌++◌, arith,
  if◌then◌else◌, pick,
}
use vlc_whisper.Common.Int.{ℤ}
use vlc_whisper.CaptionPresenter.{
  Segment, Presenter, Player, Effect, holds, releases, shows_osd, is_channel, is_held,
}
use vlc_whisper.Protocol.Types.{Pointer}
use vlc_whisper.Protocol.Saturating.{saturating_add_i64}
use vlc_whisper.CaptionPresenter.Show.{
  lead_us, render_on, render_text, clipped_duration, text_to_render, register_channel,
  render_on_channel, render, dispatch_pending,
}
use vlc_whisper.CaptionPresenter.References.Count.{
  Balanced, taken-append, given-append, IsNeutral, taken-let_go, given-let_go, render_spu-IsNeutral,
  swapped,
}

pub register_channel-Balanced :
    (player : Player) (p : Presenter) (vout : ℕ) → Balanced p (register_channel player p vout)
unfolding register_channel Balanced
register_channel-Balanced player p vout =
    let c = p.spu_channel_id in
    pick (Balanced p) (p.spu_channel_registered && is_held p.held_vout vout && is_channel c)
      (λ same v. omega arith)
      (λ other.
        pick (Balanced p) (is_channel player.channel_id)
          (λ good v. omega (arith, swapped v vout p.held_vout (is_channel c) c))
          (λ bad v. omega (
            arith,
            taken-let_go v p.held_vout (is_channel c) c,
            given-let_go v p.held_vout (is_channel c) c,
          )))

-- The presenter and the effects of a call.
abbrev pub after : Bool × Presenter × List Effect → Presenter × List Effect
after (done, p, es) = (p, es)

-- Work on an output that was found, between its search and its release.
pub around :
    (p p' : Presenter) (vout : ℕ) (es fs : List Effect)
    → Balanced p (p', es)
    → IsNeutral fs
    → Balanced p (p', holds vout ∷ (es ++ fs) ++ releases vout ∷ [])
unfolding IsNeutral Balanced
around p p' vout es fs balanced neutral v =
    let (none_taken, none_given) = neutral v in
    omega (
      arith,
      balanced v,
      none_taken,
      none_given,
      taken-append v (es ++ fs) (releases vout ∷ []),
      given-append v (es ++ fs) (releases vout ∷ []),
      taken-append v es fs,
      given-append v es fs,
    )

pub nothing-IsNeutral : IsNeutral []
unfolding IsNeutral
nothing-IsNeutral v = (refl, refl)

IsNeutral-append : (es fs : List Effect) → IsNeutral es → IsNeutral fs → IsNeutral (es ++ fs)
unfolding IsNeutral
IsNeutral-append es fs h k v =
    let (a, b) = h v in
    let (c, d) = k v in (omega (arith, taken-append v es fs), omega (arith, given-append v es fs))

render_on_channel-IsNeutral :
    (player : Player) (p : Presenter) (vout : ℕ) (segment : Segment) (text : List ℕ)
    (dur input_time_us : ℤ) (media persistent : Bool)
    → IsNeutral (render_on_channel player p vout segment text dur input_time_us media persistent).1
unfolding render_on_channel IsNeutral
render_on_channel-IsNeutral player p vout segment text dur input_time_us media persistent =
    let start = saturating_add_i64 player.now_tick (lead_us player segment input_time_us media) in
    pick {A = Bool × List Effect} (λ res. IsNeutral res.1)
      (p.spu_channel_registered && is_channel p.spu_channel_id)
      (λ registered.
        render_spu-IsNeutral player vout p.spu_channel_id text start (saturating_add_i64 start dur)
          (not media || persistent) persistent)
      (λ unregistered v. (refl, refl))

fallback-IsNeutral :
    (t : Bool) (vout : ℕ) (dur : ℤ) (text : List ℕ)
    → IsNeutral (if t then [] else shows_osd vout dur text ∷ [])
unfolding IsNeutral
fallback-IsNeutral true vout dur text v = (refl, refl)
fallback-IsNeutral false vout dur text v = (refl, refl)

pub unmoved : (p : Presenter) → Balanced p (p, [])
unfolding Balanced
unmoved p v = omega arith

-- The pending cue is no reference.
pub unpended :
    (p : Presenter) (r : Bool × Presenter × List Effect)
    → Balanced p (after r)
    → let (done, p', es) = r in Balanced p (record p' { has_pending = false }, es)
unfolding Balanced
unpended p (done, p', es) balanced v = balanced v

render_on-Balanced :
    (player : Player) (p : Presenter) (segment : Segment) (text : List ℕ)
    (duration input_time_us : ℤ) (media persistent : Bool) (found : Option ℕ)
    → Balanced p
        (after (render_on player p segment text duration input_time_us media persistent found))
unfolding render_on
render_on-Balanced player p segment text duration input_time_us media persistent none = unmoved p
render_on-Balanced player p segment text duration input_time_us media persistent (some vout) =
    let (p', registered) = register_channel player p vout in
    let dur = player.wall_clock duration in
    let (rendered, put) =
      render_on_channel player p' vout segment text dur input_time_us media persistent in
    let fallback = if rendered then [] else shows_osd vout dur text ∷ [] in
    around p p' vout registered (put ++ fallback) (register_channel-Balanced player p vout) (
      IsNeutral-append put fallback
        (render_on_channel-IsNeutral player p' vout segment text dur input_time_us media persistent)
        (fallback-IsNeutral rendered vout dur text))

render_text-Balanced :
    (player : Player) (p : Presenter) (segment : Segment) (duration input_time_us : ℤ)
    (media persistent : Bool) (text : Pointer)
    → Balanced p (after (render_text player p segment duration input_time_us media persistent text))
unfolding render_text
render_text-Balanced player p segment duration input_time_us media persistent none = unmoved p
render_text-Balanced player p segment duration input_time_us media persistent (some text) =
    pick {A = Bool × Presenter × List Effect} (λ r. Balanced p (after r)) (not p.has_filter_ctx)
      (λ unseen. unmoved p)
      (λ seen.
        render_on-Balanced player p segment (text_to_render player p segment text) duration
          input_time_us media persistent player.vout)

pub render-Balanced :
    (player : Player) (p : Presenter) (segment : Segment) (duration input_time_us : ℤ)
    (media persistent : Bool)
    → Balanced p (after (render player p segment duration input_time_us media persistent))
unfolding render
render-Balanced player p segment duration input_time_us media persistent =
    render_text-Balanced player p segment duration input_time_us media persistent segment.text_utf8

pub repended :
    (p : Presenter) (r : Presenter × List Effect) (segment : Segment)
    → Balanced p r
    → let (p', es) = r in
      Balanced p (record p' { has_pending = true; pending_segment = segment }, es)
unfolding Balanced
repended p (p', es) segment balanced v = balanced v

pub from_unpended :
    (p : Presenter) (r : Bool × Presenter × List Effect)
    → Balanced (record p { has_pending = false }) (after r)
    → Balanced p (after r)
unfolding Balanced
from_unpended p (done, p', es) balanced v = balanced v

pub dispatch_pending-Balanced :
    (player : Player) (p : Presenter) (next_start input_time_us : ℤ) (media : Bool)
    → Balanced p (dispatch_pending player p next_start input_time_us media)
unfolding dispatch_pending
dispatch_pending-Balanced player p next_start input_time_us media =
    let duration = clipped_duration player.min_media_floor_us p.pending_segment next_start in
    pick (Balanced p) p.has_pending
      (λ shown.
        unpended p (render player p p.pending_segment duration input_time_us media false)
          (render-Balanced player p p.pending_segment duration input_time_us media false))
      (λ none_pending. unmoved p)
