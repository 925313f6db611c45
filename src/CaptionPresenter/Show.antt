-- ===== src/CaptionPresenter/Show.antt =====
-- vw_render and the calls that show and blank captions, of plugin/src/vw_caption_presenter.c.
use mathlib.Core.Option.{get_or}
use vlc_whisper.Common.{
  ℕ, ◌+◌, ◌*◌, ◌-◌, Bool, true, false, ◌&&◌, ◌||◌, not, Option, none, some, List, [], ◌∷◌, ◌++◌,
  ltb, ◌==◌, if◌then◌else◌, length, take,
}
use vlc_whisper.Common.Int.{ℤ, pos, negsuc, ◌+ℤ◌, ◌-ℤ◌, ltb_ℤ, leb_ℤ}
use vlc_whisper.Protocol.Types.{Pointer, is_null, max_text_bytes}
use vlc_whisper.Protocol.Utf8.{utf8_safe_len}
use vlc_whisper.Protocol.Saturating.{saturating_add_i64, saturating_sub_i64}
use vlc_whisper.CaptionPresenter.{
  Segment, Presenter, Player, Effect, holds, releases, flushes, shows_osd, is_channel, is_held,
  let_go, render_spu, clear_model_progress, min_display_duration_us, presenter_max_text_bytes,
}

abbrev starts_text : Pointer → Bool
starts_text none = false
starts_text (some []) = false
starts_text (some (c ∷ cs)) = true

-- `text_to_render`; without a filter context the mode is 1.
unfoldable pub text_to_render : Player → Presenter → Segment → List ℕ → List ℕ
text_to_render player p segment text =
    let translated = get_or segment.translated_text_utf8 [] in
    if ltb 0 segment.translated_text_bytes && starts_text segment.translated_text_utf8
    then (if p.has_filter_ctx
          && (leb_ℤ (pos 0) player.translate_mode && leb_ℤ player.translate_mode (pos 0))
        then translated
        else take (presenter_max_text_bytes * 2 + 8 - 1) (text ++ 10 ∷ translated))
    else text

-- The registration of the channel for captions, within vw_render.
unfoldable pub register_channel : Player → Presenter → ℕ → Presenter × List Effect
unfolding is_held let_go
register_channel player p vout =
    let freed = let_go p.held_vout (is_channel p.spu_channel_id) p.spu_channel_id in
    if p.spu_channel_registered && is_held p.held_vout vout && is_channel p.spu_channel_id
    then (p, [])
    else if is_channel player.channel_id
    then (
      record p {
        held_vout = some vout;
        spu_channel_id = player.channel_id;
        spu_channel_registered = true;
      },
      freed ++ holds vout ∷ [],
    )
    else (
      record p { held_vout = none; spu_channel_id = negsuc 0; spu_channel_registered = false },
      freed,
    )

-- `lead_us`
unfoldable pub lead_us : Player → Segment → ℤ → Bool → ℤ
unfolding saturating_sub_i64
lead_us player segment input_time_us media_timeline =
    let lead = player.wall_clock (saturating_sub_i64 segment.start_pts_us input_time_us) in
    if media_timeline && leb_ℤ (pos 0) input_time_us && ltb_ℤ input_time_us segment.start_pts_us
    then (if ltb_ℤ (pos 60000000) lead then pos 60000000 else lead)
    else pos 0

-- The attempt to show a subpicture on the registered channel.
unfoldable pub render_on_channel :
    Player → Presenter → ℕ → Segment → List ℕ → ℤ → ℤ → Bool → Bool → Bool × List Effect
unfolding lead_us saturating_add_i64 render_spu
render_on_channel player p vout segment text dur input_time_us media_timeline persistent =
    let start =
      saturating_add_i64 player.now_tick (lead_us player segment input_time_us media_timeline) in
    if p.spu_channel_registered && is_channel p.spu_channel_id
    then render_spu player vout p.spu_channel_id text start (saturating_add_i64 start dur)
        (not media_timeline || persistent) persistent
    else (false, [])

-- vw_caption_presenter_display without a filter context, as vw_render calls it.
unfoldable pub display_unseen : ℤ → Bool
display_unseen duration_us = ltb_ℤ (pos 0) duration_us

-- From vw_caption_presenter_find_vout on.
unfoldable pub render_on :
    Player
    → Presenter
    → Segment
    → List ℕ
    → ℤ
    → ℤ
    → Bool
    → Bool
    → Option ℕ
    → Bool × Presenter × List Effect
unfolding register_channel render_on_channel
render_on player p segment text duration_us input_time_us media_timeline persistent none =
    (false, p, [])
render_on player p segment text duration_us input_time_us media_timeline persistent (some vout) =
    let (p', registered) = register_channel player p vout in
    let dur = player.wall_clock duration_us in
    let (rendered, put) =
      render_on_channel player p' vout segment text dur input_time_us media_timeline persistent in
    let fallback = if rendered then [] else shows_osd vout dur text ∷ [] in
    (true, p', holds vout ∷ (registered ++ (put ++ fallback)) ++ releases vout ∷ [])

unfoldable pub render_text :
    Player → Presenter → Segment → ℤ → ℤ → Bool → Bool → Pointer → Bool × Presenter × List Effect
unfolding text_to_render display_unseen render_on
render_text player p segment duration_us input_time_us media_timeline persistent none =
    (false, p, [])
render_text player p segment duration_us input_time_us media_timeline persistent (some text) =
    let shown = text_to_render player p segment text in
    if not p.has_filter_ctx
    then (display_unseen duration_us, p, [])
    else render_on player p segment shown duration_us input_time_us media_timeline persistent
        player.vout

-- vw_render
unfoldable pub render :
    Player → Presenter → Segment → ℤ → ℤ → Bool → Bool → Bool × Presenter × List Effect
unfolding render_text
render player p segment duration_us input_time_us media_timeline persistent =
    render_text player p segment duration_us input_time_us media_timeline persistent
      segment.text_utf8

-- `raw_duration_us`, raised to the floor, or two seconds.
unfoldable pub target_duration : ℤ → ℤ → ℤ
target_duration floor raw =
    if leb_ℤ raw (pos 0) then pos 2000000 else if ltb_ℤ raw floor then floor else raw

-- `clipped_end_us`
unfoldable pub clipped_end : ℤ → ℤ → ℤ → ℤ → ℤ
clipped_end floor start target_end next_start =
    if ltb_ℤ start next_start && ltb_ℤ next_start target_end
    then (if leb_ℤ floor (next_start -ℤ start) then next_start else start +ℤ floor)
    else target_end

-- What becomes of `duration_us`.
unfoldable pub readable_duration : ℤ → ℤ → ℤ → ℤ
readable_duration floor raw duration =
    let unclipped = if ltb_ℤ (pos 0) raw then raw else pos 2000000 in
    let positive =
      if leb_ℤ duration (pos 0)
      then (if ltb_ℤ unclipped floor then floor else unclipped)
      else duration in
    if ltb_ℤ positive floor then floor else positive

-- How long the pending cue is shown before the next one.
unfoldable pub clipped_duration : ℤ → Segment → ℤ → ℤ
unfolding target_duration clipped_end readable_duration
clipped_duration floor pending next_start =
    let start = pending.start_pts_us in
    let raw = pending.end_pts_us -ℤ start in
    let target_end = start +ℤ target_duration floor raw in
    readable_duration floor raw (clipped_end floor start target_end next_start -ℤ start)

-- The copy of a text of `bytes` bytes to the presenter.
unfoldable pub kept_text : List ℕ → ℕ → List ℕ
unfolding utf8_safe_len
kept_text text bytes =
    let max_src = if ltb bytes max_text_bytes then bytes else max_text_bytes in
    take (utf8_safe_len text max_src) text

-- The segment that is buffered.
unfoldable pub buffered : Segment → List ℕ → Segment
unfolding kept_text
buffered segment text =
    let kept =
      kept_text text (if segment.text_bytes == 0 then length text else segment.text_bytes) in
    let translated =
      kept_text (get_or segment.translated_text_utf8 []) segment.translated_text_bytes in
    let has_translation =
      not (is_null segment.translated_text_utf8) && ltb 0 segment.translated_text_bytes in
    record segment {
      text_utf8 = some kept;
      text_bytes = length kept;
      translated_text_utf8 = if has_translation then some translated else none;
      translated_text_bytes = if has_translation then length translated else 0;
    }

-- The pending cue is shown when the next one comes.
unfoldable pub dispatch_pending : Player → Presenter → ℤ → ℤ → Bool → Presenter × List Effect
unfolding clipped_duration render
dispatch_pending player p next_start input_time_us media_timeline =
    let duration = clipped_duration player.min_media_floor_us p.pending_segment next_start in
    let (rendered, p', effects) =
      render player p p.pending_segment duration input_time_us media_timeline false in
    if p.has_pending then (record p' { has_pending = false }, effects) else (p, [])

unfoldable pub show_text :
    Player → Presenter → Segment → ℤ → Bool → Pointer → Bool × Presenter × List Effect
unfolding dispatch_pending buffered
show_text player p segment input_time_us media_timeline none = (false, p, [])
show_text player p segment input_time_us media_timeline (some text) =
    let (p', effects) =
      dispatch_pending player p segment.start_pts_us input_time_us media_timeline in
    (true, record p' { has_pending = true; pending_segment = buffered segment text }, effects)

-- vw_caption_presenter_show_segment
unfoldable pub show_segment :
    Player → Presenter → Segment → ℤ → Bool → Bool × Presenter × List Effect
unfolding show_text
show_segment player p segment input_time_us media_timeline =
    show_text player p segment input_time_us media_timeline segment.text_utf8

-- vw_caption_presenter_flush
unfoldable pub flush : Player → Presenter → ℤ → Bool → Bool × Presenter × List Effect
unfolding target_duration render
flush player p input_time_us media_timeline =
    let raw = p.pending_segment.end_pts_us -ℤ p.pending_segment.start_pts_us in
    let (rendered, p', effects) =
      render player p p.pending_segment (target_duration player.min_media_floor_us raw)
        input_time_us media_timeline false in
    if p.has_pending then (rendered, record p' { has_pending = false }, effects) else (false, p, [])

-- vw_caption_presenter_show_paused
unfoldable pub show_paused : Player → Presenter → Segment → Bool × Presenter × List Effect
unfolding render
show_paused player p segment =
    let raw = segment.end_pts_us -ℤ segment.start_pts_us in
    let duration = if ltb_ℤ raw min_display_duration_us then min_display_duration_us else raw in
    if is_null segment.text_utf8
    then (false, p, [])
    else render player (record p { has_pending = false }) segment duration (negsuc 0) false true

-- What vw_caption_presenter_blank does on a found output.
unfoldable pub blank_on : Presenter → ℕ → List Effect
blank_on p vout =
    if p.spu_channel_registered && is_channel p.spu_channel_id
    then flushes vout p.spu_channel_id ∷ []
    else flushes vout (pos 1) ∷ shows_osd vout (pos 1000) [] ∷ []

unfoldable pub blank_found : Presenter → Option ℕ → List Effect
unfolding blank_on
blank_found p none = []
blank_found p (some vout) = holds vout ∷ blank_on p vout ++ releases vout ∷ []

unfoldable pub blank_held : Player → Presenter → Option ℕ → List Effect
unfolding blank_found
blank_held player p none = blank_found p player.vout
blank_held player p (some held) =
    if p.spu_channel_registered && is_channel p.spu_channel_id
    then flushes held p.spu_channel_id ∷ []
    else blank_found p player.vout

-- vw_caption_presenter_blank
unfoldable pub blank : Player → Presenter → Presenter × List Effect
unfolding blank_held
blank player p = (
  record p { has_pending = false },
  if not p.has_filter_ctx then [] else blank_held player p p.held_vout,
)

-- vw_caption_presenter_clear
unfoldable pub clear : Player → Presenter → Presenter × List Effect
unfolding clear_model_progress blank let_go
clear player p =
    let (p', progress) = clear_model_progress p in
    let (p'', blanked) = blank player p' in
    (
      record p'' {
        has_pending = false;
        held_vout = none;
        has_filter_ctx = false;
        spu_channel_id = negsuc 0;
        spu_channel_registered = false;
      },
      progress ++ (blanked ++ let_go p''.held_vout false (pos 0)),
    )
