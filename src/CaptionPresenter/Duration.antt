-- ===== src/CaptionPresenter/Duration.antt =====
-- How long plugin/src/vw_caption_presenter.c shows a cue, and what text it keeps of it.
use mathlib.Core.Path.{subst}
use vlc_whisper.Common.{◌≡◌, ap, sym, ◌∙◌, true, false, ◌&&◌, arith, if◌then◌else◌, pick}
use vlc_whisper.Common.Int.{ℤ, pos, ◌<ℤ◌, ◌+ℤ◌, ◌-ℤ◌, ltb_ℤ, leb_ℤ, +ℤ_parts, -ℤ_parts, eq_of_parts}
use vlc_whisper.CaptionPresenter.{Segment}
use vlc_whisper.CaptionPresenter.Show.{
  target_duration, clipped_end, readable_duration, clipped_duration,
}

abbrev pub max_ℤ : ℤ → ℤ → ℤ
max_ℤ a b = if ltb_ℤ b a then a else b

-- The time until the next cue starts, when it starts later and within the duration.
abbrev pub until_next : ℤ → ℤ → ℤ
until_next target gap = if ltb_ℤ (pos 0) gap && ltb_ℤ gap target then gap else target

readable_max :
    (floor raw duration : ℤ)
    → pos 0 <ℤ duration
    → readable_duration floor raw duration ≡ max_ℤ floor duration
unfolding readable_duration
readable_max floor raw duration positive = ap (max_ℤ floor) (positive_kept duration _ positive)
  where
    positive_kept : (d other : ℤ) → pos 0 <ℤ d → (if leb_ℤ d (pos 0) then other else d) ≡ d
    positive_kept d other positive = ground arith

target-pos : (floor raw : ℤ) → pos 0 <ℤ floor → pos 0 <ℤ target_duration floor raw
unfolding target_duration
target-pos floor raw positive = ground arith

back : (start d : ℤ) → (start +ℤ d) -ℤ start ≡ d
back start d =
    eq_of_parts ((start +ℤ d) -ℤ start) d
      (omega (arith, +ℤ_parts start d, -ℤ_parts (start +ℤ d) start))

same_test :
    (start next_start target : ℤ)
    → (ltb_ℤ start next_start && ltb_ℤ next_start (start +ℤ target))
      ≡ (ltb_ℤ (pos 0) (next_start -ℤ start) && ltb_ℤ (next_start -ℤ start) target)
same_test start next_start target = ground (arith, +ℤ_parts start target, -ℤ_parts next_start start)

max_short : (floor gap : ℤ) → gap <ℤ floor → max_ℤ floor floor ≡ max_ℤ floor gap
max_short floor gap short = ground arith

-- A duration that is positive and, raised to the floor, is that of the specification.
abbrev Fits : ℤ → ℤ → ℤ → ℤ → Type 0
Fits floor start wanted end =
    (pos 0 <ℤ (end -ℤ start)) × (max_ℤ floor (end -ℤ start) ≡ max_ℤ floor wanted)

clipped-Fits :
    (floor start target next_start : ℤ)
    → pos 0 <ℤ floor
    → pos 0 <ℤ target
    → Fits floor start
        (until_next target (next_start -ℤ start))
        (clipped_end floor start (start +ℤ target) next_start)
unfolding clipped_end
clipped-Fits floor start target next_start pos_floor pos_target =
    let gap = next_start -ℤ start in
    let wanted = until_next target gap in
    let same = same_test start next_start target in
    pick (Fits floor start wanted) (ltb_ℤ start next_start && ltb_ℤ next_start (start +ℤ target))
      (λ inside.
        let e : wanted ≡ gap = ap (λ t. if t then gap else target) (sym same ∙ inside) in
        pick (Fits floor start wanted) (leb_ℤ floor gap)
          (λ long. (long_gap floor gap pos_floor long, ap (max_ℤ floor) (sym e)))
          (λ short. (
            subst (λ d. pos 0 <ℤ d) (sym (back start floor)) pos_floor,
            ap (max_ℤ floor) (back start floor)
                ∙ max_short floor gap (short_gap floor gap short)
                ∙ ap (max_ℤ floor) (sym e),
          )))
      (λ outside.
        let e : wanted ≡ target = ap (λ t. if t then gap else target) (sym same ∙ outside) in
        (
          subst (λ d. pos 0 <ℤ d) (sym (back start target)) pos_target,
          ap (max_ℤ floor) (back start target ∙ sym e),
        ))
  where
    long_gap : (floor gap : ℤ) → pos 0 <ℤ floor → leb_ℤ floor gap ≡ true → pos 0 <ℤ gap
    long_gap floor gap pos_floor long = ground arith

    short_gap : (floor gap : ℤ) → leb_ℤ floor gap ≡ false → gap <ℤ floor
    short_gap floor gap short = ground arith

-- For a positive floor, which a rate above 0.05 gives: the pending cue is shown for its duration (two
-- seconds where that is not positive), or only until the next cue starts where that is later and
-- within that duration, but never shorter than the floor.
pub clipped_duration-until_next :
    (floor : ℤ) (pending : Segment) (next_start : ℤ)
    → pos 0 <ℤ floor
    → let raw = pending.end_pts_us -ℤ pending.start_pts_us in
      clipped_duration floor pending next_start
      ≡ max_ℤ floor (until_next (target_duration floor raw) (next_start -ℤ pending.start_pts_us))
unfolding clipped_duration
clipped_duration-until_next floor pending next_start pos_floor =
    let start = pending.start_pts_us in
    let raw = pending.end_pts_us -ℤ start in
    let target = target_duration floor raw in
    let end = clipped_end floor start (start +ℤ target) next_start in
    let (positive, shown) =
      clipped-Fits floor start target next_start pos_floor (target-pos floor raw pos_floor) in
    readable_max floor raw (end -ℤ start) positive ∙ shown
