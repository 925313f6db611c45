-- ===== src/CaptionPresenter/References/Count.antt =====
-- The references to video outputs that the effects of plugin/src/vw_caption_presenter.c take and give
-- back.
use vlc_whisper.Common.{
  ℕ, ◌+◌, ◌≡◌, refl, Bool, true, false, ◌||◌, not, Option, none, some, List, [], ◌∷◌, ◌++◌, arith,
  ◌==◌, if◌then◌else◌, pick,
}
use vlc_whisper.Common.Int.{ℤ}
use vlc_whisper.CaptionPresenter.{
  Presenter, Player, Effect, holds, releases, flushes, puts, shows_osd, is_channel, let_go,
  render_spu,
}

abbrev pub one : ℕ → ℕ → ℕ
one v w = if w == v then 1 else 0

abbrev pub one_of : ℕ → Option ℕ → ℕ
one_of v none = 0
one_of v (some w) = one v w

-- How often an output is held, and how often it is released.
abbrev pub taken : ℕ → List Effect → ℕ
taken v [] = 0
taken v (holds w ∷ es) = one v w + taken v es
taken v (releases w ∷ es) = taken v es
taken v (flushes w channel ∷ es) = taken v es
taken v (puts w picture ∷ es) = taken v es
taken v (shows_osd w duration text ∷ es) = taken v es

abbrev pub given : ℕ → List Effect → ℕ
given v [] = 0
given v (holds w ∷ es) = given v es
given v (releases w ∷ es) = one v w + given v es
given v (flushes w channel ∷ es) = given v es
given v (puts w picture ∷ es) = given v es
given v (shows_osd w duration text ∷ es) = given v es

-- The references to an output that the presenter keeps.
abbrev pub kept : ℕ → Presenter → ℕ
kept v p = one_of v p.held_vout + one_of v p.model_progress_held_vout

-- The references kept before and those taken are those given back and those kept after.
unfoldable pub Balanced : Presenter → Presenter × List Effect → Type 0
Balanced p (p', es) = (v : ℕ) → kept v p + taken v es ≡ given v es + kept v p'

pub taken-append : (v : ℕ) (es fs : List Effect) → taken v (es ++ fs) ≡ taken v es + taken v fs
taken-append v [] fs = omega arith
taken-append v (holds w ∷ es) fs = omega (arith, taken-append v es fs)
taken-append v (releases w ∷ es) fs = taken-append v es fs
taken-append v (flushes w channel ∷ es) fs = taken-append v es fs
taken-append v (puts w picture ∷ es) fs = taken-append v es fs
taken-append v (shows_osd w duration text ∷ es) fs = taken-append v es fs

pub given-append : (v : ℕ) (es fs : List Effect) → given v (es ++ fs) ≡ given v es + given v fs
given-append v [] fs = omega arith
given-append v (holds w ∷ es) fs = given-append v es fs
given-append v (releases w ∷ es) fs = omega (arith, given-append v es fs)
given-append v (flushes w channel ∷ es) fs = given-append v es fs
given-append v (puts w picture ∷ es) fs = given-append v es fs
given-append v (shows_osd w duration text ∷ es) fs = given-append v es fs

-- Effects that touch no reference.
unfoldable pub IsNeutral : List Effect → Type 0
IsNeutral es = (v : ℕ) → (taken v es ≡ 0) × (given v es ≡ 0)

pub taken-let_go : (v : ℕ) (held : Option ℕ) (t : Bool) (c : ℤ) → taken v (let_go held t c) ≡ 0
unfolding let_go
taken-let_go v none t c = refl
taken-let_go v (some w) true c = refl
taken-let_go v (some w) false c = refl

pub given-let_go :
    (v : ℕ) (held : Option ℕ) (t : Bool) (c : ℤ) → given v (let_go held t c) ≡ one_of v held
unfolding let_go
given-let_go v none t c = refl
given-let_go v (some w) true c = omega arith
given-let_go v (some w) false c = omega arith

pub render_spu-IsNeutral :
    (player : Player) (vout : ℕ) (channel : ℤ) (text : List ℕ) (start stop : ℤ) (r q : Bool)
    → IsNeutral (render_spu player vout channel text start stop r q).1
unfolding render_spu IsNeutral
render_spu-IsNeutral player vout channel text start stop r q =
    pick {A = Bool × List Effect} (λ res. IsNeutral res.1) (not (is_channel channel))
      (λ bad v. (refl, refl))
      (λ good.
        pick {A = Bool × List Effect} (λ res. IsNeutral res.1)
          (not player.subpicture || not player.region || not player.text_segment)
          (λ failed v. (refl, refl))
          (λ made. pick IsNeutral r (λ replaces v. (refl, refl)) (λ adds v. (refl, refl))))

-- Registering an output in place of another one.
pub swapped :
    (v vout : ℕ) (held : Option ℕ) (t : Bool) (c : ℤ)
    → one_of v held + taken v (let_go held t c ++ holds vout ∷ [])
      ≡ given v (let_go held t c ++ holds vout ∷ []) + one v vout
swapped v vout held t c = omega (
  arith,
  taken-append v (let_go held t c) (holds vout ∷ []),
  given-append v (let_go held t c) (holds vout ∷ []),
  taken-let_go v held t c,
  given-let_go v held t c,
)
