-- ===== src/PausedPreview.antt =====
-- The policy for the caption that is shown after a seek while playback is paused:
-- plugin/include/vw_paused_preview_policy.h.
mod Tests
use vlc_whisper.Common.{
  ℕ, suc, ◌+◌, ◌≡◌, ◌≤◌, ◌<◌, ◌↔◌, Bool, true, false, ◌&&◌, ◌||◌, not, Option, none, some, List, [],
  ◌∷◌, arith, if◌then◌else◌,
}
use vlc_whisper.Common.Int.{ℤ, pos, ltb_ℤ}

-- vw_paused_preview_state_t
pub record State : Type 0 where
  pub pending : Bool

-- vw_paused_preview_state_init
unfoldable pub state_init : State
state_init = record { pending = false }

-- vw_paused_preview_state_reset_session
unfoldable pub reset_session : State → State
reset_session state = record { pending = false }

-- vw_paused_preview_arm
unfoldable pub arm : State → State
arm state = record { pending = true }

-- vw_paused_preview_take
unfoldable pub take_preview : State → Bool × State
take_preview state =
    if not state.pending then (false, state) else (true, record { pending = false })

-- vw_paused_preview_capture_target
unfoldable pub capture_target : Bool → ℤ → Option ℤ
capture_target source_preview sampled_position_us =
    if not source_preview || ltb_ℤ sampled_position_us (pos 0)
    then none
    else some sampled_position_us

-- vw_paused_preview_seek_flags: bit 0 is VW_POSITION_FLAG_SEEK, bit 1 VW_POSITION_FLAG_PAUSED.
unfoldable pub seek_flags : Bool → Bool → ℕ
seek_flags paused preview_after_paused_seek =
    if paused && not preview_after_paused_seek then 3 else 1

-- The calls that the sender can make in a session, in any order.
pub data Call : Type 0 where
  resets : Call
  arms : Call
  takes : Call

abbrev as_count : Bool → ℕ
as_count true = 1
as_count false = 0

-- How many of the calls of vw_paused_preview_take return true.
unfoldable pub granted : State → List Call → ℕ
unfolding reset_session arm take_preview
granted state [] = 0
granted state (resets ∷ calls) = granted (reset_session state) calls
granted state (arms ∷ calls) = granted (arm state) calls
granted state (takes ∷ calls) =
    let (done, after) = take_preview state in as_count done + granted after calls

abbrev pub armed : List Call → ℕ
armed [] = 0
armed (resets ∷ calls) = armed calls
armed (arms ∷ calls) = suc (armed calls)
armed (takes ∷ calls) = armed calls

granted_bound :
    (pending : Bool) (calls : List Call)
    → granted (record { pending = pending }) calls ≤ as_count pending + armed calls
unfolding granted
granted_bound true [] = omega arith
granted_bound false [] = omega arith
granted_bound pending (resets ∷ calls) = omega (arith, granted_bound false calls)
granted_bound pending (arms ∷ calls) = omega (arith, granted_bound true calls)
granted_bound true (takes ∷ calls) = omega (arith, granted_bound false calls)
granted_bound false (takes ∷ calls) = omega (arith, granted_bound false calls)

-- In any sequence of calls from a new state, no more previews are granted than were armed.
pub granted-state_init : (calls : List Call) → granted state_init calls ≤ armed calls
unfolding state_init
granted-state_init calls = omega (arith, granted_bound false calls)
