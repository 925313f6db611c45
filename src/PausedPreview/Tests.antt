-- ===== src/PausedPreview/Tests.antt =====
-- The theorem on the preview policy at a concrete input, and runs of the code.
use vlc_whisper.Common.{◌≡◌, ◌≤◌, refl, [], ◌∷◌}
use vlc_whisper.PausedPreview.{state_init, granted, armed, resets, arms, takes, granted-state_init}

-- The second of two calls gets nothing, nor does one behind a reset.
one_granted : granted state_init (arms ∷ takes ∷ takes ∷ arms ∷ resets ∷ takes ∷ []) ≡ 1
unfolding state_init granted
one_granted = refl

granted-state_init_example :
    granted state_init (arms ∷ takes ∷ takes ∷ []) ≤ armed (arms ∷ takes ∷ takes ∷ [])
granted-state_init_example = granted-state_init (arms ∷ takes ∷ takes ∷ [])
