-- ===== src/Vad/Tests.antt =====
-- The theorems on the boundaries of the audio at concrete inputs, and runs of the code.
use vlc_whisper.Common.{◌≡◌, refl, true, false, List, [], ◌∷◌, arith}
use vlc_whisper.Vad.{Speech, Boundary, no_model, found, find_chunk_boundary}
use vlc_whisper.Vad.Progress.{IsWithin, find_chunk_boundary-IsWithin}
use vlc_whisper.Vad.Quiet.{QuietAt, find_chunk_boundary-QuietAt}

-- From 1 to 7 and from 8 to 9 seconds.
abbrev two_segments : List Speech
two_segments = record { t0 = 16000; t1 = 112000 } ∷ record { t0 = 128000; t1 = 144000 } ∷ []

find_chunk_boundary-IsWithin_example :
    IsWithin 160000 (find_chunk_boundary (found two_segments) true 160000 false)
find_chunk_boundary-IsWithin_example =
    find_chunk_boundary-IsWithin (found two_segments) true 160000 false (omega arith)

find_chunk_boundary-QuietAt_example :
    QuietAt two_segments (find_chunk_boundary (found two_segments) true 160000 false)
find_chunk_boundary-QuietAt_example =
    find_chunk_boundary-QuietAt true 160000 two_segments
      (omega arith, omega arith, (omega arith, omega arith, omega arith)) (omega arith)

-- The cut lies in the middle of the gap.
cut_found : (find_chunk_boundary (found two_segments) true 160000 false).cut ≡ 120000
unfolding vlc_whisper.Vad.find_chunk_boundary vlc_whisper.Vad.model_boundary
    vlc_whisper.Vad.choose_cut vlc_whisper.Vad.cut_in_gap vlc_whisper.Vad.may_end
    vlc_whisper.Vad.middle_of_gap vlc_whisper.Vad.at_least vlc_whisper.Vad.at_most
    vlc_whisper.Vad.behind_last vlc_whisper.Vad.last_end
cut_found = refl
