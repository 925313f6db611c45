-- ===== src/Hallucination/Tests.antt =====
-- The theorems on the filter at concrete inputs, and runs of the code.
use vlc_whisper.Common.{◌≡◌, inl, inr, refl, arith, true, false, some, [], ◌∷◌, ◌++◌}
use vlc_whisper.Hallucination.{
  is_phantom_text, is_isolated_punctuation, no_word_byte, is_word_byte, is_space, is_non_speech_tag,
  is_empty_or_tag, skip_spaces, cut_spaces, add_unless_blank, is_tag, is_only_musical_notes,
  only_notes, is_around_notes, is_bracketed, is_inner_tag, matches_any, case_equals, to_lower,
}
use vlc_whisper.Hallucination.Speech.{is_phantom_text-speech}

-- " [Sigh ]"
sigh_suppressed :
    is_phantom_text (some (b' ' ∷ b'[' ∷ b'S' ∷ b'i' ∷ b'g' ∷ b'h' ∷ b' ' ∷ b']' ∷ [])) ≡ true
unfolding is_phantom_text is_isolated_punctuation no_word_byte is_word_byte is_non_speech_tag
    is_empty_or_tag skip_spaces cut_spaces add_unless_blank is_tag is_only_musical_notes only_notes
    is_around_notes is_bracketed is_inner_tag matches_any case_equals to_lower is_space
sigh_suppressed = refl

-- An eighth note.
note_suppressed : is_phantom_text (some (0xE2 ∷ 0x99 ∷ 0xAA ∷ [])) ≡ true
unfolding is_phantom_text is_isolated_punctuation no_word_byte is_word_byte is_non_speech_tag
    is_empty_or_tag skip_spaces cut_spaces add_unless_blank is_tag is_only_musical_notes only_notes
    is_around_notes is_space
note_suppressed = refl

space_found : is_space b' ' ≡ true
unfolding is_space
space_found = refl

is_phantom_text-speech_example :
    is_phantom_text (some ((b' ' ∷ []) ++ b'N' ∷ b'o' ∷ b'.' ∷ [])) ≡ false
is_phantom_text-speech_example =
    is_phantom_text-speech (b' ' ∷ []) (b'o' ∷ b'.' ∷ []) b'N' (space_found, tt)
      (inr (inl (omega arith, omega arith)))
