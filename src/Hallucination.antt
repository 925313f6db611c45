-- ===== src/Hallucination.antt =====
-- The filter for recognised text that is no speech: worker/src/vw_hallucination_filter.c. A string is
-- the list of its bytes before the NUL; isspace and tolower are those of the C locale, which the
-- worker does not change.
pub mod Speech
mod Tests
use vlc_whisper.Common.{
  ℕ, zero, suc, ◌+◌, ◌-◌, Bool, true, false, ◌&&◌, ◌||◌, not, Option, none, some, List, [], ◌∷◌,
  ltb, leb, ◌==◌, if◌then◌else◌, length, take, drop, get_or,
}
use vlc_whisper.Protocol.Types.{Pointer}

-- A byte of a word: an ASCII letter or digit, or a byte of a longer UTF-8 character.
unfoldable pub is_word_byte : ℕ → Bool
is_word_byte c =
    (leb b'a' c && leb c b'z')
    || (leb b'A' c && leb c b'Z')
    || (leb b'0' c && leb c b'9')
    || leb 0x80 c

-- The loop of vw_hallucination_is_isolated_punctuation.
unfoldable pub no_word_byte : List ℕ → Bool
no_word_byte [] = true
no_word_byte (c ∷ cs) = if is_word_byte c then false else no_word_byte cs

-- vw_hallucination_is_isolated_punctuation
unfoldable pub is_isolated_punctuation : Pointer → Bool
is_isolated_punctuation none = true
is_isolated_punctuation (some text) = no_word_byte text

unfoldable pub to_lower : ℕ → ℕ
to_lower c = if leb b'A' c && leb c b'Z' then c + 32 else c

unfoldable pub is_space : ℕ → Bool
is_space c = (leb 9 c && leb c 13) || c == 32

-- case_equals
unfoldable pub case_equals : List ℕ → List ℕ → Bool
unfolding to_lower
case_equals [] [] = true
case_equals [] (d ∷ ds) = false
case_equals (c ∷ cs) [] = false
case_equals (c ∷ cs) (d ∷ ds) = if not (to_lower c == to_lower d) then false else case_equals cs ds

-- What may stand around the notes.
unfoldable pub is_around_notes : ℕ → Bool
is_around_notes c =
    is_space c
    || c == b'['
    || c == b']'
    || c == b'('
    || c == b')'
    || c == b'-'
    || c == b'*'
    || c == b'~'

-- The loop of is_only_musical_notes. A string that ends within a character has a NUL there.
unfoldable pub only_notes : Bool → List ℕ → Bool
only_notes has_note [] = has_note
only_notes has_note (c ∷ []) = if is_around_notes c then has_note else false
only_notes has_note (c ∷ d ∷ []) =
    let rest = only_notes has_note (d ∷ []) in if is_around_notes c then rest else false
only_notes has_note (c ∷ d ∷ e ∷ cs) =
    let rest = only_notes has_note (d ∷ e ∷ cs) in
    let behind = only_notes true cs in
    if is_around_notes c
    then rest
    else if c == 0xE2 && d == 0x99 && leb 0xA9 e && leb e 0xAC
    then behind
    else false

-- is_only_musical_notes
unfoldable pub is_only_musical_notes : List ℕ → Bool
is_only_musical_notes str = only_notes false str

-- The loops that move `start` and `inner_start` over white space.
unfoldable pub skip_spaces : List ℕ → List ℕ
skip_spaces [] = []
skip_spaces (c ∷ cs) = let rest = skip_spaces cs in if is_space c then rest else c ∷ cs

unfoldable pub add_unless_blank : Bool → ℕ → List ℕ → List ℕ
add_unless_blank true c [] = []
add_unless_blank false c [] = c ∷ []
add_unless_blank blank c (d ∷ ds) = c ∷ d ∷ ds

-- The loops that move `end` and `inner_end` back over white space.
unfoldable pub cut_spaces : List ℕ → List ℕ
cut_spaces [] = []
cut_spaces (c ∷ cs) = add_unless_blank (is_space c) c (cut_spaces cs)

abbrev pub inner_tags : List (List ℕ)
inner_tags =
    (b'm' ∷ b'u' ∷ b's' ∷ b'i' ∷ b'c' ∷ [])
    ∷ (b'a' ∷ b'p' ∷ b'p' ∷ b'l' ∷ b'a' ∷ b'u' ∷ b's' ∷ b'e' ∷ [])
    ∷ (b'l' ∷ b'a' ∷ b'u' ∷ b'g' ∷ b'h' ∷ b't' ∷ b'e' ∷ b'r' ∷ [])
    ∷ (b's' ∷ b'i' ∷ b'l' ∷ b'e' ∷ b'n' ∷ b'c' ∷ b'e' ∷ [])
    ∷ (b'c' ∷ b'h' ∷ b'e' ∷ b'e' ∷ b'r' ∷ b'i' ∷ b'n' ∷ b'g' ∷ [])
    ∷ (b's' ∷ b'c' ∷ b'r' ∷ b'e' ∷ b'a' ∷ b'm' ∷ b'i' ∷ b'n' ∷ b'g' ∷ [])
    ∷ (b'g' ∷ b'a' ∷ b's' ∷ b'p' ∷ [])
    ∷ (b's' ∷ b'i' ∷ b'g' ∷ b'h' ∷ [])
    ∷ (b'c' ∷ b'o' ∷ b'u' ∷ b'g' ∷ b'h' ∷ b'i' ∷ b'n' ∷ b'g' ∷ [])
    ∷ (b's' ∷ b'n' ∷ b'e' ∷ b'e' ∷ b'z' ∷ b'i' ∷ b'n' ∷ b'g' ∷ [])
    ∷ (b'b' ∷ b'l' ∷ b'a' ∷ b'n' ∷ b'k' ∷ b'_' ∷ b'a' ∷ b'u' ∷ b'd' ∷ b'i' ∷ b'o' ∷ [])
    ∷ (b's' ∷ b'n' ∷ b'i' ∷ b'c' ∷ b'k' ∷ b'e' ∷ b'r' ∷ [])
    ∷ (b'g' ∷ b'r' ∷ b'o' ∷ b'a' ∷ b'n' ∷ [])
    ∷ (b'y' ∷ b'a' ∷ b'w' ∷ b'n' ∷ [])
    ∷ (b'p' ∷ b'a' ∷ b'n' ∷ b't' ∷ [])
    ∷ (b'w' ∷ b'h' ∷ b'i' ∷ b's' ∷ b'p' ∷ b'e' ∷ b'r' ∷ b'i' ∷ b'n' ∷ b'g' ∷ [])
    ∷ (b'a' ∷ b'p' ∷ b'p' ∷ b'l' ∷ b'a' ∷ b'u' ∷ b's' ∷ b'e' ∷ b' ' ∷ b'c' ∷ b'h' ∷ b'e' ∷ b'e'
        ∷ b'r' ∷ b'i' ∷ b'n' ∷ b'g' ∷ [])
    ∷ (b'm' ∷ b'u' ∷ b's' ∷ b'i' ∷ b'c' ∷ b' ' ∷ b'p' ∷ b'l' ∷ b'a' ∷ b'y' ∷ b'i' ∷ b'n' ∷ b'g'
        ∷ [])
    ∷ []

-- The loop over k_inner_tags.
unfoldable pub matches_any : List ℕ → List (List ℕ) → Bool
matches_any inner [] = false
matches_any inner (tag ∷ tags) = if case_equals inner tag then true else matches_any inner tags

-- The test of the words within the brackets.
unfoldable pub is_inner_tag : List ℕ → Bool
is_inner_tag inner =
    if ltb 0 (length inner) && leb (length inner) 64 then matches_any inner inner_tags else false

unfoldable pub is_bracketed : ℕ → ℕ → Bool
is_bracketed first final =
    (first == b'[' && final == b']')
    || (first == b'(' && final == b')')
    || (first == b'*' && final == b'*')

-- From the second step on. For one byte `inner_len` wraps around to a number above 64.
unfoldable pub is_tag : List ℕ → Bool
is_tag trimmed =
    if ltb 128 (length trimmed)
    then false
    else if is_only_musical_notes trimmed
    then true
    else if is_bracketed (get_or trimmed 0 0) (get_or trimmed (length trimmed - 1) 0)
    then (if length trimmed == 1
        then false
        else is_inner_tag (cut_spaces (skip_spaces (take (length trimmed - 2) (drop 1 trimmed)))))
    else false

-- `if (*start == '\0') return true;`
unfoldable pub is_empty_or_tag : List ℕ → Bool
is_empty_or_tag [] = true
is_empty_or_tag (c ∷ cs) = is_tag (cut_spaces (c ∷ cs))

-- vw_hallucination_is_non_speech_tag
unfoldable pub is_non_speech_tag : Pointer → Bool
is_non_speech_tag none = true
is_non_speech_tag (some text) = is_empty_or_tag (skip_spaces text)

-- vw_hallucination_is_phantom_text
unfoldable pub is_phantom_text : Pointer → Bool
is_phantom_text none = true
is_phantom_text (some []) = true
is_phantom_text (some (c ∷ cs)) =
    if is_isolated_punctuation (some (c ∷ cs)) then true else is_non_speech_tag (some (c ∷ cs))
