-- ===== src/Hallucination/Speech.antt =====
-- Which text worker/src/vw_hallucination_filter.c lets pass.
use vlc_whisper.Common.{
  ℕ, ◌-◌, ◌≡◌, ◌≤◌, ◌↔◌, ◌⊎◌, refl, ap, ◌∙◌, true, false, some, List, [], ◌∷◌, ◌++◌, arith, ◌==◌,
  length, All, get_or,
}
use vlc_whisper.Hallucination.{
  is_word_byte, no_word_byte, is_isolated_punctuation, is_space, is_around_notes, only_notes,
  is_only_musical_notes, skip_spaces, cut_spaces, add_unless_blank, is_bracketed, is_tag,
  is_empty_or_tag, is_non_speech_tag, is_phantom_text,
}

-- An ASCII letter or digit.
abbrev pub IsAlnum : ℕ → Type 0
IsAlnum c = ((b'a' ≤ c) × (c ≤ b'z')) ⊎ ((b'A' ≤ c) × (c ≤ b'Z')) ⊎ ((b'0' ≤ c) × (c ≤ b'9'))

no_word_byte-to :
    (text : List ℕ) → no_word_byte text ≡ true → All (λ c. is_word_byte c ≡ false) text
unfolding no_word_byte
no_word_byte-to [] e = tt
no_word_byte-to (c ∷ cs) e = ground (arith, no_word_byte-to cs)

no_word_byte-from :
    (text : List ℕ) → All (λ c. is_word_byte c ≡ false) text → no_word_byte text ≡ true
unfolding no_word_byte
no_word_byte-from [] h = refl
no_word_byte-from (c ∷ cs) (e, h) = rw e (no_word_byte-from cs h)

word_found :
    (spaces cs : List ℕ) (c : ℕ) → is_word_byte c ≡ true → no_word_byte (spaces ++ c ∷ cs) ≡ false
unfolding no_word_byte
word_found [] cs c e = rw e refl
word_found (s ∷ spaces) cs c e = ground (arith, word_found spaces cs c e)

skip_spaces-append :
    (spaces cs : List ℕ) (c : ℕ)
    → All (λ s. is_space s ≡ true) spaces
    → is_space c ≡ false
    → skip_spaces (spaces ++ c ∷ cs) ≡ c ∷ cs
unfolding skip_spaces
skip_spaces-append [] cs c h e = rw e refl
skip_spaces-append (s ∷ spaces) cs c (here, h) e = rw here (skip_spaces-append spaces cs c h e)

-- The first byte stays in front.
cut_spaces-first :
    (c : ℕ) (cs : List ℕ) → is_space c ≡ false → (rest : List ℕ) × (cut_spaces (c ∷ cs) ≡ c ∷ rest)
unfolding cut_spaces add_unless_blank
cut_spaces-first c cs e = kept (cut_spaces cs)
  where
    kept : (ds : List ℕ) → (rest : List ℕ) × (add_unless_blank (is_space c) c ds ≡ c ∷ rest)
    kept [] = ([], rw e refl)
    kept (d ∷ ds) = (d ∷ ds, refl)

only_notes-first :
    (c : ℕ) (cs : List ℕ)
    → is_around_notes c ≡ false
    → (c == 0xE2) ≡ false
    → only_notes false (c ∷ cs) ≡ false
unfolding only_notes
only_notes-first c [] e f = rw e refl
only_notes-first c (d ∷ []) e f = rw e refl
only_notes-first c (d ∷ g ∷ cs) e f = rw (e, f) refl

alnum_inside : (c : ℕ) → IsAlnum c → is_around_notes c ≡ false
unfolding is_around_notes is_space
alnum_inside c h = ground arith

alnum_unbracketed : (c d : ℕ) → IsAlnum c → is_bracketed c d ≡ false
unfolding is_bracketed
alnum_unbracketed c d h = ground arith

alnum_word : (c : ℕ) → IsAlnum c → is_word_byte c ≡ true
unfolding is_word_byte
alnum_word c h = ground arith

alnum_visible : (c : ℕ) → IsAlnum c → is_space c ≡ false
unfolding is_space
alnum_visible c h = ground arith

not_tag : (c : ℕ) (cs : List ℕ) → IsAlnum c → is_tag (c ∷ cs) ≡ false
unfolding is_tag is_only_musical_notes
not_tag c cs h =
    let around : is_around_notes c ≡ false = alnum_inside c h in
    let note : (c == 0xE2) ≡ false = ground arith in
    let silent : is_only_musical_notes (c ∷ cs) ≡ false = only_notes-first c cs around note in
    let plain : is_bracketed c (get_or (c ∷ cs) (length (c ∷ cs) - 1) 0) ≡ false =
      alnum_unbracketed c _ h in
    rw (silent, plain) (ground arith)

no_tag :
    (spaces cs : List ℕ) (c : ℕ)
    → All (λ s. is_space s ≡ true) spaces
    → IsAlnum c
    → is_non_speech_tag (some (spaces ++ c ∷ cs)) ≡ false
unfolding is_non_speech_tag is_empty_or_tag
no_tag spaces cs c h alnum =
    let (rest, cut) = cut_spaces-first c cs (alnum_visible c alnum) in
    ap is_empty_or_tag (skip_spaces-append spaces cs c h (alnum_visible c alnum))
    ∙ ap is_tag cut
    ∙ not_tag c rest alnum

phantom_of :
    (text : List ℕ)
    → no_word_byte text ≡ false
    → is_non_speech_tag (some text) ≡ false
    → is_phantom_text (some text) ≡ false
unfolding is_phantom_text is_isolated_punctuation no_word_byte
phantom_of [] e f = ground arith
phantom_of (c ∷ cs) e f = rw e f

-- Text whose first byte that is no space is an ASCII letter or digit is never taken for phantom text.
pub is_phantom_text-speech :
    (spaces cs : List ℕ) (c : ℕ)
    → All (λ s. is_space s ≡ true) spaces
    → IsAlnum c
    → is_phantom_text (some (spaces ++ c ∷ cs)) ≡ false
is_phantom_text-speech spaces cs c h alnum =
    phantom_of (spaces ++ c ∷ cs) (word_found spaces cs c (alnum_word c alnum))
      (no_tag spaces cs c h alnum)

-- Text is isolated punctuation exactly if it has no ASCII letter, no digit and no byte of a longer
-- UTF-8 character.
pub is_isolated_punctuation_iff :
    (text : List ℕ)
    → (is_isolated_punctuation (some text) ≡ true) ↔ All (λ c. is_word_byte c ≡ false) text
unfolding is_isolated_punctuation
is_isolated_punctuation_iff text = (no_word_byte-to text, no_word_byte-from text)
