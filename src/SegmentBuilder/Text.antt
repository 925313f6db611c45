-- ===== src/SegmentBuilder/Text.antt =====
-- The string functions of worker/src/vw_segment_builder.c, and strcmp and strstr as it uses them. A
-- string is the list of its bytes before the NUL.
use vlc_whisper.Common.{
  ℕ, zero, suc, ◌-◌, Bool, true, false, ◌&&◌, ◌||◌, not, List, [], ◌∷◌, ltb, leb, ◌==◌,
  if◌then◌else◌, length, get_or, take, drop,
}

-- ' ', '\t', '\n' and '\r'.
unfoldable pub is_blank : ℕ → Bool
is_blank c = c == b' ' || c == 9 || c == 10 || c == 13

-- strcmp(a, b) == 0
unfoldable pub strings_equal : List ℕ → List ℕ → Bool
strings_equal [] [] = true
strings_equal [] (d ∷ ds) = false
strings_equal (c ∷ cs) [] = false
strings_equal (c ∷ cs) (d ∷ ds) = if c == d then strings_equal cs ds else false

unfoldable pub starts_with : List ℕ → List ℕ → Bool
starts_with cs [] = true
starts_with [] (d ∷ ds) = false
starts_with (c ∷ cs) (d ∷ ds) = if c == d then starts_with cs ds else false

-- strstr(text, part) != NULL
unfoldable pub contains : List ℕ → List ℕ → Bool
unfolding starts_with
contains [] part = starts_with [] part
contains (c ∷ cs) part = if starts_with (c ∷ cs) part then true else contains cs part

-- The loop over leading white space, also that of vw_segment_builder_apply_tail_trim.
unfoldable pub skip_blanks : List ℕ → List ℕ
skip_blanks [] = []
skip_blanks (c ∷ cs) = let rest = skip_blanks cs in if is_blank c then rest else c ∷ cs

-- The loop over trailing white space, on the length that is left.
unfoldable pub cut_blanks : List ℕ → ℕ → ℕ
cut_blanks text zero = 0
cut_blanks text (suc l) =
    let rest = cut_blanks text l in if is_blank (get_or text l 0) then rest else suc l

-- Whether a word of `text` starts at a place.
unfoldable pub is_word_start : List ℕ → ℕ → Bool
is_word_start text zero = not (is_blank (get_or text 0 0))
is_word_start text (suc k) = not (is_blank (get_or text (suc k) 0)) && is_blank (get_or text k 0)

-- The words that start among the first bytes.
unfoldable pub count_words : List ℕ → ℕ → ℕ
unfolding is_word_start
count_words text zero = 0
count_words text (suc k) =
    let words = count_words text k in if is_word_start text k then suc words else words

-- The tests of one turn of the loop of vw_segment_builder_tail_prefix_len, for `be > 0`: those on
-- which the turn does not `continue`, and the last one.
unfoldable pub is_tail_prefix : List ℕ → List ℕ → ℕ → Bool
unfolding count_words strings_equal
is_tail_prefix cue cand be =
    not (ltb be (length cand) && not (is_blank (get_or cand be 0)))
    && (not (is_blank (get_or cand (be - 1) 0))
        && ((not (ltb (length cue) be)
              && strings_equal (take be (drop (length cue - be) cue)) (take be cand))
            && (not (ltb 0 (length cue - be) && not (is_blank (get_or cue (length cue - be - 1) 0)))
                && leb 2 (count_words cand be))))

-- The loop, longest first.
unfoldable pub longest_tail_prefix : List ℕ → List ℕ → ℕ → ℕ
unfolding is_tail_prefix
longest_tail_prefix cue cand zero = 0
longest_tail_prefix cue cand (suc b) =
    let rest = longest_tail_prefix cue cand b in
    if is_tail_prefix cue cand (suc b) then suc b else rest

-- vw_segment_builder_tail_prefix_len
unfoldable pub tail_prefix_len : List ℕ → List ℕ → ℕ
unfolding longest_tail_prefix
tail_prefix_len cue cand =
    if length cue == 0 || length cand == 0 then 0 else longest_tail_prefix cue cand (length cand)
