-- ===== src/SegmentBuilder/Overlap.antt =====
-- vw_segment_builder_tail_prefix_len of worker/src/vw_segment_builder.c, against what its comment says.
pub mod Parts
use mathlib.Core.Path.{ap₂, subst}
use vlc_whisper.Common.{
  ℕ, zero, suc, ◌+◌, ◌-◌, ◌≤◌, ◌<◌, ◌≡◌, ◌⊎◌, inl, inr, refl, ap, sym, ◌∙◌, Bool, true, false, ◌&&◌,
  ◌||◌, not, List, [], ◌∷◌, ◌++◌, arith, ltb, leb, ◌==◌, if◌then◌else◌, length, length-append,
  length-take, length-drop, get_or, take, drop, take-append, drop-append, take-append-drop,
  take-length, Bool-cases,
}
use vlc_whisper.SegmentBuilder.Text.{
  is_blank, strings_equal, is_word_start, count_words, is_tail_prefix, longest_tail_prefix,
  tail_prefix_len,
}
use vlc_whisper.SegmentBuilder.Overlap.Parts.{
  Shared, strings_equal_sound, tests_on_parts, Shared-of_parts, parts_of_Shared, fits_parts,
}

shared_pos : (text : List ℕ) → 2 ≤ count_words text (length text) → 0 < length text
unfolding count_words
shared_pos [] h = absurd (omega arith)
shared_pos (c ∷ cs) h = omega arith

-- Every shared text passes the tests at its length.
found-Shared :
    (cue cand text : List ℕ) → Shared cue cand text → is_tail_prefix cue cand (length text) ≡ true
found-Shared cue cand text s =
    ap₂ (λ xs ys. is_tail_prefix xs ys (length text)) s.ends_cue s.begins_cand
    ∙ tests_on_parts s.before text s.behind (shared_pos text s.two_words)
    ∙ parts_of_Shared cue cand text s

same_of_tests :
    (cue cand : List ℕ) (be : ℕ)
    → is_tail_prefix cue cand be ≡ true
    → (be ≤ length cue) × (take be (drop (length cue - be) cue) ≡ take be cand)
unfolding is_tail_prefix
same_of_tests cue cand be e = (
  ground arith,
  strings_equal_sound (take be (drop (length cue - be) cue)) (take be cand) (ground arith),
)

take_all : (xs : List ℕ) (n : ℕ) → length xs ≡ n → take n xs ≡ xs
take_all xs n e = ap (λ k. take k xs) (sym e) ∙ take-length xs

-- What passes the tests is shared.
tests-Shared :
    (cue cand : List ℕ) (be : ℕ)
    → 0 < be
    → be ≤ length cand
    → is_tail_prefix cue cand be ≡ true
    → Shared cue cand (take be cand)
tests-Shared cue cand be pos le e =
    let (fits, same) = same_of_tests cue cand be e in
    let before = take (length cue - be) cue in
    let text = take be cand in
    let behind = drop be cand in
    let size : length text ≡ be = omega (arith, length-take be cand) in
    let tail : drop (length cue - be) cue ≡ text =
      sym (
        take_all (drop (length cue - be) cue) be (omega (arith, length-drop (length cue - be) cue)))
      ∙ same in
    let cue_parts : before ++ text ≡ cue =
      ap (λ xs. before ++ xs) (sym tail) ∙ take-append-drop (length cue - be) cue in
    let cand_parts : text ++ behind ≡ cand = take-append-drop be cand in
    let passed : is_tail_prefix (before ++ text) (text ++ behind) (length text) ≡ true =
      ap₂ (λ xs ys. is_tail_prefix xs ys (length text)) cue_parts cand_parts
      ∙ ap (is_tail_prefix cue cand) size
      ∙ e in
    subst (λ xs. Shared xs cand text) cue_parts
      (subst (λ ys. Shared (before ++ text) ys text) cand_parts
        (Shared-of_parts before text behind
          (sym (tests_on_parts before text behind (omega arith)) ∙ passed)))

Shared-fits :
    (cue cand text : List ℕ)
    → Shared cue cand text
    → (length text ≤ length cue) × (length text ≤ length cand)
Shared-fits cue cand text s = (
  omega (arith, ap length s.ends_cue, length-append s.before text),
  omega (arith, ap length s.begins_cand, length-append text s.behind),
)

none_fits :
    (cue cand text : List ℕ)
    → Shared cue cand text
    → (length cue == 0 || length cand == 0) ≡ true
    → length text ≤ 0
none_fits cue cand text s void = let (in_cue, in_cand) = Shared-fits cue cand text s in ground arith

shorter :
    (cue cand text : List ℕ) (b : ℕ)
    → Shared cue cand text
    → is_tail_prefix cue cand (suc b) ≡ false
    → length text ≤ suc b
    → length text ≤ b
shorter cue cand text b s miss fits = elim (Bool-cases (length text == suc b)) [
  | inl same ↦
      let size : length text ≡ suc b = ground arith in
      let hit : is_tail_prefix cue cand (suc b) ≡ true =
        ap (is_tail_prefix cue cand) (sym size) ∙ found-Shared cue cand text s in
      ground arith
  | inr less ↦ ground arith
]

-- What the loop has found when it has tried the lengths up to `b`.
record Found (cue cand : List ℕ) (b m : ℕ) : Type 0 where
  inside : m ≤ b
  shared : (m ≡ 0) ⊎ Shared cue cand (take m cand)
  longest : (text : List ℕ) → Shared cue cand text → length text ≤ b → length text ≤ m

loop-Found :
    (cue cand : List ℕ) (b : ℕ)
    → b ≤ length cand
    → Found cue cand b (longest_tail_prefix cue cand b)
unfolding longest_tail_prefix
loop-Found cue cand zero le = record {
  inside = omega arith;
  shared = inl refl;
  longest = λ text s fits. fits;
}
loop-Found cue cand (suc b) le =
    let below = loop-Found cue cand b (omega arith) in
    elim (Bool-cases (is_tail_prefix cue cand (suc b))) [
      | inl hit ↦ rw hit record {
        inside = omega arith;
        shared = inr (tests-Shared cue cand (suc b) (omega arith) le hit);
        longest = λ text s fits. fits;
      }
      | inr miss ↦ rw miss record {
        inside = omega (arith, below.inside);
        shared = below.shared;
        longest = λ text s fits. below.longest text s (shorter cue cand text b s miss fits);
      }
    ]

-- vw_segment_builder_tail_prefix_len returns 0 or the length of a text of at least two words that
-- ends the cue and begins the candidate, at borders of words in both; no longer text does.
pub tail_prefix_len-Shared :
    (cue cand : List ℕ)
    → let m = tail_prefix_len cue cand in
      ((m ≡ 0) ⊎ Shared cue cand (take m cand))
      × ((text : List ℕ) → Shared cue cand text → length text ≤ m)
unfolding tail_prefix_len
tail_prefix_len-Shared cue cand = elim (Bool-cases (length cue == 0 || length cand == 0)) [
  | inl void ↦ rw void (inl refl, λ text s. none_fits cue cand text s void)
  | inr some_text ↦
      let found = loop-Found cue cand (length cand) (omega arith) in
      rw some_text (found.shared, λ text s. found.longest text s (Shared-fits cue cand text s).1)
]
