-- ===== src/SegmentBuilder/Overlap/Parts.antt =====
-- The tests of vw_segment_builder_tail_prefix_len of worker/src/vw_segment_builder.c on a cue and a
-- candidate that share a text.
use mathlib.Core.Path.{ap₂}
use vlc_whisper.Common.{
  ℕ, zero, suc, ◌-◌, ◌≤◌, ◌<◌, ◌≡◌, ◌⊎◌, inl, inr, refl, ap, sym, ◌∙◌, Bool, true, false, ◌&&◌, not,
  List, [], ◌∷◌, ◌++◌, arith, ltb, leb, ◌==◌, if◌then◌else◌, length, length-append, get_or, take,
  drop, take-append, drop-append, take-length, Bool-cases,
}
use vlc_whisper.SegmentBuilder.Text.{
  is_blank, strings_equal, is_word_start, count_words, is_tail_prefix,
}

-- A text that ends `cue` and begins `cand`, at the borders of words in both, of two words or more.
pub record Shared (cue cand text : List ℕ) : Type 0 where
  pub before : List ℕ
  pub behind : List ℕ
  pub ends_cue : cue ≡ before ++ text
  pub begins_cand : cand ≡ text ++ behind
  pub word_begins : (before ≡ []) ⊎ (is_blank (get_or before (length before - 1) 0) ≡ true)
  pub word_ends : (behind ≡ []) ⊎ (is_blank (get_or behind 0 0) ≡ true)
  pub no_blank_at_end : is_blank (get_or text (length text - 1) 0) ≡ false
  pub two_words : 2 ≤ count_words text (length text)

pub get_or-append_left :
    (xs ys : List ℕ) (i : ℕ) → i < length xs → get_or (xs ++ ys) i 0 ≡ get_or xs i 0
get_or-append_left [] ys i lt = absurd (omega arith)
get_or-append_left (x ∷ xs) ys zero lt = refl
get_or-append_left (x ∷ xs) ys (suc i) lt = get_or-append_left xs ys i (omega arith)

get_or-append_right : (xs ys : List ℕ) → get_or (xs ++ ys) (length xs) 0 ≡ get_or ys 0 0
get_or-append_right [] ys = refl
get_or-append_right (x ∷ xs) ys = get_or-append_right xs ys

word_start_append :
    (xs ys : List ℕ) (k : ℕ) → k < length xs → is_word_start (xs ++ ys) k ≡ is_word_start xs k
unfolding is_word_start
word_start_append xs ys zero lt = ap (λ c. not (is_blank c)) (get_or-append_left xs ys 0 lt)
word_start_append xs ys (suc k) lt =
    ap₂ (λ c d. not (is_blank c) && is_blank d) (get_or-append_left xs ys (suc k) lt)
      (get_or-append_left xs ys k (omega arith))

count_words-append :
    (xs ys : List ℕ) (n : ℕ) → n ≤ length xs → count_words (xs ++ ys) n ≡ count_words xs n
unfolding count_words
count_words-append xs ys zero le = refl
count_words-append xs ys (suc k) le =
    ap₂ (λ t words. if t then suc words else words) (word_start_append xs ys k (omega arith))
      (count_words-append xs ys k (omega arith))

strings_equal_refl : (xs : List ℕ) → strings_equal xs xs ≡ true
unfolding strings_equal
strings_equal_refl [] = refl
strings_equal_refl (x ∷ xs) = ground (arith, strings_equal_refl xs)

pub strings_equal_sound : (xs ys : List ℕ) → strings_equal xs ys ≡ true → xs ≡ ys
unfolding strings_equal
strings_equal_sound [] [] e = refl
strings_equal_sound [] (y ∷ ys) e = ground arith
strings_equal_sound (x ∷ xs) [] e = ground arith
strings_equal_sound (x ∷ xs) (y ∷ ys) e = elim (Bool-cases (x == y)) [
  | inl same ↦ ap₂ ◌∷◌ (ground arith) (strings_equal_sound xs ys (ground arith))
  | inr other ↦ ground arith
]

empty_or : (xs : List ℕ) (t : Bool) → (ltb 0 (length xs) && not t) ≡ false → (xs ≡ []) ⊎ (t ≡ true)
empty_or [] t e = inl refl
empty_or (x ∷ xs) true e = inr refl
empty_or (x ∷ xs) false e = ground arith

-- The tests of a turn on the three parts.
pub fits_parts : List ℕ → List ℕ → List ℕ → Bool
fits_parts before text behind =
    not (ltb 0 (length behind) && not (is_blank (get_or behind 0 0)))
    && (not (is_blank (get_or text (length text - 1) 0))
        && (not (ltb 0 (length before) && not (is_blank (get_or before (length before - 1) 0)))
            && leb 2 (count_words text (length text))))

before_length : (before text : List ℕ) → length (before ++ text) - length text ≡ length before
before_length before text = omega (arith, length-append before text)

same_part :
    (before text behind : List ℕ)
    → take (length text) (drop (length (before ++ text) - length text) (before ++ text))
      ≡ take (length text) (text ++ behind)
same_part before text behind =
    ap (λ n. take (length text) (drop n (before ++ text))) (before_length before text)
    ∙ ap (take (length text)) (drop-append before text)
    ∙ take-length text
    ∙ sym (take-append text behind)

tests_joined :
    {p p' q q' s r r' t t' : Bool}
    → p ≡ p'
    → q ≡ q'
    → s ≡ true
    → r ≡ r'
    → t ≡ t'
    → (p && (q && (s && (r && t)))) ≡ (p' && (q' && (r' && t')))
tests_joined e f g h k = rw (e, f, g, h, k) refl

end_test :
    (text behind : List ℕ)
    → not (
        ltb (length text) (length (text ++ behind))
        && not (is_blank (get_or (text ++ behind) (length text) 0)))
      ≡ not (ltb 0 (length behind) && not (is_blank (get_or behind 0 0)))
end_test text behind =
    ap₂ (λ t c. not (t && not (is_blank c))) (ground (arith, length-append text behind))
      (get_or-append_right text behind)

same_test :
    (before text behind : List ℕ)
    → (not (ltb (length (before ++ text)) (length text))
        && strings_equal
            (take (length text) (drop (length (before ++ text) - length text) (before ++ text)))
            (take (length text) (text ++ behind)))
      ≡ true
same_test before text behind =
    ap₂ (λ t xs. not t && strings_equal xs (take (length text) (text ++ behind)))
      {x = ltb (length (before ++ text)) (length text)} {y = false}
      (ground (arith, length-append before text)) (same_part before text behind)
    ∙ strings_equal_refl (take (length text) (text ++ behind))

begin_test :
    (before text : List ℕ)
    → not (
        ltb 0 (length (before ++ text) - length text)
        && not (is_blank (get_or (before ++ text) (length (before ++ text) - length text - 1) 0)))
      ≡ not (ltb 0 (length before) && not (is_blank (get_or before (length before - 1) 0)))
begin_test before text =
    ap (λ n. not (ltb 0 n && not (is_blank (get_or (before ++ text) (n - 1) 0))))
      (before_length before text)
    ∙ elim (Bool-cases (ltb 0 (length before))) [
      | inl some_before ↦
          ap (λ c. not (ltb 0 (length before) && not (is_blank c)))
            (get_or-append_left before text (length before - 1) (ground arith))
      | inr none_before ↦ rw none_before refl
    ]

pub tests_on_parts :
    (before text behind : List ℕ)
    → 0 < length text
    → is_tail_prefix (before ++ text) (text ++ behind) (length text) ≡ fits_parts before text behind
unfolding is_tail_prefix fits_parts
tests_on_parts before text behind pos =
    tests_joined (end_test text behind)
      (ap (λ c. not (is_blank c)) (get_or-append_left text behind (length text - 1) (omega arith)))
      (same_test before text behind) (begin_test before text)
      (ap (leb 2) (count_words-append text behind (length text) (omega arith)))

pub Shared-of_parts :
    (before text behind : List ℕ)
    → fits_parts before text behind ≡ true
    → Shared (before ++ text) (text ++ behind) text
unfolding fits_parts
Shared-of_parts before text behind e = record {
  before = before;
  behind = behind;
  ends_cue = refl;
  begins_cand = refl;
  word_begins = empty_or before (is_blank (get_or before (length before - 1) 0)) (ground arith);
  word_ends = empty_or behind (is_blank (get_or behind 0 0)) (ground arith);
  no_blank_at_end = ground arith;
  two_words = ground arith;
}

or_empty : (xs : List ℕ) (t : Bool) → (xs ≡ []) ⊎ (t ≡ true) → (ltb 0 (length xs) && not t) ≡ false
or_empty [] t h = refl
or_empty (x ∷ xs) true h = ground arith
or_empty (x ∷ xs) false (inl e) = absurd (omega (arith, ap length e))
or_empty (x ∷ xs) false (inr e) = ground arith

pub parts_of_Shared :
    (cue cand text : List ℕ) → (s : Shared cue cand text) → fits_parts s.before text s.behind ≡ true
unfolding fits_parts
parts_of_Shared cue cand text s = ground (
  arith,
  or_empty s.before (is_blank (get_or s.before (length s.before - 1) 0)) s.word_begins,
  or_empty s.behind (is_blank (get_or s.behind 0 0)) s.word_ends,
  s.no_blank_at_end,
  s.two_words,
)
