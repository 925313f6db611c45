-- ===== src/Protocol/Utf8/Valid.antt =====
-- What the two loops accept: the encodings of scalar values.
use mathlib.Core.Path.{subst}
use mathlib.Core.Bool.{false≢true}
use vlc_whisper.Common.{
  ℕ, zero, suc, ◌≤◌, ◌<◌, ◌≡◌, ◌↔◌, refl, ap, sym, ◌∙◌, inl, inr, true, false, none, some, List, [],
  ◌∷◌, ◌++◌, arith, length, length-take, length-append, take, All, Option-cases,
}
use vlc_whisper.Protocol.Utf8.{read_char, is_valid_utf8_from, is_valid_utf8}
use vlc_whisper.Protocol.Utf8.Scalars.{IsScalar, encode_char, encode_text}
use vlc_whisper.Protocol.Utf8.Sound.{IsByte, reads, read_char-encode_char, read_char_sound}

-- Text in UTF-8: the encoding of some scalar values.
abbrev pub IsUtf8 : List ℕ → Type 0
IsUtf8 bs = (cps : List ℕ) × All IsScalar cps × (bs ≡ encode_text cps)

pub All-take : (n : ℕ) (xs : List ℕ) → All IsByte xs → All IsByte (take n xs)
All-take zero xs h = tt
All-take (suc n) [] h = tt
All-take (suc n) (x ∷ xs) h = (h.0, All-take n xs h.1)

pub All-tail : (xs ys zs : List ℕ) → zs ≡ xs ++ ys → All IsByte zs → All IsByte ys
All-tail [] ys zs e h = subst (All IsByte) e h
All-tail (x ∷ xs) ys [] e h = cc
All-tail (x ∷ xs) ys (z ∷ zs) e h = All-tail xs ys zs (ground arith) h.1

pub encode_char-pos : (cp : ℕ) → 0 < length (encode_char cp)
encode_char-pos cp = ground arith

-- One turn of the validator.
valid_step :
    (fuel cp : ℕ) (bs rest : List ℕ)
    → reads bs ≡ some (cp, rest)
    → is_valid_utf8_from (suc fuel) bs ≡ is_valid_utf8_from fuel rest
unfolding is_valid_utf8_from
valid_step fuel cp [] rest e = cc
valid_step fuel cp (c ∷ cs) rest e = rw (e, is_valid_utf8_from) refl

valid_stop :
    (fuel c : ℕ) (cs : List ℕ)
    → read_char c cs ≡ none
    → is_valid_utf8_from (suc fuel) (c ∷ cs) ≡ false
unfolding is_valid_utf8_from
valid_stop fuel c cs e = rw (e, is_valid_utf8_from)

accepts :
    (fuel : ℕ) (cps : List ℕ)
    → All IsScalar cps
    → length (encode_text cps) ≤ fuel
    → is_valid_utf8_from fuel (encode_text cps) ≡ true
accepts fuel [] h l = unfold is_valid_utf8_from in refl
accepts zero (cp ∷ cps) h l =
    absurd (omega (arith, encode_char-pos cp, length-append (encode_char cp) (encode_text cps)))
accepts (suc fuel) (cp ∷ cps) h l =
    valid_step fuel cp _ (encode_text cps) (read_char-encode_char cp (encode_text cps) h.0)
    ∙ accepts fuel cps h.1
        (omega (arith, encode_char-pos cp, length-append (encode_char cp) (encode_text cps)))

accepted : (fuel : ℕ) (bs : List ℕ) → All IsByte bs → is_valid_utf8_from fuel bs ≡ true → IsUtf8 bs
accepted fuel [] h v = ([], tt, refl)
accepted zero (c ∷ cs) h v = unfold is_valid_utf8_from in cc
accepted (suc fuel) (c ∷ cs) h v = elim (Option-cases (read_char c cs)) [
  | inl e ↦ absurd (false≢true (sym (valid_stop fuel c cs e) ∙ v))
  | inr ((cp, rest), e) ↦
      let (scalar, split) = read_char_sound c cs cp rest h.0 h.1 e in
      let (cps, scalars, text) =
        accepted fuel rest (All-tail (encode_char cp) rest (c ∷ cs) split h)
          (sym (valid_step fuel cp (c ∷ cs) rest e) ∙ v) in
      (cp ∷ cps, (scalar, scalars), split ∙ ap (◌++◌ (encode_char cp)) text)
]

-- `is_valid_utf8` accepts the first `len` bytes of a text exactly if they are the encoding of a
-- sequence of Unicode scalar values.
pub is_valid_utf8_iff :
    (text : List ℕ) (len : ℕ)
    → All IsByte text
    → (is_valid_utf8 text len ≡ true) ↔ IsUtf8 (take len text)
unfolding is_valid_utf8
is_valid_utf8_iff text len h = (
  accepted len (take len text) (All-take len text h),
  λ u. rw u.2 (accepts len u.0 u.1 (rw (← u.2) (omega (arith, length-take len text)))),
)
