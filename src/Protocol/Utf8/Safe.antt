-- ===== src/Protocol/Utf8/Safe.antt =====
-- vw_utf8_safe_len of protocol/include/vw_protocol_util.h: the longest prefix in UTF-8.
use mathlib.Core.Path.{subst}
use vlc_whisper.Common.{
  ℕ, zero, suc, ◌+◌, ◌-◌, ◌≤◌, ◌≡◌, ◌≢◌, ◌↔◌, refl, ap, sym, ◌∙◌, inl, inr, true, none, some, List,
  [], ◌∷◌, ◌++◌, append_assoc, arith, ltb, ◌==◌, length, length-take, length-append, take,
  take-append, All, Option-cases, Bool-cases,
}
use vlc_whisper.Protocol.Utf8.{read_char, safe_len_from, utf8_safe_len}
use vlc_whisper.Protocol.Utf8.Scalars.{IsScalar, encode_char, encode_text}
use vlc_whisper.Protocol.Utf8.Sound.{IsByte, reads, read_char-encode_char, read_char_sound}
use vlc_whisper.Protocol.Utf8.Valid.{IsUtf8, All-take, All-tail, encode_char-pos}

-- One turn.
safe_step :
    (fuel len cp c : ℕ) (cs rest : List ℕ)
    → c ≢ 0
    → read_char c cs ≡ some (cp, rest)
    → safe_len_from (suc fuel) (c ∷ cs) len
      ≡ safe_len_from fuel rest (len + (suc (length cs) - length rest))
unfolding safe_len_from
safe_step fuel len cp c cs rest h e = rw (e, safe_len_from) (ground arith)

safe_stop :
    (fuel len c : ℕ) (cs : List ℕ)
    → read_char c cs ≡ none
    → safe_len_from (suc fuel) (c ∷ cs) len ≡ len
unfolding safe_len_from
safe_stop fuel len c cs e = rw (e, safe_len_from) (ground arith)

-- The characters taken so far are kept.
at_nul :
    (fuel len c : ℕ) (cs : List ℕ) → (c == 0) ≡ true → safe_len_from (suc fuel) (c ∷ cs) len ≡ len
unfolding safe_len_from
at_nul fuel len c cs z = rw z

safe_len_mono : (fuel : ℕ) (bs : List ℕ) (len : ℕ) → len ≤ safe_len_from fuel bs len
unfolding safe_len_from
safe_len_mono zero bs len = omega arith
safe_len_mono (suc fuel) [] len = omega arith
safe_len_mono (suc fuel) (c ∷ cs) len = elim (Option-cases (read_char c cs)) [
  | inl e ↦ omega (arith, safe_stop fuel len c cs e)
  | inr ((cp, rest), e) ↦ elim (Bool-cases (c == 0)) [
    | inl z ↦ rw z (omega arith)
    | inr nz ↦ omega (
      arith,
      safe_step fuel len cp c cs rest (ground arith) e,
      safe_len_mono fuel rest (len + (suc (length cs) - length rest)),
    )
  ]
]

-- What the loop has taken when it stops.
record Taken (bs : List ℕ) (len out : ℕ) : Type 0 where
  cps : List ℕ
  rest : List ℕ
  scalars : All IsScalar cps
  no_nul : All (λ cp. cp ≢ 0) cps
  split : bs ≡ encode_text cps ++ rest
  count : out ≡ len + length (encode_text cps)

nothing : (bs : List ℕ) (len out : ℕ) → out ≡ len → Taken bs len out
nothing bs len out e = record {
  cps = [];
  rest = bs;
  scalars = tt;
  no_nul = tt;
  split = refl;
  count = omega arith;
}

-- One more character in front.
more :
    (cp c len out : ℕ) (cs rest : List ℕ)
    → IsScalar cp
    → cp ≢ 0
    → c ∷ cs ≡ encode_char cp ++ rest
    → Taken rest (len + (suc (length cs) - length rest)) out
    → Taken (c ∷ cs) len out
more cp c len out cs rest scalar nz e t = record {
  cps = cp ∷ t.cps;
  rest = t.rest;
  scalars = (scalar, t.scalars);
  no_nul = (nz, t.no_nul);
  split =
      e
      ∙ ap (◌++◌ (encode_char cp)) t.split
      ∙ sym (append_assoc (encode_char cp) (encode_text t.cps) t.rest);
  count = omega (
    arith,
    t.count,
    ap length e,
    length-append (encode_char cp) rest,
    length-append (encode_char cp) (encode_text t.cps),
  );
}

-- A character other than NUL does not begin with a NUL byte.
first_byte : (cp c : ℕ) (cs rest : List ℕ) → c ∷ cs ≡ encode_char cp ++ rest → (c ≡ 0) ↔ (cp ≡ 0)
first_byte cp c cs rest e = (λ z. ground arith, λ z. ground arith)

safe_len-Taken :
    (fuel : ℕ) (bs : List ℕ) (len : ℕ) → All IsByte bs → Taken bs len (safe_len_from fuel bs len)
safe_len-Taken zero bs len h = nothing bs len _ (unfold safe_len_from in refl)
safe_len-Taken (suc fuel) [] len h = nothing [] len _ (unfold safe_len_from in refl)
safe_len-Taken (suc fuel) (c ∷ cs) len h = elim (Option-cases (read_char c cs)) [
  | inl e ↦ nothing (c ∷ cs) len _ (safe_stop fuel len c cs e)
  | inr ((cp, rest), e) ↦ elim (Bool-cases (c == 0)) [
    | inl z ↦ nothing (c ∷ cs) len _ (at_nul fuel len c cs z)
    | inr nz ↦
        let (scalar, split) = read_char_sound c cs cp rest h.0 h.1 e in
        let c-ne : c ≢ 0 = ground arith in
        rw (safe_step fuel len cp c cs rest c-ne e) (
          more cp c len _ cs rest scalar (λ z. c-ne ((first_byte cp c cs rest split).1 z)) split
            (safe_len-Taken fuel rest _ (All-tail (encode_char cp) rest (c ∷ cs) split h)))
  ]
]

-- No text of scalar values other than NUL that begins the string reaches further.
safe_len-longest :
    (fuel : ℕ) (cps rest bs : List ℕ) (len : ℕ)
    → All IsScalar cps
    → All (λ cp. cp ≢ 0) cps
    → bs ≡ encode_text cps ++ rest
    → length (encode_text cps) ≤ fuel
    → len + length (encode_text cps) ≤ safe_len_from fuel bs len
safe_len-longest fuel [] rest bs len h nz e l = omega (arith, safe_len_mono fuel bs len)
safe_len-longest zero (cp ∷ cps) rest bs len h nz e l =
    absurd (omega (arith, encode_char-pos cp, length-append (encode_char cp) (encode_text cps)))
safe_len-longest (suc fuel) (cp ∷ cps) rest [] len h nz e l = absurd (
    omega (
      arith,
      ap length e,
      encode_char-pos cp,
      length-append (encode_char cp ++ encode_text cps) rest,
      length-append (encode_char cp) (encode_text cps),
    ))
safe_len-longest (suc fuel) (cp ∷ cps) rest (c ∷ cs) len h nz e l =
    let tail = encode_text cps ++ rest in
    let split : c ∷ cs ≡ encode_char cp ++ tail =
      e ∙ append_assoc (encode_char cp) (encode_text cps) rest in
    let read : read_char c cs ≡ some (cp, tail) =
      subst (λ zs. reads zs ≡ some (cp, tail)) (sym split) (read_char-encode_char cp tail h.0) in
    omega (
      arith,
      safe_step fuel len cp c cs tail (λ z. nz.0 ((first_byte cp c cs tail split).0 z)) read,
      safe_len-longest fuel cps rest tail (len + (suc (length cs) - length tail)) h.1 nz.1 refl
          (omega (arith, encode_char-pos cp, length-append (encode_char cp) (encode_text cps))),
      ap length split,
      length-append (encode_char cp) tail,
      length-append (encode_char cp) (encode_text cps),
    )

take-take : (m n : ℕ) (xs : List ℕ) → m ≤ n → take m (take n xs) ≡ take m xs
take-take zero n xs h = refl
take-take (suc m) zero xs h = absurd (omega arith)
take-take (suc m) (suc n) [] h = refl
take-take (suc m) (suc n) (x ∷ xs) h = ap (◌∷◌ x) (take-take m n xs (omega arith))

abbrev NoNul : List ℕ → Type 0
NoNul = All (λ b. b ≢ 0)

NoNul-append : (xs ys : List ℕ) → NoNul xs → NoNul ys → NoNul (xs ++ ys)
NoNul-append [] ys h k = k
NoNul-append (x ∷ xs) ys h k = (h.0, NoNul-append xs ys h.1 k)

NoNul-encode_char : (cp : ℕ) → cp ≢ 0 → NoNul (encode_char cp)
NoNul-encode_char cp h = elim (Bool-cases (ltb cp 0x80)) [
  | inl a ↦ rw a (h, tt)
  | inr a ↦ elim (Bool-cases (ltb cp 0x800)) [
    | inl b ↦ rw (a, b) (omega arith)
    | inr b ↦ elim (Bool-cases (ltb cp 0x10000)) [
      | inl c ↦ rw (a, b, c) (omega arith)
      | inr c ↦ rw (a, b, c) (omega arith)
    ]
  ]
]

NoNul-encode_text : (cps : List ℕ) → NoNul cps → NoNul (encode_text cps)
NoNul-encode_text [] h = tt
NoNul-encode_text (cp ∷ cps) h =
    NoNul-append (encode_char cp) (encode_text cps) (NoNul-encode_char cp h.0)
      (NoNul-encode_text cps h.1)

-- `vw_utf8_safe_len(s, max_bytes)` is at most `max_bytes`, and the first so many bytes of the
-- string are text in UTF-8 with no NUL in it.
pub utf8_safe_len-IsUtf8 :
    (s : List ℕ) (max_bytes : ℕ)
    → All IsByte s
    → let n = utf8_safe_len s max_bytes in
      (n ≤ max_bytes) × IsUtf8 (take n s) × All (λ b. b ≢ 0) (take n s)
unfolding utf8_safe_len
utf8_safe_len-IsUtf8 s max_bytes h =
    let t = safe_len-Taken max_bytes (take max_bytes s) 0 (All-take max_bytes s h) in
    let n = utf8_safe_len s max_bytes in
    let len : n ≡ length (encode_text t.cps) = omega (arith, t.count) in
    let fits : n ≤ max_bytes = omega (
      arith,
      t.count,
      ap length t.split,
      length-append (encode_text t.cps) t.rest,
      length-take max_bytes s,
    ) in
    let text : take n s ≡ encode_text t.cps =
      sym (take-take n max_bytes s fits)
      ∙ ap (take n) t.split
      ∙ ap (λ k. take k (encode_text t.cps ++ t.rest)) len
      ∙ take-append (encode_text t.cps) t.rest in
    (fits, (t.cps, t.scalars, text), subst NoNul (sym text) (NoNul-encode_text t.cps t.no_nul))

-- No beginning of the string within `max_bytes` that is text in UTF-8 with no NUL is longer than
-- `vw_utf8_safe_len(s, max_bytes)`.
pub utf8_safe_len-longest :
    (s : List ℕ) (max_bytes : ℕ) (cps rest : List ℕ)
    → All IsScalar cps
    → All (λ cp. cp ≢ 0) cps
    → take max_bytes s ≡ encode_text cps ++ rest
    → length (encode_text cps) ≤ utf8_safe_len s max_bytes
unfolding utf8_safe_len
utf8_safe_len-longest s max_bytes cps rest h nz e = omega (
  arith,
  safe_len-longest max_bytes cps rest (take max_bytes s) 0 h nz e
      (omega (arith, ap length e, length-append (encode_text cps) rest, length-take max_bytes s)),
)
