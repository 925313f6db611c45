-- ===== src/Protocol/Language.antt =====
-- is_valid_language_code of protocol/src/vw_protocol_validate.c.
use mathlib.Core.Bool.{false≢true}
use vlc_whisper.Common.{
  ℕ, suc, ◌+◌, ◌-◌, ◌≤◌, ◌<◌, ◌≡◌, ◌↔◌, ◌⊎◌, inl, inr, refl, ap, sym, ◌∙◌, Bool, true, false, ◌&&◌,
  ◌||◌, not, Option, none, some, List, [], ◌∷◌, ◌++◌, arith, ltb, leb, ◌==◌, if◌then◌else◌, length,
  take, drop, All, length-append, Option-cases, Bool-cases, append-nil, length-take,
}
use vlc_whisper.Protocol.Encode.{strnlen}

pub is_alpha : ℕ → Bool
is_alpha c = (leb b'A' c && leb c b'Z') || (leb b'a' c && leb c b'z')

-- The loop to the first '-': its index, or `none` where another byte is no letter.
scan_primary : List ℕ → ℕ → Option ℕ
scan_primary [] n = some n
scan_primary (c ∷ cs) n =
    let more = scan_primary cs (n + 1) in
    if c == b'-' then some n else if is_alpha c then more else none

-- The loop over the subtag.
all_alpha : List ℕ → Bool
all_alpha [] = true
all_alpha (c ∷ cs) = if not (is_alpha c) then false else all_alpha cs

-- strcmp(_, _) == 0 for the bytes before the NUL.
pub same_text : List ℕ → List ℕ → Bool
same_text [] [] = true
same_text [] (b ∷ bs) = false
same_text (a ∷ as') [] = false
same_text (a ∷ as') (b ∷ bs) = a == b && same_text as' bs

abbrev pub auto_text : List ℕ
auto_text = b'a' ∷ b'u' ∷ b't' ∷ b'o' ∷ []

-- What follows the test for "auto", on the `length` bytes before the NUL.
tag_test : List ℕ → Option ℕ → Bool
unfolding all_alpha
tag_test text none = false
tag_test text (some primary_length) =
    let subtag_length = length text - primary_length - 1 in
    if ltb primary_length 2 || ltb 3 primary_length
    then false
    else if primary_length == length text
    then true
    else if ltb subtag_length 2 || ltb 8 subtag_length
    then false
    else all_alpha (drop (primary_length + 1) text)

unfoldable pub is_valid_language_code : List ℕ → Bool → Bool
unfolding tag_test scan_primary same_text is_alpha strnlen
is_valid_language_code code allow_auto =
    let len = strnlen code 16 in
    let text = take len code in
    if len == 0 || leb 16 len
    then false
    else if allow_auto && same_text text auto_text
    then true
    else tag_test text (scan_primary text 0)

abbrev pub Letters : List ℕ → Type 0
Letters = All (λ c. is_alpha c ≡ true)

-- A language tag: two or three letters, and then nothing or a '-' and two to eight letters.
pub data IsTag (text : List ℕ) : Type 0 where
  primary : (p : List ℕ) → text ≡ p → Letters p → 2 ≤ length p → length p ≤ 3 → IsTag text
  with_subtag :
      (p s : List ℕ)
      → text ≡ p ++ b'-' ∷ s
      → Letters p
      → 2 ≤ length p
      → length p ≤ 3
      → Letters s
      → 2 ≤ length s
      → length s ≤ 8
      → IsTag text

same_text-eq : (xs ys : List ℕ) → same_text xs ys ≡ true → xs ≡ ys
unfolding same_text
same_text-eq [] [] e = refl
same_text-eq [] (b ∷ bs) e = cc
same_text-eq (a ∷ as') [] e = cc
same_text-eq (a ∷ as') (b ∷ bs) e = ground (arith, same_text-eq as' bs)

same_text_self : (xs : List ℕ) → same_text xs xs ≡ true
unfolding same_text
same_text_self [] = refl
same_text_self (a ∷ as') = ground (arith, same_text_self as')

all_alpha_iff : (s : List ℕ) → (all_alpha s ≡ true) ↔ Letters s
unfolding all_alpha
all_alpha_iff [] = (λ e. tt, λ e. refl)
all_alpha_iff (c ∷ s) =
    (λ e. ground (arith, (all_alpha_iff s).0), λ e. ground (arith, (all_alpha_iff s).1))

-- Where the first loop stops.
abbrev Stop : List ℕ → ℕ → ℕ → Type 0
Stop text n k =
    (p r : List ℕ) × (text ≡ p ++ r)
    × (k ≡ n + length p)
    × Letters p
    × ((r ≡ []) ⊎ ((s : List ℕ) × (r ≡ b'-' ∷ s)))

scan_primary-Stop : (text : List ℕ) (n k : ℕ) → scan_primary text n ≡ some k → Stop text n k
unfolding scan_primary
scan_primary-Stop [] n k e = ([], [], refl, ground arith, tt, inl refl)
scan_primary-Stop (c ∷ cs) n k e = elim (Bool-cases (c == b'-')) [
  | inl z ↦ ([], c ∷ cs, refl, ground arith, tt, inr (cs, ap (λ b. b ∷ cs) (ground arith)))
  | inr nz ↦ elim (Bool-cases (is_alpha c)) [
    | inl a ↦
        let (p, r, split, count, letters, stop) = scan_primary-Stop cs (n + 1) k (ground arith) in
        (c ∷ p, r, ap (◌∷◌ c) split, omega arith, (a, letters), stop)
    | inr na ↦ ground arith
  ]
]

alpha_no_dash : (c : ℕ) → is_alpha c ≡ true → (c == b'-') ≡ false
unfolding is_alpha
alpha_no_dash c h = ground arith

scan_primary-Letters : (p : List ℕ) (n : ℕ) → Letters p → scan_primary p n ≡ some (n + length p)
unfolding scan_primary
scan_primary-Letters [] n h = ground arith
scan_primary-Letters (c ∷ p) n h =
    ground (arith, scan_primary-Letters p (n + 1) h.1, alpha_no_dash c h.0)

scan_primary-dash :
    (p s : List ℕ) (n : ℕ) → Letters p → scan_primary (p ++ b'-' ∷ s) n ≡ some (n + length p)
unfolding scan_primary
scan_primary-dash [] s n h = ground arith
scan_primary-dash (c ∷ p) s n h =
    ground (arith, scan_primary-dash p s (n + 1) h.1, alpha_no_dash c h.0)

suc_plus_one : (n : ℕ) → suc n + 1 ≡ suc (n + 1)
suc_plus_one n = omega arith

drop-dash : (p s : List ℕ) → drop (length p + 1) (p ++ b'-' ∷ s) ≡ s
drop-dash [] s = refl
drop-dash (c ∷ p) s = rw (suc_plus_one (length p)) (drop-dash p s)

whole_tag : (p : List ℕ) → tag_test p (some (length p)) ≡ true → (2 ≤ length p) × (length p ≤ 3)
unfolding tag_test
whole_tag p e = ground arith

split_tag :
    (p s : List ℕ)
    → tag_test (p ++ b'-' ∷ s) (some (length p)) ≡ true
    → (2 ≤ length p) × (length p ≤ 3) × (2 ≤ length s) × (length s ≤ 8) × (all_alpha s ≡ true)
unfolding tag_test
split_tag p s e = ground (arith, length-append p (b'-' ∷ s), drop-dash p s)

IsTag-of_Stop : (text : List ℕ) (k : ℕ) → Stop text 0 k → tag_test text (some k) ≡ true → IsTag text
IsTag-of_Stop text k (p, r, split, count, letters, inl e) t =
    let text-p : text ≡ p = split ∙ ap (◌++◌ p) e ∙ append-nil p in
    let k-p : k ≡ length p = omega arith in
    let (lo, hi) = whole_tag p (rw (text-p, k-p) at t) in primary p text-p letters lo hi
IsTag-of_Stop text k (p, r, split, count, letters, inr (s, e)) t =
    let text-ps : text ≡ p ++ b'-' ∷ s = split ∙ ap (◌++◌ p) e in
    let k-p : k ≡ length p = omega arith in
    let (lo, hi, slo, shi, al) = split_tag p s (rw (text-ps, k-p) at t) in
    with_subtag p s text-ps letters lo hi ((all_alpha_iff s).0 al) slo shi

tag_test-IsTag : (text : List ℕ) → tag_test text (scan_primary text 0) ≡ true → IsTag text
unfolding tag_test
tag_test-IsTag text e = elim (Option-cases (scan_primary text 0)) [
  | inl n ↦ absurd (false≢true (ap (tag_test text) (sym n) ∙ e))
  | inr (k, f) ↦
      IsTag-of_Stop text k (scan_primary-Stop text 0 k f) (sym (ap (tag_test text) f) ∙ e)
]

IsTag-tag_test : (text : List ℕ) → IsTag text → tag_test text (scan_primary text 0) ≡ true
unfolding tag_test
IsTag-tag_test text (primary p e h lo hi) = rw (e, scan_primary-Letters p 0 h) (ground arith)
IsTag-tag_test text (with_subtag p s e h lo hi hs slo shi) =
    rw (e, scan_primary-dash p s 0 h, length-append p (b'-' ∷ s))
      (ground (arith, drop-dash p s, (all_alpha_iff s).1 hs))

IsTag-length : (text : List ℕ) → IsTag text → (2 ≤ length text) × (length text ≤ 12)
IsTag-length text (primary p e h lo hi) = omega (arith, ap length e)
IsTag-length text (with_subtag p s e h lo hi hs slo shi) =
    omega (arith, ap length e, length-append p (b'-' ∷ s))

-- The tests in front, on the values that they compare.
front :
    (len : ℕ) (allow same tagged : Bool)
    → (if len == 0 || leb 16 len then false else if allow && same then true else tagged) ≡ true
    → (len < 16) × (((allow ≡ true) × (same ≡ true)) ⊎ (tagged ≡ true))
front len true true tagged e = ground arith
front len true false tagged e = ground arith
front len false same tagged e = ground arith

back :
    (len : ℕ) (allow same tagged : Bool)
    → 0 < len
    → len < 16
    → ((allow ≡ true) × (same ≡ true)) ⊎ (tagged ≡ true)
    → (if len == 0 || leb 16 len then false else if allow && same then true else tagged) ≡ true
back len allow same tagged pos lt (inl h) = ground arith
back len allow same tagged pos lt (inr h) = ground arith

abbrev Accepted : Bool → List ℕ → Type 0
Accepted allow text = ((allow ≡ true) × (text ≡ auto_text)) ⊎ IsTag text

Accepted-as :
    (allow : Bool) (text : List ℕ)
    → ((allow ≡ true) × (same_text text auto_text ≡ true))
      ⊎ (tag_test text (scan_primary text 0) ≡ true)
    → Accepted allow text
Accepted-as allow text (inl (a, e)) = inl (a, same_text-eq text auto_text e)
Accepted-as allow text (inr e) = inr (tag_test-IsTag text e)

Accepted-by :
    (allow : Bool) (text : List ℕ)
    → Accepted allow text
    → ((allow ≡ true) × (same_text text auto_text ≡ true))
      ⊎ (tag_test text (scan_primary text 0) ≡ true)
Accepted-by allow text (inl (a, e)) = inl (a, rw e (same_text_self auto_text))
Accepted-by allow text (inr t) = inr (IsTag-tag_test text t)

Accepted-pos : (allow : Bool) (text : List ℕ) → Accepted allow text → 0 < length text
Accepted-pos allow text (inl (a, e)) = omega (arith, ap length e)
Accepted-pos allow text (inr t) = omega (arith, (IsTag-length text t).0)

-- An array of 16 bytes is accepted exactly if a NUL ends its string within the array and the
-- string is a language tag, or "auto" where that is allowed.
pub is_valid_language_code_iff :
    (code : List ℕ) (allow_auto : Bool)
    → (is_valid_language_code code allow_auto ≡ true) ↔ (
        (strnlen code 16 < 16)
        × (((allow_auto ≡ true) × (take (strnlen code 16) code ≡ auto_text))
            ⊎ IsTag (take (strnlen code 16) code)))
unfolding is_valid_language_code
is_valid_language_code_iff code allow_auto = (
  λ e.
      let (lt, why) = front (strnlen code 16) allow_auto _ _ e in
      (lt, Accepted-as allow_auto (take (strnlen code 16) code) why),
  λ h.
      back (strnlen code 16) allow_auto _ _
        (omega (arith, Accepted-pos allow_auto _ h.1, length-take (strnlen code 16) code)) h.0
        (Accepted-by allow_auto _ h.1),
)
