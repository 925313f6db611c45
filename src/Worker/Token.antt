-- ===== src/Worker/Token.antt =====
-- verify_token_constant_time of worker/src/vw_worker.c compares the tokens.
use Prim.Native.Nat.{digits, differ, max, bit_or, bit_xor, bit_or-bitwise, bit_xor-bitwise}
use vlc_whisper.Common.{
  ℕ, zero, suc, ◌/◌, ◌%◌, ◌≤◌, ◌≡◌, ◌↔◌, refl, ap, sym, ◌∙◌, true, List, [], ◌∷◌, arith, ==_iff,
  length,
}
use vlc_whisper.Worker.MainLoop.Entry.{token_diff, verify_token_constant_time}

or_digits_zero : (n a b : ℕ) → a ≤ n → digits (λ b. b) max n a b ≡ 0 → (a ≡ 0) × (b ≡ 0)
or_digits_zero zero zero b le e = (refl, e)
or_digits_zero zero (suc a) b le e = absurd (omega arith)
or_digits_zero (suc n) zero b le e = (refl, e)
or_digits_zero (suc n) (suc a) b le e =
    let (high, rest) = or_digits_zero n (suc a / 2) (b / 2) (omega arith) (omega arith) in
    (omega arith, omega arith)

bit_or-zero : (a b : ℕ) → bit_or a b ≡ 0 → (a ≡ 0) × (b ≡ 0)
bit_or-zero a b e = or_digits_zero a a b (omega arith) (sym (bit_or-bitwise a b) ∙ e)

differ_zero : (x y : ℕ) → differ x y ≡ 0 → x ≡ y
differ_zero zero y e = sym e
differ_zero (suc x) zero e = e
differ_zero (suc x) (suc y) e = ap suc (differ_zero x y e)

differ_self : (x : ℕ) → differ x x ≡ 0
differ_self zero = refl
differ_self (suc x) = differ_self x

xor_digits_zero : (n a b : ℕ) → a ≤ n → digits (λ b. b) differ n a b ≡ 0 → a ≡ b
xor_digits_zero zero zero b le e = sym e
xor_digits_zero zero (suc a) b le e = absurd (omega arith)
xor_digits_zero (suc n) zero b le e = sym e
xor_digits_zero (suc n) (suc a) b le e =
    let high = xor_digits_zero n (suc a / 2) (b / 2) (omega arith) (omega arith) in
    let low = differ_zero (suc a % 2) (b % 2) (omega arith) in omega arith

xor_digits_self : (n a : ℕ) → a ≤ n → digits (λ b. b) differ n a a ≡ 0
xor_digits_self zero zero le = refl
xor_digits_self zero (suc a) le = absurd (omega arith)
xor_digits_self (suc n) zero le = refl
xor_digits_self (suc n) (suc a) le =
    omega (arith, xor_digits_self n (suc a / 2) (omega arith), differ_self (suc a % 2))

bit_xor-zero : (a b : ℕ) → bit_xor a b ≡ 0 → a ≡ b
bit_xor-zero a b e = xor_digits_zero a a b (omega arith) (sym (bit_xor-bitwise a b) ∙ e)

bit_xor_self : (a : ℕ) → bit_xor a a ≡ 0
bit_xor_self a = bit_xor-bitwise a a ∙ xor_digits_self a a (omega arith)

-- Once set, a bit stays; so equal bytes are all that leaves no bit.
token_diff-zero :
    (xs ys : List ℕ) (diff : ℕ)
    → length xs ≡ length ys
    → token_diff xs ys diff ≡ 0
    → (diff ≡ 0) × (xs ≡ ys)
unfolding token_diff
token_diff-zero [] [] diff l e = (e, refl)
token_diff-zero [] (y ∷ ys) diff l e = absurd (omega arith)
token_diff-zero (x ∷ xs) [] diff l e = absurd (omega arith)
token_diff-zero (x ∷ xs) (y ∷ ys) diff l e =
    let (both, rest) = token_diff-zero xs ys (bit_or diff (bit_xor x y)) (omega arith) e in
    let (old, same) = bit_or-zero diff (bit_xor x y) both in
    (old, rw (bit_xor-zero x y same, rest) refl)

token_diff_self : (xs : List ℕ) → token_diff xs xs 0 ≡ 0
unfolding token_diff
token_diff_self [] = refl
token_diff_self (x ∷ xs) = rw (bit_xor_self x) (token_diff_self xs)

-- Two tokens of the same length are accepted exactly if they are equal.
pub verify_token_constant_time_iff :
    (token_a token_b : List ℕ)
    → length token_a ≡ length token_b
    → (verify_token_constant_time token_a token_b ≡ true) ↔ (token_a ≡ token_b)
unfolding verify_token_constant_time
verify_token_constant_time_iff token_a token_b same_length = (
  λ e. (token_diff-zero token_a token_b 0 same_length ((==_iff _ 0).0 e)).1,
  λ e. rw⁻¹ e ((==_iff _ 0).1 (token_diff_self token_a)),
)
