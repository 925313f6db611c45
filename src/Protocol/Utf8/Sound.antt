-- ===== src/Protocol/Utf8/Sound.antt =====
-- One turn of the loops reads exactly the characters of the standard.
use vlc_whisper.Common.{ℕ, ◌<◌, ◌≡◌, Option, none, some, List, [], ◌∷◌, ◌++◌, arith, All}
use vlc_whisper.Protocol.Utf8.{read_char}
use vlc_whisper.Protocol.Utf8.Scalars.{IsScalar, encode_char}

abbrev pub IsByte : ℕ → Type 0
IsByte b = b < 256

-- The first byte of a character followed by the others.
abbrev pub reads : List ℕ → Option (ℕ × List ℕ)
reads [] = none
reads (c ∷ cs) = read_char c cs

pub read_char-encode_char :
    (cp : ℕ) (rest : List ℕ) → IsScalar cp → reads (encode_char cp ++ rest) ≡ some (cp, rest)
unfolding read_char
read_char-encode_char cp rest h = ground arith

pub read_char_sound :
    (c : ℕ) (rest : List ℕ) (cp : ℕ) (rest' : List ℕ)
    → c < 256
    → All IsByte rest
    → read_char c rest ≡ some (cp, rest')
    → IsScalar cp × (c ∷ rest ≡ encode_char cp ++ rest')
unfolding read_char
read_char_sound c [] cp rest' hc h e = ground arith
read_char_sound c (n ∷ []) cp rest' hc h e = ground arith
read_char_sound c (n ∷ m ∷ []) cp rest' hc h e = ground arith
read_char_sound c (n ∷ m ∷ k ∷ rest) cp rest' hc h e = ground arith
