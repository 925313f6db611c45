-- ===== src/Sha256/Tests.antt =====
-- A test vector of FIPS 180-4, and the theorems on the hash at concrete inputs.
use vlc_whisper.Common.{◌≡◌, refl, [], ◌∷◌, replicate}
use vlc_whisper.Sha256.Standard.{standard, sha256-standard}
use vlc_whisper.Sha256.{
  sha256, final, update, init, put_byte, transform, load_words, extend_words, rounds, digest,
}

sha256_abc :
    sha256 (replicate 64 7) (b'a' ∷ b'b' ∷ b'c' ∷ [])
    ≡ 0xba ∷ 0x78 ∷ 0x16 ∷ 0xbf ∷ 0x8f ∷ 0x01 ∷ 0xcf ∷ 0xea ∷ 0x41 ∷ 0x41 ∷ 0x40 ∷ 0xde ∷ 0x5d
      ∷ 0xae ∷ 0x22 ∷ 0x23 ∷ 0xb0 ∷ 0x03 ∷ 0x61 ∷ 0xa3 ∷ 0x96 ∷ 0x17 ∷ 0x7a ∷ 0x9c ∷ 0xb4 ∷ 0x10
      ∷ 0xff ∷ 0x61 ∷ 0xf2 ∷ 0x00 ∷ 0x15 ∷ 0xad ∷ []
unfolding sha256 final update init put_byte transform load_words extend_words rounds digest
sha256_abc = refl

sha256-standard_example :
    final (update (update (init (replicate 64 7)) (b'a' ∷ [])) (b'b' ∷ b'c' ∷ []))
    ≡ standard (b'a' ∷ b'b' ∷ b'c' ∷ [])
sha256-standard_example = sha256-standard (replicate 64 7) (b'a' ∷ []) (b'b' ∷ b'c' ∷ []) refl
