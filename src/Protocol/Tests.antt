-- ===== src/Protocol/Tests.antt =====
-- The theorems on the protocol at concrete inputs, and runs of the code.
use vlc_whisper.Common.{
  ℕ, ◌≡◌, ◌≢◌, ◌↔◌, ◌⊎◌, inl, ◌≤◌, ◌<◌, ◌+◌, ◌-◌, ◌^◌, refl, arith, true, false, none, some, List,
  [], ◌∷◌, ◌++◌, All, length, take, replicate, ltb, if◌then◌else◌,
}
use vlc_whisper.Common.Int.{pos, ◌+ℤ◌, ◌-ℤ◌}
use vlc_whisper.Protocol.Saturating.{
  saturating_add_i64, saturating_sub_i64, clamp, saturating-clamp,
}
use vlc_whisper.Protocol.Types.{
  FrameHeader, Position, Audio, CaptionSegment, audio_pcm, message_type, protocol_magic,
}
use vlc_whisper.Protocol.Header.{
  encode_header, decode_header, validate_header, header_bytes, decode_header-encode_header,
}
use vlc_whisper.Protocol.Encode.{encode_payload, strnlen}
use vlc_whisper.Protocol.Decode.{decode_payload}
use vlc_whisper.Protocol.Roundtrip.Messages.{decode_payload-encode_payload}
use vlc_whisper.Protocol.Utf8.{is_valid_utf8, read_char, utf8_safe_len}
use vlc_whisper.Protocol.Utf8.Scalars.{encode_text}
use vlc_whisper.Protocol.Utf8.Valid.{IsUtf8, is_valid_utf8_iff}
use vlc_whisper.Protocol.Utf8.Safe.{utf8_safe_len-IsUtf8, utf8_safe_len-longest}
use vlc_whisper.Protocol.Language.{
  is_valid_language_code, is_valid_language_code_iff, IsTag, auto_text,
}
use vlc_whisper.Protocol.Validate.{
  validate_caption, validate_text, is_empty_or_whitespace, all_blank, no_control, lt_i64,
}
use vlc_whisper.Protocol.Validate.Cues.{IsShown, IsTranslation, validate_caption-IsShown}

abbrev session : List ℕ
session = replicate 16 7

abbrev frame_header : FrameHeader
frame_header = record {
  magic = protocol_magic;
  major = 1;
  type = 4;
  payload_length = 40;
  sequence = 9;
}

decode_header-encode_header_example :
    (bs : List ℕ) × (encode_header frame_header 64
      ≡ (if ltb 64 header_bytes then none else some bs))
    × (length bs ≡ header_bytes)
    × (decode_header (bs ++ 1 ∷ 2 ∷ [])
        ≡ (if validate_header frame_header then some frame_header else none))
decode_header-encode_header_example =
    decode_header-encode_header frame_header 64 (1 ∷ 2 ∷ []) (record {
      magic_fits = omega arith;
      major_fits = omega arith;
      type_fits = omega arith;
      length_fits = omega arith;
      sequence_fits = omega arith;
    })

-- Two samples.
abbrev audio : Audio
audio = record {
  session_id = session;
  start_pts_us = 5000000;
  duration_us = 125;
  pcm_bytes = 4;
  pcm_data = some (1 ∷ 2 ∷ 3 ∷ 4 ∷ []);
}

decode_payload-encode_payload_example :
    (bs : List ℕ) × (encode_payload (audio_pcm audio) 100
      ≡ (if ltb 100 (length bs) then none else some bs))
    × (length bs ≡ 36 + 4)
    × (decode_payload 4 bs ≡ some (audio_pcm audio))
unfolding message_type
decode_payload-encode_payload_example =
    decode_payload-encode_payload (audio_pcm audio) 100 (record {
      session = refl;
      start_fits = omega arith;
      duration_fits = omega arith;
      length_fits = omega arith;
      points = refl;
    })

-- One and a half times the speed, before the start of the media.
abbrev playback : Position
playback = record {
  session_id = session;
  current_pts_us = 2 ^ 64 - 5;
  input_time_us = 70;
  playback_rate = 0x3FC00000;
  flags = 1;
}

-- "né" and the first byte of a character.
abbrev text : List ℕ
text = 0x6E ∷ 0xC3 ∷ 0xA9 ∷ 0xE2 ∷ []

is_valid_utf8_iff_example : (is_valid_utf8 text 3 ≡ true) ↔ IsUtf8 (0x6E ∷ 0xC3 ∷ 0xA9 ∷ [])
is_valid_utf8_iff_example =
    is_valid_utf8_iff text 3 (omega arith, (omega arith, (omega arith, (omega arith, tt))))

utf8_safe_len-IsUtf8_example :
    (utf8_safe_len text 4 ≤ 4)
    × IsUtf8 (take (utf8_safe_len text 4) text)
    × All (λ b. b ≢ 0) (take (utf8_safe_len text 4) text)
utf8_safe_len-IsUtf8_example =
    utf8_safe_len-IsUtf8 text 4 (omega arith, (omega arith, (omega arith, (omega arith, tt))))

utf8_safe_len-longest_example : length (encode_text (0x6E ∷ 0xE9 ∷ [])) ≤ utf8_safe_len text 4
utf8_safe_len-longest_example =
    utf8_safe_len-longest text 4 (0x6E ∷ 0xE9 ∷ []) (0xE2 ∷ [])
      (inl (omega arith), (inl (omega arith), tt)) ((λ e. omega arith), ((λ e. omega arith), tt))
      refl

abbrev portuguese : List ℕ
portuguese = b'p' ∷ b't' ∷ b'-' ∷ b'B' ∷ b'R' ∷ replicate 11 0

is_valid_language_code_iff_example : (is_valid_language_code portuguese false ≡ true) ↔ (
    (strnlen portuguese 16 < 16)
    × (((false ≡ true) × (take (strnlen portuguese 16) portuguese ≡ auto_text))
        ⊎ IsTag (take (strnlen portuguese 16) portuguese)))
is_valid_language_code_iff_example = is_valid_language_code_iff portuguese false

abbrev caption : CaptionSegment
caption = record {
  session_id = session;
  segment_id = 3;
  start_pts_us = 1000000;
  end_pts_us = 2500000;
  is_final = 1;
  text_utf8 = some (0x6E ∷ 0xC3 ∷ 0xA9 ∷ []);
  text_bytes = 3;
  translated_text_utf8 = some (b'b' ∷ b'o' ∷ b'r' ∷ b'n' ∷ []);
  translated_text_bytes = 4;
  translation_attempted = true;
  translation_latency_us = 900;
  translation_tier = 2;
}

caption_valid : validate_caption caption ≡ true
unfolding validate_caption validate_text is_empty_or_whitespace all_blank is_valid_utf8 read_char
    no_control
caption_valid = refl

validate_caption-IsShown_example :
    (lt_i64 1000000 2500000 ≡ true)
    × IsShown (some (0x6E ∷ 0xC3 ∷ 0xA9 ∷ [])) 3
    × IsTranslation caption
    × ((true ≡ true) ⊎ (caption.translation_latency_us ≡ 0))
validate_caption-IsShown_example =
    validate_caption-IsShown caption (omega arith, (omega arith, (omega arith, tt)))
      (omega arith, (omega arith, (omega arith, (omega arith, tt)))) caption_valid

saturating-clamp_example :
    (saturating_add_i64 (pos (2 ^ 63 - 1)) (pos 5) ≡ clamp (pos (2 ^ 63 - 1) +ℤ pos 5))
    × (saturating_sub_i64 (pos (2 ^ 63 - 1)) (pos 5) ≡ clamp (pos (2 ^ 63 - 1) -ℤ pos 5))
saturating-clamp_example =
    saturating-clamp (pos (2 ^ 63 - 1)) (pos 5) (omega arith, omega arith)
      (omega arith, omega arith)
