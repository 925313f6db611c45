-- ===== src/Protocol/Validate/Cues.antt =====
-- What vw_protocol_validate_payload accepts of CAPTION_SEGMENT.
use mathlib.Core.Option.{get_or}
use vlc_whisper.Common.{
  ℕ, ◌≤◌, ◌<◌, ◌≡◌, ◌⊎◌, inl, inr, true, false, arith, List, [], ◌∷◌, All, take,
}
use vlc_whisper.Protocol.Types.{CaptionSegment, Pointer, is_null, max_text_bytes}
use vlc_whisper.Protocol.Utf8.{is_valid_utf8}
use vlc_whisper.Protocol.Utf8.Sound.{IsByte}
use vlc_whisper.Protocol.Utf8.Valid.{IsUtf8, is_valid_utf8_iff}
use vlc_whisper.Protocol.Validate.{
  validate_caption, validate_text, is_empty_or_whitespace, all_blank, no_control, lt_i64,
}

-- Text that a viewer can be shown: UTF-8 of 1 to 1024 bytes, not all blank, with no byte below 0x20
-- but the line feed. DEL and U+0080 to U+009F are not excluded.
pub record IsShown (text : Pointer) (n : ℕ) : Type 0 where
  pub bounds : (0 < n) × (n ≤ max_text_bytes)
  pub present : is_null text ≡ false
  pub utf8 : IsUtf8 (take n (get_or text []))
  pub visible : all_blank (take n (get_or text [])) ≡ false
  pub plain : All (λ c. (0x20 ≤ c) ⊎ (c ≡ 10)) (take n (get_or text []))

no_control-All : (cs : List ℕ) → no_control cs ≡ true → All (λ c. (0x20 ≤ c) ⊎ (c ≡ 10)) cs
unfolding no_control
no_control-All [] e = tt
no_control-All (c ∷ cs) e = ground (arith, no_control-All cs)

validate_text-parts :
    (text : Pointer) (n : ℕ)
    → validate_text text n ≡ true
    → (0 < n)
      × (n ≤ max_text_bytes)
      × (is_null text ≡ false)
      × (is_valid_utf8 (get_or text []) n ≡ true)
      × (all_blank (take n (get_or text [])) ≡ false)
      × (no_control (take n (get_or text [])) ≡ true)
unfolding validate_text is_empty_or_whitespace
validate_text-parts text n e = ground arith

validate_text-IsShown :
    (text : Pointer) (n : ℕ)
    → All IsByte (get_or text [])
    → validate_text text n ≡ true
    → IsShown text n
validate_text-IsShown text n h e =
    let (pos, fits, present, utf8, visible, plain) = validate_text-parts text n e in
    record {
      bounds = (pos, fits);
      present = present;
      utf8 = (is_valid_utf8_iff (get_or text []) n h).0 utf8;
      visible = visible;
      plain = no_control-All _ plain;
    }

validate_caption-parts :
    (p : CaptionSegment)
    → validate_caption p ≡ true
    → (lt_i64 p.start_pts_us p.end_pts_us ≡ true)
      × (validate_text p.text_utf8 p.text_bytes ≡ true)
      × (((0 < p.translated_text_bytes)
            × (validate_text p.translated_text_utf8 p.translated_text_bytes ≡ true)
            × (p.translation_attempted ≡ true)
            × (1 ≤ p.translation_tier)
            × (p.translation_tier ≤ 3))
          ⊎ ((p.translated_text_bytes ≡ 0)
              × (is_null p.translated_text_utf8 ≡ true)
              × (p.translation_tier ≡ 0)))
      × ((p.translation_attempted ≡ true) ⊎ (p.translation_latency_us ≡ 0))
unfolding validate_caption
validate_caption-parts p e = ground arith

-- How a caption may stand to its translation: it has one that can be shown, from a tier 1 to 3, or
-- has neither text nor tier; a latency only if a translation was tried.
abbrev pub IsTranslation : CaptionSegment → Type 0
IsTranslation p =
    (IsShown p.translated_text_utf8 p.translated_text_bytes
      × (p.translation_attempted ≡ true)
      × (1 ≤ p.translation_tier)
      × (p.translation_tier ≤ 3))
    ⊎ ((p.translated_text_bytes ≡ 0)
        × (is_null p.translated_text_utf8 ≡ true)
        × (p.translation_tier ≡ 0))

IsTranslation-of :
    (p : CaptionSegment)
    → All IsByte (get_or p.translated_text_utf8 [])
    → ((0 < p.translated_text_bytes)
        × (validate_text p.translated_text_utf8 p.translated_text_bytes ≡ true)
        × (p.translation_attempted ≡ true)
        × (1 ≤ p.translation_tier)
        × (p.translation_tier ≤ 3))
      ⊎ ((p.translated_text_bytes ≡ 0)
          × (is_null p.translated_text_utf8 ≡ true)
          × (p.translation_tier ≡ 0))
    → IsTranslation p
IsTranslation-of p h (inl (pos, v, a, lo, hi)) =
    inl (validate_text-IsShown p.translated_text_utf8 p.translated_text_bytes h v, a, lo, hi)
IsTranslation-of p h (inr r) = inr r

-- An accepted caption ends after it starts, and its text can be shown: 1 to 1024 bytes of UTF-8, not
-- all blank, with no byte below 0x20 but the line feed (DEL and U+0080 to U+009F may stand in it). So
-- can its translation, if it has one.
pub validate_caption-IsShown :
    (p : CaptionSegment)
    → All IsByte (get_or p.text_utf8 [])
    → All IsByte (get_or p.translated_text_utf8 [])
    → validate_caption p ≡ true
    → (lt_i64 p.start_pts_us p.end_pts_us ≡ true)
      × IsShown p.text_utf8 p.text_bytes
      × IsTranslation p
      × ((p.translation_attempted ≡ true) ⊎ (p.translation_latency_us ≡ 0))
validate_caption-IsShown p h k e =
    let (order, text, translation, latency) = validate_caption-parts p e in
    (
      order,
      validate_text-IsShown p.text_utf8 p.text_bytes h text,
      IsTranslation-of p k translation,
      latency,
    )
