-- ===== src/Protocol/Roundtrip/Caption.antt =====
-- Round trip of CAPTION_SEGMENT, whose translation is an optional trailer.
use mathlib.Core.Option.{get_or}
use vlc_whisper.Common.{
  ℕ, suc, ◌+◌, ◌≡◌, refl, ap, ◌∙◌, sym, Bool, true, false, Option, none, some, List, [], ◌++◌,
  arith, ltb, le→leb, if◌then◌else◌, length, flatten, length-append, ◌&&◌, ◌||◌,
}
use vlc_whisper.Protocol.Wire.{
  ◌>>◌, finish, done, write_all, length-le_bytes, bind-field, bind-require,
}
use vlc_whisper.Protocol.Types.{CaptionSegment, Pointer, session_id_bytes, is_null}
use vlc_whisper.Protocol.WellFormed.{Points, IsCaption, IsTrailer}
use vlc_whisper.Protocol.Encode.{caption_fields, translation_trailer, encode_caption}
use vlc_whisper.Protocol.Decode.{decode_caption, decode_trailer}
use vlc_whisper.Protocol.Roundtrip.Shared.{
  Carries, write_all-append, then_write, bind-array, bind-pointer, bind-remaining, length-array,
  some-Points, length-read_at,
}

abbrev pub trailer_if : Bool → CaptionSegment → List (List ℕ)
trailer_if false p = []
trailer_if true p = translation_trailer p

abbrev pub trailer_size : Bool → CaptionSegment → ℕ
trailer_size false p = 0
trailer_size true p = suc (6 + p.translated_text_bytes)

translated_null :
    (ptr : Pointer) (n : ℕ) (text : List ℕ)
    → ptr ≡ (if ltb 0 n then some text else none)
    → (ltb 0 n && is_null ptr) ≡ false
translated_null none n text h = ground arith
translated_null (some bs) n text h = ground arith

trailer_writes :
    (p : CaptionSegment) (b : Bool) (room : ℕ) (r : Option (List ℕ))
    → p.translation_attempted ≡ b
    → IsTrailer b p
    → elim r [
      | none ↦ none
      | some out ↦
          if ltb 0 p.translated_text_bytes && is_null p.translated_text_utf8
          then none
          else if p.translation_attempted || ltb 0 p.translated_text_bytes
          then write_all room (translation_trailer p) out
          else some out
    ]
      ≡ then_write room (trailer_if b p) r
unfolding write_all
trailer_writes p b room none e t = refl
trailer_writes p false room (some out) e t = ground arith
trailer_writes p true room (some out) e t = rw (translated_null _ _ _ t.0, e) refl

guarded :
    (ptr : Pointer) (n : ℕ) (r : Option (List ℕ))
    → Points ptr n
    → (if ltb 0 n && is_null ptr then none else r) ≡ r
guarded none n r h = elim h [ ]
guarded (some bs) n r h = ground arith

encode_caption-eq :
    (p : CaptionSegment) (room : ℕ)
    → IsCaption p
    → let bs = flatten (caption_fields p ++ trailer_if p.translation_attempted p) in
      encode_caption p room ≡ (if ltb room (length bs) then none else some bs)
unfolding encode_caption
encode_caption-eq p room v =
    guarded p.text_utf8 p.text_bytes _ v.points
    ∙ trailer_writes p _ room _ refl v.trailer
    ∙ write_all-append room (caption_fields p) (trailer_if p.translation_attempted p)

-- A caption with the fields of `p` and no translation.
abbrev bare : CaptionSegment → CaptionSegment
bare p = record p {
  text_utf8 = some (get_or p.text_utf8 []);
  translated_text_utf8 = none;
  translated_text_bytes = 0;
  translation_attempted = false;
  translation_latency_us = 0;
  translation_tier = 0;
}

trailer_carried :
    (p : CaptionSegment) (b : Bool)
    → IsCaption p
    → p.translation_attempted ≡ b
    → IsTrailer b p
    → (length (flatten (trailer_if b p)) ≡ trailer_size b p)
      × (finish (decode_trailer (trailer_size b p) (bare p) (flatten (trailer_if b p))) ≡ some p)
unfolding decode_trailer finish done ◌>>◌
trailer_carried p false v e t = (
  refl,
  λ i. some (record p {
    text_utf8 = some-Points _ _ v.points i;
    translated_text_utf8 = sym t.0 i;
    translated_text_bytes = sym t.1 i;
    translation_attempted = sym e i;
    translation_latency_us = sym t.2 i;
    translation_tier = sym t.3 i;
  }),
)
trailer_carried p true v e t = (
  omega (arith, length-append {0}, length-le_bytes, length-array _ _ t.1),
  ap finish (
        bind-require _ _ _ (le→leb _ _ (omega arith))
        ∙ bind-field 2 p.translated_text_bytes _ _ v.translated_fits
        ∙ bind-array p.translated_text_bytes (get_or p.translated_text_utf8 []) _ _ t.1
        ∙ bind-remaining 5 _ _ (omega (arith, length-append {0}, length-le_bytes))
        ∙ bind-require _ _ _ refl
        ∙ bind-field 4 p.translation_latency_us _ _ v.latency_fits
        ∙ bind-field 1 p.translation_tier _ _ v.tier_fits)
      ∙ (λ i. some (record p {
        text_utf8 = some-Points _ _ v.points i;
        translated_text_utf8 = sym t.0 i;
        translation_attempted = sym e i;
      })),
)

pub caption_carried :
    (p : CaptionSegment)
    → IsCaption p
    → Carries
        (encode_caption p)
        decode_caption
        p
        (43 + p.text_bytes + trailer_size p.translation_attempted p)
unfolding decode_caption
caption_carried p v =
    let (l, d) = trailer_carried p _ v refl v.trailer in
    (
      flatten (caption_fields p ++ trailer_if p.translation_attempted p),
      λ room. encode_caption-eq p room v,
      omega (
        arith,
        l,
        length-append {0},
        length-le_bytes,
        length-array _ _ v.session,
        length-read_at _ _ v.points,
      ),
      ap finish (
            bind-array session_id_bytes p.session_id _ _ v.session
            ∙ bind-field 8 p.segment_id _ _ v.id_fits
            ∙ bind-field 8 p.start_pts_us _ _ v.start_fits
            ∙ bind-field 8 p.end_pts_us _ _ v.end_fits
            ∙ bind-field 1 p.is_final _ _ v.final_fits
            ∙ bind-field 2 p.text_bytes _ _ v.length_fits
            ∙ bind-pointer p.text_utf8 p.text_bytes _ _ v.points
            ∙ bind-remaining (trailer_size p.translation_attempted p) _ _ l)
          ∙ d,
    )
