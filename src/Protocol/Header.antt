-- ===== src/Protocol/Header.antt =====
-- The frame header: vw_protocol_encode_header and vw_protocol_decode_header of
-- protocol/src/vw_protocol_codec.c, vw_protocol_validate_header of
-- protocol/src/vw_protocol_validate.c.
use vlc_whisper.Common.{
  ℕ, ◌^◌, ◌≤◌, ◌<◌, ◌≡◌, refl, ◌∙◌, Bool, true, false, not, ◌||◌, Option, none, some, List, [], ◌∷◌,
  ◌++◌, append_assoc, ◌↔◌, arith, ltb, ◌==◌, if◌then◌else◌, length, flatten, length-append,
}
use vlc_whisper.Protocol.Wire.{le_bytes, Reader, field, done, ◌>>=◌, bind-field, length-le_bytes}
use vlc_whisper.Protocol.Types.{FrameHeader, protocol_magic, version_major, max_payload_bytes}

-- sizeof(vw_frame_header_t)
abbrev pub header_bytes : ℕ
header_bytes = 20

-- The packed struct as `memcpy` sees it.
pub header_image : FrameHeader → List ℕ
header_image h = flatten (
    le_bytes 4 h.magic
    ∷ le_bytes 2 h.major
    ∷ le_bytes 2 h.type
    ∷ le_bytes 4 h.payload_length
    ∷ le_bytes 8 h.sequence
    ∷ [])

-- `none` is `return false`.
unfoldable pub encode_header : FrameHeader → ℕ → Option (List ℕ)
encode_header h room = if ltb room header_bytes then none else some (header_image h)

unfoldable pub validate_header : FrameHeader → Bool
validate_header h =
    if not (h.magic == protocol_magic)
    then false
    else if not (h.major == version_major)
    then false
    else if ltb max_payload_bytes h.payload_length
    then false
    else if ltb h.type 1 || ltb 16 h.type
    then false
    else true

-- The struct whose image the first 20 bytes are. A longer buffer is read only so far.
pub header_of_image : Reader FrameHeader
header_of_image = do
  magic ← field 4
  major ← field 2
  type ← field 2
  payload_length ← field 4
  sequence ← field 8
  done (record {
    magic = magic;
    major = major;
    type = type;
    payload_length = payload_length;
    sequence = sequence;
  })

unfoldable pub decode_header : List ℕ → Option FrameHeader
decode_header bs = if ltb (length bs) header_bytes then none else elim (header_of_image bs) [
  | none ↦ none
  | some (h, rest) ↦ if validate_header h then some h else none
]

-- The fields have the widths of the struct.
pub record IsHeader (h : FrameHeader) : Type 0 where
  pub magic_fits : h.magic < 256 ^ 4
  pub major_fits : h.major < 256 ^ 2
  pub type_fits : h.type < 256 ^ 2
  pub length_fits : h.payload_length < 256 ^ 4
  pub sequence_fits : h.sequence < 256 ^ 8

pub header_of_image-header_image :
    (h : FrameHeader) (rest : List ℕ)
    → IsHeader h
    → header_of_image (header_image h ++ rest) ≡ some (h, rest)
unfolding header_of_image header_image done
header_of_image-header_image h rest v = simp append_assoc (
    bind-field 4 h.magic _ _ v.magic_fits
    ∙ bind-field 2 h.major _ _ v.major_fits
    ∙ bind-field 2 h.type _ _ v.type_fits
    ∙ bind-field 4 h.payload_length _ _ v.length_fits
    ∙ bind-field 8 h.sequence _ _ v.sequence_fits)

pub length-header_image : (h : FrameHeader) → length (header_image h) ≡ header_bytes
unfolding header_image
length-header_image h = omega (arith, length-append {0}, length-le_bytes)

-- A header is encoded as 20 bytes, unless the buffer is smaller, which is an error. Read back from
-- any frame that begins with them it is the same header if `validate_header` accepts it, and an
-- error if not.
pub decode_header-encode_header :
    (h : FrameHeader) (room : ℕ) (payload : List ℕ)
    → IsHeader h
    → (bs : List ℕ) × (encode_header h room ≡ (if ltb room header_bytes then none else some bs))
      × (length bs ≡ header_bytes)
      × (decode_header (bs ++ payload) ≡ (if validate_header h then some h else none))
unfolding encode_header decode_header
decode_header-encode_header h room payload v = (
  header_image h,
  refl,
  length-header_image h,
  ground (
    arith,
    length-append (header_image h) payload,
    length-header_image h,
    header_of_image-header_image h payload v,
  ),
)

-- `validate_header` accepts exactly the headers of this protocol: its magic number and major
-- version, a payload of at most 1 MiB, and a type from HELLO to TRANSLATE_CTRL.
pub validate_header_iff :
    (h : FrameHeader)
    → (validate_header h ≡ true) ↔ (
        (h.magic ≡ protocol_magic)
        × (h.major ≡ version_major)
        × (h.payload_length ≤ max_payload_bytes)
        × (1 ≤ h.type)
        × (h.type ≤ 16))
unfolding validate_header
validate_header_iff h = (λ e. ground arith, λ e. ground arith)
