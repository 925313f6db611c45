-- ===== src/Protocol/Roundtrip/Text.antt =====
-- Round trips of the messages with strings: START_SESSION and ERROR.
use mathlib.Core.Bool.{false≢true}
use vlc_whisper.Common.{
  lt→leb, ℕ, zero, suc, ◌+◌, ◌-◌, ◌<◌, ◌≤◌, ◌≡◌, ◌≢◌, refl, ap, ◌∙◌, sym, Bool, true, false, Option,
  none, some, List, [], ◌∷◌, ◌++◌, arith, ltb, leb, if◌then◌else◌, length, take, replicate, flatten,
  length-append, All, take-append, lt→ltb,
}
use vlc_whisper.Protocol.Wire.{
  write_all, ◌>>◌, finish, done, le_bytes, length-le_bytes, bind-field, bind-require, bind-some,
  bind-bytes,
}
use vlc_whisper.Protocol.Types.{
  Start, ErrorMsg, session_id_bytes, max_error_msg_bytes, max_model_id_bytes, max_source_url_bytes,
}
use vlc_whisper.Protocol.WellFormed.{IsText, IsStart, IsErrorMsg}
use vlc_whisper.Protocol.Encode.{
  strnlen, capped_strnlen, encoded_url_len, encode_start, encode_error,
}
use vlc_whisper.Protocol.Decode.{has_nul, terminate, decode_url, decode_start, decode_error}
use vlc_whisper.Protocol.Roundtrip.Shared.{
  Carries, write_all-empty, write_all-append, then_write, bind-array, bind-remaining, length-array,
}

strnlen-text :
    (s : List ℕ) (k n : ℕ)
    → All (λ c. c ≢ 0) s
    → length s < n
    → strnlen (s ++ replicate k 0) n ≡ length s
unfolding strnlen
strnlen-text s k zero h lt = absurd (omega arith)
strnlen-text [] zero (suc n) h lt = refl
strnlen-text [] (suc k) (suc n) h lt = refl
strnlen-text (c ∷ s) k (suc n) h lt = ground (arith, strnlen-text s k n h.1)

capped_strnlen-text :
    (n : ℕ) (a : List ℕ) (t : IsText n a)
    → (capped_strnlen a n ≡ length t.0) × (take (length t.0) a ≡ t.0)
unfolding capped_strnlen
capped_strnlen-text n a (s, e, lt, h) = (
  ground (arith, ap (λ b. strnlen b n) e, strnlen-text s (n - length s) n h),
  rw e (take-append s (replicate (n - length s) 0)),
)

pick_len :
    (stored counted n : ℕ)
    → stored ≡ n
    → counted ≡ n
    → n < max_source_url_bytes
    → (let len = if ltb 0 stored then stored else counted in
        if leb max_source_url_bytes len then max_source_url_bytes - 1 else len)
      ≡ n
pick_len stored counted n e h lt = ground arith

encoded_url_len-text : (p : Start) (v : IsStart p) → encoded_url_len p ≡ length v.url.0
unfolding encoded_url_len
encoded_url_len-text p v =
    pick_len p.source_url_len _ (length v.url.0) v.url_length
      (ap (λ b. strnlen b max_source_url_bytes) v.url.1
        ∙ strnlen-text v.url.0 _ max_source_url_bytes v.url.3 v.url.2)
      v.url.2

take_url : (p : Start) (v : IsStart p) → take (length v.url.0) p.source_url ≡ v.url.0
take_url p v = rw v.url.1 (take-append v.url.0 _)

decode_url-text :
    (k : ℕ) (u : List ℕ)
    → length u < max_source_url_bytes
    → decode_url (suc k) (le_bytes 2 (length u) ++ (u ++ [])) ≡ some ((length u, u), [])
unfolding decode_url ◌>>◌ done
decode_url-text k u h =
    bind-field 2 (length u) _ _ (omega arith)
    ∙ bind-require _ _ _ (lt→ltb _ _ h)
    ∙ bind-bytes (length u) u [] _ refl

pub start_carried :
    (p : Start) (v : IsStart p)
    → Carries
        (encode_start p)
        decode_start
        p
        (40 + length v.model.0 + length v.language.0 + length v.url.0)
unfolding encode_start decode_start done finish
start_carried p v = (
  flatten (
      take session_id_bytes p.session_id
      ∷ le_bytes 8 p.timeline_origin_pts_us
      ∷ le_bytes 4 p.sample_rate
      ∷ le_bytes 2 p.channels
      ∷ le_bytes 2 p.sample_format
      ∷ le_bytes 2 (length v.model.0)
      ∷ v.model.0
      ∷ le_bytes 2 (length v.language.0)
      ∷ v.language.0
      ∷ le_bytes 2 p.source_kind
      ∷ le_bytes 2 (length v.url.0)
      ∷ v.url.0
      ∷ []),
  λ room.
      let (ml, mt) = capped_strnlen-text max_model_id_bytes p.model_id v.model in
      let (ll, lt) = capped_strnlen-text 16 p.language v.language in
      rw (ml, mt, ll, lt, encoded_url_len-text p v, take_url p v) (write_all-empty room _),
  omega (arith, length-append {0}, length-le_bytes, length-array _ _ v.session),
  ap finish (
        bind-array session_id_bytes p.session_id _ _ v.session
        ∙ bind-field 8 p.timeline_origin_pts_us _ _ v.origin_fits
        ∙ bind-field 4 p.sample_rate _ _ v.rate_fits
        ∙ bind-field 2 p.channels _ _ v.channels_fit
        ∙ bind-field 2 p.sample_format _ _ v.format_fits
        ∙ bind-field 2 (length v.model.0) _ _ (omega arith)
        ∙ bind-require _ _ _ (lt→ltb _ _ v.model.2)
        ∙ bind-bytes _ v.model.0 _ _ refl
        ∙ bind-field 2 (length v.language.0) _ _ (omega arith)
        ∙ bind-require _ _ _ (lt→ltb _ _ v.language.2)
        ∙ bind-bytes _ v.language.0 _ _ refl
        ∙ bind-field 2 p.source_kind _ _ v.kind_fits
        ∙ bind-remaining (suc (suc (length v.url.0))) _ _
            (omega (arith, length-append {0}, length-le_bytes))
        ∙ bind-some (decode_url _) _ (length v.url.0, v.url.0) [] _
            (decode_url-text _ v.url.0 v.url.2))
      ∙ (λ i. some (record p {
        model_id = sym v.model.1 i;
        language = sym v.language.1 i;
        source_url_len = sym v.url_length i;
        source_url = sym v.url.1 i;
      })),
)

strnlen-has_nul : (a : List ℕ) (n : ℕ) → has_nul a ≡ true → length a ≤ n → strnlen a n < n
unfolding strnlen has_nul
strnlen-has_nul [] n t h = absurd (false≢true t)
strnlen-has_nul (c ∷ a) zero t h = absurd (omega arith)
strnlen-has_nul (c ∷ a) (suc n) t h = ground (arith, strnlen-has_nul a n)

terminate-has_nul : (n : ℕ) (a : List ℕ) → has_nul a ≡ true → terminate n a ≡ a
unfolding terminate
terminate-has_nul n a t = rw t

message_branch :
    (room : ℕ) (too_long : Bool) (ds : List (List ℕ)) (r : Option (List ℕ))
    → too_long ≡ false
    → elim r [ none ↦ none | some out ↦ if too_long then none else write_all room ds out ]
      ≡ then_write room ds r
message_branch room too_long ds none h = refl
message_branch room too_long ds (some out) h = rw h

encode_error-eq :
    (p : ErrorMsg) (room : ℕ)
    → IsErrorMsg p
    → let cs =
        take session_id_bytes p.session_id
        ∷ le_bytes 4 p.error_code
        ∷ le_bytes 1 p.recoverable
        ∷ take max_error_msg_bytes p.message
        ∷ [] in
      encode_error p room ≡ (if ltb room (length (flatten cs)) then none else some (flatten cs))
unfolding encode_error
encode_error-eq p room v =
    message_branch room _ _ _ (lt→leb _ _ (strnlen-has_nul p.message _ v.terminated (omega arith)))
    ∙ write_all-append room _ (take max_error_msg_bytes p.message ∷ [])

pub error_carried : (p : ErrorMsg) → IsErrorMsg p → Carries (encode_error p) decode_error p 277
unfolding encode_error decode_error done finish
error_carried p v = (
  flatten (
      take session_id_bytes p.session_id
      ∷ le_bytes 4 p.error_code
      ∷ le_bytes 1 p.recoverable
      ∷ take max_error_msg_bytes p.message
      ∷ []),
  λ room. encode_error-eq p room v,
  omega (
    arith,
    length-append {0},
    length-le_bytes,
    length-array _ _ v.session,
    length-array _ _ v.message_size,
  ),
  ap finish (
        bind-array session_id_bytes p.session_id _ _ v.session
        ∙ bind-field 4 p.error_code _ _ v.code_fits
        ∙ bind-field 1 p.recoverable _ _ v.recoverable_fits
        ∙ bind-array max_error_msg_bytes p.message _ _ v.message_size)
      ∙ ap (λ m. some (record p { message = m })) (terminate-has_nul _ _ v.terminated),
)
