-- ===== src/Protocol/Roundtrip/Fixed.antt =====
-- Round trips of the messages of fixed size with a string in an array.
use vlc_whisper.Common.{
  ℕ, refl, ap, ◌∙◌, some, arith, length-append, set, List, length, true, take, ◌++◌, ◌≡◌,
}
use vlc_whisper.Protocol.Wire.{
  Reader, ◌>>=◌, finish, done, ◌>>◌, length-le_bytes, bind-field, bind-require, bind-some,
}
use vlc_whisper.Protocol.Types.{ModelCtrl, ModelProgress, Status, TranslateCtrl, session_id_bytes}
use vlc_whisper.Protocol.WellFormed.{IsModelCtrl, IsModelProgress, IsStatus, IsTranslateCtrl}
use vlc_whisper.Protocol.Encode.{
  encode_model_ctrl, encode_model_progress, encode_status, encode_translate_ctrl,
}
use vlc_whisper.Protocol.Decode.{
  decode_model_ctrl, decode_model_progress, decode_status, decode_translate_ctrl,
  decode_status_fields, read_backend,
}
use vlc_whisper.Protocol.Roundtrip.Shared.{
  Carries, write_all-empty, bind-array, bind-remaining, length-array, EndsInNul-set,
  EndsInNul-length,
}

bind-read_backend :
    {B : Type 0} (a rest : List ℕ) (f : List ℕ → Reader B)
    → length a ≡ 16
    → (read_backend true >>= f) (take 16 a ++ rest) ≡ f (set a 15 0) rest
unfolding read_backend done
bind-read_backend a rest f h =
    bind-some (read_backend true) _ (set a 15 0) rest f
      (bind-array 16 a rest (λ name. done (set name 15 0)) h)

pub model_ctrl_carried :
    (p : ModelCtrl) → IsModelCtrl p → Carries (encode_model_ctrl p) decode_model_ctrl p 49
unfolding encode_model_ctrl decode_model_ctrl done finish ◌>>◌
model_ctrl_carried p v = (
  _,
  λ room. write_all-empty room _,
  omega (
    arith,
    length-append {0},
    length-le_bytes,
    length-array _ _ v.session,
    length-array _ _ (EndsInNul-length _ _ v.model),
  ),
  ap finish (
        bind-remaining 49 _ _ (
          omega (
            arith,
            length-append {0},
            length-le_bytes,
            length-array _ _ v.session,
            length-array _ _ (EndsInNul-length _ _ v.model),
          ))
        ∙ bind-require _ _ _ refl
        ∙ bind-array session_id_bytes p.session_id _ _ v.session
        ∙ bind-field 1 p.action _ _ v.action_fits
        ∙ bind-array 32 p.model_id _ _ (EndsInNul-length _ _ v.model))
      ∙ ap (λ a. some (record p { model_id = a })) (EndsInNul-set _ _ v.model),
)

pub model_progress_carried :
    (p : ModelProgress)
    → IsModelProgress p
    → Carries (encode_model_progress p) decode_model_progress p 66
unfolding encode_model_progress decode_model_progress done finish ◌>>◌
model_progress_carried p v = (
  _,
  λ room. write_all-empty room _,
  omega (
    arith,
    length-append {0},
    length-le_bytes,
    length-array _ _ v.session,
    length-array _ _ (EndsInNul-length _ _ v.model),
  ),
  ap finish (
        bind-remaining 66 _ _ (
          omega (
            arith,
            length-append {0},
            length-le_bytes,
            length-array _ _ v.session,
            length-array _ _ (EndsInNul-length _ _ v.model),
          ))
        ∙ bind-require _ _ _ refl
        ∙ bind-array session_id_bytes p.session_id _ _ v.session
        ∙ bind-field 1 p.stage _ _ v.stage_fits
        ∙ bind-field 1 p.pct _ _ v.pct_fits
        ∙ bind-field 8 p.bytes_done _ _ v.done_fits
        ∙ bind-field 8 p.bytes_total _ _ v.total_fits
        ∙ bind-array 32 p.model_id _ _ (EndsInNul-length _ _ v.model))
      ∙ ap (λ a. some (record p { model_id = a })) (EndsInNul-set _ _ v.model),
)

pub status_carried : (p : Status) → IsStatus p → Carries (encode_status p) decode_status p 60
unfolding encode_status decode_status done finish ◌>>◌ decode_status_fields
status_carried p v = (
  _,
  λ room. write_all-empty room _,
  omega (
    arith,
    length-append {0},
    length-le_bytes,
    length-array _ _ v.session,
    length-array _ _ (EndsInNul-length _ _ v.backend),
  ),
  ap finish (
        bind-remaining 60 _ _ (
          omega (
            arith,
            length-append {0},
            length-le_bytes,
            length-array _ _ v.session,
            length-array _ _ (EndsInNul-length _ _ v.backend),
          ))
        ∙ bind-require _ _ _ refl
        ∙ bind-array session_id_bytes p.session_id _ _ v.session
        ∙ bind-field 4 p.state _ _ v.state_fits
        ∙ bind-field 8 p.queued_audio_us _ _ v.queued_fits
        ∙ bind-field 8 p.inference_us _ _ v.inference_fits
        ∙ bind-field 8 p.dropped_audio_us _ _ v.dropped_fits
        ∙ bind-read_backend p.resolved_backend _ _ (EndsInNul-length _ _ v.backend))
      ∙ ap (λ a. some (record p { resolved_backend = a })) (EndsInNul-set _ _ v.backend),
)

pub translate_ctrl_carried :
    (p : TranslateCtrl)
    → IsTranslateCtrl p
    → Carries (encode_translate_ctrl p) decode_translate_ctrl p 50
unfolding encode_translate_ctrl decode_translate_ctrl done finish ◌>>◌
translate_ctrl_carried p v = (
  _,
  λ room. write_all-empty room _,
  omega (
    arith,
    length-append {0},
    length-le_bytes,
    length-array _ _ v.session,
    length-array _ _ (EndsInNul-length _ _ v.source),
    length-array _ _ (EndsInNul-length _ _ v.target),
  ),
  ap finish (
        bind-remaining 50 _ _ (
          omega (
            arith,
            length-append {0},
            length-le_bytes,
            length-array _ _ v.session,
            length-array _ _ (EndsInNul-length _ _ v.source),
            length-array _ _ (EndsInNul-length _ _ v.target),
          ))
        ∙ bind-require _ _ _ refl
        ∙ bind-array session_id_bytes p.session_id _ _ v.session
        ∙ bind-field 1 p.enabled _ _ v.enabled_fits
        ∙ bind-array 16 p.source_lang _ _ (EndsInNul-length _ _ v.source)
        ∙ bind-array 16 p.target_lang _ _ (EndsInNul-length _ _ v.target)
        ∙ bind-field 1 p.mode _ _ v.mode_fits)
      ∙ ap (λ a. some (record p { source_lang = a; target_lang = set p.target_lang 15 0 }))
          (EndsInNul-set _ _ v.source)
      ∙ ap (λ a. some (record p { target_lang = a })) (EndsInNul-set _ _ v.target),
)
