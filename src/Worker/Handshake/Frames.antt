-- ===== src/Worker/Handshake/Frames.antt =====
-- What a frame makes of a worker that waits for VW_MSG_HELLO, in worker/src/vw_worker.c.
use Prim.Native.String.{String}
use vlc_whisper.Common.{
  ℕ, ◌≡◌, ◌⊎◌, inl, inr, refl, true, false, ◌&&◌, ◌||◌, not, Option, none, some, List, [], ◌∷◌,
  ◌++◌, arith, Bool, ltb, leb, ◌==◌, pick, replicate, if◌then◌else◌, Bool-cases,
}
use vlc_whisper.Protocol.Types.{
  Hello, Start, Message, error, shutdown, is_null, read_at, version_major, session_id_bytes,
}
use vlc_whisper.Protocol.Encode.{encode_payload}
use vlc_whisper.Protocol.Decode.{decode_payload}
use vlc_whisper.Protocol.Validate.{validate_payload}
use vlc_whisper.WorkerQueue.{Frame}
use vlc_whisper.Worker.Run.{frame_of, send_error}
use vlc_whisper.Worker.Run.State.{Run, Host, Config}
use vlc_whisper.Worker.MainLoop.{
  refuse, handle_message, handle_decoded, handle_frame, after_frame, has_other_work, exit_code,
}
use vlc_whisper.Worker.MainLoop.Entry.{
  Flow, stop_fatally, verify_token_constant_time, ack_message, ack_payload, send_ack, handle_hello,
  hello_of, start_of, authenticate,
}
use vlc_whisper.Worker.Posts.{PostsOf, PostsOf-same, post-Posts}

-- A worker that waits for VW_MSG_HELLO.
pub record IsWaiting (w : Run) : Type 0 where
  pub unknown : w.authenticated ≡ false
  pub no_work : has_other_work w ≡ false

-- A message that tells of an error.
unfoldable pub IsError : Message → Type 0
IsError (error e) = Unit
IsError _ = ⊥

-- The peer is not let in: the worker stops with an error, and posts at most errors.
pub record IsRefused (w w' : Run) : Type 0 where
  pub stopped : w'.running ≡ false
  pub code : exit_code w' ≡ 1
  pub posts : PostsOf IsError w w'

-- The peer is let in; the worker answers, or stops with an error.
pub record IsAccepted (w w' : Run) : Type 0 where
  pub known : w'.authenticated ≡ true
  pub same_sequence : w'.sequence ≡ w.sequence
  pub answer :
      ((w'.posted ≡ w.posted) × (exit_code w' ≡ 1))
      ⊎ ((payload : List ℕ) × (w'.posted ≡ w.posted ++ frame_of ack_message payload 1 ∷ []))

-- The VW_MSG_HELLO that a frame holds, decoded and valid.
abbrev pub held_hello : Option Message → Option Hello
held_hello none = none
held_hello (some m) = if validate_payload m then hello_of m else none

unfoldable pub hello_in : Frame → Option Hello
hello_in f =
    if (f.type == 11 && f.payload_len == 0) || is_null f.payload
    then none
    else held_hello (decode_payload f.type (read_at f.payload f.payload_len))

-- Whether a peer may be let in: it speaks the worker's version and has the token.
unfoldable pub is_admitted : Config → Option Hello → Bool
is_admitted config none = false
is_admitted config (some h) =
    leb h.min_major version_major
    && leb version_major h.max_major
    && verify_token_constant_time config.auth_token h.auth_token

-- The peer is let in exactly if it may be.
abbrev pub Answers : Bool → Run → Run → Type 0
Answers admitted w w' =
    ((admitted ≡ false) × IsRefused w w') ⊎ ((admitted ≡ true) × IsAccepted w w')

-- What the flow of a frame makes of the run, when the rest of the turn is not reached.
unfoldable pub FlowAnswers : Config → Host → Bool → Run → Flow → Type 0
FlowAnswers config host admitted w flow = Answers admitted w (after_frame config host flow)

stopped-Answers :
    (config : Config) (host : Host) (admitted : Bool) (w u : Run)
    → admitted ≡ false
    → PostsOf IsError w u
    → FlowAnswers config host admitted w (stop_fatally u)
unfolding FlowAnswers after_frame exit_code
stopped-Answers config host admitted w u unfit posts =
    inl (unfit, record { stopped = refl; code = refl; posts = posts })

ack-Answers :
    (config : Config) (host : Host) (admitted : Bool) (w : Run) (o : Option (List ℕ))
    → admitted ≡ true
    → FlowAnswers config host admitted w (ack_payload host record w { authenticated = true } o)
unfolding ack_payload FlowAnswers after_frame exit_code
ack-Answers config host admitted w none fit =
    inr (fit, record { known = refl; same_sequence = refl; answer = inl (refl, refl) })
ack-Answers config host admitted w (some payload) fit =
    pick (λ x. FlowAnswers config host admitted w x) (host.sends 1)
      (λ sent.
        inr (fit, record { known = refl; same_sequence = refl; answer = inr (payload, refl) }))
      (λ lost.
        inr (fit, record { known = refl; same_sequence = refl; answer = inr (payload, refl) }))

send_error-IsError :
    (session : List ℕ) (error_code recoverable : ℕ) (text : String) (host : Host) (w : Run)
    → PostsOf IsError w (send_error session error_code recoverable text host w).1
unfolding send_error IsError
send_error-IsError session error_code recoverable text host w = post-Posts IsError 512 _ host w tt

hello-Answers :
    (config : Config) (host : Host) (h : Hello) (w : Run)
    → FlowAnswers config host (is_admitted config (some h)) w (handle_hello config host h w)
unfolding handle_hello send_ack is_admitted
hello-Answers config host h w =
    let admitted = is_admitted config (some h) in
    let told =
      (send_error (replicate session_id_bytes 0) 1 0 "No compatible protocol major" host w).1 in
    pick (λ x. FlowAnswers config host admitted w x)
      (ltb version_major h.min_major || ltb h.max_major version_major)
      (λ version. stopped-Answers config host admitted w told (ground arith) (
        send_error-IsError (replicate session_id_bytes 0) 1 0 "No compatible protocol major" host
          w))
      (λ fits.
        pick (λ x. FlowAnswers config host admitted w x)
          (not (verify_token_constant_time config.auth_token h.auth_token))
          (λ wrong.
            stopped-Answers config host admitted w w (ground arith) (PostsOf-same IsError w))
          (λ right.
            ack-Answers config host admitted w (encode_payload ack_message 256) (ground arith)))

authenticate-Answers :
    (config : Config) (host : Host) (w : Run) (o : Option Hello)
    → FlowAnswers config host (is_admitted config o) w (authenticate config host w o)
unfolding authenticate is_admitted
authenticate-Answers config host w none =
    stopped-Answers config host false w w refl (PostsOf-same IsError w)
authenticate-Answers config host w (some h) = hello-Answers config host h w

refuse-Answers :
    (config : Config) (host : Host) (w : Run) (o : Option Start)
    → w.authenticated ≡ false
    → FlowAnswers config host false w (refuse host w o)
unfolding refuse
refuse-Answers config host w none unknown =
    stopped-Answers config host false w w refl (PostsOf-same IsError w)
refuse-Answers config host w (some s) unknown =
    pick (λ x. FlowAnswers config host false w x)
      (w.authenticated
        && (not (s.sample_rate == 16000) || not (s.channels == 1) || not (s.sample_format == 1)))
      (λ known. absurd (ground arith))
      (λ bad. stopped-Answers config host false w w refl (PostsOf-same IsError w))

message-Answers :
    (config : Config) (host : Host) (m : Message) (w : Run)
    → w.authenticated ≡ false
    → FlowAnswers config host
        (is_admitted config (held_hello (some m)))
        w
        (handle_message config host m w)
unfolding handle_message is_admitted
message-Answers config host m w unknown = elim (Bool-cases (validate_payload m)) [
  | inl valid ↦ rw valid (
      pick (λ x. FlowAnswers config host (is_admitted config (hello_of m)) w x) w.authenticated
        (λ known. absurd (ground arith))
        (λ not_known. authenticate-Answers config host w (hello_of m)))
  | inr invalid ↦ rw invalid (refuse-Answers config host w (start_of m) unknown)
]

decoded-Answers :
    (config : Config) (host : Host) (w : Run) (o : Option Message)
    → w.authenticated ≡ false
    → FlowAnswers config host (is_admitted config (held_hello o)) w (handle_decoded config host w o)
unfolding handle_decoded is_admitted
decoded-Answers config host w none unknown =
    stopped-Answers config host false w w refl (PostsOf-same IsError w)
decoded-Answers config host w (some m) unknown = message-Answers config host m w unknown

pub frame-Answers :
    (config : Config) (host : Host) (f : Frame) (w : Run)
    → w.authenticated ≡ false
    → FlowAnswers config host (is_admitted config (hello_in f)) w (handle_frame config host f w)
unfolding handle_frame hello_in is_admitted validate_payload
frame-Answers config host f w unknown = elim (Bool-cases (f.type == 11 && f.payload_len == 0)) [
  | inl off ↦ rw off (message-Answers config host shutdown w unknown)
  | inr other ↦ elim (Bool-cases (is_null f.payload)) [
    | inl null ↦
        rw (other, null) (stopped-Answers config host false w w refl (PostsOf-same IsError w))
    | inr payload ↦
        rw (other, payload)
          (decoded-Answers config host w (decode_payload f.type (read_at f.payload f.payload_len))
            unknown)
  ]
]
