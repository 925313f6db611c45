-- ===== src/Worker/MainLoop/Entry.antt =====
-- The handshake in vw_worker_run of worker/src/vw_worker.c: VW_MSG_HELLO and its answer.
use Prim.Native.Nat.{bit_xor, bit_or}
use vlc_whisper.Common.{
  ℕ, ◌+◌, Bool, true, false, ◌||◌, not, Option, none, some, List, [], ◌∷◌, ◌++◌, ltb, ◌==◌,
  if◌then◌else◌, replicate,
}
use vlc_whisper.Protocol.Types.{
  Hello, Start, Message, hello, hello_ack, start_session, version_major, session_id_bytes,
}
use vlc_whisper.Protocol.Encode.{encode_payload}
use vlc_whisper.Worker.Run.{frame_of, send_error}
use vlc_whisper.Worker.Run.State.{Run, Host, Config, codes}

-- How the main loop goes on behind a frame: with the rest of the turn, with the next turn, or not.
pub data Flow : Type 0 where
  goes_on : Run → Flow
  next_turn : Run → Flow
  leaves : Run → Flow

-- `break` out of the main loop, behind which `running` is reset.
abbrev pub stop_fatally : Run → Flow
stop_fatally w = leaves record w { fatal_exit = true; running = false }

-- The loop of verify_token_constant_time.
unfoldable pub token_diff : List ℕ → List ℕ → ℕ → ℕ
token_diff [] bs diff = diff
token_diff (a ∷ rest) [] diff = diff
token_diff (a ∷ rest) (b ∷ bs) diff = token_diff rest bs (bit_or diff (bit_xor a b))

-- verify_token_constant_time
unfoldable pub verify_token_constant_time : List ℕ → List ℕ → Bool
unfolding token_diff
verify_token_constant_time token_a token_b = token_diff token_a token_b 0 == 0

-- The answer to VW_MSG_HELLO; its sequence number is 1.
abbrev pub ack_message : Message
ack_message = hello_ack record {
  selected_major = version_major;
  selected_minor = 6;
  capability_flags = 1 + 8 + 16;
  worker_version_length = 5;
  worker_version = some (codes "1.6.0");
}

unfoldable pub ack_payload : Host → Run → Option (List ℕ) → Flow
ack_payload host w none = stop_fatally w
ack_payload host w (some payload) =
    let posted = record w { posted = w.posted ++ frame_of ack_message payload 1 ∷ [] } in
    if host.sends 1 then next_turn posted else stop_fatally posted

unfoldable pub send_ack : Host → Run → Flow
unfolding encode_payload ack_payload
send_ack host w = ack_payload host w (encode_payload ack_message 256)

-- VW_MSG_HELLO of a worker that is not authenticated.
unfoldable pub handle_hello : Config → Host → Hello → Run → Flow
unfolding verify_token_constant_time send_ack send_error
handle_hello config host h w =
    if ltb version_major h.min_major || ltb h.max_major version_major
    then stop_fatally
        (send_error (replicate session_id_bytes 0) 1 0 "No compatible protocol major" host w).1
    else if not (verify_token_constant_time config.auth_token h.auth_token)
    then stop_fatally w
    else send_ack host record w { authenticated = true }

abbrev pub hello_of : Message → Option Hello
hello_of (hello h) = some h
hello_of _ = none

abbrev pub start_of : Message → Option Start
start_of (start_session s) = some s
start_of _ = none

-- The first frame must be VW_MSG_HELLO.
unfoldable pub authenticate : Config → Host → Run → Option Hello → Flow
unfolding handle_hello
authenticate config host w none = stop_fatally w
authenticate config host w (some h) = handle_hello config host h w
