-- ===== src/AudioSending.antt =====
-- ASRProcessResponse::sendAudioMessage of src/process_msg.cc: the thread that sends the audio.
pub mod Packets
mod Tests
use asr_sdk_cpp.Base.{ℕ, Bool, true, false, not, ◌&&◌, List, [], ◌∷◌, Bytes, length, if◌then◌else◌}
use asr_sdk_cpp.Text.{codes, empty, to_string}
use asr_sdk_cpp.BufferSource.{Count, minus_one, bytes}
use asr_sdk_cpp.AsrMessage.{AsrMessage, request, set_header, set_extra}
use asr_sdk_cpp.AsrMessage

-- What one round of the loop meets: what the audio source's `read` returned, the vector that it
-- filled, and whether the thread has been told to end by then.
pub record Round : Type 0 where
  pub ret : Count
  pub buffer : Bytes
  pub terminate : Bool

-- `ret == -1`
abbrev pub at_end : Count → Bool
at_end minus_one = true
at_end (bytes n) = false

-- The request of a round
unfoldable pub audio_request : Count → Bytes → AsrMessage
audio_request ret extra =
    let r = set_extra extra (request AsrMessage.send_audio) in
    let r = set_header (codes "Content-Length") (to_string (length extra)) r in
    let r = set_header (codes "Content-Type") (codes "application/octet-stream") r in
    set_header (codes "LastPacket") (if at_end ret then codes "true" else codes "false") r

-- The loop, and the requests whose texts it hands to Impl::sendMessage, in order; the rounds are
-- those that it goes through at most.
unfoldable pub send_audio : List Round → List AsrMessage
send_audio [] = []
send_audio (r ∷ rs) =
    let rest = send_audio rs in
    if r.terminate
    then []
    else if empty r.buffer && not (at_end r.ret)
    then rest
    else audio_request r.ret r.buffer ∷ (if at_end r.ret then [] else rest)
