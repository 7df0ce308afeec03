-- ===== src/AudioSending/Packets.antt =====
-- The audio that a source gives until its end is what the requests carry.
use asr_sdk_cpp.Base.{◌≡◌, false, List, [], ◌∷◌, ◌++◌, refl, ap, Bytes, length}
use asr_sdk_cpp.Text.{codes, empty, equal, less}
use asr_sdk_cpp.StringMap.{find, assign}
use asr_sdk_cpp.BufferSource.{minus_one, bytes}
use asr_sdk_cpp.AsrMessage.{AsrMessage, request, set_header, set_extra, get_header}
use asr_sdk_cpp.AudioSending.{Round, audio_request, send_audio}

-- A round in which the source gave these bytes, and one in which it had come to its end
abbrev pub gave : Bytes → Round
gave b = record { ret = bytes (length b); buffer = b; terminate = false }

abbrev pub ended : Round
ended = record { ret = minus_one; buffer = []; terminate = false }

-- The source gives the buffers one after another and ends; more rounds may stand behind.
abbrev pub rounds : List Bytes → List Round → List Round
rounds [] more = ended ∷ more
rounds (b ∷ bs) more = gave b ∷ rounds bs more

abbrev pub joined : List Bytes → Bytes
joined [] = []
joined (b ∷ bs) = b ++ joined bs

abbrev pub bodies : List AsrMessage → Bytes
bodies [] = []
bodies (m ∷ ms) = m.extra ++ bodies ms

-- Only the last of the requests says that it is the last packet.
abbrev pub flags : List AsrMessage → List Bytes
flags [] = []
flags (m ∷ ms) = get_header m (codes "LastPacket") ∷ flags ms

abbrev pub flags_of : List Bytes → List Bytes
flags_of [] = codes "true" ∷ []
flags_of ([] ∷ bs) = flags_of bs
flags_of ((c ∷ b) ∷ bs) = codes "false" ∷ flags_of bs

-- The bodies and the flags of the requests
abbrev pub sent_as : List AsrMessage → Bytes × List Bytes
sent_as ms = (bodies ms, flags ms)

-- Of a source that gives buffers, some of them empty, and then ends, and with the thread not told
-- to end, the requests carry all bytes, in order, one request for each buffer that is not empty and
-- one with no body behind them, and only that one says that it is the last.
pub send_audio-joined :
    (bs : List Bytes) (more : List Round)
    → sent_as (send_audio (rounds bs more)) ≡ (joined bs, flags_of bs)
unfolding send_audio audio_request set_extra set_header request get_header empty assign find equal
    less
send_audio-joined [] more = refl
send_audio-joined ([] ∷ bs) more = send_audio-joined bs more
send_audio-joined ((c ∷ b) ∷ bs) more =
    ap (λ (p : Bytes × List Bytes). ((c ∷ b) ++ p.0, codes "false" ∷ p.1))
      (send_audio-joined bs more)
