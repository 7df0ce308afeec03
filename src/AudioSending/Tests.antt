-- ===== src/AudioSending/Tests.antt =====
-- The loop's theorem at a concrete source.
use asr_sdk_cpp.Base.{◌≡◌, [], ◌∷◌}
use asr_sdk_cpp.AudioSending.{send_audio}
use asr_sdk_cpp.AudioSending.Packets.{rounds, sent_as, joined, flags_of, send_audio-joined}

send_audio-joined_example :
    sent_as (send_audio (rounds ((1 ∷ 2 ∷ []) ∷ [] ∷ (3 ∷ []) ∷ []) []))
    ≡ (joined ((1 ∷ 2 ∷ []) ∷ [] ∷ (3 ∷ []) ∷ []), flags_of ((1 ∷ 2 ∷ []) ∷ [] ∷ (3 ∷ []) ∷ []))
send_audio-joined_example = send_audio-joined ((1 ∷ 2 ∷ []) ∷ [] ∷ (3 ∷ []) ∷ []) []
