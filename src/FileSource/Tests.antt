-- ===== src/FileSource/Tests.antt =====
-- The file source's theorem at a concrete file.
use asr_sdk_cpp.Base.{Option, some, refl, Bytes, arith}
use asr_sdk_cpp.Text.{codes, equal}
use asr_sdk_cpp.BufferSource.{default_format}
use asr_sdk_cpp.AudioSending.{send_audio}
use asr_sdk_cpp.FileSource.{create, extension, after_dot}
use asr_sdk_cpp.FileSource.Sending.{file_rounds, HasHeader, Sent, create-Sent}

abbrev files : Bytes → Option Bytes
files name = some (codes "abc")

no_header : HasHeader (codes "audio.raw") (codes "abc")
unfolding extension after_dot equal
no_header = λ e. absurd (ground arith)

create-Sent_example :
    Sent
      (codes "abc")
      (send_audio (file_rounds 2 (create files (codes "audio.raw") default_format)))
create-Sent_example =
    create-Sent files (codes "audio.raw") default_format 1 refl no_header (omega arith)
