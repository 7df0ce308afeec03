-- ===== src/MicSource/Tests.antt =====
-- The microphone's theorem on a concrete source.
use asr_sdk_cpp.Base.{true, false, none, some}
use asr_sdk_cpp.Text.{codes}
use asr_sdk_cpp.BufferSource.{default_format}
use asr_sdk_cpp.MicSource.{PortAudio, MicSource, int16}

abbrev devices : PortAudio
devices = record { initialize = none; device_count = 1; open_error = none }

-- A source of which two bytes were read
abbrev source : MicSource
source = record {
  format = default_format;
  buffer_size = 4;
  sample_format = int16;
  finished = false;
  thread_join = false;
  is_open = true;
  thread = true;
  data' = codes "ab";
  stream = some true;
}
