-- ===== src/BufferSource.antt =====
-- The buffered audio source of src/buffer_audio_source.cc, with the format that it takes from
-- include/cpqd/asr-client/audio_source.h and src/audio_source.cc.
-- `read` and `write` hold the mutex for their whole body, so calls run one after another.
pub mod Inv
pub mod Stream
mod Tests
use asr_sdk_cpp.Base.{
  ℕ, ◌%◌, Bool, true, false, not, ◌&&◌, Option, none, some, length, Bytes, if◌then◌else◌,
}
use asr_sdk_cpp.RingBuffer
use asr_sdk_cpp.RingBuffer.{RingBuffer, ◌>>=◌, u32_mod}

pub data AudioFileFormat : Type 0 where
  raw wav : AudioFileFormat

pub record AudioFormat : Type 0 where
  pub file_format : AudioFileFormat
  pub bits_per_sample : ℕ
  pub sample_rate : ℕ

abbrev pub default_format : AudioFormat
default_format = record { file_format = wav; bits_per_sample = 16; sample_rate = 8000 }

-- BufferAudioSource with its Impl
pub record BufferSource : Type 0 where
  pub format : AudioFormat
  pub ring : RingBuffer
  pub finished : Bool
  pub to_read : Bool

-- BufferAudioSource::BufferAudioSource; the `size_t` becomes an `unsigned int`.
unfoldable pub create : AudioFormat → ℕ → BufferSource
create fmt buffer_size = record {
  format = fmt;
  ring = RingBuffer.create (buffer_size % u32_mod);
  finished = false;
  to_read = false;
}

abbrev pub get_audio_format : BufferSource → AudioFormat
get_audio_format s = s.format

-- The `int` that `read` returns: -1, or a number of bytes.
pub data Count : Type 0 where
  minus_one : Count
  bytes : ℕ → Count

-- BufferAudioSource::read into the caller's vector
unfoldable pub read : BufferSource → Bytes → Option (Count × Bytes × BufferSource)
read s buffer = if s.finished && not s.to_read then some (minus_one, buffer, s) else do
  (n, buffer', ring') ← RingBuffer.read_all s.ring buffer
  some (bytes n, buffer', record s { ring = ring'; to_read = false })

-- BufferAudioSource::write, the overload on a pointer and a `size_t`
unfoldable pub write_block : BufferSource → Option Bytes → ℕ → Option (Bool × BufferSource)
write_block s buffer size = if s.finished then some (false, s) else do
  (n, ring') ← RingBuffer.write s.ring buffer (size % u32_mod)
  some (true, record s { ring = ring'; to_read = true })

-- BufferAudioSource::write, the overload on a vector
unfoldable pub write : BufferSource → Bytes → Option (Bool × BufferSource)
write s buffer = if s.finished then some (false, s) else do
  (n, ring') ← RingBuffer.write s.ring (some buffer) (length buffer % u32_mod)
  some (true, record s { ring = ring'; to_read = true })

abbrev pub close : BufferSource → BufferSource
close s = s

unfoldable pub finish : BufferSource → BufferSource
finish s = record s { finished = true }
