-- ===== src/FileSource.antt =====
-- The audio source on a file: src/file_audio_source.cc, on a std::ifstream.
pub mod Sending
mod Tests
use asr_sdk_cpp.Base.{
  ℕ, ◌+◌, ◌-◌, ◌*◌, ◌^◌, zero, suc, Bool, true, false, not, ◌&&◌, ◌||◌, Option, none, some, List,
  [], ◌∷◌, ◌++◌, ◌==◌, ltb, if◌then◌else◌, Bytes, length, take, drop, get_elem?, min,
}
use asr_sdk_cpp.Text.{codes, equal}
use asr_sdk_cpp.BufferSource
use asr_sdk_cpp.BufferSource.{AudioFormat, AudioFileFormat, wav, Count, minus_one, bytes}

-- std::ifstream: the bytes of the file, the position, and the bits eofbit and failbit
pub record Stream : Type 0 where
  pub content : Bytes
  pub position : ℕ
  pub eof : Bool
  pub fail : Bool

-- What a file system gives for a name: its bytes, if it can be opened
unfoldable pub open_stream : Option Bytes → Stream
open_stream none = record { content = []; position = 0; eof = false; fail = true }
open_stream (some content) = record { content = content; position = 0; eof = false; fail = false }

-- `read` of `n` bytes: the bytes that it gets, `gcount` of them, and the stream
unfoldable pub read_stream : ℕ → Stream → Bytes × Stream
read_stream n st =
    let rest = drop st.position st.content in
    let short = ltb (length rest) n in
    if st.eof || st.fail then ([], record st { fail = true }) else (
      take n rest,
      record st { position = st.position + min n (length rest); eof = short; fail = short },
    )

-- `seekg(0)`, which clears eofbit but not failbit
unfoldable pub seek_start : Stream → Stream
seek_start st = record st { position = if st.fail then st.position else 0; eof = false }

-- `tellg()` as a `size_t`
unfoldable pub tell : Stream → ℕ
tell st = if st.fail then 2 ^ 64 - 1 else st.position

-- The number of little-endian bytes; `none` is a field that was not read.
unfoldable pub little_endian : ℕ → Bytes → Option ℕ
little_endian zero bs = some 0
little_endian (suc n) [] = none
little_endian (suc n) (b ∷ bs) = elim (little_endian n bs) [
  | none ↦ none
  | some m ↦ some (b + 256 * m)
]

-- The fields of WavHeader that are used, at their places in its 44 bytes
abbrev pub header_size : ℕ
header_size = 44

abbrev pub sample_rate_of : Bytes → Option ℕ
sample_rate_of header = little_endian 4 (drop 24 header)

abbrev pub bits_of : Bytes → Option ℕ
bits_of header = little_endian 2 (drop 34 header)

-- `file_name.substr(file_name.find_last_of(".") + 1)`: the whole name if it has no dot
unfoldable pub after_dot : Bytes → Option Bytes
after_dot [] = none
after_dot (c ∷ cs) = elim (after_dot cs) [
  | some e ↦ some e
  | none ↦ if c == b'.' then some cs else none
]

abbrev pub or_whole : Bytes → Option Bytes → Bytes
or_whole name none = name
or_whole name (some e) = e

unfoldable pub extension : Bytes → Bytes
extension name = or_whole name (after_dot name)

-- FileAudioSource; a field of the format is `none` if it was never read.
pub record FileSource : Type 0 where
  pub file_name : Bytes
  pub file_format : AudioFileFormat
  pub bits_per_sample : Option ℕ
  pub sample_rate : Option ℕ
  pub ifs : Stream
  pub datachunk_size : ℕ

-- The branch of the constructor on a name that ends in wav
unfoldable pub read_header : FileSource → FileSource
read_header s =
    let got = read_stream header_size s.ifs in
    record s { ifs = got.1; sample_rate = sample_rate_of got.0; bits_per_sample = bits_of got.0 }

abbrev pub rewind : FileSource → FileSource
rewind s = record s { ifs = seek_start s.ifs; file_format = wav }

-- The source with the file opened
abbrev pub open_source : Bytes → AudioFormat → Option Bytes → FileSource
open_source file_name fmt file = record {
  file_name = file_name;
  file_format = fmt.file_format;
  bits_per_sample = some fmt.bits_per_sample;
  sample_rate = some fmt.sample_rate;
  ifs = open_stream file;
  datachunk_size = 0;
}

-- The tests of the constructor on the name
abbrev pub by_extension : Bool → Bool → FileSource → FileSource
by_extension is_raw is_wav s =
    if not is_raw
    then rewind (if is_wav then read_header s else s)
    else record s { file_format = BufferSource.raw }

-- FileAudioSource::FileAudioSource; `files` gives the bytes of a file that can be opened.
unfoldable pub create : (Bytes → Option Bytes) → Bytes → AudioFormat → FileSource
create files file_name fmt =
    let opened = open_source file_name fmt (files file_name) in
    let is_raw = equal (extension file_name) (codes "raw") in
    let is_wav = equal (extension file_name) (codes "wav") in
    let s = by_extension is_raw is_wav opened in record s { datachunk_size = tell s.ifs }

abbrev pub block_size : ℕ
block_size = 10000

-- What `read` returns and leaves in the vector, by the bytes that the stream gave
abbrev pub given : Bytes → Bytes → Count × Bytes
given [] buffer = (minus_one, buffer)
given (c ∷ cs) buffer = (bytes (length (c ∷ cs)), c ∷ cs)

-- FileAudioSource::read into the caller's vector
unfoldable pub read : FileSource → Bytes → Count × Bytes × FileSource
read s buffer =
    let got = read_stream block_size s.ifs in
    let answer = given got.0 buffer in (answer.0, answer.1, record s { ifs = got.1 })
