-- ===== src/MicSource.antt =====
-- The audio source on a microphone: src/mic_audio_source.cc, with PortAudio as a parameter.
pub mod Reading
mod Tests
use asr_sdk_cpp.Base.{
  ℕ, ◌+◌, ◌-◌, ◌==◌, Bool, true, false, not, ◌&&◌, Option, none, some, List, [], ◌∷◌, ◌++◌, Bytes,
  length, take, drop, leb, if◌then◌else◌,
}
use asr_sdk_cpp.Text.{codes, to_string}
use asr_sdk_cpp.BufferSource.{AudioFormat, Count, minus_one, bytes}
use asr_sdk_cpp.RecognitionError.{RecognitionError, Raising, returned, raised, failure, fail_with}

-- What the source uses of PortAudio: the error texts of Pa_Initialize and of Pa_OpenStream, if
-- they fail, and the number of devices.
pub record PortAudio : Type 0 where
  pub initialize : Option Bytes
  pub device_count : ℕ
  pub open_error : Option Bytes

-- The sample formats of PortAudio
pub data SampleFormat : Type 0 where
  int8 int16 int24 int32 : SampleFormat

-- MicAudioSource; `data'` is the queue of the bytes that the thread has read, and `thread` says
-- whether the thread is joinable. `stream` is `none` while the pointer is uninitialised, and says
-- else whether it is not null.
pub record MicSource : Type 0 where
  pub format : AudioFormat
  pub buffer_size : ℕ
  pub sample_format : SampleFormat
  pub finished : Bool
  pub thread_join : Bool
  pub is_open : Bool
  pub thread : Bool
  pub data' : Bytes
  pub stream : Option Bool

unfoldable pub sample_format_of : ℕ → Option SampleFormat
sample_format_of bits =
    if bits == 8
    then some int8
    else if bits == 16
    then some int16
    else if bits == 24
    then some int24
    else if bits == 32
    then some int32
    else none

abbrev pub built : AudioFormat → ℕ → Option SampleFormat → Raising MicSource
built fmt buffer_size none =
    fail_with failure
      (codes "Invalid bits per sample in microphone usage " ++ to_string fmt.bits_per_sample)
built fmt buffer_size (some f) = returned (record {
  format = fmt;
  buffer_size = buffer_size;
  sample_format = f;
  finished = false;
  thread_join = true;
  is_open = false;
  thread = false;
  data' = [];
  stream = none;
})

-- MicAudioSource::MicAudioSource
unfoldable pub create : AudioFormat → ℕ → Raising MicSource
create fmt buffer_size = built fmt buffer_size (sample_format_of fmt.bits_per_sample)

-- What a call on the source does; `undefined` is the use of a pointer that is uninitialised.
pub data Mic (A : Type 0) : Type 0 where
  done : A → MicSource → Mic A
  threw : RecognitionError → MicSource → Mic A
  undefined : Mic A

abbrev pub fails : {A : Type 0} → Bytes → MicSource → Mic A
fails text s = threw (record { code = failure; message = text }) s

-- threadJoin and threadWaitJoin: the thread stops, closes the stream and sets it to null.
unfoldable pub thread_join_and_wait : MicSource → MicSource
thread_join_and_wait s = record s {
  thread_join = true;
  thread = false;
  stream = if s.thread then some false else s.stream;
}

-- close behind the joins
abbrev pub close_stream : Option Bool → MicSource → Mic (Unit {0})
close_stream none s = undefined
close_stream (some true) s = fails (codes "Error on closing PortAudio stream.") s
close_stream (some false) s = done tt (record s { data' = []; is_open = false })

-- MicAudioSource::close
unfoldable pub close : MicSource → Mic (Unit {0})
close s = let s = thread_join_and_wait s in close_stream s.stream s

abbrev pub and_then : {A B : Type 0} → Mic A → (A → MicSource → Mic B) → Mic B
and_then (done a s) f = f a s
and_then (threw e s) f = threw e s
and_then undefined f = undefined

abbrev pub init_text : Bytes
init_text = codes "Error in microphone PortAudio initialization: "

-- `if(err_ != paNoError) throw`
abbrev pub check : Bytes → Option Bytes → Mic (Unit {0}) → MicSource → Mic (Unit {0})
check text none next s = next
check text (some e) next s = fails (text ++ e) s

-- MicAudioSource::open
unfoldable pub open_device : PortAudio → MicSource → Mic (Unit {0})
open_device pa s =
    let closed = if s.is_open then close s else done tt s in
    and_then closed (λ _ s.
      let started =
        done tt
          (record s { thread_join = false; thread = true; is_open = true; stream = some true }) in
      check init_text pa.initialize
        (if pa.device_count == 0
          then fails (init_text ++ codes "No available input devices.") s
          else check (codes "Error in opening PortAudio stream: ") pa.open_error started s)
        s)

-- One round of the loop of enqueueThread: a buffer from the stream goes to the end of the queue.
unfoldable pub enqueue : Bytes → MicSource → MicSource
enqueue mic_buffer s = record s { data' = s.data' ++ mic_buffer }

-- The result of the loop of read: the bytes taken, those left in the queue, and the buffers that
-- have not arrived yet; or the loop still waits.
pub data Loop : Type 0 where
  full : Bytes → Bytes → List Bytes → Loop
  waits : Bytes → Bytes → Loop

-- The loop of read: it takes what the queue has, as long as there is room, and sleeps while the
-- next buffer arrives.
unfoldable pub read_loop : ℕ → Bytes → Bytes → List Bytes → Loop
read_loop size buffer queue [] =
    let room = size - length buffer in
    let buffer' = buffer ++ take room queue in
    if leb size (length buffer')
    then full buffer' (drop room queue) []
    else waits buffer' (drop room queue)
read_loop size buffer queue (a ∷ arriving) =
    let room = size - length buffer in
    let buffer' = buffer ++ take room queue in
    let more = read_loop size buffer' (drop room queue ++ a) arriving in
    if leb size (length buffer') then full buffer' (drop room queue) (a ∷ arriving) else more

-- What read returns and leaves in the vector; `none` while it still waits.
abbrev pub loop_result : Loop → MicSource → Mic (Option (Count × Bytes))
loop_result (full buffer queue arriving) s =
    done (some (bytes (length buffer), buffer)) (record s { data' = queue })
loop_result (waits buffer queue) s = done none (record s { data' = queue })

-- MicAudioSource::read, with the buffers that arrive while it sleeps
unfoldable pub read : PortAudio → List Bytes → MicSource → Mic (Option (Count × Bytes))
read pa arriving s =
    let opened = if not s.is_open then open_device pa s else done tt s in
    if s.finished
    then done (some (minus_one, [])) (record s { finished = false; data' = [] })
    else and_then opened (λ _ s. loop_result (read_loop s.buffer_size [] s.data' arriving) s)

-- MicAudioSource::finish
unfoldable pub finish : MicSource → MicSource
finish s = record s { finished = true }
