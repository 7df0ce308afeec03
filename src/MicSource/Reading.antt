-- ===== src/MicSource/Reading.antt =====
-- What a read from the microphone gives.
use asr_sdk_cpp.Base.{
  ℕ, Option, none, some, ◌-◌, ◌<◌, ◌≤◌, ◌≡◌, true, false, List, [], ◌++◌, Bytes, length, take,
}
use asr_sdk_cpp.AudioSending.Packets.{joined}
use asr_sdk_cpp.BufferSource.{Count, minus_one, bytes}
use asr_sdk_cpp.RecognitionError.{RecognitionError}
use asr_sdk_cpp.MicSource.{PortAudio, MicSource, Mic, done, threw, open_device, Loop, full, waits}

-- The loop of read, of the bytes there are in all: it ends with the first so many, and the others
-- are left in order; or it waits, with all bytes taken, if there are fewer.
pub data Reads (size : ℕ) (all : Bytes) : Loop → Type 0 where
  reads :
      (buffer queue : Bytes) (arriving : List Bytes)
      → length buffer ≡ size
      → buffer ++ (queue ++ joined arriving) ≡ all
      → Reads size all (full buffer queue arriving)
  waiting :
      (buffer queue : Bytes)
      → length all < size
      → buffer ≡ all
      → queue ≡ []
      → Reads size all (waits buffer queue)

module _ (size : ℕ) (buffer queue : Bytes) (fits : length buffer ≤ size) where
  -- The vector behind the bytes that are taken
  filled : Bytes
  filled = buffer ++ take (size - length buffer) queue

-- What read does behind open: it gives the first so many bytes of those that were in the queue and
-- those that arrive, and leaves in the queue bytes that begin the rest; or it waits, with the queue
-- empty, if they are fewer.
pub data Gives (s : MicSource) (arriving : List Bytes) : Mic (Option (Count × Bytes)) → Type 0 where
  gives :
      (buffer queue rest : Bytes)
      → length buffer ≡ s.buffer_size
      → buffer ++ (queue ++ rest) ≡ s.data' ++ joined arriving
      → Gives s arriving (done (some (bytes s.buffer_size, buffer)) (record s { data' = queue }))
  gives_nothing_yet :
      length (s.data' ++ joined arriving) < s.buffer_size
      → Gives s arriving (done none (record s { data' = [] }))

-- What read does, by the state of the source and what open does on a source that is not open
pub data ReadsFrom (pa : PortAudio) (arriving : List Bytes) (s : MicSource)
    (out : Mic (Option (Count × Bytes))) : Type 0 where
  ends :
      s.finished ≡ true
      → out ≡ done (some (minus_one, [])) (record s { finished = false; data' = [] })
      → ReadsFrom pa arriving s out
  gives_open :
      s.finished ≡ false → s.is_open ≡ true → Gives s arriving out → ReadsFrom pa arriving s out
  gives_opened :
      (t : MicSource)
      → s.finished ≡ false
      → s.is_open ≡ false
      → open_device pa s ≡ done tt t
      → t.data' ≡ s.data'
      → t.buffer_size ≡ s.buffer_size
      → Gives t arriving out
      → ReadsFrom pa arriving s out
  fails_to_open :
      (e : RecognitionError)
      → s.finished ≡ false
      → s.is_open ≡ false
      → open_device pa s ≡ threw e s
      → out ≡ threw e s
      → ReadsFrom pa arriving s out

-- What open does on a source that is not open: it starts the thread, or throws.
data Opens (s : MicSource) : Mic (Unit {0}) → Type 0 where
  opens : (t : MicSource) → t.data' ≡ s.data' → t.buffer_size ≡ s.buffer_size → Opens s (done tt t)
  opens_not : (e : RecognitionError) → Opens s (threw e s)
