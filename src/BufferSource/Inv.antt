-- ===== src/BufferSource/Inv.antt =====
-- The invariant of BufferAudioSource: bytes that wait in the ring raise the flag `to_read_`.
use asr_sdk_cpp.Base.{
  ℕ, ◌%◌, ◌^◌, ◌<◌, ◌≤◌, ◌≡◌, ◌++◌, true, false, refl, arith, [], length, Bytes, take, Bool-cases,
  ◌⊎◌, inl, inr, some, if◌then◌else◌, ◌==◌, not, ◌&&◌,
}
use asr_sdk_cpp.RingBuffer.{get_write_avail, cap_at, u32_mod}
use asr_sdk_cpp.RingBuffer.Inv
use asr_sdk_cpp.RingBuffer.Contents.{contents, contents-create}
use asr_sdk_cpp.RingBuffer.Transfer.{write-Wrote, read_all-Drained}
use asr_sdk_cpp.BufferSource.{
  BufferSource, AudioFormat, create, read, write, finish, minus_one, bytes,
}

pub record IsValid (s : BufferSource) : Type 0 where
  pub ring_valid : Inv.IsValid s.ring
  pub waiting : s.to_read ≡ false → contents s.ring ≡ []

pub create-IsValid : (fmt : AudioFormat) (n : ℕ) → 0 < n → n ≤ 2 ^ 31 → IsValid (create fmt n)
unfolding create
create-IsValid fmt n h k =
    let size : n % u32_mod ≡ n = omega arith in
    record { ring_valid = rw size (Inv.create-IsValid n h k); waiting = λ _. contents-create _ }

-- What `write` leaves while the source is not finished.
pub record Accepted (s : BufferSource) (buffer : Bytes) : Type 0 where
  pub source : BufferSource
  pub result : write s buffer ≡ some (true, source)
  pub valid : IsValid source
  pub appended :
      contents source.ring
      ≡ contents s.ring ++ take (cap_at (length buffer) (get_write_avail s.ring)) buffer
  pub open_still : source.finished ≡ false
  pub flagged : source.to_read ≡ true

-- On a valid source that is not finished, `write` of less than 2^32 bytes returns true, appends as
-- many of them as the ring has room for, and raises the flag for the reader.
pub write-Accepted :
    {s : BufferSource} (buffer : Bytes)
    → IsValid s
    → length buffer < 2 ^ 32
    → s.finished ≡ false
    → Accepted s buffer
unfolding write
write-Accepted {s} buffer v h e =
    let size : length buffer % u32_mod ≡ length buffer = omega arith in
    let w = write-Wrote buffer (length buffer) v.ring_valid (omega arith) in
    record {
      source = record s { ring = w.ring; to_read = true };
      result = ground (arith, w.result, size);
      valid = record { ring_valid = w.valid; waiting = λ f. cc };
      appended = w.appended;
      open_still = e;
      flagged = refl;
    }

-- What `read` leaves while bytes may wait or the source is not finished.
pub record Delivered (s : BufferSource) (buffer : Bytes) : Type 0 where
  pub source : BufferSource
  pub result :
      read s buffer
      ≡ some (
        bytes (length (contents s.ring)),
        (if length (contents s.ring) == 0 then buffer else contents s.ring),
        source,
      )
  pub valid : IsValid source
  pub emptied : contents source.ring ≡ []
  pub finished_still : source.finished ≡ s.finished
  pub lowered : source.to_read ≡ false

pub read-Delivered :
    {s : BufferSource} (buffer : Bytes)
    → IsValid s
    → (s.finished && not s.to_read) ≡ false
    → Delivered s buffer
unfolding read
read-Delivered {s} buffer v e =
    let d = read_all-Drained buffer v.ring_valid in
    record {
      source = record s { ring = d.ring; to_read = false };
      result = rw e (rw d.result);
      valid = record { ring_valid = d.valid; waiting = λ _. d.emptied };
      emptied = d.emptied;
      finished_still = refl;
      lowered = refl;
    }

-- Any `read` of a valid source either returns -1 and changes nothing, or delivers what waits.
pub read-cases :
    {s : BufferSource} (buffer : Bytes)
    → IsValid s
    → ((read s buffer ≡ some (minus_one, buffer, s)) × (s.finished ≡ true) × (s.to_read ≡ false))
      ⊎ Delivered s buffer
unfolding read
read-cases {s} buffer v = elim (Bool-cases (s.finished && not s.to_read)) [
  | inl done ↦ inl (rw done, ground arith, ground arith)
  | inr more ↦ inr (read-Delivered buffer v more)
]

pub finish-IsValid : {s : BufferSource} → IsValid s → IsValid (finish s)
unfolding finish
finish-IsValid v = record { ring_valid = v.ring_valid; waiting = v.waiting }
