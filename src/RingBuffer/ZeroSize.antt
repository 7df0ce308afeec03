-- ===== src/RingBuffer/ZeroSize.antt =====
-- RingBuffer::Write on a ring of no bytes.
use asr_sdk_cpp.Base.{ℕ, ◌^◌, ◌≤◌, ◌<◌, ◌≡◌, some, none, arith, length, Bytes, length-slice}
use asr_sdk_cpp.RingBuffer.{create, write, copy_in, memcpy, load, store, get_write_avail}

-- `GetWriteAvail` of a ring of no bytes is the largest `unsigned int`, so a `Write` of one or more
-- bytes copies them past the end of the block.
pub write-create_zero :
    (src : Bytes) (n : ℕ)
    → 0 < n
    → n ≤ length src
    → n < 2 ^ 32
    → write (create 0) (some src) n ≡ none
unfolding write create copy_in memcpy load store get_write_avail
write-create_zero src n h k l = ground (arith, length-slice src 0 n)
