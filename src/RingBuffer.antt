-- ===== src/RingBuffer.antt =====
-- The byte ring of src/ringbuffer.h and src/ringbuffer.cc.
-- `unsigned int` has 32 bits and its operations wrap. A copy that leaves its block is `none`.
pub mod Inv
pub mod Contents
pub mod Copies
pub mod Taking
pub mod Transfer
pub mod Fifo
pub mod ZeroSize
mod Tests
use asr_sdk_cpp.Base.{
  ℕ, ◌+◌, ◌-◌, ◌%◌, ◌^◌, Bool, true, ◌||◌, Option, none, some, List, [], ◌++◌, ltb, leb, ◌==◌,
  if◌then◌else◌, length, take, drop, replicate, slice, splice, Bytes,
}

abbrev pub u32_mod : ℕ
u32_mod = 2 ^ 32

-- unsigned int a + b and a - b
abbrev pub add32 : ℕ → ℕ → ℕ
add32 a b = (a + b) % u32_mod

abbrev pub sub32 : ℕ → ℕ → ℕ
sub32 a b = (a + u32_mod - b) % u32_mod

-- An `int` that held the bits of `a`, read as a size: a negative one is a huge size.
abbrev pub size_of_int : ℕ → ℕ
size_of_int a = if ltb a (2 ^ 31) then a else a + 2 ^ 64 - u32_mod

pub record RingBuffer : Type 0 where
  pub bytes : Bytes
  pub size : ℕ
  pub read_ptr : ℕ
  pub write_ptr : ℕ

-- RingBuffer::RingBuffer
unfoldable pub create : ℕ → RingBuffer
create size_bytes = record {
  bytes = replicate size_bytes 0;
  size = size_bytes;
  read_ptr = 0;
  write_ptr = 0;
}

-- RingBuffer::Empty; `memset` fills `size_` bytes.
unfoldable pub empty : RingBuffer → RingBuffer × Bool
empty r = (record r { bytes = replicate r.size 0; read_ptr = 0; write_ptr = 0 }, true)

unfoldable pub get_size : RingBuffer → ℕ
get_size r = r.size

unfoldable pub get_write_avail : RingBuffer → ℕ
get_write_avail r =
    if r.write_ptr == r.read_ptr
    then sub32 r.size 1
    else if ltb r.read_ptr r.write_ptr
    then sub32 (sub32 r.size 1) (sub32 r.write_ptr r.read_ptr)
    else sub32 (sub32 r.read_ptr r.write_ptr) 1

unfoldable pub get_read_avail : RingBuffer → ℕ
get_read_avail r =
    if r.write_ptr == r.read_ptr
    then 0
    else if ltb r.read_ptr r.write_ptr
    then sub32 r.write_ptr r.read_ptr
    else sub32 r.size (sub32 r.read_ptr r.write_ptr)

-- The `n` bytes of a block from index `o` on, as `memcpy` reads them.
unfoldable pub load : Bytes → ℕ → ℕ → Option Bytes
load block o n = if leb (o + n) (length block) then some (slice block o n) else none

-- The block after `memcpy` wrote `src` from index `o` on.
unfoldable pub store : Bytes → ℕ → Bytes → Option Bytes
store block o src = if leb (o + length src) (length block) then some (splice block o src) else none

infixl 5 ◌>>=◌
abbrev pub ◌>>=◌ : {A B : Type 0} → Option A → (A → Option B) → Option B
none >>= f = none
some a >>= f = f a

-- memcpy(dst + to, src + from, n)
unfoldable pub memcpy : Bytes → ℕ → Bytes → ℕ → ℕ → Option Bytes
unfolding load store
memcpy dst to src from n = do part ← load src from n; store dst to part

-- `numBytes < avail ? numBytes : avail`
abbrev pub cap_at : ℕ → ℕ → ℕ
cap_at num_bytes avail = if ltb num_bytes avail then num_bytes else avail

-- `if (n % 2 != 0) n--`; `n` is odd there, so the decrement does not wrap.
abbrev pub make_even : ℕ → ℕ
make_even n = if n % 2 == 0 then n else n - 1

-- The bytes that RingBuffer::Read copies, into `dst`.
unfoldable pub copy_out : RingBuffer → Bytes → ℕ → Option Bytes
copy_out r dst n =
    if ltb (sub32 r.size r.read_ptr) n
    then (do
      let len = size_of_int (sub32 r.size r.read_ptr)
      first ← memcpy dst 0 r.bytes r.read_ptr len
      memcpy first len r.bytes 0 (sub32 n (sub32 r.size r.read_ptr)))
    else memcpy dst 0 r.bytes r.read_ptr n

abbrev pub advance : RingBuffer → ℕ → ℕ → ℕ
advance r ptr n = add32 ptr n % r.size

-- RingBuffer::Read into the caller's block `dst`, `none` for a null pointer. The result is the
-- number of bytes, the caller's block and the ring.
unfoldable pub read : RingBuffer → Option Bytes → ℕ → Option (ℕ × Option Bytes × RingBuffer)
read r none num_bytes = some (0, none, r)
read r (some dst) num_bytes =
    if num_bytes == 0 || get_read_avail r == 0
    then some (0, some dst, r)
    else let n = make_even (cap_at num_bytes (get_read_avail r)) in
      do out ← copy_out r dst n; some (n, some out, record r { read_ptr = advance r r.read_ptr n })

-- vector::insert of `part` at index `i`
abbrev pub insert_at : ℕ → Bytes → Bytes → Bytes
insert_at i part xs = take i xs ++ (part ++ drop i xs)

-- What RingBuffer::ReadAll puts into the cleared vector.
unfoldable pub copy_all : RingBuffer → ℕ → Option Bytes
copy_all r n =
    if ltb (sub32 r.size r.read_ptr) n
    then (do
      let len = sub32 r.size r.read_ptr
      first ← load r.bytes r.read_ptr len
      rest ← load r.bytes 0 (n - len)
      some (insert_at len rest (insert_at 0 first [])))
    else (do first ← load r.bytes r.read_ptr n; some (insert_at 0 first []))

-- RingBuffer::ReadAll; `out` is the caller's vector, left alone when nothing is available.
unfoldable pub read_all : RingBuffer → Bytes → Option (ℕ × Bytes × RingBuffer)
read_all r out =
    if get_read_avail r == 0
    then some (0, out, r)
    else let n = get_read_avail r in
      do all ← copy_all r n; some (n, all, record r { read_ptr = advance r r.read_ptr n })

-- The block after RingBuffer::Write copied `n` bytes of `src` into it.
unfoldable pub copy_in : RingBuffer → Bytes → ℕ → Option Bytes
copy_in r src n =
    if ltb (sub32 r.size r.write_ptr) n
    then (do
      let len = sub32 r.size r.write_ptr
      first ← memcpy r.bytes r.write_ptr src 0 len
      memcpy first 0 src len (n - len))
    else memcpy r.bytes r.write_ptr src 0 n

-- RingBuffer::Write from the caller's block, `none` for a null pointer.
unfoldable pub write : RingBuffer → Option Bytes → ℕ → Option (ℕ × RingBuffer)
write r none num_bytes = some (0, r)
write r (some src) num_bytes =
    if num_bytes == 0 || get_write_avail r == 0
    then some (0, r)
    else let n = cap_at num_bytes (get_write_avail r) in
      do
        block ← copy_in r src n
        some (n, record r { bytes = block; write_ptr = advance r r.write_ptr n })
