-- ===== src/RingBuffer/Inv.antt =====
-- The invariant of RingBuffer: the pointers lie inside the block, and their sums do not wrap.
use asr_sdk_cpp.Base.{
  ℕ, ◌+◌, ◌-◌, ◌^◌, ◌≤◌, ◌<◌, ◌≡◌, arith, length, ◌∙◌, length-replicate, if◌then◌else◌, ltb,
}
use native.Mathlib.Nat.{mod-eq_of_lt, mod-eq-sub-mod}
use asr_sdk_cpp.RingBuffer.{
  RingBuffer, create, empty, get_write_avail, get_read_avail, add32, advance,
}

pub record IsValid (r : RingBuffer) : Type 0 where
  pub block : length r.bytes ≡ r.size
  pub pos : 0 < r.size
  pub small : r.size ≤ 2 ^ 31
  pub read_in : r.read_ptr < r.size
  pub write_in : r.write_ptr < r.size

pub create-IsValid : (n : ℕ) → 0 < n → n ≤ 2 ^ 31 → IsValid (create n)
unfolding create
create-IsValid n h k = omega (arith, length-replicate {A = ℕ} n 0)

pub empty-IsValid : {r : RingBuffer} → IsValid r → IsValid (empty r).0
unfolding empty
empty-IsValid {r} v = omega (arith, length-replicate {A = ℕ} r.size 0)

-- The bytes to read and the bytes free make up all but one byte of the block.
pub avail-add-avail :
    {r : RingBuffer} → IsValid r → get_read_avail r + get_write_avail r ≡ r.size - 1
unfolding get_read_avail get_write_avail
avail-add-avail v = ground arith

-- What the two counts are, with no wrap.
pub read_avail_lem :
    {r : RingBuffer}
    → IsValid r
    → get_read_avail r ≡ (
        if ltb r.write_ptr r.read_ptr
        then r.size - r.read_ptr + r.write_ptr
        else r.write_ptr - r.read_ptr)
unfolding get_read_avail
read_avail_lem v = ground arith

pub read_avail_straight :
    {r : RingBuffer}
    → IsValid r
    → r.read_ptr ≤ r.write_ptr
    → get_read_avail r + r.read_ptr ≡ r.write_ptr
unfolding get_read_avail
read_avail_straight v h = ground arith

pub read_avail_behind :
    {r : RingBuffer}
    → IsValid r
    → r.write_ptr < r.read_ptr
    → get_read_avail r + r.read_ptr ≡ r.size + r.write_ptr
unfolding get_read_avail
read_avail_behind v h = ground arith

-- The free bytes are those between the contents and the byte before the oldest one.
pub write_avail_straight :
    {r : RingBuffer}
    → IsValid r
    → r.read_ptr ≤ r.write_ptr
    → get_write_avail r + (r.write_ptr - r.read_ptr) + 1 ≡ r.size
unfolding get_write_avail
write_avail_straight v h = ground arith

pub write_avail_behind :
    {r : RingBuffer}
    → IsValid r
    → r.write_ptr < r.read_ptr
    → get_write_avail r + r.write_ptr + 1 ≡ r.read_ptr
unfolding get_write_avail
write_avail_behind v h = ground arith

-- A pointer that moves on by less than `size` goes round at the end of the block.
pub advance-before : {r : RingBuffer} (p n : ℕ) → IsValid r → p + n < r.size → advance r p n ≡ p + n
advance-before {r} p n v h = let fits : add32 p n ≡ p + n = omega arith in rw fits (mod-eq_of_lt h)

pub advance-round :
    {r : RingBuffer} (p n : ℕ)
    → IsValid r
    → p < r.size
    → n < r.size
    → r.size ≤ p + n
    → advance r p n ≡ p + n - r.size
advance-round {r} p n v h k l =
    let fits : add32 p n ≡ p + n = omega arith in
    rw fits (
      mod-eq-sub-mod {n = p + n} {m = r.size} l
      ∙ mod-eq_of_lt {n = p + n - r.size} {m = r.size} (omega arith))
