-- ===== src/RingBuffer/Contents.antt =====
-- The bytes that a valid RingBuffer holds, oldest first, and what the copies do to them.
use asr_sdk_cpp.Base.{
  refl, [], ℕ, ◌+◌, ◌-◌, ◌≤◌, ◌<◌, ◌≡◌, ◌∙◌, ◌++◌, sym, ap, ap₂, some, arith, length, Bytes, take,
  slice, splice, length-slice, length-splice, length-append, slice-splice_end, slice-splice_after,
  append_assoc, if◌then◌else◌, leb, le→leb, lt→leb, Option,
}
use asr_sdk_cpp.RingBuffer.{RingBuffer, create, get_read_avail, load, store, memcpy, ◌>>=◌}
use asr_sdk_cpp.RingBuffer.Inv.{IsValid, read_avail_lem}

-- The bytes held between two pointers of a block of `size` bytes.
abbrev pub held : Bytes → ℕ → ℕ → ℕ → Bytes
held xs size from to =
    if leb from to then slice xs from (to - from) else slice xs from (size - from) ++ slice xs 0 to

abbrev pub contents : RingBuffer → Bytes
contents r = held r.bytes r.size r.read_ptr r.write_ptr

pub length-contents : {r : RingBuffer} → IsValid r → length (contents r) ≡ get_read_avail r
length-contents {r} v = ground (
  arith,
  read_avail_lem v,
  length-slice r.bytes r.read_ptr (r.write_ptr - r.read_ptr),
  length-slice r.bytes r.read_ptr (r.size - r.read_ptr),
  length-slice r.bytes 0 r.write_ptr,
  length-append (slice r.bytes r.read_ptr (r.size - r.read_ptr)) (slice r.bytes 0 r.write_ptr),
)

module _ (xs : Bytes) (size from to : ℕ) where
  pub held_straight : from ≤ to → held xs size from to ≡ slice xs from (to - from)
  held_straight h = rw (le→leb from to h)

  pub held_round : to < from → held xs size from to ≡ slice xs from (size - from) ++ slice xs 0 to
  held_round h = rw (lt→leb from to h)

pub load_lem :
    (block : Bytes) (o n : ℕ) → o + n ≤ length block → load block o n ≡ some (slice block o n)
unfolding load
load_lem block o n h = ground arith

pub store_lem :
    (block : Bytes) (o : ℕ) (src : Bytes)
    → o + length src ≤ length block
    → store block o src ≡ some (splice block o src)
unfolding store
store_lem block o src h = ground arith

-- A copy that stays inside both blocks.
pub memcpy_lem :
    (dst : Bytes) (to : ℕ) (src : Bytes) (from n : ℕ)
    → from + n ≤ length src
    → to + n ≤ length dst
    → memcpy dst to src from n ≡ some (splice dst to (slice src from n))
unfolding memcpy
memcpy_lem dst to src from n h k =
    ap (λ (o : Option Bytes). o >>= store dst to) (load_lem src from n h)
    ∙ store_lem dst to (slice src from n) (omega (arith, length-slice src from n h))

-- Bytes written behind the contents, up to the end of the block at most.
module _ (xs : Bytes) (size from to : ℕ) (ys : Bytes) (inside : length xs ≡ size) where
  pub held-splice_straight :
      from ≤ to
      → to + length ys < size
      → held (splice xs to ys) size from (to + length ys) ≡ held xs size from to ++ ys
  held-splice_straight h k =
      held_straight (splice xs to ys) size from (to + length ys) (omega arith)
      ∙ slice-splice_end xs to ys from (to + length ys - from) (omega arith) h (omega arith)
      ∙ ap (λ l. l ++ ys) (sym (held_straight xs size from to h))

  pub held-splice_behind :
      to < from
      → to + length ys < from
      → from ≤ size
      → held (splice xs to ys) size from (to + length ys) ≡ held xs size from to ++ ys
  held-splice_behind h k l =
      held_round (splice xs to ys) size from (to + length ys) k
      ∙ ap₂ ◌++◌ (slice-splice_after xs to ys from (size - from) (omega arith) (omega arith)) (
          slice-splice_end xs to ys 0 (to + length ys) (omega arith) (omega arith) (omega arith)
          ∙ ap (λ k. take k xs ++ ys) whole)
      ∙ sym (append_assoc (slice xs from (size - from)) (slice xs 0 to) ys)
      ∙ ap (λ l. l ++ ys) (sym (held_round xs size from to h))
    where
      whole : to - 0 ≡ to
      whole = omega arith

-- A write that reaches the end of the block and goes on with `zs` at its start.
pub held-splice_wrap :
    (xs : Bytes) (size from to : ℕ) (ys zs : Bytes)
    → length xs ≡ size
    → from ≤ to
    → to + length ys ≡ size
    → length zs < from
    → held (splice (splice xs to ys) 0 zs) size from (length zs)
      ≡ held xs size from to ++ (ys ++ zs)
held-splice_wrap xs size from to ys zs inside h full k =
    held_round (splice (splice xs to ys) 0 zs) size from (length zs) k
    ∙ ap₂ ◌++◌
        (slice-splice_after (splice xs to ys) 0 zs from (size - from) (omega (arith, kept))
            (omega arith)
          ∙ slice-splice_end xs to ys from (size - from) (omega arith) h (omega arith))
        (slice-splice_end (splice xs to ys) 0 zs 0 (length zs) (omega (arith, kept)) (omega arith)
          (omega arith))
    ∙ append_assoc (slice xs from (to - from)) ys zs
    ∙ ap (λ l. l ++ (ys ++ zs)) (sym (held_straight xs size from to h))
  where
    kept : length (splice xs to ys) ≡ size
    kept = omega (arith, length-splice xs to ys)

pub contents-create : (n : ℕ) → contents (create n) ≡ []
unfolding create
contents-create n = refl
