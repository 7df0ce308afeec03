-- ===== src/RingBuffer/Copies.antt =====
-- RingBuffer::Write's copies: the block that they leave, and the bytes that it holds.
use native.Mathlib.Decide.{dec_lt, dec_le}
use asr_sdk_cpp.Base.{
  ℕ, ◌+◌, ◌-◌, ◌≤◌, ◌<◌, ◌≡◌, ◌∙◌, ◌++◌, sym, ap, ap₂, some, arith, length, Bytes, slice, splice,
  length-slice, length-splice, slice_split, if◌then◌else◌, ltb, lt→ltb, le→ltb,
}
use asr_sdk_cpp.RingBuffer.{RingBuffer, get_write_avail, copy_in, sub32, advance}
use asr_sdk_cpp.RingBuffer.Inv.{
  IsValid, write_avail_straight, write_avail_behind, avail-add-avail, advance-before, advance-round,
}
use asr_sdk_cpp.RingBuffer.Contents.{
  contents, held, memcpy_lem, held-splice_straight, held-splice_behind, held-splice_wrap,
}

-- The block behind a write of the first `n` bytes of `src`.
abbrev pub written : RingBuffer → Bytes → ℕ → Bytes
written r src n =
    if ltb (r.size - r.write_ptr) n
    then splice (splice r.bytes r.write_ptr (slice src 0 (r.size - r.write_ptr))) 0
        (slice src (r.size - r.write_ptr) (n - (r.size - r.write_ptr)))
    else splice r.bytes r.write_ptr (slice src 0 n)

pub length-written :
    {r : RingBuffer} (src : Bytes) (n : ℕ)
    → IsValid r
    → n ≤ length src
    → n ≤ r.size
    → length (written r src n) ≡ r.size
length-written {r} src n v h k = ground (
  arith,
  length-splice r.bytes r.write_ptr (slice src 0 room),
  length-splice (splice r.bytes r.write_ptr (slice src 0 room)) 0 (slice src room (n - room)),
  length-splice r.bytes r.write_ptr (slice src 0 n),
  length-slice src 0 n,
  length-slice src 0 room,
  length-slice src room (n - room),
)
  where
    room : ℕ
    room = r.size - r.write_ptr

-- RingBuffer::Write copies inside its block, and inside the caller's.
pub copy_in_lem :
    {r : RingBuffer} (src : Bytes) (n : ℕ)
    → IsValid r
    → n ≤ length src
    → n ≤ r.size
    → copy_in r src n ≡ some (written r src n)
unfolding copy_in
copy_in_lem {r} src n v h k = elim (dec_lt room n) [
  | yes long ↦
      rw
        (
          no_wrap,
          lt→ltb room n long,
          memcpy_lem r.bytes r.write_ptr src 0 room (omega arith) (omega arith),
        )
        (memcpy_lem _ 0 src room (n - room) (omega arith) (omega (arith, kept)))
  | no short ↦
      rw (no_wrap, le→ltb room n (omega arith))
        (memcpy_lem r.bytes r.write_ptr src 0 n (omega arith) (omega arith))
]
  where
    room : ℕ
    room = r.size - r.write_ptr

    no_wrap : sub32 r.size r.write_ptr ≡ room
    no_wrap = omega arith

    kept : room ≤ length src → length (splice r.bytes r.write_ptr (slice src 0 room)) ≡ r.size
    kept fits =
        omega (arith, length-splice r.bytes r.write_ptr (slice src 0 room), length-slice src 0 room)

-- The ring behind a write of the first `n` bytes of `src`.
abbrev pub moved : RingBuffer → Bytes → ℕ → RingBuffer
moved r src n = record r { bytes = written r src n; write_ptr = advance r r.write_ptr n }

module _ {r : RingBuffer} (src : Bytes) (n : ℕ) (v : IsValid r) (fits : n ≤ length src) where
  part-length : length (slice src 0 n) ≡ n
  part-length = length-slice src 0 n (omega arith)

  -- The write ends before the end of the block.
  pub contents-moved_short :
      r.write_ptr + n < r.size
      → n ≤ get_write_avail r
      → contents (moved r src n) ≡ contents r ++ slice src 0 n
  contents-moved_short h k =
      ap₂ (λ b t. held b r.size r.read_ptr t) whole
        (advance-before r.write_ptr n v h ∙ ap (λ m. r.write_ptr + m) (sym part-length))
      ∙ elim (dec_le r.read_ptr r.write_ptr) [
        | yes straight ↦
            held-splice_straight r.bytes r.size r.read_ptr r.write_ptr (slice src 0 n) v.block
              straight (omega (arith, part-length))
        | no behind ↦
            held-splice_behind r.bytes r.size r.read_ptr r.write_ptr (slice src 0 n) v.block
              (omega arith) (omega (arith, part-length, write_avail_behind v (omega arith)))
              (omega arith)
      ]
    where
      whole : written r src n ≡ splice r.bytes r.write_ptr (slice src 0 n)
      whole = rw (le→ltb (r.size - r.write_ptr) n (omega arith))

  abbrev room : ℕ
  room = r.size - r.write_ptr

  -- The bytes up to the end of the block, and those behind.
  abbrev first : Bytes
  first = slice src 0 room

  abbrev rest : Bytes
  rest = slice src room (n - room)

  first-append-rest : r.size ≤ r.write_ptr + n → slice src 0 n ≡ first ++ rest
  first-append-rest h =
      slice_split src 0 room (n - room) n (omega arith)
      ∙ ap (λ k. first ++ slice src k (n - room)) behind
    where
      behind : 0 + room ≡ room
      behind = omega arith

  written_long :
      r.size ≤ r.write_ptr + n → written r src n ≡ splice (splice r.bytes r.write_ptr first) 0 rest
  written_long h = elim (dec_lt room n) [
    | yes more ↦ rw (lt→ltb room n more)
    | no exact ↦
        let e : n ≡ room = omega arith in
        let z : n - room ≡ 0 = omega arith in rw (le→ltb room n (omega arith)) (rw z (rw e))
  ]

  -- The write reaches the end of the block and goes on at its start.
  pub contents-moved_long :
      r.size ≤ r.write_ptr + n
      → n ≤ get_write_avail r
      → contents (moved r src n) ≡ contents r ++ slice src 0 n
  contents-moved_long h k =
      ap₂ (λ b t. held b r.size r.read_ptr t) (written_long h)
        (advance-round r.write_ptr n v v.write_in (omega (arith, avail-add-avail v)) h
          ∙ omega (arith, rest-length))
      ∙ held-splice_wrap r.bytes r.size r.read_ptr r.write_ptr first rest v.block straight
          (omega (arith, first-length))
          (omega (arith, rest-length, write_avail_straight v straight))
      ∙ ap (λ l. contents r ++ l) (sym (first-append-rest h))
    where
      straight : r.read_ptr ≤ r.write_ptr
      straight = elim (dec_le r.read_ptr r.write_ptr) [
        | yes s ↦ s
        | no b ↦ absurd (omega (arith, write_avail_behind v (omega arith)))
      ]

      first-length : length first ≡ room
      first-length = length-slice src 0 room (omega arith)

      rest-length : length rest ≡ n - room
      rest-length = length-slice src room (n - room) (omega arith)

-- A write of no more than the free bytes appends them to the contents.
pub contents-moved :
    {r : RingBuffer} (src : Bytes) (n : ℕ)
    → IsValid r
    → n ≤ length src
    → n ≤ get_write_avail r
    → contents (moved r src n) ≡ contents r ++ slice src 0 n
contents-moved {r} src n v h k = elim (dec_lt (r.write_ptr + n) r.size) [
  | yes short ↦ contents-moved_short src n v h short k
  | no long ↦ contents-moved_long src n v h (omega arith) k
]

-- A pointer that has moved on lies inside the block.
pub advance-lt :
    {r : RingBuffer} (p n : ℕ) → IsValid r → p < r.size → n < r.size → advance r p n < r.size
advance-lt {r} p n v h k = elim (dec_lt (p + n) r.size) [
  | yes short ↦ rw (advance-before p n v short) short
  | no long ↦ rw (advance-round p n v h k (omega arith)) (omega arith)
]

pub moved-IsValid :
    {r : RingBuffer} (src : Bytes) (n : ℕ)
    → IsValid r
    → n ≤ length src
    → n ≤ get_write_avail r
    → IsValid (moved r src n)
moved-IsValid {r} src n v h k =
    let small : n < r.size = omega (arith, avail-add-avail v) in
    record {
      block = length-written src n v h (omega arith);
      pos = v.pos;
      small = v.small;
      read_in = v.read_in;
      write_in = advance-lt r.write_ptr n v v.write_in small;
    }
