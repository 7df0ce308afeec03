-- ===== src/RingBuffer/Transfer.antt =====
-- RingBuffer::Write, Read and ReadAll on a valid ring: the bytes that each moves.
use asr_sdk_cpp.Base.{
  ℕ, ◌%◌, ◌≤◌, ◌≡◌, ◌∙◌, ◌++◌, inl, inr, ◌||◌, sym, some, arith, length, Bool-cases, append-nil,
  refl, Bytes, take, splice, drop, [], take-all, drop-all, length-eq-zero, if◌then◌else◌, ◌==◌,
}
use asr_sdk_cpp.RingBuffer.{
  RingBuffer, get_write_avail, get_read_avail, write, read, read_all, cap_at, make_even,
}
use asr_sdk_cpp.RingBuffer.Inv.{IsValid, avail-add-avail}
use asr_sdk_cpp.RingBuffer.Contents.{contents, length-contents}
use asr_sdk_cpp.RingBuffer.Copies.{moved, copy_in_lem, contents-moved, moved-IsValid}
use asr_sdk_cpp.RingBuffer.Taking.{taken, taken-IsValid, contents-taken, copy_out_lem, copy_all_lem}

-- The number of bytes that a call of `Write` takes.
abbrev pub write_count : RingBuffer → ℕ → ℕ
write_count r n = cap_at n (get_write_avail r)

-- The number of bytes that a call of `Read` gives.
abbrev pub read_count : RingBuffer → ℕ → ℕ
read_count r n = make_even (cap_at n (get_read_avail r))

-- What a call of `Write` leaves.
pub record Wrote (r : RingBuffer) (src : Bytes) (n : ℕ) : Type 0 where
  pub ring : RingBuffer
  pub result : write r (some src) n ≡ some (write_count r n, ring)
  pub valid : IsValid ring
  pub appended : contents ring ≡ contents r ++ take (write_count r n) src
  pub same_size : ring.size ≡ r.size

-- On a valid ring `Write` of `n` bytes of a block that has as many stays inside both blocks, takes
-- as many of the `n` bytes as there is room for, returns their number, appends exactly those bytes
-- to the contents, in order, and keeps the ring valid and of its size.
pub write-Wrote :
    {r : RingBuffer} (src : Bytes) (n : ℕ) → IsValid r → n ≤ length src → Wrote r src n
unfolding write
write-Wrote {r} src n v h = elim (Bool-cases (n == 0 || get_write_avail r == 0)) [
  | inl idle ↦
      let e : write_count r n ≡ 0 = ground arith in
      record {
        ring = r;
        result = rw idle (rw e);
        valid = v;
        appended = rw e (sym (append-nil (contents r)));
        same_size = refl;
      }
  | inr busy ↦
      let fits : write_count r n ≤ length src = ground arith in
      let room : write_count r n ≤ get_write_avail r = ground arith in
      record {
        ring = moved r src (write_count r n);
        result =
            rw busy
              (rw (copy_in_lem src (write_count r n) v fits (omega (arith, avail-add-avail v))));
        valid = moved-IsValid src (write_count r n) v fits room;
        appended = contents-moved src (write_count r n) v fits room;
        same_size = refl;
      }
]

-- What a call of `Read` leaves.
pub record Fetched (r : RingBuffer) (dst : Bytes) (n : ℕ) : Type 0 where
  pub ring : RingBuffer
  pub result :
      read r (some dst) n
      ≡ some (read_count r n, some (splice dst 0 (take (read_count r n) (contents r))), ring)
  pub valid : IsValid ring
  pub rest : contents ring ≡ drop (read_count r n) (contents r)
  pub even : read_count r n % 2 ≡ 0
  pub same_size : ring.size ≡ r.size

-- On a valid ring `Read` of `n` bytes into a block that has room for them stays inside both
-- blocks. It gives an even number of bytes, as many as were asked for and are held, less one if
-- that is odd. They are the oldest bytes, in order, written to the start of the caller's block,
-- whose other bytes stay; the ring keeps the rest and stays valid.
pub read-Fetched :
    {r : RingBuffer} (dst : Bytes) (n : ℕ) → IsValid r → n ≤ length dst → Fetched r dst n
unfolding read
read-Fetched {r} dst n v h = elim (Bool-cases (n == 0 || get_read_avail r == 0)) [
  | inl idle ↦
      let e : read_count r n ≡ 0 = ground arith in
      record {
        ring = r;
        result = rw idle (rw e);
        valid = v;
        rest = rw e;
        even = rw e;
        same_size = refl;
      }
  | inr busy ↦
      let fits : read_count r n ≤ length dst = ground arith in
      let there : read_count r n ≤ get_read_avail r = ground arith in
      record {
        ring = taken r (read_count r n);
        result = rw busy (rw (copy_out_lem dst (read_count r n) v there fits));
        valid = taken-IsValid (read_count r n) v there;
        rest = contents-taken (read_count r n) v there;
        even = ground arith;
        same_size = refl;
      }
]

-- What a call of `ReadAll` leaves.
pub record Drained (r : RingBuffer) (out : Bytes) : Type 0 where
  pub ring : RingBuffer
  pub result :
      read_all r out
      ≡ some (length (contents r), (if length (contents r) == 0 then out else contents r), ring)
  pub valid : IsValid ring
  pub emptied : contents ring ≡ []
  pub same_size : ring.size ≡ r.size

-- On a valid ring `ReadAll` stays inside its block. It puts all bytes held into the caller's
-- vector, in order, or leaves the vector alone if none is held, returns their number, and leaves
-- a valid ring of the same size that holds nothing.
pub read_all-Drained : {r : RingBuffer} (out : Bytes) → IsValid r → Drained r out
unfolding read_all
read_all-Drained {r} out v = elim (Bool-cases (get_read_avail r == 0)) [
  | inl idle ↦
      let e : get_read_avail r ≡ 0 = ground arith in
      let z : length (contents r) ≡ 0 = length-contents v ∙ e in
      record {
        ring = r;
        result = rw idle (rw z);
        valid = v;
        emptied = length-eq-zero (contents r) z;
        same_size = refl;
      }
  | inr busy ↦
      let n = get_read_avail r in
      record {
        ring = taken r n;
        result = rw busy (
            rw (copy_all_lem n v (omega arith), length-contents v)
              (rw busy (rw (take-all n (contents r) (omega (arith, length-contents v))))));
        valid = taken-IsValid n v (omega arith);
        emptied =
            contents-taken n v (omega arith)
            ∙ drop-all n (contents r) (omega (arith, length-contents v));
        same_size = refl;
      }
]
