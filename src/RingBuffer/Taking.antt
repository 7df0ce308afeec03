-- ===== src/RingBuffer/Taking.antt =====
-- RingBuffer::Read and ReadAll take bytes off the front: what they copy, and what is then held.
use native.Mathlib.Decide.{dec_lt, dec_le}
use asr_sdk_cpp.Base.{
  ℕ, ◌+◌, ◌-◌, ◌^◌, ◌≤◌, ◌<◌, ◌≡◌, ◌∙◌, ◌++◌, sym, ap, some, arith, length, Bytes, take, drop,
  slice, splice, length-slice, length-splice, drop-append_le, drop-append_ge, drop-take, drop-drop,
  take-append_le, take-append_ge, take-take_le, splice-splice, lt→ltb, le→ltb, append-nil, take-all,
  drop-all, [],
}
use asr_sdk_cpp.RingBuffer.{
  RingBuffer, get_read_avail, copy_out, copy_all, sub32, advance, size_of_int, insert_at,
}
use asr_sdk_cpp.RingBuffer.Inv.{
  IsValid, read_avail_straight, read_avail_behind, avail-add-avail, advance-before, advance-round,
}
use asr_sdk_cpp.RingBuffer.Contents.{
  contents, held, held_straight, held_round, memcpy_lem, load_lem,
}
use asr_sdk_cpp.RingBuffer.Copies.{advance-lt}

-- The bytes held from a later pointer on.
module _ (xs : Bytes) (size from to n : ℕ) (inside : length xs ≡ size) where
  slice-drop : (k : ℕ) → slice xs (from + n) (k - n) ≡ drop n (slice xs from k)
  slice-drop k = ap (take (k - n)) (sym (drop-drop n from xs)) ∙ sym (drop-take n k (drop from xs))

  held-drop_straight :
      from ≤ to → from + n ≤ to → held xs size (from + n) to ≡ drop n (held xs size from to)
  held-drop_straight h k =
      held_straight xs size (from + n) to k
      ∙ ap (slice xs (from + n)) (omega arith)
      ∙ slice-drop (to - from)
      ∙ ap (drop n) (sym (held_straight xs size from to h))

  held-drop_round :
      to < from → from + n < size → held xs size (from + n) to ≡ drop n (held xs size from to)
  held-drop_round h k =
      held_round xs size (from + n) to (omega arith)
      ∙ ap (λ l. l ++ slice xs 0 to)
          (ap (slice xs (from + n)) (omega arith) ∙ slice-drop (size - from))
      ∙ sym (
          drop-append_le n (slice xs from (size - from)) (slice xs 0 to)
            (omega (arith, length-slice xs from (size - from))))
      ∙ ap (drop n) (sym (held_round xs size from to h))

  held-drop_wrap :
      to < from
      → from < size
      → size ≤ from + n
      → from + n - size ≤ to
      → held xs size (from + n - size) to ≡ drop n (held xs size from to)
  held-drop_wrap h l k m =
      held_straight xs size (from + n - size) to m
      ∙ sym (drop-take (from + n - size) to xs)
      ∙ ap (λ j. drop j (take to xs)) (omega (arith, front))
      ∙ sym (drop-append_ge n (slice xs from (size - from)) (slice xs 0 to) (omega (arith, front)))
      ∙ ap (drop n) (sym (held_round xs size from to h))
    where
      front : length (slice xs from (size - from)) ≡ size - from
      front = length-slice xs from (size - from) (omega arith)

-- Moving the read pointer on by `n` drops the `n` oldest bytes.
abbrev pub taken : RingBuffer → ℕ → RingBuffer
taken r n = record r { read_ptr = advance r r.read_ptr n }

pub contents-taken :
    {r : RingBuffer} (n : ℕ)
    → IsValid r
    → n ≤ get_read_avail r
    → contents (taken r n) ≡ drop n (contents r)
contents-taken {r} n v h = elim (dec_le r.read_ptr r.write_ptr) [
  | yes straight ↦
      let end : r.read_ptr + n ≤ r.write_ptr = omega (arith, read_avail_straight v straight) in
      ap (λ p. held r.bytes r.size p r.write_ptr) (advance-before r.read_ptr n v (omega arith))
      ∙ held-drop_straight r.bytes r.size r.read_ptr r.write_ptr n v.block straight end
  | no behind ↦
      let round : r.write_ptr < r.read_ptr = omega arith in
      let total : get_read_avail r + r.read_ptr ≡ r.size + r.write_ptr =
        read_avail_behind v round in
      elim (dec_lt (r.read_ptr + n) r.size) [
        | yes short ↦
            ap (λ p. held r.bytes r.size p r.write_ptr) (advance-before r.read_ptr n v short)
            ∙ held-drop_round r.bytes r.size r.read_ptr r.write_ptr n v.block round short
        | no long ↦
            ap (λ p. held r.bytes r.size p r.write_ptr)
              (advance-round r.read_ptr n v v.read_in (omega arith) (omega arith))
            ∙ held-drop_wrap r.bytes r.size r.read_ptr r.write_ptr n v.block round v.read_in
                (omega arith) (omega arith)
      ]
]

-- The `n` oldest bytes are one slice of the block, or one up to its end and one at its start.
module _ {r : RingBuffer} (n : ℕ) (v : IsValid r) (h : n ≤ get_read_avail r) where
  abbrev room : ℕ
  room = r.size - r.read_ptr

  front : length (slice r.bytes r.read_ptr room) ≡ room
  front = length-slice r.bytes r.read_ptr room (omega arith)

  take_short : n ≤ room → take n (contents r) ≡ slice r.bytes r.read_ptr n
  take_short k = elim (dec_le r.read_ptr r.write_ptr) [
    | yes straight ↦
        ap (take n) (held_straight r.bytes r.size r.read_ptr r.write_ptr straight)
        ∙ take-take_le n (r.write_ptr - r.read_ptr) (drop r.read_ptr r.bytes)
            (omega (arith, read_avail_straight v straight))
    | no behind ↦
        ap (take n) (held_round r.bytes r.size r.read_ptr r.write_ptr (omega arith))
        ∙ take-append_le n (slice r.bytes r.read_ptr room) (slice r.bytes 0 r.write_ptr)
            (omega (arith, front))
        ∙ take-take_le n room (drop r.read_ptr r.bytes) k
  ]

  take_long :
      room < n → take n (contents r) ≡ slice r.bytes r.read_ptr room ++ slice r.bytes 0 (n - room)
  take_long k =
      ap (take n) (held_round r.bytes r.size r.read_ptr r.write_ptr behind)
      ∙ take-append_ge n (slice r.bytes r.read_ptr room) (slice r.bytes 0 r.write_ptr)
          (omega (arith, front))
      ∙ ap (λ l. slice r.bytes r.read_ptr room ++ l)
          (ap (λ j. take j (take r.write_ptr r.bytes)) (omega (arith, front))
            ∙ take-take_le (n - room) r.write_ptr r.bytes
                (omega (arith, read_avail_behind v behind)))
    where
      behind : r.write_ptr < r.read_ptr
      behind = elim (dec_lt r.write_ptr r.read_ptr) [
        | yes b ↦ b
        | no s ↦ absurd (omega (arith, read_avail_straight v (omega arith)))
      ]

-- vector::insert into the cleared vector, and at its end.
insert_all : (a : Bytes) → insert_at 0 a [] ≡ a
insert_all a = append-nil a

insert_end : (a b : Bytes) (o : ℕ) → o ≡ length a → insert_at o b (insert_at 0 a []) ≡ a ++ b
insert_end a b o e =
    rw (insert_all a) (
      rw (take-all o a (omega arith), drop-all o a (omega arith)) (ap (λ l. a ++ l) (append-nil b)))

no_wrap_to_end : {r : RingBuffer} → IsValid r → sub32 r.size r.read_ptr ≡ r.size - r.read_ptr
no_wrap_to_end v = omega arith

-- RingBuffer::ReadAll copies inside its block, and copies the oldest bytes in order.
pub copy_all_lem :
    {r : RingBuffer} (n : ℕ)
    → IsValid r
    → n ≤ get_read_avail r
    → copy_all r n ≡ some (take n (contents r))
unfolding copy_all
copy_all_lem {r} n v h = elim (dec_lt (room n v h) n) [
  | yes long ↦
      rw (no_wrap_to_end v, lt→ltb (r.size - r.read_ptr) n long)
        (rw (load_lem r.bytes r.read_ptr (room n v h) (omega arith)) (
          rw (load_lem r.bytes 0 (n - room n v h) (omega (arith, avail-add-avail v))) (
            ap some (
              insert_end (slice r.bytes r.read_ptr (room n v h)) (slice r.bytes 0 (n - room n v h))
                (room n v h) (omega (arith, front n v h))
              ∙ sym (take_long n v h long)))))
  | no short ↦
      rw (no_wrap_to_end v, le→ltb (r.size - r.read_ptr) n (omega arith))
        (rw (load_lem r.bytes r.read_ptr n (omega arith)) (
          ap some (insert_all (slice r.bytes r.read_ptr n) ∙ sym (take_short n v h (omega arith)))))
]

-- RingBuffer::Read copies inside its block and the caller's, and copies the oldest bytes.
pub copy_out_lem :
    {r : RingBuffer} (dst : Bytes) (n : ℕ)
    → IsValid r
    → n ≤ get_read_avail r
    → n ≤ length dst
    → copy_out r dst n ≡ some (splice dst 0 (take n (contents r)))
unfolding copy_out
copy_out_lem {r} dst n v h k = elim (dec_lt (room n v h) n) [
  | yes long ↦
      rw (no_wrap_to_end v, lt→ltb (r.size - r.read_ptr) n long)
        (rw (as_size long) (
          rw (memcpy_lem dst 0 r.bytes r.read_ptr (room n v h) (omega arith) (omega arith)) (
            rw (behind long) (
              memcpy_lem _ (room n v h) r.bytes 0 (n - room n v h)
                (omega (arith, avail-add-avail v)) (omega (arith, kept))
              ∙ ap some (
                  splice-splice dst (room n v h) (slice r.bytes r.read_ptr (room n v h))
                    (slice r.bytes 0 (n - room n v h)) (omega (arith, front n v h))
                  ∙ ap (splice dst 0) (sym (take_long n v h long)))))))
  | no short ↦
      rw (no_wrap_to_end v, le→ltb (r.size - r.read_ptr) n (omega arith))
        (memcpy_lem dst 0 r.bytes r.read_ptr n (omega arith) (omega arith)
          ∙ ap (λ l. some (splice dst 0 l)) (sym (take_short n v h (omega arith))))
]
  where
    as_size : room n v h < n → size_of_int (r.size - r.read_ptr) ≡ r.size - r.read_ptr
    as_size long =
        let small : r.size - r.read_ptr < 2 ^ 31 = omega (arith, avail-add-avail v) in
        rw (lt→ltb (r.size - r.read_ptr) (2 ^ 31) small)

    behind : room n v h < n → sub32 n (r.size - r.read_ptr) ≡ n - room n v h
    behind long = omega (arith, avail-add-avail v)

    kept :
        room n v h ≤ length dst
        → length (splice dst 0 (slice r.bytes r.read_ptr (room n v h))) ≡ length dst
    kept fits =
        omega (arith, length-splice dst 0 (slice r.bytes r.read_ptr (room n v h)), front n v h)

pub taken-IsValid :
    {r : RingBuffer} (n : ℕ) → IsValid r → n ≤ get_read_avail r → IsValid (taken r n)
taken-IsValid {r} n v h =
    let small : n < r.size = omega (arith, avail-add-avail v) in
    record {
      block = v.block;
      pos = v.pos;
      small = v.small;
      read_in = advance-lt r.read_ptr n v v.read_in small;
      write_in = v.write_in;
    }
