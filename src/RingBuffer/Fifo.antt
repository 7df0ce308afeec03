-- ===== src/RingBuffer/Fifo.antt =====
-- A RingBuffer against a bounded queue: a client cannot tell them apart.
use asr_sdk_cpp.Base.{
  ℕ, ◌-◌, ◌≡◌, ◌++◌, List, [], ◌∷◌, Option, some, arith, length, Bytes, take, drop, replicate,
  length-replicate, length-take, take-append_length, sym, refl, if◌then◌else◌, ◌==◌,
}
use asr_sdk_cpp.RingBuffer.{
  RingBuffer, get_write_avail, write, read, read_all, ◌>>=◌, cap_at, make_even,
}
use asr_sdk_cpp.RingBuffer.Inv.{IsValid, avail-add-avail}
use asr_sdk_cpp.RingBuffer.Contents.{contents, length-contents}
use asr_sdk_cpp.RingBuffer.Transfer.{read_count, write-Wrote, read-Fetched, read_all-Drained}

-- A client's call: write all bytes of a block, read into a block of zeros, or read all.
pub data Call : Type 0 where
  put : Bytes → Call
  get : ℕ → Call
  get_all : Call

-- What a client sees of a call: the returned number, and the bytes that it was given.
abbrev pub Reply : Type 0
Reply = ℕ × Bytes

-- The bounded queue: what a call answers, and the queue behind it.
pub answer : ℕ → Bytes → Call → Reply
answer cap q (put bs) = (cap_at (length bs) (cap - length q), [])
answer cap q (get n) = let k = make_even (cap_at n (length q)) in (k, take k q)
answer cap q get_all = (length q, q)

pub after : ℕ → Bytes → Call → Bytes
after cap q (put bs) = q ++ take (cap_at (length bs) (cap - length q)) bs
after cap q (get n) = drop (make_even (cap_at n (length q))) q
after cap q get_all = []

pub queue_run : ℕ → Bytes → List Call → List Reply
queue_run cap q [] = []
queue_run cap q (c ∷ cs) = answer cap q c ∷ queue_run cap (after cap q c) cs

-- The same calls on a ring.
pub step : RingBuffer → Call → Option (Reply × RingBuffer)
step r (put bs) = do (n, r') ← write r (some bs) (length bs); some ((n, []), r')
step r (get n) = do
  (k, out, r') ← read r (some (replicate n 0)) n
  dst ← out
  some ((k, take k dst), r')
step r get_all = do (k, out, r') ← read_all r []; some ((k, out), r')

pub run : RingBuffer → List Call → Option (List Reply)
run r [] = some []
run r (c ∷ cs) = do (reply, r') ← step r c; replies ← run r' cs; some (reply ∷ replies)

if_empty : (xs : Bytes) → (if length xs == 0 then [] else xs) ≡ xs
if_empty [] = refl
if_empty (x ∷ xs) = ground arith

-- What a call on a valid ring leaves.
record Stepped (r : RingBuffer) (c : Call) : Type 0 where
  ring : RingBuffer
  result : step r c ≡ some (answer (r.size - 1) (contents r) c, ring)
  valid : IsValid ring
  rest : contents ring ≡ after (r.size - 1) (contents r) c
  same_size : ring.size ≡ r.size

step-Stepped : (c : Call) {r : RingBuffer} → IsValid r → Stepped r c
unfolding step answer after
step-Stepped (put bs) {r} v =
    let w = write-Wrote bs (length bs) v (omega arith) in
    let room : get_write_avail r ≡ r.size - 1 - length (contents r) =
      omega (arith, avail-add-avail v, length-contents v) in
    record {
      ring = w.ring;
      result = rw w.result (rw room);
      valid = w.valid;
      rest = rw (← room) w.appended;
      same_size = w.same_size;
    }
step-Stepped (get n) {r} v =
    let w = read-Fetched (replicate n 0) n v (omega (arith, length-replicate {A = ℕ} n 0)) in
    let part : length (take (read_count r n) (contents r)) ≡ read_count r n =
      ground (arith, length-take (read_count r n) (contents r), length-contents v) in
    record {
      ring = w.ring;
      result = rw w.result (
          rw (take-append_length (read_count r n) (take (read_count r n) (contents r)) _ (sym part))
            (rw (length-contents v)));
      valid = w.valid;
      rest = rw (length-contents v) w.rest;
      same_size = w.same_size;
    }
step-Stepped get_all {r} v =
    let w = read_all-Drained [] v in
    record {
      ring = w.ring;
      result = rw w.result (rw (if_empty (contents r)));
      valid = w.valid;
      rest = w.emptied;
      same_size = w.same_size;
    }

-- On a valid ring no sequence of calls leaves a block, and each call returns the number and the
-- bytes that the same call returns on a queue that holds at most `size - 1` bytes.
pub run_refines :
    (cs : List Call) {r : RingBuffer}
    → IsValid r
    → run r cs ≡ some (queue_run (r.size - 1) (contents r) cs)
unfolding run queue_run
run_refines [] v = refl
run_refines (c ∷ cs) {r} v =
    let s = step-Stepped c v in
    rw s.result (rw (run_refines cs s.valid) (rw s.rest (rw s.same_size)))
