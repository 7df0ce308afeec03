-- ===== src/BufferSource/Stream.antt =====
-- BufferAudioSource as a stream: what goes in comes out once, in order, and then the stream ends.
use asr_sdk_cpp.Base.{
  ◌^◌, ◌<◌, ◌≡◌, ◌∙◌, ◌++◌, inl, inr, true, false, Bool-cases, refl, sym, ap, arith, List, [], ◌∷◌,
  Option, some, length, Bytes, take, append-nil, append_assoc, if◌then◌else◌, ◌==◌,
}
use asr_sdk_cpp.RingBuffer.{get_write_avail, ◌>>=◌, cap_at}
use asr_sdk_cpp.RingBuffer.Contents.{contents}
use asr_sdk_cpp.BufferSource.{BufferSource, read, write, finish, Count, minus_one, bytes}
use asr_sdk_cpp.BufferSource.Inv.{IsValid, write-Accepted, read-cases, finish-IsValid}

abbrev pub waiting : BufferSource → Bytes
waiting s = contents s.ring

-- On a valid source `read` returns -1 only if the source is finished and holds no byte.
pub read_end :
    {s t : BufferSource} (buffer : Bytes) {out : Bytes}
    → IsValid s
    → read s buffer ≡ some (minus_one, out, t)
    → (s.finished ≡ true) × (waiting s ≡ [])
read_end {s} buffer v e = elim (read-cases buffer v) [
  | inl (same, f, low) ↦ (f, v.waiting low)
  | inr d ↦ cc d.result
]

-- Two reads of a finished source, the second with any buffer.
pub record Ends (s : BufferSource) (b c : Bytes) : Type 0 where
  pub given : Count
  pub out : Bytes
  pub last : BufferSource
  pub first_read : read s b ≡ some (given, out, last)
  pub second_read : read last c ≡ some (minus_one, c, last)

minus_one_of :
    (s : BufferSource) (c : Bytes)
    → s.finished ≡ true
    → s.to_read ≡ false
    → read s c ≡ some (minus_one, c, s)
unfolding read
minus_one_of s c f low = ground arith

-- Once a valid source is finished, the second of any two reads returns -1.
pub finished-Ends : {s : BufferSource} (b c : Bytes) → IsValid s → s.finished ≡ true → Ends s b c
finished-Ends {s} b c v f = elim (read-cases b v) [
  | inl (same, _, low) ↦ record {
    given = minus_one;
    out = b;
    last = s;
    first_read = same;
    second_read = minus_one_of s c f low;
  }
  | inr d ↦ record {
    given = bytes (length (waiting s));
    out = if length (waiting s) == 0 then b else waiting s;
    last = d.source;
    first_read = d.result;
    second_read = minus_one_of d.source c (d.finished_still ∙ f) d.lowered;
  }
]

-- The calls of the application thread and of the sending thread, in the order of the mutex.
pub data Act : Type 0 where
  put : Bytes → Act
  take_all : Act
  end : Act

-- What a call adds to the accepted bytes and to the delivered ones. A write is accepted as far
-- as the ring has room; a read is given an empty vector, as the sending thread does.
pub record Flow : Type 0 where
  pub accepted : Bytes
  pub delivered : Bytes

pub step : BufferSource → Act → Option (Flow × BufferSource)
step s (put bs) = do
  (ok, s') ← write s bs
  let kept = take (cap_at (length bs) (get_write_avail s.ring)) bs
  some (record { accepted = if ok then kept else []; delivered = [] }, s')
step s take_all = do (n, out, s') ← read s []; some (record { accepted = []; delivered = out }, s')
step s end = some (record { accepted = []; delivered = [] }, finish s)

pub run : BufferSource → List Act → Option (Flow × BufferSource)
run s [] = some (record { accepted = []; delivered = [] }, s)
run s (a ∷ as') = do
  (f, s') ← step s a
  (g, t) ← run s' as'
  some (record { accepted = f.accepted ++ g.accepted; delivered = f.delivered ++ g.delivered }, t)

-- No write is longer than an `unsigned int` can say.
abbrev pub IsShort : List Act → Type 0
IsShort [] = Unit
IsShort (put bs ∷ as') = (length bs < 2 ^ 32) × IsShort as'
IsShort (take_all ∷ as') = IsShort as'
IsShort (end ∷ as') = IsShort as'

-- The calls run without leaving a block, keep the source valid, and what waited before and was
-- accepted is what was delivered and waits after, in order.
pub record Conserves (s : BufferSource) (out : Option (Flow × BufferSource)) : Type 0 where
  pub flow : Flow
  pub source : BufferSource
  pub result : out ≡ some (flow, source)
  pub valid : IsValid source
  pub balance : waiting s ++ flow.accepted ≡ flow.delivered ++ waiting source

if_empty : (xs : Bytes) → (if length xs == 0 then [] else xs) ≡ xs
if_empty [] = refl
if_empty (x ∷ xs) = ground arith

write_finished : (s : BufferSource) (bs : Bytes) → s.finished ≡ true → write s bs ≡ some (false, s)
unfolding write
write_finished s bs f = ground arith

put-Conserves :
    {s : BufferSource} (bs : Bytes) → IsValid s → length bs < 2 ^ 32 → Conserves s (step s (put bs))
unfolding step
put-Conserves {s} bs v h = elim (Bool-cases s.finished) [
  | inl f ↦ record {
    flow = record { accepted = []; delivered = [] };
    source = s;
    result = rw (write_finished s bs f);
    valid = v;
    balance = append-nil (waiting s);
  }
  | inr f ↦
      let w = write-Accepted bs v h f in
      record {
        flow = record {
          accepted = take (cap_at (length bs) (get_write_avail s.ring)) bs;
          delivered = [];
        };
        source = w.source;
        result = rw w.result;
        valid = w.valid;
        balance = sym w.appended;
      }
]

take_all-Conserves : {s : BufferSource} → IsValid s → Conserves s (step s take_all)
unfolding step
take_all-Conserves {s} v = elim (read-cases [] v) [
  | inl (same, f, low) ↦ record {
    flow = record { accepted = []; delivered = [] };
    source = s;
    result = rw same;
    valid = v;
    balance = append-nil (waiting s);
  }
  | inr d ↦ record {
    flow = record { accepted = []; delivered = waiting s };
    source = d.source;
    result = rw d.result (rw (if_empty (waiting s)));
    valid = d.valid;
    balance = ap (λ l. waiting s ++ l) (sym d.emptied);
  }
]

end-Conserves : {s : BufferSource} → IsValid s → Conserves s (step s end)
unfolding step finish
end-Conserves {s} v = record {
  flow = record { accepted = []; delivered = [] };
  source = finish s;
  result = refl;
  valid = finish-IsValid v;
  balance = append-nil (waiting s);
}

idle-Conserves : {s : BufferSource} → IsValid s → Conserves s (run s [])
unfolding run
idle-Conserves {s} v = record {
  flow = record { accepted = []; delivered = [] };
  source = s;
  result = refl;
  valid = v;
  balance = append-nil (waiting s);
}

-- One call, and then others.
run_cons :
    {s : BufferSource} (a : Act) (as' : List Act) (c : Conserves s (step s a))
    → Conserves c.source (run c.source as')
    → Conserves s (run s (a ∷ as'))
unfolding run
run_cons {s} a as' c d = record {
  flow = record {
    accepted = c.flow.accepted ++ d.flow.accepted;
    delivered = c.flow.delivered ++ d.flow.delivered;
  };
  source = d.source;
  result = rw c.result (rw d.result);
  valid = d.valid;
  balance =
      sym (append_assoc (waiting s) c.flow.accepted d.flow.accepted)
      ∙ ap (λ l. l ++ d.flow.accepted) c.balance
      ∙ append_assoc c.flow.delivered (waiting c.source) d.flow.accepted
      ∙ ap (λ l. c.flow.delivered ++ l) d.balance
      ∙ sym (append_assoc c.flow.delivered d.flow.delivered (waiting d.source));
}

-- Whatever calls the two threads make on a valid source, in whatever order, where each write is
-- shorter than 2^32 bytes and each read is into an empty vector, no call leaves a block, and
-- the bytes that waited at the start followed by those accepted are the bytes delivered followed
-- by those that wait at the end: none is lost, doubled or moved.
pub run-Conserves :
    (as' : List Act) {s : BufferSource} → IsValid s → IsShort as' → Conserves s (run s as')
run-Conserves [] v h = idle-Conserves v
run-Conserves (put bs ∷ as') v h =
    let c = put-Conserves bs v h.0 in run_cons (put bs) as' c (run-Conserves as' c.valid h.1)
run-Conserves (take_all ∷ as') v h =
    let c = take_all-Conserves v in run_cons take_all as' c (run-Conserves as' c.valid h)
run-Conserves (end ∷ as') v h =
    let c = end-Conserves v in run_cons end as' c (run-Conserves as' c.valid h)
