-- ===== src/FileSource/Sending.antt =====
-- The sending thread on a file.
use asr_sdk_cpp.Base.{
  length-append, ℕ, ◌+◌, ◌*◌, ◌<◌, ◌≤◌, zero, suc, ◌≡◌, ◌∙◌, Bool, true, false, ◌||◌, ◌≢◌, Option,
  some, List, [], ◌∷◌, ◌++◌, ltb, refl, sym, ap, subst, arith, Bytes, length, take, drop, replicate,
  min, inl, inr, length-drop, length-take, drop-drop, drop-all, take-append-drop, Bool-cases, leb,
  leb→le, if◌then◌else◌, le→ltb, lt→ltb,
}
use asr_sdk_cpp.Text.{codes, equal}
use asr_sdk_cpp.AsrMessage.{AsrMessage}
use asr_sdk_cpp.AudioSending.{Round, send_audio}
use asr_sdk_cpp.AudioSending.Packets.{
  gave, rounds, joined, bodies, flags, flags_of, sent_as, send_audio-joined,
}
use asr_sdk_cpp.BufferSource.{AudioFormat}
use asr_sdk_cpp.FileSource.{
  create, extension, by_extension, open_source, header_size, read_header, seek_start, open_stream,
  Stream, read_stream, FileSource, read, given, block_size,
}

-- The rounds of the sending thread on a file, when nobody tells it to end; the vector of each round
-- is a new one.
pub file_rounds : ℕ → FileSource → List Round
file_rounds zero s = []
file_rounds (suc n) s =
    let got = read s [] in
    (record { ret = got.0; buffer = got.1; terminate = false }) ∷ file_rounds n got.2

-- A file with these bytes left to read
pub record Left (data' : Bytes) (s : FileSource) : Type 0 where
  pub left : drop s.ifs.position s.ifs.content ≡ data'
  pub eof : s.ifs.eof ≡ false
  pub fail : s.ifs.fail ≡ false

-- The first rounds are those of a source that gives some buffers and ends; they hold the bytes, and
-- none of them is empty.
pub record Gives (data' : Bytes) (rs : List Round) : Type 0 where
  pub buffers : List Bytes
  pub more : List Round
  pub are_rounds : rs ≡ rounds buffers more
  pub joined : joined buffers ≡ data'
  pub told : flags_of buffers ≡ replicate (length buffers) (codes "false") ++ codes "true" ∷ []
  pub count : length buffers * block_size < length data' + block_size

good_if :
    {A : Type 0} (a b : Bool) (x y : A) → a ≡ false → b ≡ false → (if a || b then x else y) ≡ y
good_if a b x y h k = rw h (rw k)

bad_if : {A : Type 0} (a b : Bool) (x y : A) → b ≡ true → (if a || b then x else y) ≡ x
bad_if true b x y k = refl
bad_if false b x y k = rw k

-- The stream behind a read that finds `data'`
abbrev behind : Bytes → Stream → Stream
behind data' st = record st {
  position = st.position + min block_size (length data');
  eof = ltb (length data') block_size;
  fail = ltb (length data') block_size;
}

read_stream-Left :
    {data' : Bytes} (s : FileSource)
    → Left data' s
    → read_stream block_size s.ifs ≡ (take block_size data', behind data' s.ifs)
unfolding read_stream
read_stream-Left s h =
    good_if s.ifs.eof s.ifs.fail _ _ h.eof h.fail
    ∙ ap (λ r. (take block_size r, behind r s.ifs)) h.left

read_stream_failed : (st : Stream) → st.fail ≡ true → (read_stream block_size st).0 ≡ []
unfolding read_stream
read_stream_failed st h = ap (λ (p : Bytes × Stream). p.0) (bad_if st.eof st.fail _ _ h)

-- The rounds from a read on
rounds_from : ℕ → FileSource → Bytes × Stream → List Round
rounds_from n s got =
    (record { ret = (given got.0 []).0; buffer = (given got.0 []).1; terminate = false })
    ∷ file_rounds n (record s { ifs = got.1 })

file_rounds-suc :
    (n : ℕ) (s : FileSource)
    → file_rounds (suc n) s ≡ rounds_from n s (read_stream block_size s.ifs)
unfolding file_rounds read rounds_from
file_rounds-suc n s = refl

-- At the end every round is one that ends.
ends-Gives :
    (n : ℕ) (s : FileSource) (got : Bytes × Stream) → got.0 ≡ [] → Gives [] (rounds_from n s got)
unfolding rounds_from
ends-Gives n s got e = rw e (record {
  buffers = [];
  more = file_rounds n (record s { ifs = got.1 });
  are_rounds = refl;
  joined = refl;
  told = refl;
  count = omega arith;
})

-- A round that gives bytes, in front
first-Gives :
    (c : ℕ) (d left : Bytes) {rs : List Round}
    → (left ≢ [] → length (c ∷ d) ≡ block_size)
    → Gives left rs
    → Gives ((c ∷ d) ++ left) (gave (c ∷ d) ∷ rs)
first-Gives c d left whole g = record {
  buffers = (c ∷ d) ∷ g.buffers;
  more = g.more;
  are_rounds = ap (◌∷◌ (gave (c ∷ d))) g.are_rounds;
  joined = ap (λ l. (c ∷ d) ++ l) g.joined;
  told = ap (◌∷◌ (codes "false")) g.told;
  count = fewer left g.count whole;
}
  where
    fewer :
        (left : Bytes)
        → length g.buffers * block_size < length left + block_size
        → (left ≢ [] → length (c ∷ d) ≡ block_size)
        → suc (length g.buffers) * block_size < suc (length (d ++ left)) + block_size
    fewer [] h k = omega (arith, length-append d [])
    fewer (x ∷ xs) h k =
        let full : length (c ∷ d) ≡ block_size = k (λ e. cc) in
        omega (arith, length-append d (x ∷ xs))

next-Left :
    {data' : Bytes} (s : FileSource)
    → Left data' s
    → block_size ≤ length data'
    → Left (drop block_size data') (record s { ifs = behind data' s.ifs })
next-Left {data'} s h big = record {
  left =
      ap (λ k. drop (s.ifs.position + k) s.ifs.content) {y = block_size} (omega arith)
      ∙ sym (drop-drop block_size s.ifs.position s.ifs.content)
      ∙ ap (drop block_size) h.left;
  eof = le→ltb (length data') block_size big;
  fail = le→ltb (length data') block_size big;
}

-- A read that does not find a whole block leaves a stream that gives nothing more.
behind_failed :
    (data' : Bytes) (st : Stream) → length data' < block_size → (behind data' st).fail ≡ true
behind_failed data' st h = lt→ltb (length data') block_size h

leb-false : (a b : ℕ) → leb a b ≡ false → b < a
leb-false a b h = ground arith

-- Bytes are left behind a block only if it is whole.
whole_block : (d : Bytes) → drop 9999 d ≢ [] → suc (length (take 9999 d)) ≡ block_size
whole_block d h = elim (Bool-cases (leb (length d) 9999)) [
  | inl e ↦ absurd (h (drop-all 9999 d (leb→le (length d) 9999 e)))
  | inr e ↦ let more = leb-false (length d) 9999 e in omega (arith, length-take 9999 d)
]

-- A first block, and what the rounds behind it give
block-Gives :
    (n c : ℕ) (d : Bytes) (s : FileSource) (st : Stream)
    → Gives (drop 9999 d) (file_rounds n (record s { ifs = st }))
    → Gives (c ∷ d) (rounds_from n s (c ∷ take 9999 d, st))
unfolding rounds_from
block-Gives n c d s st g =
    subst (λ l. Gives (c ∷ l) (rounds_from n s (c ∷ take 9999 d, st))) (take-append-drop 9999 d)
      (first-Gives c (take 9999 d) (drop 9999 d) (whole_block d) g)

gives :
    (n : ℕ) (data' : Bytes) (s : FileSource)
    → Left data' s
    → length data' < n * block_size
    → Gives data' (file_rounds (suc n) s)
gives n [] s h small =
    subst (Gives []) (sym (file_rounds-suc n s))
      (ends-Gives n s _ (ap (λ (p : Bytes × Stream). p.0) (read_stream-Left s h)))
gives zero (c ∷ d) s h small = absurd (omega arith)
gives (suc m) (c ∷ d) s h small = subst (Gives (c ∷ d)) (sym (file_rounds-suc (suc m) s)) (
    subst (λ got. Gives (c ∷ d) (rounds_from (suc m) s got)) (sym (read_stream-Left s h))
      (block-Gives (suc m) c d s (behind (c ∷ d) s.ifs)
        (elim (Bool-cases (leb block_size (length (c ∷ d)))) [
          | inl e ↦
              let big = leb→le block_size (length (c ∷ d)) e in
              let fewer : length (drop 9999 d) < m * block_size =
                omega (arith, length-drop 9999 d) in
              gives m (drop 9999 d) (record s { ifs = behind (c ∷ d) s.ifs }) (next-Left s h big)
                fewer
          | inr e ↦
              let few = leb-false block_size (length (c ∷ d)) e in
              let none_left : drop 9999 d ≡ [] = drop-all 9999 d (omega arith) in
              subst (λ l. Gives l (file_rounds (suc m) (record s { ifs = behind (c ∷ d) s.ifs })))
                (sym none_left)
                (subst (Gives [])
                  (sym (file_rounds-suc m (record s { ifs = behind (c ∷ d) s.ifs })))
                  (ends-Gives m (record s { ifs = behind (c ∷ d) s.ifs }) _
                    (read_stream_failed _ (behind_failed (c ∷ d) s.ifs few))))
        ])))

-- The requests that the sending thread makes of a file: they carry its bytes, in order, in so many
-- blocks, and only the one behind the last block says that it is the last packet.
pub record Sent (data' : Bytes) (ms : List AsrMessage) : Type 0 where
  pub blocks : ℕ
  pub bytes : bodies ms ≡ data'
  pub told : flags ms ≡ replicate blocks (codes "false") ++ codes "true" ∷ []
  pub count : blocks * block_size < length data' + block_size

-- The same from any source with bytes left
send_audio-Sent :
    (n : ℕ) (data' : Bytes) (s : FileSource)
    → Left data' s
    → length data' < n * block_size
    → Sent data' (send_audio (file_rounds (suc n) s))
send_audio-Sent n data' s h small =
    let g = gives n data' s h small in
    let all : sent_as (send_audio (file_rounds (suc n) s))
        ≡ (joined g.buffers, flags_of g.buffers) =
      ap (λ rs. sent_as (send_audio rs)) g.are_rounds ∙ send_audio-joined g.buffers g.more in
    record {
      blocks = length g.buffers;
      bytes = ap (λ (p : Bytes × List Bytes). p.0) all ∙ g.joined;
      told = ap (λ (p : Bytes × List Bytes). p.1) all ∙ g.told;
      count = g.count;
    }

-- A header in front of the bytes is read whole.
abbrev pub HasHeader : Bytes → Bytes → Type 0
HasHeader name data' = equal (extension name) (codes "wav") ≡ true → header_size ≤ length data'

by_extension-Left :
    (is_raw is_wav : Bool) (name : Bytes) (fmt : AudioFormat) (data' : Bytes)
    → (is_wav ≡ true → header_size ≤ length data')
    → Left data' (by_extension is_raw is_wav (open_source name fmt (some data')))
unfolding read_header read_stream seek_start open_stream
by_extension-Left true is_wav name fmt data' h = record { left = refl; eof = refl; fail = refl }
by_extension-Left false false name fmt data' h = record { left = refl; eof = refl; fail = refl }
by_extension-Left false true name fmt data' h =
    let enough = le→ltb (length data') header_size (h refl) in
    record { left = rw enough; eof = refl; fail = enough }

create-Left :
    (files : Bytes → Option Bytes) (name : Bytes) (fmt : AudioFormat) {data' : Bytes}
    → files name ≡ some data'
    → HasHeader name data'
    → Left data' (create files name fmt)
unfolding create
create-Left files name fmt {data'} e h =
    let g =
      by_extension-Left (equal (extension name) (codes "raw"))
        (equal (extension name) (codes "wav")) name fmt data' h in
    rw e (record { left = g.left; eof = g.eof; fail = g.fail })

-- On a file that can be opened, of fewer than so many blocks of 10000 bytes, and with the bytes of
-- a header if its name ends in wav, the loop of the sending thread makes its last request within
-- one round more than that: the requests carry the whole file, in order, in as few blocks as it
-- fits in, and only the one behind the last block says that it is the last packet.
pub create-Sent :
    (files : Bytes → Option Bytes) (name : Bytes) (fmt : AudioFormat) (n : ℕ) {data' : Bytes}
    → files name ≡ some data'
    → HasHeader name data'
    → length data' < n * block_size
    → Sent data' (send_audio (file_rounds (suc n) (create files name fmt)))
create-Sent files name fmt n {data'} e h small =
    send_audio-Sent n data' (create files name fmt) (create-Left files name fmt e h) small
