-- ===== src/WsParser/Defined.antt =====
-- Where WsParser's constructor is defined, and where it touches bytes outside an object.
use asr_sdk_cpp.Base.{
  ℕ, ◌≡◌, ◌∙◌, true, false, ◌&&◌, some, none, List, [], ◌∷◌, refl, Bytes, length, ◌^◌, ◌<◌, ◌⊎◌,
  arith, Bool-cases, inl, inr,
}
use asr_sdk_cpp.Text.{equal, empty, get_lines}
use asr_sdk_cpp.Outcome.{
  Outcome, done, threw, undefined, parser_error, invalid_argument, out_of_range, and_then,
}
use asr_sdk_cpp.TokenStream.{tokenize}
use asr_sdk_cpp.WsParser.{
  WsParser, copy_body, read_body, initial, parse, line_stm, read_lines, or_break, pop_back,
  carriage_return,
}
use native.Mathlib.Decide.{dec_lt}
use asr_sdk_cpp.StringMap.{StringMap}
use asr_sdk_cpp.WsParser.Body.{copy_body_last, copy_body_outside}
use asr_sdk_cpp.WsParser.Message.{
  message, IsMessage, collected, read_lines-stop, parse-message, facts,
}
use asr_sdk_cpp.WsParser.Collect.{has_length}
use asr_sdk_cpp.WsParser.Safety.{AllAscii, if_either, IsSafe, stm-AllSafe, append-EndsLine}

-- No line is empty, that is a bare newline with no carriage return before it, and none has a byte
-- from 128 on.
abbrev pub AllPlain : List Bytes → Type 0
AllPlain [] = Unit {0}
AllPlain (l ∷ ls) = (empty l ≡ false) × AllAscii l × AllPlain ls

abbrev pub IsDefined : {A : Type 0} → Outcome WsParser A → Type 0
IsDefined (done a p) = Unit {0}
IsDefined (threw e p) = Unit {0}
IsDefined undefined = ⊥

IsSafe-IsDefined : {A : Type 0} (o : Outcome WsParser A) → IsSafe o → IsDefined o
IsSafe-IsDefined (done a p) h = tt
IsSafe-IsDefined (threw e p) h = tt
IsSafe-IsDefined undefined h = h

pop_back-some :
    (l : Bytes) → empty l ≡ false → AllAscii l → (r : Bytes) × (pop_back l ≡ some r) × AllAscii r
unfolding empty pop_back
pop_back-some [] h a = cc
pop_back-some (c ∷ []) h a = ([], refl, tt)
pop_back-some (c ∷ d ∷ l) h a =
    let (r, e, b) = pop_back-some (d ∷ l) refl a.1 in (c ∷ r, rw e, (a.0, b))

line_stm-IsSafe :
    (l : Bytes) (p : WsParser) → empty l ≡ false → AllAscii l → IsSafe (line_stm (pop_back l) p)
unfolding line_stm tokenize
line_stm-IsSafe l p h a =
    let (r, e, b) = pop_back-some l h a in rw e (stm-AllSafe.safe _ (append-EndsLine r b))

or_break-IsDefined :
    (o : Outcome WsParser (Unit {0})) (rest : WsParser → Outcome WsParser (Unit {0}))
    → IsSafe o
    → ((p : WsParser) → IsDefined (rest p))
    → IsDefined (or_break o rest)
or_break-IsDefined (done a p) rest h k = k p
or_break-IsDefined (threw parser_error p) rest h k = tt
or_break-IsDefined (threw invalid_argument p) rest h k = tt
or_break-IsDefined (threw out_of_range p) rest h k = tt
or_break-IsDefined undefined rest h k = h

-- The constructor's loop over lines of which none is empty or has a byte from 128 on is defined.
pub read_lines-IsDefined :
    (ls : List Bytes) (p : WsParser) → AllPlain ls → IsDefined (read_lines ls p)
unfolding read_lines
read_lines-IsDefined [] p h = tt
read_lines-IsDefined (l ∷ ls) p h =
    if_either IsDefined (equal l carriage_return && p.has_body) _ _ (λ _. tt)
      (λ _.
        or_break-IsDefined (line_stm (pop_back l) p) (read_lines ls) (line_stm-IsSafe l p h.0 h.1)
          (λ q. read_lines-IsDefined ls q h.2))

-- The loop over the lines of `s` ends, and a length header announced more bytes than `s` has.
pub record Overlong (s : Bytes) : Type 0 where
  pub parser : WsParser
  pub loop : read_lines (get_lines 10 s) initial ≡ done tt parser
  pub has_body : parser.has_body ≡ true
  pub too_long : length s < parser.size_body

read_body-cases :
    (s : Bytes) (p : WsParser)
    → length s < 2 ^ 64
    → IsDefined (read_body s p) ⊎ ((p.has_body ≡ true) × (length s < p.size_body))
unfolding read_body
read_body-cases s p h = elim (Bool-cases p.has_body) [
  | inl there ↦ elim (dec_lt (length s) p.size_body) [
    | yes long ↦ inr (there, long)
    | no fits ↦ inl (rw there (rw (copy_body_last s p.size_body p.body (omega arith) h) tt))
  ]
  | inr absent ↦ inl (rw absent tt)
]

parse-cases :
    (s : Bytes) (o : Outcome WsParser (Unit {0}))
    → read_lines (get_lines 10 s) initial ≡ o
    → IsDefined o
    → length s < 2 ^ 64
    → IsDefined (and_then o (λ _. read_body s)) ⊎ Overlong s
parse-cases s (done a p) e d h = elim (read_body-cases s p h) [
  | inl fine ↦ inl fine
  | inr long ↦ inr (record { parser = p; loop = e; has_body = long.0; too_long = long.1 })
]
parse-cases s (threw x p) e d h = inl tt
parse-cases s undefined e d h = absurd d

-- On a text below 2^64 bytes of which no line is empty or has a byte from 128 on, the constructor
-- returns or throws and does nothing undefined: it touches no byte outside an object and asks for
-- the class of no negative char. The exception is a length header that announced more bytes than
-- the text has, when the loop over the lines ends.
pub parse-IsDefined :
    (s : Bytes) → AllPlain (get_lines 10 s) → length s < 2 ^ 64 → IsDefined (parse s) ⊎ Overlong s
unfolding parse empty
parse-IsDefined [] n h = inl tt
parse-IsDefined (c ∷ cs) n h =
    parse-cases (c ∷ cs) (read_lines (get_lines 10 (c ∷ cs)) initial) refl
      (read_lines-IsDefined (get_lines 10 (c ∷ cs)) initial n) h

-- A loop over lines of which the first is empty.
empty_line : (rest : Bytes) (p : WsParser) → read_lines (get_lines 10 (10 ∷ rest)) p ≡ undefined
unfolding read_lines line_stm pop_back get_lines equal
empty_line rest p = refl

-- On a message that can be read back but has an empty line behind its headers the constructor does
-- what is undefined: it pops the last byte of an empty text.
pub parse_empty_line :
    {n : ℕ} {v c : Bytes} {m : StringMap} (rest : Bytes)
    → IsMessage n v c m
    → parse (message v c m (10 ∷ rest)) ≡ undefined
parse_empty_line rest h = parse-message h (10 ∷ rest) (empty_line rest (collected h))

read_body_outside :
    (s : Bytes) (p : WsParser) {n : ℕ}
    → p.has_body ≡ true
    → p.size_body ≡ n
    → p.body ≡ []
    → copy_body s n [] ≡ none
    → read_body s p ≡ undefined
unfolding read_body
read_body_outside s p h k e f = ground arith

-- On a message below 2^63 bytes whose length header announces more bytes than it has, and less
-- than 2^64, the constructor reads outside the message.
pub parse_overlong :
    {n : ℕ} {v c : Bytes} {m : StringMap} (rest : Bytes)
    → IsMessage n v c m
    → has_length m ≡ true
    → length (message v c m (13 ∷ 10 ∷ rest)) < n
    → n < 2 ^ 64
    → length (message v c m (13 ∷ 10 ∷ rest)) < 2 ^ 63
    → parse (message v c m (13 ∷ 10 ∷ rest)) ≡ undefined
parse_overlong {n} {v} {c} {m} rest h e l k s =
    let whole = message v c m (13 ∷ 10 ∷ rest) in
    parse-message h (13 ∷ 10 ∷ rest) (read_lines-stop h rest e)
    ∙ read_body_outside whole (collected h) ((facts h).has_body ∙ rw e) ((facts h).size_body ∙ rw e)
        (facts h).body (copy_body_outside whole n [] l k s)
