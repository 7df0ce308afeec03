-- ===== src/WsParser/Safety.antt =====
-- The tokenizer's inner loop does not look for the end of its line; the newline that the
-- constructor puts there stops it. Where the constructor is defined, and where it is not.
use asr_sdk_cpp.Base.{
  ℕ, ◌≡◌, Bool, true, false, not, ◌&&◌, [], ◌∷◌, ◌++◌, refl, ◌==◌, Bytes, if◌then◌else◌, arith,
}
use asr_sdk_cpp.Text
use asr_sdk_cpp.Text.{codes, equal, empty, get_lines, stoi, Converted, number}
use mathlib.Core.Path.{subst, sym}
use asr_sdk_cpp.StringMap.{insert}
use asr_sdk_cpp.Outcome.{
  Outcome, done, threw, undefined, Exception, parser_error, M, and_then, throw_if, pure, ◌>>=◌,
  ◌>>◌,
}
use asr_sdk_cpp.TokenStream.{
  TokenStream, Token, id, crlf, eoft, sep_op, asr_title, Scanned, overrun, word, longer, is_word,
  has_class, scan, get, get_next_from, remember, finish_word, unget_token,
}
use asr_sdk_cpp.WsParser.{
  WsParser, next, back, on_tokens, is_kind, put, set_size, note_length, key_expr, cmd_expr, expr,
  stm_expr, stm,
}

-- All bytes are below 128: isalpha is defined on them.
abbrev pub AllAscii : Bytes → Type 0
AllAscii [] = Unit {0}
AllAscii (c ∷ cs) = (has_class c ≡ true) × AllAscii cs

-- The text is empty or its last byte is a newline; all its bytes are below 128.
abbrev pub EndsLine : Bytes → Type 0
EndsLine [] = Unit {0}
EndsLine (c ∷ []) = c ≡ 10
EndsLine (c ∷ d ∷ cs) = (has_class c ≡ true) × EndsLine (d ∷ cs)

pub append-EndsLine : (l : Bytes) → AllAscii l → EndsLine (l ++ 10 ∷ [])
append-EndsLine [] h = refl
append-EndsLine (c ∷ []) h = (h.0, refl)
append-EndsLine (c ∷ d ∷ l) h = (h.0, append-EndsLine (d ∷ l) h.1)

EndsLine-tail : (c : ℕ) (cs : Bytes) → EndsLine (c ∷ cs) → EndsLine cs
EndsLine-tail c [] h = tt
EndsLine-tail c (d ∷ cs) h = h.1

EndsLine-class : (c : ℕ) (cs : Bytes) → EndsLine (c ∷ cs) → has_class c ≡ true
unfolding has_class
EndsLine-class c [] h = rw h
EndsLine-class c (d ∷ cs) h = h.0

-- The outcome is defined, and what is left of the line still ends it.
abbrev Keeps : {A : Type 0} → Outcome TokenStream A → Type 0
Keeps (done a ts) = EndsLine ts.rest
Keeps (threw e ts) = Unit {0}
Keeps undefined = ⊥

abbrev Stops : Scanned → Type 0
Stops overrun = ⊥
Stops (word w rest) = EndsLine rest

longer-Stops : (c : ℕ) (s : Scanned) → Stops s → Stops (longer c s)
longer-Stops c overrun h = h
longer-Stops c (word w rest) h = h

-- A statement about both branches holds of the conditional.
pub if_either {ℓ κ} :
    {A : Type ℓ} (P : A → Type κ) (b : Bool) (x y : A)
    → (b ≡ true → P x)
    → (b ≡ false → P y)
    → P (if b then x else y)
if_either P true x y f g = f refl
if_either P false x y f g = g refl

scan-Stops : (b : Bool) (c : ℕ) (cs : Bytes) → EndsLine (c ∷ cs) → Stops (scan b (c ∷ cs))
unfolding scan is_word has_class
scan-Stops b c [] h = ground arith
scan-Stops b c (d ∷ cs) h =
    if_either Stops (is_word c b) _ _
      (λ _. longer-Stops c (scan b (d ∷ cs)) (scan-Stops b d cs h.1)) (λ _. rw h.0 h)

finish_word-Keeps : (s : Scanned) (ts : TokenStream) → Stops s → Keeps (finish_word s ts)
finish_word-Keeps overrun ts h = h
finish_word-Keeps (word w rest) ts h = h

word_of_line :
    (b : Bool) (c : ℕ) (cs : Bytes)
    → EndsLine (c ∷ cs)
    → is_word c b ≡ true
    → Stops (longer c (scan b cs))
unfolding is_word
word_of_line b c [] h k = absurd (ground arith)
word_of_line b c (d ∷ cs) h k = longer-Stops c (scan b (d ∷ cs)) (scan-Stops b d cs h.1)

get_next_from-Keeps : (cs : Bytes) (ts : TokenStream) → EndsLine cs → Keeps (get_next_from cs ts)
unfolding get_next_from
get_next_from-Keeps [] ts h = tt
get_next_from-Keeps (c ∷ cs) ts h =
    let tail = EndsLine-tail c cs h in
    if_either Keeps (c == b' ') _ _ (λ _. get_next_from-Keeps cs ts tail)
      (λ _.
        if_either Keeps (c == b':') _ _ (λ _. tail)
          (λ _.
            if_either Keeps (c == 10) _ _ (λ _. tail)
              (λ _.
                if_either Keeps (is_word c ts.after_sep) _ _
                  (λ k.
                    finish_word-Keeps (longer c (scan ts.after_sep cs)) ts
                      (word_of_line ts.after_sep c cs h k))
                  (λ _. rw (EndsLine-class c cs h) tt))))

remember-Keeps : (o : Outcome TokenStream Token) → Keeps o → Keeps (remember o)
remember-Keeps (done t ts) h = h
remember-Keeps (threw e ts) h = tt
remember-Keeps undefined h = h

get-Keeps : (ts : TokenStream) → EndsLine ts.rest → Keeps (get ts)
unfolding get
get-Keeps ts h =
    if_either Keeps ts.unget _ _ (λ _. h)
      (λ _. remember-Keeps (get_next_from ts.rest ts) (get_next_from-Keeps ts.rest ts h))

-- The outcome is defined; if it is no throw, what is left of the line still ends it.
abbrev pub IsSafe : {A : Type 0} → Outcome WsParser A → Type 0
IsSafe (done a p) = EndsLine p.tks.rest
IsSafe (threw e p) = Unit {0}
IsSafe undefined = ⊥

-- A call that is safe wherever the line ends as it should.
pub record AllSafe {A : Type 0} (m : M WsParser A) : Type 0 where
  pub safe : (p : WsParser) → EndsLine p.tks.rest → IsSafe (m p)

module _ {A B : Type 0} where
  and_then-IsSafe :
      (o : Outcome WsParser A) (f : A → M WsParser B)
      → IsSafe o
      → ((a : A) → AllSafe (f a))
      → IsSafe (and_then o f)
  and_then-IsSafe (done a p) f h k = (k a).safe p h
  and_then-IsSafe (threw e p) f h k = tt
  and_then-IsSafe undefined f h k = h

  bind-AllSafe :
      {m : M WsParser A} {f : A → M WsParser B}
      → AllSafe m
      → ((a : A) → AllSafe (f a))
      → AllSafe (m >>= f)
  bind-AllSafe {m} {f} h k = record { safe = λ p e. and_then-IsSafe (m p) f (h.safe p e) k }

on_tokens-IsSafe :
    {A : Type 0} (p : WsParser) (o : Outcome TokenStream A) → Keeps o → IsSafe (on_tokens p o)
on_tokens-IsSafe p (done a ts) h = h
on_tokens-IsSafe p (threw e ts) h = tt
on_tokens-IsSafe p undefined h = h

next-AllSafe : AllSafe next
next-AllSafe = record { safe = λ p h. on_tokens-IsSafe p (get p.tks) (get-Keeps p.tks h) }

back-AllSafe : AllSafe back
unfolding unget_token
back-AllSafe = record { safe = λ p h. h }

put-AllSafe : (f : WsParser → WsParser) → ((p : WsParser) → (f p).tks ≡ p.tks) → AllSafe (put f)
put-AllSafe f h = record { safe = λ p e. subst (λ t. EndsLine t.rest) (sym (h p)) e }

throw_if-AllSafe : (b : Bool) (e : Exception) → AllSafe (throw_if b e)
throw_if-AllSafe true e = record { safe = λ p h. tt }
throw_if-AllSafe false e = record { safe = λ p h. h }

set_size-IsSafe : (c : Converted) (p : WsParser) → EndsLine p.tks.rest → IsSafe (set_size c p)
set_size-IsSafe (number n) p h = h
set_size-IsSafe Text.invalid_argument p h = tt
set_size-IsSafe Text.out_of_range p h = tt

note_length-AllSafe : (k v : Bytes) → AllSafe (note_length k v)
unfolding note_length
note_length-AllSafe k v = record {
  safe = λ p h.
      if_either IsSafe (equal k (codes "Content-Length")) _ _
        (λ _. set_size-IsSafe (stoi v) (record p { has_body = true }) h) (λ _. h);
}

if-AllSafe :
    {A : Type 0} (b : Bool) {x y : M WsParser A}
    → AllSafe x
    → AllSafe y
    → AllSafe (if b then x else y)
if-AllSafe true h k = h
if-AllSafe false h k = k

pure-AllSafe : AllSafe {A = Unit {0}} (pure tt)
pure-AllSafe = record { safe = λ p h. h }

-- A token, a test of its kind, and the rest.
wanted :
    {A : Type 0} (b : Token → Bool) {f : Token → M WsParser A}
    → ((t : Token) → AllSafe (f t))
    → AllSafe (next >>= λ t. throw_if (b t) parser_error >> f t)
wanted b k =
    bind-AllSafe next-AllSafe λ t. bind-AllSafe (throw_if-AllSafe (b t) parser_error) λ _. k t

cmd_expr-AllSafe : AllSafe cmd_expr
unfolding cmd_expr
cmd_expr-AllSafe =
    wanted (λ t. not (is_kind t.kind asr_title))
      λ _.
        wanted (λ t. not (is_kind t.kind id))
          λ t. bind-AllSafe (put-AllSafe (λ p. record p { version = t.content }) (λ p. refl)) λ _.
            wanted (λ t. not (is_kind t.kind id))
              λ t. put-AllSafe (λ p. record p { command = t.content }) (λ p. refl)

key_expr-AllSafe : AllSafe key_expr
unfolding key_expr
key_expr-AllSafe =
    wanted (λ t. not (is_kind t.kind id))
      λ k.
        wanted (λ t. not (is_kind t.kind sep_op))
          λ _.
            wanted (λ t. not (is_kind t.kind id) && not (is_kind t.kind crlf))
              λ v. bind-AllSafe (note_length-AllSafe k.content v.content) λ _.
                put-AllSafe (λ p. record p { props = insert k.content v.content p.props })
                  (λ p. refl)

expr-AllSafe : AllSafe expr
unfolding expr
expr-AllSafe = bind-AllSafe next-AllSafe λ t.
    bind-AllSafe back-AllSafe
      λ _. if-AllSafe (is_kind t.kind asr_title) cmd_expr-AllSafe key_expr-AllSafe

stm_expr-AllSafe : AllSafe stm_expr
unfolding stm_expr
stm_expr-AllSafe = bind-AllSafe expr-AllSafe λ _.
    bind-AllSafe next-AllSafe
      λ t. throw_if-AllSafe (not (is_kind t.kind crlf) && not (is_kind t.kind eoft)) parser_error

-- WsParser::Stm reads no byte outside its line, if that ends in a newline.
pub stm-AllSafe : AllSafe stm
unfolding stm
stm-AllSafe = bind-AllSafe next-AllSafe λ t.
    bind-AllSafe back-AllSafe λ _. if-AllSafe (is_kind t.kind crlf) pure-AllSafe stm_expr-AllSafe
