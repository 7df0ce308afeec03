-- ===== src/TokenStream/Scan.antt =====
-- What TokenStream::Get gives on a text that begins with a word, a space, ':' or the line's end.
use asr_sdk_cpp.Base.{ℕ, ◌≡◌, Bool, true, false, [], ◌∷◌, ◌++◌, refl, arith, ◌==◌, Bytes, ap}
use asr_sdk_cpp.Outcome.{done}
use asr_sdk_cpp.TokenStream.{
  TokenStream, Token, Scanned, plain, sep_op, crlf, is_word, has_class, scan, overrun, word, longer,
  word_token, get_next_from, get, remember, finish_word,
}

-- All bytes of a text go on with a word.
abbrev pub AllWord : Bool → Bytes → Type 0
AllWord b [] = Unit {0}
AllWord b (c ∷ cs) = (is_word c b ≡ true) × AllWord b cs

-- A text that GetNext reads as one word.
abbrev pub IsWord : Bool → Bytes → Type 0
IsWord b [] = ⊥
IsWord b (c ∷ cs) =
    (is_word c b ≡ true) × ((c == b' ') ≡ false) × ((c == b':') ≡ false) × AllWord b cs

scan_word :
    (b : Bool) (w : Bytes) (d : ℕ) (rest : Bytes)
    → AllWord b w
    → is_word d b ≡ false
    → has_class d ≡ true
    → scan b (w ++ d ∷ rest) ≡ word w (d ∷ rest)
unfolding scan
scan_word b [] d rest h k l = rw (k, l)
scan_word b (c ∷ w) d rest h k l = rw h.0 (rw (scan_word b w d rest h.1 k l))

abbrev pub at : Bytes → Token → Bool → TokenStream
at rest t b = record { rest = rest; last = t; unget = false; after_sep = b }

pub newline_not_word : (c : ℕ) (b : Bool) → is_word c b ≡ true → (c == 10) ≡ false
unfolding is_word
newline_not_word c b h = ground arith

-- A word, up to the first byte that does not go on with it.
pub get_word :
    (b : Bool) (w : Bytes) (d : ℕ) (rest : Bytes) (t : Token)
    → IsWord b w
    → is_word d b ≡ false
    → has_class d ≡ true
    → get (at (w ++ d ∷ rest) t b) ≡ done (word_token w) (at (d ∷ rest) (word_token w) b)
unfolding get get_next_from
get_word b [] d rest t h k l = absurd h
get_word b (c ∷ w) d rest t h k l =
    rw (h.1, h.2, h.0, newline_not_word c b h.0) (rw (scan_word b w d rest h.3 k l))

finish_word-rest :
    (s : Scanned) (ts : TokenStream) (r : Bytes)
    → finish_word s (record ts { rest = r }) ≡ finish_word s ts
finish_word-rest overrun ts r = refl
finish_word-rest (word w rest) ts r = refl

-- The bytes to read are the argument; the field `rest` is not looked at.
get_next_from-rest :
    (cs : Bytes) (ts : TokenStream) (r : Bytes)
    → get_next_from cs (record ts { rest = r }) ≡ get_next_from cs ts
unfolding get_next_from
get_next_from-rest [] ts r = refl
get_next_from-rest (c ∷ cs) ts r =
    ground
      (arith, get_next_from-rest cs ts r, finish_word-rest (longer c (scan ts.after_sep cs)) ts r)

-- Spaces before a token are skipped.
pub get_space :
    (b : Bool) (rest : Bytes) (t : Token) → get (at (b' ' ∷ rest) t b) ≡ get (at rest t b)
unfolding get get_next_from
get_space b rest t = ap remember (get_next_from-rest rest (at rest t b) (b' ' ∷ rest))

pub get_separator :
    (b : Bool) (rest : Bytes) (t : Token)
    → get (at (b':' ∷ rest) t b) ≡ done (plain sep_op) (at rest (plain sep_op) true)
unfolding get get_next_from
get_separator b rest t = refl

pub get_newline :
    (b : Bool) (rest : Bytes) (t : Token)
    → get (at (10 ∷ rest) t b) ≡ done (plain crlf) (at rest (plain crlf) false)
unfolding get get_next_from
get_newline b rest t = refl
