-- ===== src/TokenStream.antt =====
-- TokenStream of src/aux/ws_parser.cc: the tokens of one line.
-- The iterator `it_` into `str_` is the list of the bytes from it on.
pub mod Scan
use asr_sdk_cpp.Base.{
  ℕ, Bool, true, false, ◌&&◌, ◌||◌, List, [], ◌∷◌, ◌==◌, ltb, if◌then◌else◌, Bytes,
}
use asr_sdk_cpp.Text.{codes, equal, is_alpha, is_digit}
use asr_sdk_cpp.Outcome.{Outcome, done, threw, undefined, parser_error, M}

pub data TokenType : Type 0 where
  sep_op id asr_title crlf eoft : TokenType

pub record Token : Type 0 where
  pub kind : TokenType
  pub content : Bytes

abbrev pub plain : TokenType → Token
plain k = record { kind = k; content = [] }

pub record TokenStream : Type 0 where
  pub rest : Bytes
  pub last : Token
  pub unget : Bool
  pub after_sep : Bool

-- TokenStream::TokenStream()
abbrev pub initial : TokenStream
initial = record { rest = []; last = plain eoft; unget = false; after_sep = false }

-- TokenStream::Tokenize
unfoldable pub tokenize : Bytes → TokenStream → TokenStream
tokenize str ts = record ts { rest = str; unget = false; after_sep = false }

-- TokenStream::IsSymbol
unfoldable pub is_symbol : ℕ → Bool → Bool
is_symbol c separator =
    (c == b'-' || c == b'/' || c == b'.' || c == b',' || c == b'_')
    || (c == b'(' || c == b')' || c == b'>' || c == b'<')
    || (c == b':' && separator)

-- The lambda `is_space` of GetNext
abbrev pub is_space : ℕ → Bool → Bool
is_space c check = check && c == b' '

-- The condition under which GetNext goes on with a word, of a byte that `has_class` holds of.
unfoldable pub is_word : ℕ → Bool → Bool
unfolding is_symbol
is_word c after_sep = is_alpha c || is_digit c || is_symbol c after_sep || is_space c after_sep

-- isalpha and isdigit are defined on a byte below 128 only: `char` is signed, and a byte from 128 on
-- is a negative argument.
unfoldable pub has_class : ℕ → Bool
has_class c = ltb c 128

-- The inner loop of GetNext. It does not look for the end of the text. `overrun` is what is not
-- defined: a read outside the text, or isalpha of a negative char.
pub data Scanned : Type 0 where
  overrun : Scanned
  word : Bytes → Bytes → Scanned

abbrev pub longer : ℕ → Scanned → Scanned
longer c overrun = overrun
longer c (word w rest) = word (c ∷ w) rest

unfoldable pub scan : Bool → Bytes → Scanned
scan after_sep [] = overrun
scan after_sep (c ∷ cs) =
    let more = scan after_sep cs in
    if is_word c after_sep then longer c more else if has_class c then word [] (c ∷ cs) else overrun

-- The token of a word
unfoldable pub word_token : Bytes → Token
word_token s = if equal s (codes "ASR") then plain asr_title else record { kind = id; content = s }

abbrev pub finish_word : Scanned → TokenStream → Outcome TokenStream Token
finish_word overrun ts = undefined
finish_word (word s rest) ts = done (word_token s) (record ts { rest = rest })

-- TokenStream::GetNext, from the bytes that are left
unfoldable pub get_next_from : Bytes → M TokenStream Token
get_next_from [] ts = done (plain eoft) (record ts { rest = []; after_sep = false })
get_next_from (c ∷ cs) ts =
    let skipped = get_next_from cs ts in
    if c == b' '
    then skipped
    else if c == b':'
    then done (plain sep_op) (record ts { rest = cs; after_sep = true })
    else if c == 10
    then done (plain crlf) (record ts { rest = cs; after_sep = false })
    else if is_word c ts.after_sep
    then finish_word (longer c (scan ts.after_sep cs)) ts
    else if has_class c
    then threw parser_error (record ts { rest = c ∷ cs })
    else undefined

abbrev pub get_next : M TokenStream Token
get_next ts = get_next_from ts.rest ts

-- The assignment `last_ = GetNext(); return last_;`
abbrev pub remember : Outcome TokenStream Token → Outcome TokenStream Token
remember (done t ts) = done t (record ts { last = t })
remember (threw e ts) = threw e ts
remember undefined = undefined

-- TokenStream::Get
unfoldable pub get : M TokenStream Token
get ts = if ts.unget then done ts.last (record ts { unget = false }) else remember (get_next ts)

-- TokenStream::Unget
unfoldable pub unget_token : TokenStream → TokenStream
unget_token ts = record ts { unget = true }

-- TokenStream::Space
unfoldable pub space : Bool → TokenStream → TokenStream
space v ts = record ts { after_sep = v }
