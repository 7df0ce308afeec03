-- ===== src/WsParser.antt =====
-- WsParser of src/aux/ws_parser.cc: a message of the protocol, parsed and printed.
pub mod Safety
pub mod Print
pub mod Headers
pub mod Collect
pub mod Body
pub mod Message
pub mod RoundTrip
pub mod Defined
mod Tests
use asr_sdk_cpp.Base.{
  ℕ, ◌+◌, ◌-◌, ◌%◌, ◌^◌, zero, suc, Bool, true, false, not, ◌&&◌, Option, none, some, List, [], ◌∷◌,
  ◌++◌, ◌==◌, if◌then◌else◌, Bytes, length, get_elem?,
}
use asr_sdk_cpp.Text
use asr_sdk_cpp.Text.{codes, equal, get_lines, empty, stoi, Converted, number}
use asr_sdk_cpp.StringMap.{StringMap, find, insert}
use asr_sdk_cpp.Outcome.{
  Outcome, done, threw, undefined, Exception, parser_error, invalid_argument, out_of_range, M,
  ◌>>=◌, ◌>>◌, and_then, throw_if, pure, throw,
}
use asr_sdk_cpp.TokenStream
use asr_sdk_cpp.TokenStream.{
  TokenStream, Token, TokenType, sep_op, id, asr_title, crlf, eoft, tokenize,
}

pub record WsParser : Type 0 where
  pub tks : TokenStream
  pub command : Bytes
  pub version : Bytes
  pub body : Bytes
  pub has_body : Bool
  pub size_body : ℕ
  pub props : StringMap

-- WsParser::WsParser()
abbrev pub initial : WsParser
initial = record {
  tks = TokenStream.initial;
  command = [];
  version = [];
  body = [];
  has_body = false;
  size_body = 0;
  props = [];
}

abbrev pub on_tokens : {A : Type 0} → WsParser → Outcome TokenStream A → Outcome WsParser A
on_tokens p (done a ts) = done a (record p { tks = ts })
on_tokens p (threw e ts) = threw e (record p { tks = ts })
on_tokens p undefined = undefined

-- tks_.Get() and tks_.Unget()
abbrev pub next : M WsParser Token
next p = on_tokens p (TokenStream.get p.tks)

abbrev pub back : M WsParser (Unit {0})
back p = done tt (record p { tks = TokenStream.unget_token p.tks })

-- `kind == k`
abbrev pub is_kind : TokenType → TokenType → Bool
is_kind sep_op sep_op = true
is_kind id id = true
is_kind asr_title asr_title = true
is_kind crlf crlf = true
is_kind eoft eoft = true
is_kind _ _ = false

abbrev pub put : (WsParser → WsParser) → M WsParser (Unit {0})
put f p = done tt (f p)

-- WsParser::CmdExpr
unfoldable pub cmd_expr : M WsParser (Unit {0})
cmd_expr = do
  tk ← next
  throw_if (not (is_kind tk.kind asr_title)) parser_error
  tk ← next
  throw_if (not (is_kind tk.kind id)) parser_error
  put (λ p. record p { version = tk.content })
  tk ← next
  throw_if (not (is_kind tk.kind id)) parser_error
  put (λ p. record p { command = tk.content })

-- `size_body_ = std::stoi(value, nullptr)`
abbrev pub set_size : Converted → M WsParser (Unit {0})
set_size (number n) p = done tt (record p { size_body = n })
set_size Text.invalid_argument p = threw invalid_argument p
set_size Text.out_of_range p = threw out_of_range p

-- The branch of KeyExpr on the key
unfoldable pub note_length : Bytes → Bytes → M WsParser (Unit {0})
note_length key value p =
    if equal key (codes "Content-Length")
    then set_size (stoi value) (record p { has_body = true })
    else done tt p

-- WsParser::KeyExpr
unfoldable pub key_expr : M WsParser (Unit {0})
key_expr = do
  tk ← next
  throw_if (not (is_kind tk.kind id)) parser_error
  let key = tk.content
  tk ← next
  throw_if (not (is_kind tk.kind sep_op)) parser_error
  tk ← next
  throw_if (not (is_kind tk.kind id) && not (is_kind tk.kind crlf)) parser_error
  let value = tk.content
  note_length key value
  put (λ p. record p { props = insert key value p.props })

-- WsParser::Expr
unfoldable pub expr : M WsParser (Unit {0})
expr = do tk ← next; back; if is_kind tk.kind asr_title then cmd_expr else key_expr

-- WsParser::Stm behind its first test
unfoldable pub stm_expr : M WsParser (Unit {0})
stm_expr = do
  expr
  tk ← next
  throw_if (not (is_kind tk.kind crlf) && not (is_kind tk.kind eoft)) parser_error

-- WsParser::Stm
unfoldable pub stm : M WsParser (Unit {0})
stm = do tk ← next; back; if is_kind tk.kind crlf then pure tt else stm_expr

-- `line.pop_back()`, undefined on an empty line
unfoldable pub pop_back : Bytes → Option Bytes
pop_back [] = none
pop_back (c ∷ []) = some []
pop_back (c ∷ d ∷ cs) = elim (pop_back (d ∷ cs)) [ none ↦ none | some l ↦ some (c ∷ l) ]

abbrev pub carriage_return : Bytes
carriage_return = 13 ∷ []

-- One line of the loop of the constructor: the statement, with `line + '\n'` in the tokenizer
unfoldable pub line_stm : Option Bytes → M WsParser (Unit {0})
line_stm none p = undefined
line_stm (some l) p = stm (record p { tks = tokenize (l ++ 10 ∷ []) p.tks })

-- `try { Stm(); } catch (Exception &e) { break; }`; the loop goes on as `rest`.
abbrev pub or_break :
    Outcome WsParser (Unit {0})
    → (WsParser → Outcome WsParser (Unit {0}))
    → Outcome WsParser (Unit {0})
or_break (done _ p) rest = rest p
or_break (threw parser_error p) rest = done tt p
or_break (threw invalid_argument p) rest = threw invalid_argument p
or_break (threw out_of_range p) rest = threw out_of_range p
or_break undefined rest = undefined

-- The loop of the constructor over the lines
unfoldable pub read_lines : List Bytes → M WsParser (Unit {0})
read_lines [] p = done tt p
read_lines (line ∷ lines) p =
    if equal line carriage_return && p.has_body
    then done tt p
    else or_break (line_stm (pop_back line) p) (read_lines lines)

-- `for (size_t i = size_body_; i > 0; i--) body_ += str[str.length() - i];` with `i` rounds left
-- to go; the index wraps, and a byte outside the text is `none`.
unfoldable pub copy_body : Bytes → ℕ → Bytes → Option Bytes
copy_body str zero acc = some acc
copy_body str (suc i) acc = elim (get_elem? str ((length str + 2 ^ 64 - suc i) % 2 ^ 64)) [
  | none ↦ none
  | some c ↦ copy_body str i (acc ++ c ∷ [])
]

abbrev pub set_body : WsParser → Option Bytes → Outcome WsParser (Unit {0})
set_body p none = undefined
set_body p (some b) = done tt (record p { body = b })

-- The end of the constructor
unfoldable pub read_body : Bytes → M WsParser (Unit {0})
read_body str p = if p.has_body then set_body p (copy_body str p.size_body p.body) else done tt p

-- WsParser::WsParser(const std::string&). A throw leaves no object; its state is not used.
unfoldable pub parse : Bytes → Outcome WsParser (Unit {0})
parse str =
    if empty str
    then done tt initial
    else and_then (read_lines (get_lines 10 str) initial) (λ _. read_body str)

-- WsParser::Get
unfoldable pub get : WsParser → Bytes → Option Bytes
get p key = find key p.props

-- WsParser::GetParams over a list of keys, `none` at the first that is not declared
unfoldable pub get_params : WsParser → List Bytes → Option (List Bytes)
get_params p [] = some []
get_params p (k ∷ ks) = elim (get p k) [
  | none ↦ none
  | some v ↦ elim (get_params p ks) [ none ↦ none | some vs ↦ some (v ∷ vs) ]
]

-- WsParser::Add
unfoldable pub add : Bytes → Bytes → WsParser → WsParser
add key value p = record p { props = insert key value p.props }

unfoldable pub set_cmd : Bytes → WsParser → WsParser
set_cmd str p = record p { command = str }

unfoldable pub set_version : Bytes → WsParser → WsParser
set_version str p = record p { version = str }

unfoldable pub set_body_text : Bytes → WsParser → WsParser
set_body_text str p = record p { body = str; has_body = true }

-- The loop of Str over the entries
unfoldable pub print_props : StringMap → Bytes
print_props [] = []
print_props ((k, v) ∷ m) = k ++ (b':' ∷ (v ++ (13 ∷ 10 ∷ print_props m)))

-- WsParser::Str
unfoldable pub str : WsParser → Bytes
str p =
    codes "ASR "
    ++ (p.version
        ++ (b' '
            ∷ (p.command
                ++ (13
                    ∷ 10
                    ∷ (print_props p.props ++ (if empty p.body then [] else 13 ∷ 10 ∷ p.body))))))
