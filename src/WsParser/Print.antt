-- ===== src/WsParser/Print.antt =====
-- The statements that Stm reads off the lines that Str prints.
use asr_sdk_cpp.Base.{
  ℕ, ◌≡◌, ◌||◌, Bool-cases, inl, inr, Bool, true, false, [], ◌∷◌, ◌++◌, refl, Bytes, if◌then◌else◌,
}
use asr_sdk_cpp.Text.{codes, equal, stoi, number}
use asr_sdk_cpp.StringMap.{insert}
use asr_sdk_cpp.Outcome.{done}
use asr_sdk_cpp.TokenStream.{
  Token, plain, crlf, id, asr_title, sep_op, get, unget_token, word_token, is_word, has_class,
}
use asr_sdk_cpp.TokenStream.Scan.{IsWord, at, get_word, get_space, get_separator, get_newline}
use asr_sdk_cpp.WsParser.{WsParser, stm, stm_expr, expr, cmd_expr, key_expr, note_length}

-- A word other than the title word, which the tokenizer gives as an ID.
pub record IsName (b : Bool) (w : Bytes) : Type 0 where
  pub is_word : IsWord b w
  pub not_title : equal w (codes "ASR") ≡ false

abbrev named : Bytes → Token
named w = record { kind = id; content = w }

get_name :
    (b : Bool) (w : Bytes) (d : ℕ) (rest : Bytes) (t : Token)
    → IsName b w
    → is_word d b ≡ false
    → has_class d ≡ true
    → get (at (w ++ d ∷ rest) t b) ≡ done (named w) (at (d ∷ rest) (named w) b)
unfolding word_token
get_name b w d rest t h k l = rw (get_word b w d rest t h.is_word k l) (rw h.not_title)

get_title :
    (rest : Bytes) (t : Token)
    → get (at (codes "ASR " ++ rest) t false)
      ≡ done (plain asr_title) (at (b' ' ∷ rest) (plain asr_title) false)
unfolding word_token is_word has_class equal
get_title rest t =
    get_word false (codes "ASR") b' ' rest t (refl, refl, refl, (refl, (refl, tt))) refl refl

get_again :
    (rest : Bytes) (t : Token) (b : Bool) → get (unget_token (at rest t b)) ≡ done t (at rest t b)
unfolding get unget_token
get_again rest t b = refl

abbrev pub titled : WsParser → Bytes → Bytes → WsParser
titled p v c = record p { tks = at [] (plain crlf) false; version = v; command = c }

-- The title line
pub stm_title :
    (p : WsParser) (v c : Bytes) (t : Token)
    → IsName false v
    → IsName false c
    → stm (record p { tks = at (codes "ASR " ++ (v ++ (b' ' ∷ (c ++ 10 ∷ [])))) t false })
      ≡ done tt (titled p v c)
unfolding stm stm_expr expr cmd_expr is_word has_class
stm_title p v c t hv hc = rw (get_title (v ++ (b' ' ∷ (c ++ 10 ∷ []))) t) (
    rw get_again (
      rw get_again (
        rw (get_space false (v ++ (b' ' ∷ (c ++ 10 ∷ []))) (plain asr_title)) (
          rw (get_name false v b' ' (c ++ 10 ∷ []) (plain asr_title) hv refl refl) (
            rw (get_space false (c ++ 10 ∷ []) (named v))
              (rw (get_name false c 10 [] (named v) hc refl refl) (rw get_newline)))))))

abbrev pub is_length : Bytes → Bool
is_length k = equal k (codes "Content-Length")

-- The header may hold a length only if it says `n`.
abbrev pub SaysLength : ℕ → Bytes → Bytes → Type 0
SaysLength n k v = is_length k ≡ true → stoi v ≡ number n

-- The parser behind a header, where a length header says `n`.
abbrev pub with_header : ℕ → Bytes → Bytes → WsParser → WsParser
with_header n k v p = record p {
  tks = at [] (plain crlf) false;
  has_body = is_length k || p.has_body;
  size_body = if is_length k then n else p.size_body;
  props = insert k v p.props;
}

note_length_lem :
    (n : ℕ) (k v : Bytes) (p : WsParser)
    → SaysLength n k v
    → note_length k v p
      ≡ done tt (record p {
        has_body = is_length k || p.has_body;
        size_body = if is_length k then n else p.size_body;
      })
unfolding note_length
note_length_lem n k v p h = elim (Bool-cases (is_length k)) [
  | inl is ↦ rw is (rw (h is))
  | inr not ↦ rw not
]

-- A header line
pub stm_header :
    (n : ℕ) (p : WsParser) (k v : Bytes) (t : Token)
    → IsName false k
    → IsName true v
    → SaysLength n k v
    → stm (record p { tks = at (k ++ (b':' ∷ (v ++ 10 ∷ []))) t false })
      ≡ done tt (with_header n k v p)
unfolding stm stm_expr expr key_expr is_word has_class
stm_header n p k v t hk hv h = rw (get_name false k b':' (v ++ 10 ∷ []) t hk refl refl) (
    rw get_again (
      rw get_again (
        rw (get_separator false (v ++ 10 ∷ []) (named k)) (
          rw (get_name true v 10 [] (plain sep_op) hv refl refl)
            (rw (note_length_lem n k v _ h) (rw get_newline))))))

-- The empty line
pub stm_empty :
    (p : WsParser) (t : Token)
    → stm (record p { tks = at (10 ∷ []) t false })
      ≡ done tt (record p {
        tks = record { rest = []; last = plain crlf; unget = true; after_sep = false };
      })
unfolding stm unget_token
stm_empty p t = rw get_newline
