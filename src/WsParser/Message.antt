-- ===== src/WsParser/Message.antt =====
-- Reading a message that is put together from a title line, header lines and a body.
use asr_sdk_cpp.Base.{
  ℕ, ◌-◌, ◌^◌, ◌<◌, ◌≤◌, ◌≡◌, ◌∙◌, true, false, some, [], ◌∷◌, ◌++◌, refl, ap, arith, Bytes, length,
  drop,
}
use asr_sdk_cpp.Text.{equal, empty, get_lines}
use asr_sdk_cpp.StringMap.{StringMap}
use asr_sdk_cpp.StringMap.Laws.{IsSorted}
use asr_sdk_cpp.Outcome.{Outcome, done, and_then}
use asr_sdk_cpp.WsParser.{
  WsParser, initial, parse, read_lines, read_body, print_props, copy_body, carriage_return,
}
use asr_sdk_cpp.WsParser.Print.{IsName, titled}
use asr_sdk_cpp.WsParser.Headers.{
  title_line, ArePrintable, with_headers, get_lines_title, get_lines_headers, read_title,
  read_headers,
}
use asr_sdk_cpp.WsParser.Collect.{has_length, Collected, with_headers-Collected, props-with_headers}
use asr_sdk_cpp.WsParser.Body.{copy_body_last}

-- A title line, header lines and what follows them.
abbrev pub message : Bytes → Bytes → StringMap → Bytes → Bytes
message v c m tail = title_line v c ++ (13 ∷ 10 ∷ (print_props m ++ tail))

-- A message that the constructor can read back: its version and command are names, its headers
-- are sorted and printable, and a length header says `n`.
pub record IsMessage (n : ℕ) (v c : Bytes) (m : StringMap) : Type 0 where
  pub version : IsName false v
  pub command : IsName false c
  pub headers : ArePrintable n m
  pub sorted : IsSorted m

-- The outcome is a parser that holds the message with the body `b`.
pub record Holds (v c : Bytes) (m : StringMap) (b : Bytes) (out : Outcome WsParser (Unit {0}))
    : Type 0 where
  pub parser : WsParser
  pub result : out ≡ done tt parser
  pub version_is : parser.version ≡ v
  pub command_is : parser.command ≡ c
  pub props_are : parser.props ≡ m
  pub body_is : parser.body ≡ b

read_body-some :
    (s : Bytes) (p : WsParser) {n : ℕ} {b : Bytes}
    → p.has_body ≡ true
    → p.size_body ≡ n
    → p.body ≡ []
    → copy_body s n [] ≡ some b
    → read_body s p ≡ done tt (record p { body = b })
unfolding read_body
read_body-some s p h k e f = ground arith

module _ {n : ℕ} {v c : Bytes} {m : StringMap} (h : IsMessage n v c m) where
  -- The parser behind the title line and the headers.
  abbrev pub collected : WsParser
  collected = with_headers n m (titled initial v c)

  pub read_lines-message :
      (tail : Bytes)
      → read_lines (get_lines 10 (message v c m tail)) initial
        ≡ read_lines (get_lines 10 tail) collected
  read_lines-message tail =
      ap (λ ls. read_lines ls initial)
        (get_lines_title v c (print_props m ++ tail) h.version h.command
          ∙ ap (◌∷◌ (title_line v c ++ carriage_return)) (get_lines_headers n m tail h.headers))
      ∙ read_title v c _ initial h.version h.command
      ∙ read_headers n m (get_lines 10 tail) (titled initial v c) h.headers

  -- With a length header, the loop stops at the empty line.
  pub read_lines-stop :
      (rest : Bytes)
      → has_length m ≡ true
      → read_lines (get_lines 10 (13 ∷ 10 ∷ rest)) collected ≡ done tt collected
  unfolding read_lines get_lines equal
  read_lines-stop rest e =
      let there : collected.has_body ≡ true =
        (with_headers-Collected n m (titled initial v c)).has_body ∙ rw e in
      rw there

  -- The constructor's outcome behind its loop.
  pub parse-message :
      (tail : Bytes) {o : Outcome WsParser (Unit {0})}
      → read_lines (get_lines 10 tail) collected ≡ o
      → parse (message v c m tail) ≡ and_then o (λ _. read_body (message v c m tail))
  unfolding parse empty
  parse-message tail e =
      ap (λ o. and_then o (λ _. read_body (message v c m tail))) (read_lines-message tail ∙ e)

  pub facts : Collected n m (titled initial v c)
  facts = with_headers-Collected n m (titled initial v c)

  -- With a length header that says `n`, the body is the last `n` bytes of the whole message.
  pub parse-length :
      (rest : Bytes)
      → has_length m ≡ true
      → n ≤ length (message v c m (13 ∷ 10 ∷ rest))
      → length (message v c m (13 ∷ 10 ∷ rest)) < 2 ^ 64
      → Holds v c m
          (drop (length (message v c m (13 ∷ 10 ∷ rest)) - n) (message v c m (13 ∷ 10 ∷ rest)))
          (parse (message v c m (13 ∷ 10 ∷ rest)))
  parse-length rest e fits small =
      let whole = message v c m (13 ∷ 10 ∷ rest) in
      let there : collected.has_body ≡ true = facts.has_body ∙ rw e in
      let size : collected.size_body ≡ n = facts.size_body ∙ rw e in
      record {
        parser = record collected { body = drop (length whole - n) whole };
        result =
            parse-message (13 ∷ 10 ∷ rest) (read_lines-stop rest e)
            ∙ read_body-some whole collected there size facts.body
                (copy_body_last whole n [] fits small);
        version_is = facts.version;
        command_is = facts.command;
        props_are = props-with_headers n m (titled initial v c) h.sorted refl;
        body_is = refl;
      }

  -- With no length header and nothing behind the headers there is no body.
  pub parse_no_body : has_length m ≡ false → Holds v c m [] (parse (message v c m []))
  unfolding read_body read_lines get_lines
  parse_no_body e =
      let none_there : collected.has_body ≡ false = facts.has_body ∙ rw e in
      record {
        parser = collected;
        result = parse-message [] refl ∙ rw none_there;
        version_is = facts.version;
        command_is = facts.command;
        props_are = props-with_headers n m (titled initial v c) h.sorted refl;
        body_is = facts.body;
      }

  -- A length header that says 0, and nothing behind the headers.
  pub parse_empty_body : has_length m ≡ true → n ≡ 0 → Holds v c m [] (parse (message v c m []))
  unfolding read_lines get_lines copy_body
  parse_empty_body e z =
      let there : collected.has_body ≡ true = facts.has_body ∙ rw e in
      let size : collected.size_body ≡ 0 = facts.size_body ∙ (rw e z) in
      record {
        parser = record collected { body = [] };
        result =
            parse-message [] refl
            ∙ read_body-some (message v c m []) collected there size facts.body refl;
        version_is = facts.version;
        command_is = facts.command;
        props_are = props-with_headers n m (titled initial v c) h.sorted refl;
        body_is = refl;
      }
