-- ===== src/AsrMessage/Wire.antt =====
-- A request on the wire: what a parser of the protocol reads back.
use asr_sdk_cpp.Base.{
  ℕ, ◌-◌, ◌^◌, ◌<◌, ◌≤◌, ◌≡◌, ◌∙◌, not, true, false, [], ◌∷◌, ◌++◌, refl, sym, ap, subst, arith,
  Bytes, length, length-append, drop, append_assoc, if◌then◌else◌,
}
use asr_sdk_cpp.Text.{codes, empty, get_lines, equal}
use asr_sdk_cpp.StringMap.{StringMap}
use asr_sdk_cpp.Outcome.{done}
use asr_sdk_cpp.WsParser.{initial, parse, print_props, read_lines, read_body}
use asr_sdk_cpp.WsParser.Print.{titled}
use asr_sdk_cpp.TokenStream.{plain, crlf}
use asr_sdk_cpp.WsParser.Print.{stm_empty}
use asr_sdk_cpp.WsParser.Headers.{read_line}
use asr_sdk_cpp.WsParser.Collect.{has_length, props-with_headers}
use asr_sdk_cpp.WsParser.Message.{
  message, IsMessage, Holds, collected, facts, parse-message, parse-length,
}
use asr_sdk_cpp.WsParser.RoundTrip.{drop-message, length-le-message}
use asr_sdk_cpp.AsrMessage.{
  AsrMessage, Method, first_line, get_method_string, raw, raw_headers, take_parsed, consume,
  msg_delimiter,
}

raw_headers_lem : (m : StringMap) → raw_headers m ≡ print_props m
unfolding raw_headers print_props
raw_headers_lem [] = refl
raw_headers_lem ((k, v) ∷ m) = rw (raw_headers_lem m)

-- A request as the message that WsParser reads.
raw_lem :
    (c : Method) (r : AsrMessage)
    → r.start_line ≡ first_line c
    → raw r
      ≡ message
          (codes "2.4")
          (get_method_string c)
          r.headers
          (13 ∷ 10 ∷ (if not (empty r.extra) then r.extra ++ msg_delimiter else []))
unfolding raw first_line empty
raw_lem c r e = rw e (rw (raw_headers_lem r.headers) (simp append_assoc))

-- A request that the server's parser reads back: printable headers in the order of their keys.
pub record IsRequest (c : Method) (r : AsrMessage) : Type 0 where
  pub start_line : r.start_line ≡ first_line c
  pub is_message : IsMessage (length r.extra) (codes "2.4") (get_method_string c) r.headers

module _ {n : ℕ} {v c : Bytes} {m : StringMap} (h : IsMessage n v c m) where
  -- With no length header, the empty line is read as a statement, and nothing is behind it.
  read_lines-empty :
      has_length m ≡ false
      → read_lines (get_lines 10 (13 ∷ 10 ∷ [])) (collected h)
        ≡ done tt (record (collected h) {
          tks = record { rest = []; last = plain crlf; unget = true; after_sep = false };
        })
  unfolding read_lines get_lines equal
  read_lines-empty e =
      let none_there : (collected h).has_body ≡ false = (facts h).has_body ∙ rw e in
      read_line [] [] (collected h) _ none_there (stm_empty (collected h) (collected h).tks.last)

  -- A message that ends with the empty line, and has no length header.
  pub parse_bare : has_length m ≡ false → Holds v c m [] (parse (message v c m (13 ∷ 10 ∷ [])))
  unfolding read_body
  parse_bare e =
      let none_there : (collected h).has_body ≡ false = (facts h).has_body ∙ rw e in
      record {
        parser = record (collected h) {
          tks = record { rest = []; last = plain crlf; unget = true; after_sep = false };
        };
        result = parse-message h (13 ∷ 10 ∷ []) (read_lines-empty e) ∙ rw none_there;
        version_is = (facts h).version;
        command_is = (facts h).command;
        props_are = props-with_headers n m (titled initial v c) h.sorted refl;
        body_is = (facts h).body;
      }

pub consume-Holds :
    (c : Method) {m : StringMap} {b : Bytes} (s : Bytes) (old : AsrMessage)
    → Holds (codes "2.4") (get_method_string c) m b (parse s)
    → consume s old ≡ done tt (record { start_line = first_line c; headers = m; extra = b })
unfolding consume take_parsed first_line
consume-Holds c s old h = rw h.result (rw h.command_is (rw h.props_are (rw h.body_is)))

-- The same request as the parser reads it
pub parse-raw :
    (c : Method) {r : AsrMessage}
    → IsRequest c r
    → r.extra ≡ []
    → has_length r.headers ≡ false
    → Holds (codes "2.4") (get_method_string c) r.headers [] (parse (raw r))
unfolding empty
parse-raw c {r} h x e =
    subst (λ s. Holds (codes "2.4") (get_method_string c) r.headers [] (parse s))
      (sym (raw_lem c r h.start_line ∙ rw x)) (parse_bare h.is_message e)

-- A request whose headers print and are in order, with no body and no length header, is consumed
-- as it was built.
pub consume-raw :
    (c : Method) {r : AsrMessage} (old : AsrMessage)
    → IsRequest c r
    → r.extra ≡ []
    → has_length r.headers ≡ false
    → consume (raw r) old ≡ done tt r
consume-raw c {r} old h x e =
    rw (consume-Holds c (raw r) old (parse-raw c h x e)) (rw h.start_line (rw x))

drop_two :
    (x : Bytes)
    → drop (length (x ++ msg_delimiter) - length x) (x ++ msg_delimiter)
      ≡ drop 2 (x ++ msg_delimiter)
drop_two x =
    ap (λ k. drop k (x ++ msg_delimiter)) {y = 2} (omega (arith, length-append x msg_delimiter))

-- A request whose headers print and are in order, with a body and a length header that says its
-- length, and of less than 2^64 bytes in all, is consumed with the same start line and headers,
-- and a body that lacks the first two bytes and ends in CR LF.
pub consume-raw_extra :
    (c : Method) {r : AsrMessage} (old : AsrMessage)
    → IsRequest c r
    → empty r.extra ≡ false
    → has_length r.headers ≡ true
    → length (raw r) < 2 ^ 64
    → consume (raw r) old ≡ done tt (record r { extra = drop 2 (r.extra ++ msg_delimiter) })
consume-raw_extra c {r} old h x e small =
    let b = r.extra ++ msg_delimiter in
    let v = codes "2.4" in
    let k = get_method_string c in
    let wire : raw r ≡ message v k r.headers (13 ∷ 10 ∷ b) = raw_lem c r h.start_line ∙ rw x in
    let fits : length r.extra ≤ length b = omega (arith, length-append r.extra msg_delimiter) in
    let whole =
      parse-length h.is_message b e (omega (arith, length-le-message v k r.headers b))
        (subst (λ s. length s < 2 ^ 64) wire small) in
    let read : Holds v k r.headers (drop 2 b) (parse (raw r)) =
      subst (λ s. Holds v k r.headers (drop 2 b) (parse s)) (sym wire)
        (subst (λ d. Holds v k r.headers d (parse (message v k r.headers (13 ∷ 10 ∷ b))))
          (drop-message v k r.headers b (length r.extra) fits ∙ drop_two r.extra) whole) in
    rw (consume-Holds c (raw r) old read) (rw h.start_line)
