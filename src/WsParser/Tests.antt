-- ===== src/WsParser/Tests.antt =====
-- The parser's theorems at concrete messages.
use asr_sdk_cpp.Base.{ℕ, ◌≡◌, ◌⊎◌, refl, [], ◌∷◌, true, false, ◌&&◌, Bool, arith, Bytes}
use asr_sdk_cpp.Text.{codes, equal, less, stoi, value_from, number, get_lines, empty}
use asr_sdk_cpp.StringMap.{StringMap}
use asr_sdk_cpp.Outcome.{undefined}
use asr_sdk_cpp.TokenStream.{is_word, has_class}
use asr_sdk_cpp.WsParser.{WsParser, initial, parse, str, print_props}
use asr_sdk_cpp.AsrMessage.Names.{is_name-IsName, and_left, and_right}
use asr_sdk_cpp.WsParser.Print.{IsName}
use asr_sdk_cpp.WsParser.Message.{message, IsMessage, Holds}
use asr_sdk_cpp.WsParser.RoundTrip.{IsPrintable, parse-str}
use asr_sdk_cpp.WsParser.Safety.{AllAscii}
use asr_sdk_cpp.WsParser.Defined.{
  IsDefined, Overlong, parse-IsDefined, parse_empty_line, parse_overlong,
}

abbrev headers : Bytes → StringMap
headers n = (codes "Content-Length", n) ∷ (codes "Handle", codes "1 2:3") ∷ []

-- The headers with the length as the text `w`
headers-IsMessage :
    (w : Bytes) (n : ℕ)
    → stoi w ≡ number n
    → IsName true w
    → IsMessage n (codes "2.4") (codes "RESPONSE") (headers w)
unfolding is_word equal less
headers-IsMessage w n h k = record {
  version = is_name-IsName false (codes "2.4") refl;
  command = is_name-IsName false (codes "RESPONSE") refl;
  headers = (
    is_name-IsName false _ refl,
    k,
    λ e. h,
    (is_name-IsName false _ refl, is_name-IsName true _ refl, λ e. cc, tt),
  );
  sorted = ((refl, tt), (tt, tt));
}

three-IsMessage : IsMessage 3 (codes "2.4") (codes "RESPONSE") (headers (codes "3"))
unfolding is_word equal stoi value_from
three-IsMessage = headers-IsMessage (codes "3") 3 refl (is_name-IsName true (codes "3") refl)

many-IsMessage : IsMessage 999 (codes "2.4") (codes "RESPONSE") (headers (codes "999"))
unfolding is_word equal stoi value_from
many-IsMessage = headers-IsMessage (codes "999") 999 refl (is_name-IsName true (codes "999") refl)

abbrev answer : WsParser
answer = record initial {
  version = codes "2.4";
  command = codes "RESPONSE";
  body = codes "abc";
  has_body = true;
  props = headers (codes "3");
}

answer-IsPrintable : IsPrintable answer
unfolding is_word equal stoi str print_props empty
answer-IsPrintable = record { is_message = three-IsMessage; told = λ e. refl; small = omega arith }

parse-str_example :
    Holds (codes "2.4") (codes "RESPONSE") (headers (codes "3")) (codes "abc") (parse (str answer))
parse-str_example = parse-str answer answer-IsPrintable

abbrev short : Bytes
short = codes "ASR 2.4 RESPONSE\r\nHandle:x\r\n"

-- A test for bytes below 128 suffices.
all_ascii : Bytes → Bool
all_ascii [] = true
all_ascii (c ∷ cs) = has_class c && all_ascii cs

ascii : (l : Bytes) → all_ascii l ≡ true → AllAscii l
unfolding all_ascii
ascii [] h = tt
ascii (c ∷ cs) h = (and_left (has_class c) _ h, ascii cs (and_right (has_class c) _ h))

parse-IsDefined_example : IsDefined (parse short) ⊎ Overlong short
unfolding get_lines empty all_ascii has_class
parse-IsDefined_example =
    parse-IsDefined short
      (refl, ascii (codes "ASR 2.4 RESPONSE\r") refl, (refl, ascii (codes "Handle:x\r") refl, tt))
      (omega arith)

parse_empty_line_example :
    parse (message (codes "2.4") (codes "RESPONSE") (headers (codes "3")) (10 ∷ codes "abc"))
    ≡ undefined
unfolding is_word equal stoi value_from
parse_empty_line_example = parse_empty_line (codes "abc") (three-IsMessage)

parse_overlong_example :
    parse (message (codes "2.4") (codes "RESPONSE") (headers (codes "999")) (13 ∷ 10 ∷ codes "abc"))
    ≡ undefined
unfolding equal print_props
parse_overlong_example =
    parse_overlong (codes "abc") many-IsMessage refl (omega arith) (omega arith) (omega arith)
