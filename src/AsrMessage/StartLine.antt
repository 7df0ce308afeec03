-- ===== src/AsrMessage/StartLine.antt =====
-- What consume makes of a message that WsParser printed, and its start line split at the spaces, as
-- the handlers of src/process_msg.cc do.
use asr_sdk_cpp.Base.{ℕ, ◌≡◌, ◌∙◌, true, false, [], ◌∷◌, ◌++◌, refl, ap, arith, Bytes, ◌==◌}
use asr_sdk_cpp.Text.{codes, get_lines}
use asr_sdk_cpp.Text.Lines.{Lacks, get_lines_last}
use asr_sdk_cpp.TokenStream.{is_word}
use asr_sdk_cpp.TokenStream.Scan.{AllWord}
use asr_sdk_cpp.WsParser.Print.{IsName}
use asr_sdk_cpp.Outcome.{Outcome, done}
use asr_sdk_cpp.WsParser.{WsParser, str}
use asr_sdk_cpp.WsParser.RoundTrip.{IsPrintable, parse-str}
use asr_sdk_cpp.AsrMessage.{AsrMessage, split, get_start_line, consume, take_parsed}

space_not_word : (c : ℕ) → is_word c false ≡ true → (c == b' ') ≡ false
unfolding is_word
space_not_word c h = ground arith

AllWord-Lacks : (w : Bytes) → AllWord false w → Lacks b' ' w
AllWord-Lacks [] h = tt
AllWord-Lacks (c ∷ w) h = (space_not_word c h.0, AllWord-Lacks w h.1)

split_version :
    (w : Bytes) → split (codes "ASR 2.4 " ++ w) b' ' ≡ codes "ASR" ∷ codes "2.4" ∷ get_lines b' ' w
unfolding split get_lines
split_version w = refl

split-start_line :
    (c : Bytes)
    → IsName false c
    → split (codes "ASR 2.4 " ++ c) b' ' ≡ codes "ASR" ∷ codes "2.4" ∷ c ∷ []
split-start_line [] h = absurd h.is_word
split-start_line (d ∷ c) h =
    split_version (d ∷ c)
    ∙ ap (λ ls. codes "ASR" ∷ codes "2.4" ∷ ls)
        (get_lines_last b' ' d c (h.is_word.1, AllWord-Lacks c h.is_word.3))

-- What consume makes of a text with the command, headers and body of `p`
pub record Consumed (p : WsParser) (out : Outcome AsrMessage (Unit {0})) : Type 0 where
  pub message : AsrMessage
  pub result : out ≡ done tt message
  pub parts : split (get_start_line message) b' ' ≡ codes "ASR" ∷ codes "2.4" ∷ p.command ∷ []
  pub headers_are : message.headers ≡ p.props
  pub body_is : message.extra ≡ p.body

-- What WsParser::Str printed of a message that can be read back, consume reads as a message with
-- the same headers and the same body, whose start line splits in three parts: the third is the
-- command, as the handlers expect it, and the second is 2.4, whatever version was printed.
pub consume-str :
    (p : WsParser) (old : AsrMessage) → IsPrintable p → Consumed p (consume (str p) old)
unfolding consume take_parsed get_start_line
consume-str p old h =
    let read = parse-str p h in
    record {
      message = record {
        start_line = codes "ASR 2.4 " ++ p.command;
        headers = p.props;
        extra = p.body;
      };
      result = rw read.result (rw read.command_is (rw read.props_are (rw read.body_is)));
      parts = split-start_line p.command h.is_message.command;
      headers_are = refl;
      body_is = refl;
    }
