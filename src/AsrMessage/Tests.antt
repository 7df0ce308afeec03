-- ===== src/AsrMessage/Tests.antt =====
-- The theorems on messages at concrete ones.
use asr_sdk_cpp.Base.{◌≡◌, [], ◌∷◌, refl, none, true, false, arith}
use asr_sdk_cpp.Text.{codes, equal, empty}
use asr_sdk_cpp.Outcome.{done}
use asr_sdk_cpp.TokenStream.{is_word}
use asr_sdk_cpp.AsrMessage.{cancel_recognition, blank, consume, raw, request, get_header, or_empty}
use asr_sdk_cpp.AsrMessage.Names.{is_name-IsName, get_method_string-IsName}
use asr_sdk_cpp.AsrMessage.Wire.{IsRequest, consume-raw}
use asr_sdk_cpp.AsrMessage.Fields.{set, remove, edits, last_value, get_header-edits}
use asr_sdk_cpp.AsrMessage.StartLine.{Consumed, consume-str}
use asr_sdk_cpp.WsParser.{WsParser, initial, str, print_props}
use asr_sdk_cpp.WsParser.RoundTrip.{IsPrintable}

cancel-IsRequest : IsRequest cancel_recognition (request cancel_recognition)
unfolding request is_word equal
cancel-IsRequest = record {
  start_line = refl;
  is_message = record {
    version = is_name-IsName false (codes "2.4") refl;
    command = get_method_string-IsName cancel_recognition;
    headers = tt;
    sorted = tt;
  };
}

consume-raw_example :
    consume (raw (request cancel_recognition)) blank ≡ done tt (request cancel_recognition)
unfolding request
consume-raw_example = consume-raw cancel_recognition blank cancel-IsRequest refl refl

get_header-edits_example :
    get_header
      (edits
        (set (codes "A") (codes "1") ∷ remove (codes "A") ∷ set (codes "A") (codes "2") ∷ [])
        (request cancel_recognition))
      (codes "A")
    ≡ or_empty (
        last_value
          (set (codes "A") (codes "1") ∷ remove (codes "A") ∷ set (codes "A") (codes "2") ∷ [])
          (codes "A")
          none)
get_header-edits_example =
    get_header-edits cancel_recognition
      (set (codes "A") (codes "1") ∷ remove (codes "A") ∷ set (codes "A") (codes "2") ∷ [])
      (codes "A")

-- A message of another version than consume writes
abbrev printed : WsParser
printed = record initial {
  version = codes "2.3";
  command = codes "RESPONSE";
  props = (codes "Handle", codes "1") ∷ [];
}

printed-IsPrintable : IsPrintable printed
unfolding is_word equal str print_props empty
printed-IsPrintable = record {
  is_message = record {
    version = is_name-IsName false (codes "2.3") refl;
    command = is_name-IsName false (codes "RESPONSE") refl;
    headers = (
      is_name-IsName false (codes "Handle") refl,
      is_name-IsName true (codes "1") refl,
      λ e. cc,
      tt,
    );
    sorted = (tt, tt);
  };
  told = λ e. absurd (e refl);
  small = omega arith;
}

consume-str_example : Consumed printed (consume (str printed) blank)
consume-str_example = consume-str printed blank printed-IsPrintable
