-- ===== src/AsrMessage.antt =====
-- The messages of the protocol: Method and split of src/message_utils.cc, ASRMessageParser of
-- src/asr_message_parser.{h,cc}, ASRMessageRequest and ASRMessageResponse.
pub mod Names
pub mod Fields
pub mod Wire
pub mod StartLine
mod Tests
use asr_sdk_cpp.Base.{
  ℕ, Bool, true, false, not, ◌&&◌, Option, none, some, List, [], ◌∷◌, ◌++◌, if◌then◌else◌, Bytes,
}
use asr_sdk_cpp.Text.{codes, empty, get_lines, is_white}
use asr_sdk_cpp.StringMap.{StringMap, find, assign, erase}
use asr_sdk_cpp.Outcome.{Outcome, done, threw, undefined, M}
use asr_sdk_cpp.WsParser
use asr_sdk_cpp.WsParser.{WsParser}

pub data Method : Type 0 where
  create_session set_parameters get_parameters start_recognition : Method
  start_input_timers send_audio cancel_recognition release_session : Method
  response start_of_speech end_of_speech recognition_result : Method

-- getMethodString
unfoldable pub get_method_string : Method → Bytes
get_method_string create_session = codes "CREATE_SESSION"
get_method_string set_parameters = codes "SET_PARAMETERS"
get_method_string get_parameters = codes "GET_PARAMETERS"
get_method_string start_recognition = codes "START_RECOGNITION"
get_method_string start_input_timers = codes "START_INPUT_TIMERS"
get_method_string send_audio = codes "SEND_AUDIO"
get_method_string cancel_recognition = codes "CANCEL_RECOGNITION"
get_method_string release_session = codes "RELEASE_SESSION"
get_method_string response = codes "RESPONSE"
get_method_string start_of_speech = codes "START_OF_SPEECH"
get_method_string end_of_speech = codes "END_OF_SPEECH"
get_method_string recognition_result = codes "RECOGNITION_RESULT"

-- The constants of src/constants.h
abbrev pub asr_version : Bytes
asr_version = codes "ASR 2.4"

abbrev pub msg_delimiter : Bytes
msg_delimiter = 13 ∷ 10 ∷ []

abbrev pub msg_separator : Bytes
msg_separator = codes " "

abbrev pub hdr_separator : Bytes
hdr_separator = codes ":"

-- firstLine
unfoldable pub first_line : Method → Bytes
first_line c = asr_version ++ (msg_separator ++ get_method_string c)

-- split, with std::getline
unfoldable pub split : Bytes → ℕ → List Bytes
split s delim = get_lines delim s

-- The fields of ASRMessageParser
pub record AsrMessage : Type 0 where
  pub start_line : Bytes
  pub headers : StringMap
  pub extra : Bytes

-- The loop of raw over the headers
unfoldable pub raw_headers : StringMap → Bytes
raw_headers [] = []
raw_headers ((k, v) ∷ m) = k ++ (hdr_separator ++ (v ++ (msg_delimiter ++ raw_headers m)))

-- ASRMessageParser::raw
unfoldable pub raw : AsrMessage → Bytes
raw m =
    (if not (empty m.start_line) then m.start_line ++ msg_delimiter else [])
    ++ (raw_headers m.headers
        ++ (msg_delimiter ++ (if not (empty m.extra) then m.extra ++ msg_delimiter else [])))

abbrev pub or_empty : Option Bytes → Bytes
or_empty none = []
or_empty (some v) = v

-- ASRMessageParser::get_header
unfoldable pub get_header : AsrMessage → Bytes → Bytes
get_header m key = or_empty (find key m.headers)

unfoldable pub get_extra : AsrMessage → Bytes
get_extra m = m.extra

unfoldable pub get_start_line : AsrMessage → Bytes
get_start_line m = m.start_line

-- ASRMessageResponse::ASRMessageResponse
abbrev pub blank : AsrMessage
blank = record { start_line = []; headers = []; extra = [] }

-- ASRMessageRequest::ASRMessageRequest
unfoldable pub request : Method → AsrMessage
request c = record { start_line = first_line c; headers = []; extra = [] }

-- The setters of ASRMessageRequest
unfoldable pub set_header : Bytes → Bytes → AsrMessage → AsrMessage
set_header key val m = record m { headers = assign key val m.headers }

unfoldable pub remove_header : Bytes → AsrMessage → AsrMessage
remove_header key m = record m { headers = erase key m.headers }

unfoldable pub set_extra : Bytes → AsrMessage → AsrMessage
set_extra value m = record m { extra = value }

unfoldable pub set_start_line : Bytes → AsrMessage → AsrMessage
set_start_line value m = record m { start_line = value }

-- internal::removeExtraSpaces: `prev_is_space` is the argument
unfoldable pub remove_extra_spaces_from : Bool → Bytes → Bytes
remove_extra_spaces_from prev_is_space [] = []
remove_extra_spaces_from prev_is_space (c ∷ cs) =
    let rest = remove_extra_spaces_from (is_white c) cs in
    if is_white c && prev_is_space then rest else c ∷ rest

unfoldable pub remove_extra_spaces : Bytes → Bytes
remove_extra_spaces input = remove_extra_spaces_from true input

-- What consume takes from the parser object. A throw of the parser's constructor leaves the
-- message as it was.
unfoldable pub take_parsed : Outcome WsParser (Unit {0}) → M AsrMessage (Unit {0})
take_parsed (done _ p) m =
    done tt
      (record { start_line = codes "ASR 2.4 " ++ p.command; headers = p.props; extra = p.body })
take_parsed (threw e p) m = threw e m
take_parsed undefined m = undefined

-- ASRMessageResponse::consume; the search for the empty line behind it sets locals only.
unfoldable pub consume : Bytes → M AsrMessage (Unit {0})
consume payload m = take_parsed (WsParser.parse payload) m
