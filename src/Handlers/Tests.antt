-- ===== src/Handlers/Tests.antt =====
-- The handlers' theorems at concrete messages.
use asr_sdk_cpp.Base.{ℕ, ◌≡◌, true, false, none, [], ◌∷◌, refl, Bytes, Bool}
use asr_sdk_cpp.Text.{codes, equal, contains, starts_with, get_lines}
use asr_sdk_cpp.StringMap.{find}
use asr_sdk_cpp.RecognitionError.{failure}
use asr_sdk_cpp.AsrMessage.{AsrMessage, get_method_string, get_header, get_start_line, split}
use asr_sdk_cpp.Recognizer
use asr_sdk_cpp.Recognizer.{Impl}
use asr_sdk_cpp.Handlers.{
  dispatch, handled, process_response, last_handler, header_string, result_string,
}
use asr_sdk_cpp.Handlers.Session.{KeepsStatus, process_response-KeepsStatus}
use asr_sdk_cpp.Handlers.Failure.{creating, error_text, with_error, dispatch-with_error}

abbrev accepts : Bytes → Bool
accepts text = true

abbrev started : Impl ℕ
started = record {
  session_status = Recognizer.none_yet;
  recognizing = true;
  sending = false;
  has_audio = true;
  config = none;
  lm = none;
  listener = 1 ∷ 2 ∷ [];
  result = [];
  eptr = none;
  called = [];
  sent = [];
  notified = 0;
}

abbrev speech : AsrMessage
speech = record { start_line = codes "ASR 2.4 START_OF_SPEECH"; headers = []; extra = [] }

abbrev listening : AsrMessage
listening = record {
  start_line = codes "ASR 2.4 RESPONSE";
  headers = (codes "Session-Status", codes "LISTENING") ∷ [];
  extra = [];
}

process_response-KeepsStatus_example :
    KeepsStatus started (process_response accepts last_handler started listening)
unfolding get_start_line split get_lines get_method_string contains starts_with
process_response-KeepsStatus_example =
    process_response-KeepsStatus accepts last_handler started listening {name = codes "RESPONSE"}
      refl refl

abbrev refused : AsrMessage
refused = record {
  start_line = codes "ASR 2.4 RESPONSE";
  headers =
      (codes "Error-Code", codes "ERR")
      ∷ (codes "Method", codes "CREATE_SESSION")
      ∷ (codes "Result", codes "FAILURE")
      ∷ [];
  extra = [];
}

dispatch-with_error_example :
    dispatch accepts started refused
    ≡ handled false (with_error (record { code = failure; message = error_text refused }) started)
unfolding get_header find equal header_string get_method_string contains starts_with result_string
dispatch-with_error_example = dispatch-with_error accepts creating started refused refl refl
