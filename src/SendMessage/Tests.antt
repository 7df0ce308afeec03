-- ===== src/SendMessage/Tests.antt =====
-- The theorems on messages at concrete ones.
use asr_sdk_cpp.Base.{◌≡◌, [], ◌++◌, refl, arith, drop, true, if◌then◌else◌}
use asr_sdk_cpp.Text.{codes, empty, to_string, equal, less}
use asr_sdk_cpp.StringMap.{assign}
use asr_sdk_cpp.Outcome.{done}
use asr_sdk_cpp.TokenStream.{is_word}
use asr_sdk_cpp.LanguageModelList.{LanguageModelList, get_uri, get_grammar_body}
use asr_sdk_cpp.RecognitionConfig.{Properties, default_properties}
use asr_sdk_cpp.RecognitionError.{returned, raised}
use asr_sdk_cpp.AsrMessage
use asr_sdk_cpp.AsrMessage.{
  AsrMessage, blank, consume, raw, raw_headers, first_line, get_method_string, request, set_header,
  set_extra, msg_delimiter,
}
use asr_sdk_cpp.AsrMessage.Names.{is_name-IsName}
use asr_sdk_cpp.AsrMessage.Wire.{consume-raw_extra}
use asr_sdk_cpp.SendMessage.{start_recognition, set_parameters, recognition_request}
use asr_sdk_cpp.SendMessage.Parameters.{SaysProperties}
use asr_sdk_cpp.SendMessage.Reading.{HasPlainTexts, Received, set_parameters-Received}
use asr_sdk_cpp.SendMessage.Recognition.{
  model_text, model_request, model_request-IsRequest, no_text, start_recognition-cases,
  start_recognition-consumed,
}

abbrev general : LanguageModelList
general = record { uri = codes "builtin:slm/general"; grammar_body = [] }

abbrev tagged : Properties
tagged = record default_properties { account_tag = codes "cpqd"; max_sentences = 3 }

tagged-HasPlainTexts : HasPlainTexts tagged
unfolding is_word equal empty
tagged-HasPlainTexts = record {
  account_tag = λ e. is_name-IsName true (codes "cpqd") refl;
  channel_identifier = λ e. cc;
  media_type = λ e. cc;
}

set_parameters-Received_example : Received (set_parameters tagged) blank (SaysProperties tagged)
set_parameters-Received_example = set_parameters-Received tagged blank tagged-HasPlainTexts

start_recognition-cases_example : start_recognition general ≡ (
    if empty (model_text general) then raised no_text else returned (raw (model_request general)))
start_recognition-cases_example = start_recognition-cases general

start_recognition-consumed_example :
    consume (raw (model_request general)) blank
    ≡ done tt (record (model_request general) {
      extra = drop 2 (codes "builtin:slm/general" ++ msg_delimiter);
    })
unfolding start_recognition recognition_request raw raw_headers to_string first_line
    get_method_string empty get_uri get_grammar_body set_header set_extra request assign equal less
start_recognition-consumed_example =
    start_recognition-consumed general (raw (model_request general)) blank refl (omega arith)
      (omega arith)

consume-raw_extra_example :
    consume (raw (model_request general)) blank
    ≡ done tt (record (model_request general) {
      extra = drop 2 (codes "builtin:slm/general" ++ msg_delimiter);
    })
unfolding raw raw_headers to_string first_line get_method_string empty equal
consume-raw_extra_example =
    consume-raw_extra AsrMessage.start_recognition blank
      (model_request-IsRequest general (omega arith)) refl refl (omega arith)
