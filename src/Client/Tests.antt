-- ===== src/Client/Tests.antt =====
-- The theorems on messages that arrive at concrete messages.
use asr_sdk_cpp.Base.{ℕ, Bool, true, false, ◌≡◌, none, [], ◌∷◌, refl, Bytes}
use asr_sdk_cpp.Text.{codes, equal, empty, get_lines, less}
use asr_sdk_cpp.Outcome.{done}
use asr_sdk_cpp.TokenStream.{
  is_word, has_class, scan, get, get_next_from, unget_token, word_token, tokenize, plain, crlf,
}
use asr_sdk_cpp.WsParser.{
  WsParser, initial, parse, read_lines, line_stm, pop_back, stm, stm_expr, expr, key_expr,
  note_length, read_body,
}
use asr_sdk_cpp.StringMap.{find, insert}
use asr_sdk_cpp.AsrMessage.{
  AsrMessage, request, raw, start_of_speech, first_line, get_method_string, get_header, get_extra,
  blank,
}
use asr_sdk_cpp.AsrMessage.Names.{is_name-IsName, get_method_string-IsName}
use asr_sdk_cpp.AsrMessage.Wire.{IsRequest, consume-raw}
use asr_sdk_cpp.RecognitionResult
use asr_sdk_cpp.RecognitionResult.{RecognitionResult}
use asr_sdk_cpp.Recognizer
use asr_sdk_cpp.Recognizer.{Impl}
use asr_sdk_cpp.ResultHandler.{final_result, partial_recognition_from_json, result_header}
use asr_sdk_cpp.ResultHandler.Sample.{sample, document, items_of, lookup}
use asr_sdk_cpp.Client.{undefined, on_message, ignore_value, root}
use asr_sdk_cpp.Client.Dispatch.{effect_of, on_message-effect_of, on_message-no_command}
use asr_sdk_cpp.Client.Segments.{
  Segment, final, partial, Brings, bring_nil, bring_cons, Ends, handle_all, handle_all-Ends,
}

abbrev accepts : Bytes → Bool
accepts text = true

abbrev running : Impl (RecognitionResult ℕ)
running = record {
  session_status = Recognizer.none_yet;
  recognizing = true;
  sending = false;
  has_audio = true;
  config = none;
  lm = none;
  listener = 1 ∷ 2 ∷ [];
  result = [];
  eptr = none;
  called = [];
  sent = [];
  notified = 0;
}

abbrev speech : AsrMessage
speech = request start_of_speech

speech-IsRequest : IsRequest start_of_speech speech
unfolding request is_word equal
speech-IsRequest = record {
  start_line = refl;
  is_message = record {
    version = is_name-IsName false (codes "2.4") refl;
    command = get_method_string-IsName start_of_speech;
    headers = tt;
    sorted = tt;
  };
}

on_message-effect_of_example :
    on_message accepts sample (raw speech) running
    ≡ ignore_value (effect_of accepts sample start_of_speech running speech)
unfolding request
on_message-effect_of_example =
    on_message-effect_of accepts sample start_of_speech (raw speech) running speech
      (consume-raw start_of_speech blank speech-IsRequest refl refl) refl

-- A message with a result that is described by a text
abbrev telling : Bytes → AsrMessage
telling text = record {
  start_line = codes "ASR 2.4 RECOGNITION_RESULT";
  headers = (codes "Result-Status", codes "PROCESSING") ∷ [];
  extra = text;
}

abbrev said : Segment ℕ
said = partial (record { text = codes "on"; speech_segment_index = RecognitionResult.pos 0 })

abbrev whole : Segment ℕ
whole = final (final_result sample (document (codes "FINAL"))) true

Brings-partial : Brings sample (telling (codes "PARTIAL")) said
unfolding first_line get_method_string get_header find equal get_extra empty result_header document
    lookup items_of partial_recognition_from_json RecognitionResult.get_string
Brings-partial = record { start_line = refl; not_canceled = refl; has_body = refl; segment = refl }

Brings-final : Brings sample (telling (codes "FINAL")) whole
unfolding first_line get_method_string get_header find equal get_extra empty result_header document
    lookup RecognitionResult.get_string
Brings-final = record { start_line = refl; not_canceled = refl; has_body = refl; segment = refl }

handle_all-Ends_example : Ends running (said ∷ whole ∷ []) (
    handle_all
      (root accepts sample)
      (telling (codes "PARTIAL") ∷ telling (codes "FINAL") ∷ [])
      running)
handle_all-Ends_example =
    handle_all-Ends sample accepts running
      (bring_cons Brings-partial (bring_cons Brings-final bring_nil))

-- A header, and no title line
abbrev untitled : Bytes
untitled = codes "Handle:1\r\n"

abbrev untitled_read : WsParser
untitled_read = record initial {
  tks = record { rest = []; last = plain crlf; unget = false; after_sep = false };
  props = (codes "Handle", codes "1") ∷ [];
}

untitled-read : parse untitled ≡ done tt untitled_read
unfolding parse read_lines get_lines line_stm pop_back tokenize stm stm_expr expr key_expr is_word
    has_class scan get get_next_from unget_token word_token note_length read_body equal empty insert
    less
untitled-read = refl

on_message-no_command_example : on_message accepts sample untitled running ≡ undefined
on_message-no_command_example =
    on_message-no_command accepts sample untitled untitled_read running untitled-read refl
