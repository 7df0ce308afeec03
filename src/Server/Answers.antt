-- ===== src/Server/Answers.antt =====
-- The server's answer to a request: its text, and what the client does with it.
use asr_sdk_cpp.Base.{
  not, ◌^◌, ◌<◌, ◌≡◌, ◌∙◌, Bool, true, false, none, [], ◌∷◌, refl, ap, subst, arith, Bytes, length,
  if◌then◌else◌,
}
use asr_sdk_cpp.Text.{codes, equal, less, empty, contains, starts_with}
use asr_sdk_cpp.StringMap.{StringMap, find, insert}
use asr_sdk_cpp.Outcome.{done}
use asr_sdk_cpp.TokenStream.{is_word}
use asr_sdk_cpp.WsParser.{WsParser, initial, parse, str, add, set_cmd, set_version, print_props}
use asr_sdk_cpp.WsParser.Message.{Holds}
use asr_sdk_cpp.WsParser.RoundTrip.{IsPrintable, parse-str}
use asr_sdk_cpp.AsrMessage.{
  AsrMessage, Method, create_session, set_parameters, start_recognition, cancel_recognition,
  response, get_method_string, get_header, first_line, consume, blank,
}
use asr_sdk_cpp.AsrMessage.Names.{is_name, is_name-IsName}
use asr_sdk_cpp.AsrMessage.Wire.{consume-Holds}
use asr_sdk_cpp.RecognitionResult.{RecognitionResult}
use asr_sdk_cpp.Recognizer.{Impl, notify_one}
use asr_sdk_cpp.Handlers.{
  Handled, handled, undefined, dispatch, process_create_session, process_set_parameters,
  process_start_recog, process_cancel_recog, send_parameters, start_recognition_of, header_string,
  result_string,
}
use asr_sdk_cpp.Handlers.Session.{note_status-same}
use asr_sdk_cpp.ResultHandler.{Json11}
use asr_sdk_cpp.Client.{on_message, ignore_value}
use asr_sdk_cpp.Client.Dispatch.{effect_of, on_message-effect_of}
use asr_sdk_cpp.Server.{c_str}
use asr_sdk_cpp.ServerState.{Server, fill_with, generate_completion_cause, keep_parameters}

-- The requests of a recognition
pub data Asked : Type 0 where
  creating parameters starting cancelling : Asked

abbrev pub method_of : Asked → Method
method_of creating = create_session
method_of parameters = set_parameters
method_of starting = start_recognition
method_of cancelling = cancel_recognition

-- The two states that the server reports
pub data Reported : Type 0 where
  idle listening : Reported

abbrev pub text_of : Reported → Bytes
text_of idle = codes "IDLE"
text_of listening = codes "LISTENING"

-- The state in the answer: a request to start comes first.
abbrev pub reported : Asked → Reported → Reported
reported starting st = listening
reported _ st = st

abbrev pub answer_headers : Asked → Reported → StringMap
answer_headers q st =
    (codes "Error-Code", codes "000")
    ∷ (codes "Handle", codes "202106091928510001 ")
    ∷ (codes "Message", codes "success")
    ∷ (codes "Method", get_method_string (method_of q))
    ∷ (codes "Result", codes "SUCCESS ")
    ∷ (codes "Session-Status", text_of st)
    ∷ []

-- The answer as the server builds it, prints it, and as the client reads it
abbrev pub answer_parser : Asked → Reported → WsParser
answer_parser q st = record initial {
  version = codes "2.4";
  command = codes "RESPONSE";
  props = answer_headers q st;
}

abbrev pub answer_message : Asked → Reported → AsrMessage
answer_message q st = record {
  start_line = first_line response;
  headers = answer_headers q st;
  extra = [];
}

pub fill_with-answer :
    (q : Asked) (st : Reported) (pp : WsParser) (s : Server)
    → s.session_status ≡ text_of st
    → pp.command ≡ get_method_string (method_of q)
    → find (codes "InvalidParam") pp.props ≡ none
    → (fill_with (codes "2.4") pp s).0 ≡ answer_parser q (reported q st)
unfolding fill_with generate_completion_cause keep_parameters add set_cmd set_version insert equal
    less get_method_string
fill_with-answer creating st pp s e c h = rw c (rw e)
fill_with-answer parameters st pp s e c h = rw c (rw h (rw e))
fill_with-answer starting st pp s e c h = rw c
fill_with-answer cancelling st pp s e c h = rw c (rw e)

answer-IsPrintable : (q : Asked) (st : Reported) → IsPrintable (answer_parser q st)
unfolding is_word equal less get_method_string str print_props empty
answer-IsPrintable q st = record {
  is_message = record {
    version = is_name-IsName false (codes "2.4") refl;
    command = is_name-IsName false (codes "RESPONSE") refl;
    headers = (
      is_name-IsName false _ refl,
      is_name-IsName true _ refl,
      λ e. cc,
      (
        is_name-IsName false _ refl,
        is_name-IsName true _ refl,
        λ e. cc,
        (
          is_name-IsName false _ refl,
          is_name-IsName true _ refl,
          λ e. cc,
          (
            is_name-IsName false _ refl,
            is_name-IsName true _ (name_checked q),
            λ e. cc,
            (
              is_name-IsName false _ refl,
              is_name-IsName true _ refl,
              λ e. cc,
              (is_name-IsName false _ refl, is_name-IsName true _ (status_checked st), λ e. cc, tt),
            ),
          ),
        ),
      ),
    );
    sorted = (
      (refl, (refl, (refl, (refl, (refl, tt))))),
      (
        (refl, (refl, (refl, (refl, tt)))),
        ((refl, (refl, (refl, tt))), ((refl, (refl, tt)), ((refl, tt), (tt, tt)))),
      ),
    );
  };
  told = λ e. absurd (e refl);
  small = small q st;
}
  where
    name_checked : (q : Asked) → is_name true (get_method_string (method_of q)) ≡ true
    name_checked creating = refl
    name_checked parameters = refl
    name_checked starting = refl
    name_checked cancelling = refl

    status_checked : (st : Reported) → is_name true (text_of st) ≡ true
    status_checked idle = refl
    status_checked listening = refl

    small : (q : Asked) (st : Reported) → length (str (answer_parser q st)) < 2 ^ 64
    small creating idle = omega arith
    small creating listening = omega arith
    small parameters idle = omega arith
    small parameters listening = omega arith
    small starting idle = omega arith
    small starting listening = omega arith
    small cancelling idle = omega arith
    small cancelling listening = omega arith

-- What the server sends
abbrev pub answer_text : Asked → Reported → Bytes
answer_text q st = str (answer_parser q st)

pub c_str-answer : (q : Asked) (st : Reported) → c_str (answer_text q st) ≡ answer_text q st
unfolding c_str str print_props empty get_method_string
c_str-answer creating idle = refl
c_str-answer creating listening = refl
c_str-answer parameters idle = refl
c_str-answer parameters listening = refl
c_str-answer starting idle = refl
c_str-answer starting listening = refl
c_str-answer cancelling idle = refl
c_str-answer cancelling listening = refl

-- The client reads the answer.
consume-answer :
    (q : Asked) (st : Reported) → consume (answer_text q st) blank ≡ done tt (answer_message q st)
unfolding get_method_string
consume-answer q st = consume-Holds response (answer_text q st) blank (
    subst (λ c. Holds (codes "2.4") c (answer_headers q st) [] (parse (answer_text q st)))
      response_text (parse-str (answer_parser q st) (answer-IsPrintable q st)))
  where
    response_text : codes "RESPONSE" ≡ get_method_string response
    response_text = refl

module _ {J D F : Type 0} (accepts : Bytes → Bool) (json11 : Json11 J D F) where
  -- What the client does next: the request behind the one that was answered, the audio, or the end
  -- of the recognition
  pub proceed : Asked → Impl (RecognitionResult F) → Handled (RecognitionResult F)
  proceed creating i = send_parameters accepts i.config i
  proceed parameters i = start_recognition_of accepts i.lm i
  proceed starting i =
      if not i.has_audio
      then handled false i
      else if i.sending
      then undefined
      else handled true (record i { sending = true })
  proceed cancelling i = handled true (notify_one (record i { result = []; recognizing = false }))

  effect_of-answer :
      (q : Asked) (st : Reported) (i : Impl (RecognitionResult F))
      → effect_of accepts json11 response i (answer_message q st) ≡ proceed q i
  unfolding dispatch process_create_session process_set_parameters process_start_recog
      process_cancel_recog get_header find equal header_string result_string get_method_string
      contains starts_with proceed
  effect_of-answer creating st i = rw (note_status-same i)
  effect_of-answer parameters st i = rw (note_status-same i)
  effect_of-answer starting st i = rw (note_status-same i)
  effect_of-answer cancelling st i = rw (note_status-same i)

  pub on_message-answer :
      (q : Asked) (st : Reported) (i : Impl (RecognitionResult F))
      → on_message accepts json11 (answer_text q st) i ≡ ignore_value (proceed q i)
  on_message-answer q st i =
      on_message-effect_of accepts json11 response (answer_text q st) i (answer_message q st)
        (consume-answer q st) refl
      ∙ ap ignore_value (effect_of-answer q st i)
