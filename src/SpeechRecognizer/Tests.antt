-- ===== src/SpeechRecognizer/Tests.antt =====
-- The machine's theorems at a concrete recognizer.
use asr_sdk_cpp.Base.{ℕ, true, false, ◌≡◌, not, none, some, [], ◌∷◌, ◌++◌, refl, ap}
use asr_sdk_cpp.Text.{codes, equal, empty}
use asr_sdk_cpp.TokenStream.{is_word}
use asr_sdk_cpp.StringMap.{find}
use asr_sdk_cpp.RecognizerBuilder.{RecognizerProperties, new_builder}
use asr_sdk_cpp.AsrMessage.{
  AsrMessage, request, raw, blank, recognition_result, get_header, get_extra,
}
use asr_sdk_cpp.AsrMessage.Names.{is_name-IsName, get_method_string-IsName}
use asr_sdk_cpp.AsrMessage.Wire.{IsRequest, consume-raw}
use asr_sdk_cpp.RecognitionResult.{RecognitionResult, from_string, get_string}
use asr_sdk_cpp.SendMessage.{create_session}
use asr_sdk_cpp.Recognizer
use asr_sdk_cpp.Recognizer.{Impl, call_listeners, notify_one, send_message}
use asr_sdk_cpp.ResultHandler.{
  take_result, take_status, note_idle, call_with_results, result_header, status_string,
}
use asr_sdk_cpp.ResultHandler.Sample.{sample}
use asr_sdk_cpp.ResultHandler.Stored.{IsQuiet}
use asr_sdk_cpp.Client.{ignore_value}
use asr_sdk_cpp.Client.Dispatch.{effect_of, on_message-effect_of}
use asr_sdk_cpp.SpeechRecognizer.{
  Websocket, State, stepped, no_call, build, renew, recognize, begin_open, finish_open, is_not_open,
  continue_with, send_first, wait_recognition_result, finish_wait, is_over, take_results,
  terminate_send_message_thread, on_open, ends_with, raised, active_error, rethrown, returned,
  k_open, waiting, results, reset_impl, install_impl, close_impl,
}
use asr_sdk_cpp.SpeechRecognizer.Step
use asr_sdk_cpp.SpeechRecognizer.Step.{
  Action, call_recognize, call_wait, call_reset, wait_ends, connection_opened, connection_failed,
  message_arrived, step, Reach, after_message,
}
use asr_sdk_cpp.SpeechRecognizer.Inv.{AllGiven}
use asr_sdk_cpp.SpeechRecognizer.Reachable.{
  unbuilt, Reach-IsQuiet, Reach-AllGiven, IsForgotten, Reach-IsForgotten,
}
use asr_sdk_cpp.SpeechRecognizer.Stuck.{Stuck, stuck, is_stuck}
use asr_sdk_cpp.SpeechRecognizer.Blocked.{QuietReach, here, there, QuietReach-recognize}

abbrev ws : Websocket
ws = record {
  init_asio = not;
  accepts = λ text. true;
  is_secure = λ url. false;
  connects = λ url. true;
  base64_encode = λ text. text;
}

abbrev properties : RecognizerProperties
properties = record new_builder {
  connect_on_recognize = true;
  auto_close = false;
  listener = 1 ∷ [];
}

abbrev start : State (RecognitionResult ℕ)
start = build ws (unbuilt properties)

abbrev answer : AsrMessage
answer = request recognition_result

answer-IsRequest : IsRequest recognition_result answer
unfolding request is_word equal
answer-IsRequest = record {
  start_line = refl;
  is_message = record {
    version = is_name-IsName false (codes "2.4") refl;
    command = get_method_string-IsName recognition_result;
    headers = tt;
    sorted = tt;
  };
}

arrives :
    (s : State (RecognitionResult ℕ))
    → step ws sample (message_arrived (raw answer)) s
      ≡ after_message
          (ignore_value (effect_of ws.accepts sample recognition_result s.impl answer))
          s
unfolding step request
arrives s =
    ap (λ x. after_message x s)
      (on_message-effect_of ws.accepts sample recognition_result (raw answer) s.impl answer
        (consume-raw recognition_result blank answer-IsRequest refl refl) refl)

-- The recognizer behind its constructor
abbrev ready : State (RecognitionResult ℕ)
ready = record (unbuilt properties) {
  impl = record ((unbuilt {R = RecognitionResult ℕ} properties).impl) { listener = 1 ∷ [] };
  properties = record properties { listener = [] };
  outcomes = returned ∷ [];
}

-- A recognition that has the result and waits for it
abbrev answered : State (RecognitionResult ℕ)
answered = record ready {
  impl = record (ready.impl) {
    called = (1, Recognizer.on_recognition_result (from_string [])) ∷ [];
    result = from_string [] ∷ [];
    sent = create_session ∷ [];
    notified = 2;
  };
  status = k_open;
  is_open = true;
  initialised = true;
  call = waiting;
  outcomes = returned ∷ returned ∷ [];
}

answered-Reach : Reach ws sample start answered
unfolding step build renew recognize begin_open on_open finish_open is_not_open continue_with
    send_first send_message wait_recognition_result notify_one call_listeners take_result
    take_status note_idle call_with_results result_header status_string get_header find equal
    get_extra empty get_string request
answered-Reach =
    Step.there (message_arrived (raw answer))
      (Step.there call_wait
        (Step.there wait_ends
          (Step.there connection_opened (Step.there (call_recognize none false) Step.here refl)
            refl)
          refl)
        refl)
      (arrives _)

-- The same behind the wait, which gives the result
abbrev heard : State (RecognitionResult ℕ)
heard = record answered {
  impl = record (answered.impl) { result = [] };
  call = no_call;
  outcomes = answered.outcomes ++ results (from_string [] ∷ []) ∷ [];
}

heard-Reach : Reach ws sample start heard
unfolding step finish_wait is_over take_results terminate_send_message_thread
heard-Reach = Step.there wait_ends answered-Reach refl

Reach-IsQuiet_example : IsQuiet heard.impl.session_status
Reach-IsQuiet_example = Reach-IsQuiet ws sample properties heard-Reach

Reach-AllGiven_example : AllGiven heard.outcomes
Reach-AllGiven_example = Reach-AllGiven ws sample properties heard-Reach

-- The recognizer behind a call of resetImpl
abbrev emptied : State (RecognitionResult ℕ)
emptied = ends_with returned (renew (close_impl heard))

heard_reset : step ws sample call_reset heard ≡ stepped emptied
unfolding step reset_impl install_impl renew close_impl terminate_send_message_thread
heard_reset = refl

Reach-IsForgotten_example : IsForgotten ws sample emptied.impl.listener emptied.impl.config
Reach-IsForgotten_example =
    Reach-IsForgotten ws sample properties heard-Reach refl heard_reset Step.here

-- A recognition whose connection fails while the application waits
abbrev failing : State (RecognitionResult ℕ)
failing = record answered {
  impl = record (answered.impl) { recognizing = true; eptr = some Recognizer.transport };
}

-- The same behind the wait, which throws the error
abbrev failed : State (RecognitionResult ℕ)
failed = record failing {
  impl = record (failing.impl) { result = [] };
  call = no_call;
  outcomes = failing.outcomes ++ rethrown Recognizer.transport ∷ [];
}

failing-Stuck : Stuck failing
failing-Stuck = stuck (is_stuck Recognizer.transport)

failed-QuietReach : QuietReach ws sample failing failed
unfolding step finish_wait is_over take_results terminate_send_message_thread
failed-QuietReach = there wait_ends refl here refl

QuietReach-recognize_example :
    step ws sample (call_recognize none false) failed
    ≡ stepped (ends_with (raised active_error) failed)
QuietReach-recognize_example =
    QuietReach-recognize ws sample none false failing-Stuck failed-QuietReach refl
