-- ===== src/Handlers/Failure.antt =====
-- Responses that report a failure.
use asr_sdk_cpp.Base.{
  ◌+◌, ◌≡◌, ◌∙◌, Bool, true, false, not, ◌&&◌, some, ◌++◌, refl, ap, Bytes, if◌then◌else◌,
}
use asr_sdk_cpp.Text.{codes, contains, equal, empty}
use asr_sdk_cpp.RecognitionError.{RecognitionError, failure}
use asr_sdk_cpp.AsrMessage.{
  AsrMessage, Method, create_session, set_parameters, start_recognition, cancel_recognition,
  get_method_string, get_header,
}
use asr_sdk_cpp.Recognizer.{
  Impl, recognition, on_error, calls_of, call_listeners, notify_one, recognition_error,
}
use asr_sdk_cpp.Handlers.{
  handled, header_string, result_string, method, result, invalid_action, error_code, message,
  generate_error, succeeded, dispatch, process_create_session, process_set_parameters,
  process_start_recog, process_cancel_recog,
}

-- The requests of a recognition whose responses may report a failure
pub data Request : Type 0 where
  creating parameters starting cancelling : Request

abbrev pub method_of : Request → Method
method_of creating = create_session
method_of parameters = set_parameters
method_of starting = start_recognition
method_of cancelling = cancel_recognition

-- Does the response report a failure of the request? A cancel with nothing to cancel is none.
abbrev pub reports_failure : Request → AsrMessage → Bool
reports_failure cancelling m =
    not (succeeded m)
    && not (contains (get_header m (header_string result)) (result_string invalid_action))
reports_failure _ m = not (succeeded m)

-- The text of the error: the method, the code, and the message if there is one.
abbrev pub error_text : AsrMessage → Bytes
error_text m =
    let why = get_header m (header_string message) in
    codes "["
    ++ (get_header m (header_string method)
        ++ (codes "]: "
            ++ (if not (empty why)
                then get_header m (header_string error_code) ++ (codes ": " ++ why)
                else get_header m (header_string error_code))))

-- The state behind an error: each listener is told once, in order, the error waits for the
-- application, and one waiting thread is woken; the recognition still counts as running.
abbrev pub with_error : {R : Type 0} → RecognitionError → Impl R → Impl R
with_error e i = record i {
  called = i.called ++ calls_of i.listener (on_error e);
  eptr = some (recognition e);
  notified = i.notified + 1;
}

generate_error_lem :
    {R : Type 0} (i : Impl R) (m : AsrMessage)
    → generate_error i m ≡ with_error (record { code = failure; message = error_text m }) i
unfolding generate_error recognition_error notify_one call_listeners
generate_error_lem i m = refl

dispatch-failure :
    {R : Type 0} (accepts : Bytes → Bool) (q : Request) (i : Impl R) (m : AsrMessage)
    → get_header m (header_string method) ≡ get_method_string (method_of q)
    → reports_failure q m ≡ true
    → dispatch accepts i m ≡ handled false (generate_error i m)
unfolding dispatch process_create_session process_set_parameters process_start_recog
    process_cancel_recog equal get_method_string
dispatch-failure accepts creating i m e h = rw e (rw h)
dispatch-failure accepts parameters i m e h = rw e (rw h)
dispatch-failure accepts starting i m e h = rw e (rw h)
dispatch-failure accepts cancelling i m e h = rw e (rw h)

-- A response that reports the failure of a request tells each listener once, in order, leaves the
-- error to the application, wakes one thread that waits for it, and changes nothing else: the
-- recognition still counts as running.
pub dispatch-with_error :
    {R : Type 0} (accepts : Bytes → Bool) (q : Request) (i : Impl R) (m : AsrMessage)
    → get_header m (header_string method) ≡ get_method_string (method_of q)
    → reports_failure q m ≡ true
    → dispatch accepts i m
      ≡ handled false (with_error (record { code = failure; message = error_text m }) i)
dispatch-with_error accepts q i m e h =
    dispatch-failure accepts q i m e h ∙ ap (handled false) (generate_error_lem i m)
