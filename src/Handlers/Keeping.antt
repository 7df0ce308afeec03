-- ===== src/Handlers/Keeping.antt =====
-- What the handlers of responses leave alone or keep true, for any condition on the part of the
-- state that they share with the handler of results.
use asr_sdk_cpp.Base.{
  ℕ, subst, sym, refl, ◌≡◌, Bool, true, false, not, ◌&&◌, Option, none, some, List, [], ◌∷◌, ◌++◌,
  Bytes, if◌then◌else◌,
}
use asr_sdk_cpp.Text.{contains, equal}
use asr_sdk_cpp.LanguageModelList.{LanguageModelList}
use asr_sdk_cpp.RecognitionConfig.{Properties}
use asr_sdk_cpp.RecognitionError.{RecognitionError, Raising, returned, raised}
use asr_sdk_cpp.SendMessage
use asr_sdk_cpp.AsrMessage
use asr_sdk_cpp.AsrMessage.{AsrMessage, get_method_string, get_header}
use asr_sdk_cpp.Recognizer
use asr_sdk_cpp.Recognizer.{
  SessionStatus, Impl, call_listeners, notify_one, recognition_error, send_message,
}
use asr_sdk_cpp.Handlers.{
  Handled, handled, threw, undefined, header_string, result_string, method, result, success,
  invalid_action, generate_error, succeeded, dispatch, process_create_session,
  process_set_parameters, process_start_recog, process_cancel_recog, start_recognition_of,
  send_recognition, send_parameters, Handler, process_response, process_start_speech,
  process_end_speech, third, if_method,
}
use asr_sdk_cpp.Handlers.Session.{note_status-same}

pub record Held (R : Type 0) : Type 0 where
  pub session_status : SessionStatus
  pub result : List R
  pub listener : List ℕ
  pub config : Option Properties

abbrev pub held : {R : Type 0} → Impl R → Held R
held i = record {
  session_status = i.session_status;
  result = i.result;
  listener = i.listener;
  config = i.config;
}

-- `P` holds of what is held behind a handler, if it gives a state.
pub data Leaves {R : Type 0} (P : Held R → Type 0) : Handled R → Type 0 where
  leaves : {b : Bool} {j : Impl R} → P (held j) → Leaves P (handled b j)
  leaves_threw : {e : RecognitionError} {j : Impl R} → P (held j) → Leaves P (threw e j)
  no_state : Leaves P undefined

module _ {R : Type 0} where
  pub send_message-held :
      (accepts : Bytes → Bool) (i : Impl R) (t : Bytes) → held (send_message accepts t i) ≡ held i
  unfolding send_message notify_one
  send_message-held accepts i t = by_answer (accepts t)
    where
      by_answer :
          (b : Bool)
          → held (
              if b
              then record i { sent = i.sent ++ t ∷ [] }
              else notify_one (record i { eptr = some Recognizer.transport }))
            ≡ held i
      by_answer true = refl
      by_answer false = refl

module _ {R : Type 0} {P : Held R → Type 0} where
  pub branches :
      (b : Bool) {x y : Handled R} → Leaves P x → Leaves P y → Leaves P (if b then x else y)
  branches true h k = h
  branches false h k = k

  error-Leaves :
      (i : Impl R) (m : AsrMessage) → P (held i) → Leaves P (handled false (generate_error i m))
  unfolding generate_error recognition_error notify_one call_listeners
  error-Leaves i m p = leaves p

  -- A handler's test of the method
  pub if_method-Leaves :
      (m : AsrMessage.Method) (w : Option Bytes) {x y : Handled R}
      → Leaves P x
      → Leaves P y
      → Leaves P (if_method m w x y)
  if_method-Leaves m none h k = no_state
  if_method-Leaves m (some w) h k = branches (not (contains w (get_method_string m))) k h

  pub process_start_speech-Leaves :
      (next : Handler R) (i : Impl R) (m : AsrMessage)
      → P (held i)
      → Leaves P (next i m)
      → Leaves P (process_start_speech next i m)
  unfolding process_start_speech call_listeners
  process_start_speech-Leaves next i m p h =
      if_method-Leaves AsrMessage.start_of_speech (third m) (leaves p) h

  pub process_end_speech-Leaves :
      (next : Handler R) (i : Impl R) (m : AsrMessage)
      → P (held i)
      → Leaves P (next i m)
      → Leaves P (process_end_speech next i m)
  unfolding process_end_speech call_listeners
  process_end_speech-Leaves next i m p h =
      if_method-Leaves AsrMessage.end_of_speech (third m) (leaves p) h

  module _ (accepts : Bytes → Bool) where
    sent-Leaves :
        (i : Impl R) (t : Bytes) → P (held i) → Leaves P (handled true (send_message accepts t i))
    unfolding send_message notify_one
    sent-Leaves i t p =
        leaves {j = send_message accepts t i} (subst P (sym (send_message-held accepts i t)) p)

    recognition-Leaves :
        (i : Impl R) (r : Raising Bytes) → P (held i) → Leaves P (send_recognition accepts r i)
    recognition-Leaves i (returned t) p = sent-Leaves i t p
    recognition-Leaves i (raised e) p = leaves_threw p

    pub start-Leaves :
        (i : Impl R) (lm : Option LanguageModelList)
        → P (held i)
        → Leaves P (start_recognition_of accepts lm i)
    unfolding start_recognition_of
    start-Leaves i none p = no_state
    start-Leaves i (some lm) p = recognition-Leaves i (SendMessage.start_recognition lm) p

    parameters-Leaves :
        (i : Impl R) (c : Option Properties) → P (held i) → Leaves P (send_parameters accepts c i)
    parameters-Leaves i none p = start-Leaves i i.lm p
    parameters-Leaves i (some c) p = sent-Leaves i (SendMessage.set_parameters c) p

    dispatch-Leaves :
        (i : Impl R) (m : AsrMessage)
        → P (record (held i) { result = [] })
        → P (held i)
        → Leaves P (dispatch accepts i m)
    unfolding dispatch process_create_session process_set_parameters process_start_recog
        process_cancel_recog notify_one
    dispatch-Leaves i m none_held p =
        let fails = error-Leaves i m p in
        let value = get_header m (header_string method) in
        let bad = not (succeeded m) in
        let header = get_header m (header_string result) in
        let cancel_bad =
          not (contains header (result_string success))
          && not (contains header (result_string invalid_action)) in
        branches (equal value (get_method_string AsrMessage.create_session))
          (branches bad fails (parameters-Leaves i i.config p))
          (branches (equal value (get_method_string AsrMessage.set_parameters))
            (branches bad fails (start-Leaves i i.lm p))
            (branches (equal value (get_method_string AsrMessage.start_recognition))
              (branches bad fails
                (branches (not i.has_audio) (leaves p) (branches i.sending no_state (leaves p))))
              (branches (equal value (get_method_string AsrMessage.cancel_recognition))
                (branches cancel_bad fails (leaves none_held)) (leaves p))))

    -- What is true of the results held and of none is true behind a response.
    pub process_response-Leaves :
        (next : Handler R) (i : Impl R) (m : AsrMessage)
        → P (record (held i) { result = [] })
        → P (held i)
        → Leaves P (next i m)
        → Leaves P (process_response accepts next i m)
    unfolding process_response
    process_response-Leaves next i m none_held p h =
        rw (note_status-same i)
          (if_method-Leaves AsrMessage.response (third m) (dispatch-Leaves i m none_held p) h)
