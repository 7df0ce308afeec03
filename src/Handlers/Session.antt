-- ===== src/Handlers/Session.antt =====
-- What responses do to the state of the recognizer.
use asr_sdk_cpp.Base.{
  ◌≡◌, ◌∙◌, Bool, true, false, not, ◌&&◌, Option, none, some, refl, ap, arith, Bytes, if◌then◌else◌,
}
use asr_sdk_cpp.Text.{contains, equal}
use asr_sdk_cpp.LanguageModelList.{LanguageModelList}
use asr_sdk_cpp.RecognitionConfig.{Properties}
use asr_sdk_cpp.RecognitionError.{Raising, returned, raised}
use asr_sdk_cpp.SendMessage
use asr_sdk_cpp.AsrMessage
use asr_sdk_cpp.AsrMessage.{AsrMessage, Method, get_method_string, get_header}
use asr_sdk_cpp.Recognizer.{
  SessionStatus, Impl, call_listeners, notify_one, recognition_error, send_message,
}
use asr_sdk_cpp.Handlers.{
  Handler, Handled, handled, threw, undefined, header_string, result_string, method, result,
  success, invalid_action, generate_error, succeeded, note_status, dispatch, third,
  process_response, process_create_session, process_set_parameters, process_start_recog,
  process_cancel_recog, start_recognition_of, send_recognition, send_parameters,
}

module _ {R : Type 0} where
  -- The session status behind a handler, if it gives a state
  abbrev pub status_after : Handled R → Option SessionStatus
  status_after (handled b j) = some j.session_status
  status_after (threw e j) = some j.session_status
  status_after undefined = none

  -- The session status is the one before, if the handler gives a state.
  pub data KeepsStatus (i : Impl R) (h : Handled R) : Type 0 where
    same : status_after h ≡ some i.session_status → KeepsStatus i h
    no_state : status_after h ≡ none → KeepsStatus i h

  kept :
      {i : Impl R} {h : Handled R} (s : SessionStatus)
      → status_after h ≡ some s
      → s ≡ i.session_status
      → KeepsStatus i h
  kept s e k = same (e ∙ ap some k)

  pub note_status-same : (i : Impl R) → note_status i ≡ i
  unfolding note_status equal header_string
  note_status-same i = refl

  generate_error-status :
      (i : Impl R) (m : AsrMessage) → (generate_error i m).session_status ≡ i.session_status
  unfolding generate_error recognition_error notify_one call_listeners
  generate_error-status i m = refl

  either :
      (i : Impl R) (b : Bool) (x y : Handled R)
      → KeepsStatus i x
      → KeepsStatus i y
      → KeepsStatus i (if b then x else y)
  either i true x y h k = h
  either i false x y h k = k

  module _ (accepts : Bytes → Bool) where
    send-status :
        (i : Impl R) (t : Bytes) → (send_message accepts t i).session_status ≡ i.session_status
    unfolding send_message notify_one
    send-status i t = ground arith

    recognition-status :
        (i : Impl R) (r : Raising Bytes) → KeepsStatus i (send_recognition accepts r i)
    recognition-status i (returned t) = kept _ refl (send-status i t)
    recognition-status i (raised e) = same refl

    start-status :
        (i : Impl R) (lm : Option LanguageModelList)
        → KeepsStatus i (start_recognition_of accepts lm i)
    unfolding start_recognition_of
    start-status i none = no_state refl
    start-status i (some lm) = recognition-status i (SendMessage.start_recognition lm)

    parameters-status :
        (i : Impl R) (c : Option Properties) → KeepsStatus i (send_parameters accepts c i)
    parameters-status i none = start-status i i.lm
    parameters-status i (some c) = kept _ refl (send-status i (SendMessage.set_parameters c))

    dispatch-status : (i : Impl R) (m : AsrMessage) → KeepsStatus i (dispatch accepts i m)
    unfolding dispatch process_create_session process_set_parameters process_start_recog
        process_cancel_recog notify_one
    dispatch-status i m =
        let fails : KeepsStatus i (handled false (generate_error i m)) =
          kept _ refl (generate_error-status i m) in
        let value = get_header m (header_string method) in
        let bad = not (succeeded m) in
        let header = get_header m (header_string result) in
        let cancel_bad =
          not (contains header (result_string success))
          && not (contains header (result_string invalid_action)) in
        either i (equal value (get_method_string AsrMessage.create_session)) _ _
          (either i bad _ _ fails (parameters-status i i.config))
          (either i (equal value (get_method_string AsrMessage.set_parameters)) _ _
            (either i bad _ _ fails (start-status i i.lm))
            (either i (equal value (get_method_string AsrMessage.start_recognition)) _ _
              (either i bad _ _ fails (
                either i (not i.has_audio) _ _ (same refl)
                  (either i i.sending _ _ (no_state refl) (same refl))))
              (either i (equal value (get_method_string AsrMessage.cancel_recognition)) _ _
                (either i cancel_bad _ _ fails (same refl)) (same refl))))

    -- No response changes the session status, whatever its header Session-Status says: the
    -- handler compares the header's name and not its value.
    pub process_response-KeepsStatus :
        (next : Handler R) (i : Impl R) (m : AsrMessage) {name : Bytes}
        → third m ≡ some name
        → contains name (get_method_string AsrMessage.response) ≡ true
        → KeepsStatus i (process_response accepts next i m)
    unfolding process_response
    process_response-KeepsStatus next i m e h =
        rw e (rw h (rw (note_status-same i) (dispatch-status i m)))
