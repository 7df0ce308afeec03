-- ===== src/SpeechRecognizer/Stuck.antt =====
-- What the calls do while a recognition counts as running and an error waits for the application.
use asr_sdk_cpp.Base.{
  ◌≡◌, Bool, true, false, not, Option, none, some, [], ◌∷◌, ◌++◌, refl, Bytes, if◌then◌else◌,
}
use asr_sdk_cpp.LanguageModelList.{LanguageModelList}
use asr_sdk_cpp.RecognitionError.{RecognitionError, Raising, returned, raised}
use asr_sdk_cpp.SendMessage
use asr_sdk_cpp.AsrMessage
use asr_sdk_cpp.AsrMessage.{raw, request}
use asr_sdk_cpp.Recognizer
use asr_sdk_cpp.Recognizer.{
  Impl, SessionStatus, Pending, Event, call_listeners, notify_one, send_message,
}
use asr_sdk_cpp.Handlers
use asr_sdk_cpp.Handlers.{Handled, start_recognition_of, send_recognition}
use asr_sdk_cpp.SpeechRecognizer
use asr_sdk_cpp.SpeechRecognizer.{
  Websocket, State, Stepped, stepped, crashed, not_enabled, Call, no_call, waiting, not_built,
  opening, After, then_built, then_send, then_reset, undefined, CallOutcome, recognize,
  wait_recognition_result, cancel_recognition, close_recognizer, finish_open, finish_wait, on_open,
  on_close, on_fail, take_results, give_results, begin_open, continue_with, call_failed, send_first,
  send_handled, close_impl, connect_later, terminate_send_message_thread, is_not_open, is_over,
  ends_with, active_error,
}

-- The recognition counts as running, and an error waits for the application.
pub data IsStuck : Bool → Option Pending → Type 0 where
  is_stuck : (e : Pending) → IsStuck true (some e)

with_error : {b : Bool} {e : Option Pending} (p : Pending) → IsStuck b e → IsStuck b (some p)
with_error p (is_stuck _) = is_stuck p

module _ {R : Type 0} where
  pub data Stuck (s : State R) : Type 0 where
    stuck : IsStuck s.impl.recognizing s.impl.eptr → Stuck s

  -- The same behind a step, if it gives a state
  pub data Stays : Stepped R → Type 0 where
    stays : (s : State R) → Stuck s → Stays (stepped s)
    stays_crashed : Stays crashed
    stays_undefined : Stays undefined
    stays_not_enabled : Stays not_enabled

  data Held : Handled R → Type 0 where
    held : {b : Bool} {i : Impl R} → IsStuck i.recognizing i.eptr → Held (Handlers.handled b i)
    held_threw :
        {e : RecognitionError} {i : Impl R}
        → IsStuck i.recognizing i.eptr
        → Held (Handlers.threw e i)
    held_undefined : Held Handlers.undefined

  either : (b : Bool) (s t : State R) → Stuck s → Stuck t → Stuck (if b then s else t)
  either true s t h k = h
  either false s t h k = k

  either_step : (b : Bool) {x y : Stepped R} → Stays x → Stays y → Stays (if b then x else y)
  either_step true h k = h
  either_step false h k = k

  pub ends-Stuck : (o : CallOutcome R) (s : State R) → Stuck s → Stuck (ends_with o s)
  ends-Stuck o s (stuck h) = stuck h

  terminate-Stuck : (s : State R) → Stuck s → Stuck (terminate_send_message_thread s)
  unfolding terminate_send_message_thread
  terminate-Stuck s (stuck h) = stuck h

  close_impl-Stuck : (s : State R) → Stuck s → Stuck (close_impl s)
  unfolding close_impl terminate_send_message_thread
  close_impl-Stuck s (stuck h) = stuck h

  pub close-Stuck : (s : State R) → Stuck s → Stuck (close_recognizer s)
  unfolding close_recognizer
  close-Stuck s h =
      ends-Stuck SpeechRecognizer.returned _
        (either (not s.is_open) s (close_impl s) h (close_impl-Stuck s h))

  connect_later-Stuck : (s : State R) → Stuck s → Stuck (connect_later s)
  unfolding connect_later
  connect_later-Stuck s (stuck h) = stuck h

  listeners-Stuck :
      (e : Event R) (s : State R) → Stuck s → Stuck (record s { impl = call_listeners e s.impl })
  unfolding call_listeners
  listeners-Stuck e s (stuck h) = stuck h

  pub events-Stuck :
      (s : State R) → Stuck s → Stuck (on_open s) × (Stuck (on_close s) × Stuck (on_fail s))
  unfolding on_open on_close on_fail notify_one
  events-Stuck s (stuck h) = (stuck h, (stuck h, stuck (with_error Recognizer.transport h)))

  call_failed-Stuck :
      (a : After) (e : CallOutcome R) (s : State R) → Stuck s → Stuck (call_failed a e s)
  call_failed-Stuck then_built e s (stuck h) = stuck h
  call_failed-Stuck then_send e s (stuck h) = stuck h
  call_failed-Stuck then_reset e s (stuck h) = stuck h

  take_results-Stays : (s : State R) → Stuck s → Stays (take_results s)
  unfolding take_results
  take_results-Stays s (stuck h) = given h (stuck h)
    where
      given :
          {b : Bool} {e : Option Pending} {t : State R}
          → IsStuck b e
          → Stuck t
          → Stays (give_results s.impl.result e t)
      given {t} (is_stuck e) k = stays _ (ends-Stuck (SpeechRecognizer.rethrown e) t k)

  pub wait-Stays : (s : State R) → Stuck s → Stays (wait_recognition_result s)
  unfolding wait_recognition_result
  wait-Stays s h = either_step (not s.is_open) (take_results-Stays s h) (stays _ (blocked h))
    where
      blocked : Stuck s → Stuck (record s { call = waiting })
      blocked (stuck k) = stuck k

  pub finish_wait-Stays : (s : State R) → Stuck s → Stays (finish_wait s)
  unfolding finish_wait
  finish_wait-Stays s h =
      either_step (is_over s.impl) (take_results-Stays _ (terminate-Stuck s h))
        (stays _ (ends-Stuck _ s h))

  module _ (ws : Websocket) where
    sent-Held :
        (t : Bytes) (i : Impl R)
        → IsStuck i.recognizing i.eptr
        → IsStuck (send_message ws.accepts t i).recognizing (send_message ws.accepts t i).eptr
    unfolding send_message notify_one
    sent-Held t i h = by_answer (ws.accepts t)
      where
        after : Bool → Impl R
        after b =
            if b
            then record i { sent = i.sent ++ t ∷ [] }
            else notify_one (record i { eptr = some Recognizer.transport })

        by_answer : (b : Bool) → IsStuck (after b).recognizing (after b).eptr
        by_answer true = h
        by_answer false = with_error Recognizer.transport h

    recognition-Held :
        (i : Impl R) (x : Raising Bytes)
        → IsStuck i.recognizing i.eptr
        → Held (send_recognition ws.accepts x i)
    recognition-Held i (returned t) h = held (sent-Held t i h)
    recognition-Held i (raised e) h = held_threw h

    start-Held :
        (i : Impl R) (lm : Option LanguageModelList)
        → IsStuck i.recognizing i.eptr
        → Held (start_recognition_of ws.accepts lm i)
    unfolding start_recognition_of
    start-Held i none h = held_undefined
    start-Held i (some lm) h = recognition-Held i (SendMessage.start_recognition lm) h

    send_handled-Stays : (x : Handled R) (s : State R) → Held x → Stays (send_handled ws x s)
    send_handled-Stays _ s (held h) = stays _ (stuck h)
    send_handled-Stays _ s (held_threw h) = stays _ (stuck h)
    send_handled-Stays _ s held_undefined = stays_undefined

    send_first-Stays : (st : SessionStatus) (s : State R) → Stuck s → Stays (send_first ws st s)
    unfolding send_first
    send_first-Stays Recognizer.none_yet s (stuck h) =
        stays _ (stuck (sent-Held SendMessage.create_session s.impl h))
    send_first-Stays Recognizer.idle s (stuck h) =
        send_handled-Stays _ s (start-Held s.impl s.impl.lm h)
    send_first-Stays Recognizer.listening s (stuck h) =
        send_handled-Stays _ s (start-Held s.impl s.impl.lm h)
    send_first-Stays Recognizer.recognizing s (stuck h) =
        send_handled-Stays _ s (start-Held s.impl s.impl.lm h)

    continue_with-Stays : (a : After) (s : State R) → Stuck s → Stays (continue_with ws a s)
    unfolding continue_with
    continue_with-Stays then_built s h = stays _ (ends-Stuck _ _ (connect_later-Stuck s h))
    continue_with-Stays then_send s h = send_first-Stays s.impl.session_status s h
    continue_with-Stays then_reset s h = stays _ (ends-Stuck _ _ (connect_later-Stuck s h))

    pub finish_open-Stays : (a : After) (s : State R) → Stuck s → Stays (finish_open ws a s)
    unfolding finish_open
    finish_open-Stays a s h =
        either_step (is_not_open s.status)
          (stays _ (call_failed-Stuck a _ _ (listeners-Stuck _ s h)))
          (continue_with-Stays a _ (opened h))
      where
        opened : Stuck s → Stuck (record s { is_open = true })
        opened (stuck k) = stuck k

    pub cancel-Stuck : (s : State R) → Stuck s → Stuck (cancel_recognition ws s)
    unfolding cancel_recognition
    cancel-Stuck s (stuck h) =
        let message = raw (request AsrMessage.cancel_recognition) in
        let sent = stopped (send_message ws.accepts message s.impl) (sent-Held message s.impl h) in
        ends-Stuck SpeechRecognizer.returned _ (either _ _ _ (close_impl-Stuck _ sent) sent)
      where
        stopped :
            (i : Impl R)
            → IsStuck i.recognizing i.eptr
            → Stuck (record s { impl = record i { sending = false } })
        stopped i k = stuck k

    -- A recognition that runs is not started again: the call reports it and changes nothing else.
    pub recognize-Stuck :
        (lm : Option LanguageModelList) (has_audio : Bool) (s : State R)
        → Stuck s
        → recognize ws lm has_audio s ≡ stepped (ends_with (SpeechRecognizer.raised active_error) s)
    unfolding recognize
    recognize-Stuck lm has_audio s (stuck h) = rw (running h)
      where
        running : {b : Bool} {e : Option Pending} → IsStuck b e → b ≡ true
        running (is_stuck e) = refl
