-- ===== src/SpeechRecognizer/Calls.antt =====
-- The calls of the application keep the invariant.
use asr_sdk_cpp.Base.{Bool, true, false, not, Option, none, List, [], sym, subst, Bytes, ℕ}
use asr_sdk_cpp.LanguageModelList.{LanguageModelList}
use asr_sdk_cpp.RecognitionConfig.{Properties}
use asr_sdk_cpp.RecognitionResult.{RecognitionResult}
use asr_sdk_cpp.SendMessage
use asr_sdk_cpp.Outcome
use asr_sdk_cpp.AsrMessage.{AsrMessage, blank, consume}
use asr_sdk_cpp.Recognizer
use asr_sdk_cpp.Recognizer.{
  Impl, SessionStatus, Pending, Event, call_listeners, notify_one, send_message,
}
use asr_sdk_cpp.Handlers.{Handled, chain, last_handler, start_recognition_of}
use asr_sdk_cpp.Handlers.Keeping.{
  held, Leaves, leaves, leaves_threw, no_state, process_response-Leaves,
  process_start_speech-Leaves, process_end_speech-Leaves, send_message-held, start-Leaves,
}
use asr_sdk_cpp.ResultHandler.{Json11}
use asr_sdk_cpp.ResultHandler.Stored.{Sound, Sound-none, process_result-Leaves}
use asr_sdk_cpp.Client.{root, on_message, ignore_value, handle_consumed}
use asr_sdk_cpp.SpeechRecognizer.{
  Websocket, State, Stepped, stepped, Call, no_call, waiting, not_built, opening, After, then_built,
  then_send, then_reset, returned, recognize, cancel_recognition, close_recognizer, finish_open,
  continue_with, send_first, send_handled, is_not_open, ends_with,
}
use asr_sdk_cpp.SpeechRecognizer.Step.{
  Action, call_recognize, call_wait, call_cancel, call_close, call_reset, wait_ends,
  connection_opened, connection_closed, connection_failed, message_arrived, step, when_free,
  end_of_wait, after_message,
}
use asr_sdk_cpp.SpeechRecognizer.Inv.{
  given_none, given_raised, Inv, inv, Keeps, keeps, keeps_crashed, keeps_undefined,
  keeps_not_enabled, Holds-held, Inv-branches, Keeps-branches, close_impl-Inv, connect_later-Inv,
  ends-Inv, held-Inv, call_failed-Inv, begin_open-Inv, reset_impl-Keeps, events-Inv, wait-Keeps,
  finish_wait-Keeps,
}

module _ {J D F : Type 0} (accepts : Bytes → Bool) (json11 : Json11 J D F) where
  module _ {Q : List ℕ → Option Properties → Type 0} where
    -- The chain of the handlers
    root-Leaves :
        (i : Impl (RecognitionResult F)) (m : AsrMessage)
        → Sound Q (held i)
        → Leaves (Sound Q) (root accepts json11 i m)
    unfolding chain last_handler
    root-Leaves i m h = process_response-Leaves accepts _ i m (Sound-none (held i) h) h (
        process_result-Leaves json11 _ i m h
          (process_start_speech-Leaves _ i m h (process_end_speech-Leaves _ i m h (leaves h))))

module _ {F : Type 0} {Q : List ℕ → Option Properties → Type 0} (ws : Websocket) where
  send_handled-Keeps :
      (x : Handled (RecognitionResult F)) (s : State (RecognitionResult F))
      → Leaves (Sound Q) x
      → Inv Q s
      → Keeps Q (send_handled ws x s)
  send_handled-Keeps _ s (leaves g) h = keeps _ (ends-Inv returned _ given_none (held-Inv _ s g h))
  send_handled-Keeps _ s (leaves_threw g) h =
      keeps _ (ends-Inv _ _ (given_raised _) (held-Inv _ s g h))
  send_handled-Keeps _ s no_state h = keeps_undefined

  sent-Inv :
      (t : Bytes) (s : State (RecognitionResult F))
      → Inv Q s
      → Inv Q (record s { impl = send_message ws.accepts t s.impl })
  sent-Inv t s (inv h) =
      held-Inv _ s (subst (Sound Q) (sym (send_message-held ws.accepts s.impl t)) h.sound) (inv h)

  create-Keeps :
      (s : State (RecognitionResult F))
      → Inv Q s
      → Keeps Q (
          stepped (
            ends_with returned
              (record s { impl = send_message ws.accepts SendMessage.create_session s.impl })))
  create-Keeps s h = keeps _ (ends-Inv returned _ given_none (sent-Inv _ s h))

  started-Keeps :
      (s : State (RecognitionResult F))
      → Inv Q s
      → Keeps Q (send_handled ws (start_recognition_of ws.accepts s.impl.lm s.impl) s)
  started-Keeps s (inv h) =
      send_handled-Keeps _ s (start-Leaves ws.accepts s.impl s.impl.lm h.sound) (inv h)

  send_first-Keeps :
      (st : SessionStatus) (s : State (RecognitionResult F))
      → Inv Q s
      → Keeps Q (send_first ws st s)
  unfolding send_first
  send_first-Keeps Recognizer.none_yet s h = create-Keeps s h
  send_first-Keeps Recognizer.idle s h = started-Keeps s h
  send_first-Keeps Recognizer.listening s h = started-Keeps s h
  send_first-Keeps Recognizer.recognizing s h = started-Keeps s h

  continue_with-Keeps :
      (a : After) (s : State (RecognitionResult F)) → Inv Q s → Keeps Q (continue_with ws a s)
  unfolding continue_with
  continue_with-Keeps then_built s h =
      keeps _ (ends-Inv returned _ given_none (connect_later-Inv s h))
  continue_with-Keeps then_send s h = send_first-Keeps _ s h
  continue_with-Keeps then_reset s h =
      keeps _ (ends-Inv returned _ given_none (connect_later-Inv s h))

  listeners-Inv :
      (e : Event (RecognitionResult F)) (s : State (RecognitionResult F))
      → Inv Q s
      → Inv Q (record s { impl = call_listeners e s.impl })
  unfolding call_listeners
  listeners-Inv e s (inv h) = inv h

  opened-Inv : (s : State (RecognitionResult F)) → Inv Q s → Inv Q (record s { is_open = true })
  opened-Inv s (inv h) = inv h

  finish_open-Keeps :
      (a : After) (s : State (RecognitionResult F)) → Inv Q s → Keeps Q (finish_open ws a s)
  unfolding finish_open
  finish_open-Keeps a s h =
      Keeps-branches (is_not_open s.status)
        (keeps _ (call_failed-Inv a _ _ (given_raised _) (listeners-Inv _ s h)))
        (continue_with-Keeps a _ (opened-Inv s h))

  started-Inv :
      (lm : Option LanguageModelList) (has_audio : Bool) (s : State (RecognitionResult F))
      → Inv Q s
      → Inv Q (record s {
        impl = record (s.impl) {
          recognizing = true;
          eptr = none;
          result = [];
          has_audio = has_audio;
          lm = lm;
        };
      })
  started-Inv lm has_audio s (inv h) = inv (Holds-held h (Sound-none (held s.impl) h.sound))

  recognize-Keeps :
      (lm : Option LanguageModelList) (has_audio : Bool) (s : State (RecognitionResult F))
      → Inv Q s
      → Keeps Q (recognize ws lm has_audio s)
  unfolding recognize
  recognize-Keeps lm has_audio s h =
      let begun = started-Inv lm has_audio s h in
      Keeps-branches s.impl.recognizing (keeps _ (ends-Inv _ s (given_raised _) h)) (
        Keeps-branches (not s.is_open) (keeps _ (begin_open-Inv ws _ _ begun))
          (send_first-Keeps _ _ begun))

  cancel-Inv : (s : State (RecognitionResult F)) → Inv Q s → Inv Q (cancel_recognition ws s)
  unfolding cancel_recognition
  cancel-Inv s h =
      let sent = stopped _ (sent-Inv _ s h) in
      ends-Inv returned _ given_none (Inv-branches _ _ _ (close_impl-Inv _ sent) sent)
    where
      stopped :
          (t : State (RecognitionResult F))
          → Inv Q t
          → Inv Q (record t { impl = record (t.impl) { sending = false } })
      stopped t (inv k) = inv k

  close-Inv : (s : State (RecognitionResult F)) → Inv Q s → Inv Q (close_recognizer s)
  unfolding close_recognizer
  close-Inv s h =
      ends-Inv returned _ given_none (Inv-branches (not s.is_open) _ _ h (close_impl-Inv s h))

  module _ (q : Q [] none) where
    when_free-Keeps :
        (c : Call) {x : Stepped (RecognitionResult F)} → Keeps Q x → Keeps Q (when_free c x)
    when_free-Keeps no_call k = k
    when_free-Keeps waiting k = keeps_not_enabled
    when_free-Keeps not_built k = keeps_not_enabled
    when_free-Keeps (opening a) k = keeps_not_enabled

    end_of_wait-Keeps :
        (c : Call) (s : State (RecognitionResult F)) → Inv Q s → Keeps Q (end_of_wait ws c s)
    end_of_wait-Keeps no_call s h = keeps_not_enabled
    end_of_wait-Keeps not_built s h = keeps_not_enabled
    end_of_wait-Keeps waiting s h = finish_wait-Keeps s h
    end_of_wait-Keeps (opening a) s h = finish_open-Keeps a s h

    -- Every step keeps the invariant, if it gives a state.
    pub step-Keeps :
        {J D : Type 0} (json11 : Json11 J D F) (a : Action) (s : State (RecognitionResult F))
        → Inv Q s
        → Keeps Q (step ws json11 a s)
    unfolding step on_message
    step-Keeps json11 (call_recognize lm audio) s h =
        when_free-Keeps s.call (recognize-Keeps lm audio s h)
    step-Keeps json11 call_wait s h = when_free-Keeps s.call (wait-Keeps s h)
    step-Keeps json11 call_cancel s h = when_free-Keeps s.call (keeps _ (cancel-Inv s h))
    step-Keeps json11 call_close s h = when_free-Keeps s.call (keeps _ (close-Inv s h))
    step-Keeps json11 call_reset s h = when_free-Keeps s.call (reset_impl-Keeps q ws s h)
    step-Keeps json11 wait_ends s h = end_of_wait-Keeps s.call s h
    step-Keeps json11 connection_opened s h = keeps _ (events-Inv s h).0
    step-Keeps json11 connection_closed s h = keeps _ (events-Inv s h).1.0
    step-Keeps json11 connection_failed s h = keeps _ (events-Inv s h).1.1
    step-Keeps json11 (message_arrived payload) s (inv h) = read_as (consume payload blank)
      where
        behind :
            (x : Handled (RecognitionResult F))
            → Leaves (Sound Q) x
            → Keeps Q (after_message (ignore_value x) s)
        behind _ (leaves g) = keeps _ (held-Inv _ s g (inv h))
        behind _ (leaves_threw g) = keeps_crashed
        behind _ no_state = keeps_undefined

        read_as :
            (x : Outcome.Outcome AsrMessage (Unit {0}))
            → Keeps Q (after_message (handle_consumed ws.accepts json11 x s.impl) s)
        read_as (Outcome.done _ m) = behind _ (root-Leaves ws.accepts json11 s.impl m h.sound)
        read_as (Outcome.threw e m) = keeps_crashed
        read_as Outcome.undefined = keeps_undefined
