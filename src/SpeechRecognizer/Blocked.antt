-- ===== src/SpeechRecognizer/Blocked.antt =====
-- A recognition that fails while it runs: until a message arrives or resetImpl is called, no other
-- can be started.
use asr_sdk_cpp.Base.{arith, ◌≡◌, ◌∙◌, ap, Bool, true, false, Option, sym, subst}
use asr_sdk_cpp.LanguageModelList.{LanguageModelList}
use asr_sdk_cpp.RecognitionResult.{RecognitionResult}
use asr_sdk_cpp.ResultHandler.{Json11}
use asr_sdk_cpp.SpeechRecognizer
use asr_sdk_cpp.SpeechRecognizer.{
  Websocket, State, Stepped, stepped, crashed, not_enabled, Call, no_call, waiting, not_built,
  opening, After, then_built, then_send, then_reset, CallOutcome, recognize,
  wait_recognition_result, cancel_recognition, close_recognizer, finish_open, finish_wait, on_open,
  on_close, on_fail, take_results, give_results, begin_open, continue_with, call_failed, send_first,
  send_handled, close_impl, connect_later, terminate_send_message_thread, is_not_open, is_over,
  ends_with, active_error,
}
use asr_sdk_cpp.SpeechRecognizer.Step.{
  Action, call_recognize, call_wait, call_cancel, call_close, call_reset, wait_ends,
  connection_opened, connection_closed, connection_failed, message_arrived, step, when_free,
  end_of_wait,
}
use asr_sdk_cpp.SpeechRecognizer.Stuck.{
  Stuck, Stays, stays, stays_not_enabled, ends-Stuck, close-Stuck, events-Stuck, finish_open-Stays,
  wait-Stays, finish_wait-Stays, cancel-Stuck, recognize-Stuck,
}

-- Is the action a message that arrives, or a call of resetImpl?
abbrev pub clears : Action → Bool
clears (message_arrived payload) = true
clears call_reset = true
clears _ = false

module _ {J D F : Type 0} (ws : Websocket) (json11 : Json11 J D F) where
  -- The states that steps with no message and no call of resetImpl lead to
  pub data QuietReach (s : State (RecognitionResult F)) : State (RecognitionResult F) → Type 0 where
    here : QuietReach s s
    there :
        {t u : State (RecognitionResult F)} (a : Action)
        → clears a ≡ false
        → QuietReach s t
        → step ws json11 a t ≡ stepped u
        → QuietReach s u

  when_free-Stays : (c : Call) {x : Stepped (RecognitionResult F)} → Stays x → Stays (when_free c x)
  when_free-Stays no_call h = h
  when_free-Stays waiting h = stays_not_enabled
  when_free-Stays not_built h = stays_not_enabled
  when_free-Stays (opening a) h = stays_not_enabled

  end_of_wait-Stays :
      (c : Call) (s : State (RecognitionResult F)) → Stuck s → Stays (end_of_wait ws c s)
  end_of_wait-Stays no_call s h = stays_not_enabled
  end_of_wait-Stays not_built s h = stays_not_enabled
  end_of_wait-Stays waiting s h = finish_wait-Stays s h
  end_of_wait-Stays (opening a) s h = finish_open-Stays ws a s h

  step-Stays :
      (a : Action) (s : State (RecognitionResult F))
      → clears a ≡ false
      → Stuck s
      → Stays (step ws json11 a s)
  unfolding step
  step-Stays (call_recognize lm audio) s q h =
      when_free-Stays s.call
        (subst Stays (sym (recognize-Stuck ws lm audio s h)) (stays _ (ends-Stuck _ s h)))
  step-Stays call_wait s q h = when_free-Stays s.call (wait-Stays s h)
  step-Stays call_cancel s q h = when_free-Stays s.call (stays _ (cancel-Stuck ws s h))
  step-Stays call_close s q h = when_free-Stays s.call (stays _ (close-Stuck s h))
  step-Stays call_reset s q h = absurd (ground arith)
  step-Stays wait_ends s q h = end_of_wait-Stays s.call s h
  step-Stays connection_opened s q h = stays _ (events-Stuck s h).0
  step-Stays connection_closed s q h = stays _ (events-Stuck s h).1.0
  step-Stays connection_failed s q h = stays _ (events-Stuck s h).1.1
  step-Stays (message_arrived payload) s q h = absurd (ground arith)

  stayed :
      {x : Stepped (RecognitionResult F)} {t : State (RecognitionResult F)}
      → x ≡ stepped t
      → Stays x
      → Stuck t
  stayed {x} {t} e h = of_stepped (subst Stays e h)
    where
      of_stepped : Stays (stepped t) → Stuck t
      of_stepped (stays _ k) = k

  QuietReach-Stuck : {s t : State (RecognitionResult F)} → Stuck s → QuietReach s t → Stuck t
  QuietReach-Stuck h here = h
  QuietReach-Stuck h (there a q r e) = stayed e (step-Stays a _ q (QuietReach-Stuck h r))

  -- Once an error waits for the application while the recognition counts as running, and until a
  -- message arrives or resetImpl is called, every call that starts a recognition only reports that
  -- one is running, whatever else was called before it: the error is never cleared.
  pub QuietReach-recognize :
      {s t : State (RecognitionResult F)} (lm : Option LanguageModelList) (has_audio : Bool)
      → Stuck s
      → QuietReach s t
      → t.call ≡ no_call
      → step ws json11 (call_recognize lm has_audio) t
        ≡ stepped (ends_with (SpeechRecognizer.raised active_error) t)
  unfolding step
  QuietReach-recognize {t} lm has_audio h r free =
      ap (λ c. when_free c (recognize ws lm has_audio t)) free
      ∙ recognize-Stuck ws lm has_audio t (QuietReach-Stuck h r)
