-- ===== src/SpeechRecognizer/Step.antt =====
-- The steps of the machine: calls of the application, ends of waits, and events of the connection.
use asr_sdk_cpp.Base.{◌≡◌, Bool, Option, Bytes}
use asr_sdk_cpp.LanguageModelList.{LanguageModelList}
use asr_sdk_cpp.RecognitionResult.{RecognitionResult}
use asr_sdk_cpp.ResultHandler.{Json11}
use asr_sdk_cpp.Client
use asr_sdk_cpp.Client.{Received, on_message}
use asr_sdk_cpp.SpeechRecognizer.{
  Websocket, State, Stepped, stepped, crashed, not_enabled, Call, no_call, waiting, not_built,
  opening, undefined, reset_impl, recognize, wait_recognition_result, cancel_recognition,
  close_recognizer, finish_open, finish_wait, on_open, on_close, on_fail,
}

-- A call of the application, the end of the wait of a call that blocks, or an event of the
-- connection
pub data Action : Type 0 where
  call_recognize : Option LanguageModelList → Bool → Action
  call_wait call_cancel call_close call_reset : Action
  wait_ends : Action
  connection_opened connection_closed connection_failed : Action
  message_arrived : Bytes → Action

module _ {F : Type 0} where
  -- A call of the application, when no other blocks
  abbrev pub when_free : Call → Stepped (RecognitionResult F) → Stepped (RecognitionResult F)
  when_free no_call x = x
  when_free _ x = not_enabled

  -- An exception that leaves the callback ends the program.
  abbrev pub after_message :
      Received (RecognitionResult F) → State (RecognitionResult F) → Stepped (RecognitionResult F)
  after_message (Client.received i) s = stepped (record s { impl = i })
  after_message (Client.escaped e i) s = crashed
  after_message Client.undefined s = undefined

module _ {F : Type 0} (ws : Websocket) where
  abbrev pub end_of_wait : Call → State (RecognitionResult F) → Stepped (RecognitionResult F)
  end_of_wait no_call s = not_enabled
  end_of_wait not_built s = not_enabled
  end_of_wait waiting s = finish_wait s
  end_of_wait (opening after) s = finish_open ws after s

module _ {J D F : Type 0} (ws : Websocket) (json11 : Json11 J D F) where
  unfoldable pub step : Action → State (RecognitionResult F) → Stepped (RecognitionResult F)
  step (call_recognize lm has_audio) s = when_free s.call (recognize ws lm has_audio s)
  step call_wait s = when_free s.call (wait_recognition_result s)
  step call_cancel s = when_free s.call (stepped (cancel_recognition ws s))
  step call_close s = when_free s.call (stepped (close_recognizer s))
  step call_reset s = when_free s.call (reset_impl ws s)
  step wait_ends s = end_of_wait ws s.call s
  step connection_opened s = stepped (on_open s)
  step connection_closed s = stepped (on_close s)
  step connection_failed s = stepped (on_fail s)
  step (message_arrived payload) s = after_message (on_message ws.accepts json11 payload s.impl) s

  -- The states that a sequence of steps leads to
  pub data Reach (s : State (RecognitionResult F)) : State (RecognitionResult F) → Type 0 where
    here : Reach s s
    there :
        {t u : State (RecognitionResult F)} (a : Action)
        → Reach s t
        → step a t ≡ stepped u
        → Reach s u
