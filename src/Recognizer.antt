-- ===== src/Recognizer.antt =====
-- The state of SpeechRecognizer::Impl of src/speech_recog_impl.{h,cc}, as far as the handlers of
-- responses use it, and its calls on the listeners and the websocket.
-- `R` is the type of the results.
use asr_sdk_cpp.Base.{ℕ, ◌+◌, Bool, Option, some, List, [], ◌∷◌, ◌++◌, Bytes, if◌then◌else◌}
use asr_sdk_cpp.LanguageModelList.{LanguageModelList}
use asr_sdk_cpp.RecognitionConfig.{Properties}
use asr_sdk_cpp.RecognitionResult.{PartialRecognition}
use asr_sdk_cpp.RecognitionError.{RecognitionError, Code}

-- Impl::SessionStatus
pub data SessionStatus : Type 0 where
  none_yet idle listening recognizing : SessionStatus

-- The calls of a RecognitionListener
pub data Event (R : Type 0) : Type 0 where
  on_listening : Event R
  on_speech_start on_speech_stop : ℕ → Event R
  on_error : RecognitionError → Event R
  on_recognition_result : R → Event R
  on_partial_recognition : PartialRecognition → Event R

-- What `eptr_` holds: an error of the recognition, or an exception of the websocket.
pub data Pending : Type 0 where
  recognition : RecognitionError → Pending
  transport : Pending

-- `sending` says that `sendAudioMessage_thread_` is joinable; `called` are the calls made on the
-- listeners, `sent` the texts given to the websocket, `notified` the calls of notify_one.
pub record Impl (R : Type 0) : Type 0 where
  pub session_status : SessionStatus
  pub recognizing : Bool
  pub sending : Bool
  pub has_audio : Bool
  pub config : Option Properties
  pub lm : Option LanguageModelList
  pub listener : List ℕ
  pub result : List R
  pub eptr : Option Pending
  pub called : List (ℕ × Event R)
  pub sent : List Bytes
  pub notified : ℕ

module _ {R : Type 0} where
  -- `for (auto &listener : listener_)`, one call on each
  abbrev pub calls_of : List ℕ → Event R → List (ℕ × Event R)
  calls_of [] e = []
  calls_of (l ∷ ls) e = (l, e) ∷ calls_of ls e

  unfoldable pub call_listeners : Event R → Impl R → Impl R
  call_listeners e i = record i { called = i.called ++ calls_of i.listener e }

  unfoldable pub notify_one : Impl R → Impl R
  notify_one i = record i { notified = i.notified + 1 }

  -- Impl::recognitionError
  unfoldable pub recognition_error : Code → Bytes → Impl R → Impl R
  recognition_error code message i =
      let error : RecognitionError = record { code = code; message = message } in
      notify_one (record (call_listeners (on_error error) i) { eptr = some (recognition error) })

  -- Impl::sendMessage with WsClient::send_msg: `accepts` says whether the websocket takes the text
  -- or throws.
  unfoldable pub send_message : (Bytes → Bool) → Bytes → Impl R → Impl R
  send_message accepts text i =
      if accepts text
      then record i { sent = i.sent ++ text ∷ [] }
      else notify_one (record i { eptr = some transport })
