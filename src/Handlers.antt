-- ===== src/Handlers.antt =====
-- The handlers of responses of src/process_msg.cc: ASRProcessMsg, ASRProcessResponse,
-- ASRProcessStartSpeech and ASRProcessEndSpeech.
pub mod Chain
pub mod Session
pub mod Failure
pub mod Keeping
mod Tests
use asr_sdk_cpp.Base.{
  ℕ, Bool, true, false, not, ◌&&◌, Option, none, some, List, [], ◌∷◌, ◌++◌, Bytes, get_elem?,
  if◌then◌else◌,
}
use asr_sdk_cpp.Text.{codes, equal, empty, contains}
use asr_sdk_cpp.LanguageModelList.{LanguageModelList}
use asr_sdk_cpp.RecognitionConfig.{Properties}
use asr_sdk_cpp.RecognitionError.{RecognitionError, Raising, returned, raised, failure}
use asr_sdk_cpp.AsrMessage
use asr_sdk_cpp.AsrMessage.{AsrMessage, get_method_string, get_header, get_start_line, split}
use asr_sdk_cpp.SendMessage
use asr_sdk_cpp.Recognizer
use asr_sdk_cpp.Recognizer.{
  Impl, on_listening, on_speech_start, on_speech_stop, call_listeners, notify_one,
  recognition_error, send_message,
}

-- A handler returns, throws a RecognitionException, or is undefined: an index out of range, a null
-- pointer, or an assignment to a running thread, which ends the program.
pub data Handled (R : Type 0) : Type 0 where
  handled : Bool → Impl R → Handled R
  threw : RecognitionError → Impl R → Handled R
  undefined : Handled R

abbrev pub Handler : Type 0 → Type 0
Handler R = Impl R → AsrMessage → Handled R

-- getString of ASRProcessResponse
pub data ResponseHeader : Type 0 where
  handle method expires result session_status error_code message : ResponseHeader

unfoldable pub header_string : ResponseHeader → Bytes
header_string handle = codes "Handle"
header_string method = codes "Method"
header_string expires = codes "Expires"
header_string result = codes "Result"
header_string session_status = codes "Session-Status"
header_string error_code = codes "Error-Code"
header_string message = codes "Message"

pub data ResultStatus : Type 0 where
  success failed invalid_action : ResultStatus

unfoldable pub result_string : ResultStatus → Bytes
result_string success = codes "SUCCESS"
result_string failed = codes "FAILURE"
result_string invalid_action = codes "INVALID_ACTION"

abbrev pub succeeded : AsrMessage → Bool
succeeded response = contains (get_header response (header_string result)) (result_string success)

-- `split(response.get_start_line(), ' ')[2]`
abbrev pub third : AsrMessage → Option Bytes
third response = get_elem? (split (get_start_line response) b' ') 2

module _ {R : Type 0} where
  -- ASRProcessResponse::generateError
  unfoldable pub generate_error : Impl R → AsrMessage → Impl R
  generate_error impl response =
      let error_msg = get_header response (header_string error_code) in
      let header = get_header response (header_string message) in
      let error_msg =
        if not (empty header) then error_msg ++ (codes ": " ++ header) else error_msg in
      let header = get_header response (header_string method) in
      recognition_error failure (codes "[" ++ (header ++ (codes "]: " ++ error_msg))) impl

  -- The first part of ASRProcessResponse::handle: the session status. It compares `status`, the
  -- name of the header, as the source does.
  unfoldable pub note_status : Impl R → Impl R
  note_status impl =
      let status = header_string session_status in
      if equal status (codes "IDLE")
      then record impl { session_status = Recognizer.idle }
      else if equal status (codes "LISTENING")
      then call_listeners on_listening (record impl { session_status = Recognizer.listening })
      else if equal status (codes "RECOGNIZING")
      then record impl { session_status = Recognizer.recognizing }
      else impl

  -- A handler's test on the method, with its next handler
  abbrev pub if_method : AsrMessage.Method → Option Bytes → Handled R → Handled R → Handled R
  if_method m none mine next = undefined
  if_method m (some name) mine next =
      if not (contains name (get_method_string m)) then next else mine

  -- ASRProcessStartSpeech::handle and ASRProcessEndSpeech::handle with their next handlers
  unfoldable pub process_start_speech : Handler R → Handler R
  process_start_speech next impl response =
      if_method AsrMessage.start_of_speech (third response)
        (handled true (call_listeners (on_speech_start 0) impl)) (next impl response)

  unfoldable pub process_end_speech : Handler R → Handler R
  process_end_speech next impl response =
      if_method AsrMessage.end_of_speech (third response)
        (handled true (call_listeners (on_speech_stop 0) impl)) (next impl response)

module _ {R : Type 0} (accepts : Bytes → Bool) where
  -- `send_msg_.startRecognition(impl)`, and `return true`
  abbrev pub send_recognition : Raising Bytes → Impl R → Handled R
  send_recognition (returned text) impl = handled true (send_message accepts text impl)
  send_recognition (raised e) impl = threw e impl

  unfoldable pub start_recognition_of : Option LanguageModelList → Impl R → Handled R
  start_recognition_of none impl = undefined
  start_recognition_of (some lm) impl = send_recognition (SendMessage.start_recognition lm) impl

  abbrev pub send_parameters : Option Properties → Impl R → Handled R
  send_parameters none impl = start_recognition_of impl.lm impl
  send_parameters (some config) impl =
      handled true (send_message accepts (SendMessage.set_parameters config) impl)

  -- ASRProcessResponse::createSession
  unfoldable pub process_create_session : Handler R
  process_create_session impl response =
      if not (succeeded response)
      then handled false (generate_error impl response)
      else send_parameters impl.config impl

  -- ASRProcessResponse::setParameters
  unfoldable pub process_set_parameters : Handler R
  process_set_parameters impl response =
      if not (succeeded response)
      then handled false (generate_error impl response)
      else start_recognition_of impl.lm impl

  -- ASRProcessResponse::startRecog
  unfoldable pub process_start_recog : Handler R
  process_start_recog impl response =
      if not (succeeded response)
      then handled false (generate_error impl response)
      else if not impl.has_audio
      then handled false impl
      else if impl.sending
      then undefined
      else handled true (record impl { sending = true })

  -- ASRProcessResponse::cancelRecog
  unfoldable pub process_cancel_recog : Handler R
  process_cancel_recog impl response =
      let header = get_header response (header_string result) in
      if not (contains header (result_string success))
        && not (contains header (result_string invalid_action))
      then handled false (generate_error impl response)
      else handled true (notify_one (record impl { result = []; recognizing = false }))

  -- The rest of ASRProcessResponse::handle
  unfoldable pub dispatch : Handler R
  dispatch impl response =
      let value = get_header response (header_string method) in
      if equal value (get_method_string AsrMessage.create_session)
      then process_create_session impl response
      else if equal value (get_method_string AsrMessage.set_parameters)
      then process_set_parameters impl response
      else if equal value (get_method_string AsrMessage.start_recognition)
      then process_start_recog impl response
      else if equal value (get_method_string AsrMessage.cancel_recognition)
      then process_cancel_recog impl response
      else handled true impl

  -- ASRProcessResponse::handle with its next handler
  unfoldable pub process_response : Handler R → Handler R
  process_response next impl response =
      if_method AsrMessage.response (third response) (dispatch (note_status impl) response)
        (next impl response)

-- ASRProcessMsg::handle with no next handler
unfoldable pub last_handler : {R : Type 0} → Handler R
last_handler impl response = handled false impl

-- ASRProcessMsg::add puts a handler behind the last one of a chain.
unfoldable pub chain : {R : Type 0} → List (Handler R → Handler R) → Handler R
chain [] = last_handler
chain (h ∷ hs) = h (chain hs)
