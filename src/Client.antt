-- ===== src/Client.antt =====
-- The callback for messages of src/websocket_client.h: WsClient::on_message.
pub mod Dispatch
pub mod Segments
mod Tests
use asr_sdk_cpp.Base.{List, [], ◌∷◌, Bytes, Bool}
use asr_sdk_cpp.Outcome
use asr_sdk_cpp.Outcome.{Outcome, Exception}
use asr_sdk_cpp.RecognitionError.{RecognitionError}
use asr_sdk_cpp.AsrMessage.{AsrMessage, blank, consume}
use asr_sdk_cpp.RecognitionResult.{RecognitionResult}
use asr_sdk_cpp.Recognizer.{Impl}
use asr_sdk_cpp.Handlers
use asr_sdk_cpp.Handlers.{
  Handled, Handler, chain, process_response, process_start_speech, process_end_speech,
}
use asr_sdk_cpp.ResultHandler.{Json11, process_result}

-- What leaves the callback: an exception of the parser or of a request that a handler builds.
pub data Thrown : Type 0 where
  by_parser : Exception → Thrown
  by_request : RecognitionError → Thrown

pub data Received (R : Type 0) : Type 0 where
  received : Impl R → Received R
  escaped : Thrown → Impl R → Received R
  undefined : Received R

-- What a handler does, as what the callback does: the value that it returns is not used.
abbrev pub ignore_value : {R : Type 0} → Handled R → Received R
ignore_value (Handlers.handled b impl) = received impl
ignore_value (Handlers.threw e impl) = escaped (by_request e) impl
ignore_value Handlers.undefined = undefined

module _ {J D F : Type 0} (accepts : Bytes → Bool) (json11 : Json11 J D F) where
  -- The chain that on_message builds
  abbrev pub root : Handler (RecognitionResult F)
  root = chain (
      process_response accepts
      ∷ process_result json11
      ∷ process_start_speech
      ∷ process_end_speech
      ∷ [])

  -- The handlers behind `response.consume(payload)`
  abbrev pub handle_consumed :
      Outcome AsrMessage (Unit {0}) → Impl (RecognitionResult F) → Received (RecognitionResult F)
  handle_consumed (Outcome.done _ response) impl = ignore_value (root impl response)
  handle_consumed (Outcome.threw e _) impl = escaped (by_parser e) impl
  handle_consumed Outcome.undefined impl = undefined

  -- WsClient::on_message
  unfoldable pub on_message : Bytes → Impl (RecognitionResult F) → Received (RecognitionResult F)
  on_message payload impl = handle_consumed (consume payload blank) impl
