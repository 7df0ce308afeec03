-- ===== src/Client/Dispatch.antt =====
-- Which handler takes a message that arrives, and a message that none can take.
use asr_sdk_cpp.Base.{◌≡◌, Bool, true, false, some, [], refl, Bytes}
use asr_sdk_cpp.Text.{contains, starts_with, get_lines}
use asr_sdk_cpp.Outcome.{done}
use asr_sdk_cpp.WsParser.{WsParser, parse}
use asr_sdk_cpp.AsrMessage.{
  AsrMessage, Method, create_session, set_parameters, get_parameters, start_recognition,
  start_input_timers, send_audio, cancel_recognition, release_session, response, start_of_speech,
  end_of_speech, recognition_result, get_method_string, first_line, consume, blank, take_parsed,
  get_start_line, split,
}
use asr_sdk_cpp.RecognitionResult.{RecognitionResult}
use asr_sdk_cpp.Recognizer.{Impl, on_speech_start, on_speech_stop, call_listeners}
use asr_sdk_cpp.Handlers.{
  Handler, handled, process_response, process_start_speech, process_end_speech, chain, last_handler,
  dispatch, note_status, if_method,
}
use asr_sdk_cpp.Handlers.Chain.{third_of}
use asr_sdk_cpp.ResultHandler.{Json11, process_result, take_result}
use asr_sdk_cpp.Client.{root, on_message, ignore_value, undefined}

module _ {J D F : Type 0} (accepts : Bytes → Bool) (json11 : Json11 J D F) where
  -- What each method asks for
  abbrev pub effect_of : Method → Handler (RecognitionResult F)
  effect_of response i m = dispatch accepts (note_status i) m
  effect_of recognition_result i m = take_result json11 i m
  effect_of start_of_speech i m = handled true (call_listeners (on_speech_start 0) i)
  effect_of end_of_speech i m = handled true (call_listeners (on_speech_stop 0) i)
  effect_of _ i m = handled false i

  pub root-effect_of :
      (c : Method) (i : Impl (RecognitionResult F)) (m : AsrMessage)
      → m.start_line ≡ first_line c
      → root accepts json11 i m ≡ effect_of c i m
  unfolding chain process_response process_result process_start_speech process_end_speech
      last_handler get_method_string contains starts_with
  root-effect_of c i m e = rw (third_of m c e) (by_method c)
    where
      by_method :
          (c : Method)
          → if_method response (some (get_method_string c)) (dispatch accepts (note_status i) m) (
              if_method recognition_result (some (get_method_string c)) (take_result json11 i m) (
                if_method start_of_speech
                  (some (get_method_string c))
                  (handled true (call_listeners (on_speech_start 0) i))
                  (if_method end_of_speech
                    (some (get_method_string c))
                    (handled true (call_listeners (on_speech_stop 0) i))
                    (handled false i))))
            ≡ effect_of c i m
      by_method create_session = refl
      by_method set_parameters = refl
      by_method get_parameters = refl
      by_method start_recognition = refl
      by_method start_input_timers = refl
      by_method send_audio = refl
      by_method cancel_recognition = refl
      by_method release_session = refl
      by_method response = refl
      by_method start_of_speech = refl
      by_method end_of_speech = refl
      by_method recognition_result = refl

  -- A payload that is read as a message with the start line of a method has the effect of the
  -- handler of that method, wherever it stands in the chain, and leaves the state as it was if
  -- none has it.
  pub on_message-effect_of :
      (c : Method) (payload : Bytes) (i : Impl (RecognitionResult F)) (m : AsrMessage)
      → consume payload blank ≡ done tt m
      → m.start_line ≡ first_line c
      → on_message accepts json11 payload i ≡ ignore_value (effect_of c i m)
  unfolding on_message
  on_message-effect_of c payload i m read e = rw read (rw (root-effect_of c i m e))

  -- A payload that the parser reads as a message with no command makes the callback read outside
  -- the parts of the start line that consume builds, whatever else it holds and whatever the state.
  pub on_message-no_command :
      (payload : Bytes) (p : WsParser) (i : Impl (RecognitionResult F))
      → parse payload ≡ done tt p
      → p.command ≡ []
      → on_message accepts json11 payload i ≡ undefined
  unfolding on_message consume take_parsed chain process_response get_start_line split get_lines
  on_message-no_command payload p i read none = rw read (rw none)
