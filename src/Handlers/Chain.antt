-- ===== src/Handlers/Chain.antt =====
-- Which handler of the chain takes a message.
use asr_sdk_cpp.Base.{◌≡◌, Bool, true, false, some, List, [], ◌∷◌, refl, Bytes, get_elem?}
use asr_sdk_cpp.Text.{contains, starts_with, get_lines}
use asr_sdk_cpp.AsrMessage.{
  AsrMessage, Method, create_session, set_parameters, get_parameters, start_recognition,
  start_input_timers, send_audio, cancel_recognition, release_session, response, start_of_speech,
  end_of_speech, recognition_result, get_method_string, get_start_line, split, first_line,
}
use asr_sdk_cpp.Recognizer.{Impl, on_speech_start, on_speech_stop, call_listeners}
use asr_sdk_cpp.Handlers.{
  Handler, handled, process_response, process_start_speech, process_end_speech, chain, last_handler,
  dispatch, note_status, third, if_method,
}

pub third_of :
    (m : AsrMessage) (c : Method)
    → m.start_line ≡ first_line c
    → third m ≡ some (get_method_string c)
unfolding get_start_line split first_line get_method_string get_lines
third_of m c e = rw e (word c)
  where
    word : (c : Method) → get_elem? (get_lines b' ' (first_line c)) 2 ≡ some (get_method_string c)
    word create_session = refl
    word set_parameters = refl
    word get_parameters = refl
    word start_recognition = refl
    word start_input_timers = refl
    word send_audio = refl
    word cancel_recognition = refl
    word release_session = refl
    word response = refl
    word start_of_speech = refl
    word end_of_speech = refl
    word recognition_result = refl

module _ {R : Type 0} (accepts : Bytes → Bool) where
  -- What each method asks for
  abbrev pub outcome_of : Method → Handler R
  outcome_of response i m = dispatch accepts (note_status i) m
  outcome_of start_of_speech i m = handled true (call_listeners (on_speech_start 0) i)
  outcome_of end_of_speech i m = handled true (call_listeners (on_speech_stop 0) i)
  outcome_of _ i m = handled false i

  abbrev pub handlers : List (Handler R → Handler R)
  handlers = process_response accepts ∷ process_start_speech ∷ process_end_speech ∷ []

  -- A message with the start line of a method is taken by the handler of that method, wherever it
  -- stands in the chain of the three, and by none, with the state as it was, if none has it.
  pub chain-outcome_of :
      (c : Method) (i : Impl R) (m : AsrMessage)
      → m.start_line ≡ first_line c
      → chain handlers i m ≡ outcome_of c i m
  unfolding chain process_response process_start_speech process_end_speech last_handler
      get_method_string contains starts_with
  chain-outcome_of c i m e = rw (third_of m c e) (by_method c)
    where
      by_method :
          (c : Method)
          → (if_method response (some (get_method_string c)) (dispatch accepts (note_status i) m) (
              if_method start_of_speech
                (some (get_method_string c))
                (handled true (call_listeners (on_speech_start 0) i))
                (if_method end_of_speech
                  (some (get_method_string c))
                  (handled true (call_listeners (on_speech_stop 0) i))
                  (handled false i))))
            ≡ outcome_of c i m
      by_method create_session = refl
      by_method set_parameters = refl
      by_method get_parameters = refl
      by_method start_recognition = refl
      by_method start_input_timers = refl
      by_method send_audio = refl
      by_method cancel_recognition = refl
      by_method release_session = refl
      by_method response = refl
      by_method start_of_speech = refl
      by_method end_of_speech = refl
      by_method recognition_result = refl
