-- ===== src/ResultHandler.antt =====
-- The handler of recognition results: src/process_result.cc, with json11 as a parameter.
pub mod Stored
pub mod Sample
use asr_sdk_cpp.Base.{
  ℕ, Bool, true, false, Option, none, some, List, [], ◌∷◌, ◌++◌, Bytes, ◌&&◌, not, get_elem?,
  if◌then◌else◌,
}
use asr_sdk_cpp.Text.{codes, equal, empty}
use asr_sdk_cpp.AsrMessage
use asr_sdk_cpp.AsrMessage.{AsrMessage, get_header, get_extra}
use asr_sdk_cpp.RecognitionResult
use asr_sdk_cpp.RecognitionResult.{
  ℤ, pos, Alternative, RecognitionResult, PartialRecognition, new_alternative, set_text,
  set_confidence, add_interpretation, add_word, add_alternatives, set_age, set_emotion, set_gender,
  on_classifiers, set_start_time, set_end_time, set_last_speech_segment, from_string,
}
use asr_sdk_cpp.Recognizer
use asr_sdk_cpp.Recognizer.{
  Impl, on_recognition_result, on_partial_recognition, call_listeners, notify_one,
}
use asr_sdk_cpp.Handlers.{Handled, handled, undefined, Handler, third, if_method}

-- What the source uses of json11: `J` is json11::Json, `D` is double. `json_parse` gives the null
-- object on a text that is not JSON, and `member` on a key that is missing. The last two are the
-- conversions of a double, to `F` and with std::to_string.
pub record Json11 (J D F : Type 0) : Type 0 where
  pub json_parse : Bytes → J
  pub member : J → Bytes → J
  pub is_bool : J → Bool
  pub is_number : J → Bool
  pub is_object : J → Bool
  pub bool_value : J → Bool
  pub int_value : J → ℤ
  pub number_value : J → D
  pub string_value : J → Bytes
  pub array_items : J → List J
  pub has_object_items : J → Bool
  pub to_float : D → F
  pub to_string : D → Bytes

-- ASRProcessResult::Header and its getString
pub data ResultHeader : Type 0 where
  handle result_status session_status content_length content_type : ResultHeader

unfoldable pub result_header : ResultHeader → Bytes
result_header handle = codes "Handle"
result_header result_status = codes "Result-Status"
result_header session_status = codes "Session-Status"
result_header content_length = codes "Content-Length"
result_header content_type = codes "Content-Type"

-- ASRProcessResult::SessionStatus and its getString
pub data IdleStatus : Type 0 where
  idle : IdleStatus

unfoldable pub status_string : IdleStatus → Bytes
status_string idle = codes "IDLE"

module _ {R : Type 0} where
  -- Each listener is called with each of the results, in their order.
  unfoldable pub call_with_results : List R → Impl R → Impl R
  call_with_results [] i = i
  call_with_results (r ∷ rs) i = call_with_results rs (call_listeners (on_recognition_result r) i)

  -- The first part of handle: the session status
  unfoldable pub note_idle : AsrMessage → Impl R → Impl R
  note_idle response impl =
      if equal (get_header response (result_header session_status)) (status_string idle)
      then record impl { session_status = Recognizer.idle }
      else impl

  -- `impl.recognizing_ = false; impl.cv_.notify_one();`
  abbrev pub end_recognition : Impl R → Impl R
  end_recognition impl = notify_one (record impl { recognizing = false })

module _ {F : Type 0} where
  -- The partial case
  unfoldable pub take_partial :
      Option PartialRecognition → Impl (RecognitionResult F) → Handled (RecognitionResult F)
  take_partial none impl = undefined
  take_partial (some partial) impl =
      handled true (call_listeners (on_partial_recognition partial) impl)

  -- The case of no body
  unfoldable pub take_status : Bytes → Impl (RecognitionResult F) → Handled (RecognitionResult F)
  take_status value impl =
      let impl = record impl { result = impl.result ++ from_string value ∷ [] } in
      handled false (end_recognition (call_with_results impl.result impl))

module _ {J D F : Type 0} (json11 : Json11 J D F) where
  -- The loop over the interpretations
  unfoldable pub add_interpretations : List J → Alternative F → Alternative F
  add_interpretations [] alt = alt
  add_interpretations (interp ∷ js) alt =
      add_interpretations js (add_interpretation (json11.string_value interp) (pos 0) alt)

  -- The loop over the words
  unfoldable pub add_words : List J → Alternative F → Alternative F
  add_words [] alt = alt
  add_words (word ∷ js) alt = add_words js (
      add_word
        (record {
          text = json11.string_value (json11.member word (codes "text"));
          confidence = json11.int_value (json11.member word (codes "score"));
          start_time =
              json11.to_float (json11.number_value (json11.member word (codes "start_time")));
          end_time = json11.to_float (json11.number_value (json11.member word (codes "end_time")));
        })
        alt)

  -- One alternative of recognitionResultFromJson
  unfoldable pub alternative_from : J → Alternative F
  alternative_from k =
      let score = json11.int_value (json11.member k (codes "score")) in
      let text = json11.string_value (json11.member k (codes "text")) in
      let alt = set_text text (set_confidence score new_alternative) in
      let alt =
        add_interpretations (json11.array_items (json11.member k (codes "interpretations"))) alt in
      add_words (json11.array_items (json11.member k (codes "words"))) alt

  -- `x.is_object() && !x.object_items().empty()`
  abbrev pub has_scores : J → Bool
  has_scores x = json11.is_object x && json11.has_object_items x

  -- The classifiers, set from the whole body
  unfoldable pub classify : J → RecognitionResult F → RecognitionResult F
  classify json res =
      let ages = json11.member json (codes "age_scores") in
      let age = json11.to_string (json11.number_value (json11.member ages (codes "age"))) in
      let res = if has_scores ages then on_classifiers (set_age age) res else res in
      let es = json11.member json (codes "emotion_scores") in
      let emotion = json11.string_value (json11.member es (codes "emotion")) in
      let res = if has_scores es then on_classifiers (set_emotion emotion) res else res in
      let gs = json11.member json (codes "gender_scores") in
      let gender = json11.string_value (json11.member gs (codes "gender")) in
      if has_scores gs then on_classifiers (set_gender gender) res else res

  -- The loop over the alternatives
  unfoldable pub add_loop : J → List J → RecognitionResult F → RecognitionResult F
  add_loop json [] res = res
  add_loop json (k ∷ ks) res =
      add_loop json ks (classify json (add_alternatives (alternative_from k) res))

  -- recognitionResultFromJson
  unfoldable pub recognition_result_from_json : J → RecognitionResult F
  recognition_result_from_json json =
      add_loop json (json11.array_items (json11.member json (codes "alternatives")))
        (from_string (json11.string_value (json11.member json (codes "result_status"))))

  -- partialRecognitionFromJson; `none` is the first element of an empty vector.
  unfoldable pub partial_recognition_from_json : J → Option PartialRecognition
  partial_recognition_from_json json =
      elim (get_elem? (json11.array_items (json11.member json (codes "alternatives"))) 0) [
        | none ↦ none
        | some k ↦
            let index = json11.member json (codes "segment_index") in
            some (record {
              text = json11.string_value (json11.member k (codes "text"));
              speech_segment_index =
                  if json11.is_number index then json11.int_value index else pos 0;
            })
      ]

  -- A Boolean of the body in place of a default
  abbrev pub bool_or : J → Bytes → Bool → Bool
  bool_or json key default =
      let value = json11.member json key in
      if json11.is_bool value then json11.bool_value value else default

  -- A time of the body, if it has it
  abbrev pub set_time :
      J
      → Bytes
      → (F → RecognitionResult F → RecognitionResult F)
      → RecognitionResult F
      → RecognitionResult F
  set_time json key set res =
      let value = json11.member json key in
      if json11.is_number value then set (json11.to_float (json11.number_value value)) res else res

  -- The result of the final case, before setLastSpeechSegment
  unfoldable pub final_result : J → RecognitionResult F
  final_result json =
      set_time json (codes "end_time") set_end_time
        (set_time json (codes "start_time") set_start_time (recognition_result_from_json json))

  -- The final case; the result is stored before its last segment is set.
  unfoldable pub take_final : J → Bool → Impl (RecognitionResult F) → Handled (RecognitionResult F)
  take_final json last_segment impl =
      let res = final_result json in
      let impl = record impl { result = impl.result ++ res ∷ [] } in
      let res = set_last_speech_segment last_segment res in
      let impl = call_listeners (on_recognition_result res) impl in
      handled true (if last_segment then end_recognition impl else impl)

  -- The case of a body
  unfoldable pub take_body : Bytes → J → Impl (RecognitionResult F) → Handled (RecognitionResult F)
  take_body value json impl =
      let recognized = equal value (RecognitionResult.get_string RecognitionResult.recognized) in
      let last_segment = bool_or json (codes "last_segment") true in
      if bool_or json (codes "final_result") recognized
      then take_final json last_segment impl
      else take_partial (partial_recognition_from_json json) impl

  -- ASRProcessResult::handle behind its test of the method
  unfoldable pub take_result : Handler (RecognitionResult F)
  take_result impl response =
      let impl = note_idle response impl in
      let value = get_header response (result_header result_status) in
      if equal value (RecognitionResult.get_string RecognitionResult.canceled)
      then handled false (end_recognition impl)
      else if empty (get_extra response)
      then take_status value impl
      else take_body value (json11.json_parse (get_extra response)) impl

  -- ASRProcessResult::handle with its next handler
  unfoldable pub process_result : Handler (RecognitionResult F) → Handler (RecognitionResult F)
  process_result next impl response =
      if_method AsrMessage.recognition_result (third response) (take_result impl response)
        (next impl response)
