-- ===== src/RecognitionResult.antt =====
-- RecognitionResult of src/recognition_result.cc and its header. `float` is the parameter `F`; an
-- `int` is an integer.
pub mod Status
mod Tests
use asr_sdk_cpp.Base.{
  ℕ, Bool, true, false, not, Option, none, some, List, [], ◌∷◌, ◌++◌, Bytes, if◌then◌else◌,
}
use asr_sdk_cpp.Text.{codes, equal, empty}

-- `int`: `pos n` is n, `negsuc n` is - n - 1.
pub data ℤ : Type 0 where
  pos negsuc : ℕ → ℤ

-- RecognitionResult::Code
pub data Code : Type 0 where
  processing recognized no_match no_input_timeout max_speech : Code
  early_speech recognition_timeout no_speech canceled failure : Code

-- RecognitionResult::getString
unfoldable pub get_string : Code → Bytes
get_string processing = codes "PROCESSING"
get_string recognized = codes "RECOGNIZED"
get_string no_match = codes "NO_MATCH"
get_string no_input_timeout = codes "NO_INPUT_TIMEOUT"
get_string max_speech = codes "MAX_SPEECH"
get_string early_speech = codes "EARLY_SPEECH"
get_string recognition_timeout = codes "RECOGNITION_TIMEOUT"
get_string no_speech = codes "NO_SPEECH"
get_string canceled = codes "CANCELED"
get_string failure = codes "FAILURE"

-- The status that the constructor takes from a text; `none` is a field left uninitialised.
unfoldable pub status_from : Bytes → Option Code
status_from s =
    if equal s (codes "PROCESSING")
    then some no_match
    else if equal s (codes "RECOGNIZED")
    then some recognized
    else if equal s (codes "NO_MATCH")
    then some no_match
    else if equal s (codes "NO_INPUT_TIMEOUT")
    then some no_input_timeout
    else if equal s (codes "MAX_SPEECH")
    then some max_speech
    else if equal s (codes "EARLY_SPEECH")
    then some early_speech
    else if equal s (codes "RECOGNITION_TIMEOUT")
    then some recognition_timeout
    else if equal s (codes "NO_SPEECH")
    then some no_speech
    else if equal s (codes "CANCELED")
    then some canceled
    else if equal s (codes "FAILURE")
    then some failure
    else none

-- RecognitionResult::Classifier
pub record Classifier : Type 0 where
  pub age : Bytes
  pub emotion : Bytes
  pub gender : Bytes

unfoldable pub set_age : Bytes → Classifier → Classifier
set_age v c = record c { age = v }

unfoldable pub set_emotion : Bytes → Classifier → Classifier
set_emotion v c = record c { emotion = v }

unfoldable pub set_gender : Bytes → Classifier → Classifier
set_gender v c = record c { gender = v }

unfoldable pub has_age : Classifier → Bool
has_age c = not (empty c.age)

unfoldable pub has_emotion : Classifier → Bool
has_emotion c = not (empty c.emotion)

unfoldable pub has_gender : Classifier → Bool
has_gender c = not (empty c.gender)

pub record Interpretation : Type 0 where
  pub text : Bytes
  pub confidence : ℤ

pub record Word (F : Type 0) : Type 0 where
  pub text : Bytes
  pub confidence : ℤ
  pub start_time : F
  pub end_time : F

-- RecognitionResult::Alternative
pub record Alternative (F : Type 0) : Type 0 where
  pub confidence : ℤ
  pub lang_model : Bytes
  pub text : Bytes
  pub interpretations : List Interpretation
  pub words : List (Word F)

-- The times are `none` while they have their initial value -1.
pub record RecognitionResult (F : Type 0) : Type 0 where
  pub result_status : Option Code
  pub last_segment : Option Bool
  pub alternatives : List (Alternative F)
  pub classifiers : Classifier
  pub start_time : Option F
  pub end_time : Option F

pub record PartialRecognition : Type 0 where
  pub text : Bytes
  pub speech_segment_index : ℤ

abbrev no_classifiers : Classifier
no_classifiers = record { age = []; emotion = []; gender = [] }

-- The status behind an alternative: no match becomes recognized.
abbrev pub matched : Option Code → Option Code
matched (some no_match) = some recognized
matched (some c) = some c
matched none = none

module _ {F : Type 0} where
  unfoldable pub set_text : Bytes → Alternative F → Alternative F
  set_text v a = record a { text = v }

  unfoldable pub set_confidence : ℤ → Alternative F → Alternative F
  set_confidence v a = record a { confidence = v }

  unfoldable pub language_model : Bytes → Alternative F → Alternative F
  language_model v a = record a { lang_model = v }

  unfoldable pub add_interpretation : Bytes → ℤ → Alternative F → Alternative F
  add_interpretation t c a = record a {
    interpretations = a.interpretations ++ (record { text = t; confidence = c }) ∷ [];
  }

  unfoldable pub add_word : Word F → Alternative F → Alternative F
  add_word w a = record a { words = a.words ++ w ∷ [] }

  -- The constructors from a text and from a code; `last_segment_` is not initialised.
  unfoldable pub from_status : Option Code → RecognitionResult F
  from_status s = record {
    result_status = s;
    last_segment = none;
    alternatives = [];
    classifiers = no_classifiers;
    start_time = none;
    end_time = none;
  }

  unfoldable pub from_string : Bytes → RecognitionResult F
  unfolding from_status
  from_string s = from_status (status_from s)

  -- RecognitionResult::addAlternatives
  unfoldable pub add_alternatives : Alternative F → RecognitionResult F → RecognitionResult F
  add_alternatives alt r = record r {
    result_status = matched r.result_status;
    alternatives = r.alternatives ++ alt ∷ [];
  }

  unfoldable pub set_last_speech_segment : Bool → RecognitionResult F → RecognitionResult F
  set_last_speech_segment b r = record r { last_segment = some b }

  unfoldable pub is_last_speech_segment : RecognitionResult F → Option Bool
  is_last_speech_segment r = r.last_segment

  unfoldable pub set_start_time : F → RecognitionResult F → RecognitionResult F
  set_start_time t r = record r { start_time = some t }

  unfoldable pub set_end_time : F → RecognitionResult F → RecognitionResult F
  set_end_time t r = record r { end_time = some t }

  -- A call on `getClassifiers()`
  unfoldable pub on_classifiers :
      (Classifier → Classifier) → RecognitionResult F → RecognitionResult F
  on_classifiers f r = record r { classifiers = f r.classifiers }

  -- The initial alternative
  abbrev pub new_alternative : Alternative F
  new_alternative = record {
    confidence = pos 0;
    lang_model = [];
    text = [];
    interpretations = [];
    words = [];
  }
