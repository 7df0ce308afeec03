-- ===== src/SendMessage/Parameters.antt =====
-- The headers of the message SET_PARAMETERS.
use asr_sdk_cpp.Base.{
  ◌≡◌, ◌∙◌, Bool, not, ◌&&◌, Option, none, some, List, [], ◌∷◌, ◌==◌, ap, Bytes, if◌then◌else◌,
}
use asr_sdk_cpp.Text.{codes, equal, empty, to_string, bool_to_string}
use asr_sdk_cpp.StringMap.{StringMap, find}
use asr_sdk_cpp.RecognitionConfig.{Properties}
use asr_sdk_cpp.RecognitionConfig.Getters
use asr_sdk_cpp.AsrMessage
use asr_sdk_cpp.AsrMessage.{AsrMessage, request, set_header, get_method_string, first_line, consume}
use asr_sdk_cpp.SendMessage.{nonzero, parameters_request}
use asr_sdk_cpp.SendMessage.Settings.{Setting, set_all, chosen, find-set_all, nested, nested_two}

abbrev pub setting : Bool → Bytes → Bytes → Setting
setting b k v = record { condition = b; key = k; value = v }

abbrev pub settings : Properties → List Setting
settings p =
    setting (nonzero p.confidence_threshold) (codes "decoder.confidenceThreshold")
      (to_string p.confidence_threshold)
    ∷ setting (nonzero p.max_sentences) (codes "decoder.maxSentences") (to_string p.max_sentences)
    ∷ setting (p.no_input_timeout_enabled) (codes "noInputTimeout.enabled")
        (bool_to_string p.no_input_timeout_enabled)
    ∷ setting (p.no_input_timeout_enabled && nonzero p.no_input_timeout_milliseconds)
        (codes "noInputTimeout.value") (to_string p.no_input_timeout_milliseconds)
    ∷ setting (p.recog_timeout_enabled) (codes "recognitionTimeout.enabled")
        (bool_to_string p.recog_timeout_enabled)
    ∷ setting (p.recog_timeout_enabled && nonzero p.recog_timeout_seconds)
        (codes "recognitionTimeout.value") (to_string p.recog_timeout_seconds)
    ∷ setting (p.infer_age_enabled) (codes "Infer-age-enabled") (codes "true")
    ∷ setting (p.infer_emotion_enabled) (codes "Infer-emotion-enabled") (codes "true")
    ∷ setting (p.infer_gender_enabled) (codes "Infer-gender-enabled") (codes "true")
    ∷ setting (nonzero p.head_margin_milliseconds) (codes "endpointer.headMargin")
        (to_string p.head_margin_milliseconds)
    ∷ setting (nonzero p.tail_margin_milliseconds) (codes "endpointer.tailMargin")
        (to_string p.tail_margin_milliseconds)
    ∷ setting (nonzero p.wait_end_milliseconds) (codes "endpointer.waitEnd")
        (to_string p.wait_end_milliseconds)
    ∷ setting (p.continuous_mode) (codes "decoder.continuousMode") (codes "true")
    ∷ setting (nonzero p.max_segment_duration) (codes "endpointer.maxSegmentDuration")
        (to_string p.max_segment_duration)
    ∷ setting (p.start_input_timers) (codes "decoder.startInputTimers")
        (bool_to_string p.start_input_timers)
    ∷ setting (nonzero p.endpointer_level_mode) (codes "endpointer.levelMode")
        (to_string p.endpointer_level_mode)
    ∷ setting
        (nonzero p.endpointer_level_mode
          && (p.endpointer_level_mode == 1 && nonzero p.endpointer_auto_level_len))
        (codes "endpointer.autoLevelLen") (to_string p.endpointer_auto_level_len)
    ∷ setting
        (nonzero p.endpointer_level_mode
          && (p.endpointer_level_mode == 2 && nonzero p.endpointer_level_threshold))
        (codes "endpointer.levelThreshold") (to_string p.endpointer_level_threshold)
    ∷ setting (p.verify_buffer_utterance) (codes "Ver-Buffer-Utterance") (codes "true")
    ∷ setting (not (empty p.account_tag)) (codes "licenseManager.accountTag") (p.account_tag)
    ∷ setting (not (empty p.channel_identifier)) (codes "Channel-Identifier") (p.channel_identifier)
    ∷ setting (not (empty p.media_type)) (codes "Media-Type") (p.media_type)
    ∷ []

-- The request sets these headers, each under its condition.
pub parameters_lem :
    (p : Properties)
    → parameters_request p ≡ set_all (settings p) (request AsrMessage.set_parameters)
unfolding parameters_request Getters.account_tag Getters.channel_identifier
    Getters.confidence_threshold Getters.continuous_mode Getters.endpointer_auto_level_len
    Getters.endpointer_level_mode Getters.endpointer_level_threshold
    Getters.head_margin_milliseconds Getters.infer_age_enabled Getters.infer_emotion_enabled
    Getters.infer_gender_enabled Getters.max_segment_duration Getters.max_sentences
    Getters.media_type Getters.no_input_timeout_enabled Getters.no_input_timeout_milliseconds
    Getters.recognition_timeout_enabled Getters.recognition_timeout_seconds
    Getters.start_input_timers Getters.tail_margin_milliseconds Getters.verify_buffer_utterance
    Getters.wait_end_milliseconds
parameters_lem p = simp (nested, nested_two)

abbrev pub sent_if : Bool → Bytes → Option Bytes
sent_if b v = if b then some v else none

-- The headers of a message say what the properties are: each header is there exactly under its
-- condition, with the property's value.
pub record SaysProperties (p : Properties) (h : StringMap) : Type 0 where
  pub confidence_threshold :
      find (codes "decoder.confidenceThreshold") h
      ≡ sent_if (nonzero p.confidence_threshold) (to_string p.confidence_threshold)
  pub max_sentences :
      find (codes "decoder.maxSentences") h
      ≡ sent_if (nonzero p.max_sentences) (to_string p.max_sentences)
  pub no_input_timeout_enabled :
      find (codes "noInputTimeout.enabled") h
      ≡ sent_if (p.no_input_timeout_enabled) (bool_to_string p.no_input_timeout_enabled)
  pub no_input_timeout_milliseconds :
      find (codes "noInputTimeout.value") h
      ≡ sent_if
          (p.no_input_timeout_enabled && nonzero p.no_input_timeout_milliseconds)
          (to_string p.no_input_timeout_milliseconds)
  pub recog_timeout_enabled :
      find (codes "recognitionTimeout.enabled") h
      ≡ sent_if (p.recog_timeout_enabled) (bool_to_string p.recog_timeout_enabled)
  pub recog_timeout_seconds :
      find (codes "recognitionTimeout.value") h
      ≡ sent_if
          (p.recog_timeout_enabled && nonzero p.recog_timeout_seconds)
          (to_string p.recog_timeout_seconds)
  pub infer_age_enabled :
      find (codes "Infer-age-enabled") h ≡ sent_if (p.infer_age_enabled) (codes "true")
  pub infer_emotion_enabled :
      find (codes "Infer-emotion-enabled") h ≡ sent_if (p.infer_emotion_enabled) (codes "true")
  pub infer_gender_enabled :
      find (codes "Infer-gender-enabled") h ≡ sent_if (p.infer_gender_enabled) (codes "true")
  pub head_margin_milliseconds :
      find (codes "endpointer.headMargin") h
      ≡ sent_if (nonzero p.head_margin_milliseconds) (to_string p.head_margin_milliseconds)
  pub tail_margin_milliseconds :
      find (codes "endpointer.tailMargin") h
      ≡ sent_if (nonzero p.tail_margin_milliseconds) (to_string p.tail_margin_milliseconds)
  pub wait_end_milliseconds :
      find (codes "endpointer.waitEnd") h
      ≡ sent_if (nonzero p.wait_end_milliseconds) (to_string p.wait_end_milliseconds)
  pub continuous_mode :
      find (codes "decoder.continuousMode") h ≡ sent_if (p.continuous_mode) (codes "true")
  pub max_segment_duration :
      find (codes "endpointer.maxSegmentDuration") h
      ≡ sent_if (nonzero p.max_segment_duration) (to_string p.max_segment_duration)
  pub start_input_timers :
      find (codes "decoder.startInputTimers") h
      ≡ sent_if (p.start_input_timers) (bool_to_string p.start_input_timers)
  pub endpointer_level_mode :
      find (codes "endpointer.levelMode") h
      ≡ sent_if (nonzero p.endpointer_level_mode) (to_string p.endpointer_level_mode)
  pub endpointer_auto_level_len :
      find (codes "endpointer.autoLevelLen") h
      ≡ sent_if
          (nonzero p.endpointer_level_mode
            && (p.endpointer_level_mode == 1 && nonzero p.endpointer_auto_level_len))
          (to_string p.endpointer_auto_level_len)
  pub endpointer_level_threshold :
      find (codes "endpointer.levelThreshold") h
      ≡ sent_if
          (nonzero p.endpointer_level_mode
            && (p.endpointer_level_mode == 2 && nonzero p.endpointer_level_threshold))
          (to_string p.endpointer_level_threshold)
  pub verify_buffer_utterance :
      find (codes "Ver-Buffer-Utterance") h ≡ sent_if (p.verify_buffer_utterance) (codes "true")
  pub account_tag :
      find (codes "licenseManager.accountTag") h
      ≡ sent_if (not (empty p.account_tag)) (p.account_tag)
  pub channel_identifier :
      find (codes "Channel-Identifier") h
      ≡ sent_if (not (empty p.channel_identifier)) (p.channel_identifier)
  pub media_type : find (codes "Media-Type") h ≡ sent_if (not (empty p.media_type)) (p.media_type)

pub parameters-SaysProperties : (p : Properties) → SaysProperties p (parameters_request p).headers
unfolding equal request find
parameters-SaysProperties p =
    let at : (k : Bytes) → find k (parameters_request p).headers ≡ chosen (settings p) k none = λ k.
      ap (λ r. find k r.headers) (parameters_lem p)
      ∙ find-set_all (settings p) k (request AsrMessage.set_parameters) in
    record {
      confidence_threshold = at (codes "decoder.confidenceThreshold");
      max_sentences = at (codes "decoder.maxSentences");
      no_input_timeout_enabled = at (codes "noInputTimeout.enabled");
      no_input_timeout_milliseconds = at (codes "noInputTimeout.value");
      recog_timeout_enabled = at (codes "recognitionTimeout.enabled");
      recog_timeout_seconds = at (codes "recognitionTimeout.value");
      infer_age_enabled = at (codes "Infer-age-enabled");
      infer_emotion_enabled = at (codes "Infer-emotion-enabled");
      infer_gender_enabled = at (codes "Infer-gender-enabled");
      head_margin_milliseconds = at (codes "endpointer.headMargin");
      tail_margin_milliseconds = at (codes "endpointer.tailMargin");
      wait_end_milliseconds = at (codes "endpointer.waitEnd");
      continuous_mode = at (codes "decoder.continuousMode");
      max_segment_duration = at (codes "endpointer.maxSegmentDuration");
      start_input_timers = at (codes "decoder.startInputTimers");
      endpointer_level_mode = at (codes "endpointer.levelMode");
      endpointer_auto_level_len = at (codes "endpointer.autoLevelLen");
      endpointer_level_threshold = at (codes "endpointer.levelThreshold");
      verify_buffer_utterance = at (codes "Ver-Buffer-Utterance");
      account_tag = at (codes "licenseManager.accountTag");
      channel_identifier = at (codes "Channel-Identifier");
      media_type = at (codes "Media-Type");
    }
