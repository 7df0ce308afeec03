-- ===== src/RecognitionConfig.antt =====
-- RecognitionConfig of src/recognition_config.cc and include/cpqd/asr-client/recognition_config.h:
-- its properties. A configuration and its builder hold nothing else; copies and build() are the
-- record itself. An `unsigned int` is a number below 2 ^ 32.
pub mod Names
pub mod Builder
pub mod Getters
pub mod Environment
pub mod Documented
mod Tests
use asr_sdk_cpp.Base.{ℕ, Bool, false, Bytes, [], ◌^◌, ◌<◌}

-- RecognitionConfig::Properties
pub record Properties : Type 0 where
  pub confidence_threshold : ℕ
  pub max_sentences : ℕ
  pub no_input_timeout_milliseconds : ℕ
  pub recog_timeout_seconds : ℕ
  pub no_input_timeout_enabled : Bool
  pub recog_timeout_enabled : Bool
  pub infer_age_enabled : Bool
  pub infer_gender_enabled : Bool
  pub infer_emotion_enabled : Bool
  pub head_margin_milliseconds : ℕ
  pub tail_margin_milliseconds : ℕ
  pub wait_end_milliseconds : ℕ
  pub continuous_mode : Bool
  pub max_segment_duration : ℕ
  pub start_input_timers : Bool
  pub endpointer_auto_level_len : ℕ
  pub endpointer_level_mode : ℕ
  pub endpointer_level_threshold : ℕ
  pub verify_buffer_utterance : Bool
  pub account_tag : Bytes
  pub channel_identifier : Bytes
  pub media_type : Bytes

-- The default member initialisers of Properties
abbrev pub default_properties : Properties
default_properties = record {
  confidence_threshold = 0;
  max_sentences = 1;
  no_input_timeout_milliseconds = 0;
  recog_timeout_seconds = 0;
  no_input_timeout_enabled = false;
  recog_timeout_enabled = false;
  infer_age_enabled = false;
  infer_gender_enabled = false;
  infer_emotion_enabled = false;
  head_margin_milliseconds = 0;
  tail_margin_milliseconds = 0;
  wait_end_milliseconds = 0;
  continuous_mode = false;
  max_segment_duration = 0;
  start_input_timers = false;
  endpointer_auto_level_len = 0;
  endpointer_level_mode = 0;
  endpointer_level_threshold = 0;
  verify_buffer_utterance = false;
  account_tag = [];
  channel_identifier = [];
  media_type = [];
}

-- Every `unsigned int` is below 2 ^ 32.
pub record IsProperties (p : Properties) : Type 0 where
  pub confidence_threshold : p.confidence_threshold < 2 ^ 32
  pub max_sentences : p.max_sentences < 2 ^ 32
  pub no_input_timeout_milliseconds : p.no_input_timeout_milliseconds < 2 ^ 32
  pub recog_timeout_seconds : p.recog_timeout_seconds < 2 ^ 32
  pub head_margin_milliseconds : p.head_margin_milliseconds < 2 ^ 32
  pub tail_margin_milliseconds : p.tail_margin_milliseconds < 2 ^ 32
  pub wait_end_milliseconds : p.wait_end_milliseconds < 2 ^ 32
  pub max_segment_duration : p.max_segment_duration < 2 ^ 32
  pub endpointer_auto_level_len : p.endpointer_auto_level_len < 2 ^ 32
  pub endpointer_level_mode : p.endpointer_level_mode < 2 ^ 32
  pub endpointer_level_threshold : p.endpointer_level_threshold < 2 ^ 32
