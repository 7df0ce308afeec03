-- ===== src/RecognitionConfig/Builder.antt =====
-- RecognitionConfig::Builder: one call for each property.
use asr_sdk_cpp.Base.{ℕ, Bool, Bytes}
use asr_sdk_cpp.RecognitionConfig.{Properties}

unfoldable pub confidence_threshold : ℕ → Properties → Properties
confidence_threshold value p = record p { confidence_threshold = value }

unfoldable pub max_sentences : ℕ → Properties → Properties
max_sentences value p = record p { max_sentences = value }

unfoldable pub no_input_timeout_milliseconds : ℕ → Properties → Properties
no_input_timeout_milliseconds value p = record p { no_input_timeout_milliseconds = value }

unfoldable pub recognition_timeout_seconds : ℕ → Properties → Properties
recognition_timeout_seconds value p = record p { recog_timeout_seconds = value }

unfoldable pub no_input_timeout_enabled : Bool → Properties → Properties
no_input_timeout_enabled value p = record p { no_input_timeout_enabled = value }

unfoldable pub recognition_timeout_enabled : Bool → Properties → Properties
recognition_timeout_enabled value p = record p { recog_timeout_enabled = value }

unfoldable pub infer_age_enabled : Bool → Properties → Properties
infer_age_enabled value p = record p { infer_age_enabled = value }

unfoldable pub infer_gender_enabled : Bool → Properties → Properties
infer_gender_enabled value p = record p { infer_gender_enabled = value }

unfoldable pub infer_emotion_enabled : Bool → Properties → Properties
infer_emotion_enabled value p = record p { infer_emotion_enabled = value }

unfoldable pub head_margin_milliseconds : ℕ → Properties → Properties
head_margin_milliseconds value p = record p { head_margin_milliseconds = value }

unfoldable pub tail_margin_milliseconds : ℕ → Properties → Properties
tail_margin_milliseconds value p = record p { tail_margin_milliseconds = value }

unfoldable pub wait_end_milliseconds : ℕ → Properties → Properties
wait_end_milliseconds value p = record p { wait_end_milliseconds = value }

unfoldable pub continuous_mode : Bool → Properties → Properties
continuous_mode value p = record p { continuous_mode = value }

unfoldable pub max_segment_duration : ℕ → Properties → Properties
max_segment_duration value p = record p { max_segment_duration = value }

unfoldable pub start_input_timers : Bool → Properties → Properties
start_input_timers value p = record p { start_input_timers = value }

unfoldable pub endpointer_auto_level_len : ℕ → Properties → Properties
endpointer_auto_level_len value p = record p { endpointer_auto_level_len = value }

unfoldable pub endpointer_level_mode : ℕ → Properties → Properties
endpointer_level_mode value p = record p { endpointer_level_mode = value }

unfoldable pub endpointer_level_threshold : ℕ → Properties → Properties
endpointer_level_threshold value p = record p { endpointer_level_threshold = value }

unfoldable pub verify_buffer_utterance : Bool → Properties → Properties
verify_buffer_utterance value p = record p { verify_buffer_utterance = value }

unfoldable pub account_tag : Bytes → Properties → Properties
account_tag value p = record p { account_tag = value }

unfoldable pub channel_identifier : Bytes → Properties → Properties
channel_identifier value p = record p { channel_identifier = value }

unfoldable pub media_type : Bytes → Properties → Properties
media_type value p = record p { media_type = value }
