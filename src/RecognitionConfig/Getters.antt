-- ===== src/RecognitionConfig/Getters.antt =====
-- RecognitionConfig's functions that give its properties.
use asr_sdk_cpp.Base.{ℕ, Bool, Bytes}
use asr_sdk_cpp.RecognitionConfig.{Properties}

unfoldable pub confidence_threshold : Properties → ℕ
confidence_threshold p = p.confidence_threshold

unfoldable pub max_sentences : Properties → ℕ
max_sentences p = p.max_sentences

unfoldable pub no_input_timeout_milliseconds : Properties → ℕ
no_input_timeout_milliseconds p = p.no_input_timeout_milliseconds

unfoldable pub recognition_timeout_seconds : Properties → ℕ
recognition_timeout_seconds p = p.recog_timeout_seconds

unfoldable pub no_input_timeout_enabled : Properties → Bool
no_input_timeout_enabled p = p.no_input_timeout_enabled

unfoldable pub recognition_timeout_enabled : Properties → Bool
recognition_timeout_enabled p = p.recog_timeout_enabled

unfoldable pub infer_age_enabled : Properties → Bool
infer_age_enabled p = p.infer_age_enabled

unfoldable pub infer_gender_enabled : Properties → Bool
infer_gender_enabled p = p.infer_gender_enabled

unfoldable pub infer_emotion_enabled : Properties → Bool
infer_emotion_enabled p = p.infer_emotion_enabled

unfoldable pub head_margin_milliseconds : Properties → ℕ
head_margin_milliseconds p = p.head_margin_milliseconds

unfoldable pub tail_margin_milliseconds : Properties → ℕ
tail_margin_milliseconds p = p.tail_margin_milliseconds

unfoldable pub wait_end_milliseconds : Properties → ℕ
wait_end_milliseconds p = p.wait_end_milliseconds

unfoldable pub continuous_mode : Properties → Bool
continuous_mode p = p.continuous_mode

unfoldable pub max_segment_duration : Properties → ℕ
max_segment_duration p = p.max_segment_duration

unfoldable pub start_input_timers : Properties → Bool
start_input_timers p = p.start_input_timers

unfoldable pub endpointer_auto_level_len : Properties → ℕ
endpointer_auto_level_len p = p.endpointer_auto_level_len

unfoldable pub endpointer_level_mode : Properties → ℕ
endpointer_level_mode p = p.endpointer_level_mode

unfoldable pub endpointer_level_threshold : Properties → ℕ
endpointer_level_threshold p = p.endpointer_level_threshold

unfoldable pub verify_buffer_utterance : Properties → Bool
verify_buffer_utterance p = p.verify_buffer_utterance

unfoldable pub account_tag : Properties → Bytes
account_tag p = p.account_tag

unfoldable pub channel_identifier : Properties → Bytes
channel_identifier p = p.channel_identifier

unfoldable pub media_type : Properties → Bytes
media_type p = p.media_type
