-- ===== src/RecognitionConfig/Names.antt =====
-- The constants of include/cpqd/asr-client/recognition_config.h that name environment variables,
-- with the values that the header gives them.
use asr_sdk_cpp.Base.{Bytes}
use asr_sdk_cpp.Text.{codes}

abbrev pub name_of_confidence_threshold : Bytes
name_of_confidence_threshold = codes "CONFIDENCE_THRESHOLD"

abbrev pub name_of_max_sentences : Bytes
name_of_max_sentences = codes "MAX_SENTENCES"

abbrev pub name_of_no_input_timeout_milliseconds : Bytes
name_of_no_input_timeout_milliseconds = codes "NO_INPUT_TIMEOUT_MILLISECONDS"

abbrev pub name_of_recog_timeout_seconds : Bytes
name_of_recog_timeout_seconds = codes "RECOG_TIMEOUT_SECONDS"

abbrev pub name_of_no_input_timeout_enabled : Bytes
name_of_no_input_timeout_enabled = codes "NO_INPUT_TIMEOUT_ENABLED"

abbrev pub name_of_recog_timeout_enabled : Bytes
name_of_recog_timeout_enabled = codes "RECOG_TIMEOUT_ENABLED"

abbrev pub name_of_infer_age_enabled : Bytes
name_of_infer_age_enabled = codes "INFER_AGE_ENABLED"

abbrev pub name_of_infer_gender_enabled : Bytes
name_of_infer_gender_enabled = codes "INFER_EMOTION_ENABLED"

abbrev pub name_of_infer_emotion_enabled : Bytes
name_of_infer_emotion_enabled = codes "INFER_GENDER_ENABLED"

abbrev pub name_of_head_margin_milliseconds : Bytes
name_of_head_margin_milliseconds = codes "HEAD_MARGIN_MILLISECONDS"

abbrev pub name_of_tail_margin_milliseconds : Bytes
name_of_tail_margin_milliseconds = codes "TAIL_MARGIN_MILLISECONDS"

abbrev pub name_of_wait_end_milliseconds : Bytes
name_of_wait_end_milliseconds = codes "WAIT_END_MILLISECONDS"

abbrev pub name_of_continuous_mode : Bytes
name_of_continuous_mode = codes "CONTINUOUS_MODE"

abbrev pub name_of_max_segment_duration : Bytes
name_of_max_segment_duration = codes "MAX_SEGMENT_DURATION"

abbrev pub name_of_start_input_timers : Bytes
name_of_start_input_timers = codes "START_INPUT_TIMERS"

abbrev pub name_of_endpointer_auto_level_len : Bytes
name_of_endpointer_auto_level_len = codes "ENDPOINTER_AUTO_LEVEL_LEN"

abbrev pub name_of_endpointer_level_mode : Bytes
name_of_endpointer_level_mode = codes "ENDPOINTER_LEVEL_MODE"

abbrev pub name_of_endpointer_level_threshold : Bytes
name_of_endpointer_level_threshold = codes "ENDPOINTER_LEVEL_THRESHOLD"

abbrev pub name_of_verify_buffer_utterance : Bytes
name_of_verify_buffer_utterance = codes "VERIFY_BUFFER_UTTERANCE"

abbrev pub name_of_account_tag : Bytes
name_of_account_tag = codes "ACCOUNT_TAG"

abbrev pub name_of_channel_identifier : Bytes
name_of_channel_identifier = codes "CHANNEL_IDENTIFIER"

abbrev pub name_of_media_type : Bytes
name_of_media_type = codes "MEDIA_TYPE"
