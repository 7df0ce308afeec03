-- ===== src/RecognitionConfig/Tests.antt =====
-- The theorem on the environment at concrete properties.
use asr_sdk_cpp.Base.{◌≡◌, true, false, arith}
use asr_sdk_cpp.StringMap.{find}
use asr_sdk_cpp.RecognitionConfig.{Properties, IsProperties, default_properties}
use asr_sdk_cpp.RecognitionConfig.Environment.{get_config_from_environment}
use asr_sdk_cpp.RecognitionConfig.Documented.{documented, get_config-documented}

abbrev emotional : Properties
emotional = record default_properties {
  infer_emotion_enabled = true;
  tail_margin_milliseconds = 300;
}

emotional-IsProperties : IsProperties emotional
emotional-IsProperties = record {
  confidence_threshold = omega arith;
  max_sentences = omega arith;
  no_input_timeout_milliseconds = omega arith;
  recog_timeout_seconds = omega arith;
  head_margin_milliseconds = omega arith;
  tail_margin_milliseconds = omega arith;
  wait_end_milliseconds = omega arith;
  max_segment_duration = omega arith;
  endpointer_auto_level_len = omega arith;
  endpointer_level_mode = omega arith;
  endpointer_level_threshold = omega arith;
}

get_config-documented_example :
    get_config_from_environment (λ k. find k (documented emotional)) false default_properties
    ≡ (record emotional { infer_emotion_enabled = false; infer_gender_enabled = true })
get_config-documented_example =
    get_config-documented emotional default_properties false emotional-IsProperties
