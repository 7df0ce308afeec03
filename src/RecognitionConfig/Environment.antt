-- ===== src/RecognitionConfig/Environment.antt =====
-- RecognitionConfig::getConfigFromEvironment: properties taken from the environment.
-- std::getenv is the parameter `env`.
use asr_sdk_cpp.Base.{
  ℕ, ◌-◌, ◌%◌, ◌^◌, Bool, false, ◌&&◌, Option, none, some, [], ◌∷◌, Bytes, leb, if◌then◌else◌,
}
use asr_sdk_cpp.Text
use asr_sdk_cpp.Text.{codes, equal, stoul, Converted, number}
use asr_sdk_cpp.RecognitionConfig.{Properties}
use asr_sdk_cpp.RecognitionConfig.Names.{
  name_of_confidence_threshold, name_of_max_sentences, name_of_no_input_timeout_milliseconds,
  name_of_recog_timeout_seconds, name_of_no_input_timeout_enabled, name_of_recog_timeout_enabled,
  name_of_infer_age_enabled, name_of_infer_emotion_enabled, name_of_infer_gender_enabled,
  name_of_head_margin_milliseconds, name_of_tail_margin_milliseconds, name_of_wait_end_milliseconds,
  name_of_max_segment_duration, name_of_start_input_timers, name_of_endpointer_auto_level_len,
  name_of_endpointer_level_mode, name_of_endpointer_level_threshold,
  name_of_verify_buffer_utterance, name_of_account_tag, name_of_channel_identifier,
  name_of_media_type,
}

-- std::getenv
abbrev pub Environment : Type 0
Environment = Bytes → Option Bytes

-- ::toupper in the "C" locale
abbrev pub to_upper : ℕ → ℕ
to_upper c = if leb b'a' c && leb c b'z' then c - 32 else c

abbrev pub upper : Bytes → Bytes
upper [] = []
upper (c ∷ cs) = to_upper c ∷ upper cs

-- `try { par = std::stoul(env_p); } catch (...) { par = 0; }`, where `par` has 32 bits
abbrev pub or_zero : Converted → ℕ
or_zero (number n) = n % 2 ^ 32
or_zero Text.invalid_argument = 0
or_zero Text.out_of_range = 0

module _ (env : Environment) where
  -- setInteger, setBool and setString, which give the new value of `par`
  unfoldable pub set_integer : Bytes → Bool → ℕ → ℕ
  set_integer par_name replace_empty par = elim (env par_name) [
    | none ↦ if replace_empty then 0 else par
    | some env_p ↦ or_zero (stoul env_p)
  ]

  unfoldable pub set_bool : Bytes → Bool → Bool → Bool
  set_bool par_name replace_empty par = elim (env par_name) [
    | none ↦ if replace_empty then false else par
    | some env_p ↦ equal (upper env_p) (codes "TRUE")
  ]

  unfoldable pub set_string : Bytes → Bool → Bytes → Bytes
  set_string par_name replace_empty par = elim (env par_name) [
    | none ↦ if replace_empty then [] else par
    | some env_p ↦ env_p
  ]

  unfoldable pub set_confidence_threshold_from_env : Bool → Properties → Properties
  set_confidence_threshold_from_env replace_empty p = record p {
    confidence_threshold =
        set_integer name_of_confidence_threshold replace_empty p.confidence_threshold;
  }

  unfoldable pub set_max_sentences_from_env : Bool → Properties → Properties
  set_max_sentences_from_env replace_empty p = record p {
    max_sentences = set_integer name_of_max_sentences replace_empty p.max_sentences;
  }

  unfoldable pub set_no_input_timeout_milliseconds_from_env : Bool → Properties → Properties
  set_no_input_timeout_milliseconds_from_env replace_empty p = record p {
    no_input_timeout_milliseconds =
        set_integer name_of_no_input_timeout_milliseconds replace_empty
          p.no_input_timeout_milliseconds;
  }

  unfoldable pub set_recognition_timeout_seconds_from_env : Bool → Properties → Properties
  set_recognition_timeout_seconds_from_env replace_empty p = record p {
    recog_timeout_seconds =
        set_integer name_of_recog_timeout_seconds replace_empty p.recog_timeout_seconds;
  }

  unfoldable pub set_no_input_timeout_enabled_from_env : Bool → Properties → Properties
  set_no_input_timeout_enabled_from_env replace_empty p = record p {
    no_input_timeout_enabled =
        set_bool name_of_no_input_timeout_enabled replace_empty p.no_input_timeout_enabled;
  }

  unfoldable pub set_recognition_timeout_enabled_from_env : Bool → Properties → Properties
  set_recognition_timeout_enabled_from_env replace_empty p = record p {
    recog_timeout_enabled =
        set_bool name_of_recog_timeout_enabled replace_empty p.recog_timeout_enabled;
  }

  unfoldable pub set_infer_age_enabled_from_env : Bool → Properties → Properties
  set_infer_age_enabled_from_env replace_empty p = record p {
    infer_age_enabled = set_bool name_of_infer_age_enabled replace_empty p.infer_age_enabled;
  }

  unfoldable pub set_infer_emotion_enabled_from_env : Bool → Properties → Properties
  set_infer_emotion_enabled_from_env replace_empty p = record p {
    infer_emotion_enabled =
        set_bool name_of_infer_emotion_enabled replace_empty p.infer_emotion_enabled;
  }

  unfoldable pub set_infer_gender_enabled_from_env : Bool → Properties → Properties
  set_infer_gender_enabled_from_env replace_empty p = record p {
    infer_gender_enabled =
        set_bool name_of_infer_gender_enabled replace_empty p.infer_gender_enabled;
  }

  unfoldable pub set_head_margin_milliseconds_from_env : Bool → Properties → Properties
  set_head_margin_milliseconds_from_env replace_empty p = record p {
    head_margin_milliseconds =
        set_integer name_of_head_margin_milliseconds replace_empty p.head_margin_milliseconds;
  }

  unfoldable pub set_tail_margin_milliseconds_from_env : Bool → Properties → Properties
  set_tail_margin_milliseconds_from_env replace_empty p = record p {
    tail_margin_milliseconds =
        set_integer name_of_tail_margin_milliseconds replace_empty p.tail_margin_milliseconds;
  }

  unfoldable pub set_wait_end_milliseconds_from_env : Bool → Properties → Properties
  set_wait_end_milliseconds_from_env replace_empty p = record p {
    wait_end_milliseconds =
        set_integer name_of_wait_end_milliseconds replace_empty p.wait_end_milliseconds;
  }

  unfoldable pub set_continuous_mode_from_env : Bool → Properties → Properties
  set_continuous_mode_from_env replace_empty p = record p {
    continuous_mode = set_bool name_of_infer_age_enabled replace_empty p.continuous_mode;
  }

  unfoldable pub set_max_segment_duration_from_env : Bool → Properties → Properties
  set_max_segment_duration_from_env replace_empty p = record p {
    max_segment_duration =
        set_integer name_of_max_segment_duration replace_empty p.max_segment_duration;
  }

  unfoldable pub set_start_input_timers_from_env : Bool → Properties → Properties
  set_start_input_timers_from_env replace_empty p = record p {
    start_input_timers = set_bool name_of_start_input_timers replace_empty p.start_input_timers;
  }

  unfoldable pub set_endpointer_auto_level_len_from_env : Bool → Properties → Properties
  set_endpointer_auto_level_len_from_env replace_empty p = record p {
    endpointer_auto_level_len =
        set_integer name_of_endpointer_auto_level_len replace_empty p.endpointer_auto_level_len;
  }

  unfoldable pub set_endpointer_level_mode_from_env : Bool → Properties → Properties
  set_endpointer_level_mode_from_env replace_empty p = record p {
    endpointer_level_mode =
        set_integer name_of_endpointer_level_mode replace_empty p.endpointer_level_mode;
  }

  unfoldable pub set_endpointer_level_threshold_from_env : Bool → Properties → Properties
  set_endpointer_level_threshold_from_env replace_empty p = record p {
    endpointer_level_threshold =
        set_integer name_of_endpointer_level_threshold replace_empty p.endpointer_level_threshold;
  }

  unfoldable pub set_verify_buffer_utterance_from_env : Bool → Properties → Properties
  set_verify_buffer_utterance_from_env replace_empty p = record p {
    verify_buffer_utterance =
        set_bool name_of_verify_buffer_utterance replace_empty p.verify_buffer_utterance;
  }

  unfoldable pub set_account_tag_from_env : Bool → Properties → Properties
  set_account_tag_from_env replace_empty p = record p {
    account_tag = set_string name_of_account_tag replace_empty p.account_tag;
  }

  unfoldable pub set_channel_identifier_from_env : Bool → Properties → Properties
  set_channel_identifier_from_env replace_empty p = record p {
    channel_identifier = set_string name_of_channel_identifier replace_empty p.channel_identifier;
  }

  unfoldable pub set_media_type_from_env : Bool → Properties → Properties
  set_media_type_from_env replace_empty p = record p {
    media_type = set_string name_of_media_type replace_empty p.media_type;
  }

  -- RecognitionConfig::getConfigFromEvironment
  unfoldable pub get_config_from_environment : Bool → Properties → Properties
  get_config_from_environment r p0 =
      let p1 = set_confidence_threshold_from_env r p0 in
      let p2 = set_max_sentences_from_env r p1 in
      let p3 = set_no_input_timeout_milliseconds_from_env r p2 in
      let p4 = set_recognition_timeout_seconds_from_env r p3 in
      let p5 = set_no_input_timeout_enabled_from_env r p4 in
      let p6 = set_recognition_timeout_enabled_from_env r p5 in
      let p7 = set_infer_age_enabled_from_env r p6 in
      let p8 = set_infer_emotion_enabled_from_env r p7 in
      let p9 = set_infer_gender_enabled_from_env r p8 in
      let p10 = set_head_margin_milliseconds_from_env r p9 in
      let p11 = set_tail_margin_milliseconds_from_env r p10 in
      let p12 = set_wait_end_milliseconds_from_env r p11 in
      let p13 = set_continuous_mode_from_env r p12 in
      let p14 = set_max_segment_duration_from_env r p13 in
      let p15 = set_start_input_timers_from_env r p14 in
      let p16 = set_endpointer_auto_level_len_from_env r p15 in
      let p17 = set_endpointer_level_mode_from_env r p16 in
      let p18 = set_endpointer_level_threshold_from_env r p17 in
      let p19 = set_verify_buffer_utterance_from_env r p18 in
      let p20 = set_account_tag_from_env r p19 in
      let p21 = set_channel_identifier_from_env r p20 in
      let p22 = set_media_type_from_env r p21 in p22
