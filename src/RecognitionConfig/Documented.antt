-- ===== src/RecognitionConfig/Documented.antt =====
-- An environment in which every variable that the README names holds the text of a property's value.
use asr_sdk_cpp.Base.{
  ℕ, ◌^◌, ◌<◌, ◌≡◌, Bool, true, false, some, [], ◌∷◌, Bytes, if◌then◌else◌, refl, arith,
}
use asr_sdk_cpp.Text.{codes, equal, to_string}
use asr_sdk_cpp.Text.Decimal.{stoul-to_string}
use asr_sdk_cpp.StringMap.{StringMap, find}
use asr_sdk_cpp.RecognitionConfig.{Properties, IsProperties}
use asr_sdk_cpp.RecognitionConfig.Environment.{
  Environment, set_integer, set_bool, set_string, get_config_from_environment,
  set_confidence_threshold_from_env, set_max_sentences_from_env,
  set_no_input_timeout_milliseconds_from_env, set_recognition_timeout_seconds_from_env,
  set_no_input_timeout_enabled_from_env, set_recognition_timeout_enabled_from_env,
  set_infer_age_enabled_from_env, set_infer_emotion_enabled_from_env,
  set_infer_gender_enabled_from_env, set_head_margin_milliseconds_from_env,
  set_tail_margin_milliseconds_from_env, set_wait_end_milliseconds_from_env,
  set_continuous_mode_from_env, set_max_segment_duration_from_env, set_start_input_timers_from_env,
  set_endpointer_auto_level_len_from_env, set_endpointer_level_mode_from_env,
  set_endpointer_level_threshold_from_env, set_verify_buffer_utterance_from_env,
  set_account_tag_from_env, set_channel_identifier_from_env, set_media_type_from_env,
}

abbrev pub truth : Bool → Bytes
truth b = if b then codes "true" else codes "false"

-- Every property under the name that the README gives its variable, with the text that setBool,
-- not the README, reads as a Boolean.
abbrev pub documented : Properties → StringMap
documented p =
    (codes "CONFIDENCE_THRESHOLD", to_string p.confidence_threshold)
    ∷ (codes "MAX_SENTENCES", to_string p.max_sentences)
    ∷ (codes "NO_INPUT_TIMEOUT_MILLISECONDS", to_string p.no_input_timeout_milliseconds)
    ∷ (codes "RECOG_TIMEOUT_SECONDS", to_string p.recog_timeout_seconds)
    ∷ (codes "NO_INPUT_TIMEOUT_ENABLED", truth p.no_input_timeout_enabled)
    ∷ (codes "RECOG_TIMEOUT_ENABLED", truth p.recog_timeout_enabled)
    ∷ (codes "INFER_AGE_ENABLED", truth p.infer_age_enabled)
    ∷ (codes "INFER_GENDER_ENABLED", truth p.infer_gender_enabled)
    ∷ (codes "INFER_EMOTION_ENABLED", truth p.infer_emotion_enabled)
    ∷ (codes "HEAD_MARGIN_MILLISECONDS", to_string p.head_margin_milliseconds)
    ∷ (codes "TAIL_MARGIN_MILLISECONDS", to_string p.tail_margin_milliseconds)
    ∷ (codes "WAIT_END_MILLISECONDS", to_string p.wait_end_milliseconds)
    ∷ (codes "CONTINUOUS_MODE", truth p.continuous_mode)
    ∷ (codes "MAX_SEGMENT_DURATION", to_string p.max_segment_duration)
    ∷ (codes "START_INPUT_TIMERS", truth p.start_input_timers)
    ∷ (codes "ENDPOINTER_AUTO_LEVEL_LEN", to_string p.endpointer_auto_level_len)
    ∷ (codes "ENDPOINTER_LEVEL_MODE", to_string p.endpointer_level_mode)
    ∷ (codes "ENDPOINTER_LEVEL_THRESHOLD", to_string p.endpointer_level_threshold)
    ∷ (codes "VERIFY_BUFFER_UTTERANCE", truth p.verify_buffer_utterance)
    ∷ (codes "ACCOUNT_TAG", p.account_tag)
    ∷ (codes "CHANNEL_IDENTIFIER", p.channel_identifier)
    ∷ (codes "MEDIA_TYPE", p.media_type)
    ∷ []

module _ (env : Environment) (r : Bool) where
  read_integer :
      (k : Bytes) (n old : ℕ)
      → env k ≡ some (to_string n)
      → n < 2 ^ 32
      → set_integer env k r old ≡ n
  unfolding set_integer
  read_integer k n old e h =
      rw (e, set_integer) (rw (stoul-to_string n (omega arith)) (omega arith))

  read_bool : (k : Bytes) (b old : Bool) → env k ≡ some (truth b) → set_bool env k r old ≡ b
  unfolding set_bool equal
  read_bool k true old e = rw (e, set_bool)
  read_bool k false old e = rw (e, set_bool)

  read_string : (k v old : Bytes) → env k ≡ some v → set_string env k r old ≡ v
  unfolding set_string
  read_string k v old e = rw (e, set_string)

-- An environment in which each documented variable holds the text of its property, a number below
-- 2^32, "true", "false" or a string, settles all properties, whatever they were. The emotion and
-- gender switches come out swapped, and continuous mode as the age switch. A Boolean variable that
-- holds "false" gives false, where the README says that its mere existence means true.
pub get_config-documented :
    (p old : Properties) (r : Bool)
    → IsProperties p
    → get_config_from_environment (λ k. find k (documented p)) r old ≡ (record p {
      infer_emotion_enabled = p.infer_gender_enabled;
      infer_gender_enabled = p.infer_emotion_enabled;
      continuous_mode = p.infer_age_enabled;
    })
unfolding find equal get_config_from_environment set_confidence_threshold_from_env
    set_max_sentences_from_env set_no_input_timeout_milliseconds_from_env
    set_recognition_timeout_seconds_from_env set_no_input_timeout_enabled_from_env
    set_recognition_timeout_enabled_from_env set_infer_age_enabled_from_env
    set_infer_emotion_enabled_from_env set_infer_gender_enabled_from_env
    set_head_margin_milliseconds_from_env set_tail_margin_milliseconds_from_env
    set_wait_end_milliseconds_from_env set_continuous_mode_from_env
    set_max_segment_duration_from_env set_start_input_timers_from_env
    set_endpointer_auto_level_len_from_env set_endpointer_level_mode_from_env
    set_endpointer_level_threshold_from_env set_verify_buffer_utterance_from_env
    set_account_tag_from_env set_channel_identifier_from_env set_media_type_from_env
get_config-documented p old r h =
    let env : Environment = λ k. find k (documented p) in
    λ i. record {
      confidence_threshold =
          read_integer env r (codes "CONFIDENCE_THRESHOLD") p.confidence_threshold
            old.confidence_threshold refl h.confidence_threshold i;
      max_sentences =
          read_integer env r (codes "MAX_SENTENCES") p.max_sentences old.max_sentences refl
            h.max_sentences i;
      no_input_timeout_milliseconds =
          read_integer env r (codes "NO_INPUT_TIMEOUT_MILLISECONDS") p.no_input_timeout_milliseconds
            old.no_input_timeout_milliseconds refl h.no_input_timeout_milliseconds i;
      recog_timeout_seconds =
          read_integer env r (codes "RECOG_TIMEOUT_SECONDS") p.recog_timeout_seconds
            old.recog_timeout_seconds refl h.recog_timeout_seconds i;
      no_input_timeout_enabled =
          read_bool env r (codes "NO_INPUT_TIMEOUT_ENABLED") p.no_input_timeout_enabled
            old.no_input_timeout_enabled refl i;
      recog_timeout_enabled =
          read_bool env r (codes "RECOG_TIMEOUT_ENABLED") p.recog_timeout_enabled
            old.recog_timeout_enabled refl i;
      infer_age_enabled =
          read_bool env r (codes "INFER_AGE_ENABLED") p.infer_age_enabled old.infer_age_enabled refl
            i;
      infer_gender_enabled =
          read_bool env r (codes "INFER_EMOTION_ENABLED") p.infer_emotion_enabled
            old.infer_gender_enabled refl i;
      infer_emotion_enabled =
          read_bool env r (codes "INFER_GENDER_ENABLED") p.infer_gender_enabled
            old.infer_emotion_enabled refl i;
      head_margin_milliseconds =
          read_integer env r (codes "HEAD_MARGIN_MILLISECONDS") p.head_margin_milliseconds
            old.head_margin_milliseconds refl h.head_margin_milliseconds i;
      tail_margin_milliseconds =
          read_integer env r (codes "TAIL_MARGIN_MILLISECONDS") p.tail_margin_milliseconds
            old.tail_margin_milliseconds refl h.tail_margin_milliseconds i;
      wait_end_milliseconds =
          read_integer env r (codes "WAIT_END_MILLISECONDS") p.wait_end_milliseconds
            old.wait_end_milliseconds refl h.wait_end_milliseconds i;
      continuous_mode =
          read_bool env r (codes "INFER_AGE_ENABLED") p.infer_age_enabled old.continuous_mode refl
            i;
      max_segment_duration =
          read_integer env r (codes "MAX_SEGMENT_DURATION") p.max_segment_duration
            old.max_segment_duration refl h.max_segment_duration i;
      start_input_timers =
          read_bool env r (codes "START_INPUT_TIMERS") p.start_input_timers old.start_input_timers
            refl i;
      endpointer_auto_level_len =
          read_integer env r (codes "ENDPOINTER_AUTO_LEVEL_LEN") p.endpointer_auto_level_len
            old.endpointer_auto_level_len refl h.endpointer_auto_level_len i;
      endpointer_level_mode =
          read_integer env r (codes "ENDPOINTER_LEVEL_MODE") p.endpointer_level_mode
            old.endpointer_level_mode refl h.endpointer_level_mode i;
      endpointer_level_threshold =
          read_integer env r (codes "ENDPOINTER_LEVEL_THRESHOLD") p.endpointer_level_threshold
            old.endpointer_level_threshold refl h.endpointer_level_threshold i;
      verify_buffer_utterance =
          read_bool env r (codes "VERIFY_BUFFER_UTTERANCE") p.verify_buffer_utterance
            old.verify_buffer_utterance refl i;
      account_tag = read_string env r (codes "ACCOUNT_TAG") p.account_tag old.account_tag refl i;
      channel_identifier =
          read_string env r (codes "CHANNEL_IDENTIFIER") p.channel_identifier old.channel_identifier
            refl i;
      media_type = read_string env r (codes "MEDIA_TYPE") p.media_type old.media_type refl i;
    }
