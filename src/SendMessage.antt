-- ===== src/SendMessage.antt =====
-- ASRSendMessage of src/send_message.cc: the messages that the client sends. A call gives the text
-- that it hands to Impl::sendMessage.
pub mod Settings
pub mod Numbers
pub mod Parameters
pub mod Reading
pub mod Recognition
mod Tests
use asr_sdk_cpp.Base.{ℕ, Bool, not, ◌&&◌, [], ◌∷◌, ◌==◌, Bytes, length, if◌then◌else◌}
use asr_sdk_cpp.Text.{codes, empty, to_string, bool_to_string}
use asr_sdk_cpp.RecognitionError
use asr_sdk_cpp.RecognitionError.{Raising, returned, fail_with, failure}
use asr_sdk_cpp.LanguageModelList.{LanguageModelList, get_uri, get_grammar_body}
use asr_sdk_cpp.RecognitionConfig.{Properties}
use asr_sdk_cpp.RecognitionConfig.Getters
use asr_sdk_cpp.AsrMessage.{AsrMessage, request, set_header, set_extra, raw}
use asr_sdk_cpp.AsrMessage

-- ASRSendMessage::createSession, its request
unfoldable pub session_request : AsrMessage
session_request =
    set_header (codes "User-Agent") (codes "ASR Client") (request AsrMessage.create_session)

unfoldable pub create_session : Bytes
create_session = raw session_request

-- `if (n)` on a number
abbrev pub nonzero : ℕ → Bool
nonzero n = not (n == 0)

-- `if (b) request.set_header(key, value);`
abbrev pub set_if : Bool → Bytes → Bytes → AsrMessage → AsrMessage
set_if b key value r = if b then set_header key value r else r

-- ASRSendMessage::setParameters, its request
unfoldable pub parameters_request : Properties → AsrMessage
parameters_request p =
    let confidence_threshold = Getters.confidence_threshold p in
    let max_sentences = Getters.max_sentences p in
    let no_input_timeout_enabled = Getters.no_input_timeout_enabled p in
    let no_input_timeout_milliseconds = Getters.no_input_timeout_milliseconds p in
    let recog_timeout_enabled = Getters.recognition_timeout_enabled p in
    let recog_timeout_seconds = Getters.recognition_timeout_seconds p in
    let infer_age_enabled = Getters.infer_age_enabled p in
    let infer_emotion_enabled = Getters.infer_emotion_enabled p in
    let infer_gender_enabled = Getters.infer_gender_enabled p in
    let head_margin_milliseconds = Getters.head_margin_milliseconds p in
    let tail_margin_milliseconds = Getters.tail_margin_milliseconds p in
    let wait_end_milliseconds = Getters.wait_end_milliseconds p in
    let continuous_mode = Getters.continuous_mode p in
    let max_segment_duration = Getters.max_segment_duration p in
    let start_input_timers = Getters.start_input_timers p in
    let endpointer_level_mode = Getters.endpointer_level_mode p in
    let endpointer_auto_level_len = Getters.endpointer_auto_level_len p in
    let endpointer_level_threshold = Getters.endpointer_level_threshold p in
    let verify_buffer_utterance = Getters.verify_buffer_utterance p in
    let account_tag = Getters.account_tag p in
    let channel_identifier = Getters.channel_identifier p in
    let media_type = Getters.media_type p in
    let r = request AsrMessage.set_parameters in
    let r =
      set_if (nonzero confidence_threshold) (codes "decoder.confidenceThreshold")
        (to_string confidence_threshold) r in
    let r =
      set_if (nonzero max_sentences) (codes "decoder.maxSentences") (to_string max_sentences) r in
    let r =
      if no_input_timeout_enabled
      then set_if (nonzero no_input_timeout_milliseconds) (codes "noInputTimeout.value")
          (to_string no_input_timeout_milliseconds)
          (set_header (codes "noInputTimeout.enabled") (bool_to_string no_input_timeout_enabled) r)
      else r in
    let r =
      if recog_timeout_enabled
      then set_if (nonzero recog_timeout_seconds) (codes "recognitionTimeout.value")
          (to_string recog_timeout_seconds)
          (set_header (codes "recognitionTimeout.enabled") (bool_to_string recog_timeout_enabled) r)
      else r in
    let r = set_if infer_age_enabled (codes "Infer-age-enabled") (codes "true") r in
    let r = set_if infer_emotion_enabled (codes "Infer-emotion-enabled") (codes "true") r in
    let r = set_if infer_gender_enabled (codes "Infer-gender-enabled") (codes "true") r in
    let r =
      set_if (nonzero head_margin_milliseconds) (codes "endpointer.headMargin")
        (to_string head_margin_milliseconds) r in
    let r =
      set_if (nonzero tail_margin_milliseconds) (codes "endpointer.tailMargin")
        (to_string tail_margin_milliseconds) r in
    let r =
      set_if (nonzero wait_end_milliseconds) (codes "endpointer.waitEnd")
        (to_string wait_end_milliseconds) r in
    let r = set_if continuous_mode (codes "decoder.continuousMode") (codes "true") r in
    let r =
      set_if (nonzero max_segment_duration) (codes "endpointer.maxSegmentDuration")
        (to_string max_segment_duration) r in
    let r =
      set_if start_input_timers (codes "decoder.startInputTimers")
        (bool_to_string start_input_timers) r in
    let r =
      if nonzero endpointer_level_mode
      then (let r = set_header (codes "endpointer.levelMode") (to_string endpointer_level_mode) r in
          let r =
            set_if (endpointer_level_mode == 1 && nonzero endpointer_auto_level_len)
              (codes "endpointer.autoLevelLen") (to_string endpointer_auto_level_len) r in
          set_if (endpointer_level_mode == 2 && nonzero endpointer_level_threshold)
            (codes "endpointer.levelThreshold") (to_string endpointer_level_threshold) r)
      else r in
    let r = set_if verify_buffer_utterance (codes "Ver-Buffer-Utterance") (codes "true") r in
    let r = set_if (not (empty account_tag)) (codes "licenseManager.accountTag") account_tag r in
    let r =
      set_if (not (empty channel_identifier)) (codes "Channel-Identifier") channel_identifier r in
    let r = set_if (not (empty media_type)) (codes "Media-Type") media_type r in r

unfoldable pub set_parameters : Properties → Bytes
set_parameters p = raw (parameters_request p)

-- ASRSendMessage::startRecognition, its request from the two texts that it reads
unfoldable pub recognition_request : Bytes → Bytes → Raising AsrMessage
recognition_request lm_uri grammar_body =
    let r =
      set_header (codes "Accept") (codes "application/json")
        (request AsrMessage.start_recognition) in
    let with_body = λ (content_type : Bytes) (extra : Bytes) (r : AsrMessage).
      set_header (codes "Content-Length") (to_string (length extra))
        (set_extra extra (set_header (codes "Content-Type") content_type r)) in
    if not (empty lm_uri)
    then returned (with_body (codes "text/uri-list") lm_uri r)
    else if not (empty grammar_body)
    then returned (
        with_body (codes "application/srgs") grammar_body
          (set_header (codes "Content-ID") (codes "gram") r))
    else fail_with failure (codes "lm uri and grammar body is emprty")

abbrev pub raw_of : Raising AsrMessage → Raising Bytes
raw_of (returned r) = returned (raw r)
raw_of (RecognitionError.raised e) = RecognitionError.raised e

unfoldable pub start_recognition : LanguageModelList → Raising Bytes
start_recognition lm = raw_of (recognition_request (get_uri lm) (get_grammar_body lm))
