-- ===== src/RecognitionResult/Status.antt =====
-- The status of a result and its text.
use asr_sdk_cpp.Base.{◌≡◌, some, refl}
use asr_sdk_cpp.Text.{equal}
use asr_sdk_cpp.RecognitionResult.{
  Code, processing, recognized, no_match, no_input_timeout, max_speech, early_speech,
  recognition_timeout, no_speech, canceled, failure, get_string, status_from,
}

-- The status that a text stands for: that of the result in progress stands for no match.
abbrev pub settled : Code → Code
settled processing = no_match
settled c = c

-- The constructor reads the text of each status back as that status, but a result in progress
-- becomes one with no match.
pub status_from-get_string : (c : Code) → status_from (get_string c) ≡ some (settled c)
unfolding status_from get_string equal
status_from-get_string processing = refl
status_from-get_string recognized = refl
status_from-get_string no_match = refl
status_from-get_string no_input_timeout = refl
status_from-get_string max_speech = refl
status_from-get_string early_speech = refl
status_from-get_string recognition_timeout = refl
status_from-get_string no_speech = refl
status_from-get_string canceled = refl
status_from-get_string failure = refl
