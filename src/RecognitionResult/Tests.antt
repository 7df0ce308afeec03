-- ===== src/RecognitionResult/Tests.antt =====
-- The theorems on results at concrete ones.
use asr_sdk_cpp.Base.{◌≡◌, some}
use asr_sdk_cpp.RecognitionResult.{canceled, get_string, status_from}
use asr_sdk_cpp.RecognitionResult.Status.{settled, status_from-get_string}

status_from-get_string_example : status_from (get_string canceled) ≡ some (settled canceled)
status_from-get_string_example = status_from-get_string canceled
