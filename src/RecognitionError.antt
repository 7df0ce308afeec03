-- ===== src/RecognitionError.antt =====
-- RecognitionError of src/recognition_error.cc, and a call that returns or throws it as a
-- RecognitionException.
use asr_sdk_cpp.Base.{not, [], ◌++◌, Bytes, if◌then◌else◌}
use asr_sdk_cpp.Text.{codes, empty}

-- RecognitionError::Code
pub data Code : Type 0 where
  failure session_timeout connection_failure active_recognition : Code

pub record RecognitionError : Type 0 where
  pub code : Code
  pub message : Bytes

abbrev code_string : Code → Bytes
code_string failure = codes "FAILURE"
code_string session_timeout = codes "SESSION_TIMEOUT"
code_string connection_failure = codes "CONNECTION_FAILURE"
code_string active_recognition = codes "ACTIVE_RECOGNITION"

-- RecognitionError::getString
unfoldable pub get_string : RecognitionError → Bytes
get_string e = code_string e.code ++ (if not (empty e.message) then codes ": " ++ e.message else [])

-- A call that returns, or throws a RecognitionException.
pub data Raising {ℓ} (A : Type ℓ) : Type ℓ where
  returned : A → Raising A
  raised : RecognitionError → Raising A

abbrev pub fail_with {ℓ} : {A : Type ℓ} → Code → Bytes → Raising A
fail_with c m = raised (record { code = c; message = m })
