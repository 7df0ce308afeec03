-- ===== src/Exceptions.antt =====
-- The exception classes of include/aux/exceptions.h.
use asr_sdk_cpp.Base.{ℕ, Bool, not, [], ◌++◌, Bytes, if◌then◌else◌}
use asr_sdk_cpp.Text.{codes, to_string}
use asr_sdk_cpp.StringMap.{StringMap}

-- Error
pub data Error : Type 0 where
  parser lib_asr ws_asr config invalid_header : Error
  grammar_load_failure grammar_compilation_failure recognizer_error uri_failure : Error
  illegal_value_header missing_required_header : Error

-- Exception
pub record Exception : Type 0 where
  pub msg : Bytes
  pub code : Error
  pub err : Bytes
  pub func : Bytes
  pub src_file : Bytes
  pub line : ℕ

-- FormatMessage; `ndebug` says whether NDEBUG is defined.
unfoldable pub format_message : Bool → Exception → Exception
format_message ndebug e =
    let place =
      codes " on: "
      ++ (e.func ++ (codes " in: " ++ (e.src_file ++ (codes " line: " ++ to_string e.line)))) in
    record e { msg = e.err ++ (if not ndebug then place else []) }

-- The full constructor
unfoldable pub new_exception : Bool → Error → Bytes → Bytes → Bytes → ℕ → Exception
new_exception ndebug code err func src_file line =
    format_message ndebug
      (record { msg = []; code = code; err = err; func = func; src_file = src_file; line = line })

-- what
unfoldable pub what : Exception → Bytes
what e = e.msg

-- ExceptionParameter
pub record ExceptionParameter : Type 0 where
  pub base : Exception
  pub headers : StringMap

unfoldable pub new_exception_parameter :
    Bool → Error → Bytes → Bytes → Bytes → ℕ → StringMap → ExceptionParameter
new_exception_parameter ndebug code err func src_file line headers = record {
  base = new_exception ndebug code err func src_file line;
  headers = headers;
}

unfoldable pub params : ExceptionParameter → StringMap
params e = e.headers
