-- ===== src/RecognizerBuilder.antt =====
-- SpeechRecognizer::Builder of src/speech_recog_builder.cc, on SpeechRecognizer::Properties. A
-- listener is a number; build() opens a connection and is left out.
pub mod Url
mod Tests
use asr_sdk_cpp.Base.{
  ℕ, Bool, false, ◌||◌, not, Option, none, some, List, [], ◌∷◌, ◌++◌, Bytes, if◌then◌else◌,
}
use asr_sdk_cpp.Text.{codes, empty, starts_with}
use asr_sdk_cpp.RecognitionConfig.{Properties}

pub data AudioEncoding : Type 0 where
  linear16 alaw ulaw : AudioEncoding

-- SpeechRecognizer::Properties; `none` is a field left uninitialised.
pub record RecognizerProperties : Type 0 where
  pub url : Bytes
  pub user : Bytes
  pub passwd : Bytes
  pub user_agent : Bytes
  pub audio_sample_rate : Option ℕ
  pub audio_encoding : Option AudioEncoding
  pub recog_config : Option Properties
  pub listener : List ℕ
  pub max_wait_seconds : ℕ
  pub connect_on_recognize : Bool
  pub auto_close : Bool
  pub log_path : Bytes

-- SpeechRecognizer::Builder::Builder
abbrev pub new_builder : RecognizerProperties
new_builder = record {
  url = [];
  user = [];
  passwd = [];
  user_agent = [];
  audio_sample_rate = none;
  audio_encoding = none;
  recog_config = none;
  listener = [];
  max_wait_seconds = 30;
  connect_on_recognize = false;
  auto_close = false;
  log_path = codes "log.txt";
}

-- What serverUrl throws, or the builder
pub data UrlResult : Type 0 where
  accepted : RecognizerProperties → UrlResult
  logic_error invalid_argument : UrlResult

-- `(url.find("ws://") == 0) || (url.find("wss://") == 0)`
abbrev pub found_scheme : Bytes → Bool
found_scheme url = starts_with (codes "ws://") url || starts_with (codes "wss://") url

-- SpeechRecognizer::Builder::serverUrl
unfoldable pub server_url : Bytes → RecognizerProperties → UrlResult
server_url url b =
    if empty url
    then logic_error
    else if not (found_scheme url)
    then invalid_argument
    else accepted (record b { url = url })

unfoldable pub credentials : Bytes → Bytes → RecognizerProperties → RecognizerProperties
credentials user passwd b = record b { user = user; passwd = passwd }

unfoldable pub recog_config : Option Properties → RecognizerProperties → RecognizerProperties
recog_config config b = record b { recog_config = config }

unfoldable pub user_agent : Bytes → RecognizerProperties → RecognizerProperties
user_agent value b = record b { user_agent = value }

unfoldable pub add_listener : ℕ → RecognizerProperties → RecognizerProperties
add_listener l b = record b { listener = b.listener ++ l ∷ [] }

unfoldable pub audio_sample_rate : ℕ → RecognizerProperties → RecognizerProperties
audio_sample_rate value b = record b { audio_sample_rate = some value }

unfoldable pub audio_encoding : AudioEncoding → RecognizerProperties → RecognizerProperties
audio_encoding value b = record b { audio_encoding = some value }

unfoldable pub max_wait_seconds : ℕ → RecognizerProperties → RecognizerProperties
max_wait_seconds value b = record b { max_wait_seconds = value }

unfoldable pub connect_on_recognize : Bool → RecognizerProperties → RecognizerProperties
connect_on_recognize value b = record b { connect_on_recognize = value }

unfoldable pub auto_close : Bool → RecognizerProperties → RecognizerProperties
auto_close value b = record b { auto_close = value }

unfoldable pub log_path : Bytes → RecognizerProperties → RecognizerProperties
log_path value b = record b { log_path = value }
