-- ===== src/RecognizerBuilder/Url.antt =====
-- The URL that a builder of recognizers holds.
use asr_sdk_cpp.Base.{ℕ, Bool, Option, List, [], ◌∷◌, Bytes, if◌then◌else◌}
use asr_sdk_cpp.RecognitionConfig.{Properties}
use asr_sdk_cpp.RecognizerBuilder
use asr_sdk_cpp.RecognizerBuilder.{
  RecognizerProperties, AudioEncoding, UrlResult, accepted, logic_error, invalid_argument,
  found_scheme, server_url,
}

-- A call of the builder
pub data Call : Type 0 where
  server_url_call : Bytes → Call
  credentials : Bytes → Bytes → Call
  recog_config : Option Properties → Call
  user_agent : Bytes → Call
  add_listener : ℕ → Call
  audio_sample_rate : ℕ → Call
  audio_encoding : AudioEncoding → Call
  max_wait_seconds : ℕ → Call
  connect_on_recognize : Bool → Call
  auto_close : Bool → Call
  log_path : Bytes → Call

abbrev after : UrlResult → RecognizerProperties → RecognizerProperties
after (accepted c) b = c
after logic_error b = b
after invalid_argument b = b

abbrev pub call : Call → RecognizerProperties → RecognizerProperties
call (server_url_call u) b = after (server_url u b) b
call (credentials u p) b = RecognizerBuilder.credentials u p b
call (recog_config c) b = RecognizerBuilder.recog_config c b
call (user_agent v) b = RecognizerBuilder.user_agent v b
call (add_listener l) b = RecognizerBuilder.add_listener l b
call (audio_sample_rate n) b = RecognizerBuilder.audio_sample_rate n b
call (audio_encoding e) b = RecognizerBuilder.audio_encoding e b
call (max_wait_seconds n) b = RecognizerBuilder.max_wait_seconds n b
call (connect_on_recognize v) b = RecognizerBuilder.connect_on_recognize v b
call (auto_close v) b = RecognizerBuilder.auto_close v b
call (log_path v) b = RecognizerBuilder.log_path v b

-- The builder behind calls, where what serverUrl throws is caught.
abbrev pub calls : List Call → RecognizerProperties → RecognizerProperties
calls [] b = b
calls (c ∷ cs) b = calls cs (call c b)

-- The last URL with a scheme among the calls, or else `u`
abbrev pub last_url : List Call → Bytes → Bytes
last_url [] u = u
last_url (server_url_call v ∷ cs) u = last_url cs (if found_scheme v then v else u)
last_url (_ ∷ cs) u = last_url cs u
