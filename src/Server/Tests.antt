-- ===== src/Server/Tests.antt =====
-- The server's theorems at concrete messages.
use asr_sdk_cpp.Base.{ℕ, ◌≡◌, Bool, true, false, none, some, [], ◌∷◌, ◌++◌, refl, ap, Bytes}
use asr_sdk_cpp.Text.{codes, equal}
use asr_sdk_cpp.StringMap.{find}
use asr_sdk_cpp.TokenStream.{is_word}
use asr_sdk_cpp.WsParser.{parse, get}
use asr_sdk_cpp.WsParser.Message.{Holds}
use asr_sdk_cpp.AsrMessage.{Method, request, raw, send_audio, cancel_recognition, get_method_string}
use asr_sdk_cpp.AsrMessage.Names.{is_name-IsName, get_method_string-IsName}
use asr_sdk_cpp.AsrMessage.Wire.{IsRequest, parse-raw}
use asr_sdk_cpp.RecognitionResult.{RecognitionResult}
use asr_sdk_cpp.Recognizer
use asr_sdk_cpp.Recognizer.{Impl}
use asr_sdk_cpp.ResultHandler.Sample.{sample}
use asr_sdk_cpp.Client.{on_message, ignore_value}
use asr_sdk_cpp.Server.{says_last, echo_handler}
use asr_sdk_cpp.ServerState.{Server, new_server, find_session}
use asr_sdk_cpp.Server.Counter.{Leads, Has}
use asr_sdk_cpp.Server.Packets.{
  IsPacket, packets_nil, packets_cons, counted, told, handle_payloads, packets-told,
}
use asr_sdk_cpp.Server.Answers.{cancelling, idle, answer_text, proceed}
use asr_sdk_cpp.Server.Requests.{echo_handler-proceed}

abbrev takes : Bytes → Bool
takes text = true

bare-IsRequest : (c : Method) → IsRequest c (request c)
unfolding request is_word equal
bare-IsRequest c = record {
  start_line = refl;
  is_message = record {
    version = is_name-IsName false (codes "2.4") refl;
    command = get_method_string-IsName c;
    headers = tt;
    sorted = tt;
  };
}

bare-Holds :
    (c : Method) → Holds (codes "2.4") (get_method_string c) [] [] (parse (raw (request c)))
unfolding request
bare-Holds c = parse-raw c (bare-IsRequest c) refl refl

audio-IsPacket : IsPacket (raw (request send_audio))
unfolding equal get_method_string get find
audio-IsPacket =
    let h = bare-Holds send_audio in
    record {
      parser = h.parser;
      parsed = h.result;
      command = ap (λ w. equal w (codes "SEND_AUDIO")) h.command_is;
      not_last = ap (λ m. says_last (find (codes "LastPacket") m)) h.props_are;
    }

-- A server with one connection, behind its first request
abbrev connected : Server
connected = record new_server {
  session_map = (7, record { session_id = 0; audio_counter = some 0; answer_delay = 0 }) ∷ [];
}

connected-Has : Has 7 0 [] connected
unfolding find_session
connected-Has = record {
  session = record { session_id = 0; audio_counter = some 0; answer_delay = 0 };
  found = refl;
  counter = refl;
  sent = refl;
}

packets-told_example :
    Leads
      (Has 7 (counted 2) ([] ++ told 7 2))
      (handle_payloads takes 7 (raw (request send_audio) ∷ raw (request send_audio) ∷ []) connected)
packets-told_example =
    packets-told takes 7 (record { start = refl; result = refl }) connected
      (packets_cons audio-IsPacket (packets_cons audio-IsPacket packets_nil)) connected-Has

abbrev running : Impl (RecognitionResult ℕ)
running = record {
  session_status = Recognizer.none_yet;
  recognizing = true;
  sending = false;
  has_audio = true;
  config = none;
  lm = none;
  listener = 1 ∷ [];
  result = [];
  eptr = none;
  called = [];
  sent = [];
  notified = 0;
}

echo_handler-proceed_example :
    Leads
      (Has 7 0 ([] ++ (7, answer_text cancelling idle) ∷ []))
      (echo_handler takes 7 (raw (request cancel_recognition)) connected)
    × (on_message takes sample (answer_text cancelling idle) running
        ≡ ignore_value (proceed takes sample cancelling running))
unfolding find
echo_handler-proceed_example =
    echo_handler-proceed 7 takes takes sample cancelling idle (raw (request cancel_recognition))
      connected running (bare-Holds cancel_recognition) refl refl refl connected-Has refl refl
