-- ===== src/Server.antt =====
-- The handler of the server of ws_mock/server.cc that stands in for the recognition server in tests:
-- what it sends on each message.
pub mod Counter
pub mod Packets
pub mod Answers
pub mod Requests
mod Tests
use asr_sdk_cpp.Base.{
  ℕ, ◌+◌, suc, Bool, true, false, not, Option, none, some, List, [], ◌∷◌, ◌++◌, ◌==◌, ltb,
  if◌then◌else◌, Bytes,
}
use asr_sdk_cpp.Text.{codes, equal, contains}
use asr_sdk_cpp.StringMap.{StringMap, find}
use asr_sdk_cpp.Outcome
use asr_sdk_cpp.Outcome.{Outcome}
use asr_sdk_cpp.WsParser
use asr_sdk_cpp.WsParser.{WsParser, initial, parse, get, add, set_cmd, set_version, str}
use asr_sdk_cpp.ServerState.{
  Answered, Session, Server, new_server, find_session, put_session, erase_session, on_open,
  on_close, Cause, generate_completion_cause, fill_error_result, or_before, answer_parameters,
  note_media, note_invalid, keep_parameters, fill_with, answered_pair, fill_parsed,
  fill_response_with_params, answered, threw, undefined,
}

-- std::string(text.c_str())
unfoldable pub c_str : Bytes → Bytes
c_str [] = []
c_str (c ∷ cs) = let rest = c_str cs in if c == 0 then [] else c ∷ rest

-- END_RECOGNIZE
abbrev pub end_recognize : ℕ
end_recognize = 20

-- The message of SendStartOfInput
abbrev pub start_of_input_msg : Bytes
start_of_input_msg =
    codes "ASR 2.4 START_OF_SPEECH\r\nHandle: dee87ac1-ab75-464c-8f1d-8cb62fc24c57\r\n"
    ++ codes "Session-Status: LISTENING\r\n\r\n"

-- The message of SendResult
abbrev pub result_char : Bytes
result_char =
    codes "ASR 2.4 RECOGNITION_RESULT\r\nHandle: 202204121653500000\r\n"
    ++ (codes "Result-Status: RECOGNIZED\r\nSession-Status: IDLE\r\n"
        ++ (codes "Content-Length: 269\r\nContent-Type: application/json\r\n\r\n"
            ++ (codes
                  "{\"alternatives\":[{\"text\":\"2345678\",\"words\":[{\"text\":\"2345678\",\"score\":"
                ++ (codes
                      "99,\"start_time\":1.1,\"end_time\":3.92}],\"score\":99,\"lm\":\"builtin:slm/general\"}],"
                    ++ (codes
                          "\"segment_index\":0,\"last_segment\":true,\"final_result\":true,\"start_time\":0.95,"
                        ++ codes "\"end_time\":4.01,\"result_status\":\"RECOGNIZED\"}")))))

-- GetResultName
abbrev pub name_for : Option Bytes → Bytes
name_for none = codes "result-default.ws"
name_for (some value) =
    if contains value (codes "rover") then codes "result-cars.ws" else codes "result-default.ws"

unfoldable pub get_result_name : Server → Bytes
get_result_name s = name_for (get s.parser (codes "hints.words"))

-- `catch (const std::exception& e)`
abbrev pub or_else : Answered (Unit {0}) → Answered (Unit {0}) → Answered (Unit {0})
or_else (answered a s) y = answered a s
or_else threw y = y
or_else undefined y = undefined

abbrev pub and_then : {A B : Type 0} → Answered A → (A → Server → Answered B) → Answered B
and_then (answered a s) f = f a s
and_then threw f = threw
and_then undefined f = undefined

-- An assignment to a field of the session of an iterator; undefined at the end of the map
abbrev pub change : ℕ → (Session → Session) → Option Session → Server → Answered (Unit {0})
change hdl f none s = undefined
change hdl f (some ses) s =
    answered tt (record s { session_map = put_session hdl (f ses) s.session_map })

abbrev pub on_session : ℕ → (Session → Session) → Server → Answered (Unit {0})
on_session hdl f s = change hdl f (find_session hdl s.session_map) s

-- The counter of the session of an iterator; undefined at the end of the map, or before a value
-- was stored
abbrev pub counter_of : Option Session → Option ℕ
counter_of none = none
counter_of (some ses) = ses.audio_counter

abbrev pub set_counter : ℕ → Session → Session
set_counter n ses = record ses { audio_counter = some n }

-- What a request changes in the session
abbrev pub reset_session : Bytes → Session → Session
reset_session command ses =
    if equal command (codes "CREATE_SESSION")
    then record ses { audio_counter = some 0; answer_delay = 0 }
    else if equal command (codes "RELEASE_SESSION")
    then record ses { audio_counter = some 0 }
    else ses

-- The increment of the counter, below its end
abbrev pub increment : ℕ → Option Session → Option ℕ → Server → Answered (Unit {0})
increment hdl it none s = undefined
increment hdl it (some n) s =
    if ltb n end_recognize then change hdl (set_counter (suc n)) it s else answered tt s

-- `last.valid() && last.get() == "true"`
abbrev pub says_last : Option Bytes → Bool
says_last none = false
says_last (some v) = equal v (codes "true")

module _ (sends : Bytes → Bool) where
  -- send, which throws if the connection does not take the text
  unfoldable pub send : ℕ → Bytes → Server → Answered (Unit {0})
  send hdl text s =
      if sends (c_str text)
      then answered tt (record s { sent = s.sent ++ (hdl, c_str text) ∷ [] })
      else threw

  -- SendStartOfInput
  unfoldable pub send_start_of_input : ℕ → Server → Answered (Unit {0})
  send_start_of_input hdl s = or_else (send hdl start_of_input_msg s) (answered tt s)

  -- SendResult
  unfoldable pub send_result : ℕ → Server → Answered (Unit {0})
  send_result hdl s = or_else (send hdl result_char s) (
      send hdl
        (str (
          fill_error_result (codes "1.0") (codes "67314b44-8491-47e9-a418-332eb8839bbe")
            (codes "016") (codes "connection-timeout")))
        s)

  -- The end of echo_handler: what the counter calls for
  abbrev pub start_at : ℕ → Option ℕ → Server → Answered (Unit {0})
  start_at hdl none s = undefined
  start_at hdl (some n) s = if n == 4 then send_start_of_input hdl s else answered tt s

  abbrev pub end_at : ℕ → Option ℕ → Server → Answered (Unit {0})
  end_at hdl none s = undefined
  end_at hdl (some n) s =
      let ending =
        and_then (send_result hdl s) (λ _ s. on_session hdl (set_counter (end_recognize + 1)) s) in
      if n == end_recognize then ending else answered tt s

  unfoldable pub count : ℕ → Server → Answered (Unit {0})
  count hdl s =
      and_then (start_at hdl (counter_of (find_session hdl s.session_map)) s)
        (λ _ s. end_at hdl (counter_of (find_session hdl s.session_map)) s)

  -- The branch of echo_handler on a request
  unfoldable pub respond : ℕ → Bytes → WsParser → Server → Answered (Unit {0})
  respond hdl payload parser s =
      and_then (fill_response_with_params payload (codes "2.4") s) (λ ans s.
        and_then (on_session hdl (reset_session parser.command) s) (λ _ s.
          and_then (send hdl (c_str (str ans)) s)
            (λ _ s. on_session hdl (λ ses. record ses { answer_delay = 0 }) s)))

  -- The branch of echo_handler on a packet of audio
  unfoldable pub take_packet : ℕ → WsParser → Server → Answered (Unit {0})
  take_packet hdl parser s =
      let it = find_session hdl s.session_map in
      and_then (increment hdl it (counter_of it) s) (λ _ s.
        let ending =
          and_then (on_session hdl (set_counter end_recognize) s)
            (λ _ s. send_start_of_input hdl s) in
        if says_last (get parser (codes "LastPacket")) then ending else answered tt s)

  -- echo_handler behind the parse of the payload
  unfoldable pub handle_parsed : ℕ → Bytes → WsParser → Server → Answered (Unit {0})
  handle_parsed hdl payload parser s =
      let is_audio = equal parser.command (codes "SEND_AUDIO") in
      let first = if not is_audio then respond hdl payload parser s else take_packet hdl parser s in
      and_then first (λ _ s. count hdl s)

  abbrev pub handle_outcome : ℕ → Bytes → Outcome WsParser (Unit {0}) → Server → Answered (Unit {0})
  handle_outcome hdl payload (Outcome.done _ parser) s = handle_parsed hdl payload parser s
  handle_outcome hdl payload (Outcome.threw e parser) s = threw
  handle_outcome hdl payload Outcome.undefined s = undefined

  -- echo_handler
  unfoldable pub echo_handler : ℕ → Bytes → Server → Answered (Unit {0})
  echo_handler hdl payload s = handle_outcome hdl payload (parse payload) s
