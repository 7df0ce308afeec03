-- ===== src/ServerState.antt =====
-- What the server of ws_mock/server.cc keeps per connection, and the answers that it builds.
use asr_sdk_cpp.Base.{
  ℕ, ◌+◌, Bool, true, false, Option, none, some, List, [], ◌∷◌, ◌==◌, if◌then◌else◌, Bytes,
}
use asr_sdk_cpp.Text.{codes, equal}
use asr_sdk_cpp.StringMap.{StringMap, find}
use asr_sdk_cpp.Outcome.{Outcome}
use asr_sdk_cpp.WsParser.{WsParser, initial, parse, get, add, set_cmd, set_version}

-- session; `audio_counter` is `none` while it is uninitialised.
pub record Session : Type 0 where
  pub session_id : ℕ
  pub audio_counter : Option ℕ
  pub answer_delay : ℕ

-- utility_server with the static variables of FillResponseWithParams. A connection is a number;
-- `sent` are the messages sent, each with its connection.
pub record Server : Type 0 where
  pub session_status : Bytes
  pub media_type : Bytes
  pub parser : WsParser
  pub next_sessionid : ℕ
  pub session_map : List (ℕ × Session)
  pub sent : List (ℕ × Bytes)

abbrev pub new_server : Server
new_server = record {
  session_status = codes "IDLE";
  media_type = [];
  parser = initial;
  next_sessionid = 0;
  session_map = [];
  sent = [];
}

-- What a call on the server does: an exception leaves the event loop.
pub data Answered (A : Type 0) : Type 0 where
  answered : A → Server → Answered A
  threw undefined : Answered A

-- session_map.find
unfoldable pub find_session : ℕ → List (ℕ × Session) → Option Session
find_session hdl [] = none
find_session hdl ((h, s) ∷ m) = let rest = find_session hdl m in if hdl == h then some s else rest

-- The session that an iterator stands for, changed
unfoldable pub put_session : ℕ → Session → List (ℕ × Session) → List (ℕ × Session)
put_session hdl s [] = []
put_session hdl s ((h, t) ∷ m) =
    let rest = put_session hdl s m in if hdl == h then (h, s) ∷ m else (h, t) ∷ rest

-- session_map.erase
unfoldable pub erase_session : ℕ → List (ℕ × Session) → List (ℕ × Session)
erase_session hdl [] = []
erase_session hdl ((h, t) ∷ m) =
    let rest = erase_session hdl m in if hdl == h then m else (h, t) ∷ rest

abbrev is_some : Option Session → Bool
is_some none = false
is_some (some s) = true

-- on_open; emplace leaves a session that is there.
unfoldable pub on_open : ℕ → Server → Server
on_open hdl s =
    let data' : Session = record {
      session_id = s.next_sessionid;
      audio_counter = none;
      answer_delay = 0;
    } in
    record s {
      next_sessionid = s.next_sessionid + 1;
      session_map =
          if is_some (find_session hdl s.session_map)
          then s.session_map
          else (hdl, data') ∷ s.session_map;
    }

-- on_close
unfoldable pub on_close : ℕ → Server → Server
on_close hdl s = record s { session_map = erase_session hdl s.session_map }

-- GenerateCompletionCause
pub record Cause : Type 0 where
  pub ok : Bool
  pub code : Bytes
  pub text : Bytes

unfoldable pub generate_completion_cause : WsParser → Cause
generate_completion_cause p = record { ok = true; code = codes "000"; text = codes "success" }

-- FillErrorResult
unfoldable pub fill_error_result : Bytes → Bytes → Bytes → Bytes → WsParser
fill_error_result version hndl code msg = add (codes "Message") msg (
    add (codes "Error-Code") code (
      add (codes "Result-Status") (codes "FAILURE") (
        add (codes "Session-Status") (codes "VERIFYING") (
          add (codes "Handle") hndl
            (set_version version (set_cmd (codes "REGONITION-RESULT") initial))))))

-- `if (t_value.valid()) value = t_value.get();`
abbrev pub or_before : Bytes → Option Bytes → Bytes
or_before value none = value
or_before value (some v) = v

-- The loop of FillResponseWithParams over the parameters asked for; `value` is kept from one
-- parameter to the next.
unfoldable pub answer_parameters : WsParser → StringMap → Bytes → WsParser → WsParser
answer_parameters known [] value p = p
answer_parameters known ((key, v) ∷ pars) value p =
    let value = or_before value (get known key) in
    answer_parameters known pars value (add key value p)

-- The parameters that SET_PARAMETERS sets, with the mark of an invalid one in the answer
abbrev pub note_media : Option Bytes → Server → Server
note_media none s = s
note_media (some v) s = record s { media_type = v }

abbrev pub note_invalid : Option Bytes → WsParser → Server → WsParser × Server
note_invalid none p s = (p, s)
note_invalid (some v) p s =
    let key = codes "InvalidParam" in
    let text = codes "ERR_INVALID_PARAMETER" in
    (add key text p, record s { parser = add key text s.parser })

unfoldable pub keep_parameters : WsParser → WsParser → Server → WsParser × Server
keep_parameters pp p s =
    note_invalid (find (codes "InvalidParam") pp.props) p
      (note_media (find (codes "Media-Type") pp.props) (record s { parser = pp }))

-- FillResponseWithParams on the message parsed
unfoldable pub fill_with : Bytes → WsParser → Server → WsParser × Server
fill_with version pp s =
    let starting = equal pp.command (codes "START_RECOGNITION") in
    let s = record s {
      session_status = if starting then codes "LISTENING" else s.session_status;
    } in
    let ret = generate_completion_cause pp in
    let p = set_version version (set_cmd (codes "RESPONSE") initial) in
    let p = add (codes "Error-Code") ret.code (add (codes "Message") ret.text p) in
    let p = add (codes "Result") (if ret.ok then codes "SUCCESS " else codes "FAILURE ") p in
    let p = add (codes "Session-Status") s.session_status p in
    let filled : WsParser × Server =
      if equal pp.command (codes "CREATE_SESSION")
      then (
        p,
        record s { session_status = codes "IDLE"; media_type = codes "application/octet-stream" },
      )
      else if equal pp.command (codes "GET_PARAMETERS")
      then (answer_parameters s.parser pp.props [] p, s)
      else if equal pp.command (codes "SET_PARAMETERS")
      then keep_parameters pp p s
      else (p, s) in
    (
      add (codes "Handle") (codes "202106091928510001 ") (add (codes "Method") pp.command filled.0),
      filled.1,
    )

abbrev pub answered_pair : WsParser × Server → Answered WsParser
answered_pair (p, s) = answered p s

-- FillResponseWithParams behind the parse of the message
abbrev pub fill_parsed : Bytes → Outcome WsParser (Unit {0}) → Server → Answered WsParser
fill_parsed version (Outcome.done _ pp) s = answered_pair (fill_with version pp s)
fill_parsed version (Outcome.threw e pp) s = threw
fill_parsed version Outcome.undefined s = undefined

-- FillResponseWithParams
unfoldable pub fill_response_with_params : Bytes → Bytes → Server → Answered WsParser
fill_response_with_params message version s = fill_parsed version (parse message) s
