-- ===== src/SpeechRecognizer.antt =====
-- SpeechRecognizer of src/speech_recog.cc on SpeechRecognizer::Impl of src/speech_recog_impl.cc and
-- the connection of src/websocket_client.h, as a machine: the application's calls, which may block,
-- and what the connection does meanwhile.
pub mod Step
pub mod Inv
pub mod Calls
pub mod Reachable
pub mod Stuck
pub mod Blocked
mod Tests
use asr_sdk_cpp.Base.{
  ℕ, ◌+◌, Bool, true, false, not, ◌&&◌, ◌||◌, Option, none, some, List, [], ◌∷◌, ◌++◌, Bytes,
  if◌then◌else◌,
}
use asr_sdk_cpp.Text.{codes}
use asr_sdk_cpp.LanguageModelList.{LanguageModelList}
use asr_sdk_cpp.RecognizerBuilder.{RecognizerProperties}
use asr_sdk_cpp.RecognitionError.{RecognitionError, failure, connection_failure, active_recognition}
use asr_sdk_cpp.AsrMessage
use asr_sdk_cpp.AsrMessage.{raw, request}
use asr_sdk_cpp.SendMessage
use asr_sdk_cpp.Recognizer
use asr_sdk_cpp.Recognizer.{
  Impl, SessionStatus, Pending, on_error, call_listeners, notify_one, send_message,
}
use asr_sdk_cpp.Handlers
use asr_sdk_cpp.Handlers.{Handled, start_recognition_of}

-- What the source uses of websocketpp: whether `init_asio` returns, by whether it was called on the
-- endpoint before (it throws else), whether `send` takes a text, whether a URL asks for TLS,
-- whether `get_connection` succeeds on it, and base64_encode.
pub record Websocket : Type 0 where
  pub init_asio : Bool → Bool
  pub accepts : Bytes → Bool
  pub is_secure : Bytes → Bool
  pub connects : Bytes → Bool
  pub base64_encode : Bytes → Bytes

-- Impl::Status
pub data Status : Type 0 where
  k_open k_close k_failed k_connecting : Status

-- `status_ != kOpen`
unfoldable pub is_not_open : Status → Bool
is_not_open k_open = false
is_not_open _ = true

-- How a call of the application ended; `escaped` is an exception of websocketpp.
pub data CallOutcome (R : Type 0) : Type 0 where
  returned escaped : CallOutcome R
  results : List R → CallOutcome R
  raised : RecognitionError → CallOutcome R
  rethrown : Pending → CallOutcome R

-- What a call does behind Impl::open
pub data After : Type 0 where
  then_built then_send then_reset : After

-- The call that blocks: none, the wait of Impl::open, or that of waitRecognitionResult. The
-- constructor may throw, and leaves no object.
pub data Call : Type 0 where
  no_call waiting not_built : Call
  opening : After → Call

-- SpeechRecognizer with the other fields of Impl. `initialised` says whether init_asio was called
-- on the endpoint of the Impl. `authorization` is the header of the handshake,
-- `source_closed` counts the calls of AudioSource::close; `outcomes` are those of the calls.
pub record State (R : Type 0) : Type 0 where
  pub impl : Impl R
  pub status : Status
  pub is_open : Bool
  pub secure : Bool
  pub initialised : Bool
  pub authorization : Option Bytes
  pub properties : RecognizerProperties
  pub source_closed : ℕ
  pub call : Call
  pub outcomes : List (CallOutcome R)

-- What a step gives: a state, the end of the program, what C++ leaves undefined, or nothing where it
-- cannot be taken.
pub data Stepped (R : Type 0) : Type 0 where
  stepped : State R → Stepped R
  crashed undefined not_enabled : Stepped R

-- The exception of recognize on a recognition that runs
abbrev pub active_error : RecognitionError
active_error = record {
  code = active_recognition;
  message = codes "There is a recognition already running in this recognizier!";
}

abbrev pub timeout_error : RecognitionError
timeout_error = record { code = failure; message = codes "Timeout on speech recog" }

abbrev pub connection_error : Bytes → RecognitionError
connection_error url = record {
  code = connection_failure;
  message = codes "Failure on connecting to server " ++ url;
}

module _ {R : Type 0} where
  abbrev pub ends_with : CallOutcome R → State R → State R
  ends_with o s = record s { call = no_call; outcomes = s.outcomes ++ o ∷ [] }

  -- Impl::terminateSendMessageThread
  unfoldable pub terminate_send_message_thread : State R → State R
  terminate_send_message_thread s = record s {
    impl = record (s.impl) { sending = false };
    source_closed = if s.impl.has_audio then s.source_closed + 1 else s.source_closed;
  }

  -- Impl::close with WsClient::close
  unfoldable pub close_impl : State R → State R
  close_impl s = record (terminate_send_message_thread s) { is_open = false }

  -- `if(properties_->auto_close_) properties_->connect_on_recognize_ = true;`
  unfoldable pub connect_later : State R → State R
  connect_later s = record s {
    properties =
        if s.properties.auto_close
        then record (s.properties) { connect_on_recognize = true }
        else s.properties;
  }

  -- `std::make_shared<Impl>()`, with the calls and messages so far, as resetImpl fills it
  abbrev pub new_impl : State R → Impl R
  new_impl s = record {
    session_status = Recognizer.none_yet;
    recognizing = false;
    sending = false;
    has_audio = false;
    config = s.properties.recog_config;
    lm = none;
    listener = s.properties.listener;
    result = [];
    eptr = none;
    called = s.impl.called;
    sent = s.impl.sent;
    notified = s.impl.notified;
  }

  -- The fields that resetImpl moves into the new Impl, and the initial values of the others
  unfoldable pub renew : State R → State R
  renew s = record s {
    impl = new_impl s;
    status = k_connecting;
    is_open = false;
    secure = false;
    initialised = false;
    authorization = none;
    properties = record (s.properties) { recog_config = none; listener = [] };
  }

  -- The condition that waitRecognitionResult waits for
  unfoldable pub is_over : Impl R → Bool
  is_over i = elim i.result [
    | _ ∷ _ ↦ true
    | [] ↦ elim i.eptr [ some _ ↦ true | none ↦ not i.recognizing ]
  ]

  -- on_open, on_close and on_fail
  unfoldable pub on_open : State R → State R
  on_open s = record s { status = k_open; impl = notify_one s.impl }

  unfoldable pub on_close : State R → State R
  on_close s = record s { status = k_close; impl = notify_one s.impl }

  unfoldable pub on_fail : State R → State R
  on_fail s = record s {
    status = k_failed;
    impl = notify_one (record (s.impl) { eptr = some Recognizer.transport });
  }

  -- SpeechRecognizer::close
  unfoldable pub close_recognizer : State R → State R
  close_recognizer s = ends_with returned (if not s.is_open then s else close_impl s)

  -- The call when Impl::open throws: the constructor leaves no object.
  abbrev pub call_failed : After → CallOutcome R → State R → State R
  call_failed then_built o s = record (ends_with o s) { call = not_built }
  call_failed _ o s = ends_with o s

  -- The results of waitRecognitionResult, or the exception that waits. resetImpl with auto_close on
  -- an open connection destroys the Impl whose mutex `lk` holds, which `lk` then unlocks.
  abbrev pub give_results : List R → Option Pending → State R → Stepped R
  give_results rs (some e) s = stepped (ends_with (rethrown e) s)
  give_results rs none s =
      if s.properties.auto_close && s.is_open then undefined else stepped (ends_with (results rs) s)

  unfoldable pub take_results : State R → Stepped R
  take_results s =
      give_results s.impl.result s.impl.eptr (record s { impl = record (s.impl) { result = [] } })

  -- waitRecognitionResult up to its wait
  unfoldable pub wait_recognition_result : State R → Stepped R
  wait_recognition_result s =
      if not s.is_open then take_results s else stepped (record s { call = waiting })

  -- waitRecognitionResult behind its wait, with `lock_` held. It joins the sending thread, which
  -- may itself wait for `lock_`: then the call blocks for ever, and this step is never taken.
  unfoldable pub finish_wait : State R → Stepped R
  finish_wait s =
      if is_over s.impl
      then take_results (terminate_send_message_thread s)
      else stepped (ends_with (raised timeout_error) s)

module _ {R : Type 0} (ws : Websocket) where
  -- The first part of Impl::open, with WsClient::init
  unfoldable pub begin_open : After → State R → State R
  begin_open after s =
      let p = s.properties in
      let secure = ws.is_secure p.url in
      let header = codes "Basic " ++ ws.base64_encode (p.user ++ (codes ":" ++ p.passwd)) in
      let connecting = record s {
        secure = secure;
        initialised = true;
        authorization = if ws.connects p.url && secure then some header else s.authorization;
        is_open = if ws.connects p.url then true else s.is_open;
        call = opening after;
      } in
      let thrown = call_failed after escaped (record s { secure = secure }) in
      if ws.init_asio s.initialised then connecting else thrown

  -- The request of recognize, which ends it
  abbrev pub send_handled : Handled R → State R → Stepped R
  send_handled (Handlers.handled _ i) s = stepped (ends_with returned (record s { impl = i }))
  send_handled (Handlers.threw e i) s = stepped (ends_with (raised e) (record s { impl = i }))
  send_handled Handlers.undefined s = undefined

  unfoldable pub send_first : SessionStatus → State R → Stepped R
  send_first Recognizer.none_yet s = stepped (
      ends_with returned
        (record s { impl = send_message ws.accepts SendMessage.create_session s.impl }))
  send_first _ s = send_handled (start_recognition_of ws.accepts s.impl.lm s.impl) s

  -- The rest of the call behind Impl::open
  unfoldable pub continue_with : After → State R → Stepped R
  continue_with then_built s = stepped (ends_with returned (connect_later s))
  continue_with then_reset s = stepped (ends_with returned (connect_later s))
  continue_with then_send s = send_first s.impl.session_status s

  -- The second part of Impl::open, behind its wait for at most ten seconds
  unfoldable pub finish_open : After → State R → Stepped R
  finish_open after s =
      let error = connection_error s.properties.url in
      let opened = continue_with after (record s { is_open = true }) in
      if is_not_open s.status
      then stepped (
          call_failed after (raised error)
            (record s { impl = call_listeners (on_error error) s.impl }))
      else opened

  -- resetImpl behind the destructor of the Impl before
  unfoldable pub install_impl : State R → State R
  install_impl s =
      if not s.properties.connect_on_recognize
      then begin_open then_reset (renew s)
      else ends_with returned (renew s)

  -- resetImpl, called by the application. The destructor of the Impl before closes its connection;
  -- if that is not open and its sending thread was not joined, the program ends.
  unfoldable pub reset_impl : State R → Stepped R
  reset_impl s =
      if not s.is_open && s.impl.sending
      then crashed
      else stepped (install_impl (if s.is_open then close_impl s else s))

  -- The constructor, from the properties of the builder
  unfoldable pub build : State R → State R
  build s =
      let s = renew s in
      if not s.properties.connect_on_recognize
      then begin_open then_built s
      else ends_with returned s

  -- recognize
  unfoldable pub recognize : Option LanguageModelList → Bool → State R → Stepped R
  recognize lm has_audio s =
      let s' = record s {
        impl = record (s.impl) {
          recognizing = true;
          eptr = none;
          result = [];
          has_audio = has_audio;
          lm = lm;
        };
      } in
      if s.impl.recognizing
      then stepped (ends_with (raised active_error) s)
      else if not s.is_open
      then stepped (begin_open then_send s')
      else send_first s'.impl.session_status s'

  -- cancelRecognition
  unfoldable pub cancel_recognition : State R → State R
  cancel_recognition s =
      let message = raw (request AsrMessage.cancel_recognition) in
      let s = record s {
        impl = record (send_message ws.accepts message s.impl) { sending = false };
      } in
      ends_with returned (if s.properties.auto_close && s.is_open then close_impl s else s)
