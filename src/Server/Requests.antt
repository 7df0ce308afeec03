-- ===== src/Server/Requests.antt =====
-- A request of a recognition from the client to the server and back.
use asr_sdk_cpp.Base.{
  ℕ, ◌≡◌, ◌∙◌, Bool, true, false, Option, none, some, List, [], ◌∷◌, ◌++◌, ◌==◌, refl, sym, ap,
  subst, Bytes,
}
use asr_sdk_cpp.Text.{codes, equal}
use asr_sdk_cpp.StringMap.{StringMap, find}
use asr_sdk_cpp.Outcome.{done}
use asr_sdk_cpp.WsParser.{WsParser, parse}
use asr_sdk_cpp.WsParser.Message.{Holds}
use asr_sdk_cpp.AsrMessage.{get_method_string}
use asr_sdk_cpp.RecognitionResult.{RecognitionResult}
use asr_sdk_cpp.Recognizer.{Impl}
use asr_sdk_cpp.ResultHandler.{Json11}
use asr_sdk_cpp.Client.{on_message, ignore_value}
use asr_sdk_cpp.Server.{
  c_str, echo_handler, reset_session, on_session, count, handle_parsed, respond, send, and_then,
}
use asr_sdk_cpp.ServerState.{
  Session, Server, fill_with, keep_parameters, find_session, note_media, fill_response_with_params,
}
use asr_sdk_cpp.Server.Counter.{Leads, leads, Leads-then, Has, on_session-Has, counter_lem}
use asr_sdk_cpp.Server.Answers.{
  Asked, creating, parameters, starting, cancelling, method_of, Reported, text_of, reported,
  fill_with-answer, answer_text, c_str-answer, proceed, on_message-answer,
}

-- The counter behind a request
abbrev pub reset : Asked → ℕ → ℕ
reset creating n = 0
reset _ n = n

note_media-map : (v : Option Bytes) (s : Server) → (note_media v s).session_map ≡ s.session_map
note_media-map none s = refl
note_media-map (some v) s = refl

note_media-sent : (v : Option Bytes) (s : Server) → (note_media v s).sent ≡ s.sent
note_media-sent none s = refl
note_media-sent (some v) s = refl

module _ (hdl : ℕ) where
  fill_with-Has :
      (q : Asked) (pp : WsParser) {n : ℕ} {out : List (ℕ × Bytes)} (s : Server)
      → pp.command ≡ get_method_string (method_of q)
      → find (codes "InvalidParam") pp.props ≡ none
      → Has hdl n out s
      → Has hdl n out (fill_with (codes "2.4") pp s).1
  unfolding fill_with keep_parameters equal get_method_string
  fill_with-Has q pp s c e h = record {
    session = h.session;
    found = ap (find_session hdl) (map_kept q c) ∙ h.found;
    counter = h.counter;
    sent = sent_kept q c ∙ h.sent;
  }
    where
      map_kept :
          (q : Asked)
          → pp.command ≡ get_method_string (method_of q)
          → (fill_with (codes "2.4") pp s).1.session_map ≡ s.session_map
      map_kept creating c = rw c
      map_kept parameters c = rw c (rw e (note_media-map (find (codes "Media-Type") pp.props) _))
      map_kept starting c = rw c
      map_kept cancelling c = rw c

      sent_kept :
          (q : Asked)
          → pp.command ≡ get_method_string (method_of q)
          → (fill_with (codes "2.4") pp s).1.sent ≡ s.sent
      sent_kept creating c = rw c
      sent_kept parameters c = rw c (rw e (note_media-sent (find (codes "Media-Type") pp.props) _))
      sent_kept starting c = rw c
      sent_kept cancelling c = rw c

  reset-counter :
      (q : Asked) (ses : Session) {n : ℕ}
      → ses.audio_counter ≡ some n
      → (reset_session (get_method_string (method_of q)) ses).audio_counter ≡ some (reset q n)
  unfolding equal get_method_string
  reset-counter creating ses e = refl
  reset-counter parameters ses e = e
  reset-counter starting ses e = e
  reset-counter cancelling ses e = e

  not_audio : (q : Asked) → equal (get_method_string (method_of q)) (codes "SEND_AUDIO") ≡ false
  unfolding equal get_method_string
  not_audio creating = refl
  not_audio parameters = refl
  not_audio starting = refl
  not_audio cancelling = refl

  module _ (sends : Bytes → Bool) where
    sent-Has :
        (text : Bytes) {n : ℕ} {out : List (ℕ × Bytes)} (s : Server)
        → c_str text ≡ text
        → sends text ≡ true
        → Has hdl n out s
        → Leads (Has hdl n (out ++ (hdl, text) ∷ [])) (send sends hdl (c_str text) s)
    unfolding send
    sent-Has text s plain takes h = rw plain (
        rw plain (
          rw takes (
            leads _ (record {
              session = h.session;
              found = h.found;
              counter = h.counter;
              sent = ap (λ l. l ++ (hdl, text) ∷ []) h.sent;
            }))))

    -- Away from the two counts that it waits for, the end of the handler does nothing.
    count_nothing :
        (n : ℕ) {out : List (ℕ × Bytes)} (s : Server)
        → (n == 4) ≡ false
        → (n == 20) ≡ false
        → Has hdl n out s
        → Leads (Has hdl n out) (count sends hdl s)
    unfolding count
    count_nothing n {out} s four twenty h =
        rw (counter_lem h) (rw four (rw (counter_lem h) (rw twenty (leads s h))))

    -- The branch on a request, behind the answer that was made
    answer-Has :
        (q : Asked) (st : Reported) (w : Bytes) {n : ℕ} {out : List (ℕ × Bytes)} (s : Server)
        → w ≡ get_method_string (method_of q)
        → sends (answer_text q st) ≡ true
        → Has hdl n out s
        → Leads (Has hdl (reset q n) (out ++ (hdl, answer_text q st) ∷ [])) (
            and_then (on_session hdl (reset_session w) s) (λ _ s.
              and_then
                (send sends hdl (c_str (answer_text q st)) s)
                (λ _ s. on_session hdl (λ ses. record ses { answer_delay = 0 }) s)))
    answer-Has q st w {n} s c takes h =
        Leads-then _
          (on_session-Has hdl (reset q n) (reset_session w) s h (
            subst (λ w. (reset_session w h.session).audio_counter ≡ some (reset q n)) (sym c)
              (reset-counter q h.session h.counter)))
          (λ t g. Leads-then _ (sent-Has (answer_text q st) t (c_str-answer q st) takes g) (λ u f.
            on_session-Has hdl (reset q n) (λ ses. record ses { answer_delay = 0 }) u f f.counter))

    respond-Has :
        (q : Asked) (st : Reported) (payload : Bytes) (pp : WsParser) {n : ℕ}
        {out : List (ℕ × Bytes)} (s : Server)
        → parse payload ≡ done tt pp
        → pp.command ≡ get_method_string (method_of q)
        → find (codes "InvalidParam") pp.props ≡ none
        → s.session_status ≡ text_of st
        → sends (answer_text q (reported q st)) ≡ true
        → Has hdl n out s
        → Leads
            (Has hdl (reset q n) (out ++ (hdl, answer_text q (reported q st)) ∷ []))
            (respond sends hdl payload pp s)
    unfolding respond fill_response_with_params
    respond-Has q st payload pp {n} {out} s e c v status takes h =
        let filled = fill_with-Has q pp s c v h in
        rw e (
          rw (fill_with-answer q st pp s status c v) (
            answer-Has q (reported q st) pp.command (fill_with (codes "2.4") pp s).1 c takes
              filled))

    -- A request of a recognition that the server reads as one of version 2.4 with no header
    -- InvalidParam, while its session status is IDLE or LISTENING, on a connection that takes the
    -- answer and has a counter that is at neither of the two counts behind the request, is
    -- answered by one message; and the client, whatever its state, reads that message as the
    -- success of the request: it goes on with the request behind it, sends the audio, or ends the
    -- recognition.
    pub echo_handler-proceed :
        {J D F : Type 0} (accepts : Bytes → Bool) (json11 : Json11 J D F) (q : Asked)
        (st : Reported) (payload : Bytes) {m : StringMap} {b : Bytes} {n : ℕ}
        {out : List (ℕ × Bytes)} (s : Server) (i : Impl (RecognitionResult F))
        → Holds (codes "2.4") (get_method_string (method_of q)) m b (parse payload)
        → find (codes "InvalidParam") m ≡ none
        → s.session_status ≡ text_of st
        → sends (answer_text q (reported q st)) ≡ true
        → Has hdl n out s
        → (reset q n == 4) ≡ false
        → (reset q n == 20) ≡ false
        → Leads
            (Has hdl (reset q n) (out ++ (hdl, answer_text q (reported q st)) ∷ []))
            (echo_handler sends hdl payload s)
          × (on_message accepts json11 (answer_text q (reported q st)) i
              ≡ ignore_value (proceed accepts json11 q i))
    unfolding echo_handler handle_parsed
    echo_handler-proceed accepts json11 q st payload {n} s i read v status takes h four twenty =
        let request : equal read.parser.command (codes "SEND_AUDIO") ≡ false =
          ap (λ w. equal w (codes "SEND_AUDIO")) read.command_is ∙ not_audio q in
        (
          rw read.result (
              rw request (
                Leads-then _
                  (respond-Has q st payload read.parser s read.result read.command_is
                    (ap (find (codes "InvalidParam")) read.props_are ∙ v) status takes h)
                  (λ t g. count_nothing (reset q n) t four twenty g))),
          on_message-answer accepts json11 q (reported q st) i,
        )
