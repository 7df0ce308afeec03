-- ===== src/Server/Counter.antt =====
-- The counter of a connection of the server, and what its handler sends by it.
use asr_sdk_cpp.Base.{
  ℕ, ◌+◌, suc, ◌≡◌, ◌∙◌, Bool, true, false, some, List, [], ◌∷◌, ◌++◌, ◌==◌, ltb, refl, sym, ap,
  subst, arith, Bytes, if◌then◌else◌, Bool-cases, inl, inr,
}
use asr_sdk_cpp.Server.{
  c_str, end_recognize, start_of_input_msg, result_char, or_else, and_then, change, on_session,
  counter_of, set_counter, increment, send, send_start_of_input, send_result, start_at, end_at,
}
use asr_sdk_cpp.ServerState.{Answered, Session, Server, answered, find_session, put_session}

-- A call that returns in a state of which `P` holds
pub data Leads (P : Server → Type 0) : Answered (Unit {0}) → Type 0 where
  leads : (s : Server) → P s → Leads P (answered tt s)

pub Leads-then :
    {P Q : Server → Type 0} {x : Answered (Unit {0})} (f : Unit {0} → Server → Answered (Unit {0}))
    → Leads P x
    → ((s : Server) → P s → Leads Q (f tt s))
    → Leads Q (and_then x f)
Leads-then f (leads s h) k = k s h

-- The counter of the session of a connection, and the messages sent
pub record Has (hdl n : ℕ) (out : List (ℕ × Bytes)) (s : Server) : Type 0 where
  pub session : Session
  pub found : find_session hdl s.session_map ≡ some session
  pub counter : session.audio_counter ≡ some n
  pub sent : s.sent ≡ out

find_session-put_session :
    (hdl : ℕ) (m : List (ℕ × Session)) (old ses : Session)
    → find_session hdl m ≡ some old
    → find_session hdl (put_session hdl ses m) ≡ some ses
unfolding find_session put_session
find_session-put_session hdl [] old ses h = absurd (ground arith)
find_session-put_session hdl ((k, t) ∷ m) old ses h = elim (Bool-cases (hdl == k)) [
  | inl e ↦ rw e (rw e)
  | inr e ↦
      let back : find_session hdl ((k, t) ∷ m) ≡ find_session hdl m = rw e in
      rw e (rw e (find_session-put_session hdl m old ses (sym back ∙ h)))
]

change-Has :
    (hdl n : ℕ) {m : ℕ} {out : List (ℕ × Bytes)} (s : Server) (h : Has hdl m out s)
    → Leads (Has hdl n out) (change hdl (set_counter n) (some h.session) s)
change-Has hdl n s h = leads _ (record {
  session = set_counter n h.session;
  found = find_session-put_session hdl s.session_map h.session _ h.found;
  counter = refl;
  sent = h.sent;
})

put-Has :
    (hdl n : ℕ) {m : ℕ} {out : List (ℕ × Bytes)} (s : Server)
    → Has hdl m out s
    → Leads (Has hdl n out) (on_session hdl (set_counter n) s)
put-Has hdl n {out} s h =
    subst (λ it. Leads (Has hdl n out) (change hdl (set_counter n) it s)) (sym h.found)
      (change-Has hdl n s h)

-- Any change of the session, by what it makes of the counter
pub on_session-Has :
    (hdl m : ℕ) (f : Session → Session) {n : ℕ} {out : List (ℕ × Bytes)} (s : Server)
    (h : Has hdl n out s)
    → (f h.session).audio_counter ≡ some m
    → Leads (Has hdl m out) (on_session hdl f s)
on_session-Has hdl m f {n} {out} s h e =
    subst (λ it. Leads (Has hdl m out) (change hdl f it s)) (sym h.found)
      (leads _ (record {
        session = f h.session;
        found = find_session-put_session hdl s.session_map h.session _ h.found;
        counter = e;
        sent = h.sent;
      }))

-- The counter behind the end of the handler
abbrev pub stop : ℕ → ℕ
stop n = if n == end_recognize then end_recognize + 1 else n

-- The counter behind an increment below its end
abbrev pub next : ℕ → ℕ
next n = if ltb n end_recognize then suc n else n

pub increment-Has :
    (hdl n : ℕ) {out : List (ℕ × Bytes)} (s : Server)
    → Has hdl n out s
    → Leads (Has hdl (next n) out) (
        increment hdl
          (find_session hdl s.session_map)
          (counter_of (find_session hdl s.session_map))
          s)
increment-Has hdl n {out} s h =
    subst (λ it. Leads (Has hdl (next n) out) (increment hdl it (counter_of it) s)) (sym h.found)
      (subst (λ c. Leads (Has hdl (next n) out) (increment hdl (some h.session) c s))
        (sym h.counter) (below (ltb n end_recognize)))
  where
    below :
        (b : Bool)
        → Leads
            (Has hdl (if b then suc n else n) out)
            (if b then change hdl (set_counter (suc n)) (some h.session) s else answered tt s)
    below true = change-Has hdl (suc n) s h
    below false = leads s h

-- The counter of the session of a connection, read
pub counter_lem :
    {hdl n : ℕ} {out : List (ℕ × Bytes)} {s : Server}
    → Has hdl n out s
    → counter_of (find_session hdl s.session_map) ≡ some n
counter_lem h = ap counter_of h.found ∙ h.counter

module _ (sends : Bytes → Bool) where
  -- The connection takes the two messages.
  pub record Takes : Type 0 where
    pub start : sends start_of_input_msg ≡ true
    pub result : sends result_char ≡ true

  start_text : c_str start_of_input_msg ≡ start_of_input_msg
  unfolding c_str
  start_text = refl

  result_text : c_str result_char ≡ result_char
  unfolding c_str
  result_text = refl

  send-Has :
      (hdl n : ℕ) {out : List (ℕ × Bytes)} (text : Bytes) (s : Server)
      → c_str text ≡ text
      → sends text ≡ true
      → Has hdl n out s
      → (y : Answered (Unit {0}))
      → Leads (Has hdl n (out ++ (hdl, text) ∷ [])) (or_else (send sends hdl text s) y)
  unfolding send
  send-Has hdl n text s plain takes h y = rw plain (
      rw takes (
        leads _ (record {
          session = h.session;
          found = h.found;
          counter = h.counter;
          sent = ap (λ l. l ++ (hdl, text) ∷ []) h.sent;
        })))

  module _ (hdl : ℕ) (takes : Takes) where
    start-Has :
        (n : ℕ) {out : List (ℕ × Bytes)} (s : Server)
        → Has hdl n out s
        → Leads
            (Has hdl n (out ++ (hdl, start_of_input_msg) ∷ []))
            (send_start_of_input sends hdl s)
    unfolding send_start_of_input
    start-Has n s h = send-Has hdl n start_of_input_msg s start_text takes.start h _

    result-Has :
        (n : ℕ) {out : List (ℕ × Bytes)} (s : Server)
        → Has hdl n out s
        → Leads (Has hdl n (out ++ (hdl, result_char) ∷ [])) (send_result sends hdl s)
    unfolding send_result
    result-Has n s h = send-Has hdl n result_char s result_text takes.result h _

    pub start_at-Has :
        (n : ℕ) {out : List (ℕ × Bytes)} (s : Server)
        → Has hdl n out s
        → Leads
            (Has hdl n (if n == 4 then out ++ (hdl, start_of_input_msg) ∷ [] else out))
            (start_at sends hdl (counter_of (find_session hdl s.session_map)) s)
    start_at-Has n {out} s h =
        subst
          (λ c.
            Leads (Has hdl n (if n == 4 then out ++ (hdl, start_of_input_msg) ∷ [] else out))
              (start_at sends hdl c s))
          (sym (counter_lem h)) (at_four (n == 4))
      where
        at_four :
            (b : Bool)
            → Leads
                (Has hdl n (if b then out ++ (hdl, start_of_input_msg) ∷ [] else out))
                (if b then send_start_of_input sends hdl s else answered tt s)
        at_four true = start-Has n s h
        at_four false = leads s h

    pub end_at-Has :
        (n : ℕ) {out : List (ℕ × Bytes)} (s : Server)
        → Has hdl n out s
        → Leads
            (Has hdl (stop n) (if n == end_recognize then out ++ (hdl, result_char) ∷ [] else out))
            (end_at sends hdl (counter_of (find_session hdl s.session_map)) s)
    end_at-Has n {out} s h =
        subst
          (λ c.
            Leads
              (Has hdl (stop n)
                (if n == end_recognize then out ++ (hdl, result_char) ∷ [] else out))
              (end_at sends hdl c s))
          (sym (counter_lem h)) (at_stop (n == end_recognize))
      where
        at_stop :
            (b : Bool)
            → Leads
                (Has hdl
                  (if b then end_recognize + 1 else n)
                  (if b then out ++ (hdl, result_char) ∷ [] else out))
                (if b
                  then and_then
                      (send_result sends hdl s)
                      (λ _ s. on_session hdl (set_counter (end_recognize + 1)) s)
                  else answered tt s)
        at_stop true =
            Leads-then (λ _ s. on_session hdl (set_counter (end_recognize + 1)) s)
              (result-Has n s h) (λ t g. put-Has hdl (end_recognize + 1) t g)
        at_stop false = leads s h
