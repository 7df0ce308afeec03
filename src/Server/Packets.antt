-- ===== src/Server/Packets.antt =====
-- What the server sends while packets of audio arrive.
use asr_sdk_cpp.Base.{
  ℕ, ◌+◌, suc, ◌≡◌, Bool, true, false, List, [], ◌∷◌, ◌++◌, ◌==◌, ltb, leb, sym, subst, arith,
  Bytes, length, if◌then◌else◌, append_assoc, append-nil,
}
use asr_sdk_cpp.Text.{codes, equal}
use asr_sdk_cpp.Outcome.{done}
use asr_sdk_cpp.WsParser.{WsParser, parse, get}
use asr_sdk_cpp.Server.{
  end_recognize, start_of_input_msg, result_char, and_then, counter_of, says_last, end_at, count,
  take_packet, handle_parsed, echo_handler,
}
use asr_sdk_cpp.ServerState.{Answered, Server, answered, find_session}
use asr_sdk_cpp.Server.Counter.{
  Leads, leads, Leads-then, Has, stop, next, increment-Has, Takes, start_at-Has, end_at-Has,
}

-- A payload that the server reads as a packet of audio that is not the last
pub record IsPacket (payload : Bytes) : Type 0 where
  pub parser : WsParser
  pub parsed : parse payload ≡ done tt parser
  pub command : equal parser.command (codes "SEND_AUDIO") ≡ true
  pub not_last : says_last (get parser (codes "LastPacket")) ≡ false

-- What has been sent behind `k` packets: the start of input behind the fourth, the result behind
-- the twentieth.
abbrev pub told : ℕ → ℕ → List (ℕ × Bytes)
told hdl k =
    (if leb 4 k then (hdl, start_of_input_msg) ∷ [] else [])
    ++ (if leb 20 k then (hdl, result_char) ∷ [] else [])

-- The counter behind `k` packets
abbrev pub counted : ℕ → ℕ
counted k = if ltb k 20 then k else 21

counted-suc : (k : ℕ) → stop (next (counted k)) ≡ counted (suc k)
counted-suc k = ground arith

-- What one packet adds to what was sent
abbrev more : ℕ → ℕ → List (ℕ × Bytes) → List (ℕ × Bytes)
more hdl n out =
    let begun = if n == 4 then out ++ (hdl, start_of_input_msg) ∷ [] else out in
    if n == end_recognize then begun ++ (hdl, result_char) ∷ [] else begun

told-suc :
    (hdl k : ℕ) (base : List (ℕ × Bytes))
    → more hdl (next (counted k)) (base ++ told hdl k) ≡ base ++ told hdl (suc k)
told-suc hdl k base = grind (arith, append_assoc, append-nil)

-- The handler on payloads one behind the other
abbrev pub handle_payloads : (Bytes → Bool) → ℕ → List Bytes → Server → Answered (Unit {0})
handle_payloads sends hdl [] s = answered tt s
handle_payloads sends hdl (p ∷ ps) s =
    and_then (echo_handler sends hdl p s) (λ _ s. handle_payloads sends hdl ps s)

pub data ArePackets : List Bytes → Type 0 where
  packets_nil : ArePackets []
  packets_cons : {p : Bytes} {ps : List Bytes} → IsPacket p → ArePackets ps → ArePackets (p ∷ ps)

module _ (sends : Bytes → Bool) (hdl : ℕ) (takes : Takes sends) where
  count-Has :
      (n : ℕ) {out : List (ℕ × Bytes)} (s : Server)
      → Has hdl n out s
      → Leads (Has hdl (stop n) (more hdl n out)) (count sends hdl s)
  unfolding count
  count-Has n s h =
      Leads-then (λ _ s. end_at sends hdl (counter_of (find_session hdl s.session_map)) s)
        (start_at-Has sends hdl takes n s h) (λ t g. end_at-Has sends hdl takes n t g)

  packet-Has :
      (n : ℕ) {out : List (ℕ × Bytes)} {payload : Bytes} (s : Server)
      → IsPacket payload
      → Has hdl n out s
      → Leads (Has hdl (stop (next n)) (more hdl (next n) out)) (echo_handler sends hdl payload s)
  unfolding echo_handler handle_parsed take_packet
  packet-Has n s p h = rw p.parsed (
      rw p.command (
        rw p.not_last (
          Leads-then (λ _ s. count sends hdl s)
            (Leads-then (λ _ s. answered tt s) (increment-Has hdl n s h) (λ t g. leads t g))
            (λ t g. count-Has (next n) t g))))

  packets-Has :
      (k n : ℕ) (base : List (ℕ × Bytes)) {ps : List Bytes} (s : Server)
      → k + length ps ≡ n
      → ArePackets ps
      → Has hdl (counted k) (base ++ told hdl k) s
      → Leads (Has hdl (counted n) (base ++ told hdl n)) (handle_payloads sends hdl ps s)
  packets-Has k n base s e packets_nil h =
      let same : k ≡ n = omega arith in
      leads s (subst (λ j. Has hdl (counted j) (base ++ told hdl j) s) same h)
  packets-Has k n base s e (packets_cons {p} {ps} h hs) g =
      Leads-then (λ _ s. handle_payloads sends hdl ps s) (packet-Has (counted k) s h g)
        (λ t f. packets-Has (suc k) n base t (omega arith) hs (
          subst (λ n. Has hdl n (base ++ told hdl (suc k)) t) (counted-suc k)
            (subst (λ out. Has hdl (stop (next (counted k))) out t) (told-suc hdl k base) f)))

  -- On a connection whose counter is 0, and that takes its messages, packets of audio, none of
  -- which is the last, are all handled: the start of the input is told once, behind the fourth,
  -- and the result is sent once, behind the twentieth, however many packets follow.
  pub packets-told :
      {ps : List Bytes} {out : List (ℕ × Bytes)} (s : Server)
      → ArePackets ps
      → Has hdl 0 out s
      → Leads
          (Has hdl (counted (length ps)) (out ++ told hdl (length ps)))
          (handle_payloads sends hdl ps s)
  packets-told {ps} {out} s h g =
      packets-Has 0 (length ps) out s (omega arith) h
        (subst (λ o. Has hdl 0 o s) (sym (append-nil out)) g)
