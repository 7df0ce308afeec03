-- ===== src/WsParser/RoundTrip.antt =====
-- Reading back a message that Str has printed.
use asr_sdk_cpp.Base.{
  ℕ, ◌-◌, ◌^◌, ◌<◌, ◌≤◌, ◌≡◌, ◌≢◌, ◌∙◌, inl, inr, true, [], ◌∷◌, ◌++◌, refl, sym, ap, arith, Bytes,
  length, drop, append_assoc, if◌then◌else◌, length-append, drop-append_ge, subst, Bool-cases,
}
use asr_sdk_cpp.Text.{empty}
use asr_sdk_cpp.StringMap.{StringMap}
use asr_sdk_cpp.WsParser.{WsParser, parse, str}
use asr_sdk_cpp.WsParser.Collect.{has_length}
use asr_sdk_cpp.WsParser.Message.{
  message, IsMessage, Holds, parse-length, parse_no_body, parse_empty_body,
}

pub message_split :
    (v c : Bytes) (m : StringMap) (b : Bytes)
    → message v c m (13 ∷ 10 ∷ b) ≡ message v c m (13 ∷ 10 ∷ []) ++ b
message_split v c m b = simp append_assoc

-- The bytes from the end on, as many as the text behind `13 ∷ 10`.
pub drop-message :
    (v c : Bytes) (m : StringMap) (b : Bytes) (n : ℕ)
    → n ≤ length b
    → drop (length (message v c m (13 ∷ 10 ∷ b)) - n) (message v c m (13 ∷ 10 ∷ b))
      ≡ drop (length b - n) b
drop-message v c m b n h =
    ap (λ l. drop (length l - n) l) (message_split v c m b)
    ∙ drop-append_ge (length (front ++ b) - n) front b (omega (arith, length-append front b))
    ∙ ap (λ k. drop k b) (omega (arith, length-append front b))
  where
    front : Bytes
    front = message v c m (13 ∷ 10 ∷ [])

pub length-le-message :
    (v c : Bytes) (m : StringMap) (b : Bytes) → length b ≤ length (message v c m (13 ∷ 10 ∷ b))
length-le-message v c m b =
    subst (λ l. length b ≤ length l) (sym (message_split v c m b))
      (omega (arith, length-append (message v c m (13 ∷ 10 ∷ [])) b))

parse-printed :
    {v c : Bytes} {m : StringMap} (b : Bytes)
    → IsMessage (length b) v c m
    → (b ≢ [] → has_length m ≡ true)
    → length (message v c m (if empty b then [] else 13 ∷ 10 ∷ b)) < 2 ^ 64
    → Holds v c m b (parse (message v c m (if empty b then [] else 13 ∷ 10 ∷ b)))
unfolding empty
parse-printed {v} {c} {m} [] h told small = elim (Bool-cases (has_length m)) [
  | inl e ↦ parse_empty_body h e refl
  | inr e ↦ parse_no_body h e
]
parse-printed {v} {c} {m} (x ∷ xs) h told small =
    let b = x ∷ xs in
    let end : length b - length b ≡ 0 = omega arith in
    subst (λ l. Holds v c m l (parse (message v c m (13 ∷ 10 ∷ b))))
      (drop-message v c m b (length b) (omega arith) ∙ ap (λ k. drop k b) end)
      (parse-length h b (told (λ e. cc)) (length-le-message v c m b) small)

-- What Str prints is such a message.
pub str-message :
    (p : WsParser)
    → str p ≡ message p.version p.command p.props (if empty p.body then [] else 13 ∷ 10 ∷ p.body)
unfolding str
str-message p = simp append_assoc

-- A parser object that Str can print so that it is read back: a message whose length header, if
-- there is one, says the length of the body; there is one if there is a body.
pub record IsPrintable (p : WsParser) : Type 0 where
  pub is_message : IsMessage (length p.body) p.version p.command p.props
  pub told : p.body ≢ [] → has_length p.props ≡ true
  pub small : length (str p) < 2 ^ 64

-- The constructor reads what Str printed of a parser whose version, command and headers are words
-- of the protocol, with a length header for its body, back to the same version, command, headers
-- and body.
pub parse-str :
    (p : WsParser) → IsPrintable p → Holds p.version p.command p.props p.body (parse (str p))
parse-str p h =
    subst (λ l. Holds p.version p.command p.props p.body (parse l)) (sym (str-message p))
      (parse-printed p.body h.is_message h.told
        (subst (λ l. length l < 2 ^ 64) (str-message p) h.small))
