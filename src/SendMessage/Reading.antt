-- ===== src/SendMessage/Reading.antt =====
-- The message SET_PARAMETERS, read back by a receiver.
use asr_sdk_cpp.Base.{
  ◌≡◌, ◌∙◌, true, false, not, List, [], ◌∷◌, refl, sym, subst, Bytes, length, Bool-cases, inl, inr,
}
use asr_sdk_cpp.Text.{codes, equal, empty}
use asr_sdk_cpp.SendMessage.Numbers.{to_string-IsName, bool_to_string-IsName}
use asr_sdk_cpp.StringMap.{StringMap}
use asr_sdk_cpp.Outcome.{done}
use asr_sdk_cpp.TokenStream.{is_word}
use asr_sdk_cpp.WsParser.Print.{IsName}
use asr_sdk_cpp.RecognitionConfig.{Properties}
use asr_sdk_cpp.AsrMessage
use asr_sdk_cpp.AsrMessage.{AsrMessage, request, set_header, get_method_string, first_line, consume}
use asr_sdk_cpp.AsrMessage.Names.{is_name-IsName, get_method_string-IsName}
use asr_sdk_cpp.AsrMessage.Wire.{IsRequest, consume-raw}
use asr_sdk_cpp.SendMessage.{set_if, parameters_request, set_parameters}
use asr_sdk_cpp.SendMessage.Settings.{Setting, set_all, AreSettings, IsPlain, set_all-IsPlain}
use asr_sdk_cpp.SendMessage.Parameters.{
  settings, parameters_lem, SaysProperties, parameters-SaysProperties,
}

-- The three texts of the properties, where they are not empty, are words that the parser reads.
pub record HasPlainTexts (p : Properties) : Type 0 where
  pub account_tag : not (empty p.account_tag) ≡ true → IsName true p.account_tag
  pub channel_identifier :
      not (empty p.channel_identifier) ≡ true → IsName true p.channel_identifier
  pub media_type : not (empty p.media_type) ≡ true → IsName true p.media_type

true-IsName : IsName true (codes "true")
unfolding is_word equal
true-IsName = is_name-IsName true (codes "true") refl

settings-AreSettings : (p : Properties) → HasPlainTexts p → AreSettings (settings p)
unfolding equal is_word
settings-AreSettings p h = (
  refl,
  λ c. to_string-IsName p.confidence_threshold,
  (
    refl,
    λ c. to_string-IsName p.max_sentences,
    (
      refl,
      λ c. bool_to_string-IsName p.no_input_timeout_enabled,
      (
        refl,
        λ c. to_string-IsName p.no_input_timeout_milliseconds,
        (
          refl,
          λ c. bool_to_string-IsName p.recog_timeout_enabled,
          (
            refl,
            λ c. to_string-IsName p.recog_timeout_seconds,
            (
              refl,
              λ c. true-IsName,
              (
                refl,
                λ c. true-IsName,
                (
                  refl,
                  λ c. true-IsName,
                  (
                    refl,
                    λ c. to_string-IsName p.head_margin_milliseconds,
                    (
                      refl,
                      λ c. to_string-IsName p.tail_margin_milliseconds,
                      (
                        refl,
                        λ c. to_string-IsName p.wait_end_milliseconds,
                        (
                          refl,
                          λ c. true-IsName,
                          (
                            refl,
                            λ c. to_string-IsName p.max_segment_duration,
                            (
                              refl,
                              λ c. bool_to_string-IsName p.start_input_timers,
                              (
                                refl,
                                λ c. to_string-IsName p.endpointer_level_mode,
                                (
                                  refl,
                                  λ c. to_string-IsName p.endpointer_auto_level_len,
                                  (
                                    refl,
                                    λ c. to_string-IsName p.endpointer_level_threshold,
                                    (
                                      refl,
                                      λ c. true-IsName,
                                      (
                                        refl,
                                        h.account_tag,
                                        (refl, h.channel_identifier, (refl, h.media_type, tt)),
                                      ),
                                    ),
                                  ),
                                ),
                              ),
                            ),
                          ),
                        ),
                      ),
                    ),
                  ),
                ),
              ),
            ),
          ),
        ),
      ),
    ),
  ),
)

request-IsPlain : IsPlain (request AsrMessage.set_parameters)
unfolding request
request-IsPlain = record { sorted = tt; printable = λ n. tt; no_length = refl }

-- The request as it was built has its headers in order, and no body.
set_all-start :
    (ss : List Setting) (r : AsrMessage)
    → ((set_all ss r).start_line ≡ r.start_line) × ((set_all ss r).extra ≡ r.extra)
unfolding set_header
set_all-start [] r = (refl, refl)
set_all-start (s ∷ ss) r =
    let (a, b) = set_all-start ss (set_if s.condition s.key s.value r) in
    elim (Bool-cases s.condition) [ inl e ↦ (a ∙ rw e, b ∙ rw e) | inr e ↦ (a ∙ rw e, b ∙ rw e) ]

parameters-IsPlain : (p : Properties) → HasPlainTexts p → IsPlain (parameters_request p)
parameters-IsPlain p h = subst IsPlain (sym (parameters_lem p)) (
    set_all-IsPlain (settings p) (request AsrMessage.set_parameters) (settings-AreSettings p h)
      request-IsPlain)

parameters-start :
    (p : Properties)
    → ((parameters_request p).start_line ≡ first_line AsrMessage.set_parameters)
      × ((parameters_request p).extra ≡ [])
unfolding request
parameters-start p =
    subst (λ r. (r.start_line ≡ first_line AsrMessage.set_parameters) × (r.extra ≡ []))
      (sym (parameters_lem p)) (set_all-start (settings p) (request AsrMessage.set_parameters))

version-IsName : IsName false (codes "2.4")
unfolding is_word equal
version-IsName = is_name-IsName false (codes "2.4") refl

-- A message that a receiver holds once it has consumed the text, whatever it held before.
pub record Received (text : Bytes) (old : AsrMessage) (says : StringMap → Type 0) : Type 0 where
  pub message : AsrMessage
  pub consumed : consume text old ≡ done tt message
  pub start_line : message.start_line ≡ first_line AsrMessage.set_parameters
  pub headers : says message.headers
  pub no_body : message.extra ≡ []

-- The text of SET_PARAMETERS, consumed by a receiver, gives back a message whose headers say what
-- the properties are, each header there exactly when its property is set, if the three texts
-- among the properties are words that the parser reads.
pub set_parameters-Received :
    (p : Properties) (old : AsrMessage)
    → HasPlainTexts p
    → Received (set_parameters p) old (SaysProperties p)
unfolding set_parameters
set_parameters-Received p old h =
    let (start, extra) = parameters-start p in
    let plain = parameters-IsPlain p h in
    let asked : IsRequest AsrMessage.set_parameters (parameters_request p) = record {
      start_line = start;
      is_message = record {
        version = version-IsName;
        command = get_method_string-IsName AsrMessage.set_parameters;
        headers = plain.printable (length (parameters_request p).extra);
        sorted = plain.sorted;
      };
    } in
    record {
      message = parameters_request p;
      consumed = consume-raw AsrMessage.set_parameters old asked extra plain.no_length;
      start_line = start;
      headers = parameters-SaysProperties p;
      no_body = extra;
    }
