-- ===== src/SendMessage/Recognition.antt =====
-- The message START_RECOGNITION, sent for a language model and read by a receiver.
use asr_sdk_cpp.Base.{
  ℕ, ◌^◌, ◌<◌, ◌≡◌, ◌∙◌, Bool, true, false, not, Bool-cases, inl, inr, [], ◌∷◌, ◌++◌, refl, sym,
  subst, Bytes, length, drop, if◌then◌else◌,
}
use asr_sdk_cpp.Text.{codes, equal, less, empty, to_string}
use asr_sdk_cpp.Text.Decimal.{stoi-to_string}
use asr_sdk_cpp.StringMap.{StringMap, assign}
use asr_sdk_cpp.StringMap.Laws.{IsSorted}
use asr_sdk_cpp.Outcome.{done}
use asr_sdk_cpp.TokenStream.{is_word}
use asr_sdk_cpp.WsParser.Print.{IsName}
use asr_sdk_cpp.WsParser.Headers.{ArePrintable}
use asr_sdk_cpp.WsParser.Collect.{has_length}
use asr_sdk_cpp.RecognitionError.{RecognitionError, returned, raised, failure}
use asr_sdk_cpp.LanguageModelList.{LanguageModelList, get_uri, get_grammar_body}
use asr_sdk_cpp.AsrMessage
use asr_sdk_cpp.AsrMessage.{
  AsrMessage, request, set_header, set_extra, first_line, raw, consume, msg_delimiter,
}
use asr_sdk_cpp.AsrMessage.Names.{is_name-IsName, get_method_string-IsName}
use asr_sdk_cpp.AsrMessage.Wire.{IsRequest, consume-raw_extra}
use asr_sdk_cpp.SendMessage.{recognition_request, start_recognition}
use asr_sdk_cpp.SendMessage.Numbers.{to_string-IsName}

-- The text that goes with a language model: its URI, or else its grammar.
abbrev pub model_text : LanguageModelList → Bytes
model_text lm = if not (empty lm.uri) then lm.uri else lm.grammar_body

-- The headers that go with a URI, or a grammar, of `n` bytes, in the order of their names.
abbrev pub headers_for : Bool → ℕ → StringMap
headers_for true n =
    (codes "Accept", codes "application/json")
    ∷ (codes "Content-Length", to_string n)
    ∷ (codes "Content-Type", codes "text/uri-list")
    ∷ []
headers_for false n =
    (codes "Accept", codes "application/json")
    ∷ (codes "Content-ID", codes "gram")
    ∷ (codes "Content-Length", to_string n)
    ∷ (codes "Content-Type", codes "application/srgs")
    ∷ []

abbrev pub model_headers : LanguageModelList → StringMap
model_headers lm = headers_for (not (empty lm.uri)) (length (model_text lm))

abbrev pub model_request : LanguageModelList → AsrMessage
model_request lm = record {
  start_line = first_line AsrMessage.start_recognition;
  headers = model_headers lm;
  extra = model_text lm;
}

request_some :
    (u g : Bytes)
    → let lm : LanguageModelList = record { uri = u; grammar_body = g } in
      empty (model_text lm) ≡ false → recognition_request u g ≡ returned (model_request lm)
unfolding recognition_request set_header set_extra request assign equal less empty
request_some [] [] h = cc
request_some [] (y ∷ g) h = refl
request_some (x ∷ u) g h = refl

-- The exception of a language model with no text
abbrev pub no_text : RecognitionError
no_text = record { code = failure; message = codes "lm uri and grammar body is emprty" }

request_none :
    (u g : Bytes)
    → let lm : LanguageModelList = record { uri = u; grammar_body = g } in
      empty (model_text lm) ≡ true → recognition_request u g ≡ raised no_text
unfolding recognition_request empty
request_none [] [] h = refl
request_none [] (y ∷ g) h = cc
request_none (x ∷ u) g h = cc

-- startRecognition throws if the language model has no text; else it sends the request with the
-- kind, the length and the text of the URI, or of the grammar if there is no URI.
pub start_recognition-cases :
    (lm : LanguageModelList)
    → start_recognition lm
      ≡ (if empty (model_text lm) then raised no_text else returned (raw (model_request lm)))
unfolding start_recognition get_uri get_grammar_body
start_recognition-cases lm = elim (Bool-cases (empty (model_text lm))) [
  | inl h ↦ rw (request_none lm.uri lm.grammar_body h) (rw h)
  | inr h ↦ rw (request_some lm.uri lm.grammar_body h) (rw h)
]

-- The headers print, are in order, and say the length.
headers_for-IsMessage :
    (b : Bool) (n : ℕ)
    → n < 2 ^ 31
    → ArePrintable n (headers_for b n)
      × IsSorted (headers_for b n)
      × (has_length (headers_for b n) ≡ true)
unfolding equal less is_word
headers_for-IsMessage true n h = (
  (
    is_name-IsName false _ refl,
    is_name-IsName true _ refl,
    λ e. cc,
    (
      is_name-IsName false _ refl,
      to_string-IsName n,
      λ e. stoi-to_string n h,
      (is_name-IsName false _ refl, is_name-IsName true _ refl, λ e. cc, tt),
    ),
  ),
  ((refl, (refl, tt)), ((refl, tt), (tt, tt))),
  refl,
)
headers_for-IsMessage false n h = (
  (
    is_name-IsName false _ refl,
    is_name-IsName true _ refl,
    λ e. cc,
    (
      is_name-IsName false _ refl,
      is_name-IsName true _ refl,
      λ e. cc,
      (
        is_name-IsName false _ refl,
        to_string-IsName n,
        λ e. stoi-to_string n h,
        (is_name-IsName false _ refl, is_name-IsName true _ refl, λ e. cc, tt),
      ),
    ),
  ),
  ((refl, (refl, (refl, tt))), ((refl, (refl, tt)), ((refl, tt), (tt, tt)))),
  refl,
)

version-IsName : IsName false (codes "2.4")
unfolding is_word equal
version-IsName = is_name-IsName false (codes "2.4") refl

pub model_request-IsRequest :
    (lm : LanguageModelList)
    → length (model_text lm) < 2 ^ 31
    → IsRequest AsrMessage.start_recognition (model_request lm)
model_request-IsRequest lm h =
    let (printable, sorted, told) =
      headers_for-IsMessage (not (empty lm.uri)) (length (model_text lm)) h in
    record {
      start_line = refl;
      is_message = record {
        version = version-IsName;
        command = get_method_string-IsName AsrMessage.start_recognition;
        headers = printable;
        sorted = sorted;
      };
    }

returned_inj : {a b : Bytes} → returned a ≡ returned b → a ≡ b
returned_inj e = cc

-- What startRecognition sends for a text below 2^31 bytes, less than 2^64 bytes in all, consumed
-- by a receiver: the start line and the headers arrive as
-- they were built; the body arrives without its first two bytes, and with CR LF at its end.
pub start_recognition-consumed :
    (lm : LanguageModelList) (text : Bytes) (old : AsrMessage)
    → start_recognition lm ≡ returned text
    → length (model_text lm) < 2 ^ 31
    → length text < 2 ^ 64
    → consume text old
      ≡ done tt (record (model_request lm) { extra = drop 2 (model_text lm ++ msg_delimiter) })
start_recognition-consumed lm text old sent h small = elim (Bool-cases (empty (model_text lm))) [
  | inl e ↦
      let none_sent : start_recognition lm ≡ raised no_text = start_recognition-cases lm ∙ rw e in
      absurd cc
  | inr e ↦
      let some_sent : start_recognition lm ≡ returned (raw (model_request lm)) =
        start_recognition-cases lm ∙ rw e in
      let same : text ≡ raw (model_request lm) = returned_inj (sym sent ∙ some_sent) in
      let told = (headers_for-IsMessage (not (empty lm.uri)) (length (model_text lm)) h).2 in
      rw same (
        consume-raw_extra AsrMessage.start_recognition old (model_request-IsRequest lm h) e told
          (subst (λ t. length t < 2 ^ 64) same small))
]
