-- ===== src/AsrMessage/Names.antt =====
-- Which texts the parser reads as one word, decided; the names that the client sends are words.
use asr_sdk_cpp.Base.{◌≡◌, Bool, true, false, not, ◌&&◌, [], ◌∷◌, ◌==◌, refl, arith, Bytes}
use asr_sdk_cpp.Text.{codes, equal}
use asr_sdk_cpp.TokenStream.{is_word}
use asr_sdk_cpp.TokenStream.Scan.{AllWord}
use asr_sdk_cpp.WsParser.Print.{IsName}
use asr_sdk_cpp.AsrMessage.{
  Method, create_session, set_parameters, get_parameters, start_recognition, start_input_timers,
  send_audio, cancel_recognition, release_session, response, start_of_speech, end_of_speech,
  recognition_result, get_method_string,
}

abbrev pub all_word : Bool → Bytes → Bool
all_word b [] = true
all_word b (c ∷ cs) = is_word c b && all_word b cs

abbrev pub is_name : Bool → Bytes → Bool
is_name b [] = false
is_name b (c ∷ cs) =
    not (c == b' ')
    && (not (c == b':') && (all_word b (c ∷ cs) && not (equal (c ∷ cs) (codes "ASR"))))

pub and_left : (a b : Bool) → (a && b) ≡ true → a ≡ true
and_left a b h = ground arith

pub and_right : (a b : Bool) → (a && b) ≡ true → b ≡ true
and_right a b h = ground arith

not-true : (a : Bool) → not a ≡ true → a ≡ false
not-true a h = ground arith

all_word-AllWord : (b : Bool) (w : Bytes) → all_word b w ≡ true → AllWord b w
all_word-AllWord b [] h = tt
all_word-AllWord b (c ∷ cs) h =
    (and_left (is_word c b) _ h, all_word-AllWord b cs (and_right (is_word c b) _ h))

pub is_name-IsName : (b : Bool) (w : Bytes) → is_name b w ≡ true → IsName b w
is_name-IsName b [] h = cc
is_name-IsName b (c ∷ cs) h =
    let space = and_left (not (c == b' ')) _ h in
    let rest = and_right (not (c == b' ')) _ h in
    let colon = and_left (not (c == b':')) _ rest in
    let word = and_right (not (c == b':')) _ rest in
    let all = all_word-AllWord b (c ∷ cs) (and_left (all_word b (c ∷ cs)) _ word) in
    record {
      is_word = (all.0, not-true (c == b' ') space, not-true (c == b':') colon, all.1);
      not_title = not-true _ (and_right (all_word b (c ∷ cs)) _ word);
    }

pub get_method_string-IsName : (c : Method) → IsName false (get_method_string c)
unfolding get_method_string is_word equal
get_method_string-IsName c = is_name-IsName false (get_method_string c) (checked c)
  where
    checked : (c : Method) → is_name false (get_method_string c) ≡ true
    checked create_session = refl
    checked set_parameters = refl
    checked get_parameters = refl
    checked start_recognition = refl
    checked start_input_timers = refl
    checked send_audio = refl
    checked cancel_recognition = refl
    checked release_session = refl
    checked response = refl
    checked start_of_speech = refl
    checked end_of_speech = refl
    checked recognition_result = refl
