-- ===== src/SendMessage/Numbers.antt =====
-- Numbers and switches as header values.
use asr_sdk_cpp.Base.{ℕ, ◌≡◌, Bool, true, false, [], ◌∷◌, ◌==◌, refl, arith, Bytes}
use asr_sdk_cpp.Text.{codes, equal, to_string, bool_to_string, is_digit}
use asr_sdk_cpp.Text.Decimal.{AllDigits, to_string-AllDigits, to_string-cons}
use asr_sdk_cpp.TokenStream.{is_word}
use asr_sdk_cpp.WsParser.Print.{IsName}
use asr_sdk_cpp.AsrMessage.Names.{all_word, is_name, is_name-IsName}

digit_word : (c : ℕ) → is_digit c ≡ true → is_word c true ≡ true
unfolding is_word
digit_word c h = ground arith

AllDigits-all_word : (w : Bytes) → AllDigits w → all_word true w ≡ true
AllDigits-all_word [] h = refl
AllDigits-all_word (c ∷ w) h = rw (digit_word c h.0) (AllDigits-all_word w h.1)

digits-is_name : (c : ℕ) (w : Bytes) → AllDigits (c ∷ w) → is_name true (c ∷ w) ≡ true
unfolding equal
digits-is_name c w h =
    let all = AllDigits-all_word (c ∷ w) h in
    let space : (c == b' ') ≡ false = ground (arith, h.0) in
    let colon : (c == b':') ≡ false = ground (arith, h.0) in
    let title : (c == b'A') ≡ false = ground (arith, h.0) in
    ground (arith, all, space, colon, title)

-- A number in decimal is a word that the parser reads.
pub to_string-IsName : (n : ℕ) → IsName true (to_string n)
to_string-IsName n =
    let (c, w, e) = to_string-cons n in
    rw e (is_name-IsName true (c ∷ w) (digits-is_name c w (rw e at (to_string-AllDigits n))))

pub bool_to_string-IsName : (b : Bool) → IsName true (bool_to_string b)
unfolding bool_to_string is_word equal
bool_to_string-IsName true = is_name-IsName true (codes "1") refl
bool_to_string-IsName false = is_name-IsName true (codes "0") refl
