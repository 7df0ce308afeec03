-- ===== src/Text/Decimal.antt =====
-- std::stoi reads back what std::to_string writes.
use asr_sdk_cpp.Base.{
  ℕ, ◌+◌, ◌-◌, ◌*◌, ◌/◌, ◌%◌, ◌^◌, ◌<◌, ◌≡◌, zero, suc, true, [], ◌∷◌, arith, ltb, Bytes, ◌∙◌, ap,
  lt→ltb, le→ltb, Bool-cases, inl, inr,
}
use native.Mathlib.Decide.{dec_lt}
use asr_sdk_cpp.Text.{digits_onto, to_string, value_from, stoi, stoul, number, is_digit}

abbrev pub AllDigits : Bytes → Type 0
AllDigits [] = Unit {0}
AllDigits (c ∷ cs) = (is_digit c ≡ true) × AllDigits cs

-- Digits in front of `acc`: at least one, and nothing else.
digits_onto-AllDigits : (f n : ℕ) (acc : Bytes) → AllDigits acc → AllDigits (digits_onto f n acc)
unfolding digits_onto
digits_onto-AllDigits zero n acc h = h
digits_onto-AllDigits (suc f) n acc h =
    ground (arith, digits_onto-AllDigits f (n / 10) ((b'0' + n % 10) ∷ acc))

value_from_digit :
    (n c : ℕ) (cs : Bytes)
    → is_digit c ≡ true
    → value_from n (c ∷ cs) ≡ value_from (n * 10 + (c - b'0')) cs
unfolding value_from
value_from_digit n c cs h = rw h

value_from-digits_onto :
    (f n : ℕ) (acc : Bytes) → n < f → value_from 0 (digits_onto f n acc) ≡ value_from n acc
unfolding digits_onto
value_from-digits_onto zero n acc h = absurd (omega arith)
value_from-digits_onto (suc f) n acc h = elim (dec_lt n 10) [
  | yes small ↦
      rw (lt→ltb n 10 small) (
        value_from_digit 0 (b'0' + n) acc (ground arith) ∙ ap (λ k. value_from k acc) (omega arith))
  | no large ↦ rw (le→ltb n 10 (omega arith)) (
      value_from-digits_onto f (n / 10) ((b'0' + n % 10) ∷ acc) (omega arith)
      ∙ value_from_digit (n / 10) (b'0' + n % 10) acc (ground arith)
      ∙ ap (λ k. value_from k acc) (omega arith))
]

pub value_from-to_string : (n : ℕ) → value_from 0 (to_string n) ≡ n
unfolding to_string value_from
value_from-to_string n = value_from-digits_onto (suc n) n [] (omega arith)

pub to_string-AllDigits : (n : ℕ) → AllDigits (to_string n)
unfolding to_string
to_string-AllDigits n = digits_onto-AllDigits (suc n) n [] tt

digits_onto-cons :
    (f n : ℕ) (acc : Bytes) → (c : ℕ) × (cs : Bytes) × (digits_onto (suc f) n acc ≡ c ∷ cs)
unfolding digits_onto
digits_onto-cons zero n acc = elim (Bool-cases (ltb n 10)) [
  | inl small ↦ (b'0' + n, acc, rw small)
  | inr large ↦ (b'0' + n % 10, acc, rw large)
]
digits_onto-cons (suc f) n acc = elim (Bool-cases (ltb n 10)) [
  | inl small ↦ (b'0' + n, acc, rw small)
  | inr large ↦
      let (c, cs, e) = digits_onto-cons f (n / 10) ((b'0' + n % 10) ∷ acc) in (c, cs, rw large e)
]

-- std::to_string writes one digit at least.
pub to_string-cons : (n : ℕ) → (c : ℕ) × (cs : Bytes) × (to_string n ≡ c ∷ cs)
unfolding to_string
to_string-cons n = digits_onto-cons n n []

stoi_digits :
    (c n : ℕ) (cs : Bytes)
    → AllDigits (c ∷ cs)
    → value_from 0 (c ∷ cs) ≡ n
    → n < 2 ^ 31
    → stoi (c ∷ cs) ≡ number n
unfolding stoi
stoi_digits c n cs d e h = ground arith

-- std::stoi reads back every number below 2^31 that std::to_string wrote.
pub stoi-to_string : (n : ℕ) → n < 2 ^ 31 → stoi (to_string n) ≡ number n
stoi-to_string n h =
    let (c, cs, e) = to_string-cons n in
    rw e (stoi_digits c n cs (rw e at (to_string-AllDigits n)) (rw e at (value_from-to_string n)) h)

stoul_digits :
    (c n : ℕ) (cs : Bytes)
    → AllDigits (c ∷ cs)
    → value_from 0 (c ∷ cs) ≡ n
    → n < 2 ^ 64
    → stoul (c ∷ cs) ≡ number n
unfolding stoul
stoul_digits c n cs d e h = ground arith

-- std::stoul reads back every number below 2^64 that std::to_string wrote.
pub stoul-to_string : (n : ℕ) → n < 2 ^ 64 → stoul (to_string n) ≡ number n
stoul-to_string n h =
    let (c, cs, e) = to_string-cons n in
    rw e
      (stoul_digits c n cs (rw e at (to_string-AllDigits n)) (rw e at (value_from-to_string n)) h)
