-- ===== src/Text.antt =====
-- std::string as a list of bytes: comparison, search, lines, and numbers in decimal.
pub mod Compare
pub mod Decimal
pub mod Lines
use Prim.Native.Char.{code}
use Prim.Native.String.{String}
use asr_sdk_cpp.Base.{
  ℕ, ◌+◌, ◌-◌, ◌*◌, ◌/◌, ◌%◌, ◌^◌, zero, suc, Bool, true, false, ◌&&◌, ◌||◌, List, [], ◌∷◌, ◌++◌,
  ltb, leb, ◌==◌, if◌then◌else◌, Bytes,
}

-- The bytes of a literal.
abbrev pub codes : String → Bytes
codes String.[] = []
codes (String.◌∷◌ c s) = code c ∷ codes s

-- operator==
unfoldable pub equal : Bytes → Bytes → Bool
equal (c ∷ cs) (d ∷ ds) = c == d && equal cs ds
equal [] [] = true
equal (c ∷ cs) [] = false
equal [] (d ∷ ds) = false

-- operator<, the order of std::map's keys
unfoldable pub less : Bytes → Bytes → Bool
less xs [] = false
less [] (y ∷ ys) = true
less (x ∷ xs) (y ∷ ys) = ltb x y || (x == y && less xs ys)

unfoldable pub empty : Bytes → Bool
empty [] = true
empty (_ ∷ _) = false

-- Does `xs` begin with `ps`?
unfoldable pub starts_with : Bytes → Bytes → Bool
starts_with [] xs = true
starts_with (p ∷ ps) [] = false
starts_with (p ∷ ps) (x ∷ xs) = p == x && starts_with ps xs

-- `xs.find(ps) != npos`
unfoldable pub contains : Bytes → Bytes → Bool
contains [] ps = starts_with ps []
contains (x ∷ xs) ps = starts_with ps (x ∷ xs) || contains xs ps

-- One more byte at the front of the first line.
abbrev pub onto_first : ℕ → List Bytes → List Bytes
onto_first c [] = (c ∷ []) ∷ []
onto_first c (l ∷ ls) = (c ∷ l) ∷ ls

-- What a loop over std::getline reads: no last empty line behind a last delimiter.
unfoldable pub get_lines : ℕ → Bytes → List Bytes
get_lines d [] = []
get_lines d (c ∷ cs) = let rest = get_lines d cs in if c == d then [] ∷ rest else onto_first c rest

abbrev pub is_digit : ℕ → Bool
is_digit c = leb b'0' c && leb c b'9'

abbrev pub is_alpha : ℕ → Bool
is_alpha c = (leb b'a' c && leb c b'z') || (leb b'A' c && leb c b'Z')

-- The white space of the "C" locale.
abbrev pub is_white : ℕ → Bool
is_white c = c == 32 || (leb 9 c && leb c 13)

-- The digits of `n` in front of `acc`; fuel `suc n` is enough.
pub digits_onto : ℕ → ℕ → Bytes → Bytes
digits_onto zero n acc = acc
digits_onto (suc f) n acc =
    let more = digits_onto f (n / 10) ((b'0' + n % 10) ∷ acc) in
    if ltb n 10 then (b'0' + n) ∷ acc else more

-- std::to_string of an unsigned number
unfoldable pub to_string : ℕ → Bytes
unfolding digits_onto
to_string n = digits_onto (suc n) n []

-- std::to_string of a bool
unfoldable pub bool_to_string : Bool → Bytes
bool_to_string true = codes "1"
bool_to_string false = codes "0"

-- What std::stoi gives: an `int`, converted to a `size_t`, or one of its two exceptions.
pub data Converted : Type 0 where
  number : ℕ → Converted
  invalid_argument out_of_range : Converted

-- The number that the leading digits spell behind `n`.
unfoldable pub value_from : ℕ → Bytes → ℕ
value_from n [] = n
value_from n (c ∷ cs) =
    let more = value_from (n * 10 + (c - b'0')) cs in if is_digit c then more else n

-- An `int` of sign `negative` and absolute value `n`, as a `size_t`.
pub to_size : Bool → ℕ → Converted
to_size false n = if ltb n (2 ^ 31) then number n else out_of_range
to_size true n = if leb n (2 ^ 31) then number ((2 ^ 64 - n) % 2 ^ 64) else out_of_range

pub read_digits : Bool → Bytes → Converted
read_digits negative [] = invalid_argument
read_digits negative (c ∷ cs) =
    if is_digit c then to_size negative (value_from 0 (c ∷ cs)) else invalid_argument

pub read_sign : Bytes → Converted
read_sign [] = invalid_argument
read_sign (c ∷ cs) =
    if c == b'-'
    then read_digits true cs
    else if c == b'+'
    then read_digits false cs
    else read_digits false (c ∷ cs)

-- std::stoi, with leading white space skipped
unfoldable pub stoi : Bytes → Converted
unfolding to_size read_digits read_sign
stoi [] = invalid_argument
stoi (c ∷ cs) = let rest = stoi cs in if is_white c then rest else read_sign (c ∷ cs)

-- An `unsigned long` of absolute value `n`, negated in its 64 bits behind a minus sign.
pub to_unsigned_long : Bool → ℕ → Converted
to_unsigned_long negative n =
    if ltb n (2 ^ 64) then number (if negative then (2 ^ 64 - n) % 2 ^ 64 else n) else out_of_range

pub read_unsigned_digits : Bool → Bytes → Converted
read_unsigned_digits negative [] = invalid_argument
read_unsigned_digits negative (c ∷ cs) =
    if is_digit c then to_unsigned_long negative (value_from 0 (c ∷ cs)) else invalid_argument

pub read_unsigned_sign : Bytes → Converted
read_unsigned_sign [] = invalid_argument
read_unsigned_sign (c ∷ cs) =
    if c == b'-'
    then read_unsigned_digits true cs
    else if c == b'+'
    then read_unsigned_digits false cs
    else read_unsigned_digits false (c ∷ cs)

-- std::stoul, with leading white space skipped
unfoldable pub stoul : Bytes → Converted
unfolding to_unsigned_long read_unsigned_digits read_unsigned_sign
stoul [] = invalid_argument
stoul (c ∷ cs) = let rest = stoul cs in if is_white c then rest else read_unsigned_sign (c ∷ cs)
