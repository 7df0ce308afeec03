-- ===== src/Outcome.antt =====
-- What a C++ call does to an object: it returns, throws, or does what the language leaves
-- undefined (a read or write outside an object). A throw keeps the state that it left.
use asr_sdk_cpp.Base.{Bool, true, false}

pub data Exception : Type 0 where
  parser_error invalid_argument out_of_range : Exception

pub data Outcome {ℓ} (S : Type ℓ) (A : Type ℓ) : Type ℓ where
  done : A → S → Outcome S A
  threw : Exception → S → Outcome S A
  undefined : Outcome S A

abbrev pub M : Type 0 → Type 0 → Type 0
M S A = S → Outcome S A

abbrev pub pure {ℓ} : {S A : Type ℓ} → A → S → Outcome S A
pure a s = done a s

abbrev pub throw {ℓ} : {S A : Type ℓ} → Exception → S → Outcome S A
throw e s = threw e s

-- The rest of a call behind an outcome.
abbrev pub and_then {ℓ} : {S A B : Type ℓ} → Outcome S A → (A → S → Outcome S B) → Outcome S B
and_then (done a s) f = f a s
and_then (threw e s) f = threw e s
and_then undefined f = undefined

infixl 5 ◌>>=◌ ◌>>◌
abbrev pub ◌>>=◌ : {S A B : Type 0} → M S A → (A → M S B) → M S B
◌>>=◌ m f s = and_then (m s) f

abbrev pub ◌>>◌ : {S B : Type 0} → M S (Unit {0}) → M S B → M S B
m >> k = m >>= λ _. k

-- `if (b) throw e;`
abbrev pub throw_if : {S : Type 0} → Bool → Exception → M S (Unit {0})
throw_if true e s = threw e s
throw_if false e s = done tt s
