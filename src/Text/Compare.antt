-- ===== src/Text/Compare.antt =====
-- Equality and order of texts.
use asr_sdk_cpp.Base.{◌≡◌, ◌↔◌, true, false, [], ◌∷◌, refl, arith, Bytes}
use asr_sdk_cpp.Text.{equal, less}

pub equal_iff : (s t : Bytes) → (equal s t ≡ true) ↔ (s ≡ t)
unfolding equal
equal_iff [] [] = ground arith
equal_iff [] (d ∷ ds) = ground arith
equal_iff (c ∷ cs) [] = ground arith
equal_iff (c ∷ cs) (d ∷ ds) = ground (arith, equal_iff cs ds)

pub equal_refl : (a : Bytes) → equal a a ≡ true
equal_refl a = (equal_iff a a).1 refl

pub equal_comm : (a b : Bytes) → equal a b ≡ equal b a
unfolding equal
equal_comm (x ∷ a) (y ∷ b) = ground (arith, equal_comm a b)
equal_comm [] [] = refl
equal_comm [] (y ∷ b) = refl
equal_comm (x ∷ a) [] = refl

pub less_irrefl : (a : Bytes) → less a a ≡ false
unfolding less
less_irrefl [] = refl
less_irrefl (x ∷ a) = ground (arith, less_irrefl a)

pub less_trans : (a b c : Bytes) → less a b ≡ true → less b c ≡ true → less a c ≡ true
unfolding less
less_trans (x ∷ a) (y ∷ b) (z ∷ c) h k = ground (arith, less_trans a b c)
less_trans a b [] h k = cc
less_trans a [] (z ∷ c) h k = cc
less_trans [] (y ∷ b) (z ∷ c) h k = refl

pub less_asymm : (a b : Bytes) → less a b ≡ true → less b a ≡ false
unfolding less
less_asymm (x ∷ a) (y ∷ b) h = ground (arith, less_asymm a b)
less_asymm [] b h = refl
less_asymm (x ∷ a) [] h = cc

-- Two texts are equal or one is less.
pub less_total : (a b : Bytes) → less a b ≡ false → equal a b ≡ false → less b a ≡ true
unfolding less equal
less_total (x ∷ a) (y ∷ b) h k = ground (arith, less_total a b)
less_total [] [] h k = cc
less_total [] (y ∷ b) h k = cc
less_total (x ∷ a) [] h k = refl

pub less-equal : (a b : Bytes) → less a b ≡ true → equal a b ≡ false
unfolding less equal
less-equal (x ∷ a) (y ∷ b) h = ground (arith, less-equal a b)
less-equal [] (y ∷ b) h = refl
less-equal a [] h = cc
