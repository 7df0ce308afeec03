-- ===== src/Base/Slices.antt =====
-- Blocks of memory: a block is a list of bytes, a copy reads or overwrites a part of it.
use Prim.Native.Nat.{ℕ, ◌+◌, ◌-◌, ◌≤◌}
use mathlib.Core.Path.{◌≡◌, sym, ap, ap₂, ◌∙◌}
use mathlib.Core.List.{List, ◌++◌, append_assoc}
use native.Mathlib.Omega.{arith}
use asr_sdk_cpp.Base.Lists.{
  length, take, drop, length-append, length-take, length-drop, take-append_length, drop-append_le,
  drop-append_ge, drop-drop, drop-take, take_split,
}

module _ {ℓ} {A : Type ℓ} where
  -- The `n` items from index `o` on.
  abbrev pub slice : List A → ℕ → ℕ → List A
  slice xs o n = take n (drop o xs)

  -- `ys` written over `xs` from index `o` on.
  abbrev pub splice : List A → ℕ → List A → List A
  splice xs o ys = take o xs ++ (ys ++ drop (o + length ys) xs)

  pub length-slice : (xs : List A) (o n : ℕ) → o + n ≤ length xs → length (slice xs o n) ≡ n
  length-slice xs o n h = omega (arith, length-take n (drop o xs), length-drop o xs)

  pub length-splice :
      (xs : List A) (o : ℕ) (ys : List A)
      → o + length ys ≤ length xs
      → length (splice xs o ys) ≡ length xs
  length-splice xs o ys h = omega (
    arith,
    length-append (take o xs) (ys ++ drop (o + length ys) xs),
    length-append ys (drop (o + length ys) xs),
    length-take o xs,
    length-drop (o + length ys) xs,
  )

  -- A slice that ends where the new bytes end.
  pub slice-splice_end :
      (xs : List A) (o : ℕ) (ys : List A) (b n : ℕ)
      → o + length ys ≤ length xs
      → b ≤ o
      → n ≡ o - b + length ys
      → slice (splice xs o ys) b n ≡ slice xs b (o - b) ++ ys
  slice-splice_end xs o ys b n h le e =
      ap (take n) (
        drop-append_le b (take o xs) (ys ++ drop (o + length ys) xs)
          (omega (arith, length-take o xs)))
      ∙ ap (take n) (sym (append_assoc (drop b (take o xs)) ys (drop (o + length ys) xs)))
      ∙ take-append_length n (drop b (take o xs) ++ ys) (drop (o + length ys) xs) (
          omega (
            arith,
            length-append (drop b (take o xs)) ys,
            length-drop b (take o xs),
            length-take o xs,
          ))
      ∙ ap (λ l. l ++ ys) (drop-take b o xs)

  -- A slice behind the new bytes is as before.
  pub slice-splice_after :
      (xs : List A) (o : ℕ) (ys : List A) (b n : ℕ)
      → o + length ys ≤ length xs
      → o + length ys ≤ b
      → slice (splice xs o ys) b n ≡ slice xs b n
  slice-splice_after xs o ys b n h le = ap (take n) (
      drop-append_ge b (take o xs) (ys ++ drop (o + length ys) xs) (omega (arith, length-take o xs))
      ∙ drop-append_ge (b - length (take o xs)) ys (drop (o + length ys) xs)
          (omega (arith, length-take o xs))
      ∙ drop-drop (b - length (take o xs) - length ys) (o + length ys) xs
      ∙ ap (λ k. drop k xs) (omega (arith, length-take o xs)))

  -- A slice cut in two.
  pub slice_split :
      (xs : List A) (b m n k : ℕ) → k ≡ m + n → slice xs b k ≡ slice xs b m ++ slice xs (b + m) n
  slice_split xs b m n k e =
      ap (λ j. slice xs b j) e
      ∙ take_split m n (drop b xs)
      ∙ ap (λ l. take m (drop b xs) ++ take n l) (drop-drop m b xs)

  -- Two writes, the second behind the first.
  pub splice-splice :
      (xs : List A) (o : ℕ) (ys zs : List A)
      → o ≡ length ys
      → splice (splice xs 0 ys) o zs ≡ splice xs 0 (ys ++ zs)
  splice-splice xs o ys zs e =
      ap₂ (λ l t. l ++ (zs ++ t)) (take-append_length o ys (drop (0 + length ys) xs) e)
        (drop-append_ge (o + length zs) ys (drop (0 + length ys) xs) (omega arith)
          ∙ drop-drop (o + length zs - length ys) (0 + length ys) xs
          ∙ ap (λ k. drop k xs) (omega (arith, length-append ys zs)))
      ∙ sym (append_assoc ys zs (drop (0 + length (ys ++ zs)) xs))
