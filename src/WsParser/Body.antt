-- ===== src/WsParser/Body.antt =====
-- The constructor's loop that copies the body: the last bytes of the message.
use asr_sdk_cpp.Base.{
  ℕ, ◌+◌, ◌-◌, ◌%◌, ◌^◌, ◌<◌, ◌≤◌, ◌≡◌, ◌∙◌, zero, suc, some, none, [], ◌∷◌, ◌++◌, refl, sym, ap,
  arith, Bytes, length, get_elem?, drop, append-nil, append_assoc, drop-all,
}
use asr_sdk_cpp.WsParser.{copy_body}

-- A byte of a text, and the text from it on.
drop-get_elem? :
    (i : ℕ) (xs : Bytes)
    → i < length xs
    → (c : ℕ) × (get_elem? xs i ≡ some c) × (drop i xs ≡ c ∷ drop (suc i) xs)
drop-get_elem? i [] h = absurd (omega arith)
drop-get_elem? zero (x ∷ xs) h = (x, refl, refl)
drop-get_elem? (suc i) (x ∷ xs) h = drop-get_elem? i xs (omega arith)

-- The loop appends the last `i` bytes, if there are as many.
pub copy_body_last :
    (str : Bytes) (i : ℕ) (acc : Bytes)
    → i ≤ length str
    → length str < 2 ^ 64
    → copy_body str i acc ≡ some (acc ++ drop (length str - i) str)
unfolding copy_body
copy_body_last str zero acc h k =
    ap some (
      sym (append-nil acc) ∙ ap (λ l. acc ++ l) (sym (drop-all (length str - 0) str (omega arith))))
copy_body_last str (suc i) acc h k =
    let j : (length str + 2 ^ 64 - suc i) % 2 ^ 64 ≡ length str - suc i = omega arith in
    let (c, there, cut) = drop-get_elem? (length str - suc i) str (omega arith) in
    let next : suc (length str - suc i) ≡ length str - i = omega arith in
    rw (j, copy_body)
      (rw (there, copy_body)
        (copy_body_last str i (acc ++ c ∷ []) (omega arith) k
          ∙ ap some (
              append_assoc acc (c ∷ []) (drop (length str - i) str)
              ∙ ap (λ l. acc ++ l) (ap (λ d. c ∷ drop d str) (sym next) ∙ sym cut))))

get_elem?-none : (xs : Bytes) (i : ℕ) → length xs ≤ i → get_elem? xs i ≡ none
get_elem?-none [] i h = refl
get_elem?-none (x ∷ xs) zero h = absurd (omega arith)
get_elem?-none (x ∷ xs) (suc i) h = get_elem?-none xs i (omega arith)

-- The loop reads outside the text in its first round, if more bytes are asked for.
pub copy_body_outside :
    (str : Bytes) (i : ℕ) (acc : Bytes)
    → length str < i
    → i < 2 ^ 64
    → length str < 2 ^ 63
    → copy_body str i acc ≡ none
unfolding copy_body
copy_body_outside str zero acc h k l = absurd (omega arith)
copy_body_outside str (suc i) acc h k l =
    rw (get_elem?-none str ((length str + 2 ^ 64 - suc i) % 2 ^ 64) (omega arith), copy_body)
