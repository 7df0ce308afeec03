-- ===== src/WsParser/Collect.antt =====
-- What header lines leave in the parser.
use asr_sdk_cpp.Base.{
  ℕ, ◌≡◌, ◌∙◌, Bool, false, ◌||◌, [], ◌∷◌, ◌++◌, refl, sym, arith, Bytes, if◌then◌else◌, append-nil,
  append_assoc,
}
use asr_sdk_cpp.StringMap.{StringMap, insert}
use asr_sdk_cpp.StringMap.Laws.{IsAbove, IsBelow, IsSorted, insert_end, IsBelow-end}
use asr_sdk_cpp.WsParser.{WsParser}
use asr_sdk_cpp.WsParser.Print.{is_length, with_header}
use asr_sdk_cpp.WsParser.Headers.{with_headers}

-- Is there a length header?
abbrev pub has_length : StringMap → Bool
has_length [] = false
has_length ((k, v) ∷ m) = is_length k || has_length m

-- What the header lines leave alone, and what they set.
pub record Collected (n : ℕ) (m : StringMap) (p : WsParser) : Type 0 where
  pub command : (with_headers n m p).command ≡ p.command
  pub version : (with_headers n m p).version ≡ p.version
  pub body : (with_headers n m p).body ≡ p.body
  pub has_body : (with_headers n m p).has_body ≡ (has_length m || p.has_body)
  pub size_body : (with_headers n m p).size_body ≡ (if has_length m then n else p.size_body)

pub with_headers-Collected : (n : ℕ) (m : StringMap) (p : WsParser) → Collected n m p
with_headers-Collected n [] p = record {
  command = refl;
  version = refl;
  body = refl;
  has_body = refl;
  size_body = refl;
}
with_headers-Collected n ((k, v) ∷ m) p =
    let c = with_headers-Collected n m (with_header n k v p) in
    record {
      command = c.command;
      version = c.version;
      body = c.body;
      has_body = c.has_body ∙ or_swap (has_length m) (is_length k) p.has_body;
      size_body = c.size_body ∙ if_or (has_length m) (is_length k) n p.size_body;
    }
  where
    or_swap : (a b c : Bool) → (a || (b || c)) ≡ ((b || a) || c)
    or_swap a b c = ground arith

    if_or :
        (a b : Bool) (x y : ℕ) → (if a then x else if b then x else y) ≡ (if b || a then x else y)
    if_or a b x y = ground arith

-- Every key of the first map is less than every key of the second.
abbrev pub IsBefore : StringMap → StringMap → Type 0
IsBefore ms [] = Unit {0}
IsBefore ms ((k, v) ∷ m) = IsBelow ms k × IsBefore ms m

IsBefore-end :
    (ms m : StringMap) (k v : Bytes)
    → IsBelow ms k
    → IsBefore ms m
    → IsAbove k m
    → IsBefore (ms ++ (k, v) ∷ []) m
IsBefore-end ms [] k v b f a = tt
IsBefore-end ms ((j, w) ∷ m) k v b f a =
    (IsBelow-end ms j k v b a.0, IsBefore-end ms m k v b f.1 a.1)

IsBefore-nil : (m : StringMap) → IsBefore [] m
IsBefore-nil [] = tt
IsBefore-nil ((k, v) ∷ m) = (tt, IsBefore-nil m)

props-with_headers_from :
    (n : ℕ) (m : StringMap) (p : WsParser)
    → IsSorted m
    → IsBefore p.props m
    → (with_headers n m p).props ≡ p.props ++ m
props-with_headers_from n [] p s f = sym (append-nil p.props)
props-with_headers_from n ((k, v) ∷ m) p s f =
    let e : insert k v p.props ≡ p.props ++ (k, v) ∷ [] = insert_end k v p.props f.0 in
    props-with_headers_from n m (with_header n k v p) s.1
      (rw e (IsBefore-end p.props m k v f.0 f.1 s.0))
    ∙ rw e (append_assoc p.props ((k, v) ∷ []) m)

-- Sorted header lines, read into an empty map, give the map that they print.
pub props-with_headers :
    (n : ℕ) (m : StringMap) (p : WsParser)
    → IsSorted m
    → p.props ≡ []
    → (with_headers n m p).props ≡ m
props-with_headers n m p s e = props-with_headers_from n m p s (rw e (IsBefore-nil m)) ∙ rw e
