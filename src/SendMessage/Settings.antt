-- ===== src/SendMessage/Settings.antt =====
-- Conditional headers, one behind the other.
use asr_sdk_cpp.Base.{
  ℕ, ◌≡◌, ◌∙◌, Bool, true, false, not, ◌&&◌, ◌||◌, Option, some, List, [], ◌∷◌, refl, arith, Bytes,
  if◌then◌else◌,
}
use asr_sdk_cpp.Text.{equal}
use asr_sdk_cpp.Text.Compare.{equal_iff}
use asr_sdk_cpp.StringMap.{StringMap, find, assign}
use asr_sdk_cpp.StringMap.Laws.{IsSorted, find-assign, assign-IsSorted}
use asr_sdk_cpp.WsParser.Print.{IsName, SaysLength, is_length}
use asr_sdk_cpp.WsParser.Headers.{ArePrintable}
use asr_sdk_cpp.WsParser.Collect.{has_length}
use asr_sdk_cpp.AsrMessage.{AsrMessage, set_header}
use asr_sdk_cpp.AsrMessage.Names.{is_name, is_name-IsName}
use asr_sdk_cpp.SendMessage.{set_if}

-- A header and the condition under which it is sent
pub record Setting : Type 0 where
  pub condition : Bool
  pub key : Bytes
  pub value : Bytes

abbrev pub set_all : List Setting → AsrMessage → AsrMessage
set_all [] r = r
set_all (s ∷ ss) r = set_all ss (set_if s.condition s.key s.value r)

-- The value that the settings leave of a header which was `o` before them.
abbrev pub chosen : List Setting → Bytes → Option Bytes → Option Bytes
chosen [] j o = o
chosen (s ∷ ss) j o = chosen ss j (if equal j s.key && s.condition then some s.value else o)

find-set_if :
    (b : Bool) (k v j : Bytes) (r : AsrMessage)
    → find j (set_if b k v r).headers ≡ (if equal j k && b then some v else find j r.headers)
unfolding set_header
find-set_if true k v j r = rw (find-assign j k v r.headers) (ground arith)
find-set_if false k v j r = ground arith

pub find-set_all :
    (ss : List Setting) (j : Bytes) (r : AsrMessage)
    → find j (set_all ss r).headers ≡ chosen ss j (find j r.headers)
find-set_all [] j r = refl
find-set_all (s ∷ ss) j r =
    find-set_all ss j (set_if s.condition s.key s.value r)
    ∙ rw (find-set_if s.condition s.key s.value j r)

-- An assignment of a header that prints
pub assign-ArePrintable :
    (n : ℕ) (k v : Bytes) (m : StringMap)
    → IsName false k
    → IsName true v
    → SaysLength n k v
    → ArePrintable n m
    → ArePrintable n (assign k v m)
unfolding assign
assign-ArePrintable n k v [] hk hv l h = (hk, hv, l, tt)
assign-ArePrintable n k v ((j, w) ∷ m) hk hv l h =
    ground (arith, equal_iff k j, assign-ArePrintable n k v m hk hv l)

pub has_length-assign :
    (k v : Bytes) (m : StringMap) → has_length (assign k v m) ≡ (is_length k || has_length m)
unfolding assign
has_length-assign k v [] = refl
has_length-assign k v ((j, w) ∷ m) = ground (arith, equal_iff k j, has_length-assign k v m)

-- The settings name headers other than the length, and values that print where they are sent.
abbrev pub AreSettings : List Setting → Type 0
AreSettings [] = Unit {0}
AreSettings (s ∷ ss) =
    ((is_name false s.key && not (is_length s.key)) ≡ true)
    × (s.condition ≡ true → IsName true s.value)
    × AreSettings ss

-- Headers in order that print, with no length header
pub record IsPlain (r : AsrMessage) : Type 0 where
  pub sorted : IsSorted r.headers
  pub printable : (n : ℕ) → ArePrintable n r.headers
  pub no_length : has_length r.headers ≡ false

set_if-IsPlain :
    (b : Bool) (k v : Bytes) (r : AsrMessage)
    → (is_name false k && not (is_length k)) ≡ true
    → (b ≡ true → IsName true v)
    → IsPlain r
    → IsPlain (set_if b k v r)
unfolding set_header
set_if-IsPlain true k v r hk hv h =
    let name : is_name false k ≡ true = ground arith in
    let other : is_length k ≡ false = ground arith in
    record {
      sorted = assign-IsSorted k v r.headers h.sorted;
      printable = λ n.
          assign-ArePrintable n k v r.headers (is_name-IsName false k name) (hv refl) (λ e. cc)
            (h.printable n);
      no_length = rw (has_length-assign k v r.headers) (rw other h.no_length);
    }
set_if-IsPlain false k v r hk hv h = h

pub set_all-IsPlain :
    (ss : List Setting) (r : AsrMessage) → AreSettings ss → IsPlain r → IsPlain (set_all ss r)
set_all-IsPlain [] r a h = h
set_all-IsPlain (s ∷ ss) r (hk, hv, a) h =
    set_all-IsPlain ss (set_if s.condition s.key s.value r) a
      (set_if-IsPlain s.condition s.key s.value r hk hv h)

-- A setting under another condition, and two under another condition
pub nested :
    (a b : Bool) (j w k v : Bytes) (r : AsrMessage)
    → (if a then set_if b k v (set_header j w r) else r) ≡ set_if (a && b) k v (set_if a j w r)
nested true b j w k v r = refl
nested false b j w k v r = refl

pub nested_two :
    (a b c : Bool) (i u j w k v : Bytes) (r : AsrMessage)
    → (if a then set_if c k v (set_if b j w (set_header i u r)) else r)
      ≡ set_if (a && c) k v (set_if (a && b) j w (set_if a i u r))
nested_two true b c i u j w k v r = refl
nested_two false b c i u j w k v r = refl
