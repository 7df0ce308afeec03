-- ===== src/Expected/Model.antt =====
-- Two objects of Expected as what they stand for: a value, an exception, or what is left of an
-- object whose exception was moved out.
use asr_sdk_cpp.Base.{◌≡◌, ◌∙◌, Bool, true, false, Option, none, some, List, [], ◌∷◌, refl, ap}
use asr_sdk_cpp.Expected.{
  Expected, Got, got, threw, undefined, from_value, from_exception_ptr, copy, move, swap, valid,
  get, has_exception,
}

pub data Value (T X : Type 0) : Type 0 where
  good : T → Value T X
  bad : X → Value T X
  emptied : Value T X

-- The calls on two objects: an exchange, the second made anew as a copy of the first or moved from
-- it, and the observers of the first
pub data Op (X : Type 0) : Type 0 where
  op_swap op_copy op_move op_get op_valid : Op X
  op_has_exception : (X → Bool) → Op X

pub data Seen (T X : Type 0) : Type 0 where
  nothing : Seen T X
  outcome : Got T X → Seen T X
  answer : Bool → Seen T X

abbrev pub Pair : Type 0 → Type 0 → Type 0
Pair T X = Expected T X × Expected T X

abbrev pub Values : Type 0 → Type 0 → Type 0
Values T X = Value T X × Value T X

-- What a call gives and leaves; `none` is what C++ leaves undefined.
abbrev pub Called : Type 0 → Type 0 → Type 0 → Type 0
Called A T X = Option (A × Pair T X)

module _ {T X : Type 0} where
  -- The object that stands for a value, an exception, or neither
  abbrev pub held : Value T X → Expected T X
  held (good t) = from_value t
  held (bad x) = from_exception_ptr (some x)
  held emptied = from_exception_ptr none

  abbrev pub both_held : Values T X → Pair T X
  both_held (v, w) = (held v, held w)

  -- What a call gives, and the objects behind it
  abbrev pub swapped : Option (Pair T X) → Called (Seen T X) T X
  swapped none = none
  swapped (some p) = some (nothing, p)

  abbrev pub copied : Expected T X → Option (Expected T X) → Called (Seen T X) T X
  copied e none = none
  copied e (some f) = some (nothing, (e, f))

  abbrev pub moved : Option (Pair T X) → Called (Seen T X) T X
  moved none = none
  moved (some (f, e)) = some (nothing, (e, f))

  abbrev pub gave : Pair T X → Got T X → Called (Seen T X) T X
  gave p undefined = none
  gave p (got t) = some (outcome (got t), p)
  gave p (threw x) = some (outcome (threw x), p)

  abbrev pub answered : Pair T X → Option Bool → Called (Seen T X) T X
  answered p none = none
  answered p (some b) = some (answer b, p)

  -- What the observers give of what an object stands for
  abbrev pub shown : Value T X → Option (Seen T X)
  shown (good t) = some (outcome (got t))
  shown (bad x) = some (outcome (threw x))
  shown emptied = none

  abbrev pub is_good : Value T X → Bool
  is_good (good t) = true
  is_good _ = false

  abbrev pub is_caught : (X → Bool) → Value T X → Option (Seen T X)
  is_caught is_a (good t) = some (answer false)
  is_caught is_a (bad x) = some (answer (is_a x))
  is_caught is_a emptied = none

  abbrev pub keeping : Values T X → Option (Seen T X) → Option (Seen T X × Values T X)
  keeping vs none = none
  keeping vs (some s) = some (s, vs)

  abbrev pub as_held : {A : Type 0} → Option (A × Values T X) → Called A T X
  as_held none = none
  as_held (some (a, vs)) = some (a, both_held vs)

  -- Calls one behind the other, with what they give
  abbrev pub seen_first :
      {S : Type 0} → Seen T X → Option (List (Seen T X) × S) → Option (List (Seen T X) × S)
  seen_first s none = none
  seen_first s (some (ss, x)) = some (s ∷ ss, x)

  abbrev pub then_calls :
      {S : Type 0}
      → Option (Seen T X × S)
      → (S → Option (List (Seen T X) × S))
      → Option (List (Seen T X) × S)
  then_calls none f = none
  then_calls (some (s, x)) f = seen_first s (f x)

  first_held :
      (s : Seen T X) (r : Option (List (Seen T X) × Values T X))
      → seen_first s (as_held r) ≡ as_held (seen_first s r)
  first_held s none = refl
  first_held s (some (ss, vs)) = refl

  behind :
      (r : Option (Seen T X × Values T X)) (f : Pair T X → Called (List (Seen T X)) T X)
      (g : Values T X → Option (List (Seen T X) × Values T X))
      → ((vs : Values T X) → f (both_held vs) ≡ as_held (g vs))
      → then_calls (as_held r) f ≡ as_held (then_calls r g)
  behind none f g h = refl
  behind (some (s, vs)) f g h = ap (seen_first s) (h vs) ∙ first_held s (g vs)

module _ {T X : Type 0} (left : T → T) where
  -- A call on the objects
  pub call : Op X → Pair T X → Called (Seen T X) T X
  call op_swap (e, f) = swapped (swap e f)
  call op_copy (e, f) = copied e (copy e)
  call op_move (e, f) = moved (move left e)
  call op_get (e, f) = gave (e, f) (get e)
  call op_valid (e, f) = some (answer (valid e), (e, f))
  call (op_has_exception is_a) (e, f) = answered (e, f) (has_exception is_a e)

  -- The same on what the objects stand for. What is left behind a move is no exception.
  abbrev pub left_of : Value T X → Value T X
  left_of (good t) = good (left t)
  left_of (bad x) = emptied
  left_of emptied = emptied

  pub model : Op X → Values T X → Option (Seen T X × Values T X)
  model op_swap (v, w) = some (nothing, (w, v))
  model op_copy (v, w) = some (nothing, (v, v))
  model op_move (v, w) = some (nothing, (left_of v, v))
  model op_get (v, w) = keeping (v, w) (shown v)
  model op_valid (v, w) = some (answer (is_good v), (v, w))
  model (op_has_exception is_a) (v, w) = keeping (v, w) (is_caught is_a v)

  call-model : (o : Op X) (v w : Value T X) → call o (both_held (v, w)) ≡ as_held (model o (v, w))
  unfolding call model swap copy move valid get has_exception from_value from_exception_ptr
  call-model op_swap (good t) (good u) = refl
  call-model op_swap (good t) (bad y) = refl
  call-model op_swap (good t) emptied = refl
  call-model op_swap (bad x) (good u) = refl
  call-model op_swap (bad x) (bad y) = refl
  call-model op_swap (bad x) emptied = refl
  call-model op_swap emptied (good u) = refl
  call-model op_swap emptied (bad y) = refl
  call-model op_swap emptied emptied = refl
  call-model op_copy (good t) w = refl
  call-model op_copy (bad x) w = refl
  call-model op_copy emptied w = refl
  call-model op_move (good t) w = refl
  call-model op_move (bad x) w = refl
  call-model op_move emptied w = refl
  call-model op_get (good t) w = refl
  call-model op_get (bad x) w = refl
  call-model op_get emptied w = refl
  call-model op_valid (good t) w = refl
  call-model op_valid (bad x) w = refl
  call-model op_valid emptied w = refl
  call-model (op_has_exception is_a) (good t) w = refl
  call-model (op_has_exception is_a) (bad x) w = refl
  call-model (op_has_exception is_a) emptied w = refl

  pub calls : List (Op X) → Pair T X → Called (List (Seen T X)) T X
  calls [] p = some ([], p)
  calls (o ∷ os) p = then_calls (call o p) (calls os)

  pub models : List (Op X) → Values T X → Option (List (Seen T X) × Values T X)
  models [] vs = some ([], vs)
  models (o ∷ os) vs = then_calls (model o vs) (models os)

  -- Whatever swaps, copies, moves and observers are called on two objects that hold a value, an
  -- exception, or what a move left of one, they give what they give on a value, an exception or
  -- neither. No call uses a member of the union that is not active, and what is undefined is only
  -- get and hasException on an object whose exception was moved out.
  pub calls-models :
      (os : List (Op X)) (vs : Values T X) → calls os (both_held vs) ≡ as_held (models os vs)
  unfolding calls models
  calls-models [] vs = refl
  calls-models (o ∷ os) (v, w) =
      ap (λ r. then_calls r (calls os)) (call-model o v w)
      ∙ behind (model o (v, w)) (calls os) (models os) (calls-models os)
