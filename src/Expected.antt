-- ===== src/Expected.antt =====
-- Expected of include/aux/expected.h: a value or an exception, in the storage of a union.
pub mod Model
mod Tests
use asr_sdk_cpp.Base.{Bool, true, false, not, Option, none, some, if◌then◌else◌}

-- The union: its active member. `X` are exceptions; an exception_ptr may be null.
pub data Storage (T X : Type 0) : Type 0 where
  ham : T → Storage T X
  spam : Option X → Storage T X

-- Expected<T>
pub record Expected (T X : Type 0) : Type 0 where
  pub storage : Storage T X
  pub got_ham : Bool

-- What a call that may throw gives; `undefined` is the use of a member that is not active, or of a
-- null exception_ptr.
pub data Got (T X : Type 0) : Type 0 where
  got : T → Got T X
  threw : X → Got T X
  undefined : Got T X

module _ {T X : Type 0} where
  -- The members of the union, read
  abbrev pub as_ham : Storage T X → Option T
  as_ham (ham t) = some t
  as_ham (spam p) = none

  abbrev pub as_spam : Storage T X → Option (Option X)
  as_spam (ham t) = none
  as_spam (spam p) = some p

  -- Expected(const T&) and Expected(T&&)
  unfoldable pub from_value : T → Expected T X
  from_value t = record { storage = ham t; got_ham = true }

  -- fromException(std::exception_ptr)
  unfoldable pub from_exception_ptr : Option X → Expected T X
  from_exception_ptr p = record { storage = spam p; got_ham = false }

  -- Expected(const Expected&)
  abbrev pub copied_ham : Option T → Option (Expected T X)
  copied_ham none = none
  copied_ham (some t) = some (record { storage = ham t; got_ham = true })

  abbrev pub copied_spam : Option (Option X) → Option (Expected T X)
  copied_spam none = none
  copied_spam (some p) = some (record { storage = spam p; got_ham = false })

  unfoldable pub copy : Expected T X → Option (Expected T X)
  copy rhs =
      let value = copied_ham (as_ham rhs.storage) in
      let exception = copied_spam (as_spam rhs.storage) in if rhs.got_ham then value else exception

  -- Expected(Expected&&): the new object, and what is left of `rhs`. `left` is what the move
  -- constructor of T leaves of a value; that of std::exception_ptr leaves a null pointer.
  abbrev pub moved_ham : (T → T) → Expected T X → Option T → Option (Expected T X × Expected T X)
  moved_ham left rhs none = none
  moved_ham left rhs (some t) =
      some (record { storage = ham t; got_ham = true }, record rhs { storage = ham (left t) })

  abbrev pub moved_spam : Expected T X → Option (Option X) → Option (Expected T X × Expected T X)
  moved_spam rhs none = none
  moved_spam rhs (some p) =
      some (record { storage = spam p; got_ham = false }, record rhs { storage = spam none })

  unfoldable pub move : (T → T) → Expected T X → Option (Expected T X × Expected T X)
  move left rhs =
      let value = moved_ham left rhs (as_ham rhs.storage) in
      let exception = moved_spam rhs (as_spam rhs.storage) in
      if rhs.got_ham then value else exception

  -- The branches of swap
  abbrev pub swap_hams :
      Expected T X → Expected T X → Option T → Option T → Option (Expected T X × Expected T X)
  swap_hams this rhs (some t) (some u) =
      some (record this { storage = ham u }, record rhs { storage = ham t })
  swap_hams this rhs (some t) none = none
  swap_hams this rhs none u = none

  abbrev pub swap_spams :
      Expected T X
      → Expected T X
      → Option (Option X)
      → Option (Option X)
      → Option (Expected T X × Expected T X)
  swap_spams this rhs (some p) (some q) = some (
    record { storage = spam q; got_ham = rhs.got_ham },
    record { storage = spam p; got_ham = this.got_ham },
  )
  swap_spams this rhs (some p) none = none
  swap_spams this rhs none q = none

  -- `this` has a value and `rhs` an exception.
  abbrev pub swap_mixed :
      Expected T X
      → Expected T X
      → Option T
      → Option (Option X)
      → Option (Expected T X × Expected T X)
  swap_mixed this rhs (some t) (some q) = some (
    record { storage = spam q; got_ham = rhs.got_ham },
    record { storage = ham t; got_ham = this.got_ham },
  )
  swap_mixed this rhs (some t) none = none
  swap_mixed this rhs none q = none

  abbrev pub turned : Option (Expected T X × Expected T X) → Option (Expected T X × Expected T X)
  turned none = none
  turned (some (a, b)) = some (b, a)

  -- swap; `none` is the use of a member that is not active.
  unfoldable pub swap : Expected T X → Expected T X → Option (Expected T X × Expected T X)
  swap this rhs =
      let hams = swap_hams this rhs (as_ham this.storage) (as_ham rhs.storage) in
      let mixed = swap_mixed this rhs (as_ham this.storage) (as_spam rhs.storage) in
      let back = turned (swap_mixed rhs this (as_ham rhs.storage) (as_spam this.storage)) in
      let spams = swap_spams this rhs (as_spam this.storage) (as_spam rhs.storage) in
      if this.got_ham
      then (if rhs.got_ham then hams else mixed)
      else (if rhs.got_ham then back else spams)

  unfoldable pub valid : Expected T X → Bool
  valid e = e.got_ham

  -- std::rethrow_exception
  abbrev pub rethrow_exception : Option (Option X) → Got T X
  rethrow_exception none = undefined
  rethrow_exception (some none) = undefined
  rethrow_exception (some (some x)) = threw x

  abbrev pub given : Option T → Got T X
  given none = undefined
  given (some t) = got t

  -- get
  unfoldable pub get : Expected T X → Got T X
  get e =
      let thrown = rethrow_exception (as_spam e.storage) in
      let value = given (as_ham e.storage) in if not e.got_ham then thrown else value

  -- hasException<E>; `is_a` says whether an exception is caught as an E.
  abbrev pub caught : (X → Bool) → Got T X → Option Bool
  caught is_a (got t) = some false
  caught is_a (threw x) = some (is_a x)
  caught is_a undefined = none

  unfoldable pub has_exception : (X → Bool) → Expected T X → Option Bool
  has_exception is_a e =
      let thrown = caught is_a (rethrow_exception (as_spam e.storage)) in
      if not e.got_ham then thrown else some false

  -- fromCode on what the function does
  abbrev pub from_code : Got T X → Option (Expected T X)
  from_code (got t) = some (from_value t)
  from_code (threw x) = some (from_exception_ptr (some x))
  from_code undefined = none

  -- fromException<E>: `same_type` says whether the exception is of the static type, and `slicing`
  -- is the std::invalid_argument.
  unfoldable pub from_exception : (X → Bool) → X → X → Got (Expected T X) X
  from_exception same_type slicing x =
      if not (same_type x) then threw slicing else got (from_exception_ptr (some x))
