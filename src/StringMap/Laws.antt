-- ===== src/StringMap/Laws.antt =====
-- The laws of the sorted map.
use asr_sdk_cpp.Base.{◌≡◌, true, none, some, [], ◌∷◌, ◌++◌, refl, arith, Bytes, if◌then◌else◌}
use asr_sdk_cpp.Text.{equal, less}
use asr_sdk_cpp.Text.Compare.{equal_iff, equal_comm, less_trans, less_asymm, less_total, less-equal}
use asr_sdk_cpp.StringMap.{StringMap, find, insert, assign, erase}

-- Every key of `m` is greater than `k`.
abbrev pub IsAbove : Bytes → StringMap → Type 0
IsAbove k [] = Unit {0}
IsAbove k ((j, w) ∷ m) = (less k j ≡ true) × IsAbove k m

-- Every key of `m` is less than `k`.
abbrev pub IsBelow : StringMap → Bytes → Type 0
IsBelow [] k = Unit {0}
IsBelow ((j, w) ∷ m) k = (less j k ≡ true) × IsBelow m k

-- The keys grow from each entry to the next.
abbrev pub IsSorted : StringMap → Type 0
IsSorted [] = Unit {0}
IsSorted ((k, v) ∷ m) = IsAbove k m × IsSorted m

pub IsAbove-trans : (j k : Bytes) (m : StringMap) → less j k ≡ true → IsAbove k m → IsAbove j m
IsAbove-trans j k [] h a = tt
IsAbove-trans j k ((i, w) ∷ m) h a = (less_trans j k i h a.0, IsAbove-trans j k m h a.1)

-- Looking up any key behind an assignment.
pub find-assign :
    (j k v : Bytes) (m : StringMap)
    → find j (assign k v m) ≡ (if equal j k then some v else find j m)
unfolding find assign
find-assign j k v [] = refl
find-assign j k v ((i, w) ∷ m) =
    ground (arith, equal_iff j k, equal_iff k i, equal_iff j i, find-assign j k v m)

find-IsAbove : (k : Bytes) (m : StringMap) → IsAbove k m → find k m ≡ none
unfolding find
find-IsAbove k [] a = refl
find-IsAbove k ((i, w) ∷ m) a = ground (arith, less-equal k i a.0, find-IsAbove k m a.1)

-- A new key is looked up as it was inserted; no other key changes.
pub find-insert_new :
    (j k v : Bytes) (m : StringMap)
    → find k m ≡ none
    → find j (insert k v m) ≡ (if equal j k then some v else find j m)
unfolding find insert
find-insert_new j k v [] h = refl
find-insert_new j k v ((i, w) ∷ m) h =
    ground (arith, equal_iff j k, equal_iff k i, equal_iff j i, find-insert_new j k v m)

-- The first value of a key is kept.
pub insert_old : (k v w : Bytes) (m : StringMap) → IsSorted m → find k m ≡ some w → insert k v m ≡ m
unfolding find insert
insert_old k v w [] s h = cc
insert_old k v w ((i, u) ∷ m) s h = ground (
  arith,
  insert_old k v w m s.1,
  λ (l : less k i ≡ true). find-IsAbove k m (IsAbove-trans k i m l s.0),
)

assign-IsAbove :
    (j k v : Bytes) (m : StringMap) → less j k ≡ true → IsAbove j m → IsAbove j (assign k v m)
unfolding assign
assign-IsAbove j k v [] h a = (h, tt)
assign-IsAbove j k v ((i, w) ∷ m) h a = ground (arith, assign-IsAbove j k v m)

pub assign-IsSorted : (k v : Bytes) (m : StringMap) → IsSorted m → IsSorted (assign k v m)
unfolding assign
assign-IsSorted k v [] s = (tt, tt)
assign-IsSorted k v ((i, w) ∷ m) s = ground (
  arith,
  assign-IsSorted k v m,
  assign-IsAbove i k v m,
  less_total k i,
  λ (l : less k i ≡ true). IsAbove-trans k i m l s.0,
)

insert-IsAbove :
    (j k v : Bytes) (m : StringMap) → less j k ≡ true → IsAbove j m → IsAbove j (insert k v m)
unfolding insert
insert-IsAbove j k v [] h a = (h, tt)
insert-IsAbove j k v ((i, w) ∷ m) h a = ground (arith, insert-IsAbove j k v m)

pub insert-IsSorted : (k v : Bytes) (m : StringMap) → IsSorted m → IsSorted (insert k v m)
unfolding insert
insert-IsSorted k v [] s = (tt, tt)
insert-IsSorted k v ((i, w) ∷ m) s = ground (
  arith,
  insert-IsSorted k v m,
  insert-IsAbove i k v m,
  less_total k i,
  λ (l : less k i ≡ true). IsAbove-trans k i m l s.0,
)

-- A key above all others goes to the end.
pub insert_end : (k v : Bytes) (m : StringMap) → IsBelow m k → insert k v m ≡ m ++ (k, v) ∷ []
unfolding insert
insert_end k v [] b = refl
insert_end k v ((i, w) ∷ m) b =
    ground (arith, less_asymm i k b.0, less-equal i k b.0, equal_comm i k, insert_end k v m b.1)

pub IsBelow-end :
    (m : StringMap) (j k v : Bytes) → IsBelow m k → less k j ≡ true → IsBelow (m ++ (k, v) ∷ []) j
IsBelow-end [] j k v b h = (h, tt)
IsBelow-end ((i, w) ∷ m) j k v b h = (less_trans i k j b.0 h, IsBelow-end m j k v b.1 h)

-- An erased key is gone; no other key changes.
pub find-erase :
    (j k : Bytes) (m : StringMap)
    → IsSorted m
    → find j (erase k m) ≡ (if equal j k then none else find j m)
unfolding find erase
find-erase j k [] s = ground arith
find-erase j k ((i, w) ∷ m) s =
    ground (
      arith,
      equal_iff j k,
      equal_iff k i,
      equal_iff j i,
      find-IsAbove i m s.0,
      find-erase j k m s.1,
    )

erase-IsAbove : (j k : Bytes) (m : StringMap) → IsAbove j m → IsAbove j (erase k m)
unfolding erase
erase-IsAbove j k [] a = tt
erase-IsAbove j k ((i, w) ∷ m) a = ground (arith, erase-IsAbove j k m a.1)

pub erase-IsSorted : (k : Bytes) (m : StringMap) → IsSorted m → IsSorted (erase k m)
unfolding erase
erase-IsSorted k [] s = tt
erase-IsSorted k ((i, w) ∷ m) s = ground (arith, erase-IsSorted k m s.1, erase-IsAbove i k m s.0)
