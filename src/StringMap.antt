-- ===== src/StringMap.antt =====
-- std::map<std::string, std::string>: its entries in the order of the keys.
pub mod Laws
use asr_sdk_cpp.Base.{Bool, Option, none, some, List, [], ◌∷◌, Bytes, if◌then◌else◌}
use asr_sdk_cpp.Text.{equal, less}

abbrev pub StringMap : Type 0
StringMap = List (Bytes × Bytes)

-- map::find
unfoldable pub find : Bytes → StringMap → Option Bytes
find k [] = none
find k ((j, w) ∷ m) = if equal k j then some w else find k m

-- map::insert, which leaves an entry that is there
unfoldable pub insert : Bytes → Bytes → StringMap → StringMap
insert k v [] = (k, v) ∷ []
insert k v ((j, w) ∷ m) =
    let rest = insert k v m in
    if equal k j then (j, w) ∷ m else if less k j then (k, v) ∷ (j, w) ∷ m else (j, w) ∷ rest

-- map::operator[] and an assignment, which replaces an entry that is there
unfoldable pub assign : Bytes → Bytes → StringMap → StringMap
assign k v [] = (k, v) ∷ []
assign k v ((j, w) ∷ m) =
    let rest = assign k v m in
    if equal k j then (j, v) ∷ m else if less k j then (k, v) ∷ (j, w) ∷ m else (j, w) ∷ rest

-- map::erase
unfoldable pub erase : Bytes → StringMap → StringMap
erase k [] = []
erase k ((j, w) ∷ m) = let rest = erase k m in if equal k j then m else (j, w) ∷ rest
