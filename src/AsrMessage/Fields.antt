-- ===== src/AsrMessage/Fields.antt =====
-- The headers of a request as a map from names to values.
use asr_sdk_cpp.Base.{◌≡◌, Option, some, none, refl, Bytes, if◌then◌else◌, List, [], ◌∷◌}
use asr_sdk_cpp.Text.{equal}
use asr_sdk_cpp.StringMap.{find}
use asr_sdk_cpp.StringMap.Laws.{IsSorted, find-assign, find-erase, assign-IsSorted, erase-IsSorted}
use asr_sdk_cpp.AsrMessage.{
  AsrMessage, Method, request, set_header, remove_header, set_extra, get_header, or_empty,
}

-- A call of a request's interface
pub data Edit : Type 0 where
  set : Bytes → Bytes → Edit
  remove : Bytes → Edit
  body : Bytes → Edit

abbrev pub edit : Edit → AsrMessage → AsrMessage
edit (set k v) m = set_header k v m
edit (remove k) m = remove_header k m
edit (body x) m = set_extra x m

-- The calls in their order
abbrev pub edits : List Edit → AsrMessage → AsrMessage
edits [] m = m
edits (e ∷ es) m = edits es (edit e m)

-- What the calls leave of the header `j`, which was `o` before them: the last call that names it
-- settles it.
abbrev pub last_value : List Edit → Bytes → Option Bytes → Option Bytes
last_value [] j o = o
last_value (set k v ∷ es) j o = last_value es j (if equal j k then some v else o)
last_value (remove k ∷ es) j o = last_value es j (if equal j k then none else o)
last_value (body x ∷ es) j o = last_value es j o

find-edits :
    (es : List Edit) (m : AsrMessage) (j : Bytes)
    → IsSorted m.headers
    → find j (edits es m).headers ≡ last_value es j (find j m.headers)
unfolding set_header remove_header set_extra
find-edits [] m j s = refl
find-edits (set k v ∷ es) m j s =
    rw (find-edits es (set_header k v m) j (assign-IsSorted k v m.headers s)) (rw find-assign)
find-edits (remove k ∷ es) m j s =
    rw (find-edits es (remove_header k m) j (erase-IsSorted k m.headers s))
      (rw (find-erase j k m.headers s))
find-edits (body x ∷ es) m j s = find-edits es (set_extra x m) j s

-- After any calls on a new request, a header is what the last call that named it says: the value
-- it set, or empty if it removed the header or no call named it.
pub get_header-edits :
    (c : Method) (es : List Edit) (j : Bytes)
    → get_header (edits es (request c)) j ≡ or_empty (last_value es j none)
unfolding get_header request find
get_header-edits c es j = rw (find-edits es (request c) j tt)
