-- ===== src/Text/Lines.antt =====
-- What the std::getline loop reads off a text that is put together from lines.
use asr_sdk_cpp.Base.{ℕ, ◌≡◌, false, [], ◌∷◌, ◌++◌, arith, ◌==◌, Bytes}
use asr_sdk_cpp.Text.{get_lines}

-- The byte `d` is not in the text.
abbrev pub Lacks : ℕ → Bytes → Type 0
Lacks d [] = Unit {0}
Lacks d (c ∷ cs) = ((c == d) ≡ false) × Lacks d cs

pub Lacks-append : (d : ℕ) (xs ys : Bytes) → Lacks d xs → Lacks d ys → Lacks d (xs ++ ys)
Lacks-append d [] ys h k = k
Lacks-append d (x ∷ xs) ys h k = (h.0, Lacks-append d xs ys h.1 k)

-- A line and its delimiter.
pub get_lines_line :
    (d : ℕ) (l rest : Bytes) → Lacks d l → get_lines d (l ++ d ∷ rest) ≡ l ∷ get_lines d rest
unfolding get_lines
get_lines_line d [] rest h = ground arith
get_lines_line d (c ∷ cs) rest h = ground (arith, get_lines_line d cs rest h.1)

-- A last line with no delimiter.
pub get_lines_last :
    (d c : ℕ) (cs : Bytes) → Lacks d (c ∷ cs) → get_lines d (c ∷ cs) ≡ (c ∷ cs) ∷ []
unfolding get_lines
get_lines_last d c [] h = ground arith
get_lines_last d c (e ∷ cs) h = ground (arith, get_lines_last d e cs h.1)
