-- ===== src/WsParser/Headers.antt =====
-- The constructor's loop over a title line and header lines.
use asr_sdk_cpp.Base.{
  ℕ, ◌≡◌, ◌∙◌, Bool, true, false, ◌&&◌, some, List, [], ◌∷◌, ◌++◌, refl, sym, ap, arith, Bytes,
  append_assoc,
}
use asr_sdk_cpp.Text.{codes, equal, get_lines}
use asr_sdk_cpp.Text.Lines.{Lacks, Lacks-append, get_lines_line}
use asr_sdk_cpp.StringMap.{StringMap}
use asr_sdk_cpp.Outcome.{done}
use asr_sdk_cpp.TokenStream.{tokenize}
use asr_sdk_cpp.TokenStream.Scan.{IsWord, AllWord, at, newline_not_word}
use asr_sdk_cpp.WsParser.{
  WsParser, stm, pop_back, carriage_return, line_stm, read_lines, print_props,
}
use asr_sdk_cpp.WsParser.Print.{IsName, titled, stm_title, SaysLength, with_header, stm_header}

pop_back_end : (l : Bytes) (c : ℕ) → pop_back (l ++ c ∷ []) ≡ some l
unfolding pop_back
pop_back_end [] c = refl
pop_back_end (d ∷ []) c = refl
pop_back_end (d ∷ e ∷ l) c = rw (pop_back_end (e ∷ l) c)

-- A line is read by the statement that stands in it.
pub read_line :
    (l : Bytes) (ls : List Bytes) (p q : WsParser)
    → (equal (l ++ carriage_return) carriage_return && p.has_body) ≡ false
    → stm (record p { tks = at (l ++ 10 ∷ []) p.tks.last false }) ≡ done tt q
    → read_lines ((l ++ carriage_return) ∷ ls) p ≡ read_lines ls q
unfolding read_lines line_stm tokenize
read_line l ls p q h e = rw h (rw (pop_back_end l 13) (rw e))

AllWord-Lacks : (b : Bool) (w : Bytes) → AllWord b w → Lacks 10 w
AllWord-Lacks b [] h = tt
AllWord-Lacks b (c ∷ w) h = (newline_not_word c b h.0, AllWord-Lacks b w h.1)

IsWord-Lacks : (b : Bool) (w : Bytes) → IsWord b w → Lacks 10 w
IsWord-Lacks b [] h = absurd h
IsWord-Lacks b (c ∷ w) h = (newline_not_word c b h.0, AllWord-Lacks b w h.3)

abbrev pub title_line : Bytes → Bytes → Bytes
title_line v c = codes "ASR " ++ (v ++ (b' ' ∷ c))

abbrev pub header_line : Bytes → Bytes → Bytes
header_line k v = k ++ (b':' ∷ v)

abbrev pub header_lines : StringMap → List Bytes
header_lines [] = []
header_lines ((k, v) ∷ m) = (header_line k v ++ carriage_return) ∷ header_lines m

-- Entries that print as header lines, where a length header says `n`.
abbrev pub ArePrintable : ℕ → StringMap → Type 0
ArePrintable n [] = Unit {0}
ArePrintable n ((k, v) ∷ m) = IsName false k × IsName true v × SaysLength n k v × ArePrintable n m

-- The parser behind header lines.
abbrev pub with_headers : ℕ → StringMap → WsParser → WsParser
with_headers n [] p = p
with_headers n ((k, v) ∷ m) p = with_headers n m (with_header n k v p)

pub get_lines_title :
    (v c rest : Bytes)
    → IsName false v
    → IsName false c
    → get_lines 10 (title_line v c ++ (13 ∷ 10 ∷ rest))
      ≡ (title_line v c ++ carriage_return) ∷ get_lines 10 rest
get_lines_title v c rest hv hc =
    ap (get_lines 10) (sym (append_assoc (title_line v c) carriage_return (10 ∷ rest)))
    ∙ get_lines_line 10 (title_line v c ++ carriage_return) rest (
        Lacks-append 10 (title_line v c) carriage_return
          (Lacks-append 10 (codes "ASR ") (v ++ (b' ' ∷ c)) (refl, (refl, (refl, (refl, tt))))
            (Lacks-append 10 v (b' ' ∷ c) (IsWord-Lacks false v hv.is_word)
              (refl, IsWord-Lacks false c hc.is_word)))
          (refl, tt))

header_text :
    (k v ps rest : Bytes)
    → (k ++ (b':' ∷ (v ++ (13 ∷ 10 ∷ ps)))) ++ rest
      ≡ (header_line k v ++ carriage_return) ++ 10 ∷ (ps ++ rest)
header_text k v ps rest = simp append_assoc

pub get_lines_headers :
    (n : ℕ) (m : StringMap) (rest : Bytes)
    → ArePrintable n m
    → get_lines 10 (print_props m ++ rest) ≡ header_lines m ++ get_lines 10 rest
unfolding print_props
get_lines_headers n [] rest h = refl
get_lines_headers n ((k, v) ∷ m) rest (hk, hv, hn, hm) =
    ap (get_lines 10) (header_text k v (print_props m) rest)
    ∙ get_lines_line 10 (header_line k v ++ carriage_return) (print_props m ++ rest) (
        Lacks-append 10 (header_line k v) carriage_return
          (Lacks-append 10 k (b':' ∷ v) (IsWord-Lacks false k hk.is_word)
            (refl, IsWord-Lacks true v hv.is_word))
          (refl, tt))
    ∙ ap (◌∷◌ (header_line k v ++ carriage_return)) (get_lines_headers n m rest hm)

-- The loop reads the title line.
pub read_title :
    (v c : Bytes) (ls : List Bytes) (p : WsParser)
    → IsName false v
    → IsName false c
    → read_lines ((title_line v c ++ carriage_return) ∷ ls) p ≡ read_lines ls (titled p v c)
unfolding equal
read_title v c ls p hv hc =
    read_line (title_line v c) ls p (titled p v c) refl
      (rw (append_assoc v (b' ' ∷ c) (10 ∷ [])) (stm_title p v c p.tks.last hv hc))

not_return : (k v : Bytes) → equal (header_line k v ++ carriage_return) carriage_return ≡ false
unfolding equal
not_return [] v = ground arith
not_return (c ∷ []) v = ground arith
not_return (c ∷ d ∷ k) v = ground arith

-- The loop reads the header lines.
pub read_headers :
    (n : ℕ) (m : StringMap) (ls : List Bytes) (p : WsParser)
    → ArePrintable n m
    → read_lines (header_lines m ++ ls) p ≡ read_lines ls (with_headers n m p)
read_headers n [] ls p h = refl
read_headers n ((k, v) ∷ m) ls p (hk, hv, hn, hm) =
    read_line (header_line k v) (header_lines m ++ ls) p (with_header n k v p) (rw (not_return k v))
      (rw (append_assoc k (b':' ∷ v) (10 ∷ [])) (stm_header n p k v p.tks.last hk hv hn))
    ∙ read_headers n m ls (with_header n k v p) hm
