-- ===== src/BufferSource/Tests.antt =====
-- The buffered source's theorems at concrete sources.
use asr_sdk_cpp.Base.{◌≡◌, refl, true, [], ◌∷◌, arith}
use asr_sdk_cpp.BufferSource.{BufferSource, create, default_format, read, finish}
use asr_sdk_cpp.BufferSource.Inv.{IsValid, create-IsValid, finish-IsValid, Accepted, write-Accepted}
use asr_sdk_cpp.BufferSource.Stream.{
  waiting, read_end, Ends, finished-Ends, put, take_all, end, run, Conserves, run-Conserves,
}

abbrev fresh : BufferSource
fresh = create default_format 4

fresh-IsValid : IsValid fresh
fresh-IsValid = create-IsValid default_format 4 (omega arith) (omega arith)

write-Accepted_example : Accepted fresh (1 ∷ 2 ∷ 3 ∷ 4 ∷ 5 ∷ [])
unfolding create
write-Accepted_example = write-Accepted (1 ∷ 2 ∷ 3 ∷ 4 ∷ 5 ∷ []) fresh-IsValid (omega arith) refl

read_end_example : ((finish fresh).finished ≡ true) × (waiting (finish fresh) ≡ [])
unfolding create finish read
read_end_example =
    read_end {s = finish fresh} {t = finish fresh} [] (finish-IsValid fresh-IsValid) refl

finished-Ends_example : Ends (finish fresh) [] (9 ∷ [])
unfolding create finish
finished-Ends_example = finished-Ends [] (9 ∷ []) (finish-IsValid fresh-IsValid) refl

run-Conserves_example :
    Conserves fresh (run fresh (put (1 ∷ 2 ∷ 3 ∷ 4 ∷ 5 ∷ []) ∷ take_all ∷ end ∷ take_all ∷ []))
run-Conserves_example =
    run-Conserves (put (1 ∷ 2 ∷ 3 ∷ 4 ∷ 5 ∷ []) ∷ take_all ∷ end ∷ take_all ∷ []) fresh-IsValid
      (omega arith)
