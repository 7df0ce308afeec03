-- ===== src/RingBuffer/Tests.antt =====
-- The ring's theorems at concrete rings.
use asr_sdk_cpp.Base.{◌≡◌, refl, some, none, [], ◌∷◌, arith}
use asr_sdk_cpp.RingBuffer.{RingBuffer, create, write}
use asr_sdk_cpp.RingBuffer.Inv.{IsValid, create-IsValid}
use asr_sdk_cpp.RingBuffer.Contents.{contents}
use asr_sdk_cpp.RingBuffer.Transfer.{
  Wrote, write-Wrote, Fetched, read-Fetched, Drained, read_all-Drained,
}
use asr_sdk_cpp.RingBuffer.Fifo.{put, get, get_all, run, queue_run, run_refines}
use asr_sdk_cpp.RingBuffer.ZeroSize.{write-create_zero}

-- The bytes 3, 4 and 5, round the end of a block of five.
abbrev wrapped : RingBuffer
wrapped = record { bytes = 5 ∷ 9 ∷ 9 ∷ 3 ∷ 4 ∷ []; size = 5; read_ptr = 3; write_ptr = 1 }

wrapped-IsValid : IsValid wrapped
wrapped-IsValid = omega arith

contents-wrapped : contents wrapped ≡ 3 ∷ 4 ∷ 5 ∷ []
contents-wrapped = refl

write-Wrote_example : Wrote wrapped (6 ∷ 7 ∷ []) 2
write-Wrote_example = write-Wrote (6 ∷ 7 ∷ []) 2 wrapped-IsValid (omega arith)

read-Fetched_example : Fetched wrapped (0 ∷ 0 ∷ 0 ∷ []) 3
read-Fetched_example = read-Fetched (0 ∷ 0 ∷ 0 ∷ []) 3 wrapped-IsValid (omega arith)

read_all-Drained_example : Drained wrapped []
read_all-Drained_example = read_all-Drained [] wrapped-IsValid

run_refines_example :
    run (create 4) (put (1 ∷ 2 ∷ []) ∷ get 2 ∷ put (3 ∷ 4 ∷ 5 ∷ 6 ∷ []) ∷ get_all ∷ [])
    ≡ some (queue_run 3 [] (put (1 ∷ 2 ∷ []) ∷ get 2 ∷ put (3 ∷ 4 ∷ 5 ∷ 6 ∷ []) ∷ get_all ∷ []))
unfolding create
run_refines_example =
    run_refines (put (1 ∷ 2 ∷ []) ∷ get 2 ∷ put (3 ∷ 4 ∷ 5 ∷ 6 ∷ []) ∷ get_all ∷ [])
      (create-IsValid 4 (omega arith) (omega arith))

write-create_zero_example : write (create 0) (some (7 ∷ [])) 1 ≡ none
write-create_zero_example = write-create_zero (7 ∷ []) 1 (omega arith) (omega arith) (omega arith)
