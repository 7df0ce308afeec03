-- ===== src/Expected/Tests.antt =====
-- The theorem on Expected at two concrete objects.
use asr_sdk_cpp.Base.{ℕ, ◌≡◌, true, [], ◌∷◌, List}
use asr_sdk_cpp.Expected.Model.{
  Op, good, bad, op_swap, op_copy, op_move, op_get, op_valid, op_has_exception, both_held, as_held,
  calls, models, calls-models,
}

-- What a move leaves of a number
abbrev left : ℕ → ℕ
left n = n

abbrev script : List (Op ℕ)
script =
    op_swap ∷ op_get ∷ op_copy ∷ op_valid ∷ op_has_exception (λ x. true) ∷ op_move ∷ op_valid ∷ []

calls-models_example :
    calls left script (both_held (good 1, bad 2)) ≡ as_held (models left script (good 1, bad 2))
calls-models_example = calls-models left script (good 1, bad 2)
