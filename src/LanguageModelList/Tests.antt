-- ===== src/LanguageModelList/Tests.antt =====
-- The builder's theorem at concrete calls.
use asr_sdk_cpp.Base.{◌≡◌, [], ◌∷◌}
use asr_sdk_cpp.Text.{codes}
use asr_sdk_cpp.LanguageModelList.{no_models}
use asr_sdk_cpp.LanguageModelList.Single.{
  from_uri, inline_grammar, calls, first_call, calls-first_call,
}

calls-first_call_example :
    calls (from_uri [] ∷ inline_grammar (codes "g") ∷ from_uri (codes "u") ∷ []) no_models
    ≡ first_call (from_uri [] ∷ inline_grammar (codes "g") ∷ from_uri (codes "u") ∷ [])
calls-first_call_example =
    calls-first_call (from_uri [] ∷ inline_grammar (codes "g") ∷ from_uri (codes "u") ∷ [])
