-- ===== src/LanguageModelList/Single.antt =====
-- A builder of language models never holds both a URI and a grammar.
use asr_sdk_cpp.Base.{ℕ, ◌≡◌, List, [], ◌∷◌, Bytes, refl}
use asr_sdk_cpp.Text.{empty}
use asr_sdk_cpp.RecognitionError.{Raising, returned, raised}
use asr_sdk_cpp.LanguageModelList.{LanguageModelList, no_models, add_from_uri, add_inline_grammar}

pub data Call : Type 0 where
  from_uri inline_grammar : Bytes → Call

abbrev pub call : Call → LanguageModelList → Raising LanguageModelList
call (from_uri u) b = add_from_uri u b
call (inline_grammar g) b = add_inline_grammar g b

abbrev after : Raising LanguageModelList → LanguageModelList → LanguageModelList
after (returned c) b = c
after (raised e) b = b

-- The builder behind calls of which some may throw and be caught.
abbrev pub calls : List Call → LanguageModelList → LanguageModelList
calls [] b = b
calls (c ∷ cs) b = calls cs (after (call c b) b)

-- The text of the first call that has one, and its kind.
abbrev pub first_call : List Call → LanguageModelList
first_call [] = no_models
first_call (from_uri [] ∷ cs) = first_call cs
first_call (from_uri (x ∷ u) ∷ cs) = record { uri = x ∷ u; grammar_body = [] }
first_call (inline_grammar [] ∷ cs) = first_call cs
first_call (inline_grammar (x ∷ g) ∷ cs) = record { uri = []; grammar_body = x ∷ g }

calls-uri :
    (cs : List Call) (x : ℕ) (u : Bytes)
    → calls cs (record { uri = x ∷ u; grammar_body = [] })
      ≡ record { uri = x ∷ u; grammar_body = [] }
unfolding add_from_uri add_inline_grammar empty
calls-uri [] x u = refl
calls-uri (from_uri v ∷ cs) x u = calls-uri cs x u
calls-uri (inline_grammar g ∷ cs) x u = calls-uri cs x u

calls-grammar :
    (cs : List Call) (x : ℕ) (g : Bytes)
    → calls cs (record { uri = []; grammar_body = x ∷ g })
      ≡ record { uri = []; grammar_body = x ∷ g }
unfolding add_from_uri add_inline_grammar empty
calls-grammar [] x g = refl
calls-grammar (from_uri v ∷ cs) x g = calls-grammar cs x g
calls-grammar (inline_grammar h ∷ cs) x g = calls-grammar cs x g

-- Whatever calls are made on a new builder, and whatever they throw, it holds the first text
-- that is not empty, as the kind it was given, and nothing else.
pub calls-first_call : (cs : List Call) → calls cs no_models ≡ first_call cs
unfolding add_from_uri add_inline_grammar empty
calls-first_call [] = refl
calls-first_call (from_uri [] ∷ cs) = calls-first_call cs
calls-first_call (from_uri (x ∷ u) ∷ cs) = calls-uri cs x u
calls-first_call (inline_grammar [] ∷ cs) = calls-first_call cs
calls-first_call (inline_grammar (x ∷ g) ∷ cs) = calls-grammar cs x g
