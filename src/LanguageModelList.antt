-- ===== src/LanguageModelList.antt =====
-- LanguageModelList and its builder of src/language_model_list.cc.
pub mod Single
mod Tests
use asr_sdk_cpp.Base.{not, ◌||◌, [], Bytes, if◌then◌else◌}
use asr_sdk_cpp.Text.{codes, empty}
use asr_sdk_cpp.RecognitionError.{Raising, returned, fail_with, failure}

-- LanguageModelList::Properties, which the list and its builder hold
pub record LanguageModelList : Type 0 where
  pub uri : Bytes
  pub grammar_body : Bytes

abbrev pub no_models : LanguageModelList
no_models = record { uri = []; grammar_body = [] }

abbrev only_one : Bytes
only_one = codes "Only one lm is supported at the moment"

-- LanguageModelList::Builder::addFromURI
unfoldable pub add_from_uri : Bytes → LanguageModelList → Raising LanguageModelList
add_from_uri uri b =
    if not (empty b.uri) || not (empty b.grammar_body)
    then fail_with failure only_one
    else returned (record b { uri = uri })

-- LanguageModelList::Builder::addInlineGrammar
unfoldable pub add_inline_grammar : Bytes → LanguageModelList → Raising LanguageModelList
add_inline_grammar grammar_body b =
    if not (empty b.uri) || not (empty b.grammar_body)
    then fail_with failure only_one
    else returned (record b { grammar_body = grammar_body })

unfoldable pub get_uri : LanguageModelList → Bytes
get_uri l = l.uri

unfoldable pub get_grammar_body : LanguageModelList → Bytes
get_grammar_body l = l.grammar_body
