-- ===== src/ResultHandler/Stored.antt =====
-- What the handler of results keeps true of the state, and leaves uninitialised in the results that
-- it stores.
use asr_sdk_cpp.Base.{
  Bool, true, false, ◌≡◌, ◌∙◌, Option, none, some, List, [], ◌∷◌, ◌++◌, refl, sym, subst, ℕ, Bytes,
  if◌then◌else◌, arith,
}
use asr_sdk_cpp.Text.{equal}
use asr_sdk_cpp.AsrMessage
use asr_sdk_cpp.AsrMessage.{AsrMessage, get_header, get_extra}
use asr_sdk_cpp.RecognitionResult.{
  RecognitionResult, PartialRecognition, add_alternatives, on_classifiers, set_start_time,
  set_end_time, from_string, from_status,
}
use asr_sdk_cpp.Recognizer
use asr_sdk_cpp.RecognitionConfig.{Properties}
use asr_sdk_cpp.Recognizer.{
  SessionStatus, Impl, Event, on_recognition_result, on_partial_recognition, call_listeners,
  notify_one,
}
use asr_sdk_cpp.Handlers.{Handler, third}
use asr_sdk_cpp.Handlers.Keeping.{Held, held, Leaves, leaves, no_state, branches, if_method-Leaves}
use asr_sdk_cpp.ResultHandler.{
  Json11, process_result, take_result, take_status, take_body, take_final, take_partial,
  final_result, recognition_result_from_json, add_loop, classify, note_idle, call_with_results,
  result_header, session_status, status_string, idle,
}

-- Is the session idle, or not yet there?
pub data IsQuiet : SessionStatus → Type 0 where
  quiet_none : IsQuiet Recognizer.none_yet
  quiet_idle : IsQuiet Recognizer.idle

module _ {F : Type 0} where
  -- Is `last_segment_` of every result uninitialised?
  pub data AllUnset : List (RecognitionResult F) → Type 0 where
    unset_nil : AllUnset []
    unset_cons :
        {r : RecognitionResult F} {rs : List (RecognitionResult F)}
        → r.last_segment ≡ none
        → AllUnset rs
        → AllUnset (r ∷ rs)

  AllUnset-append :
      (rs : List (RecognitionResult F)) (r : RecognitionResult F)
      → AllUnset rs
      → r.last_segment ≡ none
      → AllUnset (rs ++ r ∷ [])
  AllUnset-append [] r unset_nil e = unset_cons e unset_nil
  AllUnset-append (q ∷ rs) r (unset_cons h hs) e = unset_cons h (AllUnset-append rs r hs e)

  -- What is true of every state that the handlers share: the session is never listening or
  -- recognizing, and no result says whether it is the last. `Q` is of the listeners and the
  -- configuration.
  pub record Sound (Q : List ℕ → Option Properties → Type 0) (h : Held (RecognitionResult F))
      : Type 0 where
    pub session : IsQuiet h.session_status
    pub unset : AllUnset h.result
    pub given : Q h.listener h.config

  module _ {Q : List ℕ → Option Properties → Type 0} where
    Sound-append :
        (h : Held (RecognitionResult F)) (r : RecognitionResult F)
        → r.last_segment ≡ none
        → Sound Q h
        → Sound Q (record h { result = h.result ++ r ∷ [] })
    Sound-append h r e s = record {
      session = s.session;
      unset = AllUnset-append h.result r s.unset e;
      given = s.given;
    }

    pub Sound-idle :
        (h : Held (RecognitionResult F))
        → Sound Q h
        → Sound Q (record h { session_status = Recognizer.idle })
    Sound-idle h s = record { session = quiet_idle; unset = s.unset; given = s.given }

    -- With no result held the rest stays.
    pub Sound-none :
        (h : Held (RecognitionResult F)) → Sound Q h → Sound Q (record h { result = [] })
    Sound-none h s = record { session = s.session; unset = unset_nil; given = s.given }

    note_idle-Sound :
        (m : AsrMessage) (i : Impl (RecognitionResult F))
        → Sound Q (held i)
        → Sound Q (held (note_idle m i))
    unfolding note_idle
    note_idle-Sound m i h =
        by_header (equal (get_header m (result_header session_status)) (status_string idle))
      where
        by_header :
            (b : Bool)
            → Sound Q (held (if b then record i { session_status = Recognizer.idle } else i))
        by_header true = Sound-idle (held i) h
        by_header false = h

  call_with_results-held :
      (rs : List (RecognitionResult F)) (i : Impl (RecognitionResult F))
      → held (call_with_results rs i) ≡ held i
  unfolding call_with_results call_listeners
  call_with_results-held [] i = refl
  call_with_results-held (r ∷ rs) i = call_with_results-held rs _

module _ {J D F : Type 0} (json11 : Json11 J D F) where
  classify-segment :
      (json : J) (r : RecognitionResult F) → (classify json11 json r).last_segment ≡ r.last_segment
  unfolding classify on_classifiers
  classify-segment json r = ground arith

  add_loop-segment :
      (json : J) (ks : List J) (r : RecognitionResult F)
      → (add_loop json11 json ks r).last_segment ≡ r.last_segment
  unfolding add_loop add_alternatives
  add_loop-segment json [] r = refl
  add_loop-segment json (k ∷ ks) r = add_loop-segment json ks _ ∙ classify-segment json _

  from_json-segment : (json : J) → (recognition_result_from_json json11 json).last_segment ≡ none
  unfolding recognition_result_from_json from_string from_status
  from_json-segment json = add_loop-segment json _ _

  final_result-segment : (json : J) → (final_result json11 json).last_segment ≡ none
  unfolding final_result set_end_time set_start_time
  final_result-segment json = let made = from_json-segment json in ground arith

  module _ {Q : List ℕ → Option Properties → Type 0} where
    final-Leaves :
        (json : J) (last : Bool) (i : Impl (RecognitionResult F))
        → Sound Q (held i)
        → Leaves (Sound Q) (take_final json11 json last i)
    unfolding take_final call_listeners notify_one
    final-Leaves json true i h = leaves (Sound-append (held i) _ (final_result-segment json) h)
    final-Leaves json false i h = leaves (Sound-append (held i) _ (final_result-segment json) h)

    partial-Leaves :
        (p : Option PartialRecognition) (i : Impl (RecognitionResult F))
        → Sound Q (held i)
        → Leaves (Sound Q) (take_partial p i)
    unfolding take_partial call_listeners
    partial-Leaves none i h = no_state
    partial-Leaves (some p) i h = leaves h

    status-Leaves :
        (value : Bytes) (i : Impl (RecognitionResult F))
        → Sound Q (held i)
        → Leaves (Sound Q) (take_status value i)
    unfolding take_status notify_one from_string from_status
    status-Leaves value i h = leaves (
        subst (Sound Q) (sym (call_with_results-held (i.result ++ from_string value ∷ []) _))
          (Sound-append (held i) (from_string value) refl h))

    take_result-Leaves :
        (i : Impl (RecognitionResult F)) (m : AsrMessage)
        → Sound Q (held i)
        → Leaves (Sound Q) (take_result json11 i m)
    unfolding take_result take_body notify_one
    take_result-Leaves i m h =
        let g = note_idle-Sound m i h in
        branches _ (leaves g) (
          branches _ (status-Leaves _ _ g)
            (branches _ (final-Leaves _ _ _ g) (partial-Leaves _ _ g)))

    -- The handler of results stores only results whose `last_segment_` is uninitialised, and
    -- changes the session to idle at most.
    pub process_result-Leaves :
        (next : Handler (RecognitionResult F)) (i : Impl (RecognitionResult F)) (m : AsrMessage)
        → Sound Q (held i)
        → Leaves (Sound Q) (next i m)
        → Leaves (Sound Q) (process_result json11 next i m)
    unfolding process_result
    process_result-Leaves next i m h k =
        if_method-Leaves AsrMessage.recognition_result (third m) (take_result-Leaves i m h) k
