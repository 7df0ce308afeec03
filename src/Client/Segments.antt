-- ===== src/Client/Segments.antt =====
-- A recognition in segments: what the listeners and the application get from the results that
-- arrive.
use asr_sdk_cpp.Base.{
  ◌≡◌, ◌∙◌, Bool, true, false, not, ◌&&◌, Option, none, some, List, [], ◌∷◌, ◌++◌, refl, sym, ap,
  subst, Bytes, ℕ, append_assoc, append-nil, if◌then◌else◌, arith,
}
use asr_sdk_cpp.Text.{codes, equal, empty}
use asr_sdk_cpp.AsrMessage.{AsrMessage, recognition_result, first_line, get_header, get_extra}
use asr_sdk_cpp.RecognitionResult
use asr_sdk_cpp.RecognitionResult.{RecognitionResult, PartialRecognition, set_last_speech_segment}
use asr_sdk_cpp.Recognizer
use asr_sdk_cpp.Recognizer.{
  Impl, Event, on_recognition_result, on_partial_recognition, calls_of, call_listeners, notify_one,
}
use asr_sdk_cpp.Handlers.{Handled, handled, threw, undefined, Handler}
use asr_sdk_cpp.ResultHandler.{
  Json11, take_result, take_body, take_final, take_partial, final_result,
  partial_recognition_from_json, note_idle, bool_or, result_header, result_status, session_status,
  status_string, idle,
}
use asr_sdk_cpp.Client.{root}
use asr_sdk_cpp.Client.Dispatch.{root-effect_of}

-- A segment of a recognition: a final result, with whether it is the last, or a partial one.
pub data Segment (F : Type 0) : Type 0 where
  final : RecognitionResult F → Bool → Segment F
  partial : PartialRecognition → Segment F

module _ {F : Type 0} where
  -- The results that the application gets
  pub stored_of : List (Segment F) → List (RecognitionResult F)
  stored_of [] = []
  stored_of (final r last ∷ ss) = r ∷ stored_of ss
  stored_of (partial p ∷ ss) = stored_of ss

  abbrev event_of : Segment F → Event (RecognitionResult F)
  event_of (final r last) = on_recognition_result (set_last_speech_segment last r)
  event_of (partial p) = on_partial_recognition p

  -- The calls on the listeners
  pub told_of : List ℕ → List (Segment F) → List (ℕ × Event (RecognitionResult F))
  told_of ls [] = []
  told_of ls (s ∷ ss) = calls_of ls (event_of s) ++ told_of ls ss

  abbrev is_last : Segment F → Bool
  is_last (final r last) = last
  is_last (partial p) = false

  -- Does the recognition go on behind the segments?
  pub goes_on : List (Segment F) → Bool
  goes_on [] = true
  goes_on (s ∷ ss) = not (is_last s) && goes_on ss

  -- What the state is behind the segments
  pub record Heard (i : Impl (RecognitionResult F)) (ss : List (Segment F))
      (j : Impl (RecognitionResult F)) : Type 0 where
    pub result : j.result ≡ i.result ++ stored_of ss
    pub called : j.called ≡ i.called ++ told_of i.listener ss
    pub recognizing : j.recognizing ≡ (i.recognizing && goes_on ss)
    pub listener : j.listener ≡ i.listener

  pub data Ends (i : Impl (RecognitionResult F)) (ss : List (Segment F))
      : Handled (RecognitionResult F) → Type 0 where
    ends : (b : Bool) (j : Impl (RecognitionResult F)) → Heard i ss j → Ends i ss (handled b j)

  Heard-cons :
      (s : Segment F) (ss : List (Segment F)) {i j k : Impl (RecognitionResult F)}
      → Heard i (s ∷ []) j
      → Heard j ss k
      → Heard i (s ∷ ss) k
  unfolding stored_of told_of goes_on
  Heard-cons s ss {i = i} h g = record {
    result = stored s _ _ _ g.result h.result;
    called = g.called ∙ rw h.called (rw h.listener (simp append_assoc));
    recognizing =
        g.recognizing ∙ rw h.recognizing (both i.recognizing (not (is_last s)) (goes_on ss));
    listener = g.listener ∙ h.listener;
  }
    where
      both : (a b c : Bool) → ((a && (b && true)) && c) ≡ (a && (b && c))
      both false b c = refl
      both true false c = refl
      both true true c = refl

      stored :
          (s : Segment F) (rs qs ps : List (RecognitionResult F))
          → ps ≡ qs ++ stored_of ss
          → qs ≡ rs ++ stored_of (s ∷ [])
          → ps ≡ rs ++ stored_of (s ∷ ss)
      stored (final r last) rs qs ps e f = e ∙ rw f (simp append_assoc)
      stored (partial p) rs qs ps e f = e ∙ rw f (simp append-nil)

  Heard-nothing : (i : Impl (RecognitionResult F)) → Heard i [] i
  unfolding stored_of told_of goes_on
  Heard-nothing i = record {
    result = sym (append-nil i.result);
    called = sym (append-nil i.called);
    recognizing = ground arith;
    listener = refl;
  }

-- The messages that arrive one behind the other; one that is undefined or throws ends the program.
abbrev pub go_on : {R : Type 0} → Handled R → (Impl R → Handled R) → Handled R
go_on (handled b i) f = f i
go_on (threw e i) f = threw e i
go_on undefined f = undefined

abbrev pub handle_all : {R : Type 0} → Handler R → List AsrMessage → Impl R → Handled R
handle_all h [] i = handled true i
handle_all h (m ∷ ms) i = go_on (h i m) (handle_all h ms)

module _ {J D F : Type 0} (json11 : Json11 J D F) where
  abbrev partial_segment : Option PartialRecognition → Option (Segment F)
  partial_segment none = none
  partial_segment (some p) = some (partial p)

  abbrev segment_from : J → Bool → Bool → Option (Segment F)
  segment_from json true last = some (final (final_result json11 json) last)
  segment_from json false last = partial_segment (partial_recognition_from_json json11 json)

  abbrev status_of : AsrMessage → Bytes
  status_of m = get_header m (result_header result_status)

  -- The segment in the body of a message: final if the body says so, or else if the header does,
  -- and last unless the body says that it is not.
  abbrev pub segment_of : AsrMessage → Option (Segment F)
  segment_of m =
      let json = json11.json_parse (get_extra m) in
      let recognized =
        equal (status_of m) (RecognitionResult.get_string RecognitionResult.recognized) in
      segment_from json (bool_or json11 json (codes "final_result") recognized)
        (bool_or json11 json (codes "last_segment") true)

  -- A message that brings a segment
  pub record Brings (m : AsrMessage) (s : Segment F) : Type 0 where
    pub start_line : m.start_line ≡ first_line recognition_result
    pub not_canceled :
        equal (status_of m) (RecognitionResult.get_string RecognitionResult.canceled) ≡ false
    pub has_body : empty (get_extra m) ≡ false
    pub segment : segment_of m ≡ some s

  pub data BringAll : List AsrMessage → List (Segment F) → Type 0 where
    bring_nil : BringAll [] []
    bring_cons :
        {m : AsrMessage} {s : Segment F} {ms : List AsrMessage} {ss : List (Segment F)}
        → Brings m s
        → BringAll ms ss
        → BringAll (m ∷ ms) (s ∷ ss)

  -- What one segment does, if there is one
  abbrev EndsAs :
      Impl (RecognitionResult F) → Option (Segment F) → Handled (RecognitionResult F) → Type 0
  EndsAs i none h = Unit
  EndsAs i (some s) h = Ends i (s ∷ []) h

  final-Ends :
      (json : J) (last : Bool) (i : Impl (RecognitionResult F))
      → Ends i (final (final_result json11 json) last ∷ []) (take_final json11 json last i)
  unfolding take_final call_listeners notify_one stored_of told_of goes_on
  final-Ends json true i = ends _ _ (record {
    result = refl;
    called = ap (λ c. i.called ++ c) (sym (append-nil _));
    recognizing = ground arith;
    listener = refl;
  })
  final-Ends json false i = ends _ _ (record {
    result = refl;
    called = ap (λ c. i.called ++ c) (sym (append-nil _));
    recognizing = ground arith;
    listener = refl;
  })

  partial-EndsAs :
      (p : Option PartialRecognition) (i : Impl (RecognitionResult F))
      → EndsAs i (partial_segment p) (take_partial p i)
  unfolding take_partial call_listeners stored_of told_of goes_on
  partial-EndsAs none i = tt
  partial-EndsAs (some p) i = ends _ _ (record {
    result = sym (append-nil i.result);
    called = ap (λ c. i.called ++ c) (sym (append-nil _));
    recognizing = ground arith;
    listener = refl;
  })

  body-EndsAs :
      (json : J) (b last : Bool) (i : Impl (RecognitionResult F))
      → EndsAs i (segment_from json b last) (
          if b
          then take_final json11 json last i
          else take_partial (partial_recognition_from_json json11 json) i)
  body-EndsAs json true last i = final-Ends json last i
  body-EndsAs json false last i = partial-EndsAs (partial_recognition_from_json json11 json) i

  body-Ends :
      (json : J) (b last : Bool) (i : Impl (RecognitionResult F)) (s : Segment F)
      → segment_from json b last ≡ some s
      → Ends i (s ∷ []) (
          if b
          then take_final json11 json last i
          else take_partial (partial_recognition_from_json json11 json) i)
  body-Ends json b last i s e =
      subst
        (λ o. EndsAs i o (
          if b
          then take_final json11 json last i
          else take_partial (partial_recognition_from_json json11 json) i))
        e (body-EndsAs json b last i)

  idle-Ends :
      (b : Bool) (i : Impl (RecognitionResult F)) (ss : List (Segment F))
      {h : Handled (RecognitionResult F)}
      → Ends (if b then record i { session_status = Recognizer.idle } else i) ss h
      → Ends i ss h
  idle-Ends true i ss (ends b j h) = ends b j (record {
    result = h.result;
    called = h.called;
    recognizing = h.recognizing;
    listener = h.listener;
  })
  idle-Ends false i ss h = h

  take_result-Ends :
      (m : AsrMessage) (s : Segment F) (i : Impl (RecognitionResult F))
      → Brings m s
      → Ends i (s ∷ []) (take_result json11 i m)
  unfolding take_result take_body note_idle
  take_result-Ends m s i h = rw h.not_canceled (
      rw h.has_body (
        idle-Ends (equal (get_header m (result_header session_status)) (status_string idle)) i
          (s ∷ []) (body-Ends _ _ _ (note_idle m i) s h.segment)))

  first-Ends :
      (s : Segment F) (ss : List (Segment F)) (i : Impl (RecognitionResult F))
      (f : Impl (RecognitionResult F) → Handled (RecognitionResult F))
      {h : Handled (RecognitionResult F)}
      → Ends i (s ∷ []) h
      → ((j : Impl (RecognitionResult F)) → Ends j ss (f j))
      → Ends i (s ∷ ss) (go_on h f)
  first-Ends s ss i f (ends b j h) k = behind (k j)
    where
      behind : {g : Handled (RecognitionResult F)} → Ends j ss g → Ends i (s ∷ ss) g
      behind (ends c l g) = ends c l (Heard-cons s ss h g)

  -- Messages that each bring a segment are all handled: the results held grow by the final
  -- segments, in order, each listener is told of every segment, in order, and the recognition
  -- goes on until a final segment is the last.
  pub handle_all-Ends :
      (accepts : Bytes → Bool) {ms : List AsrMessage} {ss : List (Segment F)}
      (i : Impl (RecognitionResult F))
      → BringAll ms ss
      → Ends i ss (handle_all (root accepts json11) ms i)
  handle_all-Ends accepts i bring_nil = ends true i (Heard-nothing i)
  handle_all-Ends accepts i (bring_cons {m} {s} {ms} {ss} h hs) =
      first-Ends s ss i (handle_all (root accepts json11) ms)
        (rw (root-effect_of accepts json11 recognition_result i m h.start_line)
          (take_result-Ends m s i h))
        (λ j. handle_all-Ends accepts j hs)
