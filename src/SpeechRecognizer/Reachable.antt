-- ===== src/SpeechRecognizer/Reachable.antt =====
-- What is true of every recognizer that the builder's properties give.
use asr_sdk_cpp.Base.{◌≡◌, false, not, Option, none, List, [], refl, ℕ, sym, subst}
use asr_sdk_cpp.RecognitionConfig.{Properties}
use asr_sdk_cpp.RecognizerBuilder.{RecognizerProperties}
use asr_sdk_cpp.RecognitionResult.{RecognitionResult}
use asr_sdk_cpp.Recognizer
use asr_sdk_cpp.Recognizer.{Impl}
use asr_sdk_cpp.ResultHandler.{Json11}
use asr_sdk_cpp.ResultHandler.Stored.{IsQuiet, quiet_none, unset_nil}
use asr_sdk_cpp.SpeechRecognizer.{
  Websocket, State, Stepped, stepped, no_call, k_connecting, returned, build, renew, reset_impl,
}
use asr_sdk_cpp.SpeechRecognizer.Inv.{
  Inv, inv, Keeps, keeps, given_none, given_nil, AllGiven, Inv-branches, ends-Inv, begin_open-Inv,
  reset_impl-Keeps,
}
use asr_sdk_cpp.SpeechRecognizer.Calls.{step-Keeps}
use asr_sdk_cpp.SpeechRecognizer.Step.{Reach, here, there, step, call_reset, when_free}

module _ {R : Type 0} where
  -- No recognizer yet: what the constructor finds
  abbrev pub unbuilt : RecognizerProperties → State R
  unbuilt p = record {
    impl = record {
      session_status = Recognizer.none_yet;
      recognizing = false;
      sending = false;
      has_audio = false;
      config = none;
      lm = none;
      listener = [];
      result = [];
      eptr = none;
      called = [];
      sent = [];
      notified = 0;
    };
    status = k_connecting;
    is_open = false;
    secure = false;
    initialised = false;
    authorization = none;
    properties = p;
    source_closed = 0;
    call = no_call;
    outcomes = [];
  }

module _ {J D F : Type 0} (ws : Websocket) (json11 : Json11 J D F) where
  module _ {Q : List ℕ → Option Properties → Type 0} where
    build-Inv :
        (p : RecognizerProperties)
        → Q p.listener p.recog_config
        → Inv {F = F} Q (build ws (unbuilt p))
    unfolding build renew
    build-Inv p q =
        let fresh : Inv {F = F} Q (renew (unbuilt p)) = inv (record {
          sound = record { session = quiet_none; unset = unset_nil; given = q };
          no_listener = refl;
          no_config = refl;
          given = given_nil;
        }) in
        Inv-branches (not p.connect_on_recognize) _ _ (begin_open-Inv ws _ _ fresh)
          (ends-Inv returned _ given_none fresh)

    kept :
        {x : Stepped (RecognitionResult F)} {t : State (RecognitionResult F)}
        → x ≡ stepped t
        → Keeps Q x
        → Inv Q t
    kept {x} {t} e h = of_stepped (subst (Keeps Q) e h)
      where
        of_stepped : Keeps Q (stepped t) → Inv Q t
        of_stepped (keeps _ k) = k

    Reach-Inv :
        {s t : State (RecognitionResult F)} → Q [] none → Inv Q s → Reach ws json11 s t → Inv Q t
    Reach-Inv q h here = h
    Reach-Inv q h (there a r e) = kept e (step-Keeps ws q json11 a _ (Reach-Inv q h r))

  -- Nothing is asked of the listeners and the configuration.
  abbrev Anything : List ℕ → Option Properties → Type 0
  Anything ls c = Unit

  from_build :
      (p : RecognizerProperties) {t : State (RecognitionResult F)}
      → Reach ws json11 (build ws (unbuilt p)) t
      → Inv Anything t
  from_build p r = Reach-Inv tt (build-Inv p tt) r

  -- Whatever the application calls and the connection brings, the session of a recognizer is
  -- never listening or recognizing: it has none yet, or is idle.
  pub Reach-IsQuiet :
      (p : RecognizerProperties) {t : State (RecognitionResult F)}
      → Reach ws json11 (build ws (unbuilt p)) t
      → IsQuiet t.impl.session_status
  Reach-IsQuiet p r = elim (from_build p r) [ inv h ↦ h.sound.session ]

  -- Whatever the application calls and the connection brings, no result that a call gives says
  -- whether it is the last segment: the field was never set.
  pub Reach-AllGiven :
      (p : RecognizerProperties) {t : State (RecognitionResult F)}
      → Reach ws json11 (build ws (unbuilt p)) t
      → AllGiven t.outcomes
  Reach-AllGiven p r = elim (from_build p r) [ inv h ↦ h.given ]

  -- Nobody listens, and there is no configuration.
  pub data IsForgotten : List ℕ → Option Properties → Type 0 where
    forgotten : IsForgotten [] none

  -- A call of resetImpl, by the application
  reset-Keeps :
      {s : State (RecognitionResult F)}
      → Inv Anything s
      → s.call ≡ no_call
      → Keeps IsForgotten (step ws json11 call_reset s)
  unfolding step
  reset-Keeps {s} h free =
      subst (λ c. Keeps IsForgotten (when_free c (reset_impl ws s))) (sym free)
        (reset_impl-Keeps forgotten ws s h)

  -- Behind a call of resetImpl on a recognizer the Impl has no listener and no configuration,
  -- whatever the application calls and the connection brings before and after.
  pub Reach-IsForgotten :
      (p : RecognizerProperties) {s r t : State (RecognitionResult F)}
      → Reach ws json11 (build ws (unbuilt p)) s
      → s.call ≡ no_call
      → step ws json11 call_reset s ≡ stepped r
      → Reach ws json11 r t
      → IsForgotten t.impl.listener t.impl.config
  Reach-IsForgotten p before free reset after =
      elim (Reach-Inv forgotten (kept reset (reset-Keeps (from_build p before) free)) after) [
        | inv h ↦ h.sound.given
      ]
