-- ===== src/SpeechRecognizer/Inv.antt =====
-- What holds in every state that the machine reaches.
use asr_sdk_cpp.Base.{
  ◌≡◌, Bool, true, false, not, ◌&&◌, Option, none, some, List, [], ◌∷◌, ◌++◌, refl, sym, subst,
  if◌then◌else◌, ℕ,
}
use asr_sdk_cpp.RecognitionConfig.{Properties}
use asr_sdk_cpp.RecognitionError.{RecognitionError}
use asr_sdk_cpp.RecognitionResult.{RecognitionResult}
use asr_sdk_cpp.Recognizer.{Impl, Pending, notify_one}
use asr_sdk_cpp.Handlers.Keeping.{Held, held}
use asr_sdk_cpp.ResultHandler.Stored.{Sound, Sound-none, quiet_none, AllUnset, unset_nil}
use asr_sdk_cpp.SpeechRecognizer.{
  Websocket, State, Stepped, stepped, crashed, not_enabled, waiting, After, then_built, then_send,
  then_reset, undefined, escaped, call_failed, install_impl, is_over, wait_recognition_result,
  finish_wait, CallOutcome, returned, results, raised, rethrown, on_open, on_close, on_fail,
  take_results, give_results, reset_impl, renew, begin_open, close_impl, connect_later,
  terminate_send_message_thread, ends_with,
}

module _ {F : Type 0} where
  -- Results that a call gave: no result says whether it is the last.
  pub data Given : CallOutcome (RecognitionResult F) → Type 0 where
    given_none : Given returned
    given_escaped : Given escaped
    given_raised : (e : RecognitionError) → Given (raised e)
    given_rethrown : (e : Pending) → Given (rethrown e)
    given_results : (rs : List (RecognitionResult F)) → AllUnset rs → Given (results rs)

  pub data AllGiven : List (CallOutcome (RecognitionResult F)) → Type 0 where
    given_nil : AllGiven []
    given_cons :
        {o : CallOutcome (RecognitionResult F)} {os : List (CallOutcome (RecognitionResult F))}
        → Given o
        → AllGiven os
        → AllGiven (o ∷ os)

  AllGiven-append :
      (os : List (CallOutcome (RecognitionResult F))) (o : CallOutcome (RecognitionResult F))
      → AllGiven os
      → Given o
      → AllGiven (os ++ o ∷ [])
  AllGiven-append [] o h g = given_cons g given_nil
  AllGiven-append (p ∷ os) o (given_cons k ks) g = given_cons k (AllGiven-append os o ks g)

  module _ (Q : List ℕ → Option Properties → Type 0) where
    -- The invariant of the machine, of its parts
    pub record Holds (h : Held (RecognitionResult F)) (ls : List ℕ) (c : Option Properties)
        (os : List (CallOutcome (RecognitionResult F))) : Type 0 where
      pub sound : Sound Q h
      pub no_listener : ls ≡ []
      pub no_config : c ≡ none
      pub given : AllGiven os

    -- The invariant of a state: the listeners and the configuration have been moved out of the
    -- properties.
    pub data Inv (s : State (RecognitionResult F)) : Type 0 where
      inv : Holds (held s.impl) s.properties.listener s.properties.recog_config s.outcomes → Inv s

    -- The invariant behind a step, if it gives a state
    pub data Keeps : Stepped (RecognitionResult F) → Type 0 where
      keeps : (s : State (RecognitionResult F)) → Inv s → Keeps (stepped s)
      keeps_crashed : Keeps crashed
      keeps_undefined : Keeps undefined
      keeps_not_enabled : Keeps not_enabled

  module _ {Q : List ℕ → Option Properties → Type 0} where
    pub Holds-ends :
        {h : Held (RecognitionResult F)} {ls : List ℕ} {c : Option Properties}
        {os : List (CallOutcome (RecognitionResult F))} (o : CallOutcome (RecognitionResult F))
        → Holds Q h ls c os
        → Given o
        → Holds Q h ls c (os ++ o ∷ [])
    Holds-ends o g k = record {
      sound = g.sound;
      no_listener = g.no_listener;
      no_config = g.no_config;
      given = AllGiven-append _ o g.given k;
    }

    pub Holds-held :
        {h : Held (RecognitionResult F)} {ls : List ℕ} {c : Option Properties}
        {os : List (CallOutcome (RecognitionResult F))} {h' : Held (RecognitionResult F)}
        → Holds Q h ls c os
        → Sound Q h'
        → Holds Q h' ls c os
    Holds-held g k = record {
      sound = k;
      no_listener = g.no_listener;
      no_config = g.no_config;
      given = g.given;
    }

    pub Inv-branches :
        (b : Bool) (s t : State (RecognitionResult F))
        → Inv Q s
        → Inv Q t
        → Inv Q (if b then s else t)
    Inv-branches true s t h k = h
    Inv-branches false s t h k = k

    pub Keeps-branches :
        (b : Bool) {x y : Stepped (RecognitionResult F)}
        → Keeps Q x
        → Keeps Q y
        → Keeps Q (if b then x else y)
    Keeps-branches true h k = h
    Keeps-branches false h k = k

    pub terminate-Inv :
        (s : State (RecognitionResult F)) → Inv Q s → Inv Q (terminate_send_message_thread s)
    unfolding terminate_send_message_thread
    terminate-Inv s (inv h) = inv h

    pub close_impl-Inv : (s : State (RecognitionResult F)) → Inv Q s → Inv Q (close_impl s)
    unfolding close_impl terminate_send_message_thread
    close_impl-Inv s (inv h) = inv h

    pub connect_later-Inv : (s : State (RecognitionResult F)) → Inv Q s → Inv Q (connect_later s)
    unfolding connect_later
    connect_later-Inv s (inv h) = by_auto_close s.properties.auto_close
      where
        by_auto_close :
            (b : Bool)
            → Inv Q (record s {
              properties =
                  if b then record (s.properties) { connect_on_recognize = true } else s.properties;
            })
        by_auto_close true = inv h
        by_auto_close false = inv h

    pub ends-Inv :
        (o : CallOutcome (RecognitionResult F)) (s : State (RecognitionResult F))
        → Given o
        → Inv Q s
        → Inv Q (ends_with o s)
    ends-Inv o s g (inv h) = inv (Holds-ends o h g)

    pub held-Inv :
        (i : Impl (RecognitionResult F)) (s : State (RecognitionResult F))
        → Sound Q (held i)
        → Inv Q s
        → Inv Q (record s { impl = i })
    held-Inv i s g (inv h) = inv (Holds-held h g)

    pub call_failed-Inv :
        (a : After) (o : CallOutcome (RecognitionResult F)) (s : State (RecognitionResult F))
        → Given o
        → Inv Q s
        → Inv Q (call_failed a o s)
    call_failed-Inv then_built o s g (inv h) = inv (Holds-ends o h g)
    call_failed-Inv then_send o s g h = ends-Inv o s g h
    call_failed-Inv then_reset o s g h = ends-Inv o s g h

    pub begin_open-Inv :
        (ws : Websocket) (a : After) (s : State (RecognitionResult F))
        → Inv Q s
        → Inv Q (begin_open ws a s)
    unfolding begin_open
    begin_open-Inv ws a s (inv h) =
        Inv-branches (ws.init_asio s.initialised) _ _ (inv h)
          (call_failed-Inv a escaped _ given_escaped (inv h))

    pub events-Inv :
        (s : State (RecognitionResult F))
        → Inv Q s
        → Inv Q (on_open s) × (Inv Q (on_close s) × Inv Q (on_fail s))
    unfolding on_open on_close on_fail notify_one
    events-Inv s (inv h) = (inv h, (inv h, inv h))

  module _ {Q : List ℕ → Option Properties → Type 0} where
    pub renew-Inv :
        {P : List ℕ → Option Properties → Type 0}
        → Q [] none
        → (s : State (RecognitionResult F)) → Inv P s
        → Inv Q (renew s)
    unfolding renew
    renew-Inv q s (inv h) = inv (record {
      sound = record {
        session = quiet_none;
        unset = unset_nil;
        given =
            subst (λ l. Q l s.properties.recog_config) (sym h.no_listener)
              (subst (Q []) (sym h.no_config) q);
      };
      no_listener = refl;
      no_config = refl;
      given = h.given;
    })

    pub install_impl-Inv :
        {P : List ℕ → Option Properties → Type 0}
        → Q [] none
        → (ws : Websocket) (s : State (RecognitionResult F)) → Inv P s
        → Inv Q (install_impl ws s)
    unfolding install_impl
    install_impl-Inv q ws s h =
        let fresh = renew-Inv q s h in
        Inv-branches _ _ _ (begin_open-Inv ws _ _ fresh) (ends-Inv _ _ given_none fresh)

    pub reset_impl-Keeps :
        {P : List ℕ → Option Properties → Type 0}
        → Q [] none
        → (ws : Websocket) (s : State (RecognitionResult F)) → Inv P s
        → Keeps Q (reset_impl ws s)
    unfolding reset_impl
    reset_impl-Keeps q ws s h =
        let closed = Inv-branches s.is_open (close_impl s) s (close_impl-Inv s h) h in
        Keeps-branches (not s.is_open && s.impl.sending) keeps_crashed
          (keeps _ (install_impl-Inv q ws (if s.is_open then close_impl s else s) closed))

  module _ {Q : List ℕ → Option Properties → Type 0} where
    take_results-Keeps : (s : State (RecognitionResult F)) → Inv Q s → Keeps Q (take_results s)
    unfolding take_results
    take_results-Keeps s (inv h) =
        given s.impl.eptr _ (inv (Holds-held h (Sound-none (held s.impl) h.sound)))
      where
        given :
            (e : Option Pending) (t : State (RecognitionResult F))
            → Inv Q t
            → Keeps Q (give_results s.impl.result e t)
        given (some e) t k = keeps _ (ends-Inv _ t (given_rethrown e) k)
        given none t k =
            Keeps-branches (t.properties.auto_close && t.is_open) keeps_undefined
              (keeps _ (ends-Inv _ t (given_results s.impl.result h.sound.unset) k))

    waiting-Inv : (s : State (RecognitionResult F)) → Inv Q s → Inv Q (record s { call = waiting })
    waiting-Inv s (inv h) = inv h

    pub wait-Keeps :
        (s : State (RecognitionResult F)) → Inv Q s → Keeps Q (wait_recognition_result s)
    unfolding wait_recognition_result
    wait-Keeps s h =
        Keeps-branches (not s.is_open) (take_results-Keeps s h) (keeps _ (waiting-Inv s h))

    pub finish_wait-Keeps : (s : State (RecognitionResult F)) → Inv Q s → Keeps Q (finish_wait s)
    unfolding finish_wait
    finish_wait-Keeps s h =
        Keeps-branches (is_over s.impl) (take_results-Keeps _ (terminate-Inv s h))
          (keeps _ (ends-Inv _ s (given_raised _) h))
