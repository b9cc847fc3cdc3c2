-- ===== src/Conversation/Progress.antt =====
-- A flow that passed its checks never raises while it runs, and moves only as it declares.
use flowhunt_voicebot.Base.{
  ◌≡◌, refl, subst, String, Bool, true, false, not, Option, none, some, List, [], sym, ap, beq_refl,
  append-nil, ◌∙◌, ◌∷◌, ◌++◌, if◌then◌else◌, All, text_key, ◌==◌, Result, ok, err, ◌>>=◌,
}
use flowhunt_voicebot.Base.Dict
use flowhunt_voicebot.Base.Dict.{Dict, merged}
use flowhunt_voicebot.Conversation.{
  Mode, freeform, structured, EventType, user_transcript, Action, Transition, StateDefinition, Flow,
  state, validate, check_state, check_transition,
}
use flowhunt_voicebot.Conversation.Engine.{
  TextOps, Turn, Session, StepResult, same_event, target, advance, first_match, take_transition,
  stay, render_template, render_actions, handle_structured, take_or_stay, handle_in,
  handle_freeform, handle_event,
}
use flowhunt_voicebot.Conversation.Actions.{listed_action, prompted, optional-listed, moved}
use flowhunt_voicebot.Conversation.Checks.{
  IsKnown, state_known, valid_states, transitions_checked, target-IsKnown,
}
use flowhunt_voicebot.Conversation.Matching.{Applies, first_match-none, first_match-IsFirst}
use flowhunt_voicebot.Conversation.Rendering.{
  IsOk, RendersOptional, RendersState, IsRenderable, render_actions-IsOk, optional_action-IsOk,
  renders_at,
}

-- The moves that a flow declares. A state is left by the first of its transitions that is for the
-- event, for its kind and its text; an event stays in its state if none is, or if the flow is
-- freeform. A move brings the updates that the transition has for the data of the session, and
-- actions: those of the transition and then of the state that it enters, the fallback of a state
-- that has no transition for the event, or the prompt of a freeform state on a transcript.
pub data Move (ops : TextOps) (flow : Flow) (q : String) (event : EventType)
    (values : Dict String String) : Dict String String → List Action → String → Type 0 where
  talks :
      (d : StateDefinition)
      → flow.mode ≡ freeform
      → Dict.get flow.states q ≡ some d
      → Move ops flow q event values [] (prompted d event) q
  stays :
      (d : StateDefinition)
      → flow.mode ≡ structured
      → Dict.get flow.states q ≡ some d
      → All (λ t. ¬ Applies ops event values t) d.transitions
      → Move ops flow q event values [] (listed_action d.fallback_action) q
  takes :
      (d next : StateDefinition) (t : Transition) (before rest : List Transition)
      → flow.mode ≡ structured
      → Dict.get flow.states q ≡ some d
      → d.transitions ≡ before ++ (t ∷ rest)
      → All (λ u. ¬ Applies ops event values u) before
      → Applies ops event values t
      → Dict.get flow.states (target t q) ≡ some next
      → Move ops flow q event values t.data_updates
          (listed_action t.action ++ (if target t q == q then [] else next.entry_actions))
          (target t q)

-- What an event may do to a session: one entry more in the history, which names the declared move
-- from the old state to the new one, a new state that the flow has, and the actions of the move,
-- rendered with the new data. No error is among it.
abbrev pub Follows :
    TextOps → Flow → Session → EventType → Dict String String → Result StepResult → Type 0
Follows ops flow s event values (err e) = ⊥
Follows ops flow s event values (ok r) =
    IsKnown flow r.session.current_state
    × ((updates : Dict String String) × (actions : List Action) × Move ops flow s.current_state
          event values updates actions r.session.current_state
        × (r.session.values ≡ merged s.values updates)
        × (render_actions ops r.session values actions ≡ ok r.actions))
    × (r.transitioned ≡ not (r.session.current_state == s.current_state))
    × ((turn : Turn) × (turn.event ≡ event)
        × (turn.values ≡ values)
        × (turn.from ≡ s.current_state)
        × (turn.next_state ≡ r.session.current_state)
        × (r.session.history ≡ s.history ++ (turn ∷ [])))

All-middle :
    (P : Transition → Type 0) (before : List Transition) (t : Transition) (rest : List Transition)
    → All P (before ++ (t ∷ rest))
    → P t
All-middle P [] t rest all = all.0
All-middle P (u ∷ before) t rest all = All-middle P before t rest all.1

Follows-if :
    (ops : TextOps) (flow : Flow) (s : Session) (event : EventType) (values : Dict String String)
    (b : Bool) (x y : Result StepResult)
    → Follows ops flow s event values x
    → Follows ops flow s event values y
    → Follows ops flow s event values (if b then x else y)
Follows-if ops flow s event values true x y p q = p
Follows-if ops flow s event values false x y p q = q

-- The same, where the branches know the test.
Follows-test :
    (ops : TextOps) (flow : Flow) (s : Session) (event : EventType) (values : Dict String String)
    (b : Bool) (x y : Result StepResult)
    → (b ≡ true → Follows ops flow s event values x)
    → (b ≡ false → Follows ops flow s event values y)
    → Follows ops flow s event values (if b then x else y)
Follows-test ops flow s event values true x y p q = p refl
Follows-test ops flow s event values false x y p q = q refl

same_state : (q : String) → false ≡ not (q == q)
same_state q = sym (ap not (beq_refl q))

Follows-bind :
    {A : Type 0} (ops : TextOps) (flow : Flow) (s : Session) (event : EventType)
    (values : Dict String String) (o : Result A) (k : A → Result StepResult)
    → IsOk o
    → ((a : A) → o ≡ ok a → Follows ops flow s event values (k a))
    → Follows ops flow s event values (o >>= k)
Follows-bind ops flow s event values (err e) k h rest = absurd h
Follows-bind ops flow s event values (ok a) k h rest = rest a refl

module _ (ops : TextOps) (flow : Flow) where
  advanced_lem :
      (s : Session) (event : EventType) (values : Dict String String) (next : String)
      (updates : Dict String String) (d : StateDefinition)
      → state flow next ≡ ok d
      → advance ops flow s event values next updates
        ≡ ok (record s {
          current_state = next;
          values = merged s.values updates;
          history =
              s.history
              ++ (record {
                event = event;
                from = s.current_state;
                next_state = next;
                values = values;
              }
                  ∷ []);
        })
  unfolding advance
  advanced_lem s event values next updates d found = rw (found, advance) refl

  stay-Follows :
      (s : Session) (event : EventType) (values : Dict String String) (fallback : Option Action)
      → IsKnown flow s.current_state
      → Move ops flow s.current_state event values [] (listed_action fallback) s.current_state
      → RendersOptional ops flow fallback
      → Follows ops flow s event values (stay ops flow s event values fallback)
  unfolding stay
  stay-Follows s event values fallback here move fine =
      let (d, found, _) = state_known flow s.current_state here in
      rw (advanced_lem s event values s.current_state [] d found, stay)
        (Follows-bind ops flow s event values _ _
          (optional_action-IsOk ops flow _ values fallback fine)
          λ actions done. (
            here,
            (
              [],
              listed_action fallback,
              move,
              refl,
              sym (optional-listed ops flow _ values fallback) ∙ done,
            ),
            same_state s.current_state,
            (_, refl, refl, refl, refl, refl),
          ))

  take_transition-Follows :
      (s : Session) (event : EventType) (values : Dict String String) (t : Transition)
      → IsKnown flow (target t s.current_state)
      → ((next : StateDefinition)
          → Dict.get flow.states (target t s.current_state) ≡ some next
          → Move ops flow s.current_state event values t.data_updates
              (listed_action t.action
                ++ (if target t s.current_state == s.current_state then [] else next.entry_actions))
              (target t s.current_state))
      → IsRenderable ops flow
      → RendersOptional ops flow t.action
      → Follows ops flow s event values (take_transition ops flow s event values t)
  unfolding take_transition render_actions
  take_transition-Follows s event values t there move fine own =
      let (d, found, at) = state_known flow (target t s.current_state) there in
      let entry =
        Dict.All-get (λ e. RendersState ops flow e.1) flow.states (target t s.current_state) d at
          fine in
      rw
        (
          advanced_lem s event values (target t s.current_state) t.data_updates d found,
          found,
          take_transition,
        )
        (Follows-bind ops flow s event values _ _
          (optional_action-IsOk ops flow _ values t.action own)
          λ actions done.
            Follows-test ops flow s event values (target t s.current_state == s.current_state) _ _
              (λ same. (
                there,
                (
                  t.data_updates,
                  _,
                  move d at,
                  refl,
                  moved ops flow _ values t.action d.entry_actions
                        (target t s.current_state == s.current_state) done (rw same refl)
                      ∙ ap ok (append-nil actions),
                ),
                sym (ap not same),
                (_, refl, refl, refl, refl, refl),
              ))
              (λ other.
                Follows-bind ops flow s event values _ _
                  (render_actions-IsOk ops flow _ values d.entry_actions entry.0)
                  λ more rendered. (
                    there,
                    (
                      t.data_updates,
                      _,
                      move d at,
                      refl,
                      moved ops flow _ values t.action d.entry_actions
                          (target t s.current_state == s.current_state) done (rw other rendered),
                    ),
                    sym (ap not other),
                    (_, refl, refl, refl, refl, refl),
                  )))

  take_or_stay-Follows :
      (s : Session) (event : EventType) (values : Dict String String) (d : StateDefinition)
      (t : Option Transition)
      → flow.mode ≡ structured
      → first_match ops flow s event values d.transitions ≡ t
      → validate flow ≡ ok tt
      → IsRenderable ops flow
      → IsKnown flow s.current_state
      → Dict.get flow.states s.current_state ≡ some d
      → RendersState ops flow d
      → Follows ops flow s event values (take_or_stay ops flow s event values d t)
  unfolding take_or_stay
  take_or_stay-Follows s event values d none m hit valid fine here there renders =
      stay-Follows s event values d.fallback_action here
        (stays d m there (first_match-none ops flow s event values d.transitions hit)) renders.1
  take_or_stay-Follows s event values d (some t) m hit valid fine here there renders =
      let (before, rest, split, none_before, applies) =
        first_match-IsFirst ops flow s event values d.transitions t hit in
      let checked = transitions_checked flow s.current_state d (
        Dict.All-get (λ e. check_state flow e ≡ ok tt) flow.states s.current_state d there
          (valid_states flow valid)) in
      take_transition-Follows s event values t
        (target-IsKnown flow t s.current_state
          (All-middle (λ t. check_transition flow t ≡ ok tt) before t rest
            (subst (All (λ t. check_transition flow t ≡ ok tt)) split checked))
          here)
        (λ next entered. takes d next t before rest m there split none_before applies entered) fine
        (All-middle (λ t. RendersOptional ops flow t.action) before t rest
          (subst (All (λ t. RendersOptional ops flow t.action)) split renders.2))

  handle_structured-Follows :
      (s : Session) (event : EventType) (values : Dict String String)
      → flow.mode ≡ structured
      → validate flow ≡ ok tt
      → IsRenderable ops flow
      → IsKnown flow s.current_state
      → Follows ops flow s event values (handle_structured ops flow s event values)
  unfolding handle_structured
  handle_structured-Follows s event values m valid fine here =
      let (d, found, there) = state_known flow s.current_state here in
      rw (found, handle_structured)
        (take_or_stay-Follows s event values d (first_match ops flow s event values d.transitions) m
          refl valid fine here there (renders_at ops flow s.current_state d fine there))

  handle_freeform-Follows :
      (s : Session) (event : EventType) (values : Dict String String)
      → flow.mode ≡ freeform
      → IsRenderable ops flow
      → IsKnown flow s.current_state
      → Follows ops flow s event values (handle_freeform ops flow s event values)
  unfolding handle_freeform render_template render_actions
  handle_freeform-Follows s event values m fine here =
      let (d, found, there) = state_known flow s.current_state here in
      rw (advanced_lem s event values s.current_state [] d found, found, handle_freeform)
        (Follows-test ops flow s event values (not (same_event event user_transcript)) _ _
          (λ silent. (
            here,
            ([], prompted d event, talks d m there, refl, rw silent refl),
            same_state s.current_state,
            (_, refl, refl, refl, refl, refl),
          ))
          (λ asks.
            Follows-bind ops flow s event values _ _
              ((renders_at ops flow s.current_state d fine there).3 _)
              λ text rendered. (
                here,
                ([], prompted d event, talks d m there, refl, rw asks (rw rendered refl)),
                same_state s.current_state,
                (_, refl, refl, refl, refl, refl),
              )))

  handle_in-Follows :
      (m : Mode) (s : Session) (event : EventType) (values : Dict String String)
      → flow.mode ≡ m
      → validate flow ≡ ok tt
      → IsRenderable ops flow
      → IsKnown flow s.current_state
      → Follows ops flow s event values (handle_in ops flow m s event values)
  unfolding handle_in
  handle_in-Follows freeform s event values m valid fine here =
      handle_freeform-Follows s event values m fine here
  handle_in-Follows structured s event values m valid fine here =
      handle_structured-Follows s event values m valid fine here

  -- In a flow that passed its checks and whose templates `format_map` can read, an event that
  -- comes in a state of the flow is handled: it raises nothing, and adds one entry to the history,
  -- which names the event, its values and the move. The move is the one that the flow declares: in
  -- a structured flow by the first transition of the state that is for the kind of the event and
  -- whose text predicate, if it has one, finds a candidate in the text, with the updates of that
  -- transition written over the data of the session; to the same state, with the data unchanged, if
  -- there is none, and in a freeform flow. The actions of the
  -- move are returned, rendered with the new data, and the result says whether the state is another.
  pub handle_event-Follows :
      (s : Session) (event : EventType) (values : Dict String String)
      → validate flow ≡ ok tt
      → IsRenderable ops flow
      → IsKnown flow s.current_state
      → Follows ops flow s event values (handle_event ops flow s event values)
  unfolding handle_event
  handle_event-Follows s event values valid fine here =
      handle_in-Follows flow.mode s event values refl valid fine here
