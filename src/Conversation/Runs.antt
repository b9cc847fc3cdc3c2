-- ===== src/Conversation/Runs.antt =====
-- A whole conversation: the start of a call and then its events.
use flowhunt_voicebot.Base.{
  ℕ, suc, ◌+◌, ◌≡◌, refl, sym, subst, String, false, List, [], ◌∷◌, ◌++◌, length, length-append, ap,
  arith, Result, ok, err, ◌>>=◌, text_key,
}
use flowhunt_voicebot.Base.Dict.{Dict}
use flowhunt_voicebot.Conversation.{Action, StateDefinition, EventType, Flow, state, validate}
use flowhunt_voicebot.Conversation.Engine.{
  TextOps, Turn, Session, StepResult, start, handle_event, render_actions,
}
use flowhunt_voicebot.Conversation.Checks.{IsKnown, state_known, valid_initial}
use flowhunt_voicebot.Conversation.Rendering.{IsOk, IsRenderable, renders_at, render_actions-IsOk}
use flowhunt_voicebot.Conversation.Progress.{Move, Follows, handle_event-Follows}

-- A history that leads from one state of a flow to another by declared moves.
pub data Trail (ops : TextOps) (flow : Flow) (from : String) : List Turn → String → Type 0 where
  begins : Trail ops flow from [] from
  goes :
      {h h' : List Turn} {q r : String} {updates : Dict String String} {actions : List Action}
      (turn : Turn)
      → Trail ops flow from h q
      → Move ops flow q turn.event turn.values updates actions r
      → turn.from ≡ q
      → turn.next_state ≡ r
      → h' ≡ h ++ (turn ∷ [])
      → Trail ops flow from h' r

module _ (ops : TextOps) (flow : Flow) where
  unfoldable pub handle_all : Session → List (EventType × Dict String String) → Result Session
  handle_all s [] = ok s
  handle_all s ((event, values) ∷ events) =
      handle_event ops flow s event values >>= λ r. handle_all r.session events

  unfoldable pub converse : String → List (EventType × Dict String String) → Result Session
  unfolding handle_all
  converse call_id events = start ops flow call_id >>= λ r. handle_all r.session events

  -- A session that the conversation has reached after so many events.
  abbrev pub Reached : ℕ → Result Session → Type 0
  Reached n (err e) = ⊥
  Reached n (ok s) =
      IsKnown flow s.current_state
      × Trail ops flow flow.initial_state s.history s.current_state
      × (length s.history ≡ n)

  Follows-Reached :
      (n : ℕ) (s : Session) (event : EventType) (values : Dict String String)
      (o : Result StepResult)
      → Reached n (ok s)
      → Follows ops flow s event values o
      → Reached (n + 1) (o >>= λ r. ok r.session)
  Follows-Reached n s event values (err e) here h = h
  Follows-Reached n s event values (ok r) here h =
      let (
        known,
        (updates, actions, move, written, rendered),
        told,
        (turn, same, with_values, from, to, longer),
      ) =
        h in
      (
        known,
        goes turn here.1
            (subst
              (λ v.
                Move ops flow s.current_state turn.event v updates actions r.session.current_state)
              (sym with_values)
              (subst
                (λ e.
                  Move ops flow s.current_state e values updates actions r.session.current_state)
                (sym same) move))
            from to longer,
        omega (arith, ap (length {A = Turn}) longer, length-append s.history (turn ∷ []), here.2),
      )

  rest_Reached :
      (events : List (EventType × Dict String String)) (n : ℕ) (o : Result StepResult)
      → ((m : ℕ) (t : Session)
          → Reached m (ok t)
          → Reached (m + length events) (handle_all t events))
      → Reached (n + 1) (o >>= λ r. ok r.session)
      → Reached (n + suc (length events)) (o >>= λ r. handle_all r.session events)
  rest_Reached events n (err e) ih h = h
  rest_Reached events n (ok r) ih h =
      subst (λ m. Reached m (handle_all r.session events)) (omega arith) (ih (n + 1) r.session h)

  handle_all-Reached :
      (events : List (EventType × Dict String String)) (n : ℕ) (s : Session)
      → validate flow ≡ ok tt
      → IsRenderable ops flow
      → Reached n (ok s)
      → Reached (n + length events) (handle_all s events)
  unfolding handle_all
  handle_all-Reached [] n s valid fine here = (here.0, here.1, omega (arith, here.2))
  handle_all-Reached ((event, values) ∷ events) n s valid fine here =
      rest_Reached events n (handle_event ops flow s event values)
        (λ m t. handle_all-Reached events m t valid fine)
        (Follows-Reached n s event values (handle_event ops flow s event values) here
          (handle_event-Follows ops flow s event values valid fine here.0))

  Reached-zero : (n : ℕ) (o : Result Session) → Reached (0 + n) o → Reached n o
  Reached-zero n o h = subst (λ m. Reached m o) (omega arith) h

  -- The state in which a call begins.
  abbrev opening : String → Session
  opening call_id = record {
    call_id = call_id;
    flow_id = flow.flow_id;
    current_state = flow.initial_state;
    workspace_id = flow.workspace_id;
    voicebot_id = flow.voicebot_id;
    values = [];
    history = [];
  }

  start_lem :
      (call_id : String) (d : StateDefinition)
      → state flow flow.initial_state ≡ ok d
      → start ops flow call_id ≡ (
          render_actions ops (opening call_id) [] d.entry_actions >>= λ actions.
          ok (record { session = opening call_id; actions = actions; transitioned = false }))
  unfolding start
  start_lem call_id d found = rw (found, start) refl

  rendered_Reached :
      (n : ℕ) (s : Session) (o : Result (List Action)) (k : Session → Result Session)
      → IsOk o
      → Reached n (k s)
      → Reached n (
          ◌>>=◌ {A = StepResult}
            (o >>= λ actions. ok (record { session = s; actions = actions; transitioned = false }))
            (λ r. k r.session))
  rendered_Reached n s (err e) k h rest = absurd h
  rendered_Reached n s (ok actions) k h rest = rest

  -- A flow that passed its checks and whose templates `format_map` can read carries every call to
  -- its end: the start and all events, however many and whatever they say, are handled without an
  -- error. The state reached is one of the flow's, and the history has one entry for each event,
  -- which together lead from the initial state to the state reached by moves that the flow
  -- declares.
  pub converse-Reached :
      (call_id : String) (events : List (EventType × Dict String String))
      → validate flow ≡ ok tt
      → IsRenderable ops flow
      → Reached (length events) (converse call_id events)
  unfolding converse
  converse-Reached call_id events valid fine =
      let known = valid_initial flow valid in
      let (d, found, there) = state_known flow flow.initial_state known in
      let entry = (renders_at ops flow flow.initial_state d fine there).0 in
      rw (start_lem call_id d found, converse)
        (rendered_Reached (length events) (opening call_id) _ (λ s. handle_all s events)
          (render_actions-IsOk ops flow (opening call_id) [] d.entry_actions entry)
          (Reached-zero (length events) _
            (handle_all-Reached events 0 (opening call_id) valid fine (known, begins, refl))))
