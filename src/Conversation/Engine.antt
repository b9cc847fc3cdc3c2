-- ===== src/Conversation/Engine.antt =====
-- `ConversationFlowEngine`: what an event does to a session. `str.lower` and `str.format_map` are
-- parameters; the latter is given the value of each key, that of `_SafeFormat`, and raises on a
-- template that it cannot read.
use flowhunt_voicebot.Base.{
  String, Bool, true, false, not, Option, none, some, List, [], ◌∷◌, ◌++◌, if◌then◌else◌, any,
  is_some, text_key, ◌==◌, Result, ok, ◌>>=◌, ◌+s◌,
}
use text.Mathlib.Text.{find?}
use flowhunt_voicebot.Base.Dict
use flowhunt_voicebot.Base.Dict.{Dict, merged}
use flowhunt_voicebot.Conversation.{
  Mode, freeform, structured, EventType, call_connected, user_transcript, no_input, timeout,
  agent_result, dtmf, failure, agent_request, Action, Transition, StateDefinition, Flow, state,
}

pub record TextOps : Type 0 where
  pub lower : String → String
  pub format_map : String → (String → String) → Result String

-- An entry of `history`.
pub record Turn : Type 0 where
  pub event : EventType
  pub from : String  -- `state`
  pub next_state : String
  pub values : Dict String String  -- `data`

pub record Session : Type 0 where
  pub call_id : String
  pub flow_id : String
  pub current_state : String
  pub workspace_id : Option String
  pub voicebot_id : Option String
  pub values : Dict String String  -- `data`
  pub history : List Turn

pub record StepResult : Type 0 where
  pub session : Session
  pub actions : List Action
  pub transitioned : Bool

abbrev event_index : EventType → String
event_index call_connected = "call_connected"
event_index user_transcript = "user_transcript"
event_index no_input = "no_input"
event_index timeout = "timeout"
event_index agent_result = "agent_result"
event_index dtmf = "dtmf"
event_index failure = "error"

unfoldable pub same_event : EventType → EventType → Bool
same_event a b = event_index a == event_index b

-- The values of `render_template`, with `_SafeFormat.__missing__`.
unfoldable pub template_value : Session → Dict String String → String → String
unfolding merged
template_value s values key =
    let base = ("call_id", s.call_id) ∷ ("flow_id", s.flow_id) ∷ ("state", s.current_state) ∷ [] in
    elim (Dict.get (merged (merged base s.values) values) key) [
      | none ↦ "{" +s (key +s "}")
      | some v ↦ v
    ]

-- `text.find(part) >= 0`
abbrev pub contains : String → String → Bool
contains text part = is_some (find? text part)

abbrev pub text_of : Dict String String → String
text_of values = elim (Dict.get values "text") [ none ↦ "" | some t ↦ t ]

-- `transition.to or session.current_state`
abbrev pub target : Transition → String → String
target t current = elim t.to [ none ↦ current | some to ↦ if to == "" then current else to ]

module _ (ops : TextOps) where
  unfoldable pub render_template : String → Session → Dict String String → Result String
  render_template template s values = ops.format_map template (template_value s values)

  unfoldable pub render_action : Session → Dict String String → Action → Result Action
  unfolding render_template
  render_action s values a =
      render_template a.text s values >>= λ text. ok (record a { text = text })

  unfoldable pub render_actions : Session → Dict String String → List Action → Result (List Action)
  unfolding render_action
  render_actions s values [] = ok []
  render_actions s values (a ∷ actions) =
      render_action s values a >>= λ b. render_actions s values actions >>= λ bs. ok (b ∷ bs)

  unfoldable pub matches : Transition → EventType → Dict String String → Bool
  matches t event values =
      if not (same_event t.on event) then false else elim t.when_text_contains [
        | [] ↦ true
        | c ∷ cs ↦
            any (λ candidate. contains (ops.lower (text_of values)) (ops.lower candidate)) (c ∷ cs)
      ]

  module _ (flow : Flow) where
    unfoldable pub advance :
        Session → EventType → Dict String String → String → Dict String String → Result Session
    advance s event values next updates = do
      _ ← state flow next
      ok (record s {
        current_state = next;
        values = merged s.values updates;
        history =
            s.history
            ++ (record { event = event; from = s.current_state; next_state = next; values = values }
                ∷ []);
      })

    unfoldable pub start : String → Result StepResult
    start call_id =
        let s : Session = record {
          call_id = call_id;
          flow_id = flow.flow_id;
          current_state = flow.initial_state;
          workspace_id = flow.workspace_id;
          voicebot_id = flow.voicebot_id;
          values = [];
          history = [];
        } in
        do
          here ← state flow s.current_state
          actions ← render_actions s [] here.entry_actions
          ok (record { session = s; actions = actions; transitioned = false })

    unfoldable pub optional_action :
        Session → Dict String String → Option Action → Result (List Action)
    unfolding render_action
    optional_action s values none = ok []
    optional_action s values (some a) = render_action s values a >>= λ b. ok (b ∷ [])

    -- The body of the loop for the transition that matches.
    unfoldable pub take_transition :
        Session → EventType → Dict String String → Transition → Result StepResult
    unfolding advance optional_action render_actions
    take_transition s event values t =
        let next = target t s.current_state in
        do
          s' ← advance s event values next t.data_updates
          own ← optional_action s' values t.action
          if next == s.current_state
              then ok (record { session = s'; actions = own; transitioned = false })
              else do
                there ← state flow next
                entry ← render_actions s' values there.entry_actions
                ok (record { session = s'; actions = own ++ entry; transitioned = true })

    -- What happens in the same state: the fallback, if any.
    unfoldable pub stay :
        Session → EventType → Dict String String → Option Action → Result StepResult
    unfolding advance optional_action
    stay s event values fallback = do
      s' ← advance s event values s.current_state []
      actions ← optional_action s' values fallback
      ok (record { session = s'; actions = actions; transitioned = false })

    unfoldable pub first_match :
        Session → EventType → Dict String String → List Transition → Option Transition
    unfolding matches
    first_match s event values [] = none
    first_match s event values (t ∷ ts) =
        let later = first_match s event values ts in
        if matches t event values then some t else later

    -- The first transition that matches, or the fallback.
    unfoldable pub take_or_stay :
        Session
        → EventType
        → Dict String String
        → StateDefinition
        → Option Transition
        → Result StepResult
    unfolding take_transition stay
    take_or_stay s event values here (some t) = take_transition s event values t
    take_or_stay s event values here none = stay s event values here.fallback_action

    unfoldable pub handle_structured : Session → EventType → Dict String String → Result StepResult
    unfolding first_match take_or_stay
    handle_structured s event values = do
      here ← state flow s.current_state
      take_or_stay s event values here (first_match s event values here.transitions)

    unfoldable pub handle_freeform : Session → EventType → Dict String String → Result StepResult
    unfolding advance render_template
    handle_freeform s event values = do
      s' ← advance s event values s.current_state []
      if not (same_event event user_transcript)
          then ok (record { session = s'; actions = []; transitioned = false })
          else do
            here ← state flow s.current_state
            text ← render_template here.prompt_template s' values
            ok (record {
              session = s';
              actions = record { type = agent_request; text = text; values = [] } ∷ [];
              transitioned = false;
            })

    unfoldable pub handle_in : Mode → Session → EventType → Dict String String → Result StepResult
    unfolding handle_freeform handle_structured
    handle_in freeform s event values = handle_freeform s event values
    handle_in structured s event values = handle_structured s event values

    unfoldable pub handle_event : Session → EventType → Dict String String → Result StepResult
    unfolding handle_in
    handle_event s event values = handle_in flow.mode s event values
