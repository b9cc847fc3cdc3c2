-- ===== src/Conversation.antt =====
-- voicebot/conversation_flow.py: conversation flows as state machines. The values of event data
-- and of a session's data are texts. A type or mode outside its `Literal` cannot be written here,
-- so the checks for it are left out.
pub mod Engine
pub mod Checks
pub mod Rendering
pub mod Actions
pub mod Matching
pub mod Progress
pub mod Runs
pub mod Stores
use flowhunt_voicebot.Base.{
  String, Bool, true, false, not, ◌&&◌, ◌||◌, Option, none, some, List, [], ◌∷◌, if◌then◌else◌, any,
  text_key, ◌==◌, is_blank, Result, ok, err, value_error, raise_if, check_all, ◌>>=◌, ◌>>◌, ◌+s◌,
}
use flowhunt_voicebot.Base.Dict
use flowhunt_voicebot.Base.Dict.{Dict}

pub data Mode : Type 0 where
  freeform structured : Mode

pub data EventType : Type 0 where
  call_connected user_transcript no_input timeout agent_result dtmf failure : EventType

pub data ActionType : Type 0 where
  speak agent_request subagent_task transfer hangup set_data : ActionType

pub record Action : Type 0 where
  pub type : ActionType
  pub text : String
  pub values : Dict String String  -- `data`

pub record Transition : Type 0 where
  pub on : EventType
  pub to : Option String
  pub action : Option Action
  pub when_text_contains : List String
  pub data_updates : Dict String String

pub record StateDefinition : Type 0 where
  pub state_id : String
  pub entry_actions : List Action
  pub transitions : List Transition
  pub prompt_template : String
  pub fallback_action : Option Action

pub record Flow : Type 0 where
  pub flow_id : String
  pub workspace_id : Option String
  pub voicebot_id : Option String
  pub mode : Mode
  pub initial_state : String
  pub states : Dict String StateDefinition
  pub language : Option String

-- `ConversationFlowDefinition.state`
unfoldable pub state : Flow → String → Result StateDefinition
state flow state_id = elim (Dict.get flow.states state_id) [
  | none ↦ err (
      value_error (
        "Conversation flow '"
        +s (flow.flow_id +s ("' references unknown state '" +s (state_id +s "'")))))
  | some s ↦ ok s
]

-- The same, for the error only.
abbrev pub require : Flow → String → Result (Unit {0})
require flow state_id = state flow state_id >>= λ _. ok tt

-- `not action.data.get(key)`
abbrev pub lacks : Action → String → Bool
lacks a key = elim (Dict.get a.values key) [ none ↦ true | some v ↦ v == "" ]

unfoldable pub validate_action : ActionType → Action → Result (Unit {0})
validate_action speak a = raise_if (is_blank a.text) "conversation action speak requires text"
validate_action agent_request a =
    raise_if (is_blank a.text) "conversation action agent_request requires text"
validate_action subagent_task a = do
  raise_if (is_blank a.text) "conversation action subagent_task requires text"
  raise_if (lacks a "provider") "conversation action subagent_task requires provider"
validate_action transfer a =
    raise_if (lacks a "target") "conversation action transfer requires target"
validate_action hangup a = ok tt
validate_action set_data a = ok tt

unfoldable pub validate_transition : Transition → Result (Unit {0})
validate_transition t =
    raise_if (any is_blank t.when_text_contains)
      "conversation transition text predicates must not be blank"

-- `if x is not None: check(x)`
abbrev pub if_given {ℓ} : {A : Type ℓ} → (A → Result (Unit {0})) → Option A → Result (Unit {0})
if_given check none = ok tt
if_given check (some x) = check x

abbrev pub run_action_checks : Action → Result (Unit {0})
run_action_checks a = validate_action a.type a

-- The loop over the transitions of a state.
unfoldable pub check_transition : Flow → Transition → Result (Unit {0})
check_transition flow t = do
  validate_transition t
  if_given (require flow) t.to
  if_given run_action_checks t.action

-- The loop over the states, its second run.
unfoldable pub check_state : Flow → String × StateDefinition → Result (Unit {0})
check_state flow (key, s) = do
  check_all run_action_checks s.entry_actions
  if_given run_action_checks s.fallback_action
  check_all (check_transition flow) s.transitions

-- The loop over the states, its first run.
unfoldable pub check_key : String × StateDefinition → Result (Unit {0})
check_key (key, s) = do
  raise_if (is_blank key) "conversation state id is required"
  raise_if (not (key == s.state_id)) "conversation state key must match state_id"
  raise_if (is_blank s.state_id) "conversation state id is required"

unfoldable pub validate : Flow → Result (Unit {0})
validate flow = do
  raise_if (is_blank flow.flow_id) "conversation flow_id is required"
  raise_if (is_blank flow.initial_state) "conversation initial_state is required"
  check_all check_key flow.states
  require flow flow.initial_state
  check_all (check_state flow) flow.states

unfoldable pub freeform_flow : String → Option String → Option String → String → Flow
freeform_flow flow_id workspace_id voicebot_id prompt_template = record {
  flow_id = flow_id;
  workspace_id = workspace_id;
  voicebot_id = voicebot_id;
  mode = freeform;
  initial_state = "default";
  states =
      (
        "default",
        record {
          state_id = "default";
          entry_actions = [];
          transitions = [];
          prompt_template = prompt_template;
          fallback_action = none;
        },
      )
      ∷ [];
  language = none;
}
