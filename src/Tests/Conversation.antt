-- ===== src/Tests/Conversation.antt =====
-- A flow of two states, in which a caller says goodbye.
use flowhunt_voicebot.Base.{
  ◌≡◌, ◌≢◌, refl, String, none, some, [], ◌∷◌, text_key, ok, err, arith, eq_iff, after, List,
}
use flowhunt_voicebot.Base.Dict
use flowhunt_voicebot.Base.Dict.{Dict}
use flowhunt_voicebot.Conversation.{
  Flow, structured, freeform_flow, user_transcript, no_input, call_connected, hangup, speak,
  validate, EventType,
}
use flowhunt_voicebot.Conversation.Engine.{TextOps, Session, handle_event}
use flowhunt_voicebot.Conversation.Checks.{IsKnown}
use flowhunt_voicebot.Conversation.Rendering.{IsRenderable}
use flowhunt_voicebot.Conversation.Progress.{Follows, handle_event-Follows}
use flowhunt_voicebot.Conversation.Runs.{Reached, converse, converse-Reached}
use flowhunt_voicebot.Conversation.Stores.{
  FlowStore, default_for_voicebot, default_for_voicebot-save, save,
}

abbrev ops : TextOps
ops = record { lower = λ s. s; format_map = λ t f. ok t }

abbrev two_states : Flow
two_states = record {
  flow_id = "f";
  workspace_id = some "w";
  voicebot_id = some "v";
  mode = structured;
  initial_state = "open";
  states =
      (
        "open",
        record {
          state_id = "open";
          entry_actions = [];
          transitions =
              record {
                on = user_transcript;
                to = some "done";
                action = some (record { type = speak; text = "bye"; values = [] });
                when_text_contains = "goodbye" ∷ [];
                data_updates = [];
              }
              ∷ [];
          prompt_template = "";
          fallback_action = none;
        },
      )
      ∷ (
        "done",
        record {
          state_id = "done";
          entry_actions = record { type = hangup; text = ""; values = [] } ∷ [];
          transitions = [];
          prompt_template = "";
          fallback_action = none;
        },
      )
      ∷ [];
  language = none;
}

abbrev opened : Session
opened = record {
  call_id = "c";
  flow_id = "f";
  current_state = "open";
  workspace_id = some "w";
  voicebot_id = some "v";
  values = [];
  history = [];
}

two_states_valid : validate two_states ≡ ok tt
unfolding validate flowhunt_voicebot.Base.is_blank flowhunt_voicebot.Conversation.check_key
    flowhunt_voicebot.Conversation.state Dict.get flowhunt_voicebot.Conversation.check_state
    flowhunt_voicebot.Conversation.check_transition
    flowhunt_voicebot.Conversation.validate_transition
    flowhunt_voicebot.Conversation.validate_action
two_states_valid = refl

open-IsKnown : IsKnown two_states "open"
unfolding Dict.has
open-IsKnown = refl

two_states-IsRenderable : IsRenderable ops two_states
two_states-IsRenderable = (
  (tt, tt, ((λ values. tt), tt), λ values. tt),
  ((((λ values. tt), tt), tt, tt, λ values. tt), tt),
)

handle_event-Follows_example :
    Follows ops two_states opened user_transcript
      (("text", "goodbye now") ∷ [])
      (handle_event ops two_states opened user_transcript (("text", "goodbye now") ∷ []))
handle_event-Follows_example =
    handle_event-Follows ops two_states opened user_transcript (("text", "goodbye now") ∷ [])
      two_states_valid two_states-IsRenderable open-IsKnown

converse-Reached_example : Reached ops two_states 2 (
    converse ops two_states "c" ((no_input, []) ∷ (user_transcript, ("text", "goodbye") ∷ []) ∷ []))
converse-Reached_example =
    converse-Reached ops two_states "c"
      ((no_input, []) ∷ (user_transcript, ("text", "goodbye") ∷ []) ∷ []) two_states_valid
      two_states-IsRenderable

w_named : ◌≢◌ {A = String} "w" ""
w_named = λ e. absurd (ground (arith, (eq_iff "w" "").1 e))

v_other : ◌≢◌ {A = String} "v" "u"
v_other = λ e. absurd (ground (arith, (eq_iff "v" "u").1 e))

-- The flow of another workspace.
abbrev elsewhere_flow : Flow
elsewhere_flow = record two_states { workspace_id = some "x" }

abbrev elsewhere_store : FlowStore
elsewhere_store = (("x", (some "v", "f")), elsewhere_flow) ∷ []

default_for_voicebot-save_example :
    default_for_voicebot (after elsewhere_store (save elsewhere_store two_states)) "w" "u"
    ≡ some two_states
default_for_voicebot-save_example =
    default_for_voicebot-save elsewhere_store two_states "w" "v" "u" (refl, tt) refl w_named refl
      v_other two_states_valid
