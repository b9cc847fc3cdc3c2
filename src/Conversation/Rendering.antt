-- ===== src/Conversation/Rendering.antt =====
-- The flows whose templates `format_map` can read: their actions are rendered without an error.
use flowhunt_voicebot.Base.{
  ◌≡◌, String, Option, none, some, List, [], ◌∷◌, All, text_key, Result, ok, err, ◌>>=◌,
}
use flowhunt_voicebot.Base.Dict
use flowhunt_voicebot.Base.Dict.{Dict}
use flowhunt_voicebot.Conversation.{Action, StateDefinition, Flow}
use flowhunt_voicebot.Conversation.Engine.{
  TextOps, Session, render_actions, optional_action, template_value,
}

abbrev pub IsOk {ℓ} : {A : Type ℓ} → Result A → Type 0
IsOk (err e) = ⊥
IsOk (ok a) = Unit

pub IsOk-bind :
    {A B : Type 0} (o : Result A) (k : A → Result B)
    → IsOk o
    → ((a : A) → IsOk (k a))
    → IsOk (o >>= k)
IsOk-bind (err e) k h rest = h
IsOk-bind (ok a) k h rest = rest a

module _ (ops : TextOps) (flow : Flow) where
  -- A template that `format_map` can read, whatever the values are.
  abbrev pub Renders : String → Type 0
  Renders template = (values : String → String) → IsOk (ops.format_map template values)

  abbrev pub RendersOptional : Option Action → Type 0
  RendersOptional none = Unit
  RendersOptional (some a) = Renders a.text

  abbrev pub RendersState : StateDefinition → Type 0
  RendersState d =
      All (λ a. Renders a.text) d.entry_actions
      × RendersOptional d.fallback_action
      × All (λ t. RendersOptional t.action) d.transitions
      × Renders d.prompt_template

  abbrev pub IsRenderable : Type 0
  IsRenderable = All (λ e. RendersState e.1) flow.states

  pub render_actions-IsOk :
      (s : Session) (values : Dict String String) (actions : List Action)
      → All (λ a. Renders a.text) actions
      → IsOk (render_actions ops s values actions)
  unfolding render_actions
  render_actions-IsOk s values [] h = tt
  render_actions-IsOk s values (a ∷ actions) h =
      IsOk-bind _ _ (IsOk-bind _ _ (h.0 (template_value s values)) λ text. tt)
        λ b. IsOk-bind _ _ (render_actions-IsOk s values actions h.1) λ bs. tt

  pub optional_action-IsOk :
      (s : Session) (values : Dict String String) (action : Option Action)
      → RendersOptional action
      → IsOk (optional_action ops flow s values action)
  unfolding optional_action
  optional_action-IsOk s values none h = tt
  optional_action-IsOk s values (some a) h =
      IsOk-bind _ _ (IsOk-bind _ _ (h (template_value s values)) λ text. tt) λ b. tt

  pub renders_at :
      (q : String) (d : StateDefinition)
      → IsRenderable
      → Dict.get flow.states q ≡ some d
      → RendersState d
  renders_at q d fine there = Dict.All-get (λ e. RendersState e.1) flow.states q d there fine
