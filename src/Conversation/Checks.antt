-- ===== src/Conversation/Checks.antt =====
-- What the checks of a flow establish: the states that it names are there.
use flowhunt_voicebot.Base.{
  ◌≡◌, refl, String, true, some, List, [], ◌∷◌, All, inl, inr, Option-cases, text_key, arith,
  Result, ok, check_all,
}
use flowhunt_voicebot.Base.Dict
use flowhunt_voicebot.Base.Dict.{Dict}
use flowhunt_voicebot.Conversation.{
  Transition, StateDefinition, Flow, state, require, validate, check_state, check_transition,
}
use flowhunt_voicebot.Conversation.Engine.{target}

-- A check that ran through has passed each item.
pub check_all-All {ℓ} :
    {A : Type ℓ} (f : A → Result (Unit {0})) (xs : List A)
    → check_all f xs ≡ ok tt
    → All (λ x. f x ≡ ok tt) xs
check_all-All f [] h = tt
check_all-All f (x ∷ xs) h = ground (arith, check_all-All f xs)

abbrev pub IsKnown : Flow → String → Type 0
IsKnown flow q = Dict.has flow.states q ≡ true

pub state_known :
    (flow : Flow) (q : String)
    → IsKnown flow q
    → (d : StateDefinition) × (state flow q ≡ ok d) × (Dict.get flow.states q ≡ some d)
unfolding state Dict.has
state_known flow q h = elim (Option-cases (Dict.get flow.states q)) [
  | inl missing ↦ absurd (ground (arith, missing))
  | inr (d, found) ↦ (d, rw (found, state) refl, found)
]

pub require-IsKnown : (flow : Flow) (q : String) → require flow q ≡ ok tt → IsKnown flow q
unfolding state Dict.has
require-IsKnown flow q h = ground arith

pub valid_initial : (flow : Flow) → validate flow ≡ ok tt → IsKnown flow flow.initial_state
unfolding validate
valid_initial flow h = require-IsKnown flow flow.initial_state (ground arith)

pub valid_states :
    (flow : Flow) → validate flow ≡ ok tt → All (λ e. check_state flow e ≡ ok tt) flow.states
unfolding validate
valid_states flow h = check_all-All (check_state flow) flow.states (ground arith)

pub transitions_checked :
    (flow : Flow) (key : String) (d : StateDefinition)
    → check_state flow (key, d) ≡ ok tt
    → All (λ t. check_transition flow t ≡ ok tt) d.transitions
unfolding check_state
transitions_checked flow key d h =
    check_all-All (check_transition flow) d.transitions (ground arith)

pub target-IsKnown :
    (flow : Flow) (t : Transition) (current : String)
    → check_transition flow t ≡ ok tt
    → IsKnown flow current
    → IsKnown flow (target t current)
unfolding check_transition
target-IsKnown flow t current h here = elim (Option-cases t.to) [
  | inl same ↦ ground (arith, same)
  | inr (to, given) ↦ ground (arith, given, require-IsKnown flow to)
]
