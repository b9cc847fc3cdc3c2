-- ===== src/Conversation/Actions.antt =====
-- The actions of a transition, of a state and of a prompt, and how they are rendered one behind
-- another.
use flowhunt_voicebot.Base.{
  ◌≡◌, refl, sym, ap, ◌∙◌, String, Bool, not, Option, none, some, List, [], ◌∷◌, ◌++◌,
  if◌then◌else◌, arith, Result, ok, err, ◌>>=◌,
}
use flowhunt_voicebot.Base.Dict.{Dict}
use flowhunt_voicebot.Conversation.{
  EventType, user_transcript, Action, agent_request, StateDefinition, Flow,
}
use flowhunt_voicebot.Conversation.Engine.{
  TextOps, Session, same_event, render_action, render_actions, optional_action,
}

abbrev pub listed_action : Option Action → List Action
listed_action none = []
listed_action (some a) = a ∷ []

-- What a freeform state asks the agent, on a transcript.
abbrev pub prompted : StateDefinition → EventType → List Action
prompted d event =
    if not (same_event event user_transcript)
    then []
    else record { type = agent_request; text = d.prompt_template; values = [] } ∷ []

-- One action more before some that were rendered.
appended :
    (x : Result Action) (xs all : Result (List Action)) (a b : List Action)
    → ◌≡◌ {A = Result (List Action)} (x >>= λ y. xs >>= λ ys. ok (y ∷ ys)) (ok a)
    → ((ys : List Action) → xs ≡ ok ys → all ≡ ok (ys ++ b))
    → ◌≡◌ {A = Result (List Action)} (x >>= λ y. all >>= λ ys. ok (y ∷ ys)) (ok (a ++ b))
appended (err e) xs all a b h rest = cc
appended (ok y) (err e) all a b h rest = cc
appended (ok y) (ok ys) all a b h rest =
    let first : y ∷ ys ≡ a = ground (arith, h) in rw (rest ys refl) (ap (λ l. ok (l ++ b)) first)

module _ (ops : TextOps) (flow : Flow) (s : Session) (values : Dict String String) where
  pub optional-listed :
      (o : Option Action)
      → optional_action ops flow s values o ≡ render_actions ops s values (listed_action o)
  unfolding optional_action render_actions
  optional-listed none = refl
  optional-listed (some a) = refl

  render_actions-append :
      (xs ys : List Action) {a b : List Action}
      → render_actions ops s values xs ≡ ok a
      → render_actions ops s values ys ≡ ok b
      → render_actions ops s values (xs ++ ys) ≡ ok (a ++ b)
  unfolding render_actions
  render_actions-append [] ys h g = ground (arith, h, g)
  render_actions-append (x ∷ xs) ys {a} {b} h g =
      appended (render_action ops s values x) (render_actions ops s values xs)
        (render_actions ops s values (xs ++ ys)) a b h λ zs done. render_actions-append xs ys done g

  -- The actions of a transition, in either branch of its end.
  pub moved :
      (o : Option Action) (entry : List Action) (same : Bool) {a b : List Action}
      → optional_action ops flow s values o ≡ ok a
      → render_actions ops s values (if same then [] else entry) ≡ ok b
      → render_actions ops s values (listed_action o ++ (if same then [] else entry)) ≡ ok (a ++ b)
  moved o entry same h g =
      render_actions-append (listed_action o) (if same then [] else entry)
        (sym (optional-listed o) ∙ h) g
