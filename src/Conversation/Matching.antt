-- ===== src/Conversation/Matching.antt =====
-- Which transition of a state an event takes: the first that is for its kind and its text.
use flowhunt_voicebot.Base.{
  ◌≡◌, refl, ap, subst, String, Bool, true, false, none, some, List, [], ◌∷◌, ◌++◌, All, any, ◌⊎◌,
  inl, inr, Bool-cases, text_key, arith,
}
use flowhunt_voicebot.Base.Dict.{Dict}
use flowhunt_voicebot.Conversation.{EventType, Transition, Flow}
use flowhunt_voicebot.Conversation.Engine.{
  TextOps, contains, text_of, Session, same_event, matches, first_match,
}

-- The text of the event has one of the candidates in it, both in lower case.
abbrev pub Mentions : TextOps → Dict String String → List String → Type 0
Mentions ops values [] = ⊥
Mentions ops values (c ∷ cs) =
    (contains (ops.lower (text_of values)) (ops.lower c) ≡ true) ⊎ Mentions ops values cs

-- The predicate of a transition on the text, which an empty list leaves out.
abbrev pub Says : TextOps → Dict String String → List String → Type 0
Says ops values [] = Unit {0}
Says ops values (c ∷ cs) = Mentions ops values (c ∷ cs)

-- A transition is for this event.
abbrev pub Applies : TextOps → EventType → Dict String String → Transition → Type 0
Applies ops event values t = (same_event t.on event ≡ true) × Says ops values t.when_text_contains

List-cases : (l : List String) → (l ≡ []) ⊎ ((c : String) × (cs : List String) × (l ≡ c ∷ cs))
List-cases [] = inl refl
List-cases (c ∷ cs) = inr (c, cs, refl)

module _ (ops : TextOps) (values : Dict String String) where
  abbrev is_said : String → Bool
  is_said c = contains (ops.lower (text_of values)) (ops.lower c)

  Mentions-of_any : (cs : List String) → any is_said cs ≡ true → Mentions ops values cs
  Mentions-of_any [] h = cc
  Mentions-of_any (c ∷ cs) h = elim (Bool-cases (is_said c)) [
    | inl said ↦ inl said
    | inr other ↦ inr (Mentions-of_any cs (ground (arith, other, h)))
  ]

  any_of_Mentions : (cs : List String) → Mentions ops values cs → any is_said cs ≡ true
  any_of_Mentions [] h = absurd h
  any_of_Mentions (c ∷ cs) (inl said) = ground (arith, said)
  any_of_Mentions (c ∷ cs) (inr later) = ground (arith, any_of_Mentions cs later)

  Applies-of_matches :
      (t : Transition) (event : EventType)
      → matches ops t event values ≡ true
      → Applies ops event values t
  unfolding matches
  Applies-of_matches t event h = elim (Bool-cases (same_event t.on event)) [
    | inr other ↦ absurd (cc (rw (other, matches) at h))
    | inl same ↦ elim (List-cases t.when_text_contains) [
      | inl free ↦ (same, rw free tt)
      | inr (c, cs, given) ↦
          (same, rw given (Mentions-of_any (c ∷ cs) (rw (same, given, matches) at h)))
    ]
  ]

  matches_of_Applies :
      (t : Transition) (event : EventType)
      → Applies ops event values t
      → matches ops t event values ≡ true
  unfolding matches
  matches_of_Applies t event (same, says) = elim (List-cases t.when_text_contains) [
    | inl free ↦ rw (same, free, matches) refl
    | inr (c, cs, given) ↦ rw (same, given, matches) (any_of_Mentions (c ∷ cs) (rw given at says))
  ]

module _ (ops : TextOps) (flow : Flow) where
  unmatched :
      (t : Transition) (event : EventType) (values : Dict String String)
      → matches ops t event values ≡ false
      → ¬ Applies ops event values t
  unmatched t event values miss applies = cc (miss, matches_of_Applies ops values t event applies)

  pub first_match-none :
      (s : Session) (event : EventType) (values : Dict String String) (ts : List Transition)
      → first_match ops flow s event values ts ≡ none
      → All (λ t. ¬ Applies ops event values t) ts
  unfolding first_match
  first_match-none s event values [] h = tt
  first_match-none s event values (u ∷ ts) h = elim (Bool-cases (matches ops u event values)) [
    | inl hit ↦ absurd (ground (arith, hit, h))
    | inr miss ↦ (
      unmatched u event values miss,
      first_match-none s event values ts (ground (arith, miss, h)),
    )
  ]

  -- The transition that is found is the first that applies.
  abbrev pub IsFirst : EventType → Dict String String → List Transition → Transition → Type 0
  IsFirst event values ts t =
      (before : List Transition) × (rest : List Transition) × (ts ≡ before ++ (t ∷ rest))
      × All (λ u. ¬ Applies ops event values u) before
      × Applies ops event values t

  pub first_match-IsFirst :
      (s : Session) (event : EventType) (values : Dict String String) (ts : List Transition)
      (t : Transition)
      → first_match ops flow s event values ts ≡ some t
      → IsFirst event values ts t
  unfolding first_match
  first_match-IsFirst s event values [] t h = cc
  first_match-IsFirst s event values (u ∷ ts) t h = elim (Bool-cases (matches ops u event values)) [
    | inl hit ↦
        let e : u ≡ t = ground (arith, hit) in
        (
          [],
          ts,
          ap (λ x. x ∷ ts) e,
          tt,
          subst (λ x. Applies ops event values x) e (Applies-of_matches ops values u event hit),
        )
    | inr miss ↦
        let (before, rest, split, none_before, applies) =
          first_match-IsFirst s event values ts t (ground (arith, miss)) in
        (
          u ∷ before,
          rest,
          ap (λ l. u ∷ l) split,
          (unmatched u event values miss, none_before),
          applies,
        )
  ]
