-- ===== src/Conversation/Stores.antt =====
-- `ConversationFlowStore` and `ConversationSessionStateStore`.
use flowhunt_voicebot.Base.{
  ◌≡◌, ◌≢◌, String, Bool, true, false, not, ap, ◌∙◌, refl, All, Bool-cases, inl, inr, if◌then◌else◌,
  ◌&&◌, ◌||◌, Option, none, some, List, [], ◌∷◌, keep, map, is_some, or_default, Key, text_key,
  option_key, pair_key, same_option, same_option_iff, beq_refl, ◌==◌, eq_iff, arith, Result, ok,
  raise_if, after, ◌>>◌,
}
use flowhunt_voicebot.Base.Dict
use flowhunt_voicebot.Base.Dict.{Dict}
use flowhunt_voicebot.Base.Sorting.{text_lt, sorted, insert_sorted}
use flowhunt_voicebot.Conversation.{Flow, validate}
use flowhunt_voicebot.Conversation.Engine.{Session}

-- `(workspace_id, voicebot_id, flow_id)`
abbrev pub FlowKey : Type 0
FlowKey = String × (Option String × String)

instance abbrev pub flow_key : Key FlowKey
flow_key = pair_key ⦃b = pair_key⦄

abbrev pub FlowStore : Type 0
FlowStore = Dict FlowKey Flow

unfoldable pub save : FlowStore → Flow → Result (Flow × FlowStore)
save s flow = do
  raise_if (or_default flow.workspace_id "" == "")
      "Conversation flow definitions must be workspace-scoped"
  validate flow
  ok (flow, Dict.put s (or_default flow.workspace_id "", (flow.voicebot_id, flow.flow_id)) flow)

unfoldable pub find_flow : FlowStore → String → Option String → String → Option Flow
find_flow s workspace_id voicebot_id flow_id = Dict.get s (workspace_id, (voicebot_id, flow_id))

-- The order of the keys `(workspace_id, voicebot_id or "", flow_id)`.
abbrev pub key_lt : FlowKey × Flow → FlowKey × Flow → Bool
key_lt ((w, (v, f)), x) ((w', (v', f')), x') =
    text_lt w w'
    || (w == w'
        && (text_lt (or_default v "") (or_default v' "")
            || (or_default v "" == or_default v' "" && text_lt f f')))

abbrev pub is_listed : String → Option String → FlowKey × Flow → Bool
is_listed workspace_id none ((w, (v, f)), flow) = w == workspace_id
is_listed workspace_id (some voicebot_id) ((w, (v, f)), flow) =
    w == workspace_id && same_option v (some voicebot_id)

-- `list`
unfoldable pub flows : FlowStore → String → Option String → List Flow
flows s workspace_id voicebot_id =
    map (λ (e : FlowKey × Flow). e.1) (keep (is_listed workspace_id voicebot_id) (sorted key_lt s))

abbrev pub first_of {ℓ} : {A : Type ℓ} → List A → Option A
first_of [] = none
first_of (x ∷ xs) = some x

unfoldable pub default_for_voicebot : FlowStore → String → String → Option Flow
unfolding flows
default_for_voicebot s workspace_id voicebot_id = elim (flows s workspace_id (some voicebot_id)) [
  | flow ∷ rest ↦ some flow
  | [] ↦ first_of (flows s workspace_id none)
]

-- None of the flows of a store is one of this workspace.
abbrev pub IsElsewhere : String → FlowStore → Type 0
IsElsewhere workspace s = All (λ e. (e.0.0 == workspace) ≡ false) s

module _ (listed : FlowKey × Flow → Bool) where
  keep-insert_miss :
      (e : FlowKey × Flow) (l : List (FlowKey × Flow))
      → listed e ≡ false
      → keep listed (insert_sorted key_lt e l) ≡ keep listed l
  unfolding insert_sorted
  keep-insert_miss e [] miss = rw miss refl
  keep-insert_miss e (x ∷ l) miss = elim (Bool-cases (key_lt x e)) [
    | inl later ↦
        rw (later, insert_sorted)
          (ap (λ k. if listed x then x ∷ k else k) (keep-insert_miss e l miss))
    | inr first ↦ rw (first, insert_sorted) (rw miss refl)
  ]

  keep-insert_hit :
      (e : FlowKey × Flow) (l : List (FlowKey × Flow))
      → listed e ≡ true
      → keep listed l ≡ []
      → keep listed (insert_sorted key_lt e l) ≡ e ∷ []
  unfolding insert_sorted
  keep-insert_hit e [] hit none_yet = rw hit refl
  keep-insert_hit e (x ∷ l) hit none_yet = elim (Bool-cases (key_lt x e)) [
    | inl later ↦
        rw (later, insert_sorted)
          (elim (Bool-cases (listed x)) [
            | inl there ↦ absurd (ground (arith, none_yet, there))
            | inr not_there ↦ rw not_there (keep-insert_hit e l hit (rw not_there at none_yet))
          ])
    | inr first ↦ rw (first, insert_sorted) (rw hit (ap (λ k. e ∷ k) none_yet))
  ]

  keep-sorted_none :
      (l : List (FlowKey × Flow))
      → All (λ e. listed e ≡ false) l
      → keep listed (sorted key_lt l) ≡ []
  unfolding sorted
  keep-sorted_none [] h = refl
  keep-sorted_none (x ∷ l) h = keep-insert_miss x (sorted key_lt l) h.0 ∙ keep-sorted_none l h.1

  -- The only entry that is listed is the one that was put into the store.
  keep-sorted-put :
      (s : FlowStore) (k : FlowKey) (flow : Flow)
      → All (λ e. (listed e ≡ false) × ((e.0 == k) ≡ false)) s
      → listed (k, flow) ≡ true
      → keep listed (sorted key_lt (Dict.put s k flow)) ≡ (k, flow) ∷ []
  unfolding sorted Dict.put
  keep-sorted-put [] k flow h hit = keep-insert_hit (k, flow) [] hit refl
  keep-sorted-put (e ∷ s) k flow h hit =
      rw (h.0.1, Dict.put)
        (keep-insert_miss e (sorted key_lt (Dict.put s k flow)) h.0.0
          ∙ keep-sorted-put s k flow h.1 hit)

elsewhere-unlisted :
    (workspace : String) (o : Option String) (e : FlowKey × Flow)
    → (e.0.0 == workspace) ≡ false
    → is_listed workspace o e ≡ false
elsewhere-unlisted workspace none e h = h
elsewhere-unlisted workspace (some v) e h = rw h refl

module _ (s : FlowStore) (workspace : String) (k : Option String × String) (flow : Flow)
    (elsewhere : IsElsewhere workspace s) where
  -- A flow written under its workspace is the only one of the workspace that is listed.
  flows-put_alone : flows (Dict.put s (workspace, k) flow) workspace none ≡ flow ∷ []
  unfolding flows
  flows-put_alone = ap (map (λ (e : FlowKey × Flow). e.1)) (
      keep-sorted-put (is_listed workspace none) s (workspace, k) flow (All-both-false s elsewhere)
        (beq_refl workspace))
    where
      All-both-false :
          (d : FlowStore)
          → IsElsewhere workspace d
          → All (λ e. (is_listed workspace none e ≡ false) × ((e.0 == (workspace, k)) ≡ false)) d
      All-both-false [] h = tt
      All-both-false (e ∷ d) h = ((h.0, rw h.0 refl), All-both-false d h.1)

  -- It is not listed for another voicebot.
  flows-put_other :
      (owner other : String)
      → k.0 ≡ some owner
      → owner ≢ other
      → flows (Dict.put s (workspace, k) flow) workspace (some other) ≡ []
  unfolding flows
  flows-put_other owner other theirs differ = ap (map (λ (e : FlowKey × Flow). e.1)) (
      keep-sorted_none (is_listed workspace (some other)) (Dict.put s (workspace, k) flow) (
        Dict.All-put (λ e. is_listed workspace (some other) e ≡ false) s (workspace, k) flow
          (λ j same.
            rw same (
              ground (arith, theirs, differ, same_option_iff k.0 (some other), eq_iff owner other)))
          (All-unlisted s elsewhere)))
    where
      All-unlisted :
          (d : FlowStore)
          → IsElsewhere workspace d
          → All (λ e. is_listed workspace (some other) e ≡ false) d
      All-unlisted [] h = tt
      All-unlisted (e ∷ d) h = (elsewhere-unlisted workspace (some other) e h.0, All-unlisted d h.1)

after-save :
    (s : FlowStore) (flow : Flow) (workspace : String)
    → flow.workspace_id ≡ some workspace
    → workspace ≢ ""
    → validate flow ≡ ok tt
    → after s (save s flow) ≡ Dict.put s (workspace, (flow.voicebot_id, flow.flow_id)) flow
unfolding save
after-save s flow workspace scoped named valid = ground (arith, eq_iff workspace "")

-- While the only flow of a workspace is one of another voicebot, that voicebot's flow is the
-- default of every other voicebot of the workspace: the fallback lists the flows of all voicebots,
-- not those of the workspace alone. The store may hold flows of any other workspaces.
pub default_for_voicebot-save :
    (s : FlowStore) (flow : Flow) (workspace owner other : String)
    → IsElsewhere workspace s
    → flow.workspace_id ≡ some workspace
    → workspace ≢ ""
    → flow.voicebot_id ≡ some owner
    → owner ≢ other
    → validate flow ≡ ok tt
    → default_for_voicebot (after s (save s flow)) workspace other ≡ some flow
unfolding default_for_voicebot
default_for_voicebot-save s flow workspace owner other elsewhere scoped named theirs differ valid =
    let k : Option String × String = (flow.voicebot_id, flow.flow_id) in
    let alone = flows-put_alone s workspace k flow elsewhere in
    let hidden = flows-put_other s workspace k flow elsewhere owner other theirs differ in
    ap (λ d. default_for_voicebot d workspace other)
      (after-save s flow workspace scoped named valid)
    ∙ rw (hidden, default_for_voicebot) (ap first_of alone)

abbrev pub SessionStore : Type 0
SessionStore = Dict String Session

abbrev pub moved : (Session → Session → Bool) → Option Session → Session → Bool
moved same none s = false
moved same (some old) s = not (same old s)

unfoldable pub save_session : SessionStore → Session → Result (Session × SessionStore)
save_session store s =
    let existing = Dict.get store s.call_id in
    do
      raise_if (moved (λ old new. same_option old.workspace_id new.workspace_id) existing s)
          "cannot move conversation session across workspaces"
      raise_if (moved (λ old new. same_option old.voicebot_id new.voicebot_id) existing s)
          "cannot move conversation session across voicebots"
      raise_if (moved (λ old new. old.flow_id == new.flow_id) existing s)
          "cannot move conversation session across flows"
      ok (s, Dict.put store s.call_id s)

unfoldable pub delete_session : SessionStore → String → Bool × SessionStore
delete_session store call_id = (is_some (Dict.get store call_id), Dict.pop store call_id)

abbrev pub scope : Option Session → Option (Option String × Option String × String)
scope none = none
scope (some s) = some (s.workspace_id, s.voicebot_id, s.flow_id)

-- A session that is saved stays in its workspace, with its voicebot and its flow, whatever is
-- saved afterwards, and a save under another call id does not touch it.
save_session-scope :
    (store : SessionStore) (s old : Session) (call_id : String)
    → Dict.get store call_id ≡ some old
    → scope (Dict.get (after store (save_session store s)) call_id) ≡ scope (some old)
unfolding save_session
save_session-scope store s old call_id there = ground (
  arith,
  Dict.get-put store s.call_id call_id s,
  eq_iff s.call_id call_id,
  same_option_iff old.workspace_id s.workspace_id,
  same_option_iff old.voicebot_id s.voicebot_id,
  eq_iff old.flow_id s.flow_id,
)
