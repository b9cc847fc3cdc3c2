-- ===== src/Calls/States.antt =====
-- `CallStateStore` of voicebot/call_state.py: the last snapshot of each call, also of ended ones.
-- The values of a snapshot are texts; a missing call id is the empty text.
pub mod Active
use flowhunt_voicebot.Base.{
  ℕ, String, Bool, true, false, not, ◌||◌, Option, none, some, List, [], ◌∷◌, keep, if◌then◌else◌,
  text_key, strip, is_blank, Result, ok, raise_if, ◌>>◌,
}
use flowhunt_voicebot.Base.Dict
use flowhunt_voicebot.Base.Dict.{Dict}
use flowhunt_voicebot.Base.Sorting.{text_lt, sorted}

pub record Snapshot : Type 0 where
  pub call_id : String
  pub values : Dict String String

pub record CallState : Type 0 where
  pub call_id : String
  pub values : Dict String String
  pub is_ended : Bool  -- `state`, "active" or "ended"
  pub ended_at : Option ℕ
  pub updated_at : ℕ

abbrev pub CallStateStore : Type 0
CallStateStore = Dict String CallState

unfoldable pub upsert : CallStateStore → Snapshot → ℕ → Result (CallState × CallStateStore)
upsert s snapshot now =
    let call_id = strip snapshot.call_id in
    let state : CallState = record {
      call_id = call_id;
      values = snapshot.values;
      is_ended = false;
      ended_at = none;
      updated_at = now;
    } in
    do
      raise_if (is_blank snapshot.call_id) "call_id is required"
      ok (state, Dict.put s call_id state)

unfoldable pub end : CallStateStore → String → ℕ → Result (Option CallState × CallStateStore)
end s call_id now =
    let id = strip call_id in
    do
      raise_if (is_blank call_id) "call_id is required"
      elim (Dict.get s id) [
        | none ↦ ok (none, s)
        | some state ↦
            let ended = record state { is_ended = true; ended_at = some now; updated_at = now } in
            ok (some ended, Dict.put s id ended)
      ]

-- `list`
unfoldable pub states : CallStateStore → Bool → List CallState
states s active_only =
    sorted (λ (a b : CallState). text_lt a.call_id b.call_id)
      (keep (λ (c : CallState). not active_only || not c.is_ended) (Dict.values s))

-- `_load`, over the states that were saved, `none` where one has no call id, with the ids seen.
unfoldable pub load_states :
    List (Option CallState) → Dict String (Unit {0}) → CallStateStore → CallStateStore
load_states [] seen s = s
load_states (none ∷ rest) seen s = load_states rest seen s
load_states (some c ∷ rest) seen s =
    let is_new = not (Dict.has seen c.call_id) in
    load_states rest (if is_new then Dict.put seen c.call_id tt else seen)
      (if is_new then Dict.put s c.call_id c else s)
