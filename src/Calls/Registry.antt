-- ===== src/Calls/Registry.antt =====
-- `CallRegistry` of voicebot/calls.py: the calls of this process, over the state store. Of a session
-- only its snapshot is read, and the registry keeps the one with which the session was registered:
-- the code keeps the session itself, whose id and status may change before `replace_id` tells of
-- it, which is not modelled. Stopping a session is a signal to its threads. A call that raises
-- keeps what it wrote before; that it raises is left out of the results. Each call is one step.
pub mod Active
use flowhunt_voicebot.Base.{
  ℕ, String, Bool, true, false, not, Option, none, some, List, [], ◌∷◌, if◌then◌else◌, text_key,
  ◌==◌, Result, ok, err, after,
}
use flowhunt_voicebot.Base.Dict
use flowhunt_voicebot.Base.Dict.{Dict}
use flowhunt_voicebot.Calls.States
use flowhunt_voicebot.Calls.States.{Snapshot, CallState, CallStateStore, upsert}

pub record CallRegistry : Type 0 where
  pub calls : Dict String Snapshot
  pub state_store : CallStateStore

abbrev pub upserted : CallRegistry → Snapshot → ℕ → CallRegistry
upserted r s now = record r { state_store = after r.state_store (upsert r.state_store s now) }

abbrev pub ended : CallRegistry → String → ℕ → CallRegistry
ended r call_id now = record r {
  state_store = after r.state_store (States.end r.state_store call_id now);
}

-- What follows a write of the state store, unless it raises.
abbrev pub then_goes :
    {B : Type 0}
    → CallRegistry
    → Result (B × CallStateStore)
    → (CallRegistry → CallRegistry)
    → CallRegistry
then_goes r (ok (b, s)) rest = rest (record r { state_store = s })
then_goes r (err e) rest = r

unfoldable pub add : CallRegistry → Snapshot → ℕ → CallRegistry
add r s now = upserted (record r { calls = Dict.put r.calls s.call_id s }) s now

unfoldable pub replace_id : CallRegistry → String → Snapshot → ℕ → CallRegistry
replace_id r old_call_id s now =
    let r' = record r { calls = Dict.put (Dict.pop r.calls old_call_id) s.call_id s } in
    if not (old_call_id == s.call_id)
    then then_goes r' (States.end r'.state_store old_call_id now) (λ q. upserted q s now)
    else upserted r' s now

unfoldable pub remove : CallRegistry → String → ℕ → CallRegistry
remove r call_id now = ended (record r { calls = Dict.pop r.calls call_id }) call_id now

unfoldable pub stop : CallRegistry → String → ℕ → Bool × CallRegistry
unfolding remove
stop r call_id now = elim (Dict.get r.calls call_id) [
  | none ↦ (false, r)
  | some s ↦ (true, remove r call_id now)
]

unfoldable pub snapshot : CallRegistry → String → ℕ → Option Snapshot × CallRegistry
snapshot r call_id now = elim (Dict.get r.calls call_id) [
  | none ↦ (none, r)
  | some s ↦ (some s, upserted r s now)
]

-- The loop of `snapshots` over the sessions.
unfoldable pub upsert_all : CallRegistry → List Snapshot → ℕ → CallRegistry
upsert_all r [] now = r
upsert_all r (s ∷ rest) now = then_goes r (upsert r.state_store s now) λ q. upsert_all q rest now

unfoldable pub snapshots : CallRegistry → ℕ → CallRegistry
unfolding upsert_all
snapshots r now = upsert_all r (Dict.values r.calls) now
