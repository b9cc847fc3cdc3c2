-- ===== src/AgentTasks.antt =====
-- voicebot/agent_tasks.py: which agent task events were answered and who holds the others. Clock
-- readings are arguments, in microseconds; event ids are positive. The lock makes each method one
-- step.
pub mod Responded
pub mod Claims
pub mod Persist
use flowhunt_voicebot.Base.{
  ℕ, zero, suc, ◌+◌, ◌-◌, max, String, Bool, true, false, not, ◌&&◌, ◌||◌, Option, none, some, List,
  [], ◌∷◌, ◌++◌, length, ltb, leb, eqb, if◌then◌else◌, nat_key, text_key, ◌==◌, Result, ok,
  raise_if, ◌>>=◌, ◌>>◌,
}
use flowhunt_voicebot.Base.Dict
use flowhunt_voicebot.Base.Dict.{Dict}

pub record TaskClaim : Type 0 where
  pub owner : String
  pub expires_at : ℕ

pub record Tracker : Type 0 where
  pub max_responded_event_ids : ℕ
  pub responded_event_ids : Dict ℕ (Unit {0})
  pub responded_order : List ℕ
  pub floor : ℕ
  pub claimed : Dict ℕ TaskClaim

unfoldable pub new_tracker : ℕ → Result Tracker
new_tracker limit = do
  raise_if (ltb limit 1) "max_responded_event_ids must be at least 1"
  ok (record {
    max_responded_event_ids = limit;
    responded_event_ids = [];
    responded_order = [];
    floor = 0;
    claimed = [];
  })

-- The ids that `_expire_claims_locked` collects, and their removal one by one.
unfoldable pub expired_ids : ℕ → Dict ℕ TaskClaim → List ℕ
expired_ids now [] = []
expired_ids now ((id, c) ∷ d) =
    let rest = expired_ids now d in if leb c.expires_at now then id ∷ rest else rest

unfoldable pub pop_all : List ℕ → Dict ℕ TaskClaim → Dict ℕ TaskClaim
pop_all [] d = d
pop_all (id ∷ ids) d = pop_all ids (Dict.pop d id)

-- `_expire_claims_locked`
unfoldable pub expire_claims : ℕ → Tracker → Tracker
unfolding expired_ids pop_all
expire_claims now t = record t { claimed = pop_all (expired_ids now t.claimed) t.claimed }

-- `_prune_responded_locked`, over the order that is left.
unfoldable pub prune_from : List ℕ → Tracker → Tracker
prune_from [] t = record t { responded_order = [] }
prune_from (id ∷ order) t = elim (ltb t.max_responded_event_ids (suc (length order))) [
  | false ↦ record t { responded_order = id ∷ order }
  | true ↦
      prune_from order (record t {
        responded_event_ids = Dict.pop t.responded_event_ids id;
        floor = max t.floor id;
      })
]

unfoldable pub prune : Tracker → Tracker
unfolding prune_from
prune t = prune_from t.responded_order t

-- A new id in the set and at the end of the order.
abbrev pub note_responded : Tracker → ℕ → Tracker
note_responded t id = record t {
  responded_event_ids = Dict.put t.responded_event_ids id tt;
  responded_order = t.responded_order ++ (id ∷ []);
}

unfoldable pub drop_claim : Tracker → ℕ → Tracker
drop_claim t id = record t { claimed = Dict.pop t.claimed id }

unfoldable pub mark_responded : Tracker → Option ℕ → Tracker
unfolding prune drop_claim
mark_responded t none = t
mark_responded t (some id) =
    if Dict.has t.responded_event_ids id
    then drop_claim t id
    else drop_claim (prune (note_responded t id)) id

-- `event_id <= floor or event_id in responded or event_id in claimed`
unfoldable pub is_taken : Tracker → ℕ → Bool
is_taken t id = leb id t.floor || Dict.has t.responded_event_ids id || Dict.has t.claimed id

-- `now or time.monotonic()`: a given 0.0 counts as not given.
abbrev pub or_clock : Option ℕ → ℕ → ℕ
or_clock none clock = clock
or_clock (some now) clock = if eqb now 0 then clock else now

unfoldable pub is_pending : Tracker → ℕ → Option ℕ → ℕ → Bool × Tracker
unfolding expire_claims is_taken
is_pending t id now clock =
    let t' = expire_claims (or_clock now clock) t in (not (is_taken t' id), t')

-- 0.1 seconds
abbrev pub min_ttl : ℕ
min_ttl = 100000

unfoldable pub claim_loop : List ℕ → String → ℕ → Tracker → List ℕ × Tracker
unfolding is_taken
claim_loop [] owner until t = ([], t)
claim_loop (id ∷ ids) owner until t = elim (is_taken t id) [
  | true ↦ claim_loop ids owner until t
  | false ↦
      let c : TaskClaim = record { owner = owner; expires_at = until } in
      let (more, t') =
        claim_loop ids owner until (record t { claimed = Dict.put t.claimed id c }) in
      (id ∷ more, t')
]

unfoldable pub claim : Tracker → List ℕ → String → ℕ → ℕ → List ℕ × Tracker
unfolding claim_loop expire_claims
claim t ids owner ttl now = claim_loop ids owner (now + max ttl min_ttl) (expire_claims now t)

unfoldable pub release : Tracker → Option ℕ → Tracker
unfolding drop_claim
release t none = t
release t (some id) = drop_claim t id

-- `claim is not None and (owner is None or claim[0] == owner)`
abbrev pub is_held_by : Option String → Option TaskClaim → Bool
is_held_by owner none = false
is_held_by none (some c) = true
is_held_by (some owner) (some c) = c.owner == owner

unfoldable pub release_many : Tracker → List ℕ → Option String → List ℕ × Tracker
unfolding drop_claim
release_many t [] owner = ([], t)
release_many t (id ∷ ids) owner = elim (is_held_by owner (Dict.get t.claimed id)) [
  | false ↦ release_many t ids owner
  | true ↦ let (more, t') = release_many (drop_claim t id) ids owner in (id ∷ more, t')
]

unfoldable pub renew_loop : List ℕ → String → ℕ → Tracker → List ℕ × Tracker
renew_loop [] owner until t = ([], t)
renew_loop (id ∷ ids) owner until t = elim (is_held_by (some owner) (Dict.get t.claimed id)) [
  | false ↦ renew_loop ids owner until t
  | true ↦
      let c : TaskClaim = record { owner = owner; expires_at = until } in
      let (more, t') =
        renew_loop ids owner until (record t { claimed = Dict.put t.claimed id c }) in
      (id ∷ more, t')
]

unfoldable pub renew_many : Tracker → List ℕ → String → ℕ → ℕ → List ℕ × Tracker
unfolding renew_loop expire_claims
renew_many t ids owner ttl now = renew_loop ids owner (now + max ttl min_ttl) (expire_claims now t)

pub data TaskState : Type 0 where
  claimed_by : String → ℕ → TaskState
  responded pending inactive : TaskState

unfoldable pub task_state : Tracker → ℕ → Bool → Option ℕ → ℕ → TaskState × Tracker
unfolding expire_claims
task_state t id active now clock =
    let current = or_clock now clock in
    let t' = expire_claims current t in
    (
      elim (Dict.get t'.claimed id) [
        | some c ↦ claimed_by c.owner (c.expires_at - current)
        | none ↦
            if leb id t'.floor || Dict.has t'.responded_event_ids id
            then responded
            else if active
            then pending
            else inactive
      ],
      t',
    )
