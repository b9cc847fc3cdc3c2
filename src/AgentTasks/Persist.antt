-- ===== src/AgentTasks/Persist.antt =====
-- `JsonAgentTaskTracker`: the tracker saved and read back. JSON text, the file and the decimal
-- spelling of the event ids are left out: the payload is the record that they carry. Deadlines
-- are saved on the wall clock and read back on the monotonic clock of the new process.
use flowhunt_voicebot.Base.{
  ℕ, suc, ◌+◌, ◌-◌, ◌≤◌, max, ◌≡◌, refl, sym, ap, ◌∙◌, String, Bool, true, not, ◌||◌, inl, inr,
  Option, none, some, List, [], ◌∷◌, length, take, take_nil, drop, drop_nil, any, eqb, leb→le,
  ltb-false→le, nat_key, text_key, if◌then◌else◌, Bool-cases, eqb_iff, arith, ltb, leb, ltb→lt,
}
use flowhunt_voicebot.Base.Dict
use flowhunt_voicebot.Base.Dict.{Dict}
use flowhunt_voicebot.AgentTasks.Claims.{IsUnique, swept, get-expire_claims, expire_claims-IsUnique}
use flowhunt_voicebot.AgentTasks.Responded.{IsDone, prune_from-IsDone}
use flowhunt_voicebot.AgentTasks.{Tracker, TaskClaim, expire_claims, prune_from, prune}

pub record SavedClaim : Type 0 where
  pub owner : String
  pub expires_at : ℕ  -- wall clock

pub record Payload : Type 0 where
  pub responded_event_ids : List ℕ
  pub responded_event_id_floor : ℕ
  pub claims : Dict ℕ SavedClaim

unfoldable pub save_claims : ℕ → ℕ → Dict ℕ TaskClaim → Dict ℕ SavedClaim
save_claims wall mono [] = []
save_claims wall mono ((id, c) ∷ d) =
    (id, record { owner = c.owner; expires_at = wall + (c.expires_at - mono) })
    ∷ save_claims wall mono d

-- `_save`, which sweeps the claims first.
unfoldable pub save : ℕ → ℕ → Tracker → Payload × Tracker
unfolding save_claims expire_claims
save wall mono t =
    let t' = expire_claims mono t in
    (
      record {
        responded_event_ids = t'.responded_order;
        responded_event_id_floor = t'.floor;
        claims = save_claims wall mono t'.claimed;
      },
      t',
    )

-- `set(responded)`
unfoldable pub as_set : List ℕ → Dict ℕ (Unit {0})
as_set [] = []
as_set (id ∷ ids) = Dict.put (as_set ids) id tt

unfoldable pub load_claims : ℕ → ℕ → Dict ℕ SavedClaim → Dict ℕ TaskClaim → Dict ℕ TaskClaim
load_claims wall mono [] d = d
load_claims wall mono ((id, c) ∷ saved) d =
    let read : TaskClaim = record { owner = c.owner; expires_at = mono + (c.expires_at - wall) } in
    load_claims wall mono saved (if leb c.expires_at wall then d else Dict.put d id read)

-- `_load` into a tracker with the given limit.
unfoldable pub load : ℕ → ℕ → ℕ → Payload → Tracker
unfolding as_set load_claims prune
load limit wall mono p =
    let t = prune (record {
      max_responded_event_ids = limit;
      responded_event_ids = as_set p.responded_event_ids;
      responded_order = p.responded_event_ids;
      floor = p.responded_event_id_floor;
      claimed = [];
    }) in
    record t { claimed = load_claims wall mono p.claims [] }

-- A claim as the file carries it, and as the next process reads it.
abbrev saved_as : ℕ → ℕ → Option TaskClaim → Option SavedClaim
saved_as wall mono none = none
saved_as wall mono (some c) =
    some (record { owner = c.owner; expires_at = wall + (c.expires_at - mono) })

abbrev read_as : ℕ → ℕ → Option SavedClaim → Option TaskClaim → Option TaskClaim
read_as wall mono none old = old
read_as wall mono (some c) old =
    if leb c.expires_at wall
    then old
    else some (record { owner = c.owner; expires_at = mono + (c.expires_at - wall) })

get-save_claims :
    (wall mono : ℕ) (d : Dict ℕ TaskClaim) (id : ℕ)
    → Dict.get (save_claims wall mono d) id ≡ saved_as wall mono (Dict.get d id)
unfolding save_claims Dict.get
get-save_claims wall mono [] id = refl
get-save_claims wall mono ((j, c) ∷ d) id = ground (arith, get-save_claims wall mono d id)

occurs-save_claims :
    (wall mono : ℕ) (d : Dict ℕ TaskClaim) (id : ℕ)
    → Dict.occurs (save_claims wall mono d) id ≡ Dict.occurs d id
unfolding save_claims Dict.occurs
occurs-save_claims wall mono [] id = refl
occurs-save_claims wall mono ((j, c) ∷ d) id = ground (arith, occurs-save_claims wall mono d id)

get-load_claims :
    (wall mono : ℕ) (saved : Dict ℕ SavedClaim) (d : Dict ℕ TaskClaim) (id : ℕ)
    → Dict.occurs saved id ≤ 1
    → Dict.get (load_claims wall mono saved d) id
      ≡ read_as wall mono (Dict.get saved id) (Dict.get d id)
unfolding load_claims Dict.occurs Dict.get
get-load_claims wall mono [] d id h = refl
get-load_claims wall mono ((j, c) ∷ saved) d id h =
    let read : TaskClaim = record { owner = c.owner; expires_at = mono + (c.expires_at - wall) } in
    let d' = if leb c.expires_at wall then d else Dict.put d j read in
    ground (
      arith,
      get-load_claims wall mono saved d' id,
      Dict.get-put d j id read,
      Dict.get-none_of_occurs saved id,
      eqb_iff j id,
    )

-- The claim that a restart should leave: `gone` later on the wall clock, the same owner holds it
-- for what is left of its time, if any is left.
abbrev pub carried : ℕ → ℕ → ℕ → Option TaskClaim → Option TaskClaim
carried mono mono' gone none = none
carried mono mono' gone (some c) =
    if leb c.expires_at (mono + gone)
    then none
    else some (record { owner = c.owner; expires_at = mono' + (c.expires_at - (mono + gone)) })

round_trip :
    (wall mono mono' gone : ℕ) (o : Option TaskClaim)
    → read_as (wall + gone) mono' (saved_as wall mono (swept mono o)) none
      ≡ carried mono mono' gone o
round_trip wall mono mono' gone none = refl
round_trip wall mono mono' gone (some c) = ground arith

has-as_set : (ids : List ℕ) (id : ℕ) → Dict.has (as_set ids) id ≡ any (λ i. eqb i id) ids
unfolding as_set Dict.has Dict.get
has-as_set [] id = refl
has-as_set (e ∷ ids) id = ground (arith, has-as_set ids id, Dict.has-put (as_set ids) e id tt)

prune_from-order :
    (order : List ℕ) (t : Tracker)
    → (prune_from order t).responded_order ≡ drop (length order - t.max_responded_event_ids) order
unfolding prune_from
prune_from-order [] t = sym (drop_nil {A = ℕ} (0 - t.max_responded_event_ids))
prune_from-order (e ∷ order) t =
    elim (Bool-cases (ltb t.max_responded_event_ids (suc (length order)))) [
      | inr fits ↦
          rw (fits, prune_from)
            (ap (λ n. drop n (e ∷ order)) {x = 0} (omega (arith, ltb-false→le _ _ fits)))
      | inl over ↦
          rw (over, prune_from)
            (prune_from-order order _
              ∙ ap (λ n. drop n (e ∷ order)) {x = suc (length order - t.max_responded_event_ids)}
                  (omega (arith, ltb→lt _ _ over)))
    ]

-- The highest of some ids and a floor.
abbrev pub highest : ℕ → List ℕ → ℕ
highest floor [] = floor
highest floor (id ∷ ids) = highest (max floor id) ids

prune_from-floor :
    (order : List ℕ) (t : Tracker)
    → (prune_from order t).floor
      ≡ highest t.floor (take (length order - t.max_responded_event_ids) order)
unfolding prune_from
prune_from-floor [] t =
    ap (highest t.floor) (sym (take_nil {A = ℕ} (0 - t.max_responded_event_ids)))
prune_from-floor (e ∷ order) t =
    elim (Bool-cases (ltb t.max_responded_event_ids (suc (length order)))) [
      | inr fits ↦
          rw (fits, prune_from)
            (ap (λ n. highest t.floor (take n (e ∷ order))) {x = 0}
              (omega (arith, ltb-false→le _ _ fits)))
      | inl over ↦
          rw (over, prune_from)
            (prune_from-floor order _
              ∙ ap (λ n. highest t.floor (take n (e ∷ order)))
                  {x = suc (length order - t.max_responded_event_ids)}
                  (omega (arith, ltb→lt _ _ over)))
    ]

-- Every id in the set of answered events is in the order of answered events.
abbrev pub IsOrdered : Tracker → Type 0
IsOrdered t =
    (id : ℕ)
    → Dict.has t.responded_event_ids id ≡ true
    → any (λ i. eqb i id) t.responded_order ≡ true

-- Answered, as the tracker decides it: at or below the floor, or in the set.
abbrev pub is_answered : Tracker → ℕ → Bool
is_answered t id = leb id t.floor || Dict.has t.responded_event_ids id

IsDone-of_answered : (t : Tracker) (id : ℕ) → is_answered t id ≡ true → IsDone id t
IsDone-of_answered t id h = elim (Bool-cases (leb id t.floor)) [
  | inl below ↦ inl (leb→le _ _ below)
  | inr above ↦ inr (ground (arith, above, h))
]

answered_of_IsDone : (t : Tracker) (id : ℕ) → IsDone id t → is_answered t id ≡ true
answered_of_IsDone t id h = ground (arith, h)

-- The answered ids as the file brings them, before they are pruned.
abbrev reread : Tracker → ℕ → Tracker
reread t limit = record {
  max_responded_event_ids = limit;
  responded_event_ids = as_set t.responded_order;
  responded_order = t.responded_order;
  floor = t.floor;
  claimed = [];
}

still_answered :
    (t : Tracker) (limit id : ℕ)
    → IsOrdered t
    → not (is_answered t id) || is_answered (prune (reread t limit)) id ≡ true
unfolding prune
still_answered t limit id ordered = elim (Bool-cases (is_answered t id)) [
  | inr other ↦ rw other refl
  | inl answered ↦
      let before : IsDone id (reread t limit) = elim (IsDone-of_answered t id answered) [
        | inl below ↦ inl below
        | inr there ↦ inr (has-as_set t.responded_order id ∙ ordered id there)
      ] in
      let after =
        answered_of_IsDone (prune_from t.responded_order (reread t limit)) id
          (prune_from-IsDone t.responded_order (reread t limit) id before) in
      ground (arith, answered, after)
]

-- A tracker saved at one instant and loaded `gone` later, in a process with any limit and whose
-- monotonic clock reads `mono'`. Each claim is back with its owner and the rest of its time, or is
-- gone if that time has passed. The order of answered ids is back, without the oldest ids where it
-- is longer than the limit, and the floor is back, raised to the highest id left out of the order.
-- So every event that was answered is answered. Conditions: each claim stands once, and the order
-- has every id of the set.
pub load-save :
    (t : Tracker) (limit wall mono mono' gone id : ℕ)
    → IsUnique t
    → IsOrdered t
    → let t' = load limit (wall + gone) mono' (save wall mono t).0 in
      let left_out = length t.responded_order - limit in
      (Dict.get t'.claimed id ≡ carried mono mono' gone (Dict.get t.claimed id))
      × (t'.responded_order ≡ drop left_out t.responded_order)
      × (t'.floor ≡ highest t.floor (take left_out t.responded_order))
      × (not (is_answered t id) || is_answered t' id ≡ true)
unfolding load save Dict.get prune
load-save t limit wall mono mono' gone id u ordered =
    let t' = expire_claims mono t in
    let file = save_claims wall mono t'.claimed in
    let once : Dict.occurs file id ≤ 1 =
      omega
        (arith, occurs-save_claims wall mono t'.claimed id, expire_claims-IsUnique mono t u id) in
    (
      get-load_claims (wall + gone) mono' file [] id once
          ∙ rw (get-save_claims wall mono t'.claimed id) (
              rw (get-expire_claims mono t id u)
                (round_trip wall mono mono' gone (Dict.get t.claimed id))),
      prune_from-order t.responded_order (reread t limit),
      prune_from-floor t.responded_order (reread t limit),
      still_answered t limit id ordered,
    )
