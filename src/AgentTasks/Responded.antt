-- ===== src/AgentTasks/Responded.antt =====
-- An answered task event stays answered, and the memory of answered events stays bounded.
use flowhunt_voicebot.Base.{
  ℕ, suc, ◌+◌, ◌≤◌, max, ◌≡◌, refl, ap, String, true, false, ◌⊎◌, inl, inr, Option, none, some,
  List, [], ◌∷◌, ◌++◌, length, nat_key, text_key, Bool-cases, eqb_iff, arith, ltb, ltb-false→le,
}
use flowhunt_voicebot.Base.Dict
use flowhunt_voicebot.Base.Dict.{Dict}
use flowhunt_voicebot.AgentTasks.{
  Tracker, expire_claims, prune_from, note_responded, drop_claim, mark_responded, is_taken,
  is_pending, min_ttl, claim_loop, claim, release, is_held_by, release_many, renew_loop, renew_many,
}

-- Answered: at or below the floor, or in the set.
abbrev pub IsDone : ℕ → Tracker → Type 0
IsDone id t = (id ≤ t.floor) ⊎ (Dict.has t.responded_event_ids id ≡ true)

pub prune_from-IsDone :
    (order : List ℕ) (t : Tracker) (id : ℕ) → IsDone id t → IsDone id (prune_from order t)
unfolding prune_from
prune_from-IsDone [] t id h = h
prune_from-IsDone (e ∷ order) t id h =
    elim (Bool-cases (ltb t.max_responded_event_ids (suc (length order)))) [
      | inr fits ↦ rw (fits, prune_from) h
      | inl over ↦
          rw (over, prune_from)
            (prune_from-IsDone order _ id
              (ground (arith, Dict.has-pop t.responded_event_ids e id, eqb_iff e id)))
    ]

prune_from_bounded :
    (order : List ℕ) (t : Tracker)
    → length (prune_from order t).responded_order ≤ t.max_responded_event_ids
unfolding prune_from
prune_from_bounded [] t = omega arith
prune_from_bounded (e ∷ order) t =
    elim (Bool-cases (ltb t.max_responded_event_ids (suc (length order)))) [
      | inr fits ↦ rw (fits, prune_from) (ltb-false→le _ _ fits)
      | inl over ↦ rw (over, prune_from) (prune_from_bounded order _)
    ]

prune_from-limit :
    (order : List ℕ) (t : Tracker)
    → (prune_from order t).max_responded_event_ids ≡ t.max_responded_event_ids
unfolding prune_from
prune_from-limit [] t = refl
prune_from-limit (e ∷ order) t =
    elim (Bool-cases (ltb t.max_responded_event_ids (suc (length order)))) [
      | inr fits ↦ rw (fits, prune_from) refl
      | inl over ↦ rw (over, prune_from) (prune_from-limit order _)
    ]

mark_responded-IsDone :
    (t : Tracker) (e : Option ℕ) (id : ℕ) → IsDone id t → IsDone id (mark_responded t e)
unfolding mark_responded
mark_responded-IsDone t none id h = h
mark_responded-IsDone t (some e) id h = ground (
  arith,
  prune_from-IsDone (t.responded_order ++ (e ∷ [])) (note_responded t e) id,
  Dict.has-put t.responded_event_ids e id tt,
)

mark_responded_self : (t : Tracker) (id : ℕ) → IsDone id (mark_responded t (some id))
unfolding mark_responded
mark_responded_self t id = ground (
  arith,
  prune_from-IsDone (t.responded_order ++ (id ∷ [])) (note_responded t id) id,
  Dict.has-put t.responded_event_ids id id tt,
  eqb_iff id id,
)

-- What the calls on a tracker are, and what each leaves. A call of the tracker's time is `clock`.
pub data Call : Type 0 where
  marks : Option ℕ → Call
  asks : ℕ → Option ℕ → ℕ → Call
  claims : List ℕ → String → ℕ → ℕ → Call
  releases : Option ℕ → Call
  releases_many : List ℕ → Option String → Call
  renews_many : List ℕ → String → ℕ → ℕ → Call

unfoldable pub step : Tracker → Call → Tracker
step t (marks id) = mark_responded t id
step t (asks id now clock) = (is_pending t id now clock).1
step t (claims ids owner ttl now) = (claim t ids owner ttl now).1
step t (releases id) = release t id
step t (releases_many ids owner) = (release_many t ids owner).1
step t (renews_many ids owner ttl now) = (renew_many t ids owner ttl now).1

unfoldable pub run : Tracker → List Call → Tracker
unfolding step
run t [] = t
run t (c ∷ cs) = run (step t c) cs

-- The answered part of a tracker, which only `mark_responded` writes.
abbrev SameAnswers : Tracker → Tracker → Type 0
SameAnswers a b =
    (b.floor ≡ a.floor)
    × (b.responded_event_ids ≡ a.responded_event_ids)
    × (b.responded_order ≡ a.responded_order)
    × (b.max_responded_event_ids ≡ a.max_responded_event_ids)

claim_loop-SameAnswers :
    (ids : List ℕ) (owner : String) (until : ℕ) (t : Tracker)
    → SameAnswers t (claim_loop ids owner until t).1
unfolding claim_loop
claim_loop-SameAnswers [] owner until t = (refl, refl, refl, refl)
claim_loop-SameAnswers (id ∷ ids) owner until t = elim (Bool-cases (is_taken t id)) [
  | inl taken ↦ rw (taken, claim_loop) (claim_loop-SameAnswers ids owner until t)
  | inr free ↦ rw (free, claim_loop) (claim_loop-SameAnswers ids owner until _)
]

renew_loop-SameAnswers :
    (ids : List ℕ) (owner : String) (until : ℕ) (t : Tracker)
    → SameAnswers t (renew_loop ids owner until t).1
unfolding renew_loop
renew_loop-SameAnswers [] owner until t = (refl, refl, refl, refl)
renew_loop-SameAnswers (id ∷ ids) owner until t =
    elim (Bool-cases (is_held_by (some owner) (Dict.get t.claimed id))) [
      | inl mine ↦ rw (mine, renew_loop) (renew_loop-SameAnswers ids owner until _)
      | inr other ↦ rw (other, renew_loop) (renew_loop-SameAnswers ids owner until t)
    ]

release_many-SameAnswers :
    (t : Tracker) (ids : List ℕ) (owner : Option String)
    → SameAnswers t (release_many t ids owner).1
unfolding release_many
release_many-SameAnswers t [] owner = (refl, refl, refl, refl)
release_many-SameAnswers t (id ∷ ids) owner =
    elim (Bool-cases (is_held_by owner (Dict.get t.claimed id))) [
      | inl mine ↦ rw (mine, release_many) (release_many-SameAnswers (drop_claim t id) ids owner)
      | inr other ↦ rw (other, release_many) (release_many-SameAnswers t ids owner)
    ]

claim-SameAnswers :
    (t : Tracker) (ids : List ℕ) (owner : String) (ttl now : ℕ)
    → SameAnswers t (claim t ids owner ttl now).1
unfolding claim
claim-SameAnswers t ids owner ttl now =
    claim_loop-SameAnswers ids owner (now + max ttl min_ttl) (expire_claims now t)

renew_many-SameAnswers :
    (t : Tracker) (ids : List ℕ) (owner : String) (ttl now : ℕ)
    → SameAnswers t (renew_many t ids owner ttl now).1
unfolding renew_many
renew_many-SameAnswers t ids owner ttl now =
    renew_loop-SameAnswers ids owner (now + max ttl min_ttl) (expire_claims now t)

SameAnswers-IsDone : (a b : Tracker) (id : ℕ) → SameAnswers a b → IsDone id a → IsDone id b
SameAnswers-IsDone a b id s h = ground arith

step-IsDone : (t : Tracker) (c : Call) (id : ℕ) → IsDone id t → IsDone id (step t c)
unfolding step
step-IsDone t (marks e) id h = mark_responded-IsDone t e id h
step-IsDone t (asks e now clock) id h = unfold is_pending in h
step-IsDone t (claims ids owner ttl now) id h =
    SameAnswers-IsDone t (claim t ids owner ttl now).1 id (claim-SameAnswers t ids owner ttl now) h
step-IsDone t (releases none) id h = unfold release in h
step-IsDone t (releases (some e)) id h = unfold release in h
step-IsDone t (releases_many ids owner) id h =
    SameAnswers-IsDone t (release_many t ids owner).1 id (release_many-SameAnswers t ids owner) h
step-IsDone t (renews_many ids owner ttl now) id h =
    SameAnswers-IsDone t (renew_many t ids owner ttl now).1 id
      (renew_many-SameAnswers t ids owner ttl now) h

run-IsDone : (t : Tracker) (cs : List Call) (id : ℕ) → IsDone id t → IsDone id (run t cs)
unfolding run
run-IsDone t [] id h = h
run-IsDone t (c ∷ cs) id h = run-IsDone (step t c) cs id (step-IsDone t c id h)

is_pending-IsDone :
    (t : Tracker) (id : ℕ) (now : Option ℕ) (clock : ℕ)
    → IsDone id t
    → (is_pending t id now clock).0 ≡ false
unfolding is_pending
is_pending-IsDone t id now clock h = ground arith

-- An event that was marked as answered is never pending again: not after any further calls, in
-- any order and at any time, also when its id has been pruned from the set.
pub is_pending-mark_responded :
    (t : Tracker) (id : ℕ) (later : List Call) (now : Option ℕ) (clock : ℕ)
    → (is_pending (run (mark_responded t (some id)) later) id now clock).0 ≡ false
is_pending-mark_responded t id later now clock =
    is_pending-IsDone _ id now clock (run-IsDone _ later id (mark_responded_self t id))

-- The order never holds more ids than the tracker's limit.
abbrev pub IsBounded : Tracker → Type 0
IsBounded t = length t.responded_order ≤ t.max_responded_event_ids

mark_responded-IsBounded :
    (t : Tracker) (e : Option ℕ) → IsBounded t → IsBounded (mark_responded t e)
unfolding mark_responded
mark_responded-IsBounded t none h = h
mark_responded-IsBounded t (some e) h = ground (
  arith,
  prune_from_bounded (t.responded_order ++ (e ∷ [])) (note_responded t e),
  prune_from-limit (t.responded_order ++ (e ∷ [])) (note_responded t e),
)

SameAnswers-IsBounded : (a b : Tracker) → SameAnswers a b → IsBounded a → IsBounded b
SameAnswers-IsBounded a b s h = ground (arith, ap (length {A = ℕ}) s.2)

-- No call lets the memory of answered events grow past the limit.
pub step-IsBounded : (t : Tracker) (c : Call) → IsBounded t → IsBounded (step t c)
unfolding step
step-IsBounded t (marks e) h = mark_responded-IsBounded t e h
step-IsBounded t (asks e now clock) h = unfold is_pending in h
step-IsBounded t (claims ids owner ttl now) h =
    SameAnswers-IsBounded t (claim t ids owner ttl now).1 (claim-SameAnswers t ids owner ttl now) h
step-IsBounded t (releases none) h = unfold release in h
step-IsBounded t (releases (some e)) h = unfold release in h
step-IsBounded t (releases_many ids owner) h =
    SameAnswers-IsBounded t (release_many t ids owner).1 (release_many-SameAnswers t ids owner) h
step-IsBounded t (renews_many ids owner ttl now) h =
    SameAnswers-IsBounded t (renew_many t ids owner ttl now).1
      (renew_many-SameAnswers t ids owner ttl now) h
