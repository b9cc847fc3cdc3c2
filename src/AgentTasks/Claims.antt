-- ===== src/AgentTasks/Claims.antt =====
-- Claims on agent task events are exclusive.
use flowhunt_voicebot.Base.{
  ℕ, ◌+◌, ◌≤◌, ◌<◌, max, ◌≡◌, refl, ap, ◌∙◌, String, true, false, inl, inr, Option, none, some,
  List, [], ◌∷◌, All, any, nat_key, text_key, if◌then◌else◌, Bool-cases, Option-cases, eqb_iff,
  arith, leb, eqb, leb→le, leb-false→lt,
}
use flowhunt_voicebot.Base.Dict
use flowhunt_voicebot.Base.Dict.{Dict}
use flowhunt_voicebot.AgentTasks.{
  Tracker, TaskClaim, expired_ids, pop_all, expire_claims, is_taken, min_ttl, claim_loop, claim,
}

-- Each event id has one claim at most.
abbrev pub IsUnique : Tracker → Type 0
IsUnique t = (id : ℕ) → Dict.occurs t.claimed id ≤ 1

get-pop_all_absent :
    (ids : List ℕ) (d : Dict ℕ TaskClaim) (id : ℕ)
    → any (λ j. eqb j id) ids ≡ false
    → Dict.get (pop_all ids d) id ≡ Dict.get d id
unfolding pop_all
get-pop_all_absent [] d id h = refl
get-pop_all_absent (j ∷ ids) d id h =
    ground (arith, get-pop_all_absent ids (Dict.pop d j) id, Dict.get-pop d j id)

occurs-pop_all :
    (ids : List ℕ) (d : Dict ℕ TaskClaim) (id : ℕ)
    → Dict.occurs (pop_all ids d) id ≤ Dict.occurs d id
unfolding pop_all
occurs-pop_all [] d id = omega arith
occurs-pop_all (j ∷ ids) d id =
    ground (arith, occurs-pop_all ids (Dict.pop d j) id, Dict.occurs-pop d j id)

-- A live claim is not among the ids that a sweep collects.
expired_ids-live :
    (now : ℕ) (d : Dict ℕ TaskClaim) (id : ℕ) (c : TaskClaim)
    → now < c.expires_at
    → All (λ e. e.0 ≡ id → e.1 ≡ c) d
    → any (λ j. eqb j id) (expired_ids now d) ≡ false
unfolding expired_ids
expired_ids-live now [] id c h same = refl
expired_ids-live now ((j, x) ∷ d) id c h same = elim (Bool-cases (eqb j id)) [
  | inl hit ↦
      let is_c : x ≡ c = same.0 ((eqb_iff j id).0 hit) in
      ground
        (arith, ap (λ (y : TaskClaim). y.expires_at) is_c, expired_ids-live now d id c h same.1)
  | inr other ↦ ground (arith, expired_ids-live now d id c h same.1)
]

pub expire_claims-keeps :
    (now : ℕ) (t : Tracker) (id : ℕ) (c : TaskClaim)
    → IsUnique t
    → Dict.get t.claimed id ≡ some c
    → now < c.expires_at
    → Dict.get (expire_claims now t).claimed id ≡ some c
unfolding expire_claims
expire_claims-keeps now t id c u held live =
    get-pop_all_absent (expired_ids now t.claimed) t.claimed id
      (expired_ids-live now t.claimed id c live (Dict.All-once t.claimed id c (u id) held))
    ∙ held

pub expire_claims-IsUnique : (now : ℕ) (t : Tracker) → IsUnique t → IsUnique (expire_claims now t)
unfolding expire_claims
expire_claims-IsUnique now t u id =
    omega (arith, u id, occurs-pop_all (expired_ids now t.claimed) t.claimed id)

put-IsUnique :
    (t : Tracker) (id : ℕ) (c : TaskClaim)
    → IsUnique t
    → IsUnique (record t { claimed = Dict.put t.claimed id c })
put-IsUnique t id c u j = Dict.occurs-put-le t.claimed id j c (u j)

claim_loop-IsUnique :
    (ids : List ℕ) (owner : String) (until : ℕ) (t : Tracker)
    → IsUnique t
    → IsUnique (claim_loop ids owner until t).1
unfolding claim_loop
claim_loop-IsUnique [] owner until t u = u
claim_loop-IsUnique (id ∷ ids) owner until t u = elim (Bool-cases (is_taken t id)) [
  | inl taken ↦ rw (taken, claim_loop) (claim_loop-IsUnique ids owner until t u)
  | inr free ↦ rw (free, claim_loop) (claim_loop-IsUnique ids owner until _ (put-IsUnique t id _ u))
]

-- The loop neither moves nor hands out what is claimed already.
claim_loop-held :
    (ids : List ℕ) (owner : String) (until : ℕ) (t : Tracker) (j : ℕ) (c : TaskClaim)
    → Dict.get t.claimed j ≡ some c
    → (Dict.get (claim_loop ids owner until t).1.claimed j ≡ some c)
      × (any (λ i. eqb i j) (claim_loop ids owner until t).0 ≡ false)
unfolding claim_loop
claim_loop-held [] owner until t j c h = (h, refl)
claim_loop-held (id ∷ ids) owner until t j c h = elim (Bool-cases (is_taken t id)) [
  | inl taken ↦ rw (taken, claim_loop) (claim_loop-held ids owner until t j c h)
  | inr free ↦
      let differ : eqb id j ≡ false = unfold is_taken Dict.has in ground (arith, eqb_iff id j) in
      let x : TaskClaim = record { owner = owner; expires_at = until } in
      let s = record t { claimed = Dict.put t.claimed id x } in
      let still : Dict.get s.claimed j ≡ some c = ground (arith, Dict.get-put t.claimed id j x) in
      let rest = claim_loop-held ids owner until s j c still in
      rw (free, claim_loop) (rest.0, ground (arith, rest.1))
]

-- What the loop hands out is from then on claimed by its owner until the deadline.
claim_loop-handed :
    (ids : List ℕ) (owner : String) (until : ℕ) (t : Tracker) (j : ℕ)
    → any (λ i. eqb i j) (claim_loop ids owner until t).0 ≡ true
    → Dict.get (claim_loop ids owner until t).1.claimed j
      ≡ some (record { owner = owner; expires_at = until })
unfolding claim_loop
claim_loop-handed [] owner until t j h = cc
claim_loop-handed (id ∷ ids) owner until t j h = elim (Bool-cases (is_taken t id)) [
  | inl taken ↦
      rw (taken, claim_loop) (claim_loop-handed ids owner until t j (rw (taken, claim_loop) at h))
  | inr free ↦
      let x : TaskClaim = record { owner = owner; expires_at = until } in
      let s = record t { claimed = Dict.put t.claimed id x } in
      let h' = rw (free, claim_loop) at h in
      rw (free, claim_loop)
        (elim (Bool-cases (eqb id j)) [
          | inl hit ↦
              (claim_loop-held ids owner until s j x
                (ground (arith, Dict.get-put t.claimed id j x))).0
          | inr other ↦ claim_loop-handed ids owner until s j (ground arith)
        ])
]

-- Two claims cannot hand out the same event while the first one lasts: an event id that the first
-- call gave to its owner is not among those that a second call gives out, to whichever owner, as
-- long as the second comes before the first's deadline (its time plus the ttl, or 0.1 seconds if
-- that is longer).
pub claim-claim :
    (t : Tracker) (ids ids' : List ℕ) (owner owner' : String) (ttl ttl' now now' : ℕ) (id : ℕ)
    → IsUnique t
    → any (λ i. eqb i id) (claim t ids owner ttl now).0 ≡ true
    → now' < now + max ttl min_ttl
    → any (λ i. eqb i id) (claim (claim t ids owner ttl now).1 ids' owner' ttl' now').0 ≡ false
unfolding claim
claim-claim t ids ids' owner owner' ttl ttl' now now' id u given early =
    let until = now + max ttl min_ttl in
    let swept = expire_claims now t in
    let first = (claim_loop ids owner until swept).1 in
    let c : TaskClaim = record { owner = owner; expires_at = until } in
    let unique : IsUnique first =
      claim_loop-IsUnique ids owner until swept (expire_claims-IsUnique now t u) in
    let held = claim_loop-handed ids owner until swept id given in
    let kept = expire_claims-keeps now' first id c unique held early in
    (claim_loop-held ids' owner' (now' + max ttl' min_ttl) (expire_claims now' first) id c kept).1

get-pop_all_hit :
    (ids : List ℕ) (d : Dict ℕ TaskClaim) (id : ℕ)
    → any (λ j. eqb j id) ids ≡ true
    → Dict.get (pop_all ids d) id ≡ none
unfolding pop_all
get-pop_all_hit [] d id h = cc
get-pop_all_hit (j ∷ ids) d id h = elim (Bool-cases (any (λ j. eqb j id) ids)) [
  | inl later ↦ get-pop_all_hit ids (Dict.pop d j) id later
  | inr first ↦ get-pop_all_absent ids (Dict.pop d j) id first ∙ ground (arith, Dict.get-pop d j id)
]

get-pop_all-none :
    (ids : List ℕ) (d : Dict ℕ TaskClaim) (id : ℕ)
    → Dict.get d id ≡ none
    → Dict.get (pop_all ids d) id ≡ none
unfolding pop_all
get-pop_all-none [] d id h = h
get-pop_all-none (j ∷ ids) d id h =
    get-pop_all-none ids (Dict.pop d j) id (ground (arith, Dict.get-pop d j id))

expired_ids-hit :
    (now : ℕ) (d : Dict ℕ TaskClaim) (id : ℕ) (c : TaskClaim)
    → c.expires_at ≤ now
    → Dict.get d id ≡ some c
    → any (λ j. eqb j id) (expired_ids now d) ≡ true
unfolding expired_ids Dict.get
expired_ids-hit now [] id c h held = cc
expired_ids-hit now ((j, x) ∷ d) id c h held = ground (arith, expired_ids-hit now d id c h)

-- What a sweep leaves of a claim.
abbrev pub swept : ℕ → Option TaskClaim → Option TaskClaim
swept now none = none
swept now (some c) = if leb c.expires_at now then none else some c

pub get-expire_claims :
    (now : ℕ) (t : Tracker) (id : ℕ)
    → IsUnique t
    → Dict.get (expire_claims now t).claimed id ≡ swept now (Dict.get t.claimed id)
get-expire_claims now t id u = elim (Option-cases (Dict.get t.claimed id)) [
  | inl free ↦
      rw free
        (unfold expire_claims in get-pop_all-none (expired_ids now t.claimed) t.claimed id free)
  | inr (c, held) ↦ elim (Bool-cases (leb c.expires_at now)) [
    | inr live ↦ rw held (rw live (expire_claims-keeps now t id c u held (leb-false→lt _ _ live)))
    | inl over ↦ rw held (
        rw over (
          unfold expire_claims in
          get-pop_all_hit (expired_ids now t.claimed) t.claimed id
            (expired_ids-hit now t.claimed id c (leb→le _ _ over) held)))
  ]
]
