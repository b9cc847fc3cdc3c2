-- ===== src/Scaling/Queue/Claims.antt =====
-- Who holds an item: a claim that has not run out is not taken over.
use flowhunt_voicebot.Base.{
  ℕ, zero, suc, ◌+◌, ◌≤◌, ◌<◌, ◌≡◌, ap, String, false, inl, inr, some, List, [], ◌∷◌, All, text_key,
  ◌==◌, Bool-cases, Option-cases, eq_iff, arith, ltb, lt→ltb, after, refl, count_if, Result, ok,
  err,
}
use flowhunt_voicebot.Base.Dict
use flowhunt_voicebot.Base.Dict.{Dict}
use flowhunt_voicebot.Scaling.Envelope.{Envelope}
use flowhunt_voicebot.Scaling.Queue.{
  Store, Claim, queued, expire_one, expire_loop, expire, take_claim, claim_loop, claim, open_queue,
}
use flowhunt_voicebot.Scaling.Queue.Order.{pop_next_by_priority}
use flowhunt_voicebot.Scaling.Queue.Copies.{is_item, pending_copies-put, count_if-pop_next}
use flowhunt_voicebot.Scaling.Queue.Invariant.{
  WellFormed, copies-le-one, expire-WellFormed, take_claim-WellFormed, open_queue-WellFormed,
  claimed-expire_one,
}

-- The claim of `id` is `c`, and its deadline is ahead of `now`.
abbrev pub IsLive : ℕ → String → Claim → Store → Type 0
IsLive now id c s = (Dict.get s.claimed id ≡ some c) × (now < c.expires_at)

expire_loop-keeps :
    (now : ℕ) (l : Dict String Claim) (s : Store) (id : String) (c : Claim)
    → All (λ e. e.0 ≡ id → e.1 ≡ c) l
    → IsLive now id c s
    → Dict.get (expire_loop now l s).1.claimed id ≡ some c
unfolding expire_loop
expire_loop-keeps now [] s id c same live = live.0
expire_loop-keeps now ((j, x) ∷ rest) s id c same live = elim (Bool-cases (ltb now x.expires_at)) [
  | inl ahead ↦ rw (ahead, expire_loop) (expire_loop-keeps now rest s id c same.1 live)
  | inr over ↦
      let other : (j == id) ≡ false = elim (Bool-cases (j == id)) [
        | inr e ↦ e
        | inl e ↦
            let hit : x ≡ c = same.0 ((eq_iff j id).0 e) in
            cc (over, lt→ltb now c.expires_at live.1, ap (λ (k : Claim). ltb now k.expires_at) hit)
      ] in
      rw (over, expire_loop)
        (expire_loop-keeps now rest (expire_one now j x s).1 id c same.1 (
          rw (claimed-expire_one s j x now) (rw (Dict.get-pop s.claimed j id) (rw other live.0)),
          live.1,
        ))
]

take_claim-keeps :
    (s : Store) (queue owner : String) (until : ℕ) (e : Envelope) (rest : List Envelope)
    (id : String) (c : Claim)
    → pop_next_by_priority (queued s queue) ≡ some (e, rest)
    → WellFormed s
    → Dict.get s.claimed id ≡ some c
    → Dict.get (take_claim queue owner until e rest s).1.claimed id ≡ some c
unfolding take_claim
take_claim-keeps s queue owner until e rest id c popped w held =
    let item = record e { attempt = e.attempt + 1 } in
    let new : Claim = record { item = item; owner = owner; expires_at = until } in
    ground (
      arith,
      Dict.get-put s.claimed e.item_id id new,
      copies-le-one s w id,
      Dict.occurs-pos_of_get s.claimed id c held,
      pending_copies-put id s.pending queue rest,
      count_if-pop_next (is_item id) (queued s queue) rest e popped,
    )

-- A claimed item is not the next of any queue.
taken-other :
    (s : Store) (queue owner : String) (until : ℕ) (e : Envelope) (rest : List Envelope)
    (id : String) (c : Claim)
    → pop_next_by_priority (queued s queue) ≡ some (e, rest)
    → WellFormed s
    → Dict.get s.claimed id ≡ some c
    → count_if (is_item id) ((take_claim queue owner until e rest s).0 ∷ []) ≡ 0
unfolding take_claim
taken-other s queue owner until e rest id c popped w held = ground (
  arith,
  copies-le-one s w id,
  Dict.occurs-pos_of_get s.claimed id c held,
  pending_copies-put id s.pending queue rest,
  count_if-pop_next (is_item id) (queued s queue) rest e popped,
)

claim_loop-keeps :
    (left : ℕ) (queue owner : String) (until : ℕ) (s : Store) (id : String) (c : Claim)
    → WellFormed s
    → Dict.get s.claimed id ≡ some c
    → Dict.get (claim_loop left queue owner until s).1.claimed id ≡ some c
unfolding claim_loop
claim_loop-keeps zero queue owner until s id c w held = held
claim_loop-keeps (suc left) queue owner until s id c w held =
    elim (Option-cases (pop_next_by_priority (queued s queue))) [
      | inl drained ↦ rw (drained, claim_loop) held
      | inr ((e, rest), popped) ↦
          rw (popped, claim_loop)
            (claim_loop-keeps left queue owner until (take_claim queue owner until e rest s).1 id c
              (take_claim-WellFormed s queue owner until e rest popped w)
              (take_claim-keeps s queue owner until e rest id c popped w held))
    ]

pub expire-keeps :
    (now : ℕ) (s : Store) (id : String) (c : Claim)
    → WellFormed s
    → IsLive now id c s
    → Dict.get (expire s now).1.claimed id ≡ some c
unfolding expire
expire-keeps now s id c w live =
    let once : Dict.occurs s.claimed id ≤ 1 = omega (arith, copies-le-one s w id) in
    expire_loop-keeps now s.claimed s id c (Dict.All-once s.claimed id c once live.0) live

-- An item that is claimed stands in no queue, so none of the items that a loop takes is it.
claim_loop-others :
    (left : ℕ) (queue owner : String) (until : ℕ) (s : Store) (id : String) (c : Claim)
    → WellFormed s
    → Dict.get s.claimed id ≡ some c
    → count_if (is_item id) (claim_loop left queue owner until s).0 ≡ 0
unfolding claim_loop
claim_loop-others zero queue owner until s id c w held = refl
claim_loop-others (suc left) queue owner until s id c w held =
    elim (Option-cases (pop_next_by_priority (queued s queue))) [
      | inl drained ↦ rw (drained, claim_loop) refl
      | inr ((e, rest), popped) ↦
          let later =
            claim_loop-others left queue owner until (take_claim queue owner until e rest s).1 id c
              (take_claim-WellFormed s queue owner until e rest popped w)
              (take_claim-keeps s queue owner until e rest id c popped w held) in
          rw (popped, claim_loop)
            (omega (arith, later, taken-other s queue owner until e rest id c popped w held))
    ]

-- The items that a call of `claim` returns; none if it raises.
abbrev pub returned : Result (List Envelope × Store) → List Envelope
returned (ok (es, s)) = es
returned (err e) = []

-- In a well-formed store, a claim whose deadline is still ahead survives every other call of
-- `claim`, by any worker on any queue, that is made as one step: the same item stays with the same
-- owner and deadline, and it is not among the items that the call returns.
pub claim-IsLive :
    (s : Store) (queue owner : String) (limit ttl now : ℕ) (id : String) (c : Claim)
    → WellFormed s
    → IsLive now id c s
    → (Dict.get (after s (claim s queue owner limit ttl now)).claimed id ≡ some c)
      × (count_if (is_item id) (returned (claim s queue owner limit ttl now)) ≡ 0)
unfolding claim
claim-IsLive s queue owner limit ttl now id c w live =
    let s' = open_queue (expire s now).1 queue in
    let fine = open_queue-WellFormed (expire s now).1 queue (expire-WellFormed s now w) in
    let kept = expire-keeps now s id c w live in
    (
      ground (arith, claim_loop-keeps limit queue owner (now + ttl) s' id c fine kept),
      ground (arith, claim_loop-others limit queue owner (now + ttl) s' id c fine kept),
    )
