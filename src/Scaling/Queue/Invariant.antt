-- ===== src/Scaling/Queue/Invariant.antt =====
-- The invariant of the worker queue: every known id stands in exactly one place (a deque, the
-- claims or the dead letters), and no other id stands anywhere.
use flowhunt_voicebot.Base.{
  ℕ, zero, suc, ◌+◌, ◌≤◌, ◌<◌, ◌≡◌, refl, sym, String, Bool, true, false, inl, inr, some, List, [],
  ◌∷◌, All, text_key, if◌then◌else◌, Bool-cases, Option-cases, eq_iff, arith, ltb, after,
}
use flowhunt_voicebot.Base.Dict
use flowhunt_voicebot.Base.Dict.{Dict}
use flowhunt_voicebot.Scaling.Envelope.{Envelope}
use flowhunt_voicebot.Scaling.Queue.{
  Store, Claim, queued, push_front, admit, existing, enqueue, settle, is_spent, expire_one,
  expire_loop, expire, take_claim, claim_loop, claim, open_queue,
}
use flowhunt_voicebot.Scaling.Queue.Order.{pop_next_by_priority}
use flowhunt_voicebot.Scaling.Queue.Copies.{
  copies, one_if, is_item, pending_copies-put, pending_copies-push_back, pending_copies-push_front,
  count_if-pop_next,
}

abbrev pub IsKeyed : String × Claim → Type 0
IsKeyed (id, c) = c.item.item_id ≡ id

pub record WellFormed (s : Store) : Type 0 where
  pub single : (id : String) → copies id s ≡ one_if (Dict.has s.known_item_ids id)
  pub keyed : All IsKeyed s.claimed

pub one_if-le : (b : Bool) → one_if b ≤ 1
one_if-le true = omega arith
one_if-le false = omega arith

pub copies-le-one : (s : Store) → WellFormed s → (id : String) → copies id s ≤ 1
copies-le-one s w id = omega (arith, w.single id, one_if-le (Dict.has s.known_item_ids id))

pub admit-WellFormed :
    (s : Store) (e : Envelope)
    → Dict.has s.known_item_ids e.item_id ≡ false
    → WellFormed s
    → WellFormed (admit s e)
unfolding admit
admit-WellFormed s e fresh w = record {
  single = λ id. ground (
    arith,
    w.single id,
    pending_copies-push_back id s e,
    Dict.has-put s.known_item_ids e.item_id id tt,
    eq_iff e.item_id id,
  );
  keyed = w.keyed;
}

pub enqueue-WellFormed :
    (s : Store) (e : Envelope) → WellFormed s → WellFormed (after s (enqueue s e))
unfolding enqueue
enqueue-WellFormed s e w = elim (Bool-cases (Dict.has s.known_item_ids e.item_id)) [
  | inl known ↦ rw (known, enqueue) w
  | inr fresh ↦ elim (Option-cases (existing s e)) [
    | inl none_yet ↦ rw (fresh, enqueue) (rw (none_yet, enqueue) (admit-WellFormed s e fresh w))
    | inr (old, found) ↦ rw (fresh, enqueue) (rw (found, enqueue) w)
  ]
]

-- Taking a claim back, to the dead letters or to the front of its queue, keeps every count.
known-push_front : (s : Store) (e : Envelope) → (push_front s e).known_item_ids ≡ s.known_item_ids
unfolding push_front
known-push_front s e = refl

claimed-push_front : (s : Store) (e : Envelope) → (push_front s e).claimed ≡ s.claimed
unfolding push_front
claimed-push_front s e = refl

dead-push_front : (s : Store) (e : Envelope) → (push_front s e).dead_letter ≡ s.dead_letter
unfolding push_front
dead-push_front s e = refl

pub settled-WellFormed :
    (s : Store) (id : String) (e : Envelope) (dead : Bool)
    → e.item_id ≡ id
    → 0 < Dict.occurs s.claimed id
    → WellFormed s
    → WellFormed (settle s id e dead)
unfolding settle
settled-WellFormed s id e dead same there w =
    let few = copies-le-one s w id in
    let popped = record s { claimed = Dict.pop s.claimed id } in
    record {
      single = λ j. ground (
        arith,
        w.single j,
        Dict.occurs-pop s.claimed id j,
        pending_copies-push_front j popped e,
        known-push_front popped e,
        claimed-push_front popped e,
        dead-push_front popped e,
        Dict.occurs-put s.dead_letter e.item_id j e,
        Dict.has-false_of_occurs s.dead_letter e.item_id,
        eq_iff id j,
        eq_iff e.item_id j,
      );
      keyed =
          ground (arith, claimed-push_front popped e, Dict.All-pop IsKeyed s.claimed id w.keyed);
    }

pub expire_one-WellFormed :
    (s : Store) (id : String) (c : Claim) (now : ℕ)
    → c.item.item_id ≡ id
    → 0 < Dict.occurs s.claimed id
    → WellFormed s
    → WellFormed (expire_one now id c s).1
unfolding expire_one
expire_one-WellFormed s id c now same there w =
    let dead = is_spent c.item in
    let failed = record (c.item) { last_error = some "claim expired"; failed_at = some now } in
    settled-WellFormed s id (if dead then failed else c.item) dead (ground arith) there w

pub claimed-expire_one :
    (s : Store) (id : String) (c : Claim) (now : ℕ)
    → (expire_one now id c s).1.claimed ≡ Dict.pop s.claimed id
unfolding expire_one settle push_front
claimed-expire_one s id c now = ground arith

expire_loop-WellFormed :
    (now : ℕ) (l : Dict String Claim) (s : Store)
    → All IsKeyed l
    → ((j : String) → Dict.occurs l j ≤ Dict.occurs s.claimed j)
    → WellFormed s
    → WellFormed (expire_loop now l s).1
unfolding expire_loop Dict.occurs
expire_loop-WellFormed now [] s k sub w = w
expire_loop-WellFormed now ((id, c) ∷ rest) s k sub w = elim (Bool-cases (ltb now c.expires_at)) [
  | inl live ↦
      rw (live, expire_loop) (expire_loop-WellFormed now rest s k.1 (λ j. ground (arith, sub j)) w)
  | inr over ↦
      let there : 0 < Dict.occurs s.claimed id = ground (arith, sub id, eq_iff id id) in
      let once = copies-le-one s w id in
      rw (over, expire_loop)
        (expire_loop-WellFormed now rest (expire_one now id c s).1 k.1
          (λ j.
            rw (claimed-expire_one s id c now)
              (rw (Dict.occurs-pop s.claimed id j) (ground (arith, sub j, once, eq_iff id j))))
          (expire_one-WellFormed s id c now k.0 there w))
]

pub expire-WellFormed : (s : Store) (now : ℕ) → WellFormed s → WellFormed (expire s now).1
unfolding expire
expire-WellFormed s now w = expire_loop-WellFormed now s.claimed s w.keyed (λ j. omega arith) w

pub take_claim-WellFormed :
    (s : Store) (queue owner : String) (until : ℕ) (e : Envelope) (rest : List Envelope)
    → pop_next_by_priority (queued s queue) ≡ some (e, rest)
    → WellFormed s
    → WellFormed (take_claim queue owner until e rest s).1
unfolding take_claim
take_claim-WellFormed s queue owner until e rest popped w = record {
  single = λ id.
      let item = record e { attempt = e.attempt + 1 } in
      let c : Claim = record { item = item; owner = owner; expires_at = until } in
      ground (
        arith,
        w.single id,
        one_if-le (Dict.has s.known_item_ids id),
        pending_copies-put id s.pending queue rest,
        count_if-pop_next (is_item id) (queued s queue) rest e popped,
        Dict.occurs-put s.claimed e.item_id id c,
        Dict.has-false_of_occurs s.claimed e.item_id,
        eq_iff e.item_id id,
      );
  keyed = Dict.All-put IsKeyed s.claimed e.item_id _ (λ j same. sym same) w.keyed;
}

claim_loop-WellFormed :
    (left : ℕ) (queue owner : String) (until : ℕ) (s : Store)
    → WellFormed s
    → WellFormed (claim_loop left queue owner until s).1
unfolding claim_loop
claim_loop-WellFormed zero queue owner until s w = w
claim_loop-WellFormed (suc left) queue owner until s w =
    elim (Option-cases (pop_next_by_priority (queued s queue))) [
      | inl drained ↦ rw (drained, claim_loop) w
      | inr ((e, rest), popped) ↦
          rw (popped, claim_loop)
            (claim_loop-WellFormed left queue owner until (take_claim queue owner until e rest s).1
              (take_claim-WellFormed s queue owner until e rest popped w))
    ]

pub open_queue-WellFormed :
    (s : Store) (queue : String) → WellFormed s → WellFormed (open_queue s queue)
open_queue-WellFormed s queue w = record {
  single =
      λ id. ground (arith, w.single id, pending_copies-put id s.pending queue (queued s queue));
  keyed = w.keyed;
}

pub claim-WellFormed :
    (s : Store) (queue owner : String) (limit ttl now : ℕ)
    → WellFormed s
    → WellFormed (after s (claim s queue owner limit ttl now))
unfolding claim
claim-WellFormed s queue owner limit ttl now w = ground (
  arith,
  claim_loop-WellFormed limit queue owner (now + ttl) (open_queue (expire s now).1 queue)
      (open_queue-WellFormed (expire s now).1 queue (expire-WellFormed s now w)),
)
