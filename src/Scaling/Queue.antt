-- ===== src/Scaling/Queue.antt =====
-- `WorkerQueueStore` of voicebot/scaling.py, one function for each method. Each method returns
-- its result with the store that it leaves. `now or datetime.now(UTC)` is the argument `now`.
pub mod Order
pub mod Copies
pub mod Invariant
pub mod Held
pub mod History
pub mod Claims
pub mod Holding
pub mod Idempotency
pub mod Reload
use flowhunt_voicebot.Base.{
  ℕ, zero, suc, ◌+◌, String, Bool, true, false, Option, none, some, List, [], ◌∷◌, ◌++◌, ltb, leb,
  if◌then◌else◌, or_else, text_key, is_blank, ◌==◌, ◌+s◌, Result, ok, err, value_error, raise_if,
  ◌>>=◌, ◌>>◌,
}
use flowhunt_voicebot.Base.Dict
use flowhunt_voicebot.Base.Dict.{Dict}
use flowhunt_voicebot.Scaling.Envelope.{Envelope, text_or}
use Order.{pop_next_by_priority}

pub record Claim : Type 0 where
  pub item : Envelope
  pub owner : String
  pub expires_at : ℕ

pub record Store : Type 0 where
  pub pending : Dict String (List Envelope)
  pub claimed : Dict String Claim
  pub dead_letter : Dict String Envelope
  pub known_item_ids : Dict String (Unit {0})
  pub known_idempotency_keys : Dict String String

unfoldable pub empty : Store
empty = record {
  pending = [];
  claimed = [];
  dead_letter = [];
  known_item_ids = [];
  known_idempotency_keys = [];
}

-- The deque under a name; a name that is not there yet has none.
abbrev pub items_of : Dict String (List Envelope) → String → List Envelope
items_of pending queue = elim (Dict.get pending queue) [ none ↦ [] | some items ↦ items ]

abbrev pub queued : Store → String → List Envelope
queued s queue = items_of s.pending queue

-- The two ways in which a method writes to a deque.
unfoldable pub push_back : Store → Envelope → Store
push_back s e = record s { pending = Dict.put s.pending e.queue (queued s e.queue ++ (e ∷ [])) }

unfoldable pub push_front : Store → Envelope → Store
push_front s e = record s { pending = Dict.put s.pending e.queue (e ∷ queued s e.queue) }

-- `envelope.idempotency_key or envelope.item_id`
abbrev pub dedupe_key : Envelope → String
dedupe_key e = text_or e.idempotency_key e.item_id

unfoldable pub find_in : String → List Envelope → Option Envelope
find_in id [] = none
find_in id (e ∷ es) = if e.item_id == id then some e else find_in id es

unfoldable pub find_pending : String → Dict String (List Envelope) → Option Envelope
unfolding find_in
find_pending id [] = none
find_pending id ((queue, items) ∷ rest) =
    let later = find_pending id rest in or_else (find_in id items) later

-- `get`
unfoldable pub find : Store → String → Option Envelope
unfolding find_pending
find s id = elim (Dict.get s.claimed id) [
  | some c ↦ some c.item
  | none ↦ elim (Dict.get s.dead_letter id) [ some e ↦ some e | none ↦ find_pending id s.pending ]
]

-- The live item that an idempotency key already stands for.
unfoldable pub existing : Store → Envelope → Option Envelope
existing s e = elim (Dict.get s.known_idempotency_keys (dedupe_key e)) [
  | none ↦ none
  | some id ↦ find s id
]

-- An envelope that the store has not seen: appended to its queue and made known.
unfoldable pub admit : Store → Envelope → Store
unfolding push_back
admit s e = record (push_back s e) {
  known_item_ids = Dict.put s.known_item_ids e.item_id tt;
  known_idempotency_keys = Dict.put s.known_idempotency_keys (dedupe_key e) e.item_id;
}

unfoldable pub enqueue : Store → Envelope → Result (Envelope × Store)
enqueue s e =
    if Dict.has s.known_item_ids e.item_id
    then err (value_error ("work item already exists: " +s e.item_id))
    else elim (existing s e) [ some old ↦ ok (old, s) | none ↦ ok (e, admit s e) ]

-- A claim taken back: popped, and its item a dead letter or the first of its queue again.
unfoldable pub settle : Store → String → Envelope → Bool → Store
unfolding push_front
settle s id e dead =
    let popped = record s { claimed = Dict.pop s.claimed id } in
    if dead
    then record popped { dead_letter = Dict.put s.dead_letter e.item_id e }
    else push_front popped e

-- `attempt >= max_attempts`
abbrev pub is_spent : Envelope → Bool
is_spent e = leb e.max_attempts e.attempt

-- What `expire` does with one claim of its snapshot, and what it reports.
unfoldable pub expire_one : ℕ → String → Claim → Store → Envelope × Store
unfolding settle
expire_one now id c s =
    let dead = is_spent c.item in
    let failed = record (c.item) { last_error = some "claim expired"; failed_at = some now } in
    let e = if dead then failed else c.item in (e, settle s id e dead)

unfoldable pub expire_loop : ℕ → Dict String Claim → Store → List Envelope × Store
expire_loop now [] s = ([], s)
expire_loop now ((id, c) ∷ rest) s = elim (ltb now c.expires_at) [
  | true ↦ expire_loop now rest s
  | false ↦
      let (e, s') = expire_one now id c s in
      let (es, s'') = expire_loop now rest s' in (e ∷ es, s'')
]

unfoldable pub expire : Store → ℕ → List Envelope × Store
unfolding expire_loop
expire s now = expire_loop now s.claimed s

-- The body of `claim`'s loop: the next item goes from its queue to the claims.
unfoldable pub take_claim :
    String → String → ℕ → Envelope → List Envelope → Store → Envelope × Store
take_claim queue owner until e rest s =
    let updated = record e { attempt = e.attempt + 1 } in
    let c : Claim = record { item = updated; owner = owner; expires_at = until } in
    (
      updated,
      record s {
        pending = Dict.put s.pending queue rest;
        claimed = Dict.put s.claimed updated.item_id c;
      },
    )

-- `while pending and len(claimed) < limit`, on the number of items still wanted.
unfoldable pub claim_loop : ℕ → String → String → ℕ → Store → List Envelope × Store
claim_loop zero queue owner until s = ([], s)
claim_loop (suc left) queue owner until s = elim (pop_next_by_priority (queued s queue)) [
  | none ↦ ([], s)
  | some (e, rest) ↦
      let (updated, s') = take_claim queue owner until e rest s in
      let (es, s'') = claim_loop left queue owner until s' in (updated ∷ es, s'')
]

-- `self._pending.setdefault(queue, deque())`, which leaves an empty deque behind.
abbrev pub open_queue : Store → String → Store
open_queue s queue = record s { pending = Dict.put s.pending queue (queued s queue) }

unfoldable pub claim : Store → String → String → ℕ → ℕ → ℕ → Result (List Envelope × Store)
unfolding claim_loop
claim s queue owner limit ttl now = do
  raise_if (is_blank queue) "queue is required"
  raise_if (is_blank owner) "owner is required"
  raise_if (ltb limit 1) "limit must be greater than or equal to 1"
  raise_if (leb ttl 0) "ttl_seconds must be positive"
  ok (claim_loop limit queue owner (now + ttl) (open_queue (expire s now).1 queue))

-- `owner is not None and claim_owner != owner`
abbrev pub foreign : Option String → Claim → Bool
foreign none c = false
foreign (some owner) c = if c.owner == owner then false else true

unfoldable pub renew : Store → String → String → ℕ → ℕ → Result (Option Envelope × Store)
renew s id owner ttl now = do
  raise_if (leb ttl 0) "ttl_seconds must be positive"
  elim (Dict.get s.claimed id) [
    | none ↦ ok (none, s)
    | some c ↦
        if foreign (some owner) c
        then ok (none, s)
        else ok (
          some c.item,
          record s { claimed = Dict.put s.claimed id (record c { expires_at = now + ttl }) },
        )
  ]

abbrev pub forget_key : Option String → Dict String String → Dict String String
forget_key none d = d
forget_key (some key) d = Dict.pop d key

unfoldable pub ack : Store → String → Option String → Option Envelope × Store
ack s id owner = elim (Dict.get s.claimed id) [
  | none ↦ (none, s)
  | some c ↦ if foreign owner c then (none, s) else (
    some c.item,
    record s {
      claimed = Dict.pop s.claimed id;
      known_item_ids = Dict.pop s.known_item_ids id;
      known_idempotency_keys = forget_key c.item.idempotency_key s.known_idempotency_keys;
    },
  )
]

-- `error or envelope.last_error`
abbrev pub error_or : Option String → Option String → Option String
error_or none old = old
error_or (some error) old = if error == "" then old else some error

-- What `release` does once the claim is its caller's.
unfoldable pub give_back : Store → String → Envelope → Option String → ℕ → Envelope × Store
unfolding settle
give_back s id item error now =
    let updated = record item { last_error = error_or error item.last_error } in
    let dead = is_spent updated in
    let failed = record updated { failed_at = some now } in
    let e = if dead then failed else updated in (e, settle s id e dead)

unfoldable pub release :
    Store → String → Option String → Option String → ℕ → Option Envelope × Store
release s id owner error now = elim (Dict.get s.claimed id) [
  | none ↦ (none, s)
  | some c ↦
      if foreign owner c
      then (none, s)
      else let (e, s') = give_back s id c.item error now in (some e, s')
]
