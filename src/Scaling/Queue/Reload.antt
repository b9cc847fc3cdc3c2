-- ===== src/Scaling/Queue/Reload.antt =====
-- `JsonWorkerQueueStore._load` of voicebot/scaling.py: the queues of a saved payload read back.
-- A saved item is given as what `worker_queue_envelope_from_dict` makes of it, `none` where that
-- raises; a queue that is no list is `none`. The instant of the reload is `now`.
use flowhunt_voicebot.Base.{
  ℕ, ◌≡◌, ◌≢◌, String, false, Option, none, some, List, [], ◌∷◌, ◌++◌, text_key, if◌then◌else◌,
  eq_iff, arith, ltb, Result, ok, err, other_error, ◌>>=◌,
}
use flowhunt_voicebot.Base.Dict
use flowhunt_voicebot.Base.Dict.{Dict}
use flowhunt_voicebot.Scaling.Envelope.{Envelope, text_or}
use flowhunt_voicebot.Scaling.Queue.{Store, empty, queued, is_spent}
use flowhunt_voicebot.Scaling.Queue.Copies.{copies, pending_copies}
use flowhunt_voicebot.Scaling.Queue.Invariant.{WellFormed}

-- A claim with an item; an owner or a deadline that cannot be read is `none`.
pub record SavedClaim : Type 0 where
  pub item : Option Envelope
  pub owner : Option String
  pub expires_at : Option ℕ

-- The payload; a claim with no item is `none`.
pub record Payload : Type 0 where
  pub pending : List (String × Option (List (Option Envelope)))
  pub claimed : List (Option SavedClaim)
  pub dead_lettered : List (Option Envelope)

-- The store being filled, the ids seen, and the local variable `envelope` of the loop over the
-- queues: unbound, `None`, or an item.
pub record Loading : Type 0 where
  pub store : Store
  pub seen : Dict String (Unit {0})
  pub envelope : Option (Option Envelope)

-- `_load_envelope`: an item that could be read and whose id is new.
unfoldable pub load_envelope : Option Envelope → Loading → Option Envelope × Loading
load_envelope none l = (none, l)
load_envelope (some e) l =
    if Dict.has l.seen e.item_id
    then (none, l)
    else (some e, record l { seen = Dict.put l.seen e.item_id tt })

unfoldable pub append_to : String → Envelope → Store → Store
append_to queue e s = record s { pending = Dict.put s.pending queue (queued s queue ++ (e ∷ [])) }

-- `for item in items:`
unfoldable pub load_items : String → List (Option Envelope) → Loading → Loading
unfolding load_envelope append_to
load_items queue [] l = l
load_items queue (item ∷ items) l =
    let (e, l') = load_envelope item l in
    let l'' = record l' { envelope = some e } in
    load_items queue items
      (elim e [ none ↦ l'' | some x ↦ record l'' { store = append_to queue x l''.store } ])

-- An item made known, under its id and its idempotency key.
unfoldable pub register : Envelope → Store → Store
register e s = record s {
  known_item_ids = Dict.put s.known_item_ids e.item_id tt;
  known_idempotency_keys = elim e.idempotency_key [
    | none ↦ s.known_idempotency_keys
    | some key ↦ Dict.put s.known_idempotency_keys key e.item_id
  ];
}

-- What follows that loop, once for each queue: the item last bound is made known.
unfoldable pub register_last : Loading → Result Loading
unfolding register
register_last l = elim l.envelope [
  | none ↦ err (other_error "UnboundLocalError")
  | some none ↦ err (other_error "AttributeError")
  | some (some e) ↦ ok (record l { store = register e l.store })
]

unfoldable pub load_pending :
    List (String × Option (List (Option Envelope))) → Loading → Result Loading
unfolding load_items register_last
load_pending [] l = ok l
load_pending ((queue, none) ∷ queues) l = load_pending queues l
load_pending ((queue, some items) ∷ queues) l =
    register_last (load_items queue items l) >>= load_pending queues

-- A claim that was read, at the instant of the reload.
unfoldable pub load_claim : ℕ → String → ℕ → Envelope → Store → Store
unfolding append_to register
load_claim now owner expires_at e s =
    let failed = record e {
      last_error = some (text_or e.last_error "claim expired on reload");
      failed_at = some now;
    } in
    register e (
      if ltb now expires_at
      then record s {
        claimed =
            Dict.put s.claimed e.item_id
              (record { item = e; owner = owner; expires_at = expires_at });
      }
      else if is_spent e
      then record s { dead_letter = Dict.put s.dead_letter e.item_id failed }
      else append_to e.queue e s)

-- The item is marked as seen before the owner and the deadline are read.
unfoldable pub load_claim_of : ℕ → Option String → Option ℕ → Option Envelope → Loading → Loading
unfolding load_claim
load_claim_of now (some owner) (some expires_at) (some e) l = record l {
  store = load_claim now owner expires_at e l.store;
}
load_claim_of now _ _ _ l = l

unfoldable pub load_claims : ℕ → List (Option SavedClaim) → Loading → Loading
unfolding load_envelope load_claim_of
load_claims now [] l = l
load_claims now (none ∷ claims) l = load_claims now claims l
load_claims now (some c ∷ claims) l =
    let (e, l') = load_envelope c.item l in
    load_claims now claims (load_claim_of now c.owner c.expires_at e l')

unfoldable pub load_dead : List (Option Envelope) → Loading → Loading
unfolding load_envelope register
load_dead [] l = l
load_dead (item ∷ items) l =
    let (e, l') = load_envelope item l in
    load_dead items (elim e [
      | none ↦ l'
      | some x ↦ record l' {
        store =
            register x
              (record (l'.store) { dead_letter = Dict.put l'.store.dead_letter x.item_id x });
      }
    ])

-- `_load`, on a payload that could be parsed.
unfoldable pub load : ℕ → Payload → Result Store
unfolding load_pending load_claims load_dead
load now p = do
  l ← load_pending p.pending (record { store = empty; seen = []; envelope = none })
  ok (load_dead p.dead_lettered (load_claims now p.claimed l)).store

abbrev pub one_queue : String → Envelope → Envelope → Payload
one_queue queue a b = record {
  pending = (queue, some (some a ∷ some b ∷ [])) ∷ [];
  claimed = [];
  dead_lettered = [];
}

-- Reading back a payload with two items of different ids in one queue, and nothing else, gives a
-- store in which the first item waits in its queue but is not known, so that the invariant of the
-- worker queue does not hold: the lines that make an item known stand behind the loop over the
-- items of a queue, not in it.
pub load-not-WellFormed :
    (now : ℕ) (queue : String) (a b : Envelope) (s : Store)
    → a.item_id ≢ b.item_id
    → load now (one_queue queue a b) ≡ ok s
    → (Dict.has s.known_item_ids a.item_id ≡ false) × (copies a.item_id s ≡ 1) × (¬ WellFormed s)
unfolding load empty Dict.has Dict.get Dict.put pending_copies Dict.occurs
load-not-WellFormed now queue a b s differ loaded = (
  ground (arith, eq_iff a.item_id b.item_id, eq_iff b.item_id a.item_id),
  ground (
    arith,
    eq_iff a.item_id b.item_id,
    eq_iff b.item_id a.item_id,
    eq_iff a.item_id a.item_id,
    eq_iff queue queue,
  ),
  λ w. ground (
    arith,
    w.single a.item_id,
    eq_iff a.item_id b.item_id,
    eq_iff b.item_id a.item_id,
    eq_iff a.item_id a.item_id,
    eq_iff queue queue,
  ),
)
