-- ===== src/Scaling/Queue/Idempotency.antt =====
-- Enqueuing under an idempotency key that is in use.
use flowhunt_voicebot.Base.{
  ◌≡◌, refl, String, false, inl, inr, some, Bool-cases, Option-cases, List, [], ◌∷◌, ◌++◌, count_if,
  text_key, eq_iff, append-nil, arith, ok,
}
use flowhunt_voicebot.Base.Dict
use flowhunt_voicebot.Base.Dict.{Dict}
use flowhunt_voicebot.Scaling.Envelope.{Envelope}
use flowhunt_voicebot.Scaling.Queue.{
  Store, items_of, push_back, admit, existing, enqueue, find, find_in, find_pending, dedupe_key,
}
use flowhunt_voicebot.Scaling.Queue.Copies.{is_item, pending_copies}
use flowhunt_voicebot.Scaling.Queue.Invariant.{WellFormed}

find_in-absent :
    (id : String) (items more : List Envelope)
    → count_if (is_item id) items ≡ 0
    → find_in id (items ++ more) ≡ find_in id more
unfolding find_in
find_in-absent id [] more h = refl
find_in-absent id (e ∷ items) more h = ground (arith, find_in-absent id items more)

-- An item appended to its queue is found by its id, if no queue held that id before.
find_pending-put :
    (e : Envelope) (d : Dict String (List Envelope)) (queue : String)
    → pending_copies e.item_id d ≡ 0
    → find_pending e.item_id (Dict.put d queue (items_of d queue ++ (e ∷ []))) ≡ some e
unfolding find_pending pending_copies Dict.put Dict.get find_in
find_pending-put e [] queue h = ground (arith, eq_iff e.item_id e.item_id)
find_pending-put e ((q, items) ∷ d) queue h = ground (
  arith,
  find_in-absent e.item_id items (e ∷ []),
  find_in-absent e.item_id items [],
  find_pending-put e d queue,
  eq_iff e.item_id e.item_id,
  append-nil items,
)

find-admit :
    (s : Store) (e : Envelope)
    → WellFormed s
    → Dict.has s.known_item_ids e.item_id ≡ false
    → find (admit s e) e.item_id ≡ some e
unfolding find admit push_back
find-admit s e w fresh = ground (
  arith,
  w.single e.item_id,
  Dict.get-none_of_occurs s.claimed e.item_id,
  Dict.get-none_of_occurs s.dead_letter e.item_id,
  find_pending-put e s.pending e.queue,
)

key-admit :
    (s : Store) (e : Envelope)
    → Dict.get (admit s e).known_idempotency_keys (dedupe_key e) ≡ some e.item_id
unfolding admit
key-admit s e = Dict.get-put_self s.known_idempotency_keys (dedupe_key e) e.item_id

existing-same :
    (s : Store) (first second : Envelope)
    → dedupe_key second ≡ dedupe_key first
    → existing s second ≡ existing s first
unfolding existing
existing-same s first second same = rw (same, existing) refl

existing-admit :
    (s : Store) (first second : Envelope)
    → WellFormed s
    → Dict.has s.known_item_ids first.item_id ≡ false
    → dedupe_key second ≡ dedupe_key first
    → existing (admit s first) second ≡ some first
unfolding existing
existing-admit s first second w fresh same =
    rw (same, existing) (rw (key-admit s first, existing) (find-admit s first w fresh))

-- Enqueuing makes the item that it returns the one that the key of the new item stands for.
enqueued-existing :
    (s s' : Store) (first second got : Envelope)
    → WellFormed s
    → enqueue s first ≡ ok (got, s')
    → dedupe_key second ≡ dedupe_key first
    → existing s' second ≡ some got
unfolding enqueue
enqueued-existing s s' first second got w done same =
    elim (Bool-cases (Dict.has s.known_item_ids first.item_id)) [
      | inl known ↦ absurd (ground (arith, known))
      | inr fresh ↦ elim (Option-cases (existing s first)) [
        | inl new ↦ ground (arith, fresh, new, existing-admit s first second w fresh same)
        | inr (old, there) ↦ ground (arith, fresh, there, existing-same s first second same)
      ]
    ]

-- In a well-formed store, after an item was enqueued, a second envelope with the same idempotency
-- key and with an id that is not known is not stored: `enqueue` returns the item that the first
-- call returned and leaves the store as it was. (Under an id that is known `enqueue` raises.)
pub enqueue-same_key :
    (s s' : Store) (first second got : Envelope)
    → WellFormed s
    → enqueue s first ≡ ok (got, s')
    → Dict.has s'.known_item_ids second.item_id ≡ false
    → dedupe_key second ≡ dedupe_key first
    → enqueue s' second ≡ ok (got, s')
enqueue-same_key s s' first second got w done new same =
    let there = enqueued-existing s s' first second got w done same in
    unfold enqueue in rw (new, enqueue) (rw (there, enqueue) refl)
