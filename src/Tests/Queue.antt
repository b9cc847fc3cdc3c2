-- ===== src/Tests/Queue.antt =====
-- The worker queue on a few work items.
use flowhunt_voicebot.Base.{
  ◌≡◌, ◌≢◌, refl, String, false, none, some, List, [], ◌∷◌, text_key, arith, ok, eq_iff,
}
use flowhunt_voicebot.Base.Dict
use flowhunt_voicebot.Base.Dict.{Dict}
use flowhunt_voicebot.Scaling.Envelope.{Envelope, agent_turn, WorkPriority, high, normal}
use flowhunt_voicebot.Scaling.Queue.{Store, Claim, empty, enqueue, admit, existing}
use flowhunt_voicebot.Scaling.Queue.Order.{
  pop_next_by_priority, pop_next_by_priority-IsNext, IsNext,
}
use flowhunt_voicebot.Scaling.Queue.Copies.{copies}
use flowhunt_voicebot.Scaling.Queue.Invariant.{WellFormed}
use flowhunt_voicebot.Scaling.Queue.History.{
  Call, enqueues, claims, renews, acks, releases, expires, run, run-WellFormed,
}
use flowhunt_voicebot.Scaling.Queue.Idempotency.{enqueue-same_key}
use flowhunt_voicebot.Scaling.Queue.Reload.{load, one_queue, load-not-WellFormed}

abbrev item : String → WorkPriority → Envelope
item id priority = record {
  item_id = id;
  kind = agent_turn;
  routing = record { workspace_id = "w"; voicebot_id = "v"; session_id = none; provider = none };
  queue = "agent";
  payload = [];
  trace_id = none;
  created_at = 0;
  attempt = 0;
  idempotency_key = some "key";
  max_attempts = 2;
  last_error = none;
  failed_at = none;
  priority = some priority;
}

abbrev day : List Call
day =
    enqueues (item "a" normal)
    ∷ claims "agent" "one" 1 10 0
    ∷ renews "a" "one" 10 5
    ∷ expires 20
    ∷ claims "agent" "two" 1 10 20
    ∷ releases "a" none (some "failed") 21
    ∷ acks "a" none
    ∷ []

run-WellFormed_example : WellFormed (run empty day)
run-WellFormed_example = run-WellFormed day

pop_next_by_priority-IsNext_example :
    (e : Envelope) × (rest : List Envelope) × (pop_next_by_priority
        (item "a" normal ∷ item "b" high ∷ [])
      ≡ some (e, rest))
    × (IsNext (item "a" normal ∷ item "b" high ∷ []) e rest)
pop_next_by_priority-IsNext_example =
    pop_next_by_priority-IsNext (item "a" normal) (item "b" high ∷ [])

abbrev held : List Call
held = enqueues (item "a" normal) ∷ claims "agent" "one" 1 10 0 ∷ []

abbrev held_claim : Claim
held_claim = record {
  item = record (item "a" normal) { attempt = 1 };
  owner = "one";
  expires_at = 10;
}

-- What another worker tries before the deadline.
abbrev others : List Call
others =
    claims "agent" "two" 4 10 3
    ∷ renews "a" "two" 10 4
    ∷ releases "a" (some "two") none 5
    ∷ acks "b" none
    ∷ expires 9
    ∷ []

run-nil : run empty [] ≡ empty
unfolding run
run-nil = refl

nil-WellFormed : WellFormed (run empty [])
nil-WellFormed = run-WellFormed []

enqueued :
    enqueue (run empty []) (item "a" normal)
    ≡ ok (item "a" normal, admit (run empty []) (item "a" normal))
unfolding run enqueue empty existing Dict.has Dict.get
enqueued = refl

not_known_then : Dict.has (admit (run empty []) (item "a" normal)).known_item_ids "b" ≡ false
unfolding run empty admit Dict.has Dict.put
not_known_then = refl

enqueue-same_key_example :
    enqueue (admit (run empty []) (item "a" normal)) (item "b" high)
    ≡ ok (item "a" normal, admit (run empty []) (item "a" normal))
enqueue-same_key_example =
    enqueue-same_key (run empty []) (admit (run empty []) (item "a" normal)) (item "a" normal)
      (item "b" high) (item "a" normal) nil-WellFormed enqueued not_known_then refl

abbrev reloaded : Store
reloaded = record {
  pending = ("agent", item "a" normal ∷ item "b" high ∷ []) ∷ [];
  claimed = [];
  dead_letter = [];
  known_item_ids = ("b", tt) ∷ [];
  known_idempotency_keys = ("key", "b") ∷ [];
}

reloaded_lem : load 3 (one_queue "agent" (item "a" normal) (item "b" high)) ≡ ok reloaded
unfolding load empty Dict.has Dict.get Dict.put
reloaded_lem = refl

a-not-b : ◌≢◌ {A = String} "a" "b"
a-not-b = λ e. absurd (ground (arith, (eq_iff "a" "b").1 e))

load-not-WellFormed_example :
    (Dict.has reloaded.known_item_ids "a" ≡ false)
    × (copies "a" reloaded ≡ 1)
    × (¬ WellFormed reloaded)
load-not-WellFormed_example =
    load-not-WellFormed 3 "agent" (item "a" normal) (item "b" high) reloaded a-not-b reloaded_lem
