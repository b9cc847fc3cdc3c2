-- ===== src/Scaling/Registry.antt =====
-- `WorkerRegistry` of voicebot/scaling.py: which workers are alive, by their last heartbeat.
-- `now or datetime.now(UTC)` is the argument `now`; a heartbeat's text stands for its instant.
use flowhunt_voicebot.Base.{
  ℕ, ◌+◌, ◌≤◌, ◌≡◌, sym, subst, ◌↔◌, String, Bool, true, false, not, ◌&&◌, Option, none, some, List,
  [], ◌∷◌, ltb, leb, eqb, if◌then◌else◌, is_some, keep, text_key, ◌==◌, eq_iff, arith, Result, ok,
  err, key_error, raise_if, ◌>>=◌, ◌>>◌, Option-cases,
}
use flowhunt_voicebot.Base.Dict
use flowhunt_voicebot.Base.Dict.{Dict}
use flowhunt_voicebot.Base.Sweep.{sweep, get-sweep, survives}
use flowhunt_voicebot.Base.Sorting.{text_lt, sorted}

pub data WorkerRole : Type 0 where
  media_ingress session_orchestrator stt_worker tts_worker : WorkerRole
  agent_worker task_poller api : WorkerRole

abbrev role_index : WorkerRole → ℕ
role_index media_ingress = 0
role_index session_orchestrator = 1
role_index stt_worker = 2
role_index tts_worker = 3
role_index agent_worker = 4
role_index task_poller = 5
role_index api = 6

unfoldable pub same_role : WorkerRole → WorkerRole → Bool
same_role a b = eqb (role_index a) (role_index b)

pub same_role_iff : (a b : WorkerRole) → (same_role a b ≡ true) ↔ (a ≡ b)
unfolding same_role
same_role_iff a b = ground arith

pub record Worker : Type 0 where
  pub worker_id : String
  pub role : WorkerRole
  pub queue : String
  pub workspace_id : Option String
  pub voicebot_id : Option String
  pub capacity : ℕ
  pub active : Bool  -- `status`, "active" or "draining"
  pub last_heartbeat_at : ℕ

-- `__post_init__`
unfoldable pub make_worker : Worker → Result Worker
make_worker w = do
  raise_if (w.worker_id == "") "worker_id is required"
  raise_if (w.queue == "") "queue is required"
  raise_if (ltb w.capacity 1) "capacity must be greater than or equal to 1"
  ok w

pub record Registry : Type 0 where
  pub heartbeat_ttl : ℕ
  pub workers : Dict String Worker

unfoldable pub new_registry : ℕ → Result Registry
new_registry ttl = do
  raise_if (leb ttl 0) "heartbeat_ttl_seconds must be positive"
  ok (record { heartbeat_ttl = ttl; workers = [] })

-- `existing is not None and existing.field != worker.field`
abbrev pub differs : (Worker → Worker → Bool) → Option Worker → Worker → Bool
differs same none w = false
differs same (some old) w = not (same old w)

abbrev pub beaten : Worker → ℕ → Worker
beaten w now = record w { last_heartbeat_at = now }

unfoldable pub heartbeat : Registry → Worker → ℕ → Result (Worker × Registry)
unfolding make_worker
heartbeat r w now =
    let existing = Dict.get r.workers w.worker_id in
    do
      raise_if (differs (λ old new. same_role old.role new.role) existing w)
          "cannot move worker instance across roles"
      raise_if (differs (λ old new. old.queue == new.queue) existing w)
          "cannot move worker instance across queues"
      updated ← make_worker (beaten w now)
      ok (updated, record r { workers = Dict.put r.workers updated.worker_id updated })

unfoldable pub mark_draining : Registry → String → ℕ → Result (Worker × Registry)
unfolding heartbeat make_worker
mark_draining r worker_id now = elim (Dict.get r.workers worker_id) [
  | none ↦ err (key_error worker_id)
  | some w ↦ make_worker (record w { active = false }) >>= λ d. heartbeat r d now
]

unfoldable pub remove : Registry → String → Bool × Registry
remove r worker_id =
    (is_some (Dict.get r.workers worker_id), record r { workers = Dict.pop r.workers worker_id })

abbrev pub is_lost : ℕ → ℕ → Worker → Bool
is_lost ttl now w = leb (w.last_heartbeat_at + ttl) now

unfoldable pub expire : Registry → ℕ → List Worker × Registry
expire r now =
    let (lost, workers) = sweep (is_lost r.heartbeat_ttl now) r.workers in
    (lost, record r { workers = workers })

-- `wanted is None or value in (None, wanted)`
abbrev pub serves : Option String → Option String → Bool
serves none value = true
serves (some wanted) none = true
serves (some wanted) (some value) = value == wanted

abbrev pub has_role : Option WorkerRole → Worker → Bool
has_role none w = true
has_role (some role) w = same_role w.role role

unfoldable pub active :
    Registry → Option WorkerRole → Option String → Option String → ℕ → List Worker × Registry
unfolding expire
active r role workspace_id voicebot_id now =
    let r' = (expire r now).1 in
    (
      keep
          (λ (w : Worker).
            w.active
            && (has_role role w
                && (serves workspace_id w.workspace_id && serves voicebot_id w.voicebot_id)))
          (sorted (λ (a b : Worker). text_lt a.worker_id b.worker_id) (Dict.values r'.workers)),
      r',
    )

-- `_load`, over what `worker_instance_from_dict` makes of each saved worker, `none` where it
-- raises, with the ids seen so far.
unfoldable pub load_loop :
    ℕ → ℕ → List (Option Worker) → Dict String (Unit {0}) → Dict String Worker → Dict String Worker
load_loop ttl now [] seen d = d
load_loop ttl now (none ∷ rest) seen d = load_loop ttl now rest seen d
load_loop ttl now (some w ∷ rest) seen d =
    let is_new = not (Dict.has seen w.worker_id) in
    let is_kept = is_new && not (is_lost ttl now w) in
    load_loop ttl now rest (if is_new then Dict.put seen w.worker_id tt else seen)
      (if is_kept then Dict.put d w.worker_id w else d)

-- Each worker id stands once.
abbrev pub IsRegistered : Registry → Type 0
IsRegistered r = (id : String) → Dict.occurs r.workers id ≤ 1

occurs-put-once :
    {V : Type 0} (d : Dict String V) (k id : String) (v : V)
    → Dict.occurs d id ≤ 1
    → Dict.occurs (Dict.put d k v) id ≤ 1
unfolding Dict.has
occurs-put-once d k id v h = ground (
  arith,
  Dict.occurs-put d k id v,
  Dict.occurs_of_get-none d k,
  eq_iff k id,
  Option-cases (Dict.get d k),
)

heartbeat-put :
    (r r' : Registry) (w w' : Worker) (now : ℕ)
    → heartbeat r w now ≡ ok (w', r')
    → r' ≡ record r { workers = Dict.put r.workers w.worker_id (beaten w now) }
unfolding heartbeat make_worker
heartbeat-put r r' w w' now beat = ground arith

pub heartbeat-IsRegistered :
    (r r' : Registry) (w w' : Worker) (now : ℕ)
    → IsRegistered r
    → heartbeat r w now ≡ ok (w', r')
    → IsRegistered r'
heartbeat-IsRegistered r r' w w' now h beat id =
    subst (λ q. Dict.occurs q.workers id ≤ 1) (sym (heartbeat-put r r' w w' now beat))
      (occurs-put-once r.workers w.worker_id id (beaten w now) (h id))

get-expire :
    (r : Registry) (now : ℕ) (id : String)
    → IsRegistered r
    → Dict.get (expire r now).1.workers id
      ≡ survives (is_lost r.heartbeat_ttl now) (Dict.get r.workers id)
unfolding expire
get-expire r now id h = get-sweep (is_lost r.heartbeat_ttl now) r.workers id (h id)

-- After a heartbeat that was accepted, a sweep at any later instant finds that worker as it was
-- sent, with the instant of the heartbeat, unless the time to live has passed since; every other
-- worker is found as the same sweep without the heartbeat would have left it. Condition: no worker
-- id stands twice in the registry.
pub expire-heartbeat :
    (r r' : Registry) (w w' : Worker) (now later : ℕ) (id : String)
    → IsRegistered r
    → heartbeat r w now ≡ ok (w', r')
    → Dict.get (expire r' later).1.workers id ≡ (
        if w.worker_id == id
        then (if leb (now + r.heartbeat_ttl) later then none else some (beaten w now))
        else Dict.get (expire r later).1.workers id)
unfolding heartbeat make_worker
expire-heartbeat r r' w w' now later id h beat = ground (
  arith,
  get-expire r' later id (heartbeat-IsRegistered r r' w w' now h beat),
  get-expire r later id h,
  Dict.get-put r.workers w.worker_id id (beaten w now),
)
