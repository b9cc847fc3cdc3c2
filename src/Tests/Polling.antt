-- ===== src/Tests/Polling.antt =====
-- A tick over a task past its deadline, before a task whose provider raises.
use flowhunt_voicebot.Base.{
  ◌==◌, Bool-cases, inl, inr, subst, ◌≤◌, ◌≡◌, refl, String, true, false, none, some, [], ◌∷◌, All,
  arith, text_key, eq_iff, ok, err, value_error,
}
use flowhunt_voicebot.Base.Dict
use flowhunt_voicebot.Subagents.{Task, TaskRequest, new_task, at}
use flowhunt_voicebot.Subagents.Lifecycle.{is_terminal}
use flowhunt_voicebot.Subagents.Effects.{Descriptor, Provider, Registered, World}
use flowhunt_voicebot.Subagents.Polling.{PollingPolicy, Wording, tick}
use flowhunt_voicebot.Subagents.Polling.Accepted.{Gives}
use flowhunt_voicebot.Subagents.Polling.Answers.{KeepsId}
use flowhunt_voicebot.Subagents.Polling.Rounds.{IsReady}
use flowhunt_voicebot.Subagents.Polling.Deadlines.{IsSettled, tick-IsSettled}

abbrev polled_request : String → TaskRequest
polled_request key = record {
  workspace_id = "w";
  session_id = "s";
  request_event_id = 4;
  provider = "own";
  input_text = "what";
  voicebot_id = none;
  dedupe_key = some key;
  metadata = [];
  event_text = "4";
}

abbrev down : Provider
down = record {
  submit = λ r. ok (new_task r "any" 2);
  poll = λ t. err (value_error "down");
  cancel = λ t. ok t;
}

abbrev polled_kind : Descriptor
polled_kind = record {
  kind = "own";
  label = "Own";
  workspace_scoped = true;
  supports_async_polling = true;
  supports_cancel = true;
  required_metadata = [];
  result_context = "clean";
}

abbrev polled_env : Registered
polled_env = record { providers = ("own", down) ∷ []; descriptors = ("own", polled_kind) ∷ [] }

abbrev late_task : Task
late_task = record (new_task (polled_request "a") "late" 1) { deadline_at = some (at 8) }

abbrev raising_task : Task
raising_task = record (new_task (polled_request "b") "raising" 1) { next_poll_at = some (at 9) }

abbrev before_tick : World
before_tick = record {
  store = record {
    tasks = ("raising", raising_task) ∷ ("late", late_task) ∷ [];
    dedupe_index = [];
  };
  emitted = [];
  sink = [];
}

abbrev policy : PollingPolicy
policy = record {
  initial_interval = 3;
  max_interval = 30;
  backoff_multiplier = 2;
  timeout = 600;
  max_attempts = 100;
}

abbrev words : Wording
words = record { of_error = λ e. "error"; of_number = λ n. "n" }

down-KeepsId : KeepsId polled_env
down-KeepsId kind p t u found answered =
    Dict.All-get (λ e. (t u : Task) → (e.1).poll t ≡ ok u → u.task_id ≡ t.task_id)
      polled_env.providers kind p found ((λ t u h. cc h), tt) t u answered

tasks-keyed : All (λ e. e.1.task_id ≡ e.0) before_tick.store.tasks
unfolding new_task
tasks-keyed = (refl, (refl, tt))

tasks-once : (k : String) → Dict.occurs before_tick.store.tasks k ≤ 1
unfolding Dict.occurs
tasks-once k = elim (Bool-cases ("raising" == k)) [
  | inl same ↦
      subst (λ j. Dict.occurs before_tick.store.tasks j ≤ 1) ((eq_iff "raising" k).0 same)
        (omega arith)
  | inr other ↦ ground (arith, other)
]

tasks-ready :
    All
      (IsReady (λ s. true) words polled_env policy down-KeepsId)
      (Dict.values before_tick.store.tasks)
unfolding Dict.get new_task flowhunt_voicebot.Subagents.Polling.next_interval
tasks-ready = ((polled_kind, 3, refl, refl), ((polled_kind, 3, refl, refl), tt))

late-stored : Dict.get before_tick.store.tasks "late" ≡ some late_task
unfolding Dict.get
late-stored = refl

late-open : is_terminal late_task ≡ false
unfolding is_terminal new_task
late-open = refl

tick-IsSettled_example :
    Gives
      (λ us b. IsSettled (λ s. true) 10 late_task before_tick b)
      (tick (λ s. true) words polled_env policy 10 before_tick)
tick-IsSettled_example =
    tick-IsSettled (λ s. true) words polled_env policy down-KeepsId before_tick 10 "late" late_task
      tasks-keyed tasks-once tasks-ready late-stored late-open
