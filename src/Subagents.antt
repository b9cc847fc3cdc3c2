-- ===== src/Subagents.antt =====
-- `SubagentTask` and `SubagentTaskStore` of voicebot/subagents.py. The instants of a schedule are
-- numbers, or texts that cannot be read as an instant. The values of open dictionaries are texts;
-- `uuid4()` and the clock are arguments.
pub mod Identity
pub mod Lifecycle
pub mod Effects
pub mod Coordinator
pub mod Polling
use flowhunt_voicebot.Base.{
  same_option, pair_key, ℕ, ◌≡◌, ◌↔◌, String, Bool, true, false, not, ◌&&◌, ◌||◌, Option, none,
  some, List, [], ◌∷◌, ◌++◌, eqb, if◌then◌else◌, Key, text_key, ◌==◌, eq_iff, is_some, or_else,
  join_colon, ◌+s◌, ltb, keep, arith, Result, ok, err, key_error, raise_if, ◌>>=◌, ◌>>◌,
}
use flowhunt_voicebot.Base.Dict
use flowhunt_voicebot.Base.Dict.{Dict}
use flowhunt_voicebot.Base.Sorting.{text_lt, sorted}

pub data TaskStatus : Type 0 where
  requested accepted running completed failed timed_out cancelled : TaskStatus

-- The text of a schedule's instant, as `_parse_time` of voicebot/task_lifecycle.py reads it.
pub data Instant : Type 0 where
  at : ℕ → Instant
  unreadable : Instant

pub record TaskResult : Type 0 where
  pub summary : String
  pub content : String
  pub context : Dict String String
  pub provider_payload : Dict String String

pub record TaskRequest : Type 0 where
  pub workspace_id : String
  pub session_id : String
  pub request_event_id : ℕ
  pub provider : String
  pub input_text : String
  pub voicebot_id : Option String
  pub dedupe_key : Option String
  pub metadata : Dict String String
  pub event_text : String  -- `request_event_id` in decimal

pub record Task : Type 0 where
  pub task_id : String
  pub workspace_id : String
  pub session_id : String
  pub request_event_id : ℕ
  pub provider : String
  pub status : TaskStatus
  pub input_text : String
  pub voicebot_id : Option String
  pub external_task_id : Option String
  pub result : Option TaskResult
  pub error : Option String
  pub dedupe_key : String
  pub created_at : ℕ
  pub updated_at : ℕ
  pub progress_messages : List String
  pub metadata : Dict String String
  pub attempts : ℕ
  pub next_poll_at : Option Instant
  pub deadline_at : Option Instant
  pub terminal_event_emitted_at : Option ℕ
  pub provider_references : Dict String String

-- `progress[-1] != message`, or no progress.
unfoldable pub is_news : List String → String → Bool
is_news [] message = true
is_news (p ∷ []) message = not (p == message)
is_news (p ∷ q ∷ ps) message = is_news (q ∷ ps) message

unfoldable pub progress : List String → Option String → List String
unfolding is_news
progress ps none = ps
progress ps (some message) =
    if not (message == "") && is_news ps message then ps ++ (message ∷ []) else ps

unfoldable pub with_status :
    Task → TaskStatus → Option TaskResult → Option String → Option String → Option String → ℕ → Task
unfolding progress
with_status t status result error external_task_id message now = record t {
  status = status;
  result = or_else result t.result;
  error = error;
  external_task_id = or_else external_task_id t.external_task_id;
  updated_at = now;
  progress_messages = progress t.progress_messages message;
}

pub record TaskStore : Type 0 where
  pub tasks : Dict String Task
  pub dedupe_index : Dict (String × String) String

unfoldable pub effective_dedupe_key : TaskRequest → String
effective_dedupe_key r = elim r.dedupe_key [
  | none ↦ join_colon r.session_id r.event_text
  | some k ↦ if k == "" then join_colon r.session_id r.event_text else k
]

unfoldable pub new_task : TaskRequest → String → ℕ → Task
new_task r task_id now = record {
  task_id = task_id;
  workspace_id = r.workspace_id;
  session_id = r.session_id;
  request_event_id = r.request_event_id;
  provider = r.provider;
  status = requested;
  input_text = r.input_text;
  voicebot_id = r.voicebot_id;
  external_task_id = none;
  result = none;
  error = none;
  dedupe_key = effective_dedupe_key r;
  created_at = now;
  updated_at = now;
  progress_messages = [];
  metadata = r.metadata;
  attempts = 0;
  next_poll_at = none;
  deadline_at = none;
  terminal_event_emitted_at = none;
  provider_references = [];
}

abbrev pub index_key : TaskRequest → String × String
index_key r = (r.workspace_id, effective_dedupe_key r)

unfoldable pub create_task : TaskStore → TaskRequest → String → ℕ → TaskStore
create_task s r task_id now = record {
  tasks = Dict.put s.tasks task_id (new_task r task_id now);
  dedupe_index = Dict.put s.dedupe_index (index_key r) task_id;
}

unfoldable pub get_or_create :
    TaskStore → TaskRequest → String → ℕ → Result ((Task × Bool) × TaskStore)
get_or_create s r task_id now =
    let created : Result ((Task × Bool) × TaskStore) =
      ok ((new_task r task_id now, true), create_task s r task_id now) in
    elim (Dict.get s.dedupe_index (index_key r)) [
      | none ↦ created
      | some id ↦ if id == "" then created else elim (Dict.get s.tasks id) [
        | none ↦ err (key_error id)
        | some t ↦ ok ((t, false), s)
      ]
    ]

unfoldable pub update : TaskStore → Task → Result (Task × TaskStore)
update s t = elim (Dict.get s.tasks t.task_id) [
  | none ↦ err (key_error ("unknown subagent task: " +s t.task_id))
  | some old ↦ do
    raise_if (not (old.workspace_id == t.workspace_id))
        "cannot move subagent task across workspaces"
    raise_if (not (old.session_id == t.session_id)) "cannot move subagent task across sessions"
    raise_if (not (same_option old.voicebot_id t.voicebot_id))
        "cannot move subagent task across voicebots"
    raise_if (not (old.provider == t.provider)) "cannot move subagent task across providers"
    raise_if (not (eqb old.request_event_id t.request_event_id))
        "cannot move subagent task across request events"
    ok (t, record s { tasks = Dict.put s.tasks t.task_id t })
]

unfoldable pub find_task : TaskStore → String → Option String → Option Task
find_task s task_id none = Dict.get s.tasks task_id
find_task s task_id (some w) = elim (Dict.get s.tasks task_id) [
  | none ↦ none
  | some t ↦ if t.workspace_id == w then some t else none
]

-- `wanted is None or wanted == value`
abbrev pub same_or_any : Option String → String → Bool
same_or_any none value = true
same_or_any (some wanted) value = wanted == value

-- `a.created_at, a.task_id` before that of `b`.
abbrev pub listed_before : Task → Task → Bool
listed_before a b =
    ltb a.created_at b.created_at || (eqb a.created_at b.created_at && text_lt a.task_id b.task_id)

-- `list`
unfoldable pub list_tasks : TaskStore → Option String → Option String → List Task
list_tasks s workspace_id session_id = sorted listed_before (
    keep
      (λ (t : Task). same_or_any workspace_id t.workspace_id && same_or_any session_id t.session_id)
      (Dict.values s.tasks))
