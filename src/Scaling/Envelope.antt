-- ===== src/Scaling/Envelope.antt =====
-- Work items of voicebot/scaling.py: `RoutingKey`, `WorkerQueueEnvelope`, `default_work_priority`.
use flowhunt_voicebot.Base.{
  ℕ, String, Bool, true, false, ◌&&◌, Option, none, some, List, [], ◌∷◌, ltb, if◌then◌else◌,
  or_default, text_key, is_blank, strip, join_colon, lower_is, ◌==◌, any, Result, ok, raise_if,
  ◌>>◌,
}
use flowhunt_voicebot.Base.Dict
use flowhunt_voicebot.Base.Dict.{Dict}

pub data WorkItemKind : Type 0 where
  media_frame stt_turn agent_turn tts_request call_control playback_control : WorkItemKind
  barge_in external_task_poll session_event summary post_call analytics : WorkItemKind

pub data WorkPriority : Type 0 where
  high normal background : WorkPriority

-- WORK_PRIORITY_RANK
abbrev pub priority_rank : WorkPriority → ℕ
priority_rank high = 0
priority_rank normal = 1
priority_rank background = 2

pub record RoutingKey : Type 0 where
  pub workspace_id : String
  pub voicebot_id : String
  pub session_id : Option String
  pub provider : Option String

-- `x` or, where it is `None` or empty, `d`.
abbrev pub text_or : Option String → String → String
text_or none d = d
text_or (some s) d = if s == "" then d else s

unfoldable pub partition_key : RoutingKey → String
partition_key r =
    let base = join_colon r.workspace_id r.voicebot_id in
    if text_or r.session_id "" == "" then base else join_colon base (text_or r.session_id "")

-- `WorkerQueueEnvelope`. A payload is read at its texts only; instants stand for ISO timestamps.
pub record Envelope : Type 0 where
  pub item_id : String
  pub kind : WorkItemKind
  pub routing : RoutingKey
  pub queue : String
  pub payload : Dict String String
  pub trace_id : Option String
  pub created_at : ℕ
  pub attempt : ℕ
  pub idempotency_key : Option String
  pub max_attempts : ℕ
  pub last_error : Option String
  pub failed_at : Option ℕ
  pub priority : Option WorkPriority

-- `kind in {"barge_in", "call_control", "playback_control"}`
abbrev is_control : WorkItemKind → Bool
is_control barge_in = true
is_control call_control = true
is_control playback_control = true
is_control _ = false

abbrev is_session_event : WorkItemKind → Bool
is_session_event session_event = true
is_session_event _ = false

-- `kind in {"external_task_poll", "summary", "post_call", "analytics"}`
abbrev is_background : WorkItemKind → Bool
is_background external_task_poll = true
is_background summary = true
is_background post_call = true
is_background analytics = true
is_background _ = false

abbrev urgent_actions : List String
urgent_actions = "hangup" ∷ "transfer" ∷ "send_dtmf" ∷ "stop_playback" ∷ "barge_in" ∷ []

unfoldable pub default_work_priority : WorkItemKind → Dict String String → WorkPriority
default_work_priority kind payload =
    let action =
      strip (text_or (Dict.get payload "action") (text_or (Dict.get payload "reason") "")) in
    if is_control kind
    then high
    else if is_session_event kind && any (lower_is action) urgent_actions
    then high
    else if is_background kind
    then background
    else normal

-- `__post_init__`: the defaults of the key and of the priority, and the checks in their order.
unfoldable pub make_envelope : Envelope → Result Envelope
make_envelope e = do
  raise_if (is_blank e.item_id) "item_id is required"
  let key = or_default e.idempotency_key e.item_id
  raise_if (is_blank key) "idempotency_key is required"
  let priority = or_default e.priority (default_work_priority e.kind e.payload)
  raise_if (is_blank e.queue) "queue is required"
  raise_if (ltb e.max_attempts 1) "max_attempts must be greater than or equal to 1"
  ok (record e { idempotency_key = some key; priority = some priority })

-- `WORK_PRIORITY_RANK[envelope.priority or "normal"]`
unfoldable pub rank : Envelope → ℕ
rank e = priority_rank (or_default e.priority normal)
