-- ===== src/Scaling/Admission.antt =====
-- `WarmCapacityPolicy`, `admission_decision` and the count of active sessions of
-- voicebot/scaling.py. Whole numbers are not negative here, so the checks for that are left out.
use flowhunt_voicebot.Base.{
  ℕ, ◌+◌, ◌≡◌, String, Bool, true, false, ◌&&◌, Option, none, some, List, count_if, ltb,
  if◌then◌else◌, same_option, text_key, arith, Result, ok, raise_if, ◌>>◌,
}
use flowhunt_voicebot.SessionLeases.{text_or_else}

-- The parts of a session's snapshot that the code reads; `route` where it is a dictionary.
pub record SnapshotRoute : Type 0 where
  pub workspace_id : Option String
  pub voicebot_id : Option String

pub record Snapshot : Type 0 where
  pub call_id : Option String
  pub session_id : Option String
  pub workspace_id : Option String
  pub voicebot_id : Option String
  pub transport : Option String
  pub route : Option SnapshotRoute

-- `route.get(field)`, where no route counts as an empty one.
abbrev pub route_workspace : Option SnapshotRoute → Option String
route_workspace none = none
route_workspace (some r) = r.workspace_id

abbrev pub route_voicebot : Option SnapshotRoute → Option String
route_voicebot none = none
route_voicebot (some r) = r.voicebot_id

abbrev pub snapshot_workspace : Snapshot → Option String
snapshot_workspace s = text_or_else (route_workspace s.route) s.workspace_id

abbrev pub snapshot_voicebot : Snapshot → Option String
snapshot_voicebot s = text_or_else (route_voicebot s.route) s.voicebot_id

-- `wanted is None or value == wanted`
abbrev pub is_wanted : Option String → Option String → Bool
is_wanted none value = true
is_wanted (some wanted) value = same_option value (some wanted)

unfoldable pub snapshot_matches_scope : Option String → Option String → Snapshot → Bool
snapshot_matches_scope workspace_id voicebot_id s =
    is_wanted workspace_id (snapshot_workspace s) && is_wanted voicebot_id (snapshot_voicebot s)

unfoldable pub count_active_sessions : List Snapshot → Option String → Option String → ℕ
unfolding snapshot_matches_scope
count_active_sessions snapshots workspace_id voicebot_id =
    count_if (snapshot_matches_scope workspace_id voicebot_id) snapshots

pub record WarmCapacityPolicy : Type 0 where
  pub min_media_sessions : ℕ
  pub min_stt_workers : ℕ
  pub min_tts_workers : ℕ
  pub min_agent_workers : ℕ
  pub min_task_pollers : ℕ
  pub max_concurrent_sessions : ℕ
  pub burst_sessions : ℕ
  pub scale_to_zero_allowed : Bool

-- `__post_init__`
unfoldable pub make_policy : WarmCapacityPolicy → Result WarmCapacityPolicy
make_policy p = do
  raise_if (ltb p.max_concurrent_sessions 1)
      "max_concurrent_sessions must be greater than or equal to 1"
  ok p

pub data Admission : Type 0 where
  accept queue_or_overflow reject : Admission

pub record Capacity : Type 0 where
  pub allowed : Bool
  pub decision : Admission
  pub reason : String
  pub workspace_id : String
  pub voicebot_id : String
  pub active_sessions : ℕ
  pub max_concurrent_sessions : ℕ
  pub burst_sessions : ℕ
  pub burst_cap : ℕ

unfoldable pub admission_decision : List Snapshot → String → String → WarmCapacityPolicy → Capacity
admission_decision snapshots workspace_id voicebot_id policy =
    let active = count_active_sessions snapshots (some workspace_id) (some voicebot_id) in
    let hard_cap = policy.max_concurrent_sessions in
    let burst_cap = hard_cap + policy.burst_sessions in
    let verdict : Bool × Admission × String =
      if ltb active hard_cap
      then (true, accept, "capacity_available")
      else if ltb active burst_cap
      then (false, queue_or_overflow, "hard_cap_reached_burst_available")
      else (false, reject, "burst_cap_reached") in
    record {
      allowed = verdict.0;
      decision = verdict.1;
      reason = verdict.2;
      workspace_id = workspace_id;
      voicebot_id = voicebot_id;
      active_sessions = active;
      max_concurrent_sessions = hard_cap;
      burst_sessions = policy.burst_sessions;
      burst_cap = burst_cap;
    }

pub admission_decision-allowed :
    (snapshots : List Snapshot) (w v : String) (p : WarmCapacityPolicy)
    → (admission_decision snapshots w v p).allowed
      ≡ ltb (count_active_sessions snapshots (some w) (some v)) p.max_concurrent_sessions
unfolding admission_decision
admission_decision-allowed snapshots w v p = ground arith
