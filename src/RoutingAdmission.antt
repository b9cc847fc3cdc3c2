-- ===== src/RoutingAdmission.antt =====
-- voicebot/routing_admission.py, with `WorkspaceAccessPolicy` of voicebot/workspace_access.py:
-- whether an incoming call or widget session is taken, over the channel resolver, the voicebots,
-- the capacity and the session leases. Of a runtime configuration only `enabled` is read, of a
-- provider configuration only that there is one.
pub mod Decisions
use flowhunt_voicebot.Base.{
  ℕ, String, Bool, true, false, not, ◌&&◌, ◌||◌, Option, none, some, List, [], ◌∷◌, any,
  if◌then◌else◌, is_some, or_default, text_key, pair_key, ◌==◌, strip, is_blank, Error, Result, ok,
  err, value_error, other_error, raise_if, ◌>>=◌, ◌>>◌,
}
use flowhunt_voicebot.Base.Dict
use flowhunt_voicebot.Base.Dict.{Dict}
use flowhunt_voicebot.SessionLeases
use flowhunt_voicebot.SessionLeases.{SessionLease, text_or_else}
use flowhunt_voicebot.Scaling.Admission.{
  Snapshot, WarmCapacityPolicy, make_policy, Admission, accept, reject, Capacity,
  admission_decision,
}
use flowhunt_voicebot.Workspace.Voicebots
use flowhunt_voicebot.Workspace.Voicebots.{Scope, VoicebotStore}
use flowhunt_voicebot.Workspace.Channels.{
  ChannelKind, sip_trunk, phone_number, webrtc_widget, Resolver, resolve,
}

pub record IncomingRequest : Type 0 where
  pub channel_kind : ChannelKind
  pub external_id : String
  pub session_id : String
  pub owner : String
  pub transport : String
  pub call_id : Option String
  pub acquire_lease : Bool
  pub lease_ttl : ℕ
  pub max_concurrent_sessions : ℕ
  pub burst_sessions : ℕ

-- `__post_init__`
unfoldable pub make_request : IncomingRequest → Result IncomingRequest
make_request r = do
  raise_if (is_blank r.external_id) "external_id is required"
  raise_if (is_blank r.session_id) "session_id is required"
  raise_if (is_blank r.owner) "owner is required"
  raise_if (is_blank r.transport) "transport is required"
  ok r

pub record AccessPolicy : Type 0 where
  pub enabled : Bool
  pub allowed_workspace_ids : List String

-- Whether the workspace may be used; only a `PermissionError` is caught, as `ok false`.
unfoldable pub require_workspace : AccessPolicy → String → Result Bool
require_workspace p workspace_id = do
  raise_if (is_blank workspace_id) "workspace_id is required"
  ok (not p.enabled || any (λ w. w == strip workspace_id) p.allowed_workspace_ids)

pub record RuntimeConfig : Type 0 where
  pub enabled : Bool

-- What the decision reads besides the lease store.
pub record Stores : Type 0 where
  pub channels : Resolver
  pub voicebots : VoicebotStore
  pub provider_configs : Dict (String × String) (Unit {0})
  pub runtime_configs : Dict (String × String) RuntimeConfig
  pub access : AccessPolicy
  pub snapshots : List Snapshot

pub record Decision : Type 0 where
  pub allowed : Bool
  pub decision : Admission
  pub reason : String
  pub scope : Option Scope
  pub capacity : Option Capacity
  pub lease : Option SessionLease

abbrev pub refuse : String → Option Scope → Decision
refuse reason scope = record {
  allowed = false;
  decision = reject;
  reason = reason;
  scope = scope;
  capacity = none;
  lease = none;
}

-- The channel kind as it is written in the metadata of a lease.
abbrev kind_name : ChannelKind → String
kind_name sip_trunk = "sip_trunk"
kind_name phone_number = "phone_number"
kind_name webrtc_widget = "webrtc_widget"

unfoldable pub lease_request : IncomingRequest → Scope → SessionLeases.Request
lease_request r scope = record {
  workspace_id = scope.workspace_id;
  voicebot_id = scope.voicebot_id;
  session_id = r.session_id;
  owner = r.owner;
  ttl = r.lease_ttl;
  call_id = text_or_else r.call_id (some r.session_id);
  transport = some r.transport;
  metadata =
      some (("channel_kind", kind_name r.channel_kind) ∷ ("external_id", r.external_id) ∷ []);
}

-- Why a voicebot that the channel leads to cannot take the session, if it cannot.
unfoldable pub scope_problem : Stores → Scope → Option String
scope_problem st scope = elim (Voicebots.find st.voicebots scope.workspace_id scope.voicebot_id) [
  | none ↦ some "voicebot_not_found"
  | some v ↦
      if not v.enabled
      then some "voicebot_disabled"
      else elim (Dict.get st.runtime_configs (scope.workspace_id, scope.voicebot_id)) [
        | some c ↦ if c.enabled then none else some "runtime_config_disabled"
        | none ↦
            if Dict.has st.provider_configs (scope.workspace_id, scope.voicebot_id)
            then none
            else some "provider_config_missing"
      ]
]

unfoldable pub capacity_of : IncomingRequest → Stores → Scope → Result Capacity
unfolding make_policy
capacity_of r st scope = do
  policy ← make_policy (record {
    min_media_sessions = 1;
    min_stt_workers = 1;
    min_tts_workers = 1;
    min_agent_workers = 1;
    min_task_pollers = 1;
    max_concurrent_sessions = r.max_concurrent_sessions;
    burst_sessions = r.burst_sessions;
    scale_to_zero_allowed = false;
  })
  ok (admission_decision st.snapshots scope.workspace_id scope.voicebot_id policy)

-- A call that raises leaves the lease store that it got to.
abbrev pub Outcome : Type 0
Outcome = SessionLeases.Store × Result Decision

abbrev pub accepted : Scope → Capacity → Option SessionLease → Decision
accepted scope capacity lease = record {
  allowed = true;
  decision = accept;
  reason = "accepted";
  scope = some scope;
  capacity = some capacity;
  lease = lease;
}

-- The lease is acquired last; no lease refuses the session.
unfoldable pub with_lease :
    SessionLeases.Store
    → Scope
    → Capacity
    → SessionLeases.Store × Result (Option SessionLease)
    → Outcome
with_lease s scope capacity (s', err e) = (s', err e)
with_lease s scope capacity (s', ok none) =
    (s', ok (refuse "session_lease_unavailable" (some scope)))
with_lease s scope capacity (s', ok (some l)) = (s', ok (accepted scope capacity (some l)))

unfoldable pub take_session : IncomingRequest → SessionLeases.Store → ℕ → Scope → Capacity → Outcome
unfolding with_lease lease_request
take_session r s now scope capacity =
    if not capacity.allowed
    then (
      s,
      ok (record {
        allowed = false;
        decision = capacity.decision;
        reason = capacity.reason;
        scope = some scope;
        capacity = some capacity;
        lease = none;
      }),
    )
    else if r.acquire_lease
    then with_lease s scope capacity (SessionLeases.acquire s (lease_request r scope) now)
    else (s, ok (accepted scope capacity none))

abbrev pub on_result {ℓ} : {A : Type ℓ} → SessionLeases.Store → Result A → (A → Outcome) → Outcome
on_result s (err e) f = (s, err e)
on_result s (ok a) f = f a

unfoldable pub evaluate_scope : IncomingRequest → Stores → SessionLeases.Store → ℕ → Scope → Outcome
unfolding require_workspace take_session
evaluate_scope r st s now scope =
    on_result s (require_workspace st.access scope.workspace_id) λ may.
      if not may
      then (s, ok (refuse "workspace_access_denied" (some scope)))
      else elim (scope_problem st scope) [
        | some reason ↦ (s, ok (refuse reason (some scope)))
        | none ↦ on_result s (capacity_of r st scope) (take_session r s now scope)
      ]

unfoldable pub evaluate_incoming_session :
    IncomingRequest → Stores → SessionLeases.Store → ℕ → Outcome
unfolding evaluate_scope
evaluate_incoming_session r st s now =
    on_result s (resolve st.channels r.channel_kind r.external_id) λ found. elim found [
      | none ↦ (s, ok (refuse "channel_not_found" none))
      | some scope ↦ evaluate_scope r st s now scope
    ]
