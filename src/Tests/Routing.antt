-- ===== src/Tests/Routing.antt =====
-- A call to a number that is bound to a voicebot.
use flowhunt_voicebot.Base.{◌≡◌, refl, none, some, [], ◌∷◌, true, false, text_key, pair_key, ok}
use flowhunt_voicebot.SessionLeases
use flowhunt_voicebot.Workspace.Channels.{phone_number}
use flowhunt_voicebot.RoutingAdmission.{
  IncomingRequest, Stores, Decision, evaluate_incoming_session, accepted, capacity_of,
  lease_request,
}
use flowhunt_voicebot.Scaling.Admission.{accept, Capacity}
use flowhunt_voicebot.Workspace.Voicebots.{Scope}
use flowhunt_voicebot.SessionLeases.{SessionLease}
use flowhunt_voicebot.RoutingAdmission.Decisions.{IsTaken, evaluate_incoming_session-IsTaken}

abbrev incoming : IncomingRequest
incoming = record {
  channel_kind = phone_number;
  external_id = "1";
  session_id = "s";
  owner = "o";
  transport = "sip";
  call_id = some "c";
  acquire_lease = true;
  lease_ttl = 30;
  max_concurrent_sessions = 2;
  burst_sessions = 0;
}

abbrev stores : Stores
stores = record {
  channels =
      (
        (phone_number, "1"),
        record {
          channel_id = "n";
          kind = phone_number;
          workspace_id = "w";
          voicebot_id = "v";
          external_id = "1";
          enabled = true;
          metadata = [];
        },
      )
      ∷ [];
  voicebots =
      (
        ("w", "v"),
        record {
          workspace_id = "w";
          voicebot_id = "v";
          display_name = "";
          enabled = true;
          metadata = [];
        },
      )
      ∷ [];
  provider_configs = (("w", "v"), tt) ∷ [];
  runtime_configs = [];
  access = record { enabled = false; allowed_workspace_ids = [] };
  snapshots = [];
}

abbrev scope : Scope
scope = record { workspace_id = "w"; voicebot_id = "v"; session_id = none }

abbrev lease : SessionLease
lease = record {
  workspace_id = "w";
  voicebot_id = "v";
  session_id = "s";
  owner = "o";
  expires_at = 37;
  call_id = some "c";
  transport = some "sip";
  metadata = some (("channel_kind", "phone_number") ∷ ("external_id", "1") ∷ []);
}

abbrev capacity : Capacity
capacity = record {
  allowed = true;
  decision = accept;
  reason = "capacity_available";
  workspace_id = "w";
  voicebot_id = "v";
  active_sessions = 0;
  max_concurrent_sessions = 2;
  burst_sessions = 0;
  burst_cap = 2;
}

incoming_taken :
    evaluate_incoming_session incoming stores [] 7
    ≡ (("w:v:s", lease) ∷ [], ok (accepted scope capacity (some lease)))
unfolding evaluate_incoming_session flowhunt_voicebot.Workspace.Channels.resolve
    flowhunt_voicebot.Base.Dict.get flowhunt_voicebot.Base.is_blank
    flowhunt_voicebot.RoutingAdmission.scope_problem flowhunt_voicebot.Workspace.Voicebots.find
    flowhunt_voicebot.Base.Dict.has capacity_of
    flowhunt_voicebot.Scaling.Admission.admission_decision
    flowhunt_voicebot.Scaling.Admission.count_active_sessions SessionLeases.acquire
    SessionLeases.expire SessionLeases.make_lease SessionLeases.new_lease
    flowhunt_voicebot.Base.Dict.put SessionLeases.lease_key flowhunt_voicebot.Base.join_colon
incoming_taken = refl

evaluate_incoming_session-IsTaken_example :
    IsTaken incoming stores [] (("w:v:s", lease) ∷ []) 7 (accepted scope capacity (some lease))
evaluate_incoming_session-IsTaken_example =
    evaluate_incoming_session-IsTaken incoming stores [] (("w:v:s", lease) ∷ []) 7
      (accepted scope capacity (some lease)) incoming_taken refl
