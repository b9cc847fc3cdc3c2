-- ===== src/RoutingAdmission/Decisions.antt =====
-- When an incoming session is taken, and what that leaves in the lease store.
use flowhunt_voicebot.Base.{
  ℕ, ◌<◌, ◌≡◌, refl, String, Bool, true, false, Option, none, some, any, text_key, pair_key, ◌==◌,
  arith, Result, ok, err, Option-cases, inl, inr, strip,
}
use flowhunt_voicebot.Base.Dict
use flowhunt_voicebot.Base.Dict.{Dict}
use flowhunt_voicebot.SessionLeases
use flowhunt_voicebot.SessionLeases.{SessionLease}
use flowhunt_voicebot.Scaling.Admission.{Capacity, count_active_sessions, admission_decision}
use flowhunt_voicebot.Workspace.Voicebots
use flowhunt_voicebot.Workspace.Voicebots.{Scope, Voicebot, make_scope}
use flowhunt_voicebot.Workspace.Channels.{Binding, kind_key, resolve}
use flowhunt_voicebot.RoutingAdmission.{
  IncomingRequest, Stores, Decision, RuntimeConfig, require_workspace, scope_problem, capacity_of,
  lease_request, with_lease, take_session, on_result, evaluate_scope, evaluate_incoming_session,
}

-- The lease that a session took: the one that was acquired, or none where none was asked for.
abbrev pub Leased :
    IncomingRequest
    → Scope
    → SessionLeases.Store
    → ℕ
    → SessionLeases.Store
    → Decision
    → Bool
    → Type 0
Leased r scope s now s' d false = (d.lease ≡ none) × (s' ≡ s)
Leased r scope s now s' d true =
    (l : SessionLease) × (d.lease ≡ some l)
    × (SessionLeases.acquire s (lease_request r scope) now ≡ (s', ok (some l)))

-- The channel is bound and enabled, to this voicebot.
abbrev pub IsRouted : IncomingRequest → Stores → Scope → Type 0
IsRouted r st scope =
    (b : Binding) × (Dict.get st.channels (r.channel_kind, r.external_id) ≡ some b)
    × (b.enabled ≡ true)
    × (scope
        ≡ record { workspace_id = b.workspace_id; voicebot_id = b.voicebot_id; session_id = none })

-- The voicebot is there and enabled; its runtime configuration, if it has one, is enabled, and
-- otherwise it has a provider configuration.
abbrev pub IsReady : Stores → Scope → Type 0
IsReady st scope =
    let key : String × String = (scope.workspace_id, scope.voicebot_id) in
    (v : Voicebot) × (Dict.get st.voicebots key ≡ some v)
    × (v.enabled ≡ true)
    × ((c : RuntimeConfig) → Dict.get st.runtime_configs key ≡ some c → c.enabled ≡ true)
    × (Dict.get st.runtime_configs key ≡ none → Dict.has st.provider_configs key ≡ true)

resolve-IsRouted :
    (r : IncomingRequest) (st : Stores) (scope : Scope)
    → resolve st.channels r.channel_kind r.external_id ≡ ok (some scope)
    → IsRouted r st scope
unfolding resolve make_scope
resolve-IsRouted r st scope h =
    elim (Option-cases (Dict.get st.channels (r.channel_kind, r.external_id))) [
      | inl missing ↦ absurd (ground (arith, missing, h))
      | inr (b, found) ↦ (b, found, ground (arith, found, h), ground (arith, found, h))
    ]

scope_problem-IsReady :
    (st : Stores) (scope : Scope) → scope_problem st scope ≡ none → IsReady st scope
unfolding scope_problem Voicebots.find
scope_problem-IsReady st scope h =
    elim (Option-cases (Dict.get st.voicebots (scope.workspace_id, scope.voicebot_id))) [
      | inl missing ↦ absurd (ground (arith, missing, h))
      | inr (v, found) ↦ (
        v,
        found,
        ground (arith, found, h),
        λ c given. ground (arith, found, h, given),
        λ missing. ground (arith, found, h, missing),
      )
    ]

permitted_of :
    (st : Stores) (workspace_id : String)
    → require_workspace st.access workspace_id ≡ ok true
    → st.access.enabled ≡ true
    → any (λ w. w == strip workspace_id) st.access.allowed_workspace_ids ≡ true
unfolding require_workspace
permitted_of st workspace_id h on = ground (arith, h, on)

-- What stands behind a session that was taken.
pub record IsTaken (r : IncomingRequest) (st : Stores) (s s' : SessionLeases.Store) (now : ℕ)
    (d : Decision) : Type 0 where
  pub scope : Scope
  pub routed : IsRouted r st scope
  pub permitted :
      st.access.enabled ≡ true
      → any (λ w. w == strip scope.workspace_id) st.access.allowed_workspace_ids ≡ true
  pub ready : IsReady st scope
  pub room :
      count_active_sessions st.snapshots (some scope.workspace_id) (some scope.voicebot_id)
      < r.max_concurrent_sessions
  pub leased : Leased r scope s now s' d r.acquire_lease

taken_room :
    (r : IncomingRequest) (st : Stores) (scope : Scope) (c : Capacity)
    → capacity_of r st scope ≡ ok c
    → c.allowed ≡ true
    → count_active_sessions st.snapshots (some scope.workspace_id) (some scope.voicebot_id)
      < r.max_concurrent_sessions
unfolding capacity_of admission_decision
taken_room r st scope c made allowed = ground arith

with_lease-Leased :
    (r : IncomingRequest) (s s' : SessionLeases.Store) (now : ℕ) (scope : Scope) (c : Capacity)
    (d : Decision) (o : SessionLeases.Store × Result (Option SessionLease))
    → SessionLeases.acquire s (lease_request r scope) now ≡ o
    → with_lease s scope c o ≡ (s', ok d)
    → d.allowed ≡ true
    → Leased r scope s now s' d true
unfolding with_lease
with_lease-Leased r s s' now scope c d (t, err e) at h on = cc
with_lease-Leased r s s' now scope c d (t, ok none) at h on = absurd (ground (arith, h, on))
with_lease-Leased r s s' now scope c d (t, ok (some l)) at h on =
    (l, ground (arith, h), ground (arith, at, h))

take_allowed :
    (r : IncomingRequest) (s s' : SessionLeases.Store) (now : ℕ) (scope : Scope) (c : Capacity)
    (d : Decision) (allowed asks : Bool)
    → c.allowed ≡ allowed
    → r.acquire_lease ≡ asks
    → take_session r s now scope c ≡ (s', ok d)
    → d.allowed ≡ true
    → (c.allowed ≡ true) × Leased r scope s now s' d asks
unfolding take_session
take_allowed r s s' now scope c d false asks full wants h on = absurd (ground (arith, full, h, on))
take_allowed r s s' now scope c d true false room wants h on = (room, ground arith)
take_allowed r s s' now scope c d true true room wants h on = (
  room,
  with_lease-Leased r s s' now scope c d (SessionLeases.acquire s (lease_request r scope) now) refl
      (ground arith) on,
)

-- The last step, once nothing speaks against the voicebot.
room_allowed :
    (r : IncomingRequest) (st : Stores) (s s' : SessionLeases.Store) (now : ℕ) (scope : Scope)
    (d : Decision) (o : Result Capacity)
    → capacity_of r st scope ≡ o
    → on_result s o (take_session r s now scope) ≡ (s', ok d)
    → d.allowed ≡ true
    → (count_active_sessions st.snapshots (some scope.workspace_id) (some scope.voicebot_id)
        < r.max_concurrent_sessions)
      × Leased r scope s now s' d r.acquire_lease
room_allowed r st s s' now scope d (err e) made h on = cc
room_allowed r st s s' now scope d (ok c) made h on =
    let (allowed, leased) =
      take_allowed r s s' now scope c d c.allowed r.acquire_lease refl refl h on in
    (taken_room r st scope c made allowed, leased)

scope_allowed :
    (r : IncomingRequest) (st : Stores) (s s' : SessionLeases.Store) (now : ℕ) (scope : Scope)
    (d : Decision) (may : Result Bool) (problem : Option String)
    → require_workspace st.access scope.workspace_id ≡ may
    → scope_problem st scope ≡ problem
    → evaluate_scope r st s now scope ≡ (s', ok d)
    → d.allowed ≡ true
    → (may ≡ ok true)
      × (problem ≡ none)
      × (on_result s (capacity_of r st scope) (take_session r s now scope) ≡ (s', ok d))
unfolding evaluate_scope
scope_allowed r st s s' now scope d (err e) problem a b h on = absurd (ground (arith, a, h))
scope_allowed r st s s' now scope d (ok false) problem a b h on = absurd (ground (arith, a, h, on))
scope_allowed r st s s' now scope d (ok true) (some reason) a b h on =
    absurd (ground (arith, a, b, h, on))
scope_allowed r st s s' now scope d (ok true) none a b h on = (refl, refl, ground (arith, a, b, h))

found_allowed :
    (r : IncomingRequest) (st : Stores) (s s' : SessionLeases.Store) (now : ℕ) (d : Decision)
    (o : Result (Option Scope))
    → resolve st.channels r.channel_kind r.external_id ≡ o
    → evaluate_incoming_session r st s now ≡ (s', ok d)
    → d.allowed ≡ true
    → (scope : Scope) × (o ≡ ok (some scope)) × (evaluate_scope r st s now scope ≡ (s', ok d))
unfolding evaluate_incoming_session
found_allowed r st s s' now d (err e) a h on = absurd (ground (arith, a, h))
found_allowed r st s s' now d (ok none) a h on = absurd (ground (arith, a, h, on))
found_allowed r st s s' now d (ok (some scope)) a h on = (scope, refl, ground (arith, a, h))

-- An incoming session is allowed only if its channel is bound and enabled, the workspace may be
-- used, the voicebot exists and is enabled, its runtime configuration is enabled or, where it has
-- none, it has a provider configuration, and fewer sessions of the voicebot are active than the
-- request's limit. If a lease is asked for, the decision carries the lease that was acquired for
-- that workspace, voicebot and session.
pub evaluate_incoming_session-IsTaken :
    (r : IncomingRequest) (st : Stores) (s s' : SessionLeases.Store) (now : ℕ) (d : Decision)
    → evaluate_incoming_session r st s now ≡ (s', ok d)
    → d.allowed ≡ true
    → IsTaken r st s s' now d
evaluate_incoming_session-IsTaken r st s s' now d h on =
    let (scope, routed, at_scope) =
      found_allowed r st s s' now d (resolve st.channels r.channel_kind r.external_id) refl h on in
    let (may, free, rest) =
      scope_allowed r st s s' now scope d (require_workspace st.access scope.workspace_id)
        (scope_problem st scope) refl refl at_scope on in
    let (room, leased) = room_allowed r st s s' now scope d (capacity_of r st scope) refl rest on in
    record {
      scope = scope;
      routed = resolve-IsRouted r st scope routed;
      permitted = permitted_of st scope.workspace_id may;
      ready = scope_problem-IsReady st scope free;
      room = room;
      leased = leased;
    }
