-- ===== src/Tests/Workspace.antt =====
-- Channels, public routes and sessions of two voicebots.
use flowhunt_voicebot.Base.{
  ◌≡◌, refl, String, none, some, [], ◌∷◌, true, false, text_key, pair_key, ok, after,
}
use flowhunt_voicebot.Base.Dict
use flowhunt_voicebot.Base.Dict.{Dict}
use flowhunt_voicebot.Workspace.Channels.{Binding, phone_number, Resolver, kind_key, register}
use flowhunt_voicebot.Workspace.Channels.Bindings
use flowhunt_voicebot.Workspace.Channels.Bindings.{
  HasOneRoute, run-HasOneRoute, holder, register-holder,
}
use flowhunt_voicebot.Workspace.Routes.{
  Route, is_active, managed, RouteStore, is_candidate, resolve_route,
}
use flowhunt_voicebot.Workspace.Routes.Conflicts
use flowhunt_voicebot.Workspace.Routes.Conflicts.{
  IsSeparate, run-IsSeparate, IsLongest, resolve_route-IsLongest,
}
use flowhunt_voicebot.Workspace.Sessions.{
  SessionRecord, SessionStore, make_record, end_session, end_session-find,
}

abbrev binding : String → String → Binding
binding channel_id number = record {
  channel_id = channel_id;
  kind = phone_number;
  workspace_id = "w";
  voicebot_id = "v";
  external_id = number;
  enabled = true;
  metadata = [];
}

run-HasOneRoute_example : HasOneRoute (
    Bindings.run [] (
      Bindings.registers (binding "c" "1")
      ∷ Bindings.registers (binding "c" "2")
      ∷ Bindings.unregisters_channel "c"
      ∷ Bindings.registers (binding "c" "2")
      ∷ []))
run-HasOneRoute_example = run-HasOneRoute (
    Bindings.registers (binding "c" "1")
    ∷ Bindings.registers (binding "c" "2")
    ∷ Bindings.unregisters_channel "c"
    ∷ Bindings.registers (binding "c" "2")
    ∷ [])

abbrev bound : Resolver
bound = ((phone_number, "1"), binding "c" "1") ∷ []

bound_there : Dict.get bound (phone_number, "1") ≡ some (binding "c" "1")
unfolding Dict.get
bound_there = refl

register-holder_example :
    holder (Dict.get (after bound (register bound (binding "d" "1"))) (phone_number, "1"))
    ≡ holder (some (binding "c" "1"))
register-holder_example =
    register-holder bound (binding "d" "1") (binding "c" "1") (phone_number, "1") bound_there

abbrev route : String → String → Route
route route_id prefix = record {
  route_id = route_id;
  workspace_id = "w";
  voicebot_id = "v";
  channel_id = "c";
  host = "bot.example";
  path_prefix = prefix;
  status = is_active;
  tls_mode = managed;
  allowed_origins = [];
  metadata = [];
  created_at = 0;
  updated_at = 0;
}

run-IsSeparate_example : IsSeparate (
    Conflicts.run [] (
      Conflicts.saves (route "a" "/")
      ∷ Conflicts.saves (route "b" "/")
      ∷ Conflicts.deletes "a" none
      ∷ Conflicts.saves (route "b" "/")
      ∷ []))
run-IsSeparate_example = run-IsSeparate (
    Conflicts.saves (route "a" "/")
    ∷ Conflicts.saves (route "b" "/")
    ∷ Conflicts.deletes "a" none
    ∷ Conflicts.saves (route "b" "/")
    ∷ [])

abbrev routes : RouteStore
routes = ("a", route "a" "/") ∷ ("b", route "b" "/help") ∷ []

resolve_route-IsLongest_example :
    IsLongest
      (is_candidate (λ s. s) "bot.example" "/help/me")
      (route "a" "/" ∷ route "b" "/help" ∷ [])
      (resolve_route (λ s. s) routes "bot.example" "/help/me")
resolve_route-IsLongest_example = resolve_route-IsLongest (λ s. s) routes "bot.example" "/help/me"

abbrev session : SessionRecord
session = record {
  session_id = "s";
  workspace_id = "w";
  voicebot_id = "v";
  channel_id = none;
  external_session_id = none;
  is_ended = false;
  started_at = 3;
  ended_at = none;
  metadata = [];
}

abbrev sessions : SessionStore
sessions = ("s", session) ∷ []

session_there : Dict.get sessions "s" ≡ some session
unfolding Dict.get
session_there = refl

session_valid : make_record session ≡ ok session
unfolding make_record
session_valid = refl

end_session-find_example :
    Dict.get (after sessions (end_session sessions "s" "w" 9)) "s"
    ≡ some (record session { is_ended = true; ended_at = some 9 })
end_session-find_example = end_session-find sessions session "w" "s" 9 session_there session_valid
