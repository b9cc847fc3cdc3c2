-- ===== src/Workspace/Routes.antt =====
-- `PublicVoicebotRoute`, `PublicVoicebotRouteStore` and the normalisation of hosts and paths.
-- `str.lower` is a parameter.
pub mod Conflicts
use Prim.Native.String
use Prim.Native.String.{String}
use Prim.Native.Char.{code}
use text.Mathlib.Text.{starts_with}
use flowhunt_voicebot.Base.{
  text_length, ℕ, suc, Bool, true, false, not, ◌&&◌, ◌||◌, Option, none, some, List, [], ◌∷◌, keep,
  map, eqb, if◌then◌else◌, text_key, ◌==◌, strip, is_blank, ◌+s◌, Result, ok, err, raise_if, ◌>>=◌,
  ◌>>◌,
}
use flowhunt_voicebot.Base.Dict
use flowhunt_voicebot.Base.Dict.{Dict}
use flowhunt_voicebot.Base.Sorting.{sorted_down}
use flowhunt_voicebot.Workspace.Voicebots.{Scope, make_scope}

-- `text.split(c, 1)[0]`
unfoldable pub before : ℕ → String → String
before d String.[] = ""
before d (String.◌∷◌ c s) =
    let rest = before d s in if eqb (code c) d then "" else String.◌∷◌ c rest

abbrev drop_three : String → String
drop_three (String.◌∷◌ _ (String.◌∷◌ _ (String.◌∷◌ _ s))) = s
drop_three s = s

-- `text.split("://", 1)[1]`, for a text that has it.
unfoldable pub after_scheme : String → String
after_scheme String.[] = ""
after_scheme (String.◌∷◌ c s) =
    let later = after_scheme s in
    if starts_with (String.◌∷◌ c s) "://" then drop_three (String.◌∷◌ c s) else later

-- `text.rstrip("/")`
unfoldable pub strip_slashes : String → String
strip_slashes String.[] = ""
strip_slashes (String.◌∷◌ c s) =
    let rest = strip_slashes s in if rest == "" && eqb (code c) b'/' then "" else String.◌∷◌ c rest

-- `x or y`
abbrev or_text : String → String → String
or_text x y = if x == "" then y else x

unfoldable pub normalize_public_host : (String → String) → String → String
unfolding before after_scheme
normalize_public_host lower value =
    let host = lower (strip value) in
    let bare =
      if starts_with host "http://" || starts_with host "https://"
      then after_scheme host
      else host in
    before b':' (before b'/' bare)

unfoldable pub normalize_public_path : String → String
unfolding before
normalize_public_path value =
    let path = or_text (strip value) "/" in
    or_text (before b'?' (if starts_with path "/" then path else "/" +s path)) "/"

unfoldable pub normalize_public_path_prefix : String → String
unfolding normalize_public_path strip_slashes
normalize_public_path_prefix value = or_text (strip_slashes (normalize_public_path value)) "/"

unfoldable pub route_path_matches : String → String → Bool
unfolding normalize_public_path_prefix
route_path_matches prefix path =
    let p = normalize_public_path_prefix prefix in
    let q = normalize_public_path path in p == "/" || (q == p || starts_with q (p +s "/"))

pub data RouteStatus : Type 0 where
  is_pending is_active is_disabled : RouteStatus

abbrev pub active : RouteStatus → Bool
active is_active = true
active _ = false

pub data TlsMode : Type 0 where
  managed custom : TlsMode

pub record Route : Type 0 where
  pub route_id : String
  pub workspace_id : String
  pub voicebot_id : String
  pub channel_id : String
  pub host : String
  pub path_prefix : String
  pub status : RouteStatus
  pub tls_mode : TlsMode
  pub allowed_origins : List String
  pub metadata : Dict String String
  pub created_at : ℕ
  pub updated_at : ℕ

-- `__post_init__`; the times are instants, which have a zone.
unfoldable pub make_route : (String → String) → Route → Result Route
unfolding normalize_public_host normalize_public_path_prefix make_scope
make_route lower r = do
  raise_if (is_blank r.route_id) "route_id is required"
  _ ←
      make_scope
        (record { workspace_id = r.workspace_id; voicebot_id = r.voicebot_id; session_id = none })
  raise_if (is_blank r.channel_id) "channel_id is required"
  raise_if (normalize_public_host lower r.host == "") "host is required"
  ok (record r {
    host = normalize_public_host lower r.host;
    path_prefix = normalize_public_path_prefix r.path_prefix;
    allowed_origins = map strip (keep (λ o. not (is_blank o)) r.allowed_origins);
  })

abbrev pub RouteStore : Type 0
RouteStore = Dict String Route

abbrev pub conflicts : Route → Route → Bool
conflicts r old =
    not (old.route_id == r.route_id)
    && (active old.status && (old.host == r.host && old.path_prefix == r.path_prefix))

-- `_active_conflict`, for an active route.
unfoldable pub find_conflict : Route → List Route → Option Route
find_conflict r [] = none
find_conflict r (old ∷ rest) =
    let later = find_conflict r rest in if conflicts r old then some old else later

abbrev pub moved : (Route → Route → Bool) → Option Route → Route → Bool
moved same none r = false
moved same (some old) r = not (same old r)

unfoldable pub active_conflict : RouteStore → Route → Option Route
unfolding find_conflict
active_conflict s r = if active r.status then find_conflict r (Dict.values s) else none

abbrev pub raise_conflict : Option Route → Result (Unit {0})
raise_conflict none = ok tt
raise_conflict (some old) =
    raise_if true ("public route conflicts with active route: " +s old.route_id)

unfoldable pub save_route : RouteStore → Route → Result (Route × RouteStore)
unfolding active_conflict
save_route s r = do
  raise_if (moved (λ old new. old.workspace_id == new.workspace_id) (Dict.get s r.route_id) r)
      "cannot move public route across workspaces"
  raise_if (moved (λ old new. old.voicebot_id == new.voicebot_id) (Dict.get s r.route_id) r)
      "cannot move public route across voicebots"
  raise_conflict (active_conflict s r)
  ok (r, Dict.put s r.route_id r)

unfoldable pub find_route : RouteStore → String → Option String → Option Route
find_route s route_id workspace_id = elim (Dict.get s route_id) [
  | none ↦ none
  | some r ↦ elim workspace_id [
    | none ↦ some r
    | some w ↦ if r.workspace_id == w then some r else none
  ]
]

unfoldable pub delete_route : RouteStore → String → Option String → Option Route × RouteStore
unfolding find_route
delete_route s route_id workspace_id = elim (find_route s route_id workspace_id) [
  | none ↦ (none, s)
  | some r ↦ (some r, Dict.pop s r.route_id)
]

abbrev pub is_candidate : (String → String) → String → String → Route → Bool
is_candidate lower host path r =
    active r.status
    && (r.host == normalize_public_host lower host
        && route_path_matches r.path_prefix (normalize_public_path path))

abbrev pub first_of {ℓ} : {A : Type ℓ} → List A → Option A
first_of [] = none
first_of (x ∷ xs) = some x

-- `resolve`
unfoldable pub resolve_route : (String → String) → RouteStore → String → String → Option Route
unfolding text_length
resolve_route lower s host path = first_of (
    sorted_down (λ (r : Route). text_length r.path_prefix)
      (keep (is_candidate lower host path) (Dict.values s)))
