-- ===== src/Workspace/Channels.antt =====
-- `VoicebotChannelBinding` and `ChannelResolver`: which voicebot answers a number, a trunk or a
-- widget.
pub mod Bindings
use flowhunt_voicebot.Base.{
  ℕ, ◌≡◌, ◌↔◌, String, Bool, true, false, not, ◌&&◌, ◌||◌, Option, none, some, List, [], ◌∷◌, keep,
  eqb, if◌then◌else◌, or_default, Key, text_key, pair_key, ◌==◌, is_blank, ◌+s◌, arith, Result, ok,
  err, key_error, raise_if, ◌>>=◌, ◌>>◌,
}
use flowhunt_voicebot.Base.Dict
use flowhunt_voicebot.Base.Dict.{Dict}
use flowhunt_voicebot.Workspace.Voicebots.{Scope, make_scope}

pub data ChannelKind : Type 0 where
  sip_trunk phone_number webrtc_widget : ChannelKind

abbrev kind_index : ChannelKind → ℕ
kind_index sip_trunk = 0
kind_index phone_number = 1
kind_index webrtc_widget = 2

abbrev pub same_kind : ChannelKind → ChannelKind → Bool
same_kind a b = eqb (kind_index a) (kind_index b)

pub same_kind_iff : (a b : ChannelKind) → (same_kind a b ≡ true) ↔ (a ≡ b)
same_kind_iff a b = ground arith

instance abbrev pub kind_key : Key ChannelKind
kind_key = record { beq = same_kind; beq_iff = same_kind_iff }

pub record Binding : Type 0 where
  pub channel_id : String
  pub kind : ChannelKind
  pub workspace_id : String
  pub voicebot_id : String
  pub external_id : String
  pub enabled : Bool
  pub metadata : Dict String String

-- `__post_init__`
unfoldable pub make_binding : Binding → Result Binding
make_binding b = do
  raise_if (is_blank b.channel_id) "channel_id is required"
  raise_if (is_blank b.workspace_id) "workspace_id is required"
  raise_if (is_blank b.voicebot_id) "voicebot_id is required"
  raise_if (is_blank b.external_id) "external_id is required"
  ok b

abbrev pub RouteKey : Type 0
RouteKey = ChannelKind × String

abbrev pub Resolver : Type 0
Resolver = Dict RouteKey Binding

abbrev pub route_key : Binding → RouteKey
route_key b = (b.kind, b.external_id)

-- `existing_route is not None and existing_route.channel_id != binding.channel_id`
abbrev pub is_taken : Option Binding → Binding → Bool
is_taken none b = false
is_taken (some old) b = not (old.channel_id == b.channel_id)

-- The loop of `register` over the bindings.
unfoldable pub check_moves : Binding → Resolver → Result (Unit {0})
check_moves b [] = ok tt
check_moves b ((key, old) ∷ rest) =
    let later = check_moves b rest in
    if not (old.channel_id == b.channel_id)
    then later
    else (raise_if (not (key == route_key b)) "cannot move channel binding across routes"
        >> raise_if (not (old.workspace_id == b.workspace_id))
            "cannot move channel binding across workspaces"
        >> raise_if (not (old.voicebot_id == b.voicebot_id))
            "cannot move channel binding across voicebots"
        >> later)

unfoldable pub register : Resolver → Binding → Result (Unit {0} × Resolver)
register r b = do
  raise_if (is_taken (Dict.get r (route_key b)) b)
      "cannot reassign channel route to another channel"
  check_moves b r
  ok (tt, Dict.put r (route_key b) b)

unfoldable pub unregister : Resolver → ChannelKind → String → Option Binding × Resolver
unregister r kind external_id = (Dict.get r (kind, external_id), Dict.pop r (kind, external_id))

unfoldable pub key_of_channel : String → Resolver → Option RouteKey
key_of_channel channel_id [] = none
key_of_channel channel_id ((key, b) ∷ rest) =
    let later = key_of_channel channel_id rest in
    if b.channel_id == channel_id then some key else later

unfoldable pub unregister_channel : Resolver → String → Option Binding × Resolver
unfolding key_of_channel
unregister_channel r channel_id = elim (key_of_channel channel_id r) [
  | none ↦ (none, r)
  | some key ↦ (Dict.get r key, Dict.pop r key)
]

unfoldable pub get_channel : Resolver → String → String → String → Option Binding
get_channel [] workspace_id voicebot_id channel_id = none
get_channel ((key, b) ∷ rest) workspace_id voicebot_id channel_id =
    let later = get_channel rest workspace_id voicebot_id channel_id in
    if b.workspace_id == workspace_id
      && (b.voicebot_id == voicebot_id && b.channel_id == channel_id)
    then some b
    else later

unfoldable pub patch_channel :
    Resolver
    → String
    → String
    → String
    → Option Bool
    → Option (Dict String String)
    → Result (Binding × Resolver)
unfolding get_channel make_binding
patch_channel r workspace_id voicebot_id channel_id enabled metadata =
    elim (get_channel r workspace_id voicebot_id channel_id) [
      | none ↦ err (key_error ("channel not found: " +s channel_id))
      | some old ↦ do
        b ← make_binding (record old {
          enabled = or_default enabled old.enabled;
          metadata = or_default metadata old.metadata;
        })
        register r b >>= λ p. ok (b, p.1)
    ]

unfoldable pub unregister_voicebot_channel :
    Resolver → String → String → String → Option Binding × Resolver
unfolding get_channel unregister_channel
unregister_voicebot_channel r workspace_id voicebot_id channel_id =
    elim (get_channel r workspace_id voicebot_id channel_id) [
      | none ↦ (none, r)
      | some b ↦ unregister_channel r channel_id
    ]

-- `resolve`; the scope of a binding that was made is never refused.
unfoldable pub resolve : Resolver → ChannelKind → String → Result (Option Scope)
unfolding make_scope
resolve r kind external_id = elim (Dict.get r (kind, external_id)) [
  | none ↦ ok none
  | some b ↦
      if not b.enabled
      then ok none
      else make_scope
          (record { workspace_id = b.workspace_id; voicebot_id = b.voicebot_id; session_id = none })
        >>= λ s. ok (some s)
]
