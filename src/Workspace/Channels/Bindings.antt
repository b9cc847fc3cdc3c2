-- ===== src/Workspace/Channels/Bindings.antt =====
-- A route leads to one channel, a channel has one route, and neither changes hands.
use flowhunt_voicebot.Base.{
  ◌≡◌, sym, ap, subst, String, Bool, false, Option, none, some, List, [], ◌∷◌, All, text_key,
  pair_key, eq_iff, same_pair_iff, arith, ok, after, after_keeps, Option-cases, inl, inr,
}
use flowhunt_voicebot.Base.Dict
use flowhunt_voicebot.Base.Dict.{Dict}
use flowhunt_voicebot.Workspace.Channels.{
  Binding, ChannelKind, kind_key, RouteKey, Resolver, route_key, is_taken, check_moves, register,
  unregister, key_of_channel, unregister_channel, get_channel, patch_channel,
  unregister_voicebot_channel,
}

-- A channel stands under one route.
abbrev pub HasOneRoute : Resolver → Type 0
HasOneRoute r =
    (j k : RouteKey) (a b : Binding)
    → Dict.get r j ≡ some a
    → Dict.get r k ≡ some b
    → a.channel_id ≡ b.channel_id
    → j ≡ k

check_moves-All :
    (b : Binding) (r : Resolver)
    → check_moves b r ≡ ok tt
    → All
        (λ e.
          e.1.channel_id ≡ b.channel_id
          → (e.0 ≡ route_key b)
            × (e.1.workspace_id ≡ b.workspace_id)
            × (e.1.voicebot_id ≡ b.voicebot_id))
        r
unfolding check_moves
check_moves-All b [] h = tt
check_moves-All b ((key, old) ∷ rest) h = (
  λ same. ground (
    arith,
    same,
    eq_iff old.channel_id b.channel_id,
    same_pair_iff key (route_key b),
    eq_iff old.workspace_id b.workspace_id,
    eq_iff old.voicebot_id b.voicebot_id,
  ),
  check_moves-All b rest (ground arith),
)

-- What a registration that is accepted has checked.
register_checks :
    (r r' : Resolver) (b : Binding)
    → register r b ≡ ok (tt, r')
    → (r' ≡ Dict.put r (route_key b) b)
      × (is_taken (Dict.get r (route_key b)) b ≡ false)
      × (check_moves b r ≡ ok tt)
unfolding register
register_checks r r' b h = ground arith

same_channel :
    (r : Resolver) (b c : Binding) (k : RouteKey)
    → check_moves b r ≡ ok tt
    → Dict.get r k ≡ some c
    → c.channel_id ≡ b.channel_id
    → (k ≡ route_key b) × (c.workspace_id ≡ b.workspace_id) × (c.voicebot_id ≡ b.voicebot_id)
same_channel r b c k checked there =
    Dict.All-get
      (λ e.
        e.1.channel_id ≡ b.channel_id
        → (e.0 ≡ route_key b)
          × (e.1.workspace_id ≡ b.workspace_id)
          × (e.1.voicebot_id ≡ b.voicebot_id))
      r k c there (check_moves-All b r checked)

put-HasOneRoute :
    (r : Resolver) (b : Binding)
    → check_moves b r ≡ ok tt
    → HasOneRoute r
    → HasOneRoute (Dict.put r (route_key b) b)
put-HasOneRoute r b checked h = λ j k a c at_j at_k same. ground (
  arith,
  Dict.get-put r (route_key b) j b,
  Dict.get-put r (route_key b) k b,
  same_pair_iff (route_key b) j,
  same_pair_iff (route_key b) k,
  h j k a c,
  same_channel r b a j,
  same_channel r b c k,
)

register-HasOneRoute :
    (r r' : Resolver) (b : Binding) → register r b ≡ ok (tt, r') → HasOneRoute r → HasOneRoute r'
register-HasOneRoute r r' b done h =
    let (made, _, checked) = register_checks r r' b done in
    subst HasOneRoute (sym made) (put-HasOneRoute r b checked h)

pop-HasOneRoute : (r : Resolver) (k : RouteKey) → HasOneRoute r → HasOneRoute (Dict.pop r k)
pop-HasOneRoute r l h =
    λ j k a c at_j at_k same. ground (arith, Dict.get-pop r l j, Dict.get-pop r l k, h j k a c)

pub data Call : Type 0 where
  registers : Binding → Call
  unregisters : ChannelKind → String → Call
  unregisters_channel : String → Call
  patches : String → String → String → Option Bool → Option (Dict String String) → Call
  unregisters_of : String → String → String → Call

unfoldable pub step : Resolver → Call → Resolver
step r (registers b) = after r (register r b)
step r (unregisters kind external_id) = (unregister r kind external_id).1
step r (unregisters_channel channel_id) = (unregister_channel r channel_id).1
step r (patches workspace_id voicebot_id channel_id enabled metadata) =
    after r (patch_channel r workspace_id voicebot_id channel_id enabled metadata)
step r (unregisters_of workspace_id voicebot_id channel_id) =
    (unregister_voicebot_channel r workspace_id voicebot_id channel_id).1

unfoldable pub run : Resolver → List Call → Resolver
unfolding step
run r [] = r
run r (c ∷ cs) = run (step r c) cs

unregister_channel-HasOneRoute :
    (r : Resolver) (channel_id : String)
    → HasOneRoute r
    → HasOneRoute (unregister_channel r channel_id).1
unfolding unregister_channel
unregister_channel-HasOneRoute r channel_id h = elim (Option-cases (key_of_channel channel_id r)) [
  | inl missing ↦ rw (missing, unregister_channel) h
  | inr (key, found) ↦ rw (found, unregister_channel) (pop-HasOneRoute r key h)
]

unregister_voicebot_channel-HasOneRoute :
    (r : Resolver) (w v c : String)
    → HasOneRoute r
    → HasOneRoute (unregister_voicebot_channel r w v c).1
unfolding unregister_voicebot_channel
unregister_voicebot_channel-HasOneRoute r w v c h = elim (Option-cases (get_channel r w v c)) [
  | inl missing ↦ rw (missing, unregister_voicebot_channel) h
  | inr (b, found) ↦ rw (found, unregister_voicebot_channel) (unregister_channel-HasOneRoute r c h)
]

-- A patch that is accepted is a registration.
patched :
    (r r' : Resolver) (w v c : String) (enabled : Option Bool)
    (metadata : Option (Dict String String)) (b : Binding)
    → patch_channel r w v c enabled metadata ≡ ok (b, r')
    → register r b ≡ ok (tt, r')
unfolding patch_channel
patched r r' w v c enabled metadata b h = ground arith

step-HasOneRoute : (r : Resolver) (c : Call) → HasOneRoute r → HasOneRoute (step r c)
unfolding step unregister
step-HasOneRoute r (registers b) h =
    after_keeps HasOneRoute r (register r b) h λ u r' done. register-HasOneRoute r r' b done h
step-HasOneRoute r (unregisters kind external_id) h = pop-HasOneRoute r (kind, external_id) h
step-HasOneRoute r (unregisters_channel channel_id) h =
    unregister_channel-HasOneRoute r channel_id h
step-HasOneRoute r (patches w v c enabled metadata) h =
    after_keeps HasOneRoute r (patch_channel r w v c enabled metadata) h
      λ b r' done. register-HasOneRoute r r' b (patched r r' w v c enabled metadata b done) h
step-HasOneRoute r (unregisters_of w v c) h = unregister_voicebot_channel-HasOneRoute r w v c h

run_from-HasOneRoute : (r : Resolver) (cs : List Call) → HasOneRoute r → HasOneRoute (run r cs)
unfolding run
run_from-HasOneRoute r [] h = h
run_from-HasOneRoute r (c ∷ cs) h = run_from-HasOneRoute (step r c) cs (step-HasOneRoute r c h)

nil-HasOneRoute : HasOneRoute []
unfolding Dict.get
nil-HasOneRoute = λ j k a b at_j at_k same. cc

-- After any registrations, patches and removals on a resolver with none, accepted or refused, a
-- channel stands under one route only.
pub run-HasOneRoute : (cs : List Call) → HasOneRoute (run [] cs)
run-HasOneRoute cs = run_from-HasOneRoute [] cs nil-HasOneRoute

abbrev pub holder : Option Binding → Option (String × String × String)
holder none = none
holder (some b) = some (b.channel_id, b.workspace_id, b.voicebot_id)

-- A route that is bound stays with its channel, its workspace and its voicebot, whatever is
-- registered: only its removal frees it.
pub register-holder :
    (r : Resolver) (b old : Binding) (k : RouteKey)
    → Dict.get r k ≡ some old
    → holder (Dict.get (after r (register r b)) k) ≡ holder (some old)
register-holder r b old k there =
    after_keeps (λ s. holder (Dict.get s k) ≡ holder (some old)) r (register r b) (ap holder there)
      λ u r' done.
        let (made, free, checked) = register_checks r r' b done in
        ground (
          arith,
          ap (λ s. Dict.get s k) made,
          Dict.get-put r (route_key b) k b,
          same_pair_iff (route_key b) k,
          eq_iff old.channel_id b.channel_id,
          same_channel r b old k,
        )
