-- ===== src/SessionLeases/Keys.antt =====
-- What the text of a lease key does not tell apart.
use flowhunt_voicebot.Base.{
  ℕ, ◌<◌, ◌≡◌, ◌≢◌, ap, ◌∙◌, subst, String, none, some, text_key, ok, join_colon, join_colon_assoc,
}
use flowhunt_voicebot.Base.Dict
use flowhunt_voicebot.Base.Dict.{Dict}
use flowhunt_voicebot.SessionLeases.Ownership.{IsUnique, acquire-foreign}
use flowhunt_voicebot.SessionLeases.{SessionLease, Store, Request, key_of, lease_key, acquire}

-- Two scopes with one key: what ends the workspace of the one may begin the voicebot of the other.
pub lease_key-shift :
    (workspace part voicebot session : String)
    → lease_key (join_colon workspace part) voicebot session
      ≡ lease_key workspace (join_colon part voicebot) session
unfolding lease_key
lease_key-shift workspace part voicebot session =
    ap (λ k. join_colon k session) (join_colon_assoc workspace part voicebot)

-- So leases of two different workspaces can be in each other's way: while an owner holds a lease
-- for the workspace `w:p`, the voicebot `v` and the session `x`, any other owner that asks for the
-- workspace `w`, the voicebot `p:v` and the session `x` with a positive ttl is refused.
pub acquire-shift :
    (s : Store) (w p v x : String) (r : Request) (now : ℕ) (l : SessionLease)
    → IsUnique s
    → (r.workspace_id ≡ w) × (r.voicebot_id ≡ join_colon p v) × (r.session_id ≡ x)
    → 0 < r.ttl
    → Dict.get s (lease_key (join_colon w p) v x) ≡ some l
    → now < l.expires_at
    → l.owner ≢ r.owner
    → (acquire s r now).1 ≡ ok none
acquire-shift s w p v x r now l u (rw_, rv, rx) pos held live other =
    let same : lease_key (join_colon w p) v x ≡ key_of r = lease_key-shift w p v x ∙ cc in
    (acquire-foreign s r now l u pos (subst (λ k. Dict.get s k ≡ some l) same held) live other).0
