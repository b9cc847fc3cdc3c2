-- ===== src/Scaling/Queue/Holding.antt =====
-- From its claim to its deadline an item is its owner's, whatever the other workers call.
use flowhunt_voicebot.Base.{◌<◌, ◌≡◌, String, false, not, ◌&&◌, some, text_key, ◌==◌}
use flowhunt_voicebot.Base.Dict
use flowhunt_voicebot.Base.Dict.{Dict}
use flowhunt_voicebot.Scaling.Envelope.{Envelope}
use flowhunt_voicebot.Scaling.Queue.{Claim, foreign}
use flowhunt_voicebot.Scaling.Queue.History.{
  Call, enqueues, claims, renews, acks, releases, expires,
}

-- A call that is not one of the owner of the claim `c` on `id`: it does not renew, acknowledge or
-- release this item under the owner's name, or under none; and if it sweeps, which `claim` does
-- too, that is before the deadline.
abbrev pub IsOther : String → Claim → Call → Type 0
IsOther id c (enqueues e) = Unit
IsOther id c (claims queue owner limit ttl now) = now < c.expires_at
IsOther id c (renews j owner ttl now) = (j == id && not (foreign (some owner) c)) ≡ false
IsOther id c (acks j owner) = (j == id && not (foreign owner c)) ≡ false
IsOther id c (releases j owner error now) = (j == id && not (foreign owner c)) ≡ false
IsOther id c (expires now) = now < c.expires_at
