-- ===== src/Scaling/Queue/History.antt =====
-- Histories of a worker queue: any sequence of its calls, failing ones included.
use flowhunt_voicebot.Base.{ℕ, refl, String, Option, List, [], ◌∷◌, text_key, after}
use flowhunt_voicebot.Base.Dict
use flowhunt_voicebot.Base.Dict.{Dict}
use flowhunt_voicebot.Scaling.Envelope.{Envelope}
use flowhunt_voicebot.Scaling.Queue.{Store, empty, enqueue, expire, claim, renew, ack, release}
use flowhunt_voicebot.Scaling.Queue.Copies.{pending_copies}
use flowhunt_voicebot.Scaling.Queue.Invariant.{
  WellFormed, enqueue-WellFormed, expire-WellFormed, claim-WellFormed,
}
use flowhunt_voicebot.Scaling.Queue.Held.{renew-WellFormed, ack-WellFormed, release-WellFormed}

pub data Call : Type 0 where
  enqueues : Envelope → Call
  claims : String → String → ℕ → ℕ → ℕ → Call
  renews : String → String → ℕ → ℕ → Call
  acks : String → Option String → Call
  releases : String → Option String → Option String → ℕ → Call
  expires : ℕ → Call

unfoldable pub step : Store → Call → Store
step s (enqueues e) = after s (enqueue s e)
step s (claims queue owner limit ttl now) = after s (claim s queue owner limit ttl now)
step s (renews id owner ttl now) = after s (renew s id owner ttl now)
step s (acks id owner) = (ack s id owner).1
step s (releases id owner error now) = (release s id owner error now).1
step s (expires now) = (expire s now).1

unfoldable pub run : Store → List Call → Store
unfolding step
run s [] = s
run s (c ∷ cs) = run (step s c) cs

pub step-WellFormed : (s : Store) (c : Call) → WellFormed s → WellFormed (step s c)
unfolding step
step-WellFormed s (enqueues e) w = enqueue-WellFormed s e w
step-WellFormed s (claims queue owner limit ttl now) w =
    claim-WellFormed s queue owner limit ttl now w
step-WellFormed s (renews id owner ttl now) w = renew-WellFormed s id owner ttl now w
step-WellFormed s (acks id owner) w = ack-WellFormed s id owner w
step-WellFormed s (releases id owner error now) w = release-WellFormed s id owner error now w
step-WellFormed s (expires now) w = expire-WellFormed s now w

run_from-WellFormed : (s : Store) (cs : List Call) → WellFormed s → WellFormed (run s cs)
unfolding run
run_from-WellFormed s [] w = w
run_from-WellFormed s (c ∷ cs) w = run_from-WellFormed (step s c) cs (step-WellFormed s c w)

empty-WellFormed : WellFormed empty
unfolding empty pending_copies Dict.occurs Dict.has
empty-WellFormed = record { single = λ id. refl; keyed = tt }

-- After any calls on a new queue store, an item id that is known stands in exactly one of the
-- deques, the claims and the dead letters, exactly once; an id that is not known stands nowhere;
-- and every claim is filed under the id of its item.
pub run-WellFormed : (cs : List Call) → WellFormed (run empty cs)
run-WellFormed cs = run_from-WellFormed empty cs empty-WellFormed
