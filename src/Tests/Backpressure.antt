-- ===== src/Tests/Backpressure.antt =====
-- Backpressure with room for two.
use flowhunt_voicebot.Base.{[], ◌∷◌, arith, text_key}
use flowhunt_voicebot.Base.Dict
use flowhunt_voicebot.Scaling.Backpressure.{
  Backpressure, acquires, releases, after_calls, IsBounded, after_calls-IsBounded,
}

abbrev idle : Backpressure
idle = record { max_inflight = 2; inflight_by_key = [] }

idle-IsBounded : IsBounded idle
unfolding Dict.get
idle-IsBounded = λ key. omega arith

after_calls-IsBounded_example :
    IsBounded (after_calls (acquires "w" ∷ acquires "w" ∷ acquires "w" ∷ releases "w" ∷ []) idle)
after_calls-IsBounded_example =
    after_calls-IsBounded (acquires "w" ∷ acquires "w" ∷ acquires "w" ∷ releases "w" ∷ []) idle
      idle-IsBounded
