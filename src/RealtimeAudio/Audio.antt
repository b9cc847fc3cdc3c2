-- ===== src/RealtimeAudio/Audio.antt =====
-- The numbers that the audio code computes with, and the configuration of turn detection
-- (`TurnDetectionConfig` of voicebot/realtime_audio.py).
use flowhunt_voicebot.Base.{
  ℕ, ◌*◌, ◌/◌, Bool, List, [], ◌∷◌, ◌++◌, ltb, eqb, if◌then◌else◌, Result, ok, raise_if, ◌>>◌,
}

-- What numpy gives: samples, signal levels, `rms`, the zero level and the test `<` on levels.
pub record Numbers : Type 1 where
  pub Sample : Type 0
  pub Level : Type 0
  pub rms : List Sample → Level
  pub zero_level : Level
  pub below : Level → Level → Bool

module _ {ℓ} {A : Type ℓ} where
  -- `np.concatenate`
  abbrev pub concat : List (List A) → List A
  concat [] = []
  concat (x ∷ xs) = x ++ concat xs

-- `int(len(samples) / sample_rate * 1000) if sample_rate else 0`
unfoldable pub block_ms : ℕ → ℕ → ℕ
block_ms rate samples = if eqb rate 0 then 0 else samples * 1000 / rate

module _ (num : Numbers) where
  open num use {Level, zero_level, below}

  pub record Config : Type 0 where
    pub sample_rate : ℕ
    pub start_threshold : Level
    pub stop_threshold : Level
    pub vad_start_ms : ℕ
    pub silence_ms : ℕ
    pub min_ms : ℕ  -- min_seconds
    pub max_ms : ℕ  -- max_seconds
    pub barge_in_threshold : Level

  -- `__post_init__`; the whole numbers are not negative here.
  unfoldable pub make_config : Config → Result Config
  make_config c = do
    raise_if (eqb c.sample_rate 0) "sample_rate must be greater than 0"
    raise_if (below c.start_threshold zero_level)
        "start_threshold must be greater than or equal to 0"
    raise_if (below c.stop_threshold zero_level) "stop_threshold must be greater than or equal to 0"
    raise_if (below c.start_threshold c.stop_threshold)
        "stop_threshold must be less than or equal to start_threshold"
    raise_if (eqb c.silence_ms 0) "silence_ms must be greater than 0"
    raise_if (eqb c.max_ms 0) "max_seconds must be greater than 0"
    raise_if (ltb c.max_ms c.min_ms) "max_seconds must be greater than or equal to min_seconds"
    raise_if (below c.barge_in_threshold zero_level)
        "barge_in_threshold must be greater than or equal to 0"
    ok c
