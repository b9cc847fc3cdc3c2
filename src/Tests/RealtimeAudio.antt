-- ===== src/Tests/RealtimeAudio.antt =====
-- The turn detector and the buffers on samples that are numbers.
use flowhunt_voicebot.Base.{ℕ, ◌≤◌, refl, Bool, true, false, List, [], ◌∷◌, length, ltb, arith}
use flowhunt_voicebot.RealtimeAudio.Audio.{Numbers, Config, block_ms}
use flowhunt_voicebot.RealtimeAudio.TurnDetector.{State, rms_detector, process_block}
use flowhunt_voicebot.RealtimeAudio.TurnDetector.Samples.{
  IsSettled, Conserves, process_block-Conserves,
}
use flowhunt_voicebot.RealtimeAudio.TurnDetector.Timing.{
  IsTimed, quiet_ms, opening_after, process_block-IsTimed,
}
use flowhunt_voicebot.RealtimeAudio.Jitter.{
  JitterConfig, frame_samples, max_delay_samples, push, pop, IsNewest, IsPopped, push-pop, Capture,
  append, total, IsCounted, append-IsCounted,
}

abbrev largest : List ℕ → ℕ
largest [] = 0
largest (x ∷ xs) = let m = largest xs in elim (ltb m x) [ true ↦ x | false ↦ m ]

abbrev numbers : Numbers
numbers = record { Sample = ℕ; Level = ℕ; rms = largest; zero_level = 0; below = ltb }

abbrev config : Config numbers
config = record {
  sample_rate = 1000;
  start_threshold = 5;
  stop_threshold = 3;
  vad_start_ms = 2;
  silence_ms = 3;
  min_ms = 2;
  max_ms = 10;
  barge_in_threshold = 7;
}

-- A turn under way.
abbrev speaking : State numbers
speaking = record {
  is_recording = true;
  collected = (6 ∷ 8 ∷ []) ∷ [];
  pending_start = [];
  pending_start_ms = 0;
  silence_ms = 0;
  speech_ms = 2;
}

process_block-Conserves_example :
    let (r, s') =
      process_block numbers config (rms_detector numbers) speaking (0 ∷ 1 ∷ 0 ∷ []) false false in
    IsSettled numbers config (rms_detector numbers) s'
    × Conserves numbers config
        (rms_detector numbers)
        r.decision
        speaking
        (0 ∷ 1 ∷ 0 ∷ [])
        false
        false
        s'
        r.audio
process_block-Conserves_example =
    process_block-Conserves numbers config (rms_detector numbers) speaking (0 ∷ 1 ∷ 0 ∷ []) false
      false refl

-- The same turn a silent block later.
abbrev pausing : State numbers
pausing = record {
  is_recording = true;
  collected = (6 ∷ 8 ∷ []) ∷ (1 ∷ []) ∷ [];
  pending_start = [];
  pending_start_ms = 0;
  silence_ms = 1;
  speech_ms = 3;
}

pausing-IsTimed : IsTimed numbers config (rms_detector numbers) 1 pausing
unfolding block_ms rms_detector quiet_ms
pausing-IsTimed = record {
  waiting = refl;
  speaking = refl;
  quiet = refl;
  idle = λ e. absurd (ground (arith, e));
  opened = λ e. omega arith;
}

process_block-IsTimed_example :
    let (r, s') = process_block numbers config (rms_detector numbers) pausing (2 ∷ []) true false in
    IsTimed numbers config
      (rms_detector numbers)
      (opening_after numbers config (rms_detector numbers) 1 r.decision s')
      s'
process_block-IsTimed_example =
    process_block-IsTimed numbers config (rms_detector numbers) 1 pausing (2 ∷ []) true false
      pausing-IsTimed

abbrev blocks : List (List ℕ × Bool × Bool)
blocks = (9 ∷ 9 ∷ [], false, false) ∷ (1 ∷ [], false, false) ∷ []

abbrev jitter : JitterConfig
jitter = record { sample_rate = 1000; frame_ms = 2; target_delay_ms = 2; max_delay_ms = 4 }

abbrev buffered : List ℕ
buffered = 1 ∷ 2 ∷ 3 ∷ []

abbrev arrived : List ℕ
arrived = 4 ∷ 5 ∷ []

fits : length buffered ≤ max_delay_samples jitter
unfolding max_delay_samples frame_samples
fits = omega arith

push-pop_example :
    IsNewest jitter buffered arrived (push jitter buffered arrived)
    × IsPopped jitter (push jitter buffered arrived) (pop jitter (push jitter buffered arrived))
push-pop_example = push-pop jitter buffered arrived fits

abbrev capture : Capture ℕ
capture = record {
  enabled = true;
  sample_rate = 1000;
  max_ms = 3;
  blocks = (1 ∷ 2 ∷ []) ∷ [];
  samples = 2;
}

capture-IsCounted : IsCounted capture
unfolding total
capture-IsCounted = record { exact = refl; bounded = omega arith }

append-IsCounted_example : IsCounted (append capture (3 ∷ 4 ∷ []))
append-IsCounted_example = append-IsCounted capture (3 ∷ 4 ∷ []) capture-IsCounted
