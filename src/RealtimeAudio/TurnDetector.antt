-- ===== src/RealtimeAudio/TurnDetector.antt =====
-- `TurnDetector` of voicebot/realtime_audio.py: blocks of caller audio go in, and come out joined
-- as one turn. A voice activity detector is a function from samples and a threshold.
pub mod Samples
pub mod Timing
use flowhunt_voicebot.Base.{
  ℕ, ◌+◌, ◌*◌, Bool, true, false, not, ◌&&◌, Option, none, some, List, [], ◌∷◌, ◌++◌, length, ltb,
  eqb, if◌then◌else◌,
}
use flowhunt_voicebot.RealtimeAudio.Audio.{Numbers, Config, concat, block_ms}

pub data Decision : Type 0 where
  ignored silence pending_start speech_started : Decision
  speech_continues speech_finished speech_too_short : Decision

module _ (num : Numbers) where
  open num use {Sample, Level, rms, below}

  pub record VoiceActivity : Type 0 where
    pub level : Level
    pub active : Bool

  abbrev pub Detector : Type 0
  Detector = List Sample → Level → VoiceActivity

  -- `RmsVoiceActivityDetector.detect`
  unfoldable pub rms_detector : Detector
  rms_detector samples threshold = record {
    level = rms samples;
    active = not (below (rms samples) threshold);
  }

  -- The duration is a number of samples, to be divided by the sample rate.
  pub record Outcome : Type 0 where
    pub decision : Decision
    pub level : Level
    pub block_ms : ℕ
    pub started : Bool
    pub finished : Bool
    pub interrupt_playback : Bool
    pub duration : ℕ
    pub silence_ms : ℕ
    pub audio : Option (List Sample)

  -- `TurnDetectorState`
  pub record State : Type 0 where
    pub is_recording : Bool
    pub collected : List (List Sample)
    pub pending_start : List (List Sample)
    pub pending_start_ms : ℕ
    pub silence_ms : ℕ
    pub speech_ms : ℕ

  unfoldable pub initial : State
  initial = record {
    is_recording = false;
    collected = [];
    pending_start = [];
    pending_start_ms = 0;
    silence_ms = 0;
    speech_ms = 0;
  }

  abbrev pub reset_pending : State → State
  reset_pending s = record s { pending_start = []; pending_start_ms = 0 }

  abbrev pub reset_recording : State → State
  reset_recording s = record s {
    is_recording = false;
    collected = [];
    silence_ms = 0;
    speech_ms = 0;
  }

  -- A result with the defaults of `TurnDetectionResult`.
  abbrev pub plain : Decision → Level → ℕ → Outcome
  plain d l ms = record {
    decision = d;
    level = l;
    block_ms = ms;
    started = false;
    finished = false;
    interrupt_playback = false;
    duration = 0;
    silence_ms = 0;
    audio = none;
  }

  -- The milliseconds of some blocks, each rounded down.
  abbrev pub total_ms : ℕ → List (List Sample) → ℕ
  total_ms rate [] = 0
  total_ms rate (b ∷ bs) = block_ms rate (length b) + total_ms rate bs

  unfoldable pub should_suppress_input : Config num → VoiceActivity → Bool → Bool → Bool
  should_suppress_input c activity playback echo =
      if playback
      then not activity.active
      else if echo
      then below activity.level c.barge_in_threshold
      else false

  module _ (c : Config num) (vad : Detector) where
    -- `not self.state.is_recording`, with the activity of the block already detected.
    unfoldable pub wait_for_speech :
        State → List Sample → VoiceActivity → Bool → Bool → Outcome × State
    unfolding should_suppress_input
    wait_for_speech s samples activity playback echo =
        let ms = block_ms c.sample_rate (length samples) in
        let waiting = record s {
          pending_start = s.pending_start ++ (samples ∷ []);
          pending_start_ms = s.pending_start_ms + ms;
        } in
        if should_suppress_input c activity playback echo
        then (plain ignored activity.level ms, reset_pending s)
        else if not activity.active
        then (plain silence activity.level ms, reset_pending s)
        else if ltb waiting.pending_start_ms c.vad_start_ms
        then (plain pending_start activity.level ms, waiting)
        else (
          record (plain speech_started activity.level ms) {
            started = true;
            interrupt_playback = playback;
          },
          record (reset_pending s) {
            is_recording = true;
            collected = waiting.pending_start;
            silence_ms = 0;
            speech_ms = total_ms c.sample_rate waiting.pending_start;
          },
        )

    -- The end of a turn: its audio, and the detector ready for the next one.
    unfoldable pub finish_turn : State → Level → ℕ → Outcome × State
    finish_turn s level ms =
        let audio = concat s.collected in
        let too_short = ltb (length audio * 1000) (c.min_ms * c.sample_rate) in
        (
          record (plain (if too_short then speech_too_short else speech_finished) level ms) {
            finished = true;
            duration = length audio;
            silence_ms = s.silence_ms;
            audio = some audio;
          },
          reset_recording s,
        )

    unfoldable pub continue_speech : State → List Sample → Level → Outcome × State
    unfolding finish_turn
    continue_speech s samples level =
        let ms = block_ms c.sample_rate (length samples) in
        let stop = vad samples c.stop_threshold in
        let s' = record s {
          collected = s.collected ++ (samples ∷ []);
          speech_ms = s.speech_ms + ms;
          silence_ms = if stop.active then 0 else s.silence_ms + ms;
        } in
        if ltb s'.silence_ms c.silence_ms && ltb s'.speech_ms c.max_ms
        then (plain speech_continues level ms, s')
        else finish_turn s' level ms

    unfoldable pub process_block : State → List Sample → Bool → Bool → Outcome × State
    unfolding wait_for_speech continue_speech
    process_block s samples playback echo =
        let ms = block_ms c.sample_rate (length samples) in
        let threshold = if playback then c.barge_in_threshold else c.start_threshold in
        let activity = vad samples threshold in
        if eqb (length samples) 0
        then (plain silence activity.level ms, s)
        else if s.is_recording
        then continue_speech s samples activity.level
        else wait_for_speech s samples activity playback echo

    -- `current_audio`
    unfoldable pub current_audio : State → List Sample
    current_audio s = if s.is_recording then concat s.collected else []
