-- ===== src/RealtimeAudio/TurnDetector/Timing.antt =====
-- The clocks of the turn detector, and why every turn ends.
use flowhunt_voicebot.Base.{
  ℕ, ◌+◌, ◌≤◌, ◌<◌, ◌≡◌, refl, Bool, true, false, ◌||◌, List, [], ◌∷◌, ◌++◌, length, any, drop,
  drop-append, drop_nil, drop_all, length-append, if◌then◌else◌, arith,
}
use flowhunt_voicebot.RealtimeAudio.Audio.{Numbers, Config, block_ms}
use flowhunt_voicebot.RealtimeAudio.TurnDetector.{
  Decision, speech_started, speech_continues, Detector, State, total_ms, process_block,
}

module _ (num : Numbers) (c : Config num) (vad : Detector num) where
  open num use {Sample}

  total_ms-snoc :
      (bs : List (List Sample)) (x : List Sample)
      → total_ms num c.sample_rate (bs ++ (x ∷ []))
        ≡ total_ms num c.sample_rate bs + block_ms c.sample_rate (length x)
  total_ms-snoc [] x = omega arith
  total_ms-snoc (b ∷ bs) x = omega (arith, total_ms-snoc bs x)

  -- Whether a block of a turn counts as speech.
  abbrev pub is_speech : List Sample → Bool
  is_speech x = (vad x c.stop_threshold).active

  -- The milliseconds of the blocks behind the last one that is speech, or of all if none is.
  unfoldable pub quiet_ms : List (List Sample) → ℕ
  quiet_ms [] = 0
  quiet_ms (b ∷ bs) =
      let later = quiet_ms bs in
      if any is_speech (b ∷ bs) then later else total_ms num c.sample_rate (b ∷ bs)

  any-snoc :
      (bs : List (List Sample)) (x : List Sample)
      → any is_speech (bs ++ (x ∷ [])) ≡ any is_speech bs || is_speech x
  any-snoc [] x = ground arith
  any-snoc (b ∷ bs) x = ground (arith, any-snoc bs x)

  quiet_ms-none :
      (bs : List (List Sample))
      → any is_speech bs ≡ false
      → quiet_ms bs ≡ total_ms num c.sample_rate bs
  unfolding quiet_ms
  quiet_ms-none [] h = refl
  quiet_ms-none (b ∷ bs) h = rw h refl

  quiet_ms-snoc :
      (bs : List (List Sample)) (x : List Sample)
      → quiet_ms (bs ++ (x ∷ []))
        ≡ (if is_speech x then 0 else quiet_ms bs + block_ms c.sample_rate (length x))
  unfolding quiet_ms
  quiet_ms-snoc [] x = ground arith
  quiet_ms-snoc (b ∷ bs) x =
      ground (arith, quiet_ms-snoc bs x, quiet_ms-none bs, any-snoc bs x, total_ms-snoc bs x)

  -- The counters are those of the blocks that the detector holds. The first `opening` blocks of
  -- the turn are those with which it started, in which silence is not counted.
  pub record IsTimed (opening : ℕ) (s : State num) : Type 0 where
    pub waiting : s.pending_start_ms ≡ total_ms num c.sample_rate s.pending_start
    pub speaking : s.speech_ms ≡ total_ms num c.sample_rate s.collected
    pub quiet : s.silence_ms ≡ quiet_ms (drop opening s.collected)
    pub idle : s.is_recording ≡ false → s.collected ≡ []
    pub opened : s.is_recording ≡ true → opening ≤ length s.collected

  -- The number of blocks with which the turn started, behind a block.
  abbrev pub opening_after : ℕ → Decision → State num → ℕ
  opening_after opening speech_started s' = length s'.collected
  opening_after opening _ s' = opening

  -- Every block keeps the three counters exact: the time that waits to become a turn is that of
  -- the pending blocks, the time of speech is that of the blocks of the turn, and the time of
  -- silence is that of the blocks behind the last one that is speech, among those that came after
  -- the turn had started.
  pub process_block-IsTimed :
      (opening : ℕ) (s : State num) (x : List Sample) (playback echo : Bool)
      → IsTimed opening s
      → let (r, s') = process_block num c vad s x playback echo in
        IsTimed (opening_after opening r.decision s') s'
  unfolding process_block quiet_ms
  process_block-IsTimed opening s x playback echo h = ground (
    arith,
    total_ms-snoc s.pending_start x,
    total_ms-snoc s.collected x,
    quiet_ms-snoc (drop opening s.collected) x,
    drop-append opening s.collected (x ∷ []),
    drop_nil {A = List Sample} opening,
    length-append s.collected (x ∷ []),
    drop_all (length (s.pending_start ++ (x ∷ []))) (s.pending_start ++ (x ∷ [])),
  )

  -- The blocks of a stretch of input, each with the flags that it came with, all of which the
  -- detector answers by "speech continues".
  abbrev pub GoesOn : State num → List (List Sample × Bool × Bool) → Type 0
  GoesOn s [] = Unit
  GoesOn s ((x, playback, echo) ∷ xs) =
      ((process_block num c vad s x playback echo).0.decision ≡ speech_continues)
      × GoesOn (process_block num c vad s x playback echo).1 xs

  -- Each block is at least one millisecond long.
  abbrev pub AreAudible : List (List Sample × Bool × Bool) → Type 0
  AreAudible [] = Unit
  AreAudible ((x, playback, echo) ∷ xs) = (0 < block_ms c.sample_rate (length x)) × AreAudible xs
