-- ===== src/RealtimeAudio/Jitter.antt =====
-- `AudioJitterBuffer` and `DebugAudioCapture` of voicebot/realtime_audio.py, over any samples. The
-- milliseconds of the configuration are turned into samples exactly.
use flowhunt_voicebot.Base.{
  ℕ, zero, suc, ◌+◌, ◌-◌, ◌*◌, ◌/◌, ◌≤◌, ◌<◌, max, min, ◌≡◌, refl, sym, ap, inl, inr, Bool, true,
  false, Option, none, some, List, [], ◌∷◌, ◌++◌, append-nil, length, length-append, length-drop,
  take, take-drop, drop, ltb, leb, eqb, if◌then◌else◌, Bool-cases, ltb-false→le, arith, Result, ok,
  raise_if, ◌>>◌,
}

pub record JitterConfig : Type 0 where
  pub sample_rate : ℕ
  pub frame_ms : ℕ
  pub target_delay_ms : ℕ
  pub max_delay_ms : ℕ

unfoldable pub make_jitter_config : JitterConfig → Result JitterConfig
make_jitter_config c = do
  raise_if (eqb c.sample_rate 0) "sample_rate must be greater than 0"
  raise_if (eqb c.frame_ms 0) "frame_ms must be greater than 0"
  raise_if (ltb c.max_delay_ms c.frame_ms) "max_delay_ms must be greater than or equal to frame_ms"
  raise_if (ltb c.max_delay_ms c.target_delay_ms)
      "max_delay_ms must be greater than or equal to target_delay_ms"
  ok c

unfoldable pub frame_samples : JitterConfig → ℕ
frame_samples c = max 1 (c.sample_rate * c.frame_ms / 1000)

unfoldable pub target_delay_samples : JitterConfig → ℕ
target_delay_samples c = c.sample_rate * c.target_delay_ms / 1000

unfoldable pub max_delay_samples : JitterConfig → ℕ
max_delay_samples c = max (frame_samples c) (c.sample_rate * c.max_delay_ms / 1000)

-- The samples buffered, oldest first.
module _ {ℓ} {A : Type ℓ} (c : JitterConfig) where
  -- `_trim`
  unfoldable pub trim : List A → List A
  trim buffer = drop (length buffer - max_delay_samples c) buffer

  unfoldable pub push : List A → List A → List A
  unfolding trim
  push buffer block = if eqb (length block) 0 then buffer else trim (buffer ++ block)

  unfoldable pub ready : List A → Bool
  ready buffer = leb (target_delay_samples c + frame_samples c) (length buffer)

  unfoldable pub pop : List A → Option (List A) × List A
  unfolding ready
  pop buffer =
      if ready buffer
      then (some (take (frame_samples c) buffer), drop (frame_samples c) buffer)
      else (none, buffer)

length-take_of_le {ℓ} : {A : Type ℓ} (n : ℕ) (l : List A) → n ≤ length l → length (take n l) ≡ n
length-take_of_le zero l h = refl
length-take_of_le (suc n) [] h = absurd (omega arith)
length-take_of_le (suc n) (x ∷ l) h = ap suc (length-take_of_le n l (omega arith))

module _ {ℓ} {A : Type ℓ} (c : JitterConfig) (buffer block : List A) where
  -- The buffer holds the newest samples, as many as there are and the delay allows.
  abbrev pub IsNewest : List A → Type ℓ
  IsNewest kept =
      (length kept ≡ min (max_delay_samples c) (length buffer + length block))
      × ((dropped : List A) × (dropped ++ kept ≡ buffer ++ block))

  push-IsNewest : length buffer ≤ max_delay_samples c → IsNewest (push c buffer block)
  unfolding push
  push-IsNewest h = elim (Bool-cases (eqb (length block) 0)) [
    | inl none_new ↦ rw (none_new, push) (ground (arith), ([], nothing_added block none_new))
    | inr some_new ↦
        let all = buffer ++ block in
        let over = length all - max_delay_samples c in
        rw (some_new, push)
          (
            omega (arith, length-drop over all, length-append buffer block),
            (take over all, take-drop over all),
          )
  ]
    where
      nothing_added : (b : List A) → eqb (length b) 0 ≡ true → buffer ≡ buffer ++ b
      nothing_added [] e = sym (append-nil buffer)
      nothing_added (x ∷ b) e = absurd (ground arith)

module _ {ℓ} {A : Type ℓ} (c : JitterConfig) (buffer : List A) where
  -- A pop gives one whole frame from the front if the buffer has a frame over its target delay,
  -- and otherwise none.
  abbrev pub IsPopped : Option (List A) × List A → Type ℓ
  IsPopped (none, rest) =
      (length buffer < target_delay_samples c + frame_samples c) × (rest ≡ buffer)
  IsPopped (some frame, rest) =
      (target_delay_samples c + frame_samples c ≤ length buffer)
      × (frame ++ rest ≡ buffer)
      × (length frame ≡ frame_samples c)

  pop-IsPopped : IsPopped (pop c buffer)
  unfolding pop
  pop-IsPopped = elim (Bool-cases (ready c buffer)) [
    | inr early ↦ rw (early, pop) (ground (arith, early), refl)
    | inl full ↦
        rw (full, pop)
          (
            ground (arith, full),
            take-drop (frame_samples c) buffer,
            length-take_of_le (frame_samples c) buffer (ground (arith, full)),
          )
  ]

-- The buffer is a queue of bounded delay. From a buffer within its limit a push leaves the newest
-- samples of the old buffer with the block at its end, all of them up to the limit, so that only
-- the oldest are dropped and only those over the limit. A pop gives one whole frame from the front
-- and leaves the rest exactly when the samples of the target delay and of a frame are there, and
-- otherwise gives none and changes nothing.
pub push-pop {ℓ} :
    {A : Type ℓ} (c : JitterConfig) (buffer block : List A)
    → length buffer ≤ max_delay_samples c
    → IsNewest c buffer block (push c buffer block)
      × IsPopped c (push c buffer block) (pop c (push c buffer block))
push-pop c buffer block h = (push-IsNewest c buffer block h, pop-IsPopped c (push c buffer block))

-- `DebugAudioCapture`; `max_ms` is `max_seconds` in milliseconds.
pub record Capture {ℓ} (A : Type ℓ) : Type ℓ where
  pub enabled : Bool
  pub sample_rate : ℕ
  pub max_ms : ℕ
  pub blocks : List (List A)
  pub samples : ℕ

module _ {ℓ} {A : Type ℓ} where
  abbrev pub clear : Capture A → Capture A
  clear c = record c { blocks = []; samples = 0 }

  abbrev pub max_samples : Capture A → ℕ
  max_samples c = c.max_ms * c.sample_rate / 1000

  -- `while self._samples > max_samples and self._blocks`, over the blocks that are left.
  unfoldable pub drop_blocks : ℕ → List (List A) → ℕ → List (List A) × ℕ
  drop_blocks limit [] n = ([], n)
  drop_blocks limit (b ∷ bs) n = elim (ltb limit n) [
    | false ↦ (b ∷ bs, n)
    | true ↦ drop_blocks limit bs (n - length b)
  ]

  -- `_trim`
  unfoldable pub trim_capture : Capture A → Capture A
  unfolding drop_blocks
  trim_capture c =
      if eqb (max_samples c) 0
      then clear c
      else (let (bs, n) = drop_blocks (max_samples c) c.blocks c.samples in
          record c { blocks = bs; samples = n })

  unfoldable pub append : Capture A → List A → Capture A
  append c block =
      if c.enabled
      then if eqb (length block) 0
        then c
        else trim_capture
            (record c { blocks = c.blocks ++ (block ∷ []); samples = c.samples + length block })
      else c

  unfoldable pub total : List (List A) → ℕ
  total [] = 0
  total (b ∷ bs) = length b + total bs

  total-snoc : (bs : List (List A)) (b : List A) → total (bs ++ (b ∷ [])) ≡ total bs + length b
  unfolding total
  total-snoc [] b = omega arith
  total-snoc (x ∷ bs) b = omega (arith, total-snoc bs b)

  -- The counter of a capture is the number of samples that it holds, and is within its limit.
  pub record IsCounted (c : Capture A) : Type 0 where
    pub exact : c.samples ≡ total c.blocks
    pub bounded : c.samples ≤ max_samples c

  drop_blocks-IsCounted :
      (limit : ℕ) (bs : List (List A)) (n : ℕ)
      → n ≡ total bs
      → let (bs', n') = drop_blocks limit bs n in (n' ≡ total bs') × (n' ≤ limit)
  unfolding drop_blocks total
  drop_blocks-IsCounted limit [] n h = (h, omega arith)
  drop_blocks-IsCounted limit (b ∷ bs) n h = elim (Bool-cases (ltb limit n)) [
    | inr fits ↦ rw (fits, drop_blocks) (h, ltb-false→le _ _ fits)
    | inl over ↦
        rw (over, drop_blocks) (drop_blocks-IsCounted limit bs (n - length b) (omega arith))
  ]

  -- Appending to a debug capture, enabled or not, keeps its counter exact and its size bounded.
  pub append-IsCounted : (c : Capture A) (block : List A) → IsCounted c → IsCounted (append c block)
  unfolding append trim_capture total
  append-IsCounted c block h = ground (
    arith,
    total-snoc c.blocks block,
    drop_blocks-IsCounted (max_samples c) (c.blocks ++ (block ∷ [])) (c.samples + length block),
  )
