-- ===== src/RealtimeAudio/TurnDetector/Samples.antt =====
-- No sample of a turn is lost, doubled or moved.
use flowhunt_voicebot.Base.{
  ◌≡◌, refl, sym, ap, ◌∙◌, Bool, true, false, ◌||◌, ◌⊎◌, length, eqb, Option, none, some, List, [],
  ◌∷◌, ◌++◌, append-nil, append_assoc, if◌then◌else◌, arith,
}
use flowhunt_voicebot.RealtimeAudio.Audio.{Numbers, Config, concat}
use flowhunt_voicebot.RealtimeAudio.TurnDetector.{
  Decision, ignored, silence, pending_start, speech_started, speech_continues, speech_finished,
  speech_too_short, Detector, State, process_block,
}

module _ {ℓ} {A : Type ℓ} where
  concat-append : (xs ys : List (List A)) → concat (xs ++ ys) ≡ concat xs ++ concat ys
  concat-append [] ys = refl
  concat-append (x ∷ xs) ys =
      ap (λ l. x ++ l) (concat-append xs ys) ∙ sym (append_assoc x (concat xs) (concat ys))

  concat-snoc : (xs : List (List A)) (x : List A) → concat (xs ++ (x ∷ [])) ≡ concat xs ++ x
  concat-snoc xs x = concat-append xs (x ∷ []) ∙ ap (λ l. concat xs ++ l) (append-nil x)

module _ (num : Numbers) (c : Config num) (vad : Detector num) where
  open num use {Sample}

  -- All that the detector holds of the caller, oldest sample first.
  abbrev pub held : State num → List Sample
  held s = concat (s.pending_start ++ s.collected)

  -- Blocks wait in one place at a time: before the turn has started or within it.
  abbrev pub IsSettled : State num → Type 0
  IsSettled s = if s.is_recording then (s.pending_start ≡ []) else (s.collected ≡ [])

  -- Whether a block is heard, at the threshold of its kind.
  abbrev pub is_heard : List Sample → Bool → Bool
  is_heard x playback =
      (vad x (if playback then c.barge_in_threshold else c.start_threshold)).active

  -- Audio that was not part of a turn is discarded: nothing was under way, and nothing is held.
  abbrev pub Discards : State num → State num → Option (List Sample) → Type 0
  Discards s s' audio = (s.is_recording ≡ false) × (held s' ≡ []) × (audio ≡ none)

  -- The block is added to what is held, and the turn is under way behind it or is not.
  abbrev pub Adds : State num → List Sample → State num → Option (List Sample) → Bool → Type 0
  Adds s x s' audio under_way =
      (held s' ≡ held s ++ x) × (audio ≡ none) × (s'.is_recording ≡ under_way)

  -- The turn that was under way is handed out with the block at its end.
  abbrev pub HandsOut : State num → List Sample → State num → Option (List Sample) → Type 0
  HandsOut s x s' audio =
      (s.is_recording ≡ true)
      × (held s' ≡ [])
      × (s'.is_recording ≡ false)
      × (audio ≡ some (held s ++ x))

  -- What a block may do, by the decision that is returned.
  abbrev pub Conserves :
      Decision → State num → List Sample → Bool → Bool → State num → Option (List Sample) → Type 0
  Conserves pending_start s x playback echo s' audio =
      (s.is_recording ≡ false) × Adds s x s' audio false
  Conserves speech_started s x playback echo s' audio =
      (s.is_recording ≡ false) × Adds s x s' audio true
  Conserves speech_continues s x playback echo s' audio =
      (s.is_recording ≡ true) × Adds s x s' audio true
  Conserves speech_finished s x playback echo s' audio = HandsOut s x s' audio
  Conserves speech_too_short s x playback echo s' audio = HandsOut s x s' audio
  Conserves ignored s x playback echo s' audio = (playback || echo ≡ true) × Discards s s' audio
  Conserves silence s x playback echo s' audio =
      ((x ≡ []) × (s' ≡ s) × (audio ≡ none)) ⊎ ((is_heard x playback ≡ false) × Discards s s' audio)

  nil_of_length : (x : List Sample) → eqb (length x) 0 ≡ true → x ≡ []
  nil_of_length [] h = refl
  nil_of_length (y ∷ x) h = absurd (ground (arith, h))

  -- Audio of a turn is never lost: while a turn is pending or under way each block that is added
  -- goes to the end of what is held; a turn under way ends only by being handed out, as exactly
  -- what was held with the block at the end, and nothing is held any more. What is discarded is
  -- only audio from before a turn was under way: the block with what was pending before it, if the
  -- block is not heard, or if it is ignored during playback or echo suppression. An empty block
  -- changes nothing.
  pub process_block-Conserves :
      (s : State num) (x : List Sample) (playback echo : Bool)
      → IsSettled s
      → let (r, s') = process_block num c vad s x playback echo in
        IsSettled s' × Conserves r.decision s x playback echo s' r.audio
  unfolding process_block
  process_block-Conserves s x playback echo h = ground (
    arith,
    nil_of_length x,
    concat-snoc s.pending_start x,
    concat-snoc s.collected x,
    append-nil s.pending_start,
    append-nil (s.pending_start ++ (x ∷ [])),
  )
