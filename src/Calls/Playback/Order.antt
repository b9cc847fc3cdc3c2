-- ===== src/Calls/Playback/Order.antt =====
-- What is queued is played in order, once, and in full packets.
use flowhunt_voicebot.Base.{
  ℕ, zero, suc, ◌+◌, ◌-◌, ◌≤◌, ◌≡◌, refl, sym, ap, ◌∙◌, subst, Bool, Option, none, some, List, [],
  ◌∷◌, ◌++◌, append-nil, append_assoc, take, drop, length, length-append, length-drop, length-take,
  take-drop, take_all, take_nil, drop-drop, ltb, leb, arith, Bool-cases, inl, inr,
}
use flowhunt_voicebot.Calls.Playback.{
  PlaybackBuffer, Packet, Values, new_buffer, interrupt, enqueue, begin, silent, play, next_packet,
}

module _ {A : Type 0} where
  -- The samples of the item that is played which are still to come.
  abbrev pub rest_of : Option (List A) → ℕ → List A
  rest_of none position = []
  rest_of (some c) position = drop position c

  abbrev pub queued : List (List A × Values) → List A
  queued [] = []
  queued ((audio, values) ∷ items) = audio ++ queued items

  -- All samples that are still to come, in their order.
  abbrev pub pending : PlaybackBuffer A → List A
  pending b = rest_of b.current b.position ++ queued b.queue

  -- The samples that the next packet plays: those of one item, at most `n`.
  abbrev pub heard : PlaybackBuffer A → ℕ → List A
  heard b n = take n (rest_of (begin b).0.current (begin b).0.position)

  queued-append :
      (items : List (List A × Values)) (audio : List A) (values : Values)
      → queued (items ++ ((audio, values) ∷ [])) ≡ queued items ++ audio
  queued-append [] audio values = append-nil audio
  queued-append ((a, v) ∷ items) audio values =
      ap (λ q. a ++ q) (queued-append items audio values)
      ∙ sym (append_assoc a (queued items) audio)

  begin_pending :
      (b : PlaybackBuffer A) (c : Option (List A)) (items : List (List A × Values))
      → b.current ≡ c
      → b.queue ≡ items
      → pending (begin b).0 ≡ pending b
  unfolding begin
  begin_pending b (some c) items now waiting = ground (arith, now)
  begin_pending b none [] now waiting = ground (arith, now, waiting)
  begin_pending b none ((audio, values) ∷ items) now waiting = ground (arith, now, waiting)

  pending-begin : (b : PlaybackBuffer A) → pending (begin b).0 ≡ pending b
  pending-begin b = begin_pending b b.current b.queue refl refl

  module _ (silence : A) where
    length-silent : (n : ℕ) → length (silent silence n) ≡ n
    length-silent zero = refl
    length-silent (suc n) = ap suc (length-silent n)

    -- What a packet is, and what it leaves.
    abbrev pub IsPlayed : ℕ → List A → List A → Packet A × PlaybackBuffer A → Type 0
    IsPlayed n before now (p, b) =
        (p.samples ≡ now ++ silent silence (n - length now))
        × (length p.samples ≡ n)
        × (before ≡ now ++ pending b)

    padded :
        (n : ℕ) (packet : List A)
        → length packet ≤ n
        → length (packet ++ silent silence (n - length packet)) ≡ n
    padded n packet h = omega (
      arith,
      h,
      length-append packet (silent silence (n - length packet)),
      length-silent (n - length packet),
    )

    rest_out :
        (n : ℕ) (r : List A) (b : PlaybackBuffer A)
        → length r ≤ n
        → r ++ queued b.queue ≡ take n r ++ queued b.queue
    rest_out n r b h = ap (λ v. v ++ queued b.queue) (sym (take_all n r h))

    play-IsPlayed :
        (b : PlaybackBuffer A) (c : Option (List A)) (n : ℕ) (started : Bool)
        → b.current ≡ c
        → IsPlayed n
            (rest_of c b.position ++ queued b.queue)
            (take n (rest_of c b.position))
            (play silence b c n started)
    unfolding play
    play-IsPlayed b none n started now = rw (take_nil {A = A} n) (
      ap (λ k. silent silence k) {y = n - 0} (omega arith),
      length-silent n,
      ap (λ c. rest_of c b.position ++ queued b.queue) (sym now),
    )
    play-IsPlayed b (some c) n started now =
        let r = drop b.position c in
        let packet = take n r in
        let size = length-take n r in
        elim (Bool-cases (ltb (length packet) n)) [
          | inl short ↦ rw short (
            refl,
            padded n packet (ground (arith, short)),
            rest_out n r b (ground (arith, short, size)),
          )
          | inr full ↦
              let exact : length packet ≡ n = ground (arith, full, size) in
              let unpadded : packet ≡ packet ++ silent silence (n - length packet) = sym (
                ap (λ k. packet ++ silent silence k) {x = n - length packet} {y = 0}
                  (omega (arith, exact))
                ∙ append-nil packet) in
              elim (Bool-cases (leb (length c) (b.position + length packet))) [
                | inl last ↦
                    rw (full, last)
                      (
                        unpadded,
                        exact,
                        rest_out n r b (ground (arith, last, exact, length-drop b.position c)),
                      )
                | inr more ↦
                    rw (full, more)
                      (
                        unpadded,
                        exact,
                        ap (λ v. v ++ queued b.queue) (sym (take-drop n r))
                            ∙ append_assoc packet (drop n r) (queued b.queue)
                            ∙ ap (λ v. packet ++ (v ++ queued b.queue))
                                (drop-drop n b.position c
                                  ∙ ap (λ k. drop k c) {x = b.position + n}
                                      {y = b.position + length packet} (omega (arith, exact)))
                            ∙ ap
                                (λ v.
                                  packet
                                  ++ (rest_of v (b.position + length packet) ++ queued b.queue))
                                (sym now),
                      )
              ]
        ]

    -- One packet, of any length, from any buffer: it is full; it plays samples of one item, at most
    -- its length, and is filled up with silence behind them; and what was still to come is what it
    -- plays, followed by what is still to come after it.
    next_packet-IsPlayed :
        (b : PlaybackBuffer A) (n : ℕ)
        → IsPlayed n (pending b) (heard b n) (next_packet silence b n)
    unfolding next_packet
    next_packet-IsPlayed b n =
        subst (λ (v : List A). IsPlayed n v (heard b n) (next_packet silence b n)) (pending-begin b)
          (play-IsPlayed (begin b).0 (begin b).0.current n (begin b).1 refl)

    -- A call of the buffer.
    pub data Call : Type 0 where
      enqueues : List A → Values → Call
      plays : ℕ → Call
      interrupts : Call

    unfoldable pub step : PlaybackBuffer A → Call → PlaybackBuffer A
    unfolding enqueue next_packet interrupt
    step b (enqueues audio values) = (enqueue b audio values).1
    step b (plays n) = (next_packet silence b n).1
    step b interrupts = (interrupt b).1

    unfoldable pub run : PlaybackBuffer A → List Call → PlaybackBuffer A
    unfolding step
    run b [] = b
    run b (c ∷ cs) = run (step b c) cs

    -- What a history queues.
    abbrev pub enqueued : List Call → List A
    enqueued [] = []
    enqueued (enqueues audio values ∷ cs) = audio ++ enqueued cs
    enqueued (plays n ∷ cs) = enqueued cs
    enqueued (interrupts ∷ cs) = enqueued cs

    -- What leaves the buffer in a history: what the packets play, and what an interruption drops.
    abbrev pub gone : PlaybackBuffer A → List Call → List A
    gone b [] = []
    gone b (enqueues audio values ∷ cs) = gone (enqueue b audio values).1 cs
    gone b (plays n ∷ cs) = heard b n ++ gone (next_packet silence b n).1 cs
    gone b (interrupts ∷ cs) = pending b ++ gone (interrupt b).1 cs

    pending-enqueue :
        (b : PlaybackBuffer A) (audio : List A) (values : Values)
        → pending (enqueue b audio values).1 ≡ pending b ++ audio
    unfolding enqueue
    pending-enqueue b audio values =
        ap (λ q. rest_of b.current b.position ++ q) (queued-append b.queue audio values)
        ∙ sym (append_assoc (rest_of b.current b.position) (queued b.queue) audio)

    run_from-gone :
        (b : PlaybackBuffer A) (cs : List Call)
        → pending b ++ enqueued cs ≡ gone b cs ++ pending (run b cs)
    unfolding run step
    run_from-gone b [] = append-nil (pending b)
    run_from-gone b (enqueues audio values ∷ cs) =
        sym (append_assoc (pending b) audio (enqueued cs))
        ∙ ap (λ p. p ++ enqueued cs) (sym (pending-enqueue b audio values))
        ∙ run_from-gone (enqueue b audio values).1 cs
    run_from-gone b (plays n ∷ cs) =
        let b' = (next_packet silence b n).1 in
        ap (λ p. p ++ enqueued cs) (next_packet-IsPlayed b n).2
        ∙ append_assoc (heard b n) (pending b') (enqueued cs)
        ∙ ap (λ p. heard b n ++ p) (run_from-gone b' cs)
        ∙ sym (append_assoc (heard b n) (gone b' cs) (pending (run b' cs)))
    run_from-gone b (interrupts ∷ cs) =
        let b' = (interrupt b).1 in
        ap (λ p. pending b ++ p) (run_from-gone b' cs)
        ∙ sym (append_assoc (pending b) (gone b' cs) (pending (run b' cs)))

    -- Of all the audio that a history of enqueues, packets and interruptions queues, each sample
    -- leaves the buffer in its order and once, by a packet or by an interruption, or is still to
    -- come. Each packet from any buffer is full: it plays what it takes, filled up with silence.
    pub run-gone :
        (cs : List Call) (b : PlaybackBuffer A) (n : ℕ)
        → (enqueued cs ≡ gone new_buffer cs ++ pending (run new_buffer cs))
          × IsPlayed n (pending b) (heard b n) (next_packet silence b n)
    unfolding new_buffer
    run-gone cs b n = (run_from-gone new_buffer cs, next_packet-IsPlayed b n)
