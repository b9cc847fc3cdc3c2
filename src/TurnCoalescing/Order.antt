-- ===== src/TurnCoalescing/Order.antt =====
-- No turn and no word of a turn is lost, repeated or overtaken on its way to the agent.
use flowhunt_voicebot.Base.{
  ℕ, ◌≡◌, refl, sym, ap, ◌∙◌, String, Bool, true, false, not, ◌&&◌, ◌||◌, leb, ◌-◌, if◌then◌else◌,
  Option, none, some, List, [], ◌∷◌, ◌++◌, append-nil, append_assoc, inl, inr, Option-cases,
  Bool-cases, or_default, letters, letters-append, letters-strip, text_key, ◌==◌, eq_iff, strip,
  ◌+s◌,
}
use flowhunt_voicebot.TurnCoalescing.{
  TurnRequest, PendingTurn, Emission, passed, merged, flushed, Coalescer, emit, coalesce_text,
  flush, wait_for_more, merge_or_wait, handle, can_coalesce_text, request_text,
}

-- What is counted of the turns: something of a request, kept while it waits and in what is emitted.
record Account (A : Type 0) : Type 0 where
  of_request : TurnRequest → List A
  of_pending : PendingTurn → List A
  of_emission : Emission → List A
  of_passed : (r : TurnRequest) → of_emission (passed r) ≡ of_request r
  of_flushed : (p : PendingTurn) (reason : String) → of_emission (flushed p reason) ≡ of_pending p
  of_merged :
      (p : PendingTurn) (r : TurnRequest)
      → of_emission (merged p r (coalesce_text p.text (request_text r)))
        ≡ of_pending p ++ of_request r
  of_waiting :
      (r : TurnRequest) (now : ℕ)
      → of_pending (record {
        turn_id = r.turn_id;
        transcript_event_id = r.transcript_event_id;
        text = request_text r;
        created_at = now;
      })
        ≡ of_request r

-- What is counted in a log of emissions, and in a turn that may be pending.
abbrev pub in_log : {A : Type 0} → (Emission → List A) → List Emission → List A
in_log of_emission [] = []
in_log of_emission (e ∷ es) = of_emission e ++ in_log of_emission es

abbrev pub in_pending : {A : Type 0} → (PendingTurn → List A) → Option PendingTurn → List A
in_pending of_pending none = []
in_pending of_pending (some p) = of_pending p

-- Everything counted of the turns that a coalescer took, in the order in which it is emitted.
abbrev pub in_order :
    {A : Type 0} → (Emission → List A) → (PendingTurn → List A) → Coalescer → List A
in_order of_emission of_pending c = in_log of_emission c.emitted ++ in_pending of_pending c.pending

flush-free : (c : Coalescer) (reason : String) → c.pending ≡ none → flush c reason ≡ c
unfolding flush
flush-free c reason free = rw (free, flush) (ap (λ p. record c { pending = p }) free)

merge_or_wait-free :
    (c : Coalescer) (r : TurnRequest) (can_merge : Bool) (now : ℕ)
    → c.pending ≡ none
    → merge_or_wait c r can_merge now ≡ wait_for_more c r now
unfolding merge_or_wait
merge_or_wait-free c r can_merge now free =
    rw (free, merge_or_wait) (ap (λ p. wait_for_more (record c { pending = p }) r now) free)

merge_or_wait-pending :
    (c : Coalescer) (r : TurnRequest) (can_merge : Bool) (now : ℕ) (p : PendingTurn)
    → c.pending ≡ some p
    → merge_or_wait c r can_merge now ≡ (
        if leb (now - p.created_at) c.window && can_merge
        then emit (record c { pending = none }) (merged p r (coalesce_text p.text (request_text r)))
        else wait_for_more c r now)
unfolding merge_or_wait
merge_or_wait-pending c r can_merge now p waits =
    rw (waits, merge_or_wait)
      (ap
        (λ q.
          if leb (now - p.created_at) c.window && can_merge
          then emit (record c { pending = none })
              (merged p r (coalesce_text p.text (request_text r)))
          else wait_for_more (record c { pending = q }) r now)
        waits)

module _ {A : Type 0} (a : Account A) where
  open a use {of_request, of_pending, of_emission}

  abbrev total : Coalescer → List A
  total = in_order of_emission of_pending

  log-snoc :
      (es : List Emission) (e : Emission)
      → in_log of_emission (es ++ (e ∷ [])) ≡ in_log of_emission es ++ of_emission e
  log-snoc [] e = append-nil (of_emission e)
  log-snoc (x ∷ es) e =
      ap (λ l. of_emission x ++ l) (log-snoc es e)
      ∙ sym (append_assoc (of_emission x) (in_log of_emission es) (of_emission e))

  -- What is emitted while no turn is pending comes behind all the rest.
  total-emit :
      (c : Coalescer) (e : Emission)
      → total (emit (record c { pending = none }) e) ≡ in_log of_emission c.emitted ++ of_emission e
  total-emit c e = append-nil (in_log of_emission (c.emitted ++ (e ∷ []))) ∙ log-snoc c.emitted e

  total_free : (c : Coalescer) → c.pending ≡ none → total c ≡ in_log of_emission c.emitted
  total_free c free =
      ap (λ p. in_log of_emission c.emitted ++ in_pending of_pending p) free
      ∙ append-nil (in_log of_emission c.emitted)

  total_waits :
      (c : Coalescer) (p : PendingTurn)
      → c.pending ≡ some p
      → total c ≡ in_log of_emission c.emitted ++ of_pending p
  total_waits c p waits = ap (λ q. in_log of_emission c.emitted ++ in_pending of_pending q) waits

  -- A flush emits the pending turn, and leaves none.
  total-flush :
      (c : Coalescer) (reason : String)
      → (total (flush c reason) ≡ total c) × ((flush c reason).pending ≡ none)
  unfolding flush
  total-flush c reason = elim (Option-cases c.pending) [
    | inl free ↦
        let same = flush-free c reason free in
        (ap total same, ap (λ (x : Coalescer). x.pending) same ∙ free)
    | inr (p, waits) ↦
        rw (waits, flush)
          (
            total-emit c (flushed p reason)
                ∙ ap (λ l. in_log of_emission c.emitted ++ l) (a.of_flushed p reason),
            refl,
          )
  ]

  total-wait_for_more :
      (c : Coalescer) (r : TurnRequest) (now : ℕ)
      → total (wait_for_more c r now) ≡ total c ++ of_request r
  total-wait_for_more c r now =
      let (same, none_left) = total-flush c "superseded_by_new_pending" in
      let c' = flush c "superseded_by_new_pending" in
      unfold wait_for_more in
      ap (λ l. in_log of_emission c'.emitted ++ l) (a.of_waiting r now)
      ∙ ap (λ l. l ++ of_request r) (sym (total_free c' none_left) ∙ same)

  total-passed :
      (c : Coalescer) (r : TurnRequest)
      → total (emit (flush c "new_turn_not_delayable") (passed r)) ≡ total c ++ of_request r
  total-passed c r =
      let (same, none_left) = total-flush c "new_turn_not_delayable" in
      let c' = flush c "new_turn_not_delayable" in
      ap (λ p. in_log of_emission (c'.emitted ++ (passed r ∷ [])) ++ in_pending of_pending p)
        none_left
      ∙ append-nil (in_log of_emission (c'.emitted ++ (passed r ∷ [])))
      ∙ log-snoc c'.emitted (passed r)
      ∙ ap (λ l. in_log of_emission c'.emitted ++ l) (a.of_passed r)
      ∙ ap (λ l. l ++ of_request r) (sym (total_free c' none_left) ∙ same)

  total-merged :
      (c : Coalescer) (p : PendingTurn) (r : TurnRequest)
      → c.pending ≡ some p
      → total
          (emit (record c { pending = none }) (merged p r (coalesce_text p.text (request_text r))))
        ≡ total c ++ of_request r
  total-merged c p r waits =
      total-emit c (merged p r (coalesce_text p.text (request_text r)))
      ∙ ap (λ l. in_log of_emission c.emitted ++ l) (a.of_merged p r)
      ∙ sym (append_assoc (in_log of_emission c.emitted) (of_pending p) (of_request r))
      ∙ ap (λ l. l ++ of_request r) (sym (total_waits c p waits))

  total-if :
      (b : Bool) (x y : Coalescer) (l : List A)
      → total x ≡ l
      → total y ≡ l
      → total (if b then x else y) ≡ l
  total-if true x y l e f = e
  total-if false x y l e f = f

  total-merge_or_wait :
      (c : Coalescer) (r : TurnRequest) (can_merge : Bool) (now : ℕ)
      → total (merge_or_wait c r can_merge now) ≡ total c ++ of_request r
  total-merge_or_wait c r can_merge now = elim (Option-cases c.pending) [
    | inl free ↦ ap total (merge_or_wait-free c r can_merge now free) ∙ total-wait_for_more c r now
    | inr (p, waits) ↦
        ap total (merge_or_wait-pending c r can_merge now p waits)
        ∙ total-if (leb (now - p.created_at) c.window && can_merge)
            (emit (record c { pending = none })
              (merged p r (coalesce_text p.text (request_text r))))
            (wait_for_more c r now) (total c ++ of_request r) (total-merged c p r waits)
            (total-wait_for_more c r now)
  ]

  total-handle :
      (c : Coalescer) (r : TurnRequest) (can_delay can_merge : Bool) (now : ℕ)
      → total (handle c r can_delay can_merge now) ≡ total c ++ of_request r
  unfolding handle
  total-handle c r can_delay can_merge now =
      total-if (not (can_coalesce_text c (request_text r)) || (r.stale || not can_delay))
        (emit (flush c "new_turn_not_delayable") (passed r)) (merge_or_wait c r can_merge now)
        (total c ++ of_request r) (total-passed c r) (total-merge_or_wait c r can_merge now)

-- The ids of the turns that an emission names.
abbrev pub turns_of : Emission → List (Option ℕ)
turns_of (passed r) = r.turn_id ∷ []
turns_of (merged p r text) = p.turn_id ∷ r.turn_id ∷ []
turns_of (flushed p reason) = p.turn_id ∷ []

-- All turns that the coalescer took, in the order in which it answers for them.
abbrev pub turns : Coalescer → List (Option ℕ)
turns = in_order turns_of (λ p. p.turn_id ∷ [])

-- What the agent is told by an emission, white space left out.
abbrev pub words_of : Emission → List ℕ
words_of (passed r) = letters (or_default r.text "")
words_of (merged p r text) = letters text
words_of (flushed p reason) = letters p.text

-- All that the coalescer was told, in the order in which the agent is told it.
abbrev pub words : Coalescer → List ℕ
words = in_order words_of (λ p. letters p.text)

letters-request_text : (r : TurnRequest) → letters (request_text r) ≡ letters (or_default r.text "")
unfolding request_text letters
letters-request_text r = elim (Option-cases r.text) [
  | inl none_given ↦ rw (none_given, request_text) refl
  | inr (t, given) ↦ rw (given, request_text) (letters-strip t)
]

-- Joined texts say what both said.
letters-coalesce_text : (a b : String) → letters (coalesce_text a b) ≡ letters a ++ letters b
unfolding coalesce_text letters
letters-coalesce_text a b =
    let first = letters-strip a in
    let second = letters-strip b in
    elim (Bool-cases (strip a == "")) [
      | inl no_first ↦
          rw (no_first, coalesce_text)
            (second
              ∙ ap (λ l. l ++ letters b)
                  (ap letters (sym ((eq_iff (strip a) "").0 no_first)) ∙ first))
      | inr some_first ↦ elim (Bool-cases (strip b == "")) [
        | inl no_second ↦
            rw (some_first, coalesce_text)
              (rw no_second (
                first
                ∙ sym (append-nil (letters a))
                ∙ ap (λ l. letters a ++ l)
                    (ap letters (sym ((eq_iff (strip b) "").0 no_second)) ∙ second)))
        | inr some_second ↦
            rw (some_first, coalesce_text)
              (rw some_second (
                letters-append (strip a) (" " +s strip b)
                ∙ ap (λ l. letters (strip a) ++ l) (letters-append " " (strip b))
                ∙ ap (λ l. l ++ letters (strip b)) first
                ∙ ap (λ l. letters a ++ l) second))
      ]
    ]

turns_account : Account (Option ℕ)
turns_account = record {
  of_request = λ r. r.turn_id ∷ [];
  of_pending = λ p. p.turn_id ∷ [];
  of_emission = turns_of;
  of_passed = λ r. refl;
  of_flushed = λ p reason. refl;
  of_merged = λ p r. refl;
  of_waiting = λ r now. refl;
}

words_account : Account ℕ
words_account = record {
  of_request = λ r. letters (or_default r.text "");
  of_pending = λ p. letters p.text;
  of_emission = words_of;
  of_passed = λ r. refl;
  of_flushed = λ p reason. refl;
  of_merged = λ p r.
      letters-coalesce_text p.text (request_text r)
      ∙ ap (λ l. letters p.text ++ l) (letters-request_text r);
  of_waiting = λ r now. letters-request_text r;
}

-- `handle`, in calls that come one after another, puts its turn behind all turns before it,
-- emitted or pending: none is lost, repeated or overtaken. So too for what was said: the texts that
-- are emitted, followed by the pending one, are those of the turns in their order, white space left
-- out.
pub turns-handle :
    (c : Coalescer) (r : TurnRequest) (can_delay can_merge : Bool) (now : ℕ)
    → let c' = handle c r can_delay can_merge now in
      (turns c' ≡ turns c ++ (r.turn_id ∷ []))
      × (words c' ≡ words c ++ letters (or_default r.text ""))
unfolding turns_account words_account
turns-handle c r can_delay can_merge now = (
  total-handle turns_account c r can_delay can_merge now,
  total-handle words_account c r can_delay can_merge now,
)
