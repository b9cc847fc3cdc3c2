-- ===== src/Events/Retention.antt =====
-- The store against the list of all events that it was given: what it keeps, under which ids, and
-- what its transcripts hold.
use flowhunt_voicebot.Base.{
  ℕ, zero, suc, ◌+◌, ◌-◌, ◌≤◌, ◌<◌, ◌≡◌, refl, sym, ap, subst, ◌∙◌, String, Bool, true, false, not,
  ◌&&◌, List, [], ◌∷◌, ◌++◌, append-nil, append_assoc, keep, drop, length, length-append,
  length-drop, drop-append, drop-drop, drop_nil, ltb, leb, if◌then◌else◌, or_default, text_key,
  ◌==◌, eq_iff, strip, arith, Bool-cases, inl, inr,
}
use flowhunt_voicebot.Base.Dict
use flowhunt_voicebot.Base.Dict.{Dict}
use flowhunt_voicebot.Events.{
  Event, EventTexts, Transcripts, EventStore, last_slice, compact, new_store, record_event, append,
  replace_summary, append_transcript,
}

-- A call of the store, with its instant.
pub data Call : Type 0 where
  appends : String → String → Dict String String → ℕ → Call
  summarizes : String → String → ℕ → Call

-- The event that a call makes, under the id that it is given.
abbrev pub event_of : ℕ → Call → Event
event_of id (appends call_id type values now) = record {
  id = id;
  call_id = call_id;
  type = type;
  timestamp = now;
  values = values;
}
event_of id (summarizes summary call_id now) = record {
  id = id;
  call_id = call_id;
  type = "context_compacted";
  timestamp = now;
  values = ("summary", strip summary) ∷ [];
}

-- All events of a history: each call makes one, and they are numbered from 1.
abbrev pub history_from : ℕ → List Call → List Event
history_from id [] = []
history_from id (c ∷ cs) = event_of id c ∷ history_from (id + 1) cs

last_slice_nil : (m : ℕ) → last_slice {A = Event} m [] ≡ []
last_slice_nil zero = refl
last_slice_nil (suc m) = drop_nil (0 - suc m)

slide_short :
    (m : ℕ) (xs : List Event) (e : Event)
    → length xs < m
    → let w = drop (length xs - m) xs ++ (e ∷ []) in
      (if leb (length w) m then w else drop (length w - m) w)
      ≡ drop (length (xs ++ (e ∷ [])) - m) (xs ++ (e ∷ []))
slide_short m xs e h =
    let none_dropped : length xs - m ≡ 0 = omega (arith, h) in
    let none_left : length (xs ++ (e ∷ [])) - m ≡ 0 = omega (arith, h, length-append xs (e ∷ [])) in
    rw (none_dropped, none_left) (ground (arith, h, length-append xs (e ∷ [])))

slide_long :
    (m : ℕ) (xs : List Event) (e : Event)
    → 0 < m
    → m ≤ length xs
    → let w = drop (length xs - m) xs ++ (e ∷ []) in
      (if leb (length w) m then w else drop (length w - m) w)
      ≡ drop (length (xs ++ (e ∷ [])) - m) (xs ++ (e ∷ []))
slide_long m xs e pos h =
    let a = length xs - m in
    let w = drop a xs ++ (e ∷ []) in
    let size : length w ≡ m + 1 =
      omega (arith, h, length-append (drop a xs) (e ∷ []), length-drop a xs) in
    let over : leb (length w) m ≡ false = ground (arith, size) in
    rw over (
      ap (λ k. drop k w) {y = 1} (omega (arith, size))
      ∙ drop-append 1 (drop a xs) (e ∷ []) (omega (arith, pos, h, length-drop a xs))
      ∙ ap (λ v. v ++ (e ∷ [])) (drop-drop 1 a xs)
      ∙ sym (drop-append (a + 1) xs (e ∷ []) (omega (arith, pos, h)))
      ∙ ap (λ k. drop k (xs ++ (e ∷ []))) (omega (arith, h, length-append xs (e ∷ []))))

-- The window over a list, and the list with one event more.
slide :
    (m : ℕ) (xs : List Event) (e : Event)
    → let w = last_slice m xs ++ (e ∷ []) in
      (if leb (length w) m then w else last_slice m w) ≡ last_slice m (xs ++ (e ∷ []))
slide zero xs e = ground arith
slide (suc m) xs e = elim (Bool-cases (ltb (length xs) (suc m))) [
  | inl short ↦ slide_short (suc m) xs e (ground (arith, short))
  | inr long ↦ slide_long (suc m) xs e (omega arith) (ground (arith, long))
]

keep-append :
    (p : Event → Bool) (xs : List Event) (e : Event)
    → keep p (xs ++ (e ∷ [])) ≡ (if p e then keep p xs ++ (e ∷ []) else keep p xs)
keep-append p [] e = refl
keep-append p (x ∷ xs) e = ground (arith, keep-append p xs e)

module _ (texts : EventTexts) where
  unfoldable pub step : EventStore → Call → EventStore
  unfolding append replace_summary
  step s (appends call_id type values now) = (append texts s call_id type values now).1
  step s (summarizes summary call_id now) = (replace_summary texts s summary call_id now).1

  unfoldable pub run : EventStore → List Call → EventStore
  unfolding step
  run s [] = s
  run s (c ∷ cs) = run (step s c) cs

  -- The event is one of the transcript with this name.
  abbrev pub is_of : String → Event → Bool
  is_of name e = not (e.call_id == "system") && texts.safe_name e.call_id == name

  abbrev pub transcript_of : Transcripts → String → List Event
  transcript_of t name = or_default (Dict.get t name) []

  -- The store holds what it should of a list of events.
  pub record Represents (m : ℕ) (s : EventStore) (log : List Event) : Type 0 where
    pub bound : s.max_context_events ≡ m
    pub window : s.events ≡ last_slice m log
    pub numbered : s.next_id ≡ length log + 1
    pub written : (name : String) → transcript_of s.transcripts name ≡ keep (is_of name) log

  compact_window :
      (m : ℕ) (s : EventStore) (w log : List Event)
      → s.max_context_events ≡ m
      → s.events ≡ w
      → (if leb (length w) m then w else last_slice m w) ≡ log
      → (compact texts s).events ≡ log
  unfolding compact
  compact_window m s w log bound here fits = ground (arith, bound, here, fits)

  compact_rest :
      (s : EventStore)
      → ((compact texts s).max_context_events ≡ s.max_context_events)
        × ((compact texts s).next_id ≡ s.next_id)
        × ((compact texts s).transcripts ≡ s.transcripts)
  unfolding compact
  compact_rest s = ground arith

  transcript-append :
      (t : Transcripts) (e : Event) (log : List Event) (name : String)
      → ((n : String) → transcript_of t n ≡ keep (is_of n) log)
      → transcript_of (append_transcript texts t e) name ≡ keep (is_of name) (log ++ (e ∷ []))
  unfolding append_transcript
  transcript-append t e log name h = ground (
    arith,
    h name,
    h (texts.safe_name e.call_id),
    keep-append (is_of name) log e,
    Dict.get-put t (texts.safe_name e.call_id) name
        (transcript_of t (texts.safe_name e.call_id) ++ (e ∷ [])),
    eq_iff (texts.safe_name e.call_id) name,
  )

  -- Recording an event under the next id.
  record_event-Represents :
      (m : ℕ) (s : EventStore) (log : List Event) (e : Event)
      → s.max_context_events ≡ m
      → s.events ≡ last_slice m log
      → s.next_id ≡ length log + 2
      → ((name : String) → transcript_of s.transcripts name ≡ keep (is_of name) log)
      → Represents m (record_event texts s e) (log ++ (e ∷ []))
  unfolding record_event
  record_event-Represents m s log e bound window numbered written =
      let s' : EventStore = record s {
        events = s.events ++ (e ∷ []);
        transcripts = append_transcript texts s.transcripts e;
      } in
      let (same_bound, same_next, same_written) = compact_rest s' in
      record {
        bound = same_bound ∙ bound;
        window =
            compact_window m s' (last_slice m log ++ (e ∷ [])) (last_slice m (log ++ (e ∷ [])))
              bound (ap (λ w. w ++ (e ∷ [])) window) (slide m log e);
        numbered = omega (arith, same_next, numbered, length-append log (e ∷ []));
        written = λ name.
            ap (λ t. transcript_of t name) same_written
            ∙ transcript-append s.transcripts e log name written;
      }

  step-Represents :
      (m : ℕ) (s : EventStore) (log : List Event) (c : Call)
      → Represents m s log
      → Represents m (step s c) (log ++ (event_of s.next_id c ∷ []))
  unfolding step append replace_summary
  step-Represents m s log (appends call_id type values now) h =
      record_event-Represents m (record s { next_id = s.next_id + 1 }) log
        (event_of s.next_id (appends call_id type values now)) h.bound h.window
        (omega (arith, h.numbered)) h.written
  step-Represents m s log (summarizes summary call_id now) h =
      record_event-Represents m (record s { summary = strip summary; next_id = s.next_id + 1 }) log
        (event_of s.next_id (summarizes summary call_id now)) h.bound h.window
        (omega (arith, h.numbered)) h.written

  run_from-Represents :
      (m : ℕ) (cs : List Call) (s : EventStore) (log : List Event)
      → Represents m s log
      → Represents m (run s cs) (log ++ history_from s.next_id cs)
  unfolding run
  run_from-Represents m [] s log h = subst (Represents m s) (sym (append-nil log)) h
  run_from-Represents m (c ∷ cs) s log h =
      let next = step-Represents m s log c h in
      let number : (step s c).next_id ≡ s.next_id + 1 =
        omega (arith, next.numbered, h.numbered, length-append log (event_of s.next_id c ∷ [])) in
      subst (λ (l : List Event). Represents m (run (step s c) cs) l)
        (append_assoc log (event_of s.next_id c ∷ []) (history_from (step s c).next_id cs)
          ∙ ap (λ n. log ++ (event_of s.next_id c ∷ history_from n cs)) number)
        (run_from-Represents m cs (step s c) (log ++ (event_of s.next_id c ∷ [])) next)

  new_store-Represents : (m : ℕ) → Represents m (new_store texts m []) []
  unfolding new_store compact Dict.get
  new_store-Represents m =
      let fits : leb 0 m ≡ true = ground arith in
      rw fits (record {
        bound = refl;
        window = sym (last_slice_nil m);
        numbered = omega arith;
        written = λ name. refl;
      })

  -- After any appends and summaries, one after another, a store that began empty stands for the list of all events
  -- that the calls made, numbered from 1. It keeps the last `m` of them in their order, where `m`
  -- is its limit, but keeps all of them where the limit is 0; the next id is one over the last; and
  -- the transcript of a call that is not "system" has all events of the calls with its file name,
  -- also those that the store no longer keeps.
  pub run-Represents :
      (m : ℕ) (cs : List Call) → Represents m (run (new_store texts m []) cs) (history_from 1 cs)
  run-Represents m cs =
      subst (λ n. Represents m (run (new_store texts m []) cs) (history_from n cs))
        {x = (new_store texts m []).next_id} (omega (arith, (new_store-Represents m).numbered))
        (run_from-Represents m cs (new_store texts m []) [] (new_store-Represents m))
