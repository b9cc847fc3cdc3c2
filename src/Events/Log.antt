-- ===== src/Events/Log.antt =====
-- `JsonEventStore`: the log file that several processes append to, and the events that a store
-- reads back. A line of the file is the event that it is read as, or none where it is blank,
-- malformed or invalid.
use flowhunt_voicebot.Base.{
  ℕ, ◌+◌, ◌<◌, ◌≡◌, refl, sym, ◌∙◌, max, String, Bool, false, Option, none, some, List, [], ◌∷◌,
  ◌++◌, any, strip, is_blank, append-nil, text_key, ◌||◌, eqb, if◌then◌else◌, arith, Bool-cases,
  inl, inr,
}
use flowhunt_voicebot.Base.Dict.{Dict}
use flowhunt_voicebot.Events.{Event, EventTexts, EventStore, new_store, record_event}

abbrev pub LogFile : Type 0
LogFile = List (Option Event)

-- `_max_event_id_in_jsonl`
unfoldable pub max_event_id : LogFile → ℕ
max_event_id [] = 0
max_event_id (none ∷ rest) = max_event_id rest
max_event_id (some e ∷ rest) = max e.id (max_event_id rest)

-- `not call_id or not event_type` of `event_from_dict`, which strips both.
abbrev pub is_unreadable : Event → Bool
is_unreadable e = is_blank e.call_id || is_blank e.type

abbrev pub as_read : Event → Event
as_read e = record e { call_id = strip e.call_id; type = strip e.type }

-- The line of an event, as `event_from_dict` reads it.
abbrev pub line_of : Event → Option Event
line_of e = if is_unreadable e then none else some (as_read e)

-- `_append_to_log`, under the lock of the file.
unfoldable pub append_to_log : LogFile → String → String → Dict String String → ℕ → Event × LogFile
unfolding max_event_id
append_to_log file call_id type values now =
    let e : Event = record {
      id = max_event_id file + 1;
      call_id = call_id;
      type = type;
      timestamp = now;
      values = values;
    } in
    (e, file ++ (line_of e ∷ []))

abbrev pub has_id : List ℕ → ℕ → Bool
has_id seen id = any (λ i. eqb i id) seen

-- `_load_events`, with the ids seen so far.
unfoldable pub load_events : List ℕ → LogFile → List Event
load_events seen [] = []
load_events seen (none ∷ rest) = load_events seen rest
load_events seen (some e ∷ rest) =
    let old = load_events seen rest in
    let new = e ∷ load_events (e.id ∷ seen) rest in if has_id seen e.id then old else new

module _ (texts : EventTexts) where
  -- `JsonEventStore.__init__` and `append`
  unfoldable pub open_store : ℕ → LogFile → EventStore
  unfolding load_events
  open_store max_context_events file = new_store texts max_context_events (load_events [] file)

  unfoldable pub append_logged :
      EventStore → LogFile → String → String → Dict String String → ℕ → Event × EventStore × LogFile
  unfolding append_to_log
  append_logged s file call_id type values now =
      let (e, file') = append_to_log file call_id type values now in
      (e, record_event texts s e, file')

has_id_cons_ne : (seen : List ℕ) (i id : ℕ) → i < id → has_id (i ∷ seen) id ≡ has_id seen id
has_id_cons_ne seen i id h = ground (arith, h)

-- A new event under an id above all of the file and all seen is read at the end.
load_events-append :
    (seen : List ℕ) (file : LogFile) (e : Event)
    → max_event_id file < e.id
    → has_id seen e.id ≡ false
    → load_events seen (file ++ (some e ∷ [])) ≡ load_events seen file ++ (e ∷ [])
unfolding load_events max_event_id
load_events-append seen [] e above fresh = ground (arith, fresh)
load_events-append seen (none ∷ rest) e above fresh = load_events-append seen rest e above fresh
load_events-append seen (some f ∷ rest) e above fresh = ground (
  arith,
  load_events-append seen rest e (omega (arith, above)) fresh,
  load_events-append (f.id ∷ seen) rest e (omega (arith, above))
      (has_id_cons_ne seen f.id e.id (omega (arith, above)) ∙ fresh),
)

load_events-append_none :
    (seen : List ℕ) (file : LogFile)
    → load_events seen (file ++ (none ∷ [])) ≡ load_events seen file
unfolding load_events
load_events-append_none seen [] = refl
load_events-append_none seen (none ∷ rest) = load_events-append_none seen rest
load_events-append_none seen (some f ∷ rest) =
    ground (arith, load_events-append_none seen rest, load_events-append_none (f.id ∷ seen) rest)

max_event_id-append :
    (file : LogFile) (line : Option Event)
    → max_event_id (file ++ (line ∷ []))
      ≡ max (max_event_id file) (elim line [ none ↦ 0 | some e ↦ e.id ])
unfolding max_event_id
max_event_id-append [] none = omega arith
max_event_id-append [] (some e) = omega arith
max_event_id-append (none ∷ rest) line = max_event_id-append rest line
max_event_id-append (some f ∷ rest) none = omega (arith, max_event_id-append rest none)
max_event_id-append (some f ∷ rest) (some e) = omega (arith, max_event_id-append rest (some e))

-- The event that a process appends to the log, whatever stands there, gets the id over all ids in
-- the log. Unless its call id or its type is blank, it is read back, with both stripped, behind all
-- events that were read before, and the next id is over its own. With a blank call id or type it is
-- never read, and the next event gets the same id.
pub load_events-append_to_log :
    (file : LogFile) (call_id type : String) (values : Dict String String) (now : ℕ)
    → let (e, file') = append_to_log file call_id type values now in
      (e.id ≡ max_event_id file + 1)
      × (load_events [] file'
          ≡ load_events [] file ++ (if is_unreadable e then [] else as_read e ∷ []))
      × (max_event_id file' ≡ (if is_unreadable e then max_event_id file else e.id))
unfolding append_to_log
load_events-append_to_log file call_id type values now =
    let e : Event = record {
      id = max_event_id file + 1;
      call_id = call_id;
      type = type;
      timestamp = now;
      values = values;
    } in
    elim (Bool-cases (is_blank call_id || is_blank type)) [
      | inl lost ↦ rw lost (
        refl,
        load_events-append_none [] file ∙ sym (append-nil (load_events [] file)),
        omega (arith, max_event_id-append file none),
      )
      | inr kept ↦ rw kept (
        refl,
        load_events-append [] file (as_read e) (omega arith) refl,
        omega (arith, max_event_id-append file (some (as_read e))),
      )
    ]
