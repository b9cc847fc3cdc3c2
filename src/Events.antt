-- ===== src/Events.antt =====
-- voicebot/events.py: `EventStore` and the log file of `JsonEventStore`, with `TranscriptStore` of
-- voicebot/transcripts.py. The type of an event and the values of its data are texts; the clock is
-- the argument `now`. `append` is one step here; the code takes the id outside the lock, so that
-- threads may record events out of the order of their ids, which is not modelled.
pub mod Retention
pub mod Log
use flowhunt_voicebot.Base.{
  ℕ, zero, suc, ◌+◌, ◌-◌, max, String, Bool, true, false, not, ◌&&◌, Option, none, some, List, [],
  ◌∷◌, ◌++◌, map, keep, any, take, drop, length, ltb, leb, eqb, if◌then◌else◌, or_default, text_key,
  ◌==◌, strip, ◌+s◌, text_length, last_text,
}
use flowhunt_voicebot.Base.Dict
use flowhunt_voicebot.Base.Dict.{Dict}

pub record Event : Type 0 where
  pub id : ℕ
  pub call_id : String
  pub type : String
  pub timestamp : ℕ
  pub values : Dict String String  -- `data`

-- What the code takes from Python's texts: `f"{timestamp} {call_id} {type}: {data}"`, and
-- `safe_name` by `str.isalnum`.
pub record EventTexts : Type 0 where
  pub line : Event → String
  pub safe_name : String → String

-- The files of a `TranscriptStore`, by their names.
abbrev pub Transcripts : Type 0
Transcripts = Dict String (List Event)

pub record EventStore : Type 0 where
  pub events : List Event
  pub summary : String
  pub max_context_events : ℕ
  pub next_id : ℕ
  pub transcripts : Transcripts

abbrev pub is_summarized : String → Bool
is_summarized type =
    any (λ t. t == type)
      ("call_started" ∷ "call_connected" ∷ "call_ended" ∷ "user_transcript" ∷ "turn_coalesced"
        ∷ "agent_response_requested" ∷ "agent_task_claimed" ∷ "agent_task_renewed"
        ∷ "agent_task_released" ∷ "agent_response_received" ∷ "agent_response_deferred"
        ∷ "agent_response_dropped" ∷ "agent_response_queued" ∷ "call_control_completed"
        ∷ "flowhunt_issue_created" ∷ "flowhunt_issue_updated" ∷ "flowhunt_issue_completed"
        ∷ "flowhunt_flow_invoked" ∷ "flowhunt_flow_updated" ∷ "flowhunt_flow_completed" ∷ [])

-- `"\n".join(lines)`
unfoldable pub join_lines : List String → String
join_lines [] = ""
join_lines (x ∷ []) = x
join_lines (x ∷ y ∷ xs) = x +s ("\n" +s join_lines (y ∷ xs))

-- `xs[-n:]`, which is all of `xs` for 0.
abbrev pub last_slice {ℓ} : {A : Type ℓ} → ℕ → List A → List A
last_slice zero xs = xs
last_slice (suc n) xs = drop (length xs - suc n) xs

-- `max((event.id for event in events), default=0)`
unfoldable pub max_id : List Event → ℕ
max_id [] = 0
max_id (e ∷ events) = max e.id (max_id events)

-- `_event_matches_scope`; a missing key is no text.
abbrev pub is_wanted : Option String → Option String → Bool
is_wanted none value = true
is_wanted (some wanted) none = false
is_wanted (some wanted) (some value) = value == wanted

unfoldable pub event_matches_scope : Option String → Option String → Option String → Event → Bool
event_matches_scope workspace_id voicebot_id session_id e =
    is_wanted workspace_id (Dict.get e.values "workspace_id")
    && (is_wanted voicebot_id (Dict.get e.values "voicebot_id")
        && is_wanted session_id (some (or_default (Dict.get e.values "session_id") e.call_id)))

unfoldable pub list_events :
    EventStore → ℕ → Option String → ℕ → Option String → Option String → Option String → List Event
unfolding event_matches_scope
list_events s after call_id limit workspace_id voicebot_id session_id = take limit (
    keep
      (λ (e : Event).
        ltb after e.id
        && (is_wanted call_id (some e.call_id)
            && event_matches_scope workspace_id voicebot_id session_id e))
      s.events)

unfoldable pub get_event : List Event → ℕ → Option Event
get_event [] event_id = none
get_event (e ∷ events) event_id =
    let later = get_event events event_id in if eqb e.id event_id then some e else later

module _ (texts : EventTexts) where
  -- `TranscriptStore.append`
  unfoldable pub append_transcript : Transcripts → Event → Transcripts
  append_transcript t e =
      let name = texts.safe_name e.call_id in
      if e.call_id == "system"
      then t
      else Dict.put t name (or_default (Dict.get t name) [] ++ (e ∷ []))

  -- `TranscriptStore.read`
  unfoldable pub read_transcript : Transcripts → String → ℕ → Option ℕ → List Event
  read_transcript t call_id after limit =
      let events =
        keep (λ (e : Event). ltb after e.id)
          (or_default (Dict.get t (texts.safe_name call_id)) []) in
      elim limit [ none ↦ events | some n ↦ take n events ]

  abbrev summary_lines : String → List Event → List String
  summary_lines summary overflow =
      (if summary == "" then [] else summary ∷ [])
      ++ map texts.line (keep (λ (e : Event). is_summarized e.type) overflow)

  -- `_compact_locked`
  unfoldable pub compact : EventStore → EventStore
  unfolding join_lines
  compact s =
      let n = length s.events - s.max_context_events in
      if leb (length s.events) s.max_context_events then s else record s {
        events = last_slice s.max_context_events s.events;
        summary = last_text 6000 (join_lines (summary_lines s.summary (take n s.events)));
      }

  unfoldable pub new_store : ℕ → List Event → EventStore
  unfolding compact max_id
  new_store max_context_events initial_events = compact (record {
    events = initial_events;
    summary = "";
    max_context_events = max_context_events;
    next_id = max_id initial_events + 1;
    transcripts = [];
  })

  -- `_record_event`
  unfoldable pub record_event : EventStore → Event → EventStore
  unfolding compact append_transcript
  record_event s e =
      compact (record s {
        events = s.events ++ (e ∷ []);
        transcripts = append_transcript s.transcripts e;
      })

  unfoldable pub append : EventStore → String → String → Dict String String → ℕ → Event × EventStore
  unfolding record_event
  append s call_id type values now =
      let e : Event = record {
        id = s.next_id;
        call_id = call_id;
        type = type;
        timestamp = now;
        values = values;
      } in
      (e, record_event (record s { next_id = s.next_id + 1 }) e)

  unfoldable pub replace_summary : EventStore → String → String → ℕ → Event × EventStore
  unfolding append
  replace_summary s summary call_id now =
      append (record s { summary = strip summary }) call_id "context_compacted"
        (("summary", strip summary) ∷ []) now
