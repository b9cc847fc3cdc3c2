-- ===== src/Tests/Events.antt =====
-- A store of two events that is given four, and a log file with a line of another process.
use flowhunt_voicebot.Base.{◌+◌, ◌≡◌, none, some, List, [], ◌∷◌, ◌++◌, if◌then◌else◌}
use flowhunt_voicebot.Events.{Event, EventTexts, new_store}
use flowhunt_voicebot.Events.Retention.{
  Call, appends, summarizes, Represents, history_from, run, run-Represents,
}
use flowhunt_voicebot.Events.Log.{
  LogFile, append_to_log, load_events, max_event_id, is_unreadable, as_read,
  load_events-append_to_log,
}

abbrev plain : EventTexts
plain = record { line = λ e. e.type; safe_name = λ name. name }

abbrev call_events : List Call
call_events =
    appends "c1" "call_started" [] 1
    ∷ appends "c2" "user_transcript" [] 2
    ∷ appends "system" "started" [] 3
    ∷ summarizes " all well " "c1" 4
    ∷ []

run-Represents_example :
    Represents plain 2 (run plain (new_store plain 2 []) call_events) (history_from 1 call_events)
run-Represents_example = run-Represents plain 2 call_events

abbrev old_event : Event
old_event = record { id = 7; call_id = "c1"; type = "call_started"; timestamp = 1; values = [] }

abbrev log_file : LogFile
log_file = some old_event ∷ none ∷ []

load_events-append_to_log_example :
    let (e, file') = append_to_log log_file " c1 " "user_transcript" [] 2 in
    (e.id ≡ max_event_id log_file + 1)
    × (load_events [] file'
        ≡ load_events [] log_file ++ (if is_unreadable e then [] else as_read e ∷ []))
    × (max_event_id file' ≡ (if is_unreadable e then max_event_id log_file else e.id))
load_events-append_to_log_example = load_events-append_to_log log_file " c1 " "user_transcript" [] 2
