-- ===== src/Tests/Calls.antt =====
-- The lanes of a call, and the coalescing of its turns.
use flowhunt_voicebot.Base.{ℕ, ◌≡◌, String, true, false, none, some, List, [], ◌∷◌, ◌++◌, letters}
use flowhunt_voicebot.CallActor.{agent, stt, Stamp, new_coordinator, default_lanes}
use flowhunt_voicebot.CallActor.Generations.{
  Call, queues, starts, cancels, renames, run, generation, plus, cancellations, generation-run,
}
use flowhunt_voicebot.TurnCoalescing.{TurnRequest, Coalescer, new_coalescer, handle}
use flowhunt_voicebot.TurnCoalescing.Order.{turns, words, turns-handle}

abbrev stamp : Stamp
stamp = record { signal_id = "s"; created_at = 1; reason = ""; correlation_id = none }

abbrev calls : List Call
calls =
    queues agent stamp
    ∷ starts agent stamp
    ∷ cancels agent stamp
    ∷ cancels stt stamp
    ∷ renames "d"
    ∷ []

generation-run_example :
    generation (run (new_coordinator "c" default_lanes) calls) agent
    ≡ plus (generation (new_coordinator "c" default_lanes) agent) (cancellations agent calls)
generation-run_example = generation-run (new_coordinator "c" default_lanes) calls agent

abbrev request : ℕ → String → TurnRequest
request id text = record {
  turn_id = some id;
  transcript_event_id = none;
  text = some text;
  stale = false;
}

abbrev waiting : Coalescer
waiting = handle (new_coalescer 1000 40) (request 1 "so") true true 0

turns-handle_example :
    (turns (handle waiting (request 2 "yes ") true true 10) ≡ turns waiting ++ (some 2 ∷ []))
    × (words (handle waiting (request 2 "yes ") true true 10) ≡ words waiting ++ letters "yes ")
turns-handle_example = turns-handle waiting (request 2 "yes ") true true 10
