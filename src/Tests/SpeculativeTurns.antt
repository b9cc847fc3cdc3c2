-- ===== src/Tests/SpeculativeTurns.antt =====
-- Two candidates of a turn, the first of which meets the final transcript.
use flowhunt_voicebot.Base.{
  ◌≢◌, refl, String, true, false, none, some, [], ◌∷◌, arith, eq_iff, text_key, nat_key, ◌==◌, ok,
}
use flowhunt_voicebot.Base.Dict
use flowhunt_voicebot.Subagents.{TaskRequest, new_task}
use flowhunt_voicebot.Subagents.Effects.{Descriptor, Provider, Registered}
use flowhunt_voicebot.SpeculativeTurns.{Candidate, is_running, Settings, TextTools, Turns}
use flowhunt_voicebot.SpeculativeTurns.Reconciling.{reconcile_final_request}
use flowhunt_voicebot.SpeculativeTurns.Closing.{IsReconciled, reconcile_final_request-IsReconciled}

abbrev spoken : String → TaskRequest
spoken text = record {
  workspace_id = "w";
  session_id = "s";
  request_event_id = 4;
  provider = "own";
  input_text = text;
  voicebot_id = none;
  dedupe_key = some text;
  metadata = ("speculative", "True") ∷ [];
  event_text = "4";
}

abbrev obedient : Provider
obedient = record { submit = λ r. ok (new_task r "any" 2); poll = λ t. ok t; cancel = λ t. ok t }

abbrev own : Descriptor
own = record {
  kind = "own";
  label = "Own";
  workspace_scoped = true;
  supports_async_polling = true;
  supports_cancel = true;
  required_metadata = [];
  result_context = "clean";
}

abbrev one_provider : Registered
one_provider = record { providers = ("own", obedient) ∷ []; descriptors = ("own", own) ∷ [] }

abbrev candidate : String → String → Candidate
candidate task_id text = record {
  call_id = "c";
  session_id = "s";
  turn_id = 3;
  partial_event_id = 4;
  task_id = task_id;
  workspace_id = "w";
  voicebot_id = none;
  provider = "own";
  source_text = text;
  normalized_query = text;
  query_hash = text;
  status = is_running;
  reflector_decision = none;
  final_request_event_id = none;
}

abbrev two_candidates : Turns
two_candidates = record {
  by_turn = (3, candidate "one" "find the price" ∷ candidate "two" "call me" ∷ []) ∷ [];
  world = record {
    store = record {
      tasks =
          ("one", new_task (spoken "find the price") "one" 1)
          ∷ ("two", new_task (spoken "call me") "two" 1)
          ∷ [];
      dedupe_index = [];
    };
    emitted = [];
    sink = [];
  };
  failures = [];
}

abbrev plain_text : TextTools
plain_text = record {
  normalize = λ t. t;
  split = λ t. t ∷ [];
  is_within = λ a b. a == b;
  has_pattern = λ t. true;
}

abbrev streaming : Settings
streaming = record {
  streaming_rag_enabled = true;
  speculative_work_enabled = false;
  streaming_rag_reflector_mode = "heuristic";
}

two_differs : ◌≢◌ {A = String} "two" "one"
two_differs = λ e. absurd (ground (arith, (eq_iff "two" "one").1 e))

reconcile_final_request-IsReconciled_example :
    IsReconciled one_provider plain_text streaming 3 "find the price" "9" 5 two_candidates
      (reconcile_final_request one_provider plain_text streaming two_candidates
        (some 3)
        "find the price"
        "9"
        5).1
unfolding Dict.get
reconcile_final_request-IsReconciled_example =
    reconcile_final_request-IsReconciled one_provider plain_text streaming 3 "find the price" "9" 5
      two_candidates refl (((two_differs, tt)), ((tt, tt))) (refl, (refl, tt))
