-- ===== src/Tests/Coordinator.antt =====
-- A request of one workspace beside a task of another, whose provider answers with that task.
use flowhunt_voicebot.Base.{
  ◌≡◌, ◌≢◌, refl, String, true, none, some, [], ◌∷◌, arith, text_key, eq_iff, ok,
}
use flowhunt_voicebot.Base.Dict
use flowhunt_voicebot.Subagents.{Task, TaskRequest, new_task, create_task}
use flowhunt_voicebot.Subagents.Effects.{Descriptor, Provider, Registered, World}
use flowhunt_voicebot.Subagents.Coordinator.{request, poll}
use flowhunt_voicebot.Subagents.Coordinator.Isolation.{
  requests, polls, Reach, here, next, Reach-Elsewhere,
}

abbrev asked_in : String → TaskRequest
asked_in workspace_id = record {
  workspace_id = workspace_id;
  session_id = "s";
  request_event_id = 4;
  provider = "own";
  input_text = "what";
  voicebot_id = none;
  dedupe_key = none;
  metadata = [];
  event_text = "4";
}

abbrev foreign_task : Task
foreign_task = new_task (asked_in "v") "old" 1

abbrev careless : Provider
careless = record {
  submit = λ r. ok (new_task r "any" 2);
  poll = λ t. ok foreign_task;
  cancel = λ t. ok foreign_task;
}

abbrev own_kind : Descriptor
own_kind = record {
  kind = "own";
  label = "Own";
  workspace_scoped = true;
  supports_async_polling = true;
  supports_cancel = true;
  required_metadata = [];
  result_context = "clean";
}

abbrev registered : Registered
registered = record { providers = ("own", careless) ∷ []; descriptors = ("own", own_kind) ∷ [] }

abbrev before_calls : World
before_calls = record {
  store = create_task (record { tasks = []; dedupe_index = [] }) (asked_in "v") "old" 1;
  emitted = [];
  sink = [];
}

abbrev after_request : World
after_request = (request registered (asked_in "w") "new" 2 before_calls).0

abbrev after_poll : World
after_poll = (poll registered "new" "w" after_request).0

not_in_use : Dict.get before_calls.store.tasks "new" ≡ none
unfolding Dict.get create_task Dict.put
not_in_use = refl

found_before : Dict.get before_calls.store.tasks "old" ≡ some foreign_task
unfolding Dict.get create_task Dict.put
found_before = refl

another : ◌≢◌ {A = String} "v" "w"
another = λ e. absurd (ground (arith, (eq_iff "v" "w").1 e))

two_calls : Reach "w" registered before_calls after_poll
two_calls =
    next (next here (requests (asked_in "w") "new" 2 refl not_in_use refl)) (polls "new" refl)

Reach-Elsewhere_example : Dict.get after_poll.store.tasks "old" ≡ some foreign_task
unfolding new_task
Reach-Elsewhere_example =
    Reach-Elsewhere "w" registered two_calls "old" foreign_task found_before another
