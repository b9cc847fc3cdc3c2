-- ===== src/Tests/Subagents.antt =====
-- A subagent task that is requested twice, moved, and ended.
use flowhunt_voicebot.Base.{
  ◌≡◌, ◌≢◌, refl, String, true, false, none, some, [], ◌∷◌, arith, text_key, eq_iff, ok,
}
use flowhunt_voicebot.Base.Dict
use flowhunt_voicebot.Subagents.{
  effective_dedupe_key, TaskRequest, TaskStore, new_task, create_task, get_or_create, update,
}
use flowhunt_voicebot.Subagents.{Task, completed, with_status}
use flowhunt_voicebot.Subagents.Lifecycle.{
  Runner, finish, finish-finish, terminal_event_type, with_terminal_event_emitted, task_completed,
}
use flowhunt_voicebot.Subagents.Identity.{get_or_create-again}

abbrev asked : String → TaskRequest
asked text = record {
  workspace_id = "w";
  session_id = "s";
  request_event_id = 4;
  provider = "flowhunt_flow";
  input_text = text;
  voicebot_id = none;
  dedupe_key = some "k";
  metadata = [];
  event_text = "4";
}

abbrev no_tasks : TaskStore
no_tasks = record { tasks = []; dedupe_index = [] }

named : ◌≢◌ {A = String} "id" ""
named = λ e. absurd (ground (arith, (eq_iff "id" "").1 e))

get_or_create-again_example :
    get_or_create (create_task no_tasks (asked "first") "id" 1) (asked "second") "other" 2
    ≡ ok ((new_task (asked "first") "id" 1, false), create_task no_tasks (asked "first") "id" 1)
unfolding effective_dedupe_key
get_or_create-again_example =
    get_or_create-again no_tasks (asked "first") (asked "second") "id" "other" 1 2 named refl

abbrev done : Task
done = with_status (new_task (asked "first") "id" 1) completed none none none none 5

abbrev told : Task
told = with_terminal_event_emitted done 6

abbrev one_task : TaskStore
one_task = create_task no_tasks (asked "first") "id" 1

abbrev before_end : Runner
before_end = record { store = one_task; emitted = [] }

abbrev after_end : Runner
after_end = record {
  store = record one_task { tasks = Dict.put (Dict.put one_task.tasks "id" done) "id" told };
  emitted = (task_completed, done) ∷ [];
}

done_finished : finish (λ session. true) before_end done 6 ≡ ok (told, after_end)
unfolding finish update Dict.get create_task Dict.put with_status new_task
done_finished = refl

finish-finish_example :
    (after_end.emitted ≡ (task_completed, done) ∷ [])
    × ((r'' : Runner) × (finish (λ session. true) after_end told 9 ≡ ok (told, r''))
        × (r''.emitted ≡ (task_completed, done) ∷ []))
unfolding with_status new_task terminal_event_type
finish-finish_example =
    finish-finish (λ session. true) before_end after_end done told 6 9 done_finished
