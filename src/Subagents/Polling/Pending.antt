-- ===== src/Subagents/Polling/Pending.antt =====
-- The tasks that a tick goes through: those that are stored and not over, each once.
use flowhunt_voicebot.Base.{
  ◌≡◌, refl, String, Bool, true, false, not, ◌&&◌, none, some, All, keep, text_key, pair_key,
}
use flowhunt_voicebot.Base.Dict
use flowhunt_voicebot.Base.Dict.{Dict}
use flowhunt_voicebot.Base.Dict.Entries.{
  All-values_get, All-keep, All-of-keep, All-of-sorted, Distinct, Distinct-keep, Distinct-sorted,
}
use flowhunt_voicebot.Base.Sorting.{sorted, sorted-All}
use flowhunt_voicebot.Subagents.{Task, TaskStore, list_tasks, listed_before, same_or_any}
use flowhunt_voicebot.Subagents.Lifecycle.{is_terminal}
use flowhunt_voicebot.Subagents.Polling.{pending}

any_task : Task → Bool
any_task t = same_or_any none t.workspace_id && same_or_any none t.session_id

is_open : Task → Bool
is_open t = not (is_terminal t)

pub All-pending :
    (P : Task → Type 0) (s : TaskStore) → All P (Dict.values s.tasks) → All P (pending s)
unfolding pending list_tasks any_task is_open
All-pending P s h =
    All-keep P is_open (sorted listed_before (keep any_task (Dict.values s.tasks))) (
      sorted-All listed_before P (keep any_task (Dict.values s.tasks))
        (All-keep P any_task (Dict.values s.tasks) h))

pub Distinct-pending :
    (s : TaskStore)
    → Distinct (λ (t : Task). t.task_id) (Dict.values s.tasks)
    → Distinct (λ (t : Task). t.task_id) (pending s)
unfolding pending list_tasks any_task is_open
Distinct-pending s h =
    Distinct-keep (λ (t : Task). t.task_id) is_open
      (sorted listed_before (keep any_task (Dict.values s.tasks)))
      (Distinct-sorted (λ (t : Task). t.task_id) listed_before (keep any_task (Dict.values s.tasks))
        (Distinct-keep (λ (t : Task). t.task_id) any_task (Dict.values s.tasks) h))

-- What holds of the pending tasks holds of each task that is stored and is not over.
pub pending_of_stored :
    (P : Task → Type 0) (s : TaskStore) (id : String) (t : Task)
    → Dict.get s.tasks id ≡ some t
    → is_terminal t ≡ false
    → All P (pending s)
    → P t
unfolding pending list_tasks any_task is_open
pending_of_stored P s id t there unfinished h =
    let all =
      All-of-keep (λ u. is_open u ≡ true → P u) any_task (Dict.values s.tasks)
        (All-of-sorted (λ u. is_open u ≡ true → P u) listed_before
          (keep any_task (Dict.values s.tasks))
          (All-of-keep P is_open (sorted listed_before (keep any_task (Dict.values s.tasks))) h)) in
    All-values_get (λ u. any_task u ≡ true → is_open u ≡ true → P u) s.tasks id t there all refl
      (rw unfinished)
