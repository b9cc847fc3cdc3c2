-- ===== src/Subagents/Polling.antt =====
-- The polling of `SubagentTaskLifecycleRunner` in voicebot/task_lifecycle.py: `tick`,
-- `schedule_pending` and `cancel_session`. Durations are whole microseconds and the multiplier of the back-off is a whole
-- number; its power raises `OverflowError` where no double holds it. The text of an exception and
-- of a number in a message are parameters.
pub mod Accepted
pub mod Answers
pub mod Rounds
pub mod Pending
pub mod Sink
pub mod Deadlines
use flowhunt_voicebot.Base.{
  ℕ, ◌+◌, ◌-◌, ◌*◌, ◌≤◌, ◌<◌, min, String, Bool, true, false, not, ◌&&◌, ◌||◌, Option, none, some,
  List, [], ◌∷◌, ◌++◌, keep, ltb, leb, if◌then◌else◌, text_key, ◌==◌, ◌+s◌, Error, Result, ok, err,
  value_error, other_error, raise_if, ◌^◌,
}
use flowhunt_voicebot.Subagents.{
  Task, TaskStatus, running, failed, timed_out, cancelled, Instant, at, unreadable, TaskStore,
  list_tasks, with_status,
}
use flowhunt_voicebot.Subagents.Lifecycle.{is_terminal, with_poll_schedule, finish, schedule}
use flowhunt_voicebot.Subagents.Effects.{
  Provider, Registered, World, Act, ◌>>=◌, ◌>>◌, and_then, return, raise, lift, put_task, on_runner,
  recover,
}
use flowhunt_voicebot.Subagents.Coordinator.{descriptor_of, poll, cancel}

pub record PollingPolicy : Type 0 where
  pub initial_interval : ℕ
  pub max_interval : ℕ
  pub backoff_multiplier : ℕ
  pub timeout : ℕ
  pub max_attempts : ℕ

-- `PollingPolicy.__post_init__`
unfoldable pub make_policy : PollingPolicy → Result PollingPolicy
make_policy p =
    if leb p.initial_interval 0
    then err (value_error "initial_interval_seconds must be greater than 0")
    else if leb p.max_interval 0
    then err (value_error "max_interval_seconds must be greater than 0")
    else if ltb p.max_interval p.initial_interval
    then err (
        value_error
          "max_interval_seconds must be greater than or equal to initial_interval_seconds")
    else if ltb p.backoff_multiplier 1
    then err (value_error "backoff_multiplier must be greater than or equal to 1")
    else if leb p.timeout 0
    then err (value_error "timeout_seconds must be greater than 0")
    else if ltb p.max_attempts 1
    then err (value_error "max_attempts must be greater than or equal to 1")
    else ok p

-- The power is a double; past its range Python raises.
unfoldable pub next_interval : PollingPolicy → ℕ → Result ℕ
next_interval p attempts =
    let power = p.backoff_multiplier ^ (attempts - 1) in
    if leb (2 ^ 1024) power
    then err (other_error "OverflowError")
    else ok (min p.max_interval (p.initial_interval * power))

pub record Wording : Type 0 where
  pub of_error : Error → String
  pub of_number : ℕ → String

abbrev pub is_past : Instant → ℕ → Bool
is_past (at n) now = leb n now
is_past unreadable now = false

-- `_is_due` and `_timed_out`, for an instant that can be read.
abbrev pub is_due : Option Instant → ℕ → Bool
is_due none now = true
is_due (some i) now = is_past i now

abbrev pub is_timed_out : Option Instant → ℕ → Bool
is_timed_out none now = false
is_timed_out (some i) now = is_past i now

abbrev pub is_unreadable : Option Instant → Bool
is_unreadable (some unreadable) = true
is_unreadable _ = false

-- `_invalid_schedule_error`
unfoldable pub invalid_schedule : Task → Option String
invalid_schedule t =
    if is_unreadable t.next_poll_at
    then some "invalid subagent task schedule timestamp: next_poll_at"
    else if is_unreadable t.deadline_at
    then some "invalid subagent task schedule timestamp: deadline_at"
    else none

unfoldable pub pending : TaskStore → List Task
unfolding list_tasks is_terminal
pending s = keep (λ (t : Task). not (is_terminal t)) (list_tasks s none none)

module _ (session_active : String → Bool) (words : Wording) (env : Registered)
    (policy : PollingPolicy) where
  -- `_mark_terminal`
  unfoldable pub end_task : Task → ℕ → Act Task
  unfolding finish
  end_task t now = on_runner λ r. finish session_active r t now

  -- The comprehension of `schedule_pending`.
  unfoldable pub schedule_all : List Task → ℕ → Act (List Task)
  unfolding schedule is_terminal
  schedule_all [] now = return []
  schedule_all (t ∷ rest) now =
      let others = schedule_all rest now in
      let scheduled =
        on_runner λ r. schedule session_active policy.timeout policy.initial_interval r t now in
      if is_terminal t then others else (do u ← scheduled; us ← others; return (u ∷ us))

  unfoldable pub schedule_pending : Option String → Option String → ℕ → Act (List Task)
  unfolding schedule_all list_tasks
  schedule_pending workspace_id session_id now w =
      schedule_all (list_tasks w.store workspace_id session_id) now w

  -- The task with its next instant, after this many attempts.
  unfoldable pub poll_later : Task → ℕ → ℕ → Act Task
  unfolding next_interval with_poll_schedule
  poll_later t attempts now = do
    interval ← lift (next_interval policy attempts)
    put_task (with_poll_schedule t (some attempts) (some (at (now + interval))) none now)

  -- Behind the `except` of `_poll_due_task`.
  unfoldable pub after_failure : Task → ℕ → ℕ → Error → Act Task
  unfolding end_task poll_later with_status with_poll_schedule
  after_failure t attempts now e =
      if leb policy.max_attempts attempts
      then (do
        stored ← put_task (
            with_poll_schedule
              (with_status t failed none
                (some (
                  "provider polling failed after "
                  +s (words.of_number attempts +s (" attempts: " +s words.of_error e))))
                none none now)
              (some attempts) none none now)
        end_task stored now)
      else poll_later
          (with_status t running none (some ("provider polling failed: " +s words.of_error e)) none
            none now)
          attempts now

  unfoldable pub after_answer : ℕ → ℕ → Task → Act Task
  unfolding end_task poll_later is_terminal
  after_answer attempts now updated =
      if is_terminal updated then end_task updated now else poll_later updated attempts now

  unfoldable pub poll_due_task : Task → ℕ → Act Task
  unfolding descriptor_of poll after_answer after_failure with_status with_poll_schedule
  poll_due_task t now = do
    d ← descriptor_of env t.provider
    if not d.supports_async_polling
        then put_task (
            with_poll_schedule
              (with_status t running none none none
                (some "Provider does not support async polling.") now)
              none (some (at (now + policy.initial_interval))) none now)
        else (do
          u ← put_task (with_poll_schedule t (some (t.attempts + 1)) none none now)
          recover (poll env t.task_id t.workspace_id) (after_answer (t.attempts + 1) now)
              (after_failure t (t.attempts + 1) now))

  abbrev listed : Act Task → Act (List Task)
  listed m = m >>= λ t. return (t ∷ [])

  -- One round of the loop of `tick`.
  unfoldable pub tick_task : Task → ℕ → Act (List Task)
  unfolding invalid_schedule end_task poll_due_task with_status
  tick_task t now = elim (invalid_schedule t) [
    | some error ↦ listed (end_task (with_status t failed none (some error) none none now) now)
    | none ↦
        if is_timed_out t.deadline_at now
        then listed (
            end_task (with_status t timed_out none (some "subagent task timed out") none none now)
              now)
        else if not (is_due t.next_poll_at now)
        then return []
        else listed (poll_due_task t now)
  ]

  unfoldable pub tick_all : List Task → ℕ → Act (List Task)
  unfolding tick_task
  tick_all [] now = return []
  tick_all (t ∷ rest) now = do
    changed ← tick_task t now
    others ← tick_all rest now
    return (changed ++ others)

  unfoldable pub tick : ℕ → Act (List Task)
  unfolding tick_all pending
  tick now w = tick_all (pending w.store) now w

  -- One round of the loop of `cancel_session`.
  unfoldable pub cancel_in_session : Task → String → ℕ → Act (List Task)
  unfolding descriptor_of cancel end_task is_terminal with_status
  cancel_in_session t workspace_id now = if is_terminal t then return [] else do
    d ← descriptor_of env t.provider
    if d.supports_cancel
        then listed (cancel env t.task_id workspace_id >>= λ u. end_task u now)
        else listed (
            put_task (
              with_status t cancelled none none none
                (some "Session ended before completion; provider does not support cancellation.")
                now)
            >>= λ u. end_task u now)

  unfoldable pub cancel_all : List Task → String → ℕ → Act (List Task)
  unfolding cancel_in_session
  cancel_all [] workspace_id now = return []
  cancel_all (t ∷ rest) workspace_id now = do
    ended ← cancel_in_session t workspace_id now
    others ← cancel_all rest workspace_id now
    return (ended ++ others)

  unfoldable pub cancel_session : String → String → ℕ → Act (List Task)
  unfolding cancel_all list_tasks
  cancel_session session_id workspace_id now w =
      cancel_all (list_tasks w.store (some workspace_id) (some session_id)) workspace_id now w
