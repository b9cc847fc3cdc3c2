-- ===== src/Subagents/Lifecycle.antt =====
-- The end of a task in `SubagentTaskLifecycleRunner` of voicebot/task_lifecycle.py, with the
-- changes of `SubagentTask` that it makes. The event sink is the list of what it was given. It is
-- taken not to raise, though the one that the API passes writes to stores, which may; `session_active` is the runner's check of that name.
use flowhunt_voicebot.Base.{
  ℕ, ◌+◌, ◌≡◌, refl, String, Bool, true, false, not, Option, none, some, List, [], ◌∷◌, ◌++◌,
  if◌then◌else◌, text_key, pair_key, eq_iff, same_option_iff, is_some, or_default, or_else, arith,
  Result, ok, err, raise_if, ◌>>=◌, ◌>>◌, append-nil, ap, sym, ◌∙◌,
}
use flowhunt_voicebot.Base.Dict
use flowhunt_voicebot.Base.Dict.{Dict}
use flowhunt_voicebot.Subagents.{
  Task, requested, accepted, running, completed, failed, timed_out, cancelled, TaskStore, update,
  at, Instant,
}

unfoldable pub is_terminal : Task → Bool
is_terminal t = elim t.status [
  | requested ↦ false
  | accepted ↦ false
  | running ↦ false
  | completed ↦ true
  | failed ↦ true
  | timed_out ↦ true
  | cancelled ↦ true
]

unfoldable pub with_poll_schedule : Task → Option ℕ → Option Instant → Option Instant → ℕ → Task
with_poll_schedule t attempts next_poll_at deadline_at now = record t {
  attempts = or_default attempts t.attempts;
  next_poll_at = next_poll_at;
  deadline_at = or_else deadline_at t.deadline_at;
  updated_at = now;
}

unfoldable pub with_terminal_event_emitted : Task → ℕ → Task
with_terminal_event_emitted t now = record t {
  terminal_event_emitted_at = some now;
  updated_at = now;
}

pub data LifecycleEvent : Type 0 where
  task_completed task_failed task_timed_out task_cancelled task_late_completed : LifecycleEvent

pub record Runner : Type 0 where
  pub store : TaskStore
  pub emitted : List (LifecycleEvent × Task)

module _ (session_active : String → Bool) where
  unfoldable pub terminal_event_type : Task → LifecycleEvent
  terminal_event_type t = elim t.status [
    | completed ↦ if session_active t.session_id then task_completed else task_late_completed
    | timed_out ↦ task_timed_out
    | cancelled ↦ task_cancelled
    | requested ↦ task_failed
    | accepted ↦ task_failed
    | running ↦ task_failed
    | failed ↦ task_failed
  ]

  -- `_mark_terminal` behind its first update.
  unfoldable pub emit_end : Runner → Task → ℕ → Result (Task × Runner)
  unfolding terminal_event_type with_terminal_event_emitted
  emit_end r t now = if is_some t.terminal_event_emitted_at then ok (t, r) else do
    p ← update r.store (with_terminal_event_emitted t now)
    ok (p.0, record { store = p.1; emitted = r.emitted ++ ((terminal_event_type t, t) ∷ []) })

  -- `_mark_terminal`
  unfoldable pub finish : Runner → Task → ℕ → Result (Task × Runner)
  unfolding emit_end
  finish r t now = update r.store t >>= λ p. emit_end (record r { store = p.1 }) p.0 now

  unfoldable pub mark_terminal : Runner → Task → ℕ → Result (Task × Runner)
  unfolding is_terminal finish
  mark_terminal r t now = do
    raise_if (not (is_terminal t)) "only terminal subagent tasks can be marked terminal"
    finish r t now

  unfoldable pub schedule : ℕ → ℕ → Runner → Task → ℕ → Result (Task × Runner)
  unfolding is_terminal finish with_poll_schedule
  schedule timeout initial_interval r t now = if is_terminal t then finish r t now else do
    p ← update r.store (
        with_poll_schedule t none (or_else t.next_poll_at (some (at (now + initial_interval))))
          (or_else t.deadline_at (some (at (now + timeout)))) now)
    ok (p.0, record r { store = p.1 })

pub update_done :
    (s s' : TaskStore) (t t' : Task)
    → update s t ≡ ok (t', s')
    → (t' ≡ t) × (s' ≡ record s { tasks = Dict.put s.tasks t.task_id t })
unfolding update
update_done s s' t t' h = ground arith

-- A task that is there may be stored again with another instant of its terminal event.
update_again :
    (s : TaskStore) (t : Task) (emitted_at : Option ℕ) (now : ℕ)
    → Dict.get s.tasks t.task_id ≡ some t
    → update s (record t { terminal_event_emitted_at = emitted_at; updated_at = now })
      ≡ ok (
        record t { terminal_event_emitted_at = emitted_at; updated_at = now },
        record s {
          tasks =
              Dict.put s.tasks t.task_id
                (record t { terminal_event_emitted_at = emitted_at; updated_at = now });
        },
      )
unfolding update
update_again s t emitted_at now there = ground (
  arith,
  there,
  eq_iff t.workspace_id t.workspace_id,
  eq_iff t.session_id t.session_id,
  eq_iff t.provider t.provider,
  same_option_iff t.voicebot_id t.voicebot_id,
)

update_same :
    (s : TaskStore) (t : Task)
    → Dict.get s.tasks t.task_id ≡ some t
    → update s t ≡ ok (t, record s { tasks = Dict.put s.tasks t.task_id t })
unfolding update
update_same s t there = ground (
  arith,
  there,
  eq_iff t.workspace_id t.workspace_id,
  eq_iff t.session_id t.session_id,
  eq_iff t.provider t.provider,
  same_option_iff t.voicebot_id t.voicebot_id,
)

module _ (session_active : String → Bool) where
  -- The end of a task has been told: the task says so, and is stored that way.
  abbrev pub IsTold : Runner → Task → Type 0
  IsTold r t =
      (is_some t.terminal_event_emitted_at ≡ true) × (Dict.get r.store.tasks t.task_id ≡ some t)

  emit_end-IsTold :
      (r r' : Runner) (t t' : Task) (now : ℕ) (told : Bool)
      → is_some t.terminal_event_emitted_at ≡ told
      → Dict.get r.store.tasks t.task_id ≡ some t
      → emit_end session_active r t now ≡ ok (t', r')
      → IsTold r' t'
        × (r'.emitted
            ≡ r.emitted ++ (if told then [] else (terminal_event_type session_active t, t) ∷ []))
  unfolding emit_end with_terminal_event_emitted
  emit_end-IsTold r r' t t' now true e there h = ground (arith, append-nil r.emitted)
  emit_end-IsTold r r' t t' now false e there h = ground (
    arith,
    update_again r.store t (some now) now there,
    Dict.get-put_self r.store.tasks t.task_id
        (record t { terminal_event_emitted_at = some now; updated_at = now }),
  )

  stored-IsTold :
      (r r' : Runner) (t t' : Task) (now : ℕ) (o : Result (Task × TaskStore))
      → update r.store t ≡ o
      → (o >>= λ p. emit_end session_active (record r { store = p.1 }) p.0 now) ≡ ok (t', r')
      → IsTold r' t'
        × (r'.emitted
            ≡ r.emitted
              ++ (if is_some t.terminal_event_emitted_at
                  then []
                  else (terminal_event_type session_active t, t) ∷ []))
  stored-IsTold r r' t t' now (err e) stored h = cc
  stored-IsTold r r' t t' now (ok (u, s')) stored h =
      let (same, made) = update_done r.store s' t u stored in
      emit_end-IsTold (record r { store = s' }) r' t t' now (is_some t.terminal_event_emitted_at)
        refl
        (ap (λ s. Dict.get s.tasks t.task_id) made ∙ Dict.get-put_self r.store.tasks t.task_id t)
        (ap (λ v. emit_end session_active (record r { store = s' }) v now) (sym same) ∙ h)

  pub finish-IsTold :
      (r r' : Runner) (t t' : Task) (now : ℕ)
      → finish session_active r t now ≡ ok (t', r')
      → IsTold r' t'
        × (r'.emitted
            ≡ r.emitted
              ++ (if is_some t.terminal_event_emitted_at
                  then []
                  else (terminal_event_type session_active t, t) ∷ []))
  unfolding finish
  finish-IsTold r r' t t' now h = stored-IsTold r r' t t' now (update r.store t) refl h

  finish_told :
      (r : Runner) (t : Task) (now : ℕ)
      → IsTold r t
      → finish session_active r t now
        ≡ ok (
          t,
          record r { store = record (r.store) { tasks = Dict.put r.store.tasks t.task_id t } },
        )
  unfolding finish emit_end
  finish_told r t now h = ground (arith, h.0, update_same r.store t h.1)

  -- The end of a task is told to the sink once: the first accepted call tells it if the task does
  -- not say that it was told, and any later call with the task which that call returned is
  -- accepted, returns the same task and tells nothing.
  pub finish-finish :
      (r r' : Runner) (t t' : Task) (now later : ℕ)
      → finish session_active r t now ≡ ok (t', r')
      → (r'.emitted
          ≡ r.emitted
            ++ (if is_some t.terminal_event_emitted_at
                then []
                else (terminal_event_type session_active t, t) ∷ []))
        × ((r'' : Runner) × (finish session_active r' t' later ≡ ok (t', r''))
            × (r''.emitted ≡ r'.emitted))
  finish-finish r r' t t' now later h =
      let (told, emitted) = finish-IsTold r r' t t' now h in
      (emitted, (_, finish_told r' t' later told, refl))
