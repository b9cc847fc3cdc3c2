-- ===== src/Subagents/Polling/Rounds.antt =====
-- What a round of a tick does to its task: it returns, and leaves the task stored with its identity
-- and the others as they were, whatever the provider answers or raises.
use flowhunt_voicebot.Base.{
  ℕ, ◌+◌, ◌≡◌, refl, ap, ◌∙◌, String, Bool, true, none, some, [], ◌∷◌, ◌++◌, if◌then◌else◌, leb,
  is_some, text_key, pair_key, Error, Result, ok, err, Bool-cases, inl, inr, ◌+s◌,
}
use flowhunt_voicebot.Base.Dict
use flowhunt_voicebot.Base.Dict.{Dict}
use flowhunt_voicebot.Subagents.{Task, running, failed, at, with_status}
use flowhunt_voicebot.Subagents.Identity.{identity, identity_of}
use flowhunt_voicebot.Subagents.Lifecycle.{
  is_terminal, with_poll_schedule, finish, terminal_event_type,
}
use flowhunt_voicebot.Subagents.Effects.{
  Descriptor, Registered, World, and_then, put_task, on_runner, recover, recovered,
}
use flowhunt_voicebot.Subagents.Coordinator.{descriptor_of, poll}
use flowhunt_voicebot.Subagents.Polling.{
  PollingPolicy, Wording, next_interval, end_task, poll_later, after_failure, after_answer,
  poll_due_task,
}
use flowhunt_voicebot.Subagents.Polling.Accepted.{
  Gives, Gives-map, and_then-Gives, Owns, IsMine, OthersKept, OthersKept-trans, IsStored,
  Owns-stored, put_task-Gives, finish-IsEnded, IsEnded,
}
use flowhunt_voicebot.Subagents.Polling.Answers.{KeepsId, Outcome, poll-Outcome}

module _ (session_active : String → Bool) (words : Wording) (env : Registered)
    (policy : PollingPolicy) (keeps : KeepsId env) where
  -- The provider has a descriptor, and the next interval is in the range of a double.
  abbrev pub IsReady : Task → Type 0
  IsReady t =
      (d : Descriptor) × (i : ℕ) × (Dict.get env.descriptors t.provider ≡ some d)
      × (next_interval policy (t.attempts + 1) ≡ ok i)

  -- The task is there behind the call, and the others are as they were.
  abbrev pub IsThere : World → Task → Task → World → Type 0
  IsThere a t u b = IsStored t.task_id (identity t) a u b

  -- It has the status of `u`, says that it was told, and was told to the sink unless `u` says that
  -- it was told before.
  abbrev pub IsTold : World → Task → Task → Task → World → Type 0
  IsTold a t u v b =
      IsThere a t v b
      × (is_some v.terminal_event_emitted_at ≡ true)
      × (v.status ≡ u.status)
      × (b.sink
          ≡ a.sink
            ++ (if is_some u.terminal_event_emitted_at
                then []
                else (terminal_event_type session_active u, u) ∷ []))

  put_task-There :
      (a : World) (t u : Task)
      → Owns t.task_id (identity t) a
      → IsMine t.task_id (identity t) u
      → Gives (IsThere a t) (put_task u a)
  put_task-There a t u owns mine =
      Gives-map (λ v b. (v ≡ u) × IsThere a t v b) (IsThere a t) (put_task u a)
        (put_task-Gives t.task_id (identity t) a u owns mine) (λ v b h. h.1)

  pub end_task-IsTold :
      (a : World) (t u : Task) (now : ℕ)
      → Owns t.task_id (identity t) a
      → IsMine t.task_id (identity t) u
      → Gives (IsTold a t u) (end_task session_active words env policy u now a)
  unfolding end_task
  end_task-IsTold a t u now owns mine =
      Gives-map (IsEnded t.task_id (identity t) session_active a u) (IsTold a t u)
        (on_runner (λ r. finish session_active r u now) a)
        (finish-IsEnded t.task_id (identity t) session_active a u now owns mine) (λ v b h. h)

  end_task-There :
      (a : World) (t u : Task) (now : ℕ)
      → Owns t.task_id (identity t) a
      → IsMine t.task_id (identity t) u
      → Gives (IsThere a t) (end_task session_active words env policy u now a)
  end_task-There a t u now owns mine =
      Gives-map (IsTold a t u) (IsThere a t) (end_task session_active words env policy u now a)
        (end_task-IsTold a t u now owns mine) (λ v b h. h.0)

  poll_later-There :
      (a : World) (t u : Task) (attempts now i : ℕ)
      → Owns t.task_id (identity t) a
      → IsMine t.task_id (identity t) u
      → next_interval policy attempts ≡ ok i
      → Gives (IsThere a t) (poll_later session_active words env policy u attempts now a)
  unfolding poll_later with_poll_schedule
  poll_later-There a t u attempts now i owns mine in_range = rw in_range (
      put_task-There a t (with_poll_schedule u (some attempts) (some (at (now + i))) none now) owns
        mine)

  -- A call that is made after others are kept.
  onward-There :
      (a b : World) (t : Task) (o : World × Result Task)
      → OthersKept t.task_id (identity t) a b
      → Gives (IsThere b t) o
      → Gives (IsThere a t) o
  onward-There a b t (c, ok v) kept h =
      (h.0, h.1, OthersKept-trans t.task_id (identity t) a b c kept h.2)
  onward-There a b t (c, err e) kept h = h

  after_failure-There :
      (a : World) (t : Task) (attempts now i : ℕ) (e : Error)
      → Owns t.task_id (identity t) a
      → next_interval policy attempts ≡ ok i
      → Gives (IsThere a t) (after_failure session_active words env policy t attempts now e a)
  unfolding after_failure with_poll_schedule with_status
  after_failure-There a t attempts now i e owns in_range =
      elim (Bool-cases (leb policy.max_attempts attempts)) [
        | inl enough ↦
            let ended : Task =
              with_poll_schedule
                (with_status t failed none
                  (some (
                    "provider polling failed after "
                    +s (words.of_number attempts +s (" attempts: " +s words.of_error e))))
                  none none now)
                (some attempts) none none now in
            rw enough (
              and_then-Gives (IsThere a t) (IsThere a t) (put_task ended a)
                (λ stored. end_task session_active words env policy stored now)
                (put_task-There a t ended owns (refl, refl))
                λ v b h.
                  onward-There a b t (end_task session_active words env policy v now b) h.2
                    (end_task-There b t v now (Owns-stored t.task_id (identity t) a b v h) h.0))
        | inr more ↦ rw more (
            poll_later-There a t
              (with_status t running none (some ("provider polling failed: " +s words.of_error e))
                none none now)
              attempts now i owns (refl, refl) in_range)
      ]

  after_answer-There :
      (a : World) (t u : Task) (attempts now i : ℕ)
      → Owns t.task_id (identity t) a
      → IsMine t.task_id (identity t) u
      → next_interval policy attempts ≡ ok i
      → Gives (IsThere a t) (after_answer session_active words env policy attempts now u a)
  unfolding after_answer
  after_answer-There a t u attempts now i owns mine in_range = elim (Bool-cases (is_terminal u)) [
    | inl over ↦ rw over (end_task-There a t u now owns mine)
    | inr more ↦ rw more (poll_later-There a t u attempts now i owns mine in_range)
  ]

  -- Behind the poll, whether it raised or not.
  recovered-There :
      (a : World) (t : Task) (attempts now i : ℕ) (o : World × Result Task)
      → Outcome t.task_id (identity t) a o
      → next_interval policy attempts ≡ ok i
      → Gives (IsThere a t) (
          recovered o
            (after_answer session_active words env policy attempts now)
            (after_failure session_active words env policy t attempts now))
  recovered-There a t attempts now i (b, ok u) h in_range =
      onward-There a b t (after_answer session_active words env policy attempts now u b) h.2 (
        after_answer-There b t u attempts now i (Owns-stored t.task_id (identity t) a b u h) h.0
          in_range)
  recovered-There a t attempts now i (b, err e) h in_range =
      onward-There a b t (after_failure session_active words env policy t attempts now e b) h.1
        (after_failure-There b t attempts now i e h.0 in_range)

  -- The branch of a provider that can be polled.
  polled-There :
      (a : World) (t : Task) (now i : ℕ)
      → Owns t.task_id (identity t) a
      → next_interval policy (t.attempts + 1) ≡ ok i
      → Gives (IsThere a t) (
          and_then (put_task (with_poll_schedule t (some (t.attempts + 1)) none none now) a) λ u.
            recover
              (poll env t.task_id t.workspace_id)
              (after_answer session_active words env policy (t.attempts + 1) now)
              (after_failure session_active words env policy t (t.attempts + 1) now))
  unfolding with_poll_schedule
  polled-There a t now i owns in_range =
      let asked : Task = with_poll_schedule t (some (t.attempts + 1)) none none now in
      and_then-Gives (λ v b. (v ≡ asked) × IsThere a t v b) (IsThere a t) (put_task asked a)
        (λ u.
          recover (poll env t.task_id t.workspace_id)
            (after_answer session_active words env policy (t.attempts + 1) now)
            (after_failure session_active words env policy t (t.attempts + 1) now))
        (put_task-Gives t.task_id (identity t) a asked owns (refl, refl))
        λ v b h.
          let o = poll env t.task_id t.workspace_id b in
          onward-There a b t
            (recovered o (after_answer session_active words env policy (t.attempts + 1) now)
              (after_failure session_active words env policy t (t.attempts + 1) now))
            h.1.2
            (recovered-There b t (t.attempts + 1) now i o
              (poll-Outcome t.task_id (identity t) env keeps b asked (h.1.1 ∙ ap some h.0)
                (refl, refl))
              in_range)

  pub poll_due_task-There :
      (a : World) (t : Task) (now : ℕ)
      → Dict.get a.store.tasks t.task_id ≡ some t
      → IsReady t
      → Gives (IsThere a t) (poll_due_task session_active words env policy t now a)
  unfolding poll_due_task descriptor_of with_status with_poll_schedule
  poll_due_task-There a t now there (d, i, known, in_range) =
      let owns : Owns t.task_id (identity t) a = ap identity_of there in
      elim (Bool-cases d.supports_async_polling) [
        | inl polls ↦ rw (known, descriptor_of) (rw polls (polled-There a t now i owns in_range))
        | inr no_poll ↦
            rw (known, descriptor_of)
              (rw no_poll (
                put_task-There a t
                  (with_poll_schedule
                    (with_status t running none none none
                      (some "Provider does not support async polling.") now)
                    none (some (at (now + policy.initial_interval))) none now)
                  owns (refl, refl)))
      ]
