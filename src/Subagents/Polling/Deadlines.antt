-- ===== src/Subagents/Polling/Deadlines.antt =====
-- What a tick does to each task that is not over: it ends those that are overdue, leaves those that
-- are not due, and loses none, whatever the providers answer or raise.
use flowhunt_voicebot.Base.{
  ℕ, ◌≤◌, ◌≡◌, ◌≢◌, refl, sym, ap, subst, ◌∙◌, String, Bool, true, false, ◌||◌, none, some, List,
  [], ◌∷◌, ◌++◌, All, is_some, text_key, pair_key, Bool-cases, Option-cases, inl, inr, Result, ok,
  err, append_assoc, if◌then◌else◌,
}
use flowhunt_voicebot.Base.Dict
use flowhunt_voicebot.Base.Dict.{Dict}
use flowhunt_voicebot.Base.Dict.Entries.{
  All-both, All-turned, All-get_self, All-values, Distinct, Distinct-values,
}
use flowhunt_voicebot.Subagents.{Task, failed, timed_out, with_status}
use flowhunt_voicebot.Subagents.Identity.{identity, identity_of}
use flowhunt_voicebot.Subagents.Lifecycle.{is_terminal, LifecycleEvent, terminal_event_type}
use flowhunt_voicebot.Subagents.Effects.{Registered, World, Act, ◌>>=◌, and_then, return}
use flowhunt_voicebot.Subagents.Polling.{
  PollingPolicy, Wording, invalid_schedule, is_due, is_timed_out, pending, end_task, poll_due_task,
  tick_task, tick_all, tick,
}
use flowhunt_voicebot.Subagents.Polling.Accepted.{
  Gives, Gives-map, and_then-Gives, IsMine, OthersKept,
}
use flowhunt_voicebot.Subagents.Polling.Rounds.{
  IsReady, IsThere, IsTold, end_task-IsTold, poll_due_task-There,
}
use flowhunt_voicebot.Subagents.Polling.Pending.{All-pending, Distinct-pending, pending_of_stored}
use flowhunt_voicebot.Subagents.Polling.Sink.{Grows, Grows-refl, Grows-trans, tick_task-IsGrowing}
use flowhunt_voicebot.Subagents.Polling.Answers.{KeepsId}

-- The schedule of the task cannot be read, or its deadline has passed.
abbrev pub is_overdue : Task → ℕ → Bool
is_overdue t now = is_some (invalid_schedule t) || is_timed_out t.deadline_at now

-- Between the two worlds the sink was given an event for the end of the task, with the identity of
-- `t` and the status of `v`.
abbrev pub WasGiven : (String → Bool) → Task → World → Task → World → Type 0
WasGiven session_active t a v b =
    (u : Task) × (before : List (LifecycleEvent × Task)) × (rest : List (LifecycleEvent × Task))
    × (b.sink ≡ a.sink ++ (before ++ ((terminal_event_type session_active u, u) ∷ rest)))
    × (u.task_id ≡ t.task_id)
    × (identity u ≡ identity t)
    × (u.status ≡ v.status)

-- The end is told to the sink, unless the task says that it was told before.
abbrev pub IsGiven : (String → Bool) → Bool → Task → World → Task → World → Type 0
IsGiven session_active true t a v b = Unit
IsGiven session_active false t a v b = WasGiven session_active t a v b

-- What becomes of a task `t`: it is over, and its end is told, if it is overdue; else it is as it
-- was if it is not due.
abbrev pub HasBecome : (String → Bool) → Bool → Bool → Task → World → Task → World → Type 0
HasBecome session_active true due t a v b =
    (is_terminal v ≡ true)
    × (is_some v.terminal_event_emitted_at ≡ true)
    × IsGiven session_active (is_some t.terminal_event_emitted_at) t a v b
HasBecome session_active false true t a v b = Unit
HasBecome session_active false false t a v b = v ≡ t

abbrev pub IsSettled : (String → Bool) → ℕ → Task → World → World → Type 0
IsSettled session_active now t a b =
    (v : Task) × (Dict.get b.store.tasks t.task_id ≡ some v)
    × (identity v ≡ identity t)
    × HasBecome session_active (is_overdue t now) (is_due t.next_poll_at now) t a v b

terminal_of_status :
    (v u : Task) → v.status ≡ u.status → is_terminal u ≡ true → is_terminal v ≡ true
unfolding is_terminal
terminal_of_status v u same over = rw (same, is_terminal) over

module _ (session_active : String → Bool) (t v : Task) (a b c d : World) (earlier : Grows a b)
    (later : Grows c d) where
  -- What was told is still told when others were told before and after.
  WasGiven-within : WasGiven session_active t b v c → WasGiven session_active t a v d
  WasGiven-within (u, before, rest, given, named, same, ended) =
      let e : LifecycleEvent × Task = (terminal_event_type session_active u, u) in
      (
        u,
        earlier.0 ++ before,
        rest ++ later.0,
        later.1
            ∙ ap (λ l. l ++ later.0) (given ∙ ap (λ l. l ++ (before ++ (e ∷ rest))) earlier.1)
            ∙ simp append_assoc,
        named,
        same,
        ended,
      )

  IsGiven-within :
      (told : Bool) → IsGiven session_active told t b v c → IsGiven session_active told t a v d
  IsGiven-within true h = tt
  IsGiven-within false h = WasGiven-within h

  HasBecome-within :
      (over due : Bool)
      → HasBecome session_active over due t b v c
      → HasBecome session_active over due t a v d
  HasBecome-within true due h = (h.0, h.1, IsGiven-within (is_some t.terminal_event_emitted_at) h.2)
  HasBecome-within false true h = tt
  HasBecome-within false false h = h

-- The event of an end, as the round of the task tells it.
IsGiven-of :
    (session_active : String → Bool) (t u v : Task) (a b : World) (told : Bool)
    → is_some u.terminal_event_emitted_at ≡ told
    → u.task_id ≡ t.task_id
    → identity u ≡ identity t
    → u.status ≡ v.status
    → b.sink
      ≡ a.sink
        ++ (if is_some u.terminal_event_emitted_at
            then []
            else (terminal_event_type session_active u, u) ∷ [])
    → IsGiven session_active told t a v b
IsGiven-of session_active t u v a b true known named same ended sink = tt
IsGiven-of session_active t u v a b false known named same ended sink =
    (u, [], [], rw known at sink, named, same, ended)

module _ (session_active : String → Bool) (words : Wording) (env : Registered)
    (policy : PollingPolicy) (keeps : KeepsId env) where
  -- What one round leaves.
  abbrev HasPassed : World → Task → ℕ → World → Type 0
  HasPassed a t now b = OthersKept t.task_id (identity t) a b × IsSettled session_active now t a b

  Gives-Grows :
      {A : Type 0} (P : World → Type 0) (a : World) (o : World × Result A)
      → Gives (λ x b. P b) o
      → Grows a o.0
      → Gives (λ x b. P b × Grows a b) o
  Gives-Grows P a (b, ok x) h g = (h, g)
  Gives-Grows P a (b, err e) h g = h

  abbrev round : Task → ℕ → Act (List Task)
  round = tick_task session_active words env policy

  abbrev rounds : List Task → ℕ → Act (List Task)
  rounds = tick_all session_active words env policy

  -- The round of an overdue task, which ends it with a status.
  ended-HasPassed :
      (a : World) (t u : Task) (now : ℕ)
      → Dict.get a.store.tasks t.task_id ≡ some t
      → IsMine t.task_id (identity t) u
      → is_terminal u ≡ true
      → is_overdue t now ≡ true
      → u.terminal_event_emitted_at ≡ t.terminal_event_emitted_at
      → Gives
          (λ us b. HasPassed a t now b)
          (and_then (end_task session_active words env policy u now a) (λ v. return (v ∷ [])))
  ended-HasPassed a t u now there mine over late unstamped =
      and_then-Gives (IsTold session_active words env policy keeps a t u)
        (λ us b. HasPassed a t now b) (end_task session_active words env policy u now a)
        (λ v. return (v ∷ []))
        (end_task-IsTold session_active words env policy keeps a t u now (ap identity_of there)
          mine)
        λ v b h. (
          h.0.2,
          (
            v,
            h.0.1,
            h.0.0.1,
            subst (λ l. HasBecome session_active l (is_due t.next_poll_at now) t a v b) (sym late)
                (
                  terminal_of_status v u h.2 over,
                  h.1,
                  IsGiven-of session_active t u v a b (is_some t.terminal_event_emitted_at)
                      (ap is_some unstamped) mine.0 mine.1 (sym h.2) h.3,
                ),
          ),
        )

  polled-HasPassed :
      (a : World) (t : Task) (now : ℕ)
      → Dict.get a.store.tasks t.task_id ≡ some t
      → IsReady session_active words env policy keeps t
      → is_overdue t now ≡ false
      → is_due t.next_poll_at now ≡ true
      → Gives
          (λ us b. HasPassed a t now b)
          (and_then (poll_due_task session_active words env policy t now a) (λ v. return (v ∷ [])))
  polled-HasPassed a t now there ready early due =
      and_then-Gives (IsThere session_active words env policy keeps a t)
        (λ us b. HasPassed a t now b) (poll_due_task session_active words env policy t now a)
        (λ v. return (v ∷ []))
        (poll_due_task-There session_active words env policy keeps a t now there ready)
        λ v b h. (h.2, (v, h.1, h.0.1, rw (early, due) tt))

  -- The four ways through a round.
  round_by_cases :
      (P : List Task → World → Type 0) (a : World) (t : Task) (now : ℕ)
      → ((error : String)
          → invalid_schedule t ≡ some error
          → Gives P (
              and_then
                (end_task session_active words env policy
                  (with_status t failed none (some error) none none now)
                  now
                  a)
                (λ v. return (v ∷ []))))
      → (invalid_schedule t ≡ none
          → is_timed_out t.deadline_at now ≡ true
          → Gives P (
              and_then
                (end_task session_active words env policy
                  (with_status t timed_out none (some "subagent task timed out") none none now)
                  now
                  a)
                (λ v. return (v ∷ []))))
      → (is_overdue t now ≡ false
          → is_due t.next_poll_at now ≡ true
          → Gives P (
              and_then
                (poll_due_task session_active words env policy t now a)
                (λ v. return (v ∷ []))))
      → (is_overdue t now ≡ false → is_due t.next_poll_at now ≡ false → P [] a)
      → Gives P (round t now a)
  unfolding tick_task
  round_by_cases P a t now invalid late due wait = elim (Option-cases (invalid_schedule t)) [
    | inr (error, bad) ↦ rw (bad, tick_task) (invalid error bad)
    | inl fine ↦ elim (Bool-cases (is_timed_out t.deadline_at now)) [
      | inl over ↦ rw (fine, tick_task) (rw over (late fine over))
      | inr early ↦
          let in_time : is_overdue t now ≡ false = rw (fine, early) in
          elim (Bool-cases (is_due t.next_poll_at now)) [
            | inl now_due ↦ rw (fine, tick_task) (rw early (rw now_due (due in_time now_due)))
            | inr not_due ↦ rw (fine, tick_task) (rw early (rw not_due (wait in_time not_due)))
          ]
    ]
  ]

  tick_task-HasPassed :
      (a : World) (t : Task) (now : ℕ)
      → Dict.get a.store.tasks t.task_id ≡ some t
      → IsReady session_active words env policy keeps t
      → Gives (λ us b. HasPassed a t now b) (round t now a)
  unfolding with_status is_terminal
  tick_task-HasPassed a t now there ready =
      round_by_cases (λ us b. HasPassed a t now b) a t now
        (λ error bad.
          ended-HasPassed a t (with_status t failed none (some error) none none now) now there
            (refl, refl) refl (rw bad) refl)
        (λ fine late.
          ended-HasPassed a t
            (with_status t timed_out none (some "subagent task timed out") none none now) now there
            (refl, refl) refl (rw (fine, late)) refl)
        (λ in_time due. polled-HasPassed a t now there ready in_time due)
        (λ in_time wait. ((λ k other. refl), (t, there, refl, rw (in_time, wait) refl)))

  tick_task-HasRun :
      (a : World) (t : Task) (now : ℕ)
      → Dict.get a.store.tasks t.task_id ≡ some t
      → IsReady session_active words env policy keeps t
      → Gives (λ us b. HasPassed a t now b × Grows a b) (round t now a)
  tick_task-HasRun a t now there ready =
      Gives-Grows (HasPassed a t now) a (round t now a) (tick_task-HasPassed a t now there ready)
        (tick_task-IsGrowing env session_active words policy t now a)

  -- The tasks that a list of rounds leaves.
  abbrev HaveRun : World → List Task → ℕ → World → Type 0
  HaveRun a ts now b =
      All (λ t. IsSettled session_active now t a b) ts
      × ((k : String)
          → All (λ t. k ≢ t.task_id) ts
          → Dict.get b.store.tasks k ≡ Dict.get a.store.tasks k)
      × Grows a b

  All-earlier :
      (a b c : World) (ts : List Task) (now : ℕ)
      → Grows a b
      → All (λ t. IsSettled session_active now t b c) ts
      → All (λ t. IsSettled session_active now t a c) ts
  All-earlier a b c [] now earlier h = tt
  All-earlier a b c (t ∷ ts) now earlier ((v, found, same, become), h) = (
    (
      v,
      found,
      same,
      HasBecome-within session_active t v a b c c earlier (Grows-refl c) (is_overdue t now)
          (is_due t.next_poll_at now) become,
    ),
    All-earlier a b c ts now earlier h,
  )

  All-kept :
      (a b : World) (t : Task) (ts : List Task)
      → OthersKept t.task_id (identity t) a b
      → All (λ u. u.task_id ≢ t.task_id) ts
      → All (λ u. Dict.get a.store.tasks u.task_id ≡ some u) ts
      → All (λ u. Dict.get b.store.tasks u.task_id ≡ some u) ts
  All-kept a b t [] kept other there = tt
  All-kept a b t (u ∷ us) kept other there =
      (kept u.task_id other.0 ∙ there.0, All-kept a b t us kept other.1 there.1)

  rounds-HaveRun :
      (a : World) (ts : List Task) (now : ℕ)
      → All (λ t. Dict.get a.store.tasks t.task_id ≡ some t) ts
      → All (IsReady session_active words env policy keeps) ts
      → Distinct (λ (t : Task). t.task_id) ts
      → Gives (λ us b. HaveRun a ts now b) (rounds ts now a)
  unfolding tick_all
  rounds-HaveRun a [] now there ready distinct = (tt, (λ k other. refl), Grows-refl a)
  rounds-HaveRun a (t ∷ ts) now there ready distinct =
      and_then-Gives (λ us b. HasPassed a t now b × Grows a b) (λ us b. HaveRun a (t ∷ ts) now b)
        (round t now a) (λ changed. rounds ts now >>= λ others. return (changed ++ others))
        (tick_task-HasRun a t now there.0 ready.0)
        λ us b h.
          and_then-Gives (λ vs c. HaveRun b ts now c) (λ vs c. HaveRun a (t ∷ ts) now c)
            (rounds ts now b) (λ others. return (us ++ others))
            (rounds-HaveRun b ts now (All-kept a b t ts h.0.0 distinct.0 there.1) ready.1
              distinct.1)
            λ vs c g.
              let (v, found, same, become) = h.0.1 in
              let absent = All-turned (λ (u : Task). u.task_id) t ts distinct.0 in
              let kept =
                HasBecome-within session_active t v a a b c (Grows-refl a) g.2 (is_overdue t now)
                  (is_due t.next_poll_at now) become in
              (
                ((v, g.1 t.task_id absent ∙ found, same, kept), All-earlier a b c ts now h.1 g.0),
                (λ k other. g.1 k other.1 ∙ h.0.0 k other.0),
                Grows-trans a b c h.1 g.2,
              )

  -- A tick of a store whose tasks stand under their own ids, each once, returns, whatever the
  -- providers answer or raise, and settles each task that is not over: a task whose schedule cannot
  -- be read or whose deadline has passed is over, and the event of its end was given to the sink in
  -- this tick, unless the task said that it was told before; another that is not due is as it was;
  -- and every one is still there, with its workspace, session, voicebot, provider and request.
  -- Conditions: the sink does not raise, a provider answers about the task that it is asked about,
  -- and every task has a provider with a descriptor and a number of attempts whose interval a
  -- double can hold.
  pub tick-IsSettled :
      (a : World) (now : ℕ) (id : String) (t : Task)
      → All (λ e. e.1.task_id ≡ e.0) a.store.tasks
      → ((k : String) → Dict.occurs a.store.tasks k ≤ 1)
      → All (IsReady session_active words env policy keeps) (Dict.values a.store.tasks)
      → Dict.get a.store.tasks id ≡ some t
      → is_terminal t ≡ false
      → Gives
          (λ us b. IsSettled session_active now t a b)
          (tick session_active words env policy now a)
  unfolding tick
  tick-IsSettled a now id t keyed once ready there unfinished =
      let found : All (λ u. Dict.get a.store.tasks u.task_id ≡ some u) (Dict.values a.store.tasks) =
        All-values
          (λ (e : String × Task). (Dict.get a.store.tasks e.0 ≡ some e.1) × (e.1.task_id ≡ e.0))
          (λ u. Dict.get a.store.tasks u.task_id ≡ some u) a.store.tasks
          (λ e h. ap (λ k. Dict.get a.store.tasks k) h.1 ∙ h.0)
          (All-both (λ e. Dict.get a.store.tasks e.0 ≡ some e.1) (λ e. e.1.task_id ≡ e.0)
            a.store.tasks (All-get_self a.store.tasks once) keyed) in
      Gives-map (λ us b. HaveRun a (pending a.store) now b)
        (λ us b. IsSettled session_active now t a b) (rounds (pending a.store) now a)
        (rounds-HaveRun a (pending a.store) now
          (All-pending (λ u. Dict.get a.store.tasks u.task_id ≡ some u) a.store found)
          (All-pending (IsReady session_active words env policy keeps) a.store ready)
          (Distinct-pending a.store
            (Distinct-values (λ (u : Task). u.task_id) a.store.tasks keyed once)))
        (λ us b h.
          pending_of_stored (λ u. IsSettled session_active now u a b) a.store id t there unfinished
            h.0)
