-- ===== src/Subagents/Polling/Sink.antt =====
-- The events that were told to the sink are never taken back: each call of a tick only adds to them.
use flowhunt_voicebot.Base.{
  ℕ, ◌≡◌, refl, sym, ap, ◌∙◌, String, Bool, true, false, none, some, ◌+s◌, List, [], ◌∷◌, ◌++◌, leb,
  append-nil, append_assoc, text_key, ◌==◌, not, if◌then◌else◌, Error, Result, ok, err,
  Option-cases, inl, inr,
}
use flowhunt_voicebot.Base.Dict
use flowhunt_voicebot.Subagents.{Task, TaskStore, running, update, find_task, with_status}
use flowhunt_voicebot.Subagents.Lifecycle.{
  LifecycleEvent, Runner, is_terminal, finish, finish-IsTold,
}
use flowhunt_voicebot.Subagents.Effects.{
  Registered, World, Act, ◌>>=◌, and_then, return, lift, check, stored, put_task, emit, ran,
  recovered,
}
use flowhunt_voicebot.Subagents.Coordinator.{
  get_task, descriptor_of, provider_of, store_answer, poll,
}
use flowhunt_voicebot.Subagents.Polling.{
  PollingPolicy, Wording, next_interval, invalid_schedule, is_timed_out, is_due, end_task,
  poll_later, after_failure, after_answer, poll_due_task, tick_task,
}

-- The sink of the second world is that of the first, with what was told since.
abbrev pub Grows : World → World → Type 0
Grows a b = (told : List (LifecycleEvent × Task)) × (b.sink ≡ a.sink ++ told)

pub Grows-refl : (a : World) → Grows a a
Grows-refl a = ([], sym (append-nil a.sink))

pub Grows-trans : (a b c : World) → Grows a b → Grows b c → Grows a c
Grows-trans a b c (first, h) (then_told, g) =
    (first ++ then_told, g ∙ ap (λ l. l ++ then_told) h ∙ append_assoc a.sink first then_told)

-- A call that only adds to the sink, whether it returns or raises.
abbrev pub IsGrowing : {A : Type 0} → Act A → Type 0
IsGrowing m = (w : World) → Grows w (m w).0

and_then-Grows :
    {A B : Type 0} (a : World) (o : World × Result A) (f : A → Act B)
    → Grows a o.0
    → ((x : A) → IsGrowing (f x))
    → Grows a (and_then o f).0
and_then-Grows a (b, ok x) f h next = Grows-trans a b (f x b).0 h (next x b)
and_then-Grows a (b, err e) f h next = h

>>=-IsGrowing :
    {A B : Type 0} (m : Act A) (f : A → Act B)
    → IsGrowing m
    → ((x : A) → IsGrowing (f x))
    → IsGrowing (m >>= f)
>>=-IsGrowing m f h next w = and_then-Grows w (m w) f (h w) next

recovered-Grows :
    {A B : Type 0} (a : World) (o : World × Result A) (f : A → Act B) (handle : Error → Act B)
    → Grows a o.0
    → ((x : A) → IsGrowing (f x))
    → ((e : Error) → IsGrowing (handle e))
    → Grows a (recovered o f handle).0
recovered-Grows a (b, ok x) f handle h next other = Grows-trans a b (f x b).0 h (next x b)
recovered-Grows a (b, err e) f handle h next other = Grows-trans a b (handle e b).0 h (other e b)

if-IsGrowing :
    {A : Type 0} (b : Bool) (m n : Act A)
    → IsGrowing m
    → IsGrowing n
    → IsGrowing (if b then m else n)
if-IsGrowing true m n h g = h
if-IsGrowing false m n h g = g

stored-Grows : (w : World) (o : Result (Task × TaskStore)) → Grows w (stored w o).0
stored-Grows w (ok (t, s)) = Grows-refl w
stored-Grows w (err e) = Grows-refl w

put_task-IsGrowing : (t : Task) → IsGrowing (put_task t)
unfolding put_task
put_task-IsGrowing t w = stored-Grows w (update w.store t)

check-IsGrowing : (b : Bool) (message : String) → IsGrowing (check b message)
check-IsGrowing true message w = Grows-refl w
check-IsGrowing false message w = Grows-refl w

lift-IsGrowing : {A : Type 0} (r : Result A) → IsGrowing (lift r)
lift-IsGrowing r w = Grows-refl w

emit-IsGrowing : (type : String) (t : Task) → IsGrowing (emit type t)
unfolding emit
emit-IsGrowing type t w = Grows-refl w

module _ (env : Registered) where
  descriptor_of-IsGrowing : (kind : String) → IsGrowing (descriptor_of env kind)
  unfolding descriptor_of
  descriptor_of-IsGrowing kind w = elim (Option-cases (Dict.get env.descriptors kind)) [
    | inl missing ↦ rw (missing, descriptor_of) (Grows-refl w)
    | inr (d, found) ↦ rw (found, descriptor_of) (Grows-refl w)
  ]

  provider_of-IsGrowing : (kind : String) → IsGrowing (provider_of env kind)
  unfolding provider_of
  provider_of-IsGrowing kind w = elim (Option-cases (Dict.get env.providers kind)) [
    | inl missing ↦ rw (missing, provider_of) (Grows-refl w)
    | inr (p, found) ↦ rw (found, provider_of) (Grows-refl w)
  ]

  get_task-IsGrowing : (id workspace_id : String) → IsGrowing (get_task id workspace_id)
  unfolding get_task
  get_task-IsGrowing id workspace_id w =
      elim (Option-cases (find_task w.store id (some workspace_id))) [
        | inl missing ↦ rw (missing, get_task) (Grows-refl w)
        | inr (t, found) ↦ rw (found, get_task) (Grows-refl w)
      ]

  store_answer-IsGrowing :
      (workspace_id type : String) (answer : Result Task)
      → IsGrowing (store_answer env workspace_id type answer)
  unfolding store_answer
  store_answer-IsGrowing workspace_id type answer =
      >>=-IsGrowing (lift answer) _ (lift-IsGrowing answer) λ t.
        >>=-IsGrowing (check (not (t.workspace_id == workspace_id)) _) _ (check-IsGrowing _ _) λ _.
          >>=-IsGrowing (put_task t) _ (put_task-IsGrowing t)
            λ u. >>=-IsGrowing (emit type u) _ (emit-IsGrowing type u) λ _. Grows-refl

  poll-IsGrowing : (id workspace_id : String) → IsGrowing (poll env id workspace_id)
  unfolding poll
  poll-IsGrowing id workspace_id =
      >>=-IsGrowing (get_task id workspace_id) _ (get_task-IsGrowing id workspace_id) λ t.
        if-IsGrowing (is_terminal t) (return t) _ Grows-refl (
          >>=-IsGrowing (provider_of env t.provider) _ (provider_of-IsGrowing t.provider)
            λ p. store_answer-IsGrowing workspace_id "subagent_task_updated" (p.poll t))

  module _ (session_active : String → Bool) (words : Wording) (policy : PollingPolicy) where
    ran-Grows :
        (w : World) (t : Task) (now : ℕ) (o : Result (Task × Runner))
        → finish session_active (record { store = w.store; emitted = w.sink }) t now ≡ o
        → Grows w (ran w o).0
    ran-Grows w t now (err e) done = Grows-refl w
    ran-Grows w t now (ok (u, r)) done = (
      _,
      (finish-IsTold session_active (record { store = w.store; emitted = w.sink }) r t u now
          done).1,
    )

    end_task-IsGrowing :
        (t : Task) (now : ℕ) → IsGrowing (end_task session_active words env policy t now)
    unfolding end_task
    end_task-IsGrowing t now w = ran-Grows w t now _ refl

    poll_later-IsGrowing :
        (t : Task) (attempts now : ℕ)
        → IsGrowing (poll_later session_active words env policy t attempts now)
    unfolding poll_later
    poll_later-IsGrowing t attempts now =
        >>=-IsGrowing (lift (next_interval policy attempts)) _
          (lift-IsGrowing (next_interval policy attempts)) λ i. put_task-IsGrowing _

    after_failure-IsGrowing :
        (t : Task) (attempts now : ℕ) (e : Error)
        → IsGrowing (after_failure session_active words env policy t attempts now e)
    unfolding after_failure
    after_failure-IsGrowing t attempts now e =
        if-IsGrowing (leb policy.max_attempts attempts) _ _
          (>>=-IsGrowing (put_task _) _ (put_task-IsGrowing _) λ u. end_task-IsGrowing u now)
          (poll_later-IsGrowing
            (with_status t running none (some ("provider polling failed: " +s words.of_error e))
              none none now)
            attempts now)

    after_answer-IsGrowing :
        (attempts now : ℕ) (u : Task)
        → IsGrowing (after_answer session_active words env policy attempts now u)
    unfolding after_answer
    after_answer-IsGrowing attempts now u =
        if-IsGrowing (is_terminal u) _ _ (end_task-IsGrowing u now)
          (poll_later-IsGrowing u attempts now)

    poll_due_task-IsGrowing :
        (t : Task) (now : ℕ) → IsGrowing (poll_due_task session_active words env policy t now)
    unfolding poll_due_task
    poll_due_task-IsGrowing t now =
        >>=-IsGrowing (descriptor_of env t.provider) _ (descriptor_of-IsGrowing t.provider) λ d.
          if-IsGrowing (not d.supports_async_polling) _ _ (put_task-IsGrowing _) (
            >>=-IsGrowing (put_task _) _ (put_task-IsGrowing _) λ u w.
              recovered-Grows w (poll env t.task_id t.workspace_id w) _ _
                (poll-IsGrowing t.task_id t.workspace_id w) (λ v. after_answer-IsGrowing _ now v)
                (λ e. after_failure-IsGrowing t _ now e))

    listed-IsGrowing :
        (m : Act Task) → IsGrowing m → IsGrowing (m >>= λ t. return {A = List Task} (t ∷ []))
    listed-IsGrowing m h = >>=-IsGrowing m _ h λ t. Grows-refl

    pub tick_task-IsGrowing :
        (t : Task) (now : ℕ) → IsGrowing (tick_task session_active words env policy t now)
    unfolding tick_task
    tick_task-IsGrowing t now = elim (Option-cases (invalid_schedule t)) [
      | inr (error, bad) ↦
          rw (bad, tick_task)
            (listed-IsGrowing (end_task session_active words env policy _ now)
              (end_task-IsGrowing _ now))
      | inl fine ↦
          rw (fine, tick_task)
            (if-IsGrowing (is_timed_out t.deadline_at now) _ _
              (listed-IsGrowing (end_task session_active words env policy _ now)
                (end_task-IsGrowing _ now))
              (if-IsGrowing (not (is_due t.next_poll_at now)) _ _ Grows-refl (
                listed-IsGrowing (poll_due_task session_active words env policy t now)
                  (poll_due_task-IsGrowing t now))))
    ]
