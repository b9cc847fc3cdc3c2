-- ===== src/Subagents/Coordinator/Isolation.antt =====
-- Calls for a workspace leave the tasks of other workspaces as they are, whatever providers answer.
use flowhunt_voicebot.Base.{
  ℕ, ◌≡◌, refl, sym, subst, String, Bool, true, false, not, none, some, if◌then◌else◌, text_key,
  eq_iff, arith, Result, ok, err, Option-cases, inl, inr,
}
use flowhunt_voicebot.Base.Dict
use flowhunt_voicebot.Base.Dict.{Dict, merged}
use flowhunt_voicebot.Subagents.{
  Task, TaskRequest, create_task, get_or_create, new_task, with_status,
}
use flowhunt_voicebot.Subagents.Lifecycle.{is_terminal}
use flowhunt_voicebot.Subagents.Effects.{
  Registered, World, Act, and_then, ◌>>=◌, ◌>>◌, return, lift, put_task, emit,
}
use flowhunt_voicebot.Subagents.Coordinator.{
  with_metadata, submit_new, request, create_requested, validate_request_metadata, get_task,
  descriptor_of, provider_of, get_speculative, confirm_speculative, store_answer, poll, cancel,
  cancel_task, cancel_speculative, mark_speculative_superseded,
}
use flowhunt_voicebot.Subagents.Coordinator.Rules.{
  bind-Ensures, and_then-Ensures, answered-Ensures, check-Ensures, put_task-Ensures, emit-Ensures,
  emitted-Ensures, lift-Ensures, keep_world, get_task-Ensures, Ensures, IsHere, Elsewhere, any_of,
}

module _ (w : String) (env : Registered) where
  get_speculative-Ensures :
      (task_id : String) → Ensures w (IsHere w) (get_speculative env task_id w)
  unfolding get_speculative
  get_speculative-Ensures task_id =
      bind-Ensures w (IsHere w) (IsHere w) (get_task task_id w) _ (get_task-Ensures w task_id)
        λ t here.
          bind-Ensures w (λ u. Unit) (IsHere w) _ _ (λ a. ((check-Ensures w _ _ a).0, any_of w _))
            λ u done a. (keep_world w a, here)

  provider_of-Ensures : (kind : String) → Ensures w (λ p. Unit) (provider_of env kind)
  unfolding provider_of
  provider_of-Ensures kind a = elim (Option-cases (Dict.get env.providers kind)) [
    | inl missing ↦ rw (missing, provider_of) (keep_world w a, tt)
    | inr (p, found) ↦ rw (found, provider_of) (keep_world w a, tt)
  ]

  descriptor_of-Ensures : (kind : String) → Ensures w (λ d. Unit) (descriptor_of env kind)
  unfolding descriptor_of
  descriptor_of-Ensures kind a = elim (Option-cases (Dict.get env.descriptors kind)) [
    | inl missing ↦ rw (missing, descriptor_of) (keep_world w a, tt)
    | inr (d, found) ↦ rw (found, descriptor_of) (keep_world w a, tt)
  ]

  store_answer-Ensures :
      (type : String) (answer : Result Task) → Ensures w (IsHere w) (store_answer env w type answer)
  unfolding store_answer
  store_answer-Ensures type answer =
      bind-Ensures w (λ t. Unit) (IsHere w) (lift answer) _ (lift-Ensures w answer)
        λ t done. answered-Ensures w t t w _ type refl refl

  confirm_speculative-Ensures :
      (task_id event_id text : String) (now : ℕ)
      → Ensures w (IsHere w) (confirm_speculative env task_id w event_id text now)
  unfolding confirm_speculative with_metadata
  confirm_speculative-Ensures task_id event_id text now =
      bind-Ensures w (IsHere w) (IsHere w) (get_speculative env task_id w) _
        (get_speculative-Ensures task_id)
        λ t here. emitted-Ensures w _ (put_task _) (put_task-Ensures w _ here)

  cancel-Ensures : (task_id : String) → Ensures w (IsHere w) (cancel env task_id w)
  unfolding cancel
  cancel-Ensures task_id =
      bind-Ensures w (IsHere w) (IsHere w) (get_task task_id w) _ (get_task-Ensures w task_id)
        λ t here.
          bind-Ensures w (λ p. Unit) (IsHere w) (provider_of env t.provider) _
            (provider_of-Ensures t.provider) λ p done. store_answer-Ensures _ (p.cancel t)

  if-Ensures :
      {A : Type 0} (P : A → Type 0) (b : Bool) (m k : Act A)
      → Ensures w P m
      → Ensures w P k
      → Ensures w P (if b then m else k)
  if-Ensures P true m k h g = h
  if-Ensures P false m k h g = g

  poll-Ensures : (task_id : String) → Ensures w (IsHere w) (poll env task_id w)
  unfolding poll
  poll-Ensures task_id =
      bind-Ensures w (IsHere w) (IsHere w) (get_task task_id w) _ (get_task-Ensures w task_id)
        λ t here.
          if-Ensures (IsHere w) (is_terminal t) _ _ (λ a. (keep_world w a, here))
            (bind-Ensures w (λ p. Unit) (IsHere w) (provider_of env t.provider) _
              (provider_of-Ensures t.provider) λ p done. store_answer-Ensures _ (p.poll t))

  cancel_task-Ensures :
      (task_id : String) (t : Task) (reason : String) (now : ℕ)
      → IsHere w t
      → Ensures w (IsHere w) (cancel_task env task_id t w reason now)
  unfolding cancel_task with_metadata with_status
  cancel_task-Ensures task_id t reason now here =
      if-Ensures (IsHere w) (is_terminal t) _ _ (put_task-Ensures w _ here) (
        bind-Ensures w (λ d. Unit) (IsHere w) (descriptor_of env t.provider) _
          (descriptor_of-Ensures t.provider)
          λ d done.
            if-Ensures (IsHere w) d.supports_cancel _ _
              (bind-Ensures w (IsHere w) (IsHere w) (cancel env task_id w) _
                (cancel-Ensures task_id) λ u there. put_task-Ensures w _ there)
              (put_task-Ensures w _ here))

  cancel_speculative-Ensures :
      (task_id reason : String) (now : ℕ)
      → Ensures w (IsHere w) (cancel_speculative env task_id w reason now)
  unfolding cancel_speculative
  cancel_speculative-Ensures task_id reason now =
      bind-Ensures w (IsHere w) (IsHere w) (get_speculative env task_id w) _
        (get_speculative-Ensures task_id)
        λ t here.
          emitted-Ensures w _ (cancel_task env task_id t w reason now)
            (cancel_task-Ensures task_id t reason now here)

  mark_superseded-Ensures :
      (task_id reason : String) (now : ℕ)
      → Ensures w (IsHere w) (mark_speculative_superseded env task_id w reason now)
  unfolding mark_speculative_superseded with_metadata
  mark_superseded-Ensures task_id reason now =
      bind-Ensures w (IsHere w) (IsHere w) (cancel_speculative env task_id w reason now) _
        (cancel_speculative-Ensures task_id reason now)
        λ t here. emitted-Ensures w _ (put_task _) (put_task-Ensures w _ here)

  submit_new-Ensures :
      (r : TaskRequest) (t : Task) → r.workspace_id ≡ w → Ensures w (IsHere w) (submit_new env r t)
  unfolding submit_new
  submit_new-Ensures r t here =
      bind-Ensures w (λ u. Unit) (IsHere w) _ _ (emit-Ensures w _ t)
        λ u done.
          bind-Ensures w (λ p. Unit) (IsHere w) (provider_of env r.provider) _
            (provider_of-Ensures r.provider)
            λ p found.
              bind-Ensures w (λ s. Unit) (IsHere w) (lift (p.submit r)) _
                (lift-Ensures w (p.submit r))
                λ s answered.
                  answered-Ensures w s (record s { task_id = t.task_id }) r.workspace_id _ _ here
                    refl

  created_from-Elsewhere :
      (a : World) (r : TaskRequest) (task_id : String) (now : ℕ)
      → Dict.get a.store.tasks task_id ≡ none
      → (id : String) (old : Task) → Dict.get a.store.tasks id ≡ some old
      → Dict.get (create_task a.store r task_id now).tasks id ≡ some old
  unfolding create_task
  created_from-Elsewhere a r task_id now fresh id old there = ground (
    arith,
    fresh,
    there,
    eq_iff task_id id,
    Dict.get-put a.store.tasks task_id id (new_task r task_id now),
  )

  created-Elsewhere :
      (a : World) (r : TaskRequest) (task_id : String) (now : ℕ)
      → Dict.get a.store.tasks task_id ≡ none
      → Elsewhere w a (create_requested r task_id now a).0
  unfolding create_requested get_or_create
  created-Elsewhere a r task_id now fresh id old there other =
      ground (arith, there, created_from-Elsewhere a r task_id now fresh id old there)

  -- The end of `request`, for the task that was found or made.
  requested-Ensures :
      (r : TaskRequest) (p : Task × Bool)
      → r.workspace_id ≡ w
      → Ensures w
          (λ t. Unit)
          (if not p.1
            then (emit "subagent_task_deduplicated" p.0 >> return p.0)
            else submit_new env r p.0)
  requested-Ensures r (t, new) here =
      if-Ensures (λ t. Unit) (not new) _ _
        (bind-Ensures w (λ u. Unit) (λ t. Unit) (emit "subagent_task_deduplicated" t) _
          (emit-Ensures w _ t) λ u done a. (keep_world w a, tt))
        (λ a. ((submit_new-Ensures r t here a).0, any_of w _))

  validate_same : (r : TaskRequest) (a : World) → (validate_request_metadata env r a).0 ≡ a
  unfolding validate_request_metadata descriptor_of
  validate_same r a = ground arith

  request-Elsewhere :
      (a : World) (r : TaskRequest) (task_id : String) (now : ℕ)
      → r.workspace_id ≡ w
      → Dict.get a.store.tasks task_id ≡ none
      → Elsewhere w a (request env r task_id now a).0
  unfolding request
  request-Elsewhere a r task_id now here fresh =
      from (validate_request_metadata env r a) (validate_same r a)
    where
      from :
          (o : World × Result (Unit {0}))
          → o.0 ≡ a
          → Elsewhere w a
              (and_then o λ u. create_requested r task_id now >>= λ p.
                if not p.1
                then (emit "subagent_task_deduplicated" p.0 >> return p.0)
                else submit_new env r p.0).0
      from (b, err e) same = subst (Elsewhere w a) (sym same) (keep_world w a)
      from (b, ok u) same =
          (and_then-Ensures w (λ p. Unit) (λ t. Unit) _ a (create_requested r task_id now b)
            (
              subst (λ (c : World). Elsewhere w a (create_requested r task_id now c).0) (sym same)
                  (created-Elsewhere a r task_id now fresh),
              any_of w _,
            )
            (λ p done. requested-Ensures r p here)).0

  -- A call of the coordinator for the workspace, that returns or raises. The id of a new task,
  -- which `uuid4` gives, is not in use.
  pub data Step (a : World) : World → Type 0 where
    requests :
        {b : World} (r : TaskRequest) (task_id : String) (now : ℕ)
        → r.workspace_id ≡ w
        → Dict.get a.store.tasks task_id ≡ none
        → b ≡ (request env r task_id now a).0
        → Step a b
    polls : {b : World} (task_id : String) → b ≡ (poll env task_id w a).0 → Step a b
    cancels : {b : World} (task_id : String) → b ≡ (cancel env task_id w a).0 → Step a b
    confirms :
        {b : World} (task_id event_id text : String) (now : ℕ)
        → b ≡ (confirm_speculative env task_id w event_id text now a).0
        → Step a b
    cancels_speculative :
        {b : World} (task_id reason : String) (now : ℕ)
        → b ≡ (cancel_speculative env task_id w reason now a).0
        → Step a b
    supersedes :
        {b : World} (task_id reason : String) (now : ℕ)
        → b ≡ (mark_speculative_superseded env task_id w reason now a).0
        → Step a b

  pub data Reach (a : World) : World → Type 0 where
    here : Reach a a
    next : {b c : World} → Reach a b → Step b c → Reach a c

  moved : (a : World) {b : World} (c : World) → b ≡ c → Elsewhere w a c → Elsewhere w a b
  moved a c e h = subst (Elsewhere w a) (sym e) h

  Step-Elsewhere : {a b : World} → Step a b → Elsewhere w a b
  Step-Elsewhere {a} (requests r task_id now same fresh e) =
      moved a _ e (request-Elsewhere a r task_id now same fresh)
  Step-Elsewhere {a} (polls task_id e) = moved a _ e (poll-Ensures task_id a).0
  Step-Elsewhere {a} (cancels task_id e) = moved a _ e (cancel-Ensures task_id a).0
  Step-Elsewhere {a} (confirms task_id event_id text now e) =
      moved a _ e (confirm_speculative-Ensures task_id event_id text now a).0
  Step-Elsewhere {a} (cancels_speculative task_id reason now e) =
      moved a _ e (cancel_speculative-Ensures task_id reason now a).0
  Step-Elsewhere {a} (supersedes task_id reason now e) =
      moved a _ e (mark_superseded-Ensures task_id reason now a).0

  -- No sequence of requests, polls, cancels and of confirmed, cancelled and superseded speculative
  -- tasks for one workspace, whether the calls return or raise and whatever the providers answer,
  -- changes or removes a task of another workspace. Condition: each new task gets an id that is not
  -- in use.
  pub Reach-Elsewhere : {a b : World} → Reach a b → Elsewhere w a b
  Reach-Elsewhere here id old there other = there
  Reach-Elsewhere (next r s) id old there other =
      Step-Elsewhere s id old (Reach-Elsewhere r id old there other) other
