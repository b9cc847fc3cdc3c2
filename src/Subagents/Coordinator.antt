-- ===== src/Subagents/Coordinator.antt =====
-- `SubagentCoordinator` of voicebot/subagents.py. The values of metadata are texts: the truth value
-- `True` is "True", and an event id is written in decimal by the caller.
-- The lists of what is missing or wrong are left out of the messages.
pub mod Rules
pub mod Isolation
use flowhunt_voicebot.Base.{
  ℕ, String, Bool, true, false, not, ◌&&◌, ◌||◌, Option, none, some, List, [], ◌∷◌, ◌++◌, keep, any,
  if◌then◌else◌, is_some, or_default, text_key, pair_key, ◌==◌, strip, is_blank, ◌+s◌, Error,
  Result, ok, err, key_error, value_error,
}
use flowhunt_voicebot.Base.Dict
use flowhunt_voicebot.Base.Dict.{Dict, merged}
use flowhunt_voicebot.Subagents.{
  Task, TaskStatus, completed, failed, timed_out, cancelled, TaskRequest, TaskStore, get_or_create,
  effective_dedupe_key, with_status, find_task,
}
use flowhunt_voicebot.Subagents.Lifecycle.{is_terminal}
use flowhunt_voicebot.Subagents.Effects.{
  Descriptor, Provider, Registered, World, Act, and_then, ◌>>=◌, ◌>>◌, return, raise, lift, check,
  put_task, emit,
}

unfoldable pub with_metadata : Task → Dict String String → ℕ → Task
unfolding merged
with_metadata t metadata now = record t { metadata = merged t.metadata metadata; updated_at = now }

-- `validation_issues`, whether there is one.
unfoldable pub has_issue : Descriptor → Bool
has_issue d =
    is_blank d.kind
    || (not (d.kind == strip d.kind)
        || (is_blank d.label
            || (any is_blank d.required_metadata
                || (not d.supports_async_polling && d.supports_cancel))))

-- `register`, for the descriptor that was resolved.
unfoldable pub register : Registered → String → Provider → Option Descriptor → Result Registered
unfolding has_issue
register r kind provider none =
    err (value_error ("subagent provider descriptor is required for custom provider: " +s kind))
register r kind provider (some d) =
    if not (d.kind == kind)
    then err (
        value_error (
          "subagent provider descriptor kind "
          +s (d.kind +s (" does not match provider kind " +s kind))))
    else if has_issue d
    then err (value_error ("invalid subagent provider descriptor for " +s kind))
    else ok (record {
      providers = Dict.put r.providers kind provider;
      descriptors = Dict.put r.descriptors kind d;
    })

-- `not request.metadata.get(key)`
abbrev lacks : Dict String String → String → Bool
lacks metadata key = or_default (Dict.get metadata key) "" == ""

-- `self.store.get(task_id, workspace_id)`, with the `KeyError` that follows it.
unfoldable pub get_task : String → String → Act Task
get_task task_id workspace_id w = elim (find_task w.store task_id (some workspace_id)) [
  | none ↦ (
    w,
    err (key_error ("unknown subagent task in workspace " +s (workspace_id +s (": " +s task_id)))),
  )
  | some t ↦ (w, ok t)
]

abbrev created : World → Result ((Task × Bool) × TaskStore) → World × Result (Task × Bool)
created w (ok (p, s)) = (record w { store = s }, ok p)
created w (err e) = (w, err e)

-- `self.store.get_or_create_requested(request)`, with the id that `uuid4` would give.
unfoldable pub create_requested : TaskRequest → String → ℕ → Act (Task × Bool)
unfolding get_or_create
create_requested r task_id now w = created w (get_or_create w.store r task_id now)

module _ (env : Registered) where
  unfoldable pub descriptor_of : String → Act Descriptor
  descriptor_of kind = elim (Dict.get env.descriptors kind) [
    | none ↦ raise (key_error kind)
    | some d ↦ return d
  ]

  unfoldable pub provider_of : String → Act Provider
  provider_of kind = elim (Dict.get env.providers kind) [
    | none ↦ raise (key_error ("subagent provider is not registered: " +s kind))
    | some p ↦ return p
  ]

  unfoldable pub validate_request_metadata : TaskRequest → Act (Unit {0})
  unfolding descriptor_of
  validate_request_metadata r = do
    d ← descriptor_of r.provider
    check (any (lacks r.metadata) d.required_metadata)
        ("subagent provider " +s (r.provider +s " requires metadata"))

  -- The answer of a provider, stored under the id of the task that was requested.
  unfoldable pub submit_new : TaskRequest → Task → Act Task
  unfolding provider_of
  submit_new r t = do
    emit "subagent_task_requested" t
    p ← provider_of r.provider
    submitted ← lift (p.submit r)
    check (not (submitted.workspace_id == r.workspace_id))
        "subagent provider returned task for a different workspace"
    updated ← put_task (record submitted { task_id = t.task_id })
    emit "subagent_task_updated" updated
    return updated

  unfoldable pub request : TaskRequest → String → ℕ → Act Task
  unfolding validate_request_metadata create_requested submit_new
  request r task_id now = do
    validate_request_metadata r
    p ← create_requested r task_id now
    if not p.1 then (emit "subagent_task_deduplicated" p.0 >> return p.0) else submit_new r p.0

  -- `speculative_key or other`
  abbrev key_or : Option String → String → String
  key_or none other = other
  key_or (some k) other = if k == "" then other else k

  unfoldable pub speculative_metadata : TaskRequest → Option String → Dict String String
  unfolding merged effective_dedupe_key
  speculative_metadata r speculative_key = merged r.metadata (
      ("speculative", "True")
      ∷ ("speculative_status", "started")
      ∷ ("speculative_key", key_or speculative_key (effective_dedupe_key r))
      ∷ ("speculative_request_event_id", r.event_text)
      ∷ ("speculative_input_text", r.input_text)
      ∷ [])

  unfoldable pub request_speculative : TaskRequest → Option String → String → ℕ → Act Task
  unfolding request speculative_metadata with_metadata
  request_speculative r speculative_key task_id now =
      let metadata = speculative_metadata r speculative_key in
      do
        t ←
            request
              (record r {
                metadata = metadata;
                dedupe_key = some (
                    key_or r.dedupe_key (
                      "speculative:"
                      +s (r.session_id +s (":" +s key_or speculative_key r.event_text))));
              })
              task_id now
        u ← put_task (with_metadata t metadata now)
        emit "subagent_task_speculative_started" u
        return u

  unfoldable pub get_speculative : String → String → Act Task
  unfolding get_task
  get_speculative task_id workspace_id = do
    t ← get_task task_id workspace_id
    check (lacks t.metadata "speculative") "subagent task is not speculative"
    return t

  unfoldable pub confirm_speculative : String → String → String → String → ℕ → Act Task
  unfolding get_speculative with_metadata
  confirm_speculative task_id workspace_id final_request_event_id final_input_text now = do
    t ← get_speculative task_id workspace_id
    u ← put_task (
        with_metadata t
          (("speculative_status", "confirmed")
            ∷ ("final_request_event_id", final_request_event_id)
            ∷ ("final_input_text", final_input_text)
            ∷ [])
          now)
    emit "subagent_task_speculative_confirmed" u
    return u

  -- What a provider answers about a task, stored and emitted.
  unfoldable pub store_answer : String → String → Result Task → Act Task
  store_answer workspace_id type answer = do
    t ← lift answer
    check (not (t.workspace_id == workspace_id))
        "subagent provider returned task for a different workspace"
    u ← put_task t
    emit type u
    return u

  unfoldable pub poll : String → String → Act Task
  unfolding get_task provider_of store_answer is_terminal
  poll task_id workspace_id = do
    t ← get_task task_id workspace_id
    if is_terminal t then return t else do
      p ← provider_of t.provider
      store_answer workspace_id "subagent_task_updated" (p.poll t)

  unfoldable pub cancel : String → String → Act Task
  unfolding get_task provider_of store_answer
  cancel task_id workspace_id = do
    t ← get_task task_id workspace_id
    p ← provider_of t.provider
    store_answer workspace_id "subagent_task_cancelled" (p.cancel t)

  abbrev cancel_reason : String → String → Dict String String
  cancel_reason status reason =
      ("speculative_status", status) ∷ ("speculative_cancel_reason", reason) ∷ []

  -- The three ways of `cancel_speculative` to the task that is stored.
  unfoldable pub cancel_task : String → Task → String → String → ℕ → Act Task
  unfolding cancel is_terminal descriptor_of with_status with_metadata
  cancel_task task_id t workspace_id reason now =
      let marks = cancel_reason "cancelled" reason in
      if is_terminal t then put_task (with_metadata t marks now) else do
        d ← descriptor_of t.provider
        if d.supports_cancel
            then (do u ← cancel task_id workspace_id; put_task (with_metadata u marks now))
            else put_task (
                with_metadata
                  (with_status t cancelled none none none
                    (some ("Speculative task cancelled: " +s reason)) now)
                  marks now)

  unfoldable pub cancel_speculative : String → String → String → ℕ → Act Task
  unfolding get_speculative cancel_task
  cancel_speculative task_id workspace_id reason now = do
    t ← get_speculative task_id workspace_id
    u ← cancel_task task_id t workspace_id reason now
    emit "subagent_task_speculative_cancelled" u
    return u

  unfoldable pub mark_speculative_superseded : String → String → String → ℕ → Act Task
  unfolding cancel_speculative with_metadata
  mark_speculative_superseded task_id workspace_id reason now = do
    t ← cancel_speculative task_id workspace_id reason now
    u ← put_task (with_metadata t (cancel_reason "superseded" reason) now)
    emit "subagent_task_speculative_superseded" u
    return u

  unfoldable pub supersede_speculative :
      String → String → TaskRequest → String → String → ℕ → Act (Task × Task)
  unfolding mark_speculative_superseded request
  supersede_speculative task_id workspace_id replacement reason new_id now = do
    old ← mark_speculative_superseded task_id workspace_id reason now
    new ← request replacement new_id now
    return (old, new)
