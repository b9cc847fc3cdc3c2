-- ===== src/Subagents/Identity.antt =====
-- What a subagent task is asked for once, and what no update can change.
use flowhunt_voicebot.Base.{
  same_option, same_option_iff, pair_key, ℕ, ◌≡◌, ◌≢◌, refl, ap, String, true, false, Option, none,
  some, eqb, eqb_iff, text_key, ◌==◌, eq_iff, arith, ok, after, Option-cases, inl, inr,
}
use flowhunt_voicebot.Base.Dict
use flowhunt_voicebot.Base.Dict.{Dict}
use flowhunt_voicebot.Subagents.{
  Task, TaskRequest, TaskStore, index_key, new_task, create_task, get_or_create, update,
}

-- A request that created a task is answered with that task when it comes again under the same
-- workspace and deduplication key, whatever its other fields, and creates no second one.
pub get_or_create-again :
    (s : TaskStore) (r again : TaskRequest) (id id' : String) (now now' : ℕ)
    → id ≢ ""
    → index_key again ≡ index_key r
    → get_or_create (create_task s r id now) again id' now'
      ≡ ok ((new_task r id now, false), create_task s r id now)
unfolding get_or_create create_task
get_or_create-again s r again id id' now now' given same = ground (
  arith,
  ap (Dict.get (Dict.put s.dedupe_index (index_key r) id)) same,
  Dict.get-put_self s.dedupe_index (index_key r) id,
  Dict.get-put_self s.tasks id (new_task r id now),
  eq_iff id "",
)

-- What makes a task that task.
abbrev pub identity : Task → String × String × Option String × String × ℕ
identity t = (t.workspace_id, t.session_id, t.voicebot_id, t.provider, t.request_event_id)

abbrev pub identity_of : Option Task → Option (String × String × Option String × String × ℕ)
identity_of none = none
identity_of (some t) = some (identity t)

accepted-identity :
    (mine t : Task)
    → (mine.workspace_id == t.workspace_id) ≡ true
    → (mine.session_id == t.session_id) ≡ true
    → same_option mine.voicebot_id t.voicebot_id ≡ true
    → (mine.provider == t.provider) ≡ true
    → eqb mine.request_event_id t.request_event_id ≡ true
    → identity t ≡ identity mine
accepted-identity mine t w s v p e =
    let w' = (eq_iff mine.workspace_id t.workspace_id).0 w in
    let s' = (eq_iff mine.session_id t.session_id).0 s in
    let v' = (same_option_iff mine.voicebot_id t.voicebot_id).0 v in
    let p' = (eq_iff mine.provider t.provider).0 p in
    let e' = (eqb_iff mine.request_event_id t.request_event_id).0 e in cc

-- No update, accepted or refused, adds or removes a task or changes the workspace, the session,
-- the voicebot, the provider or the request event of one.
pub update-identity :
    (s : TaskStore) (t : Task) (id : String)
    → identity_of (Dict.get (after s (update s t)).tasks id) ≡ identity_of (Dict.get s.tasks id)
unfolding update
update-identity s t id = elim (Option-cases (Dict.get s.tasks t.task_id)) [
  | inl missing ↦ rw (missing, update) refl
  | inr (mine, found) ↦
      rw (found, update)
        (ground (
          arith,
          found,
          Dict.get-put s.tasks t.task_id id t,
          eq_iff t.task_id id,
          accepted-identity mine t,
        ))
]

-- A task with the identity of the one that is stored under its id is accepted.
pub update_accepts :
    (s : TaskStore) (t : Task)
    → identity_of (Dict.get s.tasks t.task_id) ≡ some (identity t)
    → update s t ≡ ok (t, record s { tasks = Dict.put s.tasks t.task_id t })
unfolding update
update_accepts s t owned = elim (Option-cases (Dict.get s.tasks t.task_id)) [
  | inl missing ↦ absurd (ground (arith, missing, owned))
  | inr (mine, found) ↦
      let same : identity mine ≡ identity t = ground (arith, found, owned) in
      rw (found, update)
        (ground (
          arith,
          same,
          eq_iff mine.workspace_id t.workspace_id,
          eq_iff mine.session_id t.session_id,
          same_option_iff mine.voicebot_id t.voicebot_id,
          eq_iff mine.provider t.provider,
          eqb_iff mine.request_event_id t.request_event_id,
        ))
]
