-- ===== src/Subagents/Polling/Answers.antt =====
-- What a poll leaves, whatever the provider answers or raises.
use flowhunt_voicebot.Base.{
  ◌≡◌, refl, sym, ap, ◌∙◌, String, some, text_key, pair_key, ◌==◌, eq_iff, arith, Result, ok, err,
  Bool-cases, Option-cases, inl, inr, if◌then◌else◌, after,
}
use flowhunt_voicebot.Base.Dict
use flowhunt_voicebot.Base.Dict.{Dict}
use flowhunt_voicebot.Subagents.{Task, TaskStore, update, find_task}
use flowhunt_voicebot.Subagents.Identity.{identity, identity_of, update-identity}
use flowhunt_voicebot.Subagents.Lifecycle.{is_terminal, update_done}
use flowhunt_voicebot.Subagents.Effects.{
  Provider, Registered, World, Act, ◌>>=◌, ◌>>◌, and_then, return, stored, put_task, emit,
}
use flowhunt_voicebot.Subagents.Coordinator.{poll, get_task, provider_of, store_answer}
use flowhunt_voicebot.Subagents.Polling.Accepted.{
  Identity, Owns, IsMine, OthersKept, IsStored, IsStored-putted,
}

-- A provider answers about the task that it is asked about.
abbrev pub KeepsId : Registered → Type 0
KeepsId env =
    (kind : String) (p : Provider) (t u : Task)
    → Dict.get env.providers kind ≡ some p
    → p.poll t ≡ ok u
    → u.task_id ≡ t.task_id

module _ (id : String) (key : Identity) where
  -- The call stores the task that it returns, or raises and still has the task.
  abbrev pub Outcome : World → World × Result Task → Type 0
  Outcome a (b, ok u) = IsStored id key a u b
  Outcome a (b, err e) = Owns id key b × OthersKept id key a b

  stored-Outcome :
      (a : World) (u : Task) (type : String) (o : Result (Task × TaskStore))
      → Owns id key a
      → u.task_id ≡ id
      → update a.store u ≡ o
      → Outcome a (and_then (stored a o) λ v. (emit type v >> return v))
  unfolding emit
  stored-Outcome a u type (err e) owns named done = (owns, λ k other. refl)
  stored-Outcome a u type (ok (v, s)) owns named done =
      let (same, made) = update_done a.store s u v done in
      let new : after a.store (update a.store u)
          ≡ record (a.store) { tasks = Dict.put a.store.tasks u.task_id u } =
        ap (after a.store) done ∙ made in
      let found : identity_of (Dict.get (Dict.put a.store.tasks u.task_id u) id) ≡ some key =
        ap (λ (st : TaskStore). identity_of (Dict.get st.tasks id)) (sym new)
        ∙ update-identity a.store u id
        ∙ owns in
      let mine : identity u ≡ key =
        ground
          (arith, found, named, eq_iff u.task_id id, Dict.get-put a.store.tasks u.task_id id u) in
      let (is_mine, there, others) = IsStored-putted id key a u (named, mine) in
      rw (same, made) (is_mine, there, others)

  module _ (env : Registered) (keeps : KeepsId env) where
    store_answer-Outcome :
        (a : World) (workspace_id type : String) (answer : Result Task)
        → Owns id key a
        → ((u : Task) → answer ≡ ok u → u.task_id ≡ id)
        → Outcome a (store_answer env workspace_id type answer a)
    unfolding store_answer put_task
    store_answer-Outcome a workspace_id type (err e) owns named = (owns, λ k other. refl)
    store_answer-Outcome a workspace_id type (ok u) owns named =
        elim (Bool-cases (u.workspace_id == workspace_id)) [
          | inl here ↦ rw here (stored-Outcome a u type (update a.store u) owns (named u refl) refl)
          | inr elsewhere ↦ rw elsewhere (owns, λ k other. refl)
        ]

    poll_stored-Outcome :
        (a : World) (t : Task)
        → Dict.get a.store.tasks id ≡ some t
        → IsMine id key t
        → let rest : Act Task =
            if is_terminal t
            then return t
            else (provider_of env t.provider >>= λ p.
                store_answer env t.workspace_id "subagent_task_updated" (p.poll t)) in
          Outcome a (rest a)
    unfolding provider_of
    poll_stored-Outcome a t there mine =
        let owns : Owns id key a = ap identity_of there ∙ ap some mine.1 in
        elim (Bool-cases (is_terminal t)) [
          | inl over ↦ rw over (mine, there, λ k other. refl)
          | inr open_task ↦ elim (Option-cases (Dict.get env.providers t.provider)) [
            | inl missing ↦ rw open_task (rw (missing, provider_of) (owns, λ k other. refl))
            | inr (p, found) ↦ rw open_task (
                rw (found, provider_of)
                  (store_answer-Outcome a t.workspace_id "subagent_task_updated" (p.poll t) owns
                    (λ u answered. keeps t.provider p t u found answered ∙ mine.0)))
          ]
        ]

    pub poll-Outcome :
        (a : World) (t : Task)
        → Dict.get a.store.tasks id ≡ some t
        → IsMine id key t
        → Outcome a (poll env id t.workspace_id a)
    unfolding poll get_task find_task
    poll-Outcome a t there mine =
        let found : find_task a.store id (some t.workspace_id) ≡ some t =
          ground (arith, there, eq_iff t.workspace_id t.workspace_id) in
        rw (found, get_task) (poll_stored-Outcome a t there mine)
