-- ===== src/SpeculativeTurns/Reconciling.antt =====
-- The end of a turn: its candidates are cancelled, or one of them is confirmed and the others are
-- closed.
use flowhunt_voicebot.Base.{
  ℕ, String, Bool, not, ◌&&◌, ◌||◌, Option, none, some, List, [], ◌∷◌, ◌++◌, if◌then◌else◌, nat_key,
  text_key, ◌==◌, Result, ok, err,
}
use flowhunt_voicebot.Subagents.{Task}
use flowhunt_voicebot.Subagents.Effects.{Registered, World, Act}
use flowhunt_voicebot.Subagents.Coordinator.{
  confirm_speculative, cancel_speculative, mark_speculative_superseded,
}
use flowhunt_voicebot.SpeculativeTurns.{
  CandidateStatus, Decision, Candidate, Settings, TextTools, Turns, is_open, candidates_of,
  replace_candidate, store_candidate_metadata, status_text, reflect, is_confirmed, is_cancelled,
  is_superseded, is_failed, reuse, wait, supersede, cancel,
}

module _ (env : Registered) where
  -- Behind the call of the coordinator in `_cancel_candidate_locked`.
  unfoldable pub after_cancel :
      Turns → Candidate → String → CandidateStatus → ℕ → World × Result Task → Turns
  unfolding replace_candidate store_candidate_metadata
  after_cancel s c reason status now (w, err e) =
      replace_candidate
        (record s {
          world = w;
          failures =
              s.failures
              ++ (record {
                action = "cancel_candidate";
                turn_id = c.turn_id;
                task_id = c.task_id;
                error = e;
              }
                  ∷ []);
        })
        (record c { status = is_failed })
  after_cancel s c reason status now (w, ok t) =
      let (w', t') =
        store_candidate_metadata t
          (("speculative_status", status_text status)
            ∷ ("streaming_rag_cancel_reason", reason)
            ∷ [])
          now w in
      replace_candidate (record s { world = w' }) (record c { status = status })

  -- The call of the coordinator for a status.
  unfoldable pub cancel_call : Candidate → String → CandidateStatus → ℕ → Act Task
  unfolding cancel_speculative mark_speculative_superseded
  cancel_call c reason status now = elim status [
    | is_superseded ↦ mark_speculative_superseded env c.task_id c.workspace_id reason now
    | _ ↦ cancel_speculative env c.task_id c.workspace_id reason now
  ]

  -- `_cancel_candidate_locked`
  unfoldable pub cancel_candidate : Turns → Candidate → String → CandidateStatus → ℕ → Turns
  unfolding after_cancel cancel_call
  cancel_candidate s c reason status now =
      after_cancel s c reason status now (cancel_call c reason status now s.world)

  -- The loops that cancel candidates, those that pass a test.
  unfoldable pub cancel_those :
      (Candidate → Bool) → Turns → List Candidate → String → CandidateStatus → ℕ → Turns
  unfolding cancel_candidate
  cancel_those must s [] reason status now = s
  cancel_those must s (c ∷ cs) reason status now =
      cancel_those must (if must c then cancel_candidate s c reason status now else s) cs reason
        status now

  abbrev pub must_close : Candidate → Bool
  must_close c = is_open c.status

  abbrev pub is_enabled : Settings → Bool
  is_enabled settings = settings.streaming_rag_enabled || settings.speculative_work_enabled

  -- The task that it returns is left out.
  unfoldable pub cancel_turn : Settings → Turns → Option ℕ → String → ℕ → Turns
  unfolding cancel_those
  cancel_turn settings s none reason now = s
  cancel_turn settings s (some turn_id) reason now =
      if not (is_enabled settings)
      then s
      else cancel_those must_close s (candidates_of s turn_id) reason is_cancelled now

  module _ (tools : TextTools) where
    -- The branch of `reconcile_final_request` where no candidate is selected.
    unfoldable pub close_all : Turns → ℕ → Decision → ℕ → Turns
    unfolding cancel_those
    close_all s turn_id decision now =
        cancel_those must_close s (candidates_of s turn_id) "final_transcript_changed"
          (elim decision [ supersede ↦ is_superseded | _ ↦ is_cancelled ]) now

    abbrev pub decision_text : Decision → String
    decision_text reuse = "reuse"
    decision_text wait = "wait"
    decision_text supersede = "supersede"
    decision_text cancel = "cancel"

    -- The candidate that is selected, and the others behind it.
    abbrev pub is_other : Candidate → Candidate → Bool
    is_other selected c = not (c.task_id == selected.task_id) && is_open c.status

    abbrev pub confirmed : Candidate → Decision → String → Candidate
    confirmed c decision final_request_event_id = record c {
      status = is_confirmed;
      reflector_decision = some decision;
      final_request_event_id = some final_request_event_id;
    }

    -- Behind `confirm_speculative`.
    unfoldable pub after_confirm :
        Settings
        → Turns
        → ℕ
        → Candidate
        → Decision
        → String
        → String
        → ℕ
        → World × Result Task
        → Option Task × Turns
    unfolding replace_candidate cancel_those store_candidate_metadata
    after_confirm settings s turn_id c decision final_text event_id now (w, err e) = (
      none,
      record s {
        world = w;
        failures =
            s.failures
            ++ (record {
              action = "reconcile_final_request";
              turn_id = turn_id;
              task_id = c.task_id;
              error = e;
            }
                ∷ []);
      },
    )
    after_confirm settings s turn_id c decision final_text event_id now (w, ok t) =
        let marked : World × Task =
          if settings.streaming_rag_enabled
          then store_candidate_metadata t
              (("speculative_status", "confirmed")
                ∷ ("streaming_rag_reflector_decision", decision_text decision)
                ∷ ("streaming_rag_final_request_event_id", event_id)
                ∷ ("streaming_rag_final_normalized_query", tools.normalize final_text)
                ∷ [])
              now w
          else (w, t) in
        let s' =
          replace_candidate (record s { world = marked.0 }) (confirmed c decision event_id) in
        (
          some marked.1,
          cancel_those (is_other c) s' (candidates_of s' turn_id) "not_selected_by_final_reflector"
              is_superseded now,
        )

    abbrev pub reflected :
        Settings
        → Turns
        → ℕ
        → String
        → String
        → ℕ
        → Option Candidate × Decision
        → Option Task × Turns
    reflected settings s turn_id final_text event_id now (none, decision) =
        (none, close_all s turn_id decision now)
    reflected settings s turn_id final_text event_id now (some c, decision) =
        after_confirm settings s turn_id c decision final_text event_id now
          (confirm_speculative env c.task_id c.workspace_id event_id final_text now s.world)

    -- For the candidates of the turn.
    unfoldable pub reconcile_candidates :
        Settings → Turns → ℕ → String → String → ℕ → List Candidate → Option Task × Turns
    unfolding close_all after_confirm reflect confirm_speculative
    reconcile_candidates settings s turn_id final_text event_id now [] = (none, s)
    reconcile_candidates settings s turn_id final_text event_id now (c ∷ cs) =
        reflected settings s turn_id final_text event_id now
          (reflect tools settings s.world (c ∷ cs) final_text)

    unfoldable pub reconcile_final_request :
        Settings → Turns → Option ℕ → String → String → ℕ → Option Task × Turns
    unfolding reconcile_candidates
    reconcile_final_request settings s none final_text event_id now = (none, s)
    reconcile_final_request settings s (some turn_id) final_text event_id now =
        if not (is_enabled settings)
        then (none, s)
        else reconcile_candidates settings s turn_id final_text event_id now
            (candidates_of s turn_id)
