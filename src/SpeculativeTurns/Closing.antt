-- ===== src/SpeculativeTurns/Closing.antt =====
-- When a turn ends, none of its candidates is left open.
use flowhunt_voicebot.Base.{
  ℕ, ◌≡◌, ◌≢◌, ◌⊎◌, refl, sym, ap, subst, ◌∙◌, String, Bool, true, false, ◌&&◌, Option, none, some,
  List, [], ◌∷◌, ◌++◌, All, All-append, append_assoc, append-nil, if◌then◌else◌, nat_key, text_key,
  eq_iff, arith, Result, ok, err, Bool-cases, Option-cases, inl, inr,
}
use flowhunt_voicebot.Base.Dict.Entries.{Distinct}
use flowhunt_voicebot.Subagents.{Task}
use flowhunt_voicebot.Subagents.Effects.{Registered, World}
use flowhunt_voicebot.Subagents.Coordinator.{confirm_speculative}
use flowhunt_voicebot.SpeculativeTurns.{
  Candidate, CandidateStatus, is_superseded, is_failed, is_open, is_usable, texts_match, Failure,
  Decision, Settings, TextTools, Turns, candidates_of, replace_first, replace_candidate,
  first_match, reflect, is_cancelled, reuse, wait, supersede, cancel,
}
use flowhunt_voicebot.SpeculativeTurns.Reconciling.{
  after_cancel, cancel_call, cancel_candidate, cancel_those, must_close, is_enabled, close_all,
  is_other, confirmed, after_confirm, reflected, reconcile_candidates, reconcile_final_request,
}
use flowhunt_voicebot.SpeculativeTurns.Replacing.{
  Apart, task_of, IsClosed, replace_first-append, put-replace_first, All-replace_first,
  Distinct-replace_first, replace_first-only, All-Apart_nil, Apart-next,
}

module _ (env : Registered) where
  -- A cancelled candidate is replaced by a closed one.
  abbrev Replaced : Turns → Candidate → ℕ → Turns → Type 0
  Replaced s c turn s' =
      (r : Candidate) × (r.task_id ≡ c.task_id)
      × IsClosed r
      × (candidates_of s' turn ≡ replace_first (candidates_of s turn) r)

  after_cancel-Replaced :
      (s : Turns) (c : Candidate) (reason : String) (status : CandidateStatus) (now turn : ℕ)
      (o : World × Result Task)
      → c.turn_id ≡ turn
      → is_open status ≡ false
      → Replaced s c turn (after_cancel env s c reason status now o)
  unfolding after_cancel replace_candidate
  after_cancel-Replaced s c reason status now turn (w, err e) here closed = (
    record c { status = is_failed },
    refl,
    refl,
    put-replace_first s.by_turn (record c { status = is_failed }) turn here,
  )
  after_cancel-Replaced s c reason status now turn (w, ok t) here closed = (
    record c { status = status },
    refl,
    closed,
    put-replace_first s.by_turn (record c { status = status }) turn here,
  )

  module _ (must : Candidate → Bool) (reason : String) (status : CandidateStatus) (now turn : ℕ)
      (closes : is_open status ≡ false) where
    -- The rounds over `cs`, behind those over `done`.
    rounds-IsClosed :
        (cs done : List Candidate) (s : Turns)
        → candidates_of s turn ≡ done ++ cs
        → All IsClosed done
        → Apart done cs
        → Distinct task_of cs
        → All (λ c. c.turn_id ≡ turn) cs
        → All (λ c. must c ≡ false → IsClosed c) cs
        → All IsClosed (candidates_of (cancel_those env must s cs reason status now) turn)
    unfolding cancel_those cancel_candidate
    rounds-IsClosed [] done s now_there closed apart distinct here left =
        subst (λ l. All IsClosed l) (sym (append-nil done) ∙ sym now_there) closed
    rounds-IsClosed (c ∷ cs) done s now_there closed apart distinct here left =
        let go =
          λ (x : Candidate) (s' : Turns) (same : x.task_id ≡ c.task_id) (shut : IsClosed x)
              (there : candidates_of s' turn ≡ done ++ (x ∷ cs)).
            rounds-IsClosed cs (done ++ (x ∷ [])) s' (there ∙ sym (append_assoc done (x ∷ []) cs))
              (All-append IsClosed done (x ∷ []) closed (shut, tt))
              (Apart-next done cs x c same apart.1 distinct.0) distinct.1 here.1 left.1 in
        let goal = λ (b : Bool). All IsClosed (
          candidates_of
            (cancel_those env must (if b then cancel_candidate env s c reason status now else s) cs
              reason status now)
            turn) in
        elim (Bool-cases (must c)) [
          | inl close ↦
              let (r, same, shut, there) =
                after_cancel-Replaced s c reason status now turn
                  (cancel_call env c reason status now s.world) here.0 closes in
              let apart_r =
                subst (λ k. All (λ (d : Candidate). d.task_id ≢ k) done) (sym same) apart.0 in
              subst goal (sym close) (
                go r (cancel_candidate env s c reason status now) same shut (
                  there
                  ∙ ap (λ l. replace_first l r) now_there
                  ∙ replace_first-append done cs c r apart_r (sym same)))
          | inr leave ↦ subst goal (sym leave) (go c s refl (left.0 leave) now_there)
        ]

    -- All rounds, over the candidates of the turn.
    cancel_those-IsClosed :
        (s : Turns)
        → Distinct task_of (candidates_of s turn)
        → All (λ c. c.turn_id ≡ turn) (candidates_of s turn)
        → All (λ c. must c ≡ false → IsClosed c) (candidates_of s turn)
        → All IsClosed
            (candidates_of (cancel_those env must s (candidates_of s turn) reason status now) turn)
    cancel_those-IsClosed s distinct here left =
        rounds-IsClosed (candidates_of s turn) [] s refl tt (All-Apart_nil (candidates_of s turn))
          distinct here left

  All-first_match :
      (tools : TextTools) (P : Candidate → Type 0) (cs : List Candidate) (final_text : String)
      (c : Candidate)
      → All P cs
      → first_match tools cs final_text ≡ some c
      → P c
  unfolding first_match
  All-first_match tools P [] final_text c h found = cc
  All-first_match tools P (x ∷ xs) final_text c h found =
      elim (Bool-cases (is_usable x.status && texts_match tools x.source_text final_text)) [
        | inl hit ↦ subst P (ground (arith, rw hit at found)) h.0
        | inr miss ↦ All-first_match tools P xs final_text c h.1 (rw miss at found)
      ]

  All-any : (P : Candidate → Type 0) (cs : List Candidate) → ((c : Candidate) → P c) → All P cs
  All-any P [] h = tt
  All-any P (c ∷ cs) h = (h c, All-any P cs h)

  module _ (tools : TextTools) (settings : Settings) (turn : ℕ) (final_text event_id : String)
      (now : ℕ) where
    -- No candidate of the turn is open; or the confirmation of one raised, which is noted, and the
    -- candidates are as they were.
    abbrev pub IsReconciled : Turns → Turns → Type 0
    IsReconciled s s' =
        All IsClosed (candidates_of s' turn)
        ⊎ ((f : Failure) × (f.action ≡ "reconcile_final_request")
            × (s'.failures ≡ s.failures ++ (f ∷ []))
            × (candidates_of s' turn ≡ candidates_of s turn))

    others-IsClosed :
        (c : Candidate) (cs : List Candidate)
        → All (λ y. y.task_id ≡ c.task_id → IsClosed y) cs
        → All (λ y. is_other env tools c y ≡ false → IsClosed y) cs
    others-IsClosed c [] h = tt
    others-IsClosed c (y ∷ ys) h =
        ((λ e. ground (arith, e, h.0, eq_iff y.task_id c.task_id)), others-IsClosed c ys h.1)

    confirmed_others-IsClosed :
        (s : Turns) (w : World) (c : Candidate) (decision : Decision)
        → c.turn_id ≡ turn
        → Distinct task_of (candidates_of s turn)
        → All (λ x. x.turn_id ≡ turn) (candidates_of s turn)
        → let s' =
            replace_candidate (record s { world = w }) (confirmed env tools c decision event_id) in
          All IsClosed (
            candidates_of
              (cancel_those env
                (is_other env tools c)
                s'
                (candidates_of s' turn)
                "not_selected_by_final_reflector"
                is_superseded
                now)
              turn)
    unfolding replace_candidate
    confirmed_others-IsClosed s w c decision here distinct turns =
        let r = confirmed env tools c decision event_id in
        let s' = replace_candidate (record s { world = w }) r in
        let there : candidates_of s' turn ≡ replace_first (candidates_of s turn) r =
          put-replace_first s.by_turn r turn here in
        cancel_those-IsClosed (is_other env tools c) "not_selected_by_final_reflector" is_superseded
          now turn refl s'
          (subst (Distinct task_of) (sym there)
            (Distinct-replace_first (candidates_of s turn) r distinct))
          (subst (All (λ x. x.turn_id ≡ turn)) (sym there)
            (All-replace_first (λ x. x.turn_id ≡ turn) (candidates_of s turn) r turns here))
          (subst (All (λ y. is_other env tools c y ≡ false → IsClosed y)) (sym there) (
            others-IsClosed c (replace_first (candidates_of s turn) r)
              (replace_first-only IsClosed (candidates_of s turn) r distinct refl)))

    after_confirm-IsReconciled :
        (s : Turns) (c : Candidate) (decision : Decision) (o : World × Result Task)
        → c.turn_id ≡ turn
        → Distinct task_of (candidates_of s turn)
        → All (λ x. x.turn_id ≡ turn) (candidates_of s turn)
        → IsReconciled s
            (after_confirm env tools settings s turn c decision final_text event_id now o).1
    unfolding after_confirm
    after_confirm-IsReconciled s c decision (w, err e) here distinct turns =
        inr (_, refl, refl, refl)
    after_confirm-IsReconciled s c decision (w, ok t) here distinct turns =
        inl (confirmed_others-IsClosed s _ c decision here distinct turns)

    closing_status :
        (d : Decision) → is_open (elim d [ supersede ↦ is_superseded | _ ↦ is_cancelled ]) ≡ false
    closing_status reuse = refl
    closing_status wait = refl
    closing_status supersede = refl
    closing_status cancel = refl

    reflect-first_match :
        (w : World) (cs : List Candidate) (c : Candidate) (d : Decision)
        → reflect tools settings w cs final_text ≡ (some c, d)
        → first_match tools cs final_text ≡ some c
    unfolding reflect
    reflect-first_match w cs c d selected = elim (Option-cases (first_match tools cs final_text)) [
      | inl missing ↦ absurd (ground (arith, missing, selected))
      | inr (x, found) ↦ ground (arith, found, selected)
    ]

    reflected-IsReconciled :
        (s : Turns) (o : Option Candidate × Decision)
        → reflect tools settings s.world (candidates_of s turn) final_text ≡ o
        → Distinct task_of (candidates_of s turn)
        → All (λ x. x.turn_id ≡ turn) (candidates_of s turn)
        → IsReconciled s (reflected env tools settings s turn final_text event_id now o).1
    unfolding close_all
    reflected-IsReconciled s (none, d) selected distinct turns = inl (
        cancel_those-IsClosed (must_close env) "final_transcript_changed"
          (elim d [ supersede ↦ is_superseded | _ ↦ is_cancelled ]) now turn (closing_status d) s
          distinct turns (All-any _ (candidates_of s turn) (λ c h. h)))
    reflected-IsReconciled s (some c, d) selected distinct turns =
        after_confirm-IsReconciled s c d
          (confirm_speculative env c.task_id c.workspace_id event_id final_text now s.world)
          (All-first_match tools (λ x. x.turn_id ≡ turn) (candidates_of s turn) final_text c turns
            (reflect-first_match s.world (candidates_of s turn) c d selected))
          distinct turns

    reconcile_candidates-IsReconciled :
        (s : Turns) (cs : List Candidate)
        → candidates_of s turn ≡ cs
        → Distinct task_of (candidates_of s turn)
        → All (λ x. x.turn_id ≡ turn) (candidates_of s turn)
        → IsReconciled s
            (reconcile_candidates env tools settings s turn final_text event_id now cs).1
    unfolding reconcile_candidates
    reconcile_candidates-IsReconciled s [] there distinct turns =
        inl (subst (All IsClosed) (sym there) tt)
    reconcile_candidates-IsReconciled s (c ∷ cs) there distinct turns =
        reflected-IsReconciled s (reflect tools settings s.world (c ∷ cs) final_text)
          (ap (λ l. reflect tools settings s.world l final_text) there) distinct turns

    -- When the final transcript of a turn is reconciled, no candidate of the turn is left open,
    -- whatever the providers answer or raise; or the confirmation of the selected one raised, which
    -- is noted last, and the candidates are as they were. Conditions: speculative work is enabled,
    -- the candidates of the turn name it, no two of them have the same task, and the metrics do
    -- not raise.
    pub reconcile_final_request-IsReconciled :
        (s : Turns)
        → is_enabled env settings ≡ true
        → Distinct task_of (candidates_of s turn)
        → All (λ x. x.turn_id ≡ turn) (candidates_of s turn)
        → IsReconciled s
            (reconcile_final_request env tools settings s (some turn) final_text event_id now).1
    unfolding reconcile_final_request
    reconcile_final_request-IsReconciled s enabled distinct turns =
        rw enabled (reconcile_candidates-IsReconciled s (candidates_of s turn) refl distinct turns)
