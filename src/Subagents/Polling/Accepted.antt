-- ===== src/Subagents/Polling/Accepted.antt =====
-- Calls about one task, which the store accepts and which leave the other tasks alone.
use flowhunt_voicebot.Base.{
  ℕ, ◌≡◌, ◌≢◌, refl, sym, ap, ◌∙◌, String, Bool, true, false, Option, some, [], ◌∷◌, ◌++◌, text_key,
  pair_key, eq_iff, is_some, arith, append-nil, Result, ok, err, if◌then◌else◌,
}
use flowhunt_voicebot.Base.Dict
use flowhunt_voicebot.Base.Dict.{Dict}
use flowhunt_voicebot.Subagents.{Task}
use flowhunt_voicebot.Subagents.Identity.{identity, identity_of, update_accepts}
use flowhunt_voicebot.Subagents.Lifecycle.{
  finish, emit_end, with_terminal_event_emitted, terminal_event_type,
}
use flowhunt_voicebot.Subagents.Effects.{World, Act, and_then, stored, put_task, on_runner, ran}

-- What makes a task that task.
abbrev pub Identity : Type 0
Identity = String × String × Option String × String × ℕ

-- A call that returns, with a result of which this holds in the world that it leaves.
abbrev pub Gives : {A : Type 0} → (A → World → Type 0) → World × Result A → Type 0
Gives Q (w, ok a) = Q a w
Gives Q (w, err e) = ⊥

pub and_then-Gives :
    {A B : Type 0} (P : A → World → Type 0) (Q : B → World → Type 0) (o : World × Result A)
    (f : A → Act B)
    → Gives P o
    → ((a : A) (w : World) → P a w → Gives Q (f a w))
    → Gives Q (and_then o f)
and_then-Gives P Q (w, ok a) f h next = next a w h
and_then-Gives P Q (w, err e) f h next = absurd h

pub Gives-map :
    {A : Type 0} (P Q : A → World → Type 0) (o : World × Result A)
    → Gives P o
    → ((a : A) (w : World) → P a w → Q a w)
    → Gives Q o
Gives-map P Q (w, ok a) h f = f a w h
Gives-map P Q (w, err e) h f = absurd h

module _ (id : String) (key : Identity) where
  -- The store has this task.
  abbrev pub Owns : World → Type 0
  Owns w = identity_of (Dict.get w.store.tasks id) ≡ some key

  abbrev pub IsMine : Task → Type 0
  IsMine t = (t.task_id ≡ id) × (identity t ≡ key)

  -- All other tasks are as they were.
  abbrev pub OthersKept : World → World → Type 0
  OthersKept a b = (k : String) → k ≢ id → Dict.get b.store.tasks k ≡ Dict.get a.store.tasks k

  -- The task is stored as it is returned.
  abbrev pub IsStored : World → Task → World → Type 0
  IsStored a t b = IsMine t × (Dict.get b.store.tasks id ≡ some t) × OthersKept a b

  abbrev pub putted : World → Task → World
  putted w t = record w { store = record (w.store) { tasks = Dict.put w.store.tasks t.task_id t } }

  pub put_task_ok : (w : World) (t : Task) → Owns w → IsMine t → put_task t w ≡ (putted w t, ok t)
  unfolding put_task
  put_task_ok w t owns (named, same) = ap (stored w) (
      update_accepts w.store t
        (ap (λ k. identity_of (Dict.get w.store.tasks k)) named ∙ owns ∙ ap some (sym same)))

  pub IsStored-putted : (w : World) (t : Task) → IsMine t → IsStored w t (putted w t)
  IsStored-putted w t (named, same) = (
    (named, same),
    ground (arith, named, Dict.get-put w.store.tasks t.task_id id t, eq_iff t.task_id id),
    λ k other.
        ground (arith, other, named, Dict.get-put w.store.tasks t.task_id k t, eq_iff t.task_id k),
  )

  pub Owns-stored : (a b : World) (t : Task) → IsStored a t b → Owns b
  Owns-stored a b t h = ap identity_of h.1 ∙ ap some h.0.1

  pub put_task-Gives :
      (w : World) (t : Task)
      → Owns w
      → IsMine t
      → Gives (λ u b. (u ≡ t) × IsStored w u b) (put_task t w)
  put_task-Gives w t owns mine = rw (put_task_ok w t owns mine) (refl, IsStored-putted w t mine)

  pub OthersKept-trans : (a b c : World) → OthersKept a b → OthersKept b c → OthersKept a c
  OthersKept-trans a b c h g k other = g k other ∙ h k other

  module _ (session_active : String → Bool) where
    abbrev pub IsEnded : World → Task → Task → World → Type 0
    IsEnded a t u b =
        IsStored a u b
        × (is_some u.terminal_event_emitted_at ≡ true)
        × (u.status ≡ t.status)
        × (b.sink
            ≡ a.sink
              ++ (if is_some t.terminal_event_emitted_at
                  then []
                  else (terminal_event_type session_active t, t) ∷ []))

    -- Behind the first update of `_mark_terminal`.
    emit_end-IsEnded :
        (w : World) (t : Task) (now : ℕ) (told : Bool)
        → IsMine t
        → is_some t.terminal_event_emitted_at ≡ told
        → Gives (IsEnded w t) (
            ran w (
              emit_end session_active
                (record { store = (putted w t).store; emitted = w.sink })
                t
                now))
    unfolding emit_end
    emit_end-IsEnded w t now true mine e = rw e (
      IsStored-putted w t mine,
      e,
      refl,
      sym (append-nil w.sink)
          ∙ ap (λ b. w.sink ++ (if b then [] else (terminal_event_type session_active t, t) ∷ []))
              (sym e),
    )
    emit_end-IsEnded w t now false mine e =
        let told = with_terminal_event_emitted t now in
        let here = IsStored-putted w t mine in
        let again = update_accepts (putted w t).store told (
          ap (λ k. identity_of (Dict.get (putted w t).store.tasks k)) mine.0
          ∙ Owns-stored w (putted w t) t here
          ∙ ap some (sym mine.1)) in
        let (last, found, others) = IsStored-putted (putted w t) told mine in
        rw (e, again)
          (
            (last, found, OthersKept-trans w (putted w t) (putted (putted w t) told) here.2 others),
            refl,
            refl,
            ap (λ b. w.sink ++ (if b then [] else (terminal_event_type session_active t, t) ∷ []))
                (sym e),
          )

    pub finish-IsEnded :
        (w : World) (t : Task) (now : ℕ)
        → Owns w
        → IsMine t
        → Gives (IsEnded w t) (on_runner (λ r. finish session_active r t now) w)
    unfolding finish
    finish-IsEnded w t now owns mine =
        rw
          (update_accepts w.store t
            (ap (λ k. identity_of (Dict.get w.store.tasks k)) mine.0 ∙ owns ∙ ap some (sym mine.1)))
          (emit_end-IsEnded w t now (is_some t.terminal_event_emitted_at) mine refl)

  pub IsStored-trans :
      (a b c : World) (t u : Task) → IsStored a t b → IsStored b u c → IsStored a u c
  IsStored-trans a b c t u h g = (g.0, g.1, OthersKept-trans a b c h.2 g.2)
