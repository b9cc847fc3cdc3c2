-- ===== src/Subagents/Coordinator/Rules.antt =====
-- Calls that leave the tasks of other workspaces alone, and rules for them.
use flowhunt_voicebot.Base.{
  ◌≡◌, ◌≢◌, refl, ap, ◌∙◌, String, Bool, true, false, not, Option, none, some, text_key, ◌==◌,
  eq_iff, arith, key_error, Result, ok, err, Bool-cases, Option-cases, inl, inr,
}
use flowhunt_voicebot.Base.Dict
use flowhunt_voicebot.Base.Dict.{Dict, merged}
use flowhunt_voicebot.Subagents.{Task, TaskStore, update, find_task}
use flowhunt_voicebot.Subagents.Lifecycle.{update_done}
use flowhunt_voicebot.Subagents.Effects.{
  World, Act, and_then, ◌>>=◌, ◌>>◌, return, lift, check, stored, put_task, emit,
}
use flowhunt_voicebot.Subagents.Coordinator.{get_task}

-- An update that is accepted finds the task in the workspace that it names.
update_workspace :
    (s s' : TaskStore) (t t' old : Task)
    → update s t ≡ ok (t', s')
    → Dict.get s.tasks t.task_id ≡ some old
    → old.workspace_id ≡ t.workspace_id
unfolding update
update_workspace s s' t t' old done there =
    ground (arith, done, there, eq_iff old.workspace_id t.workspace_id)

find_task_workspace :
    (s : TaskStore) (task_id w : String) (t : Task)
    → find_task s task_id (some w) ≡ some t
    → t.workspace_id ≡ w
unfolding find_task
find_task_workspace s task_id w t found = elim (Option-cases (Dict.get s.tasks task_id)) [
  | inl missing ↦ absurd (ground (arith, missing, found))
  | inr (u, there) ↦ ground (arith, there, found, eq_iff u.workspace_id w)
]

module _ (w : String) where
  -- The tasks of other workspaces are as they were.
  abbrev pub Elsewhere : World → World → Type 0
  Elsewhere a b =
      (id : String) (old : Task)
      → Dict.get a.store.tasks id ≡ some old
      → old.workspace_id ≢ w
      → Dict.get b.store.tasks id ≡ some old

  abbrev pub OnOk {ℓ} : {A : Type ℓ} → (A → Type 0) → Result A → Type 0
  OnOk P (ok a) = P a
  OnOk P (err e) = Unit

  -- A call that leaves the tasks of other workspaces alone, also where it raises, and whose result
  -- has a property.
  abbrev pub Ensures : {A : Type 0} → (A → Type 0) → Act A → Type 0
  Ensures P m = (a : World) → Elsewhere a (m a).0 × OnOk P (m a).1

  abbrev pub IsHere : Task → Type 0
  IsHere t = t.workspace_id ≡ w

  pub and_then-Ensures :
      {A B : Type 0} (P : A → Type 0) (Q : B → Type 0) (f : A → Act B) (a : World)
      (o : World × Result A)
      → Elsewhere a o.0 × OnOk P o.1
      → ((x : A) → P x → Ensures Q (f x))
      → Elsewhere a (and_then o f).0 × OnOk Q (and_then o f).1
  and_then-Ensures P Q f a (b, ok x) h rest =
      let (kept, result) = rest x h.1 b in
      ((λ id old there other. kept id old (h.0 id old there other) other), result)
  and_then-Ensures P Q f a (b, err e) h rest = h

  pub bind-Ensures :
      {A B : Type 0} (P : A → Type 0) (Q : B → Type 0) (m : Act A) (f : A → Act B)
      → Ensures P m
      → ((x : A) → P x → Ensures Q (f x))
      → Ensures Q (m >>= f)
  bind-Ensures P Q m f h rest a = and_then-Ensures P Q f a (m a) (h a) rest

  pub stored-Ensures :
      (t : Task) (a : World) (o : Result (Task × TaskStore))
      → IsHere t
      → update a.store t ≡ o
      → Elsewhere a (stored a o).0 × OnOk IsHere (stored a o).1
  stored-Ensures t a (err e) here done = ((λ id old there other. there), tt)
  stored-Ensures t a (ok (u, s)) here done =
      let (same, made) = update_done a.store s t u done in
      (
        (λ id old there other. elim (Bool-cases (t.task_id == id)) [
          | inl hit ↦
              let e = (eq_iff t.task_id id).0 hit in
              absurd (
                other (
                  update_workspace a.store s t u old done
                    (ap (λ k. Dict.get a.store.tasks k) e ∙ there)
                  ∙ here))
          | inr miss ↦ ground (arith, made, there, miss, Dict.get-put a.store.tasks t.task_id id t)
        ]),
        ap (λ (v : Task). v.workspace_id) same ∙ here,
      )

  pub put_task-Ensures : (t : Task) → IsHere t → Ensures IsHere (put_task t)
  unfolding put_task
  put_task-Ensures t here a = stored-Ensures t a (update a.store t) here refl

  pub emit-Ensures : (type : String) (t : Task) → Ensures (λ u. Unit) (emit type t)
  unfolding emit
  emit-Ensures type t a = ((λ id old there other. there), tt)

  pub keep_world : (a : World) → Elsewhere a a
  keep_world a id old there other = there

  pub check-Ensures : (b : Bool) (message : String) → Ensures (λ u. b ≡ false) (check b message)
  check-Ensures true message a = (keep_world a, tt)
  check-Ensures false message a = (keep_world a, refl)

  pub any_of : {A : Type 0} (r : Result A) → OnOk (λ x. Unit) r
  any_of (ok x) = tt
  any_of (err e) = tt

  pub lift-Ensures : {A : Type 0} (r : Result A) → Ensures (λ x. Unit) (lift r)
  lift-Ensures r a = (keep_world a, any_of r)

  pub found-Ensures :
      (a : World) (message : String) (o : Option Task)
      → ((t : Task) → o ≡ some t → IsHere t)
      → let r : World × Result Task = elim o [
        | none ↦ (a, err (key_error message))
        | some t ↦ (a, ok t)
      ] in
        Elsewhere a r.0 × OnOk IsHere r.1
  found-Ensures a message none h = (keep_world a, tt)
  found-Ensures a message (some t) h = (keep_world a, h t refl)

  pub get_task-Ensures : (task_id : String) → Ensures IsHere (get_task task_id w)
  unfolding get_task
  get_task-Ensures task_id a =
      found-Ensures a _ (find_task a.store task_id (some w)) (find_task_workspace a.store task_id w)

  -- The task that a call is about, behind the event that names it.
  pub emitted-Ensures :
      (type : String) (m : Act Task)
      → Ensures IsHere m
      → Ensures IsHere (m >>= λ u. (emit type u >> return u))
  emitted-Ensures type m h = bind-Ensures IsHere IsHere m _ h λ u here.
      bind-Ensures (λ v. Unit) IsHere (emit type u) _ (emit-Ensures type u)
        λ v done a. (keep_world a, here)

  -- The answer `t` of a provider is refused unless it is of the workspace `v`.
  pub answered-Ensures :
      (t u : Task) (v message type : String)
      → v ≡ w
      → u.workspace_id ≡ t.workspace_id
      → Ensures IsHere (
          check (not (t.workspace_id == v)) message
          >> (put_task u >>= λ x. (emit type x >> return x)))
  answered-Ensures t u v message type here same =
      bind-Ensures (λ c. not (t.workspace_id == v) ≡ false) IsHere
        (check (not (t.workspace_id == v)) message) _
        (check-Ensures (not (t.workspace_id == v)) message)
        λ c passed.
          emitted-Ensures type (put_task u)
            (put_task-Ensures u (ground (arith, passed, same, here, eq_iff t.workspace_id v)))
