-- ===== src/Subagents/Effects.antt =====
-- Calls of `SubagentCoordinator` and of the lifecycle runner: they change the store and what was
-- emitted, and may raise after they have. A provider is a parameter: what it answers is not known.
use flowhunt_voicebot.Base.{
  String, Bool, true, false, List, [], ◌∷◌, ◌++◌, Error, Result, ok, err, value_error,
}
use flowhunt_voicebot.Base.Dict.{Dict}
use flowhunt_voicebot.Subagents.Lifecycle.{Runner, LifecycleEvent}
use flowhunt_voicebot.Subagents.{Task, TaskRequest, TaskStore, update}

-- `SubagentProviderDescriptor`
pub record Descriptor : Type 0 where
  pub kind : String
  pub label : String
  pub workspace_scoped : Bool
  pub supports_async_polling : Bool
  pub supports_cancel : Bool
  pub required_metadata : List String
  pub result_context : String

-- `SubagentProvider`
pub record Provider : Type 0 where
  pub submit : TaskRequest → Result Task
  pub poll : Task → Result Task
  pub cancel : Task → Result Task

-- What a coordinator was registered with.
pub record Registered : Type 0 where
  pub providers : Dict String Provider
  pub descriptors : Dict String Descriptor

pub record World : Type 0 where
  pub store : TaskStore
  pub emitted : List (String × Task)  -- the events of the coordinator, in their order
  pub sink : List (LifecycleEvent × Task)  -- those of the lifecycle runner

abbrev pub Act : Type 0 → Type 0
Act A = World → World × Result A

abbrev pub and_then : {A B : Type 0} → World × Result A → (A → Act B) → World × Result B
and_then (w, ok a) f = f a w
and_then (w, err e) f = (w, err e)

infixl 5 ◌>>=◌ ◌>>◌
abbrev pub ◌>>=◌ : {A B : Type 0} → Act A → (A → Act B) → Act B
◌>>=◌ m f w = and_then (m w) f

abbrev pub ◌>>◌ : {B : Type 0} → Act (Unit {0}) → Act B → Act B
m >> k = m >>= λ _. k

abbrev pub return : {A : Type 0} → A → Act A
return a w = (w, ok a)

abbrev pub raise : {A : Type 0} → Error → Act A
raise e w = (w, err e)

-- A result that was computed without the store.
abbrev pub lift : {A : Type 0} → Result A → Act A
lift r w = (w, r)

abbrev pub check : Bool → String → Act (Unit {0})
check true message w = (w, err (value_error message))
check false message w = (w, ok tt)

abbrev pub stored : World → Result (Task × TaskStore) → World × Result Task
stored w (ok (t, s)) = (record w { store = s }, ok t)
stored w (err e) = (w, err e)

-- `self.store.update(task)`
unfoldable pub put_task : Task → Act Task
put_task t w = stored w (update w.store t)

unfoldable pub emit : String → Task → Act (Unit {0})
emit type t w = (record w { emitted = w.emitted ++ ((type, t) ∷ []) }, ok tt)

abbrev pub ran : World → Result (Task × Runner) → World × Result Task
ran w (ok (t, r)) = (record w { store = r.store; sink = r.emitted }, ok t)
ran w (err e) = (w, err e)

-- A call of the runner's that is modelled on its own state.
abbrev pub on_runner : (Runner → Result (Task × Runner)) → Act Task
on_runner m w = ran w (m (record { store = w.store; emitted = w.sink }))

-- `try: a = m() except Exception as e: return handle(e)`, and `next(a)` behind it.
abbrev pub recovered :
    {A B : Type 0} → World × Result A → (A → Act B) → (Error → Act B) → World × Result B
recovered (w, ok a) next handle = next a w
recovered (w, err e) next handle = handle e w

abbrev pub recover : {A B : Type 0} → Act A → (A → Act B) → (Error → Act B) → Act B
recover m next handle w = recovered (m w) next handle
