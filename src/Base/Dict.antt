-- ===== src/Base/Dict.antt =====
-- Python's `dict`: insertion ordered, an update keeps the place of its key.
pub mod Entries
use Prim.Native.Nat.{ℕ, ◌+◌, ◌≤◌, ◌<◌}
use mathlib.Core.Path.{◌≡◌, refl, subst}
use mathlib.Core.Logic.{inl, inr}
use mathlib.Core.Bool.{Bool, true, false}
use mathlib.Core.Option.{Option, none, some}
use mathlib.Core.List.{List, [], ◌∷◌}
use native.Mathlib.Omega.{arith}
use flowhunt_voicebot.Base.Tests.{if◌then◌else◌, is_some, Bool-cases}
use flowhunt_voicebot.Base.Keys.{Key, ◌==◌}
use flowhunt_voicebot.Base.Lists.{All}

abbrev pub Dict {ℓ κ} : Type ℓ → Type κ → Type (ℓ ⊔ κ)
Dict K V = List (K × V)

module _ {ℓ κ} {K : Type ℓ} {V : Type κ} where
  -- d.values()
  abbrev pub values : Dict K V → List V
  values [] = []
  values ((k, v) ∷ d) = v ∷ values d

  abbrev pub keys : Dict K V → List K
  keys [] = []
  keys ((k, v) ∷ d) = k ∷ keys d

module _ {ℓ κ} {K : Type ℓ} {V : Type κ} ⦃key : Key K⦄ where
  -- d.get(k)
  unfoldable pub get : Dict K V → K → Option V
  get [] k = none
  get ((j, v) ∷ d) k = if j == k then some v else get d k

  -- d[k] = v
  unfoldable pub put : Dict K V → K → V → Dict K V
  put [] k v = (k, v) ∷ []
  put ((j, w) ∷ d) k v = if j == k then (j, v) ∷ d else (j, w) ∷ put d k v

  -- {**first, **second}
  unfoldable pub merged : Dict K V → Dict K V → Dict K V
  unfolding put
  merged first [] = first
  merged first ((k, v) ∷ second) = merged (put first k v) second

  -- d.pop(k, None)
  unfoldable pub pop : Dict K V → K → Dict K V
  pop [] k = []
  pop ((j, w) ∷ d) k = let rest = pop d k in if j == k then rest else (j, w) ∷ rest

  -- k in d
  unfoldable pub has : Dict K V → K → Bool
  unfolding get
  has d k = is_some (get d k)

  -- How often a key stands in the list of entries: at most once in a dict.
  unfoldable pub occurs : Dict K V → K → ℕ
  occurs [] k = 0
  occurs ((j, v) ∷ d) k = (if j == k then 1 else 0) + occurs d k

  pub get-put :
      (d : Dict K V) (k j : K) (v : V) → get (put d k v) j ≡ (if k == j then some v else get d j)
  unfolding get put
  get-put [] k j v = refl
  get-put ((i, w) ∷ d) k j v =
      ground (arith, get-put d k j v, key.beq_iff i k, key.beq_iff i j, key.beq_iff k j)

  pub get-pop : (d : Dict K V) (k j : K) → get (pop d k) j ≡ (if k == j then none else get d j)
  unfolding get pop
  get-pop [] k j = ground arith
  get-pop ((i, w) ∷ d) k j =
      ground (arith, get-pop d k j, key.beq_iff i k, key.beq_iff i j, key.beq_iff k j)

  pub occurs-pop :
      (d : Dict K V) (k j : K) → occurs (pop d k) j ≡ (if k == j then 0 else occurs d j)
  unfolding occurs pop
  occurs-pop [] k j = ground arith
  occurs-pop ((i, w) ∷ d) k j =
      ground (arith, occurs-pop d k j, key.beq_iff i k, key.beq_iff i j, key.beq_iff k j)

  pub occurs-put :
      (d : Dict K V) (k j : K) (v : V)
      → occurs (put d k v) j
        ≡ (if k == j then (if has d k then occurs d j else occurs d j + 1) else occurs d j)
  unfolding occurs put has
  occurs-put [] k j v = ground arith
  occurs-put ((i, w) ∷ d) k j v =
      ground (arith, occurs-put d k j v, key.beq_iff i k, key.beq_iff i j, key.beq_iff k j)

  pub occurs_of_get-none : (d : Dict K V) (k : K) → get d k ≡ none → occurs d k ≡ 0
  unfolding occurs get
  occurs_of_get-none [] k h = refl
  occurs_of_get-none ((i, w) ∷ d) k h = ground (arith, occurs_of_get-none d k)

  pub get-none_of_occurs : (d : Dict K V) (k : K) → occurs d k ≡ 0 → get d k ≡ none
  unfolding occurs get
  get-none_of_occurs [] k h = refl
  get-none_of_occurs ((i, w) ∷ d) k h = ground (arith, get-none_of_occurs d k)

  pub get-put_self : (d : Dict K V) (k : K) (v : V) → get (put d k v) k ≡ some v
  get-put_self d k v = ground (arith, get-put d k k v, key.beq_iff k k)

  pub get-pop_self : (d : Dict K V) (k : K) → get (pop d k) k ≡ none
  get-pop_self d k = ground (arith, get-pop d k k, key.beq_iff k k)

  -- A property of every entry.
  pub All-put {μ} :
      (P : K × V → Type μ) (d : Dict K V) (k : K) (v : V)
      → ((j : K) → j ≡ k → P (j, v))
      → All P d
      → All P (put d k v)
  unfolding put
  All-put P [] k v new h = (new k refl, tt)
  All-put P ((j, w) ∷ d) k v new h = elim (Bool-cases (j == k)) [
    | inl e ↦ rw (e, put) (new j ((key.beq_iff j k).0 e), h.1)
    | inr e ↦ rw (e, put) (h.0, All-put P d k v new h.1)
  ]

  pub All-pop {μ} : (P : K × V → Type μ) (d : Dict K V) (k : K) → All P d → All P (pop d k)
  unfolding pop
  All-pop P [] k h = tt
  All-pop P ((j, w) ∷ d) k h = elim (Bool-cases (j == k)) [
    | inl e ↦ rw (e, pop) (All-pop P d k h.1)
    | inr e ↦ rw (e, pop) (h.0, All-pop P d k h.1)
  ]

  pub All-get {μ} :
      (P : K × V → Type μ) (d : Dict K V) (k : K) (v : V) → get d k ≡ some v → All P d → P (k, v)
  unfolding get
  All-get P [] k v e h = cc
  All-get P ((j, w) ∷ d) k v e h = elim (Bool-cases (j == k)) [
    | inl same ↦ subst (λ (x : K × V). P x) (ground (arith, (key.beq_iff j k).0 same)) h.0
    | inr other ↦ All-get P d k v (rw (other, get) at e) h.1
  ]

  pub has-put :
      (d : Dict K V) (k j : K) (v : V) → has (put d k v) j ≡ (if k == j then true else has d j)
  unfolding has
  has-put d k j v = ground (arith, get-put d k j v)

  pub has-pop : (d : Dict K V) (k j : K) → has (pop d k) j ≡ (if k == j then false else has d j)
  unfolding has
  has-pop d k j = ground (arith, get-pop d k j)

  pub has-false_of_occurs : (d : Dict K V) (k : K) → occurs d k ≡ 0 → has d k ≡ false
  unfolding has
  has-false_of_occurs d k h = ground (arith, get-none_of_occurs d k h)

  pub occurs-pos_of_get : (d : Dict K V) (k : K) (v : V) → get d k ≡ some v → 0 < occurs d k
  unfolding occurs get
  occurs-pos_of_get [] k v h = cc
  occurs-pos_of_get ((i, w) ∷ d) k v h = ground (arith, occurs-pos_of_get d k v)

  -- Overwriting a key that is there leaves the number of entries of every key.
  pub occurs-put_again :
      (d : Dict K V) (k j : K) (v w : V) → get d k ≡ some w → occurs (put d k v) j ≡ occurs d j
  unfolding occurs put get
  occurs-put_again [] k j v w h = cc
  occurs-put_again ((i, x) ∷ d) k j v w h = ground (arith, occurs-put_again d k j v w)

  All-absent : (d : Dict K V) (k : K) (v : V) → occurs d k ≡ 0 → All (λ e. e.0 ≡ k → e.1 ≡ v) d
  unfolding occurs
  All-absent [] k v h = tt
  All-absent ((i, w) ∷ d) k v h =
      (λ same. absurd (ground (arith, (key.beq_iff i k).1 same)), All-absent d k v (ground arith))

  -- Where a key stands once, its entry is the one that `get` finds.
  pub All-once :
      (d : Dict K V) (k : K) (v : V)
      → occurs d k ≤ 1
      → get d k ≡ some v
      → All (λ e. e.0 ≡ k → e.1 ≡ v) d
  unfolding occurs get
  All-once [] k v once h = tt
  All-once ((i, w) ∷ d) k v once h = elim (Bool-cases (i == k)) [
    | inl e ↦ (λ _. cc (rw (e, get) at h), All-absent d k v (ground arith))
    | inr e ↦
        (λ same. cc (e, (key.beq_iff i k).1 same), All-once d k v (ground arith) (rw (e, get) at h))
  ]

  pub occurs_of_has-false : (d : Dict K V) (k : K) → has d k ≡ false → occurs d k ≡ 0
  unfolding has
  occurs_of_has-false d k h = occurs_of_get-none d k (ground arith)

  -- Writing an entry keeps the keys distinct.
  pub occurs-put-le : (d : Dict K V) (k j : K) (v : V) → occurs d j ≤ 1 → occurs (put d k v) j ≤ 1
  occurs-put-le d k j v h =
      ground (arith, occurs-put d k j v, occurs_of_has-false d k, key.beq_iff k j)
