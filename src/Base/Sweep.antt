-- ===== src/Base/Sweep.antt =====
-- The loop by which the stores drop what has run out: `for key, value in list(d.items())`, with
-- `d.pop(key, None)` for each value that a test finds dead.
use Prim.Native.Nat.{◌≤◌}
use mathlib.Core.Path.{◌≡◌, refl, ap, ◌∙◌}
use mathlib.Core.Logic.{inl, inr}
use mathlib.Core.Bool.{Bool, true, false}
use mathlib.Core.Option.{Option, none, some}
use mathlib.Core.List.{List, [], ◌∷◌}
use native.Mathlib.Omega.{arith}
use flowhunt_voicebot.Base.Tests.{if◌then◌else◌, Bool-cases, Option-cases}
use flowhunt_voicebot.Base.Keys.{Key, ◌==◌}
use flowhunt_voicebot.Base.Lists.{All}
use flowhunt_voicebot.Base.Dict
use flowhunt_voicebot.Base.Dict.{Dict}

-- What a sweep leaves of an entry.
abbrev pub survives {κ} : {V : Type κ} → (V → Bool) → Option V → Option V
survives dead none = none
survives dead (some v) = if dead v then none else some v

module _ {ℓ κ} {K : Type ℓ} {V : Type κ} ⦃key : Key K⦄ where
  unfoldable pub sweep_loop : (V → Bool) → Dict K V → Dict K V → List V × Dict K V
  sweep_loop dead [] d = ([], d)
  sweep_loop dead ((k, v) ∷ rest) d = elim (dead v) [
    | false ↦ sweep_loop dead rest d
    | true ↦ let (vs, d') = sweep_loop dead rest (Dict.pop d k) in (v ∷ vs, d')
  ]

  -- The values dropped, and the dict that is left.
  unfoldable pub sweep : (V → Bool) → Dict K V → List V × Dict K V
  unfolding sweep_loop
  sweep dead d = sweep_loop dead d d

  sweep_loop-absent :
      (dead : V → Bool) (l d : Dict K V) (k : K)
      → Dict.get d k ≡ none
      → Dict.get (sweep_loop dead l d).1 k ≡ none
  unfolding sweep_loop
  sweep_loop-absent dead [] d k h = h
  sweep_loop-absent dead ((j, v) ∷ l) d k h = elim (Bool-cases (dead v)) [
    | inr live ↦ rw (live, sweep_loop) (sweep_loop-absent dead l d k h)
    | inl over ↦
        rw (over, sweep_loop)
          (sweep_loop-absent dead l (Dict.pop d j) k (ground (arith, Dict.get-pop d j k)))
  ]

  sweep_loop-live :
      (dead : V → Bool) (l d : Dict K V) (k : K) (v : V)
      → All (λ e. e.0 ≡ k → e.1 ≡ v) l
      → dead v ≡ false
      → Dict.get (sweep_loop dead l d).1 k ≡ Dict.get d k
  unfolding sweep_loop
  sweep_loop-live dead [] d k v same live = refl
  sweep_loop-live dead ((j, x) ∷ l) d k v same live = elim (Bool-cases (dead x)) [
    | inr on ↦ rw (on, sweep_loop) (sweep_loop-live dead l d k v same.1 live)
    | inl over ↦ elim (Bool-cases (j == k)) [
      | inl hit ↦
          let is_v : x ≡ v = same.0 ((key.beq_iff j k).0 hit) in
          absurd (cc (over, live, ap dead is_v))
      | inr other ↦
          rw (over, sweep_loop)
            (sweep_loop-live dead l (Dict.pop d j) k v same.1 live
              ∙ ground (arith, Dict.get-pop d j k))
    ]
  ]

  sweep_loop-dead :
      (dead : V → Bool) (l d : Dict K V) (k : K) (v : V)
      → Dict.get l k ≡ some v
      → dead v ≡ true
      → Dict.get (sweep_loop dead l d).1 k ≡ none
  unfolding sweep_loop Dict.get
  sweep_loop-dead dead [] d k v held over = cc
  sweep_loop-dead dead ((j, x) ∷ l) d k v held over = elim (Bool-cases (j == k)) [
    | inl hit ↦
        let is_v : x ≡ v = cc (rw (hit, Dict.get) at held) in
        let gone : dead x ≡ true = ap dead is_v ∙ over in
        rw (gone, sweep_loop)
          (sweep_loop-absent dead l (Dict.pop d j) k (ground (arith, Dict.get-pop d j k)))
    | inr other ↦
        let held' = rw (other, Dict.get) at held in
        elim (Bool-cases (dead x)) [
          | inr on ↦ rw (on, sweep_loop) (sweep_loop-dead dead l d k v held' over)
          | inl gone ↦ rw (gone, sweep_loop) (sweep_loop-dead dead l (Dict.pop d j) k v held' over)
        ]
  ]

  sweep_loop-occurs :
      (dead : V → Bool) (l d : Dict K V) (k : K)
      → Dict.occurs (sweep_loop dead l d).1 k ≤ Dict.occurs d k
  unfolding sweep_loop
  sweep_loop-occurs dead [] d k = omega arith
  sweep_loop-occurs dead ((j, x) ∷ l) d k = elim (Bool-cases (dead x)) [
    | inr on ↦ rw (on, sweep_loop) (sweep_loop-occurs dead l d k)
    | inl gone ↦
        rw (gone, sweep_loop)
          (ground (arith, sweep_loop-occurs dead l (Dict.pop d j) k, Dict.occurs-pop d j k))
  ]

  pub get-sweep :
      (dead : V → Bool) (d : Dict K V) (k : K)
      → Dict.occurs d k ≤ 1
      → Dict.get (sweep dead d).1 k ≡ survives dead (Dict.get d k)
  unfolding sweep
  get-sweep dead d k once = elim (Option-cases (Dict.get d k)) [
    | inl free ↦ rw free (sweep_loop-absent dead d d k free)
    | inr (v, held) ↦ elim (Bool-cases (dead v)) [
      | inl over ↦ rw held (rw over (sweep_loop-dead dead d d k v held over))
      | inr live ↦
          rw held
            (rw live (sweep_loop-live dead d d k v (Dict.All-once d k v once held) live ∙ held))
    ]
  ]

  pub occurs-sweep-le :
      (dead : V → Bool) (d : Dict K V) (k : K)
      → Dict.occurs d k ≤ 1
      → Dict.occurs (sweep dead d).1 k ≤ 1
  unfolding sweep
  occurs-sweep-le dead d k h = omega (arith, sweep_loop-occurs dead d d k)
