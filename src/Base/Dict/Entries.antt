-- ===== src/Base/Dict/Entries.antt =====
-- The entries of a dictionary whose keys are distinct, and lists of distinct items made of them.
use Prim.Native.Nat.{◌≤◌}
use Prim.Native.String.{String}
use mathlib.Core.Path.{◌≡◌, sym, ◌∙◌, subst}
use mathlib.Core.Logic.{◌≢◌, inl, inr}
use mathlib.Core.Bool.{Bool, true}
use mathlib.Core.Option.{some}
use mathlib.Core.List.{List, [], ◌∷◌}
use text.Mathlib.TextEquality.{eq_iff}
use native.Mathlib.Omega.{arith}
use flowhunt_voicebot.Base.Tests.{Bool-cases}
use flowhunt_voicebot.Base.Lists.{All, keep}
use flowhunt_voicebot.Base.Keys.{Key, ◌==◌, text_key}
use flowhunt_voicebot.Base.Sorting.{sorted, insert_sorted, sorted-All, insert_sorted-All}
use flowhunt_voicebot.Base.Dict.{Dict, values, get, occurs, occurs-pos_of_get}

module _ {ℓ κ} {K : Type ℓ} {V : Type κ} ⦃key : Key K⦄ where
  All-within :
      (all d : Dict K V)
      → ((k : K) (v : V) → get d k ≡ some v → get all k ≡ some v)
      → ((k : K) → occurs d k ≤ 1)
      → All (λ e. get all e.0 ≡ some e.1) d
  unfolding get occurs
  All-within all [] within once = tt
  All-within all ((j, w) ∷ d) within once = (
    within j w (ground (arith, key.beq_iff j j)),
    All-within all d
        (λ k v found.
          within k v
            (ground (arith, found, once k, occurs-pos_of_get d k v found, key.beq_iff j k)))
        (λ k. ground (arith, once k)),
  )

  -- Each entry is the one that is found under its key.
  pub All-get_self : (d : Dict K V) → ((k : K) → occurs d k ≤ 1) → All (λ e. get d e.0 ≡ some e.1) d
  All-get_self d once = All-within d d (λ k v found. found) once

  pub All-ne_of_occurs : (d : Dict K V) (k : K) → occurs d k ≡ 0 → All (λ e. e.0 ≢ k) d
  unfolding occurs
  All-ne_of_occurs [] k h = tt
  All-ne_of_occurs ((j, w) ∷ d) k h = (
    (λ same. absurd (ground (arith, h, (key.beq_iff j k).1 same))),
    All-ne_of_occurs d k (ground (arith, h)),
  )

  pub All-values_get {μ} :
      (P : V → Type μ) (d : Dict K V) (k : K) (v : V) → get d k ≡ some v → All P (values d) → P v
  unfolding get
  All-values_get P [] k v found h = cc
  All-values_get P ((j, w) ∷ d) k v found h = elim (Bool-cases (j == k)) [
    | inl hit ↦ subst P (ground (arith, rw (hit, get) at found)) h.0
    | inr miss ↦ All-values_get P d k v (rw (miss, get) at found) h.1
  ]

  pub All-values {μ ν} :
      (P : K × V → Type μ) (Q : V → Type ν) (d : Dict K V)
      → ((e : K × V) → P e → Q e.1)
      → All P d
      → All Q (values d)
  All-values P Q [] f h = tt
  All-values P Q (e ∷ d) f h = (f e h.0, All-values P Q d f h.1)

module _ {ℓ μ} {A : Type ℓ} (P : A → Type μ) where
  pub All-keep : (p : A → Bool) (xs : List A) → All P xs → All P (keep p xs)
  All-keep p [] h = tt
  All-keep p (x ∷ xs) h = elim (Bool-cases (p x)) [
    | inl e ↦ rw e (h.0, All-keep p xs h.1)
    | inr e ↦ rw e (All-keep p xs h.1)
  ]

  pub All-of-keep :
      (p : A → Bool) (xs : List A) → All P (keep p xs) → All (λ x. p x ≡ true → P x) xs
  All-of-keep p [] h = tt
  All-of-keep p (x ∷ xs) h = elim (Bool-cases (p x)) [
    | inl e ↦ let (first, rest) = rw e at h in (λ _. first, All-of-keep p xs rest)
    | inr e ↦ (λ kept. cc (kept, e), All-of-keep p xs (rw e at h))
  ]

  All-of-insert :
      (before : A → A → Bool) (x : A) (xs : List A)
      → All P (insert_sorted before x xs)
      → P x × All P xs
  unfolding insert_sorted
  All-of-insert before x [] h = h
  All-of-insert before x (y ∷ ys) h = elim (Bool-cases (before y x)) [
    | inl e ↦
        let (first, rest) = rw e at h in
        let (this, others) = All-of-insert before x ys rest in (this, (first, others))
    | inr e ↦ rw e at h
  ]

  pub All-of-sorted : (before : A → A → Bool) (xs : List A) → All P (sorted before xs) → All P xs
  unfolding sorted
  All-of-sorted before [] h = tt
  All-of-sorted before (x ∷ xs) h =
      let (this, others) = All-of-insert before x (sorted before xs) h in
      (this, All-of-sorted before xs others)

pub All-both {ℓ μ ν} :
    {A : Type ℓ} (P : A → Type μ) (Q : A → Type ν) (xs : List A)
    → All P xs
    → All Q xs
    → All (λ x. P x × Q x) xs
All-both P Q [] h g = tt
All-both P Q (x ∷ xs) h g = ((h.0, g.0), All-both P Q xs h.1 g.1)

-- Items of which no two have the same key.
module _ {ℓ} {A : Type ℓ} (f : A → String) where
  abbrev pub Distinct : List A → Type 0
  Distinct [] = Unit
  Distinct (x ∷ xs) = All (λ y. f y ≢ f x) xs × Distinct xs

  pub Distinct-keep : (p : A → Bool) (xs : List A) → Distinct xs → Distinct (keep p xs)
  Distinct-keep p [] h = tt
  Distinct-keep p (x ∷ xs) h = elim (Bool-cases (p x)) [
    | inl e ↦ rw e (All-keep (λ y. f y ≢ f x) p xs h.0, Distinct-keep p xs h.1)
    | inr e ↦ rw e (Distinct-keep p xs h.1)
  ]

  pub All-turned : (x : A) (xs : List A) → All (λ y. f y ≢ f x) xs → All (λ y. f x ≢ f y) xs
  All-turned x [] h = tt
  All-turned x (y ∷ ys) h = (λ e. h.0 (sym e), All-turned x ys h.1)

  Distinct-insert :
      (before : A → A → Bool) (x : A) (xs : List A)
      → All (λ y. f y ≢ f x) xs
      → Distinct xs
      → Distinct (insert_sorted before x xs)
  unfolding insert_sorted
  Distinct-insert before x [] new h = (tt, tt)
  Distinct-insert before x (y ∷ ys) new h = elim (Bool-cases (before y x)) [
    | inl e ↦ rw e (
      insert_sorted-All before (λ z. f z ≢ f y) x ys (λ same. new.0 (sym same)) h.0,
      Distinct-insert before x ys new.1 h.1,
    )
    | inr e ↦ rw e (new, h)
  ]

  pub Distinct-sorted :
      (before : A → A → Bool) (xs : List A) → Distinct xs → Distinct (sorted before xs)
  unfolding sorted
  Distinct-sorted before [] h = tt
  Distinct-sorted before (x ∷ xs) h =
      Distinct-insert before x (sorted before xs) (sorted-All before (λ y. f y ≢ f x) xs h.0)
        (Distinct-sorted before xs h.1)

  All-named :
      (d : Dict String A) (k : String)
      → All (λ e. f e.1 ≡ e.0) d
      → All (λ e. e.0 ≢ k) d
      → All (λ y. f y ≢ k) (values d)
  All-named [] k keyed other = tt
  All-named (e ∷ d) k keyed other =
      (λ same. other.0 (sym keyed.0 ∙ same), All-named d k keyed.1 other.1)

  -- The values of a dictionary, each under its own key.
  pub Distinct-values :
      (d : Dict String A)
      → All (λ e. f e.1 ≡ e.0) d
      → ((k : String) → occurs d k ≤ 1)
      → Distinct (values d)
  unfolding occurs
  Distinct-values [] keyed once = tt
  Distinct-values ((j, w) ∷ d) keyed once =
      let absent : occurs d j ≡ 0 = ground (arith, once j, eq_iff j j) in
      (
        subst (λ k. All (λ y. f y ≢ k) (values d)) (sym keyed.0)
            (All-named d j keyed.1 (All-ne_of_occurs d j absent)),
        Distinct-values d keyed.1 (λ k. ground (arith, once k)),
      )
