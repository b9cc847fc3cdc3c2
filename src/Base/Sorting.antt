-- ===== src/Base/Sorting.antt =====
-- Python's `sorted`, which is stable, and the order of texts and of tuples.
use Prim.Native.Nat.{ℕ, ◌≤◌}
use Prim.Native.String
use Prim.Native.String.{String}
use mathlib.Core.Bool.{Bool}
use mathlib.Core.List.{List, [], ◌∷◌}
use text.Mathlib.Text.{is_lt}
use mathlib.Core.Logic.{inl, inr}
use native.Mathlib.Omega.{arith}
use flowhunt_voicebot.Base.Tests.{if◌then◌else◌, ltb, Bool-cases, ltb-false→le}
use flowhunt_voicebot.Base.Lists.{All}

-- `a < b`
abbrev pub text_lt : String → String → Bool
text_lt a b = is_lt (String.compare a b)

module _ {ℓ} {A : Type ℓ} (before : A → A → Bool) where
  unfoldable pub insert_sorted : A → List A → List A
  insert_sorted x [] = x ∷ []
  insert_sorted x (y ∷ ys) =
      let rest = insert_sorted x ys in if before y x then y ∷ rest else x ∷ y ∷ ys

  -- An item goes before its equals that come later.
  unfoldable pub sorted : List A → List A
  unfolding insert_sorted
  sorted [] = []
  sorted (x ∷ xs) = insert_sorted x (sorted xs)

  pub insert_sorted-All :
      (Q : A → Type 0) (x : A) (xs : List A) → Q x → All Q xs → All Q (insert_sorted x xs)
  unfolding insert_sorted
  insert_sorted-All Q x [] h all = (h, tt)
  insert_sorted-All Q x (y ∷ ys) h all = elim (Bool-cases (before y x)) [
    | inl e ↦ rw e (all.0, insert_sorted-All Q x ys h all.1)
    | inr e ↦ rw e (h, all)
  ]

  pub sorted-All : (Q : A → Type 0) (xs : List A) → All Q xs → All Q (sorted xs)
  unfolding sorted
  sorted-All Q [] h = tt
  sorted-All Q (x ∷ xs) h = insert_sorted-All Q x (sorted xs) h.0 (sorted-All Q xs h.1)

-- `sorted(xs, key=f, reverse=True)`, which is stable too.
module _ {ℓ} {A : Type ℓ} (f : A → ℕ) where
  unfoldable pub sorted_down : List A → List A
  unfolding sorted
  sorted_down xs = sorted (λ a b. ltb (f b) (f a)) xs

  abbrev pub IsTop : List A → List A → Type 0
  IsTop xs [] = All (λ x. ⊥) xs
  IsTop xs (top ∷ rest) = All (λ x. f x ≤ f top) xs

  All-le : (a b : A) (xs : List A) → f a ≤ f b → All (λ x. f x ≤ f a) xs → All (λ x. f x ≤ f b) xs
  All-le a b [] h all = tt
  All-le a b (x ∷ xs) h all = (omega (arith, all.0), All-le a b xs h all.1)

  All-nil : (P : A → Type 0) (xs : List A) → All (λ x. ⊥) xs → All P xs
  All-nil P [] h = tt
  All-nil P (x ∷ xs) h = absurd h.0

  IsTop-insert :
      (x : A) (xs ys : List A)
      → IsTop xs ys
      → IsTop (x ∷ xs) (insert_sorted (λ a b. ltb (f b) (f a)) x ys)
  unfolding insert_sorted
  IsTop-insert x xs [] h = (omega arith, All-nil (λ v. f v ≤ f x) xs h)
  IsTop-insert x xs (y ∷ ys) h = elim (Bool-cases (ltb (f x) (f y))) [
    | inl less ↦ rw less (ground arith, h)
    | inr more ↦ rw more (omega arith, All-le y x xs (ltb-false→le (f x) (f y) more) h)
  ]

  -- The first item has the greatest key.
  pub sorted_down-IsTop : (xs : List A) → IsTop xs (sorted_down xs)
  unfolding sorted_down sorted
  sorted_down-IsTop [] = tt
  sorted_down-IsTop (x ∷ xs) =
      IsTop-insert x xs (sorted (λ a b. ltb (f b) (f a)) xs) (sorted_down-IsTop xs)

  pub sorted_down-All : (Q : A → Type 0) (xs : List A) → All Q xs → All Q (sorted_down xs)
  unfolding sorted_down
  sorted_down-All Q xs h = sorted-All (λ a b. ltb (f b) (f a)) Q xs h
