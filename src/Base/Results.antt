-- ===== src/Base/Results.antt =====
-- A Python call that may raise. Each error carries the message that the source writes.
use Prim.Native.String.{String}
use mathlib.Core.Path.{◌≡◌, refl}
use mathlib.Core.Bool.{Bool, true, false}
use mathlib.Core.List.{List, [], ◌∷◌}

pub data Error : Type 0 where
  value_error : String → Error
  key_error : String → Error
  other_error : String → Error

pub data Result {ℓ} (A : Type ℓ) : Type ℓ where
  ok : A → Result A
  err : Error → Result A

infixl 5 ◌>>=◌ ◌>>◌
abbrev pub ◌>>=◌ {ℓ κ} : {A : Type ℓ} {B : Type κ} → Result A → (A → Result B) → Result B
ok found >>= next = next found
err raised >>= next = err raised

abbrev pub ◌>>◌ {ℓ} : {A : Type ℓ} → Result (Unit {0}) → Result A → Result A
checked >> rest = checked >>= λ _. rest

-- `if test: raise ValueError(message)`.
abbrev pub raise_if : Bool → String → Result (Unit {0})
raise_if true message = err (value_error message)
raise_if false message = ok tt

-- The object after a method that may raise: a raise here comes before any write.
abbrev pub after {ℓ κ} : {A : Type ℓ} {S : Type κ} → S → Result (A × S) → S
after s (ok (a, t)) = t
after s (err e) = s

-- `for x in xs: f(x)`, for a check that raises or returns nothing.
abbrev pub check_all {ℓ} : {A : Type ℓ} → (A → Result (Unit {0})) → List A → Result (Unit {0})
check_all f [] = ok tt
check_all f (x ∷ xs) = f x >> check_all f xs

-- What holds before a call, and after it if it returns, holds after it.
pub after_keeps {ℓ κ μ} :
    {A : Type ℓ} {S : Type κ} (P : S → Type μ) (s : S) (o : Result (A × S))
    → P s
    → ((a : A) (t : S) → o ≡ ok (a, t) → P t)
    → P (after s o)
after_keeps P s (ok (a, t)) h step = step a t refl
after_keeps P s (err e) h step = h
