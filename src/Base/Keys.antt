-- ===== src/Base/Keys.antt =====
-- Python's `==` on the types that are dictionary keys, as an interface with instances.
use Prim.Native.Nat.{ℕ}
use Prim.Native.String.{String}
use mathlib.Core.Path.{◌≡◌}
use mathlib.Core.Logic.{◌↔◌}
use mathlib.Core.Bool.{Bool, true, false, ◌&&◌}
use mathlib.Core.Option.{Option, none, some}
use native.Mathlib.Omega.{arith}
use text.Mathlib.Text.{◌==◌ as text_same}
use text.Mathlib.TextEquality.{eq_iff}
use flowhunt_voicebot.Base.Tests.{eqb, eqb_iff}

pub record Key {ℓ} (K : Type ℓ) : Type ℓ where
  pub beq : K → K → Bool
  pub beq_iff : (a b : K) → (beq a b ≡ true) ↔ (a ≡ b)

infix 50 ◌==◌
abbrev pub ◌==◌ {ℓ} : {K : Type ℓ} ⦃k : Key K⦄ → K → K → Bool
◌==◌ ⦃k⦄ = k.beq

instance abbrev pub nat_key : Key ℕ
nat_key = record { beq = eqb; beq_iff = eqb_iff }

instance abbrev pub text_key : Key String
text_key = record { beq = text_same; beq_iff = eq_iff }

-- `key == key` holds.
pub beq_refl {ℓ} : {K : Type ℓ} ⦃k : Key K⦄ (a : K) → k.beq a a ≡ true
beq_refl ⦃k⦄ a = (k.beq_iff a a).1 (λ i. a)

-- `==` on texts that may be `None`.
abbrev pub same_option : Option String → Option String → Bool
same_option none none = true
same_option (some a) (some b) = text_same a b
same_option _ _ = false

pub same_option_iff : (a b : Option String) → (same_option a b ≡ true) ↔ (a ≡ b)
same_option_iff none none = ground arith
same_option_iff none (some b) = ground arith
same_option_iff (some a) none = ground arith
same_option_iff (some a) (some b) = ground (arith, eq_iff a b)

instance abbrev pub option_key : Key (Option String)
option_key = record { beq = same_option; beq_iff = same_option_iff }

-- Tuples compare part by part.
abbrev pub same_pair {ℓ κ} :
    {A : Type ℓ} {B : Type κ} ⦃a : Key A⦄ ⦃b : Key B⦄ → A × B → A × B → Bool
same_pair ⦃a⦄ ⦃b⦄ (x, y) (u, v) = a.beq x u && b.beq y v

pub same_pair_iff {ℓ κ} :
    {A : Type ℓ} {B : Type κ} ⦃a : Key A⦄ ⦃b : Key B⦄ (p q : A × B)
    → (same_pair p q ≡ true) ↔ (p ≡ q)
same_pair_iff ⦃a⦄ ⦃b⦄ (x, y) (u, v) = ground (arith, a.beq_iff x u, b.beq_iff y v)

instance abbrev pub pair_key {ℓ κ} : {A : Type ℓ} {B : Type κ} ⦃a : Key A⦄ ⦃b : Key B⦄ → Key (A × B)
pair_key = record { beq = same_pair; beq_iff = same_pair_iff }
