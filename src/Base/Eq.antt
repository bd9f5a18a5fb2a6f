-- ===== src/Base/Eq.antt =====
-- The interface of a key with a Boolean equality test (Rust's `Eq`), and the keys in use.
use gc_scope.Base.Tests.{◌==◌, ==_iff}
use gc_scope.Base.Int.{ℤ, eqb_ℤ, eqb_ℤ_iff}
use Prim.Native.Nat.{ℕ}
use mathlib.Core.Path.{◌≡◌, refl}
use mathlib.Core.Logic.{◌↔◌}
use mathlib.Core.Bool.{Bool, true, ◌&&◌}
use native.Mathlib.Omega.{arith}

pub record Eq {ℓ} (A : Type ℓ) : Type ℓ where
  pub beq : A → A → Bool
  pub beq_iff : (a b : A) → (beq a b ≡ true) ↔ (a ≡ b)

module _ {ℓ} {A : Type ℓ} ⦃e : Eq A⦄ where
  pub beq_refl : (a : A) → e.beq a a ≡ true
  beq_refl a = (e.beq_iff a a).1 refl

instance abbrev pub nat_eq : Eq ℕ
nat_eq = record { beq = ◌==◌; beq_iff = ==_iff }

instance abbrev pub int_eq : Eq ℤ
int_eq = record { beq = eqb_ℤ; beq_iff = eqb_ℤ_iff }

-- A pid and an interpreter id.
abbrev pub pair_beq : ℕ × ℤ → ℕ × ℤ → Bool
pair_beq a b = a.0 == b.0 && eqb_ℤ a.1 b.1

pub pair_beq_iff : (a b : ℕ × ℤ) → (pair_beq a b ≡ true) ↔ (a ≡ b)
pair_beq_iff a b = (
  λ h. ground (arith, eqb_ℤ_iff a.1 b.1, ==_iff a.0 b.0),
  λ h. ground (arith, eqb_ℤ_iff a.1 b.1, ==_iff a.0 b.0),
)

instance abbrev pub pair_eq : Eq (ℕ × ℤ)
pair_eq = record { beq = pair_beq; beq_iff = pair_beq_iff }

-- A pid and a version.
abbrev pub nats_beq : ℕ × ℕ → ℕ × ℕ → Bool
nats_beq a b = a.0 == b.0 && a.1 == b.1

pub nats_beq_iff : (a b : ℕ × ℕ) → (nats_beq a b ≡ true) ↔ (a ≡ b)
nats_beq_iff a b = (
  λ h. ground (arith, ==_iff a.0 b.0, ==_iff a.1 b.1),
  λ h. ground (arith, ==_iff a.0 b.0, ==_iff a.1 b.1),
)

instance abbrev pub nats_eq : Eq (ℕ × ℕ)
nats_eq = record { beq = nats_beq; beq_iff = nats_beq_iff }
