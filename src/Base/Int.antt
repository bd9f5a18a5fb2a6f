-- ===== src/Base/Int.antt =====
-- Signed integers over the native numbers, under the library's names (its ℤ stands on the unary
-- ℕ), and the 64-bit two's-complement integers of Rust's `i64` with their wrap-around.
use gc_scope.Base.Tests.{ltb, leb, ◌==◌, if◌then◌else◌}
use Prim.Native.Nat.{ℕ, suc, ◌+◌, ◌-◌, ◌%◌, ◌^◌, ◌≤◌, ◌<◌}
use mathlib.Core.Path.{◌≡◌}
use mathlib.Core.Logic.{◌↔◌}
use mathlib.Core.Bool.{Bool, true}
use native.Mathlib.Omega.{arith}

-- `negsuc n` is -(n + 1).
pub data ℤ : Type 0 where
  pos : ℕ → ℤ
  negsuc : ℕ → ℤ

abbrev pub pos_part : ℤ → ℕ
pos_part (pos n) = n
pos_part (negsuc n) = 0

abbrev pub neg_part : ℤ → ℕ
neg_part (pos n) = 0
neg_part (negsuc n) = suc n

-- a - b, as an integer.
abbrev pub sub_ℕ : ℕ → ℕ → ℤ
sub_ℕ a b = if leb b a then pos (a - b) else negsuc (b - a - 1)

infixl 65 ◌+ℤ◌ ◌-ℤ◌
infix 50 ◌≤ℤ◌ ◌<ℤ◌
unfoldable pub ◌+ℤ◌ : ℤ → ℤ → ℤ
a +ℤ b = sub_ℕ (pos_part a + pos_part b) (neg_part a + neg_part b)

unfoldable pub ◌-ℤ◌ : ℤ → ℤ → ℤ
a -ℤ b = sub_ℕ (pos_part a + neg_part b) (neg_part a + pos_part b)

abbrev pub ◌≤ℤ◌ : ℤ → ℤ → Type 0
a ≤ℤ b = pos_part a + neg_part b ≤ pos_part b + neg_part a

abbrev pub ◌<ℤ◌ : ℤ → ℤ → Type 0
a <ℤ b = pos_part a + neg_part b < pos_part b + neg_part a

abbrev pub ltb_ℤ : ℤ → ℤ → Bool
ltb_ℤ a b = ltb (pos_part a + neg_part b) (pos_part b + neg_part a)

abbrev pub leb_ℤ : ℤ → ℤ → Bool
leb_ℤ a b = leb (pos_part a + neg_part b) (pos_part b + neg_part a)

abbrev pub eqb_ℤ : ℤ → ℤ → Bool
eqb_ℤ a b = (pos_part a + neg_part b) == (pos_part b + neg_part a)

abbrev pub max_ℤ : ℤ → ℤ → ℤ
max_ℤ a b = if leb_ℤ a b then b else a

-- One lemma for each operation lets `omega` work with the operations shut, at any depth.
pub +ℤ_parts :
    (a b : ℤ)
    → pos_part (a +ℤ b) + neg_part a + neg_part b ≡ neg_part (a +ℤ b) + pos_part a + pos_part b
unfolding ◌+ℤ◌
+ℤ_parts a b = ground arith

pub -ℤ_parts :
    (a b : ℤ)
    → pos_part (a -ℤ b) + neg_part a + pos_part b ≡ neg_part (a -ℤ b) + pos_part a + neg_part b
unfolding ◌-ℤ◌
-ℤ_parts a b = ground arith

pub eq_of_parts : (a b : ℤ) → pos_part a + neg_part b ≡ pos_part b + neg_part a → a ≡ b
eq_of_parts a b h = ground arith

pub eqb_ℤ_iff : (a b : ℤ) → (eqb_ℤ a b ≡ true) ↔ (a ≡ b)
eqb_ℤ_iff a b = (λ h. eq_of_parts a b (ground arith), λ h. ground arith)

pub ruleset int_laws = (arith, +ℤ_parts, -ℤ_parts, eq_of_parts)

abbrev pub i64_mod : ℕ
i64_mod = 2 ^ 64

abbrev pub i64_half : ℕ
i64_half = 2 ^ 63

-- The range of `i64`.
abbrev pub InI64 : ℤ → Type 0
InI64 z = (neg_part z ≤ i64_half) × (pos_part z < i64_half)

-- The two's-complement bit pattern of an integer.
unfoldable pub to_bits : ℤ → ℕ
to_bits (pos n) = n % i64_mod
to_bits (negsuc n) = i64_mod - 1 - n % i64_mod

-- `v as i64` on a `u64`.
unfoldable pub as_i64 : ℕ → ℤ
as_i64 v = let w = v % i64_mod in if ltb w i64_half then pos w else negsuc (i64_mod - 1 - w)

-- What a 64-bit register keeps of an integer.
unfoldable pub wrap_i64 : ℤ → ℤ
unfolding to_bits as_i64
wrap_i64 z = as_i64 (to_bits z)

-- `a + b` and `a - b` of `i64` in a release build.
unfoldable pub add_i64 : ℤ → ℤ → ℤ
add_i64 a b = wrap_i64 (a +ℤ b)

unfoldable pub sub_i64 : ℤ → ℤ → ℤ
sub_i64 a b = wrap_i64 (a -ℤ b)

pub InI64-as_i64 : (v : ℕ) → InI64 (as_i64 v)
unfolding as_i64
InI64-as_i64 v = ground arith

pub InI64-wrap_i64 : (z : ℤ) → InI64 (wrap_i64 z)
unfolding wrap_i64
InI64-wrap_i64 z = InI64-as_i64 (to_bits z)

pub wrap_i64_id : (z : ℤ) → InI64 z → wrap_i64 z ≡ z
unfolding wrap_i64
wrap_i64_id (pos n) h = ground arith
wrap_i64_id (negsuc n) h = ground arith

pub as_i64_small : (v : ℕ) → v < i64_half → as_i64 v ≡ pos v
unfolding as_i64
as_i64_small v h = ground arith

-- In range the wrapped operations are the exact ones.
pub add_i64_exact : (a b : ℤ) → InI64 (a +ℤ b) → add_i64 a b ≡ a +ℤ b
unfolding add_i64
add_i64_exact a b h = wrap_i64_id (a +ℤ b) h

pub sub_i64_exact : (a b : ℤ) → InI64 (a -ℤ b) → sub_i64 a b ≡ a -ℤ b
unfolding sub_i64
sub_i64_exact a b h = wrap_i64_id (a -ℤ b) h

pub InI64-intro : (z : ℤ) → negsuc (i64_half - 1) ≤ℤ z → z ≤ℤ pos (i64_half - 1) → InI64 z
InI64-intro (pos n) lo hi = omega arith
InI64-intro (negsuc n) lo hi = omega arith

-- Between two values of the non-negative half a difference that falls does not overflow.
pub sub_i64_le : (a b : ℤ) → pos 0 ≤ℤ b → b ≤ℤ a → a ≤ℤ pos (i64_half - 1) → sub_i64 a b ≡ a -ℤ b
sub_i64_le a b low order high =
    sub_i64_exact a b (InI64-intro (a -ℤ b) (omega int_laws) (omega int_laws))

pub add_i64_le :
    (a b : ℤ) → pos 0 ≤ℤ a → pos 0 ≤ℤ b → a +ℤ b ≤ℤ pos (i64_half - 1) → add_i64 a b ≡ a +ℤ b
add_i64_le a b low low' high = add_i64_exact a b (InI64-intro (a +ℤ b) (omega int_laws) high)

pub InI64-lt : (z : ℤ) → InI64 z → z ≤ℤ pos (i64_half - 1)
InI64-lt z h = omega arith
