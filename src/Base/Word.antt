-- ===== src/Base/Word.antt =====
-- Unsigned machine words: `u64` counters and little-endian byte strings.
use Prim.Native.Nat.{ℕ, ◌+◌, ◌*◌, ◌%◌, ◌^◌}
use mathlib.Core.List.{List, [], ◌∷◌}

abbrev pub u64_mod : ℕ
u64_mod = 2 ^ 64

-- `x += 1` on a `u64`, in a release build.
abbrev pub succ_u64 : ℕ → ℕ
succ_u64 n = (n + 1) % u64_mod

-- `uN::from_le_bytes`.
unfoldable pub from_le_bytes : List ℕ → ℕ
from_le_bytes [] = 0
from_le_bytes (b ∷ bs) = b + 256 * from_le_bytes bs

-- Sums and products of `u64` and of a 64-bit `usize`, in a release build.
abbrev pub add_u64 : ℕ → ℕ → ℕ
add_u64 a b = (a + b) % u64_mod

abbrev pub mul_u64 : ℕ → ℕ → ℕ
mul_u64 a b = (a * b) % u64_mod
