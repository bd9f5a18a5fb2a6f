-- ===== src/Memory/Bounds.antt =====
-- The words that are read of a process.
use gc_scope.Base.{
  ℕ, zero, suc, ◌^◌, ◌<◌, ◌≡◌, some, List, [], ◌∷◌, take, Option-cases, inl, inr, All, arith,
}
use native.Mathlib.Nat.{one-le-pow, pow-suc}
use mathlib.Core.Path.{subst}
use gc_scope.Base.Word.{u64_mod, from_le_bytes}
use gc_scope.Memory.{Machine, read_memory_h, read_u64_h}

-- The value of at most `n` bytes.
pub from_le_bytes-bounded :
    (n : ℕ) (bytes : List ℕ) → All (λ b. b < 256) bytes → from_le_bytes (take n bytes) < 256 ^ n
unfolding from_le_bytes
from_le_bytes-bounded zero bytes h = omega arith
from_le_bytes-bounded (suc n) [] h = one-le-pow (suc n) 256 (omega arith)
from_le_bytes-bounded (suc n) (b ∷ bytes) h =
    let rest = from_le_bytes-bounded n bytes h.1 in
    let p = pow-suc 256 n in let b_lt = h.0 in omega (arith, rest, p, b_lt)

-- What is copied of a process is bytes.
abbrev pub CopiesBytes : {H : Type 0} → Machine H → Type 0
CopiesBytes {H} m =
    (handle : H) (addr size : ℕ) (bytes : List ℕ)
    → m.copy_address handle addr size ≡ some bytes
    → All (λ b. b < 256) bytes

pub read_u64_h-bounded :
    {H : Type 0} (m : Machine H)
    → CopiesBytes m
    → (handle : H) (addr w : ℕ) → read_u64_h m handle addr ≡ some w
    → w < u64_mod
unfolding read_u64_h read_memory_h
read_u64_h-bounded m copies handle addr w h = elim (Option-cases (m.copy_address handle addr 8)) [
  | inl unread ↦ absurd (ground (arith, h, unread))
  | inr (bytes, copied) ↦
      let is : from_le_bytes (take 8 bytes) ≡ w = ground (arith, h, copied) in
      subst (λ x. x < u64_mod) is
        (from_le_bytes-bounded 8 bytes (copies handle addr 8 bytes copied))
]
