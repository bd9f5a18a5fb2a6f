-- ===== src/Cursor/Kept.antt =====
-- The set of retained interpreters of a process, under `see`, eviction and the choice of the
-- stalest.
use gc_scope.Base.{
  ℕ, ◌≤◌, ◌≡◌, refl, true, none, some, List, [], ◌∷◌, arith, ◌==◌, if◌then◌else◌, is_some, length,
  inl, inr, ◌⊎◌,
}
use gc_scope.Base.Int.{ℤ, eqb_ℤ}
use gc_scope.Base.Eq.{nat_eq, int_eq}
use gc_scope.Base.Map.{
  lookup, insert, remove, lookup-insert, lookup-remove, length-insert, length-remove,
}
use gc_scope.Cursor.Defs.{Cursor, kept_of, see, staler, stalest, stalest_of}

staler-cases : (best x : ℤ × ℕ) → (staler best x ≡ x) ⊎ (staler best x ≡ best)
unfolding staler
staler-cases best x = ground arith

-- A key found behind one of two entries is found behind both.
lookup-either :
    (k : ℤ) (y best x : ℤ × ℕ) (xs : List (ℤ × ℕ))
    → (y ≡ x) ⊎ (y ≡ best)
    → is_some (lookup k (y ∷ xs)) ≡ true
    → is_some (lookup k (best ∷ x ∷ xs)) ≡ true
unfolding lookup
lookup-either k y best x xs (inl e) h = ground arith
lookup-either k y best x xs (inr e) h = ground arith

stalest_of_step :
    (best x : ℤ × ℕ) (xs : List (ℤ × ℕ)) → stalest_of best (x ∷ xs) ≡ stalest_of (staler best x) xs
unfolding stalest_of
stalest_of_step best x xs = refl

lookup_here : (x : ℤ × ℕ) (xs : List (ℤ × ℕ)) → is_some (lookup x.0 (x ∷ xs)) ≡ true
unfolding lookup
lookup_here x xs = ground arith

stalest_of_nil : (best : ℤ × ℕ) → stalest_of best [] ≡ best.0
unfolding stalest_of
stalest_of_nil best = refl

stalest_of-kept :
    (best : ℤ × ℕ) (xs : List (ℤ × ℕ)) → is_some (lookup (stalest_of best xs) (best ∷ xs)) ≡ true
stalest_of-kept best [] = rw stalest_of_nil (lookup_here best [])
stalest_of-kept best (x ∷ xs) = rw stalest_of_step (
    lookup-either (stalest_of (staler best x) xs) (staler best x) best x xs (staler-cases best x)
      (stalest_of-kept (staler best x) xs))

-- The stalest interpreter is one of the set.
pub stalest-kept :
    (xs : List (ℤ × ℕ)) (old : ℤ) → stalest xs ≡ some old → is_some (lookup old xs) ≡ true
unfolding stalest
stalest-kept [] old h = cc
stalest-kept (x ∷ xs) old h = ground (arith, stalest_of-kept x xs)

pub stalest-full : (xs : List (ℤ × ℕ)) → 1 ≤ length xs → (old : ℤ) × (stalest xs ≡ some old)
unfolding stalest
stalest-full [] h = absurd (omega arith)
stalest-full (x ∷ xs) h = (stalest_of x xs, refl)

module _ {F : Type 0} where
  pub kept_of-see :
      (p : ℕ) (i : ℤ) (kept : List (ℤ × ℕ)) (c : Cursor F) (q : ℕ)
      → kept_of (see p i kept c) q ≡ (if p == q then insert i c.polls kept else kept_of c q)
  kept_of-see p i kept c q = rw lookup-insert (ground arith)

-- The set with one taken out and another put in.
abbrev pub swapped : ℤ → ℤ → ℕ → List (ℤ × ℕ) → List (ℤ × ℕ)
swapped old i poll kept = insert i poll (remove old kept)

pub length-swapped :
    (old i : ℤ) (poll : ℕ) (kept : List (ℤ × ℕ))
    → is_some (lookup old kept) ≡ true
    → length (swapped old i poll kept) ≤ length kept
length-swapped old i poll kept h =
    ground (arith, length-insert i poll (remove old kept), length-remove old kept h)

pub lookup-swapped :
    (old i j : ℤ) (poll : ℕ) (kept : List (ℤ × ℕ))
    → lookup j (swapped old i poll kept)
      ≡ (if eqb_ℤ i j then some poll else if eqb_ℤ old j then none else lookup j kept)
lookup-swapped old i j poll kept = rw (lookup-insert, lookup-remove)
