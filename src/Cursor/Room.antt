-- ===== src/Cursor/Room.antt =====
-- While a process stays within the bound on interpreters, no accumulator is dropped.
use gc_scope.Base.{
  ℕ, ◌+◌, ◌≤◌, ◌<◌, ◌≡◌, refl, Bool, true, false, not, List, [], ◌∷◌, arith, ltb, is_some, length,
  Bool-cases, ==_iff, inl, inr, any, keep,
}
use gc_scope.Base.Int.{ℤ, eqb_ℤ, eqb_ℤ_iff}
use gc_scope.Base.Eq.{nat_eq, int_eq, pair_eq}
use gc_scope.Base.Map.{lookup, insert, lookup-insert, length-insert}
use gc_scope.Cursor.Kept.{kept_of-see}
use gc_scope.Cursor.Invariant.{is_kept}
use gc_scope.Cursor.Defs.{Cursor, kept_of, see, max_retained_interpreters, retain}

abbrev pub named : ℤ → List ℤ → Bool
named i ids = any (λ j. eqb_ℤ j i) ids

-- How many of `ids` the set does not hold.
abbrev pub missing : List (ℤ × ℕ) → List ℤ → ℕ
missing kept ids = length (keep (λ j. not (is_some (lookup j kept))) ids)

-- The process's interpreters, those kept and those named, are within the bound.
abbrev pub HasRoom : {F : Type 0} → Cursor F → ℕ → List ℤ → Type 0
HasRoom c p ids = length (kept_of c p) + missing (kept_of c p) ids ≤ max_retained_interpreters

missing-le : (kept : List (ℤ × ℕ)) (ids : List ℤ) → missing kept ids ≤ length ids
missing-le kept [] = omega arith
missing-le kept (j ∷ ids) = ground (arith, missing-le kept ids)

missing_pos :
    (kept : List (ℤ × ℕ)) (i : ℤ) (ids : List ℤ)
    → named i ids ≡ true
    → is_some (lookup i kept) ≡ false
    → 1 ≤ missing kept ids
missing_pos kept i [] n h = cc
missing_pos kept i (j ∷ ids) n h = ground (arith, missing_pos kept i ids, eqb_ℤ_iff j i)

missing-insert_le :
    (i : ℤ) (poll : ℕ) (kept : List (ℤ × ℕ)) (ids : List ℤ)
    → missing (insert i poll kept) ids ≤ missing kept ids
missing-insert_le i poll kept [] = omega arith
missing-insert_le i poll kept (j ∷ ids) =
    ground (arith, missing-insert_le i poll kept ids, lookup-insert i j poll kept)

missing-insert_lt :
    (i : ℤ) (poll : ℕ) (kept : List (ℤ × ℕ)) (ids : List ℤ)
    → named i ids ≡ true
    → is_some (lookup i kept) ≡ false
    → missing (insert i poll kept) ids < missing kept ids
missing-insert_lt i poll kept [] n h = cc
missing-insert_lt i poll kept (j ∷ ids) n h = ground (
  arith,
  missing-insert_lt i poll kept ids,
  missing-insert_le i poll kept ids,
  lookup-insert i j poll kept,
  eqb_ℤ_iff j i,
)

module _ {F : Type 0} (p : ℕ) (i : ℤ) (ids : List ℤ) (c : Cursor F) where
  -- With room, `retain` only marks the interpreter seen.
  pub retain-see : HasRoom c p ids → named i ids ≡ true → retain p i c ≡ see p i (kept_of c p) c
  unfolding retain
  retain-see room n = elim (Bool-cases (is_kept c p i)) [
    | inl old ↦ rw old
    | inr new ↦
        let below : ltb (length (kept_of c p)) max_retained_interpreters ≡ true =
          ground (arith, missing_pos (kept_of c p) i ids n new) in
        rw (new, below)
  ]

  pub retain-HasRoom : HasRoom c p ids → named i ids ≡ true → HasRoom (retain p i c) p ids
  retain-HasRoom room n =
      rw (retain-see room n, kept_of-see p i (kept_of c p) c p, (==_iff p p).1 refl)
        (elim (Bool-cases (is_kept c p i)) [
          | inl old ↦ ground (
            arith,
            length-insert i c.polls (kept_of c p),
            missing-insert_le i c.polls (kept_of c p) ids,
          )
          | inr new ↦ ground (
            arith,
            length-insert i c.polls (kept_of c p),
            missing-insert_lt i c.polls (kept_of c p) ids n new,
          )
        ])

-- A set and a list of ids that are within the bound together leave room.
pub HasRoom-intro :
    {F : Type 0} (c : Cursor F) (p : ℕ) (ids : List ℤ)
    → length (kept_of c p) + length ids ≤ max_retained_interpreters
    → HasRoom c p ids
HasRoom-intro c p ids h = omega (arith, missing-le (kept_of c p) ids)
