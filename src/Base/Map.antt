-- ===== src/Base/Map.antt =====
-- Rust's maps as association lists over a key equality. A `HashMap` keeps its entries in insertion
-- order here, a `BTreeMap` in the order of its keys. Lookup reads the first entry of a key, and
-- the laws hold of every list.
use gc_scope.Base.Tests.{Bool-cases, if◌then◌else◌, is_some}
use gc_scope.Base.Lists.{length, All}
use gc_scope.Base.Eq.{Eq}
use mathlib.Core.Path.{◌≡◌, refl, subst, ap₂}
use mathlib.Core.Bool.{Bool, true}
use mathlib.Core.Logic.{inl, inr}
use mathlib.Core.Option.{Option, none, some}
use mathlib.Core.List.{List, [], ◌∷◌}
use Prim.Native.Nat.{suc, ◌+◌, ◌≤◌}
use native.Mathlib.Omega.{arith}

module _ {ℓ} {K V : Type ℓ} ⦃e : Eq K⦄ where
  unfoldable pub lookup : K → List (K × V) → Option V
  lookup k [] = none
  lookup k ((j, v) ∷ m) = if e.beq j k then some v else lookup k m

  -- `HashMap::insert`: a new key goes to the end.
  unfoldable pub insert : K → V → List (K × V) → List (K × V)
  insert k v [] = (k, v) ∷ []
  insert k v ((j, w) ∷ m) = if e.beq j k then (k, v) ∷ m else (j, w) ∷ insert k v m

  -- `BTreeMap::insert`: a new key goes before the first greater one.
  unfoldable pub insert_sorted : (K → K → Bool) → K → V → List (K × V) → List (K × V)
  insert_sorted lt k v [] = (k, v) ∷ []
  insert_sorted lt k v ((j, w) ∷ m) =
      let rest = insert_sorted lt k v m in
      if e.beq j k then (k, v) ∷ m else if lt k j then (k, v) ∷ (j, w) ∷ m else (j, w) ∷ rest

  -- `retain(|key, _| test(key))`.
  unfoldable pub retain_keys : (K → Bool) → List (K × V) → List (K × V)
  retain_keys test [] = []
  retain_keys test ((j, v) ∷ m) =
      let rest = retain_keys test m in if test j then (j, v) ∷ rest else rest

  -- `remove`.
  unfoldable pub remove : K → List (K × V) → List (K × V)
  remove k [] = []
  remove k ((j, v) ∷ m) = let rest = remove k m in if e.beq j k then rest else (j, v) ∷ rest

  pub lookup-insert :
      (k j : K) (v : V) (m : List (K × V))
      → lookup j (insert k v m) ≡ (if e.beq k j then some v else lookup j m)
  unfolding lookup insert
  lookup-insert k j v [] = refl
  lookup-insert k j v ((i, w) ∷ m) =
      ground (arith, e.beq_iff k j, e.beq_iff i k, e.beq_iff i j, lookup-insert k j v m)

  pub lookup-insert_sorted :
      (lt : K → K → Bool) (k j : K) (v : V) (m : List (K × V))
      → lookup j (insert_sorted lt k v m) ≡ (if e.beq k j then some v else lookup j m)
  unfolding lookup insert_sorted
  lookup-insert_sorted lt k j v [] = refl
  lookup-insert_sorted lt k j v ((i, w) ∷ m) =
      ground (arith, e.beq_iff k j, e.beq_iff i k, e.beq_iff i j, lookup-insert_sorted lt k j v m)

  pub lookup-retain_keys :
      (test : K → Bool) (j : K) (m : List (K × V))
      → lookup j (retain_keys test m) ≡ (if test j then lookup j m else none)
  unfolding lookup retain_keys
  lookup-retain_keys test j [] = ground arith
  lookup-retain_keys test j ((i, w) ∷ m) =
      ground (arith, e.beq_iff i j, lookup-retain_keys test j m)

  pub lookup-remove :
      (k j : K) (m : List (K × V))
      → lookup j (remove k m) ≡ (if e.beq k j then none else lookup j m)
  unfolding lookup remove
  lookup-remove k j [] = ground arith
  lookup-remove k j ((i, w) ∷ m) =
      ground (arith, e.beq_iff i k, e.beq_iff i j, e.beq_iff k j, lookup-remove k j m)

  pub length-insert :
      (k : K) (v : V) (m : List (K × V))
      → length (insert k v m) ≡ (if is_some (lookup k m) then length m else length m + 1)
  unfolding lookup insert
  length-insert k v [] = ground arith
  length-insert k v ((i, w) ∷ m) = ground (arith, length-insert k v m)

  pub length-remove :
      (k : K) (m : List (K × V))
      → is_some (lookup k m) ≡ true
      → suc (length (remove k m)) ≤ length m
  unfolding lookup remove
  length-remove k [] h = ground arith
  length-remove k ((i, w) ∷ m) h = ground (arith, length-remove k m, length-remove_le k m)
    where
      length-remove_le : (k : K) (m : List (K × V)) → length (remove k m) ≤ length m
      length-remove_le k [] = omega arith
      length-remove_le k ((i, w) ∷ m) = ground (arith, length-remove_le k m)

  module _ {κ} (P : K × V → Type κ) where
    pub insert_sorted-All :
        (lt : K → K → Bool) (k : K) (v : V) (m : List (K × V))
        → P (k, v)
        → All P m
        → All P (insert_sorted lt k v m)
    unfolding insert_sorted
    insert_sorted-All lt k v [] p h = (p, tt)
    insert_sorted-All lt k v (x ∷ m) p h = elim (Bool-cases (e.beq x.0 k)) [
      | inl same ↦ rw same (p, h.1)
      | inr other ↦ elim (Bool-cases (lt k x.0)) [
        | inl before ↦ rw (other, before) (p, h)
        | inr after ↦ rw (other, after) (h.0, insert_sorted-All lt k v m p h.1)
      ]
    ]

    pub insert-All : (k : K) (v : V) (m : List (K × V)) → P (k, v) → All P m → All P (insert k v m)
    unfolding insert
    insert-All k v [] p h = (p, tt)
    insert-All k v (x ∷ m) p h = elim (Bool-cases (e.beq x.0 k)) [
      | inl same ↦ rw same (p, h.1)
      | inr other ↦ rw other (h.0, insert-All k v m p h.1)
    ]

    pub retain_keys-All :
        (test : K → Bool) (m : List (K × V)) → All P m → All P (retain_keys test m)
    unfolding retain_keys
    retain_keys-All test [] h = tt
    retain_keys-All test (x ∷ m) h = elim (Bool-cases (test x.0)) [
      | inl yes' ↦ rw yes' (h.0, retain_keys-All test m h.1)
      | inr no' ↦ rw no' (retain_keys-All test m h.1)
    ]

    pub remove-All : (k : K) (m : List (K × V)) → All P m → All P (remove k m)
    unfolding remove
    remove-All k [] h = tt
    remove-All k (x ∷ m) h = elim (Bool-cases (e.beq x.0 k)) [
      | inl same ↦ rw same (remove-All k m h.1)
      | inr other ↦ rw other (h.0, remove-All k m h.1)
    ]

    -- What lookup finds is an entry.
    pub lookup-All : (k : K) (v : V) (m : List (K × V)) → All P m → lookup k m ≡ some v → P (k, v)
    unfolding lookup
    lookup-All k v [] h found = cc
    lookup-All k v ((j, w) ∷ m) h found = elim (Bool-cases (e.beq j k)) [
      | inl same ↦ subst P (ap₂ (λ a b. (a, b)) ((e.beq_iff j k).0 same) (ground arith)) h.0
      | inr other ↦ lookup-All k v m h.1 (ground arith)
    ]
