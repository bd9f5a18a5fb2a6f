-- ===== src/Snapshot/Window.antt =====
-- The window that a figure of a snapshot spans.
use gc_scope.Base.{◌≡◌, refl, List, [], ◌∷◌, if◌then◌else◌, All, arith, Bool-cases, inl, inr}
use mathlib.Core.Path.{subst}
use mathlib.Core.List.{Memᴰ}
use gc_scope.Base.Int.{ℤ, pos, ltb_ℤ, ◌≤ℤ◌, sub_i64}
use gc_scope.Base.Float.{Float64}
use gc_scope.Snapshot.{GcEntry, min_by_key, max_by_key, avg_of}

Memᴰ-insert : {A : Type 0} (r b x : A) (xs : List A) → Memᴰ r (b ∷ xs) → Memᴰ r (b ∷ x ∷ xs)
Memᴰ-insert r b x xs (Memᴰ.head e) = Memᴰ.head e
Memᴰ-insert r b x xs (Memᴰ.tail m) = Memᴰ.tail (Memᴰ.tail m)

module _ {A : Type 0} (key : A → ℤ) where
  -- An element that is least, and one that is greatest.
  abbrev pub IsLeast : A → List A → Type 0
  IsLeast r xs = Memᴰ r xs × All (λ x. key r ≤ℤ key x) xs

  abbrev pub IsGreatest : A → List A → Type 0
  IsGreatest r xs = Memᴰ r xs × All (λ x. key x ≤ℤ key r) xs

  pub min_by_key-IsLeast : (best : A) (xs : List A) → IsLeast (min_by_key key best xs) (best ∷ xs)
  unfolding min_by_key
  min_by_key-IsLeast best [] = (Memᴰ.head refl, (omega arith, tt))
  min_by_key-IsLeast best (x ∷ xs) = elim (Bool-cases (ltb_ℤ (key x) (key best))) [
    | inl less ↦
        let h = min_by_key-IsLeast x xs in
        let is : min_by_key key x xs ≡ min_by_key key best (x ∷ xs) = ground (arith, less) in
        let below = h.1.0 in
        subst (λ r. IsLeast r (best ∷ x ∷ xs)) is
          (Memᴰ.tail h.0, (ground (arith, less, below), h.1))
    | inr more ↦
        let h = min_by_key-IsLeast best xs in
        let is : min_by_key key best xs ≡ min_by_key key best (x ∷ xs) = ground (arith, more) in
        let below = h.1.0 in
        subst (λ r. IsLeast r (best ∷ x ∷ xs)) is
          (
            Memᴰ-insert (min_by_key key best xs) best x xs h.0,
            (below, (ground (arith, more, below), h.1.1)),
          )
  ]

  pub max_by_key-IsGreatest :
      (best : A) (xs : List A) → IsGreatest (max_by_key key best xs) (best ∷ xs)
  unfolding max_by_key
  max_by_key-IsGreatest best [] = (Memᴰ.head refl, (omega arith, tt))
  max_by_key-IsGreatest best (x ∷ xs) = elim (Bool-cases (ltb_ℤ (key x) (key best))) [
    | inl less ↦
        let h = max_by_key-IsGreatest best xs in
        let is : max_by_key key best xs ≡ max_by_key key best (x ∷ xs) = ground (arith, less) in
        let above = h.1.0 in
        subst (λ r. IsGreatest r (best ∷ x ∷ xs)) is
          (
            Memᴰ-insert (max_by_key key best xs) best x xs h.0,
            (above, (ground (arith, less, above), h.1.1)),
          )
    | inr more ↦
        let h = max_by_key-IsGreatest x xs in
        let is : max_by_key key x xs ≡ max_by_key key best (x ∷ xs) = ground (arith, more) in
        let above = h.1.0 in
        subst (λ r. IsGreatest r (best ∷ x ∷ xs)) is
          (Memᴰ.tail h.0, (ground (arith, more, above), h.1))
  ]

module _ {F : Type 0} ⦃f : Float64 F⦄ where
  -- The average of a bucket of two entries or more is the growth of the total duration over that of
  -- the collections, from an entry with the least collections to one with the most, wherever in the
  -- ring these stand.
  pub avg_of-IsLeast :
      (e e' : GcEntry F) (es : List (GcEntry F))
      → (least : GcEntry F) × (most : GcEntry F) × IsLeast
          (λ (s : GcEntry F). s.collections)
          least
          (e ∷ e' ∷ es)
        × IsGreatest (λ (s : GcEntry F). s.collections) most (e ∷ e' ∷ es)
        × (avg_of (e ∷ e' ∷ es) ≡ (
            if ltb_ℤ (pos 0) (sub_i64 most.collections least.collections)
            then f.div
                (f.sub most.duration least.duration)
                (f.of_i64 (sub_i64 most.collections least.collections))
            else f.zero))
  unfolding avg_of
  avg_of-IsLeast e e' es =
      let key : GcEntry F → ℤ = λ s. s.collections in
      (
        min_by_key key e (e' ∷ es),
        max_by_key key e (e' ∷ es),
        min_by_key-IsLeast key e (e' ∷ es),
        max_by_key-IsGreatest key e (e' ∷ es),
        refl,
      )
