-- ===== src/Base/Sort.antt =====
-- Rust's stable `sort_by_key` on a list, as insertion sort, over the comparison of the keys.
use gc_scope.Base.Tests.{if◌then◌else◌, Bool-cases}
use gc_scope.Base.Lists.{All, All-imp}
use mathlib.Core.Path.{◌≡◌, sym, ◌∙◌}
use mathlib.Core.Logic.{inl, inr, ◌⊎◌}
use mathlib.Core.Bool.{Bool, true, false≢true}
use mathlib.Core.List.{List, [], ◌∷◌, Perm}
use mathlib.Core.List.Perm

-- Every two elements, in order, are related.
abbrev pub Pairs {ℓ κ} : {A : Type ℓ} → (A → A → Type κ) → List A → Type κ
Pairs R [] = Unit
Pairs R (x ∷ xs) = All (R x) xs × Pairs R xs

module _ {ℓ} {A : Type ℓ} (le : A → A → Bool) where
  -- Before the first element that is not less: equal keys keep their order.
  unfoldable pub insert_by : A → List A → List A
  insert_by x [] = x ∷ []
  insert_by x (y ∷ ys) = if le x y then x ∷ y ∷ ys else y ∷ insert_by x ys

  unfoldable pub sort_by : List A → List A
  unfolding insert_by
  sort_by [] = []
  sort_by (x ∷ xs) = insert_by x (sort_by xs)

  -- Every two elements, in order, pass the comparison.
  abbrev pub IsSorted : List A → Type 0
  IsSorted [] = Unit
  IsSorted (x ∷ xs) = All (λ y. le x y ≡ true) xs × IsSorted xs

  pub insert_by-All {κ} :
      (P : A → Type κ) (x : A) (ys : List A) → P x → All P ys → All P (insert_by x ys)
  unfolding insert_by
  insert_by-All P x [] px h = (px, tt)
  insert_by-All P x (y ∷ ys) px h = elim (Bool-cases (le x y)) [
    | inl e ↦ rw e (px, h)
    | inr e ↦ rw e (h.0, insert_by-All P x ys px h.1)
  ]

  pub sort_by-All {κ} : (P : A → Type κ) (xs : List A) → All P xs → All P (sort_by xs)
  unfolding sort_by
  sort_by-All P [] h = tt
  sort_by-All P (x ∷ xs) h = insert_by-All P x (sort_by xs) h.0 (sort_by-All P xs h.1)

  pub insert_by-Perm : (x : A) (ys : List A) → Perm (insert_by x ys) (x ∷ ys)
  unfolding insert_by
  insert_by-Perm x [] = Perm.refl (x ∷ [])
  insert_by-Perm x (y ∷ ys) = elim (Bool-cases (le x y)) [
    | inl e ↦ rw e (Perm.refl (x ∷ y ∷ ys))
    | inr e ↦ rw e (Perm.trans (Perm.cons y (insert_by-Perm x ys)) (Perm.swap x y ys))
  ]

  -- Sorting keeps the elements.
  pub sort_by-Perm : (xs : List A) → Perm (sort_by xs) xs
  unfolding sort_by
  sort_by-Perm [] = Perm.refl []
  sort_by-Perm (x ∷ xs) = Perm.trans (insert_by-Perm x (sort_by xs)) (Perm.cons x (sort_by-Perm xs))

  insert_by-Pairs {κ} :
      (R : A → A → Type κ) (x : A) (ys : List A)
      → ((a b : A) → R a b → R b a)
      → All (R x) ys
      → Pairs R ys
      → Pairs R (insert_by x ys)
  unfolding insert_by
  insert_by-Pairs R x [] s h ps = (tt, tt)
  insert_by-Pairs R x (y ∷ ys) s h ps = elim (Bool-cases (le x y)) [
    | inl e ↦ rw e (h, ps)
    | inr e ↦ rw e (insert_by-All (R y) x ys (s x y h.0) ps.0, insert_by-Pairs R x ys s h.1 ps.1)
  ]

  -- Sorting keeps a symmetric relation between the elements.
  pub sort_by-Pairs {κ} :
      (R : A → A → Type κ) (xs : List A)
      → ((a b : A) → R a b → R b a)
      → Pairs R xs
      → Pairs R (sort_by xs)
  unfolding sort_by
  sort_by-Pairs R [] s ps = tt
  sort_by-Pairs R (x ∷ xs) s ps =
      insert_by-Pairs R x (sort_by xs) s (sort_by-All (R x) xs ps.0) (sort_by-Pairs R xs s ps.1)

  insert_by-IsSorted :
      (x : A) (ys : List A)
      → ((a b : A) → (le a b ≡ true) ⊎ (le b a ≡ true))
      → ((a b c : A) → le a b ≡ true → le b c ≡ true → le a c ≡ true)
      → IsSorted ys
      → IsSorted (insert_by x ys)
  unfolding insert_by
  insert_by-IsSorted x [] total trans s = (tt, tt)
  insert_by-IsSorted x (y ∷ ys) total trans s = elim (Bool-cases (le x y)) [
    | inl e ↦
        rw e ((e, All-imp (λ z. le y z ≡ true) (λ z. le x z ≡ true) ys (λ z. trans x y z e) s.0), s)
    | inr e ↦ rw e (
      insert_by-All (λ z. le y z ≡ true) x ys
          (elim (total x y) [ inl xy ↦ absurd (false≢true (sym e ∙ xy)) | inr yx ↦ yx ]) s.0,
      insert_by-IsSorted x ys total trans s.1,
    )
  ]

  -- By a total and transitive comparison the result is in order.
  pub sort_by-IsSorted :
      (xs : List A)
      → ((a b : A) → (le a b ≡ true) ⊎ (le b a ≡ true))
      → ((a b c : A) → le a b ≡ true → le b c ≡ true → le a c ≡ true)
      → IsSorted (sort_by xs)
  unfolding sort_by
  sort_by-IsSorted [] total trans = tt
  sort_by-IsSorted (x ∷ xs) total trans =
      insert_by-IsSorted x (sort_by xs) total trans (sort_by-IsSorted xs total trans)
