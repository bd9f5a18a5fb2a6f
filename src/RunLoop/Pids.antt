-- ===== src/RunLoop/Pids.antt =====
-- Lists of processes in which none is twice.
use gc_scope.Base.{
  ℕ, ◌≡◌, refl, true, false, ◌||◌, List, [], ◌∷◌, ◌++◌, ◌==◌, All, arith, Bool-cases, inl, inr,
}
use mathlib.Core.Path.{subst}
use gc_scope.Context.{contains, remove_pid}
use gc_scope.Context.Lifecycle.{contains-remove_pid}
use gc_scope.RunLoop.{add_new}

-- No process is in the list twice.
abbrev pub Distinct : List ℕ → Type 0
Distinct [] = Unit
Distinct (p ∷ ps) = (contains p ps ≡ false) × Distinct ps

-- Tests of equality do not depend on the order.
pub ==_comm : (a b : ℕ) → (a == b) ≡ (b == a)
==_comm a b = ground arith

-- A removed process, and one that is put at the end.
pub Distinct-remove_pid : (q : ℕ) (ps : List ℕ) → Distinct ps → Distinct (remove_pid q ps)
unfolding remove_pid
Distinct-remove_pid q [] d = tt
Distinct-remove_pid q (p ∷ ps) d = elim (Bool-cases (p == q)) [
  | inl same ↦
      let is : remove_pid q ps ≡ remove_pid q (p ∷ ps) = ground (arith, same) in
      subst Distinct is (Distinct-remove_pid q ps d.1)
  | inr other ↦
      let is : p ∷ remove_pid q ps ≡ remove_pid q (p ∷ ps) = ground (arith, other) in
      subst Distinct is
        (ground (arith, contains-remove_pid q p ps, d.0), Distinct-remove_pid q ps d.1)
]

contains-append :
    (p : ℕ) (ps qs : List ℕ) → contains p (ps ++ qs) ≡ (contains p ps || contains p qs)
unfolding contains
contains-append p [] qs = refl
contains-append p (x ∷ ps) qs = ground (arith, contains-append p ps qs)

Distinct-push :
    (q : ℕ) (ps : List ℕ) → Distinct ps → contains q ps ≡ false → Distinct (ps ++ (q ∷ []))
unfolding contains
Distinct-push q [] d new = (refl, tt)
Distinct-push q (p ∷ ps) d new = (
  ground (arith, contains-append p ps (q ∷ []), d.0, new, ==_comm p q),
  Distinct-push q ps d.1 (ground (arith, new)),
)

pub add_new-Distinct : (ps alive : List ℕ) → Distinct alive → Distinct (add_new ps alive)
unfolding add_new
add_new-Distinct [] alive d = d
add_new-Distinct (p ∷ ps) alive d = elim (Bool-cases (contains p alive)) [
  | inl known' ↦
      let is : add_new ps alive ≡ add_new (p ∷ ps) alive = ground (arith, known') in
      subst Distinct is (add_new-Distinct ps alive d)
  | inr new ↦
      let is : add_new ps (alive ++ (p ∷ [])) ≡ add_new (p ∷ ps) alive = ground (arith, new) in
      subst Distinct is (add_new-Distinct ps (alive ++ (p ∷ [])) (Distinct-push p alive d new))
]

pub add_new-contains :
    (p : ℕ) (ps alive : List ℕ) → contains p alive ≡ true → contains p (add_new ps alive) ≡ true
unfolding add_new
add_new-contains p [] alive h = h
add_new-contains p (q ∷ ps) alive h = elim (Bool-cases (contains q alive)) [
  | inl known' ↦ ground (arith, known', add_new-contains p ps alive h)
  | inr new ↦
      let kept : contains p (alive ++ (q ∷ [])) ≡ true =
        ground (arith, contains-append p alive (q ∷ []), h) in
      ground (arith, new, add_new-contains p ps (alive ++ (q ∷ [])) kept)
]

pub contains-All :
    (xs ys : List ℕ)
    → ((x : ℕ) → contains x xs ≡ true → contains x ys ≡ true)
    → All (λ x. contains x ys ≡ true) xs
unfolding contains
contains-All [] ys h = tt
contains-All (x ∷ xs) ys h =
    (h x (ground arith), contains-All xs ys (λ y at. h y (ground (arith, at))))
