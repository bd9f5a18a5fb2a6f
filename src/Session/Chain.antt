-- ===== src/Session/Chain.antt =====
-- The walk over the interpreters ends, whatever the links are, and visits each one once.
use gc_scope.Base.{
  ℕ, zero, suc, ◌+◌, ◌≤◌, ◌<◌, ◌≡◌, ◌≢◌, refl, sym, ap, ◌∙◌, Bool, true, false, Option, none, some,
  List, [], ◌∷◌, ◌++◌, ◌==◌, ==_iff, if◌then◌else◌, arith, ◌⊎◌, inl, inr, Bool-cases, Option-cases,
}
use mathlib.Core.Path.{subst}
use mathlib.Core.List.{append-nil}
use gc_scope.GcStats.{GcStat}
use gc_scope.Registry.{Outcome, failed, panic, done}
use gc_scope.Session.Walk.{
  Walked, exhausted, panicked, refused, walked, prepend, visited_before, readable, advance,
  walk_from,
}

-- How many addresses below `n` are not visited.
pub unvisited : ℕ → List ℕ → ℕ
unvisited zero visited = 0
unvisited (suc n) visited = (if visited_before n visited then 0 else 1) + unvisited n visited

pub unvisited_le : (n : ℕ) (visited : List ℕ) → unvisited n visited ≤ n
unfolding unvisited
unvisited_le zero visited = omega arith
unvisited_le (suc n) visited = ground (arith, unvisited_le n visited)

pub visited_before-cons :
    (k x : ℕ) (visited : List ℕ)
    → visited_before k (x ∷ visited) ≡ (if x == k then true else visited_before k visited)
unfolding visited_before
visited_before-cons k x visited = ground arith

unvisited_above :
    (n x : ℕ) (visited : List ℕ) → n ≤ x → unvisited n (x ∷ visited) ≡ unvisited n visited
unfolding unvisited
unvisited_above zero x visited h = refl
unvisited_above (suc n) x visited h =
    ground (arith, visited_before-cons n x visited, unvisited_above n x visited (omega arith))

unvisited-cons :
    (n x : ℕ) (visited : List ℕ)
    → x < n
    → visited_before x visited ≡ false
    → unvisited n (x ∷ visited) + 1 ≡ unvisited n visited
unfolding unvisited
unvisited-cons zero x visited h new = absurd (omega arith)
unvisited-cons (suc n) x visited h new = elim (Bool-cases (x == n)) [
  | inl last ↦
      let is = (==_iff x n).0 last in
      let here : visited_before n visited ≡ false =
        ap (λ k. visited_before k visited) (sym is) ∙ new in
      ground (
        arith,
        visited_before-cons n x visited,
        unvisited_above n x visited (omega arith),
        here,
        last,
      )
  | inr below ↦
      let lt : x < n = ground (arith, h, below) in
      ground (arith, visited_before-cons n x visited, unvisited-cons n x visited lt new, below)
]

pub Outcome-cases :
    {A : Type 0} (o : Outcome A) → (o ≡ panic) ⊎ ((o ≡ failed) ⊎ ((a : A) × (o ≡ done a)))
Outcome-cases failed = inr (inl refl)
Outcome-cases panic = inl refl
Outcome-cases (done a) = inr (inr (a, refl))

module _ (read_stats : ℕ → Outcome (Option (List GcStat))) (read_next : ℕ → Option ℕ) where
  -- The interpreters from `current` on: the chain ends at zero, at one that was visited, or behind
  -- one whose link cannot be read.
  pub data Chain : List ℕ → ℕ → List ℕ → Type 0 where
    at_end : {visited : List ℕ} {c : ℕ} → c ≡ 0 → Chain visited c []
    looped : {visited : List ℕ} {c : ℕ} → visited_before c visited ≡ true → Chain visited c []
    cut :
        {visited : List ℕ} {c : ℕ}
        → c ≢ 0
        → visited_before c visited ≡ false
        → read_next c ≡ none
        → Chain visited c (c ∷ [])
    link :
        {visited : List ℕ} {c next : ℕ} {rest : List ℕ}
        → c ≢ 0
        → visited_before c visited ≡ false
        → read_next c ≡ some next
        → Chain (c ∷ visited) next rest
        → Chain visited c (c ∷ rest)

  -- What the interpreters of a path add, in its order.
  unfoldable pub gathered : List ℕ → List GcStat
  gathered [] = []
  gathered (a ∷ path) = readable (read_stats a) ++ gathered path

  -- What a walk past the head may result in.
  abbrev pub Tail : List ℕ → ℕ → Walked → Type 0
  Tail visited c exhausted = ⊥
  Tail visited c panicked = (a : ℕ) × (read_stats a ≡ panic)
  Tail visited c refused = ⊥
  Tail visited c (walked stats) = (path : List ℕ) × Chain visited c path × (stats ≡ gathered path)

  pub prepend-Tail :
      (visited : List ℕ) (c next : ℕ) (w : Walked)
      → c ≢ 0
      → visited_before c visited ≡ false
      → read_next c ≡ some next
      → Tail (c ∷ visited) next w
      → Tail visited c (prepend (readable (read_stats c)) w)
  unfolding prepend gathered
  prepend-Tail visited c next exhausted nz new at h = h
  prepend-Tail visited c next panicked nz new at h = h
  prepend-Tail visited c next refused nz new at h = h
  prepend-Tail visited c next (walked stats) nz new at (path, chain, is) =
      (c ∷ path, link nz new at chain, ap (λ s. readable (read_stats c) ++ s) is)

  advance-Tail :
      (visited : List ℕ) (c : ℕ) (go : ℕ → Walked)
      → c ≢ 0
      → visited_before c visited ≡ false
      → ((next : ℕ) → read_next c ≡ some next → Tail (c ∷ visited) next (go next))
      → Tail visited c (advance read_stats read_next true false (readable (read_stats c)) c go)
  unfolding gathered
  advance-Tail visited c go nz new h = elim (Option-cases (read_next c)) [
    | inl unread ↦
        let is : walked (readable (read_stats c))
            ≡ advance read_stats read_next true false (readable (read_stats c)) c go =
          ground (arith, unread) in
        subst (Tail visited c) is
          (c ∷ [], cut nz new unread, sym (append-nil (readable (read_stats c))))
    | inr (next, at) ↦
        let is : prepend (readable (read_stats c)) (go next)
            ≡ advance read_stats read_next true false (readable (read_stats c)) c go =
          ground (arith, at) in
        subst (Tail visited c) is (prepend-Tail visited c next (go next) nz new at (h next at))
  ]

  pub walk_from-stop :
      (fuel : ℕ) (all head : Bool) (visited : List ℕ) (c : ℕ)
      → ((c == 0) ≡ true) ⊎ (visited_before c visited ≡ true)
      → walk_from read_stats read_next (suc fuel) all head visited c ≡ walked []
  unfolding walk_from
  walk_from-stop fuel all head visited c (inl zero') = rw zero' refl
  walk_from-stop fuel all head visited c (inr again) = elim (Bool-cases (c == 0)) [
    | inl zero' ↦ rw zero' refl
    | inr more ↦ rw (more, again) refl
  ]

  pub walk_from-panic :
      (fuel : ℕ) (all head : Bool) (visited : List ℕ) (c : ℕ)
      → (c == 0) ≡ false
      → visited_before c visited ≡ false
      → read_stats c ≡ panic
      → walk_from read_stats read_next (suc fuel) all head visited c ≡ panicked
  unfolding walk_from
  walk_from-panic fuel all head visited c more new p = rw (more, new, p) refl

  -- A round that does not stop at the reading of `c`.
  pub walk_from-advance :
      (fuel : ℕ) (all head : Bool) (visited : List ℕ) (c : ℕ)
      → (c == 0) ≡ false
      → visited_before c visited ≡ false
      → ((read_stats c ≡ failed) × (head ≡ false))
        ⊎ ((read : Option (List GcStat)) × (read_stats c ≡ done read))
      → walk_from read_stats read_next (suc fuel) all head visited c
        ≡ advance read_stats read_next all head
            (readable (read_stats c))
            c
            (walk_from read_stats read_next fuel all false (c ∷ visited))
  unfolding walk_from readable
  walk_from-advance fuel all head visited c more new h = by_reading (read_stats c) refl h
    where
      go : ℕ → Walked
      go = walk_from read_stats read_next fuel all false (c ∷ visited)

      by_reading :
          (o : Outcome (Option (List GcStat)))
          → read_stats c ≡ o
          → ((o ≡ failed) × (head ≡ false)) ⊎ ((read : Option (List GcStat)) × (o ≡ done read))
          → walk_from read_stats read_next (suc fuel) all head visited c
            ≡ advance read_stats read_next all head (readable o) c go
      by_reading failed e (inl (f, past)) = rw (more, new, e, past) refl
      by_reading failed e (inr r) = absurd (cc r.1)
      by_reading panic e (inl f) = absurd (cc f.0)
      by_reading panic e (inr r) = absurd (cc r.1)
      by_reading (done none) e r = rw (more, new, e) refl
      by_reading (done (some read)) e r = rw (more, new, e) refl

  pub walk_from-Tail :
      (n fuel : ℕ) (visited : List ℕ) (c : ℕ)
      → ((a next : ℕ) → read_next a ≡ some next → next < n)
      → c < n
      → unvisited n visited < fuel
      → Tail visited c (walk_from read_stats read_next fuel true false visited c)
  unfolding gathered
  walk_from-Tail n zero visited c bounded lt enough = absurd (omega arith)
  walk_from-Tail n (suc fuel) visited c bounded lt enough = elim (Bool-cases (c == 0)) [
    | inl zero' ↦
        subst (Tail visited c) (sym (walk_from-stop fuel true false visited c (inl zero')))
          ([], at_end ((==_iff c 0).0 zero'), refl)
    | inr more ↦ elim (Bool-cases (visited_before c visited)) [
      | inl again ↦
          subst (Tail visited c) (sym (walk_from-stop fuel true false visited c (inr again)))
            ([], looped again, refl)
      | inr new ↦
          let nz : c ≢ 0 = λ e. ground (arith, more, e) in
          let less = unvisited-cons n c visited lt new in
          let go = walk_from read_stats read_next fuel true false (c ∷ visited) in
          let tail = advance-Tail visited c go nz new (λ next at.
            walk_from-Tail n fuel (c ∷ visited) next bounded (bounded c next at) (omega arith)) in
          elim (Outcome-cases (read_stats c)) [
            | inl p ↦
                subst (Tail visited c) (sym (walk_from-panic fuel true false visited c more new p))
                  (c, p)
            | inr (inl f) ↦
                subst (Tail visited c)
                  (sym (walk_from-advance fuel true false visited c more new (inl (f, refl)))) tail
            | inr (inr r) ↦
                subst (Tail visited c)
                  (sym (walk_from-advance fuel true false visited c more new (inr r))) tail
          ]
    ]
  ]
