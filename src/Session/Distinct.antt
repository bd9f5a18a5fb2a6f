-- ===== src/Session/Distinct.antt =====
-- No interpreter is visited twice.
use gc_scope.Base.{
  ℕ, ◌≡◌, refl, Bool, false, Option, List, [], ◌∷◌, ◌==◌, ==_iff, arith, All, All-imp,
}
use gc_scope.GcStats.{GcStat}
use gc_scope.Registry.{Outcome}
use gc_scope.Session.Walk.{visited_before}
use gc_scope.Session.Chain.{Chain, at_end, looped, cut, link, visited_before-cons}
use gc_scope.Session.Visits.{Route, nobody, alone, onward}

-- No address stands twice in the list.
abbrev pub Distinct : List ℕ → Type 0
Distinct [] = Unit
Distinct (a ∷ path) = (visited_before a path ≡ false) × Distinct path

not_visited-cons :
    (c : ℕ) (visited : List ℕ) (a : ℕ)
    → visited_before a (c ∷ visited) ≡ false
    → (visited_before a visited ≡ false) × ((c == a) ≡ false)
not_visited-cons c visited a h = (
  ground (arith, visited_before-cons a c visited),
  ground (arith, visited_before-cons a c visited),
)

visited_before-All :
    (c : ℕ) (path : List ℕ) → All (λ a. (c == a) ≡ false) path → visited_before c path ≡ false
unfolding visited_before
visited_before-All c [] h = refl
visited_before-All c (a ∷ path) h =
    ground (arith, h.0, visited_before-All c path h.1, ==_iff c a, ==_iff a c)

module _ (read_stats : ℕ → Outcome (Option (List GcStat))) (read_next : ℕ → Option ℕ) where
  Chain-Distinct :
      (visited : List ℕ) (c : ℕ) (path : List ℕ)
      → Chain read_stats read_next visited c path
      → All (λ a. visited_before a visited ≡ false) path × Distinct path
  unfolding visited_before
  Chain-Distinct visited c path (at_end e) = (tt, tt)
  Chain-Distinct visited c path (looped e) = (tt, tt)
  Chain-Distinct visited c path (cut nz new at) = ((new, tt), (refl, tt))
  Chain-Distinct visited c path (link {next = n} {rest = rest} nz new at chain) =
      let h = Chain-Distinct (c ∷ visited) n rest chain in
      let apart = All-imp _ _ rest (not_visited-cons c visited) h.0 in
      (
        (new, All-imp _ _ rest (λ a h. h.0) apart),
        (visited_before-All c rest (All-imp _ _ rest (λ a h. h.1) apart), h.1),
      )

  -- On its route a walk visits no interpreter twice.
  pub Route-Distinct :
      (all : Bool) (head : ℕ) (path : List ℕ)
      → Route read_stats read_next all head path
      → Distinct path
  unfolding visited_before
  Route-Distinct all head path nobody = tt
  Route-Distinct all head path (alone nz) = (refl, tt)
  Route-Distinct all head path (onward {next = n} {rest = rest} nz at chain) =
      let h = Chain-Distinct (head ∷ []) n rest chain in
      let apart = All-imp _ _ rest (not_visited-cons head []) h.0 in
      (visited_before-All head rest (All-imp _ _ rest (λ a h. h.1) apart), h.1)
