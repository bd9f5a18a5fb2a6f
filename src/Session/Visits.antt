-- ===== src/Session/Visits.antt =====
-- What the walk over the interpreters of a process returns, on every branch.
use gc_scope.Base.{
  ℕ, suc, ◌+◌, ◌<◌, ◌≡◌, ◌≢◌, refl, sym, ap, Bool, true, false, Option, none, some, List, [], ◌∷◌,
  ◌++◌, ◌==◌, ==_iff, arith, ◌⊎◌, inl, inr, Bool-cases, Option-cases,
}
use mathlib.Core.Path.{subst}
use mathlib.Core.List.{append-nil}
use gc_scope.Base.Word.{u64_mod}
use gc_scope.GcStats.{GcStat}
use gc_scope.Registry.{Outcome, failed, panic}
use gc_scope.Session.Walk.{
  Walked, exhausted, panicked, refused, walked, prepend, visited_before, readable, advance,
  walk_from, walk_interpreter_chain,
}
use gc_scope.Session.Chain.{
  Chain, gathered, unvisited_le, Outcome-cases, walk_from-stop, walk_from-panic, walk_from-advance,
  walk_from-Tail, Tail,
}

module _ (read_stats : ℕ → Outcome (Option (List GcStat))) (read_next : ℕ → Option ℕ) where
  -- The interpreters that a walk visits: none, the head alone where no other is asked for, or the
  -- head and those behind it.
  pub data Route : Bool → ℕ → List ℕ → Type 0 where
    nobody : {all : Bool} → Route all 0 []
    alone : {head : ℕ} → head ≢ 0 → Route false head (head ∷ [])
    onward :
        {head next : ℕ} {rest : List ℕ}
        → head ≢ 0
        → read_next head ≡ some next
        → Chain read_stats read_next (head ∷ []) next rest
        → Route true head (head ∷ rest)

  -- What a walk from `head` may result in.
  abbrev pub Described : Bool → ℕ → Walked → Type 0
  Described all head exhausted = ⊥
  Described all head panicked = (a : ℕ) × (read_stats a ≡ panic)
  Described all head refused =
      (head ≢ 0) × ((read_stats head ≡ failed) ⊎ ((all ≡ true) × (read_next head ≡ none)))
  Described all head (walked stats) =
      (path : List ℕ) × Route all head path × (stats ≡ gathered read_stats read_next path)

  prepend-Described :
      (head next : ℕ) (w : Walked)
      → head ≢ 0
      → read_next head ≡ some next
      → Tail read_stats read_next (head ∷ []) next w
      → Described true head (prepend (readable (read_stats head)) w)
  unfolding prepend gathered
  prepend-Described head next exhausted nz at h = h
  prepend-Described head next panicked nz at h = h
  prepend-Described head next refused nz at h = absurd h
  prepend-Described head next (walked stats) nz at (path, chain, is) =
      (head ∷ path, onward nz at chain, ap (λ s. readable (read_stats head) ++ s) is)

  advance-Described :
      (all : Bool) (head : ℕ) (go : ℕ → Walked)
      → head ≢ 0
      → ((next : ℕ)
          → read_next head ≡ some next
          → all ≡ true
          → Tail read_stats read_next (head ∷ []) next (go next))
      → Described all head
          (advance read_stats read_next all true (readable (read_stats head)) head go)
  unfolding gathered
  advance-Described false head go nz h =
      (head ∷ [], alone nz, sym (append-nil (readable (read_stats head))))
  advance-Described true head go nz h = elim (Option-cases (read_next head)) [
    | inl unread ↦
        let is : refused
            ≡ advance read_stats read_next true true (readable (read_stats head)) head go =
          ground (arith, unread) in
        subst (Described true head) is (nz, inr (refl, unread))
    | inr (next, at) ↦
        let is : prepend (readable (read_stats head)) (go next)
            ≡ advance read_stats read_next true true (readable (read_stats head)) head go =
          ground (arith, at) in
        subst (Described true head) is
          (prepend-Described head next (go next) nz at (h next at refl))
  ]

  walk_from-refused :
      (fuel : ℕ) (all : Bool) (c : ℕ)
      → (c == 0) ≡ false
      → read_stats c ≡ failed
      → walk_from read_stats read_next (suc fuel) all true [] c ≡ refused
  unfolding walk_from visited_before
  walk_from-refused fuel all c more f = rw (more, f) refl

  walk_from-Described :
      (n fuel : ℕ) (all : Bool) (head : ℕ)
      → ((a next : ℕ) → read_next a ≡ some next → next < n)
      → head < n
      → n < fuel
      → Described all head (walk_from read_stats read_next (suc fuel) all true [] head)
  unfolding visited_before gathered
  walk_from-Described n fuel all head bounded lt enough = elim (Bool-cases (head == 0)) [
    | inl zero' ↦
        subst (λ h. Described all h (walk_from read_stats read_next (suc fuel) all true [] head))
          (sym ((==_iff head 0).0 zero'))
          (subst (Described all 0)
            (sym (walk_from-stop read_stats read_next fuel all true [] head (inl zero')))
            ([], nobody, refl))
    | inr more ↦
        let nz : head ≢ 0 = λ e. ground (arith, more, e) in
        let go = walk_from read_stats read_next fuel all false (head ∷ []) in
        let few = unvisited_le n (head ∷ []) in
        let tail : (next : ℕ)
            → read_next head ≡ some next
            → all ≡ true
            → Tail read_stats read_next (head ∷ []) next (go next) =
          λ next at is_all.
            subst
              (λ b.
                Tail read_stats read_next (head ∷ []) next
                  (walk_from read_stats read_next fuel b false (head ∷ []) next))
              (sym is_all)
              (walk_from-Tail read_stats read_next n fuel (head ∷ []) next bounded
                (bounded head next at) (omega arith)) in
        elim (Outcome-cases (read_stats head)) [
          | inl p ↦
              subst (Described all head)
                (sym (walk_from-panic read_stats read_next fuel all true [] head more refl p))
                (head, p)
          | inr (inl f) ↦
              subst (Described all head) (sym (walk_from-refused fuel all head more f)) (nz, inl f)
          | inr (inr r) ↦
              subst (Described all head)
                (sym
                  (walk_from-advance read_stats read_next fuel all true [] head more refl (inr r)))
                (advance-Described all head go nz tail)
        ]
  ]

  -- A walk always ends: its fuel is enough where the links are addresses of 64 bits. It is an error
  -- only if the head cannot be read or, where all interpreters are asked for, its link cannot; it
  -- panics only if a reading does. Else it returns what can be read of the interpreters on its
  -- route in their order: the head alone, or the head and those behind it up to a zero link, one
  -- that was visited already, or a link that cannot be read.
  pub walk_interpreter_chain-Described :
      (head : ℕ) (all : Bool)
      → ((a next : ℕ) → read_next a ≡ some next → next < u64_mod)
      → head < u64_mod
      → Described all head (walk_interpreter_chain read_stats read_next head all)
  unfolding walk_interpreter_chain
  walk_interpreter_chain-Described head all bounded lt =
      walk_from-Described u64_mod (u64_mod + 1) all head bounded lt (omega arith)
