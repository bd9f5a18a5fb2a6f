-- ===== src/Session/Walk.antt =====
-- `walk_interpreter_chain` of src/remote_debugging/session.rs.
use gc_scope.Base.{
  ℕ, zero, suc, ◌+◌, Bool, true, false, not, ◌&&◌, Option, none, some, List, [], ◌∷◌, ◌++◌, ◌==◌,
  any, if◌then◌else◌,
}
use gc_scope.Base.Word.{u64_mod}
use gc_scope.GcStats.{GcStat}
use gc_scope.Registry.{Outcome, failed, panic, done}

-- `exhausted`: the fuel of the model ran out. `refused` is the code's error, `panicked` a panic of
-- the reading.
pub data Walked : Type 0 where
  exhausted : Walked
  panicked : Walked
  refused : Walked
  walked : List GcStat → Walked

unfoldable pub prepend : List GcStat → Walked → Walked
prepend read exhausted = exhausted
prepend read panicked = panicked
prepend read refused = refused
prepend read (walked stats) = walked (read ++ stats)

unfoldable pub visited_before : ℕ → List ℕ → Bool
visited_before a visited = any (λ v. v == a) visited

-- What one interpreter adds: nothing where it has no region or cannot be read.
unfoldable pub readable : Outcome (Option (List GcStat)) → List GcStat
readable (done (some stats)) = stats
readable _ = []

module _ (read_stats : ℕ → Outcome (Option (List GcStat))) (read_next : ℕ → Option ℕ) where
  -- The rest of the loop's body, behind the reading of `current`.
  abbrev pub advance : Bool → Bool → List GcStat → ℕ → (ℕ → Walked) → Walked
  advance all head read current go =
      if head && not all then walked read else elim (read_next current) [
        | none ↦ if head then refused else walked read
        | some next ↦ prepend read (go next)
      ]

  -- The loop: whether every interpreter is asked for, whether this one is the head, those visited,
  -- and the current one.
  unfoldable pub walk_from : ℕ → Bool → Bool → List ℕ → ℕ → Walked
  unfolding prepend visited_before
  walk_from zero all head visited current = exhausted
  walk_from (suc fuel) all head visited current =
      if current == 0
      then walked []
      else if visited_before current visited
      then walked []
      else elim (read_stats current) [
        | panic ↦ panicked
        | failed ↦
            if head
            then refused
            else advance all head [] current (walk_from fuel all false (current ∷ visited))
        | done none ↦ advance all head [] current (walk_from fuel all false (current ∷ visited))
        | done (some read) ↦
            advance all head read current (walk_from fuel all false (current ∷ visited))
      ]

  -- There are `2 ^ 64` addresses, and each round but the last visits another one.
  unfoldable pub walk_interpreter_chain : ℕ → Bool → Walked
  walk_interpreter_chain head_addr all = walk_from (suc (u64_mod + 1)) all true [] head_addr
