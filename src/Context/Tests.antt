-- ===== src/Context/Tests.antt =====
-- A run of the context in which a process starts, dies and is given up.
use gc_scope.Base.{◌≡◌, true, none, some, List, [], ◌∷◌}
use gc_scope.Base.Int.{ℤ, pos}
use gc_scope.Fixtures.{ticks, poll}
use gc_scope.Context.{Tick, dead, contains, new_context}
use gc_scope.Context.Lifecycle.{Step, polled, given_up, known, run_steps, run_steps_alternates}

abbrev reads : Tick
reads = record {
  attaches = true;
  read = some poll;
  revalidates = dead;
  read_again = none;
  observed_at_ns = pos 5;
}

abbrev fails : Tick
fails = record {
  attaches = true;
  read = none;
  revalidates = dead;
  read_again = none;
  observed_at_ns = pos 6;
}

abbrev steps : List Step
steps = polled reads 7 ∷ polled fails 7 ∷ polled reads 7 ∷ given_up 7 ∷ []

run_steps_alternates_example :
    known 7 ((run_steps steps (new_context {F = ℤ})).told)
    ≡ some (contains 7 ((run_steps steps (new_context {F = ℤ})).alive_pids))
run_steps_alternates_example = run_steps_alternates ℤ 7 steps
