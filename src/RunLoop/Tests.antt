-- ===== src/RunLoop/Tests.antt =====
-- A run in which a process starts and dies, and its child outlives it.
use gc_scope.Base.{
  ◌≡◌, true, false, none, some, List, [], ◌∷◌, ◌==◌, ltb, ◌-◌, not, ◌&&◌, ◌||◌, any, if◌then◌else◌,
}
use gc_scope.Base.Int.{ℤ, pos}
use gc_scope.Context.{Tick, dead, new_context, invalid_process, MonitorContext}
use gc_scope.Context.Lifecycle.{known}
use gc_scope.Fixtures.{ticks, poll}
use gc_scope.RunLoop.{Round, new_policy, startup_timeout, wait_startup, run_loop}
use gc_scope.RunLoop.Closing.{run_loop_closes}
use gc_scope.RunLoop.Waits.{Polls, is_ok, after, wait_startup_stays}

abbrev reads : Tick
reads = record {
  attaches = true;
  read = some poll;
  revalidates = dead;
  read_again = none;
  observed_at_ns = pos 5;
}

abbrev fails : Tick
fails = record {
  attaches = true;
  read = none;
  revalidates = dead;
  read_again = none;
  observed_at_ns = pos 6;
}

-- Both are read, with 8 a child of 7; then 7 dies.
abbrev rounds : List Round
rounds =
    record {
      children = λ p. if p == 7 then 8 ∷ [] else [];
      in_order = λ ps. ps;
      tick = λ p. reads;
      made_at = λ p. 100;
      asked_at = λ p. 100;
      goes_on = true;
    }
    ∷ record {
      children = λ p. [];
      in_order = λ ps. ps;
      tick = λ p. if p == 7 then fails else reads;
      made_at = λ p. 200;
      asked_at = λ p. 200;
      goes_on = false;
    }
    ∷ []

abbrev final : MonitorContext ℤ
final = run_loop startup_timeout (new_policy 50) 7 rounds new_context

run_loop_closes_example : known 8 (final.told) ≡ some false
run_loop_closes_example = run_loop_closes ℤ startup_timeout (new_policy 50) 7 rounds 8

abbrev polls : Polls
polls = (110, invalid_process) ∷ (120, invalid_process) ∷ []

wait_startup_stays_example :
    (wait_startup 130 invalid_process (after polls (new_policy 50 100))).1
    ≡ (is_ok invalid_process || not (any (λ e. is_ok e.1) polls) && ltb (130 - 100) 50)
wait_startup_stays_example = wait_startup_stays 50 100 130 polls invalid_process
