-- ===== src/RunLoop.antt =====
-- src/monitor/run_loop.rs: the loop that discovers processes, polls them and gives them up. A run is
-- the list of its rounds: what the system answers in each one. The run is interrupted where the list
-- ends.
pub mod Waits
pub mod Adds
pub mod Pids
pub mod Closing
mod Tests
use gc_scope.Base.{
  ℕ, ◌-◌, Bool, true, false, not, ◌||◌, Option, none, some, List, [], ◌∷◌, ◌++◌, ◌==◌, ltb,
  if◌then◌else◌, keep, unwrap_or,
}
use gc_scope.Base.Eq.{nat_eq}
use gc_scope.Base.Float.{Float64}
use gc_scope.Base.Map.{lookup, insert}
use gc_scope.Context.{
  PollStatus, ok, invalid_process, Tick, MonitorContext, new_context, poll, mark_died, contains,
  insert_pid, remove_pid,
}

-- The decision on a process, given the time and the status of its poll.
pub record WaitPolicy (P : Type 0) : Type 0 where
  pub wait : ℕ → PollStatus → P → P × Bool

-- Continues only on `ok`.
pub data NoWaitPolicy : Type 0 where
  no_wait_policy : NoWaitPolicy

unfoldable pub wait_none : ℕ → PollStatus → NoWaitPolicy → NoWaitPolicy × Bool
wait_none now ok p = (p, true)
wait_none now invalid_process p = (p, false)

pub record StartupTimeoutPolicy : Type 0 where
  pub start_time : ℕ
  pub timeout : ℕ
  pub has_seen_alive : Bool

-- `StartupTimeoutPolicy::new`.
unfoldable pub new_policy : ℕ → ℕ → StartupTimeoutPolicy
new_policy timeout now = record { start_time = now; timeout = timeout; has_seen_alive = false }

unfoldable pub wait_startup : ℕ → PollStatus → StartupTimeoutPolicy → StartupTimeoutPolicy × Bool
wait_startup now ok p = (record p { has_seen_alive = true }, true)
wait_startup now invalid_process p =
    (p, if p.has_seen_alive then false else ltb (now - p.start_time) p.timeout)

abbrev pub no_wait : WaitPolicy NoWaitPolicy
no_wait = record { wait = wait_none }

abbrev pub startup_timeout : WaitPolicy StartupTimeoutPolicy
startup_timeout = record { wait = wait_startup }

-- What the system answers in one round: the children of each process, the order in which a set is
-- iterated, each poll, the times at which a policy is made and asked, and whether the run is on at
-- the end of the round.
pub record Round : Type 0 where
  pub children : ℕ → List ℕ
  pub in_order : List ℕ → List ℕ
  pub tick : ℕ → Tick
  pub made_at : ℕ → ℕ
  pub asked_at : ℕ → ℕ
  pub goes_on : Bool

-- The variables of the loop.
pub record Monitoring (F P : Type 0) : Type 0 where
  pub context : MonitorContext F
  pub alive_pids : List ℕ
  pub pid_policies : List (ℕ × P)
  pub seen_pids : List ℕ

-- `HashSet::extend`.
unfoldable pub insert_pids : List ℕ → List ℕ → List ℕ
unfolding insert_pid
insert_pids [] s = s
insert_pids (p ∷ ps) s = insert_pids ps (insert_pid p s)

-- Step 1: the live processes and their children.
unfoldable pub discover : (ℕ → List ℕ) → List ℕ → List ℕ → List ℕ
unfolding insert_pids
discover children [] s = s
discover children (p ∷ ps) s = discover children ps (insert_pids (children p) (insert_pid p s))

-- Step 3: the new ones go to the end.
unfoldable pub add_new : List ℕ → List ℕ → List ℕ
unfolding contains
add_new [] alive = alive
add_new (p ∷ ps) alive =
    if contains p alive then add_new ps alive else add_new ps (alive ++ (p ∷ []))

-- `HashMap::remove`.
unfoldable pub remove_policy : {P : Type 0} → ℕ → List (ℕ × P) → List (ℕ × P)
remove_policy p ps = keep (λ e. not (e.0 == p)) ps

module _ {F P : Type 0} where
  -- A process of step 2.
  unfoldable pub vanish_one : List ℕ → ℕ → Monitoring F P → Monitoring F P
  unfolding contains remove_pid remove_policy mark_died
  vanish_one current p s = if contains p current then s else record s {
    context = mark_died p s.context;
    pid_policies = remove_policy p s.pid_policies;
    alive_pids = remove_pid p s.alive_pids;
  }

  -- Step 2: those that were seen and are no more.
  unfoldable pub vanish : List ℕ → List ℕ → Monitoring F P → Monitoring F P
  unfolding vanish_one
  vanish current [] s = s
  vanish current (p ∷ ps) s = vanish current ps (vanish_one current p s)

  -- Steps 1 to 3.
  unfoldable pub refresh : Round → Monitoring F P → Monitoring F P
  unfolding discover vanish add_new
  refresh r s =
      let current = discover r.children s.alive_pids [] in
      let s' = vanish current (r.in_order s.seen_pids) s in
      record s' { seen_pids = current; alive_pids = add_new (r.in_order current) s'.alive_pids }

  -- A process that is given up.
  unfoldable pub give_up : ℕ → Monitoring F P → Monitoring F P
  unfolding mark_died remove_pid remove_policy
  give_up p s = record {
    context = mark_died p s.context;
    alive_pids = remove_pid p s.alive_pids;
    pid_policies = remove_policy p s.pid_policies;
    seen_pids = remove_pid p s.seen_pids;
  }

-- Step 5.
unfoldable pub mark_all : {F : Type 0} → List ℕ → MonitorContext F → MonitorContext F
unfolding mark_died
mark_all [] c = c
mark_all (p ∷ ps) c = mark_all ps (mark_died p c)

module _ {F P : Type 0} ⦃f : Float64 F⦄ (policy : WaitPolicy P) (factory : ℕ → P) where
  -- A process of step 4, and whether it is alive.
  unfoldable pub poll_one : Round → ℕ → Monitoring F P → Monitoring F P × Bool
  unfolding poll give_up
  poll_one r p s =
      let (context, status) = poll (r.tick p) p s.context in
      let before = unwrap_or (lookup p s.pid_policies) (factory (r.made_at p)) in
      let (after, stays) = policy.wait (r.asked_at p) status before in
      let s' : Monitoring F P = record s {
        context = context;
        pid_policies = insert p after s.pid_policies;
      } in
      if stays then (s', true) else (give_up p s', false)

  -- Step 4: the loop over a copy of the live processes.
  unfoldable pub poll_each : Round → List ℕ → Bool → Monitoring F P → Monitoring F P × Bool
  unfolding poll_one
  poll_each r [] any_alive s = (s, any_alive)
  poll_each r (p ∷ ps) any_alive s =
      let (s', stays) = poll_one r p s in poll_each r ps (any_alive || stays) s'

  -- The loop.
  unfoldable pub rounds_of : List Round → Monitoring F P → Monitoring F P
  unfolding refresh poll_each
  rounds_of [] s = s
  rounds_of (r ∷ rs) s =
      let s1 = refresh r s in
      let polled = poll_each r s1.alive_pids false s1 in
      let rest = rounds_of rs polled.0 in
      elim s1.alive_pids [
        | [] ↦ s1
        | _ ∷ _ ↦ if not polled.1 then polled.0 else if not r.goes_on then polled.0 else rest
      ]

  -- The context that a run leaves.
  unfoldable pub run_loop : ℕ → List Round → MonitorContext F → MonitorContext F
  unfolding rounds_of mark_all
  run_loop main_pid rounds c =
      let s : Monitoring F P = record {
        context = c;
        alive_pids = main_pid ∷ [];
        pid_policies = [];
        seen_pids = [];
      } in
      let s' = rounds_of rounds s in mark_all s'.alive_pids s'.context
