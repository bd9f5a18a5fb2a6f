-- ===== src/RunLoop/Waits.antt =====
-- How long a process that has not started is waited for.
use gc_scope.Base.{
  ℕ, ◌-◌, ◌≡◌, refl, Bool, true, false, not, ◌&&◌, ◌||◌, List, [], ◌∷◌, ltb, any, arith,
}
use gc_scope.Context.{PollStatus, ok, invalid_process}
use gc_scope.RunLoop.{StartupTimeoutPolicy, new_policy, wait_startup}

-- The times and statuses of the polls of a process, in their order.
abbrev pub Polls : Type 0
Polls = List (ℕ × PollStatus)

abbrev pub is_ok : PollStatus → Bool
is_ok ok = true
is_ok invalid_process = false

-- A policy after polls.
unfoldable pub after : Polls → StartupTimeoutPolicy → StartupTimeoutPolicy
unfolding wait_startup
after [] p = p
after ((now, status) ∷ polls) p = after polls ((wait_startup now status p).0)

after_lem :
    (polls : Polls) (p : StartupTimeoutPolicy)
    → after polls p ≡ record p { has_seen_alive = p.has_seen_alive || any (λ e. is_ok e.1) polls }
unfolding after
after_lem [] p = ground arith
after_lem ((now, ok) ∷ polls) p =
    let rest = after_lem polls (record p { has_seen_alive = true }) in ground (arith, rest)
after_lem ((now, invalid_process) ∷ polls) p = after_lem polls p

-- After any polls, a process stays for another one exactly when that one succeeds, or none has
-- succeeded and less than the timeout has passed since its policy was made.
pub wait_startup_stays :
    (timeout made now : ℕ) (polls : Polls) (status : PollStatus)
    → (wait_startup now status (after polls (new_policy timeout made))).1
      ≡ (is_ok status || not (any (λ e. is_ok e.1) polls) && ltb (now - made) timeout)
unfolding wait_startup new_policy
wait_startup_stays timeout made now polls ok = refl
wait_startup_stays timeout made now polls invalid_process =
    let is = after_lem polls (new_policy timeout made) in ground (arith, is)
