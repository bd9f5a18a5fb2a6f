-- ===== src/Loss/Tests.antt =====
-- Accounts of concrete accumulators, and the theorems at them.
use gc_scope.Base.{◌≡◌, refl, true, some, arith}
use gc_scope.Base.Int.{ℤ, pos, ◌+ℤ◌, ◌-ℤ◌, ◌≤ℤ◌, add_i64, sub_i64, wrap_i64, as_i64}
use gc_scope.Fixtures.{ticks}
use gc_scope.Cursor.Ring.{RingObservation, is_empty}
use gc_scope.Cursor.Span.{IsSpan}
use gc_scope.Loss.{account, spanned_pause}
use gc_scope.Loss.Account.{account_counts}
use gc_scope.Loss.Pause.{Pauses, account-Pauses}

-- A ring that ran from counter 1 to 100 while two Records were read.
abbrev outran : RingObservation ℤ
outran = record {
  first = record {
    collections = pos 1;
    collected = pos 0;
    uncollectable = pos 0;
    duration = pos 400;
  };
  first_pause_ns = pos 400;
  last = record {
    collections = pos 100;
    collected = pos 0;
    uncollectable = pos 0;
    duration = pos 500000;
  };
  sampled = 2;
  measured_pause_ns = pos 1000;
  timed = true;
  prices_pause = true;
}

outran-account : account outran ≡ record {
  exact_collections = pos 100;
  observed_collections = pos 2;
  lost_collections = pos 98;
  coverage = pos 0;
  exact_pause_ns = some (pos 500000);
  measured_pause_ns = some (pos 1000);
  lost_pause_ns = some (pos 499000);
  scale_factor = some (pos 500);
}
unfolding account is_empty spanned_pause add_i64 sub_i64 wrap_i64 as_i64 ◌+ℤ◌ ◌-ℤ◌
outran-account = refl

outran-IsSpan : IsSpan outran
outran-IsSpan = omega arith

account_counts_example :
    ((account outran).exact_collections ≡ pos 100 -ℤ pos 1 +ℤ pos 1)
    × ((account outran).observed_collections ≡ pos 2)
    × ((account outran).exact_collections
        ≡ (account outran).observed_collections +ℤ (account outran).lost_collections)
    × (pos 0 ≤ℤ (account outran).observed_collections)
    × (pos 0 ≤ℤ (account outran).lost_collections)
account_counts_example = account_counts outran outran-IsSpan

account-Pauses_example : Pauses (pos 1000) true true (account outran)
account-Pauses_example = account-Pauses outran outran-IsSpan (omega arith) (omega arith)
