-- ===== src/Cursor/Tests.antt =====
-- Runs of the cursor, and its theorems at concrete polls.
use gc_scope.Base.{
  ℕ, ◌≡◌, refl, ◌↔◌, Bool, true, none, some, List, [], ◌∷◌, ◌++◌, arith, All, length,
}
use gc_scope.Base.Int.{ℤ, pos, ◌≤ℤ◌, ◌-ℤ◌, as_i64, add_i64, sub_i64, wrap_i64, ◌+ℤ◌}
use mathlib.Core.List.{Mem}
use gc_scope.Base.Map.{lookup, insert, insert_sorted}
use gc_scope.Base.Sort.{Pairs, IsSorted, sort_by}
use gc_scope.GcStats.{
  GcStat, collections, is_complete, ts_start, ts_stop, get, field_offset, raw_at, has_field,
  duration, collected, uncollectable,
}
use gc_scope.Fixtures.{ticks, ring_stat, poll}
use gc_scope.Cursor.Ring.{RingKey, RingObservation, key_lt, fold, admits, pause_ns}
use gc_scope.Cursor.Invariant.{IsWellFormed}
use gc_scope.Cursor.Admission.{new-IsWellFormed, admit-IsWellFormed}
use gc_scope.Cursor.Dedup.{PastLast, classify_reports_iff}
use gc_scope.Cursor.Poll.{IsPast, Differ, admit-admit, admit_reports}
use gc_scope.Cursor.Forget.{forget_isolates, forget_retires}
use gc_scope.Cursor.History.{begun, went, polled, died, Reached-IsWellFormed}
use gc_scope.Cursor.Defs.{
  Cursor, new, admit, classify, forget, observation, kept_of, start_le, candidate_le,
  last_certainty, dropped,
}

-- What a decoded field unfolds through.
decoding : GcStat → ℤ × ℤ × ℤ × Bool
unfolding ts_start ts_stop collections is_complete get field_offset raw_at has_field as_i64
    collected uncollectable duration pause_ns sub_i64 add_i64 wrap_i64 ◌-ℤ◌ ◌+ℤ◌ key_lt
decoding r = (ts_start r, ts_stop r, collections r, is_complete r)

abbrev ids : List ℤ
ids = pos 0 ∷ []

-- The poll reports its three finished Records by their start.
poll_order :
    (admit 7 poll (new {F = ℤ})).1
    ≡ ring_stat (pos 0) 1 2 500 700 200
      ∷ ring_stat (pos 0) 0 10 1000 1400 400
      ∷ ring_stat (pos 0) 0 11 2000 2600 1000
      ∷ []
unfolding decoding admit new sort_by candidate_le start_le lookup insert insert_sorted fold admits
poll_order = refl

-- The cursor of process 7 after that poll.
abbrev seen : Cursor ℤ
seen = (admit 7 poll new).0

seen-IsWellFormed : IsWellFormed seen
seen-IsWellFormed = admit-IsWellFormed 7 poll new new-IsWellFormed

abbrev pub gen0 : RingKey
gen0 = record { pid = 7; interpreter = pos 0; generation = 0 }

-- What the poll left of generation 0: two Records, from counter 10 to 11.
abbrev pub two_read : RingObservation ℤ
two_read = record {
  first = record {
    collections = pos 10;
    collected = pos 0;
    uncollectable = pos 0;
    duration = pos 400;
  };
  first_pause_ns = pos 400;
  last = record {
    collections = pos 11;
    collected = pos 0;
    uncollectable = pos 0;
    duration = pos 1000;
  };
  sampled = 2;
  measured_pause_ns = pos 1000;
  timed = true;
  prices_pause = true;
}

two_read-seen : observation seen gen0 ≡ some two_read
unfolding decoding admit new sort_by candidate_le lookup insert insert_sorted fold admits
    observation
two_read-seen = refl

-- A later poll finds the running Record finished and the rest as before.
abbrev later : List GcStat
later = ring_stat (pos 0) 0 12 3000 3100 1100 ∷ poll

later_reports : (admit 7 later seen).1 ≡ ring_stat (pos 0) 0 12 3000 3100 1100 ∷ []
unfolding decoding admit new sort_by candidate_le start_le lookup insert insert_sorted fold admits
later_reports = refl

one_kept : length (kept_of seen 7) ≡ 1
unfolding decoding admit new sort_by candidate_le lookup insert insert_sorted fold admits
one_kept = refl

admit-admit_example : (admit 7 later (admit 7 later seen).0).1 ≡ []
admit-admit_example =
    admit-admit 7 ids later seen seen-IsWellFormed (omega (arith, one_kept))
      (refl, (refl, (refl, (refl, (refl, tt)))))

admit_reports_example :
    All (IsPast 7 ids seen) (admit 7 later seen).1
    × Pairs (Differ 7) (admit 7 later seen).1
    × IsSorted start_le (admit 7 later seen).1
admit_reports_example =
    admit_reports 7 ids later seen seen-IsWellFormed (omega (arith, one_kept))
      (refl, (refl, (refl, (refl, (refl, tt)))))

classify_reports_iff_example :
    ((classify 7 (ring_stat (pos 0) 0 12 3000 3100 1100) seen).1 ≡ true) ↔ (
      (is_complete (ring_stat (pos 0) 0 12 3000 3100 1100) ≡ true)
      × (pos 1 ≤ℤ collections (ring_stat (pos 0) 0 12 3000 3100 1100))
      × PastLast (observation seen gen0) (collections (ring_stat (pos 0) 0 12 3000 3100 1100)))
classify_reports_iff_example =
    classify_reports_iff 7 (ring_stat (pos 0) 0 12 3000 3100 1100) seen seen-IsWellFormed

forget_isolates_example :
    (observation (forget 7 seen) gen0 ≡ none)
    × (last_certainty (forget 7 seen) 7 (pos 0) ≡ none)
    × (kept_of (forget 7 seen) 7 ≡ [])
    × (dropped (forget 7 seen) 7 ≡ 0)
forget_isolates_example = forget_isolates 7 seen gen0 7 (pos 0)

forget_retires_example :
    Mem (gen0, seen.evictions, two_read) (forget 7 seen).retired
    × (more : List (RingKey × ℕ × RingObservation ℤ)) × ((forget 7 seen).retired
        ≡ seen.retired ++ more)
forget_retires_example = forget_retires 7 seen gen0 two_read two_read-seen refl

abbrev after_death : Cursor ℤ
after_death = forget 7 seen

Reached-IsWellFormed_example : IsWellFormed after_death
Reached-IsWellFormed_example = Reached-IsWellFormed (went (went begun (polled 7 poll)) (died 7))
