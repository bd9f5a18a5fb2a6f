-- ===== src/Snapshot/Tests.antt =====
-- The entries of a Python 3.12, and the average of a ring that has wrapped.
use gc_scope.Base.{ℕ, ◌≡◌, refl, some, List, [], ◌∷◌, ◌++◌, length, arith, if◌then◌else◌}
use gc_scope.Base.Int.{ℤ, pos, wrap_i64, ◌-ℤ◌, ltb_ℤ, sub_i64}
use gc_scope.Fixtures.{ticks, to_le_bytes}
use gc_scope.OffsetTable.{PerGen, decode_gc_stats}
use gc_scope.GcStats.{GcStat}
use gc_scope.OffsetTable.Regions.{Contained}
use gc_scope.Registry.Legacy.{v3_12, legacy_gc_layout}
use gc_scope.Snapshot.{GcEntry, parse_gc_entries, avg_of}
use gc_scope.Snapshot.Shown.{AllShown, parse_gc_entries-AllShown}
use gc_scope.Snapshot.Window.{IsLeast, IsGreatest, avg_of-IsLeast}

abbrev one_each : PerGen
one_each = record { young = 1; old0 = 1; old1 = 1 }

abbrev bases : PerGen
bases = record { young = 0; old0 = 24; old1 = 48 }

abbrev raw : List ℕ
raw = to_le_bytes 24 9 ++ (to_le_bytes 24 5 ++ to_le_bytes 24 2)

contained : Contained 24 one_each bases
contained = record { in_young = omega arith; in_old0 = omega arith; fits = omega arith }

parse_gc_entries-AllShown_example :
    (stats : List GcStat) × (shown : List (GcEntry ℤ)) × (length stats ≡ 3)
    × (decode_gc_stats (v3_12 0x030c0000) raw (pos 0) ≡ some stats)
    × (parse_gc_entries raw (v3_12 0x030c0000) ≡ some shown)
    × AllShown ℤ 24 raw stats shown
unfolding v3_12
parse_gc_entries-AllShown_example =
    parse_gc_entries-AllShown ℤ (v3_12 0x030c0000) raw 24 one_each bases legacy_gc_layout refl refl
      refl refl (omega arith) contained (omega arith)

-- An entry of the given count and total duration.
abbrev entry : ℕ → ℕ → GcEntry ℤ
entry count total = record {
  generation = 0;
  index = 0;
  byte_offset = 0;
  start_ts = pos 0;
  stop_ts = pos 0;
  collections = pos count;
  collected = pos 0;
  uncollectable = pos 0;
  candidates = pos 0;
  duration = pos total;
  heap_size = pos 0;
}

wrapped : avg_of (entry 10 500 ∷ entry 11 540 ∷ entry 5 100 ∷ entry 6 150 ∷ []) ≡ pos 73
unfolding avg_of sub_i64 wrap_i64 ◌-ℤ◌
wrapped = refl

avg_of-IsLeast_example :
    (least : GcEntry ℤ) × (most : GcEntry ℤ) × IsLeast
      (λ (s : GcEntry ℤ). s.collections)
      least
      (entry 10 500 ∷ entry 11 540 ∷ entry 5 100 ∷ entry 6 150 ∷ [])
    × IsGreatest
        (λ (s : GcEntry ℤ). s.collections)
        most
        (entry 10 500 ∷ entry 11 540 ∷ entry 5 100 ∷ entry 6 150 ∷ [])
    × (avg_of (entry 10 500 ∷ entry 11 540 ∷ entry 5 100 ∷ entry 6 150 ∷ []) ≡ (
        if ltb_ℤ (pos 0) (sub_i64 most.collections least.collections)
        then ticks.div
            (ticks.sub most.duration least.duration)
            (ticks.of_i64 (sub_i64 most.collections least.collections))
        else ticks.zero))
avg_of-IsLeast_example =
    avg_of-IsLeast (entry 10 500) (entry 11 540) (entry 5 100 ∷ entry 6 150 ∷ [])
