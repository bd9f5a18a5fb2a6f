-- ===== src/Convert/Tests.antt =====
-- Runs of the conversion on a timed Record with a phase, and on one of a build with no timing.
use gc_scope.Base.{◌≡◌, refl, [], ◌∷◌, ◌++◌}
use gc_scope.Base.Int.{ℤ, pos, as_i64}
use gc_scope.Base.Text.{codes}
use gc_scope.GcStats.{
  GcStat, GcItemLayout, has_timing, has_field, get, field_offset, raw_at, uncollectable,
}
use gc_scope.Fixtures.{ticks, to_le_bytes, counted_stat}
use gc_scope.Convert.{convert_record, process_meta, thread_meta, counter, int}
use gc_scope.Convert.Nesting.{Closes, convert_record-Closes}
use gc_scope.Convert.Shape.{Led, convert_record-Led}

abbrev phase_layout : GcItemLayout
phase_layout = record {
  item_size = 40;
  fields =
      ("ts_start", 0)
      ∷ ("ts_stop", 8)
      ∷ ("ts_mark_alive_start", 16)
      ∷ ("ts_mark_alive_stop", 24)
      ∷ ("collections", 32)
      ∷ [];
}

-- A pause from 1000 to 1900 with its first phase from 1100 to 1300.
abbrev marked : GcStat
marked = record {
  generation = 1;
  index = 0;
  interpreter_id = pos 0;
  bytes =
      to_le_bytes 8 1000
      ++ (to_le_bytes 8 1900 ++ (to_le_bytes 8 1100 ++ (to_le_bytes 8 1300 ++ to_le_bytes 8 12)));
  layout = phase_layout;
}

convert_record-Closes_example : Closes [] (convert_record {F = ℤ} 7 marked (pos 5))
convert_record-Closes_example = convert_record-Closes ℤ 7 marked (pos 5)

convert_record-Led_example : Led 7 (pos 0) (convert_record {F = ℤ} 7 marked (pos 5))
convert_record-Led_example = convert_record-Led ℤ 7 marked (pos 5)

-- A build with no timing is sampled on the Observer's clock.
counts_sampled :
    convert_record {F = ℤ} 7 (counted_stat 2 30 4) (pos 5)
    ≡ process_meta 7 (codes "python 7")
      ∷ (thread_meta 7 (pos 0) (codes "7:0")
          ∷ (counter 7
                (pos 0)
                (pos 5)
                (codes "G2")
                (("collections", int (pos 30)) ∷ (("collected", int (pos 4)) ∷ []))
              ∷ []))
unfolding convert_record has_timing has_field get field_offset raw_at as_i64 uncollectable
counts_sampled = refl
