-- ===== src/Fixtures.antt =====
-- Data for the tests: a concrete `Float64`, the layouts of a ring build and of a counter-only one,
-- and entries of both, as the tests of the program build them.
pub mod Python312
pub mod Python315
use gc_scope.Base.{ℕ, zero, suc, ◌*◌, ◌/◌, ◌%◌, true, List, [], ◌∷◌, ◌++◌}
use gc_scope.Base.Int.{ℤ, pos, pos_part, ◌-ℤ◌, as_i64, wrap_i64, InI64-wrap_i64}
use gc_scope.Base.Float.{Float64}
use gc_scope.GcStats.{GcStat, GcItemLayout}

-- Whole numbers in the place of floats: seconds are counted in nanoseconds, so `1e9` is one.
instance abbrev pub ticks : Float64 ℤ
ticks = record {
  zero = pos 0;
  one = pos 1;
  giga = pos 1;
  from_bits = as_i64;
  of_i64 = λ z. z;
  sub = ◌-ℤ◌;
  mul = λ a b. pos (pos_part a * pos_part b);
  div = λ a b. pos (pos_part a / pos_part b);
  round = λ a. a;
  is_finite = λ a. true;
  to_i64 = wrap_i64;
  InI64-to_i64 = InI64-wrap_i64;
}

abbrev pub ring_layout : GcItemLayout
ring_layout = record {
  item_size = 32;
  fields = ("ts_start", 0) ∷ ("ts_stop", 8) ∷ ("collections", 16) ∷ ("duration", 24) ∷ [];
}

abbrev pub counts_layout : GcItemLayout
counts_layout = record {
  item_size = 24;
  fields = ("collections", 0) ∷ ("collected", 8) ∷ ("uncollectable", 16) ∷ [];
}

-- `to_le_bytes` of a small count of bytes.
abbrev pub to_le_bytes : ℕ → ℕ → List ℕ
to_le_bytes zero v = []
to_le_bytes (suc n) v = (v % 256) ∷ to_le_bytes n (v / 256)

-- A Record of a ring build: its interpreter, generation, counter, bounds and running total.
abbrev pub ring_stat : ℤ → ℕ → ℕ → ℕ → ℕ → ℕ → GcStat
ring_stat iid gen counter start stop total = record {
  generation = gen;
  index = 0;
  interpreter_id = iid;
  bytes =
      to_le_bytes 8 start ++ (to_le_bytes 8 stop ++ (to_le_bytes 8 counter ++ to_le_bytes 8 total));
  layout = ring_layout;
}

-- A Record of a build with no timing.
abbrev pub counted_stat : ℕ → ℕ → ℕ → GcStat
counted_stat gen counter freed = record {
  generation = gen;
  index = 0;
  interpreter_id = pos 0;
  bytes = to_le_bytes 8 counter ++ (to_le_bytes 8 freed ++ to_le_bytes 8 0);
  layout = counts_layout;
}

-- Two finished Records and one still running, of generation 0 of interpreter 0, and one finished
-- Record of generation 1.
abbrev pub poll : List GcStat
poll =
    ring_stat (pos 0) 0 11 2000 2600 1000
    ∷ ring_stat (pos 0) 0 10 1000 1400 400
    ∷ ring_stat (pos 0) 0 12 3000 0 0
    ∷ ring_stat (pos 0) 1 2 500 700 200
    ∷ []
