-- ===== src/GcStats/Bounds.antt =====
-- The core fields of an entry are `i64` values whatever its bytes are.
use gc_scope.Base.{ℕ, Option, none, some, String, unwrap_or, arith}
use gc_scope.Base.Int.{pos, InI64, as_i64, InI64-as_i64}
use gc_scope.GcStats.{GcStat, get, collections, field_bits}
use mathlib.Core.Option

InI64-map : (o : Option ℕ) → InI64 (unwrap_or (Option.map as_i64 o) (pos 0))
InI64-map none = omega arith
InI64-map (some v) = InI64-as_i64 v

pub InI64-get : (s : GcStat) (name : String) → InI64 (unwrap_or (get s name) (pos 0))
unfolding get
InI64-get s name = InI64-map (field_bits s name)

pub InI64-collections : (s : GcStat) → InI64 (collections s)
unfolding collections
InI64-collections s = InI64-get s "collections"
