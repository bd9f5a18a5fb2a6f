-- ===== src/GcStats.antt =====
-- src/remote_debugging/gc_stats.rs, and `GcItemLayout` of
-- src/remote_debugging/offsets/offset_table.rs: one decoded entry of the GC generation stats, as
-- a view of its raw bytes through the build's field layout.
pub mod Bounds
use gc_scope.Base.{
  ℕ, ◌+◌, Bool, true, false, ◌&&◌, Option, none, some, List, [], ◌∷◌, if◌then◌else◌, unwrap_or,
  get_range, String, str_eq,
}
use gc_scope.Base.Int.{ℤ, pos, as_i64, ltb_ℤ}
use gc_scope.Base.Word.{from_le_bytes}
use gc_scope.Base.Float.{Float64}
use mathlib.Core.Option

pub record GcItemLayout : Type 0 where
  pub item_size : ℕ
  pub fields : List (String × ℕ)

-- `fields.iter().find(|(n, _)| n == name).map(|(_, o)| o)`.
unfoldable pub find_field : String → List (String × ℕ) → Option ℕ
find_field name [] = none
find_field name ((n, o) ∷ rest) = if str_eq n name then some o else find_field name rest

unfoldable pub field_offset : GcItemLayout → String → Option ℕ
unfolding find_field
field_offset layout name = find_field name layout.fields

-- `fields.iter().any(|(n, _)| n == name)`.
unfoldable pub any_field : String → List (String × ℕ) → Bool
any_field name [] = false
any_field name ((n, _) ∷ rest) = if str_eq n name then true else any_field name rest

unfoldable pub has_field : GcItemLayout → String → Bool
unfolding any_field
has_field layout name = any_field name layout.fields

pub record GcStat : Type 0 where
  pub generation : ℕ
  pub index : ℕ
  pub interpreter_id : ℤ
  pub bytes : List ℕ
  pub layout : GcItemLayout

-- The 8 little-endian bytes at `off`, or `none` if the entry is too short.
unfoldable pub raw_at : GcStat → ℕ → Option ℕ
unfolding from_le_bytes
raw_at s off = Option.map from_le_bytes (get_range s.bytes off (off + 8))

abbrev pub field_bits : GcStat → String → Option ℕ
field_bits s name = elim (field_offset s.layout name) [ none ↦ none | some off ↦ raw_at s off ]

unfoldable pub get : GcStat → String → Option ℤ
get s name = Option.map as_i64 (field_bits s name)

unfoldable pub has : GcStat → String → Bool
has s name = has_field s.layout name

-- The core fields, which read as zero where the layout lacks them.
unfoldable pub ts_start : GcStat → ℤ
unfolding get
ts_start s = unwrap_or (get s "ts_start") (pos 0)

unfoldable pub ts_stop : GcStat → ℤ
unfolding get
ts_stop s = unwrap_or (get s "ts_stop") (pos 0)

unfoldable pub collections : GcStat → ℤ
unfolding get
collections s = unwrap_or (get s "collections") (pos 0)

unfoldable pub collected : GcStat → ℤ
unfolding get
collected s = unwrap_or (get s "collected") (pos 0)

unfoldable pub uncollectable : GcStat → ℤ
unfolding get
uncollectable s = unwrap_or (get s "uncollectable") (pos 0)

unfoldable pub candidates : GcStat → ℤ
unfolding get
candidates s = unwrap_or (get s "candidates") (pos 0)

unfoldable pub heap_size : GcStat → ℤ
unfolding get
heap_size s = unwrap_or (get s "heap_size") (pos 0)

module _ {F : Type 0} ⦃f : Float64 F⦄ where
  unfoldable pub get_f64 : GcStat → String → Option F
  get_f64 s name = Option.map f.from_bits (field_bits s name)

  unfoldable pub duration : GcStat → F
  unfolding get_f64
  duration s = unwrap_or (get_f64 s "duration") f.zero

-- Whether the build publishes the timestamps that bound a collection.
unfoldable pub has_timing : GcStat → Bool
unfolding has
has_timing s = has s "ts_start" && has s "ts_stop"

-- Whether the entry describes a finished collection.
unfoldable pub is_complete : GcStat → Bool
unfolding has_timing
is_complete s = if has_timing s then ltb_ℤ (ts_start s) (ts_stop s) else true

-- Every field the layout defines, in layout order, that the entry's bytes reach.
unfoldable pub fields_from : GcStat → List (String × ℕ) → List (String × ℕ × ℕ)
fields_from s [] = []
fields_from s ((name, off) ∷ rest) =
    let more = fields_from s rest in
    elim (raw_at s off) [ none ↦ more | some v ↦ (name, off, v) ∷ more ]

unfoldable pub iter_fields : GcStat → List (String × ℕ × ℕ)
unfolding fields_from
iter_fields s = fields_from s s.layout.fields
