-- ===== src/OffsetTable.antt =====
-- src/remote_debugging/offsets/offset_table.rs: where a build keeps its generation stats, and how
-- the bytes read there are cut into entries.
pub mod Regions
pub mod Decode
pub mod Rings
pub mod Marks
mod Tests
use gc_scope.Base.{
  ℕ, zero, suc, ◌+◌, Bool, true, false, not, ◌&&◌, ◌||◌, Option, none, some, List, [], ◌∷◌, ◌++◌,
  ◌>>=◌, ltb, leb, ◌==◌, if◌then◌else◌, is_some, unwrap_or, length, get_range, String,
}
use gc_scope.Base.Int.{ℤ}
use gc_scope.Base.Word.{add_u64, mul_u64}
use gc_scope.GcStats.{GcStat, GcItemLayout}

-- `GcStatsKind`, whose `None` is `no_stats`.
pub data GcStatsKind : Type 0 where
  no_stats : GcStatsKind
  inline_array : GcStatsKind
  ring_buffer : GcStatsKind

pub data GcStatsRegion : Type 0 where
  absent : GcStatsRegion
  direct : ℕ → GcStatsRegion
  deref : ℕ → GcStatsRegion

-- `[u64; 3]`: a number for each generation.
pub record PerGen : Type 0 where
  pub young : ℕ
  pub old0 : ℕ
  pub old1 : ℕ

-- The element of an array of three; the code tests the index first.
unfoldable pub per_gen : PerGen → ℕ → ℕ
per_gen a zero = a.young
per_gen a (suc zero) = a.old0
per_gen a (suc (suc g)) = a.old1

pub record OffsetTable : Type 0 where
  pub version_hex : ℕ
  pub runtime_interpreters_head : ℕ
  pub runtime_gc : Option ℕ
  pub interp_next : ℕ
  pub interp_id : ℕ
  pub interp_threads_head : ℕ
  pub interp_gc : Option ℕ
  pub thread_interp : ℕ
  pub gc_generations : ℕ
  pub gc_collecting : ℕ
  pub gc_frame : Option ℕ
  pub gc_stats_kind : GcStatsKind
  pub gc_layout : Option GcItemLayout
  pub gc_stats_addr : Option ℕ
  pub gc_item_size : Option ℕ
  pub gc_entries_per_gen : Option PerGen
  pub gc_gen_base_offsets : Option PerGen
  pub gc_stats_inline_off : ℕ
  pub gc_stats_addr_is_per_interp : Bool

unfoldable pub has_global_gc : OffsetTable → Bool
has_global_gc t = not (is_some t.interp_gc) && is_some t.runtime_gc

unfoldable pub gc_state_addr : OffsetTable → ℕ → ℕ → ℕ
unfolding has_global_gc
gc_state_addr t runtime_addr interp_addr =
    if has_global_gc t
    then add_u64 runtime_addr (unwrap_or t.runtime_gc 0)
    else add_u64 interp_addr (unwrap_or t.interp_gc 0)

unfoldable pub gc_stats_region : OffsetTable → ℕ → ℕ → GcStatsRegion
gc_stats_region t gc_addr gen_stats_ptr_off = elim t.gc_stats_kind [
  | no_stats ↦ absent
  | inline_array ↦ direct (add_u64 gc_addr t.gc_stats_inline_off)
  | ring_buffer ↦
      if gen_stats_ptr_off == 0 then absent else deref (add_u64 gc_addr gen_stats_ptr_off)
]

unfoldable pub entry_byte_offset : OffsetTable → ℕ → ℕ → Option ℕ
unfolding per_gen
entry_byte_offset t generation index = do
  item ← t.gc_item_size
  bases ← t.gc_gen_base_offsets
  entries ← t.gc_entries_per_gen
  if leb 3 generation || leb (per_gen entries generation) index
      then none
      else some (add_u64 (per_gen bases generation) (mul_u64 index item))

unfoldable pub gc_stats_region_size : OffsetTable → ℕ
gc_stats_region_size t = elim t.gc_stats_kind [
  | ring_buffer ↦
      unwrap_or
        (do
          item ← t.gc_item_size
          entries ← t.gc_entries_per_gen
          bases ← t.gc_gen_base_offsets
          some (add_u64 (add_u64 bases.old1 (mul_u64 entries.old1 item)) 8))
        0
  | _ ↦ 0
]

unfoldable pub stats_buffer_len : OffsetTable → Option ℕ
stats_buffer_len t = do
  item ← t.gc_item_size
  if item == 0 then none else do
    entries ← t.gc_entries_per_gen
    bases ← t.gc_gen_base_offsets
    layout ← t.gc_layout
    some (add_u64 bases.old1 (mul_u64 entries.old1 item))

-- The arguments that the loops of `decode_gc_stats` share.
pub record Decoding : Type 0 where
  pub raw : List ℕ
  pub iid : ℤ
  pub item_size : ℕ
  pub layout : GcItemLayout

unfoldable pub entry_at : Decoding → ℕ → ℕ → List ℕ → GcStat
entry_at d gidx entry window = record {
  generation = gidx;
  index = entry;
  interpreter_id = d.iid;
  bytes = window;
  layout = d.layout;
}

-- The loop `for entry in 0..n` of one generation, from `entry` on with `n` entries left. It stops
-- at an entry that the bytes do not hold; `none` is the panic of a slice out of range.
unfoldable pub walk_generation : Decoding → ℕ → ℕ → ℕ → ℕ → Option (List GcStat)
unfolding entry_at
walk_generation d gidx base entry zero = some []
walk_generation d gidx base entry (suc n) =
    let rest = walk_generation d gidx base (suc entry) n in
    let off = add_u64 base (mul_u64 entry d.item_size) in
    if ltb (length d.raw) (add_u64 off d.item_size) then some [] else do
      window ← get_range d.raw off (add_u64 off d.item_size)
      later ← rest
      some (entry_at d gidx entry window ∷ later)

-- `none` is a panic.
unfoldable pub decode_gc_stats : OffsetTable → List ℕ → ℤ → Option (List GcStat)
unfolding walk_generation
decode_gc_stats t raw iid = elim (stats_buffer_len t) [
  | none ↦ some []
  | some total ↦ if ltb (length raw) total then some [] else elim t.gc_layout [
    | none ↦ some []
    | some layout ↦
        let entries = unwrap_or t.gc_entries_per_gen (record { young = 0; old0 = 0; old1 = 0 }) in
        let bases = unwrap_or t.gc_gen_base_offsets (record { young = 0; old0 = 0; old1 = 0 }) in
        let d : Decoding = record {
          raw = raw;
          iid = iid;
          item_size = unwrap_or t.gc_item_size 0;
          layout = layout;
        } in
        do
          s0 ← walk_generation d 0 bases.young 0 entries.young
          s1 ← walk_generation d 1 bases.old0 0 entries.old0
          s2 ← walk_generation d 2 bases.old1 0 entries.old1
          some (s0 ++ (s1 ++ s2))
  ]
]

unfoldable pub compute_ring_base_offsets : ℕ → PerGen → PerGen
compute_ring_base_offsets item_size entries = record {
  young = 0;
  old0 = add_u64 (mul_u64 entries.young item_size) 8;
  old1 =
      add_u64
        (add_u64 (add_u64 (mul_u64 entries.young item_size) 8) (mul_u64 entries.old0 item_size)) 8;
}
