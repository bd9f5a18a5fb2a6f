-- ===== src/Registry/Tables.antt =====
-- The part of src/remote_debugging/offsets/mod.rs that makes an `OffsetTable` of a compiled layout.
-- The layouts are generated code: `VersionedOffsets` holds what their accessors return, and the
-- table of candidates, whose layouts are generated too, is a parameter.
use gc_scope.Base.{ℕ, true, false, not, Option, none, some, List, [], ◌∷◌, ◌==◌, if◌then◌else◌}
use gc_scope.Base.Eq.{nat_eq}
use gc_scope.Base.Map.{lookup}
use gc_scope.Base.Word.{add_u64, mul_u64}
use gc_scope.GcStats.{GcItemLayout}
use gc_scope.OffsetTable.{
  OffsetTable, GcStatsKind, no_stats, inline_array, ring_buffer, PerGen, compute_ring_base_offsets,
}

pub record GcStatsShape : Type 0 where
  pub kind : GcStatsKind
  pub item_size : ℕ
  pub layout : Option GcItemLayout

pub record GcCandidate : Type 0 where
  pub kind : GcStatsKind
  pub item_size : ℕ
  pub layout : GcItemLayout

-- What the accessors of a compiled layout return.
pub record VersionedOffsets : Type 0 where
  pub free_threaded : ℕ
  pub expected_version : ℕ
  pub runtime_interpreters_head : ℕ
  pub interpreter_state_next : ℕ
  pub interpreter_state_id : ℕ
  pub interpreter_state_threads_head : ℕ
  pub interpreter_state_gc : ℕ
  pub thread_state_interp : ℕ
  pub gc_collecting : ℕ
  pub gc_frame : ℕ
  pub gc_generation_stats : ℕ
  pub gc_generation_stats_size : ℕ
  pub gc_runtime_size : ℕ
  pub gc_stats_shape : GcStatsShape
  pub gc_inline_off : ℕ

unfoldable pub set_inline : OffsetTable → ℕ → GcItemLayout → ℕ → OffsetTable
set_inline table item_size layout inline_off = record table {
  gc_stats_kind = inline_array;
  gc_layout = some layout;
  gc_item_size = some item_size;
  gc_entries_per_gen = some (record { young = 1; old0 = 1; old1 = 1 });
  gc_gen_base_offsets = some (record { young = 0; old0 = item_size; old1 = mul_u64 2 item_size });
  gc_stats_inline_off = inline_off;
  gc_stats_addr_is_per_interp = true;
}

-- The counts are written out here and in `set_ring`.
unfoldable pub expected_ring_size : ℕ → ℕ → ℕ
unfolding compute_ring_base_offsets
expected_ring_size item_size free_threaded =
    let (young, old) : ℕ × ℕ = if not (free_threaded == 0) then (1, 1) else (11, 3) in
    let entries : PerGen = record { young = young; old0 = old; old1 = old } in
    let bases = compute_ring_base_offsets item_size entries in
    add_u64 (add_u64 bases.old1 (mul_u64 entries.old1 item_size)) 8

-- The first candidate of the ring size that the process reports.
unfoldable pub matching_shape : List GcCandidate → ℕ → ℕ → GcStatsShape → GcStatsShape
unfolding expected_ring_size
matching_shape [] reported free_threaded default = default
matching_shape (c ∷ cs) reported free_threaded default =
    let rest = matching_shape cs reported free_threaded default in
    if expected_ring_size c.item_size free_threaded == reported
    then record { kind = c.kind; item_size = c.item_size; layout = some c.layout }
    else rest

unfoldable pub select_gc_shape :
    List (ℕ × List GcCandidate) → ℕ → ℕ → ℕ → GcStatsShape → GcStatsShape
unfolding matching_shape
select_gc_shape gc_candidates hex reported free_threaded default =
    if reported == 0 then default else elim (lookup hex gc_candidates) [
      | none ↦ default
      | some cs ↦ matching_shape cs reported free_threaded default
    ]

unfoldable pub set_ring : OffsetTable → ℕ → GcItemLayout → ℕ → OffsetTable
set_ring table item_size layout free_threaded =
    let (young, old) : ℕ × ℕ = if not (free_threaded == 0) then (1, 1) else (11, 3) in
    let entries : PerGen = record { young = young; old0 = old; old1 = old } in
    record table {
      gc_stats_kind = ring_buffer;
      gc_layout = some layout;
      gc_item_size = some item_size;
      gc_entries_per_gen = some entries;
      gc_gen_base_offsets = some (compute_ring_base_offsets item_size entries);
      gc_stats_addr_is_per_interp = true;
    }

abbrev pub base_table : VersionedOffsets → OffsetTable
base_table o = record {
  version_hex = o.expected_version;
  runtime_interpreters_head = o.runtime_interpreters_head;
  runtime_gc = none;
  interp_next = o.interpreter_state_next;
  interp_id = o.interpreter_state_id;
  interp_threads_head = o.interpreter_state_threads_head;
  interp_gc = some o.interpreter_state_gc;
  thread_interp = o.thread_state_interp;
  gc_generations = 0x18;
  gc_collecting = o.gc_collecting;
  gc_frame = some o.gc_frame;
  gc_stats_kind = no_stats;
  gc_layout = none;
  gc_stats_addr = none;
  gc_item_size = none;
  gc_entries_per_gen = none;
  gc_gen_base_offsets = none;
  gc_stats_inline_off = 0;
  gc_stats_addr_is_per_interp = false;
}

-- The geometry of a shape, set on a table.
unfoldable pub set_shape : VersionedOffsets → GcStatsShape → OffsetTable → OffsetTable
unfolding set_inline set_ring
set_shape o shape table = elim shape.layout [
  | none ↦ table
  | some layout ↦ elim shape.kind [
    | no_stats ↦ table
    | inline_array ↦ set_inline table shape.item_size layout o.gc_inline_off
    | ring_buffer ↦ set_ring table shape.item_size layout o.free_threaded
  ]
]

unfoldable pub to_offset_table : List (ℕ × List GcCandidate) → VersionedOffsets → OffsetTable
unfolding select_gc_shape set_shape
to_offset_table gc_candidates o =
    set_shape o
      (select_gc_shape gc_candidates o.expected_version o.gc_generation_stats_size o.free_threaded
        o.gc_stats_shape)
      (base_table o)
