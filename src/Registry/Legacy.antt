-- ===== src/Registry/Legacy.antt =====
-- src/remote_debugging/offsets/pre_3_13.rs: the tables of the versions that publish no offsets.
use gc_scope.Base.{ℕ, ◌+◌, ◌*◌, ◌^◌, Option, none, some, [], ◌∷◌, true, ◌==◌, if◌then◌else◌, ◌&&◌}
use gc_scope.GcStats.{GcItemLayout}
use gc_scope.OffsetTable.{OffsetTable, inline_array}

abbrev pub legacy_item_size : ℕ
legacy_item_size = 24

-- `LEGACY_GC_LAYOUT`.
abbrev pub legacy_gc_layout : GcItemLayout
legacy_gc_layout = record {
  item_size = legacy_item_size;
  fields = ("collections", 0) ∷ ("collected", 8) ∷ ("uncollectable", 16) ∷ [];
}

-- The offsets that vary by version, in the order of the arguments of `table`.
unfoldable pub table : ℕ → ℕ → ℕ → ℕ → ℕ → Option ℕ → ℕ → ℕ → Option ℕ → OffsetTable
table version_hex runtime_ih interp_next interp_id interp_ts_head interp_gc thread_interp gc_gen
      runtime_gc =
    record {
      version_hex = version_hex;
      runtime_interpreters_head = runtime_ih;
      runtime_gc = runtime_gc;
      interp_next = interp_next;
      interp_id = interp_id;
      interp_threads_head = interp_ts_head;
      interp_gc = interp_gc;
      thread_interp = thread_interp;
      gc_generations = gc_gen;
      gc_collecting = 0xc8;
      gc_frame = none;
      gc_stats_kind = inline_array;
      gc_layout = some legacy_gc_layout;
      gc_stats_addr = none;
      gc_item_size = some legacy_item_size;
      gc_entries_per_gen = some (record { young = 1; old0 = 1; old1 = 1 });
      gc_gen_base_offsets = some (record { young = 0; old0 = 24; old1 = 48 });
      gc_stats_inline_off = 0x80;
      gc_stats_addr_is_per_interp = true;
    }

unfoldable pub v3_8 : ℕ → OffsetTable
unfolding table
v3_8 hex = table hex 0x20 0 0x10 0x08 none 0x10 0x18 (some 0x158)

unfoldable pub v3_9 : ℕ → OffsetTable
unfolding table
v3_9 hex = table hex 0x20 0 0x18 0x08 (some 0x268) 0x10 0x18 none

unfoldable pub v3_10 : ℕ → OffsetTable
unfolding v3_9
v3_10 hex = v3_9 hex

unfoldable pub v3_11 : ℕ → OffsetTable
unfolding table
v3_11 hex = table hex 0x28 0 0x30 0x10 (some 0x288) 0x10 0x18 none

unfoldable pub v3_12 : ℕ → OffsetTable
unfolding table
v3_12 hex = table hex 0x28 0 0x08 0x48 (some 0x70) 0x10 0x18 none

-- `major` and `minor` are bytes, so their bits do not overlap.
unfoldable pub table_for_version : ℕ → ℕ → Option OffsetTable
unfolding v3_8 v3_9 v3_10 v3_11 v3_12
table_for_version major minor =
    let version_hex = major * 2 ^ 24 + minor * 2 ^ 16 in
    if major == 3 && minor == 8
    then some (v3_8 version_hex)
    else if major == 3 && minor == 9
    then some (v3_9 version_hex)
    else if major == 3 && minor == 10
    then some (v3_10 version_hex)
    else if major == 3 && minor == 11
    then some (v3_11 version_hex)
    else if major == 3 && minor == 12
    then some (v3_12 version_hex)
    else none
