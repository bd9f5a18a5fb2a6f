-- ===== src/OffsetTable/Tests.antt =====
-- Runs of the offset table on a ring build with entries of 8 bytes.
use gc_scope.Base.{
  ℕ, ◌+◌, ◌≤◌, ◌≡◌, refl, none, some, List, [], ◌∷◌, ◌++◌, false, All, length, arith, inl,
}
use gc_scope.Base.Int.{pos}
use gc_scope.GcStats.{GcItemLayout, GcStat}
use gc_scope.Fixtures.{to_le_bytes}
use gc_scope.OffsetTable.{
  OffsetTable, ring_buffer, PerGen, compute_ring_base_offsets, entry_byte_offset, decode_gc_stats,
  gc_stats_region_size, stats_buffer_len, Decoding,
}
use gc_scope.OffsetTable.Decode.{described_all, decode_gc_stats_described}
use gc_scope.OffsetTable.Rings.{
  gc_stats_region_size_exact, entry_byte_offset_disjoint, Contained-compute_ring_base_offsets,
}

abbrev word_layout : GcItemLayout
word_layout = record { item_size = 8; fields = ("collections", 0) ∷ [] }

abbrev two_one_one : PerGen
two_one_one = record { young = 2; old0 = 1; old1 = 1 }

abbrev ring_table : OffsetTable
ring_table = record {
  version_hex = 0x030f00b1;
  runtime_interpreters_head = 0x328;
  runtime_gc = none;
  interp_next = 0x10;
  interp_id = 0x18;
  interp_threads_head = 0x48;
  interp_gc = some 0x1e00;
  thread_interp = 0x10;
  gc_generations = 0x20;
  gc_collecting = 0x58;
  gc_frame = none;
  gc_stats_kind = ring_buffer;
  gc_layout = some word_layout;
  gc_stats_addr = none;
  gc_item_size = some 8;
  gc_entries_per_gen = some two_one_one;
  gc_gen_base_offsets = some (compute_ring_base_offsets 8 two_one_one);
  gc_stats_inline_off = 0;
  gc_stats_addr_is_per_interp = false;
}

-- Two entries, a cursor word, an entry, a cursor word, an entry.
abbrev ring_raw : List ℕ
ring_raw =
    to_le_bytes 8 7
    ++ (to_le_bytes 8 6
        ++ (to_le_bytes 8 1 ++ (to_le_bytes 8 500 ++ (to_le_bytes 8 0 ++ to_le_bytes 8 90000))))

abbrev ring_decoding : Decoding
ring_decoding = record { raw = ring_raw; iid = pos 0; item_size = 8; layout = word_layout }

decode_gc_stats_described_example :
    (decode_gc_stats ring_table ring_raw (pos 0)
      ≡ some (described_all ring_table ring_decoding two_one_one))
    × All (λ (s : GcStat). length s.bytes ≡ 8) (described_all ring_table ring_decoding two_one_one)
    × (length (described_all ring_table ring_decoding two_one_one) ≡ 4)
unfolding compute_ring_base_offsets
decode_gc_stats_described_example =
    decode_gc_stats_described ring_table ring_raw (pos 0) 8 two_one_one
      (compute_ring_base_offsets 8 two_one_one) word_layout refl refl refl refl (omega arith)
      (Contained-compute_ring_base_offsets 8 two_one_one (omega arith)) (omega arith)

gc_stats_region_size_exact_example :
    (gc_stats_region_size ring_table ≡ 56) × (stats_buffer_len ring_table ≡ some 48)
gc_stats_region_size_exact_example =
    gc_stats_region_size_exact ring_table 8 two_one_one word_layout refl refl refl refl refl
      (omega arith) (omega arith)

entry_byte_offset_disjoint_example : 24 + 8 ≤ 40
unfolding compute_ring_base_offsets entry_byte_offset
entry_byte_offset_disjoint_example =
    entry_byte_offset_disjoint ring_table 8 two_one_one 1 0 2 0 24 40 refl refl refl (omega arith)
      refl refl (inl (omega arith))
