-- ===== src/Registry/Geometry.antt =====
-- The tables that the program makes have a sound geometry, whatever bytes they decode.
use gc_scope.Base.{
  ℕ, ◌+◌, ◌*◌, ◌%◌, ◌^◌, ◌<◌, ◌≡◌, refl, true, Option, none, some, List, ◌==◌, ltb, is_some, length,
  arith, Bool-cases, inl, inr, ap, if◌then◌else◌,
}
use gc_scope.Base.Int.{ℤ}
use gc_scope.Base.Word.{u64_mod, mul_u64}
use gc_scope.GcStats.{GcItemLayout}
use gc_scope.OffsetTable.{
  OffsetTable, GcStatsKind, no_stats, inline_array, ring_buffer, PerGen, compute_ring_base_offsets,
  gc_stats_region_size, stats_buffer_len, decode_gc_stats,
}
use gc_scope.OffsetTable.Regions.{Contained}
use gc_scope.OffsetTable.Rings.{ring_bytes, Contained-compute_ring_base_offsets}
use gc_scope.OffsetTable.Decode.{decode_gc_stats_described}
use gc_scope.Registry.Tables.{
  VersionedOffsets, GcStatsShape, set_inline, set_ring, expected_ring_size, set_shape,
}

-- A table with no stats decodes nothing.
decode-no_layout :
    (t : OffsetTable) (raw : List ℕ) (iid : ℤ)
    → t.gc_layout ≡ none
    → is_some (decode_gc_stats t raw iid) ≡ true
unfolding decode_gc_stats
decode-no_layout t raw iid h = ground (arith, h)

stats_buffer_len_exact :
    (t : OffsetTable) (item : ℕ) (entries bases : PerGen) (layout : GcItemLayout)
    → t.gc_item_size ≡ some item
    → t.gc_entries_per_gen ≡ some entries
    → t.gc_gen_base_offsets ≡ some bases
    → t.gc_layout ≡ some layout
    → bases.old1 + entries.old1 * item < u64_mod
    → stats_buffer_len t ≡ (if item == 0 then none else some (bases.old1 + entries.old1 * item))
unfolding stats_buffer_len
stats_buffer_len_exact t item entries bases layout hi he hb hl fits = ground arith

decode_nothing :
    (t : OffsetTable) (raw : List ℕ) (iid : ℤ)
    → stats_buffer_len t ≡ none
    → is_some (decode_gc_stats t raw iid) ≡ true
unfolding decode_gc_stats
decode_nothing t raw iid h = ground (arith, h)

decode_short :
    (t : OffsetTable) (raw : List ℕ) (iid : ℤ) (total : ℕ)
    → stats_buffer_len t ≡ some total
    → ltb (length raw) total ≡ true
    → is_some (decode_gc_stats t raw iid) ≡ true
unfolding decode_gc_stats
decode_short t raw iid total h short = ground (arith, h, short)

decode-Contained :
    (t : OffsetTable) (raw : List ℕ) (iid : ℤ) (item : ℕ) (entries bases : PerGen)
    (layout : GcItemLayout)
    → t.gc_item_size ≡ some item
    → t.gc_entries_per_gen ≡ some entries
    → t.gc_gen_base_offsets ≡ some bases
    → t.gc_layout ≡ some layout
    → Contained item entries bases
    → is_some (decode_gc_stats t raw iid) ≡ true
decode-Contained t raw iid item entries bases layout hi he hb hl c =
    let total = bases.old1 + entries.old1 * item in
    let len = stats_buffer_len_exact t item entries bases layout hi he hb hl c.fits in
    elim (Bool-cases (item == 0)) [
      | inl empty ↦ decode_nothing t raw iid (rw empty at len)
      | inr some_bytes ↦ elim (Bool-cases (ltb (length raw) total)) [
        | inl short ↦ decode_short t raw iid total (rw some_bytes at len) short
        | inr long ↦
            let whole =
              decode_gc_stats_described t raw iid item entries bases layout hi he hb hl
                (ground (arith, some_bytes)) c (ground (arith, long)) in
            ap is_some whole.0
      ]
    ]

inline-Contained :
    (item : ℕ)
    → item < 2 ^ 32
    → Contained item
        (record { young = 1; old0 = 1; old1 = 1 })
        (record { young = 0; old0 = item; old1 = mul_u64 2 item })
inline-Contained item small = record {
  in_young = omega arith;
  in_old0 = omega arith;
  fits = omega arith;
}

rings-Contained :
    (item young old : ℕ)
    → ring_bytes item (record { young = young; old0 = old; old1 = old }) < u64_mod
    → Contained item
        (record { young = young; old0 = old; old1 = old })
        (compute_ring_base_offsets item (record { young = young; old0 = old; old1 = old }))
rings-Contained item young old fits = Contained-compute_ring_base_offsets item _ fits

-- Whatever shape is set on a table without one, and whatever bytes are decoded with the table, the
-- decoder does not panic. An entry is smaller than 2 ^ 32 bytes.
pub set_shape-decodes :
    (o : VersionedOffsets) (shape : GcStatsShape) (table : OffsetTable) (raw : List ℕ) (iid : ℤ)
    → shape.item_size < 2 ^ 32
    → table.gc_layout ≡ none
    → is_some (decode_gc_stats (set_shape o shape table) raw iid) ≡ true
unfolding set_shape set_inline set_ring
set_shape-decodes o shape table raw iid small h = by_parts shape.kind shape.layout
  where
    by_parts :
        (kind : GcStatsKind) (layout : Option GcItemLayout)
        → is_some (
            decode_gc_stats
              (set_shape o (record shape { kind = kind; layout = layout }) table)
              raw
              iid)
          ≡ true
    by_parts kind none = decode-no_layout table raw iid h
    by_parts no_stats (some l) = decode-no_layout table raw iid h
    by_parts inline_array (some l) =
        decode-Contained _ raw iid shape.item_size _ _ l refl refl refl refl
          (inline-Contained shape.item_size small)
    by_parts ring_buffer (some l) =
        decode-Contained _ raw iid shape.item_size _ _ l refl refl refl refl
          (rings-Contained shape.item_size _ _ (ground (arith, small)))

-- The ring size by which a shape is selected is the region size of the table made of it, whose
-- counts and whose formula are written out apart from it: the bytes of 17 entries, or of 3 on a
-- free-threaded build, and of three cursor words, in 64-bit arithmetic.
pub expected_ring_size-set_ring :
    (table : OffsetTable) (item_size free_threaded : ℕ) (layout : GcItemLayout)
    → (gc_stats_region_size (set_ring table item_size layout free_threaded)
        ≡ expected_ring_size item_size free_threaded)
      × (expected_ring_size item_size free_threaded
          ≡ ((if free_threaded == 0 then 17 * item_size else 3 * item_size) + 24) % u64_mod)
unfolding gc_stats_region_size set_ring expected_ring_size compute_ring_base_offsets
expected_ring_size-set_ring table item_size free_threaded layout = (ground arith, ground arith)
