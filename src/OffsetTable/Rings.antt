-- ===== src/OffsetTable/Rings.antt =====
-- The ring geometry that `compute_ring_base_offsets` lays out: each generation's entries, then a
-- cursor word of 8 bytes.
use gc_scope.Base.{ℕ, zero, suc, ◌+◌, ◌*◌, ◌≤◌, ◌<◌, ◌≡◌, ap, some, arith, ◌⊎◌, inl, inr}
use gc_scope.Base.Word.{u64_mod}
use gc_scope.GcStats.{GcItemLayout}
use gc_scope.OffsetTable.{
  OffsetTable, ring_buffer, PerGen, per_gen, entry_byte_offset, gc_stats_region_size,
  stats_buffer_len, compute_ring_base_offsets,
}
use gc_scope.OffsetTable.Regions.{
  Contained, mul_suc_le, entry_byte_offset_exact, entry_byte_offset_range,
}

-- The region of a ring build, cursor words included.
abbrev pub ring_bytes : ℕ → PerGen → ℕ
ring_bytes item entries =
    entries.young * item + 8 + (entries.old0 * item + 8) + (entries.old1 * item + 8)

-- The rings of a region that fits a word are contained in it.
pub Contained-compute_ring_base_offsets :
    (item : ℕ) (entries : PerGen)
    → ring_bytes item entries < u64_mod
    → Contained item entries (compute_ring_base_offsets item entries)
unfolding compute_ring_base_offsets
Contained-compute_ring_base_offsets item entries fits = record {
  in_young = ground arith;
  in_old0 = ground arith;
  fits = ground arith;
}

bases_exact :
    (item : ℕ) (entries : PerGen)
    → ring_bytes item entries < u64_mod
    → compute_ring_base_offsets item entries ≡ record {
      young = 0;
      old0 = entries.young * item + 8;
      old1 = entries.young * item + 8 + (entries.old0 * item + 8);
    }
unfolding compute_ring_base_offsets
bases_exact item entries fits = ground arith

-- The bytes that a process reports for its rings are those of every entry of every generation and
-- three cursor words, and the decoder reads all of them but the last word.
pub gc_stats_region_size_exact :
    (t : OffsetTable) (item : ℕ) (entries : PerGen) (layout : GcItemLayout)
    → t.gc_stats_kind ≡ ring_buffer
    → t.gc_item_size ≡ some item
    → t.gc_entries_per_gen ≡ some entries
    → t.gc_gen_base_offsets ≡ some (compute_ring_base_offsets item entries)
    → t.gc_layout ≡ some layout
    → 0 < item
    → ring_bytes item entries < u64_mod
    → (gc_stats_region_size t ≡ (entries.young + entries.old0 + entries.old1) * item + 24)
      × (stats_buffer_len t ≡ some ((entries.young + entries.old0 + entries.old1) * item + 16))
unfolding gc_stats_region_size stats_buffer_len compute_ring_base_offsets
gc_stats_region_size_exact t item entries layout hk hi he hb hl pos fits =
    (ground arith, ground arith)

-- One entry comes before another in the order of a table.
abbrev pub Earlier : ℕ → ℕ → ℕ → ℕ → Type 0
Earlier g i h j = (g < h) ⊎ ((g ≡ h) × (i < j))

-- Where the entries of a generation end, next to where the next generation begins.
ring_below :
    (item : ℕ) (entries : PerGen) (g h : ℕ)
    → ring_bytes item entries < u64_mod
    → g < h
    → h < 3
    → per_gen (compute_ring_base_offsets item entries) g + per_gen entries g * item
      ≤ per_gen (compute_ring_base_offsets item entries) h
unfolding per_gen compute_ring_base_offsets
ring_below item entries zero zero fits a b = omega arith
ring_below item entries zero (suc zero) fits a b = ground arith
ring_below item entries zero (suc (suc h)) fits a b = ground arith
ring_below item entries (suc zero) zero fits a b = omega arith
ring_below item entries (suc zero) (suc zero) fits a b = omega arith
ring_below item entries (suc zero) (suc (suc h)) fits a b = ground arith
ring_below item entries (suc (suc g)) h fits a b = omega arith

-- No two entries of a ring build share a byte: in the order of the table, each one's bytes end
-- before the next one's begin. The rings fit a word.
pub entry_byte_offset_disjoint :
    (t : OffsetTable) (item : ℕ) (entries : PerGen) (g i h j a b : ℕ)
    → t.gc_item_size ≡ some item
    → t.gc_entries_per_gen ≡ some entries
    → t.gc_gen_base_offsets ≡ some (compute_ring_base_offsets item entries)
    → ring_bytes item entries < u64_mod
    → entry_byte_offset t g i ≡ some a
    → entry_byte_offset t h j ≡ some b
    → Earlier g i h j
    → a + item ≤ b
entry_byte_offset_disjoint t item entries g i h j a b hi he hb fits ha hj earlier =
    let bases = compute_ring_base_offsets item entries in
    let c = Contained-compute_ring_base_offsets item entries fits in
    let gi = entry_byte_offset_range t entries g i a he ha in
    let hj' = entry_byte_offset_range t entries h j b he hj in
    let at_a = entry_byte_offset_exact t item entries bases g i hi he hb c gi.0 gi.1 in
    let at_b = entry_byte_offset_exact t item entries bases h j hi he hb c hj'.0 hj'.1 in
    let is_a : a ≡ per_gen bases g + i * item = ground (arith, at_a, ha) in
    let is_b : b ≡ per_gen bases h + j * item = ground (arith, at_b, hj) in
    elim earlier [
      | inl lt ↦
          let below = ring_below item entries g h fits lt hj'.0 in
          let whole = mul_suc_le i (per_gen entries g) item gi.1 in omega arith
      | inr e ↦
          let whole = mul_suc_le i j item e.1 in let same = ap (per_gen bases) e.0 in omega arith
    ]
