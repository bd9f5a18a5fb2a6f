-- ===== src/OffsetTable/Regions.antt =====
-- Which bytes the entries of a region stand at, without wrap-around: a region that fits a word
-- holds each entry whole.
use gc_scope.Base.{ℕ, zero, suc, ◌+◌, ◌*◌, ◌≤◌, ◌<◌, ◌≡◌, some, arith}
use gc_scope.Base.Word.{u64_mod, add_u64, mul_u64}
use gc_scope.OffsetTable.{OffsetTable, PerGen, per_gen, entry_byte_offset}

-- The generations' entries, of `item` bytes each from their base on, end in the region.
pub record Contained (item : ℕ) (entries bases : PerGen) : Type 0 where
  pub in_young : bases.young + entries.young * item ≤ bases.old1 + entries.old1 * item
  pub in_old0 : bases.old0 + entries.old0 * item ≤ bases.old1 + entries.old1 * item
  pub fits : bases.old1 + entries.old1 * item < u64_mod

pub mul_suc_le : (e n item : ℕ) → e < n → e * item + item ≤ n * item
mul_suc_le e zero item h = omega arith
mul_suc_le zero (suc n) item h = ground arith
mul_suc_le (suc e) (suc n) item h = ground (arith, mul_suc_le e n item)

-- The offset of an entry of a generation that ends within a word, as the program computes it.
pub offset_exact :
    (base e n item : ℕ)
    → e < n
    → base + n * item < u64_mod
    → add_u64 base (mul_u64 e item) ≡ base + e * item
offset_exact base e n item h fits = let le = mul_suc_le e n item h in ground arith

-- Every generation ends in the region.
pub Contained-gen :
    (item g : ℕ) (entries bases : PerGen)
    → Contained item entries bases
    → per_gen bases g + per_gen entries g * item ≤ bases.old1 + entries.old1 * item
unfolding per_gen
Contained-gen item zero entries bases c = c.in_young
Contained-gen item (suc zero) entries bases c = c.in_old0
Contained-gen item (suc (suc g)) entries bases c = omega arith

pub entry_byte_offset_exact :
    (t : OffsetTable) (item : ℕ) (entries bases : PerGen) (g i : ℕ)
    → t.gc_item_size ≡ some item
    → t.gc_entries_per_gen ≡ some entries
    → t.gc_gen_base_offsets ≡ some bases
    → Contained item entries bases
    → g < 3
    → i < per_gen entries g
    → entry_byte_offset t g i ≡ some (per_gen bases g + i * item)
unfolding entry_byte_offset
entry_byte_offset_exact t item entries bases g i hi he hb c lg li =
    let inside = Contained-gen item g entries bases c in
    let fits = c.fits in
    ground (arith, offset_exact (per_gen bases g) i (per_gen entries g) item li (omega arith))

-- An offset is given of an entry of the table only.
pub entry_byte_offset_range :
    (t : OffsetTable) (entries : PerGen) (g i a : ℕ)
    → t.gc_entries_per_gen ≡ some entries
    → entry_byte_offset t g i ≡ some a
    → (g < 3) × (i < per_gen entries g)
unfolding entry_byte_offset
entry_byte_offset_range t entries g i a he ha = (ground arith, ground arith)
