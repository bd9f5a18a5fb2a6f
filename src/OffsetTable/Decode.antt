-- ===== src/OffsetTable/Decode.antt =====
-- `decode_gc_stats` against an independent description of it: each entry of each generation, in
-- order, is the window of the bytes at its `entry_byte_offset`.
use gc_scope.Base.{
  ℕ, zero, suc, ◌+◌, ◌*◌, ◌≤◌, ◌<◌, ◌≡◌, refl, some, List, [], ◌∷◌, ◌++◌, length, take, drop,
  get_range, arith, unwrap_or, All, All-append, length-take, length-drop, length-append,
}
use gc_scope.Base.Int.{ℤ}
use gc_scope.Base.Word.{u64_mod}
use gc_scope.GcStats.{GcStat, GcItemLayout}
use gc_scope.OffsetTable.{
  OffsetTable, PerGen, per_gen, entry_byte_offset, Decoding, entry_at, walk_generation,
  decode_gc_stats, stats_buffer_len,
}
use gc_scope.OffsetTable.Regions.{
  Contained, Contained-gen, mul_suc_le, offset_exact, entry_byte_offset_exact,
}

-- The entries `index` to `index + n - 1` of a generation, read where `entry_byte_offset` says.
unfoldable pub described : OffsetTable → Decoding → ℕ → ℕ → ℕ → List GcStat
unfolding entry_at
described t d g index zero = []
described t d g index (suc n) =
    entry_at d g index (take d.item_size (drop (unwrap_or (entry_byte_offset t g index) 0) d.raw))
    ∷ described t d g (suc index) n

-- The entries of all generations.
unfoldable pub described_all : OffsetTable → Decoding → PerGen → List GcStat
unfolding described
described_all t d entries =
    described t d 0 0 entries.young
    ++ (described t d 1 0 entries.old0 ++ described t d 2 0 entries.old1)

-- A window within the bytes is not refused.
get_range-window :
    (raw : List ℕ) (off item : ℕ)
    → off + item ≤ length raw
    → get_range raw off (off + item) ≡ some (take item (drop off raw))
get_range-window raw off item h = ground arith

walk_described :
    (t : OffsetTable) (d : Decoding) (g base index n : ℕ)
    → ((i : ℕ) → i < index + n → entry_byte_offset t g i ≡ some (base + i * d.item_size))
    → base + (index + n) * d.item_size ≤ length d.raw
    → base + (index + n) * d.item_size < u64_mod
    → walk_generation d g base index n ≡ some (described t d g index n)
unfolding walk_generation described
walk_described t d g base index zero at long fits = refl
walk_described t d g base index (suc n) at long fits =
    let rest =
      walk_described t d g base (suc index) n (λ i h. at i (omega (arith, h)))
        (ground (arith, long)) (ground (arith, fits)) in
    let le = mul_suc_le index (index + suc n) d.item_size (omega arith) in
    let here = at index (omega arith) in
    let off = offset_exact base index (index + suc n) d.item_size (omega arith) fits in
    let w = get_range-window d.raw (base + index * d.item_size) d.item_size (omega arith) in
    ground (arith, rest, le, here, off, w)

-- The entries described are whole.
described-whole :
    (t : OffsetTable) (d : Decoding) (g base index n : ℕ)
    → ((i : ℕ) → i < index + n → entry_byte_offset t g i ≡ some (base + i * d.item_size))
    → base + (index + n) * d.item_size ≤ length d.raw
    → All (λ (s : GcStat). length s.bytes ≡ d.item_size) (described t d g index n)
unfolding described entry_at
described-whole t d g base index zero at long = tt
described-whole t d g base index (suc n) at long =
    let rest =
      described-whole t d g base (suc index) n (λ i h. at i (omega (arith, h)))
        (ground (arith, long)) in
    let le = mul_suc_le index (index + suc n) d.item_size (omega arith) in
    let here = at index (omega arith) in
    let window = drop (base + index * d.item_size) d.raw in
    let len = length-take d.item_size window in
    let len' = length-drop (base + index * d.item_size) d.raw in
    (ground (arith, here, len, len', le), rest)

length-described :
    (t : OffsetTable) (d : Decoding) (g index n : ℕ) → length (described t d g index n) ≡ n
unfolding described
length-described t d g index zero = refl
length-described t d g index (suc n) = omega (arith, length-described t d g (suc index) n)

-- One generation of a region that was read whole.
generation_described :
    (t : OffsetTable) (d : Decoding) (entries bases : PerGen) (g : ℕ)
    → t.gc_item_size ≡ some d.item_size
    → t.gc_entries_per_gen ≡ some entries
    → t.gc_gen_base_offsets ≡ some bases
    → Contained d.item_size entries bases
    → bases.old1 + entries.old1 * d.item_size ≤ length d.raw
    → g < 3
    → (walk_generation d g (per_gen bases g) 0 (per_gen entries g)
        ≡ some (described t d g 0 (per_gen entries g)))
      × All (λ (s : GcStat). length s.bytes ≡ d.item_size) (described t d g 0 (per_gen entries g))
generation_described t d entries bases g hi he hb c long lt =
    let inside = Contained-gen d.item_size g entries bases c in
    let fits = c.fits in
    let at : (i : ℕ)
        → i < 0 + per_gen entries g
        → entry_byte_offset t g i ≡ some (per_gen bases g + i * d.item_size) =
      λ i h. entry_byte_offset_exact t d.item_size entries bases g i hi he hb c lt (omega arith) in
    (
      walk_described t d g (per_gen bases g) 0 (per_gen entries g) at (omega arith) (omega arith),
      described-whole t d g (per_gen bases g) 0 (per_gen entries g) at (omega arith),
    )

-- A region that was read whole decodes to every entry of every generation, in order, each one the
-- bytes at the offset that `entry_byte_offset` gives for it, and of the full entry size; no slice
-- is out of range. The entry size is positive and the region fits a word.
pub decode_gc_stats_described :
    (t : OffsetTable) (raw : List ℕ) (iid : ℤ) (item : ℕ) (entries bases : PerGen)
    (layout : GcItemLayout)
    → t.gc_item_size ≡ some item
    → t.gc_entries_per_gen ≡ some entries
    → t.gc_gen_base_offsets ≡ some bases
    → t.gc_layout ≡ some layout
    → 0 < item
    → Contained item entries bases
    → bases.old1 + entries.old1 * item ≤ length raw
    → let d : Decoding = record { raw = raw; iid = iid; item_size = item; layout = layout } in
      (decode_gc_stats t raw iid ≡ some (described_all t d entries))
      × All (λ (s : GcStat). length s.bytes ≡ item) (described_all t d entries)
      × (length (described_all t d entries) ≡ entries.young + entries.old0 + entries.old1)
unfolding decode_gc_stats described_all stats_buffer_len per_gen
decode_gc_stats_described t raw iid item entries bases layout hi he hb hl pos c long =
    let d : Decoding = record { raw = raw; iid = iid; item_size = item; layout = layout } in
    let young = generation_described t d entries bases 0 hi he hb c long (omega arith) in
    let old0 = generation_described t d entries bases 1 hi he hb c long (omega arith) in
    let old1 = generation_described t d entries bases 2 hi he hb c long (omega arith) in
    let n0 = length-described t d 0 0 entries.young in
    let n1 = length-described t d 1 0 entries.old0 in
    let n2 = length-described t d 2 0 entries.old1 in
    let s0 = described t d 0 0 entries.young in
    let s1 = described t d 1 0 entries.old0 in
    let s2 = described t d 2 0 entries.old1 in
    let m = length-append s1 s2 in
    let total = length-append s0 (s1 ++ s2) in
    (
      ground (arith, young.0, old0.0, old1.0),
      All-append _ s0 (s1 ++ s2) young.1 (All-append _ s1 s2 old0.1 old1.1),
      omega arith,
    )
