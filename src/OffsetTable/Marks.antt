-- ===== src/OffsetTable/Marks.antt =====
-- The interpreter's id of the entries that `decode_gc_stats` returns.
use gc_scope.Base.{
  ℕ, zero, suc, ◌≡◌, refl, sym, ◌∙◌, some, List, [], ◌∷◌, ◌++◌, ◌>>=◌, length, get_range, ltb,
  unwrap_or, Bool-cases, Option-cases, inl, inr, All, All-append, arith,
}
use mathlib.Core.Path.{subst}
use gc_scope.Base.Int.{ℤ}
use gc_scope.Base.Word.{add_u64, mul_u64}
use gc_scope.GcStats.{GcStat}
use gc_scope.OffsetTable.{
  OffsetTable, PerGen, Decoding, entry_at, walk_generation, decode_gc_stats, stats_buffer_len,
}

-- A stat is marked with an interpreter's id.
abbrev pub IsMarked : ℤ → GcStat → Type 0
IsMarked iid e = e.interpreter_id ≡ iid

walk_generation-IsMarked :
    (d : Decoding) (g base index n : ℕ) (stats : List GcStat)
    → walk_generation d g base index n ≡ some stats
    → All (IsMarked d.iid) stats
unfolding walk_generation entry_at
walk_generation-IsMarked d g base index zero stats h =
    let is : [] ≡ stats = ground (arith, h) in subst (All (IsMarked d.iid)) is tt
walk_generation-IsMarked d g base index (suc n) stats h =
    let off = add_u64 base (mul_u64 index d.item_size) in
    elim (Bool-cases (ltb (length d.raw) (add_u64 off d.item_size))) [
      | inl short ↦
          let is : [] ≡ stats = ground (arith, h, short) in subst (All (IsMarked d.iid)) is tt
      | inr long ↦ elim (Option-cases (get_range d.raw off (add_u64 off d.item_size))) [
        | inl out ↦ absurd (ground (arith, h, long, out))
        | inr (window, at) ↦ elim (Option-cases (walk_generation d g base (suc index) n)) [
          | inl out ↦ absurd (ground (arith, h, long, at, out))
          | inr (later, is_later) ↦
              let is : entry_at d g index window ∷ later ≡ stats =
                ground (arith, h, long, at, is_later) in
              subst (All (IsMarked d.iid)) is
                (refl, walk_generation-IsMarked d g base (suc index) n later is_later)
        ]
      ]
    ]

-- The three generations, decoded one after the other.
generations-IsMarked :
    (d : Decoding) (bases entries : PerGen) (stats : List GcStat)
    → (walk_generation d 0 bases.young 0 entries.young >>= λ s0.
        walk_generation d 1 bases.old0 0 entries.old0 >>= λ s1.
        walk_generation d 2 bases.old1 0 entries.old1 >>= λ s2. some (s0 ++ (s1 ++ s2)))
      ≡ some stats
    → All (IsMarked d.iid) stats
generations-IsMarked d bases entries stats h =
    elim (Option-cases (walk_generation d 0 bases.young 0 entries.young)) [
      | inl out ↦ absurd (ground (arith, h, out))
      | inr (s0, is0) ↦ elim (Option-cases (walk_generation d 1 bases.old0 0 entries.old0)) [
        | inl out ↦ absurd (ground (arith, h, is0, out))
        | inr (s1, is1) ↦ elim (Option-cases (walk_generation d 2 bases.old1 0 entries.old1)) [
          | inl out ↦ absurd (ground (arith, h, is0, is1, out))
          | inr (s2, is2) ↦
              let is : s0 ++ (s1 ++ s2) ≡ stats = ground (arith, h, is0, is1, is2) in
              let P = IsMarked d.iid in
              subst (All P) is (
                All-append P s0 (s1 ++ s2) (walk_generation-IsMarked d 0 _ 0 _ s0 is0) (
                  All-append P s1 s2 (walk_generation-IsMarked d 1 _ 0 _ s1 is1)
                    (walk_generation-IsMarked d 2 _ 0 _ s2 is2)))
        ]
      ]
    ]

pub decode_gc_stats-IsMarked :
    (t : OffsetTable) (raw : List ℕ) (iid : ℤ) (stats : List GcStat)
    → decode_gc_stats t raw iid ≡ some stats
    → All (IsMarked iid) stats
unfolding decode_gc_stats
decode_gc_stats-IsMarked t raw iid stats h = elim (Option-cases (stats_buffer_len t)) [
  | inl unsized ↦
      let is : [] ≡ stats = ground (arith, h, unsized) in subst (All (IsMarked iid)) is tt
  | inr (total, sized) ↦ elim (Bool-cases (ltb (length raw) total)) [
    | inl short ↦
        let is : [] ≡ stats = ground (arith, h, sized, short) in subst (All (IsMarked iid)) is tt
    | inr long ↦ elim (Option-cases t.gc_layout) [
      | inl no_layout ↦
          let is : [] ≡ stats = ground (arith, h, sized, long, no_layout) in
          subst (All (IsMarked iid)) is tt
      | inr (layout, has_layout) ↦
          let d : Decoding = record {
            raw = raw;
            iid = iid;
            item_size = unwrap_or t.gc_item_size 0;
            layout = layout;
          } in
          let none_yet : PerGen = record { young = 0; old0 = 0; old1 = 0 } in
          let entries = unwrap_or t.gc_entries_per_gen none_yet in
          let bases = unwrap_or t.gc_gen_base_offsets none_yet in
          generations-IsMarked d bases entries stats
            (sym (ground (arith, sized, long, has_layout)) ∙ h)
    ]
  ]
]
