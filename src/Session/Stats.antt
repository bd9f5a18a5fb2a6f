-- ===== src/Session/Stats.antt =====
-- Whose the stats of a session are.
use gc_scope.Base.{
  ℕ, none, ◌≡◌, refl, sym, ap, ◌∙◌, Bool, true, false, Option, some, List, [], ◌==◌, if◌then◌else◌,
  Bool-cases, Option-cases, inl, inr, ◌⊎◌, All, All-imp, arith,
}
use gc_scope.Base.Int.{ℤ, pos}
use gc_scope.Base.Word.{add_u64}
use gc_scope.GcStats.{GcStat}
use gc_scope.Memory.{Machine}
use gc_scope.OffsetTable.Marks.{IsMarked}
use gc_scope.Memory.Bounds.{CopiesBytes}
use gc_scope.OffsetTable.{
  GcStatsKind, no_stats, inline_array, ring_buffer, has_global_gc, gc_state_addr,
  gc_stats_region_size,
}
use gc_scope.Registry.{done}
use gc_scope.Registry.Tables.{VersionedOffsets}
use gc_scope.Session.Published.{done_injective}
use gc_scope.Session.Tour.{Toured, per_interpreter-Toured, read_gc_stats-IsMarked}
use gc_scope.Session.Defs.{PySession, table, offsets}
use gc_scope.Session.Reads.{
  session_read_i64, gc_stats_region_addr, read_interpreters_head, verify_ring_stats_size,
  gc_stats_global, gc_stats_inline, gc_stats_ring, gc_stats,
}

GcStatsKind-cases : (k : GcStatsKind) → (k ≡ no_stats) ⊎ (k ≡ inline_array) ⊎ (k ≡ ring_buffer)
GcStatsKind-cases no_stats = inl refl
GcStatsKind-cases inline_array = inr (inl refl)
GcStatsKind-cases ring_buffer = inr (inr refl)

-- A ring build publishes no size but that of the table's rings. A size of 0, and a layout that
-- publishes none, are not compared.
abbrev pub IsOfSize : {H : Type 0} → PySession H → Type 0
IsOfSize s =
    (offsets s.resolved ≡ none)
    ⊎ ((o : VersionedOffsets) × (offsets s.resolved ≡ some o)
        × ((o.gc_generation_stats_size ≡ 0)
            ⊎ (gc_stats_region_size (table s.resolved) ≡ 0)
            ⊎ (o.gc_generation_stats_size ≡ gc_stats_region_size (table s.resolved))))

verify_ring_stats_size-IsOfSize :
    {H : Type 0} (m : Machine H) (s : PySession H) → verify_ring_stats_size m s ≡ true → IsOfSize s
unfolding verify_ring_stats_size
verify_ring_stats_size-IsOfSize m s h = elim (Option-cases (offsets s.resolved)) [
  | inl publishes_none ↦ inl publishes_none
  | inr (o, has_offsets) ↦
      let expected = gc_stats_region_size (table s.resolved) in
      inr (
        o,
        has_offsets,
        elim (Bool-cases (o.gc_generation_stats_size == 0)) [
          | inl unpublished ↦ inl (ground (arith, unpublished))
          | inr published ↦ elim (Bool-cases (expected == 0)) [
            | inl unsized ↦ inr (inl (ground (arith, unsized)))
            | inr sized ↦ inr (inr (ground (arith, h, has_offsets, published, sized)))
          ]
        ],
      )
]

module _ {H : Type 0} (m : Machine H) (s : PySession H) where
  -- The id of the interpreter that heads the chain, 0 where there is none.
  unfoldable pub head_id : ℕ → Option ℤ
  unfolding session_read_i64 table
  head_id head =
      if head == 0
      then some (pos 0)
      else session_read_i64 m s (add_u64 head (table s.resolved).interp_id)

  global-IsMarked :
      (head : ℕ) (stats : List GcStat)
      → gc_stats_global m s head ≡ done stats
      → All (λ e. head_id head ≡ some e.interpreter_id) stats
  unfolding gc_stats_global head_id
  global-IsMarked head stats h = elim (Option-cases (head_id head)) [
    | inl unread ↦ absurd (ground (arith, h, unread))
    | inr (iid, has_id) ↦
        elim (Option-cases
          (gc_stats_region_addr m s (gc_state_addr (table s.resolved) s.runtime_addr head))) [
            | inl lost ↦ absurd (ground (arith, h, has_id, lost))
            | inr (addr, at) ↦
                All-imp (IsMarked iid) (λ e. head_id head ≡ some e.interpreter_id) stats
                  (λ e is. has_id ∙ ap some (sym is))
                  (read_gc_stats-IsMarked m s (record (table s.resolved) { gc_stats_addr = addr })
                    iid stats (sym (ground (arith, has_id, at)) ∙ h))
          ]
  ]

  -- Those of a build that collects for the whole process are marked with the id of the head of the
  -- chain. Those of any other build are toured, and a ring build has rings of the size it publishes.
  abbrev pub OfChain : Bool → List GcStat → Type 0
  OfChain all stats =
      (head : ℕ) × (read_interpreters_head m s ≡ some head)
      × (((((table s.resolved).gc_stats_kind ≡ inline_array)
              × (has_global_gc (table s.resolved) ≡ true))
            × All (λ e. head_id head ≡ some e.interpreter_id) stats)
          ⊎ (((((table s.resolved).gc_stats_kind ≡ inline_array)
                  × (has_global_gc (table s.resolved) ≡ false))
                ⊎ (((table s.resolved).gc_stats_kind ≡ ring_buffer) × IsOfSize s))
              × Toured m s head all stats))

  -- What a session's stats are: none where the build keeps none, else those of a chain.
  abbrev pub Reported : Bool → List GcStat → Type 0
  Reported all stats =
      (((table s.resolved).gc_stats_kind ≡ no_stats) × (stats ≡ [])) ⊎ OfChain all stats

  -- The stats of a build that keeps them inline.
  inline-Reported :
      (all : Bool) (stats : List GcStat)
      → CopiesBytes m
      → (table s.resolved).gc_stats_kind ≡ inline_array
      → gc_stats_inline m s all ≡ done stats
      → OfChain all stats
  unfolding gc_stats_inline
  inline-Reported all stats copies inlined h = elim (Option-cases (read_interpreters_head m s)) [
    | inl unread ↦ absurd (ground (arith, h, unread))
    | inr (head, at) ↦ elim (Bool-cases (has_global_gc (table s.resolved))) [
      | inl one ↦ (
        head,
        at,
        inl ((inlined, one), global-IsMarked head stats (sym (ground (arith, at, one)) ∙ h)),
      )
      | inr each ↦ (
        head,
        at,
        inr (
          inl (inlined, each),
          per_interpreter-Toured m s head all stats copies at (sym (ground (arith, at, each)) ∙ h),
        ),
      )
    ]
  ]

  -- The stats that a session returns, on a build that keeps them for each interpreter, are of the
  -- interpreters that it tours: the head alone or the whole chain, none of them twice, each stat
  -- marked with the id that is read of the interpreter it is from, and that id not negative. On a
  -- build that collects for the whole process they are marked with the id of the head, whatever its
  -- sign, or 0 where there is no head; on one that keeps none there are none. A ring build returns
  -- some only if the size it publishes is the table's, or one of the two is 0, or its layout
  -- publishes none. What is read of the process is bytes.
  pub gc_stats-Reported :
      (all : Bool) (stats : List GcStat)
      → CopiesBytes m
      → gc_stats m s all ≡ done stats
      → Reported all stats
  unfolding gc_stats gc_stats_inline gc_stats_ring
  gc_stats-Reported all stats copies h = elim (GcStatsKind-cases (table s.resolved).gc_stats_kind) [
    | inl nothing ↦
        let is : [] ≡ stats = done_injective (ground (arith, h, nothing)) in inl (nothing, sym is)
    | inr (inl inlined) ↦
        inr (inline-Reported all stats copies inlined (sym (ground (arith, inlined)) ∙ h))
    | inr (inr ring) ↦ elim (Bool-cases (verify_ring_stats_size m s)) [
      | inr differs ↦ absurd (ground (arith, h, ring, differs))
      | inl agrees ↦ elim (Option-cases (read_interpreters_head m s)) [
        | inl unread ↦ absurd (ground (arith, h, ring, agrees, unread))
        | inr (head, at) ↦ inr (
          head,
          at,
          inr (
            inr (ring, verify_ring_stats_size-IsOfSize m s agrees),
            per_interpreter-Toured m s head all stats copies at
                (sym (ground (arith, ring, agrees, at)) ∙ h),
          ),
        )
      ]
    ]
  ]
