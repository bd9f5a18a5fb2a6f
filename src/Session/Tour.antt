-- ===== src/Session/Tour.antt =====
-- The stats of the interpreters that a session walks over.
use gc_scope.Base.{
  ℕ, ◌≡◌, refl, sym, ap, ◌∙◌, Bool, true, Option, none, some, List, [], ◌∷◌, Bool-cases,
  Option-cases, inl, inr, All, All-imp, All-append, arith,
}
use mathlib.Core.Path.{subst}
use gc_scope.Base.Int.{ℤ, pos, ◌≤ℤ◌}
use gc_scope.Base.Word.{add_u64}
use gc_scope.GcStats.{GcStat}
use gc_scope.Memory.{Machine, read_memory_h}
use gc_scope.OffsetTable.Marks.{IsMarked, decode_gc_stats-IsMarked}
use gc_scope.Memory.Bounds.{CopiesBytes, read_u64_h-bounded}
use gc_scope.OffsetTable.{OffsetTable, decode_gc_stats, stats_buffer_len, gc_state_addr}
use gc_scope.Registry.{Outcome, failed, panic, done}
use gc_scope.Session.Walk.{
  Walked, exhausted, panicked, refused, walked, readable, visited_before, walk_interpreter_chain,
}
use gc_scope.Session.Chain.{gathered}
use gc_scope.Session.Published.{done_injective}
use gc_scope.Session.Distinct.{Distinct, Route-Distinct}
use gc_scope.Session.Visits.{Route, Described, walk_interpreter_chain-Described}
use gc_scope.Session.Defs.{PySession, table, decoded, given, is_interpreter_id, outcome_of}
use gc_scope.Session.Reads.{
  session_read_u64, session_read_i64, gc_stats_region_addr, read_gc_stats, stats_at,
  read_interpreter_stats, read_next, read_interpreters_head, gc_stats_per_interpreter,
}

is_interpreter_id_le : (iid : ℤ) → is_interpreter_id iid ≡ true → pos 0 ≤ℤ iid
unfolding is_interpreter_id
is_interpreter_id_le iid h = ground (arith, h)

given_done :
    (o : Outcome (List GcStat)) (stats : List GcStat) → given o ≡ done (some stats) → o ≡ done stats
given_done failed stats h = absurd (cc h)
given_done panic stats h = absurd (cc h)
given_done (done found) stats h = cc h

decoded-IsMarked :
    (t : OffsetTable) (raw : List ℕ) (iid : ℤ) (stats : List GcStat)
    → decoded t raw iid ≡ done stats
    → All (IsMarked iid) stats
decoded-IsMarked t raw iid stats h = elim (Option-cases (decode_gc_stats t raw iid)) [
  | inl out ↦ absurd (ground (arith, h, out))
  | inr (found, is) ↦
      decode_gc_stats-IsMarked t raw iid stats
        (is ∙ ap some (done_injective (ground (arith, h, is))))
]

module _ {H : Type 0} (m : Machine H) (s : PySession H) where
  pub read_gc_stats-IsMarked :
      (t : OffsetTable) (iid : ℤ) (stats : List GcStat)
      → read_gc_stats m t s.handle iid ≡ done stats
      → All (IsMarked iid) stats
  unfolding read_gc_stats
  read_gc_stats-IsMarked t iid stats h = elim (Option-cases t.gc_stats_addr) [
    | inl no_addr ↦
        let is : [] ≡ stats = done_injective (ground (arith, h, no_addr)) in
        subst (All (IsMarked iid)) is tt
    | inr (addr, has_addr) ↦ elim (Option-cases (stats_buffer_len t)) [
      | inl unsized ↦
          let is : [] ≡ stats = done_injective (ground (arith, h, has_addr, unsized)) in
          subst (All (IsMarked iid)) is tt
      | inr (total, sized) ↦ elim (Option-cases (read_memory_h m s.handle addr total)) [
        | inl unread ↦ absurd (ground (arith, h, has_addr, sized, unread))
        | inr (raw, read) ↦
            decoded-IsMarked t raw iid stats (sym (ground (arith, has_addr, sized, read)) ∙ h)
      ]
    ]
  ]

  -- The stats of one interpreter are marked with the id that is read of it, and that is not negative.
  abbrev pub IsOwn : ℕ → GcStat → Type 0
  IsOwn a e =
      (session_read_i64 m s (add_u64 a (table s.resolved).interp_id) ≡ some e.interpreter_id)
      × (pos 0 ≤ℤ e.interpreter_id)

  read_interpreter_stats-IsOwn :
      (a : ℕ) (stats : List GcStat)
      → read_interpreter_stats m s a ≡ done (some stats)
      → All (IsOwn a) stats
  unfolding read_interpreter_stats
  read_interpreter_stats-IsOwn a stats h =
      elim (Option-cases (session_read_i64 m s (add_u64 a (table s.resolved).interp_id))) [
        | inl unread ↦ absurd (ground (arith, h, unread))
        | inr (iid, has_id) ↦ elim (Bool-cases (is_interpreter_id iid)) [
          | inr negative ↦ absurd (ground (arith, h, has_id, negative))
          | inl valid ↦
              elim (Option-cases
                (gc_stats_region_addr m s (gc_state_addr (table s.resolved) s.runtime_addr a))) [
                  | inl lost ↦ absurd (ground (arith, h, has_id, valid, lost))
                  | inr (none, absent) ↦ absurd (ground (arith, h, has_id, valid, absent))
                  | inr (some addr, at) ↦
                      let g : given (stats_at m s (some addr) iid) ≡ done (some stats) =
                        sym (ground (arith, has_id, valid, at)) ∙ h in
                      let marked =
                        read_gc_stats-IsMarked
                          (record (table s.resolved) { gc_stats_addr = some addr }) iid stats
                          (given_done (stats_at m s (some addr) iid) stats g) in
                      All-imp (IsMarked iid) (IsOwn a) stats
                        (λ e is. (
                          has_id ∙ ap some (sym is),
                          is_interpreter_id_le e.interpreter_id (ap is_interpreter_id is ∙ valid),
                        ))
                        marked
                ]
        ]
      ]

  readable-IsOwn :
      (a : ℕ) (o : Outcome (Option (List GcStat)))
      → read_interpreter_stats m s a ≡ o
      → All (IsOwn a) (readable o)
  unfolding readable
  readable-IsOwn a failed e = tt
  readable-IsOwn a panic e = tt
  readable-IsOwn a (done none) e = tt
  readable-IsOwn a (done (some stats)) e = read_interpreter_stats-IsOwn a stats e

  -- The stats of an interpreter on a path.
  abbrev pub IsOnPath : List ℕ → GcStat → Type 0
  IsOnPath path e = (a : ℕ) × (visited_before a path ≡ true) × IsOwn a e

  gathered-IsOnPath :
      (path : List ℕ)
      → All (IsOnPath path) (gathered (read_interpreter_stats m s) (read_next m s) path)
  unfolding gathered visited_before
  gathered-IsOnPath [] = tt
  gathered-IsOnPath (a ∷ path) =
      let P = IsOnPath (a ∷ path) in
      let here = readable (read_interpreter_stats m s a) in
      let there = gathered (read_interpreter_stats m s) (read_next m s) path in
      All-append P here there
        (All-imp (IsOwn a) P here (λ e own. (a, ground arith, own))
          (readable-IsOwn a (read_interpreter_stats m s a) refl))
        (All-imp (IsOnPath path) P there (λ e (b, on, own). (b, ground (arith, on), own))
          (gathered-IsOnPath path))

  -- What a walk from `head` returns: the stats of the interpreters on its route, in their order and
  -- each once.
  abbrev pub Toured : ℕ → Bool → List GcStat → Type 0
  Toured head all stats =
      (path : List ℕ) × Route (read_interpreter_stats m s) (read_next m s) all head path
      × Distinct path
      × (stats ≡ gathered (read_interpreter_stats m s) (read_next m s) path)
      × All (IsOnPath path) stats

  walked-Toured :
      (head : ℕ) (all : Bool) (w : Walked) (stats : List GcStat)
      → Described (read_interpreter_stats m s) (read_next m s) all head w
      → outcome_of w ≡ done stats
      → Toured head all stats
  walked-Toured head all exhausted stats h e = absurd h
  walked-Toured head all panicked stats h e = absurd (cc e)
  walked-Toured head all refused stats h e = absurd (cc e)
  walked-Toured head all (walked found) stats (path, route, is) e =
      let same : found ≡ stats = done_injective e in
      (
        path,
        route,
        Route-Distinct (read_interpreter_stats m s) (read_next m s) all head path route,
        sym same ∙ is,
        subst (All (IsOnPath path)) (sym is ∙ same) (gathered-IsOnPath path),
      )

  pub per_interpreter-Toured :
      (head : ℕ) (all : Bool) (stats : List GcStat)
      → CopiesBytes m
      → read_interpreters_head m s ≡ some head
      → gc_stats_per_interpreter m s head all ≡ done stats
      → Toured head all stats
  unfolding gc_stats_per_interpreter read_next session_read_u64 read_interpreters_head
  per_interpreter-Toured head all stats copies at h =
      walked-Toured head all
        (walk_interpreter_chain (read_interpreter_stats m s) (read_next m s) head all) stats
        (walk_interpreter_chain-Described (read_interpreter_stats m s) (read_next m s) head all
          (λ a next. read_u64_h-bounded m copies s.handle _ next)
          (read_u64_h-bounded m copies s.handle _ head at))
        h
