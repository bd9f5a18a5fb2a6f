-- ===== src/Session/Reads.antt =====
-- The reading of stats through a session, of src/remote_debugging/session.rs.
use gc_scope.Base.{
  ℕ, Bool, true, not, ◌&&◌, Option, none, some, List, [], ◌==◌, if◌then◌else◌, unwrap_or, ◌>>=◌,
}
use gc_scope.Base.Int.{ℤ, pos, as_i64}
use gc_scope.Base.Eq.{nat_eq}
use gc_scope.Base.Word.{add_u64}
use gc_scope.GcStats.{GcStat}
use gc_scope.Memory.{Machine, read_memory_h, read_u64_h}
use gc_scope.OffsetTable.{
  OffsetTable, no_stats, inline_array, ring_buffer, gc_stats_region, gc_state_addr, has_global_gc,
  gc_stats_region_size, stats_buffer_len,
}
use gc_scope.Registry.{Outcome, failed, done}
use gc_scope.Registry.Tables.{VersionedOffsets}
use gc_scope.Session.Walk.{walk_interpreter_chain}
use gc_scope.Session.Defs.{
  PySession, decoded, exe_eq, given, is_interpreter_id, kind_reads_stats, offsets, or_fail,
  outcome_of, resolve_stats_region, table,
}

module _ {H : Type 0} (m : Machine H) where
  unfoldable pub supports_gc_stats : PySession H → Bool
  unfolding kind_reads_stats table
  supports_gc_stats s = kind_reads_stats (table s.resolved).gc_stats_kind

  -- `read_u64` and `read_i64`.
  unfoldable pub session_read_u64 : PySession H → ℕ → Option ℕ
  session_read_u64 s addr = read_u64_h m s.handle addr

  unfoldable pub session_read_i64 : PySession H → ℕ → Option ℤ
  unfolding session_read_u64
  session_read_i64 s addr = session_read_u64 s addr >>= λ w. some (as_i64 w)

  unfoldable pub gc_stats_region_addr : PySession H → ℕ → Option (Option ℕ)
  unfolding resolve_stats_region offsets table session_read_u64
  gc_stats_region_addr s gc_addr =
      let gen_stats_off =
        unwrap_or (offsets s.resolved >>= λ (o : VersionedOffsets). some o.gc_generation_stats) 0 in
      resolve_stats_region (gc_stats_region (table s.resolved) gc_addr gen_stats_off)
        (session_read_u64 s)

  unfoldable pub read_gc_stats : OffsetTable → H → ℤ → Outcome (List GcStat)
  read_gc_stats t handle iid = elim t.gc_stats_addr [
    | none ↦ done []
    | some addr ↦ elim (stats_buffer_len t) [
      | none ↦ done []
      | some total ↦ or_fail (read_memory_h m handle addr total) (λ raw. decoded t raw iid)
    ]
  ]

  unfoldable pub read_interpreters_head : PySession H → Option ℕ
  unfolding session_read_u64 table
  read_interpreters_head s =
      session_read_u64 s (add_u64 s.runtime_addr (table s.resolved).runtime_interpreters_head)

  unfoldable pub verify_ring_stats_size : PySession H → Bool
  unfolding table offsets
  verify_ring_stats_size s = elim (offsets s.resolved) [
    | none ↦ true
    | some o ↦
        let expected = gc_stats_region_size (table s.resolved) in
        not (
          not (o.gc_generation_stats_size == 0)
          && not (expected == 0)
          && not (o.gc_generation_stats_size == expected))
  ]

  -- The stats at an address that is set in a copy of the table.
  abbrev pub stats_at : PySession H → Option ℕ → ℤ → Outcome (List GcStat)
  stats_at s addr iid =
      read_gc_stats (record (table s.resolved) { gc_stats_addr = addr }) s.handle iid

  unfoldable pub gc_stats_global : PySession H → ℕ → Outcome (List GcStat)
  unfolding session_read_i64 gc_stats_region_addr read_gc_stats table
  gc_stats_global s head_addr =
      or_fail
        (if head_addr == 0
          then some (pos 0)
          else session_read_i64 s (add_u64 head_addr (table s.resolved).interp_id))
        (λ iid.
          or_fail
            (gc_stats_region_addr s (gc_state_addr (table s.resolved) s.runtime_addr head_addr))
            (λ addr. stats_at s addr iid))

  unfoldable pub read_interpreter_stats : PySession H → ℕ → Outcome (Option (List GcStat))
  unfolding session_read_i64 gc_stats_region_addr read_gc_stats is_interpreter_id table
  read_interpreter_stats s interp_addr =
      or_fail (session_read_i64 s (add_u64 interp_addr (table s.resolved).interp_id)) (λ iid.
        if not (is_interpreter_id iid)
        then done none
        else or_fail
            (gc_stats_region_addr s (gc_state_addr (table s.resolved) s.runtime_addr interp_addr))
            (λ region. elim region [
              | none ↦ done none
              | some addr ↦ given (stats_at s (some addr) iid)
            ]))

  unfoldable pub read_next : PySession H → ℕ → Option ℕ
  unfolding session_read_u64 table
  read_next s addr = session_read_u64 s (add_u64 addr (table s.resolved).interp_next)

  unfoldable pub gc_stats_per_interpreter : PySession H → ℕ → Bool → Outcome (List GcStat)
  gc_stats_per_interpreter s head_addr all =
      outcome_of (walk_interpreter_chain (read_interpreter_stats s) (read_next s) head_addr all)

  unfoldable pub gc_stats_inline : PySession H → Bool → Outcome (List GcStat)
  unfolding read_interpreters_head gc_stats_global gc_stats_per_interpreter table
  gc_stats_inline s all = or_fail (read_interpreters_head s) (λ head_addr.
      if has_global_gc (table s.resolved)
      then gc_stats_global s head_addr
      else gc_stats_per_interpreter s head_addr all)

  unfoldable pub gc_stats_ring : PySession H → Bool → Outcome (List GcStat)
  unfolding verify_ring_stats_size read_interpreters_head gc_stats_per_interpreter
  gc_stats_ring s all =
      if verify_ring_stats_size s
      then or_fail (read_interpreters_head s)
          (λ head_addr. gc_stats_per_interpreter s head_addr all)
      else failed

  unfoldable pub gc_stats : PySession H → Bool → Outcome (List GcStat)
  unfolding gc_stats_inline gc_stats_ring table
  gc_stats s all = elim (table s.resolved).gc_stats_kind [
    | no_stats ↦ done []
    | inline_array ↦ gc_stats_inline s all
    | ring_buffer ↦ gc_stats_ring s all
  ]
