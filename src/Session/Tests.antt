-- ===== src/Session/Tests.antt =====
-- Runs of a session on a process with two interpreters whose links form a cycle.
use gc_scope.Base.{ℕ, ◌≡◌, refl, true, Option, none, some, List, [], ◌∷◌, arith, map, ◌<◌, take}
use gc_scope.Base.Int.{ℤ, pos, as_i64}
use gc_scope.Base.Word.{u64_mod, add_u64}
use gc_scope.Fixtures.Python312.{machine, images, machine-CopiesBytes}
use gc_scope.GcStats.{GcStat}
use gc_scope.OffsetTable.{
  has_global_gc, gc_stats_region, stats_buffer_len, decode_gc_stats, gc_state_addr,
}
use gc_scope.Memory.{read_u64_h, open_handle, read_memory, read_u64}
use gc_scope.Base.Map.{lookup}
use gc_scope.Version.Detect.{detect, three}
use gc_scope.Process.{
  find_python_modules, find_runtime_pre_3_13, check_runtime, check_interpreter_addresses,
}
use gc_scope.Memory.Bounds.{read_u64_h-bounded}
use gc_scope.Registry.{Outcome, done, FallbackCache}
use gc_scope.Registry.Legacy.{table_for_version, v3_12}
use gc_scope.Session.Walk.{walk_from, walk_interpreter_chain}
use gc_scope.Session.Attach.{attach, revalidate, layout_still_valid}
use gc_scope.Session.Defs.{PySession, parsed, legacy, LayoutCache, Layouts, fresh, table}
use gc_scope.Session.Reads.{gc_stats, read_interpreter_stats, read_next, session_read_u64}
use gc_scope.Session.Revalidate.{Judged, revalidate-Judged}
use gc_scope.Session.Stats.{Reported, gc_stats-Reported}
use gc_scope.Session.Visits.{Described, walk_interpreter_chain-Described}

abbrev layouts : Layouts
layouts = record { read_struct = λ hex pid addr. none; gc_candidates = [] }

abbrev no_layouts : LayoutCache
no_layouts = []

abbrev no_fallbacks : FallbackCache
no_fallbacks = []

abbrev session : PySession ℕ
session = record {
  pid = 7;
  handle = 70;
  runtime_addr = 4096;
  version = record { major = 3; minor = 12; micro = 0; release_level = 0xF; serial = 0 };
  resolved = legacy (v3_12 0x030c0000);
  stored_hex = none;
  exe_key = some ("bin/python3.12", 1000);
  cmdline = some "python app.py";
  layout_source = parsed;
}

attaches : (attach machine images layouts 7 no_layouts no_fallbacks).0 ≡ done session
unfolding attach table_for_version open_handle detect find_python_modules three read_memory
    find_runtime_pre_3_13 check_runtime read_u64 check_interpreter_addresses lookup
attaches = refl

is_fresh : revalidate machine images session ≡ (fresh, session)
unfolding revalidate open_handle detect find_python_modules three read_memory table_for_version
    find_runtime_pre_3_13 check_runtime read_u64 check_interpreter_addresses layout_still_valid
is_fresh = refl

revalidate-Judged_example : Judged machine images session (revalidate machine images session)
revalidate-Judged_example = revalidate-Judged machine images session

-- The ids and counts of the stats that a session returns.
abbrev seen : Outcome (List GcStat) → List (ℤ × List ℕ)
seen (done stats) = map (λ (e : GcStat). (e.interpreter_id, take 1 e.bytes)) stats
seen _ = []

abbrev outcome_stats : Outcome (List GcStat) → List GcStat
outcome_stats (done found) = found
outcome_stats _ = []

-- Three entries of each interpreter, the cycle ended.
abbrev stats : List GcStat
stats = outcome_stats (gc_stats machine session true)

reads : seen (gc_stats machine session true) ≡ (
    (pos 0, 5 ∷ [])
    ∷ (pos 0, 0 ∷ [])
    ∷ (pos 0, 0 ∷ [])
    ∷ (pos 1, 9 ∷ [])
    ∷ (pos 1, 0 ∷ [])
    ∷ (pos 1, 0 ∷ [])
    ∷ [])
unfolding gc_stats v3_12 read_u64_h has_global_gc walk_interpreter_chain walk_from
    read_interpreter_stats as_i64 gc_stats_region stats_buffer_len decode_gc_stats read_next
    gc_state_addr
reads = refl

gc_stats-Reported_example : Reported machine session true stats
unfolding gc_stats v3_12 read_u64_h has_global_gc walk_interpreter_chain walk_from
    read_interpreter_stats as_i64 gc_stats_region stats_buffer_len decode_gc_stats read_next
    gc_state_addr
gc_stats-Reported_example = gc_stats-Reported machine session true stats machine-CopiesBytes refl

abbrev read_stats : ℕ → Outcome (Option (List GcStat))
read_stats = read_interpreter_stats machine session

abbrev next : ℕ → Option ℕ
next = read_next machine session

next-bounded : (a n : ℕ) → next a ≡ some n → n < u64_mod
unfolding read_next session_read_u64 table
next-bounded a n =
    read_u64_h-bounded machine machine-CopiesBytes 70 (add_u64 a (v3_12 0x030c0000).interp_next) n

walk_interpreter_chain-Described_example :
    Described read_stats next true 8192 (walk_interpreter_chain read_stats next 8192 true)
walk_interpreter_chain-Described_example =
    walk_interpreter_chain-Described read_stats next 8192 true next-bounded (omega arith)
