-- ===== src/Session/Defs.antt =====
-- `PySession` of src/remote_debugging/session.rs, the cache of layouts, and the decisions on them.
use gc_scope.Base.{
  ℕ, Bool, true, false, not, ◌&&◌, Option, none, some, List, ◌==◌, if◌then◌else◌, unwrap_or, String,
  str_eq, eq_iff, ◌>>=◌, ◌≡◌, ◌↔◌, arith, ==_iff,
}
use gc_scope.Base.Int.{ℤ, pos, leb_ℤ}
use gc_scope.Base.Eq.{Eq, nat_eq}
use gc_scope.Base.Map.{insert}
use gc_scope.GcStats.{GcStat}
use gc_scope.OffsetTable.{
  OffsetTable, GcStatsKind, no_stats, inline_array, ring_buffer, GcStatsRegion, absent, direct,
  deref, decode_gc_stats,
}
use gc_scope.Registry.{Outcome, failed, panic, done, FallbackCache, has_verified_layout}
use gc_scope.Registry.Tables.{VersionedOffsets, GcCandidate, to_offset_table}
use gc_scope.Session.Walk.{Walked}
use gc_scope.Version.{PythonVersion, from_hex}

-- The path of a module and when it was modified.
abbrev pub ExeKey : Type 0
ExeKey = String × ℕ

abbrev pub exe_beq : ExeKey → ExeKey → Bool
exe_beq a b = str_eq a.0 b.0 && a.1 == b.1

pub exe_beq_iff : (a b : ExeKey) → (exe_beq a b ≡ true) ↔ (a ≡ b)
exe_beq_iff a b = (
  λ h. ground (arith, eq_iff a.0 b.0, ==_iff a.1 b.1),
  λ h. ground (arith, eq_iff a.0 b.0, ==_iff a.1 b.1),
)

instance abbrev pub exe_eq : Eq ExeKey
exe_eq = record { beq = exe_beq; beq_iff = exe_beq_iff }

pub data Resolved : Type 0 where
  full : (offsets : VersionedOffsets) (table : OffsetTable) → Resolved
  layout_only : (offsets : VersionedOffsets) (table : OffsetTable) → Resolved
  legacy : (table : OffsetTable) → Resolved

unfoldable pub table : Resolved → OffsetTable
table (full _ t) = t
table (layout_only _ t) = t
table (legacy t) = t

unfoldable pub offsets : Resolved → Option VersionedOffsets
offsets (full o _) = some o
offsets (layout_only o _) = some o
offsets (legacy _) = none

pub record CachedLayout : Type 0 where
  pub resolved : Resolved
  pub version : PythonVersion
  pub stored_hex : Option ℕ

-- `LAYOUT_CACHE`.
abbrev pub LayoutCache : Type 0
LayoutCache = List (ExeKey × CachedLayout)

pub data Revalidated : Type 0 where
  fresh : Revalidated
  changed : Revalidated
  dead : Revalidated

pub data CmdlineCheck : Type 0 where
  gone : CmdlineCheck
  differs : CmdlineCheck
  inconclusive : CmdlineCheck

unfoldable pub classify_cmdline : Option String → Option String → CmdlineCheck
classify_cmdline old none = gone
classify_cmdline none (some new) = inconclusive
classify_cmdline (some old) (some new) =
    if not (str_eq old "") && not (str_eq new "") && not (str_eq old new)
    then differs
    else inconclusive

-- An address, or `some none` where the build has no stats or none yet; `none` is a failed read.
unfoldable pub resolve_stats_region : GcStatsRegion → (ℕ → Option ℕ) → Option (Option ℕ)
resolve_stats_region absent read_ptr = some none
resolve_stats_region (direct addr) read_ptr = some (some addr)
resolve_stats_region (deref ptr_addr) read_ptr = do
  ptr ← read_ptr ptr_addr
  some (if ptr == 0 then none else some ptr)

unfoldable pub kind_reads_stats : GcStatsKind → Bool
kind_reads_stats no_stats = false
kind_reads_stats inline_array = true
kind_reads_stats ring_buffer = true

pub data LayoutSource : Type 0 where
  parsed : LayoutSource
  cached : LayoutSource

pub record PySession (H : Type 0) : Type 0 where
  pub pid : ℕ
  pub handle : H
  pub runtime_addr : ℕ
  pub version : PythonVersion
  pub resolved : Resolved
  pub stored_hex : Option ℕ
  pub exe_key : Option ExeKey
  pub cmdline : Option String
  pub layout_source : LayoutSource

-- The layout of a session.
abbrev pub layout_in : {H : Type 0} → PySession H → CachedLayout
layout_in s = record { resolved = s.resolved; version = s.version; stored_hex = s.stored_hex }

-- The generated code: the reading of a compiled struct, and the table of candidates.
pub record Layouts : Type 0 where
  pub read_struct : ℕ → ℕ → ℕ → Option VersionedOffsets
  pub gc_candidates : List (ℕ × List GcCandidate)

-- A result, or the failure of a step before it.
abbrev pub or_fail : {A B : Type 0} → Option A → (A → Outcome B) → Outcome B
or_fail none f = failed
or_fail (some a) f = f a

unfoldable pub is_interpreter_id : ℤ → Bool
is_interpreter_id iid = leb_ℤ (pos 0) iid

-- `Option<PathBuf>` keys are equal.
unfoldable pub same_key : Option ExeKey → Option ExeKey → Bool
same_key none none = true
same_key (some a) (some b) = exe_beq a b
same_key _ _ = false

abbrev pub legacy_layout : PythonVersion → OffsetTable → CachedLayout
legacy_layout detected t = record { resolved = legacy t; version = detected; stored_hex = none }

-- A layout enters the cache under the key of its binary.
unfoldable pub keep_layout : Option ExeKey → CachedLayout → LayoutCache → LayoutCache
keep_layout none entry layouts = layouts
keep_layout (some key) entry layouts = insert key entry layouts

-- A layout that was resolved enters the cache of layouts.
unfoldable pub after_parse :
    Option ExeKey
    → LayoutCache
    → Outcome CachedLayout × FallbackCache
    → Outcome (CachedLayout × LayoutSource) × LayoutCache × FallbackCache
unfolding keep_layout
after_parse key layouts (failed, fallbacks) = (failed, layouts, fallbacks)
after_parse key layouts (panic, fallbacks) = (panic, layouts, fallbacks)
after_parse key layouts (done entry, fallbacks) =
    (done (entry, parsed), keep_layout key entry layouts, fallbacks)

-- The cached layout, or the one that is resolved where there is none.
unfoldable pub choose_layout :
    Option ExeKey
    → LayoutCache
    → FallbackCache
    → Option (Option CachedLayout)
    → Outcome CachedLayout × FallbackCache
    → Outcome (CachedLayout × LayoutSource) × LayoutCache × FallbackCache
unfolding after_parse
choose_layout key layouts fallbacks none parse = (failed, layouts, fallbacks)
choose_layout key layouts fallbacks (some (some entry)) parse =
    (done (entry, cached), layouts, fallbacks)
choose_layout key layouts fallbacks (some none) parse = after_parse key layouts parse

module _ (l : Layouts) where
  -- The layout of a build that publishes its offsets.
  unfoldable pub published_layout : PythonVersion → ℕ → VersionedOffsets → CachedLayout
  published_layout detected stored o =
      let t = to_offset_table l.gc_candidates o in
      record {
        resolved = if has_verified_layout stored then full o t else layout_only o t;
        version = unwrap_or (from_hex stored) detected;
        stored_hex = some stored;
      }

  -- The result of `read_offsets` as a layout.
  unfoldable pub publish : PythonVersion → Outcome (ℕ × ℕ × VersionedOffsets) → Outcome CachedLayout
  unfolding published_layout
  publish detected failed = failed
  publish detected panic = panic
  publish detected (done (_, stored, o)) = done (published_layout detected stored o)

-- The decoding of what was read; `none` of the decoder is a panic.
abbrev pub decoded : OffsetTable → List ℕ → ℤ → Outcome (List GcStat)
decoded t raw iid = elim (decode_gc_stats t raw iid) [ none ↦ panic | some stats ↦ done stats ]

-- The stats of one interpreter as an answer to the walk.
abbrev pub given : Outcome (List GcStat) → Outcome (Option (List GcStat))
given failed = failed
given panic = panic
given (done stats) = done (some stats)

-- What a walk results in. The fuel is enough.
abbrev pub outcome_of : Walked → Outcome (List GcStat)
outcome_of Walked.exhausted = failed
outcome_of Walked.panicked = panic
outcome_of Walked.refused = failed
outcome_of (Walked.walked stats) = done stats
