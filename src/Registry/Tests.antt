-- ===== src/Registry/Tests.antt =====
-- Runs of the registry on a released build that no row names, and on a pre-release.
use gc_scope.Base.{
  ℕ, ◌+◌, ◌*◌, ◌%◌, ◌≡◌, refl, Option, some, List, [], ◌∷◌, All, is_some, true, arith,
}
use gc_scope.Base.Int.{pos}
use gc_scope.Base.Word.{u64_mod}
use gc_scope.OffsetTable.{decode_gc_stats, gc_stats_region_size}
use gc_scope.Registry.Tables.{expected_ring_size, set_ring, set_shape, base_table}
use gc_scope.Registry.Geometry.{set_shape-decodes, expected_ring_size-set_ring}
use gc_scope.Version.{PythonVersion}
use gc_scope.Fixtures.{to_le_bytes}
use gc_scope.Fixtures.Python315.{layout, shape, offsets}
use gc_scope.Registry.{Runtime, read_offsets, resolve_fallback_layout, FallbackCache}
use gc_scope.Registry.Fallback.{Fallback}
use gc_scope.Registry.Resolve.{Sound, CachedFallback, read_offsets-Sound}

-- 3.14.7, which is not registered and not swept.
abbrev stored : ℕ
stored = 0x030e07f0

falls_back : resolve_fallback_layout stored ≡ some 0x030e00f0
unfolding resolve_fallback_layout
falls_back = refl

abbrev version : PythonVersion
version = record { major = 3; minor = 14; micro = 7; release_level = 0xF; serial = 0 }

abbrev memory : ℕ → ℕ → ℕ → Option (List ℕ)
memory pid addr len = some (to_le_bytes len stored)

abbrev struct_hex : ℕ → ℕ → ℕ → Option ℕ
struct_hex hex pid addr = some hex

abbrev runtime : Runtime ℕ
runtime = record { find_runtime = λ pid. some 4096; read_memory = memory; read_struct = struct_hex }

abbrev no_cache : FallbackCache
no_cache = []

read_offsets-Sound_example :
    Sound runtime 7 ((read_offsets runtime 7 version no_cache).0)
    × All CachedFallback ((read_offsets runtime 7 version no_cache).1)
read_offsets-Sound_example = read_offsets-Sound runtime 7 version no_cache tt

-- A GIL build of 64-byte entries has rings of 11, 3 and 3 entries.
ring_size : expected_ring_size 64 0 ≡ 1112
unfolding expected_ring_size
ring_size = refl

set_shape-decodes_example :
    is_some (decode_gc_stats (set_shape offsets shape (base_table offsets)) (1 ∷ []) (pos 0)) ≡ true
set_shape-decodes_example =
    set_shape-decodes offsets shape (base_table offsets) (1 ∷ []) (pos 0) (omega arith) refl

expected_ring_size-set_ring_example :
    (gc_stats_region_size (set_ring (base_table offsets) 64 layout 0) ≡ expected_ring_size 64 0)
    × (expected_ring_size 64 0 ≡ (17 * 64 + 24) % u64_mod)
expected_ring_size-set_ring_example = expected_ring_size-set_ring (base_table offsets) 64 0 layout
