-- ===== src/Registry.antt =====
-- src/remote_debugging/offsets/mod.rs: which compiled `_Py_DebugOffsets` layout a build is read
-- through. Reading the struct itself is a parameter, since it is unsafe code on process memory.
pub mod Fallback
pub mod Resolve
pub mod Tables
pub mod Legacy
pub mod Geometry
mod Tests
use gc_scope.Base.{
  ℕ, ◌+◌, ◌-◌, ◌*◌, ◌/◌, ◌%◌, ◌^◌, Bool, true, false, not, ◌&&◌, ◌||◌, Option, none, some, List, [],
  ◌∷◌, map, ◌>>=◌, ltb, leb, ◌==◌, if◌then◌else◌, is_some, any, keep, take,
}
use gc_scope.Base.Eq.{nat_eq, nats_eq}
use gc_scope.Base.Map.{lookup, insert}
use gc_scope.Base.Word.{from_le_bytes, add_u64}
use gc_scope.Version.{PythonVersion, from_hex}

-- The hexes of `LAYOUTS`.
abbrev pub layouts : List ℕ
layouts = 0x030d00f0 ∷ 0x030e00f0 ∷ 0x030f00b1 ∷ 0x030f00b4 ∷ 0x031000a0 ∷ []

-- `ALIASES`.
abbrev pub aliases : List (ℕ × ℕ)
aliases =
    (0x030d01f0, 0x030d00f0)
    ∷ (0x030d02f0, 0x030d00f0)
    ∷ (0x030d03f0, 0x030d00f0)
    ∷ (0x030d04f0, 0x030d00f0)
    ∷ (0x030d05f0, 0x030d00f0)
    ∷ (0x030d06f0, 0x030d00f0)
    ∷ (0x030d07f0, 0x030d00f0)
    ∷ (0x030d08f0, 0x030d00f0)
    ∷ (0x030d09f0, 0x030d00f0)
    ∷ (0x030d0af0, 0x030d00f0)
    ∷ (0x030d0bf0, 0x030d00f0)
    ∷ (0x030d0cf0, 0x030d00f0)
    ∷ (0x030d0df0, 0x030d00f0)
    ∷ (0x030d0ef0, 0x030d00f0)
    ∷ (0x030e01f0, 0x030e00f0)
    ∷ (0x030e02f0, 0x030e00f0)
    ∷ (0x030e03f0, 0x030e00f0)
    ∷ (0x030e04f0, 0x030e00f0)
    ∷ (0x030e05f0, 0x030e00f0)
    ∷ (0x030e06f0, 0x030e00f0)
    ∷ (0x030f00b2, 0x030f00b1)
    ∷ (0x030f00b3, 0x030f00b1)
    ∷ (0x030f00c1, 0x030f00b4)
    ∷ []

-- `VERIFIED_GC_SIZES`.
abbrev pub verified_gc_sizes : List (ℕ × List ℕ)
verified_gc_sizes = (0x030d00f0, 240 ∷ []) ∷ (0x030e00f0, 240 ∷ 264 ∷ []) ∷ []

unfoldable pub alias_of : ℕ → Option ℕ
alias_of stored = lookup stored aliases

unfoldable pub gc_runtime_size_is_verified : ℕ → ℕ → Option Bool
gc_runtime_size_is_verified layout_hex reported = do
  sizes ← lookup layout_hex verified_gc_sizes
  some (any (λ size. size == reported) sizes)

-- `LAYOUTS.iter().any(|(h, _)| h == stored)`.
abbrev pub registered : ℕ → Bool
registered stored = any (λ h. h == stored) layouts

unfoldable pub has_verified_layout : ℕ → Bool
unfolding alias_of
has_verified_layout stored = registered stored || is_some (alias_of stored)

unfoldable pub release_level : ℕ → ℕ
release_level hex = hex / 16 % 16

-- `hex & MAJOR_MINOR_MASK`.
unfoldable pub major_minor : ℕ → ℕ
major_minor hex = hex / 2 ^ 16 % 2 ^ 16 * 2 ^ 16

abbrev pub release_level_final : ℕ
release_level_final = 0xF

abbrev pub abs_diff : ℕ → ℕ → ℕ
abs_diff a b = if leb a b then b - a else a - b

-- The order of the keys `(h > stored, h.abs_diff(stored))`.
unfoldable pub closer : ℕ → ℕ → ℕ → Bool
closer stored a b =
    if ltb stored a
    then ltb stored b && ltb (abs_diff a stored) (abs_diff b stored)
    else ltb stored b || ltb (abs_diff a stored) (abs_diff b stored)

-- `min_by_key`: the first of the closest.
unfoldable pub closest_of : ℕ → ℕ → List ℕ → ℕ
unfolding closer
closest_of stored best [] = best
closest_of stored best (h ∷ hs) = closest_of stored (if closer stored h best then h else best) hs

unfoldable pub closest : ℕ → List ℕ → Option ℕ
unfolding closest_of
closest stored [] = none
closest stored (h ∷ hs) = some (closest_of stored h hs)

-- The layouts of the same line that are released.
unfoldable pub stands_in : ℕ → ℕ → Bool
unfolding release_level major_minor
stands_in stored h = major_minor h == major_minor stored && release_level h == release_level_final

-- `none` is a refusal.
unfoldable pub resolve_fallback_layout : ℕ → Option ℕ
unfolding closest stands_in release_level
resolve_fallback_layout stored =
    if not (release_level stored == release_level_final)
    then none
    else closest stored (keep (stands_in stored) layouts)

-- `FALLBACK_CACHE`: the layout chosen for a process and a stored version.
abbrev pub FallbackCache : Type 0
FallbackCache = List ((ℕ × ℕ) × ℕ)

-- A fallback, and the cache with it.
abbrev pub remember : ℕ → ℕ → FallbackCache → ℕ → Option (ℕ × FallbackCache)
remember pid stored cache h = some (h, insert (pid, stored) h cache)

-- The layout that a process is read through, strongest evidence first, and the cache. The warning
-- is printed when the cache changes.
unfoldable pub layout_hex : ℕ → ℕ → FallbackCache → Option (ℕ × FallbackCache)
unfolding alias_of resolve_fallback_layout
layout_hex pid stored cache =
    if registered stored then some (stored, cache) else elim (alias_of stored) [
      | some h ↦ some (h, cache)
      | none ↦ elim (lookup (pid, stored) cache) [
        | some h ↦ some (h, cache)
        | none ↦ resolve_fallback_layout stored >>= remember pid stored cache
      ]
    ]

-- The results of `read_offsets`: `panic` is its `expect`.
pub data Outcome (A : Type 0) : Type 0 where
  failed : Outcome A
  panic : Outcome A
  done : A → Outcome A

-- The process, and the reading of the struct of a layout at an address.
pub record Runtime (Offsets : Type 0) : Type 0 where
  pub find_runtime : ℕ → Option ℕ
  pub read_memory : ℕ → ℕ → ℕ → Option (List ℕ)
  pub read_struct : ℕ → ℕ → ℕ → Option Offsets

-- `none` is a failed read, `some none` a layout that is not registered.
unfoldable pub build_variant :
    {Offsets : Type 0} → Runtime Offsets → ℕ → ℕ → ℕ → Option (Option Offsets)
build_variant t pid addr hex =
    if registered hex then (t.read_struct hex pid addr >>= λ o. some (some o)) else some none

-- `_Py_DebugOffsets` starts with a cookie of 8 bytes, and the version follows.
unfoldable pub stored_version : {Offsets : Type 0} → Runtime Offsets → ℕ → ℕ → Option ℕ
unfolding from_le_bytes
stored_version t pid addr = do
  bytes ← t.read_memory pid (add_u64 addr 8) 8
  some (from_le_bytes bytes)

-- Where the runtime is, and the version stored there.
unfoldable pub located : {Offsets : Type 0} → Runtime Offsets → ℕ → Option (ℕ × ℕ)
unfolding stored_version
located t pid = do
  addr ← t.find_runtime pid
  stored ← stored_version t pid addr
  some (addr, stored)

unfoldable pub too_old : PythonVersion → Bool
too_old v = ltb v.major 3 || v.major == 3 && ltb v.minor 13

-- The part of `read_offsets` behind the choice of a layout.
unfoldable pub read_through :
    {Offsets : Type 0} → Runtime Offsets → ℕ → ℕ → ℕ → ℕ → Outcome (ℕ × ℕ × Offsets)
unfolding build_variant
read_through t pid addr stored hex = elim (build_variant t pid addr hex) [
  | none ↦ failed
  | some none ↦ panic
  | some (some offsets) ↦ done (addr, stored, offsets)
]

unfoldable pub read_offsets :
    {Offsets : Type 0}
    → Runtime Offsets
    → ℕ
    → PythonVersion
    → FallbackCache
    → Outcome (ℕ × ℕ × Offsets) × FallbackCache
unfolding too_old located layout_hex from_hex read_through
read_offsets t pid v cache = if too_old v then (failed, cache) else elim (located t pid) [
  | none ↦ (failed, cache)
  | some (addr, stored) ↦ elim (from_hex stored >>= λ _. layout_hex pid stored cache) [
    | none ↦ (failed, cache)
    | some (hex, cache') ↦ (read_through t pid addr stored hex, cache')
  ]
]
