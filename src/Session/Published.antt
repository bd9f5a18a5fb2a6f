-- ===== src/Session/Published.antt =====
-- Which layouts a version is read through: the pieces that `resolve_layout` puts together.
use gc_scope.Base.{
  ℕ, ◌≡◌, refl, ◌∙◌, sym, ap, none, some, unwrap_or, leb, ◌≤◌, ◌<◌, if◌then◌else◌, ◌⊎◌, inl, inr,
  ◌>>=◌, bind-some, Bool-cases, Option-cases, All, arith,
}
use mathlib.Core.Path.{subst}
use gc_scope.Memory.{Machine}
use gc_scope.OffsetTable.{OffsetTable}
use gc_scope.Process.{Images}
use gc_scope.Registry.{
  Outcome, failed, panic, done, Runtime, FallbackCache, read_offsets, read_through, build_variant,
  too_old, located, layout_hex, has_verified_layout,
}
use gc_scope.Registry.Resolve.{Chosen, CachedFallback, Sound, read_offsets-Sound}
use gc_scope.Registry.Tables.{VersionedOffsets, to_offset_table}
use gc_scope.Registry.Legacy.{table_for_version}
use gc_scope.Session.Attach.{runtime_of, resolve_layout}
use gc_scope.Session.Defs.{
  full, layout_only, legacy, CachedLayout, Layouts, published_layout, legacy_layout, publish,
}
use gc_scope.Version.{PythonVersion, from_hex}

pub done_injective : {A : Type 0} {a b : A} → done a ≡ done b → a ≡ b
done_injective h = cc h

-- The table of a version that publishes none.
abbrev pub IsLegacy : CachedLayout → Type 0
IsLegacy e =
    (t : OffsetTable) × (table_for_version e.version.major e.version.minor ≡ some t)
    × (e.resolved ≡ legacy t)
    × (e.stored_hex ≡ none)

-- The table of the offsets that were read of a process, at an address, through a layout that the
-- stored version is evidence for. The layout is marked by whether a verified one stands behind that
-- version, and its version is the stored one.
pub record IsPublished (l : Layouts) (pid addr stored : ℕ) (e : CachedLayout) : Type 0 where
  pub hex : ℕ
  pub offsets : VersionedOffsets
  pub chosen : Chosen stored hex
  pub read : l.read_struct hex pid addr ≡ some offsets
  pub made_of : e.stored_hex ≡ some stored
  pub of_version : from_hex stored ≡ some e.version
  pub marked : e.resolved ≡ (
      if has_verified_layout stored
      then full offsets (to_offset_table l.gc_candidates offsets)
      else layout_only offsets (to_offset_table l.gc_candidates offsets))

-- A layout is the table of its version, or was read of some process.
abbrev pub IsLayout : Layouts → CachedLayout → Type 0
IsLayout l e =
    IsLegacy e ⊎ ((pid : ℕ) × (addr : ℕ) × (stored : ℕ) × IsPublished l pid addr stored e)

-- Offsets are read of no other version than one that `PY_VERSION_HEX` gives.
read_offsets-version :
    {Offsets : Type 0} (t : Runtime Offsets) (pid : ℕ) (v : PythonVersion) (cache : FallbackCache)
    (addr stored : ℕ) (o : Offsets)
    → (read_offsets t pid v cache).0 ≡ done (addr, stored, o)
    → (w : PythonVersion) × (from_hex stored ≡ some w)
unfolding read_offsets read_through
read_offsets-version t pid v cache addr stored o e = elim (Bool-cases (too_old v)) [
  | inl old ↦ absurd (ground (arith, e, old))
  | inr new_enough ↦ elim (Option-cases (located t pid)) [
    | inl lost ↦ absurd (ground (arith, e, new_enough, lost))
    | inr ((addr', stored'), at) ↦
        elim (Option-cases (from_hex stored' >>= λ _. layout_hex pid stored' cache)) [
          | inl refused ↦ absurd (ground (arith, e, new_enough, at, refused))
          | inr ((h, cache'), found) ↦
              let (w, is, _) =
                bind-some (from_hex stored') (λ _. layout_hex pid stored' cache) (h, cache')
                  found in
              let through : read_through t pid addr' stored' h ≡ done (addr, stored, o) =
                ground (arith, e, new_enough, at, found) in
              elim (Option-cases (build_variant t pid addr' h)) [
                | inl unread ↦ absurd (ground (arith, through, unread))
                | inr (none, unknown) ↦ absurd (ground (arith, through, unknown))
                | inr (some o', reads) ↦
                    let same : stored' ≡ stored = ground (arith, through, reads) in
                    (w, ap from_hex (sym same) ∙ is)
              ]
        ]
  ]
]

module _ {H : Type 0} (m : Machine H) (i : Images) (l : Layouts) where
  -- A layout that is resolved now for a process: read of it at the runtime's address, or the table
  -- of the detected version where that publishes none.
  abbrev pub IsResolved : ℕ → PythonVersion → CachedLayout → Type 0
  IsResolved pid v e =
      ((13 ≤ v.minor)
        × ((addr : ℕ) × (stored : ℕ) × (located (runtime_of m i l) pid ≡ some (addr, stored))
            × IsPublished l pid addr stored e))
      ⊎ ((v.minor < 13) × (e.version ≡ v) × IsLegacy e)

  pub IsResolved-IsLayout :
      (pid : ℕ) (v : PythonVersion) (e : CachedLayout) → IsResolved pid v e → IsLayout l e
  IsResolved-IsLayout pid v e (inl (_, (addr, stored, _, is))) = inr (pid, addr, stored, is)
  IsResolved-IsLayout pid v e (inr (_, _, is)) = inl is

  publish-IsPublished :
      (pid : ℕ) (v : PythonVersion) (r : Outcome (ℕ × ℕ × VersionedOffsets)) (e : CachedLayout)
      → Sound (runtime_of m i l) pid r
      → ((addr stored : ℕ) (o : VersionedOffsets)
          → r ≡ done (addr, stored, o)
          → (w : PythonVersion) × (from_hex stored ≡ some w))
      → publish l v r ≡ done e
      → (addr : ℕ) × (stored : ℕ) × (located (runtime_of m i l) pid ≡ some (addr, stored))
        × IsPublished l pid addr stored e
  unfolding publish published_layout
  publish-IsPublished pid v failed e sound version h = absurd (cc h)
  publish-IsPublished pid v panic e sound version h = absurd sound
  publish-IsPublished pid v (done (addr, stored, o)) e (at, (hex, chosen, reads)) version h =
      let (w, is) = version addr stored o refl in
      let same : w ≡ unwrap_or (from_hex stored) v = sym (ap (λ x. unwrap_or x v) is) in
      (
        addr,
        stored,
        at,
        subst (IsPublished l pid addr stored) (done_injective h) (record {
          hex = hex;
          offsets = o;
          chosen = chosen;
          read = reads;
          made_of = refl;
          of_version = is ∙ ap some same;
          marked = refl;
        }),
      )

  pub resolve_layout-IsResolved :
      (pid : ℕ) (v : PythonVersion) (fallbacks : FallbackCache)
      → All CachedFallback fallbacks
      → ((e : CachedLayout)
          → (resolve_layout m i l pid v fallbacks).0 ≡ done e
          → IsResolved pid v e)
        × All CachedFallback ((resolve_layout m i l pid v fallbacks).1)
  unfolding resolve_layout
  resolve_layout-IsResolved pid v fallbacks ok = elim (Bool-cases (leb 13 v.minor)) [
    | inl published ↦
        let t = runtime_of m i l in
        let (sound, kept) = read_offsets-Sound t pid v fallbacks ok in
        rw published (
          λ e h. inl (
            ground (arith, published),
            publish-IsPublished pid v ((read_offsets t pid v fallbacks).0) e sound
                (read_offsets-version t pid v fallbacks) h,
          ),
          kept,
        )
    | inr old ↦ rw old (
      λ e h. elim (Option-cases (table_for_version v.major v.minor)) [
        | inl unknown ↦ absurd (ground (arith, h, unknown))
        | inr (t, found) ↦
            let is : legacy_layout v t ≡ e = done_injective (ground (arith, h, found)) in
            inr (
              ground (arith, old),
              ap (λ (x : CachedLayout). x.version) (sym is),
              subst IsLegacy is (t, found, refl, refl),
            )
      ],
      ok,
    )
  ]
