-- ===== src/Session/Layouts.antt =====
-- Which layouts the cache holds, and which layout a process is given.
use gc_scope.Base.{
  ℕ, ◌≡◌, refl, true, false, Option, none, some, Option-cases, inl, inr, All, arith,
}
use mathlib.Core.Path.{subst}
use gc_scope.Base.Map.{lookup, lookup-All, insert-All}
use gc_scope.Memory.{Machine}
use gc_scope.Process.{Images}
use gc_scope.Registry.{Outcome, failed, panic, done, FallbackCache}
use gc_scope.Session.Attach.{layout_still_valid, resolve_layout, cached_layout, layout_of}
use gc_scope.Session.Defs.{
  ExeKey, exe_eq, CachedLayout, LayoutCache, LayoutSource, parsed, cached, Layouts, keep_layout,
  after_parse, choose_layout,
}
use gc_scope.Version.{PythonVersion}
use gc_scope.Registry.Resolve.{CachedFallback}
use gc_scope.Session.Live.{IsLive, layout_still_valid-IsLive}
use gc_scope.Session.Published.{
  IsLayout, IsResolved, IsResolved-IsLayout, resolve_layout-IsResolved,
}

-- An entry of the cache holds a layout.
abbrev pub Holds : Layouts → ExeKey × CachedLayout → Type 0
Holds l e = IsLayout l e.1

keep_layout-Holds :
    (l : Layouts) (key : Option ExeKey) (e : CachedLayout) (layouts : LayoutCache)
    → IsLayout l e
    → All (Holds l) layouts
    → All (Holds l) (keep_layout key e layouts)
unfolding keep_layout
keep_layout-Holds l none e layouts is ok = ok
keep_layout-Holds l (some key) e layouts is ok = insert-All (Holds l) key e layouts is ok

module _ {H : Type 0} (m : Machine H) (i : Images) (l : Layouts) where
  -- A cached layout is one of the cache, under the key of the binary, and the live version word is
  -- the one it was made of.
  abbrev pub IsCurrent : H → ℕ → Option ExeKey → LayoutCache → CachedLayout → Type 0
  IsCurrent handle addr key layouts e =
      ((k : ExeKey) × (key ≡ some k) × (lookup k layouts ≡ some e)) × IsLive m handle addr e

  cached_layout-IsCurrent :
      (handle : H) (addr : ℕ) (key : Option ExeKey) (layouts : LayoutCache) (e : CachedLayout)
      → cached_layout m i l handle addr key layouts ≡ some (some e)
      → IsCurrent handle addr key layouts e
  unfolding cached_layout
  cached_layout-IsCurrent handle addr none layouts e h = absurd (ground (arith, h))
  cached_layout-IsCurrent handle addr (some key) layouts e h =
      elim (Option-cases (lookup key layouts)) [
        | inl unknown ↦ absurd (ground (arith, h, unknown))
        | inr (entry, found) ↦ elim (Option-cases (layout_still_valid m handle addr entry)) [
          | inl unread ↦ absurd (ground (arith, h, found, unread))
          | inr (false, stale) ↦ absurd (ground (arith, h, found, stale))
          | inr (true, valid) ↦
              let is : entry ≡ e = ground (arith, h, found, valid) in
              subst (IsCurrent handle addr (some key) layouts) is
                ((key, refl, found), layout_still_valid-IsLive m handle addr entry valid)
        ]
      ]

  -- The layout that a session is given, where it is from, and the cache of layouts behind it.
  abbrev pub IsFound :
      H
      → ℕ
      → ℕ
      → Option ExeKey
      → PythonVersion
      → LayoutCache
      → Outcome (CachedLayout × LayoutSource)
      → LayoutCache
      → Type 0
  IsFound handle pid addr key v layouts failed layouts' = All (Holds l) layouts'
  IsFound handle pid addr key v layouts panic layouts' = All (Holds l) layouts'
  IsFound handle pid addr key v layouts (done (e, parsed)) layouts' =
      IsResolved m i l pid v e × All (Holds l) layouts'
  IsFound handle pid addr key v layouts (done (e, cached)) layouts' =
      IsLayout l e × IsCurrent handle addr key layouts e × All (Holds l) layouts'

  after_parse-IsFound :
      (handle : H) (pid addr : ℕ) (key : Option ExeKey) (v : PythonVersion) (layouts : LayoutCache)
      (parse : Outcome CachedLayout × FallbackCache)
      → ((e : CachedLayout) → parse.0 ≡ done e → IsResolved m i l pid v e)
      → All (Holds l) layouts
      → IsFound handle pid addr key v layouts
          ((after_parse key layouts parse).0)
          ((after_parse key layouts parse).1)
  unfolding after_parse
  after_parse-IsFound handle pid addr key v layouts (failed, c) h ok = ok
  after_parse-IsFound handle pid addr key v layouts (panic, c) h ok = ok
  after_parse-IsFound handle pid addr key v layouts (done e, c) h ok =
      let is = h e refl in
      (is, keep_layout-Holds l key e layouts (IsResolved-IsLayout m i l pid v e is) ok)

  choose_layout-IsFound :
      (handle : H) (pid addr : ℕ) (key : Option ExeKey) (v : PythonVersion) (layouts : LayoutCache)
      (fallbacks : FallbackCache) (c : Option (Option CachedLayout))
      (parse : Outcome CachedLayout × FallbackCache)
      → cached_layout m i l handle addr key layouts ≡ c
      → ((e : CachedLayout) → parse.0 ≡ done e → IsResolved m i l pid v e)
      → All (Holds l) layouts
      → IsFound handle pid addr key v layouts
          ((choose_layout key layouts fallbacks c parse).0)
          ((choose_layout key layouts fallbacks c parse).1)
  unfolding choose_layout
  choose_layout-IsFound handle pid addr key v layouts fallbacks none parse e h ok = ok
  choose_layout-IsFound handle pid addr key v layouts fallbacks (some none) parse e h ok =
      after_parse-IsFound handle pid addr key v layouts parse h ok
  choose_layout-IsFound handle pid addr key v layouts fallbacks (some (some entry)) parse e h ok =
      let current = cached_layout-IsCurrent handle addr key layouts entry e in
      let (k, is_key, found) = current.0 in
      (lookup-All (Holds l) k entry layouts ok found, current, ok)

  -- The cache of fallbacks is the old one or the one that parsing leaves.
  choose_layout-CachedFallback :
      (key : Option ExeKey) (layouts : LayoutCache) (fallbacks : FallbackCache)
      (c : Option (Option CachedLayout)) (parse : Outcome CachedLayout × FallbackCache)
      → All CachedFallback fallbacks
      → All CachedFallback (parse.1)
      → All CachedFallback ((choose_layout key layouts fallbacks c parse).2)
  unfolding choose_layout after_parse
  choose_layout-CachedFallback key layouts fallbacks none parse ok kept = ok
  choose_layout-CachedFallback key layouts fallbacks (some (some e)) parse ok kept = ok
  choose_layout-CachedFallback key layouts fallbacks (some none) (failed, c) ok kept = kept
  choose_layout-CachedFallback key layouts fallbacks (some none) (panic, c) ok kept = kept
  choose_layout-CachedFallback key layouts fallbacks (some none) (done e, c) ok kept = kept

  pub layout_of-IsFound :
      (handle : H) (pid addr : ℕ) (key : Option ExeKey) (v : PythonVersion) (layouts : LayoutCache)
      (fallbacks : FallbackCache)
      → All (Holds l) layouts
      → All CachedFallback fallbacks
      → IsFound handle pid addr key v layouts
          ((layout_of m i l handle pid addr key v layouts fallbacks).0)
          ((layout_of m i l handle pid addr key v layouts fallbacks).1)
        × All CachedFallback ((layout_of m i l handle pid addr key v layouts fallbacks).2)
  unfolding layout_of
  layout_of-IsFound handle pid addr key v layouts fallbacks ok ok' =
      let (resolved, kept) = resolve_layout-IsResolved m i l pid v fallbacks ok' in
      let c = cached_layout m i l handle addr key layouts in
      let parse = resolve_layout m i l pid v fallbacks in
      (
        choose_layout-IsFound handle pid addr key v layouts fallbacks c parse refl resolved ok,
        choose_layout-CachedFallback key layouts fallbacks c parse ok' kept,
      )
