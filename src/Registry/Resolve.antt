-- ===== src/Registry/Resolve.antt =====
-- `read_offsets` goes through a registered layout that the stored version is evidence for, and its
-- cache of fallbacks holds nothing else.
use gc_scope.Base.{
  ℕ, ◌≡◌, refl, ap, ◌∙◌, Bool, true, false, not, ◌⊎◌, inl, inr, some, ◌>>=◌, bind-some,
  Option-cases, Bool-cases, arith, All, All-imp, any, any-All,
}
use mathlib.Core.Path.{subst}
use gc_scope.Base.Eq.{nat_eq, nats_eq}
use gc_scope.Base.Map.{lookup, insert, lookup-All, insert-All}
use gc_scope.Version.{PythonVersion, from_hex}
use gc_scope.Registry.{
  registered, aliases, alias_of, resolve_fallback_layout, FallbackCache, remember, layout_hex,
  Outcome, failed, panic, done, Runtime, build_variant, located, too_old, read_through,
  read_offsets,
}
use gc_scope.Registry.Fallback.{IsFallback, Fallback, resolve_fallback_layout_cases}

-- Why a version is read through a layout: it is registered, or proven equal, or falls back.
abbrev pub Evidence : ℕ → ℕ → Type 0
Evidence stored h = (stored ≡ h) ⊎ ((alias_of stored ≡ some h) ⊎ IsFallback stored h)

-- An entry of the cache holds the fallback of its version.
abbrev pub CachedFallback : (ℕ × ℕ) × ℕ → Type 0
CachedFallback e = IsFallback (e.0.1) e.1

-- A layout is registered, and chosen on evidence.
abbrev pub Chosen : ℕ → ℕ → Type 0
Chosen stored h = (registered h ≡ true) × Evidence stored h

aliases-registered : any (λ e. not (registered (e.1))) aliases ≡ false
aliases-registered = refl

not-false : (b : Bool) → not b ≡ false → b ≡ true
not-false b h = ground arith

alias_of-registered : (stored h : ℕ) → alias_of stored ≡ some h → registered h ≡ true
unfolding alias_of
alias_of-registered stored h found =
    let all : All (λ (e : ℕ × ℕ). registered e.1 ≡ true) aliases =
      All-imp _ _ aliases (λ e. not-false (registered e.1))
        (any-All (λ (e : ℕ × ℕ). not (registered e.1)) aliases aliases-registered) in
    lookup-All (λ (e : ℕ × ℕ). registered e.1 ≡ true) stored h aliases all found

resolve_fallback_layout-IsFallback :
    (stored h : ℕ) → resolve_fallback_layout stored ≡ some h → IsFallback stored h
resolve_fallback_layout-IsFallback stored h e =
    subst (Fallback stored) e (resolve_fallback_layout_cases stored)

pub layout_hex-Chosen :
    (pid stored h : ℕ) (cache cache' : FallbackCache)
    → All CachedFallback cache
    → layout_hex pid stored cache ≡ some (h, cache')
    → Chosen stored h × All CachedFallback cache'
unfolding layout_hex
layout_hex-Chosen pid stored h cache cache' ok e = elim (Bool-cases (registered stored)) [
  | inl exact ↦
      let is_h : stored ≡ h = ground (arith, e, exact) in
      let same : cache ≡ cache' = ground (arith, e, exact) in
      ((subst (λ x. registered x ≡ true) is_h exact, inl is_h), subst (All CachedFallback) same ok)
  | inr unknown ↦ elim (Option-cases (alias_of stored)) [
    | inr (a, alias) ↦
        let is_h : a ≡ h = ground (arith, e, unknown, alias) in
        let same : cache ≡ cache' = ground (arith, e, unknown, alias) in
        let at : alias_of stored ≡ some h = alias ∙ ap some is_h in
        ((alias_of-registered stored h at, inr (inl at)), subst (All CachedFallback) same ok)
    | inl no_alias ↦ elim (Option-cases (lookup (pid, stored) cache)) [
      | inr (a, cached) ↦
          let is_h : a ≡ h = ground (arith, e, unknown, no_alias, cached) in
          let same : cache ≡ cache' = ground (arith, e, unknown, no_alias, cached) in
          let f = lookup-All CachedFallback (pid, stored) a cache ok cached in
          let f' = subst (IsFallback stored) is_h f in
          ((f'.in_registry, inr (inr f')), subst (All CachedFallback) same ok)
      | inl fresh ↦
          let chain : (resolve_fallback_layout stored >>= remember pid stored cache)
              ≡ some (h, cache') =
            ground (arith, e, unknown, no_alias, fresh) in
          let (a, found, made) =
            bind-some (resolve_fallback_layout stored) (remember pid stored cache) (h, cache')
              chain in
          let is_h : a ≡ h = ground (arith, made) in
          let same : insert (pid, stored) a cache ≡ cache' = ground (arith, made) in
          let f = resolve_fallback_layout-IsFallback stored a found in
          let f' = subst (IsFallback stored) is_h f in
          (
            (f'.in_registry, inr (inr f')),
            subst (All CachedFallback) same (insert-All CachedFallback (pid, stored) a cache f ok),
          )
    ]
  ]
]

-- What `read_offsets` may return of a process: a failure, or the struct of a layout that the stored
-- version is evidence for, read at the runtime's address. It does not panic.
abbrev pub Sound : {Offsets : Type 0} → Runtime Offsets → ℕ → Outcome (ℕ × ℕ × Offsets) → Type 0
Sound t pid failed = Unit
Sound t pid panic = ⊥
Sound t pid (done (addr, stored, o)) =
    (located t pid ≡ some (addr, stored))
    × ((h : ℕ) × Chosen stored h × (t.read_struct h pid addr ≡ some o))

read_through-Sound :
    {Offsets : Type 0} (t : Runtime Offsets) (pid addr stored h : ℕ)
    → located t pid ≡ some (addr, stored)
    → Chosen stored h
    → Sound t pid (read_through t pid addr stored h)
unfolding read_through build_variant
read_through-Sound t pid addr stored h at chosen = elim (Option-cases (t.read_struct h pid addr)) [
  | inl fails ↦
      let is : failed ≡ read_through t pid addr stored h = ground (arith, chosen.0, fails) in
      subst (Sound t pid) is tt
  | inr (o, reads) ↦
      let is : done (addr, stored, o) ≡ read_through t pid addr stored h =
        ground (arith, chosen.0, reads) in
      subst (Sound t pid) is (at, (h, chosen, reads))
]

-- Whatever the process, the version and the cached fallbacks, `read_offsets` does not panic: it
-- fails, or returns the address and the version that it found, and the struct at that address of
-- a registered layout which is the stored version, proven equal to it, or its fallback. The cache
-- goes on holding fallbacks only.
pub read_offsets-Sound :
    {Offsets : Type 0} (t : Runtime Offsets) (pid : ℕ) (v : PythonVersion) (cache : FallbackCache)
    → All CachedFallback cache
    → Sound t pid ((read_offsets t pid v cache).0)
      × All CachedFallback ((read_offsets t pid v cache).1)
unfolding read_offsets
read_offsets-Sound t pid v cache ok = elim (Bool-cases (too_old v)) [
  | inl old ↦ rw old (tt, ok)
  | inr new_enough ↦ elim (Option-cases (located t pid)) [
    | inl lost ↦ rw (new_enough, lost) (tt, ok)
    | inr ((addr, stored), at) ↦
        elim (Option-cases (from_hex stored >>= λ _. layout_hex pid stored cache)) [
          | inl refused ↦ rw (new_enough, at, refused) (tt, ok)
          | inr ((h, cache'), found) ↦
              let (_, _, chosen) =
                bind-some (from_hex stored) (λ _. layout_hex pid stored cache) (h, cache') found in
              let c = layout_hex-Chosen pid stored h cache cache' ok chosen in
              rw (new_enough, at, found) (read_through-Sound t pid addr stored h at c.0, c.1)
        ]
  ]
]
