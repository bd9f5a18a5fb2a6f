-- ===== src/Session/Attached.antt =====
-- What the layout of an attached session is.
use gc_scope.Base.{ℕ, ◌≡◌, refl, some, String, Option-cases, inl, inr, ◌⊎◌, All, arith}
use mathlib.Core.Path.{subst}
use gc_scope.Memory.{Machine, open_handle}
use gc_scope.Process.{Images}
use gc_scope.Registry.{Outcome, failed, panic, done, FallbackCache}
use gc_scope.Session.Attach.{find_runtime_versioned, exe_key_for, layout_of, session_of, attach}
use gc_scope.Session.Defs.{
  exe_eq, CachedLayout, LayoutCache, LayoutSource, parsed, cached, PySession, Layouts, layout_in,
}
use gc_scope.Version.{PythonVersion}
use gc_scope.Registry.Resolve.{CachedFallback}
use gc_scope.Session.Published.{IsLayout, IsResolved}
use gc_scope.Session.Layouts.{Holds, IsCurrent, IsFound, layout_of-IsFound}

module _ {H : Type 0} (m : Machine H) (i : Images) (l : Layouts) where
  -- A session stands on what was found of its process. Its layout is resolved now for that process
  -- and the version that was detected of it, or is one of the cache that is current.
  pub record IsAttached (pid : ℕ) (layouts : LayoutCache) (s : PySession H) : Type 0 where
    pub of_pid : s.pid ≡ pid
    pub handle_open : open_handle m pid ≡ some s.handle
    pub path : String
    pub detected : PythonVersion
    pub located : find_runtime_versioned m i pid ≡ some (s.runtime_addr, path, detected)
    pub keyed : s.exe_key ≡ exe_key_for m path
    pub line : s.cmdline ≡ m.command_line pid
    pub layout :
        ((s.layout_source ≡ parsed) × IsResolved m i l pid detected (layout_in s))
        ⊎ ((s.layout_source ≡ cached)
            × IsLayout l (layout_in s)
            × IsCurrent m i l s.handle s.runtime_addr s.exe_key layouts (layout_in s))

  -- What an attachment may result in, and the cache of layouts behind it.
  abbrev pub Attached : ℕ → LayoutCache → Outcome (PySession H) → LayoutCache → Type 0
  Attached pid layouts failed layouts' = All (Holds l) layouts'
  Attached pid layouts panic layouts' = All (Holds l) layouts'
  Attached pid layouts (done s) layouts' = IsAttached pid layouts s × All (Holds l) layouts'

  session_of-Attached :
      (handle : H) (pid addr : ℕ) (path : String) (detected : PythonVersion)
      (layouts layouts' : LayoutCache) (found : Outcome (CachedLayout × LayoutSource))
      → open_handle m pid ≡ some handle
      → find_runtime_versioned m i pid ≡ some (addr, path, detected)
      → IsFound m i l handle pid addr (exe_key_for m path) detected layouts found layouts'
      → Attached pid layouts (session_of m i l handle pid addr (exe_key_for m path) found) layouts'
  session_of-Attached handle pid addr path detected layouts layouts' failed op loc h = h
  session_of-Attached handle pid addr path detected layouts layouts' panic op loc h = h
  session_of-Attached handle pid addr path detected layouts layouts' (done (e, parsed)) op loc h = (
    record {
      of_pid = refl;
      handle_open = op;
      path = path;
      detected = detected;
      located = loc;
      keyed = refl;
      line = refl;
      layout = inl (refl, h.0);
    },
    h.1,
  )
  session_of-Attached handle pid addr path detected layouts layouts' (done (e, cached)) op loc h = (
    record {
      of_pid = refl;
      handle_open = op;
      path = path;
      detected = detected;
      located = loc;
      keyed = refl;
      line = refl;
      layout = inr (refl, h.0, h.1);
    },
    h.2,
  )

  -- What an attachment results in, with both caches.
  abbrev pub AttachedWith :
      ℕ → LayoutCache → Outcome (PySession H) × LayoutCache × FallbackCache → Type 0
  AttachedWith pid layouts r = Attached pid layouts r.0 r.1 × All CachedFallback r.2

  -- A session that is attached stands on the handle, the runtime, the binary and the command line
  -- that were found of its process. A layout that is not from the cache is, below 3.13, the table
  -- of the detected version, and else made of the offsets read of that process, at the runtime's
  -- address there, through a layout that the version word stored behind it is evidence for; the
  -- session's version is then that word's, and it is marked verified exactly when a verified layout
  -- stands behind that word. A layout from the cache is one of that binary, was made in one of
  -- these ways, and the live version word, where it was made of one, is that one. Where both caches
  -- hold only such layouts and fallbacks, they go on doing so, whatever the attachment results in.
  pub attach-Attached :
      (pid : ℕ) (layouts : LayoutCache) (fallbacks : FallbackCache)
      → All (Holds l) layouts
      → All CachedFallback fallbacks
      → AttachedWith pid layouts (attach m i l pid layouts fallbacks)
  unfolding attach
  attach-Attached pid layouts fallbacks ok ok' = elim (Option-cases (open_handle m pid)) [
    | inl unopened ↦
        let is : (failed, layouts, fallbacks) ≡ attach m i l pid layouts fallbacks =
          ground (arith, unopened) in
        subst (AttachedWith pid layouts) is (ok, ok')
    | inr (handle, op) ↦ elim (Option-cases (find_runtime_versioned m i pid)) [
      | inl unlocated ↦
          let is : (failed, layouts, fallbacks) ≡ attach m i l pid layouts fallbacks =
            ground (arith, op, unlocated) in
          subst (AttachedWith pid layouts) is (ok, ok')
      | inr ((addr, path, detected), loc) ↦
          let key = exe_key_for m path in
          let found = layout_of m i l handle pid addr key detected layouts fallbacks in
          let is : (session_of m i l handle pid addr key found.0, found.1, found.2)
              ≡ attach m i l pid layouts fallbacks =
            ground (arith, op, loc) in
          let (stands, kept) =
            layout_of-IsFound m i l handle pid addr key detected layouts fallbacks ok ok' in
          subst (AttachedWith pid layouts) is (
            session_of-Attached handle pid addr path detected layouts found.1 found.0 op loc stands,
            kept,
          )
    ]
  ]
