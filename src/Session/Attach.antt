-- ===== src/Session/Attach.antt =====
-- `attach`, `revalidate` and what they go through, of src/remote_debugging/session.rs.
use gc_scope.Base.{
  ℕ, Bool, true, false, not, Option, none, some, ◌==◌, leb, if◌then◌else◌, String, ◌>>=◌,
}
use gc_scope.Base.Eq.{nat_eq}
use gc_scope.Base.Map.{lookup}
use gc_scope.Base.Word.{add_u64}
use gc_scope.Memory.{Machine, open_handle, read_memory, read_u64_h}
use gc_scope.Process.{
  Images, find_python_modules, find_runtime, find_runtime_module, find_runtime_pre_3_13,
}
use gc_scope.Registry.{Outcome, failed, panic, done, Runtime, FallbackCache, read_offsets}
use gc_scope.Registry.Tables.{VersionedOffsets}
use gc_scope.Registry.Legacy.{table_for_version}
use gc_scope.Version.{PythonVersion}
use gc_scope.Version.Detect.{Target, detect}
use gc_scope.Session.Defs.{
  CachedLayout, ExeKey, LayoutCache, LayoutSource, Layouts, PySession, Revalidated, changed,
  choose_layout, classify_cmdline, dead, differs, exe_eq, fresh, gone, inconclusive, layout_in,
  legacy_layout, offsets, or_fail, publish, same_key,
}

module _ {H : Type 0} (m : Machine H) where
  unfoldable pub exe_key_for : String → Option ExeKey
  exe_key_for path = do mtime ← m.modified path; some (path, mtime)

  unfoldable pub layout_still_valid : H → ℕ → CachedLayout → Option Bool
  layout_still_valid handle runtime_addr entry = elim entry.stored_hex [
    | none ↦ some true
    | some hex ↦ read_u64_h m handle (add_u64 runtime_addr 8) >>= λ live. some (live == hex)
  ]

  module _ (i : Images) where
    -- What `version::detect` asks of the system.
    abbrev pub target_of : ℕ → Target String
    target_of pid = record {
      find_python_modules = find_python_modules m i.macos pid;
      read_memory = read_memory m pid;
      read_file = m.read_file;
      resolve_symbol = λ bytes base. i.resolve_symbol bytes base "Py_Version";
      ro_data_range = i.ro_data_range;
    }

    -- Where the runtime of a version is looked for.
    unfoldable pub locate : ℕ → PythonVersion → Option (ℕ × String)
    locate pid v =
        if leb 13 v.minor
        then find_runtime_module m i pid
        else (table_for_version v.major v.minor >>= λ t. find_runtime_pre_3_13 m i pid t)

    unfoldable pub find_runtime_versioned : ℕ → Option (ℕ × String × PythonVersion)
    unfolding locate
    find_runtime_versioned pid = do
      version ← detect (target_of pid)
      if not (version.major == 3)
          then none
          else do found ← locate pid version; some (found.0, found.1, version)

    module _ (l : Layouts) where
      -- What `read_offsets` asks of the system.
      abbrev pub runtime_of : Runtime VersionedOffsets
      runtime_of = record {
        find_runtime = find_runtime m i;
        read_memory = read_memory m;
        read_struct = l.read_struct;
      }

      unfoldable pub resolve_layout :
          ℕ → PythonVersion → FallbackCache → Outcome CachedLayout × FallbackCache
      unfolding publish
      resolve_layout pid detected fallbacks =
          if leb 13 detected.minor
          then (let (offsets, fallbacks') = read_offsets runtime_of pid detected fallbacks in
              (publish l detected offsets, fallbacks'))
          else (
            or_fail (table_for_version detected.major detected.minor)
                (λ t. done (legacy_layout detected t)),
            fallbacks,
          )

      -- The cached layout of a binary, where the live version word matches: `none` is a failed read.
      unfoldable pub cached_layout :
          H → ℕ → Option ExeKey → LayoutCache → Option (Option CachedLayout)
      unfolding layout_still_valid
      cached_layout handle runtime_addr none layouts = some none
      cached_layout handle runtime_addr (some key) layouts = elim (lookup key layouts) [
        | none ↦ some none
        | some entry ↦ layout_still_valid handle runtime_addr entry >>= λ valid.
            some (if valid then some entry else none)
      ]

      -- The layout of a binary and where it is from, and the caches.
      unfoldable pub layout_of :
          H
          → ℕ
          → ℕ
          → Option ExeKey
          → PythonVersion
          → LayoutCache
          → FallbackCache
          → Outcome (CachedLayout × LayoutSource) × LayoutCache × FallbackCache
      unfolding cached_layout resolve_layout choose_layout
      layout_of handle pid runtime_addr key detected layouts fallbacks =
          choose_layout key layouts fallbacks (cached_layout handle runtime_addr key layouts)
            (resolve_layout pid detected fallbacks)

      -- The session of a layout.
      abbrev pub session_of :
          H → ℕ → ℕ → Option ExeKey → Outcome (CachedLayout × LayoutSource) → Outcome (PySession H)
      session_of handle pid addr key failed = failed
      session_of handle pid addr key panic = panic
      session_of handle pid addr key (done (entry, source)) = done (record {
        pid = pid;
        handle = handle;
        runtime_addr = addr;
        version = entry.version;
        resolved = entry.resolved;
        stored_hex = entry.stored_hex;
        exe_key = key;
        cmdline = m.command_line pid;
        layout_source = source;
      })

      unfoldable pub attach :
          ℕ → LayoutCache → FallbackCache → Outcome (PySession H) × LayoutCache × FallbackCache
      unfolding find_runtime_versioned exe_key_for layout_of
      attach pid layouts fallbacks = elim (open_handle m pid) [
        | none ↦ (failed, layouts, fallbacks)
        | some handle ↦ elim (find_runtime_versioned pid) [
          | none ↦ (failed, layouts, fallbacks)
          | some (addr, path, detected) ↦
              let key = exe_key_for path in
              let (found, layouts', fallbacks') =
                layout_of handle pid addr key detected layouts fallbacks in
              (session_of handle pid addr key found, layouts', fallbacks')
        ]
      ]

    -- `none` is a failure. A session is changed only by success.
    unfoldable pub soft_reattach : PySession H → Option (Bool × PySession H)
    unfolding find_runtime_versioned exe_key_for same_key
    soft_reattach s = do
      handle ← open_handle m s.pid
      found ← find_runtime_versioned s.pid
      if not (same_key (exe_key_for found.1) s.exe_key) then some (false, s) else do
        live ← layout_still_valid handle found.0 (layout_in s)
        some (
            if live
            then (true, record s { handle = handle; runtime_addr = found.0 })
            else (false, s))

    unfoldable pub revalidate : PySession H → Revalidated × PySession H
    unfolding soft_reattach classify_cmdline
    revalidate s = elim (classify_cmdline s.cmdline (m.command_line s.pid)) [
      | gone ↦ (dead, s)
      | differs ↦ (changed, s)
      | inconclusive ↦ elim (soft_reattach s) [
        | none ↦ (dead, s)
        | some (true, s') ↦ (fresh, s')
        | some (false, s') ↦ (changed, s')
      ]
    ]
