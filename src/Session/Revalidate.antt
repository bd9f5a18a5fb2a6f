-- ===== src/Session/Revalidate.antt =====
-- What revalidating a session may result in.
use gc_scope.Base.{
  ℕ, ◌≡◌, refl, Bool, true, false, Option, none, some, String, Bool-cases, Option-cases, inl, inr,
  ◌⊎◌, arith,
}
use mathlib.Core.Path.{subst}
use gc_scope.Memory.{Machine, open_handle}
use gc_scope.Process.{Images}
use gc_scope.Session.Attach.{
  layout_still_valid, find_runtime_versioned, exe_key_for, soft_reattach, revalidate,
}
use gc_scope.Session.Defs.{
  exe_eq, CmdlineCheck, gone, differs, inconclusive, classify_cmdline, PySession, layout_in,
  Revalidated, fresh, changed, dead, same_key,
}
use gc_scope.Version.{PythonVersion}
use gc_scope.Session.Live.{
  IsLive, IsStale, IsUnread, layout_still_valid-IsLive, layout_still_valid-IsStale,
  layout_still_valid-IsUnread,
}
use gc_scope.Session.Same.{
  IsOtherLine, IsNoOtherLine, Told, classify_cmdline-Told, same_key-eq, same_key-ne,
}

-- The answers of a check of the command line.
CmdlineCheck-cases : (c : CmdlineCheck) → (c ≡ gone) ⊎ (c ≡ differs) ⊎ (c ≡ inconclusive)
CmdlineCheck-cases gone = inl refl
CmdlineCheck-cases differs = inr (inl refl)
CmdlineCheck-cases inconclusive = inr (inr refl)

module _ {H : Type 0} (m : Machine H) (i : Images) where
  -- A session that is found fresh: only its handle and its runtime's address are taken anew, the
  -- binary is the one it was attached to, and its layout is valid at that address.
  pub record IsFresh (s s' : PySession H) : Type 0 where
    pub path : String
    pub detected : PythonVersion
    pub handle_open : open_handle m s.pid ≡ some s'.handle
    pub located : find_runtime_versioned m i s.pid ≡ some (s'.runtime_addr, path, detected)
    pub keyed : exe_key_for m path ≡ s.exe_key
    pub valid : IsLive m s'.handle s'.runtime_addr (layout_in s)
    pub kept : s' ≡ record s { handle = s'.handle; runtime_addr = s'.runtime_addr }

  -- The process is opened, and its runtime is found, of the binary that was attached to.
  abbrev pub IsAt : PySession H → H → ℕ → Type 0
  IsAt s h addr =
      (open_handle m s.pid ≡ some h)
      × ((path : String) × (detected : PythonVersion) × (find_runtime_versioned m i s.pid
            ≡ some (addr, path, detected))
          × (exe_key_for m path ≡ s.exe_key))

  -- Why a session cannot be reattached: the process cannot be opened, its runtime cannot be found, or
  -- it is found and the version word that the session's layout was made of cannot be read there.
  abbrev pub IsLost : PySession H → Type 0
  IsLost s =
      (open_handle m s.pid ≡ none)
      ⊎ (find_runtime_versioned m i s.pid ≡ none)
      ⊎ ((h : H) × (addr : ℕ) × IsAt s h addr × IsUnread m h addr (layout_in s))

  -- Why a session that can be reattached is no longer of the same program: the runtime that is found
  -- is of another binary, or the version word there is another.
  abbrev pub IsReplaced : PySession H → Type 0
  IsReplaced s =
      (h : H) × (addr : ℕ) × (((open_handle m s.pid ≡ some h)
          × ((path : String) × (detected : PythonVersion) × (find_runtime_versioned m i s.pid
                ≡ some (addr, path, detected))
              × (¬ (exe_key_for m path ≡ s.exe_key))))
        ⊎ (IsAt s h addr × IsStale m h addr (layout_in s)))

  abbrev pub Reattached : PySession H → Option (Bool × PySession H) → Type 0
  Reattached s none = IsLost s
  Reattached s (some (true, s')) = IsFresh s s'
  Reattached s (some (false, s')) = IsReplaced s × (s' ≡ s)

  soft_reattach-Reattached : (s : PySession H) → Reattached s (soft_reattach m i s)
  unfolding soft_reattach
  soft_reattach-Reattached s = elim (Option-cases (open_handle m s.pid)) [
    | inl unopened ↦
        let is : none ≡ soft_reattach m i s = ground (arith, unopened) in
        subst (Reattached s) is (inl unopened)
    | inr (h, op) ↦ elim (Option-cases (find_runtime_versioned m i s.pid)) [
      | inl unlocated ↦
          let is : none ≡ soft_reattach m i s = ground (arith, op, unlocated) in
          subst (Reattached s) is (inr (inl unlocated))
      | inr ((addr, path, detected), loc) ↦
          elim (Bool-cases (same_key (exe_key_for m path) s.exe_key)) [
            | inr other ↦
                let is : some (false, s) ≡ soft_reattach m i s = ground (arith, op, loc, other) in
                subst (Reattached s) is (
                  (
                    h,
                    addr,
                    inl (
                      op,
                      (path, detected, loc, same_key-ne (exe_key_for m path) s.exe_key other),
                    ),
                  ),
                  refl,
                )
            | inl same ↦
                let key = same_key-eq (exe_key_for m path) s.exe_key same in
                let at : IsAt s h addr = (op, (path, detected, loc, key)) in
                elim (Option-cases (layout_still_valid m h addr (layout_in s))) [
                  | inl unread ↦
                      let is : none ≡ soft_reattach m i s = ground (arith, op, loc, same, unread) in
                      subst (Reattached s) is (
                        inr (
                          inr (
                            h,
                            addr,
                            at,
                            layout_still_valid-IsUnread m h addr (layout_in s) unread,
                          )))
                  | inr (false, stale) ↦
                      let is : some (false, s) ≡ soft_reattach m i s =
                        ground (arith, op, loc, same, stale) in
                      subst (Reattached s) is (
                        (
                          h,
                          addr,
                          inr (at, layout_still_valid-IsStale m h addr (layout_in s) stale),
                        ),
                        refl,
                      )
                  | inr (true, valid) ↦
                      let s' : PySession H = record s { handle = h; runtime_addr = addr } in
                      let is : some (true, s') ≡ soft_reattach m i s =
                        ground (arith, op, loc, same, valid) in
                      subst (Reattached s) is (record {
                        path = path;
                        detected = detected;
                        handle_open = op;
                        located = loc;
                        keyed = key;
                        valid = layout_still_valid-IsLive m h addr (layout_in s) valid;
                        kept = refl;
                      })
                ]
          ]
    ]
  ]

  -- What a revalidation may result in.
  abbrev pub Judged : PySession H → Revalidated × PySession H → Type 0
  Judged s (fresh, s') = IsNoOtherLine s.cmdline (m.command_line s.pid) × IsFresh s s'
  Judged s (changed, s') =
      (IsOtherLine s.cmdline (m.command_line s.pid)
        ⊎ (IsNoOtherLine s.cmdline (m.command_line s.pid) × IsReplaced s))
      × (s' ≡ s)
  Judged s (dead, s') =
      ((m.command_line s.pid ≡ none) ⊎ (IsNoOtherLine s.cmdline (m.command_line s.pid) × IsLost s))
      × (s' ≡ s)

  -- The judgement of a session by what its reattachment results in.
  judge :
      (s : PySession H) (r : Option (Bool × PySession H))
      → soft_reattach m i s ≡ r
      → classify_cmdline s.cmdline (m.command_line s.pid) ≡ inconclusive
      → IsNoOtherLine s.cmdline (m.command_line s.pid)
      → Reattached s r
      → Judged s (revalidate m i s)
  unfolding revalidate
  judge s none e c line h =
      let is : (dead, s) ≡ revalidate m i s = ground (arith, e, c) in
      subst (Judged s) is (inr (line, h), refl)
  judge s (some (true, s')) e c line h =
      let is : (fresh, s') ≡ revalidate m i s = ground (arith, e, c) in
      subst (Judged s) is (line, h)
  judge s (some (false, s')) e c line h =
      let is : (changed, s') ≡ revalidate m i s = ground (arith, e, c) in
      subst (Judged s) is (inr (line, h.0), h.1)

  -- A session is fresh only if the process has a command line that is not known to differ, its
  -- handle and its runtime are found anew, the runtime is of the same binary, and the version word
  -- there is the one that its layout was made of, where it was made of one; then only the handle
  -- and the runtime's address change. It is changed only if both command lines are known, not empty
  -- and different, or the runtime that is found is of another binary, or the version word there is
  -- another. It is dead only if the process has no command line, cannot be opened, has no runtime
  -- that is found, or the version word there cannot be read. Where it is changed or dead, it stays
  -- as it was.
  pub revalidate-Judged : (s : PySession H) → Judged s (revalidate m i s)
  unfolding revalidate
  revalidate-Judged s =
      let told = classify_cmdline-Told s.cmdline (m.command_line s.pid) in
      let Line : CmdlineCheck → Type 0 = Told s.cmdline (m.command_line s.pid) in
      elim (CmdlineCheck-cases (classify_cmdline s.cmdline (m.command_line s.pid))) [
        | inl no_line ↦
            let is : (dead, s) ≡ revalidate m i s = ground (arith, no_line) in
            subst (Judged s) is (inl (subst Line no_line told), refl)
        | inr (inl other) ↦
            let is : (changed, s) ≡ revalidate m i s = ground (arith, other) in
            subst (Judged s) is (inl (subst Line other told), refl)
        | inr (inr same) ↦
            judge s (soft_reattach m i s) refl same (subst Line same told)
              (soft_reattach-Reattached s)
      ]
