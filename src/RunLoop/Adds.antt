-- ===== src/RunLoop/Adds.antt =====
-- What a poll or a death does to the live processes of the context.
use gc_scope.Base.{
  ℕ, ◌≡◌, sym, ap, ◌∙◌, true, not, ◌&&◌, Option, none, some, List, ◌==◌, ==_iff, arith, Bool-cases,
  inl, inr, ◌⊎◌,
}
use gc_scope.Base.Float.{Float64}
use gc_scope.GcStats.{GcStat}
use gc_scope.Context.{
  Tick, Revalidated, fresh, changed, dead, MonitorContext, poll, mark_died, note_death, note_start,
  drop_process, warn_if_interpreters_dropped, events_for, report, read_and_report, on_invalid,
  contains, insert_pid,
}
use gc_scope.Context.Lifecycle.{contains-remove_pid, contains-insert_pid}

module _ {F : Type 0} where
  -- A process that a step adds to the live ones.
  abbrev pub Adds : ℕ → MonitorContext F → MonitorContext F → Type 0
  Adds q c c' =
      (p : ℕ)
      → contains p c'.alive_pids ≡ true
      → ((q == p) ≡ true) ⊎ (contains p c.alive_pids ≡ true)

  note_death-Adds : (q : ℕ) (c : MonitorContext F) → Adds q c (note_death q c)
  unfolding note_death
  note_death-Adds q c p h = elim (Bool-cases (contains q c.alive_pids)) [
    | inl alive ↦ inr (ground (arith, h, alive, contains-remove_pid q p c.alive_pids))
    | inr gone ↦ inr (ground (arith, h, gone))
  ]

  note_start-Adds : (q : ℕ) (c : MonitorContext F) → Adds q c (note_start q c)
  unfolding note_start
  note_start-Adds q c p h = elim (Bool-cases (contains q c.alive_pids)) [
    | inl alive ↦ inr (ground (arith, h, alive))
    | inr gone ↦
        let out = contains-insert_pid q p c.alive_pids gone in
        elim (Bool-cases (q == p)) [
          | inl same ↦ inl same
          | inr other ↦ inr (ground (arith, h, gone, out, other))
        ]
  ]

  warn-alive_pids :
      (q : ℕ) (c : MonitorContext F) → (warn_if_interpreters_dropped q c).alive_pids ≡ c.alive_pids
  unfolding warn_if_interpreters_dropped
  warn-alive_pids q c = ground arith

  -- A process that has died is none of the live ones.
  pub mark_died-alive :
      (q p : ℕ) (c : MonitorContext F)
      → contains p ((mark_died q c).alive_pids) ≡ (not (q == p) && contains p c.alive_pids)
  unfolding mark_died note_death drop_process
  mark_died-alive q p c = elim (Bool-cases (contains q c.alive_pids)) [
    | inl alive ↦ ground (arith, alive, contains-remove_pid q p c.alive_pids)
    | inr gone ↦ elim (Bool-cases (q == p)) [
      | inl same ↦
          let here = ap (λ x. contains x c.alive_pids) (sym ((==_iff q p).0 same)) ∙ gone in
          ground (arith, gone, same, here)
      | inr other ↦ ground (arith, gone, other)
    ]
  ]

module _ {F : Type 0} ⦃f : Float64 F⦄ where
  report-Adds :
      (t : Tick) (q : ℕ) (stats : List GcStat) (c : MonitorContext F)
      → Adds q c ((report t q stats c).0)
  unfolding report events_for
  report-Adds t q stats c p h =
      note_start-Adds q c p (ap (contains p) (sym (warn-alive_pids q _)) ∙ h)

  read_and_report-Adds :
      (t : Tick) (q : ℕ) (c : MonitorContext F) → Adds q c ((read_and_report t q c).0)
  unfolding read_and_report on_invalid drop_process
  read_and_report-Adds t q c = by_parts t.read t.revalidates t.read_again
    where
      by_parts :
          (read : Option (List GcStat)) (rev : Revalidated) (again : Option (List GcStat))
          → Adds q c (
              (read_and_report
                (record t { read = read; revalidates = rev; read_again = again })
                q
                c).0)
      by_parts (some stats) rev again = report-Adds t q stats c
      by_parts none fresh (some stats) = report-Adds t q stats c
      by_parts none fresh none = note_death-Adds q c
      by_parts none changed again = note_death-Adds q (drop_process q c)
      by_parts none dead again = note_death-Adds q c

  pub poll-Adds : (t : Tick) (q : ℕ) (c : MonitorContext F) → Adds q c ((poll t q c).0)
  unfolding poll
  poll-Adds t q c p h = elim (Bool-cases (contains q c.sessions)) [
    | inl held ↦ read_and_report-Adds t q c p (ground (arith, h, held))
    | inr none_held ↦ elim (Bool-cases t.attaches) [
      | inl attached ↦
          read_and_report-Adds t q (record c { sessions = insert_pid q c.sessions }) p
            (ground (arith, h, none_held, attached))
      | inr refused ↦ inr (ground (arith, h, none_held, refused))
    ]
  ]
