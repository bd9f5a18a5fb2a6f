-- ===== src/Context/Lifecycle.antt =====
-- What the exporter is told of a process alternates between its start and its death.
use gc_scope.Base.{
  ℕ, ◌≡◌, refl, sym, ap, ◌∙◌, Bool, true, false, not, ◌&&◌, ◌||◌, Option, none, some, List, [], ◌∷◌,
  ◌==◌, ==_iff, if◌then◌else◌, arith, Bool-cases, inl, inr,
}
use gc_scope.Base.Float.{Float64}
use gc_scope.GcStats.{GcStat}
use gc_scope.Cursor.{dropped}
use gc_scope.Context.{
  Told, started, died, events, Tick, Revalidated, fresh, changed, dead, contains, insert_pid,
  remove_pid, MonitorContext, new_context, note_death, drop_process, on_invalid, mark_died,
  note_start, warn_if_interpreters_dropped, events_for, report, read_and_report, poll,
}

pub contains-remove_pid :
    (p q : ℕ) (s : List ℕ) → contains q (remove_pid p s) ≡ (not (p == q) && contains q s)
unfolding contains remove_pid
contains-remove_pid p q [] = ground arith
contains-remove_pid p q (x ∷ s) = ground (arith, contains-remove_pid p q s)

pub contains-insert_pid :
    (p q : ℕ) (s : List ℕ)
    → contains p s ≡ false
    → contains q (insert_pid p s) ≡ (p == q || contains q s)
unfolding contains insert_pid
contains-insert_pid p q s h = ground (arith, h)

module _ {F : Type 0} where
  -- What the exporter knows of process `p`: whether it is alive, or nothing where it was told of a
  -- start of a live process or a death of one that is not.
  unfoldable pub known : ℕ → List (Told F) → Option Bool
  known p [] = some false
  known p (started q ∷ told) =
      let before = known p told in
      if q == p then elim before [ some false ↦ some true | _ ↦ none ] else before
  known p (died q ∷ told) =
      let before = known p told in
      if q == p then elim before [ some true ↦ some false | _ ↦ none ] else before
  known p (events _ ∷ told) = known p told

  -- The exporter knows of `p` what the context does.
  abbrev pub Agrees : ℕ → MonitorContext F → Type 0
  Agrees p c = known p c.told ≡ some (contains p c.alive_pids)

  pub note_death-Agrees : (p q : ℕ) (c : MonitorContext F) → Agrees p c → Agrees p (note_death q c)
  unfolding note_death known
  note_death-Agrees p q c h = elim (Bool-cases (contains q c.alive_pids)) [
    | inl alive ↦
        let out = contains-remove_pid q p c.alive_pids in
        elim (Bool-cases (q == p)) [
          | inl same ↦
              let here = ap (λ x. contains x c.alive_pids) (sym ((==_iff q p).0 same)) ∙ alive in
              ground (arith, h, alive, out, same, here)
          | inr other ↦ ground (arith, h, alive, out, other)
        ]
    | inr gone ↦ ground (arith, h, gone)
  ]

  note_start-Agrees : (p q : ℕ) (c : MonitorContext F) → Agrees p c → Agrees p (note_start q c)
  unfolding note_start known
  note_start-Agrees p q c h = elim (Bool-cases (contains q c.alive_pids)) [
    | inl alive ↦ ground (arith, h, alive)
    | inr gone ↦
        let out = contains-insert_pid q p c.alive_pids gone in
        elim (Bool-cases (q == p)) [
          | inl same ↦
              let here = ap (λ x. contains x c.alive_pids) (sym ((==_iff q p).0 same)) ∙ gone in
              ground (arith, h, gone, out, same, here)
          | inr other ↦ ground (arith, h, gone, out, other)
        ]
  ]

  -- The warning changes nothing that the exporter or the set of live processes shows.
  warn-Agrees :
      (p q : ℕ) (c : MonitorContext F) → Agrees p c → Agrees p (warn_if_interpreters_dropped q c)
  unfolding warn_if_interpreters_dropped
  warn-Agrees p q c h = elim (Bool-cases (dropped c.cursor q == 0)) [
    | inl none_dropped ↦ ground (arith, h, none_dropped)
    | inr some_dropped ↦ ground (arith, h, some_dropped)
  ]

  pub drop_process-Agrees :
      (p q : ℕ) (c : MonitorContext F) → Agrees p c → Agrees p (drop_process q c)
  unfolding drop_process
  drop_process-Agrees p q c h = h

module _ {F : Type 0} ⦃f : Float64 F⦄ where
  report-Agrees :
      (t : Tick) (p q : ℕ) (stats : List GcStat) (c : MonitorContext F)
      → Agrees p c
      → Agrees p ((report t q stats c).0)
  unfolding report events_for known
  report-Agrees t p q stats c h = warn-Agrees p q _ (note_start-Agrees p q c h)

  read_and_report-Agrees :
      (t : Tick) (p q : ℕ) (c : MonitorContext F)
      → Agrees p c
      → Agrees p ((read_and_report t q c).0)
  unfolding read_and_report on_invalid
  read_and_report-Agrees t p q c h = by_parts t.read t.revalidates t.read_again
    where
      by_parts :
          (read : Option (List GcStat)) (rev : Revalidated) (again : Option (List GcStat))
          → Agrees p (
              (read_and_report
                (record t { read = read; revalidates = rev; read_again = again })
                q
                c).0)
      by_parts (some stats) rev again = report-Agrees t p q stats c h
      by_parts none fresh (some stats) = report-Agrees t p q stats c h
      by_parts none fresh none = note_death-Agrees p q c h
      by_parts none changed again =
          note_death-Agrees p q (drop_process q c) (drop_process-Agrees p q c h)
      by_parts none dead again = note_death-Agrees p q c h

  pub poll-Agrees :
      (t : Tick) (p q : ℕ) (c : MonitorContext F) → Agrees p c → Agrees p ((poll t q c).0)
  unfolding poll
  poll-Agrees t p q c h = elim (Bool-cases (contains q c.sessions)) [
    | inl open' ↦ ground (arith, open', read_and_report-Agrees t p q c h)
    | inr none_open ↦ elim (Bool-cases t.attaches) [
      | inl attached ↦ ground (
        arith,
        none_open,
        attached,
        read_and_report-Agrees t p q (record c { sessions = insert_pid q c.sessions }) h,
      )
      | inr refused ↦ ground (arith, none_open, refused, h)
    ]
  ]

-- The steps by which the monitor changes its context.
pub data Step : Type 0 where
  polled : Tick → ℕ → Step
  given_up : ℕ → Step

module _ {F : Type 0} ⦃f : Float64 F⦄ where
  unfoldable pub run_steps : List Step → MonitorContext F → MonitorContext F
  run_steps [] c = c
  run_steps (polled t p ∷ steps) c = run_steps steps ((poll t p c).0)
  run_steps (given_up p ∷ steps) c = run_steps steps (mark_died p c)

  run_steps-Agrees :
      (p : ℕ) (steps : List Step) (c : MonitorContext F) → Agrees p c → Agrees p (run_steps steps c)
  unfolding run_steps mark_died
  run_steps-Agrees p [] c h = h
  run_steps-Agrees p (polled t q ∷ steps) c h =
      run_steps-Agrees p steps ((poll t q c).0) (poll-Agrees t p q c h)
  run_steps-Agrees p (given_up q ∷ steps) c h =
      run_steps-Agrees p steps (mark_died q c)
        (note_death-Agrees p q (drop_process q c) (drop_process-Agrees p q c h))

module _ (F : Type 0) ⦃f : Float64 F⦄ where
  -- Whatever polls and deaths a run has, in any order and whatever the processes answer, the
  -- exporter is told of each process in turn that it started and that it died, starting with its
  -- start, and the process is among the live ones exactly when the last that was told is a start.
  pub run_steps_alternates :
      (p : ℕ) (steps : List Step)
      → known p ((run_steps steps (new_context {F = F})).told)
        ≡ some (contains p ((run_steps steps (new_context {F = F})).alive_pids))
  unfolding known contains
  run_steps_alternates p steps = run_steps-Agrees p steps new_context refl
