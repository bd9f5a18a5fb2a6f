-- ===== src/Exporters/Converted.antt =====
-- The events of converted Records can be spelled in JSON.
use gc_scope.Base.{
  ℕ, ◌<◌, ◌≡◌, refl, sym, true, List, [], ◌∷◌, ◌++◌, map, unwrap_or, String, All, All-append, arith,
  Bool-cases, Option-cases, inl, inr,
}
use mathlib.Core.Path.{subst}
use gc_scope.Base.Int.{ℤ, pos, InI64, ltb_ℤ}
use gc_scope.Base.Text.{codes, decimal, decimal_int}
use gc_scope.Base.Float.{Float64}
use gc_scope.GcStats.{
  GcStat, get, has_timing, ts_stop, collections, collected, uncollectable, candidates, heap_size,
  duration,
}
use gc_scope.GcStats.Bounds.{InI64-get}
use gc_scope.Convert.{
  int, Arg, TraceEvent, end_span, Phase, phases, of_gen, identity, when_uncollectable, phase_pair,
  phase_events, all_phase_events, counts_of, sample, count_events, led, metric_events, pause_events,
  convert_record,
}
use gc_scope.Convert.Nesting.{phase_events_cases}
use gc_scope.Exporters.Json.{all_plain}
use gc_scope.Exporters.Events.{IsPid, IsPlainArg, IsPlainEvent}
use gc_scope.Exporters.Spelling.{
  all_plain-append, decimal-plain, decimal_int-plain, of_gen-plain, get-InI64, InI64-ts_start,
  phase_start-InI64, IsPlainPhase, phases-IsPlainPhase,
}

-- A Record of a process and an interpreter whose numbers fit.
pub record IsOfTrack (pid : ℕ) (r : GcStat) : Type 0 where
  pub is_pid : IsPid pid
  pub is_iid : InI64 r.interpreter_id
  pub is_gen : r.generation < 3

module _ (F : Type 0) ⦃f : Float64 F⦄ where
  identity-plain : (pid : ℕ) (r : GcStat) → IsOfTrack pid r → All IsPlainArg (identity {F = F} r)
  unfolding all_plain
  identity-plain pid r t = ((refl, (omega arith, omega (arith, t.is_gen))), ((refl, t.is_iid), tt))

  when_uncollectable-plain : (r : GcStat) → All IsPlainArg (when_uncollectable {F = F} r)
  unfolding when_uncollectable uncollectable all_plain
  when_uncollectable-plain r = elim (Bool-cases (ltb_ℤ (pos 0) (uncollectable r))) [
    | inl some' ↦ rw some' ((refl, InI64-get r "uncollectable"), tt)
    | inr none' ↦ rw none' tt
  ]

  -- The arguments that a phase takes of a Record.
  phase_args-plain :
      (r : GcStat) (args : List (String × String))
      → All (λ (a : String × String). all_plain (codes a.0) ≡ true) args
      → All
          (IsPlainArg {F = F})
          (map (λ (a : String × String). (a.0, int (unwrap_or (get r a.1) (pos 0)))) args)
  phase_args-plain r [] h = tt
  phase_args-plain r (a ∷ args) h = ((h.0, InI64-get r a.1), phase_args-plain r args h.1)

  phase_events-plain :
      (pid : ℕ) (r : GcStat) (p : Phase)
      → IsOfTrack pid r
      → IsPlainPhase p
      → All (IsPlainEvent {F = F}) (phase_events pid r p)
  unfolding phase_pair all_plain
  phase_events-plain pid r p t h = elim (phase_events_cases pid r p) [
    | inl nothing ↦ subst (All (IsPlainEvent {F = F})) (sym nothing) tt
    | inr (start, stop, starts, stops, _, pair) ↦
        let label =
          of_gen-plain (codes p.label ++ codes " ") r.generation
            (all_plain-append (codes p.label) (codes " ") h.0 refl) in
        let cat = of_gen-plain (codes p.cat) r.generation h.1 in
        let is_start = phase_start-InI64 r p.start start starts in
        let is_stop = get-InI64 r p.stop stop stops in
        let args =
          All-append (IsPlainArg {F = F}) (identity r)
            (map (λ (a : String × String). (a.0, int (unwrap_or (get r a.1) (pos 0)))) p.args)
            (identity-plain pid r t) (phase_args-plain r p.args h.2) in
        subst (All (IsPlainEvent {F = F})) (sym pair) (
          (t.is_pid, t.is_iid, is_start, label, cat, args),
          ((t.is_pid, t.is_iid, is_stop, label, cat), tt),
        )
  ]

  all_phase_events-plain :
      (pid : ℕ) (r : GcStat) (ps : List Phase)
      → IsOfTrack pid r
      → All IsPlainPhase ps
      → All (IsPlainEvent {F = F}) (all_phase_events pid r ps)
  unfolding all_phase_events
  all_phase_events-plain pid r [] t h = tt
  all_phase_events-plain pid r (p ∷ ps) t h =
      All-append IsPlainEvent (phase_events pid r p) (all_phase_events pid r ps)
        (phase_events-plain pid r p t h.0) (all_phase_events-plain pid r ps t h.1)

  generation-plain : (g : ℕ) → all_plain (codes "G" ++ decimal g) ≡ true
  unfolding all_plain
  generation-plain g = all_plain-append (codes "G") (decimal g) refl (decimal-plain g)

  metric_events-plain :
      (pid : ℕ) (r : GcStat)
      → IsOfTrack pid r
      → f.is_finite (duration r) ≡ true
      → All (IsPlainEvent {F = F}) (metric_events pid r)
  unfolding metric_events collected candidates heap_size all_plain
  metric_events-plain pid r t finite = (
    (
      t.is_pid,
      t.is_iid,
      InI64-ts_start r,
      generation-plain r.generation,
      (
        (refl, InI64-get r "collected"),
        ((refl, InI64-get r "candidates"), ((refl, finite), when_uncollectable-plain r)),
      ),
    ),
    ((t.is_pid, t.is_iid, InI64-ts_start r, refl, ((refl, InI64-get r "heap_size"), tt)), tt),
  )

  pause_events-plain :
      (pid : ℕ) (r : GcStat)
      → IsOfTrack pid r
      → f.is_finite (duration r) ≡ true
      → All (IsPlainEvent {F = F}) (pause_events pid r)
  unfolding pause_events collections collected uncollectable candidates heap_size ts_stop all_plain
  pause_events-plain pid r t finite =
      let name = of_gen-plain (codes "GC Pause ") r.generation refl in
      let cat = of_gen-plain (codes "gc.pause") r.generation refl in
      let counts : List (Arg F) =
        ("collections", int (collections r))
        ∷ ("heap_size", int (heap_size r))
        ∷ ("collected", int (collected r))
        ∷ ("uncollectable", int (uncollectable r))
        ∷ ("candidates", int (candidates r))
        ∷ [] in
      let plain : All (IsPlainArg {F = F}) counts = (
        (refl, InI64-get r "collections"),
        (
          (refl, InI64-get r "heap_size"),
          (
            (refl, InI64-get r "collected"),
            ((refl, InI64-get r "uncollectable"), ((refl, InI64-get r "candidates"), tt)),
          ),
        ),
      ) in
      let end =
        end_span pid r.interpreter_id (ts_stop r) (of_gen (codes "GC Pause ") r.generation)
          (of_gen (codes "gc.pause") r.generation) in
      (
        (
          t.is_pid,
          t.is_iid,
          InI64-ts_start r,
          name,
          cat,
          All-append (IsPlainArg {F = F}) (identity r) counts (identity-plain pid r t) plain,
        ),
        All-append IsPlainEvent (all_phase_events pid r phases) (end ∷ metric_events pid r)
            (all_phase_events-plain pid r phases t phases-IsPlainPhase)
            (
              (t.is_pid, t.is_iid, InI64-get r "ts_stop", name, cat),
              metric_events-plain pid r t finite,
            ),
      )

  counts_of-plain :
      (r : GcStat) (names : List String)
      → All (λ name. all_plain (codes name) ≡ true) names
      → All (IsPlainArg {F = F}) (counts_of r names)
  unfolding counts_of
  counts_of-plain r [] h = tt
  counts_of-plain r (name ∷ names) h = elim (Option-cases (get r name)) [
    | inl lacks ↦
        let is : counts_of {F = F} r names ≡ counts_of r (name ∷ names) = ground (arith, lacks) in
        subst (All (IsPlainArg {F = F})) is (counts_of-plain r names h.1)
    | inr (v, has) ↦
        let is : (name, int v) ∷ counts_of {F = F} r names ≡ counts_of r (name ∷ names) =
          ground (arith, has) in
        subst (All (IsPlainArg {F = F})) is
          ((h.0, get-InI64 r name v has), counts_of-plain r names h.1)
  ]

  sample-plain :
      (pid : ℕ) (r : GcStat) (at : ℤ) (args : List (Arg F))
      → IsOfTrack pid r
      → InI64 at
      → All IsPlainArg args
      → All IsPlainEvent (sample pid r at args)
  sample-plain pid r at [] t h k = tt
  sample-plain pid r at (a ∷ args) t h k =
      ((t.is_pid, t.is_iid, h, generation-plain r.generation, k), tt)

  count_events-plain :
      (pid : ℕ) (r : GcStat) (at : ℤ)
      → IsOfTrack pid r
      → InI64 at
      → All (IsPlainEvent {F = F}) (count_events pid r at)
  unfolding count_events all_plain
  count_events-plain pid r at t h =
      let names = "collections" ∷ "collected" ∷ [] in
      sample-plain pid r at (counts_of r names ++ when_uncollectable r) t h (
        All-append IsPlainArg (counts_of r names) (when_uncollectable r)
          (counts_of-plain r names (refl, (refl, tt))) (when_uncollectable-plain r))

  led-plain :
      (pid : ℕ) (r : GcStat) (es : List (TraceEvent F))
      → IsOfTrack pid r
      → All IsPlainEvent es
      → All IsPlainEvent (led pid r es)
  unfolding led all_plain
  led-plain pid r [] t h = tt
  led-plain pid r (e ∷ es) t h = (
    (t.is_pid, all_plain-append (codes "python ") (decimal pid) refl (decimal-plain pid)),
    (
      (
        t.is_pid,
        t.is_iid,
        all_plain-append (decimal pid) (b':' ∷ decimal_int r.interpreter_id) (decimal-plain pid)
            (ground (arith, decimal_int-plain r.interpreter_id)),
      ),
      h,
    ),
  )

  -- The events of a Record whose process, interpreter and duration can be spelled can be spelled.
  pub convert_record-plain :
      (pid : ℕ) (r : GcStat) (at : ℤ)
      → IsOfTrack pid r
      → InI64 at
      → f.is_finite (duration r) ≡ true
      → All (IsPlainEvent {F = F}) (convert_record pid r at)
  unfolding convert_record
  convert_record-plain pid r at t h finite = elim (Bool-cases (has_timing r)) [
    | inl timed ↦
        rw timed (led-plain pid r (pause_events pid r) t (pause_events-plain pid r t finite))
    | inr untimed ↦
        rw untimed (led-plain pid r (count_events pid r at) t (count_events-plain pid r at t h))
  ]
