-- ===== src/Convert.antt =====
-- src/monitor/convert.rs and src/monitor/trace_event.rs: the trace events of one Record.
pub mod Nesting
pub mod Shape
mod Tests
use gc_scope.Base.{
  ℕ, Bool, true, false, not, Option, none, some, List, [], ◌∷◌, ◌++◌, map, if◌then◌else◌, unwrap_or,
  String,
}
use gc_scope.Base.Int.{ℤ, pos, leb_ℤ, ltb_ℤ}
use gc_scope.Base.Text.{codes, decimal, decimal_int}
use gc_scope.Base.Float.{Float64}
use gc_scope.GcStats.{
  GcStat, get, has_timing, ts_start, ts_stop, collections, collected, uncollectable, candidates,
  heap_size, duration,
}

pub data ArgValue (F : Type 0) : Type 0 where
  int : ℤ → ArgValue F
  float : F → ArgValue F

abbrev pub Arg : Type 0 → Type 0
Arg F = String × ArgValue F

pub data TraceEvent (F : Type 0) : Type 0 where
  process_meta : (pid : ℕ) (name : List ℕ) → TraceEvent F
  thread_meta : (pid : ℕ) (tid : ℤ) (name : List ℕ) → TraceEvent F
  begin_span : (pid : ℕ) (tid ts_ns : ℤ) (name cat : List ℕ) (args : List (Arg F)) → TraceEvent F
  end_span : (pid : ℕ) (tid ts_ns : ℤ) (name cat : List ℕ) → TraceEvent F
  instant : (pid : ℕ) (ts_ns : ℤ) (name : List ℕ) → TraceEvent F
  counter : (pid : ℕ) (tid ts_ns : ℤ) (name : List ℕ) (args : List (Arg F)) → TraceEvent F

-- `Start`.
pub data PhaseStart : Type 0 where
  explicit : String → PhaseStart
  chained : List String → PhaseStart

pub record Phase : Type 0 where
  pub label : String
  pub cat : String
  pub start : PhaseStart
  pub stop : String
  pub args : List (String × String)

-- `PHASES`.
abbrev pub phases : List Phase
phases =
    record {
      label = "Mark Alive";
      cat = "gc.mark.alive";
      start = explicit "ts_mark_alive_start";
      stop = "ts_mark_alive_stop";
      args = ("alive_size", "alive_size") ∷ [];
    }
    ∷ record {
      label = "Fill increment";
      cat = "gc.increment";
      start = explicit "ts_fill_increment_start";
      stop = "ts_fill_increment_stop";
      args = ("increment_size", "increment_size") ∷ [];
    }
    ∷ record {
      label = "Deduce Unreachable";
      cat = "gc.deduce";
      start = explicit "ts_deduce_unreachable_start";
      stop = "ts_deduce_unreachable_stop";
      args = ("candidates", "candidates") ∷ [];
    }
    ∷ record {
      label = "Handle Weakrefs Callbacks";
      cat = "gc.weakrefs";
      start = explicit "ts_handle_weakref_callbacks_start";
      stop = "ts_handle_weakref_callbacks_stop";
      args = [];
    }
    ∷ record {
      label = "Finalize Garbage";
      cat = "gc.finalize";
      start = chained ("ts_handle_weakref_callbacks_stop" ∷ "ts_deduce_unreachable_stop" ∷ []);
      stop = "ts_finalize_garbage_stop";
      args = ("finalized_garbage_count", "finalized_garbage_count") ∷ [];
    }
    ∷ record {
      label = "Handle Resurrected";
      cat = "gc.resurrect";
      start = chained ("ts_finalize_garbage_stop" ∷ []);
      stop = "ts_handle_resurrected_stop";
      args = [];
    }
    ∷ record {
      label = "Clear Weakrefs";
      cat = "gc.clear_weakrefs";
      start = chained ("ts_handle_resurrected_stop" ∷ []);
      stop = "ts_clear_weakrefs_stop";
      args = ("clear_weakrefs_count", "clear_weakrefs_count") ∷ [];
    }
    ∷ record {
      label = "Delete Garbage";
      cat = "gc.delete";
      start = explicit "ts_delete_garbage_start";
      stop = "ts_delete_garbage_stop";
      args = ("deleted_garbage_count", "deleted_garbage_count") ∷ [];
    }
    ∷ []

-- `find_map(|c| record.get(c))`.
unfoldable pub first_field : GcStat → List String → Option ℤ
first_field r [] = none
first_field r (name ∷ names) =
    let rest = first_field r names in elim (get r name) [ some v ↦ some v | none ↦ rest ]

-- Where a phase starts, or `none` where the build lacks the field.
unfoldable pub phase_start : GcStat → PhaseStart → Option ℤ
unfolding first_field
phase_start r (explicit field) = get r field
phase_start r (chained fields) = some (unwrap_or (first_field r fields) (ts_start r))

-- ` (gen=N)` and `(gen=N)` behind a label.
abbrev pub of_gen : List ℕ → ℕ → List ℕ
of_gen label generation = label ++ (codes "(gen=" ++ (decimal generation ++ codes ")"))

module _ {F : Type 0} where
  abbrev pub identity : GcStat → List (Arg F)
  identity r = ("generation", int (pos r.generation)) ∷ ("iid", int r.interpreter_id) ∷ []

  -- The argument `uncollectable`, where it is positive.
  unfoldable pub when_uncollectable : GcStat → List (Arg F)
  when_uncollectable r =
      if ltb_ℤ (pos 0) (uncollectable r) then ("uncollectable", int (uncollectable r)) ∷ [] else []

  -- The pair of events of a phase that runs from `start` to `stop`.
  unfoldable pub phase_pair : ℕ → GcStat → Phase → ℤ → ℤ → List (TraceEvent F)
  phase_pair pid r p start stop =
      let tid = r.interpreter_id in
      let name = of_gen (codes p.label ++ codes " ") r.generation in
      let cat = of_gen (codes p.cat) r.generation in
      let args : List (Arg F) =
        map (λ (a : String × String). (a.0, int (unwrap_or (get r a.1) (pos 0)))) p.args in
      begin_span pid tid start name cat (identity r ++ args) ∷ end_span pid tid stop name cat ∷ []

  -- One turn of the loop over the phases.
  unfoldable pub phase_events : ℕ → GcStat → Phase → List (TraceEvent F)
  unfolding phase_start phase_pair
  phase_events pid r p = elim (get r p.stop) [
    | none ↦ []
    | some stop ↦ elim (phase_start r p.start) [
      | none ↦ []
      | some start ↦ if leb_ℤ stop start then [] else phase_pair pid r p start stop
    ]
  ]

  unfoldable pub all_phase_events : ℕ → GcStat → List Phase → List (TraceEvent F)
  unfolding phase_events
  all_phase_events pid r [] = []
  all_phase_events pid r (p ∷ ps) = phase_events pid r p ++ all_phase_events pid r ps

  -- `for name in ["collections", "collected"]`.
  unfoldable pub counts_of : GcStat → List String → List (Arg F)
  counts_of r [] = []
  counts_of r (name ∷ names) =
      let rest = counts_of r names in
      elim (get r name) [ none ↦ rest | some v ↦ (name, int v) ∷ rest ]

  -- One counter sample, where there is a count.
  abbrev pub sample : ℕ → GcStat → ℤ → List (Arg F) → List (TraceEvent F)
  sample pid r at [] = []
  sample pid r at (c ∷ cs) =
      counter pid r.interpreter_id at (codes "G" ++ decimal r.generation) (c ∷ cs) ∷ []

  unfoldable pub count_events : ℕ → GcStat → ℤ → List (TraceEvent F)
  unfolding counts_of when_uncollectable
  count_events pid r observed_at_ns =
      sample pid r observed_at_ns
        (counts_of r ("collections" ∷ "collected" ∷ []) ++ when_uncollectable r)

  -- The metadata that leads a body of events.
  unfoldable pub led : ℕ → GcStat → List (TraceEvent F) → List (TraceEvent F)
  unfolding decimal_int
  led pid r [] = []
  led pid r (e ∷ es) =
      process_meta pid (codes "python " ++ decimal pid)
      ∷ thread_meta pid r.interpreter_id (decimal pid ++ (b':' ∷ decimal_int r.interpreter_id))
      ∷ e
      ∷ es

module _ {F : Type 0} ⦃f : Float64 F⦄ where
  -- The two counter samples behind a pause.
  unfoldable pub metric_events : ℕ → GcStat → List (TraceEvent F)
  unfolding when_uncollectable
  metric_events pid r =
      let metrics : List (Arg F) =
        ("collected", int (collected r))
        ∷ ("candidates", int (candidates r))
        ∷ ("duration", float (duration r))
        ∷ when_uncollectable r in
      counter pid r.interpreter_id (ts_start r) (codes "G" ++ decimal r.generation) metrics
      ∷ counter pid r.interpreter_id (ts_start r) [] (("heap_size", int (heap_size r)) ∷ [])
      ∷ []

  unfoldable pub pause_events : ℕ → GcStat → List (TraceEvent F)
  unfolding all_phase_events metric_events
  pause_events pid r =
      let tid = r.interpreter_id in
      let name = of_gen (codes "GC Pause ") r.generation in
      let cat = of_gen (codes "gc.pause") r.generation in
      let args : List (Arg F) =
        ("collections", int (collections r))
        ∷ ("heap_size", int (heap_size r))
        ∷ ("collected", int (collected r))
        ∷ ("uncollectable", int (uncollectable r))
        ∷ ("candidates", int (candidates r))
        ∷ [] in
      begin_span pid tid (ts_start r) name cat (identity r ++ args)
      ∷ (all_phase_events pid r phases
          ++ (end_span pid tid (ts_stop r) name cat ∷ metric_events pid r))

  unfoldable pub convert_record : ℕ → GcStat → ℤ → List (TraceEvent F)
  unfolding led pause_events count_events
  convert_record pid r observed_at_ns =
      led pid r (if has_timing r then pause_events pid r else count_events pid r observed_at_ns)
