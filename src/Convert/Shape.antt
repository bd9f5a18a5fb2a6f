-- ===== src/Convert/Shape.antt =====
-- Metadata leads the events of a Record, and all the rest is on the Record's track.
use gc_scope.Base.{
  ℕ, ◌≡◌, refl, sym, Bool, List, [], ◌∷◌, if◌then◌else◌, Bool-cases, inl, inr, All, All-append,
}
use mathlib.Core.Path.{subst}
use gc_scope.Base.Int.{ℤ}
use gc_scope.Base.Float.{Float64}
use gc_scope.GcStats.{GcStat, has_timing}
use gc_scope.Convert.{
  TraceEvent, process_meta, thread_meta, begin_span, end_span, instant, counter, Arg, Phase, phases,
  phase_pair, phase_events, all_phase_events, sample, count_events, led, metric_events,
  pause_events, convert_record,
}
use gc_scope.Convert.Nesting.{phase_events_cases}

module _ {F : Type 0} where
  -- A span's end or begin or a sample, of process `pid` and track `tid`.
  abbrev pub OnTrack : ℕ → ℤ → TraceEvent F → Type 0
  OnTrack pid tid (process_meta _ _) = ⊥
  OnTrack pid tid (thread_meta _ _ _) = ⊥
  OnTrack pid tid (begin_span p t _ _ _ _) = (p ≡ pid) × (t ≡ tid)
  OnTrack pid tid (end_span p t _ _ _) = (p ≡ pid) × (t ≡ tid)
  OnTrack pid tid (instant _ _ _) = ⊥
  OnTrack pid tid (counter p t _ _ _) = (p ≡ pid) × (t ≡ tid)

  -- No events, or the names of the process and of the track and then events of that track.
  abbrev pub Led : ℕ → ℤ → List (TraceEvent F) → Type 0
  Led pid tid [] = Unit
  Led pid tid (process_meta p _ ∷ thread_meta q t _ ∷ e ∷ es) =
      (p ≡ pid) × (q ≡ pid) × (t ≡ tid) × OnTrack pid tid e × All (OnTrack pid tid) es
  Led pid tid (_ ∷ _) = ⊥

  sample-OnTrack :
      (pid : ℕ) (r : GcStat) (at : ℤ) (args : List (Arg F))
      → All (OnTrack pid r.interpreter_id) (sample pid r at args)
  sample-OnTrack pid r at [] = tt
  sample-OnTrack pid r at (a ∷ args) = ((refl, refl), tt)

  led-Led :
      (pid : ℕ) (r : GcStat) (es : List (TraceEvent F))
      → All (OnTrack pid r.interpreter_id) es
      → Led pid r.interpreter_id (led pid r es)
  unfolding led
  led-Led pid r [] h = tt
  led-Led pid r (e ∷ es) h = (refl, refl, refl, h.0, h.1)

module _ (F : Type 0) where
  phase_events-OnTrack :
      (pid : ℕ) (r : GcStat) (p : Phase)
      → All (OnTrack pid r.interpreter_id) (phase_events {F = F} pid r p)
  unfolding phase_pair
  phase_events-OnTrack pid r p = elim (phase_events_cases pid r p) [
    | inl nothing ↦ subst (All (OnTrack pid r.interpreter_id)) (sym nothing) tt
    | inr (start, stop, _, _, _, pair) ↦
        subst (All (OnTrack pid r.interpreter_id)) (sym pair) ((refl, refl), ((refl, refl), tt))
  ]

  all_phase_events-OnTrack :
      (pid : ℕ) (r : GcStat) (ps : List Phase)
      → All (OnTrack pid r.interpreter_id) (all_phase_events {F = F} pid r ps)
  unfolding all_phase_events
  all_phase_events-OnTrack pid r [] = tt
  all_phase_events-OnTrack pid r (p ∷ ps) =
      All-append (OnTrack pid r.interpreter_id) (phase_events pid r p) (all_phase_events pid r ps)
        (phase_events-OnTrack pid r p) (all_phase_events-OnTrack pid r ps)

module _ (F : Type 0) ⦃f : Float64 F⦄ where
  pause_events-OnTrack :
      (pid : ℕ) (r : GcStat) → All (OnTrack pid r.interpreter_id) (pause_events {F = F} pid r)
  unfolding pause_events metric_events
  pause_events-OnTrack pid r = (
    (refl, refl),
    All-append (OnTrack pid r.interpreter_id) (all_phase_events pid r phases) _
        (all_phase_events-OnTrack F pid r phases)
        ((refl, refl), ((refl, refl), ((refl, refl), tt))),
  )

  -- A Record converts to nothing, or to the name of its process, the name of its interpreter's
  -- track, and at least one event after these; none of the events after these is metadata, and all
  -- are of that process and track.
  pub convert_record-Led :
      (pid : ℕ) (r : GcStat) (observed_at_ns : ℤ)
      → Led pid r.interpreter_id (convert_record {F = F} pid r observed_at_ns)
  unfolding convert_record count_events
  convert_record-Led pid r at =
      let body : Bool → List (TraceEvent F) =
        λ b. if b then pause_events pid r else count_events pid r at in
      let track : List (TraceEvent F) → Type 0 = All (OnTrack pid r.interpreter_id) in
      led-Led pid r (body (has_timing r)) (elim (Bool-cases (has_timing r)) [
        | inl timed ↦ subst (λ b. track (body b)) (sym timed) (pause_events-OnTrack pid r)
        | inr untimed ↦ subst (λ b. track (body b)) (sym untimed) (sample-OnTrack pid r at _)
      ])
