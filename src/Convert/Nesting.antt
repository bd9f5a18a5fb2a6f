-- ===== src/Convert/Nesting.antt =====
-- Spans nest: every end closes the innermost span that is open on its track.
use gc_scope.Base.{
  ℕ, ◌≡◌, refl, sym, ◌⊎◌, Bool, false, some, List, [], ◌∷◌, ◌++◌, if◌then◌else◌, arith, Bool-cases,
  Option-cases, inl, inr,
}
use mathlib.Core.Path.{subst}
use mathlib.Core.List.{append_assoc}
use gc_scope.Base.Int.{ℤ, leb_ℤ}
use gc_scope.Base.Float.{Float64}
use gc_scope.GcStats.{GcStat, get, has_timing}
use gc_scope.Convert.{
  TraceEvent, process_meta, thread_meta, begin_span, end_span, instant, counter, Arg, Phase, phases,
  phase_start, phase_pair, phase_events, all_phase_events, sample, count_events, led, metric_events,
  pause_events, convert_record,
}

-- What an end repeats of the begin that it closes: process, track, name and category.
abbrev pub Span : Type 0
Span = ℕ × ℤ × List ℕ × List ℕ

module _ {F : Type 0} where
  -- The events close the open spans, innermost first, and every span that they open themselves.
  abbrev pub Closes : List Span → List (TraceEvent F) → Type 0
  Closes [] [] = Unit
  Closes (s ∷ spans) [] = ⊥
  Closes spans (process_meta _ _ ∷ es) = Closes spans es
  Closes spans (thread_meta _ _ _ ∷ es) = Closes spans es
  Closes spans (begin_span pid tid _ name cat _ ∷ es) = Closes ((pid, tid, name, cat) ∷ spans) es
  Closes [] (end_span _ _ _ _ _ ∷ es) = ⊥
  Closes (s ∷ spans) (end_span pid tid _ name cat ∷ es) =
      (s ≡ (pid, tid, name, cat)) × Closes spans es
  Closes spans (instant _ _ _ ∷ es) = Closes spans es
  Closes spans (counter _ _ _ _ _ ∷ es) = Closes spans es

  -- A phase has no events, or the pair of a span that is wider than a point.
  pub phase_events_cases :
      (pid : ℕ) (r : GcStat) (p : Phase)
      → (phase_events {F = F} pid r p ≡ [])
        ⊎ ((start : ℤ) × (stop : ℤ) × (phase_start r p.start ≡ some start)
            × (get r p.stop ≡ some stop)
            × (leb_ℤ stop start ≡ false)
            × (phase_events {F = F} pid r p ≡ phase_pair pid r p start stop))
  unfolding phase_events
  phase_events_cases pid r p = elim (Option-cases (get r p.stop)) [
    | inl lacks ↦ inl (ground (arith, lacks))
    | inr (stop, has_stop) ↦ elim (Option-cases (phase_start r p.start)) [
      | inl lacks ↦ inl (ground (arith, has_stop, lacks))
      | inr (start, has_start) ↦ elim (Bool-cases (leb_ℤ stop start)) [
        | inl point ↦ inl (ground (arith, has_stop, has_start, point))
        | inr wide ↦
            inr (start, stop, has_start, has_stop, wide, ground (arith, has_stop, has_start, wide))
      ]
    ]
  ]

  phase_events-Closes :
      (pid : ℕ) (r : GcStat) (p : Phase) (spans : List Span) (es : List (TraceEvent F))
      → Closes spans es
      → Closes spans (phase_events pid r p ++ es)
  unfolding phase_pair
  phase_events-Closes pid r p spans es h = elim (phase_events_cases pid r p) [
    | inl nothing ↦ subst (λ body. Closes spans (body ++ es)) (sym nothing) h
    | inr (start, stop, _, _, _, pair) ↦
        subst (λ body. Closes spans (body ++ es)) (sym pair) (refl, h)
  ]

  all_phase_events-Closes :
      (pid : ℕ) (r : GcStat) (ps : List Phase) (spans : List Span) (es : List (TraceEvent F))
      → Closes spans es
      → Closes spans (all_phase_events pid r ps ++ es)
  unfolding all_phase_events
  all_phase_events-Closes pid r [] spans es h = h
  all_phase_events-Closes pid r (p ∷ ps) spans es h =
      let rest = all_phase_events-Closes pid r ps spans es h in
      let first = phase_events-Closes pid r p spans (all_phase_events pid r ps ++ es) rest in
      subst (Closes spans)
        (sym (append_assoc (phase_events pid r p) (all_phase_events pid r ps) es)) first

  sample-Closes :
      (pid : ℕ) (r : GcStat) (at : ℤ) (args : List (Arg F)) → Closes [] (sample pid r at args)
  sample-Closes pid r at [] = tt
  sample-Closes pid r at (a ∷ args) = tt

  led-Closes :
      (pid : ℕ) (r : GcStat) (es : List (TraceEvent F)) → Closes [] es → Closes [] (led pid r es)
  unfolding led
  led-Closes pid r [] h = h
  led-Closes pid r (e ∷ es) h = h

module _ (F : Type 0) ⦃f : Float64 F⦄ where
  pause_events-Closes : (pid : ℕ) (r : GcStat) → Closes [] (pause_events {F = F} pid r)
  unfolding pause_events metric_events
  pause_events-Closes pid r = all_phase_events-Closes pid r phases _ _ (refl, tt)

  -- The spans of a Record nest: read in order, each end closes the span that was opened last of
  -- those still open, with its process, track, name and category, and no span is left open.
  pub convert_record-Closes :
      (pid : ℕ) (r : GcStat) (observed_at_ns : ℤ)
      → Closes [] (convert_record {F = F} pid r observed_at_ns)
  unfolding convert_record count_events
  convert_record-Closes pid r at =
      let body : Bool → List (TraceEvent F) =
        λ b. if b then pause_events pid r else count_events pid r at in
      led-Closes pid r (body (has_timing r)) (elim (Bool-cases (has_timing r)) [
        | inl timed ↦ subst (λ b. Closes [] (body b)) (sym timed) (pause_events-Closes pid r)
        | inr untimed ↦ subst (λ b. Closes [] (body b)) (sym untimed) (sample-Closes pid r at _)
      ])
