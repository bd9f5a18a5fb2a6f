-- ===== src/Statistics/Rows.antt =====
-- Every row of the summary of a run adds up.
use gc_scope.Base.{ℕ, ◌≤◌, All-map, All-imp, sym, ◌≡◌, All, All-append, ◌-◌}
use gc_scope.Base.Int.{pos, ◌+ℤ◌, ◌≤ℤ◌}
use mathlib.Core.Path.{subst}
use gc_scope.Base.Word.{u64_mod}
use gc_scope.Base.Sort.{sort_by-All}
use gc_scope.Base.Float.{Float64}
use gc_scope.Cursor.Ring.{RingKey, RingObservation, key_eq}
use gc_scope.Cursor.Span.{IsSpan}
use gc_scope.Cursor.{Cursor, observations, span_le}
use gc_scope.Cursor.History.{Reached, Reached-IsWellFormed}
use gc_scope.Cursor.Invariant.{IsWellFormed}
use gc_scope.Loss.Account.{account_counts}
use gc_scope.Statistics.{row_of, summarize}
use gc_scope.Statistics.Blocks.{row, Row, rows, summarize-rows}

module _ {F : Type 0} ⦃f : Float64 F⦄ where
  -- Every accumulator that the summary reads is a span.
  pub observations-IsSpan :
      (c : Cursor F)
      → IsWellFormed c
      → All (λ (e : RingKey × RingObservation F). IsSpan e.1) (observations c)
  unfolding observations
  observations-IsSpan c w =
      All-map (λ (e : RingKey × RingObservation F). IsSpan e.1)
        (λ (e : RingKey × ℕ × RingObservation F). (e.0, e.2)) _
        (sort_by-All span_le (λ (e : RingKey × ℕ × RingObservation F). IsSpan e.2) _
          (All-append (λ (e : RingKey × ℕ × RingObservation F). IsSpan e.2) c.retired _
            w.retired_spans
            (All-map (λ (e : RingKey × ℕ × RingObservation F). IsSpan e.2)
              (λ (e : RingKey × RingObservation F). (e.0, u64_mod - 1, e.1)) c.rings w.live_spans)))

  -- A row that adds up, with at least one Record behind it.
  abbrev pub AddsUp : Row F → Type 0
  AddsUp r =
      (r.2.collections ≡ r.2.observed +ℤ r.2.lost)
      × (pos 0 ≤ℤ r.2.observed)
      × (pos 0 ≤ℤ r.2.lost)
      × (1 ≤ r.2.records)

  row-AddsUp : (e : RingKey × RingObservation F) → IsSpan e.1 → AddsUp (row e)
  unfolding row_of
  row-AddsUp e s =
      let (_, _, sum, observed, lost) = account_counts e.1 s in (sum, observed, lost, s.read)

  -- In the summary of any run, whatever its polls read and whichever processes died, each row's
  -- collections are those observed and those lost, neither of the two is negative, and the row has
  -- at least one Record behind it.
  pub summary-AddsUp : {c : Cursor F} → Reached c → All AddsUp (rows (summarize c))
  summary-AddsUp {c} h = subst (All AddsUp) (sym (summarize-rows c).0) (
      All-map AddsUp row (observations c) (
        All-imp (λ (e : RingKey × RingObservation F). IsSpan e.1) (λ e. AddsUp (row e))
          (observations c) row-AddsUp (observations-IsSpan c (Reached-IsWellFormed h))))
