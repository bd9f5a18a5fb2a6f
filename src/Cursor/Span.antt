-- ===== src/Cursor/Span.antt =====
-- What every accumulator satisfies: its counters bound its Records, so no count of it overflows.
use gc_scope.Base.{false, ◌+◌, ◌≤◌, ◌≡◌, true, arith}
use gc_scope.Base.Int.{pos, pos_part, neg_part, InI64, ◌≤ℤ◌, ◌<ℤ◌}
use gc_scope.Base.Float.{Float64}
use gc_scope.GcStats.{GcStat, collections}
use gc_scope.GcStats.Bounds.{InI64-collections}
use gc_scope.Cursor.Ring.{RingObservation, is_empty, fold}

-- The Records read are at most the Collections that the counter spans.
pub record IsSpan {F : Type 0} (o : RingObservation F) : Type 0 where
  pub read : 1 ≤ o.sampled
  pub opens : pos 1 ≤ℤ o.first.collections
  pub counted :
      o.sampled + pos_part o.first.collections + neg_part o.last.collections
      ≤ pos_part o.last.collections + neg_part o.first.collections + 1
  pub first_in : InI64 o.first.collections
  pub last_in : InI64 o.last.collections

module _ {F : Type 0} ⦃f : Float64 F⦄ where
  module _ (o : RingObservation F) (r : GcStat) (counted : pos 1 ≤ℤ collections r) where
    -- The first Record of a ring opens a span of one.
    pub fold_open : is_empty o ≡ true → IsSpan (fold o r)
    unfolding fold
    fold_open h = ground (arith, InI64-collections r)

    -- A later one whose counter is past the cursor extends the span.
    pub fold_extend : IsSpan o → o.last.collections <ℤ collections r → IsSpan (fold o r)
    unfolding fold
    fold_extend s past = ground (arith, InI64-collections r)

-- A span is of a ring that was read.
pub span_nonempty : {F : Type 0} (o : RingObservation F) → IsSpan o → is_empty o ≡ false
unfolding is_empty
span_nonempty o s = ground (arith, s.read)
