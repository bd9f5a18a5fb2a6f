-- ===== src/Cursor/History.antt =====
-- The life of a cursor: the polls and deaths of processes that `MonitorContext` puts through it,
-- in any order, and what holds of every cursor that they lead to.
use gc_scope.Base.{ℕ, List}
use gc_scope.Base.Float.{Float64}
use gc_scope.GcStats.{GcStat}
use gc_scope.Cursor.Invariant.{IsWellFormed}
use gc_scope.Cursor.Admission.{admit-IsWellFormed, new-IsWellFormed}
use gc_scope.Cursor.Forget.{forget-IsWellFormed}
use gc_scope.Cursor.Defs.{Cursor, new, admit, forget}

module _ {F : Type 0} ⦃f : Float64 F⦄ where
  -- One call of a method that changes the cursor.
  pub data Step (c : Cursor F) : Cursor F → Type 0 where
    polled : (p : ℕ) (records : List GcStat) → Step c (admit p records c).0
    died : (p : ℕ) → Step c (forget p c)

  -- The cursors that calls lead to from a new one.
  pub data Reached : Cursor F → Type 0 where
    begun : Reached new
    went : {c c' : Cursor F} → Reached c → Step c c' → Reached c'

  Step-IsWellFormed : {c c' : Cursor F} → Step c c' → IsWellFormed c → IsWellFormed c'
  Step-IsWellFormed {c} (polled p records) w = admit-IsWellFormed p records c w
  Step-IsWellFormed {c} (died p) w = forget-IsWellFormed p c w

  -- Every cursor that polls and deaths lead to from a new one, in any order and with any Records,
  -- is well formed: each accumulator, retired ones included, has a Record, its counters are
  -- positive and span at least the Records read, accumulators and certainty bounds belong to
  -- retained interpreters, certainty bounds are positive, and no process has more than
  -- `max_retained_interpreters` of them.
  pub Reached-IsWellFormed : {c : Cursor F} → Reached c → IsWellFormed c
  Reached-IsWellFormed begun = new-IsWellFormed
  Reached-IsWellFormed (went h s) = Step-IsWellFormed s (Reached-IsWellFormed h)
