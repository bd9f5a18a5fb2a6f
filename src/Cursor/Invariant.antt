-- ===== src/Cursor/Invariant.antt =====
-- The invariant of the cursor: every accumulator is a span, every map is bounded by the set of
-- retained interpreters, and that set by its maximum.
use gc_scope.Base.{
  All, ℕ, ◌≤◌, ◌≡◌, Bool, true, false, not, ◌&&◌, ◌||◌, some, arith, ◌==◌, if◌then◌else◌, is_some,
  length, Bool-cases, ==_iff, inl, inr,
}
use gc_scope.Base.Int.{ℤ, pos, eqb_ℤ, ◌≤ℤ◌}
use gc_scope.Base.Eq.{nat_eq, int_eq, pair_eq}
use gc_scope.Base.Map.{
  lookup, insert, remove, lookup-insert, lookup-remove, lookup-retain_keys, lookup-All,
  retain_keys-All,
}
use gc_scope.Cursor.Ring.{RingKey, RingObservation, key_eq}
use gc_scope.Cursor.Span.{IsSpan}
use gc_scope.Cursor.Kept.{kept_of-see, swapped, length-swapped, lookup-swapped}
use gc_scope.Cursor.Defs.{
  Cursor, kept_of, see, max_retained_interpreters, make_room, drop_interpreter,
}

-- Whether the cursor keeps interpreter `i` of process `p`.
abbrev pub is_kept : {F : Type 0} → Cursor F → ℕ → ℤ → Bool
is_kept c p i = is_some (lookup i (kept_of c p))

pub record IsWellFormed {F : Type 0} (c : Cursor F) : Type 0 where
  -- Each ring's counters bound the Records read of it.
  pub live_spans : All (λ (e : RingKey × RingObservation F). IsSpan e.1) c.rings
  -- So do the counters of the rings of processes that are gone.
  pub retired_spans : All (λ (e : RingKey × ℕ × RingObservation F). IsSpan e.2) c.retired
  -- Only retained interpreters have accumulators and certainty bounds.
  pub ring_kept :
      (key : RingKey) (o : RingObservation F)
      → lookup key c.rings ≡ some o
      → is_kept c key.pid key.interpreter ≡ true
  pub certainty_kept :
      (p : ℕ) (i b : ℤ) → lookup (p, i) c.last_certainty ≡ some b → is_kept c p i ≡ true
  -- A bound is the moment of some evidence, which is positive.
  pub certainty_pos : (p : ℕ) (i b : ℤ) → lookup (p, i) c.last_certainty ≡ some b → pos 1 ≤ℤ b
  -- At most `max_retained_interpreters` of a process are kept.
  pub bounded : (p : ℕ) → length (kept_of c p) ≤ max_retained_interpreters

-- An accumulator that the cursor finds is a span.
pub spans_of :
    {F : Type 0} {c : Cursor F}
    → IsWellFormed c
    → (key : RingKey) (o : RingObservation F) → lookup key c.rings ≡ some o
    → IsSpan o
spans_of {F} {c} w key o =
    lookup-All (λ (e : RingKey × RingObservation F). IsSpan e.1) key o c.rings w.live_spans

module _ {F : Type 0} (p : ℕ) (old : ℤ) (key : RingKey) (c : Cursor F) (o : RingObservation F) where
  -- An accumulator that `drop_interpreter` leaves was there before, and is of another interpreter.
  rings_kept_lem :
      lookup key (drop_interpreter p old c).rings ≡ some o → lookup key c.rings ≡ some o
  unfolding drop_interpreter
  rings_kept_lem e = ground (
    arith,
    lookup-retain_keys (λ (k : RingKey). not (k.pid == p) || not (eqb_ℤ k.interpreter old)) key
        c.rings,
  )

  rings_dropped_lem :
      lookup key (drop_interpreter p old c).rings ≡ some o
      → (p == key.pid && eqb_ℤ old key.interpreter) ≡ false
  unfolding drop_interpreter
  rings_dropped_lem e = ground (
    arith,
    lookup-retain_keys (λ (k : RingKey). not (k.pid == p) || not (eqb_ℤ k.interpreter old)) key
        c.rings,
  )

module _ {F : Type 0} where
  -- Seeing an interpreter keeps every other one, within the bound on the set that it goes to.
  pub see-IsWellFormed :
      (p : ℕ) (i : ℤ) (c : Cursor F)
      → IsWellFormed c
      → length (insert i c.polls (kept_of c p)) ≤ max_retained_interpreters
      → IsWellFormed (see p i (kept_of c p) c)
  see-IsWellFormed p i c w fits = record {
    live_spans = w.live_spans;
    retired_spans = w.retired_spans;
    ring_kept = λ key o e.
        rw (kept_of-see p i (kept_of c p) c key.pid)
          (kept key.pid key.interpreter (w.ring_kept key o e));
    certainty_kept =
        λ q j b e. rw (kept_of-see p i (kept_of c p) c q) (kept q j (w.certainty_kept q j b e));
    certainty_pos = w.certainty_pos;
    bounded = λ q. rw (kept_of-see p i (kept_of c p) c q) (ground (arith, w.bounded q));
  }
    where
      kept :
          (q : ℕ) (j : ℤ)
          → is_kept c q j ≡ true
          → is_some (lookup j (if p == q then insert i c.polls (kept_of c p) else kept_of c q))
            ≡ true
      kept q j h = elim (Bool-cases (p == q)) [
        | inl e ↦ rw (e, lookup-insert) (ground (arith, ==_iff p q))
        | inr e ↦ rw e h
      ]

  pub make_room-IsWellFormed :
      (p : ℕ) (i old : ℤ) (c : Cursor F)
      → IsWellFormed c
      → is_kept c p old ≡ true
      → IsWellFormed (make_room p i old c)
  unfolding make_room
  make_room-IsWellFormed p i old c w present = record {
    live_spans =
        retain_keys-All (λ (e : RingKey × RingObservation F). IsSpan e.1)
          (λ (k : RingKey). not (k.pid == p) || not (eqb_ℤ k.interpreter old)) c.rings w.live_spans;
    retired_spans = w.retired_spans;
    ring_kept = λ key o e. rw (kept_of-see p i (remove old (kept_of c p)) c key.pid) (
        kept key.pid key.interpreter (w.ring_kept key o (rings_before key o e)) (survives key o e));
    certainty_kept = λ q j b e.
        rw (kept_of-see p i (remove old (kept_of c p)) c q)
          (kept q j (w.certainty_kept q j b (bound_before q j b e)) (bound_survives q j b e));
    certainty_pos = λ q j b e. w.certainty_pos q j b (bound_before q j b e);
    bounded = λ q. rw (kept_of-see p i (remove old (kept_of c p)) c q) (
        ground (
          arith,
          w.bounded q,
          w.bounded p,
          length-swapped old i c.polls (kept_of c p) present,
          ==_iff p q,
        ));
  }
    where
      c' : Cursor F
      c' = make_room p i old c

      rings_before :
          (key : RingKey) (o : RingObservation F)
          → lookup key c'.rings ≡ some o
          → lookup key c.rings ≡ some o
      rings_before key o e = rings_kept_lem p old key (see p i (remove old (kept_of c p)) c) o e

      survives :
          (key : RingKey) (o : RingObservation F)
          → lookup key c'.rings ≡ some o
          → (p == key.pid && eqb_ℤ old key.interpreter) ≡ false
      survives key o e = rings_dropped_lem p old key (see p i (remove old (kept_of c p)) c) o e

      bound_before :
          (q : ℕ) (j b : ℤ)
          → lookup (q, j) c'.last_certainty ≡ some b
          → lookup (q, j) c.last_certainty ≡ some b
      bound_before q j b e = ground (arith, lookup-remove (p, old) (q, j) c.last_certainty)

      bound_survives :
          (q : ℕ) (j b : ℤ)
          → lookup (q, j) c'.last_certainty ≡ some b
          → (p == q && eqb_ℤ old j) ≡ false
      bound_survives q j b e = ground (arith, lookup-remove (p, old) (q, j) c.last_certainty)

      kept :
          (q : ℕ) (j : ℤ)
          → is_kept c q j ≡ true
          → (p == q && eqb_ℤ old j) ≡ false
          → is_some (lookup j (if p == q then swapped old i c.polls (kept_of c p) else kept_of c q))
            ≡ true
      kept q j h s = elim (Bool-cases (p == q)) [
        | inl e ↦ rw (e, lookup-swapped) (ground (arith, ==_iff p q))
        | inr e ↦ rw e h
      ]
