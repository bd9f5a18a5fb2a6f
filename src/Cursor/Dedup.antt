-- ===== src/Cursor/Dedup.antt =====
-- What a poll reports: exactly the finished Records past their ring's cursor, each of them once.
use gc_scope.Base.{
  Option, none, some, ℕ, ◌≡◌, refl, ◌↔◌, Bool, true, false, not, ◌&&◌, none, some, List, arith,
  if◌then◌else◌, Bool-cases, Option-cases, inl, inr,
}
use gc_scope.Base.Int.{ℤ, pos, ◌≤ℤ◌, ◌<ℤ◌, leb_ℤ, ltb_ℤ}
use gc_scope.Base.Eq.{nat_eq, int_eq, pair_eq}
use gc_scope.Base.Map.{lookup, insert_sorted, lookup-insert_sorted}
use gc_scope.Base.Float.{Float64}
use gc_scope.GcStats.{GcStat, collections, is_complete}
use gc_scope.Cursor.Ring.{
  RingKey, RingObservation, key_eq, key_lt, key_beq, key_beq_iff, admits, fold,
}
use gc_scope.Cursor.Span.{IsSpan}
use gc_scope.Cursor.Invariant.{spans_of, IsWellFormed}
use gc_scope.Cursor.Defs.{Cursor, raise_certainty, classify, ring_of, ring_key, observation}

-- A counter past what a ring's accumulator last read, if the ring has one.
abbrev pub PastLast : {F : Type 0} → Option (RingObservation F) → ℤ → Type 0
PastLast none counter = Unit
PastLast (some o) counter = o.last.collections <ℤ counter

module _ {F : Type 0} where
  -- Every ring's cursor stands where it stood, or later.
  abbrev pub Advances : Cursor F → Cursor F → Type 0
  Advances c c' =
      (key : RingKey) (o : RingObservation F)
      → lookup key c.rings ≡ some o
      → (o' : RingObservation F) × (lookup key c'.rings ≡ some o')
        × (o.last.collections ≤ℤ o'.last.collections)

  -- `r` is no news: it is unfinished or unused, or its ring's cursor has reached it.
  abbrev pub IsSettled : ℕ → Cursor F → GcStat → Type 0
  IsSettled p c r =
      is_complete r ≡ true
      → pos 1 ≤ℤ collections r
      → (o : RingObservation F) × (lookup (ring_key p r) c.rings ≡ some o)
        × (collections r ≤ℤ o.last.collections)

  pub Advances-trans : (a b c : Cursor F) → Advances a b → Advances b c → Advances a c
  Advances-trans a b c ab bc key o e =
      let (o', e', le) = ab key o e in let (o'', e'', le') = bc key o' e' in (o'', e'', omega arith)

  pub IsSettled-Advances :
      (p : ℕ) (c c' : Cursor F) (r : GcStat) → Advances c c' → IsSettled p c r → IsSettled p c' r
  IsSettled-Advances p c c' r adv s done counted =
      let (o, e, le) = s done counted in
      let (o', e', le') = adv (ring_key p r) o e in (o', e', omega arith)

  raise_certainty-rings :
      (p : ℕ) (i m : ℤ) (c : Cursor F) → (raise_certainty p i m c).rings ≡ c.rings
  unfolding raise_certainty
  raise_certainty-rings p i m c = ground arith

  raise_certainty-retained :
      (p : ℕ) (i m : ℤ) (c : Cursor F) → (raise_certainty p i m c).retained ≡ c.retained
  unfolding raise_certainty
  raise_certainty-retained p i m c = ground arith

admits-IsSpan :
    {F : Type 0} (o : RingObservation F) (n : ℤ)
    → IsSpan o
    → admits o n ≡ ltb_ℤ o.last.collections n
unfolding admits
admits-IsSpan o n s = ground arith

module _ {F : Type 0} ⦃f : Float64 F⦄ (p : ℕ) (r : GcStat) (c : Cursor F) where
  ring_of-some :
      (o : RingObservation F)
      → lookup (ring_key p r) c.rings ≡ some o
      → ring_of c (ring_key p r) ≡ o
  ring_of-some o e = rw e

  -- A ring that was never read admits anything.
  absent_admits :
      lookup (ring_key p r) c.rings ≡ none
      → admits (ring_of c (ring_key p r)) (collections r) ≡ true
  unfolding admits
  absent_admits e = rw e

  last-fold : (o : RingObservation F) → (fold o r).last.collections ≡ collections r
  unfolding fold
  last-fold o = ground arith

  pub classify-retained : (classify p r c).0.retained ≡ c.retained
  unfolding classify
  classify-retained = ground arith

  -- The accumulators after one Record: its own took it in, or none changed.
  abbrev taken : List (RingKey × RingObservation F)
  taken = insert_sorted key_lt (ring_key p r) (fold (ring_of c (ring_key p r)) r) c.rings

  -- The four guards, and the flag that says whether the Record was pushed.
  abbrev takes : Bool
  takes =
      is_complete r
      && (not (leb_ℤ (collections r) (pos 0)) && admits (ring_of c (ring_key p r)) (collections r))

  classify-fresh : (classify p r c).1 ≡ takes
  unfolding classify
  classify-fresh = ground arith

  classify-rings : (classify p r c).0.rings ≡ (if takes then taken else c.rings)
  unfolding classify
  classify-rings = ground arith

  -- Finding a ring after a Record: the Record's own ring holds it, any other is as before.
  lookup-taken :
      (key : RingKey)
      → lookup key taken ≡ (
          if key_beq (ring_key p r) key
          then some (fold (ring_of c (ring_key p r)) r)
          else lookup key c.rings)
  lookup-taken key =
      lookup-insert_sorted key_lt (ring_key p r) key (fold (ring_of c (ring_key p r)) r) c.rings

  taken-Advances : takes ≡ true → IsWellFormed c → Advances c (classify p r c).0
  taken-Advances t w key o e = elim (Bool-cases (key_beq (ring_key p r) key)) [
    | inl same ↦ (
      fold (ring_of c (ring_key p r)) r,
      rw (classify-rings, t, lookup-taken key, same),
      rw last-fold (past ((key_beq_iff (ring_key p r) key).0 same)),
    )
    | inr other ↦ (o, rw (classify-rings, t, lookup-taken key, other) e, omega arith)
  ]
    where
      past : ring_key p r ≡ key → o.last.collections ≤ℤ collections r
      past same =
          ground (
            arith,
            admits-IsSpan o (collections r) (spans_of w key o e),
            ring_of-some o (rw same e),
          )

  -- One Record moves no cursor backwards.
  pub classify-Advances : IsWellFormed c → Advances c (classify p r c).0
  classify-Advances w = elim (Bool-cases takes) [
    | inl t ↦ taken-Advances t w
    | inr t ↦ λ key o e. (o, rw (classify-rings, t) e, omega arith)
  ]

  -- A Record that was refused or taken in is no news.
  pub classify_settles : IsWellFormed c → IsSettled p (classify p r c).0 r
  classify_settles w done counted = elim (Bool-cases takes) [
    | inl t ↦ (
      fold (ring_of c (ring_key p r)) r,
      rw (
        classify-rings,
        t,
        lookup-taken (ring_key p r),
        (key_beq_iff (ring_key p r) (ring_key p r)).1 refl,
      ),
      rw last-fold (omega arith),
    )
    | inr t ↦ elim (Option-cases (lookup (ring_key p r) c.rings)) [
      | inl absent ↦ absurd (ground (arith, absent_admits absent))
      | inr (o, e) ↦ (
        o,
        rw (classify-rings, t) e,
        ground (
          arith,
          admits-IsSpan o (collections r) (spans_of w (ring_key p r) o e),
          ring_of-some o e,
        ),
      )
    ]
  ]

  -- What is no news is refused.
  pub settled_refused : IsWellFormed c → IsSettled p c r → (classify p r c).1 ≡ false
  settled_refused w s = rw classify-fresh (elim (Bool-cases takes) [
    | inr t ↦ t
    | inl t ↦
        let (o, e, le) = s (ground arith) (ground arith) in
        absurd (
          ground (
            arith,
            admits-IsSpan o (collections r) (spans_of w (ring_key p r) o e),
            ring_of-some o e,
          ))
  ])

  -- A Record is reported exactly when it describes a finished Collection, its counter is positive
  -- and its ring has no accumulator or one whose last counter is below it.
  pub classify_reports_iff :
      IsWellFormed c
      → ((classify p r c).1 ≡ true) ↔ (
          (is_complete r ≡ true)
          × (pos 1 ≤ℤ collections r)
          × PastLast (observation c (ring_key p r)) (collections r))
  unfolding observation
  classify_reports_iff w = elim (Option-cases (lookup (ring_key p r) c.rings)) [
    | inl absent ↦ rw absent (
      λ h. (ground (arith, classify-fresh), ground (arith, classify-fresh), tt),
      λ h. ground (arith, classify-fresh, h.0, h.1, absent_admits absent),
    )
    | inr (o, e) ↦
        let cursor = admits-IsSpan o (collections r) (spans_of w (ring_key p r) o e) in
        let own = ring_of-some o e in
        rw e (
          λ h. (
            ground (arith, classify-fresh),
            ground (arith, classify-fresh),
            ground (arith, classify-fresh, cursor, own),
          ),
          λ h. ground (arith, classify-fresh, cursor, own, h.0, h.1, h.2),
        )
  ]
