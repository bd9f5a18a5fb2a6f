-- ===== src/Cursor/Admission.antt =====
-- Every poll, and the eviction of a process, keep the invariant of the cursor.
use gc_scope.Base.{
  ℕ, ◌≤◌, ◌≡◌, refl, true, false, ◌||◌, none, some, List, [], ◌∷◌, arith, ltb, is_some, length,
  Bool-cases, ==_iff, Option-cases, inl, inr, ◌⊎◌,
}
use gc_scope.Base.Int.{ℤ, pos, leb_ℤ, eqb_ℤ_iff, ◌≤ℤ◌, max_ℤ}
use gc_scope.Base.Word.{succ_u64}
use gc_scope.Base.Eq.{nat_eq, int_eq, pair_eq, pair_beq}
use gc_scope.Base.Map.{
  lookup, insert, lookup-insert, lookup-insert_sorted, insert_sorted-All, length-insert,
}
use gc_scope.Base.Sort.{sort_by}
use gc_scope.Base.Float.{Float64}
use gc_scope.GcStats.{GcStat, collections, is_complete, ts_start, ts_stop}
use gc_scope.Cursor.Ring.{
  RingKey, RingObservation, key_eq, key_lt, key_beq, key_beq_iff, admits, is_empty, fold,
}
use gc_scope.Cursor.Span.{IsSpan, fold_open, fold_extend}
use gc_scope.Cursor.Kept.{stalest-kept, stalest-full, kept_of-see}
use gc_scope.Cursor.Invariant.{
  spans_of, IsWellFormed, is_kept, see-IsWellFormed, make_room-IsWellFormed,
}
use gc_scope.Cursor.Defs.{
  Cursor, kept_of, see, stalest, max_retained_interpreters, retain, make_room, raise_certainty,
  classify, fold_into, ring_of, ring_key, new, admit_one, admit_all, admit, candidate_le,
}

lookup-insert_here :
    (i : ℤ) (n : ℕ) (kept : List (ℤ × ℕ)) → is_some (lookup i (insert i n kept)) ≡ true
lookup-insert_here i n kept = rw lookup-insert (ground (arith, eqb_ℤ_iff i i))

module _ {F : Type 0} where
  -- Seeing an interpreter that is kept replaces its entry; a new one below the bound is added.
  see_fits :
      (p : ℕ) (i : ℤ) (c : Cursor F)
      → IsWellFormed c
      → (is_kept c p i || ltb (length (kept_of c p)) max_retained_interpreters) ≡ true
      → length (insert i c.polls (kept_of c p)) ≤ max_retained_interpreters
  see_fits p i c w room = ground (arith, length-insert i c.polls (kept_of c p), w.bounded p)

  pub retain-IsWellFormed :
      (p : ℕ) (i : ℤ) (c : Cursor F) → IsWellFormed c → IsWellFormed (retain p i c)
  unfolding retain
  retain-IsWellFormed p i c w = elim (Bool-cases (is_kept c p i)) [
    | inl old ↦ rw old (see-IsWellFormed p i c w (see_fits p i c w (rw old)))
    | inr new ↦ elim (Bool-cases (ltb (length (kept_of c p)) max_retained_interpreters)) [
      | inl room ↦ rw (new, room) (see-IsWellFormed p i c w (see_fits p i c w (rw (new, room))))
      | inr full ↦ elim (Option-cases (stalest (kept_of c p))) [
        | inl e ↦ rw (new, full, e) w
        | inr (old, e) ↦
            rw (new, full, e)
              (make_room-IsWellFormed p i old c w (stalest-kept (kept_of c p) old e))
      ]
    ]
  ]

  see_keeps :
      (p : ℕ) (i : ℤ) (kept : List (ℤ × ℕ)) (c : Cursor F) → is_kept (see p i kept c) p i ≡ true
  see_keeps p i kept c =
      rw (kept_of-see p i kept c p, (==_iff p p).1 refl) (lookup-insert_here i c.polls kept)

  make_room_keeps : (p : ℕ) (i old : ℤ) (c : Cursor F) → is_kept (make_room p i old c) p i ≡ true
  unfolding make_room
  make_room_keeps p i old c = see_keeps p i _ c

  -- The interpreter that a poll names is kept after `retain`, at the bound too.
  pub retain_keeps : (p : ℕ) (i : ℤ) (c : Cursor F) → is_kept (retain p i c) p i ≡ true
  unfolding retain
  retain_keeps p i c = elim (Bool-cases (is_kept c p i)) [
    | inl old ↦ rw old (see_keeps p i _ c)
    | inr new ↦ elim (Bool-cases (ltb (length (kept_of c p)) max_retained_interpreters)) [
      | inl room ↦ rw (new, room) (see_keeps p i _ c)
      | inr full ↦
          let (old, e) = stalest-full (kept_of c p) (ground arith) in
          rw (new, full, e) (make_room_keeps p i old c)
    ]
  ]

  module _ (p : ℕ) (i m : ℤ) (c : Cursor F) (w : IsWellFormed c)
      (present : is_kept c p i ≡ true) where
    abbrev raised : ℤ
    raised = elim (lookup (p, i) c.last_certainty) [ none ↦ m | some bound ↦ max_ℤ bound m ]

    raised_pos : leb_ℤ m (pos 0) ≡ false → pos 1 ≤ℤ raised
    raised_pos h = ground arith

    -- A bound after the raise is the raised one, or was there before.
    bound_cases :
        (q : ℕ) (j b : ℤ)
        → lookup (q, j) (insert (p, i) raised c.last_certainty) ≡ some b
        → ((p ≡ q) × (i ≡ j) × (raised ≡ b)) ⊎ (lookup (q, j) c.last_certainty ≡ some b)
    bound_cases q j b e = elim (Bool-cases (pair_beq (p, i) (q, j))) [
      | inl same ↦ inl (
        ground (arith, ==_iff p q),
        ground (arith, eqb_ℤ_iff i j),
        ground (arith, lookup-insert (p, i) (q, j) raised c.last_certainty),
      )
      | inr other ↦ inr (ground (arith, lookup-insert (p, i) (q, j) raised c.last_certainty))
    ]

    -- Raising the bound of a kept interpreter keeps the invariant.
    pub raise_certainty-IsWellFormed : IsWellFormed (raise_certainty p i m c)
    unfolding raise_certainty
    raise_certainty-IsWellFormed = elim (Bool-cases (leb_ℤ m (pos 0))) [
      | inl none_given ↦ rw none_given w
      | inr evidence ↦ rw evidence (record {
        live_spans = w.live_spans;
        retired_spans = w.retired_spans;
        ring_kept = w.ring_kept;
        certainty_kept = λ q j b e. elim (bound_cases q j b e) [
          | inl (pq, ij, _) ↦ rw (← pq, ← ij) present
          | inr old ↦ w.certainty_kept q j b old
        ];
        certainty_pos = λ q j b e. elim (bound_cases q j b e) [
          | inl (_, _, rb) ↦ rw (← rb) (raised_pos evidence)
          | inr old ↦ w.certainty_pos q j b old
        ];
        bounded = w.bounded;
      })
    ]

module _ {F : Type 0} ⦃f : Float64 F⦄ where
  module _ (p : ℕ) (r : GcStat) (c : Cursor F) (w : IsWellFormed c)
      (present : is_kept c p r.interpreter_id ≡ true)
      (counted : leb_ℤ (collections r) (pos 0) ≡ false)
      (admitted : admits (ring_of c (ring_key p r)) (collections r) ≡ true) where
    -- The accumulator that takes an admitted Record is a span afterwards.
    folded-IsSpan : IsSpan (fold (ring_of c (ring_key p r)) r)
    unfolding admits
    folded-IsSpan = elim (Bool-cases (is_empty (ring_of c (ring_key p r)))) [
      | inl empty ↦ fold_open (ring_of c (ring_key p r)) r (ground arith) empty
      | inr later ↦
          fold_extend (ring_of c (ring_key p r)) r (ground arith) (ring_span later) (ground arith)
    ]
      where
        ring_span : is_empty (ring_of c (ring_key p r)) ≡ false → IsSpan (ring_of c (ring_key p r))
        ring_span h = elim (Option-cases (lookup (ring_key p r) c.rings)) [
          | inl e ↦ absurd (ground arith)
          | inr (o, e) ↦ rw e (spans_of w (ring_key p r) o e)
        ]

    ring_cases :
        (key : RingKey) (o : RingObservation F)
        → lookup key (fold_into (ring_key p r) r c).rings ≡ some o
        → ((ring_key p r ≡ key) × (fold (ring_of c (ring_key p r)) r ≡ o))
          ⊎ (lookup key c.rings ≡ some o)
    ring_cases key o e = elim (Bool-cases (key_beq (ring_key p r) key)) [
      | inl same ↦ inl (
        (key_beq_iff (ring_key p r) key).0 same,
        ground (
          arith,
          lookup-insert_sorted key_lt (ring_key p r) key (fold (ring_of c (ring_key p r)) r)
              c.rings,
        ),
      )
      | inr other ↦ inr (
          ground (
            arith,
            lookup-insert_sorted key_lt (ring_key p r) key (fold (ring_of c (ring_key p r)) r)
                c.rings,
          ))
    ]

    pub fold_into-IsWellFormed : IsWellFormed (fold_into (ring_key p r) r c)
    fold_into-IsWellFormed = record {
      live_spans =
          insert_sorted-All (λ (e : RingKey × RingObservation F). IsSpan e.1) key_lt (ring_key p r)
            (fold (ring_of c (ring_key p r)) r) c.rings folded-IsSpan w.live_spans;
      retired_spans = w.retired_spans;
      ring_kept = λ key o e. elim (ring_cases key o e) [
        | inl (same, _) ↦ rw (← same) present
        | inr old ↦ w.ring_kept key o old
      ];
      certainty_kept = w.certainty_kept;
      certainty_pos = w.certainty_pos;
      bounded = w.bounded;
    }

  pub classify-IsWellFormed :
      (p : ℕ) (r : GcStat) (c : Cursor F)
      → IsWellFormed c
      → is_kept c p r.interpreter_id ≡ true
      → IsWellFormed (classify p r c).0
  unfolding classify
  classify-IsWellFormed p r c w present = elim (Bool-cases (is_complete r)) [
    | inr running ↦
        rw running (raise_certainty-IsWellFormed p r.interpreter_id (ts_start r) c w present)
    | inl done ↦ elim (Bool-cases (leb_ℤ (collections r) (pos 0))) [
      | inl unused ↦ rw (done, unused) w
      | inr counted ↦ elim (Bool-cases (admits (ring_of c (ring_key p r)) (collections r))) [
        | inr seen ↦ rw (done, counted, seen) w
        | inl fresh ↦
            rw (done, counted, fresh)
              (raise_certainty-IsWellFormed p r.interpreter_id (ts_stop r)
                (fold_into (ring_key p r) r c)
                (fold_into-IsWellFormed p r c w present counted fresh) present)
      ]
    ]
  ]

  pub admit_one-IsWellFormed :
      (p : ℕ) (r : GcStat) (c : Cursor F) → IsWellFormed c → IsWellFormed (admit_one p r c).0
  unfolding admit_one
  admit_one-IsWellFormed p r c w =
      classify-IsWellFormed p r (retain p r.interpreter_id c)
        (retain-IsWellFormed p r.interpreter_id c w) (retain_keeps p r.interpreter_id c)

  admit_all-IsWellFormed :
      (p : ℕ) (rs : List GcStat) (c : Cursor F) → IsWellFormed c → IsWellFormed (admit_all p rs c).0
  unfolding admit_all
  admit_all-IsWellFormed p [] c w = w
  admit_all-IsWellFormed p (r ∷ rs) c w =
      admit_all-IsWellFormed p rs (admit_one p r c).0 (admit_one-IsWellFormed p r c w)

  -- The count of polls plays no part in the invariant.
  pub next_poll-IsWellFormed :
      (c : Cursor F) → IsWellFormed c → IsWellFormed (record c { polls = succ_u64 c.polls })
  next_poll-IsWellFormed c w = record {
    live_spans = w.live_spans;
    retired_spans = w.retired_spans;
    ring_kept = w.ring_kept;
    certainty_kept = w.certainty_kept;
    certainty_pos = w.certainty_pos;
    bounded = w.bounded;
  }

  -- A poll keeps the invariant, whatever Records it hands over.
  pub admit-IsWellFormed :
      (p : ℕ) (records : List GcStat) (c : Cursor F)
      → IsWellFormed c
      → IsWellFormed (admit p records c).0
  unfolding admit
  admit-IsWellFormed p records c w =
      admit_all-IsWellFormed p (sort_by candidate_le records) _ (next_poll-IsWellFormed c w)

  -- A cursor that has read nothing.
  pub new-IsWellFormed : IsWellFormed (new {F = F})
  unfolding new lookup
  new-IsWellFormed = record {
    live_spans = tt;
    retired_spans = tt;
    ring_kept = λ key o e. cc;
    certainty_kept = λ q i b e. cc;
    certainty_pos = λ q i b e. cc;
    bounded = λ q. omega arith;
  }
