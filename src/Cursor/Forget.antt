-- ===== src/Cursor/Forget.antt =====
-- `Cursor::forget`: a process that died leaves nothing to be read as already seen, and what its
-- rings did is retired.
use gc_scope.Cursor.Span.{IsSpan}
use gc_scope.Base.{
  ◌++◌, Option, All, All-append, ℕ, ◌≡◌, refl, ◌∙◌, Bool, true, ◌&&◌, none, some, List, [], ◌∷◌,
  map, arith, ◌==◌, if◌then◌else◌, is_some, Bool-cases, ==_iff, Option-cases, inl, inr, any, keep,
}
use gc_scope.Base.Int.{ℤ}
use gc_scope.Base.Eq.{nat_eq, int_eq, pair_eq}
use gc_scope.Base.Map.{remove-All, lookup, lookup-remove, lookup-retain_keys}
use mathlib.Core.Path.{subst, sym, ap}
use gc_scope.Cursor.Ring.{RingKey, RingObservation, key_eq, key_beq, key_beq_iff}
use gc_scope.Cursor.Invariant.{spans_of, IsWellFormed}
use gc_scope.Cursor.Defs.{
  Cursor, kept_of, retire, retire_all, forget, observation, last_certainty, dropped,
}
use mathlib.Core.List.{
  append-nil, append_assoc, Mem, mem-append_left, mem-append_right, mem-cons_self,
}

abbrev mentions : RingKey → List RingKey → Bool
mentions k keys = any (λ key. key_beq key k) keys

-- The keys of a process are its keys with an accumulator.
mentions-keep :
    {F : Type 0} (p : ℕ) (k : RingKey) (m : List (RingKey × RingObservation F))
    → mentions k (keep (λ (key : RingKey). key.pid == p) (map (λ e. e.0) m))
      ≡ (k.pid == p && is_some (lookup k m))
unfolding lookup
mentions-keep p k [] = ground arith
mentions-keep p k ((j, o) ∷ m) = ground (arith, mentions-keep p k m, key_beq_iff j k)

module _ {F : Type 0} where
  retire-rings :
      (key k : RingKey) (c : Cursor F)
      → lookup k (retire key c).rings ≡ (if key_beq key k then none else lookup k c.rings)
  unfolding retire
  retire-rings key k c = ground (arith, lookup-remove key k c.rings, key_beq_iff key k)

  retire_all-rings :
      (keys : List RingKey) (k : RingKey) (c : Cursor F)
      → lookup k (retire_all keys c).rings ≡ (if mentions k keys then none else lookup k c.rings)
  unfolding retire_all
  retire_all-rings [] k c = refl
  retire_all-rings (key ∷ keys) k c =
      retire_all-rings keys k (retire key c) ∙ rw (retire-rings key k c) (ground arith)

  -- Retiring touches the accumulators and the retired ones alone.
  record SameRest (c c' : Cursor F) : Type 0 where
    bounds : c'.last_certainty ≡ c.last_certainty
    kept : c'.retained ≡ c.retained
    lost : c'.dropped ≡ c.dropped
    spans : c'.evictions ≡ c.evictions

  retire-SameRest : (key : RingKey) (c : Cursor F) → SameRest c (retire key c)
  unfolding retire
  retire-SameRest key c = ground arith

  retire_all-SameRest : (keys : List RingKey) (c : Cursor F) → SameRest c (retire_all keys c)
  unfolding retire_all
  retire_all-SameRest [] c = record { bounds = refl; kept = refl; lost = refl; spans = refl }
  retire_all-SameRest (key ∷ keys) c =
      let rest = retire_all-SameRest keys (retire key c) in
      let first = retire-SameRest key c in
      record {
        bounds = rest.bounds ∙ first.bounds;
        kept = rest.kept ∙ first.kept;
        lost = rest.lost ∙ first.lost;
        spans = rest.spans ∙ first.spans;
      }

  abbrev RetiredSpans : Cursor F → Type 0
  RetiredSpans c = All (λ (e : RingKey × ℕ × RingObservation F). IsSpan e.2) c.retired

  abbrev doomed : ℕ → Cursor F → List RingKey
  doomed p c = keep (λ (key : RingKey). key.pid == p) (map (λ e. e.0) c.rings)

  retired-All-spans :
      (keys : List RingKey) (c : Cursor F)
      → ((key : RingKey) (o : RingObservation F) → lookup key c.rings ≡ some o → IsSpan o)
      → RetiredSpans c
      → RetiredSpans (retire_all keys c)
  unfolding retire_all
  retired-All-spans [] c spans h = h
  retired-All-spans (key ∷ keys) c spans h = elim (Option-cases (lookup key c.rings)) [
    | inl e ↦ retired-All-spans keys (retire key c) still (rw (e, retire) h)
    | inr (o, e) ↦ retired-All-spans keys (retire key c) still (
        rw (e, retire)
          (All-append (λ (x : RingKey × ℕ × RingObservation F). IsSpan x.2) c.retired
            ((key, c.evictions, o) ∷ []) h (spans key o e, tt)))
  ]
    where
      still :
          (k : RingKey) (o : RingObservation F) → lookup k (retire key c).rings ≡ some o → IsSpan o
      still k o e = spans k o (ground (arith, retire-rings key k c))

  live-All-spans :
      (keys : List RingKey) (c : Cursor F)
      → All (λ (e : RingKey × RingObservation F). IsSpan e.1) c.rings
      → All (λ (e : RingKey × RingObservation F). IsSpan e.1) (retire_all keys c).rings
  unfolding retire_all
  live-All-spans [] c h = h
  live-All-spans (key ∷ keys) c h =
      live-All-spans keys (retire key c) (one (lookup key c.rings) refl)
    where
      one :
          (found : Option (RingObservation F))
          → lookup key c.rings ≡ found
          → All (λ (e : RingKey × RingObservation F). IsSpan e.1) (retire key c).rings
      one none e = rw (e, retire) h
      one (some o) e =
          rw (e, retire)
            (remove-All (λ (e : RingKey × RingObservation F). IsSpan e.1) key c.rings h)

  module _ (p : ℕ) (c : Cursor F) where
    forget-rings :
        (key : RingKey)
        → lookup key (forget p c).rings ≡ (if key.pid == p then none else lookup key c.rings)
    unfolding forget
    forget-rings key =
        retire_all-rings (doomed p c) key c ∙ rw (mentions-keep p key c.rings) (ground arith)

    forget-certainty :
        (q : ℕ) (i : ℤ)
        → lookup (q, i) (forget p c).last_certainty
          ≡ (if q == p then none else lookup (q, i) c.last_certainty)
    unfolding forget
    forget-certainty q i =
        rw ((retire_all-SameRest (doomed p c) c).bounds, lookup-retain_keys) (ground arith)

    pub forget-kept : (q : ℕ) → kept_of (forget p c) q ≡ (if q == p then [] else kept_of c q)
    unfolding forget
    forget-kept q =
        rw ((retire_all-SameRest (doomed p c) c).kept, lookup-remove) (ground (arith, ==_iff p q))

    forget-dropped : (q : ℕ) → dropped (forget p c) q ≡ (if q == p then 0 else dropped c q)
    unfolding forget dropped
    forget-dropped q =
        rw ((retire_all-SameRest (doomed p c) c).lost, lookup-remove) (ground (arith, ==_iff p q))

    -- After `forget p` the cursor reads nothing of `p` as already seen, and reads every other
    -- process as before: accumulators, certainty bounds, retained interpreters and drop counts.
    pub forget_isolates :
        (key : RingKey) (q : ℕ) (i : ℤ)
        → (observation (forget p c) key ≡ (if key.pid == p then none else observation c key))
          × (last_certainty (forget p c) q i ≡ (if q == p then none else last_certainty c q i))
          × (kept_of (forget p c) q ≡ (if q == p then [] else kept_of c q))
          × (dropped (forget p c) q ≡ (if q == p then 0 else dropped c q))
    unfolding observation last_certainty
    forget_isolates key q i =
        (forget-rings key, forget-certainty q i, forget-kept q, forget-dropped q)

    -- Forgetting a process keeps the invariant.
    pub forget-IsWellFormed : IsWellFormed c → IsWellFormed (forget p c)
    unfolding forget
    forget-IsWellFormed w = record {
      live_spans = live-All-spans (doomed p c) c w.live_spans;
      retired_spans = retired-All-spans (doomed p c) c (spans_of w) w.retired_spans;
      ring_kept = λ key o e.
          rw (forget-kept key.pid) (
            ground (arith, forget-rings key, w.ring_kept key o (ground (arith, forget-rings key))));
      certainty_kept = λ q i b e. rw (forget-kept q) (
          ground (
            arith,
            forget-certainty q i,
            w.certainty_kept q i b (ground (arith, forget-certainty q i)),
          ));
      certainty_pos = λ q i b e. w.certainty_pos q i b (ground (arith, forget-certainty q i));
      bounded = λ q. rw (forget-kept q) (ground (arith, w.bounded q));
    }

  -- What is retired stays retired.
  retired-retire_all :
      {x : RingKey × ℕ × RingObservation F} (keys : List RingKey) (c : Cursor F)
      → Mem x c.retired
      → Mem x (retire_all keys c).retired
  unfolding retire_all
  retired-retire_all [] c m = m
  retired-retire_all (key ∷ keys) c m =
      retired-retire_all keys (retire key c) (retired-retire key c m)
    where
      retired-retire :
          {x : RingKey × ℕ × RingObservation F} (key : RingKey) (c : Cursor F)
          → Mem x c.retired
          → Mem x (retire key c).retired
      retired-retire {x} key c m = elim (Option-cases (lookup key c.rings)) [
        | inl e ↦ rw (e, retire) m
        | inr (o, e) ↦ rw (e, retire) (mem-append_left ((key, c.evictions, o) ∷ []) m)
      ]

  retire_all-retires :
      (keys : List RingKey) (k : RingKey) (o : RingObservation F) (c : Cursor F)
      → lookup k c.rings ≡ some o
      → mentions k keys ≡ true
      → Mem (k, c.evictions, o) (retire_all keys c).retired
  unfolding retire_all
  retire_all-retires [] k o c e h = cc
  retire_all-retires (key ∷ keys) k o c e h = elim (Bool-cases (key_beq key k)) [
    | inl same ↦ retired-retire_all keys (retire key c) (
        rw ((key_beq_iff key k).0 same) (
          rw (e, retire)
            (mem-append_right c.retired (mem-cons_self {a = (k, c.evictions, o)} {l = []}))))
    | inr other ↦
        subst (λ n. Mem (k, n, o) (retire_all keys (retire key c)).retired)
          (retire-SameRest key c).spans
          (retire_all-retires keys k o (retire key c) (retire-rings key k c ∙ rw other e)
            (ground arith))
  ]

  retire-prefix :
      (key : RingKey) (c : Cursor F)
      → (more : List (RingKey × ℕ × RingObservation F)) × ((retire key c).retired
          ≡ c.retired ++ more)
  unfolding retire
  retire-prefix key c = elim (Option-cases (lookup key c.rings)) [
    | inl e ↦ ([], rw (e, retire) (sym (append-nil c.retired)))
    | inr (o, e) ↦ ((key, c.evictions, o) ∷ [], rw (e, retire))
  ]

  -- Retiring only adds at the end.
  retired-prefix :
      (keys : List RingKey) (c : Cursor F)
      → (more : List (RingKey × ℕ × RingObservation F)) × ((retire_all keys c).retired
          ≡ c.retired ++ more)
  unfolding retire_all
  retired-prefix [] c = ([], sym (append-nil c.retired))
  retired-prefix (key ∷ keys) c =
      let (more, first) = retire-prefix key c in
      let (last, later) = retired-prefix keys (retire key c) in
      (more ++ last, later ∙ ap (λ l. l ++ last) first ∙ append_assoc c.retired more last)

  -- Forgetting a process loses no accumulator: each of its own is retired, tagged with this
  -- eviction, behind what was retired before.
  pub forget_retires :
      (p : ℕ) (c : Cursor F) (key : RingKey) (o : RingObservation F)
      → observation c key ≡ some o
      → key.pid ≡ p
      → Mem (key, c.evictions, o) (forget p c).retired
        × (more : List (RingKey × ℕ × RingObservation F)) × ((forget p c).retired
            ≡ c.retired ++ more)
  unfolding observation forget
  forget_retires p c key o e own =
      let (more, later) = retired-prefix (doomed p c) c in
      (
        retire_all-retires (doomed p c) key o c e
            (mentions-keep p key c.rings ∙ rw (e, (==_iff key.pid p).1 own)),
        more,
        later,
      )
