-- ===== src/Cursor/Defs.antt =====
-- src/monitor/cursor.rs: `Cursor` and its methods.
use gc_scope.Base.{
  ℕ, ◌-◌, Bool, true, false, not, ◌&&◌, ◌||◌, Option, none, some, List, [], ◌∷◌, ◌++◌, map, ltb,
  leb, ◌==◌, if◌then◌else◌, is_some, unwrap_or, length, keep,
}
use gc_scope.Base.Int.{ℤ, pos, max_ℤ, ltb_ℤ, leb_ℤ, eqb_ℤ}
use gc_scope.Base.Word.{succ_u64, u64_mod}
use gc_scope.Base.Eq.{nat_eq, int_eq, pair_eq}
use gc_scope.Base.Map.{lookup, insert, insert_sorted, retain_keys, remove}
use gc_scope.Base.Sort.{sort_by}
use gc_scope.Base.Float.{Float64}
use gc_scope.GcStats.{GcStat, collections, ts_start, ts_stop, is_complete}
use gc_scope.Cursor.Ring.{
  RingKey, RingObservation, key_lt, key_eq, admits, fold, observation_default,
}

-- `MAX_RETAINED_INTERPRETERS`.
abbrev pub max_retained_interpreters : ℕ
max_retained_interpreters = 1024

pub record Cursor (F : Type 0) : Type 0 where
  pub rings : List (RingKey × RingObservation F)
  pub retired : List (RingKey × ℕ × RingObservation F)
  pub evictions : ℕ
  pub last_certainty : List ((ℕ × ℤ) × ℤ)
  pub retained : List (ℕ × List (ℤ × ℕ))
  pub dropped : List (ℕ × ℕ)
  pub polls : ℕ

-- The one that `(seen, id)` puts first, the earlier of two equal ones.
unfoldable pub staler : ℤ × ℕ → ℤ × ℕ → ℤ × ℕ
staler best x = if ltb x.1 best.1 then x else if x.1 == best.1 && ltb_ℤ x.0 best.0 then x else best

unfoldable pub stalest_of : ℤ × ℕ → List (ℤ × ℕ) → ℤ
unfolding staler
stalest_of best [] = best.0
stalest_of best (x ∷ xs) = stalest_of (staler best x) xs

-- `iter().min_by_key(|(id, seen)| (seen, id))`: none of an empty set.
unfoldable pub stalest : List (ℤ × ℕ) → Option ℤ
unfolding stalest_of
stalest [] = none
stalest (x ∷ xs) = some (stalest_of x xs)

-- The order in which a poll's Records fold: by interpreter, generation and counter.
unfoldable pub candidate_le : GcStat → GcStat → Bool
candidate_le a b =
    if ltb_ℤ a.interpreter_id b.interpreter_id
    then true
    else if eqb_ℤ a.interpreter_id b.interpreter_id
    then (if ltb a.generation b.generation
        then true
        else if a.generation == b.generation
        then leb_ℤ (collections a) (collections b)
        else false)
    else false

unfoldable pub start_le : GcStat → GcStat → Bool
start_le a b = leb_ℤ (ts_start a) (ts_start b)

abbrev pub ring_key : ℕ → GcStat → RingKey
ring_key p r = record { pid = p; interpreter = r.interpreter_id; generation = r.generation }

module _ {F : Type 0} where
  -- The interpreters that are kept for a process, each with the poll it was last seen in.
  abbrev pub kept_of : Cursor F → ℕ → List (ℤ × ℕ)
  kept_of c p = unwrap_or (lookup p c.retained) []

  unfoldable pub drop_interpreter : ℕ → ℤ → Cursor F → Cursor F
  drop_interpreter p i c = record c {
    rings =
        retain_keys (λ (key : RingKey). not (key.pid == p) || not (eqb_ℤ key.interpreter i))
          c.rings;
    last_certainty = remove (p, i) c.last_certainty;
  }

  unfoldable pub dropped : Cursor F → ℕ → ℕ
  dropped c p = unwrap_or (lookup p c.dropped) 0

  -- The interpreters of `p` with `i` seen in this poll.
  abbrev pub see : ℕ → ℤ → List (ℤ × ℕ) → Cursor F → Cursor F
  see p i kept c = record c { retained = insert p (insert i c.polls kept) c.retained }

  -- The full set of `p` makes room for `i`.
  unfoldable pub make_room : ℕ → ℤ → ℤ → Cursor F → Cursor F
  unfolding drop_interpreter
  make_room p i old c =
      let c' = drop_interpreter p old (see p i (remove old (kept_of c p)) c) in
      record c' { dropped = insert p (succ_u64 (unwrap_or (lookup p c.dropped) 0)) c'.dropped }

  -- The `expect` on the stalest of a full set is the case `none`, which does not arise.
  unfoldable pub retain : ℕ → ℤ → Cursor F → Cursor F
  unfolding make_room
  retain p i c =
      let kept = kept_of c p in
      if is_some (lookup i kept)
      then see p i kept c
      else if ltb (length kept) max_retained_interpreters
      then see p i kept c
      else elim (stalest kept) [ none ↦ c | some old ↦ make_room p i old c ]

  unfoldable pub raise_certainty : ℕ → ℤ → ℤ → Cursor F → Cursor F
  raise_certainty p i moment c = if leb_ℤ moment (pos 0) then c else record c {
    last_certainty =
        insert (p, i)
          (elim (lookup (p, i) c.last_certainty) [
            | none ↦ moment
            | some bound ↦ max_ℤ bound moment
          ])
          c.last_certainty;
  }

  unfoldable pub last_certainty : Cursor F → ℕ → ℤ → Option ℤ
  last_certainty c p i = lookup (p, i) c.last_certainty

  unfoldable pub observation : Cursor F → RingKey → Option (RingObservation F)
  observation c key = lookup key c.rings

  -- The body of the loop of `forget`.
  unfoldable pub retire : RingKey → Cursor F → Cursor F
  retire key c = elim (lookup key c.rings) [
    | none ↦ c
    | some o ↦ record c {
      rings = remove key c.rings;
      retired = c.retired ++ ((key, c.evictions, o) ∷ []);
    }
  ]

  unfoldable pub retire_all : List RingKey → Cursor F → Cursor F
  unfolding retire
  retire_all [] c = c
  retire_all (key ∷ keys) c = retire_all keys (retire key c)

  unfoldable pub forget : ℕ → Cursor F → Cursor F
  unfolding retire_all
  forget p c =
      let doomed = keep (λ (key : RingKey). key.pid == p) (map (λ e. e.0) c.rings) in
      let c' = retire_all doomed c in
      record c' {
        evictions = succ_u64 c'.evictions;
        last_certainty = retain_keys (λ (k : ℕ × ℤ). not (k.0 == p)) c'.last_certainty;
        retained = remove p c'.retained;
        dropped = remove p c'.dropped;
      }

  -- `(pid, interpreter, span, generation)`.
  unfoldable pub span_le : RingKey × ℕ × RingObservation F → RingKey × ℕ × RingObservation F → Bool
  span_le (a, s, _) (b, t, _) =
      if ltb a.pid b.pid
      then true
      else if not (a.pid == b.pid)
      then false
      else if ltb_ℤ a.interpreter b.interpreter
      then true
      else if not (eqb_ℤ a.interpreter b.interpreter)
      then false
      else if ltb s t
      then true
      else if not (s == t)
      then false
      else leb a.generation b.generation

  unfoldable pub observations : Cursor F → List (RingKey × RingObservation F)
  unfolding span_le
  observations c =
      map (λ e. (e.0, e.2))
        (sort_by span_le (c.retired ++ map (λ e. (e.0, u64_mod - 1, e.1)) c.rings))

  unfoldable pub new : Cursor F
  new = record {
    rings = [];
    retired = [];
    evictions = 0;
    last_certainty = [];
    retained = [];
    dropped = [];
    polls = 0;
  }

module _ {F : Type 0} ⦃f : Float64 F⦄ where
  abbrev pub ring_of : Cursor F → RingKey → RingObservation F
  ring_of c key = unwrap_or (lookup key c.rings) observation_default

  -- The accumulator of `key` with `r` folded in.
  abbrev pub fold_into : RingKey → GcStat → Cursor F → Cursor F
  fold_into key r c = record c { rings = insert_sorted key_lt key (fold (ring_of c key) r) c.rings }

  -- The loop body of `admit` behind `retain`: the cursor, and whether the Record is fresh.
  -- `or_default` leaves no empty accumulator behind, since an empty one admits.
  unfoldable pub classify : ℕ → GcStat → Cursor F → Cursor F × Bool
  unfolding raise_certainty
  classify p r c =
      if not (is_complete r)
      then (raise_certainty p r.interpreter_id (ts_start r) c, false)
      else if leb_ℤ (collections r) (pos 0)
      then (c, false)
      else if not (admits (ring_of c (ring_key p r)) (collections r))
      then (c, false)
      else (raise_certainty p r.interpreter_id (ts_stop r) (fold_into (ring_key p r) r c), true)

  unfoldable pub admit_one : ℕ → GcStat → Cursor F → Cursor F × Bool
  unfolding classify retain
  admit_one p r c = classify p r (retain p r.interpreter_id c)

  unfoldable pub admit_all : ℕ → List GcStat → Cursor F → Cursor F × List GcStat
  unfolding admit_one
  admit_all p [] c = (c, [])
  admit_all p (r ∷ rs) c =
      let (c1, fresh) = admit_one p r c in
      let (c2, later) = admit_all p rs c1 in (c2, if fresh then r ∷ later else later)

  unfoldable pub admit : ℕ → List GcStat → Cursor F → Cursor F × List GcStat
  unfolding admit_all
  admit p records c =
      let (c', fresh) =
        admit_all p (sort_by candidate_le records) (record c { polls = succ_u64 c.polls }) in
      (c', sort_by start_le fresh)
