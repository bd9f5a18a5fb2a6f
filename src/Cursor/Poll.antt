-- ===== src/Cursor/Poll.antt =====
-- Whole polls: reading the same rings again reports nothing, and what a poll reports is past the
-- cursor that it found and in the order of its start.
use gc_scope.Base.Map.{lookup}
use gc_scope.Base.{
  Option-cases, some, ℕ, ◌+◌, ◌≤◌, ◌≡◌, refl, true, false, some, List, [], ◌∷◌, arith, length,
  Bool-cases, inl, inr, All, All-imp, ◌≢◌, ap, sym, ◌⊎◌,
}
use gc_scope.Base.Int.{ℤ, pos, ◌≤ℤ◌, pos_part, neg_part}
use gc_scope.Base.Word.{succ_u64}
use gc_scope.Base.Eq.{nat_eq, int_eq, pair_eq}
use gc_scope.Base.Sort.{sort_by, sort_by-All, sort_by-Pairs, sort_by-IsSorted, Pairs, IsSorted}
use gc_scope.Base.Float.{Float64}
use gc_scope.GcStats.{GcStat, collections, is_complete}
use gc_scope.Cursor.Ring.{key_eq, RingKey}
use gc_scope.Cursor.Invariant.{IsWellFormed}
use gc_scope.Cursor.Admission.{admit_one-IsWellFormed, retain-IsWellFormed, next_poll-IsWellFormed}
use gc_scope.Cursor.Room.{HasRoom, HasRoom-intro, named, retain-see, retain-HasRoom}
use gc_scope.Cursor.Dedup.{
  PastLast, Advances, IsSettled, Advances-trans, IsSettled-Advances, classify-Advances,
  classify-retained, classify_settles, settled_refused, classify_reports_iff,
}
use gc_scope.Cursor.Defs.{
  Cursor, kept_of, see, max_retained_interpreters, classify, ring_key, admit_one, admit_all, admit,
  candidate_le, start_le, observation,
}

-- Every Record is of one of the interpreters `ids`.
abbrev pub AllNamed : List ℤ → List GcStat → Type 0
AllNamed ids = All (λ r. named r.interpreter_id ids ≡ true)

-- Two Records that are not of one ring with one counter.
abbrev pub Differ : ℕ → GcStat → GcStat → Type 0
Differ p r s = ◌≢◌ {A = RingKey × ℤ} (ring_key p r, collections r) (ring_key p s, collections s)

start_le_total : (a b : GcStat) → (start_le a b ≡ true) ⊎ (start_le b a ≡ true)
unfolding start_le
start_le_total a b = ground arith

start_le_trans : (a b c : GcStat) → start_le a b ≡ true → start_le b c ≡ true → start_le a c ≡ true
unfolding start_le
start_le_trans a b c h k = ground arith

module _ {F : Type 0} ⦃f : Float64 F⦄ (p : ℕ) (ids : List ℤ) where
  -- The state that a Record is classified in.
  abbrev marked : GcStat → Cursor F → Cursor F
  marked r c = see p r.interpreter_id (kept_of c p) c

  admit_one-eq :
      (r : GcStat) (c : Cursor F)
      → HasRoom c p ids
      → named r.interpreter_id ids ≡ true
      → admit_one p r c ≡ classify p r (marked r c)
  admit_one-eq r c room n = unfold admit_one in rw (retain-see p r.interpreter_id ids c room n)

  marked-IsWellFormed :
      (r : GcStat) (c : Cursor F)
      → IsWellFormed c
      → HasRoom c p ids
      → named r.interpreter_id ids ≡ true
      → IsWellFormed (marked r c)
  marked-IsWellFormed r c w room n =
      rw (retain-see p r.interpreter_id ids c room n) at
        (retain-IsWellFormed p r.interpreter_id c w)

  admit_one-HasRoom :
      (r : GcStat) (c : Cursor F)
      → HasRoom c p ids
      → named r.interpreter_id ids ≡ true
      → HasRoom (admit_one p r c).0 p ids
  admit_one-HasRoom r c room n =
      rw (admit_one-eq r c room n, classify-retained p r (marked r c))
        (rw (retain-see p r.interpreter_id ids c room n) at
          (retain-HasRoom p r.interpreter_id ids c room n))

  admit_one-Advances :
      (r : GcStat) (c : Cursor F)
      → IsWellFormed c
      → HasRoom c p ids
      → named r.interpreter_id ids ≡ true
      → Advances c (admit_one p r c).0
  admit_one-Advances r c w room n =
      rw (admit_one-eq r c room n)
        (classify-Advances p r (marked r c) (marked-IsWellFormed r c w room n))

  admit_one_settles :
      (r : GcStat) (c : Cursor F)
      → IsWellFormed c
      → HasRoom c p ids
      → named r.interpreter_id ids ≡ true
      → IsSettled p (admit_one p r c).0 r
  admit_one_settles r c w room n =
      rw (admit_one-eq r c room n)
        (classify_settles p r (marked r c) (marked-IsWellFormed r c w room n))

  -- What one pass over a poll's Records leaves, with room for their interpreters.
  record Passed (rs : List GcStat) (c c' : Cursor F) : Type 0 where
    valid : IsWellFormed c'
    room : HasRoom c' p ids
    onward : Advances c c'
    settled : All (IsSettled p c') rs

  admit_all-Passed :
      (rs : List GcStat) (c : Cursor F)
      → IsWellFormed c
      → HasRoom c p ids
      → AllNamed ids rs
      → Passed rs c (admit_all p rs c).0
  unfolding admit_all
  admit_all-Passed [] c w room n = record {
    valid = w;
    room = room;
    onward = λ key o e. (o, e, omega arith);
    settled = tt;
  }
  admit_all-Passed (r ∷ rs) c w room n =
      let c1 = (admit_one p r c).0 in
      let rest =
        admit_all-Passed rs c1 (admit_one-IsWellFormed p r c w) (admit_one-HasRoom r c room n.0)
          n.1 in
      record {
        valid = rest.valid;
        room = rest.room;
        onward =
            Advances-trans c c1 (admit_all p rs c1).0 (admit_one-Advances r c w room n.0)
              rest.onward;
        settled = (
          IsSettled-Advances p c1 (admit_all p rs c1).0 r rest.onward
              (admit_one_settles r c w room n.0),
          rest.settled,
        );
      }

  -- A pass over Records that are no news reports none of them.
  settled_pass :
      (rs : List GcStat) (c : Cursor F)
      → IsWellFormed c
      → HasRoom c p ids
      → AllNamed ids rs
      → All (IsSettled p c) rs
      → (admit_all p rs c).1 ≡ []
  unfolding admit_all
  settled_pass [] c w room n s = refl
  settled_pass (r ∷ rs) c w room n s = rw (
    refused,
    settled_pass rs (admit_one p r c).0 (admit_one-IsWellFormed p r c w)
        (admit_one-HasRoom r c room n.0) n.1
        (All-imp (IsSettled p c) (IsSettled p (admit_one p r c).0) rs
          (λ x. IsSettled-Advances p c (admit_one p r c).0 x (admit_one-Advances r c w room n.0))
          s.1),
  )
    where
      refused : (admit_one p r c).1 ≡ false
      refused =
          rw (admit_one-eq r c room n.0)
            (settled_refused p r (marked r c) (marked-IsWellFormed r c w room n.0) s.0)

  -- Polling the same rings again reports nothing: while the interpreters kept and those in the
  -- poll are within the bound, the second `admit` of the same Records returns none of them.
  pub admit-admit :
      (records : List GcStat) (c : Cursor F)
      → IsWellFormed c
      → length (kept_of c p) + length ids ≤ max_retained_interpreters
      → AllNamed ids records
      → (admit p records (admit p records c).0).1 ≡ []
  unfolding admit
  admit-admit records c w fits n =
      let sorted = sort_by candidate_le records in
      let n' = sort_by-All candidate_le (λ r. named r.interpreter_id ids ≡ true) records n in
      let first =
        admit_all-Passed sorted (record c { polls = succ_u64 c.polls }) (next_poll-IsWellFormed c w)
          (HasRoom-intro (record c { polls = succ_u64 c.polls }) p ids fits) n' in
      rw (settled_pass sorted _ (next_poll-IsWellFormed _ first.valid) first.room n' first.settled)
        (unfold sort_by in refl)

  -- `r` is past the cursor of its ring.
  abbrev pub IsPast : Cursor F → GcStat → Type 0
  IsPast c r = PastLast (observation c (ring_key p r)) (collections r)

  IsPast-Advances : (c c' : Cursor F) (r : GcStat) → Advances c c' → IsPast c' r → IsPast c r
  unfolding observation
  IsPast-Advances c c' r adv past = elim (Option-cases (lookup (ring_key p r) c.rings)) [
    | inl absent ↦ rw absent tt
    | inr (o, e) ↦ let (o', e', le) = adv (ring_key p r) o e in rw e (omega (arith, rw e' at past))
  ]

  admit_one-reported :
      (r : GcStat) (c : Cursor F)
      → IsWellFormed c
      → HasRoom c p ids
      → named r.interpreter_id ids ≡ true
      → (admit_one p r c).1 ≡ true
      → (is_complete r ≡ true) × (pos 1 ≤ℤ collections r) × IsPast c r
  unfolding observation
  admit_one-reported r c w room n h =
      (classify_reports_iff p r (marked r c) (marked-IsWellFormed r c w room n)).0
        (rw (admit_one-eq r c room n) at h)

  -- After `r` was classified, a Record past the cursor has another ring or another counter.
  later_differs :
      (r s : GcStat) (c : Cursor F)
      → IsSettled p c r
      → is_complete r ≡ true
      → pos 1 ≤ℤ collections r
      → IsPast c s
      → Differ p r s
  unfolding observation
  later_differs r s c settled done counted past equal =
      let (o, e, le) = settled done counted in
      let own : lookup (ring_key p s) c.rings ≡ some o = rw (← ap (λ x. x.0) equal) e in
      absurd
        (omega (arith, rw own at past, ap (λ x. pos_part x.1) equal, ap (λ x. neg_part x.1) equal))

  -- What a pass reports is past the cursor that it began with, and no two of it are the same.
  pass_reports :
      (rs : List GcStat) (c : Cursor F)
      → IsWellFormed c
      → HasRoom c p ids
      → AllNamed ids rs
      → All (IsPast c) (admit_all p rs c).1 × Pairs (Differ p) (admit_all p rs c).1
  unfolding admit_all
  pass_reports [] c w room n = (tt, tt)
  pass_reports (r ∷ rs) c w room n =
      let c1 : Cursor F = (admit_one p r c).0 in
      let rest =
        pass_reports rs c1 (admit_one-IsWellFormed p r c w) (admit_one-HasRoom r c room n.0) n.1 in
      let later_past : All (IsPast c) (admit_all p rs c1).1 =
        All-imp (IsPast c1) (IsPast c) (admit_all p rs c1).1
          (λ s. IsPast-Advances c c1 s (admit_one-Advances r c w room n.0)) rest.0 in
      elim (Bool-cases (admit_one p r c).1) [
        | inr refused ↦ rw refused (later_past, rest.1)
        | inl reported ↦
            let (done, counted, past) = admit_one-reported r c w room n.0 reported in
            rw reported (
              (past, later_past),
              (
                All-imp (IsPast c1) (Differ p r) (admit_all p rs c1).1
                    (λ s. later_differs r s c1 (admit_one_settles r c w room n.0) done counted)
                    rest.0,
                rest.1,
              ),
            )
      ]

  -- While the interpreters kept and those in the poll are within the bound, every Record that a
  -- poll reports is past its ring's cursor as the poll found it, no two of them are of one ring
  -- with one counter, and they come in the order of their `ts_start`.
  pub admit_reports :
      (records : List GcStat) (c : Cursor F)
      → IsWellFormed c
      → length (kept_of c p) + length ids ≤ max_retained_interpreters
      → AllNamed ids records
      → All (IsPast c) (admit p records c).1
        × Pairs (Differ p) (admit p records c).1
        × IsSorted start_le (admit p records c).1
  unfolding admit observation
  admit_reports records c w fits n =
      let start : Cursor F = record c { polls = succ_u64 c.polls } in
      let sorted = sort_by candidate_le records in
      let fresh = (admit_all p sorted start).1 in
      let (past, differ) =
        pass_reports sorted start (next_poll-IsWellFormed c w) (HasRoom-intro start p ids fits)
          (sort_by-All candidate_le (λ r. named r.interpreter_id ids ≡ true) records n) in
      (
        sort_by-All start_le (IsPast c) fresh past,
        sort_by-Pairs start_le (Differ p) fresh (λ a b d equal. d (sym equal)) differ,
        sort_by-IsSorted start_le fresh start_le_total start_le_trans,
      )
