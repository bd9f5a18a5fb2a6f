-- ===== src/Exporters/Spelling.antt =====
-- The names and numbers of a Record can be spelled in JSON.
use gc_scope.Base.{
  ℕ, zero, suc, ◌+◌, ◌/◌, ◌%◌, ◌≡◌, refl, ap, true, some, List, [], ◌∷◌, ◌++◌, ltb, unwrap_or,
  String, All, arith, Bool-cases, Option-cases, inl, inr,
}
use mathlib.Core.Path.{subst}
use gc_scope.Base.Int.{ℤ, pos, negsuc, InI64}
use gc_scope.Base.Text.{codes, digits, decimal, decimal_int}
use gc_scope.GcStats.{GcStat, get, ts_start}
use gc_scope.GcStats.Bounds.{InI64-get}
use gc_scope.Convert.{
  Phase, phases, PhaseStart, explicit, chained, first_field, phase_start, of_gen,
}
use gc_scope.Exporters.Json.{all_plain}

pub all_plain-append :
    (xs ys : List ℕ) → all_plain xs ≡ true → all_plain ys ≡ true → all_plain (xs ++ ys) ≡ true
unfolding all_plain
all_plain-append [] ys h k = k
all_plain-append (x ∷ xs) ys h k = ground (arith, h, all_plain-append xs ys (ground (arith, h)) k)

digits-plain : (fuel n : ℕ) → all_plain (digits fuel n) ≡ true
unfolding digits all_plain
digits-plain zero n = refl
digits-plain (suc fuel) n = elim (Bool-cases (ltb n 10)) [
  | inl small ↦ ground (arith, small)
  | inr large ↦
      let rest = digits-plain fuel (n / 10) in
      let last : all_plain ((b'0' + n % 10) ∷ []) ≡ true = ground arith in
      let both = all_plain-append (digits fuel (n / 10)) ((b'0' + n % 10) ∷ []) rest last in
      ground (arith, large, both)
]

pub decimal-plain : (n : ℕ) → all_plain (decimal n) ≡ true
unfolding decimal
decimal-plain n = digits-plain 20 n

pub decimal_int-plain : (z : ℤ) → all_plain (decimal_int z) ≡ true
unfolding decimal_int all_plain
decimal_int-plain (pos n) = decimal-plain n
decimal_int-plain (negsuc n) = ground (arith, decimal-plain (suc n))

pub of_gen-plain :
    (label : List ℕ) (g : ℕ) → all_plain label ≡ true → all_plain (of_gen label g) ≡ true
unfolding all_plain
of_gen-plain label g h = all_plain-append label (codes "(gen=" ++ (decimal g ++ codes ")")) h (
    all_plain-append (codes "(gen=") (decimal g ++ codes ")") refl
      (all_plain-append (decimal g) (codes ")") (decimal-plain g) refl))

pub get-InI64 : (r : GcStat) (name : String) (v : ℤ) → get r name ≡ some v → InI64 v
get-InI64 r name v h =
    let is : unwrap_or (get r name) (pos 0) ≡ v = ap (λ o. unwrap_or o (pos 0)) h in
    subst InI64 is (InI64-get r name)

first_field-InI64 :
    (r : GcStat) (names : List String) (v : ℤ) → first_field r names ≡ some v → InI64 v
unfolding first_field
first_field-InI64 r [] v h = absurd (cc h)
first_field-InI64 r (name ∷ names) v h = elim (Option-cases (get r name)) [
  | inl lacks ↦ first_field-InI64 r names v (ground (arith, h, lacks))
  | inr (w, has) ↦
      let is : w ≡ v = ground (arith, h, has) in subst InI64 is (get-InI64 r name w has)
]

pub InI64-ts_start : (r : GcStat) → InI64 (ts_start r)
unfolding ts_start
InI64-ts_start r = InI64-get r "ts_start"

pub phase_start-InI64 :
    (r : GcStat) (start : PhaseStart) (v : ℤ) → phase_start r start ≡ some v → InI64 v
unfolding phase_start
phase_start-InI64 r (explicit field) v h = get-InI64 r field v h
phase_start-InI64 r (chained fields) v h = elim (Option-cases (first_field r fields)) [
  | inl lacks ↦
      let is : ts_start r ≡ v = ground (arith, h, lacks) in subst InI64 is (InI64-ts_start r)
  | inr (w, has) ↦
      let is : w ≡ v = ground (arith, h, has) in subst InI64 is (first_field-InI64 r fields w has)
]

-- The names of a phase need no escape.
abbrev pub IsPlainPhase : Phase → Type 0
IsPlainPhase p =
    (all_plain (codes p.label) ≡ true)
    × (all_plain (codes p.cat) ≡ true)
    × All (λ (a : String × String). all_plain (codes a.0) ≡ true) p.args

pub phases-IsPlainPhase : All IsPlainPhase phases
unfolding all_plain
phases-IsPlainPhase = (
  (refl, refl, (refl, tt)),
  (
    (refl, refl, (refl, tt)),
    (
      (refl, refl, (refl, tt)),
      (
        (refl, refl, tt),
        (
          (refl, refl, (refl, tt)),
          ((refl, refl, tt), ((refl, refl, (refl, tt)), ((refl, refl, (refl, tt)), tt))),
        ),
      ),
    ),
  ),
)
