-- ===== src/Loss/Pause.antt =====
-- The pauses of an account: which of them a tier publishes, and that no lost pause is negative.
use gc_scope.Base.{◌-◌, ◌≡◌, refl, Bool, true, false, none, some, arith, Bool-cases, inl, inr}
use gc_scope.Base.Int.{ℤ, pos, ◌+ℤ◌, ◌-ℤ◌, ◌≤ℤ◌, max_ℤ, i64_half, int_laws, sub_i64_le}
use gc_scope.Base.Float.{Float64}
use gc_scope.Cursor.Ring.{RingObservation}
use gc_scope.Cursor.Span.{IsSpan}
use gc_scope.Loss.{LossAccount, account, count_account, price_account, spanned_pause, secs_to_ns}
use gc_scope.Loss.Account.{account_timed, account_counted, saturating_add-le}

max_ℤ_bounds : (a b top : ℤ) → a ≤ℤ top → b ≤ℤ top → (b ≤ℤ max_ℤ a b) × (max_ℤ a b ≤ℤ top)
max_ℤ_bounds a b top h k = ground arith

-- What an account says of the pauses, by tier: nothing where no Entry bounds a Collection; the
-- measured sum alone where no total is published; else three figures that add up.
abbrev pub Pauses : {F : Type 0} → ℤ → Bool → Bool → LossAccount F → Type 0
Pauses m false prices a =
    (a.measured_pause_ns ≡ none)
    × (a.exact_pause_ns ≡ none)
    × (a.lost_pause_ns ≡ none)
    × (a.scale_factor ≡ none)
Pauses m true false a =
    (a.measured_pause_ns ≡ some m)
    × (a.exact_pause_ns ≡ none)
    × (a.lost_pause_ns ≡ none)
    × (a.scale_factor ≡ none)
Pauses m true true a =
    (exact lost : ℤ) × (a.measured_pause_ns ≡ some m)
    × (a.exact_pause_ns ≡ some exact)
    × (a.lost_pause_ns ≡ some lost)
    × (exact ≡ m +ℤ lost)
    × (pos 0 ≤ℤ lost)

module _ {F : Type 0} ⦃f : Float64 F⦄ (o : RingObservation F) where
  spanned_pause-le :
      o.measured_pause_ns ≤ℤ pos (i64_half - 1) → spanned_pause o ≤ℤ pos (i64_half - 1)
  unfolding spanned_pause
  spanned_pause-le m = elim (Bool-cases (f.is_finite (f.sub o.last.duration o.first.duration))) [
    | inl e ↦
        rw e
          (saturating_add-le (secs_to_ns (f.sub o.last.duration o.first.duration)) o.first_pause_ns)
    | inr e ↦ rw e m
  ]

  price-Pauses :
      (prices : Bool) (a : LossAccount F)
      → o.prices_pause ≡ prices
      → pos 0 ≤ℤ o.measured_pause_ns
      → o.measured_pause_ns ≤ℤ pos (i64_half - 1)
      → (a.exact_pause_ns ≡ none) × (a.lost_pause_ns ≡ none) × (a.scale_factor ≡ none)
      → Pauses o.measured_pause_ns true prices (price_account o a)
  unfolding price_account
  price-Pauses false a e low high n = simp e (refl, n.0, n.1, n.2)
  price-Pauses true a e low high n =
      let exact = max_ℤ (spanned_pause o) o.measured_pause_ns in
      let (above, below) =
        max_ℤ_bounds (spanned_pause o) o.measured_pause_ns (pos (i64_half - 1))
          (spanned_pause-le high) high in
      let lost = sub_i64_le exact o.measured_pause_ns low above below in
      simp (e, lost)
        (exact, exact -ℤ o.measured_pause_ns, refl, refl, refl, omega int_laws, omega int_laws)

  -- What an account says of the pauses follows the tier, and its figures add up: a build with no
  -- timestamps prices nothing; one with timestamps and no cumulative total prices what was read;
  -- one with both gives an exact pause that is the measured one plus a lost one that is never
  -- negative. The measured sum is taken to be in the non-negative range of an `i64`.
  pub account-Pauses :
      IsSpan o
      → pos 0 ≤ℤ o.measured_pause_ns
      → o.measured_pause_ns ≤ℤ pos (i64_half - 1)
      → Pauses o.measured_pause_ns o.timed o.prices_pause (account o)
  account-Pauses s low high = elim (Bool-cases o.timed) [
    | inl t ↦
        simp (account_timed o t s, t)
          (price-Pauses o.prices_pause (count_account o) refl low high unpriced)
    | inr t ↦ simp (account_counted o t s, t) (unfold count_account in (refl, refl, refl, refl))
  ]
    where
      unpriced :
          ((count_account o).exact_pause_ns ≡ none)
          × ((count_account o).lost_pause_ns ≡ none)
          × ((count_account o).scale_factor ≡ none)
      unpriced = unfold count_account in (refl, refl, refl)
