-- ===== src/Loss/Account.antt =====
-- The account adds up: the parts sum to the whole, no count or pause is negative, and each tier
-- leaves out what it cannot say.
use gc_scope.Base.{◌-◌, ◌≡◌, true, false, arith, if◌then◌else◌, Bool-cases, inl, inr, ◌∙◌}
use gc_scope.Base.Int.{
  ℤ, pos, ◌+ℤ◌, ◌-ℤ◌, ◌≤ℤ◌, add_i64, sub_i64, as_i64, i64_half, int_laws, as_i64_small, sub_i64_le,
  add_i64_le,
}
use gc_scope.Base.Float.{Float64}
use gc_scope.Cursor.Ring.{RingObservation}
use gc_scope.Cursor.Span.{IsSpan, span_nonempty}
use gc_scope.Loss.{LossAccount, account, count_account, price_account, from_bool, saturating_add}

module _ {F : Type 0} (o : RingObservation F) (s : IsSpan o) where
  -- The counter's rise over a span, which does not overflow.
  rise : sub_i64 o.last.collections o.first.collections ≡ o.last.collections -ℤ o.first.collections
  rise =
      sub_i64_le o.last.collections o.first.collections (omega (arith, s.opens))
        (omega (arith, s.read, s.counted)) (omega (arith, s.last_in))

  -- A timed span counts the Record that opened it.
  exact_timed :
      add_i64 (sub_i64 o.last.collections o.first.collections) (pos 1)
      ≡ o.last.collections -ℤ o.first.collections +ℤ pos 1
  exact_timed = rw rise (
      add_i64_le (o.last.collections -ℤ o.first.collections) (pos 1)
        (omega (int_laws, s.read, s.counted)) (omega arith) (omega (int_laws, s.opens, s.last_in)))

  exact_counted :
      add_i64 (sub_i64 o.last.collections o.first.collections) (pos 0)
      ≡ o.last.collections -ℤ o.first.collections
  exact_counted = rw rise (
      add_i64_le (o.last.collections -ℤ o.first.collections) (pos 0)
        (omega (int_laws, s.read, s.counted)) (omega arith) (omega (int_laws, s.opens, s.last_in))
      ∙ omega int_laws)

  -- The Records read fit in an `i64`.
  sampled_small : as_i64 o.sampled ≡ pos o.sampled
  sampled_small = as_i64_small o.sampled (omega (arith, s.counted, s.last_in, s.opens))

pub saturating_add-le : (a b : ℤ) → saturating_add a b ≤ℤ pos (i64_half - 1)
unfolding saturating_add
saturating_add-le a b = ground arith

module _ {F : Type 0} ⦃f : Float64 F⦄ (o : RingObservation F) where
  pub account_timed : o.timed ≡ true → IsSpan o → account o ≡ price_account o (count_account o)
  unfolding account
  account_timed t s = rw (span_nonempty o s, t)

  pub account_counted : o.timed ≡ false → IsSpan o → account o ≡ count_account o
  unfolding account
  account_counted t s = rw (span_nonempty o s, t)

  -- Pricing leaves the counts alone.
  price-exact : (a : LossAccount F) → (price_account o a).exact_collections ≡ a.exact_collections
  unfolding price_account
  price-exact a = ground arith

  price-observed :
      (a : LossAccount F) → (price_account o a).observed_collections ≡ a.observed_collections
  unfolding price_account
  price-observed a = ground arith

  price-lost : (a : LossAccount F) → (price_account o a).lost_collections ≡ a.lost_collections
  unfolding price_account
  price-lost a = ground arith

  -- The Collections of a span: those that the counter counts, and of them those read.
  abbrev ran : ℤ
  ran = o.last.collections -ℤ o.first.collections +ℤ from_bool o.timed

  abbrev seen : ℤ
  seen = if o.timed then pos o.sampled else pos 0

  -- The counts of an account, in exact arithmetic.
  record Counts (a : LossAccount F) : Type 0 where
    exact : a.exact_collections ≡ ran
    observed : a.observed_collections ≡ seen
    lost : a.lost_collections ≡ ran -ℤ seen

  seen_bounds : IsSpan o → (pos 0 ≤ℤ seen) × (seen ≤ℤ ran) × (ran ≤ℤ pos (i64_half - 1))
  seen_bounds s = elim (Bool-cases o.timed) [
    | inl t ↦ rw t (omega arith, omega (int_laws, s.counted), omega (int_laws, s.opens, s.last_in))
    | inr t ↦
        rw t
          (omega arith, omega (int_laws, s.read, s.counted), omega (int_laws, s.opens, s.last_in))
  ]

  exact_ran :
      IsSpan o → add_i64 (sub_i64 o.last.collections o.first.collections) (from_bool o.timed) ≡ ran
  exact_ran s = elim (Bool-cases o.timed) [
    | inl t ↦ rw t (exact_timed o s)
    | inr t ↦ rw t (exact_counted o s ∙ omega int_laws)
  ]

  observed_seen : IsSpan o → (if o.timed then as_i64 o.sampled else pos 0) ≡ seen
  observed_seen s = rw (sampled_small o s)

  count-Counts : IsSpan o → Counts (count_account o)
  unfolding count_account
  count-Counts s = record {
    exact = exact_ran s;
    observed = observed_seen s;
    lost =
        rw (exact_ran s, observed_seen s)
          (sub_i64_le ran seen (seen_bounds s).0 (seen_bounds s).1 (seen_bounds s).2);
  }

  -- The counts of a ring that was read add up: what ran is the rise of the counter, with the
  -- Record that opened the span where an Entry is a Collection; what was observed is the Records
  -- read on such a build and none on another; what was lost is the rest, and none is negative.
  pub account_counts :
      IsSpan o
      → ((account o).exact_collections
          ≡ o.last.collections -ℤ o.first.collections +ℤ from_bool o.timed)
        × ((account o).observed_collections ≡ (if o.timed then pos o.sampled else pos 0))
        × ((account o).exact_collections
            ≡ (account o).observed_collections +ℤ (account o).lost_collections)
        × (pos 0 ≤ℤ (account o).observed_collections)
        × (pos 0 ≤ℤ (account o).lost_collections)
  account_counts s =
      let n = counts in
      (
        n.exact,
        n.observed,
        rw (n.exact, n.observed, n.lost) (omega int_laws),
        rw n.observed (seen_bounds s).0,
        rw n.lost (omega (int_laws, (seen_bounds s).1)),
      )
    where
      counts : Counts (account o)
      counts = elim (Bool-cases o.timed) [
        | inl t ↦ rw (account_timed t s) (record {
          exact = price-exact (count_account o) ∙ (count-Counts s).exact;
          observed = price-observed (count_account o) ∙ (count-Counts s).observed;
          lost = price-lost (count_account o) ∙ (count-Counts s).lost;
        })
        | inr t ↦ rw (account_counted t s) (count-Counts s)
      ]
